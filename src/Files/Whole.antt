-- ===== src/Files/Whole.antt =====
-- src/Utils.cpp, `readFile`: what it gives, and when that is the file.
use rtsp_h.Prelude.{
  ℕ, ◌%◌, ◌^◌, ◌≤◌, ◌<◌, ◌≡◌, ◌≢◌, ◌⊎◌, refl, ap, sym, ◌∙◌, true, false, not, some, [], ◌++◌,
  append-nil, lt→ltb, ◌==◌, if◌then◌else◌, Bytes, write, over, write-over_at, length,
  length-replicate, drop, drop-length, replicate, ℤ, pos, negsuc, arith, Bool-cases, inl, inr,
}
use rtsp_h.Files.{FileSystem, ReadFile, to_int, zeroed, read_file}

-- `readFile` gave what `fread` read, as many bytes as `stat` told, and closed the file.
pub record Whole (fs : FileSystem) (file : Bytes) (out : ReadFile) : Type 0 where
  pub res : out.res ≡ pos 0
  pub opened : fs.opens file ≡ true
  pub all : length (fs.freads file (fs.st_size file)) ≡ fs.st_size file
  pub stream : out.stream ≡ fs.freads file (fs.st_size file)
  pub len : out.len ≡ to_int (fs.st_size file)
  pub shut : out.left_open ≡ false

-- `readFile` failed and left the stream as it was, and a file that it opened stays open.
pub record Failed (fs : FileSystem) (file stream : Bytes) (len : ℤ) (out : ReadFile) : Type 0 where
  pub res : out.res ≡ negsuc 0
  pub why : fs.opens file ≡ true → length (fs.freads file (fs.st_size file)) ≢ fs.st_size file
  pub stream_kept : out.stream ≡ stream
  pub len_kept : out.len ≡ len
  pub left : out.left_open ≡ fs.opens file

pub to_int-pos : (n : ℕ) → n < 2 ^ 31 → to_int n ≡ pos n
unfolding to_int
to_int-pos n small =
    let small' : n % 2 ^ 32 ≡ n = omega arith in rw (small', lt→ltb n (2 ^ 31) small) refl

over-replicate : (n : ℕ) (xs : Bytes) → length xs ≡ n → over xs (replicate n 0) ≡ xs
over-replicate n xs e =
    ap (λ (r : Bytes). xs ++ r)
      (ap (λ (k : ℕ). drop k (replicate n 0)) (e ∙ sym (length-replicate n 0))
        ∙ drop-length (replicate n 0))
    ∙ append-nil xs

write-zeroed :
    (n : ℕ) (xs : Bytes)
    → length xs ≤ n
    → write (replicate n 0) 0 xs ≡ some (over xs (replicate n 0))
write-zeroed n xs fits =
    write-over_at [] (replicate n 0) xs 0 refl (omega (arith, length-replicate {A = ℕ} n 0))

-- Asked to read the file, the system gives no more bytes than it is asked for, and there is memory.
pub record CanRead (fs : FileSystem) (file : Bytes) : Type 0 where
  pub fits : length (fs.freads file (fs.st_size file)) ≤ fs.st_size file
  pub memory : fs.allocates (fs.st_size file) ≡ true

module _ (fs : FileSystem) (file stream : Bytes) (len : ℤ) where
  -- What `fread` gave, and the zeros behind it.
  abbrev contents : Bytes
  contents = over (fs.freads file (fs.st_size file)) (replicate (fs.st_size file) 0)

  read_file-opened :
      CanRead fs file
      → fs.opens file ≡ true
      → read_file fs file stream len
        ≡ some (
            if not (length (fs.freads file (fs.st_size file)) == fs.st_size file)
            then record { res = negsuc 0; stream = stream; len = len; left_open = true }
            else record {
              res = pos 0;
              stream = contents;
              len = to_int (fs.st_size file);
              left_open = false;
            })
  unfolding read_file zeroed
  read_file-opened can opened =
      let written = write-zeroed (fs.st_size file) (fs.freads file (fs.st_size file)) can.fits in
      rw (opened, can.memory, written) refl

  pub read_file-whole :
      CanRead fs file
      → fs.opens file ≡ true
      → length (fs.freads file (fs.st_size file)) ≡ fs.st_size file
      → read_file fs file stream len
        ≡ some (record {
          res = pos 0;
          stream = fs.freads file (fs.st_size file);
          len = to_int (fs.st_size file);
          left_open = false;
        })
  read_file-whole can opened all =
      let same : (length (fs.freads file (fs.st_size file)) == fs.st_size file) ≡ true =
        ground arith in
      read_file-opened can opened
      ∙ rw (same, over-replicate (fs.st_size file) (fs.freads file (fs.st_size file)) all) refl

  read_file-short :
      CanRead fs file
      → fs.opens file ≡ true
      → (length (fs.freads file (fs.st_size file)) == fs.st_size file) ≡ false
      → read_file fs file stream len
        ≡ some (record { res = negsuc 0; stream = stream; len = len; left_open = true })
  read_file-short can opened other = read_file-opened can opened ∙ rw other refl

  -- When memory is got and `fread` gives no more than is asked for, `readFile` returns. It returns 0
  -- only for a file that opens and of which as many bytes were read as `stat` told: then the buffer is
  -- these bytes, the length is their number as a signed integer of 32 bits, and the file is closed.
  -- Otherwise it returns -1 and leaves the buffer and the length as they were, and a file that was
  -- opened stays open.
  pub read_file-Whole :
      CanRead fs file
      → (out : ReadFile) × (read_file fs file stream len ≡ some out)
        × (Whole fs file out ⊎ Failed fs file stream len out)
  unfolding read_file
  read_file-Whole can = elim (Bool-cases (fs.opens file)) [
    | inr shut ↦ (
      record { res = negsuc 0; stream = stream; len = len; left_open = false },
      rw shut refl,
      inr (record {
        res = refl;
        why = λ opened. ground arith;
        stream_kept = refl;
        len_kept = refl;
        left = sym shut;
      }),
    )
    | inl opened ↦
        elim (Bool-cases (length (fs.freads file (fs.st_size file)) == fs.st_size file)) [
          | inl same ↦
              let all : length (fs.freads file (fs.st_size file)) ≡ fs.st_size file =
                ground arith in
              (
                _,
                read_file-whole can opened all,
                inl (record {
                  res = refl;
                  opened = opened;
                  all = all;
                  stream = refl;
                  len = refl;
                  shut = refl;
                }),
              )
          | inr other ↦ (
            _,
            read_file-short can opened other,
            inr (record {
              res = refl;
              why = λ _ all. ground arith;
              stream_kept = refl;
              len_kept = refl;
              left = sym opened;
            }),
          )
        ]
  ]
