-- ===== src/Files.antt =====
-- src/Utils.cpp, `readFile`: the file to send, as one buffer. What the system does is an argument.
pub mod Whole
use rtsp_h.Prelude.{
  ℕ, ◌-◌, ◌%◌, ◌^◌, Bool, true, false, not, ◌||◌, Option, none, some, ltb, ◌==◌, if◌then◌else◌,
  ◌>>=◌, Bytes, write, length, replicate, ℤ, pos, negsuc,
}

-- Whether `fopen` succeeds, the size that `stat` tells (0 where it fails), whether `malloc` succeeds,
-- and the bytes that `fread` gives when it is asked for so many.
pub record FileSystem : Type 0 where
  pub opens : Bytes → Bool
  pub st_size : Bytes → ℕ
  pub allocates : ℕ → Bool
  pub freads : Bytes → ℕ → Bytes

-- What `readFile` returns, `*stream` and `*len` after it, and whether the file is still open.
pub record ReadFile : Type 0 where
  pub res : ℤ
  pub stream : Bytes
  pub len : ℤ
  pub left_open : Bool

-- `(int)size`
unfoldable pub to_int : ℕ → ℤ
to_int size = let n = size % 2 ^ 32 in if ltb n (2 ^ 31) then pos n else negsuc (2 ^ 32 - 1 - n)

-- `malloc` and `memset`, which faults on `NULL` unless there is nothing to set.
unfoldable pub zeroed : FileSystem → ℕ → Option Bytes
zeroed fs size = if fs.allocates size || size == 0 then some (replicate size 0) else none

-- `readFile`, with `*stream` and `*len` as they are before it.
unfoldable pub read_file : FileSystem → Bytes → Bytes → ℤ → Option ReadFile
read_file fs file stream len =
    if not (fs.opens file)
    then some (record { res = negsuc 0; stream = stream; len = len; left_open = false })
    else do
      let size = fs.st_size file
      buf ← zeroed fs size
      buf' ← write buf 0 (fs.freads file size)
      some (
          if not (length (fs.freads file size) == size)
          then record { res = negsuc 0; stream = stream; len = len; left_open = true }
          else record { res = pos 0; stream = buf'; len = to_int size; left_open = false })
