-- ===== src/Rtsp/Bounds.antt =====
-- src/CRtspSession.cpp, `handleRequests`: the size of the receive buffer, and the position in it.
use rtsp_h.Prelude.{
  ℕ, ◌+◌, ◌-◌, ◌≤◌, ◌<◌, ◌≡◌, refl, ap, ◌∙◌, Bool, true, false, not, ◌||◌, Option, none, some, [],
  ◌∷◌, ◌++◌, if◌then◌else◌, Bytes, length, length-append, length-take, length-drop, write, take,
  drop, arith, ◌==◌, leb, le→leb, Bool-cases, inl, inr, bind-eq-some,
}
use rtsp_h.Session.{Session, rtsp_buffer_size}
use rtsp_h.Transport.{System}
use rtsp_h.Rtsp.Handlers.{Rtsp, with_session, handle_rtsp_request}
use rtsp_h.Rtsp.Inbox.{
  Inbox, is_unknown, is_invalid, clear_full, room, find_method, header_ended, bad_request,
  finish_request, store_chunk, receive_bytes, handle_read, handle_requests,
}

pub record IsInbox (b : Inbox) : Type 0 where
  pub size : length b.recv_buf ≡ rtsp_buffer_size
  pub inside : b.buf_pos < rtsp_buffer_size

length-write :
    (m : Bytes) (p : ℕ) (x : Bytes) {m' : Bytes} → write m p x ≡ some m' → length m' ≡ length m
unfolding write
length-write m p x h = ground (
  arith,
  length-append {0} (take p m) (x ++ drop (p + length x) m),
  length-append {0} x (drop (p + length x) m),
  length-take {0} p m,
  length-drop {0} (p + length x) m,
)

write-inside :
    (m : Bytes) (p : ℕ) (x : Bytes) {n : ℕ} {m' : Bytes}
    → length m ≡ n
    → write m p x ≡ some m'
    → p + length x ≤ n
unfolding write
write-inside m p x size h = ground (arith, size)

store_chunk-size :
    (b : Inbox) (chunk : Bytes) {m : Bytes}
    → IsInbox b
    → store_chunk b chunk ≡ some m
    → length m ≡ rtsp_buffer_size
unfolding store_chunk
store_chunk-size b chunk v h =
    let (m₁, e₁, e₂) = bind-eq-some (write b.recv_buf b.buf_pos chunk) _ h in
    length-write m₁ _ _ e₂ ∙ (length-write (b.recv_buf) _ _ e₁ ∙ v.size)

-- The '\0' behind the read is inside the buffer.
store_chunk-inside :
    (b : Inbox) (chunk : Bytes) {m : Bytes}
    → IsInbox b
    → store_chunk b chunk ≡ some m
    → b.buf_pos + length chunk < rtsp_buffer_size
unfolding store_chunk
store_chunk-inside b chunk v h =
    let (m₁, e₁, e₂) = bind-eq-some (write b.recv_buf b.buf_pos chunk) _ h in
    let size : length m₁ ≡ rtsp_buffer_size = length-write b.recv_buf b.buf_pos chunk e₁ ∙ v.size in
    omega (arith, write-inside m₁ (b.buf_pos + length chunk) (0 ∷ []) size e₂)

write-fits :
    (m : Bytes) (p : ℕ) (x : Bytes)
    → p + length x ≤ length m
    → (m' : Bytes) × (write m p x ≡ some m')
unfolding write
write-fits m p x fits =
    (take p m ++ (x ++ drop (p + length x) m), rw (le→leb (p + length x) (length m) fits) refl)

-- The next read asks for a byte at least, and whatever it gives, up to what it asks for, is stored
-- inside the buffer with the '\0' behind it.
pub record Stores (b : Inbox) : Type 0 where
  pub asks : 0 < room (clear_full b)
  pub stores :
      (chunk : Bytes)
      → length chunk ≤ room (clear_full b)
      → (m : Bytes) × (store_chunk (clear_full b) chunk ≡ some m) × (length m ≡ rtsp_buffer_size)

clear_full-room : (b : Inbox) → IsInbox b → (clear_full b).buf_pos < rtsp_buffer_size - 1
unfolding clear_full
clear_full-room b v = elim (Bool-cases (b.buf_pos == 0 || leb (rtsp_buffer_size - 1) b.buf_pos)) [
  | inl anew ↦ rw anew (omega arith)
  | inr kept ↦ rw kept (ground (arith, v.inside))
]

clear_full-IsInbox : (b : Inbox) → IsInbox b → IsInbox (clear_full b)
unfolding clear_full
clear_full-IsInbox b v =
    elim (Bool-cases (b.buf_pos == 0 || leb (rtsp_buffer_size - 1) b.buf_pos)) [
      | inl anew ↦ rw anew (record { size = refl; inside = omega arith })
      | inr kept ↦ rw kept v
    ]

pub IsInbox-Stores : (b : Inbox) → IsInbox b → Stores b
unfolding store_chunk
IsInbox-Stores b v =
    let c = clear_full b in
    let k = clear_full-IsInbox b v in
    let below = clear_full-room b v in
    record {
      asks = omega (arith, below);
      stores = λ chunk fits.
          let (m₁, e₁) = write-fits c.recv_buf c.buf_pos chunk (omega (arith, k.size, below)) in
          let (m₂, e₂) =
            write-fits m₁ (c.buf_pos + length chunk) (0 ∷ [])
              (omega (arith, k.size, below, length-write c.recv_buf c.buf_pos chunk e₁)) in
          let stored : store_chunk c chunk ≡ some m₂ = rw e₁ e₂ in
          (m₂, stored, store_chunk-size c chunk k stored);
    }

find_method-same :
    (s : Session) (b : Inbox) {s' : Session} {b' : Inbox}
    → find_method s b ≡ some (s', b')
    → (b'.buf_pos ≡ b.buf_pos) × (b'.recv_buf ≡ b.recv_buf)
unfolding find_method
find_method-same s b h = ground arith

finish_request-IsInbox :
    (sys : System) (date : Bytes) (r : Rtsp) (b : Inbox) (res : ℕ) {answered : Bool} {r' : Rtsp}
    {b' : Inbox}
    → IsInbox b
    → finish_request sys date r b res ≡ some (answered, r', b')
    → IsInbox b'
unfolding finish_request
finish_request-IsInbox sys date r b res {b' = b'} v h =
    let ((r₁, cmd), e, h₁) = bind-eq-some (handle_rtsp_request sys date r b.recv_buf res) _ h in
    let same : (b'.recv_buf ≡ b.recv_buf) × (b'.buf_pos ≡ 0) = ground arith in
    record { size = rw (same.0) (v.size); inside = rw (same.1) (omega arith) }

receive_bytes-IsInbox :
    (sys : System) (date chunk : Bytes) (r : Rtsp) (b : Inbox) {answered : Bool} {r' : Rtsp}
    {b' : Inbox}
    → IsInbox b
    → receive_bytes sys date chunk r b ≡ some (answered, r', b')
    → IsInbox b'
unfolding receive_bytes
receive_bytes-IsInbox sys date chunk r b {b' = b'} v h =
    let (m₂, e₂, h₂) = bind-eq-some (store_chunk b chunk) _ h in
    let ((s, b₁), e₃, h₃) =
      bind-eq-some
        (find_method (r.session) (record b { buf_pos = b.buf_pos + length chunk; recv_buf = m₂ })) _
        h₂ in
    let (at, kept) = find_method-same (r.session) _ e₃ in
    let sized = store_chunk-size b chunk v e₂ in
    let v₁ : IsInbox b₁ = record {
      size = ap (length {A = ℕ}) kept ∙ sized;
      inside = rw at (store_chunk-inside b chunk v e₂);
    } in
    let r₁ = with_session r s in
    elim (Bool-cases (is_unknown b₁.state)) [
      | inl unknown ↦ finish_request-IsInbox sys date r₁ b₁ (length chunk) v₁ (rw unknown at h₃)
      | inr known ↦ elim (Bool-cases (not (header_ended b₁))) [
        | inl more ↦
            let h₄ = rw (known, more) at h₃ in let same : b' ≡ b₁ = ground arith in rw same v₁
        | inr whole ↦ elim (Bool-cases (is_invalid b₁.state)) [
          | inl bad ↦
              let h₄ = rw (known, whole, bad) at h₃ in
              let (m₃, e₄, h₅) =
                bind-eq-some (write b₁.recv_buf 0 (bad_request s ++ (0 ∷ []))) _ h₄ in
              let same : (b'.recv_buf ≡ m₃) × (b'.buf_pos ≡ 0) = ground arith in
              record {
                size = ap (length {A = ℕ}) (same.0) ∙ (length-write (b₁.recv_buf) _ _ e₄ ∙ v₁.size);
                inside = rw (same.1) (omega arith);
              }
          | inr good ↦
              finish_request-IsInbox sys date r₁ b₁ (length chunk) v₁
                (rw (known, whole, good) at h₃)
        ]
      ]
    ]

read-IsInbox :
    (sys : System) (date : Bytes) (received : Option Bytes) (r : Rtsp) (b : Inbox) {answered : Bool}
    {r' : Rtsp} {b' : Inbox}
    → IsInbox b
    → handle_read sys date received r b ≡ some (answered, r', b')
    → IsInbox b'
read-IsInbox sys date none r b {b' = b'} v h = let same : b' ≡ b = ground arith in rw same v
read-IsInbox sys date (some chunk) r b {b' = b'} v h = elim (Bool-cases (length chunk == 0)) [
  | inl closed ↦ let h₁ = rw closed at h in let same : b' ≡ b = ground arith in rw same v
  | inr bytes ↦ receive_bytes-IsInbox sys date chunk r b v (rw bytes at h)
]

guarded-IsInbox :
    (sys : System) (date : Bytes) (received : Option Bytes) (r : Rtsp) (b : Inbox) (stopped : Bool)
    {answered : Bool} {r' : Rtsp} {b' : Inbox}
    → IsInbox b
    → (if stopped then some (false, r, b) else handle_read sys date received r (clear_full b))
      ≡ some (answered, r', b')
    → IsInbox b'
guarded-IsInbox sys date received r b true {b' = b'} v h =
    let same : b' ≡ b = ground arith in rw same v
guarded-IsInbox sys date received r b false v h =
    read-IsInbox sys date received r (clear_full b) (clear_full-IsInbox b v) h

pub handle_requests-IsInbox :
    (sys : System) (date : Bytes) (received : Option Bytes) (r : Rtsp) (b : Inbox) {answered : Bool}
    {r' : Rtsp} {b' : Inbox}
    → IsInbox b
    → handle_requests sys date received r b ≡ some (answered, r', b')
    → IsInbox b'
unfolding handle_requests
handle_requests-IsInbox sys date received r b v h =
    guarded-IsInbox sys date received r b (r.session.stopped) v h

-- With a receive buffer of 500 bytes and the position inside it: the read asks for a byte at least;
-- whatever it gives, up to what it asks for, is stored inside the buffer with the '\0' behind it; and
-- every call that returns leaves the buffer with its size and the position inside it.
pub handle_requests-Stores :
    (sys : System) (date : Bytes) (received : Option Bytes) (r : Rtsp) (b : Inbox)
    → IsInbox b
    → Stores b
      × ((answered : Bool) (r' : Rtsp) (b' : Inbox)
          → handle_requests sys date received r b ≡ some (answered, r', b')
          → IsInbox b')
handle_requests-Stores sys date received r b v =
    (IsInbox-Stores b v, λ answered r' b' h. handle_requests-IsInbox sys date received r b v h)
