-- ===== src/Receiver.antt =====
-- A receiver of RTP payloads by RFC 7798 (section 4.4), which is not part of the program: it says
-- what the payloads that the program sends mean. Packets come in order and none is lost.
pub mod H264
use rtsp_h.Prelude.{
  ℕ, zero, suc, ◌+◌, ◌*◌, ◌/◌, ◌%◌, ◌≡◌, ◌&&◌, List, [], ◌∷◌, ◌++◌, refl, ◌==◌, if◌then◌else◌,
  Bytes, take, drop, length,
}

-- The fragments of the NAL unit that is being put together, and the NAL units received.
pub record Receiver : Type 0 where
  pub pending : Bytes
  pub units : List Bytes

abbrev pub fresh : Receiver
fresh = record { pending = []; units = [] }

-- The type field of a payload header.
abbrev pub payload_type : ℕ → ℕ
payload_type b = b / 2 % 64

-- Section 4.4.3: the first fragment gives the NAL header, with the type of the FU header. A packet
-- with both the S and the E bit is refused.
unfoldable pub receive_fu : Receiver → ℕ → Bytes → Receiver
receive_fu r h₀ (h₁ ∷ fu ∷ body) =
    let start = fu / 128 == 1 in
    let finish = fu / 64 % 2 == 1 in
    let so_far =
      if start then (h₀ / 128 * 128 + fu % 64 * 2 + h₀ % 2) ∷ h₁ ∷ body else r.pending ++ body in
    if start && finish
    then r
    else if finish
    then record { pending = []; units = r.units ++ so_far ∷ [] }
    else record r { pending = so_far }
receive_fu r h₀ _ = r

-- Section 4.4.2: the entries of an aggregation packet, each behind its size. The fuel is the number
-- of bytes.
unfoldable pub entries : ℕ → Bytes → List Bytes
entries zero _ = []
entries (suc k) (hi ∷ lo ∷ rest) = take (hi * 256 + lo) rest ∷ entries k (drop (hi * 256 + lo) rest)
entries (suc k) _ = []

unfoldable pub receive_ap : Receiver → Bytes → Receiver
receive_ap r (h₁ ∷ rest) = record r { units = r.units ++ entries (length rest) rest }
receive_ap r [] = r

unfoldable pub receive : Receiver → Bytes → Receiver
receive r [] = r
receive r (h₀ ∷ rest) =
    if payload_type h₀ == 49
    then receive_fu r h₀ rest
    else if payload_type h₀ == 48
    then receive_ap r rest
    else record r { units = r.units ++ (h₀ ∷ rest) ∷ [] }

unfoldable pub receive_all : Receiver → List Bytes → Receiver
receive_all r [] = r
receive_all r (p ∷ ps) = receive_all (receive r p) ps

pub receive_all-append :
    (r : Receiver) (ps qs : List Bytes)
    → receive_all r (ps ++ qs) ≡ receive_all (receive_all r ps) qs
unfolding receive_all
receive_all-append r [] qs = refl
receive_all-append r (p ∷ ps) qs = receive_all-append (receive r p) ps qs
