-- ===== src/Receiver/H264.antt =====
-- A receiver of RTP payloads by RFC 6184 (sections 5.6 to 5.8), which is not part of the program:
-- single units, aggregation packets of type 24 and fragments of type 28. Packets come in order and
-- none is lost.
use rtsp_h.Prelude.{
  ◌+◌, ◌*◌, ◌/◌, ◌%◌, ◌≡◌, ◌&&◌, List, [], ◌∷◌, ◌++◌, refl, ◌==◌, if◌then◌else◌, Bytes, length, ℕ,
}
use rtsp_h.Receiver.{Receiver, entries, receive, receive_all}

-- Section 5.8: the first fragment gives the NAL header, with the F bit and the NRI of the indicator
-- and the type of the FU header. A packet with both the S and the E bit is refused.
unfoldable pub receive_fu_a : Receiver → ℕ → Bytes → Receiver
receive_fu_a r indicator (fu ∷ body) =
    let start = fu / 128 == 1 in
    let finish = fu / 64 % 2 == 1 in
    let so_far = if start then (indicator / 32 * 32 + fu % 32) ∷ body else r.pending ++ body in
    if start && finish
    then r
    else if finish
    then record { pending = []; units = r.units ++ so_far ∷ [] }
    else record r { pending = so_far }
receive_fu_a r indicator [] = r

unfoldable pub receive_h264 : Receiver → Bytes → Receiver
receive_h264 r [] = r
receive_h264 r (head ∷ rest) =
    if head % 32 == 28
    then receive_fu_a r head rest
    else if head % 32 == 24
    then record r { units = r.units ++ entries (length rest) rest }
    else record r { units = r.units ++ (head ∷ rest) ∷ [] }

-- A receiver of either codec, over payloads one after the other.
abbrev pub take_in : (Receiver → Bytes → Receiver) → Receiver → List Bytes → Receiver
take_in get r [] = r
take_in get r (p ∷ ps) = take_in get (get r p) ps

pub take_in-append :
    (get : Receiver → Bytes → Receiver) (r : Receiver) (ps qs : List Bytes)
    → take_in get r (ps ++ qs) ≡ take_in get (take_in get r ps) qs
take_in-append get r [] qs = refl
take_in-append get r (p ∷ ps) qs = take_in-append get (get r p) ps qs

pub take_in-receive_all : (r : Receiver) (ps : List Bytes) → take_in receive r ps ≡ receive_all r ps
unfolding receive_all
take_in-receive_all r [] = refl
take_in-receive_all r (p ∷ ps) = take_in-receive_all (receive r p) ps
