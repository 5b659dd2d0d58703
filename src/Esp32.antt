-- ===== src/Esp32.antt =====
-- src/platglue-esp32.h: the layer for the ESP32. What the clients and the UDP sockets of its library
-- answer are arguments.
pub mod Within
use rtsp_h.Prelude.{
  ℕ, ◌+◌, Bool, not, ◌&&◌, Option, none, some, List, [], ◌∷◌, ◌++◌, ◌==◌, if◌then◌else◌, Bytes,
}

-- What a client answers in one call: whether it is connected, how many bytes are there at once and
-- after the delay, and what `readBytes` gives.
pub record WifiClient : Type 0 where
  pub connected : Bool
  pub available : ℕ
  pub available_later : ℕ
  pub read_bytes : ℕ → Bytes

-- `numAvail`
unfoldable pub num_avail : WifiClient → ℕ → ℕ
num_avail sock timeoutmsec =
    if sock.available == 0 && not (timeoutmsec == 0) then sock.available_later else sock.available

-- `socketread`: a timeout, -1 in the program, is `none`, and 0 is no bytes.
unfoldable pub esp32_socketread : (ℕ → WifiClient) → ℕ → ℕ → ℕ → Option Bytes
esp32_socketread client timeoutmsec sock buflen =
    if not (client sock).connected
    then some []
    else if num_avail (client sock) timeoutmsec == 0
    then none
    else some ((client sock).read_bytes buflen)

-- The UDP sockets that were made and not yet deleted, by the port of each; the next is the number of
-- all that were made.
pub record Heap : Type 0 where
  pub made : ℕ
  pub live : List (ℕ × ℕ)

abbrev pub without : ℕ → List (ℕ × ℕ) → List (ℕ × ℕ)
without s [] = []
without s ((t, port) ∷ rest) = if t == s then without s rest else (t, port) ∷ without s rest

-- `udpsocketcreate`: `begins` says whether a socket can be bound to a port.
unfoldable pub esp32_udpsocketcreate : (ℕ → Bool) → Heap → ℕ → Heap × Option ℕ
esp32_udpsocketcreate begins h port =
    let s = h.made in
    let live = (s, port) ∷ h.live in
    if not (begins port)
    then (record { made = s + 1; live = without s live }, none)
    else (record { made = s + 1; live = live }, some s)

-- `udpsocketclose`
unfoldable pub esp32_udpsocketclose : Heap → Option ℕ → Heap
esp32_udpsocketclose h none = h
esp32_udpsocketclose h (some s) = record h { live = without s h.live }
