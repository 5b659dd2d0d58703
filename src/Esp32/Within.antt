-- ===== src/Esp32/Within.antt =====
-- src/platglue-esp32.h: reads and sockets on the ESP32.
use rtsp_h.Prelude.{
  ℕ, ◌≤◌, ◌<◌, ◌≡◌, Option, List, [], ◌∷◌, ◌==◌, Bool-cases, inl, inr, Bytes, length, arith, some,
}
use rtsp_h.Esp32.{WifiClient, num_avail, esp32_socketread}

-- A `socketread` that gives no more bytes than it is asked for.
abbrev pub IsReader : (ℕ → ℕ → Option Bytes) → Type 0
IsReader read = (sock n : ℕ) (chunk : Bytes) → read sock n ≡ some chunk → length chunk ≤ n

-- `readBytes` gives no more bytes than it is asked for.
abbrev pub IsWifi : (ℕ → WifiClient) → Type 0
IsWifi client = (sock n : ℕ) → length ((client sock).read_bytes n) ≤ n

-- `socketread` with the timeout of `workerThread`
abbrev pub wifi_read : (ℕ → WifiClient) → ℕ → ℕ → Option Bytes
wifi_read client sock n = esp32_socketread client 10 sock n

-- A read gives no more bytes than it is asked for.
pub wifi_read-IsReader : (client : ℕ → WifiClient) → IsWifi client → IsReader (wifi_read client)
unfolding esp32_socketread
wifi_read-IsReader client fits sock n chunk h = elim (Bool-cases (client sock).connected) [
  | inr gone ↦ let same : chunk ≡ [] = ground arith in rw same (omega arith)
  | inl there ↦ elim (Bool-cases (num_avail (client sock) 10 == 0)) [
    | inl nothing ↦ ground arith
    | inr some_there ↦
        let same : (client sock).read_bytes n ≡ chunk = ground arith in rw (← same) (fits sock n)
  ]
]

-- The sockets on the heap have been made.
abbrev pub AllMade : ℕ → List (ℕ × ℕ) → Type 0
AllMade n [] = Unit
AllMade n ((s, port) ∷ rest) = (s < n) × AllMade n rest
