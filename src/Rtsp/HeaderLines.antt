-- ===== src/Rtsp/HeaderLines.antt =====
-- src/CRtspSession.cpp, `ParseRtspRequest`: every header of a fine text, and all of them.
use rtsp_h.Prelude.{
  ℕ, zero, suc, ◌+◌, ◌-◌, ◌<◌, ◌≡◌, refl, ap, inl, inr, Bool, true, false, not, ◌&&◌, some, ◌==◌,
  if◌then◌else◌, Bool-cases, Bytes, get_elem?, drop, length, arith,
}
use rtsp_h.Session.{Session}
use rtsp_h.Rtsp.Text.{codes, cr, isspace, strncmp, skip_while, subtract}
use rtsp_h.Rtsp.Parsed.{Parsed, ok, ◌>>=◌, lift}
use rtsp_h.Rtsp.Parser.{is_setup, numeric, param_loop, parse_transport, parse_header, header_loop}
use rtsp_h.Rtsp.Fine.{fine, Within, fine-get, skip_while-Within, strncmp-Within}
use rtsp_h.Rtsp.FineLines.{
  parse_numeric_header-Within, skip_leftovers-Within, is_garbage-Within, glue-Within,
}
use rtsp_h.Rtsp.Returns.{
  Same, Returns, accepts, refuses, Returns-bind, Read, Read-weaken, Within-weaken,
  param_loop-Returns,
}

all_params :
    (s₀ s : Session) (t : Bytes) (n : ℕ)
    → Same s₀ s
    → Within n t
    → Returns s₀ (Read s₀ n) (param_loop (length t + 1) s t)
all_params s₀ s t n same w = Read-weaken s₀ (length t) n (param_loop (length t + 1) s t) w.short (
    param_loop-Returns (length t + 1) s₀ s t (length t) same
      (record { is_fine = w.is_fine; short = omega arith }) (omega arith))

parse_transport-Returns :
    (s₀ s : Session) (t : Bytes) (n : ℕ)
    → Same s₀ s
    → Within n t
    → Returns s₀ (Read s₀ n) (parse_transport s t)
unfolding parse_transport
parse_transport-Returns s₀ s t n same w =
    let (t₁, e₁, w₁) = skip_while-Within isspace t n refl w in
    let told = λ (b : Bool).
      let same' : Same s₀ (record s { tcp_transport = b; client_rtp_port = 0 }) = record {
        streaming = same.streaming;
        stopped = same.stopped;
        kind = same.kind;
        client = same.client;
        id = same.id;
        stream = same.stream;
      } in
      same' in
    rw e₁ (elim (strncmp-Within (codes "RTP/AVP") t₁ n refl w₁) [
      | inl (found, w₂) ↦
          let w₂' = Within-weaken n (drop 7 t₁) (omega arith) w₂ in
          rw found (elim (strncmp-Within (codes "/TCP") (drop 7 t₁) n refl w₂') [
            | inl (tcp, w₃) ↦
                let w₃' = Within-weaken n (drop 4 (drop 7 t₁)) (omega arith) w₃ in
                rw tcp (
                  all_params s₀ (record s { tcp_transport = true; client_rtp_port = 0 })
                    (drop 4 (drop 7 t₁)) n (told true) w₃')
            | inr udp ↦ rw udp (
                all_params s₀ (record s { tcp_transport = false; client_rtp_port = 0 }) (drop 7 t₁)
                  n (told false) w₂')
          ])
      | inr missing ↦ rw missing (refuses same)
    ])

numeric-Returns :
    (s₀ s : Session) (set : ℕ → Session) (t : Bytes) (size offset n : ℕ)
    → Same s₀ s
    → ((v : ℕ) → Same s₀ (set v))
    → Within n t
    → Returns s₀ (Read s₀ n) (numeric s set t size offset)
numeric-Returns s₀ s set t size offset n same kept w =
    elim (parse_numeric_header-Within t (subtract size offset) n w) [
      | inl none_there ↦ rw none_there (refuses same)
      | inr (rest, v, e, w') ↦ rw e (accepts (kept v, w'))
    ]

-- The rest of a line is skipped.
abbrev in_line : ℕ → Bool
in_line c = not (c == 0) && not (c == cr)

abbrev skip_line : Session × Bytes → Parsed (Session × Bytes)
skip_line x = lift (skip_while in_line x.1) >>= λ t. ok (x.0, t)

skip_line-Returns :
    (s₀ : Session) (n : ℕ) (x : Session × Bytes)
    → Read s₀ n x
    → Returns s₀ (Read s₀ n) (skip_line x)
skip_line-Returns s₀ n x h =
    let (t, e, w) = skip_while-Within in_line x.1 n refl h.1 in rw e (accepts (h.0, w))

-- The transport of a SETUP, or the rest of any other header.
other_header :
    (s₀ s : Session) (g : Bytes) (n : ℕ)
    → Same s₀ s
    → Within n g
    → Returns s₀ (Read s₀ n) (
        lift (if is_setup s.rtsp_cmd_type then strncmp (codes "Transport:") g else some false)
        >>= λ transport.
            (if transport then parse_transport s (drop 10 g) else ok (s, g)) >>= skip_line)
other_header s₀ s g n same w = elim (Bool-cases (is_setup s.rtsp_cmd_type)) [
  | inl setup ↦ elim (strncmp-Within (codes "Transport:") g n refl w) [
    | inl (there, w') ↦
        rw (setup, there)
          (Returns-bind (Read s₀ n) (Read s₀ n) (parse_transport s (drop 10 g)) skip_line
            (parse_transport-Returns s₀ s (drop 10 g) n same
              (Within-weaken n (drop 10 g) (omega arith) w'))
            (skip_line-Returns s₀ n))
    | inr other ↦ rw (setup, other) (skip_line-Returns s₀ n (s, g) (same, w))
  ]
  | inr no_setup ↦ rw no_setup (skip_line-Returns s₀ n (s, g) (same, w))
]

parse_header-Returns :
    (s₀ s : Session) (t : Bytes) (total size n : ℕ)
    → Same s₀ s
    → Within n t
    → Returns s₀ (Read s₀ n) (parse_header total size s t)
unfolding parse_header
parse_header-Returns s₀ s t total size n same w =
    let kept = λ (v : ℕ).
      let k : Same s₀ (record s { cseq = v }) = record {
        streaming = same.streaming;
        stopped = same.stopped;
        kind = same.kind;
        client = same.client;
        id = same.id;
        stream = same.stream;
      } in
      k in
    let measured = λ (v : ℕ).
      let k : Same s₀ (record s { content_length = v }) = record {
        streaming = same.streaming;
        stopped = same.stopped;
        kind = same.kind;
        client = same.client;
        id = same.id;
        stream = same.stream;
      } in
      k in
    elim (strncmp-Within (codes "CSeq:") t n refl w) [
      | inl (cseq, w₁) ↦ rw cseq (
          numeric-Returns s₀ s (λ v. record s { cseq = v }) (drop 5 t) size (total - length t + 5) n
            same kept (Within-weaken n (drop 5 t) (omega arith) w₁))
      | inr no_cseq ↦ elim (strncmp-Within (codes "Content-Length:") t n refl w) [
        | inl (content, w₁) ↦
            rw (no_cseq, content)
              (numeric-Returns s₀ s (λ v. record s { content_length = v }) (drop 15 t) size
                (total - length t + 15) n same measured
                (Within-weaken n (drop 15 t) (omega arith) w₁))
        | inr no_content ↦
            let (g, e, w₁) = glue-Within t n w in
            rw (no_cseq, no_content, e) (other_header s₀ s g n same w₁)
      ]
    ]

-- With more rounds than the text has bytes, the loop over the headers of a text that a '\0' ends, in
-- which an LF follows every CR and no ten digits stand in a row, ends without an access out of bounds:
-- the request is accepted or refused, and the state of the streaming, the command, the client, the
-- session number and the stream part of the session stay.
pub header_loop-Returns :
    (k total size : ℕ) (s₀ s : Session) (t : Bytes)
    → Same s₀ s
    → fine t ≡ true
    → length t < k
    → Returns s₀ (Same s₀) (header_loop k total size s t)
unfolding header_loop
header_loop-Returns zero total size s₀ s t same f fuel = elim fuel [ ]
header_loop-Returns (suc k) total size s₀ s t same f fuel =
    let w : Within (length t) t = record { is_fine = f; short = omega arith } in
    let (t₁, e₁, w₁) = skip_leftovers-Within t (length t) w in
    elim (is_garbage-Within t₁ (length t) w₁) [
      | inl garbage ↦ rw (e₁, garbage) (refuses same)
      | inr (clean, f₂, shorter) ↦
          let (c, rest, e₂) = fine-get (drop 2 t₁) f₂ in
          let first : get_elem? (drop 2 t₁) 0 ≡ some c = ap (λ x. get_elem? x 0) e₂ in
          elim (Bool-cases (c == 0)) [
            | inl ended ↦ rw (e₁, clean, first, ended) (accepts same)
            | inr more ↦
                let m : ℕ = length (drop 2 t₁) in
                rw (e₁, clean, first, more)
                  (Returns-bind (Read s₀ m) (Same s₀) (parse_header total size s (drop 2 t₁)) _
                    (parse_header-Returns s₀ s (drop 2 t₁) total size m same
                      (record { is_fine = f₂; short = omega arith }))
                    λ x h.
                      header_loop-Returns k total size s₀ x.0 x.1 h.0 h.1.is_fine
                        (omega (arith, h.1.short)))
          ]
    ]
