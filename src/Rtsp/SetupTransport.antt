-- ===== src/Rtsp/SetupTransport.antt =====
-- src/CRtspSession.cpp, `ParseRtspRequest`: the transport that a client asks for in SETUP.
use rtsp_h.Prelude.{
  ℕ, suc, ◌+◌, ◌%◌, ◌^◌, ◌<◌, ◌≡◌, refl, ap, ◌∙◌, Bool, false, not, ◌&&◌, ◌||◌, some, [], ◌∷◌, ◌++◌,
  Bytes, length, arith, ◌==◌, lt→ltb,
}
use rtsp_h.Session.{Session}
use rtsp_h.Rtsp.Text.{codes, cr, lf, isdigit, digit_run, digits_value, strpbrk}
use rtsp_h.Rtsp.Parsed.{ok}
use rtsp_h.Rtsp.Parts.{AllOf}
use rtsp_h.Rtsp.Parser.{parse_client_port, param_loop, parse_transport}

-- A character inside a parameter.
abbrev pub in_param : ℕ → Bool
in_param c = not (c == 0) && (not (c == b';') && not (c == cr))

strpbrk-skip : (xs t : Bytes) → AllOf in_param xs → strpbrk (xs ++ t) ≡ strpbrk t
unfolding strpbrk
strpbrk-skip [] t all = refl
strpbrk-skip (c ∷ xs) t (at, all) =
    let nonzero : (c == 0) ≡ false = ground arith in
    let go_on : (c == b';' || c == cr) ≡ false = ground arith in
    rw (nonzero, go_on) (strpbrk-skip xs t all)

AllOf-in_param : (ds : Bytes) → AllOf isdigit ds → AllOf in_param ds
AllOf-in_param [] all = tt
AllOf-in_param (d ∷ ds) (at, all) = (ground arith, AllOf-in_param ds all)

digit_run-digits :
    (ds : Bytes) (c : ℕ) (t : Bytes)
    → AllOf isdigit ds
    → isdigit c ≡ false
    → digit_run (ds ++ (c ∷ t)) ≡ some (ds, c ∷ t)
digit_run-digits [] c t all stop = rw stop refl
digit_run-digits (d ∷ ds) c t (at, all) stop = rw (at, digit_run-digits ds c t all stop) refl

-- `client_port=` with two numbers, and the CRLF behind.
abbrev pub client_ports : Bytes → Bytes → Bytes → Bytes
client_ports ds ds' t = codes "client_port=" ++ (ds ++ (b'-' ∷ (ds' ++ (cr ∷ lf ∷ t))))

abbrev pub with_port : Session → ℕ → Session
with_port s port = record s {
  client_rtp_port = port % 2 ^ 16;
  client_rtcp_port = (port % 2 ^ 16 + 1) % 2 ^ 16;
}

strpbrk-client_ports :
    (ds ds' t : Bytes)
    → AllOf isdigit ds
    → AllOf isdigit ds'
    → strpbrk (client_ports ds ds' t) ≡ some (some (cr ∷ lf ∷ t))
unfolding strpbrk
strpbrk-client_ports ds ds' t all all' =
    let tail : Bytes = cr ∷ lf ∷ t in
    strpbrk-skip ds (b'-' ∷ (ds' ++ tail)) (AllOf-in_param ds all)
    ∙ strpbrk-skip ds' tail (AllOf-in_param ds' all')

param_loop-crlf :
    (k : ℕ) (s : Session) (t : Bytes) → param_loop (suc k) s (cr ∷ lf ∷ t) ≡ ok (s, cr ∷ lf ∷ t)
unfolding param_loop
param_loop-crlf k s t = refl

param_loop-ports :
    (k : ℕ) (s : Session) (d : ℕ) (ds ds' t : Bytes)
    → AllOf isdigit (d ∷ ds)
    → AllOf isdigit ds'
    → digits_value 0 (d ∷ ds) < 2 ^ 31
    → param_loop (suc (suc k)) s (b';' ∷ client_ports (d ∷ ds) ds' t)
      ≡ ok (with_port s (digits_value 0 (d ∷ ds)), cr ∷ lf ∷ t)
unfolding param_loop parse_client_port
param_loop-ports k s d ds ds' t all all' small =
    let run = digit_run-digits (d ∷ ds) b'-' (ds' ++ (cr ∷ lf ∷ t)) all refl in
    let next = strpbrk-client_ports (d ∷ ds) ds' t all all' in
    let some_digits : (length (d ∷ ds) == 0) ≡ false = ground arith in
    rw (next, run, some_digits, lt→ltb _ _ small) (param_loop-crlf k _ t)

param_loop-unicast :
    (k : ℕ) (s : Session) (t : Bytes)
    → param_loop (suc k) s (codes ";unicast;" ++ t) ≡ param_loop k s (b';' ∷ t)
unfolding param_loop strpbrk
param_loop-unicast k s t = refl

-- Behind `Transport:`, of a pair of ports for UDP, the first of them below 2 ^ 31, that port and the one
-- above it are stored, each on 16 bits, whatever the second number says.
pub parse_transport-client_ports :
    (s : Session) (d : ℕ) (ds ds' t : Bytes)
    → AllOf isdigit (d ∷ ds)
    → AllOf isdigit ds'
    → digits_value 0 (d ∷ ds) < 2 ^ 31
    → parse_transport s (codes " RTP/AVP;unicast;" ++ client_ports (d ∷ ds) ds' t)
      ≡ ok (with_port (record s { tcp_transport = false }) (digits_value 0 (d ∷ ds)), cr ∷ lf ∷ t)
unfolding parse_transport
parse_transport-client_ports s d ds ds' t all all' small =
    let asked : Bytes = codes ";unicast;" ++ client_ports (d ∷ ds) ds' t in
    let n : ℕ = length (client_ports (d ∷ ds) ds' t) in
    let rounds : length asked + 1 ≡ suc (suc (suc (n + 7))) = omega arith in
    let s₁ = record s { tcp_transport = false; client_rtp_port = 0 } in
    ap (λ (k : ℕ). param_loop k s₁ asked) rounds
    ∙ (param_loop-unicast (suc (suc (n + 7))) s₁ (client_ports (d ∷ ds) ds' t)
        ∙ param_loop-ports (n + 7) s₁ d ds ds' t all all' small)
