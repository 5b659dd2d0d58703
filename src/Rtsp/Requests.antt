-- ===== src/Rtsp/Requests.antt =====
-- src/CRtspSession.cpp: requests with the CSeq, and SETUP also with the ports of the client, and the session they leave.
use rtsp_h.Rtsp.Parser.{is_setup}
use rtsp_h.Rtsp.RoundTrip.{parse_rtsp_request-request}
use rtsp_h.Rtsp.WithTransport.{transport_line, parse_rtsp_request-setup}
use rtsp_h.Rtsp.Parsed.{ok}
use rtsp_h.Rtsp.Asked.{
  after_request, parsed_request, whole_size, asking-IsUrl, junk_behind, with_command,
}
use rtsp_h.Prelude.{
  ℕ, ◌^◌, ◌≤◌, ◌<◌, ◌≡◌, refl, ap, ◌∙◌, Bool, false, List, [], ◌∷◌, ◌++◌, Bytes, length, Option,
  none, some, ◌%◌, ◌+◌, append-nil, ◌≢◌,
}
use rtsp_h.Session.{Session, new_command_init}
use rtsp_h.Rtsp.Text.{codes, cr, lf, isdigit, digits_value}
use rtsp_h.Rtsp.Parts.{AllOf}
use rtsp_h.Rtsp.RequestLine.{Url, IsUrl, with_url}
use rtsp_h.Rtsp.OneRead.{
  Method, request_text, not_nul, digits_only, AllOf-append, AllOf-all_of, asking, command_of,
}

-- Two ports in digits, of which the first has a digit at least.
pub record Ports : Type 0 where
  pub digit : ℕ
  pub digits : Bytes
  pub second : Bytes

abbrev pub port_of : Ports → ℕ
port_of p = digits_value 0 (p.digit ∷ p.digits)

-- A request with the CSeq, and with or without a transport for UDP behind it.
pub record Request : Type 0 where
  pub method : Method
  pub url : Url
  pub digit : ℕ
  pub digits : Bytes
  pub ports : Option Ports

abbrev pub transport_of : Option Ports → Bytes
transport_of none = []
transport_of (some p) = transport_line (p.digit ∷ p.digits) p.second

-- What stands behind `CSeq: `.
abbrev pub tail_of : Request → Bytes
tail_of x = (x.digit ∷ x.digits) ++ transport_of x.ports

abbrev pub text_of : Request → Bytes
text_of x = request_text x.method x.url (tail_of x)

abbrev pub cseq_of : Request → ℕ
cseq_of x = digits_value 0 (x.digit ∷ x.digits)

-- Only SETUP has a transport.
abbrev pub PortsFit : Method → Option Ports → Type 0
PortsFit q none = Unit
PortsFit q (some p) =
    (q ≡ Method.setup)
    × AllOf isdigit (p.digit ∷ p.digits)
    × AllOf isdigit p.second
    × (port_of p < 2 ^ 31)

-- What a read can hold and the parser can store.
pub record IsRequest (x : Request) : Type 0 where
  pub url : IsUrl x.url
  pub number : AllOf isdigit (x.digit ∷ x.digits)
  pub cseq_fits : cseq_of x < 2 ^ 31
  pub text_fits : length (text_of x) ≤ 499
  pub stream_fits : digits_value 0 x.url.stream < 2 ^ 31
  pub ports_fit : PortsFit x.method x.ports

abbrev udp_only : Option Ports → Bool → Bool
udp_only none tcp = tcp
udp_only (some p) tcp = false

abbrev first_port : Option Ports → ℕ → ℕ
first_port none port = port
first_port (some p) port = port_of p % 2 ^ 16

abbrev second_port : Option Ports → ℕ → ℕ
second_port none port = port
second_port (some p) port = (port_of p % 2 ^ 16 + 1) % 2 ^ 16

-- The session that the parser leaves.
abbrev pub stored_by : Request → Session → Session
stored_by x s =
    let s₁ = after_request x.method s x.url (x.digit ∷ x.digits) in
    record s₁ {
      tcp_transport = udp_only x.ports s₁.tcp_transport;
      client_rtp_port = first_port x.ports s₁.client_rtp_port;
      client_rtcp_port = second_port x.ports s₁.client_rtcp_port;
    }

-- How packets go to a client: over TCP or not, and to which port.
abbrev pub route : Session → Bool × ℕ
route s = (s.tcp_transport, s.rtp_client_port)

-- The route behind the answer to a request.
abbrev pub set_route : Method → Session → Bool × ℕ
set_route Method.setup s = (s.tcp_transport, s.client_rtp_port)
set_route _ s = route s

-- The port for UDP that is known after a request: that of a SETUP with ports, and none after one without.
abbrev pub port_after : Method → Option Ports → Option ℕ → Option ℕ
port_after Method.setup none o = none
port_after Method.setup (some p) o = some (port_of p % 2 ^ 16)
port_after _ ports o = o

abbrev pub Knows : Option ℕ → Bool × ℕ → Type 0
Knows none r = Unit
Knows (some port) r = r ≡ (false, port)

-- The port that is known after requests.
abbrev pub last_port : List Request → Option ℕ → Option ℕ
last_port [] o = o
last_port (x ∷ xs) o = last_port xs (port_after x.method x.ports o)

same_route :
    (q : Method) (u : Url) (d : ℕ) (ds : Bytes) (ports : Option Ports) (s : Session) (o : Option ℕ)
    → PortsFit q ports
    → Knows o (route s)
    → q ≢ Method.setup
    → Knows o (
        route (stored_by (record { method = q; url = u; digit = d; digits = ds; ports = ports }) s))
unfolding with_url new_command_init
same_route q u d ds none s o fit k other = k
same_route q u d ds (some p) s o fit k other = absurd (other fit.0)

stored :
    (q : Method) (u : Url) (d : ℕ) (ds : Bytes) (ports : Option Ports) (s : Session) (o : Option ℕ)
    → PortsFit q ports
    → Knows o (route s)
    → Knows (port_after q ports o) (
        set_route q
          (stored_by (record { method = q; url = u; digit = d; digits = ds; ports = ports }) s))
unfolding with_url new_command_init
stored Method.options u d ds ports s o fit k =
    same_route Method.options u d ds ports s o fit k (λ e. cc e)
stored Method.describe u d ds ports s o fit k =
    same_route Method.describe u d ds ports s o fit k (λ e. cc e)
stored Method.setup u d ds none s o fit k = tt
stored Method.setup u d ds (some p) s o fit k = refl
stored Method.play u d ds ports s o fit k =
    same_route Method.play u d ds ports s o fit k (λ e. cc e)
stored Method.teardown u d ds ports s o fit k =
    same_route Method.teardown u d ds ports s o fit k (λ e. cc e)

pub stored_by-Knows :
    (x : Request) (s : Session) (o : Option ℕ)
    → IsRequest x
    → Knows o (route s)
    → Knows (port_after x.method x.ports o) (set_route x.method (stored_by x s))
unfolding with_url new_command_init
stored_by-Knows x s o v k = stored x.method x.url x.digit x.digits x.ports s o v.ports_fit k

tail-not_nul :
    (q : Method) (ds : Bytes) (o : Option Ports)
    → AllOf isdigit ds
    → PortsFit q o
    → AllOf not_nul (ds ++ transport_of o)
tail-not_nul q ds o digits fit =
    AllOf-append not_nul ds (transport_of o) (digits_only ds digits) (behind o fit)
  where
    behind : (o : Option Ports) → PortsFit q o → AllOf not_nul (transport_of o)
    behind none fit = tt
    behind (some p) (only, first, second, small) =
        let words : Bytes = cr ∷ lf ∷ codes "Transport: RTP/AVP;unicast;client_port=" in
        AllOf-append not_nul words ((p.digit ∷ p.digits) ++ (b'-' ∷ p.second))
          (AllOf-all_of not_nul words refl)
          (AllOf-append not_nul (p.digit ∷ p.digits) (b'-' ∷ p.second)
            (digits_only (p.digit ∷ p.digits) first) (refl, digits_only p.second second))

pub text_of-not_nul : (x : Request) → IsRequest x → AllOf not_nul (tail_of x)
text_of-not_nul x v = tail-not_nul x.method (x.digit ∷ x.digits) x.ports v.number v.ports_fit

accepted :
    (q : Method) (u : Url) (d : ℕ) (ds : Bytes) (o : Option Ports) (s : Session)
    → IsUrl u
    → AllOf isdigit (d ∷ ds)
    → digits_value 0 (d ∷ ds) < 2 ^ 31
    → PortsFit q o
    → parsed_request s q u ((d ∷ ds) ++ transport_of o)
      ≡ ok (stored_by (record { method = q; url = u; digit = d; digits = ds; ports = o }) s)
accepted q u d ds none s v digits small fit =
    ap (λ (t : Bytes). parsed_request s q u t) (append-nil (d ∷ ds))
    ∙ parse_rtsp_request-request (with_command q s) (asking q u) d ds
        (junk_behind (request_text q u (d ∷ ds))) (length (request_text q u (d ∷ ds)))
        (asking-IsUrl q u v) digits small (whole_size q u (d ∷ ds))
accepted q u d ds (some p) s v digits small (only, first, second, port_small) =
    let tail : Bytes = (d ∷ ds) ++ transport_line (p.digit ∷ p.digits) p.second in
    parse_rtsp_request-setup (with_command q s) (asking q u) d ds p.digit p.digits p.second
      (junk_behind (request_text q u tail)) (length (request_text q u tail)) (asking-IsUrl q u v)
      (ap (λ k. is_setup (command_of k)) only) digits small first second port_small
      (whole_size q u tail)

-- A request that fits is accepted.
pub parsed_request-stored_by :
    (x : Request) (s : Session)
    → IsRequest x
    → parsed_request s x.method x.url (tail_of x) ≡ ok (stored_by x s)
parsed_request-stored_by x s v =
    accepted x.method x.url x.digit x.digits x.ports s v.url v.number v.cseq_fits v.ports_fit
