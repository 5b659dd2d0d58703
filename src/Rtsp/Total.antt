-- ===== src/Rtsp/Total.antt =====
-- src/CRtspSession.cpp, `Handle_RtspRequest`: a request line with any headers behind it.
use rtsp_h.Prelude.{
  ℕ, ◌^◌, ◌<◌, ◌≡◌, refl, ap, sym, subst, ◌∙◌, true, Option, some, Bytes, length, arith,
}
use rtsp_h.Session.{Session, RtspCmd, rtsp_param_string_max}
use rtsp_h.Transport.{System, init_udp_transport}
use rtsp_h.Rtsp.Text.{digits_value}
use rtsp_h.Rtsp.Format.{c_str}
use rtsp_h.Rtsp.Fine.{fine}
use rtsp_h.Rtsp.HeaderLines.{header_loop-Returns}
use rtsp_h.Rtsp.Returns.{Same, Same-refl, Returns, accepts, refuses}
use rtsp_h.Rtsp.RequestLine.{
  Url, IsUrl, request_line, length-request_line, with_url, parse_request_line-request_line,
}
use rtsp_h.Rtsp.Parsed.{Parsed, fault, refused, ok}
use rtsp_h.Rtsp.Parser.{parse_rtsp_request}
use rtsp_h.Rtsp.Replies.{describe_known, transport_keeps, c_str-filled}
use rtsp_h.Rtsp.Handlers.{
  Rtsp, respond, with_session, handle_option, handle_setup, handle_play, init_transport, answer,
  answer_as, conclude, handle_rtsp_request,
}

-- Behind a request line of which the parts fit, whatever headers stand in a fine text.
parse_rtsp_request-Returns :
    (s : Session) (u : Url) (t : Bytes) (size : ℕ)
    → IsUrl u
    → fine t ≡ true
    → Returns (with_url s u) (Same (with_url s u)) (parse_rtsp_request s (request_line u t) size)
unfolding parse_rtsp_request
parse_rtsp_request-Returns s u t size v f =
    let n : ℕ = length (request_line u t) in
    rw (parse_request_line-request_line s u t v) (
      header_loop-Returns n n size (with_url s u) (with_url s u) t (Same-refl (with_url s u)) f
        (omega (arith, length-request_line u t)))

module _ (sys : System) (date : Bytes) where
  -- A run that returns, with the session's part in the streaming as it was.
  pub record Concludes (r : Rtsp) (run : Option (Rtsp × RtspCmd)) : Type 0 where
    pub after : Rtsp
    pub returns : run ≡ some (after, r.session.rtsp_cmd_type)
    pub streaming : after.session.streaming ≡ r.session.streaming
    pub stopped : after.session.stopped ≡ r.session.stopped
    pub client : after.session.rtsp_client ≡ r.session.rtsp_client

  answered_as :
      (r : Rtsp) (c : RtspCmd)
      → digits_value 0 (c_str r.session.command_stream_part) < 2 ^ 31
      → (r' : Rtsp) × (answer_as sys date r c ≡ some r')
        × (r'.session.streaming ≡ r.session.streaming)
        × (r'.session.stopped ≡ r.session.stopped)
        × (r'.session.rtsp_client ≡ r.session.rtsp_client)
        × (r'.session.rtsp_cmd_type ≡ r.session.rtsp_cmd_type)
  unfolding handle_option handle_play handle_setup init_transport respond
  answered_as r RtspCmd.rtsp_options small = (handle_option r, refl, refl, refl, refl, refl)
  answered_as r RtspCmd.rtsp_describe small =
      let (after, t, e, kind, client, streaming, stopped, sent, is, routes) =
        describe_known sys date r small in
      (after, e, streaming, stopped, client, kind)
  answered_as r RtspCmd.rtsp_setup small =
      let s =
        transport_keeps sys date r.session.tcp_transport
          (with_session r (record (r.session) {
            rtp_client_port = r.session.client_rtp_port;
            rtcp_client_port = r.session.client_rtcp_port;
          }))
          (init_udp_transport sys r.udp).0 in
      (
        handle_setup sys date r,
        refl,
        ap (λ q. q.streaming) s.0,
        ap (λ q. q.stopped) s.0,
        ap (λ q. q.rtsp_client) s.0,
        ap (λ q. q.rtsp_cmd_type) s.0,
      )
  answered_as r RtspCmd.rtsp_play small = (handle_play date r, refl, refl, refl, refl, refl)
  answered_as r RtspCmd.rtsp_teardown small = (r, refl, refl, refl, refl, refl)
  answered_as r RtspCmd.rtsp_unknown small = (r, refl, refl, refl, refl, refl)

  conclude-Concludes :
      (r : Rtsp) (s : Session) (p : Parsed Session)
      → s.streaming ≡ r.session.streaming
      → s.stopped ≡ r.session.stopped
      → s.rtsp_client ≡ r.session.rtsp_client
      → s.rtsp_cmd_type ≡ r.session.rtsp_cmd_type
      → digits_value 0 (c_str s.command_stream_part) < 2 ^ 31
      → Returns s (Same s) p
      → Concludes r (conclude sys date r p)
  unfolding answer
  conclude-Concludes r s fault st sp cl k small h = elim h [ ]
  conclude-Concludes r s (refused t) st sp cl k small (refuses h) = record {
    after = with_session r t;
    returns = ap (λ c. some (with_session r t, c)) (h.kind ∙ k);
    streaming = h.streaming ∙ st;
    stopped = h.stopped ∙ sp;
    client = h.client ∙ cl;
  }
  conclude-Concludes r s (ok t) st sp cl k small (accepts h) =
      let (r', e, streaming, stopped, client, kind) =
        answered_as (with_session r t) t.rtsp_cmd_type
          (subst (λ b. digits_value 0 (c_str b) < 2 ^ 31) (sym h.stream) small) in
      record {
        after = r';
        returns = rw e (ap (λ c. some (r', c)) (kind ∙ h.kind ∙ k));
        streaming = streaming ∙ h.streaming ∙ st;
        stopped = stopped ∙ h.stopped ∙ sp;
        client = client ∙ h.client ∙ cl;
      }

  -- A request line of which the parts fit, the last of them below 2 ^ 31 read as digits, and behind it
  -- any headers, up to a '\0', in which an LF follows every CR and no ten digits stand in a row: the
  -- request is handled to an end, the command is reported, and the session streams as it did, has
  -- stopped if it had, and is that of the same client.
  pub handle_rtsp_request-Concludes :
      (r : Rtsp) (u : Url) (t : Bytes) (size : ℕ)
      → IsUrl u
      → digits_value 0 u.stream < 2 ^ 31
      → fine t ≡ true
      → Concludes r (handle_rtsp_request sys date r (request_line u t) size)
  unfolding handle_rtsp_request with_url
  handle_rtsp_request-Concludes r u t size v small f =
      conclude-Concludes r (with_url r.session u)
        (parse_rtsp_request r.session (request_line u t) size) refl refl refl refl
        (subst (λ b. digits_value 0 b < 2 ^ 31)
          (sym (c_str-filled rtsp_param_string_max u.stream v.stream_part)) small)
        (parse_rtsp_request-Returns r.session u t size v f)
