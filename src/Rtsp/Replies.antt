-- ===== src/Rtsp/Replies.antt =====
-- src/CRtspSession.cpp: the answer to each method.
use rtsp_h.Prelude.{
  ℕ, ◌^◌, ◌<◌, ◌≡◌, refl, ap, sym, subst, ◌∙◌, inl, inr, Bool, true, false, not, if◌then◌else◌,
  some, List, [], ◌∷◌, ◌++◌, map, append_assoc, append-nil, lt→ltb, Bool-cases, Bytes, length, drop,
  replicate, pos, negsuc, arith,
}
use rtsp_h.Session.{rtsp_param_string_max}
use rtsp_h.Streamer.{tcp_send}
use rtsp_h.Transport.{Udp, System, init_udp_transport}
use rtsp_h.Rtsp.Text.{codes, digits_value, in_part}
use rtsp_h.Rtsp.Format.{c_str}
use rtsp_h.Rtsp.Parts.{AllOf, filled}
use rtsp_h.Rtsp.RequestLine.{with_url}
use rtsp_h.Rtsp.OneRead.{Method, command_of, not_nul, c_str-text, AllOf-weaken}
use rtsp_h.Rtsp.Handlers.{
  Rtsp, respond, with_session, handle_option, knows_stream, find_stream, description, not_found,
  handle_describe, init_transport, setup_answer, handle_setup, handle_play, play_answer,
  option_answer, answer_as, answer,
}
use rtsp_h.Rtsp.Requests.{Request, cseq_of, IsRequest, stored_by, route, set_route}
use rtsp_h.Rtsp.Answers.{
  is_teardown, IsAnswer, snprintf-IsAnswer, play_answer-IsAnswer, Replies, silent, answered,
}

-- The session that holds the request answers it.
pub record Handled (sys : System) (date : Bytes) (r : Rtsp) (x : Request) : Type 0 where
  pub after : Rtsp
  pub texts : List Bytes
  pub answers : answer sys date r ≡ some after
  pub kind : after.session.rtsp_cmd_type ≡ r.session.rtsp_cmd_type
  pub client : after.session.rtsp_client ≡ r.session.rtsp_client
  pub streaming : after.session.streaming ≡ r.session.streaming
  pub stopped : after.session.stopped ≡ r.session.stopped
  pub routes : route after.session ≡ set_route x.method r.session
  pub sent : after.sent ≡ r.sent ++ map (tcp_send r.session.rtsp_client) texts
  pub replies :
      (xs : List Request) (ts : List Bytes) → Replies xs ts → Replies (x ∷ xs) (texts ++ ts)

pub c_str-filled : (max : ℕ) (xs : Bytes) → AllOf in_part xs → c_str (filled max xs) ≡ xs
unfolding filled
c_str-filled max xs all =
    ap c_str (append_assoc xs (0 ∷ []) (drop (length (xs ++ 0 ∷ [])) (replicate max 0)))
    ∙ c_str-text xs (drop (length (xs ++ 0 ∷ [])) (replicate max 0))
        (AllOf-weaken in_part not_nul xs (λ c e. ground arith) all)

module _ (sys : System) (date : Bytes) where
  -- One answer, of a handler that only sends.
  one_answer :
      (r after : Rtsp) (x : Request) (t : Bytes)
      → answer sys date r ≡ some after
      → after.session.rtsp_cmd_type ≡ r.session.rtsp_cmd_type
      → after.session.rtsp_client ≡ r.session.rtsp_client
      → after.session.streaming ≡ r.session.streaming
      → after.session.stopped ≡ r.session.stopped
      → after.sent ≡ r.sent ++ tcp_send r.session.rtsp_client t ∷ []
      → is_teardown x.method ≡ false
      → IsAnswer x.method (cseq_of x) t
      → route after.session ≡ set_route x.method r.session
      → Handled sys date r x
  one_answer r after x t e k c st sp s other is routes = record {
    routes = routes;
    after = after;
    texts = t ∷ [];
    answers = e;
    kind = k;
    client = c;
    streaming = st;
    stopped = sp;
    sent = s;
    replies = λ xs ts rs. answered other is rs;
  }

  pub describe_known :
      (r : Rtsp)
      → digits_value 0 (c_str r.session.command_stream_part) < 2 ^ 31
      → (after : Rtsp) × (t : Bytes) × (handle_describe date r ≡ some after)
        × (after.session.rtsp_cmd_type ≡ r.session.rtsp_cmd_type)
        × (after.session.rtsp_client ≡ r.session.rtsp_client)
        × (after.session.streaming ≡ r.session.streaming)
        × (after.session.stopped ≡ r.session.stopped)
        × (after.sent ≡ r.sent ++ tcp_send r.session.rtsp_client t ∷ [])
        × (r.session.cseq < 2 ^ 31 → IsAnswer Method.describe r.session.cseq t)
        × (route after.session ≡ route r.session)
  unfolding handle_describe find_stream respond
  describe_known r small = elim (Bool-cases (knows_stream r.udp.str r.session)) [
    | inl known ↦
        let n : ℕ = digits_value 0 (c_str r.session.command_stream_part) in
        let r₁ = with_session r (record (r.session) { stream_id = pos n }) in
        (
          respond r₁ (description date r.session),
          description date r.session,
          rw (known, lt→ltb n (2 ^ 31) small) refl,
          refl,
          refl,
          refl,
          refl,
          refl,
          λ small_cseq.
              snprintf-IsAnswer Method.describe 512 _ (codes "200 OK") _ (inl refl) (omega arith)
                (omega arith) small_cseq,
          refl,
        )
    | inr unknown ↦
        let r₁ = with_session r (record (r.session) { stream_id = negsuc 0 }) in
        (
          respond r₁ (not_found date r.session),
          not_found date r.session,
          rw unknown refl,
          refl,
          refl,
          refl,
          refl,
          refl,
          λ small_cseq.
              snprintf-IsAnswer Method.describe 512 _ (codes "404 Stream Not Found") _ (inr refl)
                (omega arith) (omega arith) small_cseq,
          refl,
        )
  ]

  -- SETUP keeps what the transport does not need.
  pub transport_keeps :
      (x : Bool) (r : Rtsp) (u : Udp)
      → ((if not x then record r { udp = u } else r).session ≡ r.session)
        × ((if not x then record r { udp = u } else r).sent ≡ r.sent)
  transport_keeps true r u = (refl, refl)
  transport_keeps false r u = (refl, refl)

  module _ (r : Rtsp) (x : Request) (v : IsRequest x)
      (cmd : r.session.rtsp_cmd_type ≡ command_of x.method) (cseq : r.session.cseq ≡ cseq_of x)
      (stream : c_str r.session.command_stream_part ≡ x.url.stream) where
    numbered :
        (q : Method) (t : Bytes)
        → x.method ≡ q
        → (r.session.cseq < 2 ^ 31 → IsAnswer q r.session.cseq t)
        → IsAnswer x.method (cseq_of x) t
    numbered q t e a =
        subst (λ k. IsAnswer k (cseq_of x) t) (sym e)
          (subst (λ n. IsAnswer q n t) cseq (a (rw cseq v.cseq_fits)))

    routed : (q : Method) → x.method ≡ q → set_route q r.session ≡ set_route x.method r.session
    routed q e = ap (λ k. set_route k r.session) (sym e)

    switched : (q : Method) → x.method ≡ q → answer sys date r ≡ answer_as sys date r (command_of q)
    unfolding answer
    switched q e = ap (answer_as sys date r) (cmd ∙ ap command_of e)

    setup-Handled : x.method ≡ Method.setup → Handled sys date r x
    unfolding respond handle_setup init_transport
    setup-Handled e =
        let r₁ = with_session r (record (r.session) {
          rtp_client_port = r.session.client_rtp_port;
          rtcp_client_port = r.session.client_rtcp_port;
        }) in
        let u = (init_udp_transport sys r₁.udp).0 in
        let (s, l) = transport_keeps r.session.tcp_transport r₁ u in
        let r₂ = init_transport sys r r.session.client_rtp_port r.session.client_rtcp_port in
        one_answer r (handle_setup sys date r) x (setup_answer date r.session r₂)
          (switched Method.setup e) (ap (λ q. q.rtsp_cmd_type) s) (ap (λ q. q.rtsp_client) s)
          (ap (λ q. q.streaming) s) (ap (λ q. q.stopped) s)
          (ap (λ a. a ++ tcp_send r₂.session.rtsp_client (setup_answer date r.session r₂) ∷ []) l
            ∙ ap (λ q. r.sent ++ tcp_send q.rtsp_client (setup_answer date r.session r₂) ∷ []) s)
          (ap is_teardown e)
          (numbered Method.setup (setup_answer date r.session r₂) e (
            snprintf-IsAnswer Method.setup 300 _ (codes "200 OK") _ refl (omega arith)
              (omega arith)))
          (ap route s ∙ routed Method.setup e)

    method-Handled : (q : Method) → x.method ≡ q → Handled sys date r x
    unfolding handle_option handle_play respond play_answer
    method-Handled Method.options e =
        one_answer r (handle_option r) x (option_answer r.session) (switched Method.options e) refl
          refl refl refl refl (ap is_teardown e)
          (numbered Method.options (option_answer r.session) e (
            snprintf-IsAnswer Method.options 100 _ (codes "200 OK") _ refl (omega arith)
              (omega arith)))
          (routed Method.options e)
    method-Handled Method.describe e =
        let (after, t, h, k, c, st, sp, sent, a, kept) =
          describe_known r (subst (λ b. digits_value 0 b < 2 ^ 31) (sym stream) v.stream_fits) in
        one_answer r after x t (switched Method.describe e ∙ h) k c st sp sent (ap is_teardown e)
          (numbered Method.describe t e a) (kept ∙ routed Method.describe e)
    method-Handled Method.setup e = setup-Handled e
    method-Handled Method.play e =
        one_answer r (handle_play date r) x (play_answer date r.session) (switched Method.play e)
          refl refl refl refl refl (ap is_teardown e)
          (numbered Method.play (play_answer date r.session) e
            (play_answer-IsAnswer date r.session))
          (routed Method.play e)
    method-Handled Method.teardown e = record {
      after = r;
      texts = [];
      answers = switched Method.teardown e;
      kind = refl;
      client = refl;
      streaming = refl;
      stopped = refl;
      routes = routed Method.teardown e;
      sent = sym (append-nil r.sent);
      replies = λ xs ts rs. silent (ap is_teardown e) rs;
    }

  -- Any well-formed request is handled.
  pub request-Handled :
      (r : Rtsp) (x : Request)
      → IsRequest x
      → Handled sys date (with_session r (stored_by x r.session)) x
  unfolding with_url
  request-Handled r x v =
      method-Handled (with_session r (stored_by x r.session)) x v refl refl
        (c_str-filled rtsp_param_string_max x.url.stream v.url.stream_part) x.method refl
