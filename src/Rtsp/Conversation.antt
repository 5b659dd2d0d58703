-- ===== src/Rtsp/Conversation.antt =====
-- src/CRtspSession.cpp: requests to one session, one read after the other.
use rtsp_h.Prelude.{
  ◌≡◌, refl, ap, sym, ◌∙◌, Bool, true, false, ◌||◌, Option, some, List, [], ◌∷◌, ◌++◌, map,
  append_assoc, append-nil, map-append, ◌>>=◌, Bytes, ℕ, subst,
}
use rtsp_h.Session.{Session, RtspCmd, new_command_init}
use rtsp_h.Streamer.{tcp_send}
use rtsp_h.Transport.{System}
use rtsp_h.Rtsp.RequestLine.{with_url}
use rtsp_h.Rtsp.OneRead.{Method, command_of}
use rtsp_h.Rtsp.Asked.{handle_requests-parsed}
use rtsp_h.Rtsp.Requests.{
  Request, text_of, IsRequest, stored_by, tail_of, text_of-not_nul, parsed_request-stored_by, route,
  Knows, port_after, stored_by-Knows,
}
use rtsp_h.Rtsp.Answers.{is_teardown, is_play, Replies, none_asked}
use rtsp_h.Rtsp.Replies.{request-Handled}
use rtsp_h.Rtsp.Handlers.{Rtsp, with_session}
use rtsp_h.Rtsp.Inbox.{Inbox, after_command, handle_requests}

abbrev pub AllRequests : List Request → Type 0
AllRequests [] = Unit
AllRequests (x ∷ xs) = IsRequest x × AllRequests xs

-- Only the last request may be TEARDOWN.
abbrev pub Goes : List Request → Type 0
Goes [] = Unit
Goes (x ∷ []) = Unit
Goes (x ∷ y ∷ xs) = (is_teardown x.method ≡ false) × Goes (y ∷ xs)

abbrev pub any_play : List Request → Bool
any_play [] = false
any_play (x ∷ xs) = is_play x.method || any_play xs

abbrev pub any_teardown : List Request → Bool
any_teardown [] = false
any_teardown (x ∷ xs) = is_teardown x.method || any_teardown xs

after-streaming :
    (q : Method) (s : Session)
    → (after_command (command_of q) s).streaming ≡ (is_play q || s.streaming)
after-streaming Method.options s = refl
after-streaming Method.describe s = refl
after-streaming Method.setup s = refl
after-streaming Method.play s = refl
after-streaming Method.teardown s = refl

after-stopped :
    (q : Method) (s : Session)
    → (after_command (command_of q) s).stopped ≡ (is_teardown q || s.stopped)
after-stopped Method.options s = refl
after-stopped Method.describe s = refl
after-stopped Method.setup s = refl
after-stopped Method.play s = refl
after-stopped Method.teardown s = refl

after-client :
    (q : Method) (s : Session) → (after_command (command_of q) s).rtsp_client ≡ s.rtsp_client
after-client Method.options s = refl
after-client Method.describe s = refl
after-client Method.setup s = refl
after-client Method.play s = refl
after-client Method.teardown s = refl

after-route : (q : Method) (s : Session) → route (after_command (command_of q) s) ≡ route s
after-route Method.options s = refl
after-route Method.describe s = refl
after-route Method.setup s = refl
after-route Method.play s = refl
after-route Method.teardown s = refl

pub or_swap : (a b c : Bool) → (b || (a || c)) ≡ ((a || b) || c)
or_swap true true c = refl
or_swap true false c = refl
or_swap false b c = refl

or_false : (a : Bool) → (a || false) ≡ a
or_false true = refl
or_false false = refl

module _ (sys : System) (date : Bytes) where
  -- Calls of `handleRequests`, each with one request in its read.
  unfoldable pub converse : List Request → Rtsp → Inbox → Option (Rtsp × Inbox)
  converse [] r b = some (r, b)
  converse (x ∷ xs) r b = do
    (_, r', b') ← handle_requests sys date (some (text_of x)) r b
    converse xs r' b'

  -- One request: the state behind it.
  pub record Turn (r : Rtsp) (b : Inbox) (x : Request) : Type 0 where
    pub after : Rtsp
    pub inbox : Inbox
    pub texts : List Bytes
    pub returns : handle_requests sys date (some (text_of x)) r b ≡ some (true, after, inbox)
    pub empty : inbox.buf_pos ≡ 0
    pub client : after.session.rtsp_client ≡ r.session.rtsp_client
    pub streaming : after.session.streaming ≡ (is_play x.method || r.session.streaming)
    pub stopped : after.session.stopped ≡ is_teardown x.method
    pub knows :
        (o : Option ℕ)
        → Knows o (route r.session)
        → Knows (port_after x.method x.ports o) (route after.session)
    pub sent : after.sent ≡ r.sent ++ map (tcp_send r.session.rtsp_client) texts
    pub replies :
        (xs : List Request) (ts : List Bytes) → Replies xs ts → Replies (x ∷ xs) (texts ++ ts)

  pub turn :
      (r : Rtsp) (b : Inbox) (x : Request)
      → IsRequest x
      → r.session.stopped ≡ false
      → b.buf_pos ≡ 0
      → Turn r b x
  unfolding with_url new_command_init
  turn r b x v running empty =
      let h = request-Handled sys date r x v in
      let (b', e, cleared) =
        handle_requests-parsed sys date r b x.method x.url (tail_of x) (stored_by x r.session)
          h.after v.url (text_of-not_nul x v) v.text_fits running empty
          (parsed_request-stored_by x r.session v) h.answers in
      let s = h.after.session in
      let done = λ (c : RtspCmd). with_session h.after (after_command c s) in
      record {
        after = done (command_of x.method);
        inbox = b';
        texts = h.texts;
        returns = e ∙ ap (λ c. some (true, done c, b')) h.kind;
        empty = cleared;
        client = after-client x.method s ∙ h.client;
        streaming = after-streaming x.method s ∙ ap (λ y. is_play x.method || y) h.streaming;
        stopped =
            after-stopped x.method s
            ∙ ap (λ y. is_teardown x.method || y) (h.stopped ∙ running)
            ∙ or_false (is_teardown x.method);
        knows = λ o k.
            subst (Knows (port_after x.method x.ports o)) (sym (after-route x.method s ∙ h.routes))
              (stored_by-Knows x r.session o v k);
        sent = h.sent;
        replies = h.replies;
      }

  pub record Conversed (xs : List Request) (r : Rtsp) (b : Inbox) : Type 0 where
    pub after : Rtsp
    pub inbox : Inbox
    pub texts : List Bytes
    pub returns : converse xs r b ≡ some (after, inbox)
    pub sent : after.sent ≡ r.sent ++ map (tcp_send r.session.rtsp_client) texts
    pub replies : Replies xs texts
    pub streaming : after.session.streaming ≡ (any_play xs || r.session.streaming)
    pub stopped : after.session.stopped ≡ (any_teardown xs || r.session.stopped)

  nothing : (r : Rtsp) (b : Inbox) → Conversed [] r b
  unfolding converse
  nothing r b = record {
    after = r;
    inbox = b;
    texts = [];
    returns = refl;
    sent = sym (append-nil r.sent);
    replies = none_asked;
    streaming = refl;
    stopped = refl;
  }

  next :
      (r : Rtsp) (b : Inbox) (x : Request) (xs : List Request) (t : Turn r b x)
      → r.session.stopped ≡ false
      → Conversed xs t.after t.inbox
      → Conversed (x ∷ xs) r b
  unfolding converse
  next r b x xs t running c = record {
    after = c.after;
    inbox = c.inbox;
    texts = t.texts ++ c.texts;
    returns = rw (t.returns) c.returns;
    sent =
        c.sent
        ∙ ap (λ l. t.after.sent ++ map (tcp_send l) c.texts) t.client
        ∙ ap (λ l. l ++ map (tcp_send r.session.rtsp_client) c.texts) t.sent
        ∙ append_assoc r.sent (map (tcp_send r.session.rtsp_client) t.texts)
            (map (tcp_send r.session.rtsp_client) c.texts)
        ∙ ap (λ l. r.sent ++ l) (sym (map-append (tcp_send r.session.rtsp_client) t.texts c.texts));
    replies = t.replies xs c.texts c.replies;
    streaming =
        c.streaming
        ∙ ap (λ y. any_play xs || y) t.streaming
        ∙ or_swap (is_play x.method) (any_play xs) r.session.streaming;
    stopped =
        c.stopped
        ∙ ap (λ y. any_teardown xs || y)
            (t.stopped
              ∙ sym (or_false (is_teardown x.method))
              ∙ ap (λ y. is_teardown x.method || y) (sym running))
        ∙ or_swap (is_teardown x.method) (any_teardown xs) r.session.stopped;
  }

  -- Requests of any method, each with the CSeq as its only header, or SETUP also with the ports for
  -- UDP in a header behind it, with a URL whose parts fit, the last of them below 2 ^ 31 read as
  -- digits, with a CSeq and a first port below 2 ^ 31, and of at most 499 bytes, of which only the
  -- last may be TEARDOWN, that come one read after the other to a session that has not stopped,
  -- with nothing in the receive buffer before: every call returns; each request but TEARDOWN gets
  -- one answer, in order, and nothing else is sent; the answers are texts which begin with the
  -- status line, `200 OK` or for DESCRIBE also `404 Stream Not Found`, and a line with the CSeq of
  -- the request in decimal digits; the session streams afterwards if it did before or one of them
  -- is PLAY, and has stopped if the last is TEARDOWN.
  pub converse-Conversed :
      (xs : List Request) (r : Rtsp) (b : Inbox)
      → AllRequests xs
      → Goes xs
      → r.session.stopped ≡ false
      → b.buf_pos ≡ 0
      → Conversed xs r b
  converse-Conversed [] r b v go running empty = nothing r b
  converse-Conversed (x ∷ []) r b v go running empty =
      let t = turn r b x v.0 running empty in next r b x [] t running (nothing t.after t.inbox)
  converse-Conversed (x ∷ y ∷ xs) r b v go running empty =
      let t = turn r b x v.0 running empty in
      next r b x (y ∷ xs) t running
        (converse-Conversed (y ∷ xs) t.after t.inbox v.1 go.1 (t.stopped ∙ go.0) t.empty)
