-- ===== src/Rtsp/OneRead.antt =====
-- src/CRtspSession.cpp, `handleRequests`: a request that comes in one read.
use rtsp_h.Prelude.{
  ℕ, ◌+◌, ◌-◌, ◌≤◌, ◌≡◌, refl, ap, sym, ◌∙◌, Bool, true, false, not, ◌&&◌, some, [], ◌∷◌, ◌++◌,
  append_assoc, Bytes, length, length-append, get_elem?, drop, drop-append, arith, ◌==◌, ltb,
  le→leb, lt→ltb,
}
use rtsp_h.Session.{Session, RtspCmd, new_command_init}
use rtsp_h.Rtsp.Text.{codes, cr, lf, isdigit, in_part}
use rtsp_h.Rtsp.Format.{c_str, strstr, is_prefix}
use rtsp_h.Rtsp.Parts.{AllOf}
use rtsp_h.Rtsp.RequestLine.{Url, IsUrl, request_line, length-request_line}
use rtsp_h.Rtsp.RoundTrip.{request}
use rtsp_h.Rtsp.Inbox.{Inbox, HdrState, state_of, find_method, command_type, header_ended}

strstr-behind :
    (p xs ys : Bytes) → is_prefix p ys ≡ true → strstr ys p ≡ true → strstr (xs ++ ys) p ≡ true
strstr-behind p [] ys h start = start
strstr-behind p (x ∷ xs) ys h start = ground (arith, strstr-behind p xs ys h start)

abbrev pub not_nul : ℕ → Bool
not_nul c = not (c == 0)

pub c_str-text : (xs rest : Bytes) → AllOf not_nul xs → c_str (xs ++ (0 ∷ rest)) ≡ xs
c_str-text [] rest all = refl
c_str-text (x ∷ xs) rest (at, all) =
    let nonzero : (x == 0) ≡ false = ground arith in rw (nonzero, c_str-text xs rest all) refl

-- A request, less the four bytes that end it.
abbrev pub opening : Url → Bytes → Bytes
opening u ds = request_line u (cr ∷ lf ∷ (codes "CSeq:" ++ (32 ∷ ds)))

abbrev pub closing : Bytes
closing = cr ∷ lf ∷ cr ∷ lf ∷ []

request_line-append : (u : Url) (t x : Bytes) → request_line u t ++ x ≡ request_line u (t ++ x)
unfolding request_line
request_line-append u t x = simp append_assoc refl

pub opening-request :
    (u : Url) (ds junk : Bytes) → opening u ds ++ (closing ++ (0 ∷ junk)) ≡ request u ds junk
unfolding request
opening-request u ds junk =
    request_line-append u (cr ∷ lf ∷ (codes "CSeq:" ++ (32 ∷ ds))) (closing ++ (0 ∷ junk))

pub AllOf-append :
    (test : ℕ → Bool) (xs ys : Bytes) → AllOf test xs → AllOf test ys → AllOf test (xs ++ ys)
AllOf-append test [] ys h k = k
AllOf-append test (x ∷ xs) ys (at, h) k = (at, AllOf-append test xs ys h k)

pub AllOf-weaken :
    (p q : ℕ → Bool) (xs : Bytes) → ((c : ℕ) → p c ≡ true → q c ≡ true) → AllOf p xs → AllOf q xs
AllOf-weaken p q [] f h = tt
AllOf-weaken p q (x ∷ xs) f (at, h) = (f x at, AllOf-weaken p q xs f h)

-- The five methods.
pub data Method : Type 0 where
  options describe setup play teardown : Method

abbrev pub verb_of : Method → Bytes
verb_of Method.options = codes "OPTIONS"
verb_of Method.describe = codes "DESCRIBE"
verb_of Method.setup = codes "SETUP"
verb_of Method.play = codes "PLAY"
verb_of Method.teardown = codes "TEARDOWN"

abbrev pub command_of : Method → RtspCmd
command_of Method.options = RtspCmd.rtsp_options
command_of Method.describe = RtspCmd.rtsp_describe
command_of Method.setup = RtspCmd.rtsp_setup
command_of Method.play = RtspCmd.rtsp_play
command_of Method.teardown = RtspCmd.rtsp_teardown

-- The same URL in a request with this method.
abbrev pub asking : Method → Url → Url
asking q u = record u { verb = verb_of q }

abbrev pub request_text : Method → Url → Bytes → Bytes
request_text q u ds = opening (asking q u) ds ++ closing

abbrev pub all_of : (ℕ → Bool) → Bytes → Bool
all_of test [] = true
all_of test (x ∷ xs) = test x && all_of test xs

pub AllOf-all_of : (test : ℕ → Bool) (xs : Bytes) → all_of test xs ≡ true → AllOf test xs
AllOf-all_of test [] h = tt
AllOf-all_of test (x ∷ xs) h = (ground arith, AllOf-all_of test xs (ground arith))

-- A literal, a part of the URL or a number in front of what has no '\0'.
literal : (xs ys : Bytes) → all_of not_nul xs ≡ true → AllOf not_nul ys → AllOf not_nul (xs ++ ys)
literal xs ys h k = AllOf-append not_nul xs ys (AllOf-all_of not_nul xs h) k

url_part : (xs ys : Bytes) → AllOf in_part xs → AllOf not_nul ys → AllOf not_nul (xs ++ ys)
url_part xs ys h k =
    AllOf-append not_nul xs ys (AllOf-weaken in_part not_nul xs (λ c e. ground arith) h) k

pub digits_only : (ds : Bytes) → AllOf isdigit ds → AllOf not_nul ds
digits_only ds h = AllOf-weaken isdigit not_nul ds (λ c e. ground arith) h

verb-not_nul : (q : Method) → AllOf not_nul (verb_of q)
verb-not_nul Method.options = AllOf-all_of not_nul (verb_of Method.options) refl
verb-not_nul Method.describe = AllOf-all_of not_nul (verb_of Method.describe) refl
verb-not_nul Method.setup = AllOf-all_of not_nul (verb_of Method.setup) refl
verb-not_nul Method.play = AllOf-all_of not_nul (verb_of Method.play) refl
verb-not_nul Method.teardown = AllOf-all_of not_nul (verb_of Method.teardown) refl

opening-not_nul :
    (q : Method) (u : Url) (ds : Bytes)
    → IsUrl u
    → AllOf not_nul ds
    → AllOf not_nul (opening (asking q u) ds)
unfolding request_line
opening-not_nul q u ds v digits =
    let tail₄ : Bytes = codes " RTSP/1.0\r\nCSeq: " ++ ds in
    let tail₃ : Bytes = u.stream ++ tail₄ in
    let tail₂ : Bytes = u.presentation ++ (b'/' ∷ tail₃) in
    let tail₁ : Bytes = u.host ++ (b'/' ∷ u.first ∷ tail₂) in
    let h₄ = literal (codes " RTSP/1.0\r\nCSeq: ") ds refl digits in
    let h₃ = url_part u.stream tail₄ (v.stream_part) h₄ in
    let h₂ = url_part (u.first ∷ u.presentation) (b'/' ∷ tail₃) (v.presentation_part) (refl, h₃) in
    let h₁ = url_part u.host (b'/' ∷ u.first ∷ tail₂) (v.host_part) (refl, h₂) in
    AllOf-append not_nul (verb_of q) (codes " rtsp://" ++ tail₁) (verb-not_nul q)
      (literal (codes " rtsp://") tail₁ refl h₁)

c_str-request :
    (q : Method) (u : Url) (ds junk : Bytes)
    → IsUrl u
    → AllOf not_nul ds
    → c_str (request (asking q u) ds junk) ≡ request_text q u ds
c_str-request q u ds junk v digits =
    let whole : request_text q u ds ++ (0 ∷ junk) ≡ request (asking q u) ds junk =
      append_assoc (opening (asking q u) ds) closing (0 ∷ junk)
      ∙ opening-request (asking q u) ds junk in
    ap c_str (sym whole)
    ∙ c_str-text (request_text q u ds) junk (
        AllOf-append not_nul (opening (asking q u) ds) closing (opening-not_nul q u ds v digits)
          (AllOf-all_of not_nul closing refl))

-- The receive buffer with the request in it.
abbrev pub holding : ℕ → HdrState → Bytes → Inbox
holding n state m = record { buf_pos = n; state = state; recv_buf = m }

line_there :
    (q : Method) (u : Url) (ds junk : Bytes)
    → IsUrl u
    → AllOf not_nul ds
    → strstr (c_str (request (asking q u) ds junk)) (codes "\r\n") ≡ true
line_there q u ds junk v digits =
    ap (λ m. strstr m (codes "\r\n")) (c_str-request q u ds junk v digits)
    ∙ strstr-behind (codes "\r\n") (opening (asking q u) ds) closing refl refl

-- The method is read off the start of the buffer.
command_type-asking :
    (q : Method) (u : Url) (ds junk : Bytes)
    → command_type (request (asking q u) ds junk) ≡ some (command_of q)
unfolding command_type request request_line
command_type-asking Method.options u ds junk = refl
command_type-asking Method.describe u ds junk = refl
command_type-asking Method.setup u ds junk = refl
command_type-asking Method.play u ds junk = refl
command_type-asking Method.teardown u ds junk = refl

state_of-command_of : (q : Method) → state_of (command_of q) ≡ HdrState.hdr_got_method
state_of-command_of Method.options = refl
state_of-command_of Method.describe = refl
state_of-command_of Method.setup = refl
state_of-command_of Method.play = refl
state_of-command_of Method.teardown = refl

-- The first byte is a letter.
starts :
    (q : Method) (u : Url) (ds junk : Bytes)
    → (c : ℕ) × (d : ℕ) × (t : Bytes) × (request (asking q u) ds junk ≡ c ∷ d ∷ t)
      × ((c == cr) ≡ false)
unfolding request request_line
starts Method.options u ds junk = (b'O', b'P', _, refl, refl)
starts Method.describe u ds junk = (b'D', b'E', _, refl, refl)
starts Method.setup u ds junk = (b'S', b'E', _, refl, refl)
starts Method.play u ds junk = (b'P', b'L', _, refl, refl)
starts Method.teardown u ds junk = (b'T', b'E', _, refl, refl)

pub find_method-asking :
    (s : Session) (n : ℕ) (q : Method) (u : Url) (ds junk : Bytes)
    → IsUrl u
    → AllOf not_nul ds
    → 6 ≤ n
    → find_method s (holding n HdrState.hdr_unknown (request (asking q u) ds junk))
      ≡ some (
        record (new_command_init s) { rtsp_cmd_type = command_of q },
        holding n HdrState.hdr_got_method (request (asking q u) ds junk),
      )
unfolding find_method
find_method-asking s n q u ds junk v digits enough =
    let m = request (asking q u) ds junk in
    let (c, d, t, e, letter) = starts q u ds junk in
    let first : get_elem? m 0 ≡ some c = ap (λ (x : Bytes). get_elem? x 0) e in
    let second : get_elem? m 1 ≡ some d = ap (λ (x : Bytes). get_elem? x 1) e in
    rw (le→leb 6 n enough) (
      rw (line_there q u ds junk v digits) (
        rw (first, second, letter)
          (rw (command_type-asking q u ds junk) (rw (state_of-command_of q) refl))))

pub header_ended-asking :
    (q : Method) (u : Url) (ds junk : Bytes)
    → header_ended (
        holding
          (length (request_text q u ds))
          HdrState.hdr_got_method
          (request (asking q u) ds junk))
      ≡ true
unfolding header_ended
header_ended-asking q u ds junk =
    let size : length (request_text q u ds) ≡ length (opening (asking q u) ds) + 4 =
      omega (arith, length-append (opening (asking q u) ds) closing) in
    let back : length (opening (asking q u) ds) + 4 - 4 ≡ length (opening (asking q u) ds) =
      omega arith in
    let enough : ltb 4 (length (opening (asking q u) ds) + 4) ≡ true =
      lt→ltb 4 _ (
        omega (arith, length-request_line (asking q u) (cr ∷ lf ∷ (codes "CSeq:" ++ (32 ∷ ds))))) in
    let last : drop (length (opening (asking q u) ds)) (request (asking q u) ds junk)
        ≡ closing ++ (0 ∷ junk) =
      ap (drop (length (opening (asking q u) ds))) (sym (opening-request (asking q u) ds junk))
      ∙ drop-append (opening (asking q u) ds) (closing ++ (0 ∷ junk)) in
    rw (size, back, enough, last) refl
