-- ===== src/Rtsp/Answers.antt =====
-- src/CRtspSession.cpp: what answers a request.
use rtsp_h.Rtsp.Requests.{Request, cseq_of}
use rtsp_h.Prelude.{
  ℕ, ◌-◌, ◌^◌, ◌≤◌, ◌<◌, ◌≡◌, ◌⊎◌, take, length-append, refl, ap, sym, ◌∙◌, Bool, true, false, List,
  [], ◌∷◌, ◌++◌, append_assoc, Bytes, length, arith,
}
use rtsp_h.Session.{Session}
use rtsp_h.Rtsp.Text.{codes, cr, lf}
use rtsp_h.Rtsp.Decimal.{Reads, decimal-Reads, take-long}
use rtsp_h.Rtsp.Format.{decimal, snprintf}
use rtsp_h.Rtsp.OneRead.{Method}
use rtsp_h.Rtsp.Handlers.{play_answer}

abbrev pub is_teardown : Method → Bool
is_teardown Method.teardown = true
is_teardown _ = false

abbrev pub is_play : Method → Bool
is_play Method.play = true
is_play _ = false

-- The status of an answer: `200 OK`, or for DESCRIBE also that there is no such stream.
abbrev pub IsStatus : Method → Bytes → Type 0
IsStatus Method.describe status =
    (status ≡ codes "200 OK") ⊎ (status ≡ codes "404 Stream Not Found")
IsStatus _ status = status ≡ codes "200 OK"

-- A text that begins with the status line and a whole line with the CSeq, in decimal digits.
pub record IsAnswer (q : Method) (cseq : ℕ) (text : Bytes) : Type 0 where
  pub status : Bytes
  pub known : IsStatus q status
  pub digits : Bytes
  pub number : Reads cseq digits
  pub rest : Bytes
  pub begins :
      text ≡ codes "RTSP/1.0 " ++ (status ++ (codes "\r\nCSeq: " ++ (digits ++ (cr ∷ lf ∷ rest))))

-- A text of that form that `snprintf` prints into a buffer of 100 bytes or more.
pub snprintf-IsAnswer :
    (q : Method) (size cseq : ℕ) (status rest : Bytes)
    → IsStatus q status
    → length status ≤ 20
    → 100 ≤ size
    → cseq < 2 ^ 31
    → IsAnswer q cseq (
        snprintf size (
          codes "RTSP/1.0 "
          ++ (status ++ (codes "\r\nCSeq: " ++ (decimal cseq ++ (cr ∷ lf ∷ rest))))))
snprintf-IsAnswer q size cseq status rest known short room small =
    let (digits, printed, number, ten) = decimal-Reads cseq small in
    let line : Bytes = digits ++ (cr ∷ lf ∷ []) in
    let head : Bytes = codes "RTSP/1.0 " ++ (status ++ (codes "\r\nCSeq: " ++ line)) in
    let behind = λ (t : Bytes).
      codes "RTSP/1.0 " ++ (status ++ (codes "\r\nCSeq: " ++ (digits ++ (cr ∷ lf ∷ t)))) in
    let parts : (t : Bytes) → head ++ t ≡ behind t = λ t. simp append_assoc refl in
    let fits : length head ≤ size - 1 = omega (
      arith,
      length-append {0} status (codes "\r\nCSeq: " ++ line),
      length-append {0} digits (cr ∷ lf ∷ []),
    ) in
    let (kept, cut) = take-long (size - 1) head rest fits in
    record {
      status = status;
      known = known;
      digits = digits;
      number = number;
      rest = kept;
      begins =
          rw printed (ap (λ (t : Bytes). take (size - 1) t) (sym (parts rest)) ∙ cut ∙ parts kept);
    }

pub play_answer-IsAnswer :
    (date : Bytes) (s : Session)
    → s.cseq < 2 ^ 31
    → IsAnswer Method.play s.cseq (play_answer date s)
unfolding play_answer
play_answer-IsAnswer date s small =
    snprintf-IsAnswer Method.play 220 s.cseq (codes "200 OK") _ refl (omega arith) (omega arith)
      small

-- Each request has its answer, in order, but for TEARDOWN, which has none.
pub data Replies : List Request → List Bytes → Type 0 where
  none_asked : Replies [] []
  silent :
      {x : Request} {xs : List Request} {ts : List Bytes}
      → is_teardown x.method ≡ true
      → Replies xs ts
      → Replies (x ∷ xs) ts
  answered :
      {x : Request} {xs : List Request} {t : Bytes} {ts : List Bytes}
      → is_teardown x.method ≡ false
      → IsAnswer x.method (cseq_of x) t
      → Replies xs ts
      → Replies (x ∷ xs) (t ∷ ts)
