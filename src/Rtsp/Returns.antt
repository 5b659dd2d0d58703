-- ===== src/Rtsp/Returns.antt =====
-- src/CRtspSession.cpp, `ParseRtspRequest`: the headers of a fine text are always read to an end, and
-- leave alone what is not the parser's.
use rtsp_h.Prelude.{
  ℕ, zero, suc, ◌-◌, ◌≤◌, ◌<◌, ◌≡◌, ◌⊎◌, refl, ap, sym, subst, ◌∙◌, inl, inr, Bool, true, false,
  not, none, some, [], ◌∷◌, ◌==◌, Bool-cases, Bytes, drop, length, ◌||◌, arith,
}
use rtsp_h.Session.{Session}
use rtsp_h.Rtsp.Text.{codes, cr, skip_while, strpbrk}
use rtsp_h.Rtsp.Parsed.{Parsed, fault, refused, ok, ◌>>=◌, require}
use rtsp_h.Rtsp.Parser.{not_nul, is_separator, parse_client_port, param_loop}
use rtsp_h.Rtsp.Fine.{
  Within, fine-tail, fine-get, fine-run, skip_while-Within, strncmp-Within, strpbrk-Within,
  digit_run-Within, atoi-some,
}
use rtsp_h.Rtsp.FineLines.{at_crlf-fine}

-- What the parser does not touch.
pub record Same (s t : Session) : Type 0 where
  pub streaming : t.streaming ≡ s.streaming
  pub stopped : t.stopped ≡ s.stopped
  pub kind : t.rtsp_cmd_type ≡ s.rtsp_cmd_type
  pub client : t.rtsp_client ≡ s.rtsp_client
  pub id : t.rtsp_session_id ≡ s.rtsp_session_id
  pub stream : t.command_stream_part ≡ s.command_stream_part

pub Same-refl : (s : Session) → Same s s
Same-refl s = record {
  streaming = refl;
  stopped = refl;
  kind = refl;
  client = refl;
  id = refl;
  stream = refl;
}

pub Same-trans : {s t u : Session} → Same s t → Same t u → Same s u
Same-trans a b = record {
  streaming = b.streaming ∙ a.streaming;
  stopped = b.stopped ∙ a.stopped;
  kind = b.kind ∙ a.kind;
  client = b.client ∙ a.client;
  id = b.id ∙ a.id;
  stream = b.stream ∙ a.stream;
}

-- No fault: the value has a property, or the request is refused.
pub data Returns {ℓ} {A : Type ℓ} (s : Session) (P : A → Type 0) : Parsed A → Type ℓ where
  accepts : {a : A} → P a → Returns s P (ok a)
  refuses : {t : Session} → Same s t → Returns s P (refused t)

pub Returns-bind {ℓ κ} :
    {A : Type ℓ} {B : Type κ} {s : Session} (P : A → Type 0) (Q : B → Type 0) (m : Parsed A)
    (f : A → Parsed B)
    → Returns s P m
    → ((a : A) → P a → Returns s Q (f a))
    → Returns s Q (m >>= f)
Returns-bind P Q fault f h g = elim h [ ]
Returns-bind P Q (ok a) f (accepts h) g = g a h
Returns-bind P Q (refused t) f (refuses h) g = refuses h

pub Returns-require {ℓ} :
    {B : Type ℓ} {s : Session} (Q : B → Type 0) (t : Session) (b : Bool) (f : Unit {0} → Parsed B)
    → Same s t
    → (b ≡ true → Returns s Q (f tt))
    → Returns s Q (require t b >>= f)
Returns-require Q t true f h g = g refl
Returns-require Q t false f h g = refuses h

abbrev pub Read : Session → ℕ → Session × Bytes → Type 0
Read s n x = Same s x.0 × Within n x.1

skip_while-stops :
    (test : ℕ → Bool) (t : Bytes) (c : ℕ) (rest : Bytes)
    → skip_while test t ≡ some (c ∷ rest)
    → test c ≡ false
skip_while-stops test [] c rest h = cc h
skip_while-stops test (d ∷ t) c rest h = elim (Bool-cases (test d)) [
  | inl on ↦ skip_while-stops test t c rest (rw on at h)
  | inr off ↦ let e = rw off at h in let same : d ≡ c = cc e in ap test (sym same) ∙ off
]

-- The port that the client names.
parse_client_port-Returns :
    (s₀ s : Session) (t : Bytes) (n : ℕ)
    → Same s₀ s
    → Within n t
    → Returns s₀ (Same s₀) (parse_client_port s t)
unfolding parse_client_port
parse_client_port-Returns s₀ s t n same w =
    let (ds, t', e, all, few) = digit_run-Within t n w in
    let number = atoi-some ds all (omega (arith, fine-run t w.is_fine)) in
    rw e (
      Returns-require (Same s₀) s (not (length ds == 0)) _ same (λ some_digit. rw number (
        accepts (record {
          streaming = same.streaming;
          stopped = same.stopped;
          kind = same.kind;
          client = same.client;
          id = same.id;
          stream = same.stream;
        }))))

-- Behind what is neither a separator nor the end of a line, the next parameter is further on.
strpbrk-further :
    (c : ℕ) (rest : Bytes) (n : ℕ)
    → Within n (c ∷ rest)
    → not_nul c ≡ true
    → is_separator c ≡ false
    → (c == cr) ≡ false
    → (strpbrk (c ∷ rest) ≡ some none)
      ⊎ ((t' : Bytes) × (strpbrk (c ∷ rest) ≡ some (some t')) × (Within (n - 1) t'))
unfolding strpbrk
strpbrk-further c rest n w char other line =
    let no_nul : (c == 0) ≡ false = ground arith in
    let go_on : (c == b';' || c == cr) ≡ false = ground arith in
    rw (no_nul, go_on)
      (strpbrk-Within rest (n - 1) (record {
        is_fine = fine-tail c rest w.is_fine (ground arith);
        short = omega (arith, w.short);
      }))

pub Within-weaken : {m : ℕ} (n : ℕ) (t : Bytes) → m ≤ n → Within m t → Within n t
Within-weaken n t le w = record { is_fine = w.is_fine; short = omega (arith, w.short) }

pub Read-weaken :
    (s : Session) (m n : ℕ) (p : Parsed (Session × Bytes))
    → m ≤ n
    → Returns s (Read s m) p
    → Returns s (Read s n) p
Read-weaken s m n fault le h = elim h [ ]
Read-weaken s m n (ok a) le (accepts h) = accepts (h.0, Within-weaken n a.1 le h.1)
Read-weaken s m n (refused t) le (refuses h) = refuses h

pub param_loop-Returns :
    (k : ℕ) (s₀ s : Session) (t : Bytes) (n : ℕ)
    → Same s₀ s
    → Within n t
    → n < k
    → Returns s₀ (Read s₀ n) (param_loop k s t)
unfolding param_loop
param_loop-Returns zero s₀ s t n same w fuel = elim fuel [ ]
param_loop-Returns (suc k) s₀ s t n same w fuel =
    let (t₁, e₁, w₁) = skip_while-Within is_separator t n refl w in
    let (c, rest, e₂) = fine-get t₁ w₁.is_fine in
    let at : skip_while is_separator t ≡ some (c ∷ rest) = e₁ ∙ ap some e₂ in
    let w' : Within n (c ∷ rest) = subst (Within n) e₂ w₁ in
    let other : is_separator c ≡ false = skip_while-stops is_separator t c rest at in
    let next = λ (t₂ : Bytes) (w₂ : Within (n - 1) t₂) (s' : Session) (same' : Same s₀ s').
      Read-weaken s₀ (n - 1) n (param_loop k s' t₂) (omega arith)
        (param_loop-Returns k s₀ s' t₂ (n - 1) same' w₂ (omega (arith, w'.short))) in
    rw at (
      Returns-require (Read s₀ n) s (not_nul c) _ same λ char.
        elim (at_crlf-fine c rest w'.is_fine) [
          | inl done ↦ rw done (accepts (same, w'))
          | inr (more, line) ↦ rw more (elim (strpbrk-further c rest n w' char other line) [
            | inl none_left ↦ rw none_left (refuses same)
            | inr (t₂, e₃, w₂) ↦
                rw e₃ (elim (strncmp-Within (codes "client_port=") (c ∷ rest) n refl w') [
                  | inl (port, w₃) ↦ rw port (
                      Returns-bind (Same s₀) (Read s₀ n) (parse_client_port s (drop 12 (c ∷ rest)))
                        _ (parse_client_port-Returns s₀ s (drop 12 (c ∷ rest)) (n - 12) same w₃)
                        (next t₂ w₂))
                  | inr no_port ↦ rw no_port (next t₂ w₂ s same)
                ])
          ])
        ])
