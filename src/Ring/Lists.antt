-- ===== src/Ring/Lists.antt =====
-- src/LinkedListElement.h: the list that a ring stands for.
use rtsp_h.Prelude.{
  ℕ, ◌≡◌, ◌≢◌, ap, sym, ◌∙◌, Bool, true, false, not, ◌==◌, ==_iff, List, [], ◌∷◌, ◌++◌, arith,
}
use rtsp_h.Ring.{Ring, set, add_element, remove_element, not_empty, new_head}

-- From `a` the pointers lead over the elements of a list to `b`, and back.
abbrev pub Linked : Ring → ℕ → List ℕ → ℕ → Type 0
Linked h a [] b = (h.next a ≡ b) × (h.prev b ≡ a)
Linked h a (x ∷ xs) b = (h.next a ≡ x) × (h.prev x ≡ a) × Linked h x xs b

abbrev pub Without : ℕ → List ℕ → Type 0
Without a [] = Unit
Without a (x ∷ xs) = (a ≢ x) × Without a xs

abbrev pub Distinct : List ℕ → Type 0
Distinct [] = Unit
Distinct (x ∷ xs) = Without x xs × Distinct xs

abbrev last : ℕ → List ℕ → ℕ
last a [] = a
last a (x ∷ xs) = last x xs

prev-last : (h : Ring) (a : ℕ) (xs : List ℕ) (b : ℕ) → Linked h a xs b → h.prev b ≡ last a xs
prev-last h a [] b (n, p) = p
prev-last h a (x ∷ xs) b (n, p, rest) = prev-last h x xs b rest

last-other : (a x : ℕ) (xs : List ℕ) → Without a (x ∷ xs) → a ≢ last x xs
last-other a x [] (h, rest) = h
last-other a x (y ∷ xs) (h, (k, rest)) = last-other a y xs (k, rest)

set-there : (f : ℕ → ℕ) (at v : ℕ) → set f at v at ≡ v
set-there f at v = ground arith

set-other : (f : ℕ → ℕ) (at v i : ℕ) → i ≢ at → set f at v i ≡ f i
set-other f at v i h = ground arith

-- The last pointer of the way is bent to a new element.
bend :
    (h h' : Ring) (a : ℕ) (xs : List ℕ) (b e : ℕ)
    → Linked h a xs b
    → Distinct (a ∷ xs)
    → Without b xs
    → Without e (a ∷ xs)
    → ((i : ℕ) → i ≢ last a xs → i ≢ e → h'.next i ≡ h.next i)
    → ((i : ℕ) → i ≢ b → i ≢ e → h'.prev i ≡ h.prev i)
    → h'.next (last a xs) ≡ e
    → h'.prev e ≡ last a xs
    → h'.next e ≡ b
    → h'.prev b ≡ e
    → Linked h' a (xs ++ e ∷ []) b
bend h h' a [] b e link d wb we same_next same_prev ne pe nb pb = (ne, pe, (nb, pb))
bend h h' a (x ∷ xs) b e (n, p, link) (da, d) (bx, wb) (ea, we) same_next same_prev ne pe nb pb = (
  same_next a (last-other a x xs da) (λ eq. ea (sym eq)) ∙ n,
  same_prev x (λ eq. bx (sym eq)) (λ eq. we.0 (sym eq)) ∙ p,
  bend h h' x xs b e link d wb we same_next same_prev ne pe nb pb,
)

Without-append : (a : ℕ) (xs ys : List ℕ) → Without a xs → Without a ys → Without a (xs ++ ys)
Without-append a [] ys h k = k
Without-append a (x ∷ xs) ys (at, h) k = (at, Without-append a xs ys h k)

Distinct-append : (xs : List ℕ) (e : ℕ) → Distinct xs → Without e xs → Distinct (xs ++ e ∷ [])
Distinct-append [] e d w = (tt, tt)
Distinct-append (x ∷ xs) e (wx, d) (ex, w) =
    (Without-append x xs (e ∷ []) wx ((λ eq. ex (sym eq)), tt), Distinct-append xs e d w)

-- The ring of `head` with the elements of a list, in order.
pub record IsRing (h : Ring) (head : ℕ) (xs : List ℕ) : Type 0 where
  pub linked : Linked h head xs head
  pub distinct : Distinct (head ∷ xs)

-- An element that is not in the ring comes to the end of its list, and the others stay in their order.
pub add_element-IsRing :
    (h : Ring) (head : ℕ) (xs : List ℕ) (e : ℕ)
    → IsRing h head xs
    → Without e (head ∷ xs)
    → IsRing (add_element h head e) head (xs ++ e ∷ [])
unfolding add_element
add_element-IsRing h head xs e r (eh, we) =
    let at_last : h.prev head ≡ last head xs = prev-last h head xs head r.linked in
    let end : ℕ = last head xs in
    let found : set (set h.prev e (h.prev head)) head e e ≡ end =
      set-other (set h.prev e (h.prev head)) head e e eh
      ∙ (set-there h.prev e (h.prev head) ∙ at_last) in
    record {
      linked =
          bend h (add_element h head e) head xs head e r.linked r.distinct r.distinct.0 (eh, we)
            (λ i other fresh.
              rw found
                (set-other (set h.next end e) e head i fresh ∙ set-other h.next end e i other))
            (λ i other fresh.
              set-other (set h.prev e (h.prev head)) head e i other
              ∙ set-other h.prev e (h.prev head) i fresh)
            (rw found (
              set-other (set h.next end e) e head end (λ eq. last-other e head xs (eh, we) (sym eq))
              ∙ set-there h.next end e))
            found (set-there (set h.next (set (set h.prev e (h.prev head)) head e e) e) e head)
            (set-there (set h.prev e (h.prev head)) head e);
      distinct = Distinct-append (head ∷ xs) e r.distinct (eh, we);
    }

-- A way that the changed pointers do not touch.
frame :
    (h h' : Ring) (a : ℕ) (xs : List ℕ) (b pred succ : ℕ)
    → Linked h a xs b
    → Without pred (a ∷ xs)
    → Without succ xs
    → succ ≢ b
    → ((i : ℕ) → i ≢ pred → h'.next i ≡ h.next i)
    → ((i : ℕ) → i ≢ succ → h'.prev i ≡ h.prev i)
    → Linked h' a xs b
frame h h' a [] b pred succ (n, p) (pa, wp) ws sb same_next same_prev =
    (same_next a (λ eq. pa (sym eq)) ∙ n, same_prev b (λ eq. sb (sym eq)) ∙ p)
frame h h' a (x ∷ xs) b pred succ (n, p, link) (pa, wp) (sx, ws) sb same_next same_prev = (
  same_next a (λ eq. pa (sym eq)) ∙ n,
  same_prev x (λ eq. sx (sym eq)) ∙ p,
  frame h h' x xs b pred succ link wp ws sb same_next same_prev,
)

abbrev first : List ℕ → ℕ → ℕ
first [] b = b
first (x ∷ xs) b = x

first-other : (x : ℕ) (ys : List ℕ) (b : ℕ) → Without x ys → x ≢ b → x ≢ first ys b
first-other x [] b w h = h
first-other x (y ∷ ys) b (at, w) h = at

Without-left : (a : ℕ) (xs ys : List ℕ) → Without a (xs ++ ys) → Without a xs
Without-left a [] ys w = tt
Without-left a (x ∷ xs) ys (at, w) = (at, Without-left a xs ys w)

Without-right : (a : ℕ) (xs ys : List ℕ) → Without a (xs ++ ys) → Without a ys
Without-right a [] ys w = w
Without-right a (x ∷ xs) ys (at, w) = Without-right a xs ys w

-- An element is left out of the way.
cut :
    (h h' : Ring) (a : ℕ) (xs : List ℕ) (y : ℕ) (ys : List ℕ) (b : ℕ)
    → Linked h a (xs ++ y ∷ ys) b
    → Distinct (a ∷ (xs ++ y ∷ ys))
    → Without b (xs ++ y ∷ ys)
    → ((i : ℕ) → i ≢ last a xs → h'.next i ≡ h.next i)
    → ((i : ℕ) → i ≢ first ys b → h'.prev i ≡ h.prev i)
    → h'.next (last a xs) ≡ first ys b
    → h'.prev (first ys b) ≡ last a xs
    → Linked h' a (xs ++ ys) b
cut h h' a [] y [] b link d wb same_next same_prev ne pe = (ne, pe)
cut h h' a [] y (z ∷ zs) b (n, p, (n', p', link)) ((ay, (az, wa)), (wy, (wz, d))) (by, (bz, wb))
      same_next same_prev ne pe =
    (ne, pe, frame h h' z zs b a z link (az, wa) wz (λ eq. bz (sym eq)) same_next same_prev)
cut h h' a (x ∷ xs) y ys b (n, p, link) (wa, d) (bx, wb) same_next same_prev ne pe = (
  same_next a (last-other a x xs (wa.0, Without-left a xs (y ∷ ys) wa.1)) ∙ n,
  same_prev x (first-other x ys b (Without-right x xs (y ∷ ys) d.0).1 (λ eq. bx (sym eq))) ∙ p,
  cut h h' x xs y ys b link d wb same_next same_prev ne pe,
)

Distinct-cut : (xs : List ℕ) (y : ℕ) (ys : List ℕ) → Distinct (xs ++ y ∷ ys) → Distinct (xs ++ ys)
Distinct-cut [] y ys (w, d) = d
Distinct-cut (x ∷ xs) y ys (w, d) = (
  Without-append x xs ys (Without-left x xs (y ∷ ys) w) (Without-right x xs (y ∷ ys) w).1,
  Distinct-cut xs y ys d,
)

-- Around an element stand the one before it and the one behind it.
around :
    (h : Ring) (a : ℕ) (xs : List ℕ) (y : ℕ) (ys : List ℕ) (b : ℕ)
    → Linked h a (xs ++ y ∷ ys) b
    → (h.prev y ≡ last a xs) × (h.next y ≡ first ys b)
around h a [] y [] b (n, p, (n', p')) = (p, n')
around h a [] y (z ∷ zs) b (n, p, (n', p', link)) = (p, n')
around h a (x ∷ xs) y ys b (n, p, link) = around h x xs y ys b link

-- An element of a ring that is destroyed leaves the list, and the others stay in their order.
pub remove_element-IsRing :
    (h : Ring) (head : ℕ) (xs : List ℕ) (y : ℕ) (ys : List ℕ)
    → IsRing h head (xs ++ y ∷ ys)
    → IsRing (remove_element h y) head (xs ++ ys)
unfolding remove_element
remove_element-IsRing h head xs y ys r =
    let pred : ℕ = last head xs in
    let succ : ℕ = first ys head in
    let (before, behind) = around h head xs y ys head r.linked in
    let moved : set h.prev (h.next y) (h.prev y) y ≡ pred = ground arith in
    record {
      linked =
          cut h (remove_element h y) head xs y ys head r.linked r.distinct r.distinct.0
            (λ i other. rw moved (set-other h.next pred (h.next y) i other))
            (λ i other. rw behind (set-other h.prev succ (h.prev y) i other))
            (rw moved (set-there h.next pred (h.next y) ∙ behind))
            (rw behind (set-there h.prev succ (h.prev y) ∙ before));
      distinct = Distinct-cut (head ∷ xs) y ys r.distinct;
    }

-- A new head is a ring of no elements.
pub new_head-IsRing : (h : Ring) (head : ℕ) → IsRing (new_head h head) head []
unfolding new_head
new_head-IsRing h head = record {
  linked = (set-there h.next head head, set-there h.prev head head);
  distinct = (tt, tt);
}

abbrev pub has_element : List ℕ → Bool
has_element [] = false
has_element (_ ∷ _) = true

-- The test of a ring tells whether its list has an element.
pub not_empty-IsRing :
    (h : Ring) (head : ℕ) (xs : List ℕ) → IsRing h head xs → not_empty h head ≡ has_element xs
unfolding not_empty
not_empty-IsRing h head [] r = ap not ((==_iff (h.next head) head).1 r.linked.0)
not_empty-IsRing h head (x ∷ xs) r =
    let at : h.next head ≡ x = r.linked.0 in
    let other : head ≢ x = r.distinct.0.0 in
    let there : (h.next head == head) ≡ false = ground arith in ap not there
