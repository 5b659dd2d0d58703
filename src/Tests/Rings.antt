-- ===== src/Tests/Rings.antt =====
-- Runs of the ring of list elements.
use rtsp_h.Prelude.{◌≡◌, true, [], ◌∷◌}
use rtsp_h.Ring.{Ring, new_head, add_element, remove_element, not_empty}
use rtsp_h.Ring.Lists.{
  IsRing, new_head-IsRing, add_element-IsRing, remove_element-IsRing, not_empty-IsRing,
}

abbrev blank : Ring
blank = record { next = λ i. 0; prev = λ i. 0 }

abbrev one : Ring
one = add_element (new_head blank 1) 1 2

abbrev two : Ring
two = add_element one 1 3

one-IsRing : IsRing one 1 (2 ∷ [])
one-IsRing =
    add_element-IsRing (new_head blank 1) 1 [] 2 (new_head-IsRing blank 1) ((λ e. cc e), tt)

two-IsRing : IsRing two 1 (2 ∷ 3 ∷ [])
two-IsRing = add_element-IsRing one 1 (2 ∷ []) 3 one-IsRing ((λ e. cc e), ((λ e. cc e), tt))

add_element-IsRing_example : IsRing (add_element one 1 3) 1 (2 ∷ 3 ∷ [])
add_element-IsRing_example =
    add_element-IsRing one 1 (2 ∷ []) 3 one-IsRing ((λ e. cc e), ((λ e. cc e), tt))

remove_element-IsRing_example : IsRing (remove_element two 2) 1 (3 ∷ [])
remove_element-IsRing_example = remove_element-IsRing two 1 [] 2 (3 ∷ []) two-IsRing

not_empty-IsRing_example : not_empty two 1 ≡ true
not_empty-IsRing_example = not_empty-IsRing two 1 (2 ∷ 3 ∷ []) two-IsRing
