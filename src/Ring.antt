-- ===== src/Ring.antt =====
-- src/LinkedListElement.h: the ring of list elements. An element is its address; the heap gives the
-- two pointers of each.
pub mod Lists
use rtsp_h.Prelude.{ℕ, Bool, true, false, not, ◌==◌, if◌then◌else◌}

pub record Ring : Type 0 where
  pub next : ℕ → ℕ
  pub prev : ℕ → ℕ

abbrev pub set : (ℕ → ℕ) → ℕ → ℕ → ℕ → ℕ
set f at value i = if i == at then value else f i

abbrev pub set_next : Ring → ℕ → ℕ → Ring
set_next h at value = record h { next = set h.next at value }

abbrev pub set_prev : Ring → ℕ → ℕ → Ring
set_prev h at value = record h { prev = set h.prev at value }

-- `LinkedListElement(void)`
unfoldable pub new_head : Ring → ℕ → Ring
new_head h this = set_prev (set_next h this this) this this

-- `NotEmpty`
unfoldable pub not_empty : Ring → ℕ → Bool
not_empty h this = not (h.next this == this)

-- `LinkedListElement(LinkedListElement* linkedList)`
unfoldable pub add_element : Ring → ℕ → ℕ → Ring
add_element h list this =
    let h₁ = set_prev h this (h.prev list) in
    let h₂ = set_prev h₁ list this in
    let h₃ = set_next h₂ (h₂.prev this) this in set_next h₃ this list

-- The destructor; the pointers of an element of a ring are not `NULL`.
unfoldable pub remove_element : Ring → ℕ → Ring
remove_element h this =
    let h₁ = set_prev h (h.next this) (h.prev this) in set_next h₁ (h₁.prev this) (h₁.next this)
