-- ===== src/Base/GoMaps.antt =====
-- Go's maps as quotients: the entries, without the order in which a loop visits them.
use mathlib.Core.Path.{◌≡◌, refl, sym, ap}
use mathlib.Core.HLevel.{Σ_prop_path, Π_prop}
use mathlib.Core.List.{List, Pairwise, Perm}
use mathlib.Core.Quot
use mathlib.Core.Quot.{Quot, Quot-set}

module _ {E : Type 0} (R : E → E → Type 0) where
  -- An order of visiting, of entries that are related by `R` pair by pair.
  abbrev pub VisitingOrder : Type 0
  VisitingOrder = (l : List E) × Pairwise R l

  abbrev pub HaveSameEntries : VisitingOrder → VisitingOrder → Type 0
  HaveSameEntries a b = Perm a.0 b.0

  abbrev pub GoMap : Type 0
  GoMap = Quot HaveSameEntries

  -- All orders in which the map may be visited give this answer.
  abbrev pub IsAnswerOf : {A : Type 0} → GoMap → (List E → A) → A → Type 0
  IsAnswerOf map f r = (order : VisitingOrder) → Quot.mk order ≡ map → f order.0 ≡ r

module _ {E A : Type 0} (R : E → E → Type 0) (set : IsSet A) (f : List E → A)
    (respects : (l l' : List E) → Perm l l' → Pairwise R l → f l ≡ f l') where
  answer : GoMap R → A
  answer = Quot.lift set (λ order. f order.0) (λ a b same. respects a.0 b.0 same a.1)

  answer_is : (map : GoMap R) → IsAnswerOf R map f (answer map)
  unfolding answer
  answer_is map order q = ap answer q

  only : (map : GoMap R) (r : A) → IsAnswerOf R map f r → r ≡ answer map
  unfolding answer
  only = Quot.ind (λ m. Π_prop λ r. Π_prop λ h. set _ _) (λ order r h. sym (h order refl))

  -- What does not depend on the order of visiting is a function of the map.
  pub has_answer : (map : GoMap R) → IsContr ((r : A) × IsAnswerOf R map f r)
  has_answer map = (
    (answer map, answer_is map),
    λ other. Σ_prop_path (λ r. Π_prop λ order. Π_prop λ q. set _ _) (only map other.0 other.1),
  )
