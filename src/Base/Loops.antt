-- ===== src/Base/Loops.antt =====
-- When the order in which a loop visits a map's entries does not matter.
use mathlib.Core.Path.{◌≡◌, refl, ◌∙◌, subst, subst₂}
use mathlib.Core.Logic.{∥∥₁_elim}
use mathlib.Core.List.{
  List, [], ◌∷◌, Mem, not-mem-nil, forall_mem-cons, Pairwise, Perm, Permᴰ, mem-cons_self,
}
use csi_driver_nfs_export.Base.Core.{All}
use mathlib.Core.List.Permᴰ

-- The loop `go` treats neighbours that are related by `R` alike in both orders.
module _ {A S B : Type 0} (R : A → A → Type 0) (go : List A → S → B)
    (prop : (a b : A) → IsProp (R a b)) (symm : (a b : A) → R a b → R b a)
    (step : (a : A) (l l' : List A)
      → ((s : S) → go l s ≡ go l' s)
      → (s : S) → go (a ∷ l) s ≡ go (a ∷ l') s)
    (swap : (a b : A) (l : List A) (s : S) → R a b → go (a ∷ b ∷ l) s ≡ go (b ∷ a ∷ l) s) where
  loop_perm_d : {l l' : List A} → Permᴰ l l' → Pairwise R l → (s : S) → go l s ≡ go l' s
  loop_perm_d Permᴰ.nil h s = refl
  loop_perm_d (Permᴰ.cons {a = a} {l₁ = l} {l₂ = l'} p d) (Pairwise.cons _ h) s =
      subst (λ c. go (a ∷ l) s ≡ go (c ∷ l') s) p (step a l l' (loop_perm_d d h) s)
  loop_perm_d (Permᴰ.swap {a = a} {b = b} {l = l} p q) (Pairwise.cons h _) s =
      subst₂ (λ c d. go (a ∷ b ∷ l) s ≡ go (d ∷ c ∷ l) s) p q (swap a b l s (h b mem-cons_self))
  loop_perm_d (Permᴰ.trans d d') h s =
      loop_perm_d d h s ∙ loop_perm_d d' (Permᴰ.pairwise prop symm d h) s

  pub loop_perm : IsSet B → {l l' : List A} → Perm l l' → Pairwise R l → (s : S) → go l s ≡ go l' s
  loop_perm set p h s = ∥∥₁_elim p (set _ _) (λ d. loop_perm_d d h s)

all_mem :
    {A : Type 0} {P : A → Type 0}
    → ((x : A) → IsProp (P x))
    → (l : List A) → All P l
    → (x : A) → Mem x l
    → P x
all_mem prop [] all x m = absurd (not-mem-nil m)
all_mem prop (y ∷ l) (first, rest) x m = (forall_mem-cons prop).1 (first, all_mem prop l rest) x m

-- Every element is related to every later one.
abbrev AllPairs : {A : Type 0} → (A → A → Type 0) → List A → Type 0
AllPairs R [] = Unit
AllPairs R (x ∷ l) = All (R x) l × AllPairs R l

pub AllPairs-Pairwise :
    {A : Type 0} {R : A → A → Type 0}
    → ((x y : A) → IsProp (R x y))
    → (l : List A) → AllPairs R l
    → Pairwise R l
AllPairs-Pairwise prop [] all = Pairwise.nil
AllPairs-Pairwise prop (x ∷ l) (first, rest) =
    Pairwise.cons (all_mem (prop x) l first) (AllPairs-Pairwise prop l rest)
