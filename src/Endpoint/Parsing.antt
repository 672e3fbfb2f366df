-- ===== src/Endpoint/Parsing.antt =====
-- How an endpoint is cut at its separator: the parts, with the separator between them, are the text.
use csi_driver_nfs_export.Base.{
  nothing, String, ◌<>◌, true, false, some, ◌≡◌, refl, ap, arith, Bool-cases, Option-cases, inl,
  inr, nat_eq, some_inj,
}
use csi_driver_nfs_export.Base.Strings.{has_prefix, skip, cut}
use Prim.Native.Char.{Char, code}
use Prim.Native.String.{count}
use text.Mathlib.TextEquality.{Char-path}
use text.Mathlib.TextLemmas.{nil-append, cons-append, length-cons}

fails : {A : Type 0} → false ≡ true → A
fails q = cc

same_char : (c d : Char) → nat_eq (code c) (code d) ≡ true → c ≡ d
same_char c d q = Char-path c d (ground arith)

has_prefix-skip : (s t : String) → has_prefix s t ≡ true → t <> skip (count t) s ≡ s
unfolding has_prefix skip
has_prefix-skip s String.[] q = nil-append s
has_prefix-skip String.[] (String.◌∷◌ d t) q = fails q
has_prefix-skip (String.◌∷◌ c s) (String.◌∷◌ d t) q = elim (Bool-cases (nat_eq (code c) (code d))) [
  | inl hit ↦
      rw (length-cons d t, cons-append d t (skip (count t) s), same_char c d hit)
        (ap (λ r. String.◌∷◌ d r) (has_prefix-skip s t (rw hit at q)))
  | inr miss ↦ fails (rw miss at q)
]

pub cut_join :
    (s sep before behind : String)
    → cut s sep ≡ some (before, behind)
    → before <> (sep <> behind) ≡ s
unfolding cut has_prefix skip
cut_join String.[] String.[] before behind q =
    let same = some_inj q in
    rw
      (
        ← ap (λ (r : String × String). r.0) same,
        ← ap (λ (r : String × String). r.1) same,
        nil-append,
      )
      refl
cut_join String.[] (String.◌∷◌ d t) before behind q = nothing q
cut_join (String.◌∷◌ c s) sep before behind q =
    elim (Bool-cases (has_prefix (String.◌∷◌ c s) sep)) [
      | inl hit ↦
          let same = some_inj (rw hit at q) in
          rw
            (
              ← ap (λ (r : String × String). r.0) same,
              ← ap (λ (r : String × String). r.1) same,
              nil-append,
            )
            (has_prefix-skip (String.◌∷◌ c s) sep hit)
      | inr miss ↦ elim (Option-cases (cut s sep)) [
        | inl uncut ↦ nothing (rw (miss, uncut) at q)
        | inr ((b, a), parts) ↦
            let same = some_inj (rw (miss, parts) at q) in
            rw
              (
                ← ap (λ (r : String × String). r.0) same,
                ← ap (λ (r : String × String). r.1) same,
                cons-append,
              )
              (ap (λ r. String.◌∷◌ c r) (cut_join s sep b a parts))
      ]
    ]
