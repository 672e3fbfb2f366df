-- ===== src/Endpoint/Range.antt =====
-- `ParseEndpoint` has both parts whenever the scheme fits: `s[1]` is in range.
use csi_driver_nfs_export.Base.{
  differ, String, ◌<>◌, ℕ, Bool, true, false, ◌&&◌, ◌||◌, is_some, ◌==◌, ◌≡◌, refl, if◌then◌else◌,
  arith, Bool-cases, Option-cases, inl, inr, nat_eq, ◌⊎◌,
}
use csi_driver_nfs_export.Base.Strings.{translate, to_lower, has_prefix, cut}
use csi_driver_nfs_export.Endpoint.{endpoint, invalid, has_scheme, parse_endpoint}
use csi_driver_nfs_export.Endpoint.Parsing.{cut_join}
use Prim.Native.Char.{Char, code}
use text.Mathlib.TextLemmas.{nil-append, cons-append}

-- Some character of the text has the code.
abbrev occurs : ℕ → String → Bool
occurs n String.[] = false
occurs n (String.◌∷◌ c s) = nat_eq (code c) n || occurs n s

-- A character that is no lower case letter of the table is not changed into.
translate_only :
    (c : Char) (n : ℕ) (upper lower : String)
    → occurs n lower ≡ false
    → nat_eq (code (translate c upper lower)) n ≡ true
    → nat_eq (code c) n ≡ true
unfolding translate
translate_only c n String.[] lower absent q = q
translate_only c n (String.◌∷◌ u us) String.[] absent q = q
translate_only c n (String.◌∷◌ u us) (String.◌∷◌ l ls) absent q =
    ground (arith, translate_only c n us ls)

abbrev pub letters : String
letters = "abcdefghijklmnopqrstuvwxyzik"

-- No character of the text is a lower case letter.
abbrev is_free : String → Bool
is_free String.[] = true
is_free (String.◌∷◌ c s) = (if occurs (code c) letters then false else true) && is_free s

abbrev pub capitals : String
capitals = "ABCDEFGHIJKLMNOPQRSTUVWXYZİK"

and_parts : (a b : Bool) → (a && b) ≡ true → (a ≡ true) × (b ≡ true)
and_parts true b q = (refl, q)
and_parts false b q = cc

both : {a b : Bool} → a ≡ true → b ≡ true → (a && b) ≡ true
both p q = rw (p, q) refl

free_head :
    (d : Char) (t : String)
    → is_free (String.◌∷◌ d t) ≡ true
    → (occurs (code d) letters ≡ false) × (is_free t ≡ true)
free_head d t free = elim (Bool-cases (occurs (code d) letters)) [
  | inl q ↦ absurd (differ (rw q at free))
  | inr q ↦ (q, rw q at free)
]

has_prefix_lower :
    (s t : String) → is_free t ≡ true → has_prefix (to_lower s) t ≡ true → has_prefix s t ≡ true
unfolding has_prefix to_lower
has_prefix_lower s String.[] free q = refl
has_prefix_lower String.[] (String.◌∷◌ d t) free q = q
has_prefix_lower (String.◌∷◌ c s) (String.◌∷◌ d t) free q =
    let (kept, free') = free_head d t free in
    let (same, rest) =
      and_parts (nat_eq (code (translate c capitals letters)) (code d)) (has_prefix (to_lower s) t)
        q in
    both (translate_only c (code d) capitals letters kept same) (has_prefix_lower s t free' rest)

prefix_nil : (d : Char) (r : String) → has_prefix (to_lower String.[]) (String.◌∷◌ d r) ≡ true → ⊥
unfolding has_prefix to_lower
prefix_nil d r q = differ q

prefix_tail :
    (c d : Char) (s r : String)
    → has_prefix (to_lower (String.◌∷◌ c s)) (String.◌∷◌ d r) ≡ true
    → has_prefix (to_lower s) r ≡ true
unfolding has_prefix to_lower
prefix_tail c d s r q =
    (and_parts (nat_eq (code (translate c capitals letters)) (code d)) (has_prefix (to_lower s) r)
      q).1

cut_prefix : (s : String) → has_prefix s "://" ≡ true → is_some (cut s "://") ≡ true
unfolding cut has_prefix
cut_prefix String.[] q = cc
cut_prefix (String.◌∷◌ c s) q = rw q refl

cut_tail :
    (c : Char) (s : String)
    → is_some (cut s "://") ≡ true
    → is_some (cut (String.◌∷◌ c s) "://") ≡ true
unfolding cut
cut_tail c s q = elim (Bool-cases (has_prefix (String.◌∷◌ c s) "://")) [
  | inl hit ↦ rw hit refl
  | inr miss ↦ elim (Option-cases (cut s "://")) [
    | inl uncut ↦ absurd (differ (rw uncut at q))
    | inr (parts, found) ↦ rw (miss, found) refl
  ]
]

-- A text that begins, up to the case of its letters, with some characters and "://" has the
-- separator in it.
cut_found :
    (w s : String) → has_prefix (to_lower s) (w <> "://") ≡ true → is_some (cut s "://") ≡ true
cut_found String.[] s q = cut_prefix s (has_prefix_lower s "://" refl (rw nil-append at q))
cut_found (String.◌∷◌ d w) String.[] q = absurd (prefix_nil d (w <> "://") (rw cons-append at q))
cut_found (String.◌∷◌ d w) (String.◌∷◌ c s) q =
    cut_tail c s (cut_found w s (prefix_tail c d s (w <> "://") (rw cons-append at q)))

cut_scheme : (ep : String) → has_scheme ep ≡ true → is_some (cut ep "://") ≡ true
unfolding has_scheme
cut_scheme ep q = elim (Bool-cases (has_prefix (to_lower ep) "unix://")) [
  | inl unix ↦ cut_found "unix" ep unix
  | inr other ↦ cut_found "tcp" ep (rw other at q)
]

-- `ParseEndpoint` never indexes out of range: it gives the error with the endpoint in it, or the
-- protocol and an address that is not empty, which with "://" between them are the endpoint.
pub parse_endpoint_total :
    (ep : String)
    → (parse_endpoint ep ≡ invalid ep)
      ⊎ ((proto addr : String) × (parse_endpoint ep ≡ endpoint proto addr)
          × (proto <> "://" <> addr ≡ ep)
          × ((addr == "") ≡ false))
unfolding parse_endpoint
parse_endpoint_total ep = elim (Bool-cases (has_scheme ep)) [
  | inr other ↦ inl (rw other refl)
  | inl has ↦ elim (Option-cases (cut ep "://")) [
    | inl uncut ↦ absurd (differ (rw uncut at (cut_scheme ep has)))
    | inr ((p, a), parts) ↦ elim (Bool-cases (a == "")) [
      | inl empty ↦ inl (rw (has, parts, empty) refl)
      | inr full ↦ inr (p, a, rw (has, parts, full) refl, cut_join ep "://" p a parts, full)
    ]
  ]
]
