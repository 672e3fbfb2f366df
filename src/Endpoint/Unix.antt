-- ===== src/Endpoint/Unix.antt =====
-- Endpoints that `ParseEndpoint` accepts: each protocol's name, "://" and an address.
use csi_driver_nfs_export.Base.{
  differ, String, ◌<>◌, sym, ℕ, Bool, true, false, ◌&&◌, ◌||◌, some, ◌≡◌, refl, ap, ◌∙◌, ◌==◌,
  nat_eq, if◌then◌else◌, inl, inr, ◌⊎◌, Bool-cases, arith,
}
use csi_driver_nfs_export.Base.Strings.{translate, to_lower, has_prefix, skip, cut}
use csi_driver_nfs_export.Endpoint.{endpoint, has_scheme, parse_endpoint}
use csi_driver_nfs_export.Endpoint.Range.{capitals, letters}
use Prim.Native.Char.{Char, code}
use Prim.Native.String.{count}
use text.Mathlib.TextLemmas.{nil-append, cons-append, length-cons, append_assoc}

nat_eq_refl : (n : ℕ) → nat_eq n n ≡ true
nat_eq_refl n = ground arith

to_lower-append : (s t : String) → to_lower (s <> t) ≡ to_lower s <> to_lower t
unfolding to_lower
to_lower-append String.[] t = rw (nil-append t, nil-append (to_lower t)) refl
to_lower-append (String.◌∷◌ c s) t =
    ap to_lower (cons-append c s t)
    ∙ ap (λ r. String.◌∷◌ (translate c capitals letters) r) (to_lower-append s t)
    ∙ sym (cons-append (translate c capitals letters) (to_lower s) (to_lower t))

has_prefix-append : (t s : String) → has_prefix (t <> s) t ≡ true
unfolding has_prefix
has_prefix-append String.[] s = refl
has_prefix-append (String.◌∷◌ c t) s =
    rw (cons-append c t s) (rw (nat_eq_refl (code c)) (has_prefix-append t s))

skip-append : (t s : String) → skip (count t) (t <> s) ≡ s
unfolding skip
skip-append String.[] s = rw (nil-append s) refl
skip-append (String.◌∷◌ c t) s = rw (cons-append c t s, length-cons c t) (skip-append t s)

cut_hit : (s : String) → has_prefix s "://" ≡ true → cut s "://" ≡ some ("", skip (count "://") s)
unfolding cut has_prefix
cut_hit String.[] q = cc
cut_hit (String.◌∷◌ c s) q = rw q refl

-- No colon in the text.
abbrev is_plain : String → Bool
is_plain String.[] = true
is_plain (String.◌∷◌ c s) = (if nat_eq (code c) 58 then false else true) && is_plain s

cut_miss :
    (c : Char) (s : String) {before behind : String}
    → nat_eq (code c) 58 ≡ false
    → cut s "://" ≡ some (before, behind)
    → cut (String.◌∷◌ c s) "://" ≡ some (String.◌∷◌ c before, behind)
unfolding cut has_prefix
cut_miss c s q found = rw (q, found) refl

cut-append : (w s : String) → is_plain w ≡ true → cut (w <> ("://" <> s)) "://" ≡ some (w, s)
cut-append String.[] s plain = rw nil-append (
    cut_hit ("://" <> s) (has_prefix-append "://" s)
    ∙ ap (λ (r : String). some ("", r)) (skip-append "://" s))
cut-append (String.◌∷◌ c w) s plain = elim (Bool-cases (nat_eq (code c) 58)) [
  | inl q ↦ absurd (differ (rw q at plain))
  | inr q ↦
      ap (λ (r : String). cut r "://") (cons-append c w ("://" <> s))
      ∙ cut_miss c (w <> ("://" <> s)) q (cut-append w s (rw q at plain))
]

or_true : (b : Bool) → (b || true) ≡ true
or_true true = refl
or_true false = refl

unix_lower : to_lower "unix://" ≡ "unix://"
unfolding to_lower
unix_lower = refl

tcp_lower : to_lower "tcp://" ≡ "tcp://"
unfolding to_lower
tcp_lower = refl

scheme_prefix : (w r : String) → to_lower w ≡ w → has_prefix (to_lower (w <> r)) w ≡ true
scheme_prefix w r same = rw (to_lower-append, same) (has_prefix-append w (to_lower r))

plain_proto : (proto : String) → (proto ≡ "unix") ⊎ (proto ≡ "tcp") → is_plain proto ≡ true
plain_proto proto (inl q) = rw q refl
plain_proto proto (inr q) = rw q refl

has_scheme_lower :
    (proto path : String)
    → (proto ≡ "unix") ⊎ (proto ≡ "tcp")
    → has_scheme (proto <> ("://" <> path)) ≡ true
unfolding has_scheme
has_scheme_lower proto path (inl q) =
    rw (q, ← append_assoc "unix" "://" path, scheme_prefix "unix://" path unix_lower) refl
has_scheme_lower proto path (inr q) =
    rw (q, ← append_assoc "tcp" "://" path, scheme_prefix "tcp://" path tcp_lower) (or_true _)

-- `ParseEndpoint` gives back the protocol and the address of every endpoint that is put together from
-- "unix" or "tcp", "://" and an address that is not empty.
pub parse_endpoint_made :
    (proto path : String)
    → (proto ≡ "unix") ⊎ (proto ≡ "tcp")
    → (path == "") ≡ false
    → parse_endpoint (proto <> "://" <> path) ≡ endpoint proto path
unfolding parse_endpoint
parse_endpoint_made proto path known full =
    rw (has_scheme_lower proto path known, cut-append proto path (plain_proto proto known), full)
      refl
