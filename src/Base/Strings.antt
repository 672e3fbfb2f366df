-- ===== src/Base/Strings.antt =====
-- The functions of Go's `strings` and `strconv` packages that the driver calls. A text is a list
-- of code points: every text that reaches the driver is a protobuf string, which is valid UTF-8.
use Prim.Native.Char.{Char, code}
use Prim.Native.String.{String, count, ◌++◌ as ◌<>◌}
use Prim.Native.Nat.{ℕ, zero, suc, ◌+◌, ◌-◌, ◌*◌, ◌^◌}
use mathlib.Core.Bool.{Bool, true, false, ◌&&◌, ◌||◌}
use mathlib.Core.Option.{Option, none, some}
use csi_driver_nfs_export.Base.Core.{if◌then◌else◌, leb, nat_eq, ◌==◌}

-- The character at the same place in the second text as the first place where it is in the first.
unfoldable pub translate : Char → String → String → Char
translate c (String.◌∷◌ u us) (String.◌∷◌ l ls) =
    let rest = translate c us ls in if nat_eq (code c) (code u) then l else rest
translate c _ _ = c

-- strings.ToLower. The driver compares its result with ASCII texts only, so the table lists the
-- characters whose lower case is an ASCII letter: A to Z, U+0130 and U+212A (Kelvin).
unfoldable pub to_lower : String → String
unfolding translate
to_lower String.[] = String.[]
to_lower (String.◌∷◌ c s) =
    String.◌∷◌ (translate c "ABCDEFGHIJKLMNOPQRSTUVWXYZİK" "abcdefghijklmnopqrstuvwxyzik")
      (to_lower s)

-- strings.HasPrefix
unfoldable pub has_prefix : String → String → Bool
has_prefix s String.[] = true
has_prefix String.[] (String.◌∷◌ d t) = false
has_prefix (String.◌∷◌ c s) (String.◌∷◌ d t) = nat_eq (code c) (code d) && has_prefix s t

-- The text after a number of its characters.
unfoldable pub skip : ℕ → String → String
skip zero s = s
skip (suc n) String.[] = String.[]
skip (suc n) (String.◌∷◌ c s) = skip n s

-- strings.Replace(s, old, new, 1)
unfoldable pub replace_first : String → String → String → String
unfolding has_prefix skip
replace_first String.[] old new = if has_prefix String.[] old then new else String.[]
replace_first (String.◌∷◌ c s) old new =
    let rest = replace_first s old new in
    if has_prefix (String.◌∷◌ c s) old
    then new <> skip (count old) (String.◌∷◌ c s)
    else String.◌∷◌ c rest

-- The walk of `replace_all`; the number says how many characters of a match are still to skip.
unfoldable pub replace_from : ℕ → String → String → String → String
unfolding has_prefix
replace_from n String.[] old new = String.[]
replace_from (suc n) (String.◌∷◌ c s) old new = replace_from n s old new
replace_from zero (String.◌∷◌ c s) old new =
    let after_match = replace_from (count old - 1) s old new in
    let rest = replace_from zero s old new in
    if has_prefix (String.◌∷◌ c s) old then new <> after_match else String.◌∷◌ c rest

-- strings.ReplaceAll, for an `old` that is not empty.
unfoldable pub replace_all : String → String → String → String
unfolding replace_from
replace_all s old new = replace_from zero s old new

-- strings.Contains
unfoldable pub contains : String → String → Bool
unfolding has_prefix
contains String.[] t = has_prefix String.[] t
contains (String.◌∷◌ c s) t = has_prefix (String.◌∷◌ c s) t || contains s t

-- strings.SplitN(s, sep, 2): the parts before and behind the first separator, if there is one.
unfoldable pub cut : String → String → Option (String × String)
unfolding has_prefix skip
cut String.[] sep = if has_prefix String.[] sep then some ("", "") else none
cut (String.◌∷◌ c s) sep =
    let rest = cut s sep in
    if has_prefix (String.◌∷◌ c s) sep
    then some ("", skip (count sep) (String.◌∷◌ c s))
    else elim rest [ none ↦ none | some (before, behind) ↦ some (String.◌∷◌ c before, behind) ]

-- strconv.ParseUint(s, 8, 32): the digits so far are the number; a value that 32 bits do not hold
-- is a range error, any other character a syntax error.
unfoldable pub parse_digits : ℕ → String → Option ℕ
parse_digits n String.[] = some n
parse_digits n (String.◌∷◌ c s) =
    let n' = n * 8 + (code c - 48) in
    let rest = parse_digits n' s in
    if leb 48 (code c) && leb (code c) 55 then if leb (2 ^ 32) n' then none else rest else none

unfoldable pub parse_octal : String → Option ℕ
unfolding parse_digits
parse_octal s = if s == "" then none else parse_digits 0 s

-- unicode.IsSpace
unfoldable pub is_space : ℕ → Bool
is_space n =
    (leb 9 n && leb n 13)
    || nat_eq n 32
    || nat_eq n 0x85
    || nat_eq n 0xa0
    || nat_eq n 0x1680
    || (leb 0x2000 n && leb n 0x200a)
    || nat_eq n 0x2028
    || nat_eq n 0x2029
    || nat_eq n 0x202f
    || nat_eq n 0x205f
    || nat_eq n 0x3000

unfoldable pub trim_left : String → String
unfolding is_space
trim_left String.[] = String.[]
trim_left (String.◌∷◌ c s) =
    let rest = trim_left s in if is_space (code c) then rest else String.◌∷◌ c s

unfoldable pub trim_right : String → String
unfolding is_space
trim_right String.[] = String.[]
trim_right (String.◌∷◌ c s) =
    let rest = trim_right s in
    if is_space (code c) && rest == "" then String.[] else String.◌∷◌ c rest

-- strings.TrimSpace
unfoldable pub trim_space : String → String
unfolding trim_left trim_right
trim_space s = trim_right (trim_left s)
