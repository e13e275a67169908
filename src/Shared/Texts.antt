-- ===== src/Shared/Texts.antt =====
-- Texts as the program uses them: `strings.TrimSpace`, `TrimSuffix`, `TrimRight`, `TrimPrefix`,
-- `HasPrefix` and `EqualFold` of Go's standard library, over the code points of a text.
use Prim.Native.Nat.{ℕ, ◌+◌}
use Prim.Native.Char.{Char, code}
use Prim.Native.String.{String, [], ◌∷◌}
use mathlib.Core.Path.{◌≡◌, refl}
use mathlib.Core.Bool.{Bool, true, false, not, ◌&&◌, ◌||◌}
use mathlib.Core.List.{List, [], ◌∷◌}
use mathlib.Core.Option.{Option, none, some}
use dp1_feed_v.Shared.Tests.{and-left, and-right, leb, nat_eq, if◌then◌else◌}

-- `unicode.IsSpace`.
is_space : ℕ → Bool
is_space c =
    (leb 9 c && leb c 13)
    || nat_eq c 32
    || nat_eq c 0x85
    || nat_eq c 0xa0
    || nat_eq c 0x1680
    || (leb 0x2000 c && leb c 0x200a)
    || nat_eq c 0x2028
    || nat_eq c 0x2029
    || nat_eq c 0x202f
    || nat_eq c 0x205f
    || nat_eq c 0x3000

trim_left : String → String
trim_left [] = []
trim_left (c ∷ s) = if is_space (code c) then trim_left s else c ∷ s

abbrev is_empty : String → Bool
is_empty [] = true
is_empty (c ∷ s) = false

trim_right : String → String
trim_right [] = []
trim_right (c ∷ s) =
    let rest = trim_right s in if is_empty rest && is_space (code c) then [] else c ∷ rest

unfoldable pub trim_space : String → String
unfolding is_space trim_left trim_right
trim_space s = trim_right (trim_left s)

-- A code point that is neither space nor a comma, and a text of such.
is_plain_code : ℕ → Bool
is_plain_code c = not (is_space c) && not (nat_eq c b',')

unfoldable pub is_plain : String → Bool
unfolding is_plain_code is_space
is_plain [] = true
is_plain (c ∷ s) = is_plain_code (code c) && is_plain s

not-eq-true : (b : Bool) → not b ≡ true → b ≡ false
not-eq-true true h = cc
not-eq-true false h = refl

not-space : (c : ℕ) → is_plain_code c ≡ true → is_space c ≡ false
unfolding is_plain_code is_space
not-space c h = not-eq-true (is_space c) (and-left (not (is_space c)) _ h)

not-comma : (c : ℕ) → is_plain_code c ≡ true → nat_eq c b',' ≡ false
unfolding is_plain_code is_space
not-comma c h = not-eq-true (nat_eq c b',') (and-right (not (is_space c)) _ h)

if-and-false : {A : Type 0} (b : Bool) (x y : A) → (if b && false then x else y) ≡ y
if-and-false true x y = refl
if-and-false false x y = refl

plain-head : (c : Char) (s : String) → is_plain (c ∷ s) ≡ true → is_plain_code (code c) ≡ true
unfolding is_plain
plain-head c s h = and-left (is_plain_code (code c)) (is_plain s) h

plain-tail : (c : Char) (s : String) → is_plain (c ∷ s) ≡ true → is_plain s ≡ true
unfolding is_plain
plain-tail c s h = and-right (is_plain_code (code c)) (is_plain s) h

trim_right-plain : (s : String) → is_plain s ≡ true → trim_right s ≡ s
unfolding trim_right
trim_right-plain [] h = refl
trim_right-plain (c ∷ s) h =
    rw (trim_right-plain s (plain-tail c s h), not-space (code c) (plain-head c s h))
      (if-and-false (is_empty s) [] (c ∷ s))

trim_left-plain : (s : String) → is_plain s ≡ true → trim_left s ≡ s
unfolding trim_left
trim_left-plain [] h = refl
trim_left-plain (c ∷ s) h = rw (not-space (code c) (plain-head c s h))

pub trim_space-plain : (s : String) → is_plain s ≡ true → trim_space s ≡ s
unfolding trim_space
trim_space-plain s h = rw (trim_left-plain s h) (trim_right-plain s h)

-- The rest of a text behind a prefix.
strip_prefix : String → String → Option String
strip_prefix s [] = some s
strip_prefix [] (d ∷ p) = none
strip_prefix (c ∷ s) (d ∷ p) = if nat_eq (code c) (code d) then strip_prefix s p else none

unfoldable pub has_prefix : String → String → Bool
unfolding strip_prefix
has_prefix s p = elim (strip_prefix s p) [ none ↦ false | some r ↦ true ]

unfoldable pub trim_prefix : String → String → String
unfolding strip_prefix
trim_prefix s p = elim (strip_prefix s p) [ none ↦ s | some r ↦ r ]

-- `strings.TrimSuffix(s, "/")`: one slash at the end is dropped.
trim_slash : String → String
trim_slash [] = []
trim_slash (c ∷ []) = if nat_eq (code c) b'/' then [] else c ∷ []
trim_slash (c ∷ d ∷ s) = c ∷ trim_slash (d ∷ s)

unfoldable pub trim_suffix_slash : String → String
unfolding trim_slash
trim_suffix_slash s = trim_slash s

-- `strings.TrimRight(s, "/")`: every slash at the end is dropped.
unfoldable pub trim_right_slashes : String → String
trim_right_slashes [] = []
trim_right_slashes (c ∷ s) =
    let rest = trim_right_slashes s in
    if is_empty rest && nat_eq (code c) b'/' then [] else c ∷ rest

-- `strings.Split(s, ",")`
abbrev onto_first : Char → List String → List String
onto_first c [] = (c ∷ []) ∷ []
onto_first c (t ∷ ts) = (c ∷ t) ∷ ts

unfoldable pub split_commas : String → List String
split_commas [] = "" ∷ []
split_commas (c ∷ s) =
    let rest = split_commas s in if nat_eq (code c) b',' then "" ∷ rest else onto_first c rest

pub split_commas-plain : (s : String) → is_plain s ≡ true → split_commas s ≡ s ∷ []
unfolding split_commas
split_commas-plain [] h = refl
split_commas-plain (c ∷ s) h =
    rw (not-comma (code c) (plain-head c s h), split_commas-plain s (plain-tail c s h))

-- Simple case folding, exact where one of the two texts is ASCII: beside A to Z only U+017F and
-- U+212A fold to an ASCII letter.
fold_case : ℕ → ℕ
fold_case c =
    if leb b'A' c && leb c b'Z'
    then c + 32
    else if nat_eq c 0x17f
    then b's'
    else if nat_eq c 0x212a
    then b'k'
    else c

unfoldable pub equal_fold : String → String → Bool
unfolding fold_case
equal_fold [] [] = true
equal_fold [] (d ∷ t) = false
equal_fold (c ∷ s) [] = false
equal_fold (c ∷ s) (d ∷ t) = nat_eq (fold_case (code c)) (fold_case (code d)) && equal_fold s t

-- One code point of `strings.ToLower`, exact where the result is ASCII: beside A to Z only U+0130 and
-- U+212A have a lower-case letter of ASCII.
lower_case : ℕ → ℕ
lower_case c =
    if leb b'A' c && leb c b'Z'
    then c + 32
    else if nat_eq c 0x130
    then b'i'
    else if nat_eq c 0x212a
    then b'k'
    else c

-- `strings.ToLower(s) == t` for a text `t` of ASCII.
unfoldable pub lower_eq : String → String → Bool
unfolding lower_case
lower_eq [] [] = true
lower_eq [] (d ∷ t) = false
lower_eq (c ∷ s) [] = false
lower_eq (c ∷ s) (d ∷ t) = nat_eq (lower_case (code c)) (code d) && lower_eq s t

-- `len(s)`: the length of a text in UTF-8.
unfoldable pub byte_length : String → ℕ
byte_length [] = 0
byte_length (c ∷ s) =
    let rest = byte_length s in
    if leb (code c) 0x7f
    then 1 + rest
    else if leb (code c) 0x7ff
    then 2 + rest
    else if leb (code c) 0xffff
    then 3 + rest
    else 4 + rest

trim_space_padded : trim_space " \t a b\n" ≡ "a b"
unfolding trim_space
trim_space_padded = refl

fold_hash : equal_fold "SHA256:aB" "sha256:Ab" ≡ true
unfolding equal_fold
fold_hash = refl
