-- ===== src/Prelude/Text.antt =====
-- Go strings: a `Text` is the list of its bytes. What the program uses of package strings.
mod Tests
use Prim.Native.Char.{code}
use Prim.Native.Nat.{ℕ, zero, suc, ◌+◌, ◌-◌, ◌/◌, ◌%◌}
use Prim.Native.String.{String}
use mathlib.Core.Path.{◌≡◌, refl, ap}
use mathlib.Core.Logic.{◌↔◌, ◌≢◌, ◌⊎◌, inl, inr}
use mathlib.Core.Bool.{Bool, true, false, ◌&&◌, ◌||◌}
use mathlib.Core.List.{List, [], ◌∷◌, ◌++◌, reverse}
use native.Mathlib.Omega.{arith}
use ai_agent_cloud_runtime.Prelude.Tests.{leb, ltb, ◌==◌, ==_iff, if◌then◌else◌}

abbrev pub Text : Type 0
Text = List ℕ

-- The bytes of an ASCII literal.
abbrev pub codes : String → Text
codes String.[] = []
codes (String.◌∷◌ c s) = code c ∷ codes s

unfoldable pub text_eq : Text → Text → Bool
text_eq [] [] = true
text_eq [] (y ∷ ys) = false
text_eq (x ∷ xs) [] = false
text_eq (x ∷ xs) (y ∷ ys) = x == y && text_eq xs ys

pub text_eq→eq : (s t : Text) → text_eq s t ≡ true → s ≡ t
unfolding text_eq
text_eq→eq [] [] h = refl
text_eq→eq [] (y ∷ ys) h = cc
text_eq→eq (x ∷ xs) [] h = cc
text_eq→eq (x ∷ xs) (y ∷ ys) h = ground (arith, text_eq→eq xs ys)

pub text_eq_refl : (s : Text) → text_eq s s ≡ true
unfolding text_eq
text_eq_refl [] = refl
text_eq_refl (x ∷ xs) = ground (arith, text_eq_refl xs)

pub eq→text_eq : (s t : Text) → s ≡ t → text_eq s t ≡ true
eq→text_eq s t h = ground (arith, text_eq_refl t)

pub text_eq_iff : (s t : Text) → (text_eq s t ≡ true) ↔ (s ≡ t)
text_eq_iff s t = (text_eq→eq s t, eq→text_eq s t)

pub text_ne : (s t : Text) → s ≢ t → text_eq s t ≡ false
text_ne s t h = ground (arith, text_eq→eq s t)

unfoldable pub is_empty : Text → Bool
is_empty [] = true
is_empty (x ∷ xs) = false

-- `s < t` on strings: byte by byte.
unfoldable pub text_lt : Text → Text → Bool
text_lt s [] = false
text_lt [] (y ∷ ys) = true
text_lt (x ∷ xs) (y ∷ ys) = ltb x y || (x == y && text_lt xs ys)

is_ascii_space : ℕ → Bool
is_ascii_space c = (leb 9 c && leb c 13) || c == 32

-- The third byte of the spaces U+2000 to U+200A, U+2028, U+2029 and U+202F.
is_general_space : ℕ → Bool
is_general_space c = (leb 0x80 c && leb c 0x8a) || c == 0xa8 || c == 0xa9 || c == 0xaf

-- The length in bytes of the white space character (`unicode.IsSpace`) that starts at `a b c`, or 0.
is_wide_space : ℕ → ℕ → ℕ → Bool
unfolding is_general_space
is_wide_space a b c =
    (a == 0xe1 && b == 0x9a && c == 0x80)
    || (a == 0xe2 && b == 0x80 && is_general_space c)
    || (a == 0xe2 && b == 0x81 && c == 0x9f)
    || (a == 0xe3 && b == 0x80 && c == 0x80)

is_latin_space : ℕ → ℕ → Bool
is_latin_space a b = a == 0xc2 && (b == 0x85 || b == 0xa0)

space_width : Text → ℕ
unfolding is_ascii_space is_latin_space is_wide_space
space_width [] = 0
space_width (a ∷ []) = if is_ascii_space a then 1 else 0
space_width (a ∷ b ∷ []) = if is_ascii_space a then 1 else if is_latin_space a b then 2 else 0
space_width (a ∷ b ∷ c ∷ r) =
    if is_ascii_space a
    then 1
    else if is_latin_space a b
    then 2
    else if is_wide_space a b c
    then 3
    else 0

-- The same of the character that ends a text, given backwards.
space_width_back : Text → ℕ
unfolding is_ascii_space is_latin_space is_wide_space
space_width_back [] = 0
space_width_back (a ∷ []) = if is_ascii_space a then 1 else 0
space_width_back (a ∷ b ∷ []) = if is_ascii_space a then 1 else if is_latin_space b a then 2 else 0
space_width_back (a ∷ b ∷ c ∷ r) =
    if is_ascii_space a
    then 1
    else if is_latin_space b a
    then 2
    else if is_wide_space c b a
    then 3
    else 0

-- Drops white space at the front; `k` bytes of the current character are still to be dropped.
trim_front : (Text → ℕ) → ℕ → Text → Text
trim_front width k [] = []
trim_front width (suc k) (c ∷ r) = trim_front width k r
trim_front width zero (c ∷ r) =
    let rest = trim_front width (width (c ∷ r) - 1) r in if width (c ∷ r) == 0 then c ∷ r else rest

-- `strings.TrimSpace`
unfoldable pub trim_space : Text → Text
unfolding space_width space_width_back trim_front
trim_space s = reverse (trim_front space_width_back 0 (reverse (trim_front space_width 0 s)))

-- `strings.HasPrefix`
unfoldable pub has_prefix : Text → Text → Bool
has_prefix s [] = true
has_prefix [] (y ∷ ys) = false
has_prefix (x ∷ xs) (y ∷ ys) = x == y && has_prefix xs ys

decimal_loop : ℕ → ℕ → Text → Text
decimal_loop zero n acc = acc
decimal_loop (suc fuel) n acc =
    let digits = (n % 10 + 48) ∷ acc in
    let rest = decimal_loop fuel (n / 10) digits in if n / 10 == 0 then digits else rest

-- `%d` of a number: it has at most `n + 1` digits.
pub decimal : ℕ → Text
unfolding decimal_loop
decimal n = decimal_loop (suc n) n []
