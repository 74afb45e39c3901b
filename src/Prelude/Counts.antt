-- ===== src/Prelude/Counts.antt =====
-- How often a text stands in a list of texts, and `sort.Strings`.
use Prim.Native.Nat.{ℕ, suc, ◌+◌, ◌≤◌, ◌<◌}
use mathlib.Core.Path.{◌≡◌, refl}
use mathlib.Core.List.{List, [], ◌∷◌, ◌++◌}
use native.Mathlib.Omega.{arith}
use ai_agent_cloud_runtime.Prelude.Tests.{if◌then◌else◌}
use ai_agent_cloud_runtime.Prelude.Lists.{length}
use ai_agent_cloud_runtime.Prelude.Text.{Text, text_eq, text_eq_iff, text_eq_refl, text_lt}

abbrev pub count : Text → List Text → ℕ
count x [] = 0
count x (y ∷ ys) = (if text_eq y x then 1 else 0) + count x ys

pub count-append : (x : Text) (ys zs : List Text) → count x (ys ++ zs) ≡ count x ys + count x zs
count-append x [] zs = omega arith
count-append x (y ∷ ys) zs = omega (arith, count-append x ys zs)

insert_sorted : Text → List Text → List Text
insert_sorted x [] = x ∷ []
insert_sorted x (y ∷ ys) = if text_lt y x then y ∷ insert_sorted x ys else x ∷ y ∷ ys

-- `sort.Strings`
unfoldable pub sort_strings : List Text → List Text
unfolding insert_sorted text_lt
sort_strings [] = []
sort_strings (x ∷ xs) = insert_sorted x (sort_strings xs)

count-insert_sorted :
    (a x : Text) (ys : List Text) → count a (insert_sorted x ys) ≡ count a (x ∷ ys)
unfolding insert_sorted text_lt
count-insert_sorted a x [] = refl
count-insert_sorted a x (y ∷ ys) = ground (arith, count-insert_sorted a x ys)

pub count-sort_strings : (a : Text) (xs : List Text) → count a (sort_strings xs) ≡ count a xs
unfolding sort_strings
count-sort_strings a [] = refl
count-sort_strings a (x ∷ xs) =
    omega (arith, count-insert_sorted a x (sort_strings xs), count-sort_strings a xs)

length-insert_sorted : (x : Text) (ys : List Text) → length (insert_sorted x ys) ≡ suc (length ys)
unfolding insert_sorted text_lt
length-insert_sorted x [] = refl
length-insert_sorted x (y ∷ ys) = ground (arith, length-insert_sorted x ys)

pub length-sort_strings : (xs : List Text) → length (sort_strings xs) ≡ length xs
unfolding sort_strings
length-sort_strings [] = refl
length-sort_strings (x ∷ xs) =
    omega (arith, length-insert_sorted x (sort_strings xs), length-sort_strings xs)

-- without its first occurrence
remove_first : Text → List Text → List Text
remove_first x [] = []
remove_first x (y ∷ ys) = if text_eq y x then ys else y ∷ remove_first x ys

count-remove_first :
    (a x : Text) (ys : List Text)
    → 0 < count x ys
    → count a (remove_first x ys) + (if text_eq x a then 1 else 0) ≡ count a ys
unfolding remove_first
count-remove_first a x [] h = absurd (omega arith)
count-remove_first a x (y ∷ ys) h = ground (arith, text_eq_iff y x, count-remove_first a x ys)

length-remove_first :
    (x : Text) (ys : List Text) → 0 < count x ys → suc (length (remove_first x ys)) ≡ length ys
unfolding remove_first
length-remove_first x [] h = absurd (omega arith)
length-remove_first x (y ∷ ys) h = ground (arith, length-remove_first x ys)

-- A list whose texts stand as often in another is no longer than it.
pub length-le_of_count :
    (xs ys : List Text) → ((a : Text) → count a xs ≤ count a ys) → length xs ≤ length ys
length-le_of_count [] ys h = omega arith
length-le_of_count (x ∷ xs) ys h =
    let inside : 0 < count x ys = ground (arith, h x, text_eq_refl x) in
    let rest : (a : Text) → count a xs ≤ count a (remove_first x ys) =
      λ a. omega (arith, h a, count-remove_first a x ys inside) in
    omega (arith, length-remove_first x ys inside, length-le_of_count xs (remove_first x ys) rest)

-- If it is as long, the two hold the same texts.
pub count-eq_of_length :
    (xs ys : List Text)
    → ((a : Text) → count a xs ≤ count a ys)
    → length xs ≡ length ys
    → (a : Text) → count a xs ≡ count a ys
count-eq_of_length [] [] h e a = refl
count-eq_of_length [] (y ∷ ys) h e a = absurd (omega arith)
count-eq_of_length (x ∷ xs) ys h e a =
    let inside : 0 < count x ys = ground (arith, h x, text_eq_refl x) in
    let rest : (b : Text) → count b xs ≤ count b (remove_first x ys) =
      λ b. omega (arith, h b, count-remove_first b x ys inside) in
    omega (
      arith,
      count-remove_first a x ys inside,
      count-eq_of_length xs (remove_first x ys) rest
          (omega (arith, length-remove_first x ys inside)) a,
    )
