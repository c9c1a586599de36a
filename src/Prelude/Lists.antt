-- ===== src/Prelude/Lists.antt =====
-- Lists measured by native numbers, under the library's names, and lists of texts used as the
-- sets and the stacks of the source.
use Prim.Native.Nat.{ℕ, zero, suc, ◌+◌, ◌≤◌}
use Prim.Native.String.{String}
use mathlib.Core.Path.{◌≡◌, refl, ◌∙◌}
use mathlib.Core.Bool.{Bool, true, false, ◌&&◌, ◌||◌, not}
use mathlib.Core.List.{List, [], ◌∷◌, ◌++◌}
use text.Mathlib.Text.{◌==◌}
use text.Mathlib.TextEquality.{eq_iff}
use native.Mathlib.Omega.{arith}
use kuva_ai.Prelude.Tests.{if◌then◌else◌}

module _ {ℓ} {A : Type ℓ} where
  abbrev pub length : List A → ℕ
  length [] = 0
  length (x ∷ xs) = suc (length xs)

  pub length-append : (xs ys : List A) → length (xs ++ ys) ≡ length xs + length ys
  length-append [] ys = omega arith
  length-append (x ∷ xs) ys = omega (arith, length-append xs ys)

  abbrev pub take : ℕ → List A → List A
  take zero xs = []
  take (suc n) [] = []
  take (suc n) (x ∷ xs) = x ∷ take n xs

  abbrev pub drop : ℕ → List A → List A
  drop zero xs = xs
  drop (suc n) [] = []
  drop (suc n) (x ∷ xs) = drop n xs

  -- The library's `filter` takes a decision; the code filters by Boolean tests.
  abbrev pub filter : (A → Bool) → List A → List A
  filter p [] = []
  filter p (x ∷ xs) = if p x then x ∷ filter p xs else filter p xs

  abbrev pub any : (A → Bool) → List A → Bool
  any p [] = false
  any p (x ∷ xs) = p x || any p xs

  abbrev pub all : (A → Bool) → List A → Bool
  all p [] = true
  all p (x ∷ xs) = p x && all p xs

  pub filter-append :
      (p : A → Bool) (xs ys : List A) → filter p (xs ++ ys) ≡ filter p xs ++ filter p ys
  filter-append p [] ys = refl
  filter-append p (x ∷ xs) ys = ground (arith, filter-append p xs ys)

  pub all-append : (p : A → Bool) (xs ys : List A) → all p (xs ++ ys) ≡ (all p xs && all p ys)
  all-append p [] ys = refl
  all-append p (x ∷ xs) ys = ground (arith, all-append p xs ys)

  pub all-filter : (p : A → Bool) (xs : List A) → all p (filter p xs) ≡ true
  all-filter p [] = refl
  all-filter p (x ∷ xs) = ground (arith, all-filter p xs)

  pub length-filter-le : (p : A → Bool) (xs : List A) → length (filter p xs) ≤ length xs
  length-filter-le p [] = omega arith
  length-filter-le p (x ∷ xs) = ground (arith, length-filter-le p xs)

  pub length-filter-add-not :
      (p : A → Bool) (xs : List A)
      → length (filter p xs) + length (filter (λ x. not (p x)) xs) ≡ length xs
  length-filter-add-not p [] = refl
  length-filter-add-not p (x ∷ xs) = ground (arith, length-filter-add-not p xs)

-- `k in xs`.
abbrev pub contains : String → List String → Bool
contains k [] = false
contains k (x ∷ xs) = x == k || contains k xs

-- `xs.add(k)` on a set.
unfoldable pub add : String → List String → List String
add k xs = if contains k xs then xs else xs ++ k ∷ []

pub contains-append :
    (k : String) (xs ys : List String) → contains k (xs ++ ys) ≡ (contains k xs || contains k ys)
contains-append k [] ys = refl
contains-append k (x ∷ xs) ys = ground (arith, contains-append k xs ys)

pub contains_self : (k : String) (xs : List String) → contains k (k ∷ xs) ≡ true
contains_self k xs = ground (arith, eq_iff k k)

pub contains-add :
    (k j : String) (xs : List String) → contains j (add k xs) ≡ (contains j xs || k == j)
unfolding add
contains-add k j xs = ground (arith, contains-append j xs (k ∷ []), eq_iff k j)

-- `xs.count(a)`
unfoldable pub count : String → List String → ℕ
count a [] = 0
count a (x ∷ xs) = if x == a then suc (count a xs) else count a xs

pub count-append : (a : String) (xs ys : List String) → count a (xs ++ ys) ≡ count a xs + count a ys
unfolding count
count-append a [] ys = omega arith
count-append a (x ∷ xs) ys = ground (arith, count-append a xs ys)

abbrev pub one_if : Bool → ℕ
one_if true = 1
one_if false = 0

pub count-cons : (a x : String) (xs : List String) → count a (x ∷ xs) ≡ one_if (x == a) + count a xs
unfolding count
count-cons a x xs = ground arith

pub count-snoc :
    (a x : String) (xs : List String) → count a (xs ++ x ∷ []) ≡ count a xs + one_if (x == a)
count-snoc a x xs = count-append a xs (x ∷ []) ∙ unfold count in ground arith

pub count_absent : (a : String) (xs : List String) → count a xs ≡ 0 → contains a xs ≡ false
unfolding count
count_absent a [] h = refl
count_absent a (x ∷ xs) h = ground (arith, count_absent a xs)

pub count-add :
    (a b : String) (xs : List String)
    → contains b xs ≡ false
    → count a (add b xs) ≡ count a xs + one_if (b == a)
unfolding add
count-add a b xs h = rw h (count-snoc a b xs)
