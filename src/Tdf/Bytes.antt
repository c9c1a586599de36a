-- ===== src/Tdf/Bytes.antt =====
-- security/crypto/tdf.py: byte strings, their slices and splits, and the dictionary of keys.
use Prim.Native.Char.{code}
use Prim.Native.String.{String}
use kuva_ai.Prelude.{
  ℕ, ◌-◌, arith, ◌≡◌, refl, ap, Bool, true, false, ◌&&◌, Option, none, some, List, [], ◌∷◌, ◌++◌,
  length, length-append, take, drop, eqb, if◌then◌else◌,
}
use kuva_ai.Tdf.{Text, Bytes}

abbrev pub codes : String → Text
codes String.[] = []
codes (String.◌∷◌ c s) = code c ∷ codes s

-- `a == b` on byte strings and texts
unfoldable pub same : Bytes → Bytes → Bool
same [] [] = true
same [] (y ∷ ys) = false
same (x ∷ xs) [] = false
same (x ∷ xs) (y ∷ ys) = eqb x y && same xs ys

pub same_refl : (xs : Bytes) → same xs xs ≡ true
unfolding same
same_refl [] = refl
same_refl (x ∷ xs) = ground (arith, same_refl xs)

pub same→≡ : (xs ys : Bytes) → same xs ys ≡ true → xs ≡ ys
unfolding same
same→≡ [] [] h = refl
same→≡ [] (y ∷ ys) h = cc
same→≡ (x ∷ xs) [] h = cc
same→≡ (x ∷ xs) (y ∷ ys) h = ground (arith, same→≡ xs ys)

-- `xs[-n:]` and `xs[:-n]`, for a positive n
abbrev pub last_bytes : ℕ → Bytes → Bytes
last_bytes n xs = drop (length xs - n) xs

abbrev pub but_last : ℕ → Bytes → Bytes
but_last n xs = take (length xs - n) xs

pub drop-append : (xs ys : Bytes) → drop (length xs) (xs ++ ys) ≡ ys
drop-append [] ys = refl
drop-append (x ∷ xs) ys = drop-append xs ys

pub take-append : (xs ys : Bytes) → take (length xs) (xs ++ ys) ≡ xs
take-append [] ys = refl
take-append (x ∷ xs) ys = ap (λ (r : Bytes). x ∷ r) (take-append xs ys)

less_tag : (n : ℕ) (xs ys : Bytes) → length ys ≡ n → length (xs ++ ys) - n ≡ length xs
less_tag n xs ys h = omega (arith, length-append xs ys)

pub last_bytes-append : (n : ℕ) (xs ys : Bytes) → length ys ≡ n → last_bytes n (xs ++ ys) ≡ ys
last_bytes-append n xs ys h = rw (less_tag n xs ys h) (drop-append xs ys)

pub but_last-append : (n : ℕ) (xs ys : Bytes) → length ys ≡ n → but_last n (xs ++ ys) ≡ xs
but_last-append n xs ys h = rw (less_tag n xs ys h) (take-append xs ys)

-- `xs.split(c)[-1]`
unfoldable pub last_part : ℕ → Text → Text → Text
last_part c part [] = part
last_part c part (x ∷ xs) = last_part c (if eqb x c then [] else part ++ x ∷ []) xs

abbrev pub first_part : Option (Bytes × Bytes) → ℕ → Option (Bytes × Bytes)
first_part none a = none
first_part (some (p, r)) a = some (a ∷ p, r)

-- `xs.split(b"::", 1)`: none where there is no separator
unfoldable pub split_once : Bytes → Option (Bytes × Bytes)
split_once [] = none
split_once (a ∷ []) = none
split_once (a ∷ b ∷ r) =
    let rest = first_part (split_once (b ∷ r)) a in
    if eqb a b':' && eqb b b':' then some ([], r) else rest

module _ {V : Type 0} where
  -- `d.get(k)` and `d[k] = v` of a dictionary of texts
  unfoldable pub lookup : Text → List (Text × V) → Option V
  lookup k [] = none
  lookup k ((j, v) ∷ d) = if same j k then some v else lookup k d

  unfoldable pub insert : Text → V → List (Text × V) → List (Text × V)
  insert k v [] = (k, v) ∷ []
  insert k v ((j, w) ∷ d) = if same j k then (j, v) ∷ d else (j, w) ∷ insert k v d

  pub lookup-insert : (k : Text) (v : V) (d : List (Text × V)) → lookup k (insert k v d) ≡ some v
  unfolding lookup insert
  lookup-insert k v [] = rw (same_refl k) refl
  lookup-insert k v ((j, w) ∷ d) = ground (arith, lookup-insert k v d)

  pub lookup-insert_other :
      (k l : Text) (v : V) (d : List (Text × V))
      → same k l ≡ false
      → lookup l (insert k v d) ≡ lookup l d
  unfolding lookup insert
  lookup-insert_other k l v [] h = rw h refl
  lookup-insert_other k l v ((j, w) ∷ d) h =
      ground (arith, lookup-insert_other k l v d h, same→≡ j k, same→≡ j l)
