-- ===== src/Exec.antt =====
-- Methods that mutate their object and may raise: what was written before a raise stays written,
-- so the state comes back beside the error too.
pub mod Ensures
use kuva_ai.Prelude.{◌≡◌, refl, ◌⊎◌, inl, inr, Bool, true, false, List, [], ◌∷◌}

pub data Result (E A : Type 0) : Type 0 where
  ok : A → Result E A
  err : E → Result E A

pub Result-cases :
    {E A : Type 0} (m : Result E A) → ((a : A) × (m ≡ ok a)) ⊎ ((e : E) × (m ≡ err e))
Result-cases (ok a) = inl (a, refl)
Result-cases (err e) = inr (e, refl)

abbrev pub Exec : Type 0 → Type 0 → Type 0 → Type 0
Exec S E A = S → Result E A × S

module _ {S E A : Type 0} where
  abbrev pub pure : A → Exec S E A
  pure a s = (ok a, s)

  abbrev pub raise : E → Exec S E A
  raise e s = (err e, s)

  abbrev pub lift : Result E A → Exec S E A
  lift r s = (r, s)

  abbrev pub gets : (S → A) → Exec S E A
  gets f s = (ok (f s), s)

abbrev pub modify : {S E : Type 0} → (S → S) → Exec S E Unit
modify f s = (ok tt, f s)

abbrev pub guard : {S E : Type 0} → Bool → E → Exec S E Unit
guard true e s = (ok tt, s)
guard false e s = (err e, s)

module _ {S E A B : Type 0} where
  abbrev pub continue : (A → Exec S E B) → Result E A × S → Result E B × S
  continue f (ok a, s) = f a s
  continue f (err e, s) = (err e, s)

  infixl 5 ◌>>=◌ ◌>>◌
  abbrev pub ◌>>=◌ : Exec S E A → (A → Exec S E B) → Exec S E B
  ◌>>=◌ m f s = continue f (m s)

  abbrev pub ◌>>◌ : Exec S E A → Exec S E B → Exec S E B
  ◌>>◌ m k s = continue (λ _. k) (m s)

-- A `for` loop over a list whose body may raise; the first raise ends it.
abbrev pub for_each : {S E A : Type 0} → List A → (A → Exec S E Unit) → Exec S E Unit
for_each [] f s = (ok tt, s)
for_each (x ∷ xs) f s = continue (λ _. for_each xs f) (f x s)
