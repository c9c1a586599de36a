-- ===== src/Exec/Ensures.antt =====
-- Rules for what an action keeps of its state and ensures of its result, one for each way to build
-- an action.
use kuva_ai.Prelude.{◌≡◌, refl, Bool, true, false, List, [], ◌∷◌}
use kuva_ai.Exec.{Result, ok, err, Exec, pure, raise, modify, continue, ◌>>=◌, ◌>>◌, for_each}

abbrev pub OnOk : {E A : Type 0} → (A → Type 0) → Result E A → Type 0
OnOk Q (ok a) = Q a
OnOk Q (err e) = Unit

-- From a state with `P` the action ends in one, also if it raises; if it returns, the result has `Q`.
pub record Ensures {S E A : Type 0} (P : S → Type 0) (Q : A → Type 0) (m : Exec S E A)
    : Type 0 where
  pub run : (s : S) → P s → P (m s).1 × OnOk Q (m s).0

abbrev pub Always : {A : Type 0} → A → Type 0
Always _ = Unit

abbrev pub Keeps : {S E A : Type 0} → (S → Type 0) → Exec S E A → Type 0
Keeps P m = Ensures P Always m

module _ {S E A : Type 0} {P : S → Type 0} {Q : A → Type 0} where
  pub Ensures-pure : (a : A) → Q a → Ensures P Q (pure {S = S} {E = E} a)
  Ensures-pure a q = record { run = λ s h. (h, q) }

  pub Ensures-raise : (e : E) → Ensures P Q (raise e)
  Ensures-raise e = record { run = λ s h. (h, tt) }

  pub Ensures-elim :
      (b : Bool) (m n : Exec S E A)
      → (b ≡ true → Ensures P Q m)
      → (b ≡ false → Ensures P Q n)
      → Ensures P Q (elim b [ true ↦ m | false ↦ n ])
  Ensures-elim true m n hm hn = hm refl
  Ensures-elim false m n hm hn = hn refl

module _ {S E A B : Type 0} {P : S → Type 0} (Q : A → Type 0) {R : B → Type 0} where
  pub Ensures-continue :
      (f : A → Exec S E B)
      → ((a : A) → Q a → Ensures P R (f a))
      → (x : Result E A × S) → P x.1
      → OnOk Q x.0
      → P (continue f x).1 × OnOk R (continue f x).0
  Ensures-continue f hf (ok a, s) h q = (hf a q).run s h
  Ensures-continue f hf (err e, s) h q = (h, tt)

  pub Ensures-bind :
      (m : Exec S E A) (f : A → Exec S E B)
      → Ensures P Q m
      → ((a : A) → Q a → Ensures P R (f a))
      → Ensures P R (m >>= f)
  Ensures-bind m f hm hf = record {
    run = λ s h. let (p, q) = hm.run s h in Ensures-continue f hf (m s) p q;
  }

module _ {S E A B : Type 0} {P : S → Type 0} {R : B → Type 0} where
  pub Ensures-then :
      (m : Exec S E A) (k : Exec S E B) → Keeps P m → Ensures P R k → Ensures P R (m >> k)
  Ensures-then m k hm hk = record {
    run = λ s h. let (p, q) = hm.run s h in Ensures-continue Always (λ _. k) (λ _ _. hk) (m s) p q;
  }

module _ {S E : Type 0} {P : S → Type 0} where
  pub Keeps-modify : (f : S → S) → ((s : S) → P s → P (f s)) → Keeps P (modify {E = E} f)
  Keeps-modify f h = record { run = λ s p. (h s p, tt) }

  pub Keeps-for_each :
      {A : Type 0} (xs : List A) (f : A → Exec S E Unit)
      → ((x : A) → Keeps P (f x))
      → Keeps P (for_each xs f)
  Keeps-for_each [] f h = record { run = λ s p. (p, tt) }
  Keeps-for_each (x ∷ xs) f h = Ensures-then (f x) (for_each xs f) (h x) (Keeps-for_each xs f h)

OnOk-Always : {E A : Type 0} (r : Result E A) → OnOk Always r
OnOk-Always (ok a) = tt
OnOk-Always (err e) = tt

pub Keeps-of_state :
    {S E A : Type 0} {P : S → Type 0} (m : Exec S E A) → ((s : S) → P s → P (m s).1) → Keeps P m
Keeps-of_state m h = record { run = λ s p. (h s p, OnOk-Always (m s).0) }
