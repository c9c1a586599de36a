-- ===== src/Agent/Cycles/Found.antt =====
-- What the search reports: each list is a walk along the map that ends where it began.
use mathlib.Core.Path.{subst}
use kuva_ai.Prelude.{
  ℕ, zero, suc, String, ◌≡◌, refl, sym, ap, ◌∙◌, inl, inr, true, Option, none, some, List, [], ◌∷◌,
  ◌++◌, arith, ◌==◌, eq_iff, Bool-cases, Option-cases, contains, length,
}
use kuva_ai.Agent.Cycles.{
  Graph, dependents, Search, enter, leave, left, report, step, scan, dfs, dfs_all, from_index,
  drop_last, start, nodes, detect_circular_dependencies,
}

-- `v` is listed as depending on `u`.
abbrev pub Edge : Graph → String → String → Type 0
Edge g u v = contains v (dependents g u) ≡ true

abbrev pub first : String → List String → String
first y [] = y
first y (x ∷ xs) = x

-- Each element of the list, and then `y`, depends on the one before it.
abbrev pub IsChainTo : Graph → List String → String → Type 0
IsChainTo g [] y = Unit
IsChainTo g (x ∷ xs) y = Edge g x (first y xs) × IsChainTo g xs y

abbrev pub IsCycle : Graph → List String → Type 0
IsCycle g c = (x : String) × (r : List String) × (c ≡ (x ∷ r) ++ x ∷ []) × IsChainTo g (x ∷ r) x

abbrev pub AllCycles : Graph → List (List String) → Type 0
AllCycles g [] = Unit
AllCycles g (c ∷ cs) = IsCycle g c × AllCycles g cs

module _ (g : Graph) where
  AllCycles-append :
      (cs : List (List String)) (c : List String)
      → AllCycles g cs
      → IsCycle g c
      → AllCycles g (cs ++ c ∷ [])
  AllCycles-append [] c h k = (k, tt)
  AllCycles-append (b ∷ cs) c h k = (h.0, AllCycles-append cs c h.1 k)

  from_index-IsCycle :
      (d : String) (xs : List String)
      → contains d xs ≡ true
      → IsChainTo g xs d
      → IsCycle g (from_index d xs ++ d ∷ [])
  unfolding from_index
  from_index-IsCycle d [] m h = cc
  from_index-IsCycle d (x ∷ xs) m h = elim (Bool-cases (x == d)) [
    | inl e ↦
        let p : d ≡ x = sym ((eq_iff x d).0 e) in
        rw e (x, xs, ap (λ y. x ∷ xs ++ y ∷ []) p, subst (λ y. IsChainTo g (x ∷ xs) y) p h)
    | inr e ↦ rw e (from_index-IsCycle d xs (ground arith) h.1)
  ]

  IsChainTo-append :
      (xs : List String) (n d : String)
      → IsChainTo g xs n
      → Edge g n d
      → IsChainTo g (xs ++ n ∷ []) d
  IsChainTo-append [] n d h e = (e, tt)
  IsChainTo-append (x ∷ []) n d h e = (h.0, (e, tt))
  IsChainTo-append (x ∷ y ∷ xs) n d h e = (h.0, IsChainTo-append (y ∷ xs) n d h.1 e)

pub drop_last-append : (xs : List String) (n : String) → drop_last (xs ++ n ∷ []) ≡ xs
unfolding drop_last
drop_last-append [] n = refl
drop_last-append (x ∷ []) n = refl
drop_last-append (x ∷ y ∷ xs) n = ap (λ ys. x ∷ ys) (drop_last-append (y ∷ xs) n)

-- A search that returns has the stack that it began with, and reports only cycles.
abbrev Sound : Graph → List String → Option Search → Type 0
Sound g stack r = (s' : Search) → r ≡ some s' → (s'.stack ≡ stack) × AllCycles g s'.cycles

Sound-some :
    (g : Graph) (stack : List String) (s : Search)
    → s.stack ≡ stack
    → AllCycles g s.cycles
    → Sound g stack (some s)
Sound-some g stack s p h s' e =
    let q : s ≡ s' = cc in subst (λ t. (t.stack ≡ stack) × AllCycles g t.cycles) q (p, h)

module _ (g : Graph) (rec : String → Search → Option Search)
    (sound : (d : String) (s : Search)
      → IsChainTo g s.stack d
      → AllCycles g s.cycles
      → Sound g s.stack (rec d s)) where
  step-Sound :
      (d : String) (s : Search)
      → IsChainTo g s.stack d
      → AllCycles g s.cycles
      → Sound g s.stack (step rec d s)
  unfolding step report
  step-Sound d s h c = elim (Bool-cases (contains d s.stack)) [
    | inl on ↦ rw on (
        Sound-some g s.stack (report d s) refl
          (AllCycles-append g s.cycles _ c (from_index-IsCycle g d s.stack on h)))
    | inr off ↦ elim (Bool-cases (contains d s.visited)) [
      | inl old ↦ rw (off, old) (Sound-some g s.stack s refl c)
      | inr new ↦ rw (off, new) (sound d s h c)
    ]
  ]

  scan-Sound :
      (ds : List String) (s : Search)
      → ((d : String) → contains d ds ≡ true → IsChainTo g s.stack d)
      → AllCycles g s.cycles
      → Sound g s.stack (scan rec ds s)
  unfolding scan
  scan-Sound [] s h c = Sound-some g s.stack s refl c
  scan-Sound (d ∷ ds) s h c = elim (Option-cases (step rec d s)) [
    | inl e ↦ rw (e, scan) (λ s' p. cc)
    | inr (t, e) ↦
        let one = step-Sound d s (h d (ground (arith, eq_iff d d))) c t e in
        rw (e, scan)
          (subst (λ k. Sound g k (scan rec ds t)) one.0
            (scan-Sound ds t (λ x m. subst (λ k. IsChainTo g k x) (sym one.0) (h x (ground arith)))
              one.1))
  ]

left-Sound :
    (g : Graph) (k : String) (s : Search) (r : Option Search)
    → Sound g (enter k s).stack r
    → Sound g s.stack (left r)
unfolding left leave enter
left-Sound g k s none h = λ s' e. cc
left-Sound g k s (some t) h =
    Sound-some g s.stack (leave t) (ap drop_last (h t refl).0 ∙ drop_last-append s.stack k)
      (h t refl).1

enter-chain :
    (g : Graph) (k : String) (s : Search)
    → IsChainTo g s.stack k
    → (d : String) → Edge g k d
    → IsChainTo g (enter k s).stack d
unfolding enter
enter-chain g k s h d e = IsChainTo-append g s.stack k d h e

enter-cycles :
    (g : Graph) (k : String) (s : Search) → AllCycles g s.cycles → AllCycles g (enter k s).cycles
unfolding enter
enter-cycles g k s c = c

module _ (g : Graph) where
  dfs-Sound :
      (fuel : ℕ) (k : String) (s : Search)
      → IsChainTo g s.stack k
      → AllCycles g s.cycles
      → Sound g s.stack (dfs g fuel k s)
  unfolding dfs
  dfs-Sound zero k s h c = λ s' e. cc
  dfs-Sound (suc fuel) k s h c = elim (Bool-cases (contains k s.visited)) [
    | inl old ↦ rw (old, dfs) (Sound-some g s.stack s refl c)
    | inr new ↦
        rw (new, dfs)
          (left-Sound g k s (scan (dfs g fuel) (dependents g k) (enter k s)) (
            scan-Sound g (dfs g fuel) (dfs-Sound fuel) (dependents g k) (enter k s)
              (enter-chain g k s h) (enter-cycles g k s c)))
  ]

  dfs_all-Sound :
      (fuel : ℕ) (ks : List String) (s : Search)
      → s.stack ≡ []
      → AllCycles g s.cycles
      → Sound g [] (dfs_all g fuel ks s)
  unfolding dfs_all
  dfs_all-Sound fuel [] s p c = Sound-some g [] s p c
  dfs_all-Sound fuel (k ∷ ks) s p c = elim (Option-cases (dfs g fuel k s)) [
    | inl e ↦ rw (e, dfs_all) (λ s' q. cc)
    | inr (t, e) ↦
        let one = dfs-Sound fuel k s (subst (λ xs. IsChainTo g xs k) (sym p) tt) c t e in
        rw (e, dfs_all) (dfs_all-Sound fuel ks t (one.0 ∙ p) one.1)
  ]

-- Every list that `_detect_circular_dependencies` returns is a circular dependency: it begins and
-- ends with the same agent type, and each agent type of it depends on the one before.
pub detect_sound :
    (g : Graph) (roots : List String) (cycles : List (List String))
    → detect_circular_dependencies g roots ≡ some cycles
    → AllCycles g cycles
unfolding detect_circular_dependencies
detect_sound g roots cycles e =
    elim (Option-cases (dfs_all g (suc (length (nodes g roots))) roots start)) [
      | inl n ↦ absurd (cc)
      | inr (s, n) ↦
          let q : s.cycles ≡ cycles = cc in
          subst (AllCycles g) q
            (dfs_all-Sound g (suc (length (nodes g roots))) roots start refl tt s n).1
    ]
