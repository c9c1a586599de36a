-- ===== src/Agent/Cycles/Quiet.antt =====
-- The reports of the search are never taken back.
use kuva_ai.Prelude.{
  ℕ, zero, suc, String, ◌≡◌, refl, ap, ◌∙◌, ◌≢◌, inl, inr, Option, none, some, List, [], ◌∷◌, ◌++◌,
  Bool-cases, Option-cases, contains,
}
use kuva_ai.Agent.Cycles.{
  Graph, dependents, Search, enter, leave, left, report, step, scan, dfs, dfs_all,
}

pub append-ne-nil : (cs : List (List String)) (c : List String) → cs ++ c ∷ [] ≢ []
append-ne-nil [] c e = cc
append-ne-nil (b ∷ cs) c e = cc

-- Nothing is reported after the search only if nothing was reported before it.
abbrev pub Quiet : Search → Option Search → Type 0
Quiet s r = (s' : Search) → r ≡ some s' → s'.cycles ≡ [] → s.cycles ≡ []

Quiet-some : (s t : Search) → (t.cycles ≡ [] → s.cycles ≡ []) → Quiet s (some t)
Quiet-some s t h s' e q = let p : t ≡ s' = cc in h (ap (λ x. x.cycles) p ∙ q)

module _ (rec : String → Search → Option Search)
    (quiet : (d : String) (s : Search) → Quiet s (rec d s)) where
  pub step-Quiet : (d : String) (s : Search) → Quiet s (step rec d s)
  unfolding step report
  step-Quiet d s = elim (Bool-cases (contains d s.stack)) [
    | inl on ↦ rw on (Quiet-some s (report d s) (λ e. absurd (append-ne-nil s.cycles _ e)))
    | inr off ↦ elim (Bool-cases (contains d s.visited)) [
      | inl old ↦ rw (off, old) (Quiet-some s s (λ e. e))
      | inr new ↦ rw (off, new) (quiet d s)
    ]
  ]

  pub scan-Quiet : (ds : List String) (s : Search) → Quiet s (scan rec ds s)
  unfolding scan
  scan-Quiet [] s = Quiet-some s s (λ e. e)
  scan-Quiet (d ∷ ds) s = elim (Option-cases (step rec d s)) [
    | inl e ↦ rw (e, scan) (λ s' p. cc)
    | inr (t, e) ↦ rw (e, scan) (λ s' p q. step-Quiet d s t e (scan-Quiet ds t s' p q))
  ]

left-Quiet : (k : String) (s : Search) (r : Option Search) → Quiet (enter k s) r → Quiet s (left r)
unfolding left leave enter
left-Quiet k s none h = λ s' e. cc
left-Quiet k s (some t) h = Quiet-some s (leave t) (h t refl)

pub dfs-Quiet : (g : Graph) (fuel : ℕ) (k : String) (s : Search) → Quiet s (dfs g fuel k s)
unfolding dfs
dfs-Quiet g zero k s = λ s' e. cc
dfs-Quiet g (suc fuel) k s = elim (Bool-cases (contains k s.visited)) [
  | inl old ↦ rw (old, dfs) (Quiet-some s s (λ e. e))
  | inr new ↦
      rw (new, dfs)
        (left-Quiet k s (scan (dfs g fuel) (dependents g k) (enter k s))
          (scan-Quiet (dfs g fuel) (dfs-Quiet g fuel) (dependents g k) (enter k s)))
]

pub dfs_all-Quiet :
    (g : Graph) (fuel : ℕ) (ks : List String) (s : Search) → Quiet s (dfs_all g fuel ks s)
unfolding dfs_all
dfs_all-Quiet g fuel [] s = Quiet-some s s (λ e. e)
dfs_all-Quiet g fuel (k ∷ ks) s = elim (Option-cases (dfs g fuel k s)) [
  | inl e ↦ rw (e, dfs_all) (λ s' p. cc)
  | inr (t, e) ↦
      rw (e, dfs_all) (λ s' p q. dfs-Quiet g fuel k s t e (dfs_all-Quiet g fuel ks t s' p q))
]
