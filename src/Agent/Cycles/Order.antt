-- ===== src/Agent/Cycles/Order.antt =====
-- What it means that the search reports nothing: the order in which it leaves the nodes is an order
-- of the dependencies, so no agent type that it reaches depends on itself.
use mathlib.Core.Path.{subst}
use kuva_ai.Prelude.{
  ℕ, zero, suc, String, ◌≡◌, refl, sym, ap, ◌∙◌, ◌⊎◌, inl, inr, true, false, ◌||◌, Option, none,
  some, List, [], ◌∷◌, ◌++◌, arith, ◌==◌, eq_iff, Bool-cases, Option-cases, contains,
  contains-append, length,
}
use kuva_ai.Agent.Cycles.{
  Graph, dependents, Search, enter, leave, left, report, step, scan, dfs, dfs_all, drop_last, start,
  nodes, detect_circular_dependencies,
}
use kuva_ai.Agent.Cycles.Found.{Edge, drop_last-append}
use kuva_ai.Agent.Cycles.Quiet.{append-ne-nil, Quiet, scan-Quiet, dfs-Quiet, dfs_all-Quiet}

-- Each node stands before those that depend on it.
abbrev IsTopological : Graph → List String → Type 0
IsTopological g [] = Unit
IsTopological g (n ∷ done) =
    ((d : String) → Edge g n d → contains d done ≡ true) × IsTopological g done

-- `done` are the nodes that the search has left, the last one first.
record Inv (g : Graph) (s : Search) (done : List String) : Type 0 where
  covers : (x : String) → contains x s.visited ≡ (contains x s.stack || contains x done)
  ordered : IsTopological g done

-- A search that reports nothing has left all that it was to visit, beside what was left before.
record Leaves (g : Graph) (stack old want : List String) (s' : Search) : Type 0 where
  done : List String
  inv : Inv g s' done
  same : s'.stack ≡ stack
  keeps : (x : String) → contains x old ≡ true → contains x done ≡ true
  visits : (x : String) → contains x want ≡ true → contains x done ≡ true

abbrev Finishes : Graph → List String → List String → List String → Option Search → Type 0
Finishes g stack old want r =
    (s' : Search) → r ≡ some s' → s'.cycles ≡ [] → Leaves g stack old want s'

Finishes-some :
    (g : Graph) (stack old want : List String) (s : Search)
    → (s.cycles ≡ [] → Leaves g stack old want s)
    → Finishes g stack old want (some s)
Finishes-some g stack old want s h s' e q =
    let p : s ≡ s' = cc in subst (Leaves g stack old want) p (h (ap (λ x. x.cycles) p ∙ q))

module _ (g : Graph) (rec : String → Search → Option Search)
    (quiet : (d : String) (s : Search) → Quiet s (rec d s))
    (finishes : (d : String) (s : Search) (old : List String)
      → contains d s.stack ≡ false
      → Inv g s old
      → Finishes g s.stack old (d ∷ []) (rec d s)) where
  step-Finishes :
      (d : String) (s : Search) (old : List String)
      → Inv g s old
      → Finishes g s.stack old (d ∷ []) (step rec d s)
  unfolding step report
  step-Finishes d s old i = elim (Bool-cases (contains d s.stack)) [
    | inl on ↦ rw on (
        Finishes-some g s.stack old (d ∷ []) (report d s)
          (λ e. absurd (append-ne-nil s.cycles _ e)))
    | inr off ↦ elim (Bool-cases (contains d s.visited)) [
      | inl seen ↦
          rw (off, seen)
            (Finishes-some g s.stack old (d ∷ []) s (λ _. record {
              done = old;
              inv = i;
              same = refl;
              keeps = λ x m. m;
              visits = λ x m. ground (arith, eq_iff d x, i.covers d);
            }))
      | inr new ↦ rw (off, new) (finishes d s old off i)
    ]
  ]

  scan-Finishes :
      (ds : List String) (s : Search) (old : List String)
      → Inv g s old
      → Finishes g s.stack old ds (scan rec ds s)
  unfolding scan
  scan-Finishes [] s old i =
      Finishes-some g s.stack old [] s
        (λ _. record { done = old; inv = i; same = refl; keeps = λ x m. m; visits = λ x m. cc })
  scan-Finishes (d ∷ ds) s old i = elim (Option-cases (step rec d s)) [
    | inl e ↦ rw (e, scan) (λ s' p. cc)
    | inr (t, e) ↦
        rw (e, scan)
          (λ s' p q.
            let one = step-Finishes d s old i t e (scan-Quiet rec quiet ds t s' p q) in
            let rest = scan-Finishes ds t one.done one.inv s' p q in
            record {
              done = rest.done;
              inv = rest.inv;
              same = rest.same ∙ one.same;
              keeps = λ x m. rest.keeps x (one.keeps x m);
              visits = λ x m. elim (Bool-cases (d == x)) [
                | inl a ↦ rest.keeps x (one.visits x (ground arith))
                | inr b ↦ rest.visits x (ground arith)
              ];
            })
  ]

enter-Inv :
    (g : Graph) (k : String) (s : Search) (old : List String) → Inv g s old → Inv g (enter k s) old
unfolding enter
enter-Inv g k s old i = record {
  covers = λ x. ground (arith, i.covers x, contains-append x s.stack (k ∷ []));
  ordered = i.ordered;
}

leave-Inv :
    (g : Graph) (k : String) (s t : Search) (done : List String)
    → Inv g t done
    → t.stack ≡ s.stack ++ k ∷ []
    → ((d : String) → Edge g k d → contains d done ≡ true)
    → Inv g (leave t) (k ∷ done)
unfolding leave
leave-Inv g k s t done i p h = record {
  covers = λ x.
      rw (p, drop_last-append)
        (ground (arith, i.covers x, ap (contains x) p, contains-append x s.stack (k ∷ [])));
  ordered = (h, i.ordered);
}

left-Finishes :
    (g : Graph) (k : String) (s : Search) (old : List String) (r : Option Search)
    → Finishes g (enter k s).stack old (dependents g k) r
    → Finishes g s.stack old (k ∷ []) (left r)
unfolding left leave enter
left-Finishes g k s old none h = λ s' e. cc
left-Finishes g k s old (some t) h = Finishes-some g s.stack old (k ∷ []) (leave t) (λ q.
    let inner = h t refl q in
    record {
      done = k ∷ inner.done;
      inv = leave-Inv g k s t inner.done inner.inv inner.same inner.visits;
      same = ap drop_last inner.same ∙ drop_last-append s.stack k;
      keeps = λ x m. ground (arith, inner.keeps x m);
      visits = λ x m. ground arith;
    })

module _ (g : Graph) where
  dfs-Finishes :
      (fuel : ℕ) (k : String) (s : Search) (old : List String)
      → contains k s.stack ≡ false
      → Inv g s old
      → Finishes g s.stack old (k ∷ []) (dfs g fuel k s)
  unfolding dfs
  dfs-Finishes zero k s old off i = λ s' e. cc
  dfs-Finishes (suc fuel) k s old off i = elim (Bool-cases (contains k s.visited)) [
    | inl seen ↦
        rw (seen, dfs)
          (Finishes-some g s.stack old (k ∷ []) s (λ _. record {
            done = old;
            inv = i;
            same = refl;
            keeps = λ x m. m;
            visits = λ x m. ground (arith, eq_iff k x, i.covers k);
          }))
    | inr new ↦
        rw (new, dfs)
          (left-Finishes g k s old (scan (dfs g fuel) (dependents g k) (enter k s)) (
            scan-Finishes g (dfs g fuel) (dfs-Quiet g fuel) (dfs-Finishes fuel) (dependents g k)
              (enter k s) old (enter-Inv g k s old i)))
  ]

  dfs_all-Finishes :
      (fuel : ℕ) (ks : List String) (s : Search) (old : List String)
      → s.stack ≡ []
      → Inv g s old
      → Finishes g [] old ks (dfs_all g fuel ks s)
  unfolding dfs_all
  dfs_all-Finishes fuel [] s old p i =
      Finishes-some g [] old [] s
        (λ _. record { done = old; inv = i; same = p; keeps = λ x m. m; visits = λ x m. cc })
  dfs_all-Finishes fuel (k ∷ ks) s old p i = elim (Option-cases (dfs g fuel k s)) [
    | inl e ↦ rw (e, dfs_all) (λ s' q. cc)
    | inr (t, e) ↦
        rw (e, dfs_all)
          (λ s' q n.
            let off : contains k s.stack ≡ false = ap (contains k) p in
            let one = dfs-Finishes fuel k s old off i t e (dfs_all-Quiet g fuel ks t s' q n) in
            let rest = dfs_all-Finishes fuel ks t one.done (one.same ∙ p) one.inv s' q n in
            record {
              done = rest.done;
              inv = rest.inv;
              same = rest.same;
              keeps = λ x m. rest.keeps x (one.keeps x m);
              visits = λ x m. elim (Bool-cases (k == x)) [
                | inl a ↦ rest.keeps x (one.visits x (ground arith))
                | inr b ↦ rest.visits x (ground arith)
              ];
            })
  ]

-- `v` depends on `u`, directly or through others.
pub data Walk (g : Graph) : String → String → Type 0 where
  edge : {u v : String} → Edge g u v → Walk g u v
  via : {u v w : String} → Edge g u w → Walk g w v → Walk g u v

module _ (g : Graph) where
  Edge-inside :
      (done : List String) (u v : String)
      → IsTopological g done
      → contains u done ≡ true
      → Edge g u v
      → contains v done ≡ true
  Edge-inside [] u v t m e = cc
  Edge-inside (n ∷ done) u v t m e = elim (Bool-cases (n == u)) [
    | inl p ↦ let q = t.0 v (rw ((eq_iff n u).0 p) e) in ground arith
    | inr p ↦ let q = Edge-inside done u v t.1 (ground arith) e in ground arith
  ]

  Walk-inside :
      (done : List String) {u v : String}
      → IsTopological g done
      → contains u done ≡ true
      → Walk g u v
      → contains v done ≡ true
  Walk-inside done t m (edge {u = a} {v = b} e) = Edge-inside done a b t m e
  Walk-inside done t m (via {u = a} {w = c} e w) = Walk-inside done t (Edge-inside done a c t m e) w

  Walk-after :
      (n : String) (done : List String) (v : String)
      → IsTopological g (n ∷ done)
      → Walk g n v
      → contains v done ≡ true
  Walk-after n done v t (edge e) = t.0 v e
  Walk-after n done v t (via {w = c} e w) = Walk-inside done t.1 (t.0 c e) w

  IsTopological-acyclic :
      (done : List String) (x : String)
      → IsTopological g done
      → contains x done ≡ true
      → ¬ Walk g x x
  IsTopological-acyclic [] x t m w = cc
  IsTopological-acyclic (n ∷ done) x t m w = elim (Bool-cases (n == x)) [
    | inl p ↦
        let q : n ≡ x = (eq_iff n x).0 p in
        IsTopological-acyclic done x t.1 (Walk-after n done x t (subst (λ y. Walk g y x) (sym q) w))
          w
    | inr p ↦ IsTopological-acyclic done x t.1 (ground arith) w
  ]

-- `x` is one of the agent types that the search starts from, or depends on one of them.
abbrev pub Reached : Graph → List String → String → Type 0
Reached g roots x = (k : String) × (contains k roots ≡ true) × ((k ≡ x) ⊎ Walk g k x)

-- If `_detect_circular_dependencies` returns no cycle, then no agent type that is registered, or
-- depends on a registered one, depends on itself, directly or through others.
pub detect_complete :
    (g : Graph) (roots : List String) (x : String)
    → detect_circular_dependencies g roots ≡ some []
    → Reached g roots x
    → ¬ Walk g x x
unfolding detect_circular_dependencies
detect_complete g roots x e (k, m, r) =
    elim (Option-cases (dfs_all g (suc (length (nodes g roots))) roots start)) [
      | inl n ↦ absurd (cc)
      | inr (s, n) ↦
          let all =
            dfs_all-Finishes g (suc (length (nodes g roots))) roots start [] refl
              (record { covers = λ y. refl; ordered = tt }) s n (cc) in
          let here : contains x all.done ≡ true = elim r [
            | inl p ↦ rw (← p) (all.visits k m)
            | inr w ↦ Walk-inside g all.done all.inv.ordered (all.visits k m) w
          ] in
          IsTopological-acyclic g all.done x all.inv.ordered here
    ]
