-- ===== src/Agent/Cycles/Fuel.antt =====
-- The search always ends: the fuel that `detect_circular_dependencies` gives is enough.
use kuva_ai.Prelude.{
  ℕ, zero, suc, ◌≤◌, ◌<◌, String, ◌≡◌, refl, ap, inl, inr, true, false, not, Option, some, List, [],
  ◌∷◌, arith, ◌==◌, eq_iff, Bool-cases, contains, length, filter, contains-append,
}
use kuva_ai.Dict.{lookup}
use kuva_ai.Agent.Cycles.{
  Graph, dependents, Search, enter, leave, left, report, step, scan, dfs, dfs_all, all_dependents,
  nodes, start, found, detect_circular_dependencies,
}

-- The nodes of `u` that are not visited.
abbrev unvisited : List String → List String → ℕ
unvisited u v = length (filter (λ x. not (contains x v)) u)

unvisited-cons-le : (u v : List String) (n : String) → unvisited u (n ∷ v) ≤ unvisited u v
unvisited-cons-le [] v n = omega arith
unvisited-cons-le (x ∷ u) v n = ground (arith, unvisited-cons-le u v n)

unvisited-cons-lt :
    (u v : List String) (n : String)
    → contains n u ≡ true
    → contains n v ≡ false
    → unvisited u (n ∷ v) < unvisited u v
unvisited-cons-lt [] v n h k = cc
unvisited-cons-lt (x ∷ u) v n h k =
    ground (arith, eq_iff x n, eq_iff n x, unvisited-cons-le u v n, unvisited-cons-lt u v n)

-- The search from `s` ends, and what it has visited stays visited.
record Ends (u : List String) (s : Search) (r : Option Search) : Type 0 where
  result : Search
  equals : r ≡ some result
  fewer : unvisited u result.visited ≤ unvisited u s.visited

abbrev AllIn : List String → List String → Type 0
AllIn u ds = (d : String) → contains d ds ≡ true → contains d u ≡ true

module _ (u : List String) (n : ℕ) (rec : String → Search → Option Search)
    (ends : (d : String) (s : Search)
      → contains d u ≡ true
      → unvisited u s.visited ≤ n
      → Ends u s (rec d s)) where
  step-Ends :
      (d : String) (s : Search)
      → contains d u ≡ true
      → unvisited u s.visited ≤ n
      → Ends u s (step rec d s)
  unfolding step report
  step-Ends d s m h = elim (Bool-cases (contains d s.stack)) [
    | inl on ↦ rw on (record { result = report d s; equals = refl; fewer = omega arith })
    | inr off ↦ elim (Bool-cases (contains d s.visited)) [
      | inl old ↦ rw (off, old) (record { result = s; equals = refl; fewer = omega arith })
      | inr new ↦ rw (off, new) (ends d s m h)
    ]
  ]

  scan-Ends :
      (ds : List String) (s : Search)
      → AllIn u ds
      → unvisited u s.visited ≤ n
      → Ends u s (scan rec ds s)
  unfolding scan
  scan-Ends [] s a h = record { result = s; equals = refl; fewer = omega arith }
  scan-Ends (d ∷ ds) s a h =
      let one = step-Ends d s (a d (ground (arith, eq_iff d d))) h in
      let rest = scan-Ends ds one.result (λ x m. a x (ground arith)) (omega (arith, one.fewer)) in
      rw (one.equals, scan)
        (record {
          result = rest.result;
          equals = rest.equals;
          fewer = omega (arith, one.fewer, rest.fewer);
        })

enter-le :
    (u : List String) (k : String) (s : Search)
    → unvisited u (enter k s).visited ≤ unvisited u (k ∷ s.visited)
unfolding enter
enter-le u k s = omega arith

left-Ends :
    (u : List String) (k : String) (s : Search) (r : Option Search)
    → Ends u (enter k s) r
    → Ends u s (left r)
unfolding enter leave left
left-Ends u k s r e =
    rw (e.equals, left)
      (record {
        result = leave e.result;
        equals = refl;
        fewer = omega (arith, e.fewer, unvisited-cons-le u s.visited k);
      })

module _ (g : Graph) (u : List String) (closed : (k : String) → AllIn u (dependents g k)) where
  dfs-Ends :
      (fuel : ℕ) (k : String) (s : Search)
      → contains k u ≡ true
      → unvisited u s.visited < fuel
      → Ends u s (dfs g fuel k s)
  unfolding dfs
  dfs-Ends zero k s m h = absurd (omega arith)
  dfs-Ends (suc fuel) k s m h = elim (Bool-cases (contains k s.visited)) [
    | inl old ↦ rw (old, dfs) (record { result = s; equals = refl; fewer = omega arith })
    | inr new ↦
        let fewer = unvisited-cons-lt u s.visited k m new in
        rw (new, dfs)
          (left-Ends u k s (scan (dfs g fuel) (dependents g k) (enter k s)) (
            scan-Ends u (unvisited u (k ∷ s.visited)) (dfs g fuel)
              (λ d t md le. dfs-Ends fuel d t md (omega (arith, fewer))) (dependents g k)
              (enter k s) (closed k) (enter-le u k s)))
  ]

  dfs_all-Ends :
      (fuel : ℕ) (ks : List String) (s : Search)
      → AllIn u ks
      → unvisited u s.visited < fuel
      → Ends u s (dfs_all g fuel ks s)
  unfolding dfs_all
  dfs_all-Ends fuel [] s a h = record { result = s; equals = refl; fewer = omega arith }
  dfs_all-Ends fuel (k ∷ ks) s a h =
      let one = dfs-Ends fuel k s (a k (ground (arith, eq_iff k k))) h in
      let rest =
        dfs_all-Ends fuel ks one.result (λ x m. a x (ground arith)) (omega (arith, one.fewer)) in
      rw (one.equals, dfs_all)
        (record {
          result = rest.result;
          equals = rest.equals;
          fewer = omega (arith, one.fewer, rest.fewer);
        })

dependents-in : (g : Graph) (k : String) → AllIn (all_dependents g) (dependents g k)
unfolding dependents lookup all_dependents
dependents-in [] k d m = cc
dependents-in ((j, ds) ∷ g) k d m = elim (Bool-cases (j == k)) [
  | inl e ↦ rw (contains-append d ds (all_dependents g)) (ground arith)
  | inr e ↦ rw (contains-append d ds (all_dependents g)) (ground (arith, dependents-in g k d))
]

unvisited-nil : (u : List String) → unvisited u [] ≡ length u
unvisited-nil [] = refl
unvisited-nil (x ∷ u) = ground (arith, unvisited-nil u)

-- The search of any map from any list of agent types returns a list of cycles: it always ends.
pub detect_total :
    (g : Graph) (roots : List String)
    → (cycles : List (List String)) × (detect_circular_dependencies g roots ≡ some cycles)
detect_total g roots =
    let u = nodes g roots in
    let all =
      dfs_all-Ends g u
        (λ k d m.
          unfold nodes in
          rw (contains-append d roots (all_dependents g)) (ground (arith, dependents-in g k d m)))
        (suc (length u)) roots start
        (λ d m. unfold nodes in rw (contains-append d roots (all_dependents g)) (ground arith))
        (omega (arith, unvisited-nil u)) in
    (all.result.cycles, unfold detect_circular_dependencies in ap found all.equals)
