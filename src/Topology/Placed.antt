-- ===== src/Topology/Placed.antt =====
-- core/orchestration/scheduler/graph_based/topology_manager.py: on how many nodes an agent is, and what a
-- change of one node does to that.
use kuva_ai.Prelude.{
  one_if, ℕ, ◌+◌, ◌≤◌, arith, ◌≡◌, refl, ap, String, Bool, true, ◌&&◌, some, List, [], ◌∷◌, ◌==◌,
  eq_iff, contains, all, ltb, Bool-cases, inl, inr, count,
}
use mathlib.Core.Path.{subst}
use kuva_ai.Dict.{Dict, lookup, keys}
use kuva_ai.Topology.{NodeState, adjust, values, without}
use kuva_ai.Topology.Migrate.{least, least_of}

-- On how many nodes an agent is.
unfoldable pub placed : String → Dict NodeState → ℕ
placed a [] = 0
placed a ((k, v) ∷ d) = count a v.agents + placed a d

pub count-without :
    (a b : String) (xs : List String)
    → contains b xs ≡ true
    → count a (without b xs) + one_if (b == a) ≡ count a xs
unfolding count without
count-without a b [] h = cc
count-without a b (x ∷ xs) h =
    ground (arith, count-without a b xs, eq_iff x b, eq_iff x a, eq_iff b a)

some-injective : {A : Type 0} {a b : A} → some a ≡ some b → a ≡ b
some-injective h = cc

module _ (f : NodeState → NodeState) where
  pub placed-adjust :
      (a k : String) (v : NodeState) (d : Dict NodeState)
      → lookup k d ≡ some v
      → placed a (adjust k f d) + count a v.agents ≡ placed a d + count a (f v).agents
  unfolding placed adjust lookup
  placed-adjust a k v [] h = cc
  placed-adjust a k v ((j, w) ∷ d) h = elim (Bool-cases (j == k)) [
    | inl e ↦ let same : w ≡ v = some-injective (rw e at h) in rw (e, same) (omega arith)
    | inr e ↦
        let rest : lookup k d ≡ some v = rw e at h in
        rw e (omega (arith, placed-adjust a k v d rest))
  ]

  pub keys-adjust : (k : String) (d : Dict NodeState) → keys (adjust k f d) ≡ keys d
  unfolding adjust
  keys-adjust k [] = refl
  keys-adjust k ((j, w) ∷ d) = elim (Bool-cases (j == k)) [
    | inl e ↦ rw e refl
    | inr e ↦ rw e (ap (λ (r : List String). j ∷ r) (keys-adjust k d))
  ]

pub count-le-placed :
    (a k : String) (v : NodeState) (d : Dict NodeState)
    → lookup k d ≡ some v
    → count a v.agents ≤ placed a d
unfolding placed lookup
count-le-placed a k v [] h = cc
count-le-placed a k v ((j, w) ∷ d) h = elim (Bool-cases (j == k)) [
  | inl e ↦ let same : w ≡ v = some-injective (rw e at h) in rw same (omega arith)
  | inr e ↦
      let rest : lookup k d ≡ some v = rw e at h in omega (arith, count-le-placed a k v d rest)
]

-- Each state carries the name it stands under.
abbrev pub is_keyed : Dict NodeState → Bool
is_keyed [] = true
is_keyed ((k, v) ∷ d) = v.node_id == k && is_keyed d

abbrev pub known : List String → NodeState → Bool
known ks n = contains n.node_id ks

least-known :
    (ks : List String) (key : NodeState → ℕ) (best : NodeState) (ns : List NodeState)
    → known ks best ≡ true
    → all (known ks) ns ≡ true
    → known ks (least key best ns) ≡ true
unfolding least
least-known ks key best [] h g = h
least-known ks key best (n ∷ ns) h g =
    let hn : known ks n ≡ true = ground arith in
    let rest : all (known ks) ns ≡ true = ground arith in
    elim (Bool-cases (ltb (key n) (key best))) [
      | inl e ↦ rw (least, e) (least-known ks key n ns hn rest)
      | inr e ↦ rw (least, e) (least-known ks key best ns h rest)
    ]

all-known :
    (j : String) (ks : List String) (ns : List NodeState)
    → all (known ks) ns ≡ true
    → all (known (j ∷ ks)) ns ≡ true
all-known j ks [] h = refl
all-known j ks (n ∷ ns) h = ground (arith, all-known j ks ns)

values-known : (d : Dict NodeState) → is_keyed d ≡ true → all (known (keys d)) (values d) ≡ true
values-known [] h = refl
values-known ((k, v) ∷ d) h =
    ground (
      arith,
      eq_iff v.node_id k,
      eq_iff k v.node_id,
      values-known d,
      all-known k (keys d) (values d),
    )

pub least_of-known :
    (key : NodeState → ℕ) (d : Dict NodeState) (n : NodeState)
    → is_keyed d ≡ true
    → least_of key (values d) ≡ some n
    → contains n.node_id (keys d) ≡ true
least_of-known key [] n h e = cc
least_of-known key ((k, v) ∷ d) n h e =
    let all_known = values-known ((k, v) ∷ d) h in
    let hv : known (k ∷ keys d) v ≡ true = ground (arith, all_known) in
    let hd : all (known (k ∷ keys d)) (values d) ≡ true = ground (arith, all_known) in
    let same : least key v (values d) ≡ n = some-injective e in
    subst (λ m. known (k ∷ keys d) m ≡ true) same (least-known (k ∷ keys d) key v (values d) hv hd)
