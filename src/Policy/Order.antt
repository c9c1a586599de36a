-- ===== src/Policy/Order.antt =====
-- security/authn_authz/policy_enforcer.py: the order in which policies are tried.
use kuva_ai.Prelude.{arith, Bool, true, ◌&&◌, List, [], ◌∷◌, leb, all, ◌≡◌, refl}
use kuva_ai.Policy.{Values, Policy, insert_policy, by_priority}

module _ (V : Values) where
  pub all-insert_policy :
      (t : Policy V → Bool) (p : Policy V) (qs : List (Policy V))
      → all t (insert_policy V p qs) ≡ (t p && all t qs)
  unfolding insert_policy
  all-insert_policy t p [] = ground arith
  all-insert_policy t p (q ∷ qs) = ground (arith, all-insert_policy t p qs)

  pub all-by_priority :
      (t : Policy V → Bool) (ps : List (Policy V)) → all t (by_priority V ps) ≡ all t ps
  unfolding by_priority
  all-by_priority t [] = refl
  all-by_priority t (p ∷ ps) =
      ground (arith, all-insert_policy t p (by_priority V ps), all-by_priority t ps)

  abbrev pub at_most : Policy V → Policy V → Bool
  at_most p q = leb q.priority p.priority

  -- Every later policy has at most the priority of an earlier one.
  abbrev pub is_ordered : List (Policy V) → Bool
  is_ordered [] = true
  is_ordered (p ∷ ps) = all (at_most p) ps && is_ordered ps

  all-at_most :
      (p q : Policy V) (qs : List (Policy V))
      → at_most p q ≡ true
      → all (at_most q) qs ≡ true
      → all (at_most p) qs ≡ true
  all-at_most p q [] h g = refl
  all-at_most p q (r ∷ qs) h g = ground (arith, all-at_most p q qs)

  ordered-insert_policy :
      (p : Policy V) (qs : List (Policy V))
      → is_ordered qs ≡ true
      → is_ordered (insert_policy V p qs) ≡ true
  unfolding insert_policy
  ordered-insert_policy p [] h = ground arith
  ordered-insert_policy p (q ∷ qs) h =
      ground
        (arith, ordered-insert_policy p qs, all-insert_policy (at_most q) p qs, all-at_most p q qs)

  pub ordered-by_priority : (ps : List (Policy V)) → is_ordered (by_priority V ps) ≡ true
  unfolding by_priority
  ordered-by_priority [] = refl
  ordered-by_priority (p ∷ ps) = ordered-insert_policy p (by_priority V ps) (ordered-by_priority ps)
