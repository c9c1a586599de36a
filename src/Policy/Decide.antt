-- ===== src/Policy/Decide.antt =====
-- security/authn_authz/policy_enforcer.py: what a decision of `evaluate_access` rests on.
use kuva_ai.Prelude.{
  arith, String, Bool, true, false, ◌||◌, not, Option, none, some, List, [], ◌∷◌, ◌==◌, all,
  if◌then◌else◌, ◌≡◌, ◌≢◌, refl, sym, ap, ◌∙◌, Bool-cases, Option-cases, inl, inr,
}
use mathlib.Core.Path.{subst}
use kuva_ai.Dict.{Dict, lookup}
use kuva_ai.Exec.{Result, ok, err}
use kuva_ai.Policy.{
  Values, Policy, Party, Items, list_items, Decision, Error, evaluation_failed, keep,
  evaluate_conditions, policy_target_matches, match_candidate_policies, by_priority, decide,
  decision, oblige, value_of, first_match, evaluate_access,
}
use kuva_ai.Policy.Order.{all-by_priority, at_most, is_ordered, ordered-by_priority}

abbrev pub is_false : Option Bool → Bool
is_false (some false) = true
is_false _ = false

abbrev pub is_match : Result Error Bool → Bool
is_match (ok true) = true
is_match _ = false

true-ne-false : true ≢ false
true-ne-false h = cc

ok-injective : {A : Type 0} {a b : A} → ◌≡◌ {A = Result Error A} (ok a) (ok b) → a ≡ b
ok-injective h = cc

module _ (V : Values) (ctx context : Dict V.Value) where
  abbrev pub fails : Policy V → Bool
  fails p = is_false (evaluate_conditions V p.conditions ctx)

  -- The policy `p` of `ps` decides: it passes every test that all of `ps` pass, its conditions hold,
  -- and those of every policy with a higher priority fail.
  record Decides (ps : List (Policy V)) (p : Policy V) : Type 0 where
    member : (t : Policy V → Bool) → all t ps ≡ true → t p ≡ true
    holds : evaluate_conditions V p.conditions ctx ≡ some true
    first : all (λ q. at_most V p q || fails q) ps ≡ true

  all-or :
      {A : Type 0} (s t : A → Bool) (xs : List A)
      → all s xs ≡ true
      → all (λ x. s x || t x) xs ≡ true
  all-or s t [] h = refl
  all-or s t (x ∷ xs) h = ground (arith, all-or s t xs)

  step-Decides :
      (p : Policy V) (ps : List (Policy V)) (d : Decision)
      → is_ordered V (p ∷ ps) ≡ true
      → ((first_match V ps ctx context ≡ ok d)
          → (q : Policy V) × Decides ps q × (decide V q context ≡ ok d))
      → (o : Option Bool) → evaluate_conditions V p.conditions ctx ≡ o
      → (elim o as (λ _. Result Error Decision) [
        | none ↦ err evaluation_failed
        | some true ↦ decide V p context
        | some false ↦ first_match V ps ctx context
      ])
        ≡ ok d
      → (q : Policy V) × Decides (p ∷ ps) q × (decide V q context ≡ ok d)
  step-Decides p ps d o ih none e h = cc
  step-Decides p ps d o ih (some true) e h = (
    p,
    record {
      member = λ t m. ground arith;
      holds = e;
      first = all-or (at_most V p) fails (p ∷ ps) (ground arith);
    },
    h,
  )
  step-Decides p ps d o ih (some false) e h =
      let (q, i, r) = ih h in
      (
        q,
        record {
          member = λ t m. i.member t (ground arith);
          holds = i.holds;
          first = ground (arith, i.first, ap is_false e);
        },
        r,
      )

  first_match-Decides :
      (ps : List (Policy V)) (d : Decision)
      → is_ordered V ps ≡ true
      → first_match V ps ctx context ≡ ok d
      → (p : Policy V) × Decides ps p × (decide V p context ≡ ok d)
  unfolding first_match
  first_match-Decides [] d o h = cc
  first_match-Decides (p ∷ ps) d o h =
      step-Decides p ps d o (λ g. first_match-Decides ps d (ground arith) g)
        (evaluate_conditions V p.conditions ctx) refl h

  module _ (items : Items) (subject resource : Party) (action : String) where
    abbrev pub matched : Policy V → Result Error Bool
    matched p = policy_target_matches V items p subject resource action

    -- The policy `p` of `ps` decides `d`: it passes every test that all of `ps` pass, it targets the
    -- access, its conditions hold, and every policy with a higher priority does not target the
    -- access or has a condition that fails.
    pub record IsDecidedBy (ps : List (Policy V)) (d : Decision) (p : Policy V) : Type 0 where
      pub member : (t : Policy V → Bool) → all t ps ≡ true → t p ≡ true
      pub targeted : is_match (matched p) ≡ true
      pub holds : evaluate_conditions V p.conditions ctx ≡ some true
      pub first : all (λ q. not (is_match (matched q)) || (at_most V p q || fails q)) ps ≡ true
      pub policy_id : d.policy_id ≡ p.id
      pub allowed : d.allowed ≡ (p.effect == "allow")

    record Candidates (ps cs : List (Policy V)) : Type 0 where
      targeted : all (λ q. is_match (matched q)) cs ≡ true
      kept : (t : Policy V → Bool) → all t ps ≡ true → all t cs ≡ true
      complete :
          (t : Policy V → Bool)
          → all t cs ≡ true
          → all (λ q. not (is_match (matched q)) || t q) ps ≡ true

    step-Candidates :
        (p : Policy V) (ps cs : List (Policy V))
        → ((ds : List (Policy V))
            → match_candidate_policies V items ps subject resource action ≡ ok ds
            → Candidates ps ds)
        → (m : Result Error Bool) → matched p ≡ m
        → (r : Result Error (List (Policy V)))
        → match_candidate_policies V items ps subject resource action ≡ r
        → (elim m as (λ _. Result Error (List (Policy V))) [
          | err e ↦ err e
          | ok b ↦ keep V items p b r
        ])
          ≡ ok cs
        → Candidates (p ∷ ps) cs
    step-Candidates p ps cs ih (err x) e r f h = cc
    step-Candidates p ps cs ih (ok true) e (err x) f h = cc
    step-Candidates p ps cs ih (ok false) e (err x) f h = cc
    step-Candidates p ps cs ih (ok true) e (ok ds) f h =
        let i = ih ds f in
        subst (Candidates (p ∷ ps)) (ok-injective h) (record {
          targeted = ground (arith, i.targeted, ap is_match e);
          kept = λ t m. ground (arith, i.kept t);
          complete = λ t m. ground (arith, i.complete t);
        })
    step-Candidates p ps cs ih (ok false) e (ok ds) f h =
        let i = ih ds f in
        subst (Candidates (p ∷ ps)) (ok-injective h) (record {
          targeted = i.targeted;
          kept = λ t m. i.kept t (ground arith);
          complete = λ t m. ground (arith, i.complete t m, ap is_match e);
        })

    match-Candidates :
        (ps cs : List (Policy V))
        → match_candidate_policies V items ps subject resource action ≡ ok cs
        → Candidates ps cs
    unfolding match_candidate_policies
    match-Candidates [] cs h =
        subst (Candidates []) (ok-injective h)
          (record { targeted = refl; kept = λ t m. refl; complete = λ t m. refl })
    match-Candidates (p ∷ ps) cs h =
        step-Candidates p ps cs (match-Candidates ps) (matched p) refl
          (match_candidate_policies V items ps subject resource action) refl h

    abbrev Effect : Policy V → Decision → Type 0
    Effect p d = (d.policy_id ≡ p.id) × (d.allowed ≡ (p.effect == "allow"))

    oblige-Effect :
        (p : Policy V) (d : Decision) (o : Option Bool)
        → oblige V (decision V p) o ≡ ok d
        → Effect p d
    oblige-Effect p d none h = cc
    oblige-Effect p d (some true) h = subst (Effect p) (ok-injective h) (refl, refl)
    oblige-Effect p d (some false) h = subst (Effect p) (ok-injective h) (refl, refl)

    decide-Effect : (p : Policy V) (d : Decision) → decide V p context ≡ ok d → Effect p d
    unfolding decide
    decide-Effect p d h =
        let o = V.below_two (value_of V (lookup "auth_strength" context)) in
        let m : Bool → Type 0 =
          λ b. (if b then oblige V (decision V p) o else ok (decision V p)) ≡ ok d in
        elim (Bool-cases (p.effect == "require_2fa")) [
          | inl e ↦ oblige-Effect p d o (subst m e h)
          | inr e ↦ subst (Effect p) (ok-injective (subst m e h)) (refl, refl)
        ]

    access-IsDecidedBy :
        (ps cs : List (Policy V)) (d : Decision)
        → Candidates ps cs
        → first_match V (by_priority V cs) ctx context ≡ ok d
        → (p : Policy V) × IsDecidedBy ps d p
    access-IsDecidedBy ps cs d c h =
        let (p, i, r) = first_match-Decides (by_priority V cs) d (ordered-by_priority V cs) h in
        let (x, y) = decide-Effect p d r in
        (
          p,
          record {
            member = λ t m. i.member t (all-by_priority V t cs ∙ c.kept t m);
            targeted = i.member (λ q. is_match (matched q)) (all-by_priority V _ cs ∙ c.targeted);
            holds = i.holds;
            first = c.complete _ (sym (all-by_priority V _ cs) ∙ i.first);
            policy_id = x;
            allowed = y;
          },
        )

    -- A decision of `evaluate_access` is that of a policy which targets the access and whose
    -- conditions hold, and which no policy with a higher priority precedes: `allowed` is whether its
    -- effect is "allow".
    pub evaluate_access-IsDecidedBy :
        (ps : List (Policy V)) (d : Decision)
        → evaluate_access V items ps subject resource action ctx context ≡ ok d
        → (p : Policy V) × IsDecidedBy ps d p
    unfolding evaluate_access
    evaluate_access-IsDecidedBy ps d h =
        go (match_candidate_policies V items ps subject resource action) refl h
      where
        go :
            (r : Result Error (List (Policy V)))
            → match_candidate_policies V items ps subject resource action ≡ r
            → (elim r as (λ _. Result Error Decision) [
              | err e ↦ err e
              | ok cs ↦ first_match V (by_priority V cs) ctx context
            ])
              ≡ ok d
            → (p : Policy V) × IsDecidedBy ps d p
        go (err e) f g = cc
        go (ok cs) f g = access-IsDecidedBy ps cs d (match-Candidates ps cs f) g

  -- With targets as the source declares them, no policy targets an access.
  unmatched :
      (p : Policy V) (subject resource : Party) (action : String)
      → is_match (policy_target_matches V list_items p subject resource action) ≡ false
  unfolding policy_target_matches list_items
  unmatched p subject resource action = elim (Option-cases (lookup "subjects" p.targets)) [
    | inl e ↦ elim (Option-cases (lookup "resources" p.targets)) [
      | inl f ↦ rw (e, f, policy_target_matches) refl
      | inr (r, f) ↦ rw (e, f, policy_target_matches) refl
    ]
    | inr (s, e) ↦ rw (e, policy_target_matches) refl
  ]

  -- With targets as the source declares them, lists of texts, `evaluate_access` returns no decision,
  -- neither to allow nor to deny: it raises, whatever the policies are.
  pub evaluate_access-raises :
      (ps : List (Policy V)) (subject resource : Party) (action : String) (d : Decision)
      → evaluate_access V list_items ps subject resource action ctx context ≢ ok d
  evaluate_access-raises ps subject resource action d h =
      let (p, i) = evaluate_access-IsDecidedBy list_items subject resource action ps d h in
      absurd (true-ne-false (sym i.targeted ∙ unmatched p subject resource action))
