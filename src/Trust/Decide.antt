-- ===== src/Trust/Decide.antt =====
-- security/authn_authz/zta_engine.py: the decision of `authenticate`.
use kuva_ai.Prelude.{
  ℕ, ◌≤◌, arith, String, true, false, ◌⊎◌, List, [], ◌∷◌, ◌&&◌, ◌==◌, eq_iff, any, Option, none,
  some, ◌≡◌, ◌≢◌, refl, sym, ◌∙◌, Bool-cases, inl, inr,
}
use mathlib.Core.Path.{subst}
use kuva_ai.Exec.{Result, ok}
use kuva_ai.Trust.{
  Scores, Constraints, no_constraints, Rule, first_allowed, constraints_of, ZtaPolicy, Error,
  duration_of, smaller, Decision, World, apply_risk_constraints, matches_deny_rules,
  make_authorization_decision, admit, authenticate,
}

pub data In {A : Type 0} (x : A) : List A → Type 0 where
  here : {xs : List A} → In x (x ∷ xs)
  there : {y : A} {xs : List A} → In x xs → In x (y ∷ xs)

-- The constraints that a rule has
abbrev pub rule_constraints : Option Constraints → Constraints
rule_constraints none = no_constraints
rule_constraints (some c) = c

ok-injective : {A : Type 0} {a b : A} → ◌≡◌ {A = Result Error A} (ok a) (ok b) → a ≡ b
ok-injective h = cc

true-ne-false : true ≢ false
true-ne-false h = cc

module _ (R : Scores) where
  -- `_apply_risk_constraints` never lengthens a session and never lifts a constraint; over the
  -- threshold it asks for a new authentication after at most 900 seconds.
  pub record IsTighter (risk : R.Score) (c c' : Constraints) : Type 0 where
    pub shorter : duration_of c' ≤ duration_of c
    pub asked : c.require_reauth ≡ true → c'.require_reauth ≡ true
    pub others : c'.others ≡ c.others
    pub limit : R.lt R.threshold risk ≡ true → duration_of c' ≤ 900
    pub reauth : R.lt R.threshold risk ≡ true → c'.require_reauth ≡ true

  smaller-le : (a b : ℕ) → (smaller a b ≤ a) × (smaller a b ≤ b)
  smaller-le a b = (ground arith, ground arith)

  pub apply_risk_constraints-IsTighter :
      (c : Constraints) (risk : R.Score) → IsTighter risk c (apply_risk_constraints R c risk)
  unfolding apply_risk_constraints duration_of
  apply_risk_constraints-IsTighter c risk = elim (Bool-cases (R.lt R.threshold risk)) [
    | inl e ↦
        rw (e, apply_risk_constraints)
          (record {
            shorter = (smaller-le (duration_of c) 900).0;
            asked = λ h. refl;
            others = refl;
            limit = λ h. (smaller-le (duration_of c) 900).1;
            reauth = λ h. refl;
          })
    | inr e ↦
        rw (e, apply_risk_constraints)
          (record {
            shorter = omega arith;
            asked = λ h. h;
            others = refl;
            limit = λ h. absurd (true-ne-false (sym h ∙ e));
            reauth = λ h. absurd (true-ne-false (sym h ∙ e));
          })
  ]

  module _ {S : Type 0} (w : World R S) (policy : ZtaPolicy) where
    -- A rule with this action, among those of the policy, that matches the request.
    pub record Matching (action principal context : String) (r : Rule) : Type 0 where
      pub listed : In r policy.rules
      pub acts : r.action ≡ action
      pub matches : w.match_rule r principal context ≡ true

    -- What holds of a decision about a principal: it denies exactly where a deny rule matches, and the
    -- constraints of a permission are those of a matching allow rule, or none if no allow rule matches,
    -- tightened for the risk that was calculated.
    pub record IsDecision (context principal device : String) (d : Decision R) : Type 0 where
      pub risk : d.risk_score ≡ w.calculate principal device context
      pub denied : d.allowed ≡ false → (r : Rule) × Matching "deny" principal context r
      pub permitted : d.allowed ≡ true → (r : Rule) → Matching "deny" principal context r → ⊥
      pub tightened :
          d.allowed ≡ true
          → ((r : Rule) × Matching "allow" principal context r
              × IsTighter d.risk_score (rule_constraints r.constraints) d.constraints)
            ⊎ (((r : Rule) → Matching "allow" principal context r → ⊥)
                × IsTighter d.risk_score no_constraints d.constraints)

    any_deny :
        (principal context : String) (rs : List Rule)
        → any (λ (r : Rule). r.action == "deny" && w.match_rule r principal context) rs ≡ true
        → (r : Rule) × In r rs × (r.action ≡ "deny") × (w.match_rule r principal context ≡ true)
    any_deny principal context [] h = absurd (cc)
    any_deny principal context (r ∷ rs) h =
        elim (Bool-cases (r.action == "deny" && w.match_rule r principal context)) [
          | inl e ↦ (r, here, ground (arith, e, eq_iff r.action "deny"), ground (arith, e))
          | inr e ↦
              let (q, i, a, m) = any_deny principal context rs (ground (arith, e, h)) in
              (q, there i, a, m)
        ]

    no_deny :
        (principal context : String) (rs : List Rule) (r : Rule)
        → any (λ (r : Rule). r.action == "deny" && w.match_rule r principal context) rs ≡ false
        → In r rs
        → r.action ≡ "deny"
        → w.match_rule r principal context ≡ true
        → ⊥
    no_deny principal context [] r h i a m = elim i [ ]
    no_deny principal context (x ∷ rs) r h here a m =
        absurd (true-ne-false (ground (arith, h, a, m, eq_iff r.action "deny")))
    no_deny principal context (x ∷ rs) r h (there i) a m =
        no_deny principal context rs r (ground (arith, h)) i a m

    first_found :
        (principal context : String) (rs : List Rule) (r : Rule)
        → first_allowed R w policy rs principal context ≡ some r
        → In r rs × (r.action ≡ "allow") × (w.match_rule r principal context ≡ true)
    unfolding first_allowed
    first_found principal context [] r h = absurd (cc)
    first_found principal context (x ∷ rs) r h =
        elim (Bool-cases (x.action == "allow" && w.match_rule x principal context)) [
          | inl e ↦
              let same : ◌≡◌ {A = Option Rule} (some x) (some r) = rw e at h in
              let x_r : x ≡ r = cc in
              subst
                (λ q.
                  In q (x ∷ rs) × (q.action ≡ "allow") × (w.match_rule q principal context ≡ true))
                x_r (here, ground (arith, e, eq_iff x.action "allow"), ground (arith, e))
          | inr e ↦
              let rest : first_allowed R w policy rs principal context ≡ some r = rw e at h in
              let (i, a, m) = first_found principal context rs r rest in (there i, a, m)
        ]

    none_found :
        (principal context : String) (rs : List Rule) (r : Rule)
        → first_allowed R w policy rs principal context ≡ none
        → In r rs
        → r.action ≡ "allow"
        → w.match_rule r principal context ≡ true
        → ⊥
    unfolding first_allowed
    none_found principal context [] r h i a m = elim i [ ]
    none_found principal context (x ∷ rs) r h here a m =
        let fires : (r.action == "allow" && w.match_rule r principal context) ≡ true =
          ground (arith, a, m, eq_iff r.action "allow") in
        let same : ◌≡◌ {A = Option Rule} (some r) none = rw fires at h in absurd (cc)
    none_found principal context (x ∷ rs) r h (there i) a m =
        elim (Bool-cases (x.action == "allow" && w.match_rule x principal context)) [
          | inl e ↦ let same : ◌≡◌ {A = Option Rule} (some x) none = rw e at h in absurd (cc)
          | inr e ↦ none_found principal context rs r (rw e at h) i a m
        ]

    tightened_from :
        (principal context : String) (risk : R.Score) (o : Option Rule)
        → first_allowed R w policy policy.rules principal context ≡ o
        → ((r : Rule) × Matching "allow" principal context r
            × IsTighter risk
                (rule_constraints r.constraints)
                (apply_risk_constraints R (constraints_of R w policy o) risk))
          ⊎ (((r : Rule) → Matching "allow" principal context r → ⊥)
              × IsTighter risk no_constraints
                  (apply_risk_constraints R (constraints_of R w policy o) risk))
    tightened_from principal context risk none e = inr (
      λ r m. none_found principal context policy.rules r e m.listed m.acts m.matches,
      apply_risk_constraints-IsTighter no_constraints risk,
    )
    tightened_from principal context risk (some r) e =
        let (i, a, m) = first_found principal context policy.rules r e in
        inl (
          r,
          record { listed = i; acts = a; matches = m },
          apply_risk_constraints-IsTighter (rule_constraints r.constraints) risk,
        )

    make_authorization_decision-IsDecision :
        (principal context device : String)
        → IsDecision context principal device (
            make_authorization_decision R w policy principal
              (w.calculate principal device context)
              context)
    unfolding make_authorization_decision matches_deny_rules
    make_authorization_decision-IsDecision principal context device =
        elim (Bool-cases (matches_deny_rules R w policy principal context)) [
          | inl e ↦
              rw (e, make_authorization_decision)
                (record {
                  risk = refl;
                  denied = λ h.
                      let (r, i, a, m) = any_deny principal context policy.rules e in
                      (r, record { listed = i; acts = a; matches = m });
                  permitted = λ h. absurd (true-ne-false (sym h));
                  tightened = λ h. absurd (true-ne-false (sym h));
                })
          | inr e ↦
              rw (e, make_authorization_decision)
                (record {
                  risk = refl;
                  denied = λ h. absurd (true-ne-false h);
                  permitted =
                      λ h r m. no_deny principal context policy.rules r e m.listed m.acts m.matches;
                  tightened = λ h. tightened_from principal context _ _ refl;
                })
        ]

    admit-IsDecision :
        (credential context : String) (s : S) (d : Decision R) (o q : Option String)
        → w.verify credential ≡ o
        → w.device ≡ q
        → (admit R w policy o q context s).0 ≡ ok d
        → (principal device : String) × (w.verify credential ≡ some principal)
          × (w.device ≡ some device)
          × IsDecision context principal device d
    unfolding admit
    admit-IsDecision credential context s d none q e f h = cc
    admit-IsDecision credential context s d (some p) none e f h = cc
    admit-IsDecision credential context s d (some p) (some device) e f h = (
      p,
      device,
      e,
      f,
      subst (IsDecision context p device) (ok-injective h)
          (make_authorization_decision-IsDecision p context device),
    )

    -- When `authenticate` returns a decision, the credential was verified and the device checked; the
    -- decision denies exactly if a rule of the policy with the action "deny" matches, whatever the default
    -- action is; the constraints of a permission are those of a matching rule with the action "allow", or
    -- none if no such rule matches, tightened: they are no longer and ask for no less, and over the risk
    -- threshold they end after 900 seconds and ask for a new authentication.
    pub authenticate-IsDecision :
        (credential context : String) (s : S) (d : Decision R)
        → (authenticate R w policy credential context s).0 ≡ ok d
        → (principal device : String) × (w.verify credential ≡ some principal)
          × (w.device ≡ some device)
          × IsDecision context principal device d
    unfolding authenticate
    authenticate-IsDecision credential context s d h =
        admit-IsDecision credential context s d (w.verify credential) w.device refl refl h
