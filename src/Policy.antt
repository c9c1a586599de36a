-- ===== src/Policy.antt =====
-- security/authn_authz/policy_enforcer.py: `PolicyEnforcer.evaluate_access`. The methods
-- `_get_cached_policies` and `_resolve_attributes` that it calls are not in the source: the policies
-- and the resolved attributes are arguments. Priorities are taken to be non-negative.
pub mod Order
pub mod Decide
mod Samples
use kuva_ai.Prelude.{
  ℕ, String, Bool, true, false, ◌&&◌, ◌||◌, Option, none, some, List, [], ◌∷◌, leb, ◌==◌,
  if◌then◌else◌, contains, any,
}
use kuva_ai.Dict.{Dict, lookup}
use kuva_ai.Exec.{Result, ok, err}

-- The values of attributes, of any Python type, with the operators that the code applies to them;
-- `none`: the operator raises. `absent` is `None`, and `below_two v` is `v < 2`.
pub record Values : Type 1 where
  pub Value : Type 0
  pub absent : Value
  pub eq : Value → Value → Option Bool
  pub gt : Value → Value → Option Bool
  pub is_in : Value → Value → Option Bool
  pub in_range : Value → Value → Option Bool
  pub re_match : Value → Value → Option Bool
  pub below_two : Value → Option Bool

-- A subject or a resource, as far as `get` is asked.
pub record Party : Type 0 where
  pub id : Option String
  pub type : Option String

pub record Decision : Type 0 where
  pub allowed : Bool
  pub policy_id : ℕ
  pub required_auth : List String

-- `evaluation_failed` is the decision that the `except` clause builds without `obligations`, a field
-- that `DecisionResult` requires; `no_match` is the same of the default. Both raise
-- `ValidationError`. The others are not `PolicyEvaluationError`, so no clause catches them.
pub data Error : Type 0 where
  targets_have_no_items auth_strength_has_no_order evaluation_failed no_match : Error

-- `targets.get(k, {}).items()`: the entries of what stands under `k`.
abbrev pub Items : Type 0
Items = List String → Option (List (String × List String))

-- In the source a target is a `List[str]`, which has no `items`.
unfoldable pub list_items : Items
list_items ids = none

abbrev is_text : Option String → String → Bool
is_text none s = false
is_text (some t) s = t == s

abbrev listed_in : Option String → List String → Bool
listed_in none ids = false
listed_in (some t) ids = contains t ids

module _ (V : Values) where
  pub record Condition : Type 0 where
    pub attribute : String
    pub operator : String
    pub value : V.Value

  -- `EnforcementPolicy`
  pub record Policy : Type 0 where
    pub id : ℕ
    pub priority : ℕ
    pub targets : Dict (List String)
    pub conditions : List Condition
    pub effect : String

  abbrev pub value_of : Option V.Value → V.Value
  value_of none = V.absent
  value_of (some v) = v

  -- `_evaluate_condition`; an operator that is not in `ops` raises.
  unfoldable pub evaluate_condition : Condition → Dict V.Value → Option Bool
  evaluate_condition c ctx =
      let v = value_of (lookup c.attribute ctx) in
      if c.operator == "eq"
      then V.eq v c.value
      else if c.operator == "gt"
      then V.gt v c.value
      else if c.operator == "in"
      then V.is_in v c.value
      else if c.operator == "range"
      then V.in_range v c.value
      else if c.operator == "regex"
      then V.re_match c.value v
      else none

  -- `_evaluate_conditions`: `all` stops at the first that is false; what raises is raised again as
  -- a `PolicyEvaluationError`.
  unfoldable pub evaluate_conditions : List Condition → Dict V.Value → Option Bool
  evaluate_conditions [] ctx = some true
  evaluate_conditions (c ∷ cs) ctx = elim (evaluate_condition c ctx) [
    | none ↦ none
    | some true ↦ evaluate_conditions cs ctx
    | some false ↦ some false
  ]

  abbrev entries_of : Items → Option (List String) → Option (List (String × List String))
  entries_of items none = some []
  entries_of items (some ids) = items ids

  -- `any(party.get('type') == t and party.get('id') in ids for t, ids in …)`
  abbrev names : Party → List (String × List String) → Bool
  names q = any (λ (e : String × List String). is_text q.type (e.0) && listed_in q.id (e.1))

  abbrev actions_of : Option (List String) → List String
  actions_of none = []
  actions_of (some l) = l

  module _ (items : Items) where
    -- `_policy_target_matches`; both generators run before the conjunction.
    unfoldable pub policy_target_matches : Policy → Party → Party → String → Result Error Bool
    policy_target_matches p subject resource action =
        elim (entries_of items (lookup "subjects" p.targets)) [
          | none ↦ err targets_have_no_items
          | some s ↦ elim (entries_of items (lookup "resources" p.targets)) [
            | none ↦ err targets_have_no_items
            | some r ↦ ok (
                names subject s
                && names resource r
                && contains action (actions_of (lookup "actions" p.targets)))
          ]
        ]

    abbrev pub keep : Policy → Bool → Result Error (List Policy) → Result Error (List Policy)
    keep p m (err e) = err e
    keep p true (ok ps) = ok (p ∷ ps)
    keep p false (ok ps) = ok ps

    -- `_match_candidate_policies`
    unfoldable pub match_candidate_policies :
        List Policy → Party → Party → String → Result Error (List Policy)
    match_candidate_policies [] subject resource action = ok []
    match_candidate_policies (p ∷ ps) subject resource action =
        let rest = match_candidate_policies ps subject resource action in
        elim (policy_target_matches p subject resource action) [
          | err e ↦ err e
          | ok m ↦ keep p m rest
        ]

  -- `sorted(…, key=lambda p: -p.priority)`, which is stable
  unfoldable pub insert_policy : Policy → List Policy → List Policy
  insert_policy p [] = p ∷ []
  insert_policy p (q ∷ qs) =
      if leb q.priority p.priority then p ∷ q ∷ qs else q ∷ insert_policy p qs

  unfoldable pub by_priority : List Policy → List Policy
  by_priority [] = []
  by_priority (p ∷ ps) = insert_policy p (by_priority ps)

  abbrev pub decision : Policy → Decision
  decision p = record { allowed = p.effect == "allow"; policy_id = p.id; required_auth = [] }

  -- `_generate_obligations` for "require_2fa"; `None < 2` raises.
  abbrev pub oblige : Decision → Option Bool → Result Error Decision
  oblige d none = err auth_strength_has_no_order
  oblige d (some true) = ok (record d { required_auth = "biometric" ∷ "hardware_key" ∷ [] })
  oblige d (some false) = ok d

  unfoldable pub decide : Policy → Dict V.Value → Result Error Decision
  decide p context =
      if p.effect == "require_2fa"
      then oblige (decision p) (V.below_two (value_of (lookup "auth_strength" context)))
      else ok (decision p)

  -- The loop of `evaluate_access`
  unfoldable pub first_match : List Policy → Dict V.Value → Dict V.Value → Result Error Decision
  first_match [] ctx context = err no_match
  first_match (p ∷ ps) ctx context = elim (evaluate_conditions p.conditions ctx) [
    | none ↦ err evaluation_failed
    | some true ↦ decide p context
    | some false ↦ first_match ps ctx context
  ]

  -- `evaluate_access`
  unfoldable pub evaluate_access :
      Items
      → List Policy
      → Party
      → Party
      → String
      → (resolved : Dict V.Value) → (context : Dict V.Value) → Result Error Decision
  evaluate_access items policies subject resource action resolved context =
      elim (match_candidate_policies items policies subject resource action) [
        | err e ↦ err e
        | ok ps ↦ first_match (by_priority ps) resolved context
      ]
