-- ===== src/Policy/Samples.antt =====
-- Runs of security/authn_authz/policy_enforcer.py with numbers for values, and with a reading of the
-- targets that has entries.
use kuva_ai.Prelude.{ℕ, String, false, none, some, List, [], ◌∷◌, ltb, eqb, ◌≡◌, ◌≢◌, refl}
use kuva_ai.Dict.{Dict, lookup}
use kuva_ai.Exec.{ok}
use kuva_ai.Policy.{
  Values, Condition, Policy, Party, Items, Decision, evaluate_condition, evaluate_conditions,
  policy_target_matches, match_candidate_policies, insert_policy, by_priority, decide, first_match,
  evaluate_access, list_items,
}
use kuva_ai.Policy.Decide.{evaluate_access-raises}

abbrev numbers : Values
numbers = record {
  Value = ℕ;
  absent = 0;
  eq = λ a b. some (eqb a b);
  gt = λ a b. some (ltb b a);
  is_in = λ a b. none;
  in_range = λ a b. none;
  re_match = λ a b. none;
  below_two = λ a. some (ltb a 2);
}

-- Users and databases, whose identifiers are listed.
abbrev typed : Items
typed ids = some (("user", ids) ∷ ("database", ids) ∷ [])

abbrev targets : Dict (List String)
targets = ("subjects", "ann" ∷ []) ∷ ("resources", "sales" ∷ []) ∷ ("actions", "read" ∷ []) ∷ []

abbrev trusted : Condition numbers
trusted = record { attribute = "level"; operator = "gt"; value = 2 }

abbrev permit : Policy numbers
permit = record {
  id = 1;
  priority = 10;
  targets = targets;
  conditions = trusted ∷ [];
  effect = "allow";
}

abbrev forbid : Policy numbers
forbid = record permit { id = 2; priority = 20; effect = "deny" }

abbrev ann : Party
ann = record { id = some "ann"; type = some "user" }

abbrev sales : Party
sales = record { id = some "sales"; type = some "database" }

abbrev level : Dict ℕ
level = ("level", 3) ∷ []

abbrev denied : Decision
denied = record { allowed = false; policy_id = 2; required_auth = [] }

-- The policy with the higher priority decides, though it is listed last.
forbidden :
    evaluate_access numbers typed (permit ∷ forbid ∷ []) ann sales "read" level [] ≡ ok denied
unfolding evaluate_access first_match decide by_priority insert_policy match_candidate_policies
    policy_target_matches evaluate_conditions evaluate_condition lookup
forbidden = refl

-- With the targets as the source declares them, the access is neither allowed nor denied.
evaluate_access-raises_example :
    evaluate_access numbers list_items (permit ∷ forbid ∷ []) ann sales "read" level [] ≢ ok denied
evaluate_access-raises_example =
    evaluate_access-raises numbers level [] (permit ∷ forbid ∷ []) ann sales "read" denied
