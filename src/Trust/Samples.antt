-- ===== src/Trust/Samples.antt =====
-- Runs of security/authn_authz/zta_engine.py with scores in tenths and a dictionary of sessions.
use kuva_ai.Prelude.{
  ℕ, arith, String, true, false, Option, none, some, List, [], ◌∷◌, ltb, eqb, ◌==◌, ◌≡◌, refl,
}
use kuva_ai.Dict.{Dict, lookup, insert, lookup-insert}
use text.Mathlib.TextEquality.{eq_iff}
use kuva_ai.Exec.{ok}
use kuva_ai.Trust.{
  Scores, Constraints, Rule, no_constraints, ZtaPolicy, Decision, Session, World,
  apply_risk_constraints, matches_deny_rules, first_allowed, make_authorization_decision, admit,
  authenticate, duration_of,
}
use kuva_ai.Trust.Decide.{In, here, there, IsDecision, authenticate-IsDecision}
use kuva_ai.Trust.Monitor.{IsStricter, HasCache, IsCache, monitor_all, monitor_all-IsStricter}

abbrev tenths : Scores
tenths = record { Score = ℕ; zero = 0; threshold = 7; lt = ltb; eq = eqb }

abbrev Sessions : Type 0
Sessions = Dict (Session tenths)

abbrev world : ℕ → World tenths Sessions
world risk = record {
  verify = λ c. some c;
  device = some "laptop";
  calculate = λ p d c. risk;
  match_rule = λ r p c. r.principal == p;
  create_session = λ p r c s.
      insert p (record { principal = p; context = "read"; constraints = c; risk_score = r }) s;
  get = λ i s. lookup i s;
  update = λ i a s. insert i a s;
  flush = λ s. [];
}

abbrev rule : String → String → Option Constraints → Rule
rule action principal c = record {
  action = action;
  principal = principal;
  resource = "registry";
  constraints = c;
}

-- The policy denies by default, denies mallory, and allows ann for half an hour.
abbrev closed : ZtaPolicy
closed = record {
  default_action = "deny";
  rules =
      rule "deny" "mallory" none
      ∷ rule "allow" "ann"
          (some (record { max_duration = some 1800; require_reauth = false; others = [] }))
      ∷ [];
}

abbrev granted : Decision tenths
granted = record {
  allowed = true;
  constraints = record { max_duration = some 900; require_reauth = true; others = [] };
  risk_score = 9;
}

admitted : (authenticate tenths (world 9) closed "ann" "read" []).0 ≡ ok granted
unfolding authenticate admit make_authorization_decision matches_deny_rules first_allowed
    apply_risk_constraints duration_of
admitted = refl

-- Neither rule is about eve, and the default action does not deny either.
admits_others : (authenticate tenths (world 9) closed "eve" "read" []).0 ≡ ok granted
unfolding authenticate admit make_authorization_decision matches_deny_rules first_allowed
    apply_risk_constraints duration_of
admits_others = refl

denies :
    (authenticate tenths (world 9) closed "mallory" "read" []).0
    ≡ ok (record { allowed = false; constraints = no_constraints; risk_score = 9 })
unfolding authenticate admit make_authorization_decision matches_deny_rules first_allowed
    apply_risk_constraints duration_of
denies = refl

authenticate-IsDecision_example :
    (principal device : String) × (some "ann" ≡ some principal)
    × (some "laptop" ≡ some device)
    × IsDecision tenths (world 9) closed "read" principal device granted
authenticate-IsDecision_example =
    authenticate-IsDecision tenths (world 9) closed "ann" "read" [] granted admitted

abbrev session : Session tenths
session = record {
  principal = "ann";
  context = "read";
  constraints = no_constraints;
  risk_score = 1;
}

abbrev sessions : Sessions
sessions = ("ann", session) ∷ []

world-HasCache : (r : ℕ) → HasCache tenths closed "ann" (world r)
world-HasCache r = record {
  stored = λ a s. ground (arith, lookup-insert "ann" "ann" a s, eq_iff "ann" "ann");
}

abbrev worlds : List (World tenths Sessions)
worlds = world 9 ∷ world 2 ∷ []

worlds-IsCache : IsCache tenths closed "ann" (λ s. lookup "ann" s) worlds
worlds-IsCache = record { same = same; caches = caches }
  where
    same :
        (w : World tenths Sessions) → In w worlds → (s : Sessions) → w.get "ann" s ≡ lookup "ann" s
    same w here s = refl
    same w (there here) s = refl
    same w (there (there i)) s = elim i [ ]

    caches : (w : World tenths Sessions) → In w worlds → HasCache tenths closed "ann" w
    caches w here = world-HasCache 9
    caches w (there here) = world-HasCache 2
    caches w (there (there i)) = elim i [ ]

known : lookup "ann" sessions ≡ some session
unfolding lookup
known = refl

monitor_all-IsStricter_example :
    (b : Session tenths) × (lookup "ann" (monitor_all tenths closed "ann" worlds sessions) ≡ some b)
    × IsStricter tenths session b
monitor_all-IsStricter_example =
    monitor_all-IsStricter tenths closed "ann" (λ s. lookup "ann" s) worlds sessions session
      worlds-IsCache known
