-- ===== src/Trust.antt =====
-- security/authn_authz/zta_engine.py: `ZeroTrustEngine`. Outside are the verification of a token,
-- the device check, and what the class calls and the source does not define: `_match_rule` and the
-- methods `create_session`, `get`, `update` and `flush` of the session cache.
pub mod Decide
pub mod Monitor
mod Samples
use kuva_ai.Prelude.{
  ℕ, String, Bool, true, false, ◌&&◌, not, Option, none, some, List, [], ◌∷◌, ltb, ◌==◌,
  if◌then◌else◌, any,
}
use kuva_ai.Exec.{Result, ok, err, Exec, pure, raise, modify, continue, ◌>>=◌, ◌>>◌}

-- Scores, compared with each other and with `RISK_THRESHOLD`; `zero` is 0.0.
pub record Scores : Type 1 where
  pub Score : Type 0
  pub zero : Score
  pub threshold : Score
  pub lt : Score → Score → Bool
  pub eq : Score → Score → Bool

-- The constraints of a rule or a session; `others` stands for the keys that the engine leaves alone.
pub record Constraints : Type 0 where
  pub max_duration : Option ℕ
  pub require_reauth : Bool
  pub others : List (String × String)

abbrev pub no_constraints : Constraints
no_constraints = record { max_duration = none; require_reauth = false; others = [] }

pub record Rule : Type 0 where
  pub action : String
  pub principal : String
  pub resource : String
  pub constraints : Option Constraints

-- `ZTAPolicy`
pub record ZtaPolicy : Type 0 where
  pub default_action : String
  pub rules : List Rule

pub data Error : Type 0 where
  authentication_error device_check_failed : Error

-- `constraints.get("max_duration", 3600)`
unfoldable pub duration_of : Constraints → ℕ
duration_of c = elim c.max_duration [ none ↦ 3600 | some n ↦ n ]

-- `min(a, b)`
abbrev pub smaller : ℕ → ℕ → ℕ
smaller a b = if ltb b a then b else a

module _ (R : Scores) where
  pub record Decision : Type 0 where
    pub allowed : Bool
    pub constraints : Constraints
    pub risk_score : R.Score

  pub record Session : Type 0 where
    pub principal : String
    pub context : String
    pub constraints : Constraints
    pub risk_score : R.Score

  -- What the engine calls. `match_rule` has the principal and the context of the request.
  pub record World (S : Type 0) : Type 0 where
    pub verify : String → Option String
    pub device : Option String
    pub calculate : (principal : String) → (device : String) → (context : String) → R.Score
    pub match_rule : Rule → (principal : String) → (context : String) → Bool
    pub create_session : String → R.Score → Constraints → S → S
    pub get : String → S → Option Session
    pub update : String → Session → S → S
    pub flush : S → S

  -- `RiskAssessmentModule.calculate`
  unfoldable pub risk_of_source : String → String → String → R.Score
  risk_of_source principal device context = R.zero

  -- `_apply_risk_constraints`
  unfoldable pub apply_risk_constraints : Constraints → R.Score → Constraints
  apply_risk_constraints c risk =
      if R.lt R.threshold risk
      then record c { max_duration = some (smaller (duration_of c) 900); require_reauth = true }
      else c

  module _ {S : Type 0} (w : World S) (policy : ZtaPolicy) where
    -- `_matches_deny_rules`
    unfoldable pub matches_deny_rules : String → String → Bool
    matches_deny_rules principal context =
        any (λ (r : Rule). r.action == "deny" && w.match_rule r principal context) policy.rules

    unfoldable pub first_allowed : List Rule → String → String → Option Rule
    first_allowed [] principal context = none
    first_allowed (r ∷ rs) principal context =
        if r.action == "allow" && w.match_rule r principal context
        then some r
        else first_allowed rs principal context

    -- `_find_matching_rule(…).get("constraints", {})`; the empty rule has none.
    abbrev pub constraints_of : Option Rule → Constraints
    constraints_of none = no_constraints
    constraints_of (some r) = elim r.constraints [ none ↦ no_constraints | some c ↦ c ]

    -- `_make_authorization_decision`; a denial has no constraints.
    unfoldable pub make_authorization_decision : String → R.Score → String → Decision
    make_authorization_decision principal risk context =
        if matches_deny_rules principal context
        then record { allowed = false; constraints = no_constraints; risk_score = risk }
        else record {
          allowed = true;
          constraints =
              apply_risk_constraints (constraints_of (first_allowed policy.rules principal context))
                risk;
          risk_score = risk;
        }

    abbrev open_session : String → R.Score → Decision → Exec S Error Decision
    open_session principal risk d s =
        (ok d, if d.allowed then w.create_session principal risk d.constraints s else s)

    -- The phases of `authenticate` after the first calls
    unfoldable pub admit :
        Option String → Option String → (context : String) → Exec S Error Decision
    admit none q context s = (err authentication_error, s)
    admit (some principal) none context s = (err device_check_failed, s)
    admit (some principal) (some device) context s =
        let risk = w.calculate principal device context in
        open_session principal risk (make_authorization_decision principal risk context) s

    -- `authenticate`
    unfoldable pub authenticate : (credential : String) → (context : String) → Exec S Error Decision
    authenticate credential context s = admit (w.verify credential) w.device context s

    unfoldable pub reassess : Session → R.Score → Session
    reassess session risk = record session {
      constraints = apply_risk_constraints session.constraints risk;
      risk_score = risk;
    }

    abbrev store : String → Session → R.Score → S → S
    store id session risk s =
        if R.eq risk session.risk_score then s else w.update id (reassess session risk) s

    unfoldable pub watch : String → Option Session → Option String → Exec S Error Bool
    watch id none q s = (ok false, s)
    watch id (some session) none s = (err device_check_failed, s)
    watch id (some session) (some device) s =
        let risk = w.calculate session.principal device session.context in
        (ok (not (R.lt R.threshold risk)), store id session risk s)

    -- `monitor_session`; `not (threshold < risk)` is `risk <= threshold` for numbers.
    unfoldable pub monitor_session : String → Exec S Error Bool
    monitor_session id s = watch id (w.get id s) w.device s

    -- `rotate_keys`, as far as the sessions go
    unfoldable pub rotate_keys : Exec S Error Unit
    rotate_keys s = (ok tt, w.flush s)
