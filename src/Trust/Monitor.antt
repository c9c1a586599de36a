-- ===== src/Trust/Monitor.antt =====
-- security/authn_authz/zta_engine.py: `monitor_session`, again and again.
use kuva_ai.Prelude.{
  if-both, ◌≤◌, arith, String, true, false, not, Option, none, some, List, [], ◌∷◌, ◌≡◌, refl, sym,
  ap, ◌∙◌,
}
use mathlib.Core.Path.{subst}
use kuva_ai.Exec.{ok}
use kuva_ai.Trust.{
  Scores, ZtaPolicy, duration_of, Session, World, risk_of_source, reassess, watch, monitor_session,
}
use kuva_ai.Trust.Decide.{In, here, there, apply_risk_constraints-IsTighter}

module _ (R : Scores) where
  -- The later session is the same, with constraints that are at least as strict.
  pub record IsStricter (a b : Session R) : Type 0 where
    pub principal : b.principal ≡ a.principal
    pub shorter : duration_of b.constraints ≤ duration_of a.constraints
    pub asked : a.constraints.require_reauth ≡ true → b.constraints.require_reauth ≡ true
    pub others : b.constraints.others ≡ a.constraints.others

  IsStricter-refl : (a : Session R) → IsStricter a a
  IsStricter-refl a = record {
    principal = refl;
    shorter = omega arith;
    asked = λ h. h;
    others = refl;
  }

  IsStricter-trans : (a b c : Session R) → IsStricter a b → IsStricter b c → IsStricter a c
  IsStricter-trans a b c h k = record {
    principal = k.principal ∙ h.principal;
    shorter = omega (arith, h.shorter, k.shorter);
    asked = λ q. k.asked (h.asked q);
    others = k.others ∙ h.others;
  }

  module _ {S : Type 0} (policy : ZtaPolicy) (id : String) where
    -- The session cache gives back what was stored.
    pub record HasCache (w : World R S) : Type 0 where
      pub stored : (a : Session R) (s : S) → w.get id (w.update id a s) ≡ some a

    abbrev Kept : (w : World R S) → Session R → S → Type 0
    Kept w a s = (b : Session R) × (w.get id s ≡ some b) × IsStricter a b

    store-Kept :
        (w : World R S) (law : HasCache w) (a : Session R) (s : S)
        → w.get id s ≡ some a
        → (o : Option String) → Kept w a (watch R w policy id (some a) o s).1
    unfolding watch reassess
    store-Kept w law a s e none = (a, e, IsStricter-refl a)
    store-Kept w law a s e (some device) =
        let risk = w.calculate a.principal device a.context in
        let t = apply_risk_constraints-IsTighter R a.constraints risk in
        let b = reassess R w policy a risk in
        if-both (Kept w a) (R.eq risk a.risk_score) s (w.update id b s) (a, e, IsStricter-refl a)
          (
            b,
            law.stored b s,
            record { principal = refl; shorter = t.shorter; asked = t.asked; others = t.others },
          )

    -- A session is monitored again and again; the world may change, the store of sessions stays.
    unfoldable pub monitor_all : List (World R S) → S → S
    monitor_all [] s = s
    monitor_all (w ∷ ws) s = monitor_all ws (monitor_session R w policy id s).1

    -- `get` and `update` are the same all the time, and agree.
    pub record IsCache (get : S → Option (Session R)) (ws : List (World R S)) : Type 0 where
      pub same : (w : World R S) → In w ws → (s : S) → w.get id s ≡ get s
      pub caches : (w : World R S) → In w ws → HasCache w

    -- However often a session is monitored, and whatever the risks are, the session in the cache
    -- keeps its principal, its duration is never lengthened and no demand to authenticate again lifted.
    pub monitor_all-IsStricter :
        (get : S → Option (Session R)) (ws : List (World R S)) (s : S) (a : Session R)
        → IsCache get ws
        → get s ≡ some a
        → (b : Session R) × (get (monitor_all ws s) ≡ some b) × IsStricter a b
    unfolding monitor_all monitor_session
    monitor_all-IsStricter get [] s a c e = (a, e, IsStricter-refl a)
    monitor_all-IsStricter get (w ∷ ws) s a c e =
        let f : w.get id s ≡ some a = c.same w here s ∙ e in
        let s' = (watch R w policy id (w.get id s) w.device s).1 in
        let (b, g, h) : Kept w a s' =
          subst (λ o. Kept w a (watch R w policy id o w.device s).1) (sym f)
            (store-Kept w (c.caches w here) a s f w.device) in
        let (d, k, l) =
          monitor_all-IsStricter get ws s' b
            (record { same = λ v i. c.same v (there i); caches = λ v i. c.caches v (there i) })
            (sym (c.same w here s') ∙ g) in
        (d, k, IsStricter-trans a b d h l)

    -- With the risk engine of the source, whose score is 0.0 for everyone, and a threshold that this
    -- does not pass, monitoring a session that the cache knows never revokes it.
    pub monitor_session-source :
        (w : World R S) (device : String) (a : Session R) (s : S)
        → ((p d c : String) → w.calculate p d c ≡ risk_of_source R p d c)
        → R.lt R.threshold R.zero ≡ false
        → w.device ≡ some device
        → w.get id s ≡ some a
        → (monitor_session R w policy id s).0 ≡ ok true
    unfolding monitor_session watch risk_of_source
    monitor_session-source w device a s source low dev known =
        ap (λ o. (watch R w policy id o w.device s).0) known
        ∙ ap (λ o. (watch R w policy id (some a) o s).0) dev
        ∙ ap (λ r. ok (not (R.lt R.threshold r))) (source a.principal device a.context)
        ∙ ap (λ b. ok (not b)) low
