-- ===== src/Factory/Never.antt =====
-- core/agent/factory.py: no call of `create` returns.
use kuva_ai.Prelude.{
  ℕ, zero, suc, ◌≡◌, refl, ap, String, Bool, true, false, ◌&&◌, Option, none, some, List, [], ◌∷◌,
  all, arith,
}
use kuva_ai.Dict.{Dict, lookup, keys}
use kuva_ai.Exec.{Result, ok, err, gets, ◌>>=◌}
use kuva_ai.Exec.Ensures.{
  Ensures, Always, Keeps, OnOk, Ensures-pure, Ensures-raise, Ensures-bind, Ensures-then,
  Keeps-modify,
}
use kuva_ai.Factory.{
  Error, runtime_error, key_error, recursion_error, AgentClass, AgentConfig, Agent, Arguments,
  Outside, AgentFactory, Action,
}
use kuva_ai.Factory.Config.{resolve_config}
use kuva_ai.Factory.Create.{
  required, reported, recall, dict_hashes, hashes, arguments_for, as_dependency_error,
  make_dependency, cached_or_made, one_dependency, dependency_loop, resolve_dependencies,
  given_or_resolved, final_config, construct, enter, instantiate, create_body, remember, recalled,
  called, create, create_all,
}

-- Neither cache holds an agent.
pub record IsEmpty (f : AgentFactory) : Type 0 where
  pub no_cache : f.cache ≡ []
  pub no_memo : f.memo ≡ []

abbrev Never : {A : Type 0} → A → Type 0
Never _ = ⊥

-- The action raises, and leaves both caches empty.
abbrev pub Fails : {A : Type 0} → Action A → Type 0
Fails m = Ensures IsEmpty Never m

required-Keeps : {A : Type 0} (e : Error) (o : Option A) → Keeps IsEmpty (required e o)
required-Keeps e none = Ensures-raise e
required-Keeps e (some a) = Ensures-pure a tt

pub get-Keeps : {A : Type 0} (g : AgentFactory → A) → Keeps IsEmpty (gets {E = Error} g)
get-Keeps g = record { run = λ f h. (h, tt) }

OnOk_any : {A : Type 0} (r : Result Error A) → OnOk Always r
OnOk_any (ok a) = tt
OnOk_any (err e) = tt

abbrev pub is_error : Result Error Agent → Bool
is_error (ok a) = false
is_error (err e) = true

module _ (out : Outside) where
  resolve-Keeps :
      (t : String) (source : Option String)
      → Keeps IsEmpty (λ (f : AgentFactory). (resolve_config out t source f, f))
  resolve-Keeps t source = record { run = λ f h. (h, OnOk_any (resolve_config out t source f)) }

  called-Fails :
      (call : Arguments → Action Agent) (b : Bool) (a : Arguments)
      → b ≡ false
      → Fails (called out call b a)
  called-Fails call false a e = record { run = λ f h. (h, tt) }
  called-Fails call true a e = absurd (cc)

  and_false : (b : Bool) → (b && false) ≡ false
  and_false true = refl
  and_false false = refl

  -- The call for a dependency passes a dictionary, which cannot be hashed.
  dependency-Fails :
      (depth : ℕ) (t : String) (c : AgentConfig) → Fails (create out depth (arguments_for out t c))
  unfolding create
  dependency-Fails zero t c = Ensures-raise recursion_error
  dependency-Fails (suc depth) t c =
      called-Fails (create out depth) _ _ (and_false (out.can_hash c))

  module _ (depth : ℕ) where
    abbrev call : Arguments → Action Agent
    call = create out depth

    make-Fails : (cfg : AgentConfig) (n t : String) → Fails (make_dependency out call cfg n t)
    unfolding make_dependency
    make-Fails cfg n t =
        Ensures-then _ _
          (Keeps-modify _ (λ f h. record { no_cache = h.no_cache; no_memo = h.no_memo }))
          (Ensures-bind Always _ _ (required-Keeps key_error (lookup n cfg.sources)) (λ source _.
            Ensures-bind Always _ _ (resolve-Keeps t (some source))
              (λ c _. Ensures-bind Never _ _ (dependency-Fails depth t c) (λ a no. absurd no))))

    cached-Fails :
        (o : Option Agent) (b : Bool) (cfg : AgentConfig) (n t : String)
        → o ≡ none
        → Fails (cached_or_made out call o b cfg n t)
    cached-Fails none b cfg n t e = make-Fails cfg n t
    cached-Fails (some a) b cfg n t e = absurd (cc)

    wrapped :
        (x : Result Error Agent × AgentFactory)
        → IsEmpty x.1 × OnOk Never x.0
        → IsEmpty (as_dependency_error out x).1 × OnOk Never (as_dependency_error out x).0
    wrapped (ok a, f) h = absurd (h.1)
    wrapped (err e, f) h = (record { no_cache = h.0.no_cache; no_memo = h.0.no_memo }, tt)

    not_cached : (n : String) (f : AgentFactory) → IsEmpty f → lookup n f.cache ≡ none
    unfolding lookup
    not_cached n f h = ap (lookup n) h.no_cache

    one-Fails : (cfg : AgentConfig) (n t : String) → Fails (one_dependency out call cfg n t)
    one-Fails cfg n t = record {
      run = λ f h. wrapped _ (
          (cached-Fails (lookup n f.cache) f.config.cache_enabled cfg n t (not_cached n f h)).run f
            h);
    }

    loop-Ensures :
        (cfg : AgentConfig) (ds : Dict String)
        → Ensures IsEmpty (λ d. d ≡ []) (dependency_loop out call cfg ds [])
    unfolding dependency_loop
    loop-Ensures cfg [] = Ensures-pure [] refl
    loop-Ensures cfg ((n, t) ∷ ds) = Ensures-bind Never _ _ (one-Fails cfg n t) (λ a no. absurd no)

    deps-Ensures :
        (o : Option (Dict Agent)) (t : String) (cfg : AgentConfig)
        → dict_hashes out o ≡ true
        → Ensures IsEmpty (λ d. d ≡ []) (given_or_resolved out call o t cfg)
    unfolding resolve_dependencies
    deps-Ensures none t cfg e =
        Ensures-bind Always _ _ (get-Keeps (λ f. lookup t f.registry)) (λ o _.
          Ensures-bind Always _ _ (required-Keeps key_error o)
            (λ c _. loop-Ensures cfg c.dependencies))
    deps-Ensures (some d) t cfg e = absurd (cc)

    enter-Fails :
        (t : String) (d : Dict Agent) (x : Agent) → d ≡ [] → Fails (enter out call t (keys d) x)
    enter-Fails t [] x e = record { run = λ f h. (h, tt) }
    enter-Fails t (y ∷ d) x e = absurd (cc)

    config-Keeps :
        (a : Arguments) (o : Option AgentConfig) → Keeps IsEmpty (final_config out call a o)
    config-Keeps a none = resolve-Keeps a.agent_type a.config_source
    config-Keeps a (some c) = record { run = λ f h. (h, tt) }

    construct-Keeps :
        (b : Bool) (t : String) (cfg : AgentConfig) → Keeps IsEmpty (construct out call b t cfg)
    construct-Keeps true t cfg = Ensures-pure _ tt
    construct-Keeps false t cfg = Ensures-raise runtime_error

    instantiate-Fails :
        (t : String) (cfg : AgentConfig) (d : Dict Agent) (o : Option AgentClass)
        → d ≡ []
        → Fails (instantiate out call t cfg d o)
    instantiate-Fails t cfg d o nil =
        Ensures-bind Always (required key_error o)
          (λ _. construct out call (out.constructs t cfg d) t cfg >>= enter out call t (keys d))
          (required-Keeps key_error o)
          (λ _ _.
            Ensures-bind Always _ (enter out call t (keys d))
              (construct-Keeps (out.constructs t cfg d) t cfg) (λ x _. enter-Fails t d x nil))

    body-Fails :
        (a : Arguments) → dict_hashes out a.dependencies ≡ true → Fails (create_body out call a)
    unfolding create_body
    body-Fails a e = Ensures-bind Always _ _ (config-Keeps a a.config) (λ cfg _.
        Ensures-bind (λ d. d ≡ []) _ _ (deps-Ensures a.dependencies a.agent_type cfg e)
          (λ d nil.
            Ensures-bind Always (gets (λ f. lookup a.agent_type f.registry))
              (instantiate out call a.agent_type cfg d) (get-Keeps _)
              (λ o _. instantiate-Fails a.agent_type cfg d o nil)))

    remembered :
        (a : Arguments) (x : Result Error Agent × AgentFactory)
        → IsEmpty x.1 × OnOk Never x.0
        → IsEmpty (remember out call a (reported x)).1
          × OnOk Never (remember out call a (reported x)).0
    remembered a (ok y, f) h = absurd (h.1)
    remembered a (err e, f) h = (h.0, tt)

    recalled-Fails :
        (o : Option Agent) (a : Arguments) (f : AgentFactory)
        → o ≡ none
        → dict_hashes out a.dependencies ≡ true
        → IsEmpty f
        → IsEmpty (recalled out call o a f).1 × OnOk Never (recalled out call o a f).0
    recalled-Fails none a f e d h =
        remembered a (create_body out call a f) ((body-Fails a d).run f h)
    recalled-Fails (some x) a f e d h = absurd (cc)

    not_recalled :
        (a : Arguments) (f : AgentFactory) → IsEmpty f → recall (out.same_call a) f.memo ≡ none
    not_recalled a f h = ap (recall (out.same_call a)) h.no_memo

    hashed-Fails :
        (b : Bool) (a : Arguments)
        → (b ≡ true → dict_hashes out a.dependencies ≡ true)
        → Fails (called out call b a)
    hashed-Fails false a e = record { run = λ f h. (h, tt) }
    hashed-Fails true a e = record {
      run = λ f h. recalled-Fails _ a f (not_recalled a f h) (e refl) h;
    }

  -- From empty caches a call of `create` raises, and leaves them empty.
  create-Fails : (depth : ℕ) (a : Arguments) → Fails (create out depth a)
  unfolding create
  create-Fails zero a = Ensures-raise recursion_error
  create-Fails (suc depth) a = hashed-Fails depth (hashes out a) a (λ e. ground (arith, e))

  never-error : (r : Result Error Agent) → OnOk Never r → is_error r ≡ true
  never-error (ok a) h = absurd h
  never-error (err e) h = refl

  pub create_all-errors :
      (depth : ℕ) (as_ : List Arguments) (f : AgentFactory)
      → IsEmpty f
      → all is_error (create_all out depth as_ f).0 ≡ true
  unfolding create_all
  create_all-errors depth [] f h = refl
  create_all-errors depth (a ∷ as_) f h =
      let (still, failed) = (create-Fails depth a).run f h in
      rw
        (
          never-error (create out depth a f).0 failed,
          create_all-errors depth as_ (create out depth a f).1 still,
        )
        refl
