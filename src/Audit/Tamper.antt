-- ===== src/Audit/Tamper.antt =====
-- security/audit/auditor.py: what the chain of hashes shows of the entries.
use kuva_ai.Prelude.{
  ℕ, Bool, true, false, Option-cases, inl, inr, Option, none, some, List, [], ◌∷◌, ◌≡◌, ◌≢◌, refl,
  sym, ap, ◌∙◌,
}
use mathlib.Core.Path.{subst}
use kuva_ai.Exec.{pure, continue}
use kuva_ai.Audit.{
  Entry, Crypto, Error, Record, Logger, new_logger, next_hash, full_record, flush_buffer,
  flush_if_full, persist, log_text, log, log_all,
}

-- What the chain relies on: the digest meets no collision, two digests can be told apart in what
-- `join` writes, and no entry's JSON is two digests.
pub record IsSecure (c : Crypto) : Type 0 where
  pub no_collision : (x y : c.Text) → c.digest x ≡ c.digest y → x ≡ y
  pub joined : (a b a' b' : c.Digest) → c.join a b ≡ c.join a' b' → (a ≡ a') × (b ≡ b')
  pub distinct : (e : Entry) (a b : c.Digest) → c.dumps e ≢ some (c.join a b)

some-injective : {A : Type 0} {a b : A} → some a ≡ some b → a ≡ b
some-injective h = cc

module _ (c : Crypto) where
  -- The JSON of the entries that can be serialized, the last first.
  abbrev text_of : Option c.Text → List c.Text → List c.Text
  text_of none ts = ts
  text_of (some t) ts = t ∷ ts

  pub texts : List Entry → List c.Text → List c.Text
  texts [] ts = ts
  texts (e ∷ es) ts = texts es (text_of (c.dumps e) ts)

  -- The chain hash of texts, the last first.
  hash_of : List c.Text → Option c.Digest
  hash_of [] = none
  hash_of (t ∷ ts) = some (next_hash c (hash_of ts) (c.digest t))

  module _ (buffer_size : ℕ) where
    flush-chain_hash :
        (b : Bool) (l : Logger c) (r : Record c)
        → (continue {S = Logger c} {E = Error} {A = Unit} {B = c.Digest}
            (λ _. pure r.chain_hash)
            (elim b [ true ↦ flush_buffer c l | false ↦ pure tt l ])).1.chain_hash
          ≡ l.chain_hash
    unfolding flush_buffer
    flush-chain_hash true l r = refl
    flush-chain_hash false l r = refl

    log_text-chain_hash :
        (e : Entry) (o : Option c.Text) (ts : List c.Text) (l : Logger c)
        → l.chain_hash ≡ hash_of ts
        → (log_text c buffer_size e o l).1.chain_hash ≡ hash_of (text_of o ts)
    unfolding log_text persist flush_if_full full_record hash_of
    log_text-chain_hash e none ts l h = h
    log_text-chain_hash e (some t) ts l h =
        flush-chain_hash _ _ (full_record c l.chain_hash e t)
        ∙ ap (λ x. some (next_hash c x (c.digest t))) h

    log_all-chain_hash :
        (es : List Entry) (ts : List c.Text) (l : Logger c)
        → l.chain_hash ≡ hash_of ts
        → (log_all c buffer_size es l).chain_hash ≡ hash_of (texts es ts)
    unfolding log_all log texts
    log_all-chain_hash [] ts l h = h
    log_all-chain_hash (e ∷ es) ts l h =
        log_all-chain_hash es _ _ (log_text-chain_hash e (c.dumps e) ts l h)

  abbrev IsPlain : List c.Text → Type 0
  IsPlain [] = Unit
  IsPlain (t ∷ ts) = ((e : Entry) × (c.dumps e ≡ some t)) × IsPlain ts

  texts-IsPlain : (es : List Entry) (ts : List c.Text) → IsPlain ts → IsPlain (texts es ts)
  unfolding texts
  texts-IsPlain [] ts h = h
  texts-IsPlain (e ∷ es) ts h = elim (Option-cases (c.dumps e)) [
    | inl q ↦ subst (λ o. IsPlain (texts es (text_of o ts))) (sym q) (texts-IsPlain es ts h)
    | inr (t, q) ↦
        subst (λ o. IsPlain (texts es (text_of o ts))) (sym q)
          (texts-IsPlain es (t ∷ ts) ((e, q), h))
  ]

  module _ (secure : IsSecure c) where
    first_ne :
        (t : c.Text) (a b : c.Digest)
        → ((e : Entry) × (c.dumps e ≡ some t))
        → c.digest t ≢ c.digest (c.join a b)
    first_ne t a b (e, q) h =
        secure.distinct e a b (q ∙ ap some (secure.no_collision t (c.join a b) h))

    hash_of-injective :
        (ts us : List c.Text) → IsPlain ts → IsPlain us → hash_of ts ≡ hash_of us → ts ≡ us
    unfolding hash_of next_hash
    hash_of-injective [] [] p q h = refl
    hash_of-injective [] (u ∷ us) p q h = cc
    hash_of-injective (t ∷ ts) [] p q h = cc
    hash_of-injective (t ∷ []) (u ∷ []) p q h =
        ap (λ x. x ∷ []) (secure.no_collision t u (some-injective h))
    hash_of-injective (t ∷ []) (u ∷ v ∷ us) p q h = absurd (first_ne t _ _ (p.0) (some-injective h))
    hash_of-injective (t ∷ s ∷ ts) (u ∷ []) p q h =
        absurd (first_ne u _ _ (q.0) (sym (some-injective h)))
    hash_of-injective (t ∷ s ∷ ts) (u ∷ v ∷ us) p q h =
        let (a, b) = secure.joined _ _ _ _ (secure.no_collision _ _ (some-injective h)) in
        let r = hash_of-injective (s ∷ ts) (v ∷ us) (p.1) (q.1) (ap some a) in
        ap (λ x. x ∷ s ∷ ts) (secure.no_collision t u b) ∙ ap (λ x. u ∷ x) r

    -- With a secure digest, two loggers, with buffers of any size, that end with the same chain hash have
    -- logged the same texts of entries, in the same order: none was changed, removed, added or moved.
    pub log_all-injective :
        (n n' : ℕ) (es es' : List Entry)
        → (log_all c n es (new_logger c)).chain_hash ≡ (log_all c n' es' (new_logger c)).chain_hash
        → texts es [] ≡ texts es' []
    unfolding hash_of
    log_all-injective n n' es es' h =
        hash_of-injective (texts es []) (texts es' []) (texts-IsPlain es [] tt)
          (texts-IsPlain es' [] tt)
          (sym (log_all-chain_hash n es [] (new_logger c) refl)
            ∙ h
            ∙ log_all-chain_hash n' es' [] (new_logger c) refl)
