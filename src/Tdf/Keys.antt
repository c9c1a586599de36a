-- ===== src/Tdf/Keys.antt =====
-- security/crypto/tdf.py: the cache of keys, and the key's name in a header's address.
use mathlib.Core.Path.{subst}
use kuva_ai.Prelude.{
  ℕ, zero, suc, ◌≤◌, ◌<◌, arith, ◌≡◌, refl, sym, ap, ◌∙◌, Bool, true, false, ◌&&◌, ◌||◌, Option,
  none, some, [], ◌∷◌, ◌++◌, append_assoc, append-nil, take, leb, ltb, lt→ltb, eqb, all, Bool-cases,
  inl, inr, if◌then◌else◌,
}
use kuva_ai.Tdf.{Text, Bytes, TdfPolicy, Library}
use kuva_ai.Tdf.Bytes.{codes, same, same→≡, last_part, lookup, lookup-insert, lookup-insert_other}
use kuva_ai.Tdf.Engine.{CachedKey, CryptoEngine, fetch_cached, fetch_key, kek_id}

abbrev pub is_hex : ℕ → Bool
is_hex c = (leb b'0' c && leb c b'9') || (leb b'a' c && leb c b'f')

-- Letters, digits and `_`: what no address writes in another way.
abbrev pub is_plain : ℕ → Bool
is_plain c =
    (leb b'0' c && leb c b'9')
    || (leb b'a' c && leb c b'z')
    || (leb b'A' c && leb c b'Z')
    || eqb c b'_'

plain_of_hex : (n : ℕ) (t : Text) → all is_hex t ≡ true → all is_plain (take n t) ≡ true
plain_of_hex zero t h = refl
plain_of_hex (suc n) [] h = refl
plain_of_hex (suc n) (c ∷ t) h = ground (arith, plain_of_hex n t)

pub kek_id-plain :
    (lib : Library) (p : TdfPolicy)
    → all is_hex (lib.hexdigest p.id) ≡ true
    → all is_plain (kek_id lib p) ≡ true
kek_id-plain lib p h = rw (plain_of_hex 16 (lib.hexdigest p.id) h) refl

last_part-plain : (part t : Text) → all is_plain t ≡ true → last_part b'/' part t ≡ part ++ t
unfolding last_part
last_part-plain part [] h = sym (append-nil part)
last_part-plain part (c ∷ t) h =
    let not_slash : eqb c b'/' ≡ false = ground arith in
    let rest : all is_plain t ≡ true = ground arith in
    rw not_slash (last_part-plain (part ++ c ∷ []) t rest ∙ append_assoc part (c ∷ []) t)

last_part-append : (part xs t : Text) → last_part b'/' part (xs ++ b'/' ∷ t) ≡ last_part b'/' [] t
unfolding last_part
last_part-append part [] t = refl
last_part-append part (x ∷ xs) t = last_part-append (if eqb x b'/' then [] else part ++ x ∷ []) xs t

-- The last part of a path that ends in a plain name is that name.
pub last_part-path :
    (base t : Text) → all is_plain t ≡ true → last_part b'/' [] (base ++ (codes "/keys/" ++ t)) ≡ t
last_part-path base t h =
    ap (last_part b'/' []) (sym (append_assoc base (codes "/keys") (b'/' ∷ t)))
    ∙ last_part-append [] (base ++ codes "/keys") t
    ∙ last_part-plain [] t h

module _ (lib : Library) where
  -- The cache has this entry under this name.
  pub record HasKey (k : Text) (c : CachedKey) (s : CryptoEngine) : Type 0 where
    pub found : lookup k s.key_cache ≡ some c

  pub fetch_key-valid :
      (k : Text) (c : CachedKey) (s : CryptoEngine)
      → HasKey k c s
      → lib.clock s.reads < c.expiry
      → fetch_key lib k s ≡ (c.key, record s { reads = suc s.reads })
  unfolding fetch_key
  fetch_key-valid k c s h v = rw (h.found, lt→ltb (lib.clock s.reads) c.expiry v) refl

  pub fetch_key-expired :
      (k : Text) (c : CachedKey) (s : CryptoEngine)
      → HasKey k c s
      → c.expiry ≤ lib.clock s.reads
      → (fetch_key lib k s).0 ≡ lib.urandom s.draws 32
  unfolding fetch_key
  fetch_key-expired k c s h v =
      let late : ltb (lib.clock s.reads) c.expiry ≡ false = ground arith in rw (h.found, late) refl

  cached_reads :
      (k : Text) (o : Option CachedKey) (s : CryptoEngine)
      → s.reads ≤ (fetch_cached lib k o s).1.reads
  cached_reads k none s = omega arith
  cached_reads k (some c) s = elim (Bool-cases (ltb (lib.clock s.reads) c.expiry)) [
    | inl e ↦ rw e (omega arith)
    | inr e ↦ rw e (omega arith)
  ]

  pub fetch_key-reads : (k : Text) (s : CryptoEngine) → s.reads ≤ (fetch_key lib k s).1.reads
  unfolding fetch_key
  fetch_key-reads k s = cached_reads k (lookup k s.key_cache) s

  cached_other :
      (j k : Text) (o : Option CachedKey) (s : CryptoEngine)
      → same j k ≡ false
      → lookup k (fetch_cached lib j o s).1.key_cache ≡ lookup k s.key_cache
  cached_other j k none s h = lookup-insert_other j k _ s.key_cache h
  cached_other j k (some c) s h = elim (Bool-cases (ltb (lib.clock s.reads) c.expiry)) [
    | inl e ↦ rw e refl
    | inr e ↦ rw e (lookup-insert_other j k _ s.key_cache h)
  ]

  -- While a key is valid, no request for any key replaces it.
  pub fetch_key-HasKey :
      (j k : Text) (c : CachedKey) (s : CryptoEngine)
      → lib.clock s.reads < c.expiry
      → HasKey k c s
      → HasKey k c (fetch_key lib j s).1
  unfolding fetch_key
  fetch_key-HasKey j k c s v h = elim (Bool-cases (same j k)) [
    | inl e ↦
        subst (λ l. HasKey k c (fetch_key lib l s).1) (sym (same→≡ j k e))
          (rw (fetch_key-valid k c s h v) (record { found = h.found }))
    | inr e ↦ record { found = cached_other j k (lookup j s.key_cache) s e ∙ h.found }
  ]

  abbrev Fetched : Text → Bytes × CryptoEngine → Type 0
  Fetched k (key, s) = (c : CachedKey) × HasKey k c s × (c.key ≡ key)

  cached-Fetched :
      (k : Text) (o : Option CachedKey) (s : CryptoEngine)
      → lookup k s.key_cache ≡ o
      → Fetched k (fetch_cached lib k o s)
  cached-Fetched k none s h = (_, record { found = lookup-insert k _ s.key_cache }, refl)
  cached-Fetched k (some c) s h = elim (Bool-cases (ltb (lib.clock s.reads) c.expiry)) [
    | inl e ↦ rw e (c, record { found = h }, refl)
    | inr e ↦ rw e (_, record { found = lookup-insert k _ s.key_cache }, refl)
  ]

  -- The key that was handed out stands in the cache.
  pub fetch_key-stored :
      (k : Text) (s : CryptoEngine)
      → (c : CachedKey) × HasKey k c (fetch_key lib k s).1 × (c.key ≡ (fetch_key lib k s).0)
  unfolding fetch_key
  fetch_key-stored k s = cached-Fetched k (lookup k s.key_cache) s refl
