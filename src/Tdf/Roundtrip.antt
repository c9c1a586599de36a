-- ===== src/Tdf/Roundtrip.antt =====
-- security/crypto/tdf.py: `decrypt_data` after `encrypt_data`, before and after the key expires.
use kuva_ai.Prelude.{
  ℕ, ◌≤◌, ◌<◌, arith, ◌≡◌, refl, sym, ap, ◌∙◌, none, some, List, [], ◌++◌, length,
}
use kuva_ai.Exec.{ok}
use kuva_ai.Tdf.{Text, Bytes, TdfPolicy, TdfHeader, Library}
use kuva_ai.Tdf.Bytes.{codes, last_part, same_refl, last_bytes-append, but_last-append}
use kuva_ai.Tdf.Engine.{
  CachedKey, CryptoEngine, fetch_key, generate_iv, kek_id, encrypt_data, decrypt_data, open_with,
  as_crypto_error,
}
use kuva_ai.Tdf.Keys.{kek_id-plain, last_part-path, HasKey, fetch_key-valid, fetch_key-stored}
use kuva_ai.Tdf.Runs.{IsSound, Call, run_calls, run_calls-HasKey}

some-injective : {A : Type 0} {a b : A} → some a ≡ some b → a ≡ b
some-injective h = cc

module _ (lib : Library) where
  -- What `encrypt_data` makes with this key, this nonce and this address
  abbrev header_with : TdfPolicy → Text → Bytes → Bytes → TdfHeader
  header_with p u iv ct = record {
    policy = p;
    kek_uri = u;
    encrypted_metadata = none;
    iv = iv;
    ciphertext_hash = lib.sha256 ct;
  }

  abbrev key_of : TdfPolicy → CryptoEngine → Bytes
  key_of p s = (fetch_key lib (kek_id lib p) s).0

  abbrev iv_of : TdfPolicy → CryptoEngine → Bytes
  iv_of p s = lib.urandom (fetch_key lib (kek_id lib p) s).1.draws 12

  abbrev sealed_of : Bytes → TdfPolicy → CryptoEngine → Bytes × Bytes
  sealed_of plain p s = lib.seal (key_of p s) (iv_of p s) plain

  encrypt_data-ok :
      (plain : Bytes) (p : TdfPolicy) (s : CryptoEngine) (sound : IsSound lib s.kms_endpoint)
      (u : Text)
      → lib.parse_url (s.kms_endpoint ++ (codes "/keys/" ++ kek_id lib p)) ≡ some u
      → (encrypt_data lib plain p s).0
        ≡ ok (
          (sealed_of plain p s).0 ++ (sealed_of plain p s).1,
          header_with p u (iv_of p s) (sealed_of plain p s).0,
        )
  unfolding encrypt_data generate_iv
  encrypt_data-ok plain p s sound u e =
      rw
        (
          e,
          sound.random_length (fetch_key lib (kek_id lib p) s).1.draws 12,
          sound.digest_length (sealed_of plain p s).0,
        )
        refl

  open_with-sealed :
      (kms : Text) (sound : IsSound lib kms) (key iv plain : Bytes) (p : TdfPolicy) (u : Text)
      → open_with lib key
          (lib.seal key iv plain).1
          (lib.seal key iv plain).0
          (header_with p u iv (lib.seal key iv plain).0)
        ≡ ok plain
  open_with-sealed kms sound key iv plain p u =
      rw (same_refl (lib.sha256 (lib.seal key iv plain).0), sound.opens key iv plain) refl

  -- With a path that names the key, `decrypt_data` works with what `_fetch_key` gives for it.
  decrypt_data-path :
      (path k tag ct : Bytes) (h : TdfHeader) (s : CryptoEngine)
      → lib.url_path h.kek_uri ≡ some path
      → last_part b'/' [] path ≡ k
      → length tag ≡ 16
      → (decrypt_data lib (ct ++ tag) h s).0
        ≡ as_crypto_error lib (open_with lib (fetch_key lib k s).0 tag ct h)
  unfolding decrypt_data
  decrypt_data-path path k tag ct h s e l t =
      rw (e, l, last_bytes-append 16 ct tag t, but_last-append 16 ct tag t) refl

  module _ (plain : Bytes) (p : TdfPolicy) (s : CryptoEngine)
      (sound : IsSound lib s.kms_endpoint) where
    abbrev address :
        (u base : Text) × (lib.parse_url (s.kms_endpoint ++ (codes "/keys/" ++ kek_id lib p))
          ≡ some u)
        × (lib.url_path u ≡ some (base ++ (codes "/keys/" ++ kek_id lib p)))
    address = sound.address (kek_id lib p) (kek_id-plain lib p (sound.hex p.id))

    -- The decryption of what was encrypted, in any state, is the opening with the key of that state.
    decrypt_data-sealed :
        (s2 : CryptoEngine)
        → (decrypt_data lib
            ((sealed_of plain p s).0 ++ (sealed_of plain p s).1)
            (header_with p address.0 (iv_of p s) (sealed_of plain p s).0)
            s2).0
          ≡ as_crypto_error lib (
              open_with lib
                (fetch_key lib (kek_id lib p) s2).0
                (sealed_of plain p s).1
                (sealed_of plain p s).0
                (header_with p address.0 (iv_of p s) (sealed_of plain p s).0))
    decrypt_data-sealed s2 =
        decrypt_data-path _ (kek_id lib p) (sealed_of plain p s).1 (sealed_of plain p s).0 _ s2
          address.3 (last_part-path address.1 (kek_id lib p) (kek_id-plain lib p (sound.hex p.id)))
          (sound.tag_length (key_of p s) (iv_of p s) plain)

    -- The entry of the cache after the encryption holds the key that it took.
    stored_key :
        (c : CachedKey)
        → HasKey lib (kek_id lib p) c (encrypt_data lib plain p s).1
        → c.key ≡ key_of p s
    unfolding encrypt_data generate_iv
    stored_key c has =
        let (c1, has1, e) = fetch_key-stored lib (kek_id lib p) s in
        ap (λ (x : CachedKey). x.key) (some-injective (sym has.found ∙ has1.found)) ∙ e

    -- Data that was encrypted comes back, whatever the engine did in between, as long as the clock
    -- shows a time before the key's expiry.
    pub decrypt_data-encrypt_data :
        (calls : List Call) (c : CachedKey)
        → HasKey lib (kek_id lib p) c (encrypt_data lib plain p s).1
        → ((n : ℕ)
            → n ≤ (run_calls lib calls (encrypt_data lib plain p s).1).reads
            → lib.clock n < c.expiry)
        → (ct : Bytes) × (h : TdfHeader) × ((encrypt_data lib plain p s).0 ≡ ok (ct, h))
          × ((decrypt_data lib ct h (run_calls lib calls (encrypt_data lib plain p s).1)).0
              ≡ ok plain)
    decrypt_data-encrypt_data calls c has valid =
        let s1 = (encrypt_data lib plain p s).1 in
        let s2 = run_calls lib calls s1 in
        let has2 = run_calls-HasKey lib calls (kek_id lib p) c s1 has valid in
        let same_key : (fetch_key lib (kek_id lib p) s2).0 ≡ key_of p s =
          ap (λ x. x.0)
            (fetch_key-valid lib (kek_id lib p) c s2 has2 (valid s2.reads (omega arith)))
          ∙ stored_key c has in
        (
          _,
          _,
          encrypt_data-ok plain p s sound address.0 address.2,
          decrypt_data-sealed s2
              ∙ rw
                  (
                    same_key,
                    open_with-sealed s.kms_endpoint sound (key_of p s) (iv_of p s) plain p
                        address.0,
                  )
                  refl,
        )
