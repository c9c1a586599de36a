-- ===== src/Tdf/Engine.antt =====
-- security/crypto/tdf.py: `CryptoEngine`.
use kuva_ai.Prelude.{
  ℕ, suc, ◌+◌, Option, none, some, List, [], ◌++◌, length, take, ltb, eqb, if◌then◌else◌, ◌&&◌,
}
use kuva_ai.Exec.{Result, ok, err}
use kuva_ai.Tdf.{
  Text, Bytes, TdfPolicy, TdfHeader, Error, crypto_error, integrity_error, value_error, Library,
}
use kuva_ai.Tdf.Bytes.{codes, same, last_bytes, but_last, last_part, lookup, insert}

-- An entry of `_key_cache`
pub record CachedKey : Type 0 where
  pub key : Bytes
  pub expiry : ℕ

-- The cache of keys with their expiry, and how often the clock and the random source were read.
pub record CryptoEngine : Type 0 where
  pub kms_endpoint : Text
  pub key_cache : List (Text × CachedKey)
  pub reads : ℕ
  pub draws : ℕ

abbrev pub new_engine : Text → CryptoEngine
new_engine kms = record { kms_endpoint = kms; key_cache = []; reads = 0; draws = 0 }

module _ (lib : Library) where
  -- `_fetch_key` without a key in the cache that is still valid, the clock read that often
  abbrev pub new_key : Text → ℕ → CryptoEngine → Bytes × CryptoEngine
  new_key key_id reads s =
      let key : Bytes = lib.urandom s.draws 32 in
      (
        key,
        record s {
          key_cache =
              insert key_id (record { key = key; expiry = lib.clock reads + 3600 }) s.key_cache;
          reads = suc reads;
          draws = suc s.draws;
        },
      )

  abbrev pub fetch_cached : Text → Option CachedKey → CryptoEngine → Bytes × CryptoEngine
  fetch_cached key_id none s = new_key key_id s.reads s
  fetch_cached key_id (some c) s =
      if ltb (lib.clock s.reads) c.expiry
      then (c.key, record s { reads = suc s.reads })
      else new_key key_id (suc s.reads) s

  -- `_fetch_key`, in seconds
  unfoldable pub fetch_key : Text → CryptoEngine → Bytes × CryptoEngine
  fetch_key key_id s = fetch_cached key_id (lookup key_id s.key_cache) s

  unfoldable pub generate_iv : CryptoEngine → Bytes × CryptoEngine
  generate_iv s = (lib.urandom s.draws 12, record s { draws = suc s.draws })

  abbrev pub kek_id : TdfPolicy → Text
  kek_id p = codes "kek_" ++ take 16 (lib.hexdigest p.id)

  -- The constraints of `TDFHeader`.
  abbrev pub checked : TdfHeader → Result Error TdfHeader
  checked h =
      if eqb (length h.iv) 12 && eqb (length h.ciphertext_hash) 32 then ok h else err value_error

  abbrev pub make_header : TdfPolicy → Option Text → Bytes → Bytes → Result Error TdfHeader
  make_header p none iv ct = err value_error
  make_header p (some u) iv ct = checked (record {
    policy = p;
    kek_uri = u;
    encrypted_metadata = none;
    iv = iv;
    ciphertext_hash = lib.sha256 ct;
  })

  -- The `except` clauses: whatever was raised becomes a `TDFCryptoError`.
  abbrev pub as_crypto_error : {A : Type 0} → Result Error A → Result Error A
  as_crypto_error (ok a) = ok a
  as_crypto_error (err e) = err crypto_error

  abbrev pub tagged : Bytes × Bytes → Result Error TdfHeader → Result Error (Bytes × TdfHeader)
  tagged (ct, tag) (ok h) = ok (ct ++ tag, h)
  tagged (ct, tag) (err e) = err e

  unfoldable pub encrypt_data :
      Bytes → TdfPolicy → CryptoEngine → Result Error (Bytes × TdfHeader) × CryptoEngine
  encrypt_data plain p s =
      let (kek, s1) = fetch_key (kek_id p) s in
      let (iv, s2) = generate_iv s1 in
      let sealed = lib.seal kek iv plain in
      let address = s.kms_endpoint ++ (codes "/keys/" ++ kek_id p) in
      (as_crypto_error (tagged sealed (make_header p (lib.parse_url address) iv sealed.0)), s2)

  abbrev pub from_library : Option Bytes → Result Error Bytes
  from_library none = err value_error
  from_library (some d) = ok d

  -- The body of `decrypt_data` once it has the key.
  abbrev pub open_with : Bytes → Bytes → Bytes → TdfHeader → Result Error Bytes
  open_with kek tag ct h =
      if same (lib.sha256 ct) h.ciphertext_hash
      then from_library (lib.unseal kek h.iv tag ct)
      else err integrity_error

  abbrev pub decrypt_at :
      Option Text → Bytes → TdfHeader → CryptoEngine → Result Error Bytes × CryptoEngine
  decrypt_at none data_and_tag h s = (err value_error, s)
  decrypt_at (some path) data_and_tag h s =
      let (kek, s1) = fetch_key (last_part b'/' [] path) s in
      (open_with kek (last_bytes 16 data_and_tag) (but_last 16 data_and_tag) h, s1)

  abbrev pub wrapped : {A : Type 0} → Result Error A × CryptoEngine → Result Error A × CryptoEngine
  wrapped (r, s) = (as_crypto_error r, s)

  unfoldable pub decrypt_data : Bytes → TdfHeader → CryptoEngine → Result Error Bytes × CryptoEngine
  decrypt_data ciphertext h s = wrapped (decrypt_at (lib.url_path h.kek_uri) ciphertext h s)
