-- ===== src/Tdf/Runs.antt =====
-- security/crypto/tdf.py: what was encrypted is decrypted, whatever the engine did in between.
use kuva_ai.Prelude.{
  ℕ, ◌≤◌, ◌<◌, arith, ◌≡◌, true, Option, none, some, List, [], ◌∷◌, ◌++◌, length, all,
}
use kuva_ai.Tdf.{Text, Bytes, TdfPolicy, TdfHeader, Library}
use kuva_ai.Tdf.Bytes.{codes}
use kuva_ai.Tdf.Engine.{
  CachedKey, CryptoEngine, fetch_key, generate_iv, kek_id, encrypt_data, decrypt_at, decrypt_data,
}
use kuva_ai.Tdf.Keys.{is_hex, is_plain, HasKey, fetch_key-reads, fetch_key-HasKey}

-- What the libraries document: AES-GCM opens what it sealed, with a tag of 16 bytes; lengths of random
-- bytes and of digests; an address keeps the plain last part of its path.
pub record IsSound (lib : Library) (kms : Text) : Type 0 where
  pub opens :
      (key iv plain : Bytes)
      → lib.unseal key iv (lib.seal key iv plain).1 (lib.seal key iv plain).0 ≡ some plain
  pub tag_length : (key iv plain : Bytes) → length (lib.seal key iv plain).1 ≡ 16
  pub random_length : (n size : ℕ) → length (lib.urandom n size) ≡ size
  pub digest_length : (b : Bytes) → length (lib.sha256 b) ≡ 32
  pub hex : (t : Text) → all is_hex (lib.hexdigest t) ≡ true
  pub address :
      (k : Text)
      → all is_plain k ≡ true
      → (u base : Text) × (lib.parse_url (kms ++ (codes "/keys/" ++ k)) ≡ some u)
        × (lib.url_path u ≡ some (base ++ (codes "/keys/" ++ k)))

pub data Call : Type 0 where
  encrypt_call : Bytes → TdfPolicy → Call
  decrypt_call : Bytes → TdfHeader → Call

module _ (lib : Library) where
  abbrev pub call : Call → CryptoEngine → CryptoEngine
  call (encrypt_call plain p) s = (encrypt_data lib plain p s).1
  call (decrypt_call ct h) s = (decrypt_data lib ct h s).1

  -- Calls of the engine in any order, whether they raise or not
  unfoldable pub run_calls : List Call → CryptoEngine → CryptoEngine
  run_calls [] s = s
  run_calls (c ∷ cs) s = run_calls cs (call c s)

  -- What a call leaves: no clock reading is undone, and a valid key stays.
  record Steps (s s1 : CryptoEngine) : Type 0 where
    reads : s.reads ≤ s1.reads
    stays :
        (k : Text) (c : CachedKey)
        → lib.clock s.reads < c.expiry
        → HasKey lib k c s
        → HasKey lib k c s1

  fetch-Steps : (k : Text) (s : CryptoEngine) → Steps s (fetch_key lib k s).1
  fetch-Steps j s = record {
    reads = fetch_key-reads lib j s;
    stays = λ k c v h. fetch_key-HasKey lib j k c s v h;
  }

  encrypt-Steps :
      (plain : Bytes) (p : TdfPolicy) (s : CryptoEngine) → Steps s (encrypt_data lib plain p s).1
  unfolding encrypt_data generate_iv
  encrypt-Steps plain p s = record {
    reads = fetch_key-reads lib (kek_id lib p) s;
    stays = λ k c v h. record { found = (fetch_key-HasKey lib (kek_id lib p) k c s v h).found };
  }

  decrypt_at-Steps :
      (o : Option Text) (ct : Bytes) (h : TdfHeader) (s : CryptoEngine)
      → Steps s (decrypt_at lib o ct h s).1
  decrypt_at-Steps none ct h s = record { reads = omega arith; stays = λ k c v h. h }
  decrypt_at-Steps (some path) ct h s = fetch-Steps _ s

  call-Steps : (c : Call) (s : CryptoEngine) → Steps s (call c s)
  unfolding decrypt_data
  call-Steps (encrypt_call plain p) s = encrypt-Steps plain p s
  call-Steps (decrypt_call ct h) s = decrypt_at-Steps (lib.url_path h.kek_uri) ct h s

  run_calls-reads : (cs : List Call) (s : CryptoEngine) → s.reads ≤ (run_calls cs s).reads
  unfolding run_calls
  run_calls-reads [] s = omega arith
  run_calls-reads (c ∷ cs) s = omega (arith, (call-Steps c s).reads, run_calls-reads cs (call c s))

  pub run_calls-HasKey :
      (cs : List Call) (k : Text) (c : CachedKey) (s : CryptoEngine)
      → HasKey lib k c s
      → ((n : ℕ) → n ≤ (run_calls cs s).reads → lib.clock n < c.expiry)
      → HasKey lib k c (run_calls cs s)
  unfolding run_calls
  run_calls-HasKey [] k c s h v = h
  run_calls-HasKey (d ∷ cs) k c s h v =
      let bound : s.reads ≤ (run_calls cs (call d s)).reads =
        omega (arith, (call-Steps d s).reads, run_calls-reads cs (call d s)) in
      run_calls-HasKey cs k c (call d s) ((call-Steps d s).stays k c (v s.reads bound) h) v
