-- ===== src/Tdf/Samples.antt =====
-- Runs of security/crypto/tdf.py with a toy cipher that writes the key before the text.
use kuva_ai.Prelude.{
  ℕ, zero, suc, ◌+◌, arith, ◌≡◌, refl, ap, Option, none, some, List, [], ◌∷◌, ◌++◌, length, take,
  drop, if◌then◌else◌, ◌⊎◌, ◌*◌,
}
use kuva_ai.Exec.{ok, err}
use kuva_ai.Tdf.{Text, Bytes, no_values, TdfPolicy, TdfHeader, crypto_error, Library}
use kuva_ai.Tdf.Bytes.{codes, same, same_refl, take-append, drop-append, lookup, insert}
use kuva_ai.Tdf.Engine.{
  CachedKey, CryptoEngine, new_engine, fetch_key, kek_id, generate_iv, encrypt_data, decrypt_data,
}
use kuva_ai.Tdf.Client.{OpenTdfClient, new_client}
use kuva_ai.Tdf.Keys.{HasKey}
use kuva_ai.Tdf.Runs.{IsSound, Call, decrypt_call, encrypt_call, run_calls}
use kuva_ai.Tdf.Roundtrip.{decrypt_data-encrypt_data}
use kuva_ai.Tdf.Integrity.{IsOpened, decrypt_data-outcome}

abbrev replicate : ℕ → ℕ → Bytes
replicate zero b = []
replicate (suc n) b = b ∷ replicate n b

length-replicate : (n b : ℕ) → length (replicate n b) ≡ n
length-replicate zero b = refl
length-replicate (suc n) b = ap suc (length-replicate n b)

abbrev toy_seal : Bytes → Bytes → Bytes → Bytes × Bytes
toy_seal key iv plain = (length key ∷ (key ++ plain), replicate 16 0)

abbrev toy_unseal : Bytes → Bytes → Bytes → Bytes → Option Bytes
toy_unseal key iv tag [] = none
toy_unseal key iv tag (n ∷ r) = if same (take n r) key then some (drop n r) else none

abbrev policy : TdfPolicy
policy = record {
  id = codes "policy_00000000000000000000000000";
  name = codes "PHI Protection";
  description = none;
  attributes = no_values;
  created_at = 0;
  expires_at = none;
  encryption_scheme = codes "AES-256-GCM";
  key_provider = codes "kbs";
  version = codes "2.1.0";
}

abbrev kms : Text
kms = codes "https://kms"

abbrev header : TdfHeader
header = record {
  policy = policy;
  kek_uri = codes "https://kms/keys/kek_00ff00ff00ff00ff";
  encrypted_metadata = none;
  iv = replicate 12 1;
  ciphertext_hash = replicate 32 3;
}

abbrev toy : (ℕ → ℕ) → Library
toy clock = record {
  clock = clock;
  urandom = λ n size. replicate size n;
  hexdigest = λ t. codes "00ff00ff00ff00ff00ff00ff";
  sha256 = λ b. replicate 32 (length b);
  seal = toy_seal;
  unseal = toy_unseal;
  parse_url = some;
  url_path = some;
  load_header = λ json. some header;
  encode_json = λ v. codes "{}";
  b64encode = λ t. t;
}

toy_opens :
    (key iv plain : Bytes)
    → toy_unseal key iv (toy_seal key iv plain).1 (toy_seal key iv plain).0 ≡ some plain
toy_opens key iv plain = rw (take-append key plain, same_refl key, drop-append key plain) refl

toy-IsSound : (clock : ℕ → ℕ) (kms_endpoint : Text) → IsSound (toy clock) kms_endpoint
toy-IsSound clock kms_endpoint = record {
  opens = toy_opens;
  tag_length = λ key iv plain. refl;
  random_length = λ n size. length-replicate size n;
  digest_length = λ b. refl;
  hex = λ t. refl;
  address = λ k h. (kms_endpoint ++ (codes "/keys/" ++ k), kms_endpoint, refl, refl);
}

-- A clock that stands still, and one that goes on by an hour with each reading.
abbrev still : ℕ → ℕ
still n = 1000

abbrev hourly : ℕ → ℕ
hourly n = n * 3600

abbrev plain_text : Bytes
plain_text = codes "Sensitive"

abbrev first_key : (ℕ → ℕ) → CachedKey
first_key clock = record { key = replicate 32 0; expiry = clock 0 + 3600 }

has_first :
    (clock : ℕ → ℕ)
    → HasKey
        (toy clock)
        (kek_id (toy clock) policy)
        (first_key clock)
        (encrypt_data (toy clock) plain_text policy (new_engine kms)).1
unfolding encrypt_data fetch_key lookup insert generate_iv same
has_first clock = record { found = refl }

abbrev other_calls : List Call
other_calls = encrypt_call (codes "x") policy ∷ decrypt_call (codes "y") header ∷ []

decrypt_data-encrypt_data_example :
    (ct : Bytes) × (h : TdfHeader) × ((encrypt_data
        (toy still)
        plain_text
        policy
        (new_engine kms)).0
      ≡ ok (ct, h))
    × ((decrypt_data (toy still) ct h (
          run_calls
            (toy still)
            other_calls
            (encrypt_data (toy still) plain_text policy (new_engine kms)).1)).0
        ≡ ok plain_text)
decrypt_data-encrypt_data_example =
    decrypt_data-encrypt_data (toy still) plain_text policy (new_engine kms) (toy-IsSound still kms)
      other_calls (first_key still) (has_first still) (λ n h. omega arith)

abbrev after_first : CryptoEngine
after_first = (encrypt_data (toy hourly) plain_text policy (new_engine kms)).1

decrypt_data-outcome_example :
    ((decrypt_data (toy still) (codes "short") header (new_engine kms)).0 ≡ err crypto_error)
    ⊎ ((d : Bytes) × ((decrypt_data (toy still) (codes "short") header (new_engine kms)).0 ≡ ok d)
        × IsOpened (toy still) (codes "short") header (new_engine kms) d)
decrypt_data-outcome_example =
    decrypt_data-outcome (toy still) (codes "short") header (new_engine kms)

abbrev client : OpenTdfClient
client = record (new_client kms none) { auth_token = some (codes "client_id:client_secret") }
