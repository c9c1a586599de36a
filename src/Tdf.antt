-- ===== src/Tdf.antt =====
-- security/crypto/tdf.py: the data that `CryptoEngine` and `OpenTDFClient` work on, and the libraries
-- they call. A text is the list of its code points, a byte string the list of its bytes.
pub mod Bytes
pub mod Engine
pub mod Client
pub mod Keys
pub mod Runs
pub mod Roundtrip
pub mod Integrity
pub mod Envelope
mod Samples
use kuva_ai.Prelude.{ℕ, Bool, Option, List}

abbrev pub Text : Type 0
Text = List ℕ

abbrev pub Bytes : Type 0
Bytes = List ℕ

-- Python's values, as far as `model_dump` builds them.
mutual
  pub data Value : Type 0 where
    null : Value
    text : Text → Value
    bytes : Bytes → Value
    datetime : ℕ → Value
    url : Text → Value
    array : Values → Value
    object : Fields → Value

  pub data Values : Type 0 where
    no_values : Values
    value : Value → Values → Values

  pub data Fields : Type 0 where
    no_fields : Fields
    field : Text → Value → Fields → Fields

pub record TdfPolicy : Type 0 where
  pub id : Text
  pub name : Text
  pub description : Option Text
  pub attributes : Values
  pub created_at : ℕ
  pub expires_at : Option ℕ
  pub encryption_scheme : Text
  pub key_provider : Text
  pub version : Text

pub record TdfHeader : Type 0 where
  pub policy : TdfPolicy
  pub kek_uri : Text
  pub encrypted_metadata : Option Bytes
  pub iv : Bytes
  pub ciphertext_hash : Bytes

-- The error classes of the module, and the built-in ones that its code raises.
pub data Error : Type 0 where
  crypto_error policy_error auth_error integrity_error format_error : Error
  value_error type_error name_error : Error

-- What the code calls: `datetime.utcnow` and `os.urandom` by the number of the call, AES-GCM (`unseal`
-- is none where it raises), pydantic's `Url`, `Url.path` and `model_validate_json` (none where they
-- raise or give None), `json.dumps` of what it can encode.
pub record Library : Type 0 where
  pub clock : ℕ → ℕ
  pub urandom : ℕ → ℕ → Bytes
  pub hexdigest : Text → Text
  pub sha256 : Bytes → Bytes
  pub seal : Bytes → Bytes → Bytes → Bytes × Bytes
  pub unseal : Bytes → Bytes → Bytes → Bytes → Option Bytes
  pub parse_url : Text → Option Text
  pub url_path : Text → Option Text
  pub load_header : Bytes → Option TdfHeader
  pub encode_json : Value → Bytes
  pub b64encode : Text → Text
