-- ===== src/Tdf/Client.antt =====
-- security/crypto/tdf.py: `OpenTDFClient`, with the JSON of the header and the envelope.
use kuva_ai.Prelude.{
  ℕ, Bool, true, false, ◌&&◌, Option, none, some, [], ◌∷◌, ◌++◌, length, leb, if◌then◌else◌,
}
use kuva_ai.Exec.{Result, ok, err}
use kuva_ai.Tdf.{
  Text, Bytes, Value, null, text, bytes, datetime, url, array, object, Values, no_values, value,
  Fields, no_fields, field, TdfPolicy, TdfHeader, Error, auth_error, format_error, type_error,
  name_error, Library,
}
use kuva_ai.Tdf.Bytes.{codes, same, split_once}
use kuva_ai.Tdf.Engine.{CryptoEngine, new_engine, encrypt_data, decrypt_data}

pub record OpenTdfClient : Type 0 where
  pub crypto : CryptoEngine
  pub oidc_provider : Option Text
  pub auth_token : Option Text

abbrev pub new_client : Text → Option Text → OpenTdfClient
new_client kms oidc = record { crypto = new_engine kms; oidc_provider = oidc; auth_token = none }

abbrev optional_text : Option Text → Value
optional_text none = null
optional_text (some t) = text t

abbrev optional_bytes : Option Bytes → Value
optional_bytes none = null
optional_bytes (some b) = bytes b

abbrev optional_datetime : Option ℕ → Value
optional_datetime none = null
optional_datetime (some t) = datetime t

-- `model_dump`: a dictionary of the fields in order
unfoldable pub dump_policy : TdfPolicy → Value
dump_policy p = object (
    field (codes "id") (text p.id) (
      field (codes "name") (text p.name) (
        field (codes "description") (optional_text p.description) (
          field (codes "attributes") (array p.attributes) (
            field (codes "created_at") (datetime p.created_at) (
              field (codes "expires_at") (optional_datetime p.expires_at) (
                field (codes "encryption_scheme") (text p.encryption_scheme) (
                  field (codes "key_provider") (text p.key_provider)
                    (field (codes "version") (text p.version) no_fields)))))))))

unfoldable pub model_dump : TdfHeader → Value
model_dump h = object (
    field (codes "policy") (dump_policy h.policy) (
      field (codes "kek_uri") (url h.kek_uri) (
        field (codes "encrypted_metadata") (optional_bytes h.encrypted_metadata) (
          field (codes "iv") (bytes h.iv)
            (field (codes "ciphertext_hash") (bytes h.ciphertext_hash) no_fields)))))

-- What `json.dumps` encodes: no bytes, no datetime, no object of a library.
unfoldable mutual
  pub is_json : Value → Bool
  is_json null = true
  is_json (text t) = true
  is_json (bytes b) = false
  is_json (datetime t) = false
  is_json (url u) = false
  is_json (array vs) = are_json vs
  is_json (object fs) = fields_json fs

  pub are_json : Values → Bool
  are_json no_values = true
  are_json (value v vs) = is_json v && are_json vs

  pub fields_json : Fields → Bool
  fields_json no_fields = true
  fields_json (field k v fs) = is_json v && fields_json fs

abbrev pub version_mark : Bytes
version_mark = codes "TDF1.0"

abbrev pub separator : Bytes
separator = codes "::"

-- `not self._auth_token`
abbrev pub has_token : Option Text → Bool
has_token none = false
has_token (some []) = false
has_token (some (c ∷ t)) = true

module _ (lib : Library) where
  unfoldable pub authenticate : Text → Text → OpenTdfClient → OpenTdfClient
  authenticate client_id client_secret c = record c {
    auth_token = some (lib.b64encode (client_id ++ (codes ":" ++ client_secret)));
  }

  -- `create_policy` of a configuration whose fields have the types of the model: a `ValidationError`
  -- meets an `except` clause that names a class which the module never imports.
  unfoldable pub create_policy : TdfPolicy → Result Error TdfPolicy
  create_policy p = if leb 32 (length p.id) then ok p else err name_error

  unfoldable pub dumps : Value → Result Error Bytes
  dumps v = if is_json v then ok (lib.encode_json v) else err type_error

  abbrev pub enclose : Bytes → Result Error Bytes → Result Error Bytes
  enclose ciphertext (ok json) = ok (version_mark ++ (json ++ (separator ++ ciphertext)))
  enclose ciphertext (err e) = err e

  abbrev pub pack : Result Error (Bytes × TdfHeader) → Result Error Bytes
  pack (ok (ciphertext, h)) = enclose ciphertext (dumps (model_dump h))
  pack (err e) = err e

  abbrev pub packed :
      OpenTdfClient
      → Result Error (Bytes × TdfHeader) × CryptoEngine
      → Result Error Bytes × OpenTdfClient
  packed c (r, s) = (pack r, record c { crypto = s })

  unfoldable pub encrypt : Bytes → TdfPolicy → OpenTdfClient → Result Error Bytes × OpenTdfClient
  encrypt plain p c =
      if has_token c.auth_token
      then packed c (encrypt_data lib plain p c.crypto)
      else (err auth_error, c)

  abbrev pub with_engine :
      OpenTdfClient → Result Error Bytes × CryptoEngine → Result Error Bytes × OpenTdfClient
  with_engine c (r, s) = (r, record c { crypto = s })

  abbrev pub decrypt_loaded :
      Bytes → Option TdfHeader → OpenTdfClient → Result Error Bytes × OpenTdfClient
  decrypt_loaded ciphertext none c = (err format_error, c)
  decrypt_loaded ciphertext (some h) c = with_engine c (decrypt_data lib ciphertext h c.crypto)

  abbrev pub decrypt_rest :
      Option (Bytes × Bytes) → OpenTdfClient → Result Error Bytes × OpenTdfClient
  decrypt_rest none c = (err format_error, c)
  decrypt_rest (some (json, ciphertext)) c = decrypt_loaded ciphertext (lib.load_header json) c

  -- A missing separator is a `ValueError`, and becomes a `TDFFormatError` as the wrong version is.
  abbrev pub decrypt_parts :
      Option (Bytes × Bytes) → OpenTdfClient → Result Error Bytes × OpenTdfClient
  decrypt_parts none c = (err format_error, c)
  decrypt_parts (some (version, remainder)) c =
      if same version version_mark
      then decrypt_rest (split_once remainder) c
      else (err format_error, c)

  unfoldable pub decrypt : Bytes → OpenTdfClient → Result Error Bytes × OpenTdfClient
  decrypt tdf_data c =
      if has_token c.auth_token then decrypt_parts (split_once tdf_data) c else (err auth_error, c)
