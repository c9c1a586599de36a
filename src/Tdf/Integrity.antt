-- ===== src/Tdf/Integrity.antt =====
-- security/crypto/tdf.py: what `decrypt_data` has checked when it returns, and how it fails.
use kuva_ai.Prelude.{◌≡◌, refl, some, [], ◌⊎◌, inl, inr, Bool-cases, Option-cases}
use kuva_ai.Exec.{ok, err}
use kuva_ai.Tdf.{Text, Bytes, TdfHeader, crypto_error, Library}
use kuva_ai.Tdf.Bytes.{same, same→≡, last_bytes, but_last, last_part}
use kuva_ai.Tdf.Engine.{CryptoEngine, fetch_key, open_with, as_crypto_error, decrypt_data}

module _ (lib : Library) where
  -- The digest matches the header, and the key of the header's address opens the ciphertext.
  pub record IsOpened (ct : Bytes) (h : TdfHeader) (s : CryptoEngine) (d : Bytes) : Type 0 where
    pub path : Text
    pub has_path : lib.url_path h.kek_uri ≡ some path
    pub digest : lib.sha256 (but_last 16 ct) ≡ h.ciphertext_hash
    pub opened :
        lib.unseal
          (fetch_key lib (last_part b'/' [] path) s).0
          h.iv
          (last_bytes 16 ct)
          (but_last 16 ct)
        ≡ some d

  open_with-cases :
      (kek tag ct : Bytes) (h : TdfHeader)
      → (as_crypto_error lib (open_with lib kek tag ct h) ≡ err crypto_error)
        ⊎ ((d : Bytes) × (as_crypto_error lib (open_with lib kek tag ct h) ≡ ok d)
            × (lib.sha256 ct ≡ h.ciphertext_hash)
            × (lib.unseal kek h.iv tag ct ≡ some d))
  open_with-cases kek tag ct h = elim (Bool-cases (same (lib.sha256 ct) h.ciphertext_hash)) [
    | inr e ↦ inl (rw e refl)
    | inl e ↦ elim (Option-cases (lib.unseal kek h.iv tag ct)) [
      | inl n ↦ inl (rw (e, n) refl)
      | inr (d, o) ↦ inr (d, rw (e, o) refl, same→≡ _ _ e, o)
    ]
  ]

  -- `decrypt_data` raises a `TDFCryptoError` and nothing else, also where the digest does not match;
  -- if it returns, the digest matches and the cached key opens the ciphertext to the result.
  pub decrypt_data-outcome :
      (ct : Bytes) (h : TdfHeader) (s : CryptoEngine)
      → ((decrypt_data lib ct h s).0 ≡ err crypto_error)
        ⊎ ((d : Bytes) × ((decrypt_data lib ct h s).0 ≡ ok d) × IsOpened ct h s d)
  unfolding decrypt_data
  decrypt_data-outcome ct h s = elim (Option-cases (lib.url_path h.kek_uri)) [
    | inl e ↦ inl (rw e refl)
    | inr (path, e) ↦
        elim (open_with-cases (fetch_key lib (last_part b'/' [] path) s).0 (last_bytes 16 ct)
          (but_last 16 ct) h) [
            | inl f ↦ inl (rw e f)
            | inr (d, r, digest, opened) ↦
                inr (
                  d,
                  rw e r,
                  record { path = path; has_path = e; digest = digest; opened = opened },
                )
          ]
  ]
