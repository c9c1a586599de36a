-- ===== src/Tdf/Envelope.antt =====
-- security/crypto/tdf.py: the envelope that `encrypt` writes and the one that `decrypt` reads.
use kuva_ai.Prelude.{
  ℕ, ◌≡◌, ◌≢◌, refl, Bool, true, false, ◌&&◌, Option, none, some, [], ◌∷◌, ◌++◌, inl, inr, eqb,
  Bool-cases, Option-cases, ◌⊎◌,
}
use kuva_ai.Exec.{Result, ok, err}
use kuva_ai.Tdf.{Bytes, TdfPolicy, TdfHeader, Error, type_error, format_error, Library}
use kuva_ai.Tdf.Bytes.{same, split_once, first_part}
use kuva_ai.Tdf.Engine.{encrypt_data, decrypt_data}
use kuva_ai.Tdf.Client.{
  OpenTdfClient, model_dump, is_json, dumps, has_token, pack, encrypt, decrypt, version_mark,
  separator,
}

and_false : (b : Bool) → (b && false) ≡ false
and_false true = refl
and_false false = refl

-- A header always holds an address, which `json.dumps` refuses.
header_not_json : (h : TdfHeader) → is_json (model_dump h) ≡ false
unfolding is_json model_dump
header_not_json h = and_false _

-- Where the code puts no separator after the version, none stands at the version's end.
version_differs :
    (a : ℕ) (r : Bytes)
    → eqb a b':' ≡ false
    → (split_once (version_mark ++ a ∷ r) ≡ none)
      ⊎ ((p q : Bytes) × (split_once (version_mark ++ a ∷ r) ≡ some (p, q))
          × (same p version_mark ≡ false))
unfolding split_once same
version_differs a [] h = inl refl
version_differs a (b ∷ r) h = elim (Option-cases (split_once (b ∷ r))) [
  | inl e ↦ inl (rw (h, e) refl)
  | inr ((p, q), e) ↦ inr (version_mark ++ a ∷ p, q, rw (h, e) refl, refl)
]

first_part-none : (o : Option (Bytes × Bytes)) (a : ℕ) → first_part o a ≡ none → o ≡ none
first_part-none none a h = refl
first_part-none (some (p, q)) a h = cc

-- Where a JSON text has no separator, also none with a colon after it, the first one is the one that
-- was put after it.
split_once-append :
    (json r : Bytes)
    → split_once (json ++ b':' ∷ []) ≡ none
    → split_once (json ++ (separator ++ r)) ≡ some (json, r)
unfolding split_once
split_once-append [] r h = refl
split_once-append (a ∷ []) r h = elim (Bool-cases (eqb a b':')) [
  | inl e ↦ let h2 : ◌≡◌ {A = Option (Bytes × Bytes)} (some ([], [])) none = rw e at h in cc
  | inr e ↦ rw e refl
]
split_once-append (a ∷ b ∷ json) r h = elim (Bool-cases (eqb a b':' && eqb b b':')) [
  | inl e ↦
      let h2 : ◌≡◌ {A = Option (Bytes × Bytes)} (some ([], json ++ b':' ∷ [])) none = rw e at h in
      cc
  | inr e ↦
      let h2 : first_part (split_once (b ∷ (json ++ b':' ∷ []))) a ≡ none = rw e at h in
      rw (e, split_once-append (b ∷ json) r (first_part-none _ a h2)) refl
]

module _ (lib : Library) where
  pack-raises : (r : Result Error (Bytes × TdfHeader)) (b : Bytes) → pack lib r ≢ ok b
  unfolding dumps
  pack-raises (ok (ct, h)) b e = let e2 : err type_error ≡ ok b = rw (header_not_json h) at e in cc
  pack-raises (err x) b e = cc

  -- `encrypt` never returns, whatever the client, the policy and the data are.
  pub encrypt-raises :
      (plain : Bytes) (p : TdfPolicy) (c : OpenTdfClient) (b : Bytes)
      → (encrypt lib plain p c).0 ≢ ok b
  unfolding encrypt
  encrypt-raises plain p c b = elim (Bool-cases (has_token c.auth_token)) [
    | inl e ↦ rw e (pack-raises (encrypt_data lib plain p c.crypto).0 b)
    | inr e ↦ rw e (λ h. cc)
  ]

  -- An envelope in the format that `encrypt` is written to make, with the JSON of any object right
  -- after the version, is refused: the text before the first separator is not the version.
  pub decrypt-refuses :
      (json ct : Bytes) (c : OpenTdfClient)
      → has_token c.auth_token ≡ true
      → decrypt lib (version_mark ++ b'{' ∷ (json ++ (separator ++ ct))) c ≡ (err format_error, c)
  unfolding decrypt
  decrypt-refuses json ct c t = elim (version_differs b'{' (json ++ (separator ++ ct)) refl) [
    | inl e ↦ rw (t, e) refl
    | inr (p, q, e, d) ↦ rw (t, e, d) refl
  ]

  -- With a separator after the version, and none in a JSON text that is a header's, `decrypt` is
  -- `decrypt_data` on that header and what follows.
  pub decrypt-reads :
      (json ct : Bytes) (h : TdfHeader) (c : OpenTdfClient)
      → has_token c.auth_token ≡ true
      → split_once (json ++ b':' ∷ []) ≡ none
      → lib.load_header json ≡ some h
      → decrypt lib (version_mark ++ (separator ++ (json ++ (separator ++ ct)))) c ≡ (
        (decrypt_data lib ct h c.crypto).0,
        record c { crypto = (decrypt_data lib ct h c.crypto).1 },
      )
  unfolding decrypt split_once same
  decrypt-reads json ct h c t free load = rw (t, split_once-append json ct free, load) refl
