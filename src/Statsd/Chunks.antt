-- ===== src/Statsd/Chunks.antt =====
-- observability/metrics/statsd.py: the chunks that `_flush` sends.
use kuva_ai.Prelude.{
  ℕ, ◌+◌, arith, Bool, true, ◌||◌, List, [], ◌∷◌, ◌++◌, ltb, leb, eqb, length, all, append_assoc,
  ◌≡◌, refl, sym, ap, ◌∙◌, Bool-cases, inl, inr,
}
use kuva_ai.Statsd.{StatsdConfig, chunks_of}

zero-add : (n : ℕ) → 0 + n ≡ n
zero-add n = omega arith

module _ (M : Type 0) (size : M → ℕ) (cfg : StatsdConfig) where
  abbrev pub concat : List (List M) → List M
  concat [] = []
  concat (c ∷ cs) = c ++ concat cs

  -- The length of "\n".join(chunk), encoded.
  abbrev pub joined : List M → ℕ
  joined [] = 0
  joined (m ∷ []) = size m
  joined (m ∷ n ∷ ms) = size m + (1 + joined (n ∷ ms))

  -- The chunk fits into a datagram, or is a single metric.
  abbrev pub fits : List M → Bool
  fits c = leb (joined c) cfg.mtu || eqb (length c) 1

  joined-snoc :
      (c : M) (cs : List M) (m : M) → joined ((c ∷ cs) ++ m ∷ []) ≡ joined (c ∷ cs) + 1 + size m
  joined-snoc c [] m = omega arith
  joined-snoc c (d ∷ cs) m = omega (arith, joined-snoc d cs m)

  concat-chunks_of :
      (current : List M) (total : ℕ) (ms : List M)
      → concat (chunks_of M size cfg current total ms) ≡ current ++ ms
  unfolding chunks_of
  concat-chunks_of [] total [] = refl
  concat-chunks_of (c ∷ cs) total [] = refl
  concat-chunks_of [] total (m ∷ ms) = elim (Bool-cases (ltb cfg.mtu (total + size m))) [
    | inl e ↦ rw (e, chunks_of) (concat-chunks_of (m ∷ []) (size m + 1) ms)
    | inr e ↦ rw (e, chunks_of) (concat-chunks_of (m ∷ []) (total + size m + 1) ms)
  ]
  concat-chunks_of (c ∷ cs) total (m ∷ ms) = elim (Bool-cases (ltb cfg.mtu (total + size m))) [
    | inl e ↦
        rw (e, chunks_of) (ap (λ r. (c ∷ cs) ++ r) (concat-chunks_of (m ∷ []) (size m + 1) ms))
    | inr e ↦
        rw (e, chunks_of)
          (concat-chunks_of ((c ∷ cs) ++ m ∷ []) (total + size m + 1) ms
            ∙ append_assoc (c ∷ cs) (m ∷ []) ms)
  ]

  all-chunks_of :
      (c : M) (cs : List M) (ms : List M)
      → fits (c ∷ cs) ≡ true
      → all fits (chunks_of M size cfg (c ∷ cs) (joined (c ∷ cs) + 1) ms) ≡ true
  unfolding chunks_of
  all-chunks_of c cs [] h = ground arith
  all-chunks_of c cs (m ∷ ms) h = elim (Bool-cases (ltb cfg.mtu (joined (c ∷ cs) + 1 + size m))) [
    | inl e ↦ rw (e, chunks_of) (ground (arith, h, all-chunks_of m [] ms (ground arith)))
    | inr e ↦
        rw (e, chunks_of)
          (ap (λ t. all fits (chunks_of M size cfg ((c ∷ cs) ++ m ∷ []) (t + 1) ms))
              (sym (joined-snoc c cs m))
            ∙ all-chunks_of c (cs ++ m ∷ []) ms (ground (arith, joined-snoc c cs m)))
  ]

  -- The chunks hold every metric once, in order, and each chunk fits into a datagram or is a single
  -- metric.
  pub chunks_of-fits :
      (ms : List M)
      → (concat (chunks_of M size cfg [] 0 ms) ≡ ms)
        × (all fits (chunks_of M size cfg [] 0 ms) ≡ true)
  unfolding chunks_of
  chunks_of-fits [] = (refl, refl)
  chunks_of-fits (m ∷ ms) = (
    concat-chunks_of [] 0 (m ∷ ms),
    elim (Bool-cases (ltb cfg.mtu (0 + size m))) [
      | inl e ↦ rw (e, chunks_of) (ground (arith, all-chunks_of m [] ms (ground arith)))
      | inr e ↦
          rw (e, chunks_of)
            (ap (λ t. all fits (chunks_of M size cfg (m ∷ []) (t + 1) ms)) (zero-add (size m))
              ∙ all-chunks_of m [] ms (ground arith))
    ],
  )

  chunks_of-some :
      (c : M) (cs : List M) (total : ℕ) (ms : List M)
      → (k : List M) × (ks : List (List M)) × (chunks_of M size cfg (c ∷ cs) total ms ≡ k ∷ ks)
  unfolding chunks_of
  chunks_of-some c cs total [] = (c ∷ cs, [], refl)
  chunks_of-some c cs total (m ∷ ms) = elim (Bool-cases (ltb cfg.mtu (total + size m))) [
    | inl e ↦ (c ∷ cs, chunks_of M size cfg (m ∷ []) (size m + 1) ms, rw (e, chunks_of) refl)
    | inr e ↦
        let (k, ks, f) = chunks_of-some c (cs ++ m ∷ []) (total + size m + 1) ms in
        (k, ks, rw (e, chunks_of) f)
  ]

  -- A buffer that is not empty gives a chunk.
  pub chunks_of-nonempty :
      (m : M) (ms : List M)
      → (k : List M) × (ks : List (List M)) × (chunks_of M size cfg [] 0 (m ∷ ms) ≡ k ∷ ks)
  unfolding chunks_of
  chunks_of-nonempty m ms = elim (Bool-cases (ltb cfg.mtu (0 + size m))) [
    | inl e ↦ ([], chunks_of M size cfg (m ∷ []) (size m + 1) ms, rw (e, chunks_of) refl)
    | inr e ↦
        let (k, ks, f) = chunks_of-some m [] (0 + size m + 1) ms in (k, ks, rw (e, chunks_of) f)
  ]
