-- ===== src/Audit/Log.antt =====
-- security/audit/auditor.py: the records that a sequence of calls of `log` leaves in the files.
use kuva_ai.Prelude.{
  ℕ, ◌<◌, arith, Option, none, some, List, [], ◌∷◌, ◌++◌, leb, length, append_assoc, append-nil,
  ◌≡◌, refl, sym, ap, ◌∙◌, Bool-cases, inl, inr,
}
use kuva_ai.Audit.{
  Entry, Crypto, Record, Logger, new_logger, full_record, flush_buffer, flush_if_full, persist,
  log_text, log, log_all, chain_text, chain,
}

module _ (c : Crypto) (n : ℕ) where
  -- The partitions and the buffer hold what the write-ahead log holds, and the buffer has room.
  pub record IsSound (l : Logger c) : Type 0 where
    pub complete : l.storage.partitions ++ l.storage.buffer ≡ l.storage.wal
    pub room : length l.storage.buffer < n

  record Logged (r : Record c) (l l' : Logger c) : Type 0 where
    hash : l'.chain_hash ≡ l.chain_hash
    wal : l'.storage.wal ≡ l.storage.wal ++ r ∷ []
    sound : 0 < n → IsSound l → IsSound l'

  persist-Logged : (r : Record c) (l : Logger c) → Logged r l (persist c n r l).1
  unfolding persist flush_if_full flush_buffer
  persist-Logged r l = elim (Bool-cases (leb n (length (l.storage.buffer ++ r ∷ [])))) [
    | inl e ↦
        rw (e, persist, flush_if_full)
          (record {
            hash = refl;
            wal = refl;
            sound = λ p s. record {
              complete =
                  append-nil _
                  ∙ sym (append_assoc l.storage.partitions l.storage.buffer (r ∷ []))
                  ∙ ap (λ x. x ++ r ∷ []) s.complete;
              room = p;
            };
          })
    | inr e ↦
        rw (e, persist, flush_if_full)
          (record {
            hash = refl;
            wal = refl;
            sound = λ p s. record {
              complete =
                  sym (append_assoc l.storage.partitions l.storage.buffer (r ∷ []))
                  ∙ ap (λ x. x ++ r ∷ []) s.complete;
              room = ground arith;
            };
          })
  ]

  -- After `log` has been called for each of `es`, the write-ahead log has grown by their chain.
  record Extended (es : List Entry) (l l' : Logger c) : Type 0 where
    wal : l'.storage.wal ≡ l.storage.wal ++ chain c es l.chain_hash
    sound : 0 < n → IsSound l → IsSound l'

  step-Extended :
      (es : List Entry)
      → ((l : Logger c) → Extended es l (log_all c n es l))
      → (e : Entry) (o : Option c.Text) (l : Logger c)
      → (((log_all c n es (log_text c n e o l).1).storage.wal
            ≡ l.storage.wal ++ chain_text c e o l.chain_hash (chain c es))
          × (0 < n → IsSound l → IsSound (log_all c n es (log_text c n e o l).1)))
  unfolding log_text chain_text
  step-Extended es h e none l = ((h l).wal, (h l).sound)
  step-Extended es h e (some t) l =
      let r = full_record c l.chain_hash e t in
      let m : Logger c = record l { chain_hash = some r.chain_hash } in
      let m' = (persist c n r m).1 in
      let k = persist-Logged r m in
      let x = h m' in
      (
        x.wal
            ∙ ap (λ w. w ++ chain c es m'.chain_hash) k.wal
            ∙ ap (λ q. (l.storage.wal ++ r ∷ []) ++ chain c es q) k.hash
            ∙ append_assoc l.storage.wal (r ∷ []) (chain c es (some r.chain_hash)),
        λ p s. x.sound p (k.sound p (record { complete = s.complete; room = s.room })),
      )

  log_all-Extended : (es : List Entry) (l : Logger c) → Extended es l (log_all c n es l)
  unfolding log_all chain log
  log_all-Extended [] l = record { wal = sym (append-nil l.storage.wal); sound = λ p s. s }
  log_all-Extended (e ∷ es) l =
      let x = step-Extended es (log_all-Extended es) e (c.dumps e) l in
      record { wal = x.0; sound = x.1 }

  -- After any sequence of calls of `log` on a new logger, whether they return or raise, the
  -- write-ahead log is the chain of the entries that can be serialized.
  pub log_all-wal :
      (es : List Entry) → (log_all c n es (new_logger c)).storage.wal ≡ chain c es none
  log_all-wal es = (log_all-Extended es (new_logger c)).wal

  -- With a positive `buffer_size`, after any sequence of calls of `log` on a new logger, the
  -- partitions followed by the buffer are the write-ahead log, and the buffer has room.
  pub log_all-IsSound : 0 < n → (es : List Entry) → IsSound (log_all c n es (new_logger c))
  log_all-IsSound p es =
      (log_all-Extended es (new_logger c)).sound p (record { complete = refl; room = p })
