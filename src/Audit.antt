-- ===== src/Audit.antt =====
-- security/audit/auditor.py: `AuditLogger` and `LocalAuditStorage`. The digest (SHA3-512), the JSON
-- encoding, the signature and the file system are outside.
pub mod Log
pub mod Tamper
mod Samples
use kuva_ai.Prelude.{
  ℕ, zero, suc, ◌+◌, String, Bool, true, false, Option, none, some, List, [], ◌∷◌, ◌++◌, leb,
  length,
}
use kuva_ai.Exec.{err, Exec, pure, continue}

pub record Subject : Type 0 where
  pub id : String
  pub type : String
  pub role : String
  pub ip : Option String
  pub geolocation : Option String

pub record Target : Type 0 where
  pub id : String
  pub type : String
  pub version : Option String
  pub integrity_hash : Option String

-- `AuditEntry`; `context` is the text of its JSON.
pub record Entry : Type 0 where
  pub timestamp : ℕ
  pub action : String
  pub severity : String
  pub subject : Subject
  pub targets : List Target
  pub context : String
  pub correlation_id : Option String
  pub session_id : Option String
  pub chain_hash : Option String

-- What is outside. `digest` is `hashlib.sha3_512(…).hexdigest()`, which is never empty, `join` writes
-- two digests one after the other, and `dumps` is `json.dumps(entry.model_dump(), …)`. `none` is its
-- `TypeError`: the `json` module alone raises it for every entry, since a timestamp is a `datetime`.
pub record Crypto : Type 1 where
  pub Text : Type 0
  pub Digest : Type 0
  pub digest : Text → Digest
  pub join : Digest → Digest → Text
  pub dumps : Entry → Option Text
  pub sign : Text → String
  pub public_key : String

pub data Error : Type 0 where
  not_serializable wal_path_unbound : Error

module _ (c : Crypto) where
  -- `full_record`: the entry, and what `log` adds; its `chain_hash` replaces the entry's.
  pub record Record : Type 0 where
    pub entry : Entry
    pub content_hash : c.Digest
    pub chain_hash : c.Digest
    pub signature : String
    pub public_key : String

  -- `LocalAuditStorage`, with the lines of its write-ahead log and of its partitions.
  pub record Storage : Type 0 where
    pub buffer : List Record
    pub wal : List Record
    pub partitions : List Record

  pub record Logger : Type 0 where
    pub chain_hash : Option c.Digest
    pub storage : Storage

  abbrev pub new_logger : Logger
  new_logger = record {
    chain_hash = none;
    storage = record { buffer = []; wal = []; partitions = [] };
  }

  abbrev pub Action : Type 0 → Type 0
  Action A = Exec Logger Error A

  unfoldable pub next_hash : Option c.Digest → c.Digest → c.Digest
  next_hash none content = content
  next_hash (some h) content = c.digest (c.join h content)

  unfoldable pub full_record : Option c.Digest → Entry → c.Text → Record
  full_record chain e text = record {
    entry = e;
    content_hash = c.digest text;
    chain_hash = next_hash chain (c.digest text);
    signature = c.sign text;
    public_key = c.public_key;
  }

  abbrev written : Storage → Storage
  written s = record s { partitions = s.partitions ++ s.buffer; buffer = [] }

  -- `_flush_buffer`: `wal_path` is a local variable of `persist`, so the rotation raises `NameError`.
  unfoldable pub flush_buffer : Action Unit
  flush_buffer l = (err wal_path_unbound, record l { storage = written l.storage })

  module _ (buffer_size : ℕ) where
    unfoldable pub flush_if_full : Action Unit
    flush_if_full l = elim (leb buffer_size (length l.storage.buffer)) [
      | true ↦ flush_buffer l
      | false ↦ pure tt l
    ]

    abbrev appended : Record → Storage → Storage
    appended r s = record s { wal = s.wal ++ r ∷ []; buffer = s.buffer ++ r ∷ [] }

    -- `LocalAuditStorage.persist`
    unfoldable pub persist : Record → Action c.Digest
    persist r l =
        continue (λ _. pure r.chain_hash)
          (flush_if_full (record l { storage = appended r l.storage }))

    unfoldable pub log_text : Entry → Option c.Text → Action c.Digest
    log_text e none l = (err not_serializable, l)
    log_text e (some text) l =
        let r = full_record l.chain_hash e text in
        persist r (record l { chain_hash = some r.chain_hash })

    -- `AuditLogger.log`
    unfoldable pub log : Entry → Action c.Digest
    log e = log_text e (c.dumps e)

    -- The caller goes on after an exception.
    unfoldable pub log_all : List Entry → Logger → Logger
    log_all [] l = l
    log_all (e ∷ es) l = log_all es (log e l).1

  unfoldable pub chain_text :
      Entry → Option c.Text → Option c.Digest → (Option c.Digest → List Record) → List Record
  chain_text e none h k = k h
  chain_text e (some text) h k = let r = full_record h e text in r ∷ k (some r.chain_hash)

  -- What the records of a sequence of entries are, chained from `h` on.
  unfoldable pub chain : List Entry → Option c.Digest → List Record
  chain [] h = []
  chain (e ∷ es) h = chain_text e (c.dumps e) h (chain es)
