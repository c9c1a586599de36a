-- ===== src/Audit/Samples.antt =====
-- Runs of security/audit/auditor.py with texts as trees, so that no digest collides.
use kuva_ai.Prelude.{
  arith, String, Bool, true, false, Option, none, some, List, [], ◌∷◌, ◌==◌, if◌then◌else◌, length,
  ◌≡◌, ◌≢◌, refl,
}
use kuva_ai.Audit.{
  Entry, Crypto, new_logger, log_all, next_hash, full_record, flush_buffer, flush_if_full, persist,
  log_text, log,
}
use kuva_ai.Audit.Log.{IsSound, log_all-IsSound}
use kuva_ai.Audit.Tamper.{IsSecure, texts, log_all-injective}

data Tree : Type 0 where
  leaf : String → Tree
  node : Tree → Tree → Tree

-- An entry without an action cannot be serialized.
abbrev dump : Entry → Option Tree
dump e = if e.action == "" then none else some (leaf e.action)

abbrev trees : Crypto
trees = record {
  Text = Tree;
  Digest = Tree;
  digest = λ t. t;
  join = node;
  dumps = dump;
  sign = λ t. "signature";
  public_key = "key";
}

unequal :
    (b : Bool) (s : String) (x y : Tree) → (if b then none else some (leaf s)) ≢ some (node x y)
unequal true s x y h = cc
unequal false s x y h = cc

trees-IsSecure : IsSecure trees
trees-IsSecure = record {
  no_collision = λ x y h. h;
  joined = λ a b x y h. (cc, cc);
  distinct = λ e a b h. unequal (e.action == "") e.action a b h;
}

abbrev entry : String → Entry
entry a = record {
  timestamp = 0;
  action = a;
  severity = "INFO";
  subject = record { id = "admin"; type = "user"; role = "admin"; ip = none; geolocation = none };
  targets = [];
  context = "{}";
  correlation_id = none;
  session_id = none;
  chain_hash = none;
}

abbrev day : List Entry
day = entry "login" ∷ entry "" ∷ entry "update" ∷ entry "logout" ∷ []

-- With a buffer of two records, the third is left in the buffer.
kept : length (log_all trees 2 day (new_logger trees)).storage.buffer ≡ 1
unfolding log_all next_hash full_record flush_buffer flush_if_full persist log_text log
kept = refl

log_all-IsSound_example : IsSound trees 2 (log_all trees 2 day (new_logger trees))
log_all-IsSound_example = log_all-IsSound trees 2 (omega arith) day

log_all-injective_example :
    texts trees day [] ≡ texts trees (entry "login" ∷ entry "update" ∷ entry "logout" ∷ []) []
unfolding log_all next_hash full_record flush_buffer flush_if_full persist log_text log
log_all-injective_example =
    log_all-injective trees trees-IsSecure 2 5 day
      (entry "login" ∷ entry "update" ∷ entry "logout" ∷ []) refl
