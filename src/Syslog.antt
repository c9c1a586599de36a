-- ===== src/Syslog.antt =====
-- security/audit/syslog_handler.py: `SyslogHandler`. A formatted message is of any type; which calls of the socket
-- work is outside. The worker thread and the callers of `emit` share the queue: a run is a sequence of their
-- steps. What the worker does with one message is one step, since `emit` touches the queue and its
-- count of drops only.
pub mod Priority
pub mod Process
pub mod Accounts
pub mod Runs
pub mod Silence
mod Samples
use kuva_ai.Prelude.{
  ℕ, zero, suc, ◌+◌, ◌*◌, Bool, true, false, List, [], ◌∷◌, ◌++◌, ltb, eqb, length, if◌then◌else◌,
}
use kuva_ai.Exec.{Exec, Result, ok, err, pure, raise, gets, modify, continue, ◌>>=◌, ◌>>◌}

-- `lock_never_released`: `_handle_error` waits for `_connect_lock`, which `_connect` holds.
pub data Failure : Type 0 where
  call_failed lock_never_released : Failure

-- The worker thread is about to test the flag, is in `queue.get`, waits for a lock for ever, has ended with a
-- NameError, or has returned.
pub data WorkerState : Type 0 where
  testing getting hanging dead returned : WorkerState

module _ (M : Type 0) where
  -- The queue, the statistics, the socket, and what the socket has taken.
  pub record SyslogHandler : Type 0 where
    pub queue : List M
    pub sent : ℕ
    pub failed : ℕ
    pub queue_drops : ℕ
    pub is_connected : Bool
    pub shutdown_flag : Bool
    pub worker : WorkerState
    pub wire : List M
    pub calls : ℕ

  abbrev pub new_handler : SyslogHandler
  new_handler = record {
    queue = [];
    sent = 0;
    failed = 0;
    queue_drops = 0;
    is_connected = false;
    shutdown_flag = false;
    worker = testing;
    wire = [];
    calls = 0;
  }

  abbrev pub Action : Type 0 → Type 0
  Action A = Exec SyslogHandler Failure A

  abbrev pub disconnect : Action Unit
  disconnect = modify (λ s. record s { is_connected = false })

  -- `_handle_error`, less its logging
  abbrev pub handle_error : Action Unit
  handle_error = disconnect

  -- A step of a caller (`emitted`, `closed`, `join`) or of the worker
  pub data Step : Type 0 where
    emitted : M → Step
    closed join tested got timed_out : Step

  module _ (works : ℕ → Bool) (retries queue_size : ℕ) where
    -- The next call of the socket
    abbrev pub ask : Action Bool
    ask s = (ok (works s.calls), record s { calls = suc s.calls })

    -- `sock.connect`, and the handler of its exceptions
    abbrev pub connected_if : Bool → Action Unit
    connected_if true = modify (λ s. record s { is_connected = true })
    connected_if false = raise lock_never_released

    abbrev pub connect_if : (is_connected : Bool) → Action Unit
    connect_if true = pure tt
    connect_if false = ask >>= connected_if

    unfoldable pub connect : Action Unit
    connect = do is_connected ← gets (λ s. s.is_connected); connect_if is_connected

    abbrev pub sent_if : M → Bool → Action Unit
    sent_if m true = modify (λ s. record s { wire = s.wire ++ m ∷ []; sent = suc s.sent })
    sent_if m false = raise call_failed

    -- The `try` of an attempt
    unfoldable pub send : M → Action Unit
    send m = do connect; w ← ask; sent_if m w

    -- The handler of an attempt, and the rest of the loop
    abbrev pub give_up_or_wait : (is_last : Bool) → Action Unit
    give_up_or_wait true = do modify (λ s. record s { failed = suc s.failed }); handle_error
    give_up_or_wait false = disconnect

    abbrev pub retry_or :
        ℕ → Action Unit → Result Failure Unit × SyslogHandler → Result Failure Unit × SyslogHandler
    retry_or attempt rest (ok u, s) = (ok tt, s)
    retry_or attempt rest (err call_failed, s) = (give_up_or_wait (eqb attempt retries) >> rest) s
    retry_or attempt rest (err lock_never_released, s) = (err lock_never_released, s)

    -- The loop over the attempts, of which there are `left`
    unfoldable pub send_loop : M → (left attempt : ℕ) → Action Unit
    send_loop m zero attempt s = (ok tt, s)
    send_loop m (suc left) attempt s = retry_or attempt (send_loop m left (suc attempt)) (send m s)

    abbrev pub after_message : Result Failure Unit × SyslogHandler → SyslogHandler
    after_message (ok u, s) = record s { worker = testing }
    after_message (err e, s) = record s { worker = hanging }

    unfoldable pub process : M → SyslogHandler → SyslogHandler
    process m s = after_message (send_loop m (suc retries) 0 s)

    -- `while not self._shutdown_flag`
    abbrev pub test_flag : WorkerState → SyslogHandler → SyslogHandler
    test_flag testing s = record s { worker = if s.shutdown_flag then returned else getting }
    test_flag w s = s

    -- `queue.get` returns, where there is a message.
    abbrev pub get_from : WorkerState → List M → SyslogHandler → SyslogHandler
    get_from getting (m ∷ q) s = process m (record s { queue = q })
    get_from w q s = s

    -- `queue.get` has waited for a second; its exception meets `except Empty`, a name that is not there.
    abbrev pub time_out : WorkerState → List M → SyslogHandler → SyslogHandler
    time_out getting [] s = record s { worker = dead }
    time_out w q s = s

    unfoldable pub emit : M → SyslogHandler → SyslogHandler
    emit m s =
        if ltb (length s.queue) queue_size
        then record s { queue = s.queue ++ m ∷ [] }
        else record s { queue_drops = suc s.queue_drops }

    -- The end of `close`, once the thread has ended; until then `join` waits.
    abbrev pub joined : WorkerState → SyslogHandler → SyslogHandler
    joined dead s = record s { is_connected = false }
    joined returned s = record s { is_connected = false }
    joined w s = s

    unfoldable pub step : Step → SyslogHandler → SyslogHandler
    step (emitted m) s = emit m s
    step closed s = record s { shutdown_flag = true }
    step join s = joined s.worker s
    step tested s = test_flag s.worker s
    step got s = get_from s.worker s.queue s
    step timed_out s = time_out s.worker s.queue s

    unfoldable pub run : List Step → SyslogHandler → SyslogHandler
    run [] s = s
    run (e ∷ es) s = run es (step e s)
