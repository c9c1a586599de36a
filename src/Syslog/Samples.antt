-- ===== src/Syslog/Samples.antt =====
-- Runs of the handler in security/audit/syslog_handler.py, with one retry and room for two messages.
use kuva_ai.Prelude.{ℕ, ◌/◌, ◌%◌, ◌≤◌, ◌≡◌, refl, String, Bool, false, List, [], ◌∷◌, eqb, not}
use kuva_ai.Syslog.{
  SyslogHandler, new_handler, connect, send, send_loop, process, emit, Step, emitted, tested, got,
  timed_out, step, run, getting,
}
use kuva_ai.Syslog.Accounts.{IsAccounted}
use kuva_ai.Syslog.Runs.{run-IsAccounted}
use kuva_ai.Syslog.Silence.{run-silent, run-blocked}
use kuva_ai.Syslog.Priority.{local0, critical, pri, facility_value, severity_value, pri-decodes}

-- The second call of the socket breaks.
abbrev works : ℕ → Bool
works n = not (eqb n 1)

abbrev steps : List (Step String)
steps = emitted "a" ∷ emitted "b" ∷ emitted "c" ∷ tested ∷ got ∷ tested ∷ got ∷ []

sends_after_retry : (run String works 1 2 steps (new_handler String)).wire ≡ "a" ∷ "b" ∷ []
unfolding run step emit process send_loop send connect
sends_after_retry = refl

drops_third : (run String works 1 2 steps (new_handler String)).queue_drops ≡ 1
unfolding run step emit process send_loop send connect
drops_third = refl

run-IsAccounted_example :
    IsAccounted 2 ("a" ∷ "b" ∷ "c" ∷ []) (run String works 1 2 steps (new_handler String))
run-IsAccounted_example = run-IsAccounted works 1 2 steps

abbrev waiting : SyslogHandler String
waiting = record (new_handler String) { worker = getting }

run-silent_example :
    (run String works 1 2 (timed_out ∷ emitted "a" ∷ tested ∷ got ∷ []) waiting).wire ≡ []
run-silent_example = run-silent works 1 2 (emitted "a" ∷ tested ∷ got ∷ []) waiting refl refl

abbrev one_waits : SyslogHandler String
one_waits = record waiting { queue = "a" ∷ [] }

run-blocked_example :
    (run String (λ n. false) 1 2 (got ∷ tested ∷ emitted "b" ∷ got ∷ []) one_waits).wire ≡ []
run-blocked_example =
    run-blocked (λ n. false) 1 2 (tested ∷ emitted "b" ∷ got ∷ []) "a" [] one_waits refl refl refl
      refl

pri-decodes_example :
    (pri local0 critical ≤ 191)
    × (pri local0 critical / 8 ≡ facility_value local0)
    × (pri local0 critical % 8 ≡ severity_value critical)
pri-decodes_example = pri-decodes local0 critical
