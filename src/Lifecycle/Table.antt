-- ===== src/Lifecycle/Table.antt =====
-- The moves of the state that core/agent/lifecycle.py allows, by its guards.
use kuva_ai.Prelude.{true, ◌≡◌}
use kuva_ai.Lifecycle.{
  AgentState, created, initializing, initialized, starting, running, pausing, paused, resuming,
  stopping, stopped, error,
}
use kuva_ai.Lifecycle.Methods.{is_created, is_startable, is_stoppable, is_running, is_paused}
use kuva_ai.Lifecycle.Restart.{
  Op, initialize_op, start_op, stop_op, pause_op, resume_op, unhealthy_op,
}

-- The moves between two calls; `unhealthy_op` reports what it finds by no exception.
pub data IsMove : Op → AgentState → AgentState → Type 0 where
  set_up : IsMove initialize_op created initialized
  first_start : IsMove start_op initialized running
  start_again : IsMove start_op stopped running
  stop_running : IsMove stop_op running stopped
  stop_paused : IsMove stop_op paused stopped
  stop_failed : IsMove stop_op error stopped
  pause_running : IsMove pause_op running paused
  resume_paused : IsMove resume_op paused running
  no_report : {s s' : AgentState} → IsMove unhealthy_op s s'

pub initialize_moves : (a : AgentState) → is_created a ≡ true → IsMove initialize_op a initialized
unfolding is_created
initialize_moves created h = set_up
initialize_moves initializing h = cc
initialize_moves initialized h = cc
initialize_moves starting h = cc
initialize_moves running h = cc
initialize_moves pausing h = cc
initialize_moves paused h = cc
initialize_moves resuming h = cc
initialize_moves stopping h = cc
initialize_moves stopped h = cc
initialize_moves error h = cc

pub start_moves : (a : AgentState) → is_startable a ≡ true → IsMove start_op a running
unfolding is_startable
start_moves created h = cc
start_moves initializing h = cc
start_moves initialized h = first_start
start_moves starting h = cc
start_moves running h = cc
start_moves pausing h = cc
start_moves paused h = cc
start_moves resuming h = cc
start_moves stopping h = cc
start_moves stopped h = start_again
start_moves error h = cc

pub stop_moves : (a : AgentState) → is_stoppable a ≡ true → IsMove stop_op a stopped
unfolding is_stoppable
stop_moves created h = cc
stop_moves initializing h = cc
stop_moves initialized h = cc
stop_moves starting h = cc
stop_moves running h = stop_running
stop_moves pausing h = cc
stop_moves paused h = stop_paused
stop_moves resuming h = cc
stop_moves stopping h = cc
stop_moves stopped h = cc
stop_moves error h = stop_failed

pub pause_moves : (a : AgentState) → is_running a ≡ true → IsMove pause_op a paused
unfolding is_running
pause_moves created h = cc
pause_moves initializing h = cc
pause_moves initialized h = cc
pause_moves starting h = cc
pause_moves running h = pause_running
pause_moves pausing h = cc
pause_moves paused h = cc
pause_moves resuming h = cc
pause_moves stopping h = cc
pause_moves stopped h = cc
pause_moves error h = cc

pub resume_moves : (a : AgentState) → is_paused a ≡ true → IsMove resume_op a running
unfolding is_paused
resume_moves created h = cc
resume_moves initializing h = cc
resume_moves initialized h = cc
resume_moves starting h = cc
resume_moves running h = cc
resume_moves pausing h = cc
resume_moves paused h = resume_paused
resume_moves resuming h = cc
resume_moves stopping h = cc
resume_moves stopped h = cc
resume_moves error h = cc
