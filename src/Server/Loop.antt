-- ===== src/Server/Loop.antt =====
-- server/server.cxx: the main loop, from the step into the simulation phase on, round by round. What
-- the sockets, MPI and the clock have for the rank in a round is an argument. Configuration messages
-- are left out: they change nothing that a round reads but `launcher_notified_about_runner`.
pub mod Assertion
pub mod Start
use fugaku_particle_filter.Prelude.{
  ℕ, ◌+◌, ◌*◌, List, Option, none, some, Bool, true, false, ltb, ◌==◌, if◌then◌else◌, length,
  Result, ok, err, exit, check, ◌>>=◌, ◌>>◌,
}
use fugaku_particle_filter.Prelude.Int.{ℤ}
use fugaku_particle_filter.LauncherConnection.{check_launcher_due_date, receive_text, ping}
use fugaku_particle_filter.Server.{Config, Server, Task, NewTask}
use fugaku_particle_filter.Server.Tasks.{
  check_schedule_new_tasks, init_new_timestep, reset_due_dates,
}
use fugaku_particle_filter.Server.Registration.{broadcast_field_information_and_calculate_parts}
use fugaku_particle_filter.Field.{Field}
use fugaku_particle_filter.Server.Requests.{check_due_dates, check_kill_requests}
use fugaku_particle_filter.Server.Responses.{DataResponse, handle_data_response}
use fugaku_particle_filter.Server.Updates.{FinishMessages, UpdateStep, check_finished}

-- What there is in one round: the time in seconds, whether the launcher has sent a message, the first
-- message on the data socket, what `MPI_Iprobe` finds, and the number of steps that rank 0 broadcasts
-- if there is an update.
pub record Round : Type 0 where
  pub now : ℕ
  pub text_received : Bool
  pub data_response : Option DataResponse
  pub new_task_received : Option NewTask
  pub kill_requests : List (Option Task)
  pub finish_messages : FinishMessages
  pub root_nsteps : ℤ

pub record LoopState : Type 0 where
  pub server : Server
  pub last_seconds_checks : ℕ

-- The step from the initialization into the simulation phase. `root` is the field that rank 0 has
-- registered, and `nsteps` what the new assimilator says.
unfoldable pub begin_simulation : Config → ℕ → Field → List ℕ → List ℕ → ℤ → Server → Result Server
unfolding broadcast_field_information_and_calculate_parts init_new_timestep reset_due_dates
begin_simulation c now root index_map index_map_hidden nsteps s = do
  (f, maps) ← broadcast_field_information_and_calculate_parts c root index_map index_map_hidden
  s' ← init_new_timestep c (record s { field = f; current_nsteps = nsteps })
  ok (reset_due_dates c now s')

-- Rank 0 ends the server when the launcher is silent and there is no work out.
unfoldable pub watch_launcher : Config → Round → Server → Result Server
unfolding check_launcher_due_date receive_text ping
watch_launcher c e s =
    if c.comm_rank == 0
    then (if e.text_received
        then ok (record s { launcher = ping e.now (receive_text e.now s.launcher) })
        else if check_launcher_due_date e.now s.launcher
        then ok (record s { launcher = ping e.now s.launcher })
        else if length s.lists.scheduled_sub_tasks + length s.lists.running_sub_tasks == 0
        then err exit
        else ok (record s { launcher = ping e.now s.launcher }))
    else ok s

unfoldable pub check_runners : Config → Round → Server → Result Server
unfolding check_due_dates check_kill_requests
check_runners c e s = check_due_dates c e.now s >>= λ s'.
    if c.comm_rank == 0 then check_kill_requests c e.now e.kill_requests s' else ok s'

-- Once in a second the rank looks for runners that are late.
unfoldable pub check_each_second : Config → Round → LoopState → Result LoopState
unfolding check_runners
check_each_second c e l =
    if ltb l.last_seconds_checks e.now
    then (check_runners c e l.server >>= λ s'.
        ok (record { server = s'; last_seconds_checks = e.now }))
    else ok l

unfoldable pub take_new_tasks : Config → Round → Server → Result Server
unfolding check_schedule_new_tasks
take_new_tasks c e s =
    if c.comm_rank == 0 then ok s else check_schedule_new_tasks c e.new_task_received s

unfoldable pub take_response : Config → Round → Server → Result Server
unfolding handle_data_response
take_response c e s = elim (e.data_response) [
  | none ↦ ok s
  | some m ↦ handle_data_response c e.now m s
]

-- The round up to the call of `check_finished`, which tells whether the loop is left.
unfoldable pub simulate : Config → UpdateStep → Round → LoopState → Result (Bool × LoopState)
unfolding watch_launcher check_each_second take_new_tasks take_response check_finished
simulate c do_update_step e l = do
  s ← watch_launcher c e l.server
  l1 ← check_each_second c e (record l { server = s })
  s2 ← take_new_tasks c e l1.server
  s3 ← take_response c e s2
  (finished, s4) ← check_finished c e.now e.finish_messages do_update_step e.root_nsteps s3
  ok (finished, record l1 { server = s4 })

-- The assertion at the end of the round, that all tasks are somewhere.
unfoldable pub tasks_are_somewhere : Config → Server → Bool
tasks_are_somewhere c s =
    length s.lists.unscheduled_tasks * length s.field.connected_runner_ranks
      + length s.lists.scheduled_sub_tasks
      + length s.lists.running_sub_tasks
      + length s.lists.finished_sub_tasks
    == length s.field.connected_runner_ranks * c.ensemble_size

unfoldable pub assert_tasks : Config → Bool × LoopState → Result (Bool × LoopState)
unfolding tasks_are_somewhere
assert_tasks c (true, l) = ok (true, l)
assert_tasks c (false, l) = check (tasks_are_somewhere c l.server) >> ok (false, l)

-- The whole round; true when the loop is left.
unfoldable pub simulation_round :
    Config → UpdateStep → Round → LoopState → Result (Bool × LoopState)
unfolding simulate assert_tasks
simulation_round c do_update_step e l = simulate c do_update_step e l >>= assert_tasks c
