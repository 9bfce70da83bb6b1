-- ===== src/Server/Updates.antt =====
-- server/server.cxx: `check_finished`. When all tasks are finished the ranks agree to go on, the
-- assimilator updates the ensemble, and the next time step begins.
use fugaku_particle_filter.Prelude.{
  ℕ, zero, suc, ◌+◌, ◌-◌, ◌*◌, List, [], ◌∷◌, ◌++◌, Option, none, some, Bool, true, false, ltb,
  ◌==◌, if◌then◌else◌, ◌&&◌, length, Result, ok, err, exit, ◌>>=◌,
}
use fugaku_particle_filter.Prelude.Int.{ℤ, pos, negsuc, eq_ℤ, ◌+ℤ◌}
use fugaku_particle_filter.Field.{EnsembleMember, is_empty}
use fugaku_particle_filter.LauncherConnection.{check_launcher_due_date}
use fugaku_particle_filter.Server.{Config, Server, Sent, rank_finished, all_finished}
use fugaku_particle_filter.Server.Connections.{end_all_runners, get_completely_idle_runner}
use fugaku_particle_filter.Server.Tasks.{init_new_timestep, schedule_new_task}

unfoldable pub would_finish : Config → Server → Bool
would_finish c s =
    is_empty s.lists.unscheduled_tasks
    && (is_empty s.lists.scheduled_sub_tasks
        && (is_empty s.lists.running_sub_tasks
            && length s.lists.finished_sub_tasks
              == c.ensemble_size * length s.field.connected_runner_ranks))

-- What `MPI_Iprobe` finds: from each of the ranks 1, 2, …, to rank 0, the highest task id with which
-- it finished, and from rank 0 to another rank, that all have finished.
pub record FinishMessages : Type 0 where
  pub ranks_finished : List (Option ℕ)
  pub all_finished_received : Bool

-- Messages that are not about the last task that was scheduled are out of date.
unfoldable pub count_finished : ℕ → List (Option ℕ) → ℤ → ℤ
count_finished task_id [] n = n
count_finished task_id (none ∷ ms) n = count_finished task_id ms n
count_finished task_id (some highest_task_id ∷ ms) n =
    count_finished task_id ms (if highest_task_id == task_id then n +ℤ pos 1 else n)

unfoldable pub tell_all_finished : ℕ → ℕ → List Sent
tell_all_finished zero rank = []
tell_all_finished (suc n) rank = all_finished rank ∷ tell_all_finished n (rank + 1)

-- Rank 0 goes on when it has heard from every other rank.
unfoldable pub agree_master : Config → FinishMessages → Server → Bool × Server
unfolding count_finished tell_all_finished
agree_master c msgs s =
    let n = count_finished s.task_id msgs.ranks_finished s.finished_ranks in
    if eq_ℤ n (pos (c.comm_size - 1))
    then (
      true,
      record s { finished_ranks = n; sent = s.sent ++ tell_all_finished (c.comm_size - 1) 1 },
    )
    else (false, record s { finished_ranks = n })

-- Another rank says once for each new task that it has finished, and waits for rank 0.
unfoldable pub agree_other : FinishMessages → Server → Bool × Server
agree_other msgs s = (
  msgs.all_finished_received,
  if ltb s.highest_sent_task_id s.highest_received_task_id
      then record s {
        sent = s.sent ++ (rank_finished s.highest_received_task_id ∷ []);
        highest_sent_task_id = s.highest_received_task_id;
      }
      else s,
)

-- The loop of rank 0 after an update: work for every runner that is completely idle.
unfoldable pub schedule_all : ℕ → Config → ℕ → Server → Result Server
unfolding get_completely_idle_runner schedule_new_task
schedule_all zero c now s = ok s
schedule_all (suc fuel) c now s = elim (get_completely_idle_runner s) [
  | none ↦ ok s
  | some runner_id ↦ elim (is_empty s.lists.unscheduled_tasks) [
    | true ↦ ok s
    | false ↦ schedule_new_task c now runner_id s >>= λ r. schedule_all fuel c now (r.1)
  ]
]

-- The update step of the assimilator: from the current step and the members to the members and the
-- number of steps to go on; -1 ends the study.
abbrev pub UpdateStep : Type 0
UpdateStep = ℤ → List EnsembleMember → List EnsembleMember × ℤ

-- The assimilator's answer, or -2 if the launcher is gone; `MPI_Bcast` gives every rank what rank 0
-- has, here `root_nsteps`.
unfoldable pub update_step : Config → ℕ → UpdateStep → ℤ → Server → Server
unfolding check_launcher_due_date
update_step c now do_update_step root_nsteps s =
    let launcher_ok = check_launcher_due_date now s.launcher in
    let (members, nsteps) = do_update_step s.current_step s.field.ensemble_members in
    record s {
      field = record (s.field) { ensemble_members = members };
      current_nsteps =
          if c.comm_rank == 0 then (if launcher_ok then nsteps else negsuc 1) else root_nsteps;
      assimilation_cycles = s.assimilation_cycles + 1;
    }

unfoldable pub next_timestep : Config → ℕ → Server → Result (Bool × Server)
unfolding init_new_timestep schedule_all
next_timestep c now s = do
  s' ← init_new_timestep c s
  s'' ←
      if c.comm_rank == 0 then schedule_all (length s'.lists.unscheduled_tasks) c now s' else ok s'
  ok (false, s'')

-- What follows the update: the end of all runners, the end of the process, or the next time step.
unfoldable pub after_update : Config → ℕ → Server → Result (Bool × Server)
unfolding next_timestep end_all_runners
after_update c now s =
    if eq_ℤ s.current_nsteps (negsuc 0)
    then ok (true, end_all_runners s)
    else if eq_ℤ s.current_nsteps (negsuc 1)
    then err exit
    else next_timestep c now s

-- True when the whole assimilation has finished.
unfoldable pub check_finished :
    Config → ℕ → FinishMessages → UpdateStep → ℤ → Server → Result (Bool × Server)
unfolding would_finish agree_master agree_other update_step after_update
check_finished c now msgs do_update_step root_nsteps s =
    if would_finish c s
    then (let (finished, s') =
          if c.comm_rank == 0 then agree_master c msgs s else agree_other msgs s in
        if finished
        then after_update c now (update_step c now do_update_step root_nsteps s')
        else ok (false, s'))
    else ok (false, s)
