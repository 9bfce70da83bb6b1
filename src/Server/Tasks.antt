-- ===== src/Server/Tasks.antt =====
-- server/server.cxx: the life of a task, from `unscheduled_tasks` to a runner, and back when the
-- runner is given up.
pub mod Frame
pub mod Assign
use fugaku_particle_filter.Prelude.{
  ℕ, zero, suc, ◌+◌, ◌-◌, ◌*◌, List, [], ◌∷◌, ◌++◌, Option, none, some, Bool, true, false, ltb,
  ◌==◌, if◌then◌else◌, ◌&&◌, ◌||◌, not, length, get_elem?, set, max, Result, ok, err, exit,
  out_of_range, check, or_fail, ◌>>=◌, ◌>>◌, replicate,
}
use fugaku_particle_filter.Prelude.Int.{pos, ◌+ℤ◌}
use fugaku_particle_filter.Containers.{
  set_insert, set_erase, set_count, map_find, map_assign, map_erase,
}
use fugaku_particle_filter.Field.{is_empty}
use fugaku_particle_filter.Server.{
  Config, Server, TaskLists, Task, NewTask, SubTask, Runner, Sent, new_task, kill_runner,
  emplace_task, has_task, max_fail_count,
}
use fugaku_particle_filter.Server.Connections.{launch_sub_task, runner_stop_frames}

-- `get_due_date`, at time `now`.
unfoldable pub get_due_date : Config → ℕ → ℕ
get_due_date c now = now + c.max_runner_timeout

-- `idle_runners.erase(runner_id)`. The destructor of a runner stops what is still connected.
unfoldable pub erase_idle_runner : ℕ → Server → Server
unfolding map_find map_erase
erase_idle_runner runner_id s = elim (map_find runner_id s.idle_runners) [
  | none ↦ s
  | some r ↦ record s {
    sent = s.sent ++ runner_stop_frames kill_runner s.current_step r;
    idle_runners = map_erase runner_id s.idle_runners;
  }
]

-- The connection to a rank of an idle runner, if there is one.
unfoldable pub find_connection : SubTask → Server → Option (Runner × Option (List ℕ))
unfolding map_find
find_connection sub_task s = elim (map_find sub_task.runner_id s.idle_runners) [
  | none ↦ none
  | some r ↦ elim (map_find sub_task.runner_rank r) [ none ↦ none | some cs ↦ some (r, cs) ]
]

-- The connection is used: a runner with no other one is idle no more.
unfoldable pub drop_connection : SubTask → Runner → Server → Server
unfolding map_erase map_assign
drop_connection sub_task r s =
    let r' = map_erase sub_task.runner_rank r in
    record s {
      idle_runners =
          if is_empty r'
          then map_erase sub_task.runner_id s.idle_runners
          else map_assign sub_task.runner_id r' s.idle_runners;
    }

-- Whether the sub task could be sent at once, and the state after that.
unfoldable pub try_launch_subtask : Config → SubTask → Server → Result (Bool × Server)
unfolding find_connection drop_connection
try_launch_subtask c sub_task s = elim (find_connection sub_task s) [
  | none ↦ ok (false, s)
  | some (r, cs) ↦ launch_sub_task c cs sub_task.runner_rank sub_task.state_id s >>= λ s'.
      ok (true, drop_connection sub_task r s')
]

-- `remove_if` of the sub tasks of a task.
unfoldable pub remove_task : Task → List SubTask → List SubTask
remove_task t [] = []
remove_task t (st ∷ sts) =
    if st.state_id == t.state_id && st.runner_id == t.runner_id
    then remove_task t sts
    else st ∷ remove_task t sts

unfoldable pub kill_lists : Task → TaskLists → TaskLists
unfolding set_insert remove_task
kill_lists t l = record {
  unscheduled_tasks = set_insert t.state_id l.unscheduled_tasks;
  scheduled_sub_tasks = remove_task t l.scheduled_sub_tasks;
  running_sub_tasks = remove_task t l.running_sub_tasks;
  finished_sub_tasks = remove_task t l.finished_sub_tasks;
}

unfoldable pub kill_task : Task → Server → Server
unfolding erase_idle_runner kill_lists emplace_task
kill_task t s =
    let s' = erase_idle_runner t.runner_id s in
    record s' { killed = emplace_task t s'.killed; lists = kill_lists t s'.lists }

abbrev pub push_running : SubTask → TaskLists → TaskLists
push_running st l = record l { running_sub_tasks = l.running_sub_tasks ++ (st ∷ []) }

abbrev pub push_scheduled : SubTask → TaskLists → TaskLists
push_scheduled st l = record l { scheduled_sub_tasks = l.scheduled_sub_tasks ++ (st ∷ []) }

-- The constructor of `SubTask`.
abbrev pub sub_task_of : NewTask → ℕ → SubTask
sub_task_of t runner_rank = record {
  runner_id = t.runner_id;
  runner_rank = runner_rank;
  state_id = t.state_id;
  due_date = t.due_date;
}

-- A sub task that could be launched runs; another one waits for its runner rank.
abbrev pub file_sub_task : SubTask → Bool × Server → Server
file_sub_task st (true, s) = record s { lists = push_running st s.lists }
file_sub_task st (false, s) = record s { lists = push_scheduled st s.lists }

-- The loop of `add_sub_tasks` over the connected runner ranks.
unfoldable pub add_for_ranks : Config → NewTask → List ℕ → Server → Result Server
unfolding try_launch_subtask
add_for_ranks c t [] s = ok s
add_for_ranks c t (rank ∷ csr) s = try_launch_subtask c (sub_task_of t rank) s >>= λ r.
    add_for_ranks c t csr (file_sub_task (sub_task_of t rank) r)

unfoldable pub add_sub_tasks : Config → NewTask → Server → Result Server
unfolding add_for_ranks set_count set_erase
add_sub_tasks c t s = do
  check (set_count t.state_id s.lists.unscheduled_tasks == 1)
  check (ltb 0 (length s.field.connected_runner_ranks))
  add_for_ranks c t s.field.connected_runner_ranks (record s {
    lists = record (s.lists) { unscheduled_tasks = set_erase t.state_id s.lists.unscheduled_tasks };
  })

-- `MPI_Isend` of the new task to each of the ranks from `rank` on.
unfoldable pub announce : ℕ → ℕ → NewTask → List Sent
announce zero rank t = []
announce (suc n) rank t = new_task rank t ∷ announce n (rank + 1) t

unfoldable pub schedule_state : Config → ℕ → ℕ → ℕ → Server → Result (Bool × Server)
unfolding add_sub_tasks announce get_due_date
schedule_state c now runner_id state_id s =
    let t : NewTask = record {
      runner_id = runner_id;
      state_id = state_id;
      due_date = get_due_date c now;
      task_id = s.task_id + 1;
    } in
    add_sub_tasks c t (record s { task_id = s.task_id + 1; finished_ranks = pos 0 }) >>= λ s'.
    ok (true, record s' { sent = s'.sent ++ announce (c.comm_size - 1) 1 t })

-- Takes the lowest unscheduled state.
unfoldable pub schedule_new_task : Config → ℕ → ℕ → Server → Result (Bool × Server)
unfolding schedule_state
schedule_new_task c now runner_id s =
    check (c.comm_rank == 0) >> (elim (s.lists.unscheduled_tasks) [
      | [] ↦ ok (false, s)
      | state_id ∷ _ ↦ schedule_state c now runner_id state_id s
    ])

-- The `remove_if` of `check_schedule_new_tasks` over one list: sub tasks of a state that rank 0 has
-- scheduled anew are dropped, and the runner that had it is known to be dead.
unfoldable pub outdate : ℕ → List SubTask → Server → List SubTask × Server
outdate state_id [] s = ([], s)
outdate state_id (st ∷ sts) s =
    let t : Task = record { state_id = st.state_id; runner_id = st.runner_id } in
    let s' : Server = record s {
      killed = emplace_task t s.killed;
      lists = record (s.lists) {
        unscheduled_tasks = set_insert st.state_id s.lists.unscheduled_tasks;
      };
    } in
    let dropped =
      outdate state_id sts (if has_task t s.killed then s else erase_idle_runner st.runner_id s') in
    let (kept, after) = outdate state_id sts s in
    if st.state_id == state_id then dropped else (st ∷ kept, after)

unfoldable pub outdate_lists : ℕ → Server → Server
outdate_lists state_id s =
    let (scheduled, s1) = outdate state_id s.lists.scheduled_sub_tasks s in
    let (running, s2) = outdate state_id s1.lists.running_sub_tasks s1 in
    let (finished, s3) = outdate state_id s2.lists.finished_sub_tasks s2 in
    record s3 {
      lists = record (s3.lists) {
        scheduled_sub_tasks = scheduled;
        running_sub_tasks = running;
        finished_sub_tasks = finished;
      };
    }

-- On a rank other than 0; `received` is the message of rank 0, if there is one.
unfoldable pub check_schedule_new_tasks : Config → Option NewTask → Server → Result Server
check_schedule_new_tasks c received s = check (not (c.comm_rank == 0)) >> (elim received [
  | none ↦ ok s
  | some t ↦ add_sub_tasks c t (
      outdate_lists t.state_id
        (record s { highest_received_task_id = max t.task_id s.highest_received_task_id }))
])

-- 0, …, n - 1.
unfoldable pub ids_from : ℕ → ℕ → List ℕ
ids_from i zero = []
ids_from i (suc n) = i ∷ ids_from (i + 1) n

unfoldable pub init_new_timestep : Config → Server → Result Server
unfolding ids_from
init_new_timestep c s = do
  let connections = length s.field.connected_runner_ranks
  check (
      s.assimilation_cycles == 0
      || length s.lists.finished_sub_tasks == c.ensemble_size * connections)
  check (is_empty s.lists.scheduled_sub_tasks)
  check (is_empty s.lists.running_sub_tasks)
  check (is_empty s.lists.unscheduled_tasks)
  ok (record s {
    lists = record {
      unscheduled_tasks = ids_from 0 c.ensemble_size;
      scheduled_sub_tasks = s.lists.scheduled_sub_tasks;
      running_sub_tasks = s.lists.running_sub_tasks;
      finished_sub_tasks = [];
    };
    highest_received_task_id = 0;
    highest_sent_task_id = 0;
    task_id = 1;
    current_step = s.current_step +ℤ s.current_nsteps;
    failcount = replicate (length s.failcount) 0;
  })

-- A state that fails too often ends the server.
unfoldable pub count_failure : ℕ → ℕ → Server → Result Server
count_failure failed state_id s =
    if ltb max_fail_count failed
    then err exit
    else ok (record s { failcount = set s.failcount state_id failed })

unfoldable pub fail_state : Config → ℕ → Server → Result Server
unfolding count_failure
fail_state c state_id s = do
  check (c.comm_rank == 0)
  failed ← or_fail out_of_range (get_elem? s.failcount state_id)
  count_failure (failed + 1) state_id s

abbrev pub reset_dates : ℕ → List SubTask → List SubTask
reset_dates due [] = []
reset_dates due (st ∷ sts) = record st { due_date = due } ∷ reset_dates due sts

unfoldable pub reset_due_dates : Config → ℕ → Server → Server
unfolding get_due_date
reset_due_dates c now s = record s {
  lists = record (s.lists) {
    scheduled_sub_tasks = reset_dates (get_due_date c now) s.lists.scheduled_sub_tasks;
  };
}
