-- ===== src/Server/Requests.antt =====
-- server/server.cxx: `check_due_dates` and `check_kill_requests`, which give up runners that did not
-- answer in time.
use fugaku_particle_filter.Prelude.{
  ℕ, List, [], ◌∷◌, ◌++◌, Option, none, some, Bool, true, false, ltb, ◌==◌, if◌then◌else◌, Result,
  ok, err, out_of_range, check, ◌>>=◌, ◌>>◌,
}
use fugaku_particle_filter.Server.{
  Config, Server, Task, SubTask, Runner, kill_request, notify, timeout, emplace_task, has_task,
  is_killed,
}
use fugaku_particle_filter.Server.Connections.{get_completely_idle_runner}
use fugaku_particle_filter.Server.Tasks.{kill_task, fail_state, schedule_new_task}

abbrev pub task_of : SubTask → Task
task_of st = record { state_id = st.state_id; runner_id = st.runner_id }

-- `check_date` over one list: the tasks of which a sub task is overdue.
unfoldable pub overdue : ℕ → List SubTask → List Task → List Task
unfolding emplace_task
overdue now [] to_kill = to_kill
overdue now (st ∷ sts) to_kill =
    overdue now sts (if ltb st.due_date now then emplace_task (task_of st) to_kill else to_kill)

abbrev pub is_present : Option ℕ → Bool
is_present none = false
is_present (some _) = true

-- `idle_runners.begin()->first`. At the end of the map that is undefined.
abbrev pub schedule_on_first : Config → ℕ → List (ℕ × Runner) → Server → Result Server
schedule_on_first c now [] s = err out_of_range
schedule_on_first c now ((runner_id, r) ∷ m) s =
    schedule_new_task c now runner_id s >>= λ r'. ok (r'.1)

-- Reschedule directly, if some runner is completely idle.
unfoldable pub reschedule : Config → ℕ → Server → Result Server
unfolding get_completely_idle_runner schedule_new_task
reschedule c now s =
    if is_present (get_completely_idle_runner s)
    then schedule_on_first c now s.idle_runners s
    else ok s

-- Rank 0 tells the launcher and tries again at once; another rank tells rank 0.
unfoldable pub expire_task : Config → ℕ → Task → Server → Result Server
expire_task c now t s =
    let k = kill_task t s in
    if c.comm_rank == 0
    then (fail_state c t.state_id (record k { sent = k.sent ++ (notify t.runner_id timeout ∷ []) })
        >>= reschedule c now)
    else ok (record k { sent = k.sent ++ (kill_request t ∷ []) })

unfoldable pub expire_tasks : Config → ℕ → List Task → Server → Result Server
unfolding expire_task
expire_tasks c now [] s = ok s
expire_tasks c now (t ∷ ts) s = expire_task c now t s >>= λ s'. expire_tasks c now ts s'

unfoldable pub check_due_dates : Config → ℕ → Server → Result Server
unfolding expire_tasks overdue
check_due_dates c now s =
    expire_tasks c now
      (overdue now s.lists.running_sub_tasks (overdue now s.lists.scheduled_sub_tasks [])) s

-- The launcher hears of a runner when the first of its tasks is killed.
unfoldable pub notify_removed : Task → Server → Server
unfolding is_killed
notify_removed t s =
    if is_killed t.runner_id s.killed
    then s
    else record s { sent = s.sent ++ (notify t.runner_id timeout ∷ []) }

-- A kill request of another rank: nothing is done for a task that rank 0 has killed itself.
unfoldable pub handle_kill_request : Config → ℕ → Task → Server → Result Server
handle_kill_request c now t s =
    let n = notify_removed t s in
    if has_task t n.killed
    then ok n
    else (fail_state c t.state_id (record n { killed = emplace_task t n.killed }) >>= λ s'.
        reschedule c now (kill_task t s'))

-- The messages of the ranks 1, 2, …, at most one of each.
unfoldable pub handle_kill_requests : Config → ℕ → List (Option Task) → Server → Result Server
unfolding handle_kill_request
handle_kill_requests c now [] s = ok s
handle_kill_requests c now (none ∷ ts) s = handle_kill_requests c now ts s
handle_kill_requests c now (some t ∷ ts) s =
    handle_kill_request c now t s >>= λ s'. handle_kill_requests c now ts s'

unfoldable pub check_kill_requests : Config → ℕ → List (Option Task) → Server → Result Server
unfolding handle_kill_requests
check_kill_requests c now received s =
    check (c.comm_rank == 0) >> handle_kill_requests c now received s
