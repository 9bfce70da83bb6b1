-- ===== src/Server/Ledger/Moves.antt =====
-- What the operations of server/server.cxx do to the books.
use fugaku_particle_filter.Prelude.{
  ℕ, ◌+◌, ◌*◌, ◌≤◌, ◌<◌, ◌≡◌, inl, inr, [], ◌∷◌, arith, ltb, ◌==◌, ◌&&◌, if◌then◌else◌, Bool-cases,
}
use fugaku_particle_filter.Containers.{set_count}
use fugaku_particle_filter.Containers.Sets.{Ascending, set_count-set_insert, set_insert-Ascending}
use fugaku_particle_filter.Server.{TaskLists, Task, SubTask}
use fugaku_particle_filter.Server.Tasks.{kill_lists, push_running, push_scheduled}
use fugaku_particle_filter.Server.Ledger.{
  count_state, count_task, total_state, total_task, IsBalanced, count_state-append,
  count_task-append, count_state-remove_task, count_task-remove_task, count_task-le,
}

pub total_state-kill_lists :
    (i : ℕ) (t : Task) (l : TaskLists)
    → total_state i (kill_lists t l)
        + (if i == t.state_id then total_task t.state_id t.runner_id l else 0)
      ≡ total_state i l
unfolding kill_lists
total_state-kill_lists i t l = ground (
  arith,
  count_state-remove_task i t l.scheduled_sub_tasks,
  count_state-remove_task i t l.running_sub_tasks,
  count_state-remove_task i t l.finished_sub_tasks,
)

pub total_task-kill_lists :
    (i r : ℕ) (t : Task) (l : TaskLists)
    → total_task i r (kill_lists t l)
      ≡ (if i == t.state_id && r == t.runner_id then 0 else total_task i r l)
unfolding kill_lists
total_task-kill_lists i r t l = ground (
  arith,
  count_task-remove_task i r t l.scheduled_sub_tasks,
  count_task-remove_task i r t l.running_sub_tasks,
  count_task-remove_task i r t l.finished_sub_tasks,
)

pub set_count-kill_lists :
    (i : ℕ) (t : Task) (l : TaskLists)
    → Ascending l.unscheduled_tasks
    → set_count i (kill_lists t l).unscheduled_tasks
      ≡ (if i == t.state_id then 1 else set_count i l.unscheduled_tasks)
unfolding kill_lists
set_count-kill_lists i t l a = set_count-set_insert i t.state_id l.unscheduled_tasks a

pub total_task-le : (i r : ℕ) (l : TaskLists) → total_task i r l ≤ total_state i l
total_task-le i r l = omega (
  arith,
  count_task-le i r l.scheduled_sub_tasks,
  count_task-le i r l.running_sub_tasks,
  count_task-le i r l.finished_sub_tasks,
)

kill_balance :
    (n k i : ℕ) (t : Task) (l : TaskLists)
    → IsBalanced n k l
    → t.state_id < n
    → total_task t.state_id t.runner_id l ≡ total_state t.state_id l
    → set_count i (kill_lists t l).unscheduled_tasks * k + total_state i (kill_lists t l)
      ≡ (if ltb i n then k else 0)
kill_balance n k i t l v h e = elim (Bool-cases (i == t.state_id)) [
  | inl q ↦
      rw (set_count-kill_lists i t l v.ascending, q) (ground (arith, total_state-kill_lists i t l))
  | inr q ↦
      rw (set_count-kill_lists i t l v.ascending, q)
        (ground (arith, total_state-kill_lists i t l, v.balance i))
]

kill_lists-Ascending :
    (t : Task) (l : TaskLists)
    → Ascending l.unscheduled_tasks
    → Ascending (kill_lists t l).unscheduled_tasks
unfolding kill_lists
kill_lists-Ascending t l a = set_insert-Ascending t.state_id l.unscheduled_tasks a

-- A task that has all sub tasks of its state can be killed.
pub kill_lists-IsBalanced :
    (n k : ℕ) (t : Task) (l : TaskLists)
    → IsBalanced n k l
    → t.state_id < n
    → total_task t.state_id t.runner_id l ≡ total_state t.state_id l
    → IsBalanced n k (kill_lists t l)
kill_lists-IsBalanced n k t l v h e = record {
  ascending = kill_lists-Ascending t l v.ascending;
  balance = λ i. kill_balance n k i t l v h e;
  one_runner = λ i r. ground (
    arith,
    total_task-kill_lists i r t l,
    total_state-kill_lists i t l,
    v.one_runner i r,
    total_task-le i r (kill_lists t l),
  );
}

-- One sub task more, running or scheduled.
pub total_state-push :
    (i : ℕ) (st : SubTask) (l : TaskLists)
    → (total_state i (push_running st l) ≡ total_state i l + (if st.state_id == i then 1 else 0))
      × (total_state i (push_scheduled st l)
          ≡ total_state i l + (if st.state_id == i then 1 else 0))
unfolding count_state
total_state-push i st l = omega (
  arith,
  count_state-append i l.running_sub_tasks (st ∷ []),
  count_state-append i l.scheduled_sub_tasks (st ∷ []),
)

pub total_task-push :
    (i r : ℕ) (st : SubTask) (l : TaskLists)
    → (total_task i r (push_running st l)
        ≡ total_task i r l + (if st.state_id == i && st.runner_id == r then 1 else 0))
      × (total_task i r (push_scheduled st l)
          ≡ total_task i r l + (if st.state_id == i && st.runner_id == r then 1 else 0))
unfolding count_task
total_task-push i r st l = omega (
  arith,
  count_task-append i r l.running_sub_tasks (st ∷ []),
  count_task-append i r l.scheduled_sub_tasks (st ∷ []),
)
