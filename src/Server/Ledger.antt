-- ===== src/Server/Ledger.antt =====
-- Where the tasks of a time step are: the main loop of server/server.cxx asserts that all tasks are
-- somewhere. Here the books behind that assertion, kept per state and per runner.
pub mod Total
pub mod Moves
pub mod Holding
use fugaku_particle_filter.Prelude.{
  ℕ, zero, suc, ◌+◌, ◌*◌, ◌≤◌, ◌<◌, ◌≡◌, refl, ◌⊎◌, List, [], ◌∷◌, ◌++◌, Bool, true, arith, ltb,
  ◌==◌, ◌&&◌, if◌then◌else◌, length, length-append,
}
use fugaku_particle_filter.Containers.{set_count}
use fugaku_particle_filter.Containers.Sets.{Ascending}
use fugaku_particle_filter.Server.{TaskLists, Task, SubTask}
use fugaku_particle_filter.Server.Tasks.{remove_task}

-- The sub tasks of a state, and those of a state on a runner.
unfoldable pub count_state : ℕ → List SubTask → ℕ
count_state i [] = 0
count_state i (st ∷ sts) = (if st.state_id == i then 1 else 0) + count_state i sts

unfoldable pub count_task : ℕ → ℕ → List SubTask → ℕ
count_task i r [] = 0
count_task i r (st ∷ sts) =
    (if st.state_id == i && st.runner_id == r then 1 else 0) + count_task i r sts

abbrev pub total_state : ℕ → TaskLists → ℕ
total_state i l =
    count_state i l.scheduled_sub_tasks
    + count_state i l.running_sub_tasks
    + count_state i l.finished_sub_tasks

abbrev pub total_task : ℕ → ℕ → TaskLists → ℕ
total_task i r l =
    count_task i r l.scheduled_sub_tasks
    + count_task i r l.running_sub_tasks
    + count_task i r l.finished_sub_tasks

-- For `n` states and `k` connected runner ranks: a state below `n` either waits, or has `k` sub tasks,
-- all on one runner, and there are no others.
pub record IsBalanced (n k : ℕ) (l : TaskLists) : Type 0 where
  pub ascending : Ascending l.unscheduled_tasks
  pub balance :
      (i : ℕ) → set_count i l.unscheduled_tasks * k + total_state i l ≡ (if ltb i n then k else 0)
  pub one_runner : (i r : ℕ) → (total_task i r l ≡ 0) ⊎ (total_task i r l ≡ total_state i l)

pub count_state-append :
    (i : ℕ) (xs ys : List SubTask) → count_state i (xs ++ ys) ≡ count_state i xs + count_state i ys
unfolding count_state
count_state-append i [] ys = omega arith
count_state-append i (x ∷ xs) ys = omega (arith, count_state-append i xs ys)

pub count_task-append :
    (i r : ℕ) (xs ys : List SubTask)
    → count_task i r (xs ++ ys) ≡ count_task i r xs + count_task i r ys
unfolding count_task
count_task-append i r [] ys = omega arith
count_task-append i r (x ∷ xs) ys = omega (arith, count_task-append i r xs ys)

pub count_state-remove_task :
    (i : ℕ) (t : Task) (xs : List SubTask)
    → count_state i (remove_task t xs)
        + (if i == t.state_id then count_task t.state_id t.runner_id xs else 0)
      ≡ count_state i xs
unfolding count_state count_task remove_task
count_state-remove_task i t [] = ground arith
count_state-remove_task i t (x ∷ xs) = ground (arith, count_state-remove_task i t xs)

pub count_task-remove_task :
    (i r : ℕ) (t : Task) (xs : List SubTask)
    → count_task i r (remove_task t xs)
      ≡ (if i == t.state_id && r == t.runner_id then 0 else count_task i r xs)
unfolding count_task remove_task
count_task-remove_task i r t [] = ground arith
count_task-remove_task i r t (x ∷ xs) = ground (arith, count_task-remove_task i r t xs)

pub count_task-le : (i r : ℕ) (xs : List SubTask) → count_task i r xs ≤ count_state i xs
unfolding count_task count_state
count_task-le i r [] = omega arith
count_task-le i r (x ∷ xs) = ground (arith, count_task-le i r xs)

-- The tasks with a state below `n`.
abbrev pub count_below : ℕ → List SubTask → ℕ
count_below n [] = 0
count_below n (st ∷ sts) = (if ltb st.state_id n then 1 else 0) + count_below n sts

abbrev pub waiting_below : ℕ → List ℕ → ℕ
waiting_below n [] = 0
waiting_below n (x ∷ xs) = (if ltb x n then 1 else 0) + waiting_below n xs
