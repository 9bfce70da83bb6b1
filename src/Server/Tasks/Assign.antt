-- ===== src/Server/Tasks/Assign.antt =====
-- `add_sub_tasks` of server/server.cxx, by which a state goes from the unscheduled ones to a runner.
use fugaku_particle_filter.Prelude.{
  ℕ, suc, ◌+◌, ◌*◌, ◌≡◌, refl, subst, ok_inj, ◌∙◌, ◌⊎◌, inl, inr, List, [], ◌∷◌, Bool, true, false,
  arith, ltb, ◌==◌, ◌&&◌, if◌then◌else◌, length, ok, >>=-eq-ok, Bool-cases, check-inv,
}
use fugaku_particle_filter.Containers.{set_count, set_erase}
use fugaku_particle_filter.Containers.Sets.{Ascending, set_count-set_erase, set_erase-Ascending}
use fugaku_particle_filter.Server.{Config, Server, TaskLists, NewTask}
use fugaku_particle_filter.Server.Tasks.{
  try_launch_subtask, file_sub_task, sub_task_of, add_for_ranks, add_sub_tasks,
}
use fugaku_particle_filter.Server.Tasks.Frame.{Undisturbed, try_launch_subtask-ok}
use fugaku_particle_filter.Server.Ledger.{total_state, total_task, IsBalanced}
use fugaku_particle_filter.Server.Ledger.Moves.{total_state-push, total_task-push, total_task-le}

-- From `s` to `s'` the runner of `t` has got `n` sub tasks of its state, and nothing else has moved.
pub record Added (t : NewTask) (n : ℕ) (s s' : Server) : Type 0 where
  pub waiting : s'.lists.unscheduled_tasks ≡ s.lists.unscheduled_tasks
  pub killed_same : s'.killed ≡ s.killed
  pub field_same : s'.field ≡ s.field
  pub failcount_same : s'.failcount ≡ s.failcount
  pub states :
      (i : ℕ) → total_state i s'.lists ≡ total_state i s.lists + (if t.state_id == i then n else 0)
  pub tasks :
      (i r : ℕ)
      → total_task i r s'.lists
        ≡ total_task i r s.lists + (if t.state_id == i && t.runner_id == r then n else 0)

file_sub_task-Added :
    (t : NewTask) (rank : ℕ) (b : Bool) (s s' : Server)
    → Undisturbed s s'
    → Added t 1 s (file_sub_task (sub_task_of t rank) (b, s'))
file_sub_task-Added t rank true s s' u = record {
  waiting = ground arith;
  killed_same = ground arith;
  field_same = ground arith;
  failcount_same = ground arith;
  states = λ i. rw (← u.lists_same) ((total_state-push i (sub_task_of t rank) s'.lists).0);
  tasks = λ i r. rw (← u.lists_same) ((total_task-push i r (sub_task_of t rank) s'.lists).0);
}
file_sub_task-Added t rank false s s' u = record {
  waiting = ground arith;
  killed_same = ground arith;
  field_same = ground arith;
  failcount_same = ground arith;
  states = λ i. rw (← u.lists_same) ((total_state-push i (sub_task_of t rank) s'.lists).1);
  tasks = λ i r. rw (← u.lists_same) ((total_task-push i r (sub_task_of t rank) s'.lists).1);
}

Added-refl : (t : NewTask) (s : Server) → Added t 0 s s
Added-refl t s = record {
  waiting = refl;
  killed_same = refl;
  field_same = refl;
  failcount_same = refl;
  states = λ i. ground arith;
  tasks = λ i r. ground arith;
}

Added-trans :
    (t : NewTask) (m n k : ℕ) (s s1 s2 : Server)
    → m + n ≡ k
    → Added t m s s1
    → Added t n s1 s2
    → Added t k s s2
Added-trans t m n k s s1 s2 e a b = record {
  waiting = b.waiting ∙ a.waiting;
  killed_same = b.killed_same ∙ a.killed_same;
  field_same = b.field_same ∙ a.field_same;
  failcount_same = b.failcount_same ∙ a.failcount_same;
  states = λ i. ground (arith, a.states i, b.states i);
  tasks = λ i r. ground (arith, a.tasks i r, b.tasks i r);
}

pub add_for_ranks-Added :
    (c : Config) (t : NewTask) (csr : List ℕ) (s s' : Server)
    → add_for_ranks c t csr s ≡ ok s'
    → Added t (length csr) s s'
unfolding add_for_ranks
add_for_ranks-Added c t [] s s' e = subst (Added t 0 s) (ok_inj s s' e) (Added-refl t s)
add_for_ranks-Added c t (rank ∷ csr) s s' e =
    let ((b, s1), launched, rest) = >>=-eq-ok (try_launch_subtask c (sub_task_of t rank) s) _ e in
    let one =
      file_sub_task-Added t rank b s s1
        (try_launch_subtask-ok c (sub_task_of t rank) s s1 b launched) in
    Added-trans t 1 (length csr) (suc (length csr)) s _ s' (omega arith) one
      (add_for_ranks-Added c t csr _ s' rest)

-- The state `t.state_id` has left the unscheduled ones, and its runner has got all its sub tasks.
pub record Assigned (t : NewTask) (s s' : Server) : Type 0 where
  pub was_waiting : set_count t.state_id s.lists.unscheduled_tasks ≡ 1
  pub waiting : s'.lists.unscheduled_tasks ≡ set_erase t.state_id s.lists.unscheduled_tasks
  pub killed_same : s'.killed ≡ s.killed
  pub field_same : s'.field ≡ s.field
  pub failcount_same : s'.failcount ≡ s.failcount
  pub states :
      (i : ℕ)
      → total_state i s'.lists
        ≡ total_state i s.lists
          + (if t.state_id == i then length s.field.connected_runner_ranks else 0)
  pub tasks :
      (i r : ℕ)
      → total_task i r s'.lists
        ≡ total_task i r s.lists
          + (if t.state_id == i && t.runner_id == r
              then length s.field.connected_runner_ranks
              else 0)

pub add_sub_tasks-Assigned :
    (c : Config) (t : NewTask) (s s' : Server) → add_sub_tasks c t s ≡ ok s' → Assigned t s s'
unfolding add_sub_tasks
add_sub_tasks-Assigned c t s s' e =
    let (one, e1) = check-inv (set_count t.state_id s.lists.unscheduled_tasks == 1) _ e in
    let (_, e2) = check-inv (ltb 0 (length (s.field.connected_runner_ranks))) _ e1 in
    let a = add_for_ranks-Added c t s.field.connected_runner_ranks _ s' e2 in
    record {
      was_waiting = ground arith;
      waiting = a.waiting;
      killed_same = a.killed_same;
      field_same = a.field_same;
      failcount_same = a.failcount_same;
      states = λ i. a.states i;
      tasks = λ i r. a.tasks i r;
    }

Assigned-count :
    (i : ℕ) (t : NewTask) (s s' : Server)
    → Assigned t s s'
    → Ascending s.lists.unscheduled_tasks
    → set_count i s'.lists.unscheduled_tasks
      ≡ (if i == t.state_id then 0 else set_count i s.lists.unscheduled_tasks)
Assigned-count i t s s' a up =
    rw a.waiting (set_count-set_erase i t.state_id s.lists.unscheduled_tasks up)

-- A state that waits has no sub tasks.
pub waiting_total :
    (n k i : ℕ) (l : TaskLists)
    → IsBalanced n k l
    → set_count i l.unscheduled_tasks ≡ 1
    → (total_state i l ≡ 0) × (k ≡ (if ltb i n then k else 0))
waiting_total n k i l v one = let e = rw one at (v.balance i) in ground (arith, e)

Assigned-balance :
    (n k i : ℕ) (t : NewTask) (s s' : Server)
    → Assigned t s s'
    → length s.field.connected_runner_ranks ≡ k
    → IsBalanced n k s.lists
    → set_count i s'.lists.unscheduled_tasks * k + total_state i s'.lists
      ≡ (if ltb i n then k else 0)
Assigned-balance n k i t s s' a e v = elim (Bool-cases (i == t.state_id)) [
  | inl q ↦
      rw (Assigned-count i t s s' a v.ascending, q)
        (ground (arith, a.states i, waiting_total n k t.state_id s.lists v a.was_waiting))
  | inr q ↦ rw (Assigned-count i t s s' a v.ascending, q) (ground (arith, a.states i, v.balance i))
]

Assigned-one_runner :
    (n k i r : ℕ) (t : NewTask) (s s' : Server)
    → Assigned t s s'
    → length s.field.connected_runner_ranks ≡ k
    → IsBalanced n k s.lists
    → (total_task i r s'.lists ≡ 0) ⊎ (total_task i r s'.lists ≡ total_state i s'.lists)
Assigned-one_runner n k i r t s s' a e v = ground (
  arith,
  a.states i,
  a.tasks i r,
  v.one_runner i r,
  total_task-le i r s.lists,
  waiting_total n k t.state_id s.lists v a.was_waiting,
)

-- `add_sub_tasks` keeps the books balanced.
pub Assigned-IsBalanced :
    (n k : ℕ) (t : NewTask) (s s' : Server)
    → Assigned t s s'
    → length s.field.connected_runner_ranks ≡ k
    → IsBalanced n k s.lists
    → IsBalanced n k s'.lists
Assigned-IsBalanced n k t s s' a e v = record {
  ascending = rw a.waiting (set_erase-Ascending t.state_id s.lists.unscheduled_tasks v.ascending);
  balance = λ i. Assigned-balance n k i t s s' a e v;
  one_runner = λ i r. Assigned-one_runner n k i r t s s' a e v;
}
