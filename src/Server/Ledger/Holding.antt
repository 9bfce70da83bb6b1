-- ===== src/Server/Ledger/Holding.antt =====
-- Which runner holds a state, while tasks are killed and others are scheduled.
use fugaku_particle_filter.Prelude.{
  ℕ, ◌+◌, ◌≤◌, ◌<◌, ◌≡◌, ◌≢◌, inl, inr, List, [], ◌∷◌, Bool, true, false, arith, ltb, ◌==◌, ◌&&◌,
  if◌then◌else◌, sym, Bool-cases,
}
use native.Mathlib.Decide.{ℕ_discrete}
use fugaku_particle_filter.Server.{
  Server, TaskLists, Task, SubTask, NewTask, lt_task, same_task, emplace_task,
}
use fugaku_particle_filter.Server.Tasks.{kill_lists}
use fugaku_particle_filter.Server.Tasks.Assign.{Assigned, waiting_total}
use fugaku_particle_filter.Server.Requests.{task_of, overdue}
use fugaku_particle_filter.Server.Ledger.{
  count_state, count_task, total_state, total_task, IsBalanced,
}
use fugaku_particle_filter.Server.Ledger.Moves.{total_state-kill_lists, total_task-kill_lists}

-- The state of `t` has sub tasks, and the runner of `t` has all of them.
pub record Holds (n : ℕ) (l : TaskLists) (t : Task) : Type 0 where
  pub state_in : t.state_id < n
  pub has_sub_tasks : 0 < total_state t.state_id l
  pub has_all : total_task t.state_id t.runner_id l ≡ total_state t.state_id l

pub Holds-kill_lists :
    (n : ℕ) (t u : Task) (l : TaskLists)
    → u.state_id ≢ t.state_id
    → Holds n l u
    → Holds n (kill_lists t l) u
Holds-kill_lists n t u l ne h = record {
  state_in = h.state_in;
  has_sub_tasks = ground (arith, total_state-kill_lists u.state_id t l, h.has_sub_tasks);
  has_all = ground (
    arith,
    total_state-kill_lists u.state_id t l,
    total_task-kill_lists u.state_id u.runner_id t l,
    h.has_all,
  );
}

pub Holds-Assigned :
    (n k : ℕ) (t : NewTask) (u : Task) (s s' : Server)
    → Assigned t s s'
    → IsBalanced n k s.lists
    → Holds n s.lists u
    → Holds n s'.lists u
Holds-Assigned n k t u s s' a v h = record {
  state_in = h.state_in;
  has_sub_tasks = ground (arith, a.states u.state_id, h.has_sub_tasks);
  has_all = ground (
    arith,
    a.states u.state_id,
    a.tasks u.state_id u.runner_id,
    h.has_all,
    h.has_sub_tasks,
    waiting_total n k t.state_id s.lists v a.was_waiting,
  );
}

-- A sub task on the books shows that its runner holds its state.
pub Holds-of_count :
    (n k : ℕ) (l : TaskLists) (t : Task)
    → IsBalanced n k l
    → 0 < total_task t.state_id t.runner_id l
    → Holds n l t
Holds-of_count n k l t v pos = record {
  state_in = ground (arith, all, v.balance t.state_id);
  has_sub_tasks = omega (arith, all);
  has_all = all;
}
  where
    all : total_task t.state_id t.runner_id l ≡ total_state t.state_id l
    all = ground (arith, v.one_runner t.state_id t.runner_id)

count_task-two :
    (i r r' : ℕ) (xs : List SubTask)
    → r ≢ r'
    → count_task i r xs + count_task i r' xs ≤ count_state i xs
unfolding count_task count_state
count_task-two i r r' [] ne = omega arith
count_task-two i r r' (x ∷ xs) ne = ground (arith, count_task-two i r r' xs)

-- Two runners cannot hold one state.
Holds-unique :
    (n : ℕ) (l : TaskLists) (t u : Task)
    → Holds n l t
    → Holds n l u
    → t.state_id ≡ u.state_id
    → t.runner_id ≡ u.runner_id
Holds-unique n l t u h g e = elim (ℕ_discrete t.runner_id u.runner_id) [
  | yes same ↦ same
  | no ne ↦
      let two = λ (xs : List SubTask). count_task-two u.state_id t.runner_id u.runner_id xs ne in
      absurd (
        omega (
          arith,
          two l.scheduled_sub_tasks,
          two l.running_sub_tasks,
          two l.finished_sub_tasks,
          rw e at h.has_all,
          g.has_all,
          g.has_sub_tasks,
        ))
]

-- Tasks of which each holds its state, no two of them the same state.
abbrev pub OtherStates : Task → List Task → Type 0
OtherStates t [] = Unit {0}
OtherStates t (u ∷ us) = (u.state_id ≢ t.state_id) × OtherStates t us

abbrev pub AllHold : ℕ → TaskLists → List Task → Type 0
AllHold n l [] = Unit {0}
AllHold n l (t ∷ ts) = Holds n l t × OtherStates t ts × AllHold n l ts

-- `std::set<Task>` is in strict order.
abbrev pub AllAfter : Task → List Task → Type 0
AllAfter t [] = Unit {0}
AllAfter t (u ∷ us) = (lt_task t u ≡ true) × AllAfter t us

abbrev pub InOrder : List Task → Type 0
InOrder [] = Unit {0}
InOrder (t ∷ ts) = AllAfter t ts × InOrder ts

lt_task_trans : (a b c : Task) → lt_task a b ≡ true → lt_task b c ≡ true → lt_task a c ≡ true
unfolding lt_task
lt_task_trans a b c h k = ground arith

AllAfter-mono : (a b : Task) (ts : List Task) → lt_task a b ≡ true → AllAfter b ts → AllAfter a ts
AllAfter-mono a b [] h k = tt
AllAfter-mono a b (t ∷ ts) h k = (lt_task_trans a b t h k.0, AllAfter-mono a b ts h k.1)

AllAfter-emplace_task :
    (a t : Task) (ts : List Task)
    → lt_task a t ≡ true
    → AllAfter a ts
    → AllAfter a (emplace_task t ts)
unfolding emplace_task
AllAfter-emplace_task a t [] h k = (h, tt)
AllAfter-emplace_task a t (u ∷ us) h k = ground (arith, AllAfter-emplace_task a t us h k.1)

lt_task-total :
    (t u : Task)
    → (t.state_id == u.state_id && t.runner_id == u.runner_id) ≡ false
    → lt_task t u ≡ false
    → lt_task u t ≡ true
unfolding lt_task
lt_task-total t u h k = ground arith

pub emplace_task-InOrder : (t : Task) (ts : List Task) → InOrder ts → InOrder (emplace_task t ts)
unfolding emplace_task
emplace_task-InOrder t [] o = (tt, tt)
emplace_task-InOrder t (u ∷ us) o = ground (
  arith,
  emplace_task-InOrder t us o.1,
  AllAfter-emplace_task u t us,
  AllAfter-mono t u us,
  lt_task-total t u,
)

-- A set of tasks of which each holds its state.
abbrev EachHolds : ℕ → TaskLists → List Task → Type 0
EachHolds n l [] = Unit {0}
EachHolds n l (t ∷ ts) = Holds n l t × EachHolds n l ts

EachHolds-emplace_task :
    (n : ℕ) (l : TaskLists) (t : Task) (ts : List Task)
    → Holds n l t
    → EachHolds n l ts
    → EachHolds n l (emplace_task t ts)
unfolding emplace_task
EachHolds-emplace_task n l t [] h e = (h, tt)
EachHolds-emplace_task n l t (u ∷ us) h e = elim (Bool-cases (same_task t u)) [
  | inl q ↦ rw q e
  | inr q ↦ elim (Bool-cases (lt_task t u)) [
    | inl q' ↦ rw (q, q') (h, e)
    | inr q' ↦ rw (q, q') (e.0, EachHolds-emplace_task n l t us h e.1)
  ]
]

lt_task-ne : (t u : Task) → lt_task t u ≡ true → t.state_id ≡ u.state_id → t.runner_id ≢ u.runner_id
unfolding lt_task
lt_task-ne t u h e = ground arith

EachHolds-OtherStates :
    (n : ℕ) (l : TaskLists) (t : Task) (ts : List Task)
    → Holds n l t
    → EachHolds n l ts
    → AllAfter t ts
    → OtherStates t ts
EachHolds-OtherStates n l t [] h e a = tt
EachHolds-OtherStates n l t (u ∷ us) h e a = (
  λ same. lt_task-ne t u a.0 (sym same) (Holds-unique n l t u h e.0 (sym same)),
  EachHolds-OtherStates n l t us h e.1 a.1,
)

EachHolds-AllHold :
    (n : ℕ) (l : TaskLists) (ts : List Task) → EachHolds n l ts → InOrder ts → AllHold n l ts
EachHolds-AllHold n l [] e o = tt
EachHolds-AllHold n l (t ∷ ts) e o =
    (e.0, EachHolds-OtherStates n l t ts e.0 e.1 o.0, EachHolds-AllHold n l ts e.1 o.1)

count_head : (x : SubTask) (xs : List SubTask) → 0 < count_task x.state_id x.runner_id (x ∷ xs)
unfolding count_task
count_head x xs = ground arith

count_tail :
    (i r : ℕ) (x : SubTask) (xs : List SubTask) → count_task i r xs ≤ count_task i r (x ∷ xs)
unfolding count_task
count_tail i r x xs = omega arith

-- What `check_due_dates` collects from one list on top of `ts`.
overdue-EachHolds :
    (n k now : ℕ) (l : TaskLists) (xs : List SubTask) (ts : List Task)
    → IsBalanced n k l
    → ((i r : ℕ) → count_task i r xs ≤ total_task i r l)
    → EachHolds n l ts × InOrder ts
    → EachHolds n l (overdue now xs ts) × InOrder (overdue now xs ts)
unfolding overdue
overdue-EachHolds n k now l [] ts v sub h = h
overdue-EachHolds n k now l (x ∷ xs) ts v sub h =
    overdue-EachHolds n k now l xs _ v (λ i r. omega (arith, count_tail i r x xs, sub i r))
      (add_if (ltb x.due_date now))
  where
    held : Holds n l (task_of x)
    held =
        Holds-of_count n k l (task_of x) v
          (omega (arith, count_head x xs, sub x.state_id x.runner_id))

    add_if :
        (b : Bool)
        → EachHolds n l (if b then emplace_task (task_of x) ts else ts)
          × InOrder (if b then emplace_task (task_of x) ts else ts)
    add_if true = (
      EachHolds-emplace_task n l (task_of x) ts held h.0,
      emplace_task-InOrder (task_of x) ts h.1,
    )
    add_if false = h

-- The tasks that `check_due_dates` is going to kill hold different states.
pub overdue-AllHold :
    (n k now : ℕ) (l : TaskLists)
    → IsBalanced n k l
    → AllHold n l (overdue now l.running_sub_tasks (overdue now l.scheduled_sub_tasks []))
overdue-AllHold n k now l v =
    let first =
      overdue-EachHolds n k now l l.scheduled_sub_tasks [] v (λ i r. omega arith) (tt, tt) in
    let all = overdue-EachHolds n k now l l.running_sub_tasks _ v (λ i r. omega arith) first in
    EachHolds-AllHold n l _ all.0 all.1
