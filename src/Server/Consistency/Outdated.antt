-- ===== src/Server/Consistency/Outdated.antt =====
-- `check_schedule_new_tasks` of server/server.cxx: what its loop over one list of sub tasks leaves.
use fugaku_particle_filter.Prelude.{
  ◌<◌, ◌≡◌, ◌≢◌, refl, ap, subst, ◌∙◌, ◌⊎◌, inl, inr, List, [], ◌∷◌, false, arith, ◌==◌,
  if◌then◌else◌, ℕ, Bool-cases, ==_iff,
}
use native.Mathlib.Decide.{ℕ_discrete}
use fugaku_particle_filter.Containers.{set_count, set_insert}
use fugaku_particle_filter.Containers.Sets.{Ascending, set_count-set_insert, set_insert-Ascending}
use fugaku_particle_filter.Server.{Server, Task, SubTask, has_task, emplace_task}
use fugaku_particle_filter.Server.Tasks.{erase_idle_runner, outdate}
use fugaku_particle_filter.Server.Tasks.Frame.{erase_idle_runner-Undisturbed, Undisturbed}
use fugaku_particle_filter.Server.Ledger.{count_state, count_task}

-- What `outdate` makes of one list: the sub tasks of the state are gone, and if there were any the
-- state may have joined the unscheduled ones.
pub record Outdated (state_id : ℕ) (xs : List SubTask) (s : Server) (kept : List SubTask)
    (s' : Server) : Type 0 where
  pub scheduled_same : s'.lists.scheduled_sub_tasks ≡ s.lists.scheduled_sub_tasks
  pub running_same : s'.lists.running_sub_tasks ≡ s.lists.running_sub_tasks
  pub finished_same : s'.lists.finished_sub_tasks ≡ s.lists.finished_sub_tasks
  pub field_same : s'.field ≡ s.field
  pub ascending : Ascending s.lists.unscheduled_tasks → Ascending s'.lists.unscheduled_tasks
  pub others_waiting :
      (i : ℕ)
      → Ascending s.lists.unscheduled_tasks
      → i ≢ state_id
      → set_count i s'.lists.unscheduled_tasks ≡ set_count i s.lists.unscheduled_tasks
  pub waiting :
      Ascending s.lists.unscheduled_tasks
      → (set_count state_id s'.lists.unscheduled_tasks
          ≡ set_count state_id s.lists.unscheduled_tasks)
        ⊎ (0 < count_state state_id xs)
  pub states : (i : ℕ) → count_state i kept ≡ (if i == state_id then 0 else count_state i xs)
  pub tasks : (i r : ℕ) → count_task i r kept ≡ (if i == state_id then 0 else count_task i r xs)

-- What is noted for a sub task of the state on a runner that was not known to be dead.
dropped : SubTask → Server → Server
dropped st s =
    let t : Task = record { state_id = st.state_id; runner_id = st.runner_id } in
    if has_task t s.killed
    then s
    else erase_idle_runner st.runner_id (record s {
      killed = emplace_task t s.killed;
      lists = record (s.lists) {
        unscheduled_tasks = set_insert st.state_id s.lists.unscheduled_tasks;
      };
    })

record Dropped (state_id : ℕ) (s s' : Server) : Type 0 where
  scheduled_same : s'.lists.scheduled_sub_tasks ≡ s.lists.scheduled_sub_tasks
  running_same : s'.lists.running_sub_tasks ≡ s.lists.running_sub_tasks
  finished_same : s'.lists.finished_sub_tasks ≡ s.lists.finished_sub_tasks
  field_same : s'.field ≡ s.field
  waiting :
      (s'.lists.unscheduled_tasks ≡ s.lists.unscheduled_tasks)
      ⊎ (s'.lists.unscheduled_tasks ≡ set_insert state_id s.lists.unscheduled_tasks)

dropped-Dropped : (st : SubTask) (s : Server) → Dropped st.state_id s (dropped st s)
unfolding dropped
dropped-Dropped st s =
    elim (Bool-cases
      (has_task (record { state_id = st.state_id; runner_id = st.runner_id }) s.killed)) [
        | inl h ↦ rw h (record {
          scheduled_same = refl;
          running_same = refl;
          finished_same = refl;
          field_same = refl;
          waiting = inl refl;
        })
        | inr h ↦ rw h (record {
          scheduled_same = ap (λ l. l.scheduled_sub_tasks) u.lists_same;
          running_same = ap (λ l. l.running_sub_tasks) u.lists_same;
          finished_same = ap (λ l. l.finished_sub_tasks) u.lists_same;
          field_same = u.field_same;
          waiting = inr (ap (λ l. l.unscheduled_tasks) u.lists_same);
        })
      ]
  where
    noted : Server
    noted = record s {
      killed = emplace_task (record { state_id = st.state_id; runner_id = st.runner_id }) s.killed;
      lists = record (s.lists) {
        unscheduled_tasks = set_insert st.state_id s.lists.unscheduled_tasks;
      };
    }

    u : Undisturbed noted (erase_idle_runner st.runner_id noted)
    u = erase_idle_runner-Undisturbed st.runner_id noted

outdate-cons :
    (state_id : ℕ) (st : SubTask) (sts : List SubTask) (s : Server)
    → outdate state_id (st ∷ sts) s ≡ (
        if st.state_id == state_id
        then outdate state_id sts (dropped st s)
        else (st ∷ (outdate state_id sts s).0, (outdate state_id sts s).1))
unfolding outdate dropped
outdate-cons state_id st sts s = refl

outdate-nil : (state_id : ℕ) (s : Server) → Outdated state_id [] s [] s
unfolding count_state count_task
outdate-nil state_id s = record {
  scheduled_same = refl;
  running_same = refl;
  finished_same = refl;
  field_same = refl;
  ascending = λ a. a;
  others_waiting = λ i a ne. refl;
  waiting = λ a. inl refl;
  states = λ i. ground arith;
  tasks = λ i r. ground arith;
}

Dropped-Ascending :
    (state_id : ℕ) (s s' : Server)
    → Dropped state_id s s'
    → Ascending s.lists.unscheduled_tasks
    → Ascending s'.lists.unscheduled_tasks
Dropped-Ascending state_id s s' d a = elim d.waiting [
  | inl e ↦ rw e a
  | inr e ↦ rw e (set_insert-Ascending state_id s.lists.unscheduled_tasks a)
]

Dropped-others :
    (state_id i : ℕ) (s s' : Server)
    → Dropped state_id s s'
    → Ascending s.lists.unscheduled_tasks
    → i ≢ state_id
    → set_count i s'.lists.unscheduled_tasks ≡ set_count i s.lists.unscheduled_tasks
Dropped-others state_id i s s' d a ne = elim d.waiting [
  | inl e ↦ rw e refl
  | inr e ↦ rw e (ground (arith, set_count-set_insert i state_id s.lists.unscheduled_tasks a))
]

outdate-hit :
    (state_id : ℕ) (st : SubTask) (sts : List SubTask) (s s1 : Server) (kept : List SubTask)
    (s' : Server)
    → st.state_id ≡ state_id
    → Dropped state_id s s1
    → Outdated state_id sts s1 kept s'
    → Outdated state_id (st ∷ sts) s kept s'
unfolding count_state count_task
outdate-hit state_id st sts s s1 kept s' e d o = record {
  scheduled_same = o.scheduled_same ∙ d.scheduled_same;
  running_same = o.running_same ∙ d.running_same;
  finished_same = o.finished_same ∙ d.finished_same;
  field_same = o.field_same ∙ d.field_same;
  ascending = λ a. o.ascending (Dropped-Ascending state_id s s1 d a);
  others_waiting = λ i a ne.
      o.others_waiting i (Dropped-Ascending state_id s s1 d a) ne
      ∙ Dropped-others state_id i s s1 d a ne;
  waiting = λ a. inr (ground arith);
  states = λ i. ground (arith, o.states i);
  tasks = λ i r. ground (arith, o.tasks i r);
}

outdate-miss :
    (state_id : ℕ) (st : SubTask) (sts : List SubTask) (s : Server) (kept : List SubTask)
    (s' : Server)
    → st.state_id ≢ state_id
    → Outdated state_id sts s kept s'
    → Outdated state_id (st ∷ sts) s (st ∷ kept) s'
unfolding count_state count_task
outdate-miss state_id st sts s kept s' ne o = record {
  scheduled_same = o.scheduled_same;
  running_same = o.running_same;
  finished_same = o.finished_same;
  field_same = o.field_same;
  ascending = o.ascending;
  others_waiting = o.others_waiting;
  waiting = λ a. ground (arith, o.waiting a);
  states = λ i. ground (arith, o.states i);
  tasks = λ i r. ground (arith, o.tasks i r);
}

pub outdate-Outdated :
    (state_id : ℕ) (xs : List SubTask) (s : Server)
    → Outdated state_id xs s (outdate state_id xs s).0 (outdate state_id xs s).1
outdate-Outdated state_id [] s = unfold outdate in outdate-nil state_id s
outdate-Outdated state_id (st ∷ sts) s = elim (ℕ_discrete st.state_id state_id) [
  | yes e ↦
      rw (outdate-cons state_id st sts s, (==_iff st.state_id state_id).1 e)
        (outdate-hit state_id st sts s (dropped st s) _ _ e
          (subst (λ i. Dropped i s (dropped st s)) e (dropped-Dropped st s))
          (outdate-Outdated state_id sts (dropped st s)))
  | no ne ↦
      rw (outdate-cons state_id st sts s, eq_false ne)
        (outdate-miss state_id st sts s _ _ ne (outdate-Outdated state_id sts s))
]
  where
    eq_false : st.state_id ≢ state_id → (st.state_id == state_id) ≡ false
    eq_false ne = ground arith
