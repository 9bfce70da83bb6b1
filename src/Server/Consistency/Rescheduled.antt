-- ===== src/Server/Consistency/Rescheduled.antt =====
-- `check_schedule_new_tasks` of server/server.cxx, on a rank other than 0: a new task of rank 0 may
-- be for a state that this rank believes to be on another runner.
use fugaku_particle_filter.Prelude.{
  ◌+◌, ◌*◌, ◌<◌, ◌≡◌, ◌≢◌, sym, ap, subst, ◌∙◌, ◌⊎◌, inl, inr, arith, ◌==◌, ltb, not, if◌then◌else◌,
  length, max, Option, none, some, ℕ, ok, check-inv, ok_inj,
}
use native.Mathlib.Decide.{ℕ_discrete}
use fugaku_particle_filter.Containers.{set_count}
use fugaku_particle_filter.Containers.Sets.{Ascending}
use fugaku_particle_filter.Server.{Config, Server, NewTask}
use fugaku_particle_filter.Server.Tasks.{
  outdate, outdate_lists, add_sub_tasks, check_schedule_new_tasks,
}
use fugaku_particle_filter.Server.Tasks.Assign.{add_sub_tasks-Assigned, Assigned-IsBalanced}
use fugaku_particle_filter.Server.Ledger.{
  IsBalanced, count_state, count_task, total_state, total_task,
}
use fugaku_particle_filter.Server.Consistency.{IsConsistent}
use fugaku_particle_filter.Server.Consistency.Outdated.{outdate-Outdated}

-- The three lists together.
record AllOutdated (state_id : ℕ) (s s' : Server) : Type 0 where
  field_same : s'.field ≡ s.field
  ascending : Ascending s'.lists.unscheduled_tasks
  others_waiting :
      (i : ℕ)
      → i ≢ state_id
      → set_count i s'.lists.unscheduled_tasks ≡ set_count i s.lists.unscheduled_tasks
  waiting :
      (set_count state_id s'.lists.unscheduled_tasks ≡ set_count state_id s.lists.unscheduled_tasks)
      ⊎ (0 < total_state state_id s.lists)
  states : (i : ℕ) → total_state i s'.lists ≡ (if i == state_id then 0 else total_state i s.lists)
  tasks :
      (i r : ℕ) → total_task i r s'.lists ≡ (if i == state_id then 0 else total_task i r s.lists)

outdate_lists-AllOutdated :
    (state_id : ℕ) (s : Server)
    → Ascending s.lists.unscheduled_tasks
    → AllOutdated state_id s (outdate_lists state_id s)
unfolding outdate_lists
outdate_lists-AllOutdated state_id s a =
    let r1 = outdate state_id s.lists.scheduled_sub_tasks s in
    let o1 = outdate-Outdated state_id s.lists.scheduled_sub_tasks s in
    let r2 = outdate state_id (r1.1).lists.running_sub_tasks (r1.1) in
    let o2 = outdate-Outdated state_id (r1.1).lists.running_sub_tasks (r1.1) in
    let o3 = outdate-Outdated state_id (r2.1).lists.finished_sub_tasks (r2.1) in
    let a1 = o1.ascending a in
    let a2 = o2.ascending a1 in
    let same2 = o1.running_same in
    let same3 = o2.finished_same ∙ o1.finished_same in
    record {
      field_same = o3.field_same ∙ o2.field_same ∙ o1.field_same;
      ascending = o3.ascending a2;
      others_waiting =
          λ i ne. o3.others_waiting i a2 ne ∙ o2.others_waiting i a1 ne ∙ o1.others_waiting i a ne;
      waiting = ground (
        arith,
        o1.waiting a,
        o2.waiting a1,
        o3.waiting a2,
        ap (count_state state_id) same2,
        ap (count_state state_id) same3,
      );
      states = λ i. ground (
        arith,
        o1.states i,
        o2.states i,
        o3.states i,
        ap (count_state i) same2,
        ap (count_state i) same3,
      );
      tasks = λ i r. ground (
        arith,
        o1.tasks i r,
        o2.tasks i r,
        o3.tasks i r,
        ap (count_task i r) same2,
        ap (count_task i r) same3,
      );
    }

AllOutdated-state_in :
    (n k state_id : ℕ) (s s' : Server)
    → AllOutdated state_id s s'
    → IsBalanced n k s.lists
    → 0 < k
    → set_count state_id s'.lists.unscheduled_tasks ≡ 1
    → state_id < n
AllOutdated-state_in n k state_id s s' o v pos one = elim o.waiting [
  | inl same ↦ ground (arith, rw (sym same ∙ one) at (v.balance state_id))
  | inr some_left ↦ ground (arith, v.balance state_id)
]

AllOutdated-balance :
    (n k state_id i : ℕ) (s s' : Server)
    → AllOutdated state_id s s'
    → IsBalanced n k s.lists
    → 0 < k
    → set_count state_id s'.lists.unscheduled_tasks ≡ 1
    → set_count i s'.lists.unscheduled_tasks * k + total_state i s'.lists
      ≡ (if ltb i n then k else 0)
AllOutdated-balance n k state_id i s s' o v pos one = elim (ℕ_discrete i state_id) [
  | yes e ↦
      rw (e, one)
        (ground (arith, o.states state_id, AllOutdated-state_in n k state_id s s' o v pos one))
  | no ne ↦ rw (o.others_waiting i ne) (ground (arith, o.states i, v.balance i))
]

AllOutdated-IsBalanced :
    (n k state_id : ℕ) (s s' : Server)
    → AllOutdated state_id s s'
    → IsBalanced n k s.lists
    → 0 < k
    → set_count state_id s'.lists.unscheduled_tasks ≡ 1
    → IsBalanced n k s'.lists
AllOutdated-IsBalanced n k state_id s s' o v pos one = record {
  ascending = o.ascending;
  balance = λ i. AllOutdated-balance n k state_id i s s' o v pos one;
  one_runner = λ i r. ground (arith, o.states i, o.tasks i r, v.one_runner i r);
}

reschedule_state :
    (c : Config) (t : NewTask) (s s' : Server)
    → add_sub_tasks c t (outdate_lists t.state_id s) ≡ ok s'
    → IsConsistent c s
    → IsConsistent c s'
reschedule_state c t s s' e v =
    let o = outdate_lists-AllOutdated t.state_id s v.balanced.ascending in
    let a = add_sub_tasks-Assigned c t (outdate_lists t.state_id s) s' e in
    let k = length (s.field.connected_runner_ranks) in
    record {
      balanced = rw (a.field_same ∙ o.field_same) (
          Assigned-IsBalanced c.ensemble_size k t (outdate_lists t.state_id s) s' a
            (ap (λ f. length (f.connected_runner_ranks)) o.field_same)
            (AllOutdated-IsBalanced c.ensemble_size k t.state_id s (outdate_lists t.state_id s) o
              v.balanced v.connected a.was_waiting));
      connected = rw (a.field_same ∙ o.field_same) v.connected;
    }

-- When `check_schedule_new_tasks` returns, with or without a message of rank 0, the books are
-- balanced if they were before, also when the state of the message was on another runner.
pub check_schedule_new_tasks-IsConsistent :
    (c : Config) (received : Option NewTask) (s s' : Server)
    → check_schedule_new_tasks c received s ≡ ok s'
    → IsConsistent c s
    → IsConsistent c s'
unfolding check_schedule_new_tasks
check_schedule_new_tasks-IsConsistent c none s s' e v =
    subst (IsConsistent c) (ok_inj s s' ((check-inv (not (c.comm_rank == 0)) _ e).1)) v
check_schedule_new_tasks-IsConsistent c (some t) s s' e v =
    reschedule_state c t
      (record s { highest_received_task_id = max t.task_id s.highest_received_task_id }) s'
      ((check-inv (not (c.comm_rank == 0)) _ e).1)
      (record { balanced = v.balanced; connected = v.connected })
