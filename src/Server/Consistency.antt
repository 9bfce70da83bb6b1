-- ===== src/Server/Consistency.antt =====
-- The invariant of a server rank in the simulation phase of server/server.cxx, for the calls which
-- deal out tasks and give up runners.
pub mod Timeouts
pub mod KillRequests
pub mod Extraction
pub mod Responses
pub mod Beginning
pub mod Updates
pub mod Outdated
pub mod Rescheduled
use fugaku_particle_filter.Prelude.{
  ℕ, zero, suc, ◌+◌, ◌*◌, ◌≤◌, ◌<◌, ◌≡◌, refl, sym, ap, subst, ◌∙◌, List, [], ◌∷◌, Bool, true,
  false, arith, ltb, ◌==◌, if◌then◌else◌, length, Option, none, some, Result, ok, err, ◌>>=◌,
  List-cases, inl, inr, ◌≢◌, >>=-eq-ok, check-inv, ok_inj,
}
use fugaku_particle_filter.Prelude.Int.{pos}
use fugaku_particle_filter.Containers.{set_count}
use fugaku_particle_filter.Field.{Field}
use fugaku_particle_filter.Server.{Config, Server, TaskLists, Task, NewTask, Sent}
use fugaku_particle_filter.Server.Tasks.{
  get_due_date, add_sub_tasks, announce, schedule_state, schedule_new_task, kill_task, kill_lists,
  erase_idle_runner,
}
use fugaku_particle_filter.Server.Tasks.Frame.{Undisturbed, erase_idle_runner-Undisturbed}
use fugaku_particle_filter.Server.Tasks.Assign.{
  Assigned, add_sub_tasks-Assigned, Assigned-IsBalanced,
}
use fugaku_particle_filter.Server.Ledger.{IsBalanced, total_state, total_task}
use fugaku_particle_filter.Server.Ledger.Moves.{kill_lists-IsBalanced}
use fugaku_particle_filter.Server.Ledger.Holding.{
  Holds, Holds-kill_lists, Holds-Assigned, OtherStates, AllHold,
}

-- The books are balanced, for the ensemble and the runner ranks that this rank talks to.
pub record IsConsistent (c : Config) (s : Server) : Type 0 where
  pub balanced : IsBalanced c.ensemble_size (length s.field.connected_runner_ranks) s.lists
  pub connected : 0 < length s.field.connected_runner_ranks

-- A step that keeps the invariant and takes no state away from the runner that holds it.
pub record Keeps (c : Config) (s s' : Server) : Type 0 where
  pub consistent : IsConsistent c s → IsConsistent c s'
  pub holding :
      (u : Task)
      → IsConsistent c s
      → Holds c.ensemble_size s.lists u
      → Holds c.ensemble_size s'.lists u
  pub killed_same : s'.killed ≡ s.killed

pub Keeps-trans : (c : Config) (a b d : Server) → Keeps c a b → Keeps c b d → Keeps c a d
Keeps-trans c a b d k l = record {
  consistent = λ v. l.consistent (k.consistent v);
  holding = λ u v h. l.holding u (k.consistent v) (k.holding u v h);
  killed_same = l.killed_same ∙ k.killed_same;
}

-- A step that leaves the lists and the field's ranks as they were.
pub Keeps-same :
    (c : Config) (s s' : Server)
    → s'.lists ≡ s.lists
    → s'.field.connected_runner_ranks ≡ s.field.connected_runner_ranks
    → s'.killed ≡ s.killed
    → Keeps c s s'
Keeps-same c s s' l f k = record {
  consistent = λ v. record { balanced = rw (l, f) v.balanced; connected = rw f v.connected };
  holding = λ u v h. rw l h;
  killed_same = k;
}

Keeps-Assigned : (c : Config) (t : NewTask) (s s' : Server) → Assigned t s s' → Keeps c s s'
Keeps-Assigned c t s s' a = record {
  consistent = λ v. record {
    balanced = rw a.field_same (
        Assigned-IsBalanced c.ensemble_size (length (s.field.connected_runner_ranks)) t s s' a refl
          v.balanced);
    connected = rw a.field_same v.connected;
  };
  holding = λ u v h.
      Holds-Assigned c.ensemble_size (length (s.field.connected_runner_ranks)) t u s s' a v.balanced
        h;
  killed_same = a.killed_same;
}

pub add_sub_tasks-Keeps :
    (c : Config) (t : NewTask) (s s' : Server) → add_sub_tasks c t s ≡ ok s' → Keeps c s s'
add_sub_tasks-Keeps c t s s' e = Keeps-Assigned c t s s' (add_sub_tasks-Assigned c t s s' e)

schedule_state-Keeps :
    (c : Config) (now runner_id state_id : ℕ) (s s' : Server) (b : Bool)
    → schedule_state c now runner_id state_id s ≡ ok (b, s')
    → Keeps c s s'
unfolding schedule_state
schedule_state-Keeps c now runner_id state_id s s' b e =
    let t : NewTask = record {
      runner_id = runner_id;
      state_id = state_id;
      due_date = get_due_date c now;
      task_id = s.task_id + 1;
    } in
    let s0 : Server = record s { task_id = s.task_id + 1; finished_ranks = pos 0 } in
    let (s1, added, rest) = >>=-eq-ok (add_sub_tasks c t s0) _ e in
    Keeps-trans c s s1 s'
      (Keeps-trans c s s0 s1 (Keeps-same c s s0 refl refl refl)
        (add_sub_tasks-Keeps c t s0 s1 added))
      (Keeps-same c s1 s' (ground (arith, rest)) (ground (arith, rest)) (ground (arith, rest)))

pub schedule_new_task-Keeps :
    (c : Config) (now runner_id : ℕ) (s s' : Server) (b : Bool)
    → schedule_new_task c now runner_id s ≡ ok (b, s')
    → Keeps c s s'
unfolding schedule_new_task
schedule_new_task-Keeps c now runner_id s s' b e =
    let (_, e1) = check-inv (c.comm_rank == 0) _ e in
    elim (List-cases s.lists.unscheduled_tasks) [
      | inl l ↦ nothing (rw l at e1)
      | inr (x, xs, l) ↦ schedule_state-Keeps c now runner_id x s s' b (rw l at e1)
    ]
  where
    nothing : ◌≡◌ {A = Result (Bool × Server)} (ok (false, s)) (ok (b, s')) → Keeps c s s'
    nothing h = Keeps-same c s s' (ground arith) (ground arith) (ground arith)

-- Killing a task that holds its state.
pub kill_task-IsConsistent :
    (c : Config) (t : Task) (s : Server)
    → IsConsistent c s
    → Holds c.ensemble_size s.lists t
    → IsConsistent c (kill_task t s)
unfolding kill_task
kill_task-IsConsistent c t s v h =
    let u = erase_idle_runner-Undisturbed t.runner_id s in
    record {
      balanced =
          rw (u.lists_same, u.field_same)
            (kill_lists-IsBalanced c.ensemble_size (length (s.field.connected_runner_ranks)) t
              s.lists v.balanced h.state_in h.has_all);
      connected = rw u.field_same v.connected;
    }

pub kill_task-holding :
    (c : Config) (t u : Task) (s : Server)
    → u.state_id ≢ t.state_id
    → Holds c.ensemble_size s.lists u
    → Holds c.ensemble_size (kill_task t s).lists u
unfolding kill_task
kill_task-holding c t u s ne h =
    rw (erase_idle_runner-Undisturbed t.runner_id s).lists_same
      (Holds-kill_lists c.ensemble_size t u s.lists ne h)
