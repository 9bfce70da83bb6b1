-- ===== src/Server/Consistency/Timeouts.antt =====
-- `check_due_dates` of server/server.cxx, which gives up runners and reschedules their states.
use fugaku_particle_filter.Prelude.{
  ℕ, ◌≡◌, refl, subst, inl, inr, List, [], ◌∷◌, ◌++◌, arith, ◌==◌, length, ok, ◌>>=◌, >>=-eq-ok,
  ok_inj, Bool-cases,
}
use fugaku_particle_filter.Server.{Config, Server, Task, Runner, notify, timeout, kill_request}
use fugaku_particle_filter.Server.Connections.{get_completely_idle_runner}
use fugaku_particle_filter.Server.Tasks.{kill_task, fail_state, schedule_new_task}
use fugaku_particle_filter.Server.Requests.{
  schedule_on_first, is_present, reschedule, expire_task, expire_tasks, check_due_dates,
}
use fugaku_particle_filter.Server.Ledger.Holding.{OtherStates, AllHold, overdue-AllHold}
use fugaku_particle_filter.Server.Consistency.{
  IsConsistent, Keeps, Keeps-trans, Keeps-same, schedule_new_task-Keeps, kill_task-IsConsistent,
  kill_task-holding,
}

schedule_on_first-Keeps :
    (c : Config) (now : ℕ) (m : List (ℕ × Runner)) (s s' : Server)
    → schedule_on_first c now m s ≡ ok s'
    → Keeps c s s'
schedule_on_first-Keeps c now [] s s' e = cc
schedule_on_first-Keeps c now ((runner_id, r) ∷ m) s s' e =
    let ((b, s1), scheduled, rest) = >>=-eq-ok (schedule_new_task c now runner_id s) _ e in
    subst (Keeps c s) (ok_inj s1 s' rest) (schedule_new_task-Keeps c now runner_id s s1 b scheduled)

pub reschedule-Keeps :
    (c : Config) (now : ℕ) (s s' : Server) → reschedule c now s ≡ ok s' → Keeps c s s'
unfolding reschedule
reschedule-Keeps c now s s' e = elim (Bool-cases (is_present (get_completely_idle_runner s))) [
  | inl h ↦ schedule_on_first-Keeps c now s.idle_runners s s' (rw h at e)
  | inr h ↦
      Keeps-same c s s' (ground (arith, rw h at e)) (ground (arith, rw h at e))
        (ground (arith, rw h at e))
]

pub fail_state-Keeps :
    (c : Config) (state_id : ℕ) (s s' : Server) → fail_state c state_id s ≡ ok s' → Keeps c s s'
unfolding fail_state
fail_state-Keeps c state_id s s' e = Keeps-same c s s' (ground arith) (ground arith) (ground arith)

-- After the kill, what is done about it keeps the books.
pub expire_task-Keeps :
    (c : Config) (now : ℕ) (t : Task) (s s' : Server)
    → expire_task c now t s ≡ ok s'
    → Keeps c (kill_task t s) s'
unfolding expire_task
expire_task-Keeps c now t s s' e = elim (Bool-cases (c.comm_rank == 0)) [
  | inl h ↦ master (rw h at e)
  | inr h ↦ other (rw h at e)
]
  where
    told : Server
    told = record (kill_task t s) {
      sent = (kill_task t s).sent ++ (notify t.runner_id timeout ∷ []);
    }

    asked : Server
    asked = record (kill_task t s) { sent = (kill_task t s).sent ++ (kill_request t ∷ []) }

    master :
        (fail_state c t.state_id told >>= reschedule c now) ≡ ok s' → Keeps c (kill_task t s) s'
    master h =
        let (s1, failed, rest) = >>=-eq-ok (fail_state c t.state_id told) _ h in
        Keeps-trans c (kill_task t s) s1 s'
          (Keeps-trans c (kill_task t s) told s1 (Keeps-same c (kill_task t s) told refl refl refl)
            (fail_state-Keeps c t.state_id told s1 failed))
          (reschedule-Keeps c now s1 s' rest)

    other : ok asked ≡ ok s' → Keeps c (kill_task t s) s'
    other h =
        subst (Keeps c (kill_task t s)) (ok_inj asked s' h)
          (Keeps-same c (kill_task t s) asked refl refl refl)

expire_task-AllHold :
    (c : Config) (now : ℕ) (t : Task) (ts : List Task) (s s' : Server)
    → expire_task c now t s ≡ ok s'
    → IsConsistent c (kill_task t s)
    → OtherStates t ts
    → AllHold c.ensemble_size s.lists ts
    → AllHold c.ensemble_size s'.lists ts
expire_task-AllHold c now t [] s s' e v o h = tt
expire_task-AllHold c now t (u ∷ us) s s' e v o h = (
  (expire_task-Keeps c now t s s' e).holding u v (kill_task-holding c t u s o.0 h.0),
  h.1,
  expire_task-AllHold c now t us s s' e v o.1 h.2,
)

expire_tasks-IsConsistent :
    (c : Config) (now : ℕ) (ts : List Task) (s s' : Server)
    → expire_tasks c now ts s ≡ ok s'
    → IsConsistent c s
    → AllHold c.ensemble_size s.lists ts
    → IsConsistent c s'
unfolding expire_tasks
expire_tasks-IsConsistent c now [] s s' e v h = subst (IsConsistent c) (ok_inj s s' e) v
expire_tasks-IsConsistent c now (t ∷ ts) s s' e v h =
    let (s1, expired, rest) = >>=-eq-ok (expire_task c now t s) _ e in
    let killed = kill_task-IsConsistent c t s v h.0 in
    expire_tasks-IsConsistent c now ts s1 s' rest
      ((expire_task-Keeps c now t s s1 expired).consistent killed)
      (expire_task-AllHold c now t ts s s1 expired killed h.1 h.2)

-- When `check_due_dates` returns, the books are balanced if they were before, whatever tasks have
-- been killed and rescheduled.
pub check_due_dates-IsConsistent :
    (c : Config) (now : ℕ) (s s' : Server)
    → check_due_dates c now s ≡ ok s'
    → IsConsistent c s
    → IsConsistent c s'
unfolding check_due_dates
check_due_dates-IsConsistent c now s s' e v = expire_tasks-IsConsistent c now _ s s' e v (
    overdue-AllHold c.ensemble_size (length (s.field.connected_runner_ranks)) now s.lists
      v.balanced)
