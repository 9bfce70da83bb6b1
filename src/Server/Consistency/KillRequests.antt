-- ===== src/Server/Consistency/KillRequests.antt =====
-- `check_kill_requests` of server/server.cxx: what other ranks found to be overdue.
use fugaku_particle_filter.Prelude.{
  ◌≡◌, ◌≢◌, refl, sym, subst, ◌∙◌, ◌⊎◌, inl, inr, List, [], ◌∷◌, true, false, arith, ◌==◌, ◌||◌,
  Option, none, some, ℕ, ok, ◌>>=◌, >>=-eq-ok, check-inv, ok_inj, Bool-cases,
}
use mathlib.Core.Bool.{false≢true}
use fugaku_particle_filter.Server.{Config, Server, Task, has_task, emplace_task, same_task}
use fugaku_particle_filter.Server.Tasks.{kill_task, fail_state}
use fugaku_particle_filter.Server.Tasks.Frame.{erase_idle_runner-Undisturbed}
use fugaku_particle_filter.Server.Requests.{
  reschedule, notify_removed, handle_kill_request, handle_kill_requests, check_kill_requests,
}
use fugaku_particle_filter.Server.Ledger.Holding.{Holds}
use fugaku_particle_filter.Server.Consistency.{
  IsConsistent, Keeps, Keeps-same, kill_task-IsConsistent, kill_task-holding,
}
use fugaku_particle_filter.Server.Consistency.Timeouts.{reschedule-Keeps, fail_state-Keeps}

-- A kill request that rank 0 can act on: for a task that it has killed already, or for one that holds
-- its state here.
abbrev pub IsAnswerable : Config → Server → Task → Type 0
IsAnswerable c s t = (has_task t s.killed ≡ true) ⊎ Holds c.ensemble_size s.lists t

-- Another request is for the same task, or for another state.
abbrev pub IsApart : Task → Task → Type 0
IsApart t u = (u ≡ t) ⊎ (u.state_id ≢ t.state_id)

abbrev pub AllApart : Task → List (Option Task) → Type 0
AllApart t [] = Unit {0}
AllApart t (none ∷ us) = AllApart t us
AllApart t (some u ∷ us) = IsApart t u × AllApart t us

abbrev pub AllAnswerable : Config → Server → List (Option Task) → Type 0
AllAnswerable c s [] = Unit {0}
AllAnswerable c s (none ∷ ts) = AllAnswerable c s ts
AllAnswerable c s (some t ∷ ts) = IsAnswerable c s t × AllApart t ts × AllAnswerable c s ts

has_task-emplace_task :
    (t u : Task) (ts : List Task)
    → has_task u (emplace_task t ts) ≡ (same_task u t || has_task u ts)
unfolding has_task emplace_task
has_task-emplace_task t u [] = ground arith
has_task-emplace_task t u (v ∷ vs) = ground (arith, has_task-emplace_task t u vs)

has_task-kill_task :
    (t u : Task) (s : Server)
    → has_task u (kill_task t s).killed ≡ (same_task u t || has_task u s.killed)
unfolding kill_task
has_task-kill_task t u s =
    rw (erase_idle_runner-Undisturbed t.runner_id s).killed_same
      (has_task-emplace_task t u s.killed)

-- What a request leaves of the state: nothing has moved, or its task is killed.
record Handled (c : Config) (t : Task) (s s' : Server) : Type 0 where
  consistent : IsConsistent c s'
  is_killed_now : has_task t s'.killed ≡ true
  still_killed : (u : Task) → has_task u s.killed ≡ true → has_task u s'.killed ≡ true
  still_holding :
      (u : Task)
      → u.state_id ≢ t.state_id
      → Holds c.ensemble_size s.lists u
      → Holds c.ensemble_size s'.lists u

notify_removed-Keeps : (c : Config) (t : Task) (s : Server) → Keeps c s (notify_removed t s)
unfolding notify_removed
notify_removed-Keeps c t s = Keeps-same c s _ (ground arith) (ground arith) (ground arith)

Handled-known :
    (c : Config) (t : Task) (s : Server)
    → IsConsistent c s
    → has_task t (notify_removed t s).killed ≡ true
    → Handled c t s (notify_removed t s)
Handled-known c t s v known =
    let k = notify_removed-Keeps c t s in
    record {
      consistent = k.consistent v;
      is_killed_now = known;
      still_killed = λ u h. rw k.killed_same h;
      still_holding = λ u ne h. k.holding u v h;
    }

same_task_self : (t : Task) → same_task t t ≡ true
same_task_self t = ground arith

-- A new request: from `s` to `s1` nothing moves but the task is noted as killed.
Handled-new :
    (c : Config) (t : Task) (s s1 s2 : Server)
    → IsConsistent c s
    → Holds c.ensemble_size s.lists t
    → Keeps c (record s { killed = s1.killed }) s1
    → s1.killed ≡ emplace_task t s.killed
    → Keeps c (kill_task t s1) s2
    → Handled c t s s2
Handled-new c t s s1 s2 v h k e l =
    let v0 : IsConsistent c (record s { killed = s1.killed }) = record {
      balanced = v.balanced;
      connected = v.connected;
    } in
    let v1 = k.consistent v0 in
    let killed = kill_task-IsConsistent c t s1 v1 (k.holding t v0 h) in
    record {
      consistent = l.consistent killed;
      is_killed_now = rw (l.killed_same, has_task-kill_task t t s1, same_task_self t) refl;
      still_killed = λ u known.
          rw
            (l.killed_same, has_task-kill_task t u s1, e, has_task-emplace_task t u s.killed, known)
            (ground arith);
      still_holding =
          λ u ne hu. l.holding u killed (kill_task-holding c t u s1 ne (k.holding u v0 hu));
    }

Handled-after :
    (c : Config) (t : Task) (s n s' : Server)
    → Keeps c s n
    → Handled c t n s'
    → IsConsistent c s
    → Handled c t s s'
Handled-after c t s n s' k h v = record {
  consistent = h.consistent;
  is_killed_now = h.is_killed_now;
  still_killed = λ u known. h.still_killed u (rw k.killed_same known);
  still_holding = λ u ne hu. h.still_holding u ne (k.holding u v hu);
}

handle_kill_request-Handled :
    (c : Config) (now : ℕ) (t : Task) (s s' : Server)
    → handle_kill_request c now t s ≡ ok s'
    → IsConsistent c s
    → IsAnswerable c s t
    → Handled c t s s'
unfolding handle_kill_request
handle_kill_request-Handled c now t s s' e v a =
    elim (Bool-cases (has_task t (notify_removed t s).killed)) [
      | inl known ↦
          subst (Handled c t s) (ok_inj (notify_removed t s) s' (rw known at e))
            (Handled-known c t s v known)
      | inr new ↦ fresh a new (rw new at e)
    ]
  where
    n : Server
    n = notify_removed t s

    noted : Server
    noted = record n { killed = emplace_task t n.killed }

    kept : Keeps c s n
    kept = notify_removed-Keeps c t s

    fresh :
        IsAnswerable c s t
        → has_task t n.killed ≡ false
        → (fail_state c t.state_id noted >>= λ s1. reschedule c now (kill_task t s1)) ≡ ok s'
        → Handled c t s s'
    fresh (inl known) new h = absurd (false≢true (sym new ∙ rw kept.killed_same known))
    fresh (inr held) new h =
        let (s1, failed, rest) = >>=-eq-ok (fail_state c t.state_id noted) _ h in
        let f = fail_state-Keeps c t.state_id noted s1 failed in
        Handled-after c t s n s' kept
          (Handled-new c t n s1 s' (kept.consistent v) (kept.holding t v held)
            (subst (λ k. Keeps c (record n { killed = k }) s1) (sym f.killed_same) f) f.killed_same
            (reschedule-Keeps c now (kill_task t s1) s' rest))
          v

AllAnswerable-after :
    (c : Config) (t : Task) (ts : List (Option Task)) (s s' : Server)
    → Handled c t s s'
    → AllApart t ts
    → AllAnswerable c s ts
    → AllAnswerable c s' ts
AllAnswerable-after c t [] s s' h o a = tt
AllAnswerable-after c t (none ∷ us) s s' h o a = AllAnswerable-after c t us s s' h o a
AllAnswerable-after c t (some u ∷ us) s s' h o a =
    (one o.0 a.0, a.1, AllAnswerable-after c t us s s' h o.1 a.2)
  where
    one : IsApart t u → IsAnswerable c s u → IsAnswerable c s' u
    one (inl same) b = inl (rw same h.is_killed_now)
    one (inr ne) (inl known) = inl (h.still_killed u known)
    one (inr ne) (inr held) = inr (h.still_holding u ne held)

handle_kill_requests-IsConsistent :
    (c : Config) (now : ℕ) (ts : List (Option Task)) (s s' : Server)
    → handle_kill_requests c now ts s ≡ ok s'
    → IsConsistent c s
    → AllAnswerable c s ts
    → IsConsistent c s'
unfolding handle_kill_requests
handle_kill_requests-IsConsistent c now [] s s' e v a = subst (IsConsistent c) (ok_inj s s' e) v
handle_kill_requests-IsConsistent c now (none ∷ ts) s s' e v a =
    handle_kill_requests-IsConsistent c now ts s s' e v a
handle_kill_requests-IsConsistent c now (some t ∷ ts) s s' e v a =
    let (s1, handled, rest) = >>=-eq-ok (handle_kill_request c now t s) _ e in
    let h = handle_kill_request-Handled c now t s s1 handled v a.0 in
    handle_kill_requests-IsConsistent c now ts s1 s' rest h.consistent
      (AllAnswerable-after c t ts s s1 h a.1 a.2)

-- When `check_kill_requests` returns, the books of rank 0 are balanced, if they were before, each
-- request is for a task that rank 0 has killed already or whose runner has all the sub tasks of its
-- state, and two requests for one state are for one task.
pub check_kill_requests-IsConsistent :
    (c : Config) (now : ℕ) (ts : List (Option Task)) (s s' : Server)
    → check_kill_requests c now ts s ≡ ok s'
    → IsConsistent c s
    → AllAnswerable c s ts
    → IsConsistent c s'
unfolding check_kill_requests
check_kill_requests-IsConsistent c now ts s s' e v a =
    handle_kill_requests-IsConsistent c now ts s s' ((check-inv (c.comm_rank == 0) _ e).1) v a
