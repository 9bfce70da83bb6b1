-- ===== src/Server/Loop/Assertion.antt =====
-- The assertion in the main loop of server/server.cxx that all tasks are somewhere.
use fugaku_particle_filter.Prelude.{
  ◌≡◌, refl, sym, ap, subst, ◌∙◌, inl, inr, Bool, true, false, arith, ltb, ◌==◌, if◌then◌else◌,
  length, ok, >>=-eq-ok, ok_inj, Bool-cases, Result-cases, ==_iff, Option-cases,
}
use mathlib.Core.Bool.{false≢true}
use fugaku_particle_filter.Server.{Config, Server}
use fugaku_particle_filter.Server.Requests.{check_due_dates}
use fugaku_particle_filter.Server.Updates.{UpdateStep, check_finished}
use fugaku_particle_filter.Server.Ledger.Total.{IsBalanced-total}
use fugaku_particle_filter.Server.Loop.{
  Round, LoopState, watch_launcher, check_runners, check_each_second, take_new_tasks, take_response,
  simulate, tasks_are_somewhere, assert_tasks, simulation_round,
}
use fugaku_particle_filter.Server.Consistency.{IsConsistent, Keeps-same}
use fugaku_particle_filter.Server.Consistency.Timeouts.{check_due_dates-IsConsistent}
use fugaku_particle_filter.Server.Consistency.KillRequests.{
  AllAnswerable, check_kill_requests-IsConsistent,
}
use fugaku_particle_filter.Server.Consistency.Rescheduled.{check_schedule_new_tasks-IsConsistent}
use fugaku_particle_filter.Server.Consistency.Responses.{handle_data_response-IsConsistent}
use fugaku_particle_filter.Server.Consistency.Updates.{check_finished-IsConsistent}

-- The kill requests of the round are ones that rank 0 can act on, once it has checked its own due
-- dates.
pub record AreAnswerable (c : Config) (e : Round) (s : Server) : Type 0 where
  pub requests :
      (s1 s2 : Server)
      → watch_launcher c e s ≡ ok s1
      → check_due_dates c e.now s1 ≡ ok s2
      → AllAnswerable c s2 e.kill_requests

watch_launcher-same :
    (c : Config) (e : Round) (s s' : Server)
    → watch_launcher c e s ≡ ok s'
    → s' ≡ record s { launcher = s'.launcher }
unfolding watch_launcher
watch_launcher-same c e s s' h = ground (arith, h)

watch_launcher-IsConsistent :
    (c : Config) (e : Round) (s s' : Server)
    → watch_launcher c e s ≡ ok s'
    → IsConsistent c s
    → IsConsistent c s'
watch_launcher-IsConsistent c e s s' h v =
    let q = watch_launcher-same c e s s' h in
    (Keeps-same c s s' (ap (λ x. x.lists) q) (ap (λ x. x.field.connected_runner_ranks) q)
        (ap (λ x. x.killed) q)).consistent
      v

-- A test whose outcome is known.
if_true {ℓ} : {A : Type ℓ} (b : Bool) (x y z : A) → b ≡ true → (if b then x else y) ≡ z → x ≡ z
if_true true x y z q h = h
if_true false x y z q h = absurd (false≢true q)

if_false {ℓ} : {A : Type ℓ} (b : Bool) (x y z : A) → b ≡ false → (if b then x else y) ≡ z → y ≡ z
if_false true x y z q h = absurd (false≢true (sym q))
if_false false x y z q h = h

check_runners-IsConsistent :
    (c : Config) (e : Round) (s s' : Server)
    → check_runners c e s ≡ ok s'
    → ((s2 : Server) → check_due_dates c e.now s ≡ ok s2 → AllAnswerable c s2 e.kill_requests)
    → IsConsistent c s
    → IsConsistent c s'
unfolding check_runners
check_runners-IsConsistent c e s s' h a v =
    let (s1, checked, rest) = >>=-eq-ok (check_due_dates c e.now s) _ h in
    let w = check_due_dates-IsConsistent c e.now s s1 checked v in
    elim (Bool-cases (c.comm_rank == 0)) [
      | inl q ↦
          check_kill_requests-IsConsistent c e.now e.kill_requests s1 s'
            (if_true (c.comm_rank == 0) _ _ _ q rest) w (a s1 checked)
      | inr q ↦ subst (IsConsistent c) (ok_inj s1 s' (if_false (c.comm_rank == 0) _ _ _ q rest)) w
    ]

check_each_second-IsConsistent :
    (c : Config) (e : Round) (l l' : LoopState)
    → check_each_second c e l ≡ ok l'
    → ((s2 : Server)
        → check_due_dates c e.now l.server ≡ ok s2
        → AllAnswerable c s2 e.kill_requests)
    → IsConsistent c l.server
    → IsConsistent c l'.server
unfolding check_each_second
check_each_second-IsConsistent c e l l' h a v =
    elim (Bool-cases (ltb l.last_seconds_checks e.now)) [
      | inl q ↦ checked (>>=-eq-ok (check_runners c e l.server) _ (rw q at h))
      | inr q ↦ subst (λ x. IsConsistent c (x.server)) (ok_inj l l' (rw q at h)) v
    ]
  where
    checked :
        (s' : Server) × (check_runners c e l.server ≡ ok s')
          × (ok (record { server = s'; last_seconds_checks = e.now }) ≡ ok l')
        → IsConsistent c l'.server
    checked (s', k, rest) =
        subst (λ x. IsConsistent c (x.server)) (ok_inj _ l' rest)
          (check_runners-IsConsistent c e l.server s' k a v)

take_new_tasks-IsConsistent :
    (c : Config) (e : Round) (s s' : Server)
    → take_new_tasks c e s ≡ ok s'
    → IsConsistent c s
    → IsConsistent c s'
unfolding take_new_tasks
take_new_tasks-IsConsistent c e s s' h v = elim (Bool-cases (c.comm_rank == 0)) [
  | inl q ↦ subst (IsConsistent c) (ok_inj s s' (if_true (c.comm_rank == 0) _ _ _ q h)) v
  | inr q ↦
      check_schedule_new_tasks-IsConsistent c e.new_task_received s s'
        (if_false (c.comm_rank == 0) _ _ _ q h) v
]

take_response-IsConsistent :
    (c : Config) (e : Round) (s s' : Server)
    → take_response c e s ≡ ok s'
    → IsConsistent c s
    → IsConsistent c s'
unfolding take_response
take_response-IsConsistent c e s s' h v = elim (Option-cases e.data_response) [
  | inl q ↦ subst (IsConsistent c) (ok_inj s s' (rw (q, take_response) at h)) v
  | inr (m, q) ↦ handle_data_response-IsConsistent c e.now m s s' (rw (q, take_response) at h) v
]

-- When a round gets to its assertion, the books are balanced, if they were before it and the kill
-- requests can be acted on.
pub simulate-IsConsistent :
    (c : Config) (do_update_step : UpdateStep) (e : Round) (l l' : LoopState) (b : Bool)
    → simulate c do_update_step e l ≡ ok (b, l')
    → AreAnswerable c e l.server
    → IsConsistent c l.server
    → IsConsistent c l'.server
unfolding simulate
simulate-IsConsistent c do_update_step e l l' b h a v =
    let (s, watched, h1) = >>=-eq-ok (watch_launcher c e l.server) _ h in
    let (l1, checked, h2) = >>=-eq-ok (check_each_second c e (record l { server = s })) _ h1 in
    let (s2, taken, h3) = >>=-eq-ok (take_new_tasks c e l1.server) _ h2 in
    let (s3, answered, h4) = >>=-eq-ok (take_response c e s2) _ h3 in
    let ((b', s4), finished, h5) =
      >>=-eq-ok (check_finished c e.now e.finish_messages do_update_step e.root_nsteps s3) _ h4 in
    let v1 = watch_launcher-IsConsistent c e l.server s watched v in
    let v2 =
      check_each_second-IsConsistent c e (record l { server = s }) l1 checked
        (λ s2. a.requests s s2 watched) v1 in
    let v3 =
      take_response-IsConsistent c e s2 s3 answered
        (take_new_tasks-IsConsistent c e l1.server s2 taken v2) in
    let v4 =
      check_finished-IsConsistent c e.now e.finish_messages do_update_step e.root_nsteps s3 s4 b'
        finished v3 in
    let q : s4 ≡ l'.server = ground (arith, h5) in subst (IsConsistent c) q v4

IsConsistent-somewhere :
    (c : Config) (s : Server) → IsConsistent c s → tasks_are_somewhere c s ≡ true
unfolding tasks_are_somewhere
IsConsistent-somewhere c s v = (==_iff _ _).1 (
    IsBalanced-total c.ensemble_size (length (s.field.connected_runner_ranks)) s.lists v.balanced
      v.connected)

assert_tasks-holds :
    (c : Config) (b : Bool) (l : LoopState)
    → IsConsistent c l.server
    → assert_tasks c (b, l) ≡ ok (b, l)
unfolding assert_tasks
assert_tasks-holds c true l v = refl
assert_tasks-holds c false l v = rw (IsConsistent-somewhere c l.server v) refl

-- In a round that begins with balanced books, and whose kill requests can be acted on, the assertion
-- that all tasks are somewhere holds: the round with it does what the round without it does.
pub simulation_round-asserts :
    (c : Config) (do_update_step : UpdateStep) (e : Round) (l : LoopState)
    → IsConsistent c l.server
    → AreAnswerable c e l.server
    → simulation_round c do_update_step e l ≡ simulate c do_update_step e l
unfolding simulation_round
simulation_round-asserts c do_update_step e l v a =
    elim (Result-cases (simulate c do_update_step e l)) [
      | inl ((b, l'), h) ↦
          rw h (assert_tasks-holds c b l' (simulate-IsConsistent c do_update_step e l l' b h a v))
      | inr (f, h) ↦ rw h refl
    ]

-- Rounds one after the other, each with kill requests that rank 0 can act on.
pub data Rounds (c : Config) (do_update_step : UpdateStep) : LoopState → LoopState → Type 0 where
  begin : (l : LoopState) → Rounds c do_update_step l l
  then_round :
      (l l1 l2 : LoopState) (e : Round) (b : Bool)
      → Rounds c do_update_step l l1
      → AreAnswerable c e l1.server
      → simulation_round c do_update_step e l1 ≡ ok (b, l2)
      → Rounds c do_update_step l l2

-- After any number of rounds of the main loop, each with kill requests that can be acted on, the
-- books are balanced if they were before.
pub Rounds-IsConsistent :
    (c : Config) (do_update_step : UpdateStep) (l l' : LoopState)
    → Rounds c do_update_step l l'
    → IsConsistent c l.server
    → IsConsistent c l'.server
Rounds-IsConsistent c do_update_step l l' (begin m) v = v
Rounds-IsConsistent c do_update_step l l' (then_round m l1 m' e b r a h) v =
    let v1 = Rounds-IsConsistent c do_update_step l l1 r v in
    simulate-IsConsistent c do_update_step e l1 l' b
      (sym (simulation_round-asserts c do_update_step e l1 v1 a) ∙ h) a v1
