-- ===== src/Server/Consistency/Updates.antt =====
-- `check_finished` of server/server.cxx: the books of the next time step.
use fugaku_particle_filter.Prelude.{
  ℕ, zero, suc, ◌+◌, ◌≤◌, ◌<◌, ◌≡◌, ◌≢◌, refl, sym, ap, subst, ◌∙◌, ◌⊎◌, inl, inr, List, [], ◌∷◌,
  Bool, true, false, arith, ◌==◌, if◌then◌else◌, length, none, Result, ok, err, ◌>>=◌, >>=-eq-ok,
  check-inv, ok_inj, Bool-cases, List-cases, Option-cases, exit,
}
use mathlib.Core.Bool.{false≢true}
use fugaku_particle_filter.Prelude.Int.{ℤ, pos, negsuc, eq_ℤ}
use fugaku_particle_filter.Containers.{set_erase}
use fugaku_particle_filter.Field.{is_empty}
use fugaku_particle_filter.Server.{Config, Server, NewTask}
use fugaku_particle_filter.Server.Connections.{end_all_runners, get_completely_idle_runner}
use fugaku_particle_filter.Server.Tasks.{
  init_new_timestep, schedule_new_task, schedule_state, add_sub_tasks, get_due_date,
}
use fugaku_particle_filter.Server.Tasks.Assign.{add_sub_tasks-Assigned}
use fugaku_particle_filter.Server.Updates.{
  FinishMessages, UpdateStep, would_finish, agree_master, agree_other, schedule_all, update_step,
  next_timestep, after_update, check_finished,
}
use fugaku_particle_filter.Server.Consistency.{IsConsistent, Keeps-same, schedule_new_task-Keeps}
use fugaku_particle_filter.Server.Consistency.Beginning.{
  is_empty-inv, init_new_timestep-IsConsistent,
}

schedule_state-waiting :
    (c : Config) (now runner_id x : ℕ) (xs : List ℕ) (s s' : Server) (b : Bool)
    → s.lists.unscheduled_tasks ≡ x ∷ xs
    → schedule_state c now runner_id x s ≡ ok (b, s')
    → s'.lists.unscheduled_tasks ≡ xs
unfolding schedule_state set_erase
schedule_state-waiting c now runner_id x xs s s' b l h =
    let t : NewTask = record {
      runner_id = runner_id;
      state_id = x;
      due_date = get_due_date c now;
      task_id = s.task_id + 1;
    } in
    let s0 : Server = record s { task_id = s.task_id + 1; finished_ranks = pos 0 } in
    let (s1, added, rest) = >>=-eq-ok (add_sub_tasks c t s0) _ h in
    let w : s1.lists.unscheduled_tasks ≡ set_erase x (x ∷ xs) =
      (add_sub_tasks-Assigned c t s0 s1 added).waiting ∙ ap (set_erase x) l in
    let q : s'.lists ≡ s1.lists = ground (arith, rest) in rw q (ground (arith, w))

-- One round of rank 0 after an update takes the lowest state that waits.
schedule_new_task-waiting :
    (c : Config) (now runner_id : ℕ) (s s' : Server) (b : Bool)
    → schedule_new_task c now runner_id s ≡ ok (b, s')
    → length s'.lists.unscheduled_tasks + 1 ≤ length s.lists.unscheduled_tasks
      ⊎ (s.lists.unscheduled_tasks ≡ [])
unfolding schedule_new_task
schedule_new_task-waiting c now runner_id s s' b e =
    let (_, e1) = check-inv (c.comm_rank == 0) _ e in
    elim (List-cases s.lists.unscheduled_tasks) [
      | inl l ↦ inr l
      | inr (x, xs, l) ↦
          let w = schedule_state-waiting c now runner_id x xs s s' b l (rw l at e1) in
          inl (rw (w, l) (omega arith))
    ]

length_zero {ℓ} : {A : Type ℓ} (xs : List A) → length xs ≡ 0 → xs ≡ []
length_zero [] e = refl
length_zero (x ∷ xs) e = absurd (omega arith)

is_empty-false {ℓ} : {A : Type ℓ} (xs : List A) → is_empty xs ≡ false → xs ≢ []
is_empty-false [] e = absurd (false≢true (sym e))
is_empty-false (x ∷ xs) e = λ q. ground (arith, q)

-- Whether the loop of rank 0 after an update would go on.
abbrev pub IsServed : Server → Type 0
IsServed s = (get_completely_idle_runner s ≡ none) ⊎ (s.lists.unscheduled_tasks ≡ [])

schedule_all-IsServed :
    (fuel : ℕ) (c : Config) (now : ℕ) (s s' : Server)
    → schedule_all fuel c now s ≡ ok s'
    → length s.lists.unscheduled_tasks ≤ fuel
    → IsServed s'
unfolding schedule_all
schedule_all-IsServed zero c now s s' e le =
    subst IsServed (ok_inj s s' e) (inr (length_zero s.lists.unscheduled_tasks (omega arith)))
schedule_all-IsServed (suc fuel) c now s s' e le =
    elim (Option-cases (get_completely_idle_runner s)) [
      | inl none_idle ↦
          subst IsServed (ok_inj s s' (rw (none_idle, schedule_all) at e)) (inl none_idle)
      | inr (runner_id, idle) ↦
          next runner_id (λ s1. schedule_all-IsServed fuel c now s1 s')
            (rw (idle, schedule_all) at e)
    ]
  where
    round :
        (runner_id : ℕ)
        → ((s1 : Server)
            → schedule_all fuel c now s1 ≡ ok s'
            → length s1.lists.unscheduled_tasks ≤ fuel
            → IsServed s')
        → (schedule_new_task c now runner_id s >>= λ r. schedule_all fuel c now (r.1)) ≡ ok s'
        → s.lists.unscheduled_tasks ≢ []
        → IsServed s'
    round runner_id again h ne =
        let ((b, s1), scheduled, rest) = >>=-eq-ok (schedule_new_task c now runner_id s) _ h in
        elim (schedule_new_task-waiting c now runner_id s s1 b scheduled) [
          | inl less ↦ again s1 rest (omega arith)
          | inr nil ↦ absurd (ne nil)
        ]

    next :
        (runner_id : ℕ)
        → ((s1 : Server)
            → schedule_all fuel c now s1 ≡ ok s'
            → length s1.lists.unscheduled_tasks ≤ fuel
            → IsServed s')
        → (elim (is_empty s.lists.unscheduled_tasks) [
          | true ↦ ok s
          | false ↦ schedule_new_task c now runner_id s >>= λ r. schedule_all fuel c now (r.1)
        ])
          ≡ ok s'
        → IsServed s'
    next runner_id again h = elim (Bool-cases (is_empty s.lists.unscheduled_tasks)) [
      | inl nil ↦
          subst IsServed (ok_inj s s' (rw nil at h))
            (inr (is_empty-inv s.lists.unscheduled_tasks nil))
      | inr some_wait ↦ round runner_id again (rw some_wait at h) (is_empty-false _ some_wait)
    ]

schedule_all-IsConsistent :
    (fuel : ℕ) (c : Config) (now : ℕ) (s s' : Server)
    → schedule_all fuel c now s ≡ ok s'
    → IsConsistent c s
    → IsConsistent c s'
unfolding schedule_all
schedule_all-IsConsistent zero c now s s' e v = subst (IsConsistent c) (ok_inj s s' e) v
schedule_all-IsConsistent (suc fuel) c now s s' e v =
    elim (Option-cases (get_completely_idle_runner s)) [
      | inl none_idle ↦ subst (IsConsistent c) (ok_inj s s' (rw (none_idle, schedule_all) at e)) v
      | inr (runner_id, idle) ↦ elim (Bool-cases (is_empty s.lists.unscheduled_tasks)) [
        | inl nil ↦ subst (IsConsistent c) (ok_inj s s' (rw (idle, schedule_all, nil) at e)) v
        | inr some_wait ↦
            round runner_id (λ s1. schedule_all-IsConsistent fuel c now s1 s')
              (rw (idle, schedule_all, some_wait) at e)
      ]
    ]
  where
    round :
        (runner_id : ℕ)
        → ((s1 : Server)
            → schedule_all fuel c now s1 ≡ ok s'
            → IsConsistent c s1
            → IsConsistent c s')
        → (schedule_new_task c now runner_id s >>= λ r. schedule_all fuel c now (r.1)) ≡ ok s'
        → IsConsistent c s'
    round runner_id again h =
        let ((b, s1), scheduled, rest) = >>=-eq-ok (schedule_new_task c now runner_id s) _ h in
        again s1 rest ((schedule_new_task-Keeps c now runner_id s s1 b scheduled).consistent v)

next_timestep-IsConsistent :
    (c : Config) (now : ℕ) (s s' : Server) (b : Bool)
    → next_timestep c now s ≡ ok (b, s')
    → 0 < length s.field.connected_runner_ranks
    → IsConsistent c s'
unfolding next_timestep
next_timestep-IsConsistent c now s s' b e ranks =
    let (s1, begun, e1) = >>=-eq-ok (init_new_timestep c s) _ e in
    let (s2, scheduled, e2) =
      >>=-eq-ok
        (if c.comm_rank == 0
          then schedule_all (length s1.lists.unscheduled_tasks) c now s1
          else ok s1)
        _ e1 in
    let v = init_new_timestep-IsConsistent c s s1 begun ranks in
    let q : s2 ≡ s' = ground (arith, e2) in
    subst (IsConsistent c) q (elim (Bool-cases (c.comm_rank == 0)) [
      | inl h ↦ schedule_all-IsConsistent _ c now s1 s2 (rw h at scheduled) v
      | inr h ↦ subst (IsConsistent c) (ok_inj s1 s2 (rw h at scheduled)) v
    ])

-- When the step to the next time step returns on rank 0, no runner is completely idle or no state
-- waits: the fuel of the loop, the number of states that wait, is enough.
pub next_timestep-IsServed :
    (c : Config) (now : ℕ) (s s' : Server) (b : Bool)
    → next_timestep c now s ≡ ok (b, s')
    → (c.comm_rank == 0) ≡ true
    → IsServed s'
unfolding next_timestep
next_timestep-IsServed c now s s' b e h =
    let (s1, begun, e1) = >>=-eq-ok (init_new_timestep c s) _ e in
    let (s2, scheduled, e2) =
      >>=-eq-ok
        (if c.comm_rank == 0
          then schedule_all (length s1.lists.unscheduled_tasks) c now s1
          else ok s1)
        _ e1 in
    let q : s2 ≡ s' = ground (arith, e2) in
    subst IsServed q (schedule_all-IsServed _ c now s1 s2 (rw h at scheduled) (omega arith))

after_update-IsConsistent :
    (c : Config) (now : ℕ) (s s' : Server) (b : Bool)
    → after_update c now s ≡ ok (b, s')
    → IsConsistent c s
    → IsConsistent c s'
unfolding after_update end_all_runners
after_update-IsConsistent c now s s' b e v = elim (Bool-cases (eq_ℤ s.current_nsteps (negsuc 0))) [
  | inl h ↦ ended (rw h at e)
  | inr h ↦ elim (Bool-cases (eq_ℤ s.current_nsteps (negsuc 1))) [
    | inl k ↦ exits (rw (h, k) at e)
    | inr k ↦ next_timestep-IsConsistent c now s s' b (rw (h, k) at e) v.connected
  ]
]
  where
    exits : ◌≡◌ {A = Result (Bool × Server)} (err exit) (ok (b, s')) → IsConsistent c s'
    exits h = cc

    ended :
        ◌≡◌ {A = Result (Bool × Server)} (ok (true, end_all_runners s)) (ok (b, s'))
        → IsConsistent c s'
    ended h =
        (Keeps-same c s s' (ground (arith, h)) (ground (arith, h)) (ground (arith, h))).consistent v

agree-lists :
    (c : Config) (msgs : FinishMessages) (s : Server)
    → IsConsistent c s
    → IsConsistent c ((if c.comm_rank == 0 then agree_master c msgs s else agree_other msgs s).1)
unfolding agree_master agree_other
agree-lists c msgs s v = record {
  balanced = ground (arith, v.balanced);
  connected = ground (arith, v.connected);
}

updated-IsConsistent :
    (c : Config) (now : ℕ) (do_update_step : UpdateStep) (root_nsteps : ℤ) (s : Server)
    → IsConsistent c s
    → IsConsistent c (update_step c now do_update_step root_nsteps s)
unfolding update_step
updated-IsConsistent c now do_update_step root_nsteps s v = record {
  balanced = v.balanced;
  connected = v.connected;
}

-- When `check_finished` returns, whatever the assimilator and the other ranks say, the books are
-- balanced if they were before.
pub check_finished-IsConsistent :
    (c : Config) (now : ℕ) (msgs : FinishMessages) (do_update_step : UpdateStep) (root_nsteps : ℤ)
    (s s' : Server) (b : Bool)
    → check_finished c now msgs do_update_step root_nsteps s ≡ ok (b, s')
    → IsConsistent c s
    → IsConsistent c s'
unfolding check_finished
check_finished-IsConsistent c now msgs do_update_step root_nsteps s s' b e v =
    elim (Bool-cases (would_finish c s)) [
      | inl h ↦ agreed (Bool-cases a.0) (rw h at e)
      | inr h ↦ unchanged s v (rw h at e)
    ]
  where
    a : Bool × Server
    a = if c.comm_rank == 0 then agree_master c msgs s else agree_other msgs s

    unchanged :
        (s1 : Server)
        → IsConsistent c s1
        → ◌≡◌ {A = Result (Bool × Server)} (ok (false, s1)) (ok (b, s'))
        → IsConsistent c s'
    unchanged s1 w h = subst (IsConsistent c) (ground (arith, h)) w

    agreed :
        (a.0 ≡ true) ⊎ (a.0 ≡ false)
        → (if a.0
            then after_update c now (update_step c now do_update_step root_nsteps a.1)
            else ok (false, a.1))
          ≡ ok (b, s')
        → IsConsistent c s'
    agreed (inl h) k =
        after_update-IsConsistent c now _ s' b (rw h at k)
          (updated-IsConsistent c now do_update_step root_nsteps a.1 (agree-lists c msgs s v))
    agreed (inr h) k = unchanged a.1 (agree-lists c msgs s v) (rw h at k)
