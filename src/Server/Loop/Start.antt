-- ===== src/Server/Loop/Start.antt =====
-- server/server.cxx: the start of the simulation phase.
use fugaku_particle_filter.Prelude.{
  ℕ, ◌≡◌, refl, subst, List, [], ◌∷◌, ok, >>=-eq-ok, ok_inj, arith,
}
use fugaku_particle_filter.Prelude.Int.{ℤ}
use fugaku_particle_filter.Field.{Field}
use fugaku_particle_filter.Server.{Config, Server, SubTask}
use fugaku_particle_filter.Server.Tasks.{
  init_new_timestep, reset_due_dates, reset_dates, get_due_date,
}
use fugaku_particle_filter.Server.Updates.{UpdateStep}
use fugaku_particle_filter.Server.Registration.{broadcast_field_information_and_calculate_parts}
use fugaku_particle_filter.Server.Registration.Agreement.{broadcast-CutFrom}
use fugaku_particle_filter.Server.Ledger.{count_state, count_task}
use fugaku_particle_filter.Server.Consistency.{IsConsistent}
use fugaku_particle_filter.Server.Consistency.Beginning.{init_new_timestep-IsConsistent}
use fugaku_particle_filter.Server.Loop.{
  Round, LoopState, begin_simulation, simulate, simulation_round,
}
use fugaku_particle_filter.Server.Loop.Assertion.{
  AreAnswerable, Rounds, Rounds-IsConsistent, simulation_round-asserts,
}

count_state-reset_dates :
    (i d : ℕ) (xs : List SubTask) → count_state i (reset_dates d xs) ≡ count_state i xs
unfolding count_state
count_state-reset_dates i d [] = refl
count_state-reset_dates i d (x ∷ xs) = omega (arith, count_state-reset_dates i d xs)

count_task-reset_dates :
    (i r d : ℕ) (xs : List SubTask) → count_task i r (reset_dates d xs) ≡ count_task i r xs
unfolding count_task
count_task-reset_dates i r d [] = refl
count_task-reset_dates i r d (x ∷ xs) = omega (arith, count_task-reset_dates i r d xs)

reset_due_dates-IsConsistent :
    (c : Config) (now : ℕ) (s : Server)
    → IsConsistent c s
    → IsConsistent c (reset_due_dates c now s)
unfolding reset_due_dates
reset_due_dates-IsConsistent c now s v = record {
  balanced = record {
    ascending = v.balanced.ascending;
    balance = λ i.
        rw (count_state-reset_dates i (get_due_date c now) s.lists.scheduled_sub_tasks)
          (v.balanced.balance i);
    one_runner = λ i r.
        rw
          (
            count_state-reset_dates i (get_due_date c now) s.lists.scheduled_sub_tasks,
            count_task-reset_dates i r (get_due_date c now) s.lists.scheduled_sub_tasks,
          )
          (v.balanced.one_runner i r);
  };
  connected = v.connected;
}

-- When the step into the simulation phase returns, the books are balanced, whatever the state was
-- before.
pub begin_simulation-IsConsistent :
    (c : Config) (now : ℕ) (root : Field) (index_map index_map_hidden : List ℕ) (nsteps : ℤ)
    (s s' : Server)
    → begin_simulation c now root index_map index_map_hidden nsteps s ≡ ok s'
    → IsConsistent c s'
unfolding begin_simulation
begin_simulation-IsConsistent c now root index_map index_map_hidden nsteps s s' e =
    let ((f, maps), known, e1) =
      >>=-eq-ok (broadcast_field_information_and_calculate_parts c root index_map index_map_hidden)
        _ e in
    let (s1, begun, e2) =
      >>=-eq-ok (init_new_timestep c (record s { field = f; current_nsteps = nsteps })) _ e1 in
    subst (IsConsistent c) (ok_inj _ s' e2) (
      reset_due_dates-IsConsistent c now s1 (
        init_new_timestep-IsConsistent c (record s { field = f; current_nsteps = nsteps }) s1 begun
          (broadcast-CutFrom c root index_map index_map_hidden f maps known).connected))

-- From the start of the simulation phase on, through any rounds of the main loop whose kill requests
-- can be acted on, the assertion that all tasks are somewhere holds in the round that follows.
pub begin_simulation-asserts :
    (c : Config) (do_update_step : UpdateStep) (now : ℕ) (root : Field)
    (index_map index_map_hidden : List ℕ) (nsteps : ℤ) (s s' : Server) (l : LoopState) (e : Round)
    → begin_simulation c now root index_map index_map_hidden nsteps s ≡ ok s'
    → Rounds c do_update_step (record { server = s'; last_seconds_checks = 0 }) l
    → AreAnswerable c e l.server
    → simulation_round c do_update_step e l ≡ simulate c do_update_step e l
begin_simulation-asserts c do_update_step now root index_map index_map_hidden nsteps s s' l e begun
      r a =
    simulation_round-asserts c do_update_step e l
      (Rounds-IsConsistent c do_update_step (record { server = s'; last_seconds_checks = 0 }) l r
        (begin_simulation-IsConsistent c now root index_map index_map_hidden nsteps s s' begun))
      a
