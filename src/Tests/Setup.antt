-- ===== src/Tests/Setup.antt =====
-- Runs of the registration and of the start of the simulation phase of server/server.cxx.
use fugaku_particle_filter.Containers.{set_insert}
use fugaku_particle_filter.Part.{calculate_n_to_m, calculate_local_vect_sizes_server}
use fugaku_particle_filter.Prelude.{
  ℕ, ◌*◌, ◌/◌, some, get_elem?, length, ◌≡◌, refl, List, [], ◌∷◌, ok,
}
use fugaku_particle_filter.Prelude.Int.{pos}
use fugaku_particle_filter.Field.{Field}
use fugaku_particle_filter.Server.{Config, Server}
use fugaku_particle_filter.Server.Registration.{
  scatter_index_map, broadcast_field_information_and_calculate_parts,
}
use fugaku_particle_filter.Server.Registration.Scattered.{join, scatter_index_map-Scattered}
use fugaku_particle_filter.Server.Registration.Agreement.{broadcast-agreement}
use fugaku_particle_filter.Server.Consistency.{IsConsistent}
use fugaku_particle_filter.Server.Loop.{LoopState, begin_simulation, simulation_round, simulate}
use fugaku_particle_filter.Server.Loop.Assertion.{AreAnswerable, begin}
use fugaku_particle_filter.Server.Loop.Start.{
  begin_simulation-IsConsistent, begin_simulation-asserts,
}
use fugaku_particle_filter.Tests.{
  value_or, two_members, at_work, rank_0, rank_1, one_more_step, busy_round,
}
use fugaku_particle_filter.Tests.Transport.{five_on_three}

scatter_index_map_example :
    (files : List (List ℕ)) × (join files ≡ 11 ∷ 12 ∷ 13 ∷ 14 ∷ 15 ∷ [])
    × ((i size : ℕ)
        → get_elem? (calculate_local_vect_sizes_server 3 (5 * 2) 2) i ≡ some size
        → (file : List ℕ) × (get_elem? files i ≡ some file)
          × (length file ≡ size / 2)
          × (scatter_index_map i 3 (5 * 2) size 2 (11 ∷ 12 ∷ 13 ∷ 14 ∷ 15 ∷ []) ≡ ok file))
scatter_index_map_example =
    scatter_index_map-Scattered 3 5 2 (11 ∷ 12 ∷ 13 ∷ 14 ∷ 15 ∷ []) five_on_three refl

-- Three elements of two bytes on two runner ranks, and two bytes of hidden state.
abbrev root_field : Field
root_field = record two_members {
  ensemble_members = [];
  local_vect_size = 0;
  local_vect_sizes_runner = 4 ∷ 2 ∷ [];
  parts = [];
  local_vect_size_hidden = 0;
  local_vect_sizes_runner_hidden = 1 ∷ 1 ∷ [];
  parts_hidden = [];
  connected_runner_ranks = [];
  local_index_map_size = 0;
  local_index_map_hidden_size = 0;
  bytes_per_element = 2;
}

abbrev rank_0_of_2 : Config
rank_0_of_2 = record rank_1 { comm_rank = 0 }

abbrev set_up : Config → Field × (List ℕ × List ℕ)
set_up c =
    value_or
      (broadcast_field_information_and_calculate_parts c root_field (1 ∷ 2 ∷ 3 ∷ []) (4 ∷ 5 ∷ []))
      (root_field, ([], []))

agreement_example :
    ((set_up rank_0_of_2).0.parts ≡ (set_up rank_1).0.parts)
    × ((set_up rank_0_of_2).0.parts_hidden ≡ (set_up rank_1).0.parts_hidden)
unfolding broadcast_field_information_and_calculate_parts calculate_n_to_m set_insert
agreement_example =
    broadcast-agreement rank_0_of_2 rank_1 root_field (1 ∷ 2 ∷ 3 ∷ []) (4 ∷ 5 ∷ [])
      (set_up rank_0_of_2).0 (set_up rank_1).0 (set_up rank_0_of_2).1 (set_up rank_1).1 refl refl
      refl

abbrev new_server : Server
new_server = record at_work {
  lists = record {
    unscheduled_tasks = [];
    scheduled_sub_tasks = [];
    running_sub_tasks = [];
    finished_sub_tasks = [];
  };
  idle_runners = [];
  current_step = pos 0;
}

abbrev started : Server
started =
    value_or (begin_simulation rank_0 5 root_field (1 ∷ 2 ∷ 3 ∷ []) (4 ∷ 5 ∷ []) (pos 1) new_server)
      new_server

begin_simulation_example : IsConsistent rank_0 started
unfolding begin_simulation calculate_n_to_m set_insert
begin_simulation_example =
    begin_simulation-IsConsistent rank_0 5 root_field (1 ∷ 2 ∷ 3 ∷ []) (4 ∷ 5 ∷ []) (pos 1)
      new_server started refl

abbrev first_state : LoopState
first_state = record { server = started; last_seconds_checks = 0 }

first_state-AreAnswerable : AreAnswerable rank_0 busy_round started
first_state-AreAnswerable = record { requests = λ s1 s2 watched checked. tt }

begin_simulation-asserts_example :
    simulation_round rank_0 one_more_step busy_round first_state
    ≡ simulate rank_0 one_more_step busy_round first_state
unfolding begin_simulation calculate_n_to_m set_insert
begin_simulation-asserts_example =
    begin_simulation-asserts rank_0 one_more_step 5 root_field (1 ∷ 2 ∷ 3 ∷ []) (4 ∷ 5 ∷ []) (pos 1)
      new_server started first_state busy_round refl (begin first_state) first_state-AreAnswerable
