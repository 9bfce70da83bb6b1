-- ===== src/Tests/Runner.antt =====
-- Runs of api/api_common.cxx and api/melissa_da_api.cxx: the second of two runner ranks, with the three
-- elements of two bytes that two server ranks out of three hold.
use fugaku_particle_filter.Containers.{set_insert}
use fugaku_particle_filter.Part.{calculate_n_to_m}
use fugaku_particle_filter.Prelude.{
  ℕ, zero, suc, ◌≡◌, refl, List, [], ◌∷◌, some, none, ok, true, false, arith, get_or, ◌⊎◌,
}
use fugaku_particle_filter.Prelude.Int.{pos, negsuc}
use fugaku_particle_filter.Field.{Field, calculate_parts, get_part, get_part_hidden}
use fugaku_particle_filter.Server.{Content, header, values, change_state, end_runner}
use fugaku_particle_filter.Server.Connections.{launch_sub_task}
use fugaku_particle_filter.Server.Registration.{Setup, FieldMessage, register_field}
use fugaku_particle_filter.Server.Registration.Scattered.{join}
use fugaku_particle_filter.Api.{
  ConnectedServerRank, RunnerRank, Buffers, phase_init, melissa_expose, receive, put_parts,
  request_header,
}
use fugaku_particle_filter.Api.Connections.{init_connections}
use fugaku_particle_filter.Api.Connections.Met.{Met, init_connections-Met}
use fugaku_particle_filter.Api.Connections.Tiling.{init_connections-Tiles}
use fugaku_particle_filter.Api.Exchange.{Tiles}
use fugaku_particle_filter.Api.Exchange.RoundTrip.{frames_for, Exchanged, melissa_expose-Exchanged}
use fugaku_particle_filter.Api.Ending.{Ended, IsState, IsEnd, melissa_expose-Ended, receive-accepts}
use fugaku_particle_filter.Api.Handover.{Delivered, launch_sub_task-Delivered}
use fugaku_particle_filter.Api.Registration.{
  InitArguments, gather_global_index_map, melissa_init_with_index_map,
}
use fugaku_particle_filter.Api.Registration.Gathered.{gather_global_index_map-join}
use fugaku_particle_filter.Api.Registration.Accepted.{
  Announced, melissa_init_with_index_map-Announced,
}
use fugaku_particle_filter.Tests.{value_or, two_members, at_work, rank_0, only_part, hidden_part}
use fugaku_particle_filter.Tests.Transport.{five_on_three, on_two_runners, on_two_runners-AllIn}

abbrev to_server_1 : ConnectedServerRank
to_server_1 = record {
  send_count = 4;
  local_vector_offset = 0;
  send_count_hidden = 0;
  local_vector_offset_hidden = 0;
  server_rank = 1;
}

abbrev to_server_2 : ConnectedServerRank
to_server_2 = record {
  send_count = 2;
  local_vector_offset = 4;
  send_count_hidden = 0;
  local_vector_offset_hidden = 0;
  server_rank = 2;
}

abbrev no_connection : RunnerRank
no_connection = record {
  runner_id = 7;
  comm_rank = 1;
  phase = phase_init;
  ccon = false;
  field = record {
    name = "variable1";
    current_state_id = negsuc 0;
    current_step = pos 0;
    local_vect_size = 6;
    local_hidden_vect_size = 0;
    connected_server_ranks = [];
  };
  ranks = [];
  sent = [];
}

abbrev connected : RunnerRank
connected = record no_connection {
  field = record (no_connection.field) {
    connected_server_ranks = to_server_1 ∷ (to_server_2 ∷ []);
  };
  ranks = (1, "b") ∷ ((2, "c") ∷ []);
}

-- The field of the server, before it is cut.
abbrev five_elements : Field
five_elements = record two_members {
  local_vect_size = 0;
  local_vect_sizes_runner = on_two_runners;
  parts = [];
  local_vect_size_hidden = 0;
  local_vect_sizes_runner_hidden = 0 ∷ 0 ∷ [];
  parts_hidden = [];
  connected_runner_ranks = [];
  bytes_per_element = 2;
}

Met_example : Met 1 (value_or (calculate_parts 1 3 five_elements) five_elements) 1 to_server_1
unfolding calculate_parts calculate_n_to_m set_insert init_connections
Met_example =
    init_connections-Met 1 3 0 ("a" ∷ ("b" ∷ ("c" ∷ []))) five_elements _ no_connection connected
      to_server_1 refl refl refl refl refl

Tiles_example : Tiles 0 connected.field.connected_server_ranks (get_or on_two_runners 1 0)
unfolding init_connections
Tiles_example =
    init_connections-Tiles 3 5 2 1 ("a" ∷ ("b" ∷ ("c" ∷ []))) on_two_runners (0 ∷ 0 ∷ [])
      no_connection connected five_on_three on_two_runners-AllIn refl refl refl

-- The parts of the state that goes out and of the one that comes in.
abbrev old_parts : ℕ → List ℕ
old_parts (suc zero) = 1 ∷ 2 ∷ 3 ∷ 4 ∷ []
old_parts _ = 5 ∷ 6 ∷ []

abbrev new_parts : ℕ → List ℕ
new_parts (suc zero) = 10 ∷ 20 ∷ 30 ∷ 40 ∷ []
new_parts _ = 50 ∷ 60 ∷ []

abbrev no_hidden : ℕ → List ℕ
no_hidden _ = []

abbrev next_state : ℕ → List Content
next_state rank = header (pos 3) (pos 1) change_state (pos 1) ∷ (values (new_parts rank) ∷ [])

abbrev old_vector : Buffers
old_vector = record { values = 1 ∷ 2 ∷ 3 ∷ 4 ∷ 5 ∷ 6 ∷ []; hidden_values = [] }

expose_example :
    (r' : RunnerRank) × (melissa_expose "variable1" next_state old_vector connected
      ≡ ok (pos 1, record { values = 10 ∷ 20 ∷ 30 ∷ 40 ∷ 50 ∷ 60 ∷ []; hidden_values = [] }, r'))
    × Exchanged
        (pos 3)
        (pos 1)
        (frames_for
          (request_header 7 1 (negsuc 0) (pos 0) "variable1")
          old_parts
          no_hidden
          (to_server_1 ∷ (to_server_2 ∷ [])))
        connected
        r'
expose_example =
    melissa_expose-Exchanged connected "variable1" next_state (pos 3) (pos 1) 0 old_parts no_hidden
      new_parts no_hidden to_server_1 (to_server_2 ∷ []) refl refl refl (refl, (refl, refl))
      ((λ h. elim h [ ]), ((λ h. elim h [ ]), refl)) (refl, refl, (refl, refl, tt))
      (refl, refl, refl, (refl, refl, refl, tt))

-- Both server ranks end the runner.
abbrev the_end : ℕ → List Content
the_end rank = header (negsuc 0) (pos 1) end_runner (pos 0) ∷ []

ended_example :
    (r' : RunnerRank) × (melissa_expose "variable1" the_end old_vector connected
      ≡ ok (pos 0, old_vector, r'))
    × Ended r'
unfolding put_parts
ended_example =
    melissa_expose-Ended connected "variable1" the_end old_vector (pos 1) _ to_server_1
      (to_server_2 ∷ []) refl refl refl refl (refl, (refl, tt))

accepts_example :
    IsState to_server_1 (next_state 1) old_vector (
      value_or (receive to_server_1 (next_state 1) old_vector) (record {
        current_state_id = negsuc 0;
        current_step = pos 0;
        nsteps = pos 0;
        buffers = old_vector;
      }))
    ⊎ IsEnd (next_state 1) old_vector (
        value_or (receive to_server_1 (next_state 1) old_vector) (record {
          current_state_id = negsuc 0;
          current_step = pos 0;
          nsteps = pos 0;
          buffers = old_vector;
        }))
unfolding receive
accepts_example = receive-accepts to_server_1 (next_state 1) old_vector _ refl

-- The connection of the only runner rank to the only server rank.
abbrev to_server_0 : ConnectedServerRank
to_server_0 = record {
  send_count = 2;
  local_vector_offset = 0;
  send_count_hidden = 1;
  local_vector_offset_hidden = 0;
  server_rank = 0;
}

abbrev two_bytes : Buffers
two_bytes = record { values = 0 ∷ 0 ∷ []; hidden_values = 0 ∷ [] }

to_server_0-Met : Met 0 two_members 0 to_server_0
unfolding get_part get_part_hidden
to_server_0-Met = record {
  part = only_part;
  hidden_part = hidden_part;
  part_of = refl;
  hidden_part_of = refl;
  size = refl;
  offset = refl;
  size_hidden = refl;
  offset_hidden = refl;
}

handover_example :
    Delivered rank_0
      (9 ∷ [])
      0
      1
      at_work
      (value_or (launch_sub_task rank_0 (some (9 ∷ [])) 0 1 at_work) at_work)
      to_server_0
      two_bytes
unfolding launch_sub_task get_part get_part_hidden
handover_example =
    launch_sub_task-Delivered rank_0 (9 ∷ []) 0 1 at_work _ to_server_0 two_bytes to_server_0-Met
      (record { values_inside = omega arith; hidden_inside = λ _. omega arith }) refl

-- The index maps of the two runner ranks.
abbrev two_maps : List (List ℕ)
two_maps = (11 ∷ 12 ∷ []) ∷ ((13 ∷ 14 ∷ 15 ∷ []) ∷ [])

gathered_example :
    gather_global_index_map (some two_maps) (0 ∷ 0 ∷ 0 ∷ 0 ∷ 0 ∷ []) on_two_runners 2
    ≡ ok (join two_maps)
unfolding join
gathered_example =
    gather_global_index_map-join 2 on_two_runners two_maps (0 ∷ 0 ∷ 0 ∷ 0 ∷ 0 ∷ [])
      (refl, (refl, tt)) refl

abbrev arguments : InitArguments
arguments = record {
  field_name = "variable1";
  local_vect_sizes = on_two_runners;
  local_hidden_vect_sizes = 0 ∷ 0 ∷ [];
  bytes_per_element = 2;
  bytes_per_element_hidden = 1;
  local_index_maps = some two_maps;
  local_index_maps_hidden = none;
}

abbrev fresh_setup : Setup
fresh_setup = record {
  in_init_phase = true;
  must_register_field = false;
  killed = [];
  launcher_notified_about_runner = [];
  field = none;
  global_index_map = [];
  global_index_map_hidden = [];
  replies = [];
}

abbrev root : RunnerRank
root = record no_connection { comm_rank = 0 }

abbrev announcement : FieldMessage
announcement = record {
  runner_comm_size = 2;
  bytes_per_element = 2;
  bytes_per_element_hidden = 1;
  field_name = "variable1";
  frames = on_two_runners ∷ ((0 ∷ 0 ∷ []) ∷ ((11 ∷ 12 ∷ 13 ∷ 14 ∷ 15 ∷ []) ∷ ([] ∷ [])));
}

registration_example :
    (u' : Setup) × (register_field rank_0 announcement fresh_setup ≡ ok u')
    × Announced arguments fresh_setup u'
unfolding melissa_init_with_index_map
registration_example =
    melissa_init_with_index_map-Announced rank_0 fresh_setup 3 ("a" ∷ ("b" ∷ ("c" ∷ []))) arguments
      root _ announcement refl refl refl refl refl
