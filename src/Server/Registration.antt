-- ===== src/Server/Registration.antt =====
-- server/server.cxx, before the simulation phase: how runners register, how the field is announced by
-- the first of them, and how every server rank gets to know it. The index maps are scattered by
-- `slow_MPI_Scatterv` of common/utils.cxx, as it is with SLOW_MPI.
pub mod Scattered
pub mod Agreement
use Prim.Native.String.{String}
use fugaku_particle_filter.Prelude.{
  ℕ, zero, suc, ◌+◌, ◌/◌, ◌%◌, List, [], ◌∷◌, ◌++◌, Option, none, some, Bool, true, false, not,
  ◌==◌, ltb, if◌then◌else◌, length, take, drop, get_elem?, Result, ok, err, assertion, exit,
  out_of_range, check, or_fail, ◌>>=◌, ◌>>◌,
}
use fugaku_particle_filter.Containers.{map_emplace, map_assign}
use fugaku_particle_filter.Part.{calculate_local_vect_sizes_server, sum_vec}
use fugaku_particle_filter.Field.{
  Field, new_field, calculate_parts, is_some, global_vect_size, global_vect_size_hidden,
}
use fugaku_particle_filter.Server.{Config, Task, is_killed}

-- An answer on the configuration socket: whether the runner shall register the field, with the number
-- of server ranks, or an empty message. The names of the ports go along with the first.
pub data Reply : Type 0 where
  registered : Bool → ℕ → Reply
  acknowledged : Reply

-- What rank 0 keeps of the registrations. An entry of an index map is a number.
pub record Setup : Type 0 where
  pub in_init_phase : Bool
  pub must_register_field : Bool
  pub killed : List Task
  pub launcher_notified_about_runner : List (ℕ × Bool)
  pub field : Option Field
  pub global_index_map : List ℕ
  pub global_index_map_hidden : List ℕ
  pub replies : List Reply

-- Any runner is notified of again when it is ready.
unfoldable pub register_runner_id : Config → ℕ → Setup → Result Setup
unfolding is_killed map_emplace map_assign
register_runner_id c runner_id u = do
  check (not (is_killed runner_id u.killed))
  ok (record u {
    launcher_notified_about_runner =
        map_assign runner_id false (map_emplace runner_id false u.launcher_notified_about_runner);
    replies = u.replies ++ (registered u.must_register_field c.comm_size ∷ []);
    must_register_field = false;
  })

pub record FieldMessage : Type 0 where
  pub runner_comm_size : ℕ
  pub bytes_per_element : ℕ
  pub bytes_per_element_hidden : ℕ
  pub field_name : String
  -- The frames that follow, in entries.
  pub frames : List (List ℕ)

-- A further frame, of `n` entries.
abbrev pub take_frame : ℕ → List (List ℕ) → Result (List ℕ × List (List ℕ))
take_frame n [] = err assertion
take_frame n (f ∷ fs) = check (length f == n) >> ok (f, fs)

-- The entries of an index map for `size` bytes. A division by 0 is a fault.
unfoldable pub index_map_size : ℕ → ℕ → Result ℕ
index_map_size size zero = err out_of_range
index_map_size size (suc w) = check (size % suc w == 0) >> ok (size / suc w)

unfoldable pub register_field : Config → FieldMessage → Setup → Result Setup
unfolding new_field index_map_size sum_vec
register_field c m u = do
  check u.in_init_phase
  check (not (is_some u.field))
  let f =
      new_field m.field_name m.runner_comm_size c.ensemble_size m.bytes_per_element
        m.bytes_per_element_hidden
  (sizes, frames1) ← take_frame m.runner_comm_size m.frames
  (sizes_hidden, frames2) ← take_frame m.runner_comm_size frames1
  map_size ← index_map_size (sum_vec sizes) m.bytes_per_element
  (index_map, frames3) ← take_frame map_size frames2
  map_size_hidden ← index_map_size (sum_vec sizes_hidden) m.bytes_per_element_hidden
  (index_map_hidden, frames4) ← take_frame map_size_hidden frames3
  ok (record u {
    field = some (record f {
      local_vect_sizes_runner = sizes;
      local_vect_sizes_runner_hidden = sizes_hidden;
    });
    global_index_map = index_map;
    global_index_map_hidden = index_map_hidden;
    replies = u.replies ++ (acknowledged ∷ []);
  })

-- A message on the configuration socket: one of the two, one of another type, or one that is too
-- short to have a type.
pub data ConfigurationMessage : Type 0 where
  register_runner : ℕ → ConfigurationMessage
  register_a_field : FieldMessage → ConfigurationMessage
  other_type : ConfigurationMessage
  too_short : ConfigurationMessage

unfoldable pub answer_configuration_message : Config → ConfigurationMessage → Setup → Result Setup
unfolding register_runner_id register_field
answer_configuration_message c (register_runner runner_id) u = register_runner_id c runner_id u
answer_configuration_message c (register_a_field m) u = register_field c m u
answer_configuration_message c other_type u = err assertion
answer_configuration_message c too_short u = err exit

-- The loop of `scatter_index_map`, from bytes to entries.
unfoldable pub entry_counts : ℕ → List ℕ → Result (List ℕ)
entry_counts w [] = ok []
entry_counts w (n ∷ ns) = check (n % w == 0) >> (entry_counts w ns >>= λ ks. ok (n / w ∷ ks))

unfoldable pub displacements : ℕ → List ℕ → List ℕ
displacements last_displ [] = []
displacements last_displ (n ∷ ns) = last_displ ∷ displacements (last_displ + n) ns

-- The loop of `slow_MPI_Scatterv` on rank 0, which writes a file for each rank. `os.write` past the end
-- of the map is a fault.
unfoldable pub scatter_from : ℕ → List ℕ → List ℕ → List ℕ → Result (List (List ℕ))
scatter_from cumul_send_counts [] displs p = ok []
scatter_from cumul_send_counts (n ∷ ns) [] p = err out_of_range
scatter_from cumul_send_counts (n ∷ ns) (d ∷ displs) p =
    check (cumul_send_counts == d)
    >> (if ltb (length p) n
        then err out_of_range
        else (scatter_from (cumul_send_counts + n) ns displs (drop n p) >>= λ files.
            ok (take n p ∷ files)))

-- The files for all the ranks.
unfoldable pub scatter_files : ℕ → ℕ → ℕ → List ℕ → Result (List (List ℕ))
unfolding calculate_local_vect_sizes_server entry_counts displacements scatter_from
scatter_files comm_size global_vect_size bytes_per_element global_index_map =
    entry_counts bytes_per_element
      (calculate_local_vect_sizes_server comm_size global_vect_size bytes_per_element)
    >>= λ scounts. scatter_from 0 scounts (displacements 0 scounts) global_index_map

-- What a rank reads from its file: as many entries as its local map has.
unfoldable pub read_index_map : ℕ → ℕ → List (List ℕ) → Result (List ℕ)
read_index_map comm_rank recvcount files = do
  file ← or_fail out_of_range (get_elem? files comm_rank)
  check (length file == recvcount)
  ok file

-- What a rank gets: rank 0 writes the files, and each rank reads its own.
unfoldable pub scatter_index_map : ℕ → ℕ → ℕ → ℕ → ℕ → List ℕ → Result (List ℕ)
unfolding scatter_files read_index_map
scatter_index_map comm_rank comm_size global_vect_size local_vect_size bytes_per_element
      global_index_map =
    scatter_files comm_size global_vect_size bytes_per_element global_index_map
    >>= read_index_map comm_rank (local_vect_size / bytes_per_element)

-- The field as a rank has it after the broadcasts: on rank 0 its own, on another rank a new one with
-- the sizes of rank 0. The name is cut to the length of the buffer by the sender.
unfoldable pub broadcast_field : Config → Field → Field
unfolding new_field
broadcast_field c root =
    if c.comm_rank == 0
    then root
    else record (new_field root.name (length root.local_vect_sizes_runner) c.ensemble_size
        root.bytes_per_element root.bytes_per_element_hidden) {
          local_vect_sizes_runner = root.local_vect_sizes_runner;
          local_vect_sizes_runner_hidden = root.local_vect_sizes_runner_hidden;
        }

-- The index maps of the rank, for the assimilated and for the hidden state.
unfoldable pub scatter_index_maps : Config → Field → List ℕ → List ℕ → Result (List ℕ × List ℕ)
unfolding scatter_index_map global_vect_size global_vect_size_hidden
scatter_index_maps c f index_map index_map_hidden = do
  local_map ←
      scatter_index_map c.comm_rank c.comm_size (global_vect_size f) f.local_vect_size
        f.bytes_per_element index_map
  local_map_hidden ←
      scatter_index_map c.comm_rank c.comm_size (global_vect_size_hidden f) f.local_vect_size_hidden
        f.bytes_per_element_hidden index_map_hidden
  ok (local_map, local_map_hidden)

-- The field of a rank with its parts, and its local index maps.
unfoldable pub broadcast_field_information_and_calculate_parts :
    Config → Field → List ℕ → List ℕ → Result (Field × (List ℕ × List ℕ))
unfolding broadcast_field calculate_parts scatter_index_maps
broadcast_field_information_and_calculate_parts c root index_map index_map_hidden = do
  f ← calculate_parts c.comm_rank c.comm_size (broadcast_field c root)
  maps ← scatter_index_maps c f index_map index_map_hidden
  ok (f, maps)
