-- ===== src/Api/Registration.antt =====
-- api/melissa_da_api.cxx: how a runner registers, `ConfigurationConnection` and
-- `melissa_init_with_index_map`. The index maps of the ranks are gathered by `slow_MPI_Gatherv` of
-- common/utils.cxx, as it is with SLOW_MPI.
pub mod Gathered
pub mod Accepted
use Prim.Native.String.{String}
use fugaku_particle_filter.Prelude.{
  ℕ, zero, suc, ◌+◌, ◌*◌, ◌/◌, ◌%◌, ◌^◌, List, [], ◌∷◌, Option, none, some, Bool, ◌==◌,
  if◌then◌else◌, length, get_or, replicate, Result, ok, err, assertion, out_of_range, check, ◌>>=◌,
  ◌>>◌,
}
use fugaku_particle_filter.Prelude.Int.{pos, negsuc}
use fugaku_particle_filter.Part.{sum_vec}
use fugaku_particle_filter.Server.Registration.{FieldMessage, Reply, registered, acknowledged}
use fugaku_particle_filter.Api.{RunnerRank, copy_in}
use fugaku_particle_filter.Api.Connections.{init_connections}

-- `register_runner_id`: whether the field is to be registered, and the number of server ranks. An
-- answer of another size fails an assertion.
unfoldable pub registration_of : Reply → Result (Bool × ℕ)
registration_of (registered request_register_field comm_size) =
    ok (request_register_field, comm_size)
registration_of acknowledged = err assertion

-- What `melissa_init_with_index_map` is called with, on all ranks of the runner: the sizes of their
-- vectors, and their index maps if these are not null.
pub record InitArguments : Type 0 where
  pub field_name : String
  pub local_vect_sizes : List ℕ
  pub local_hidden_vect_sizes : List ℕ
  pub bytes_per_element : ℕ
  pub bytes_per_element_hidden : ℕ
  pub local_index_maps : Option (List (List ℕ))
  pub local_index_maps_hidden : Option (List (List ℕ))

-- `ConfigurationConnection::register_field`: the message, frame by frame.
unfoldable pub field_message : InitArguments → List ℕ → List ℕ → FieldMessage
field_message a global_index_map global_index_map_hidden = record {
  runner_comm_size = length a.local_vect_sizes;
  bytes_per_element = a.bytes_per_element;
  bytes_per_element_hidden = a.bytes_per_element_hidden;
  field_name = a.field_name;
  frames =
      a.local_vect_sizes
      ∷ (a.local_hidden_vect_sizes ∷ (global_index_map ∷ (global_index_map_hidden ∷ [])));
}

-- The answer has to be empty.
unfoldable pub field_registered : Reply → Result (Unit {0})
field_registered acknowledged = ok tt
field_registered (registered _ _) = err assertion

-- An entry of an index map, two `int`, as the number that its bytes are.
abbrev pub index_map_entry : ℕ → ℕ → ℕ
index_map_entry index varid = index + 2 ^ 32 * varid

-- Where there are no index maps, the entries are numbered.
unfoldable pub number_entries : ℕ → ℕ → List ℕ
number_entries i zero = []
number_entries i (suc n) = index_map_entry i 0 ∷ number_entries (i + 1) n

-- The loop of `slow_MPI_Gatherv` on rank 0, which reads the file of each rank into its place.
-- A division by 0 is a fault.
unfoldable pub gather_from : ℕ → ℕ → List ℕ → List (List ℕ) → List ℕ → Result (List ℕ)
unfolding copy_in
gather_from w displ [] files recvbuf = ok recvbuf
gather_from w displ (n ∷ ns) [] recvbuf = err out_of_range
gather_from w displ (n ∷ ns) (file ∷ files) recvbuf = do
  check (length file == n / w)
  recvbuf' ← copy_in displ file recvbuf
  gather_from w (displ + n / w) ns files recvbuf'

unfoldable pub gather_global_index_map :
    Option (List (List ℕ)) → List ℕ → List ℕ → ℕ → Result (List ℕ)
unfolding number_entries gather_from
gather_global_index_map none global_index_map local_vect_sizes bytes_per_element =
    ok (number_entries 0 (length global_index_map))
gather_global_index_map (some files) global_index_map local_vect_sizes bytes_per_element =
    gather_from bytes_per_element 0 local_vect_sizes files global_index_map

-- The global index map of rank 0 before it is filled.
unfoldable pub new_index_map : List ℕ → ℕ → Result (List ℕ)
unfolding sum_vec
new_index_map local_vect_sizes zero = err out_of_range
new_index_map local_vect_sizes (suc w) = do
  let global_vect_size = sum_vec local_vect_sizes
  check (global_vect_size % suc w == 0)
  ok (replicate (global_vect_size / suc w) 0)

unfoldable pub global_index_maps : InitArguments → Result (List ℕ × List ℕ)
unfolding new_index_map gather_global_index_map
global_index_maps a = do
  empty_map ← new_index_map a.local_vect_sizes a.bytes_per_element
  empty_map_hidden ← new_index_map a.local_hidden_vect_sizes a.bytes_per_element_hidden
  index_map ←
      gather_global_index_map a.local_index_maps empty_map a.local_vect_sizes a.bytes_per_element
  index_map_hidden ←
      gather_global_index_map a.local_index_maps_hidden empty_map_hidden a.local_hidden_vect_sizes
        a.bytes_per_element_hidden
  ok (index_map, index_map_hidden)

-- The field before its connections, on this rank.
unfoldable pub create_field : InitArguments → RunnerRank → RunnerRank
create_field a r = record r {
  field = record (r.field) {
    name = a.field_name;
    current_state_id = negsuc 0;
    current_step = pos 0;
    local_vect_size = get_or a.local_vect_sizes r.comm_rank 0;
    local_hidden_vect_size = get_or a.local_hidden_vect_sizes r.comm_rank 0;
  };
}

-- `melissa_init_with_index_map` with what `first_melissa_init` has brought: whether the field is to be
-- registered (on rank 0 only), the number of server ranks and their ports. The message, if there is
-- one, and the rank.
unfoldable pub melissa_init_with_index_map :
    Bool → ℕ → List String → InitArguments → RunnerRank → Result (Option FieldMessage × RunnerRank)
unfolding global_index_maps field_message create_field init_connections
melissa_init_with_index_map must_register comm_size port_names a r = do
  (index_map, index_map_hidden) ← if r.comm_rank == 0 then global_index_maps a else ok ([], [])
  r' ←
      init_connections comm_size port_names a.local_vect_sizes a.local_hidden_vect_sizes
        a.bytes_per_element a.bytes_per_element_hidden (create_field a r)
  ok ((if must_register then some (field_message a index_map index_map_hidden) else none), r')
