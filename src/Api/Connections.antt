-- ===== src/Api/Connections.antt =====
-- api/api_common.cxx: `Field::initConnections` and `ServerRanks::get`, by which a runner rank finds the
-- server ranks that hold a part of its vectors.
pub mod Matching
pub mod Met
pub mod Tiling
use Prim.Native.String.{String}
use fugaku_particle_filter.Prelude.{
  ℕ, List, [], ◌∷◌, ◌++◌, Option, none, some, ◌==◌, if◌then◌else◌, ◌||◌, length, get_elem?, Result,
  ok, err, out_of_range, check, or_fail, ◌>>=◌, ◌>>◌,
}
use fugaku_particle_filter.Containers.{map_find, map_emplace}
use fugaku_particle_filter.Part.{Part, calculate_n_to_m}
use fugaku_particle_filter.Field.{is_empty, null_part}
use fugaku_particle_filter.Api.{ConnectedServerRank, RunnerRank}

-- A connection that is there is used again.
unfoldable pub get_server_rank : List String → ℕ → List (ℕ × String) → Result (List (ℕ × String))
unfolding map_find map_emplace
get_server_rank port_names server_rank ranks = elim (map_find server_rank ranks) [
  | some _ ↦ ok ranks
  | none ↦ or_fail out_of_range (get_elem? port_names server_rank) >>= λ address.
      ok (map_emplace server_rank address ranks)
]

abbrev pub connection : Part → Part → ConnectedServerRank
connection part hidden_part = record {
  send_count = part.send_count;
  local_vector_offset = part.local_offset_runner;
  send_count_hidden = hidden_part.send_count;
  local_vector_offset_hidden = hidden_part.local_offset_runner;
  server_rank = part.rank_server;
}

-- What the loop changes.
pub record Connected : Type 0 where
  pub connected_server_ranks : List ConnectedServerRank
  pub ranks : List (ℕ × String)

unfoldable pub connect_to : List String → Part → Part → Connected → Result Connected
unfolding get_server_rank
connect_to port_names part hidden_part c = do
  ranks ← get_server_rank port_names part.rank_server c.ranks
  ok (record {
    connected_server_ranks = c.connected_server_ranks ++ (connection part hidden_part ∷ []);
    ranks = ranks;
  })

-- The loop where there are no hidden parts.
unfoldable pub connect_parts : ℕ → List String → List Part → Connected → Result Connected
unfolding connect_to
connect_parts comm_rank port_names [] c = ok c
connect_parts comm_rank port_names (p ∷ ps) c = do
  c' ← if p.rank_runner == comm_rank then connect_to port_names p null_part c else ok c
  connect_parts comm_rank port_names ps c'

-- The loop where the hidden parts go along with the parts.
unfoldable pub connect_parts_hidden :
    ℕ → List String → List Part → List Part → Connected → Result Connected
unfolding connect_to
connect_parts_hidden comm_rank port_names [] hs c = ok c
connect_parts_hidden comm_rank port_names (p ∷ ps) [] c = err out_of_range
connect_parts_hidden comm_rank port_names (p ∷ ps) (h ∷ hs) c = do
  c' ←
      if p.rank_runner == comm_rank
      then check (h.rank_runner == comm_rank) >> connect_to port_names p h c
      else ok c
  connect_parts_hidden comm_rank port_names ps hs c'

-- `Field::initConnections` on a server of `comm_size` ranks.
unfoldable pub init_connections :
    ℕ → List String → List ℕ → List ℕ → ℕ → ℕ → RunnerRank → Result RunnerRank
unfolding connect_parts connect_parts_hidden calculate_n_to_m
init_connections comm_size port_names local_vect_sizes local_hidden_vect_sizes bytes_per_element
      bytes_per_element_hidden r =
    do
      parts ← or_fail out_of_range (calculate_n_to_m comm_size local_vect_sizes bytes_per_element)
      parts_hidden ←
          or_fail out_of_range
            (calculate_n_to_m comm_size local_hidden_vect_sizes bytes_per_element_hidden)
      check (length parts_hidden == 0 || length parts_hidden == length parts)
      let c : Connected = record {
        connected_server_ranks = r.field.connected_server_ranks;
        ranks = r.ranks;
      }
      c' ←
          if is_empty parts_hidden
          then connect_parts r.comm_rank port_names parts c
          else connect_parts_hidden r.comm_rank port_names parts parts_hidden c
      ok (record r {
        field = record (r.field) { connected_server_ranks = c'.connected_server_ranks };
        ranks = c'.ranks;
      })
