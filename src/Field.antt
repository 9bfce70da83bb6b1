-- ===== src/Field.antt =====
-- server/Field.h, server/Field.cxx and server/EnsembleMember.cxx: the field, how it is cut into
-- parts, and the states of the ensemble members that this server rank keeps. `VEC_T` is `char`.
pub mod Members
use Prim.Native.String.{String}
use fugaku_particle_filter.Prelude.{
  ℕ, zero, suc, ◌+◌, ◌/◌, ◌≡◌, List, [], ◌∷◌, ◌++◌, map, Option, none, some, Bool, true, false, leb,
  ltb, ◌==◌, if◌then◌else◌, ◌&&◌, ◌||◌, length, Result, ok, err, exit, assertion, ◌%◌, ◌^◌,
  out_of_range, check, or_fail, ◌>>=◌, ◌>>◌, get_elem?, set,
}
use fugaku_particle_filter.Containers.{set_insert, overwrite, resize, slice}
use fugaku_particle_filter.Part.{Part, int_mod, size_t_mod, calculate_n_to_m, sum_vec}

pub record EnsembleMember : Type 0 where
  pub state_analysis : List ℕ
  pub state_background : List ℕ
  pub state_hidden : List ℕ

-- `resize` to an `int`, which a size becomes first. It fills up with zeros; one that is negative is
-- too long a length, and the exception ends the process.
unfoldable pub resize_to_int : ℕ → List ℕ → Result (List ℕ)
unfolding resize
resize_to_int size xs =
    if ltb (size % int_mod) (2 ^ 31) then ok (resize (size % int_mod) 0 xs) else err exit

unfoldable pub set_local_vect_size : ℕ → ℕ → EnsembleMember → Result EnsembleMember
unfolding resize_to_int
set_local_vect_size local_vect_size local_vect_size_hidden m = do
  state_analysis ← resize_to_int local_vect_size m.state_analysis
  state_background ← resize_to_int local_vect_size m.state_background
  state_hidden ← resize_to_int local_vect_size_hidden m.state_hidden
  ok (record {
    state_analysis = state_analysis;
    state_background = state_background;
    state_hidden = state_hidden;
  })

unfoldable pub set_local_vect_sizes : ℕ → ℕ → List EnsembleMember → Result (List EnsembleMember)
unfolding set_local_vect_size
set_local_vect_sizes size size_hidden [] = ok []
set_local_vect_sizes size size_hidden (m ∷ ms) = do
  m' ← set_local_vect_size size size_hidden m
  ms' ← set_local_vect_sizes size size_hidden ms
  ok (m' ∷ ms')

-- `count` values from a pointer, which may be null where it points to none.
unfoldable pub pointee : Option (List ℕ) → ℕ → Result (List ℕ)
unfolding slice
pointee none count = if count == 0 then ok [] else err out_of_range
pointee (some values) count = or_fail out_of_range (slice 0 count values)

abbrev pub is_some {ℓ} : {A : Type ℓ} → Option A → Bool
is_some none = false
is_some (some _) = true

unfoldable pub store_background_state_part :
    Part → Option (List ℕ) → Part → Option (List ℕ) → EnsembleMember → Result EnsembleMember
unfolding pointee
store_background_state_part part values hidden_part values_hidden m = do
  check (is_some values || part.send_count == 0)
  check (leb (part.send_count + part.local_offset_server) (length m.state_background))
  new_background ← pointee values part.send_count
  check (is_some values_hidden || hidden_part.send_count == 0)
  check (leb (hidden_part.send_count + hidden_part.local_offset_server) (length m.state_hidden))
  new_hidden ← pointee values_hidden hidden_part.send_count
  ok (record m {
    state_background = overwrite part.local_offset_server new_background m.state_background;
    state_hidden = overwrite hidden_part.local_offset_server new_hidden m.state_hidden;
  })

pub record Field : Type 0 where
  pub name : String
  pub ensemble_members : List EnsembleMember
  pub local_vect_size : ℕ
  pub local_vect_sizes_runner : List ℕ
  pub parts : List Part
  pub local_vect_size_hidden : ℕ
  pub local_vect_sizes_runner_hidden : List ℕ
  pub parts_hidden : List Part
  pub connected_runner_ranks : List ℕ
  pub local_index_map_size : ℕ
  pub local_index_map_hidden_size : ℕ
  pub bytes_per_element : ℕ
  pub bytes_per_element_hidden : ℕ

abbrev empty_member : EnsembleMember
empty_member = record { state_analysis = []; state_background = []; state_hidden = [] }

-- The constructor: vectors of zeros and of empty members.
unfoldable pub new_field : String → ℕ → ℕ → ℕ → ℕ → Field
unfolding resize
new_field name simu_comm_size ensemble_size bytes_per_element bytes_per_element_hidden = record {
  name = name;
  ensemble_members = resize ensemble_size empty_member [];
  local_vect_size = 0;
  local_vect_sizes_runner = resize simu_comm_size 0 [];
  parts = [];
  local_vect_size_hidden = 0;
  local_vect_sizes_runner_hidden = resize simu_comm_size 0 [];
  parts_hidden = [];
  connected_runner_ranks = [];
  local_index_map_size = 0;
  local_index_map_hidden_size = 0;
  bytes_per_element = bytes_per_element;
  bytes_per_element_hidden = bytes_per_element_hidden;
}

-- One part of the loop of `calculate_parts`, on server rank `comm_rank`.
unfoldable pub take_part : ℕ → Part → Field → Field
take_part comm_rank p f =
    if p.rank_server == comm_rank
    then record f {
      local_vect_size = (f.local_vect_size + p.send_count) % size_t_mod;
      connected_runner_ranks = set_insert p.rank_runner f.connected_runner_ranks;
    }
    else f

unfoldable pub take_parts : ℕ → List Part → Field → Field
unfolding take_part
take_parts comm_rank [] f = f
take_parts comm_rank (p ∷ ps) f = take_parts comm_rank ps (take_part comm_rank p f)

unfoldable pub take_part_hidden : ℕ → Part → Part → Field → Result Field
take_part_hidden comm_rank p h f =
    if p.rank_server == comm_rank
    then (do
      check (h.rank_server == comm_rank)
      ok (record f {
        local_vect_size_hidden = (f.local_vect_size_hidden + h.send_count) % size_t_mod;
      }))
    else ok f

-- The same loop where there are hidden parts, which go along with the parts.
unfoldable pub take_parts_hidden : ℕ → List Part → List Part → Field → Result Field
unfolding take_part take_part_hidden
take_parts_hidden comm_rank [] hs f = ok f
take_parts_hidden comm_rank (p ∷ ps) [] f = err out_of_range
take_parts_hidden comm_rank (p ∷ ps) (h ∷ hs) f = do
  f' ← take_part_hidden comm_rank p h (take_part comm_rank p f)
  take_parts_hidden comm_rank ps hs f'

abbrev pub is_empty {ℓ} : {A : Type ℓ} → List A → Bool
is_empty [] = true
is_empty (_ ∷ _) = false

unfoldable pub calculate_parts : ℕ → ℕ → Field → Result Field
unfolding take_parts take_parts_hidden set_local_vect_sizes
calculate_parts comm_rank server_comm_size f = do
  parts ←
      or_fail out_of_range
        (calculate_n_to_m server_comm_size f.local_vect_sizes_runner f.bytes_per_element)
  parts_hidden ← or_fail out_of_range (
      calculate_n_to_m server_comm_size f.local_vect_sizes_runner_hidden f.bytes_per_element_hidden)
  check (length parts_hidden == 0 || length parts_hidden == length parts)
  let g = record f { parts = parts; parts_hidden = parts_hidden }
  g' ←
      if is_empty parts_hidden
      then ok (take_parts comm_rank parts g)
      else take_parts_hidden comm_rank parts parts_hidden g
  ensemble_members ←
      set_local_vect_sizes g'.local_vect_size g'.local_vect_size_hidden g'.ensemble_members
  check (ltb 0 (length (g'.connected_runner_ranks)))
  ok (record g' {
    ensemble_members = ensemble_members;
    local_index_map_size = g'.local_vect_size / g'.bytes_per_element;
    local_index_map_hidden_size = g'.local_vect_size_hidden / g'.bytes_per_element_hidden;
  })

-- The first part between this server rank and a runner rank.
unfoldable pub find_part : ℕ → ℕ → List Part → Option Part
find_part comm_rank simu_rank [] = none
find_part comm_rank simu_rank (p ∷ ps) =
    if p.rank_server == comm_rank && p.rank_runner == simu_rank
    then some p
    else find_part comm_rank simu_rank ps

unfoldable pub get_part : ℕ → Field → ℕ → Result Part
unfolding find_part
get_part comm_rank f simu_rank = do
  check (ltb 0 (length f.parts))
  or_fail assertion (find_part comm_rank simu_rank f.parts)

-- Its ranks are -1 in the source; only `send_count` and the offset are read.
abbrev pub null_part : Part
null_part = record {
  rank_runner = 0;
  local_offset_runner = 0;
  rank_server = 0;
  local_offset_server = 0;
  send_count = 0;
}

unfoldable pub get_part_hidden : ℕ → Field → ℕ → Result Part
unfolding find_part
get_part_hidden comm_rank f simu_rank =
    if is_empty f.parts_hidden
    then ok null_part
    else or_fail assertion (find_part comm_rank simu_rank f.parts_hidden)

unfoldable pub global_vect_size : Field → ℕ
global_vect_size f = sum_vec f.local_vect_sizes_runner

unfoldable pub global_vect_size_hidden : Field → ℕ
global_vect_size_hidden f = sum_vec f.local_vect_sizes_runner_hidden

-- `ensemble_members[state_id].store_background_state_part(...)`; `operator[]` does not test its
-- index, so one that is out of range is a fault.
unfoldable pub store_part :
    ℕ → Part → Option (List ℕ) → Part → Option (List ℕ) → Field → Result Field
unfolding store_background_state_part
store_part state_id part values hidden_part values_hidden f = do
  m ← or_fail out_of_range (get_elem? f.ensemble_members state_id)
  m' ← store_background_state_part part values hidden_part values_hidden m
  ok (record f { ensemble_members = set f.ensemble_members state_id m' })
