-- ===== src/Part.antt =====
-- common/Part.h and common/Part.cxx: how the bytes of a field are cut into the parts that one
-- runner rank exchanges with one server rank. `size_t` is a number below 2^64 and `int` a bit
-- pattern below 2^32; every conversion and wrap-around of the source is written out.
pub mod Positions
pub mod NToM
pub mod Sizes
pub mod Correct
pub mod Fits
pub mod Order
pub mod Positive
use fugaku_particle_filter.Prelude.{
  ℕ, zero, suc, ◌+◌, ◌-◌, ◌*◌, ◌/◌, ◌%◌, ◌^◌, List, [], ◌∷◌, ◌++◌, Bool, Option, none, some, ltb,
  ◌==◌, if◌then◌else◌, get_elem?,
}

pub record Part : Type 0 where
  pub rank_runner : ℕ
  pub local_offset_runner : ℕ
  pub rank_server : ℕ
  pub local_offset_server : ℕ
  pub send_count : ℕ

abbrev pub size_t_mod : ℕ
size_t_mod = 2 ^ 64

abbrev pub int_mod : ℕ
int_mod = 2 ^ 32

-- The `size_t` that an `int` converts to: a negative one is extended by ones.
abbrev pub size_of_int : ℕ → ℕ
size_of_int x = if ltb x (2 ^ 31) then x else size_t_mod - (int_mod - x)

-- `/` of an `int` by a positive one goes towards zero.
abbrev pub div_int : ℕ → ℕ → ℕ
div_int x n = if ltb x (2 ^ 31) then x / n else (int_mod - (int_mod - x) / n) % int_mod

-- `std::accumulate` over `size_t`.
unfoldable pub sum_from : ℕ → List ℕ → ℕ
sum_from acc [] = acc
sum_from acc (x ∷ xs) = sum_from ((acc + x) % size_t_mod) xs

unfoldable pub sum_vec : List ℕ → ℕ
unfolding sum_from
sum_vec xs = sum_from 0 xs

-- One round of the loop of `calculate_local_vect_sizes_server`: the bytes of server rank `i`.
unfoldable pub local_vect_size_server : ℕ → ℕ → ℕ → ℕ → ℕ
local_vect_size_server comm_size_server global_elements bytes_per_element i =
    let share = size_of_int (div_int global_elements comm_size_server) in
    let n_rest =
      (size_of_int global_elements + size_t_mod - share * comm_size_server % size_t_mod)
      % size_t_mod in
    (if ltb i n_rest then (share + 1) % size_t_mod else share) * bytes_per_element % size_t_mod

-- The loop, with the rounds that are left and `i`.
unfoldable pub sizes_server_from : ℕ → ℕ → ℕ → ℕ → ℕ → List ℕ
sizes_server_from zero i comm_size_server global_elements bytes_per_element = []
sizes_server_from (suc rounds) i comm_size_server global_elements bytes_per_element =
    local_vect_size_server comm_size_server global_elements bytes_per_element i
    ∷ sizes_server_from rounds (i + 1) comm_size_server global_elements bytes_per_element

-- `global_elements` is an `int`, so the quotient keeps its low 32 bits.
unfoldable pub calculate_local_vect_sizes_server : ℕ → ℕ → ℕ → List ℕ
unfolding sizes_server_from local_vect_size_server
calculate_local_vect_sizes_server comm_size_server global_vect_size bytes_per_element =
    sizes_server_from comm_size_server 0 comm_size_server
      (global_vect_size / bytes_per_element % int_mod) bytes_per_element

-- The variables of the loop of `calculate_n_to_m`. `parts` is `closed` with `last` at its end.
pub record Cut : Type 0 where
  pub closed : List Part
  pub last : Part
  pub index_in_runner : ℕ
  pub index_in_server : ℕ

-- `index > size - 1`, where `size - 1` wraps at 0.
abbrev pub crosses : ℕ → ℕ → Bool
crosses index size = ltb ((size + size_t_mod - 1) % size_t_mod) index

-- A simulation domain border: a new part at the start of the next runner rank.
unfoldable pub cross_runner : Cut → Cut
cross_runner c = record {
  closed = c.closed ++ (c.last ∷ []);
  last = record {
    rank_runner = c.last.rank_runner + 1;
    local_offset_runner = 0;
    rank_server = c.last.rank_server;
    local_offset_server = c.index_in_server;
    send_count = 0;
  };
  index_in_runner = 0;
  index_in_server = c.index_in_server;
}

-- A server domain border: the part that was just added, or a new one, starts there.
unfoldable pub cross_server : Bool → Cut → Cut
cross_server added_part c = record {
  closed = if added_part then c.closed else c.closed ++ (c.last ∷ []);
  last = record {
    rank_runner = c.last.rank_runner;
    local_offset_runner = c.index_in_runner;
    rank_server = c.last.rank_server + 1;
    local_offset_server = 0;
    send_count = 0;
  };
  index_in_runner = c.index_in_runner;
  index_in_server = 0;
}

unfoldable pub count_byte : Cut → Cut
count_byte c = record c {
  last = record (c.last) { send_count = c.last.send_count + 1 };
  index_in_runner = c.index_in_runner + 1;
  index_in_server = c.index_in_server + 1;
}

-- The body of the loop, at the sizes of the current runner rank and of the current server rank.
unfoldable pub advance : ℕ → ℕ → Cut → Cut
unfolding cross_runner cross_server count_byte
advance size_runner size_server c =
    let added_part = crosses c.index_in_runner size_runner in
    let c' = if added_part then cross_runner c else c in
    count_byte (if crosses c'.index_in_server size_server then cross_server added_part c' else c')

-- `none` is a read past the end of a vector of sizes.
unfoldable pub cut_bytes : List ℕ → List ℕ → ℕ → Cut → Option Cut
unfolding advance
cut_bytes sizes_runner sizes_server zero c = some c
cut_bytes sizes_runner sizes_server (suc i) c = elim (get_elem? sizes_runner c.last.rank_runner) [
  | none ↦ none
  | some size_runner ↦ elim (get_elem? sizes_server c.last.rank_server) [
    | none ↦ none
    | some size_server ↦ cut_bytes sizes_runner sizes_server i (advance size_runner size_server c)
  ]
]

abbrev pub first_cut : Cut
first_cut = record {
  closed = [];
  last = record {
    rank_runner = 0;
    local_offset_runner = 0;
    rank_server = 0;
    local_offset_server = 0;
    send_count = 0;
  };
  index_in_runner = 0;
  index_in_server = 0;
}

abbrev pub parts_of : Option Cut → Option (List Part)
parts_of none = none
parts_of (some c) = some (c.closed ++ (c.last ∷ []))

unfoldable pub calculate_n_to_m : ℕ → List ℕ → ℕ → Option (List Part)
unfolding sum_vec calculate_local_vect_sizes_server cut_bytes
calculate_n_to_m comm_size_server local_vect_sizes_runner bytes_per_element =
    let global_vect_size = sum_vec local_vect_sizes_runner in
    let sizes_server =
      calculate_local_vect_sizes_server comm_size_server global_vect_size bytes_per_element in
    if global_vect_size == 0
    then some []
    else parts_of (cut_bytes local_vect_sizes_runner sizes_server global_vect_size first_cut)
