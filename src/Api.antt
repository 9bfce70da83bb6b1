-- ===== src/Api.antt =====
-- api/api_common.h, api/api_common.cxx and api/melissa_da_api.cxx: one rank of a runner, as the program
-- that propagates states sees it. It hands in its part of a state to the server ranks, and gets from
-- them the part of the next one. The variant of api/p2p is left out. The ports of the server ranks are
-- addresses, and a connection is its address.
pub mod Connections
pub mod Registration
pub mod Exchange
pub mod Handover
pub mod Ending
pub mod Chunks
use Prim.Native.String.{String}
use text.Mathlib.Text.{◌==◌ as str_eq}
use fugaku_particle_filter.Prelude.{
  ℕ, ◌+◌, List, [], ◌∷◌, ◌++◌, map, Option, none, some, Bool, true, false, not, leb, ltb, ◌==◌,
  if◌then◌else◌, ◌||◌, length, Result, ok, err, assertion, exit, out_of_range, check, or_fail,
  ◌>>=◌, ◌>>◌,
}
use fugaku_particle_filter.Prelude.Int.{ℤ, pos, negsuc, eq_ℤ}
use fugaku_particle_filter.Containers.{slice, overwrite}
use fugaku_particle_filter.Server.{
  Content, header, values, change_state, keep_state, end_runner, kill_runner,
}

pub record ConnectedServerRank : Type 0 where
  pub send_count : ℕ
  pub local_vector_offset : ℕ
  pub send_count_hidden : ℕ
  pub local_vector_offset_hidden : ℕ
  pub server_rank : ℕ

-- `Field` on the runner's side.
pub record ExposedField : Type 0 where
  pub name : String
  pub current_state_id : ℤ
  pub current_step : ℤ
  pub local_vect_size : ℕ
  pub local_hidden_vect_size : ℕ
  pub connected_server_ranks : List ConnectedServerRank

pub data Phase : Type 0 where
  phase_init phase_simulation phase_final : Phase

-- What goes out to a server rank, frame by frame; the flag is ZMQ_SNDMORE.
pub data RequestContent : Type 0 where
  request_header : ℕ → ℕ → ℤ → ℤ → String → RequestContent
  request_values : List ℕ → RequestContent

pub record Request : Type 0 where
  pub server_rank : ℕ
  pub content : RequestContent
  pub more : Bool

-- The global variables of the rank. `ranks` is that of `ServerRanks`, and `ccon` tells whether there is
-- a configuration connection. The runner's id has been set by `first_melissa_init`.
pub record RunnerRank : Type 0 where
  pub runner_id : ℕ
  pub comm_rank : ℕ
  pub phase : Phase
  pub ccon : Bool
  pub field : ExposedField
  pub ranks : List (ℕ × String)
  pub sent : List Request

-- The vectors of the model that are exposed.
pub record Buffers : Type 0 where
  pub values : List ℕ
  pub hidden_values : List ℕ

abbrev pub request : ℕ → RequestContent → Bool → Request
request server_rank content more = record {
  server_rank = server_rank;
  content = content;
  more = more;
}

-- `ServerRankConnection::send`.
unfoldable pub send : ConnectedServerRank → RequestContent → List ℕ → List ℕ → List Request
send csr request_head data_msg data_msg_hidden =
    request csr.server_rank request_head true
    ∷ (if ltb 0 csr.send_count_hidden
        then request csr.server_rank (request_values data_msg) true
          ∷ request csr.server_rank (request_values data_msg_hidden) false
          ∷ []
        else request csr.server_rank (request_values data_msg) false ∷ [])

-- The parts of the vectors that belong to one connection. Nothing of the hidden vector is read where
-- no hidden value is sent.
unfoldable pub read_values : ConnectedServerRank → Buffers → Result (List ℕ)
unfolding slice
read_values csr b = or_fail out_of_range (slice csr.local_vector_offset csr.send_count b.values)

unfoldable pub read_hidden : ConnectedServerRank → Buffers → Result (List ℕ)
unfolding slice
read_hidden csr b =
    if ltb 0 csr.send_count_hidden
    then or_fail out_of_range
        (slice csr.local_vector_offset_hidden csr.send_count_hidden b.hidden_values)
    else ok []

-- The loop of `Field::putState`: the frames for all server ranks.
unfoldable pub put_parts :
    RequestContent → Buffers → List ConnectedServerRank → Result (List Request)
unfolding send read_values read_hidden
put_parts request_head b [] = ok []
put_parts request_head b (csr ∷ csrs) = do
  data_msg ← read_values csr b
  data_msg_hidden ← read_hidden csr b
  later ← put_parts request_head b csrs
  ok (send csr request_head data_msg data_msg_hidden ++ later)

unfoldable pub put_state : String → Buffers → RunnerRank → Result RunnerRank
unfolding put_parts
put_state field_name b r = do
  let f = r.field
  frames ←
      put_parts
        (request_header r.runner_id r.comm_rank f.current_state_id f.current_step field_name) b
        f.connected_server_ranks
  ok (record r { sent = r.sent ++ frames; field = record f { current_state_id = negsuc 0 } })

-- `memcpy` into a vector of the model.
unfoldable pub copy_in : ℕ → List ℕ → List ℕ → Result (List ℕ)
unfolding overwrite
copy_in offset received xs =
    if leb (offset + length received) (length xs)
    then ok (overwrite offset received xs)
    else err out_of_range

-- What `ServerRankConnection::receive` brings: the id of the state, its step, the number of steps to
-- go, and the vectors.
pub record Received : Type 0 where
  pub current_state_id : ℤ
  pub current_step : ℤ
  pub nsteps : ℤ
  pub buffers : Buffers

-- The frames of a state that follow the header, with no frame after the last of them.
unfoldable pub receive_values : ConnectedServerRank → List Content → Buffers → Result Buffers
unfolding copy_in
receive_values csr (values v ∷ []) b = do
  check (length v == csr.send_count)
  new_values ← copy_in csr.local_vector_offset v b.values
  check (not (ltb 0 csr.send_count_hidden))
  ok (record b { values = new_values })
receive_values csr (values v ∷ (values h ∷ [])) b = do
  check (length v == csr.send_count)
  new_values ← copy_in csr.local_vector_offset v b.values
  check (ltb 0 csr.send_count_hidden)
  check (length h == csr.send_count_hidden)
  new_hidden ← copy_in csr.local_vector_offset_hidden h b.hidden_values
  ok (record { values = new_values; hidden_values = new_hidden })
receive_values csr _ b = err assertion

-- A first frame that is not of four `int` fails an assertion. A runner that is killed ends itself.
unfoldable pub receive : ConnectedServerRank → List Content → Buffers → Result Received
unfolding receive_values
receive csr (header state_id step change_state nsteps ∷ frames) b = do
  new_buffers ← receive_values csr frames b
  ok (record {
    current_state_id = state_id;
    current_step = step;
    nsteps = nsteps;
    buffers = new_buffers;
  })
receive csr (header state_id step end_runner nsteps ∷ frames) b =
    ok (record { current_state_id = state_id; current_step = step; nsteps = pos 0; buffers = b })
receive csr (header state_id step kill_runner nsteps ∷ frames) b = err exit
receive csr (header state_id step keep_state nsteps ∷ frames) b = err assertion
receive csr _ b = err assertion

-- The loop of `Field::getState`; `inbox` is the message that waits from each server rank, and `acc`
-- what has been received, with -1 steps at first.
unfoldable pub get_parts :
    Phase → (ℕ → List Content) → List ConnectedServerRank → Received → Result Received
unfolding receive
get_parts phase inbox [] acc = ok acc
get_parts phase_final inbox (csr ∷ csrs) acc = ok (record acc { nsteps = pos 0 })
get_parts phase inbox (csr ∷ csrs) acc = do
  received ← receive csr (inbox csr.server_rank) acc.buffers
  check (eq_ℤ acc.nsteps (negsuc 0) || eq_ℤ acc.nsteps received.nsteps)
  get_parts phase inbox csrs received

unfoldable pub get_state :
    (ℕ → List Content) → Buffers → RunnerRank → Result (ℤ × Buffers × RunnerRank)
unfolding get_parts
get_state inbox b r = do
  let f = r.field
  received ← get_parts r.phase inbox f.connected_server_ranks (record {
    current_state_id = f.current_state_id;
    current_step = f.current_step;
    nsteps = negsuc 0;
    buffers = b;
  })
  let f' = record f {
    current_state_id = received.current_state_id;
    current_step = received.current_step;
  }
  ok (received.nsteps, received.buffers, record r { field = f' })

unfoldable pub melissa_finalize : RunnerRank → RunnerRank
melissa_finalize r = record r { phase = phase_final; ccon = false; ranks = [] }

abbrev pub is_final : Phase → Bool
is_final phase_final = true
is_final _ = false

-- The first call ends the initialisation.
unfoldable pub first_expose : RunnerRank → RunnerRank
first_expose r = elim (r.phase) [
  | phase_init ↦ record r { phase = phase_simulation; ccon = false }
  | _ ↦ r
]

-- The number of steps to go, and the vectors of the next state. 0 steps end the runner.
unfoldable pub melissa_expose :
    String → (ℕ → List Content) → Buffers → RunnerRank → Result (ℤ × Buffers × RunnerRank)
unfolding first_expose put_state get_state melissa_finalize
melissa_expose field_name inbox b r = do
  check (not (is_final r.phase))
  let r1 = first_expose r
  check (str_eq (r1.field.name) field_name)
  r2 ← put_state field_name b r1
  (nsteps, b', r3) ← get_state inbox b r2
  ok (nsteps, b', if eq_ℤ nsteps (pos 0) then melissa_finalize r3 else r3)

-- -2 outside of the simulation.
unfoldable pub melissa_get_current_state_id : RunnerRank → ℤ
melissa_get_current_state_id r = elim (r.phase) [
  | phase_simulation ↦ r.field.current_state_id
  | _ ↦ negsuc 1
]

unfoldable pub melissa_get_current_step : RunnerRank → Result ℤ
melissa_get_current_step r = elim (r.phase) [
  | phase_simulation ↦ ok r.field.current_step
  | _ ↦ err assertion
]
