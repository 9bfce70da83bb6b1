-- ===== src/Server/Connections.antt =====
-- server/server.cxx: `RunnerRankConnection` and `Runner`, and what they send.
pub mod Frames
use fugaku_particle_filter.Prelude.{
  ℕ, ◌+◌, List, [], ◌∷◌, ◌++◌, Option, none, some, Bool, true, false, ltb, ◌==◌, if◌then◌else◌,
  length, get_elem?, Result, ok, err, assertion, out_of_range, or_fail, ◌>>=◌,
}
use fugaku_particle_filter.Prelude.Int.{ℤ, pos, negsuc}
use fugaku_particle_filter.Containers.{slice}
use fugaku_particle_filter.Part.{Part}
use fugaku_particle_filter.Field.{Field, get_part, get_part_hidden}
use fugaku_particle_filter.Server.{
  Config, Server, Connection, Runner, Frame, Sent, frame, Content, identity, empty, header, values,
  DataMessageType, change_state, end_runner, kill_runner,
}

abbrev pub zmq_frame : Content → Bool → Sent
zmq_frame c more = frame (record { content = c; more = more })

-- The frames of a state that goes out; the part of the hidden state follows where there is one.
unfoldable pub state_frames : List ℕ → ℕ → ℤ → ℤ → List ℕ → Option (List ℕ) → List Sent
state_frames id state_id current_step current_nsteps data_msg none =
    zmq_frame (identity id) true
    ∷ zmq_frame empty true
    ∷ zmq_frame (header (pos state_id) current_step change_state current_nsteps) true
    ∷ zmq_frame (values data_msg) false
    ∷ []
state_frames id state_id current_step current_nsteps data_msg (some data_msg_hidden) =
    zmq_frame (identity id) true
    ∷ zmq_frame empty true
    ∷ zmq_frame (header (pos state_id) current_step change_state current_nsteps) true
    ∷ zmq_frame (values data_msg) true
    ∷ zmq_frame (values data_msg_hidden) false
    ∷ []

-- The part of the hidden state, if it is not empty.
unfoldable pub hidden_values : Part → List ℕ → Result (Option (List ℕ))
unfolding slice
hidden_values hidden_part state_hidden =
    if ltb 0 hidden_part.send_count
    then (or_fail out_of_range
          (slice hidden_part.local_offset_server hidden_part.send_count state_hidden)
        >>= λ v. ok (some v))
    else ok none

-- `launch_sub_task` on a connection. It sends a state and uses the connection up.
unfoldable pub launch_sub_task : Config → Connection → ℕ → ℕ → Server → Result Server
unfolding state_frames hidden_values
launch_sub_task c none runner_rank state_id s = err assertion
launch_sub_task c (some id) runner_rank state_id s = do
  part ← get_part c.comm_rank s.field runner_rank
  member ← or_fail out_of_range (get_elem? s.field.ensemble_members state_id)
  data_msg ←
      or_fail out_of_range (slice part.local_offset_server part.send_count member.state_analysis)
  hidden_part ← get_part_hidden c.comm_rank s.field runner_rank
  data_msg_hidden ← hidden_values hidden_part member.state_hidden
  ok (record s {
    sent =
        s.sent ++ state_frames id state_id s.current_step s.current_nsteps data_msg data_msg_hidden;
  })

-- `stop` on a connection: the identity goes out with no flag, and so does the header.
unfoldable pub stop_frames : DataMessageType → ℤ → Connection → List Sent
stop_frames end_flag current_step none = []
stop_frames end_flag current_step (some id) =
    zmq_frame (identity id) false
    ∷ zmq_frame empty true
    ∷ zmq_frame (header (negsuc 0) current_step end_flag (pos 0)) false
    ∷ []

-- `Runner::stop`.
unfoldable pub runner_stop_frames : DataMessageType → ℤ → Runner → List Sent
unfolding stop_frames
runner_stop_frames end_flag current_step [] = []
runner_stop_frames end_flag current_step ((rank, cs) ∷ r) =
    stop_frames end_flag current_step cs ++ runner_stop_frames end_flag current_step r

-- What `Runner::stop` leaves: connections with no identity.
unfoldable pub used_up : Runner → Runner
used_up [] = []
used_up ((rank, cs) ∷ r) = (rank, none) ∷ used_up r

unfoldable pub stop_all : DataMessageType → ℤ → List (ℕ × Runner) → List Sent
unfolding runner_stop_frames
stop_all end_flag current_step [] = []
stop_all end_flag current_step ((id, r) ∷ m) =
    runner_stop_frames end_flag current_step r ++ stop_all end_flag current_step m

unfoldable pub use_up_all : List (ℕ × Runner) → List (ℕ × Runner)
unfolding used_up
use_up_all [] = []
use_up_all ((id, r) ∷ m) = (id, used_up r) ∷ use_up_all m

unfoldable pub end_all_runners : Server → Server
unfolding stop_all use_up_all
end_all_runners s = record s {
  sent = s.sent ++ stop_all end_runner s.current_step s.idle_runners;
  idle_runners = use_up_all s.idle_runners;
}

unfoldable pub kill_all_runners : Server → Server
unfolding stop_all use_up_all
kill_all_runners s = record s {
  sent = s.sent ++ stop_all kill_runner s.current_step s.idle_runners;
  idle_runners = use_up_all s.idle_runners;
}

-- The first runner of which every rank that this server rank talks to is connected.
unfoldable pub find_completely_idle : ℕ → List (ℕ × Runner) → Option ℕ
find_completely_idle connections [] = none
find_completely_idle connections ((id, r) ∷ m) =
    if length r == connections then some id else find_completely_idle connections m

unfoldable pub get_completely_idle_runner : Server → Option ℕ
unfolding find_completely_idle
get_completely_idle_runner s =
    find_completely_idle (length (s.field.connected_runner_ranks)) s.idle_runners
