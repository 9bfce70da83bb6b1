-- ===== src/Server/Responses.antt =====
-- server/server.cxx: `handle_data_response`, the message by which a runner rank hands in a propagated
-- state, or says that it is there, and what the server makes of its connection.
use Prim.Native.String.{String}
use text.Mathlib.Text.{◌==◌ as str_eq}
use fugaku_particle_filter.Prelude.{
  ℕ, List, [], ◌∷◌, ◌++◌, Option, none, some, Bool, true, false, ltb, ◌==◌, if◌then◌else◌, ◌&&◌,
  ◌||◌, length, Result, ok, err, exit, out_of_range, check, ◌>>=◌, ◌>>◌,
}
use fugaku_particle_filter.Prelude.Int.{ℤ, pos, negsuc, eq_ℤ}
use fugaku_particle_filter.Containers.{map_find, map_assign, map_emplace}
use fugaku_particle_filter.Part.{Part}
use fugaku_particle_filter.Field.{get_part, get_part_hidden, store_part}
use fugaku_particle_filter.Server.{
  Config, Server, TaskLists, SubTask, Connection, Runner, notify, running, on_init_state, is_killed,
  kill_runner,
}
use fugaku_particle_filter.Server.Connections.{launch_sub_task, stop_frames}
use fugaku_particle_filter.Server.Tasks.{schedule_new_task, push_running}

-- The frames of the message: the identity of the sender, the header, the values, and what follows.
pub record DataResponse : Type 0 where
  pub identity : List ℕ
  pub runner_id : ℕ
  pub runner_rank : ℕ
  pub runner_state_id : ℤ
  pub runner_timestep : ℤ
  pub field_name : String
  pub data_msg : List ℕ
  pub data_msg_hidden : Option (List ℕ)

-- Rank 0 notifies the launcher of a runner that it hears of for the first time. One that never
-- registered ends the server.
unfoldable pub notify_connected : Config → DataResponse → Server → Result Server
unfolding map_find map_assign
notify_connected c m s =
    if c.comm_rank == 0
    then elim (map_find m.runner_id s.launcher_notified_about_runner) [
      | none ↦ err exit
      | some launcher_notified ↦
          if launcher_notified
          then ok s
          else ok (record s {
            sent = s.sent ++ (notify m.runner_id running ∷ []);
            launcher_notified_about_runner =
                map_assign m.runner_id true s.launcher_notified_about_runner;
          })
    ]
    else ok s

abbrev pub answers : DataResponse → SubTask → Bool
answers m st =
    st.runner_id == m.runner_id
    && (eq_ℤ (pos st.state_id) m.runner_state_id && st.runner_rank == m.runner_rank)

abbrev pub awaits : DataResponse → SubTask → Bool
awaits m st = st.runner_id == m.runner_id && st.runner_rank == m.runner_rank

-- `find_if` and `erase`: the first sub task that fits, and the list without it.
unfoldable pub extract : (SubTask → Bool) → List SubTask → Option (SubTask × List SubTask)
extract p [] = none
extract p (st ∷ sts) =
    if p st
    then some (st, sts)
    else elim (extract p sts) [ none ↦ none | some (found, others) ↦ some (found, st ∷ others) ]

abbrev pub is_found : Option (SubTask × List SubTask) → Bool
is_found none = false
is_found (some _) = true

-- The sub task that is answered is finished.
abbrev pub finish_found : Option (SubTask × List SubTask) → TaskLists → TaskLists
finish_found none l = l
finish_found (some (st, others)) l = record l {
  finished_sub_tasks = l.finished_sub_tasks ++ (st ∷ []);
  running_sub_tasks = others;
}

-- The hidden values follow in a frame of their own where the hidden part is not empty.
unfoldable pub receive_hidden : Part → DataResponse → Result (Option (List ℕ))
receive_hidden hidden_part m =
    if ltb 0 hidden_part.send_count
    then elim (m.data_msg_hidden) [
      | none ↦ check false >> ok none
      | some v ↦ check (length v == hidden_part.send_count) >> ok (some v)
    ]
    else ok none

-- Values of the current step go to the background state of their member. Those of step 0 go to the
-- assimilator, unless they claim to belong to a state.
unfoldable pub store_values : DataResponse → Part → Part → Option (List ℕ) → Server → Result Server
store_values m part hidden_part values_hidden s =
    if eq_ℤ m.runner_timestep s.current_step
    then elim (m.runner_state_id) [
      | pos state_id ↦
          store_part state_id part (some m.data_msg) hidden_part values_hidden s.field >>= λ f.
          ok (record s { field = f })
      | negsuc _ ↦ err out_of_range
    ]
    else ok (
        if eq_ℤ m.runner_state_id (negsuc 0)
        then record s {
          sent =
              s.sent
              ++ (on_init_state m.runner_id part (some m.data_msg) hidden_part values_hidden ∷ []);
        }
        else s)

-- The connection is kept among those of its runner.
unfoldable pub save_connection : DataResponse → Connection → Server → Server
unfolding map_find map_emplace map_assign
save_connection m csr s = elim (map_find m.runner_id s.idle_runners) [
  | none ↦ record s {
    idle_runners = map_emplace m.runner_id (map_emplace m.runner_rank csr []) s.idle_runners;
  }
  | some r ↦ record s {
    idle_runners = map_assign m.runner_id (map_emplace m.runner_rank csr r) s.idle_runners;
  }
]

abbrev pub ranks_of : ℕ → List (ℕ × Runner) → ℕ
ranks_of runner_id m = elim (map_find runner_id m) [ none ↦ 0 | some r ↦ length r ]

-- Rank 0 looks for more work when all ranks of the runner are idle.
unfoldable pub schedule_if_idle : Config → ℕ → ℕ → Server → Result Server
unfolding map_find
schedule_if_idle c now runner_id s =
    if c.comm_rank == 0
      && ranks_of runner_id s.idle_runners == length s.field.connected_runner_ranks
    then (schedule_new_task c now runner_id s >>= λ r. ok (r.1))
    else ok s

-- The connection is used for the first sub task that waits for this runner rank, or kept.
unfoldable pub use_connection : Config → ℕ → DataResponse → Connection → Server → Result Server
use_connection c now m csr s = elim (extract (awaits m) s.lists.scheduled_sub_tasks) [
  | none ↦ schedule_if_idle c now m.runner_id (save_connection m csr s)
  | some (st, others) ↦ launch_sub_task c csr m.runner_rank st.state_id s >>= λ s'.
      ok
        (record s' { lists = push_running st (record (s'.lists) { scheduled_sub_tasks = others }) })
]

-- A runner that is not on the list of the killed ones.
unfoldable pub accept_response : Config → ℕ → DataResponse → Server → Result Server
accept_response c now m s = do
  let found = extract (answers m) s.lists.running_sub_tasks
  check (eq_ℤ m.runner_timestep (pos 0) || is_found found)
  let s1 = record s { lists = finish_found found s.lists }
  check (eq_ℤ m.runner_timestep (pos 0) || eq_ℤ m.runner_timestep s1.current_step)
  check (str_eq (s1.field.name) m.field_name)
  part ← get_part c.comm_rank s1.field m.runner_rank
  check (length m.data_msg == part.send_count)
  hidden_part ← get_part_hidden c.comm_rank s1.field m.runner_rank
  values_hidden ← receive_hidden hidden_part m
  s2 ← store_values m part hidden_part values_hidden s1
  use_connection c now m (some m.identity) s2

-- A runner that has been given up is told to quit.
unfoldable pub answer_response : Config → ℕ → DataResponse → Server → Result Server
unfolding is_killed stop_frames
answer_response c now m s =
    if is_killed m.runner_id s.killed
    then ok (record s { sent = s.sent ++ stop_frames kill_runner s.current_step (some m.identity) })
    else accept_response c now m s

unfoldable pub handle_data_response : Config → ℕ → DataResponse → Server → Result Server
handle_data_response c now m s = do
  check (s.identity_size == 0 || s.identity_size == length m.identity)
  s' ← notify_connected c m (record s { identity_size = length m.identity })
  answer_response c now m s'
