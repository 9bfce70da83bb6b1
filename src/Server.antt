-- ===== src/Server.antt =====
-- server/server.cxx: the state of one server rank. Each server rank deals out the propagation of the
-- ensemble states to the runners, and waits for all of them before it updates the ensemble. A task is
-- one state on one runner; a sub task is its part that one runner rank exchanges with this rank.
-- The model is of the build with RUNNERS_MAY_CRASH and REPORT_TIMING (both on by default) and without
-- the checkpoints of FTI. Ids, counters and times are numbers that do not wrap.
pub mod Connections
pub mod Tasks
pub mod Registration
pub mod Requests
pub mod Responses
pub mod Updates
pub mod Loop
pub mod Late
pub mod Ledger
pub mod Consistency
use fugaku_particle_filter.Prelude.{
  ℕ, List, [], ◌∷◌, Bool, Option, ltb, ◌==◌, if◌then◌else◌, ◌&&◌, ◌||◌, true, false,
}
use fugaku_particle_filter.Prelude.Int.{ℤ}
use fugaku_particle_filter.Field.{Field}
use fugaku_particle_filter.Part.{Part}
use fugaku_particle_filter.LauncherConnection.{LauncherConnection}

-- What a rank knows from its command line and from MPI.
pub record Config : Type 0 where
  pub ensemble_size : ℕ
  pub max_runner_timeout : ℕ
  pub comm_rank : ℕ
  pub comm_size : ℕ

pub record Task : Type 0 where
  pub state_id : ℕ
  pub runner_id : ℕ

pub record NewTask : Type 0 where
  pub runner_id : ℕ
  pub state_id : ℕ
  pub due_date : ℕ
  pub task_id : ℕ

pub record SubTask : Type 0 where
  pub runner_id : ℕ
  pub runner_rank : ℕ
  pub state_id : ℕ
  pub due_date : ℕ

-- `DataMessageType` of common/messages.h.
pub data DataMessageType : Type 0 where
  change_state keep_state end_runner kill_runner : DataMessageType

-- What is sent on the data socket, frame by frame; `more` is the flag ZMQ_SNDMORE.
pub data Content : Type 0 where
  identity : List ℕ → Content
  empty : Content
  header : ℤ → ℤ → DataMessageType → ℤ → Content
  values : List ℕ → Content

pub record Frame : Type 0 where
  pub content : Content
  pub more : Bool

pub data RunnerStatus : Type 0 where
  running timeout : RunnerStatus

-- All that a rank sends or passes on: frames to runners, MPI messages to other ranks, notices to the
-- launcher, and initial states to the assimilator.
pub data Sent : Type 0 where
  frame : Frame → Sent
  new_task : ℕ → NewTask → Sent
  kill_request : Task → Sent
  rank_finished : ℕ → Sent
  all_finished : ℕ → Sent
  notify : ℕ → RunnerStatus → Sent
  on_init_state : ℕ → Part → Option (List ℕ) → Part → Option (List ℕ) → Sent

-- `RunnerRankConnection`: its `identity_`, which is null once it has been used.
abbrev pub Connection : Type 0
Connection = Option (List ℕ)

-- `Runner`: its `connected_runner_ranks`.
abbrev pub Runner : Type 0
Runner = List (ℕ × Connection)

-- Where the tasks of this time step are.
pub record TaskLists : Type 0 where
  pub unscheduled_tasks : List ℕ
  pub scheduled_sub_tasks : List SubTask
  pub running_sub_tasks : List SubTask
  pub finished_sub_tasks : List SubTask

pub record Server : Type 0 where
  pub lists : TaskLists
  pub killed : List Task
  pub idle_runners : List (ℕ × Runner)
  pub failcount : List ℕ
  pub finished_ranks : ℤ
  pub task_id : ℕ
  pub highest_received_task_id : ℕ
  pub highest_sent_task_id : ℕ
  pub identity_size : ℕ
  pub assimilation_cycles : ℕ
  pub current_step : ℤ
  pub current_nsteps : ℤ
  pub launcher_notified_about_runner : List (ℕ × Bool)
  pub launcher : LauncherConnection
  pub field : Field
  pub sent : List Sent

abbrev pub max_fail_count : ℕ
max_fail_count = 5

-- `operator<` on tasks.
unfoldable pub lt_task : Task → Task → Bool
lt_task lhs rhs =
    ltb lhs.state_id rhs.state_id
    || (lhs.state_id == rhs.state_id && ltb lhs.runner_id rhs.runner_id)

abbrev pub same_task : Task → Task → Bool
same_task a b = a.state_id == b.state_id && a.runner_id == b.runner_id

-- `std::set<Task>::emplace`, and whether the task is new to the set.
unfoldable pub emplace_task : Task → List Task → List Task
unfolding lt_task
emplace_task t [] = t ∷ []
emplace_task t (u ∷ us) =
    if same_task t u then u ∷ us else if lt_task t u then t ∷ (u ∷ us) else u ∷ emplace_task t us

unfoldable pub has_task : Task → List Task → Bool
has_task t [] = false
has_task t (u ∷ us) = same_task t u || has_task t us

-- Whether the runner is on the list `killed`, with any state.
unfoldable pub is_killed : ℕ → List Task → Bool
is_killed runner_id [] = false
is_killed runner_id (t ∷ ts) = t.runner_id == runner_id || is_killed runner_id ts
