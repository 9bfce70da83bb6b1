-- ===== src/Tests.antt =====
-- Concrete inputs for the theorems: a field of two ensemble members on one runner rank, and server
-- ranks at work on it.
pub mod Transport
pub mod Tasks
pub mod Setup
pub mod Late
pub mod Runner
pub mod Memory
pub mod Head
pub mod Disk
pub mod Node
use fugaku_particle_filter.Prelude.{
  ℕ, List, [], ◌∷◌, Bool, true, false, Option, none, some, Result, ok, err,
}
use fugaku_particle_filter.Prelude.Int.{ℤ, pos}
use fugaku_particle_filter.Part.{Part}
use fugaku_particle_filter.Field.{EnsembleMember, Field}
use fugaku_particle_filter.LauncherConnection.{LauncherConnection}
use fugaku_particle_filter.Server.{Config, Server, TaskLists, SubTask}
use fugaku_particle_filter.Server.Updates.{FinishMessages, UpdateStep}
use fugaku_particle_filter.Server.Responses.{DataResponse}
use fugaku_particle_filter.Server.Loop.{Round, LoopState}

-- The value of a call that succeeds.
abbrev pub value_or {ℓ} : {A : Type ℓ} → Result A → A → A
value_or (ok a) d = a
value_or (err e) d = d

abbrev pub only_part : Part
only_part = record {
  rank_runner = 0;
  local_offset_runner = 0;
  rank_server = 0;
  local_offset_server = 1;
  send_count = 2;
}

abbrev pub hidden_part : Part
hidden_part = record {
  rank_runner = 0;
  local_offset_runner = 0;
  rank_server = 0;
  local_offset_server = 0;
  send_count = 1;
}

abbrev pub member : EnsembleMember
member = record {
  state_analysis = 1 ∷ 2 ∷ 3 ∷ [];
  state_background = 0 ∷ 0 ∷ 0 ∷ [];
  state_hidden = 5 ∷ [];
}

abbrev pub two_members : Field
two_members = record {
  name = "variable1";
  ensemble_members = member ∷ member ∷ [];
  local_vect_size = 3;
  local_vect_sizes_runner = 3 ∷ [];
  parts = only_part ∷ [];
  local_vect_size_hidden = 1;
  local_vect_sizes_runner_hidden = 1 ∷ [];
  parts_hidden = hidden_part ∷ [];
  connected_runner_ranks = 0 ∷ [];
  local_index_map_size = 3;
  local_index_map_hidden_size = 1;
  bytes_per_element = 1;
  bytes_per_element_hidden = 1;
}

abbrev pub launcher : LauncherConnection
launcher = record {
  due_date_launcher = 100;
  next_message_date_to_launcher = 10;
  hellos = 1;
  stopped = false;
}

-- State 0 runs on runner 7 until second 20, state 1 waits, and runner 3 is idle.
abbrev pub at_work : Server
at_work = record {
  lists = record {
    unscheduled_tasks = 1 ∷ [];
    scheduled_sub_tasks = [];
    running_sub_tasks = record { runner_id = 7; runner_rank = 0; state_id = 0; due_date = 20 } ∷ [];
    finished_sub_tasks = [];
  };
  killed = [];
  idle_runners = (3, ((0, some (9 ∷ [])) ∷ [])) ∷ [];
  failcount = 0 ∷ 0 ∷ [];
  finished_ranks = pos 0;
  task_id = 2;
  highest_received_task_id = 0;
  highest_sent_task_id = 0;
  identity_size = 1;
  assimilation_cycles = 0;
  current_step = pos 1;
  current_nsteps = pos 1;
  launcher_notified_about_runner = (3, true) ∷ ((7, true) ∷ []);
  launcher = launcher;
  field = two_members;
  sent = [];
}

-- The same on rank 1.
abbrev pub at_work_1 : Server
at_work_1 = record at_work {
  field = record two_members {
    parts = record only_part { rank_server = 1 } ∷ [];
    parts_hidden = record hidden_part { rank_server = 1 } ∷ [];
  };
}

-- Both states are finished, and runners 3 and 7 are idle.
abbrev pub all_done : Server
all_done = record at_work {
  lists = record {
    unscheduled_tasks = [];
    scheduled_sub_tasks = [];
    running_sub_tasks = [];
    finished_sub_tasks =
        record { runner_id = 7; runner_rank = 0; state_id = 0; due_date = 20 }
        ∷ (record { runner_id = 3; runner_rank = 0; state_id = 1; due_date = 20 } ∷ []);
  };
  idle_runners = (3, ((0, some (9 ∷ [])) ∷ [])) ∷ ((7, ((0, some (8 ∷ [])) ∷ [])) ∷ []);
}

abbrev pub rank_0 : Config
rank_0 = record { ensemble_size = 2; max_runner_timeout = 10; comm_rank = 0; comm_size = 1 }

abbrev pub rank_1 : Config
rank_1 = record { ensemble_size = 2; max_runner_timeout = 10; comm_rank = 1; comm_size = 2 }

-- An assimilator that leaves the members as they are and asks for one more step.
abbrev pub one_more_step : UpdateStep
one_more_step step members = (members, pos 1)

-- Runner 7 hands in state 0.
abbrev pub state_0_back : DataResponse
state_0_back = record {
  identity = 8 ∷ [];
  runner_id = 7;
  runner_rank = 0;
  runner_state_id = pos 0;
  runner_timestep = pos 1;
  field_name = "variable1";
  data_msg = 20 ∷ 30 ∷ [];
  data_msg_hidden = some (50 ∷ []);
}

abbrev pub no_finish_messages : FinishMessages
no_finish_messages = record { ranks_finished = []; all_finished_received = false }

abbrev pub busy_round : Round
busy_round = record {
  now = 15;
  text_received = true;
  data_response = some state_0_back;
  new_task_received = none;
  kill_requests = [];
  finish_messages = no_finish_messages;
  root_nsteps = pos 1;
}

abbrev pub at_second_0 : LoopState
at_second_0 = record { server = at_work; last_seconds_checks = 0 }
