-- ===== src/Tests/Tasks.antt =====
-- Runs of the task handling of server/server.cxx.
use fugaku_particle_filter.Field.{get_part, get_part_hidden, store_part}
use fugaku_particle_filter.Server.Connections.{launch_sub_task}
use fugaku_particle_filter.Prelude.{◌≡◌, refl, inl, inr, [], ◌∷◌, none, some, false, arith}
use fugaku_particle_filter.Prelude.Int.{pos}
use fugaku_particle_filter.Containers.{set_count, set_insert}
use fugaku_particle_filter.Server.{Task, NewTask, has_task}
use fugaku_particle_filter.Server.Requests.{
  notify_removed, check_due_dates, check_kill_requests, reschedule,
}
use fugaku_particle_filter.Server.Responses.{
  handle_data_response, accept_response, answer_response, extract, notify_connected, receive_hidden,
  save_connection, schedule_if_idle, store_values, use_connection,
}
use fugaku_particle_filter.Server.Tasks.{
  check_schedule_new_tasks, add_sub_tasks, erase_idle_runner, fail_state, kill_task, outdate,
  outdate_lists, schedule_new_task,
}
use fugaku_particle_filter.Server.Updates.{check_finished, next_timestep}
use fugaku_particle_filter.Server.Loop.{simulation_round, simulate, LoopState}
use fugaku_particle_filter.Server.Loop.Assertion.{
  AreAnswerable, Rounds, begin, then_round, simulation_round-asserts, Rounds-IsConsistent,
}
use fugaku_particle_filter.Server.Ledger.{count_state, count_task, IsBalanced}
use fugaku_particle_filter.Server.Ledger.Holding.{Holds}
use fugaku_particle_filter.Server.Consistency.{IsConsistent}
use fugaku_particle_filter.Server.Consistency.Timeouts.{check_due_dates-IsConsistent}
use fugaku_particle_filter.Server.Consistency.KillRequests.{check_kill_requests-IsConsistent}
use fugaku_particle_filter.Server.Consistency.Responses.{handle_data_response-IsConsistent}
use fugaku_particle_filter.Server.Consistency.Rescheduled.{check_schedule_new_tasks-IsConsistent}
use fugaku_particle_filter.Server.Consistency.Updates.{
  IsServed, check_finished-IsConsistent, next_timestep-IsServed,
}
use fugaku_particle_filter.Tests.{
  value_or, at_work, at_work_1, all_done, rank_0, rank_1, one_more_step, state_0_back,
  no_finish_messages, busy_round, at_second_0,
}

at_work-IsBalanced : IsBalanced 2 1 at_work.lists
unfolding set_count count_state count_task
at_work-IsBalanced = record {
  ascending = (tt, tt);
  balance = λ i. ground arith;
  one_runner = λ i r. ground arith;
}

at_work-IsConsistent : IsConsistent rank_0 at_work
at_work-IsConsistent = record { balanced = at_work-IsBalanced; connected = omega arith }

at_work_1-IsConsistent : IsConsistent rank_1 at_work_1
at_work_1-IsConsistent = record { balanced = at_work-IsBalanced; connected = omega arith }

all_done-IsBalanced : IsBalanced 2 1 all_done.lists
unfolding set_count count_state count_task
all_done-IsBalanced = record {
  ascending = tt;
  balance = λ i. ground arith;
  one_runner = λ i r. ground arith;
}

all_done-IsConsistent : IsConsistent rank_0 all_done
all_done-IsConsistent = record { balanced = all_done-IsBalanced; connected = omega arith }

-- At second 50 state 0 is overdue, and goes to runner 3.
check_due_dates_example : IsConsistent rank_0 (value_or (check_due_dates rank_0 50 at_work) at_work)
unfolding check_due_dates fail_state kill_task reschedule launch_sub_task get_part get_part_hidden
check_due_dates_example = check_due_dates-IsConsistent rank_0 50 at_work _ refl at_work-IsConsistent

abbrev state_0_on_7 : Task
state_0_on_7 = record { state_id = 0; runner_id = 7 }

state_0_on_7-Holds : Holds 2 at_work.lists state_0_on_7
unfolding count_state count_task
state_0_on_7-Holds = record {
  state_in = omega arith;
  has_sub_tasks = ground arith;
  has_all = ground arith;
}

-- Two ranks report runner 7.
check_kill_requests_example : IsConsistent rank_0 (
    value_or
      (check_kill_requests rank_0 15
        (some state_0_on_7 ∷ (none ∷ (some state_0_on_7 ∷ [])))
        at_work)
      at_work)
unfolding check_kill_requests has_task notify_removed fail_state reschedule kill_task
    launch_sub_task get_part get_part_hidden
check_kill_requests_example =
    check_kill_requests-IsConsistent rank_0 15
      (some state_0_on_7 ∷ (none ∷ (some state_0_on_7 ∷ []))) at_work _ refl at_work-IsConsistent
      (inr state_0_on_7-Holds, (inl refl, tt), (inr state_0_on_7-Holds, tt, tt))

-- Runner 7 hands in state 0 and gets state 1.
handle_data_response_example :
    IsConsistent rank_0 (value_or (handle_data_response rank_0 15 state_0_back at_work) at_work)
unfolding handle_data_response notify_connected answer_response accept_response extract get_part
    get_part_hidden receive_hidden store_values store_part use_connection schedule_if_idle
    save_connection schedule_new_task launch_sub_task
handle_data_response_example =
    handle_data_response-IsConsistent rank_0 15 state_0_back at_work _ refl at_work-IsConsistent

-- Rank 0 gives state 0 to runner 3, while rank 1 has it on runner 7.
abbrev state_0_to_3 : NewTask
state_0_to_3 = record { runner_id = 3; state_id = 0; due_date = 60; task_id = 5 }

check_schedule_new_tasks_example :
    IsConsistent rank_1
      (value_or (check_schedule_new_tasks rank_1 (some state_0_to_3) at_work_1) at_work_1)
unfolding check_schedule_new_tasks add_sub_tasks outdate_lists outdate has_task erase_idle_runner
    set_insert launch_sub_task get_part get_part_hidden
check_schedule_new_tasks_example =
    check_schedule_new_tasks-IsConsistent rank_1 (some state_0_to_3) at_work_1 _ refl
      at_work_1-IsConsistent

check_finished_example :
    IsConsistent rank_0
      (value_or
        (check_finished rank_0 30 no_finish_messages one_more_step (pos 1) all_done)
        (false, all_done)).1
unfolding check_finished launch_sub_task get_part get_part_hidden
check_finished_example =
    check_finished-IsConsistent rank_0 30 no_finish_messages one_more_step (pos 1) all_done _ _ refl
      all_done-IsConsistent

next_timestep_example : IsServed ((value_or (next_timestep rank_0 30 all_done) (false, all_done)).1)
unfolding next_timestep launch_sub_task get_part get_part_hidden
next_timestep_example = next_timestep-IsServed rank_0 30 all_done _ _ refl refl

at_work-AreAnswerable : AreAnswerable rank_0 busy_round at_work
at_work-AreAnswerable = record { requests = λ s1 s2 watched checked. tt }

simulation_round_example :
    simulation_round rank_0 one_more_step busy_round at_second_0
    ≡ simulate rank_0 one_more_step busy_round at_second_0
simulation_round_example =
    simulation_round-asserts rank_0 one_more_step busy_round at_second_0 at_work-IsConsistent
      at_work-AreAnswerable

abbrev after_busy_round : LoopState
after_busy_round =
    (value_or (simulation_round rank_0 one_more_step busy_round at_second_0) (false, at_second_0)).1

one_round : Rounds rank_0 one_more_step at_second_0 after_busy_round
unfolding simulation_round notify_connected answer_response accept_response extract get_part
    get_part_hidden receive_hidden store_values store_part use_connection schedule_if_idle
    save_connection launch_sub_task
one_round =
    then_round at_second_0 at_second_0 after_busy_round busy_round false (begin at_second_0)
      at_work-AreAnswerable refl

Rounds_example : IsConsistent rank_0 after_busy_round.server
Rounds_example =
    Rounds-IsConsistent rank_0 one_more_step at_second_0 after_busy_round one_round
      at_work-IsConsistent
