-- ===== src/Tests/Late.antt =====
-- A run of server/server.cxx in which a runner is late.
use fugaku_particle_filter.Field.{get_part, get_part_hidden}
use fugaku_particle_filter.Server.Connections.{launch_sub_task}
use fugaku_particle_filter.Server.Tasks.{fail_state, kill_task}
use fugaku_particle_filter.Prelude.{refl}
use fugaku_particle_filter.Server.{Server}
use fugaku_particle_filter.Server.Requests.{check_due_dates, reschedule}
use fugaku_particle_filter.Server.Responses.{
  handle_data_response, answer_response, notify_connected,
}
use fugaku_particle_filter.Server.Late.{Ignored, check_due_dates-Ignored}
use fugaku_particle_filter.Tests.{value_or, at_work, rank_0, state_0_back}

-- At second 50 runner 7 is late, and at second 51 it hands in state 0 after all.
abbrev given_up : Server
given_up = value_or (check_due_dates rank_0 50 at_work) at_work

abbrev too_late : Server
too_late = value_or (handle_data_response rank_0 51 state_0_back given_up) given_up

check_due_dates-Ignored_example : Ignored given_up too_late
unfolding check_due_dates handle_data_response fail_state kill_task reschedule launch_sub_task
    get_part get_part_hidden notify_connected answer_response
check_due_dates-Ignored_example =
    check_due_dates-Ignored rank_0 50 51 state_0_back at_work given_up too_late refl refl refl
