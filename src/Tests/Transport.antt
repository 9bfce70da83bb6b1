-- ===== src/Tests/Transport.antt =====
-- Runs of common/Part.cxx, server/Field.h, server/EnsembleMember.cxx, server/LauncherConnection.cxx and
-- of the messages of server/server.cxx.
use fugaku_particle_filter.Prelude.{
  ◌<◌, get_or, ℕ, ◌+◌, ◌*◌, ◌≤◌, ◌≡◌, refl, List, [], ◌∷◌, some, true, ltb, ◌/◌, ◌%◌, if◌then◌else◌,
  get_elem?, arith,
}
use fugaku_particle_filter.Prelude.Int.{pos}
use fugaku_particle_filter.Part.{Part, calculate_n_to_m, calculate_local_vect_sizes_server, int_mod}
use fugaku_particle_filter.Part.Positions.{sum, AllIn}
use fugaku_particle_filter.Part.Sizes.{
  IsSplittable, calculate_local_vect_sizes_server_fair, calculate_local_vect_sizes_server_wraps,
}
use fugaku_particle_filter.Part.Correct.{
  IsCutting, calculate_n_to_m_lem, received, received-calculate_n_to_m,
}
use fugaku_particle_filter.Part.Fits.{AllFit, calculate_n_to_m-AllFit}
use fugaku_particle_filter.Field.{store_part, get_part, get_part_hidden}
use fugaku_particle_filter.Field.Members.{StoredAt, store_part-StoredAt}
use fugaku_particle_filter.LauncherConnection.{ping_at, ping_at-lem}
use fugaku_particle_filter.Server.{kill_runner}
use fugaku_particle_filter.Server.Connections.{launch_sub_task, stop_all}
use fugaku_particle_filter.Server.Connections.Frames.{
  Launched, launch_sub_task-one_message, messages, none_addressed, stop_all-none_addressed,
}
use fugaku_particle_filter.Tests.{
  value_or, only_part, hidden_part, two_members, launcher, at_work, all_done, rank_0,
}

-- Five elements of two bytes on two runner ranks and three server ranks.
pub five_on_three : IsSplittable 3 5 2
five_on_three = record {
  ranks = omega arith;
  width = omega arith;
  counted = omega arith;
  addressed = omega arith;
  enough = omega arith;
}

abbrev pub on_two_runners : List ℕ
on_two_runners = 4 ∷ 6 ∷ []

pub on_two_runners-AllIn : AllIn on_two_runners
on_two_runners-AllIn = (omega arith, omega arith, (omega arith, omega arith, tt))

calculate_n_to_m_example : (parts : List Part) × IsCutting 3 2 on_two_runners parts
calculate_n_to_m_example =
    calculate_n_to_m_lem 3 5 2 on_two_runners five_on_three on_two_runners-AllIn refl

abbrev four_parts : List Part
four_parts =
    record {
      rank_runner = 0;
      local_offset_runner = 0;
      rank_server = 0;
      local_offset_server = 0;
      send_count = 4;
    }
    ∷ (record {
      rank_runner = 1;
      local_offset_runner = 0;
      rank_server = 1;
      local_offset_server = 0;
      send_count = 4;
    }
        ∷ (record {
          rank_runner = 1;
          local_offset_runner = 4;
          rank_server = 2;
          local_offset_server = 0;
          send_count = 2;
        }
            ∷ []))

received_example : received 1 four_parts ≡ 4
unfolding calculate_n_to_m calculate_local_vect_sizes_server
received_example =
    received-calculate_n_to_m 3 5 2 1 4 on_two_runners four_parts five_on_three on_two_runners-AllIn
      refl refl refl

AllFit_example :
    AllFit
      (λ r. get_or on_two_runners r 0)
      (λ s. get_or (calculate_local_vect_sizes_server 3 (sum on_two_runners) 2) s 0)
      four_parts
unfolding calculate_n_to_m calculate_local_vect_sizes_server
AllFit_example =
    calculate_n_to_m-AllFit 3 5 2 on_two_runners four_parts five_on_three on_two_runners-AllIn refl
      refl

fair_example :
    (sum (calculate_local_vect_sizes_server 3 (5 * 2) 2) ≡ 5 * 2)
    × (get_elem? (calculate_local_vect_sizes_server 3 (5 * 2) 2) 1
        ≡ some ((if ltb 1 (5 % 3) then 5 / 3 + 1 else 5 / 3) * 2))
fair_example = calculate_local_vect_sizes_server_fair 3 5 2 1 five_on_three (omega arith)

wraps_example :
    calculate_local_vect_sizes_server 3 ((5 + int_mod) * 2) 2
    ≡ calculate_local_vect_sizes_server 3 (5 * 2) 2
wraps_example = calculate_local_vect_sizes_server_wraps 3 5 2 (omega arith)

store_part_example :
    StoredAt 1 only_part (some (20 ∷ 30 ∷ [])) hidden_part (some (50 ∷ [])) two_members (
      value_or
        (store_part 1 only_part (some (20 ∷ 30 ∷ [])) hidden_part (some (50 ∷ [])) two_members)
        two_members)
unfolding store_part
store_part_example =
    store_part-StoredAt 1 only_part (some (20 ∷ 30 ∷ [])) hidden_part (some (50 ∷ [])) two_members _
      refl

ping_at_example :
    ((ping_at (30 ∷ 31 ∷ 38 ∷ []) launcher).hellos ≤ launcher.hellos + 1)
    × (launcher.next_message_date_to_launcher < 30
        → (ping_at (30 ∷ 31 ∷ 38 ∷ []) launcher).hellos ≡ launcher.hellos + 1)
ping_at_example =
    ping_at-lem 30 (31 ∷ 38 ∷ []) launcher (omega arith, (omega arith, tt))
      (omega arith, (omega arith, tt))

launch_sub_task_example :
    Launched rank_0
      (9 ∷ [])
      0
      1
      at_work
      (value_or (launch_sub_task rank_0 (some (9 ∷ [])) 0 1 at_work) at_work)
unfolding launch_sub_task get_part get_part_hidden
launch_sub_task_example = launch_sub_task-one_message rank_0 (9 ∷ []) 0 1 at_work _ refl

stop_all_example :
    none_addressed (messages [] (stop_all kill_runner (pos 1) all_done.idle_runners)) ≡ true
stop_all_example = stop_all-none_addressed kill_runner (pos 1) all_done.idle_runners
