-- ===== src/Tests/Node.antt =====
-- Runs of api/p2p/StorageController/storage_controller.cxx, over checkpoints that are kept in a list.
use fugaku_particle_filter.Containers.{map_erase, set_count}
use fugaku_particle_filter.Prelude.{
  ℕ, ◌+◌, ◌*◌, ◌-◌, ◌<◌, ◌≡◌, refl, [], ◌∷◌, true, false, leb, ok, err, exit, arith, min, ok_inj,
  subst, ap, sym,
}
use fugaku_particle_filter.Storage.Io.{StateId, to_ckpt_id, to_state_id}
use fugaku_particle_filter.Storage.Fti.{is_local, remove, stage, update_metadata, has_local_dir}
use fugaku_particle_filter.Storage.{
  StorageController, Answer, free, free_slot, delete_request, m_pull_head, m_request_post,
  make_room, pool_capacity,
}
use fugaku_particle_filter.Storage.Room.{loop_round, make_room-loop, pool_capacity-slots}
use fugaku_particle_filter.Storage.Accounted.{IsAccounted, IsHeld, AllHeld}
use fugaku_particle_filter.Storage.Accounted.Handlers.{AllNamed, m_pull_head-IsAccounted}
use fugaku_particle_filter.Storage.Accounted.Post.{IsNew, Obliges, m_request_post-IsAccounted}
use fugaku_particle_filter.Tests.{value_or}
use fugaku_particle_filter.Tests.Disk.{listed, listed-IsLawful}

abbrev pub first : StateId
first = record { t = 1; id = 1 }

abbrev pub second : StateId
second = record { t = 1; id = 2 }

abbrev pub name_first : ℕ → Answer
name_first n = record { to_delete = first; pull_states = []; dump_states = [] }

-- One of two slots is used.
abbrev pub one_state : StorageController listed
one_state = record {
  io = record { files = 100001 ∷ []; known = 100001 ∷ [] };
  capacity = 2;
  used_slots = 1;
  ckpted_states = [];
  cached_states = (100001, first) ∷ [];
  state_pull_requests = [];
  del_q = [];
  last_assimilation_cycle = 1;
  next_try_delete = 0;
  server_closed = false;
  answers = name_first;
  asked = 0;
  sent = [];
}

one_state-IsAccounted : IsAccounted listed one_state
unfolding to_state_id is_local to_ckpt_id
one_state-IsAccounted = record { ascending = (tt, tt); accounted = refl }

first-IsHeld : IsHeld listed one_state first
unfolding to_ckpt_id set_count is_local
first-IsHeld = record { ckpt_id = 100001; id_is = refl; cached = omega arith; on_node = refl }

-- The first is deleted, and two slots are free then.
one_state-AllNamed : AllNamed listed listed-IsLawful 1 one_state
unfolding delete_request free_slot to_ckpt_id map_erase remove has_local_dir is_local
one_state-AllNamed = (
  (λ _. first-IsHeld),
  (λ s' _ e.
      subst (λ z. leb (free listed z) 1 ≡ true → IsHeld listed z (z.answers z.asked).to_delete)
        (ok_inj _ s' e) (λ bad. absurd (ground (arith, bad)))),
)

pull_example :
    IsAccounted listed (value_or (m_pull_head listed second one_state) one_state)
    × (listed.is_local (value_or (m_pull_head listed second one_state) one_state).io second ≡ true)
unfolding m_pull_head is_local remove has_local_dir stage
pull_example =
    m_pull_head-IsAccounted listed listed-IsLawful second one_state _ one_state-IsAccounted
      one_state-AllNamed refl

-- Room for three: after the second is posted, a slot is free still.
abbrev three_slots : StorageController listed
three_slots = record one_state {
  capacity = 3;
  io = record { files = 100002 ∷ (100001 ∷ []); known = 100001 ∷ [] };
}

three_slots-IsAccounted : IsAccounted listed three_slots
unfolding to_state_id is_local to_ckpt_id
three_slots-IsAccounted = record { ascending = (tt, tt); accounted = refl }

second-IsNew : IsNew listed listed-IsLawful three_slots second
unfolding to_ckpt_id set_count
second-IsNew = record { ckpt_id = 100002; id_is = refl; not_cached = refl }

pub dumps_none :
    (s2 s3 : StorageController listed)
    → s2.answers ≡ name_first
    → AllHeld listed listed-IsLawful (s2.answers s2.asked).dump_states s3
dumps_none s2 s3 e = rw e tt

post_example : IsAccounted listed (value_or (m_request_post listed second three_slots) three_slots)
unfolding m_request_post update_metadata is_local stage
post_example =
    m_request_post-IsAccounted listed listed-IsLawful second three_slots _ three_slots-IsAccounted
      second-IsNew
      (λ s1 e. subst (Obliges listed listed-IsLawful) (ok_inj _ s1 e) (record {
        to_delete = λ bad. absurd (ground (arith, bad));
        to_dump = λ s2 e2. dumps_none s2 _ (ap (λ z. z.answers) (sym (ok_inj _ s2 e2)));
      }))
      refl

room_example :
    (make_room listed 1 one_state
      ≡ loop_round listed (λ s'. make_room listed s'.used_slots s') one_state)
    × ((s' : StorageController listed) → make_room listed 1 one_state ≡ ok s' → 1 < free listed s')
room_example = make_room-loop listed one_state

-- Room for three states of ten bytes, and nine bytes.
capacity_example :
    (3 < 3 → pool_capacity (3 * 10 + 9) 10 ≡ err exit)
    × (3 < 3 → pool_capacity (3 * 10 + 9) 10 ≡ ok (min (3 - 4) 4))
    × (◌≡◌ {A = ℕ} 3 3 → pool_capacity (3 * 10 + 9) 10 ≡ ok 4)
capacity_example = pool_capacity-slots 3 9 10 (omega arith) (omega arith)
