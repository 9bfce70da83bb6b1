-- ===== src/Tests/Head.antt =====
-- Calls of `callback` of api/p2p/StorageController/storage_controller.cxx.
use fugaku_particle_filter.Containers.{set_count}
use fugaku_particle_filter.Prelude.{
  ◌≡◌, refl, [], ◌∷◌, false, some, none, some_inj, ok, arith, ok_inj, subst, ap, sym, ◌∙◌, List,
}
use fugaku_particle_filter.Storage.{
  StorageController, post_state, m_push_weight_to_server, take_slot,
}
use fugaku_particle_filter.Storage.Io.{to_ckpt_id}
use fugaku_particle_filter.Storage.Accounted.{IsAccounted, IsHeld}
use fugaku_particle_filter.Storage.Accounted.Handlers.{AllNamed}
use fugaku_particle_filter.Storage.Accounted.Post.{IsNew, Obliges}
use fugaku_particle_filter.Storage.Callback.{Event, callback, callbacks, store_all}
use fugaku_particle_filter.Storage.Callback.Invariant.{IsServed, AllServed, callbacks-IsAccounted}
use fugaku_particle_filter.Storage.Callback.Pulls.{Pulled, callback-pulls_first}
use fugaku_particle_filter.Tests.{value_or}
use fugaku_particle_filter.Tests.Disk.{Disk, listed, listed-IsLawful}
use fugaku_particle_filter.Storage.Fti.{
  is_local, remove, stage, store, update_metadata, has_local_dir,
}
use fugaku_particle_filter.Tests.Node.{first, second, one_state, dumps_none}

-- An empty head with three slots.
abbrev empty_head : StorageController listed
empty_head = record one_state {
  capacity = 3;
  io = record { files = []; known = [] };
  used_slots = 0;
  cached_states = [];
}

-- The first state has been stored; FTI does not know of it yet.
abbrev first_stored : StorageController listed
first_stored = record empty_head { io = record { files = 100001 ∷ []; known = [] } }

abbrev post_first : Event
post_first = record {
  stored = first ∷ [];
  posted = some first;
  missed = none;
  ends = false;
  now = 1;
}

abbrev miss_second : Event
miss_second = record { stored = []; posted = none; missed = some second; ends = false; now = 2 }

abbrev idle : Event
idle = record { stored = []; posted = none; missed = none; ends = false; now = 3 }

first-IsNew : (io : Disk) → IsNew listed listed-IsLawful (record empty_head { io = io }) first
unfolding to_ckpt_id set_count
first-IsNew io = record { ckpt_id = 100001; id_is = refl; not_cached = refl }

post_first-IsServed : IsServed listed listed-IsLawful post_first first_stored
unfolding post_state m_push_weight_to_server take_slot update_metadata is_local stage
post_first-IsServed = record {
  to_post = λ x e.
      subst
        (λ y.
          IsNew listed listed-IsLawful first_stored y
          × ((s1 : StorageController listed)
              → post_state listed y first_stored ≡ ok s1
              → Obliges listed listed-IsLawful s1))
        (some_inj first x e)
        (
          first-IsNew (first_stored.io),
          (λ s1 e1. subst (Obliges listed listed-IsLawful) (ok_inj _ s1 e1) (record {
            to_delete = λ bad. absurd (ground (arith, bad));
            to_dump = λ s2 e2. dumps_none s2 _ (ap (λ z. z.answers) (sym (ok_inj _ s2 e2)));
          })),
        );
  to_make_room = λ e. absurd (ground (arith, e));
}

-- What is left to say of a call without a post, when two slots are free.
roomy-IsServed :
    (e : Event) (s : StorageController listed)
    → e.posted ≡ none
    → AllNamed listed listed-IsLawful s.used_slots s
    → IsServed listed listed-IsLawful e s
roomy-IsServed e s none_posted named = record {
  to_post = λ x is. absurd (ground (arith, sym none_posted ∙ is));
  to_make_room = λ _. named;
}

abbrev events : List Event
events = post_first ∷ (miss_second ∷ (idle ∷ []))

abbrev one_posted : StorageController listed
one_posted = value_or (callback listed post_first first_stored) first_stored

abbrev two_here : StorageController listed
two_here = value_or (callback listed miss_second one_posted) empty_head

one_posted-AllNamed : AllNamed listed listed-IsLawful 1 one_posted
unfolding callback
one_posted-AllNamed =
    ((λ bad. absurd (ground (arith, bad))), (λ _ bad. absurd (ground (arith, bad))))

first-IsHeld : IsHeld listed two_here first
unfolding callback to_ckpt_id set_count is_local stage update_metadata store_all remove
first-IsHeld = record { ckpt_id = 100001; id_is = refl; cached = omega arith; on_node = refl }

-- One slot of the three is free, and the first state goes when room is made.
two_here-AllNamed : AllNamed listed listed-IsLawful 2 two_here
unfolding callback is_local update_metadata stage remove has_local_dir
two_here-AllNamed = (
  (λ _. first-IsHeld),
  (λ s' _ e.
      subst (AllNamed listed listed-IsLawful 1) (ok_inj _ s' e)
        ((λ bad. absurd (ground (arith, bad))), (λ _ bad. absurd (ground (arith, bad))))),
)

idle-AllServed :
    (s2 : StorageController listed)
    → callback listed miss_second one_posted ≡ ok s2
    → AllServed listed listed-IsLawful (idle ∷ []) s2
unfolding callback is_local update_metadata stage store_all
idle-AllServed s2 e2 =
    subst (AllServed listed listed-IsLawful (idle ∷ [])) (ok_inj two_here s2 e2) (
      tt,
      (λ s3 e3.
          subst
            (λ z.
              IsServed listed listed-IsLawful idle z
              × ((s4 : StorageController listed) → callback listed idle z ≡ ok s4 → Unit {0}))
            (ok_inj two_here s3 e3)
            (roomy-IsServed idle two_here refl two_here-AllNamed, (λ _ _. tt))),
    )

miss_second-AllServed :
    (s1 : StorageController listed)
    → callback listed post_first first_stored ≡ ok s1
    → AllServed listed listed-IsLawful (miss_second ∷ (idle ∷ [])) s1
unfolding callback update_metadata is_local stage store_all
miss_second-AllServed s1 e1 =
    subst (AllServed listed listed-IsLawful (miss_second ∷ (idle ∷ []))) (ok_inj one_posted s1 e1) (
      tt,
      (λ s2 e2.
          subst
            (λ z.
              IsServed listed listed-IsLawful miss_second z
              × ((s3 : StorageController listed)
                  → callback listed miss_second z ≡ ok s3
                  → AllServed listed listed-IsLawful (idle ∷ []) s3))
            (ok_inj one_posted s2 e2)
            (roomy-IsServed miss_second one_posted refl one_posted-AllNamed, idle-AllServed)),
    )

events-AllServed : AllServed listed listed-IsLawful events empty_head
unfolding store_all store
events-AllServed = (
  (first-IsNew (empty_head.io), (λ _ _. tt)),
  (λ s1 e1.
      subst
        (λ z.
          IsServed listed listed-IsLawful post_first z
          × ((s2 : StorageController listed)
              → callback listed post_first z ≡ ok s2
              → AllServed listed listed-IsLawful (miss_second ∷ (idle ∷ [])) s2))
        (ok_inj first_stored s1 e1) (post_first-IsServed, miss_second-AllServed)),
)

callbacks_example : IsAccounted listed (value_or (callbacks listed events empty_head) empty_head)
unfolding callbacks store update_metadata is_local stage
callbacks_example =
    callbacks-IsAccounted listed listed-IsLawful events empty_head _ refl refl events-AllServed refl

-- A head that is to pull the second state and then the first.
abbrev wanting : StorageController listed
wanting = record one_posted { state_pull_requests = second ∷ (first ∷ []) }

pulls_example :
    Pulled listed listed-IsLawful second wanting (value_or (callback listed idle wanting) wanting)
    × ((value_or (callback listed idle wanting) wanting).state_pull_requests ≡ first ∷ [])
unfolding callback is_local update_metadata stage
pulls_example =
    callback-pulls_first listed listed-IsLawful idle second (first ∷ []) wanting _ refl refl refl
      refl
