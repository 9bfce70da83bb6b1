-- ===== src/Storage/Accounted/Handlers.antt =====
-- api/p2p/StorageController/storage_controller.cxx: `m_pull_head` and `m_request_post` keep account of the
-- states on the node.
use fugaku_particle_filter.Prelude.{
  ℕ, zero, suc, ◌+◌, ◌<◌, ◌≡◌, ◌≢◌, ap, ◌∙◌, List, Bool, true, false, leb, arith, Bool-cases, inl,
  inr, ◌⊎◌, ok, ok_inj, check-inv, >>=-eq-ok, subst,
}
use fugaku_particle_filter.Containers.{map_emplace, set_insert, set_count}
use fugaku_particle_filter.Containers.Sets.{Ascending, set_insert-Ascending}
use fugaku_particle_filter.Storage.{
  StorageController, free, take_slot, delete_request, make_room, stage_if_missing, m_pull_head,
}
use fugaku_particle_filter.Storage.Deleted.{named, delete_request-Deleted}
use fugaku_particle_filter.Storage.Io.{
  StateId, IoController, IsLawful, io_storage_l1, io_storage_l2, to_ckpt_id, to_state_id,
  to_state_id-to_ckpt_id,
}
use fugaku_particle_filter.Storage.Counted.{
  keys, keys-map_emplace, count, count-set_insert_new, count-set_insert_there, count-absent,
  count-present, same_state_other,
}
use fugaku_particle_filter.Storage.Accounted.{
  is_here, IsAccounted, IsHeld, delete_request-IsAccounted,
}

zero_cases : (n : ℕ) → (n ≡ 0) ⊎ (0 < n)
zero_cases n = omega arith

-- A state comes to the node: its id is in the set then, and one more of the set is on the node.
count-arrived :
    (g h : ℕ → Bool) (k : ℕ) (ks : List ℕ)
    → Ascending ks
    → ((j : ℕ) → j ≢ k → h j ≡ g j)
    → g k ≡ false
    → h k ≡ true
    → count h (set_insert k ks) ≡ count g ks + 1
count-arrived g h k ks a same was is = elim (zero_cases (set_count k ks)) [
  | inl absent ↦
      omega
        (arith, rw is at (count-set_insert_new h k ks absent), count-absent h g k ks same absent)
  | inr present ↦ omega (
    arith,
    count-set_insert_there h k ks a present,
    rw (was, is) at (count-present h g k ks a same present),
  )
]

module _ (I : IoController) (laws : IsLawful I) where
  -- Whenever the loop asks for a state to delete, the server names one that is held.
  abbrev pub AllNamed : ℕ → StorageController I → Type 0
  AllNamed zero s = leb (free I s) 1 ≡ true → IsHeld I s (named I s)
  AllNamed (suc n) s =
      (leb (free I s) 1 ≡ true → IsHeld I s (named I s))
      × ((s' : StorageController I)
          → leb (free I s) 1 ≡ true
          → delete_request I s ≡ ok s'
          → AllNamed n s')

  make_room-IsAccounted :
      (n : ℕ) (s s' : StorageController I)
      → IsAccounted I s
      → AllNamed n s
      → make_room I n s ≡ ok s'
      → IsAccounted I s'
  unfolding make_room
  make_room-IsAccounted zero s s' a h e = elim (Bool-cases (leb (free I s) 1)) [
    | inl t ↦ delete_request-IsAccounted I laws s s' a (h t) (rw (t, make_room) at e)
    | inr f ↦ subst (IsAccounted I) (ok_inj s s' (rw (f, make_room) at e)) a
  ]
  make_room-IsAccounted (suc n) s s' a h e = elim (Bool-cases (leb (free I s) 1)) [
    | inl t ↦
        let (s1, d, rest) = >>=-eq-ok (delete_request I s) _ (rw (t, make_room) at e) in
        make_room-IsAccounted n s1 s' (delete_request-IsAccounted I laws s s1 a ((h.0) t) d)
          ((h.1) s1 t d) rest
    | inr f ↦ subst (IsAccounted I) (ok_inj s s' (rw (f, make_room) at e)) a
  ]

  -- A state that is not on the node is put there and takes a slot.
  arrive :
      (s : StorageController I) (io : I.State) (x : StateId) (k : ℕ)
      → IsAccounted I s
      → to_ckpt_id x ≡ ok k
      → ((j : ℕ) → j ≢ k → is_here I io j ≡ is_here I s.io j)
      → I.is_local s.io x ≡ false
      → I.is_local io x ≡ true
      → IsAccounted I (record s {
        io = io;
        cached_states = map_emplace k x s.cached_states;
        used_slots = s.used_slots + 1;
      })
  arrive s io x k a e same was is =
      let id = to_state_id-to_ckpt_id x k e in
      let counted =
        count-arrived (is_here I s.io) (is_here I io) k (keys s.cached_states) a.ascending same
          (ap (I.is_local s.io) id ∙ was) (ap (I.is_local io) id ∙ is) in
      record {
        ascending =
            rw (keys-map_emplace k x s.cached_states)
              (set_insert-Ascending k (keys s.cached_states) a.ascending);
        accounted = rw (keys-map_emplace k x s.cached_states) (omega (arith, counted, a.accounted));
      }

  delete_request-not_local :
      (s s' : StorageController I) (x : StateId)
      → I.is_local s.io x ≡ false
      → delete_request I s ≡ ok s'
      → I.is_local s'.io x ≡ false
  delete_request-not_local s s' x away e =
      let d = delete_request-Deleted I s s' e in
      subst (λ z. I.is_local z.io x ≡ false) d.is
        (laws.is_local-remove s.io d.io (named I s) x d.removed ∙ ground (arith, away))

  pub make_room-not_local :
      (n : ℕ) (s s' : StorageController I) (x : StateId)
      → I.is_local s.io x ≡ false
      → make_room I n s ≡ ok s'
      → I.is_local s'.io x ≡ false
  unfolding make_room
  make_room-not_local zero s s' x away e = elim (Bool-cases (leb (free I s) 1)) [
    | inl t ↦ delete_request-not_local s s' x away (rw (t, make_room) at e)
    | inr f ↦ subst (λ z. I.is_local z.io x ≡ false) (ok_inj s s' (rw (f, make_room) at e)) away
  ]
  make_room-not_local (suc n) s s' x away e = elim (Bool-cases (leb (free I s) 1)) [
    | inl t ↦
        let (s1, d, rest) = >>=-eq-ok (delete_request I s) _ (rw (t, make_room) at e) in
        make_room-not_local n s1 s' x (delete_request-not_local s s1 x away d) rest
    | inr f ↦ subst (λ z. I.is_local z.io x ≡ false) (ok_inj s s' (rw (f, make_room) at e)) away
  ]

  pub stage_if_missing-staged :
      (x : StateId) (s s' : StorageController I)
      → I.is_local s.io x ≡ false
      → stage_if_missing I x s ≡ ok s'
      → (io : I.State) × (I.stage s.io x io_storage_l2 io_storage_l1 ≡ ok io)
        × (record s { io = io } ≡ s')
  unfolding stage_if_missing
  stage_if_missing-staged x s s' away e =
      let (io, staged, made) =
        >>=-eq-ok (I.stage s.io x io_storage_l2 io_storage_l1) _
          (rw (away, stage_if_missing) at e) in
      (io, staged, ok_inj _ s' made)

  -- A state that has just been staged takes its slot.
  settle :
      (x : StateId) (s : StorageController I) (io : I.State) (s' : StorageController I) (k : ℕ)
      → IsAccounted I s
      → I.is_local s.io x ≡ false
      → I.stage s.io x io_storage_l2 io_storage_l1 ≡ ok io
      → to_ckpt_id x ≡ ok k
      → I.is_local io x ≡ true
      → take_slot I (record s { io = io; cached_states = map_emplace k x s.cached_states }) ≡ ok s'
      → IsAccounted I s' × (I.is_local s'.io x ≡ true)
  unfolding take_slot
  settle x s io s' k a away staged id_is is e =
      let (_, made) = check-inv (leb (s.used_slots + 1) s.capacity) _ e in
      subst (λ z. IsAccounted I z × (I.is_local z.io x ≡ true)) (ok_inj _ s' made)
        (
          arrive s io x k a id_is
              (λ j ne.
                laws.is_local-stage s.io io x (to_state_id j) staged
                  (same_state_other x k j id_is ne))
              away is,
          is,
        )

  bring :
      (x : StateId) (s1 s2 s' : StorageController I) (k : ℕ)
      → IsAccounted I s1
      → I.is_local s1.io x ≡ false
      → stage_if_missing I x s1 ≡ ok s2
      → to_ckpt_id x ≡ ok k
      → I.is_local s2.io x ≡ true
      → take_slot I (record s2 { cached_states = map_emplace k x s2.cached_states }) ≡ ok s'
      → IsAccounted I s' × (I.is_local s'.io x ≡ true)
  bring x s1 s2 s' k a away brought id_is is e =
      let (io, staged, made) = stage_if_missing-staged x s1 s2 away brought in
      subst
        (λ z.
          I.is_local z.io x ≡ true
          → take_slot I (record z { cached_states = map_emplace k x z.cached_states }) ≡ ok s'
          → IsAccounted I s' × (I.is_local s'.io x ≡ true))
        made (settle x s1 io s' k a away staged id_is) is e

  -- For a lawful storage: a state is pulled while the slots that are used are just those of the cached states on the node, and
  -- whenever a state has to go, the server names one that is cached and on the node. Then this is so
  -- afterwards, whether the state was there, was brought, or had been dumped before; and the state
  -- is on the node.
  pub m_pull_head-IsAccounted :
      (x : StateId) (s s' : StorageController I)
      → IsAccounted I s
      → AllNamed s.used_slots s
      → m_pull_head I x s ≡ ok s'
      → IsAccounted I s' × (I.is_local s'.io x ≡ true)
  unfolding m_pull_head
  m_pull_head-IsAccounted x s s' a h e = elim (Bool-cases (I.is_local s.io x)) [
    | inl t ↦
        let same = ok_inj s s' (rw (t, m_pull_head) at e) in
        subst (λ z. IsAccounted I z × (I.is_local z.io x ≡ true)) same (a, t)
    | inr f ↦
        let (s1, roomy, e1) = >>=-eq-ok (make_room I s.used_slots s) _ (rw (f, m_pull_head) at e) in
        let away = make_room-not_local s.used_slots s s1 x f roomy in
        let a1 = make_room-IsAccounted s.used_slots s s1 a h roomy in
        let (s2, brought, e2) = >>=-eq-ok (stage_if_missing I x s1) _ e1 in
        let (k, id_is, e3) = >>=-eq-ok (to_ckpt_id x) _ e2 in
        let (is, e4) = check-inv (I.is_local s2.io x) _ e3 in
        bring x s1 s2 s' k a1 away brought id_is is e4
  ]
