-- ===== src/Storage/Accounted.antt =====
-- api/p2p/StorageController/storage_controller.cxx: the slots of the pool and the states they stand for.
pub mod Handlers
pub mod Post
use fugaku_particle_filter.Prelude.{
  ℕ, zero, suc, ◌+◌, ◌-◌, ◌≤◌, ◌<◌, ◌≡◌, ◌≢◌, refl, sym, ap, ◌∙◌, List, [], ◌∷◌, ◌++◌, Bool, true,
  false, not, ◌==◌, ltb, leb, if◌then◌else◌, arith, Bool-cases, inl, inr, ◌⊎◌, Result, ok, err,
  exit, ok_inj, check-inv, check, >>=-eq-ok, subst,
}
use fugaku_particle_filter.Containers.{map_emplace, map_erase, set_insert, set_erase, set_count}
use fugaku_particle_filter.Containers.Sets.{Ascending, set_insert-Ascending, set_erase-Ascending}
use fugaku_particle_filter.Storage.{
  StorageController, Answer, free_slot, take_slot, delete_request, dump, delete_query,
}
use fugaku_particle_filter.Storage.Deleted.{named, Deleted, delete_request-Deleted}
use fugaku_particle_filter.Storage.Io.{
  StateId, IoController, IsLawful, io_storage_l1, io_storage_l2, to_ckpt_id, to_state_id,
  to_state_id-to_ckpt_id,
}
use fugaku_particle_filter.Storage.Counted.{
  keys, keys-map_emplace, keys-map_erase, one_if, count, count-set_insert_new,
  count-set_insert_there, count-set_erase, count-absent, count-present, same_state_other,
  same_state_self,
}

module _ (I : IoController) where
  -- Whether the state of a checkpoint is on the node.
  abbrev pub is_here : I.State → ℕ → Bool
  is_here io k = I.is_local io (to_state_id k)

  -- The slots that are used are those of the cached states that are on the node.
  pub record IsAccounted (s : StorageController I) : Type 0 where
    pub ascending : Ascending (keys s.cached_states)
    pub accounted : s.used_slots ≡ count (is_here s.io) (keys s.cached_states)

  -- A state that is cached and on the node.
  pub record IsHeld (s : StorageController I) (x : StateId) : Type 0 where
    pub ckpt_id : ℕ
    pub id_is : to_ckpt_id x ≡ ok ckpt_id
    pub cached : 0 < set_count ckpt_id (keys s.cached_states)
    pub on_node : I.is_local s.io x ≡ true

module _ (I : IoController) (laws : IsLawful I) where
  removed_elsewhere :
      (io io' : I.State) (x : StateId) (k : ℕ)
      → I.remove io x io_storage_l1 ≡ ok io'
      → to_ckpt_id x ≡ ok k
      → (j : ℕ) → j ≢ k
      → is_here I io' j ≡ is_here I io j
  removed_elsewhere io io' x k r e j ne =
      laws.is_local-remove io io' x (to_state_id j) r ∙ rw (same_state_other x k j e ne) refl

  removed_here :
      (io io' : I.State) (x : StateId) (k : ℕ)
      → I.remove io x io_storage_l1 ≡ ok io'
      → to_ckpt_id x ≡ ok k
      → is_here I io' k ≡ false
  removed_here io io' x k r e =
      ap (I.is_local io') (to_state_id-to_ckpt_id x k e)
      ∙ laws.is_local-remove io io' x x r
      ∙ rw (same_state_self x) refl

  -- A held state that is removed from the node is one less.
  count-removed :
      (s : StorageController I) (io : I.State) (x : StateId) (h : IsHeld I s x)
      → I.remove s.io x io_storage_l1 ≡ ok io
      → Ascending (keys s.cached_states)
      → count (is_here I io) (keys s.cached_states) + 1
        ≡ count (is_here I s.io) (keys s.cached_states)
  count-removed s io x h r a =
      let was : is_here I s.io h.ckpt_id ≡ true =
        ap (I.is_local s.io) (to_state_id-to_ckpt_id x h.ckpt_id h.id_is) ∙ h.on_node in
      let gone = removed_here s.io io x h.ckpt_id r h.id_is in
      let counted =
        count-present (is_here I io) (is_here I s.io) h.ckpt_id (keys s.cached_states) a
          (removed_elsewhere s.io io x h.ckpt_id r h.id_is) h.cached in
      omega (arith, rw (was, gone) at counted)

  pub delete_request-IsAccounted :
      (s s' : StorageController I)
      → IsAccounted I s
      → IsHeld I s (named I s)
      → delete_request I s ≡ ok s'
      → IsAccounted I s'
  delete_request-IsAccounted s s' a h e =
      let x = named I s in
      let ks = keys s.cached_states in
      let d = delete_request-Deleted I s s' e in
      let same : h.ckpt_id ≡ d.ckpt_id = ok_inj _ _ (sym h.id_is ∙ d.id_is) in
      let erased = count-set_erase (is_here I d.io) d.ckpt_id ks (rw same at h.cached) in
      let gone = removed_here s.io d.io x d.ckpt_id d.removed d.id_is in
      subst (IsAccounted I) d.is (record {
        ascending =
            rw (keys-map_erase d.ckpt_id s.cached_states)
              (set_erase-Ascending d.ckpt_id ks a.ascending);
        accounted = rw (keys-map_erase d.ckpt_id s.cached_states) (
            omega (
              arith,
              rw gone at erased,
              count-removed s d.io x h d.removed a.ascending,
              a.accounted,
            ));
      })

  -- Every state that the server wants to be dumped is held when its turn comes.
  abbrev pub AllHeld : List StateId → StorageController I → Type 0
  AllHeld [] s = Unit {0}
  AllHeld (x ∷ xs) s =
      IsHeld I s x
      × ((io : I.State)
          → I.remove s.io x io_storage_l1 ≡ ok io
          → AllHeld xs (record s { io = io; used_slots = s.used_slots - 1 }))

  pub dump-IsAccounted :
      (xs : List StateId) (s s' : StorageController I)
      → IsAccounted I s
      → AllHeld xs s
      → dump I xs s ≡ ok s'
      → IsAccounted I s'
  unfolding dump free_slot
  dump-IsAccounted [] s s' a h e = subst (IsAccounted I) (ok_inj s s' e) a
  dump-IsAccounted (x ∷ xs) s s' a h e =
      let (io, removed, e0) = >>=-eq-ok (I.remove s.io x io_storage_l1) _ e in
      let (s1, freed, e1) = >>=-eq-ok (free_slot I (record s { io = io })) _ e0 in
      let (_, made) = check-inv (ltb 0 s.used_slots) _ freed in
      dump-IsAccounted xs _ s'
        (record {
          ascending = a.ascending;
          accounted = omega (arith, count-removed s io x (h.0) removed a.ascending, a.accounted);
        })
        ((h.1) io removed) (rw (sym (ok_inj _ s1 made)) at e1)
