-- ===== src/Storage/Accounted/Post.antt =====
-- api/p2p/StorageController/storage_controller.cxx: `m_request_post` keeps account of the states on the
-- node.
use fugaku_particle_filter.Prelude.{
  ℕ, ◌+◌, ◌≡◌, refl, ap, ap₂, ◌∙◌, List, [], ◌∷◌, ◌++◌, Bool, true, ◌==◌, leb, if◌then◌else◌, arith,
  Bool-cases, inl, inr, ok, ok_inj, check-inv, >>=-eq-ok, subst,
}
use fugaku_particle_filter.Containers.{set_count}
use fugaku_particle_filter.Containers.Sets.{set_insert-Ascending}
use fugaku_particle_filter.Storage.{
  StorageController, free, take_slot, delete_request, post_state, m_request_post, prefetch_request,
  prefetch_query, m_push_weight_to_server,
}
use fugaku_particle_filter.Storage.Io.{
  StateId, IoController, IsLawful, io_storage_l1, io_storage_l2, to_ckpt_id, to_state_id,
  to_state_id-to_ckpt_id,
}
use fugaku_particle_filter.Storage.Counted.{
  keys, keys-map_emplace, one_if, count, count-set_insert_new, count-absent, same_state_other,
}
use fugaku_particle_filter.Storage.Deleted.{named}
use fugaku_particle_filter.Storage.Accounted.{
  is_here, IsAccounted, IsHeld, AllHeld, delete_request-IsAccounted, dump-IsAccounted,
}

pub count-same : (g h : ℕ → Bool) (ks : List ℕ) → ((j : ℕ) → g j ≡ h j) → count g ks ≡ count h ks
count-same g h [] same = refl
count-same g h (k ∷ ks) same = ap₂ (λ a b. one_if a + b) (same k) (count-same g h ks same)

module _ (I : IoController) (laws : IsLawful I) where
  -- The checkpoint of the state is not cached yet.
  pub record IsNew (s : StorageController I) (x : StateId) : Type 0 where
    pub ckpt_id : ℕ
    pub id_is : to_ckpt_id x ≡ ok ckpt_id
    pub not_cached : set_count ckpt_id (keys s.cached_states) ≡ 0

  post_state-IsAccounted :
      (x : StateId) (s s' : StorageController I)
      → IsAccounted I s
      → IsNew s x
      → post_state I x s ≡ ok s'
      → IsAccounted I s'
  unfolding post_state m_push_weight_to_server take_slot
  post_state-IsAccounted x s s' a new e =
      let k = new.ckpt_id in
      let ks = keys s.cached_states in
      let id = to_state_id-to_ckpt_id x k new.id_is in
      let (noted, updated, e0) =
        >>=-eq-ok (I.update_metadata s.io x io_storage_l1) _ (rw (new.id_is, post_state) at e) in
      let (is, e1) = check-inv (I.is_local noted x) _ e0 in
      let (io, staged, e2) = >>=-eq-ok (I.stage noted x io_storage_l1 io_storage_l2) _ e1 in
      let (_, e3) = check-inv (leb (s.used_slots + 1) s.capacity) _ e2 in
      let here : is_here I io k ≡ true =
        ap (I.is_local io) id ∙ laws.is_local-stage_shared noted io x x staged ∙ is in
      let counted = count-set_insert_new (is_here I io) k ks new.not_cached in
      let unchanged =
        count-absent (is_here I io) (is_here I s.io) k ks
          (λ j ne.
            laws.is_local-stage_shared noted io x (to_state_id j) staged
            ∙ laws.is_local-update_metadata s.io noted x (to_state_id j) updated
                (same_state_other x k j new.id_is ne))
          new.not_cached in
      subst (IsAccounted I) (ok_inj _ s' e3) (record {
        ascending =
            rw (keys-map_emplace k x s.cached_states) (set_insert-Ascending k ks a.ascending);
        accounted =
            rw (keys-map_emplace k x s.cached_states)
              (omega (arith, rw here at counted, unchanged, a.accounted));
      })

  -- What the server is asked after a state has been posted: if no slot is free, it names a state to
  -- delete, and all that it wants dumped, both held at that time.
  pub record Obliges (s : StorageController I) : Type 0 where
    pub to_delete : (free I s == 0) ≡ true → IsHeld I s (named I s)
    pub to_dump :
        (s' : StorageController I)
        → (if free I s == 0 then delete_request I s else ok s) ≡ ok s'
        → AllHeld I laws (s'.answers s'.asked).dump_states (record s' {
          asked = s'.asked + 1;
          sent = s'.sent ++ (prefetch_query s'.cached_states s'.capacity (free I s') ∷ []);
          state_pull_requests = s'.state_pull_requests ++ (s'.answers s'.asked).pull_states;
        })

  -- For a lawful storage: a state whose checkpoint is not cached is posted while the slots that are used are just those of
  -- the cached states on the node, and the server names and dumps only states that are cached and on
  -- the node. Then this is so afterwards.
  pub m_request_post-IsAccounted :
      (x : StateId) (s s' : StorageController I)
      → IsAccounted I s
      → IsNew s x
      → ((s1 : StorageController I) → post_state I x s ≡ ok s1 → Obliges s1)
      → m_request_post I x s ≡ ok s'
      → IsAccounted I s'
  unfolding m_request_post prefetch_request
  m_request_post-IsAccounted x s s' a new obliges e =
      let (s1, posted, e1) = >>=-eq-ok (post_state I x s) _ e in
      let (s2, freed, e2) =
        >>=-eq-ok (if free I s1 == 0 then delete_request I s1 else ok s1) _ e1 in
      let o = obliges s1 posted in
      let a1 = post_state-IsAccounted x s s1 a new posted in
      let a2 : IsAccounted I s2 = elim (Bool-cases (free I s1 == 0)) [
        | inl t ↦ delete_request-IsAccounted I laws s1 s2 a1 (o.to_delete t) (rw t at freed)
        | inr f ↦ subst (IsAccounted I) (ok_inj s1 s2 (rw f at freed)) a1
      ] in
      dump-IsAccounted I laws (s2.answers s2.asked).dump_states _ s'
        (record { ascending = a2.ascending; accounted = a2.accounted }) (o.to_dump s2 freed) e2
