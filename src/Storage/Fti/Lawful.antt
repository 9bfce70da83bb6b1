-- ===== src/Storage/Fti/Lawful.antt =====
-- api/p2p/StorageController/fti_controller.cxx: the controller keeps the laws of the interface.
use fugaku_particle_filter.Prelude.{
  ℕ, ◌≡◌, ◌≢◌, refl, sym, ap, ap₂, ◌∙◌, Bool, true, false, ◌&&◌, if◌then◌else◌, ok, exit, or_fail,
  or_fail-inv, >>=-eq-ok, ok_inj, arith, Bool-cases, Result-cases, inl, inr, subst,
}
use fugaku_particle_filter.Storage.Io.{
  StateId, io_storage_l1, io_storage_l2, IsLawful, same_state, to_ckpt_id, to_state_id-to_ckpt_id,
}
use fugaku_particle_filter.Storage.Counted.{same_state_self}
use fugaku_particle_filter.Storage.Fti.{
  Fti, IsDocumented, fti_l1, io_level_map, is_local, store, remove, update_metadata, stage,
  stage_l1l2, stage_l2l1, fti_controller,
}

-- Two states with one checkpoint are the same.
ckpt_id-same :
    (x y : StateId) (k : ℕ) → to_ckpt_id x ≡ ok k → to_ckpt_id y ≡ ok k → same_state x y ≡ true
ckpt_id-same x y k e f =
    let same : x ≡ y = sym (to_state_id-to_ckpt_id x k e) ∙ to_state_id-to_ckpt_id y k f in
    subst (λ z. same_state x z ≡ true) same (same_state_self x)

module _ (F : Fti) (master_global : Bool) where
  -- What is local is told by the checkpoints.
  is_local-shared :
      (s s' : F.State) (y : StateId)
      → ((j : ℕ) → F.stat_is_local s' j ≡ F.stat_is_local s j)
      → is_local F master_global s' y ≡ is_local F master_global s y
  unfolding is_local
  is_local-shared s s' y same = elim (Result-cases (to_ckpt_id y)) [
    | inl (j, e) ↦ rw (e, is_local) (same j)
    | inr (f, e) ↦ rw (e, is_local) refl
  ]

  is_local-others :
      (s s' : F.State) (x y : StateId) (k : ℕ)
      → to_ckpt_id x ≡ ok k
      → ((j : ℕ) → j ≢ k → F.stat_is_local s' j ≡ F.stat_is_local s j)
      → same_state x y ≡ false
      → is_local F master_global s' y ≡ is_local F master_global s y
  unfolding is_local
  is_local-others s s' x y k id_is same differ = elim (Result-cases (to_ckpt_id y)) [
    | inl (j, e) ↦
        let ne : j ≢ k =
          λ p. absurd (ground (arith, differ, ckpt_id-same x y k id_is (e ∙ ap ok p))) in
        rw (e, is_local) (same j ne)
    | inr (f, e) ↦ rw (e, is_local) refl
  ]

  is_local-gone :
      (s : F.State) (x y : StateId) (k : ℕ)
      → to_ckpt_id x ≡ ok k
      → F.stat_is_local s k ≡ false
      → x ≡ y
      → is_local F master_global s y ≡ false
  unfolding is_local
  is_local-gone s x y k id_is gone same =
      subst (λ z. is_local F master_global s z ≡ false) same (rw (id_is, is_local) gone)

same_state-eq : (x y : StateId) → same_state x y ≡ true → x ≡ y
same_state-eq x y e =
    ap₂ (λ (a b : ℕ). record { t = a; id = b }) (ground (arith, e)) (ground (arith, e))

module _ (F : Fti) (documented : IsDocumented F) (master_global : Bool) where
  is_local-remove :
      (s s' : F.State) (x y : StateId)
      → remove F master_global s x io_storage_l1 ≡ ok s'
      → is_local F master_global s' y
        ≡ (if same_state x y then false else is_local F master_global s y)
  unfolding remove io_level_map
  is_local-remove s s' x y e =
      let (k, id_is, e1) = >>=-eq-ok (to_ckpt_id x) _ e in
      let gone = or_fail-inv _ _ s' e1 in
      elim (Bool-cases (same_state x y)) [
        | inl t ↦ rw t (
            is_local-gone F master_global s' x y k id_is (documented.removed s s' k gone)
              (same_state-eq x y t))
        | inr f ↦ rw f (
            is_local-others F master_global s s' x y k id_is
              (λ j. documented.remove-others s s' k j gone) f)
      ]

  is_local-remove_shared :
      (s s' : F.State) (x y : StateId)
      → remove F master_global s x io_storage_l2 ≡ ok s'
      → is_local F master_global s' y ≡ is_local F master_global s y
  unfolding remove io_level_map
  is_local-remove_shared s s' x y e = elim (Bool-cases master_global) [
    | inl t ↦
        let (k, id_is, e1) = >>=-eq-ok (to_ckpt_id x) _ (rw (t, remove) at e) in
        let gone = or_fail-inv _ _ s' e1 in
        is_local-shared F master_global s s' y (λ j.
          documented.forget-shared (F.remove_tree s k) s' k j gone ∙ documented.tree-shared s k j)
    | inr f ↦ ap (λ z. is_local F master_global z y) (sym (ok_inj s s' (rw (f, remove) at e)))
  ]

  is_local-store :
      (s s' : F.State) (x y : StateId)
      → store F master_global s x ≡ ok s'
      → same_state x y ≡ false
      → is_local F master_global s' y ≡ is_local F master_global s y
  unfolding store
  is_local-store s s' x y e differ =
      let (k, id_is, e1) = >>=-eq-ok (to_ckpt_id x) _ e in
      subst (λ z. is_local F master_global z y ≡ is_local F master_global s y) (ok_inj _ s' e1)
        (is_local-others F master_global s (F.checkpoint s k fti_l1) x y k id_is
          (λ j. documented.checkpoint-others s k j) differ)

  is_local-update_metadata :
      (s s' : F.State) (x y : StateId)
      → update_metadata F master_global s x io_storage_l1 ≡ ok s'
      → same_state x y ≡ false
      → is_local F master_global s' y ≡ is_local F master_global s y
  unfolding update_metadata io_level_map
  is_local-update_metadata s s' x y e differ =
      let (k, id_is, e1) = >>=-eq-ok (to_ckpt_id x) _ e in
      let updated = or_fail-inv _ _ s' e1 in
      is_local-others F master_global s s' x y k id_is
        (λ j. documented.update-others s s' k j updated) differ

  is_local-update_shared :
      (s s' : F.State) (x y : StateId)
      → update_metadata F master_global s x io_storage_l2 ≡ ok s'
      → is_local F master_global s' y ≡ is_local F master_global s y
  unfolding update_metadata io_level_map
  is_local-update_shared s s' x y e =
      let (k, _, e1) = >>=-eq-ok (to_ckpt_id x) _ e in
      is_local-shared F master_global s s' y
        (λ j. documented.update-shared s s' k j (or_fail-inv _ _ s' e1))

  is_local-stage_shared :
      (s s' : F.State) (x y : StateId)
      → stage F master_global s x io_storage_l1 io_storage_l2 ≡ ok s'
      → is_local F master_global s' y ≡ is_local F master_global s y
  unfolding stage stage_l1l2
  is_local-stage_shared s s' x y e =
      let (k, id_is, e1) = >>=-eq-ok (to_ckpt_id x) _ e in
      let (s1, pushed, e2) = >>=-eq-ok (or_fail exit (F.push_files s k)) _ e1 in
      let first =
        is_local-shared F master_global s s1 y
          (λ j. documented.push-shared s s1 k j (or_fail-inv _ _ s1 pushed)) in
      elim (Bool-cases master_global) [
        | inl t ↦ is_local-update_shared s1 s' x y (rw t at e2) ∙ first
        | inr f ↦ ap (λ z. is_local F master_global z y) (sym (ok_inj s1 s' (rw f at e2))) ∙ first
      ]

  is_local-stage :
      (s s' : F.State) (x y : StateId)
      → stage F master_global s x io_storage_l2 io_storage_l1 ≡ ok s'
      → same_state x y ≡ false
      → is_local F master_global s' y ≡ is_local F master_global s y
  unfolding stage stage_l2l1
  is_local-stage s s' x y e differ =
      let (k, id_is, e1) = >>=-eq-ok (to_ckpt_id x) _ e in
      let ((whole, s1), pulled, e2) = >>=-eq-ok (or_fail exit (F.pull_files s k)) _ e1 in
      let first =
        is_local-others F master_global s s1 x y k id_is
          (λ j. documented.pull-others s s1 whole k j (or_fail-inv _ _ (whole, s1) pulled))
          differ in
      elim (Bool-cases (whole && master_global)) [
        | inl t ↦ is_local-update_metadata s1 s' x y (rw t at e2) differ ∙ first
        | inr f ↦ ap (λ z. is_local F master_global z y) (sym (ok_inj s1 s' (rw f at e2))) ∙ first
      ]

  pub fti_controller-IsLawful : IsLawful (fti_controller F master_global)
  fti_controller-IsLawful = record {
    is_local-remove = is_local-remove;
    is_local-remove_shared = is_local-remove_shared;
    is_local-store = is_local-store;
    is_local-stage = is_local-stage;
    is_local-stage_shared = is_local-stage_shared;
    is_local-update_metadata = is_local-update_metadata;
  }
