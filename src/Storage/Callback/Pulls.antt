-- ===== src/Storage/Callback/Pulls.antt =====
-- api/p2p/StorageController/storage_controller.cxx: the states that the server wants on the node are pulled
-- in order.
use fugaku_particle_filter.Prelude.{
  ℕ, zero, suc, ◌+◌, ◌≡◌, sym, ap, ◌∙◌, arith, false, List, ◌∷◌, true, leb, if◌then◌else◌, none,
  Bool-cases, inl, inr, ok, ok_inj, check-inv, >>=-eq-ok, subst,
}
use fugaku_particle_filter.Storage.Io.{StateId, IoController, to_ckpt_id}
use fugaku_particle_filter.Containers.{map_emplace}
use fugaku_particle_filter.Storage.Io.{IsLawful, io_storage_l1, io_storage_l2}
use fugaku_particle_filter.Storage.{
  StorageController, free, delete_request, make_room, stage_if_missing, take_slot, m_pull_head,
  m_request_pull, pop,
}
use fugaku_particle_filter.Storage.Deleted.{delete_request-Deleted}
use fugaku_particle_filter.Storage.Accounted.Handlers.{make_room-not_local, stage_if_missing-staged}
use fugaku_particle_filter.Storage.Callback.{Event, callback_rest, callback}

module _ (I : IoController) where
  delete_request-requests :
      (s s' : StorageController I)
      → delete_request I s ≡ ok s'
      → s'.state_pull_requests ≡ s.state_pull_requests
  delete_request-requests s s' e =
      sym (ap (λ z. z.state_pull_requests) (delete_request-Deleted I s s' e).is)

  make_room-requests :
      (n : ℕ) (s s' : StorageController I)
      → make_room I n s ≡ ok s'
      → s'.state_pull_requests ≡ s.state_pull_requests
  unfolding make_room
  make_room-requests zero s s' e = elim (Bool-cases (leb (free I s) 1)) [
    | inl t ↦ delete_request-requests s s' (rw (t, make_room) at e)
    | inr f ↦ ap (λ z. z.state_pull_requests) (sym (ok_inj s s' (rw (f, make_room) at e)))
  ]
  make_room-requests (suc n) s s' e = elim (Bool-cases (leb (free I s) 1)) [
    | inl t ↦
        let (s1, d, rest) = >>=-eq-ok (delete_request I s) _ (rw (t, make_room) at e) in
        make_room-requests n s1 s' rest ∙ delete_request-requests s s1 d
    | inr f ↦ ap (λ z. z.state_pull_requests) (sym (ok_inj s s' (rw (f, make_room) at e)))
  ]

  stage_if_missing-requests :
      (x : StateId) (s s' : StorageController I)
      → stage_if_missing I x s ≡ ok s'
      → s'.state_pull_requests ≡ s.state_pull_requests
  unfolding stage_if_missing
  stage_if_missing-requests x s s' e = elim (Bool-cases (I.is_local s.io x)) [
    | inl t ↦ ap (λ z. z.state_pull_requests) (sym (ok_inj s s' (rw (t, stage_if_missing) at e)))
    | inr f ↦
        let (io, _, made) =
          >>=-eq-ok (I.stage s.io x io_storage_l2 io_storage_l1) _
            (rw (f, stage_if_missing) at e) in
        ap (λ z. z.state_pull_requests) (sym (ok_inj _ s' made))
  ]

  take_slot-same :
      (s s' : StorageController I)
      → take_slot I s ≡ ok s'
      → (s'.io ≡ s.io)
        × (s'.state_pull_requests ≡ s.state_pull_requests)
        × (s'.cached_states ≡ s.cached_states)
  unfolding take_slot
  take_slot-same s s' e =
      let (_, made) = check-inv (leb (s.used_slots + 1) s.capacity) _ e in
      let same = sym (ok_inj _ s' made) in
      (ap (λ z. z.io) same, ap (λ z. z.state_pull_requests) same, ap (λ z. z.cached_states) same)

module _ (I : IoController) (laws : IsLawful I) where
  -- A state is on the node; if it was not, it has been staged from the shared storage, from where it is
  -- only taken when it is missing, and it is among the cached states.
  pub record Pulled (x : StateId) (s s' : StorageController I) : Type 0 where
    pub here : I.is_local s'.io x ≡ true
    pub staged :
        I.is_local s.io x ≡ false
        → (io : I.State) × (I.is_local io x ≡ false)
          × (I.stage io x io_storage_l2 io_storage_l1 ≡ ok s'.io)
    pub cached :
        I.is_local s.io x ≡ false
        → (k : ℕ) × (others : List (ℕ × StateId)) × (to_ckpt_id x ≡ ok k)
          × (s'.cached_states ≡ map_emplace k x others)

  already : (x : StateId) (s : StorageController I) → I.is_local s.io x ≡ true → Pulled x s s
  already x s t = record {
    here = t;
    staged = λ f. absurd (ground (arith, t, f));
    cached = λ f. absurd (ground (arith, t, f));
  }

  m_pull_head-Pulled :
      (x : StateId) (s s' : StorageController I)
      → m_pull_head I x s ≡ ok s'
      → (s'.state_pull_requests ≡ s.state_pull_requests) × Pulled x s s'
  unfolding m_pull_head
  m_pull_head-Pulled x s s' e = elim (Bool-cases (I.is_local s.io x)) [
    | inl t ↦
        let same = ok_inj s s' (rw (t, m_pull_head) at e) in
        (ap (λ z. z.state_pull_requests) (sym same), subst (Pulled x s) same (already x s t))
    | inr f ↦
        let (s1, roomy, e1) = >>=-eq-ok (make_room I s.used_slots s) _ (rw (f, m_pull_head) at e) in
        let away = make_room-not_local I laws s.used_slots s s1 x f roomy in
        let (s2, brought, e2) = >>=-eq-ok (stage_if_missing I x s1) _ e1 in
        let (io, staged, made) = stage_if_missing-staged I laws x s1 s2 away brought in
        let (k, id_is, e3) = >>=-eq-ok (to_ckpt_id x) _ e2 in
        let (is, e4) = check-inv (I.is_local s2.io x) _ e3 in
        let (io_same, requests_same, cached_same) = take_slot-same I _ s' e4 in
        let io_is : io ≡ s'.io = ap (λ z. z.io) made ∙ sym io_same in
        (
          requests_same
              ∙ stage_if_missing-requests I x s1 s2 brought
              ∙ make_room-requests I s.used_slots s s1 roomy,
          record {
            here = ap (λ z. I.is_local z x) io_same ∙ is;
            staged = λ _. (s1.io, away, staged ∙ ap ok io_is);
            cached = λ _. (k, s2.cached_states, id_is, cached_same);
          },
        )
  ]

  pull_missing-Pulled :
      (x : StateId) (s s' : StorageController I)
      → (if I.is_local s.io x then ok s else m_pull_head I x s) ≡ ok s'
      → (s'.state_pull_requests ≡ s.state_pull_requests) × Pulled x s s'
  pull_missing-Pulled x s s' e = elim (Bool-cases (I.is_local s.io x)) [
    | inl t ↦
        let same = ok_inj s s' (rw t at e) in
        (ap (λ z. z.state_pull_requests) (sym same), subst (Pulled x s) same (already x s t))
    | inr f ↦ m_pull_head-Pulled x s s' (rw f at e)
  ]

  m_request_pull-pulls_first :
      (x : StateId) (xs : List StateId) (s s' : StorageController I)
      → s.state_pull_requests ≡ x ∷ xs
      → m_request_pull I s ≡ ok s'
      → Pulled x s s' × (s'.state_pull_requests ≡ xs)
  unfolding m_request_pull pop
  m_request_pull-pulls_first x xs s s' q e =
      let (s1, pulled, e1) =
        >>=-eq-ok (if I.is_local s.io x then ok s else m_pull_head I x s) _
          (rw (q, m_request_pull) at e) in
      let (kept, p) = pull_missing-Pulled x s s1 pulled in
      let same = ok_inj _ s' e1 in
      (
        subst (Pulled x s) same (record { here = p.here; staged = p.staged; cached = p.cached }),
        ap (λ z. z.state_pull_requests) (sym same) ∙ ap pop (kept ∙ q),
      )

  -- For a lawful storage: a call of `callback` finds neither a state that is posted nor one that the app
  -- cores miss, and there are states that the server wants on the node. When it returns, the first of
  -- these is on the node, and the others are left to pull, in their order. If the first was not on the
  -- node, then it has been staged from the shared storage, after all deletions that make room, and it
  -- is among the cached states.
  pub callback-pulls_first :
      (e : Event) (x : StateId) (xs : List StateId) (s s' : StorageController I)
      → e.posted ≡ none
      → e.missed ≡ none
      → s.state_pull_requests ≡ x ∷ xs
      → callback I e s ≡ ok s'
      → Pulled x s s' × (s'.state_pull_requests ≡ xs)
  unfolding callback callback_rest
  callback-pulls_first e x xs s s' p m q r =
      m_request_pull-pulls_first x xs s s' q (rw (p, m, q, callback, callback_rest) at r)
