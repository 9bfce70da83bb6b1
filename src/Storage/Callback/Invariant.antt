-- ===== src/Storage/Callback/Invariant.antt =====
-- api/p2p/StorageController/storage_controller.cxx: the account of the states on the node, over the calls
-- of `callback`.
use fugaku_particle_filter.Prelude.{
  ℕ, ◌+◌, ◌≡◌, refl, sym, ◌∙◌, ◌>>=◌, List, [], ◌∷◌, true, ltb, if◌then◌else◌, some, none,
  Option-cases, Bool-cases, inl, inr, ok, ok_inj, >>=-eq-ok, subst,
}
use fugaku_particle_filter.Storage.Io.{StateId, IoController, IsLawful, io_storage_l2, to_state_id}
use fugaku_particle_filter.Storage.Counted.{keys, count-absent, same_state_other}
use fugaku_particle_filter.Storage.{
  m_store_user, StorageController, m_pull_head, m_request_load, m_request_pull, m_request_fini,
  delete_old, post_state,
}
use fugaku_particle_filter.Storage.Accounted.{IsAccounted, is_here}
use fugaku_particle_filter.Storage.Accounted.Handlers.{AllNamed, m_pull_head-IsAccounted}
use fugaku_particle_filter.Storage.Accounted.Post.{
  IsNew, Obliges, count-same, m_request_post-IsAccounted,
}
use fugaku_particle_filter.Storage.Callback.{
  Event, try_delete, callback_rest, callback, callbacks, store_all,
}

module _ (I : IoController) (laws : IsLawful I) where
  -- What a call relies on: a state that is posted is new and the server answers for what it names
  -- then, or, if none is posted, it names states that are held as long as room is made.
  pub record IsServed (e : Event) (s : StorageController I) : Type 0 where
    pub to_post :
        (x : StateId)
        → e.posted ≡ some x
        → IsNew I laws s x
          × ((s1 : StorageController I) → post_state I x s ≡ ok s1 → Obliges I laws s1)
    pub to_make_room : e.posted ≡ none → AllNamed I laws s.used_slots s

  -- None of the states that are stored is cached when its turn comes.
  abbrev pub AllNew : List StateId → StorageController I → Type 0
  AllNew [] s = Unit {0}
  AllNew (x ∷ xs) s =
      IsNew I laws s x
      × ((io : I.State) → I.store s.io x ≡ ok io → AllNew xs (record s { io = io }))

  abbrev pub AllServed : List Event → StorageController I → Type 0
  AllServed [] s = Unit {0}
  AllServed (e ∷ es) s =
      AllNew e.stored s
      × ((s1 : StorageController I)
          → store_all I e.stored s ≡ ok s1
          → IsServed e s1
            × ((s2 : StorageController I) → callback I e s1 ≡ ok s2 → AllServed es s2))

  store_all-IsAccounted :
      (xs : List StateId) (s s' : StorageController I)
      → IsAccounted I s
      → AllNew xs s
      → store_all I xs s ≡ ok s'
      → IsAccounted I s'
  unfolding store_all m_store_user
  store_all-IsAccounted [] s s' a h e = subst (IsAccounted I) (ok_inj s s' e) a
  store_all-IsAccounted (x ∷ xs) s s' a h e =
      let new = h.0 in
      let (s1, one, e1) = >>=-eq-ok (I.store s.io x >>= λ io. ok (record s { io = io })) _ e in
      let (io, stored, made) = >>=-eq-ok (I.store s.io x) _ one in
      store_all-IsAccounted xs (record s { io = io }) s'
        (record {
          ascending = a.ascending;
          accounted =
              a.accounted
              ∙ count-absent (is_here I s.io) (is_here I io) new.ckpt_id (keys s.cached_states)
                  (λ j ne. sym (
                    laws.is_local-store s.io io x (to_state_id j) stored
                      (same_state_other x new.ckpt_id j new.id_is ne)))
                  new.not_cached;
        })
        ((h.1) io stored) (rw (sym (ok_inj _ s1 made)) at e1)

  delete_old-IsAccounted :
      (xs : List StateId) (s s' : StorageController I)
      → IsAccounted I s
      → delete_old I xs s ≡ ok s'
      → IsAccounted I s'
  unfolding delete_old
  delete_old-IsAccounted [] s s' a e =
      subst (IsAccounted I) (ok_inj _ s' e)
        (record { ascending = a.ascending; accounted = a.accounted })
  delete_old-IsAccounted (x ∷ xs) s s' a e =
      elim (Bool-cases (ltb (x.t + 1) s.last_assimilation_cycle)) [
        | inl t ↦
            let (io, removed, rest) =
              >>=-eq-ok (I.remove s.io x io_storage_l2) _ (rw (t, delete_old) at e) in
            delete_old-IsAccounted xs (record s { io = io }) s'
              (record {
                ascending = a.ascending;
                accounted =
                    a.accounted
                    ∙ count-same _ _ (keys s.cached_states)
                        (λ j. sym (laws.is_local-remove_shared s.io io x (to_state_id j) removed));
              })
              rest
        | inr f ↦
            subst (IsAccounted I) (ok_inj _ s' (rw (f, delete_old) at e))
              (record { ascending = a.ascending; accounted = a.accounted })
      ]

  try_delete-IsAccounted :
      (now : ℕ) (s s' : StorageController I)
      → IsAccounted I s
      → try_delete I now s ≡ ok s'
      → IsAccounted I s'
  unfolding try_delete
  try_delete-IsAccounted now s s' a e = elim (Bool-cases (ltb s.next_try_delete now)) [
    | inl t ↦
        delete_old-IsAccounted s.del_q (record s { next_try_delete = now + 10 }) s'
          (record { ascending = a.ascending; accounted = a.accounted }) (rw (t, try_delete) at e)
    | inr f ↦ subst (IsAccounted I) (ok_inj s s' (rw (f, try_delete) at e)) a
  ]

  -- A state that is not on the node yet is pulled.
  pull_missing-IsAccounted :
      (x : StateId) (s s' : StorageController I)
      → IsAccounted I s
      → AllNamed I laws s.used_slots s
      → (if I.is_local s.io x then ok s else m_pull_head I x s) ≡ ok s'
      → IsAccounted I s' × (I.is_local s'.io x ≡ true)
  pull_missing-IsAccounted x s s' a h e = elim (Bool-cases (I.is_local s.io x)) [
    | inl t ↦
        subst (λ z. IsAccounted I z × (I.is_local z.io x ≡ true)) (ok_inj s s' (rw t at e)) (a, t)
    | inr f ↦ m_pull_head-IsAccounted I laws x s s' a h (rw f at e)
  ]

  m_request_pull-IsAccounted :
      (s s' : StorageController I)
      → IsAccounted I s
      → AllNamed I laws s.used_slots s
      → (xs : List StateId) → s.state_pull_requests ≡ xs
      → m_request_pull I s ≡ ok s'
      → IsAccounted I s'
  unfolding m_request_pull
  m_request_pull-IsAccounted s s' a h [] q e =
      subst (IsAccounted I) (ok_inj s s' (rw (q, m_request_pull) at e)) a
  m_request_pull-IsAccounted s s' a h (x ∷ xs) q e =
      let (s1, pulled, e1) =
        >>=-eq-ok (if I.is_local s.io x then ok s else m_pull_head I x s) _
          (rw (q, m_request_pull) at e) in
      let (a1, _) = pull_missing-IsAccounted x s s1 a h pulled in
      subst (IsAccounted I) (ok_inj _ s' e1)
        (record { ascending = a1.ascending; accounted = a1.accounted })

  callback_rest-IsAccounted :
      (e : Event) (s s' : StorageController I)
      → IsAccounted I s
      → AllNamed I laws s.used_slots s
      → (xs : List StateId) → s.state_pull_requests ≡ xs
      → callback_rest I e s ≡ ok s'
      → IsAccounted I s'
  unfolding callback_rest m_request_fini
  callback_rest-IsAccounted e s s' a h [] q r = elim (Bool-cases e.ends) [
    | inl t ↦
        subst (IsAccounted I) (ok_inj _ s' (rw (q, t, callback_rest) at r))
          (record { ascending = a.ascending; accounted = a.accounted })
    | inr f ↦ try_delete-IsAccounted e.now s s' a (rw (q, f, callback_rest) at r)
  ]
  callback_rest-IsAccounted e s s' a h (x ∷ xs) q r =
      m_request_pull-IsAccounted s s' a h (x ∷ xs) q (rw (q, callback_rest) at r)

  callback-IsAccounted :
      (e : Event) (s s' : StorageController I)
      → IsAccounted I s
      → IsServed e s
      → callback I e s ≡ ok s'
      → IsAccounted I s'
  unfolding callback m_request_load
  callback-IsAccounted e s s' a h r = elim (Option-cases e.posted) [
    | inl p ↦ elim (Option-cases e.missed) [
      | inl m ↦
          callback_rest-IsAccounted e s s' a (h.to_make_room p) s.state_pull_requests refl
            (rw (p, m, callback) at r)
      | inr missed ↦
          let (x, m) = missed in
          (m_pull_head-IsAccounted I laws x s s' a (h.to_make_room p) (rw (p, m, callback) at r)).0
    ]
    | inr posted ↦
        let (x, p) = posted in
        let (new, obliges) = h.to_post x p in
        m_request_post-IsAccounted I laws x s s' a new obliges (rw (p, callback) at r)
  ]

  callbacks-kept :
      (es : List Event) (s s' : StorageController I)
      → IsAccounted I s
      → AllServed es s
      → callbacks I es s ≡ ok s'
      → IsAccounted I s'
  unfolding callbacks
  callbacks-kept [] s s' a h r = subst (IsAccounted I) (ok_inj s s' r) a
  callbacks-kept (e ∷ es) s s' a h r =
      let (s1, stored, r1) = >>=-eq-ok (store_all I e.stored s) _ r in
      let (served, later_served) = (h.1) s1 stored in
      let a1 = store_all-IsAccounted e.stored s s1 a (h.0) stored in
      let (s2, now, later) = >>=-eq-ok (callback I e s1) _ r1 in
      callbacks-kept es s2 s' (callback-IsAccounted e s1 s2 a1 served now) (later_served s2 now)
        later

  -- For a lawful storage: a head begins without a cached state and without a used slot, and its callback
  -- is called any number of times, with any events, each of which is handled, while the app cores store
  -- states between the calls. In each call the server names and dumps only states that are cached and on
  -- the node, and a state that is stored or posted is not cached yet. Then the slots that are used are
  -- just those of the cached states on the node.
  pub callbacks-IsAccounted :
      (es : List Event) (s s' : StorageController I)
      → s.cached_states ≡ []
      → s.used_slots ≡ 0
      → AllServed es s
      → callbacks I es s ≡ ok s'
      → IsAccounted I s'
  callbacks-IsAccounted es s s' none_cached none_used h r =
      callbacks-kept es s s'
        (record { ascending = rw none_cached tt; accounted = rw (none_cached, none_used) refl }) h r
