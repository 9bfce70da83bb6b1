-- ===== src/Storage/Callback.antt =====
-- api/p2p/StorageController/storage_controller.cxx: `callback`, which the head calls again and again once
-- it has initialised. A call handles the first event that it finds.
pub mod Invariant
pub mod Pulls
use fugaku_particle_filter.Prelude.{
  ℕ, ◌+◌, ◌≡◌, List, [], ◌∷◌, Bool, true, false, ltb, if◌then◌else◌, Option, some, none, Result, ok,
  ◌>>=◌,
}
use fugaku_particle_filter.Storage.Io.{StateId, IoController}
use fugaku_particle_filter.Storage.{
  StorageController, m_request_post, m_request_load, m_request_pull, m_request_fini, delete_old,
  m_store_user,
}

-- What happens up to a call and what it finds: the states that the app cores store, a state with its weight, a state that the app cores miss, the message that ends
-- the runner, and the time.
pub record Event : Type 0 where
  pub stored : List StateId
  pub posted : Option StateId
  pub missed : Option StateId
  pub ends : Bool
  pub now : ℕ

module _ (I : IoController) where
  -- Every ten seconds the states of past cycles are deleted from the shared storage.
  unfoldable pub try_delete : ℕ → StorageController I → Result (StorageController I)
  unfolding delete_old
  try_delete now s =
      if ltb s.next_try_delete now
      then delete_old I s.del_q (record s { next_try_delete = now + 10 })
      else ok s

  -- The events that come after those of the app cores.
  unfoldable pub callback_rest : Event → StorageController I → Result (StorageController I)
  unfolding m_request_pull m_request_fini try_delete
  callback_rest e s = elim (s.state_pull_requests) [
    | [] ↦ if e.ends then ok (m_request_fini I s) else try_delete e.now s
    | state_id ∷ later ↦ m_request_pull I s
  ]

  unfoldable pub callback : Event → StorageController I → Result (StorageController I)
  unfolding m_request_post m_request_load callback_rest
  callback e s = elim (e.posted) [
    | some state_id ↦ m_request_post I state_id s
    | none ↦ elim (e.missed) [
      | some state_id ↦ m_request_load I state_id s
      | none ↦ callback_rest e s
    ]
  ]

  -- What the app cores store, one state after the other.
  unfoldable pub store_all : List StateId → StorageController I → Result (StorageController I)
  unfolding m_store_user
  store_all [] s = ok s
  store_all (state_id ∷ state_ids) s = m_store_user I state_id s >>= store_all state_ids

  unfoldable pub callbacks : List Event → StorageController I → Result (StorageController I)
  unfolding store_all callback
  callbacks [] s = ok s
  callbacks (e ∷ es) s = do s' ← store_all e.stored s; s'' ← callback e s'; callbacks es s''
