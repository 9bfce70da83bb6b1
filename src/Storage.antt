-- ===== src/Storage.antt =====
-- api/p2p/StorageController/storage_controller.cxx: the head of a runner, which keeps states on its node
-- and gets them from the shared storage, in the peer-to-peer variant. The states of the node take the
-- slots of a pool; the server says which state goes when a slot is needed. Messages of the app cores are
-- the arguments of the handlers. Ids and cycles do not wrap.
pub mod Io
pub mod Fti
pub mod Counted
pub mod Accounted
pub mod Room
pub mod Deleted
pub mod Callback
use fugaku_particle_filter.Prelude.{
  ℕ, zero, suc, ◌+◌, ◌-◌, ◌/◌, ◌%◌, List, [], ◌∷◌, ◌++◌, Bool, true, false, not, ltb, leb, ◌==◌,
  if◌then◌else◌, max, min, Result, ok, err, assertion, exit, out_of_range, check, ◌>>=◌, ◌>>◌,
}
use fugaku_particle_filter.Part.{size_t_mod}
use fugaku_particle_filter.Containers.{map_emplace, map_erase}
use fugaku_particle_filter.Storage.Io.{
  StateId, IoController, Level, io_storage_l1, io_storage_l2, to_ckpt_id,
}

-- `STORAGE_MAX_PREFETCH`
abbrev pub storage_max_prefetch : ℕ
storage_max_prefetch = 4

-- The slots of the pool, as the first call of `callback` works them out of the storage of a node and
-- the size of a state on it. `size_t` wraps. A division by 0 is a fault, and an `IoException` ends the
-- process.
unfoldable pub pool_capacity : ℕ → ℕ → Result ℕ
pool_capacity storage zero = err out_of_range
pool_capacity storage (suc size) =
    let capacity = storage / suc size in
    if ltb capacity 3
    then err exit
    else (let prefetch_capacity = (capacity - 2 + size_t_mod - 2) % size_t_mod in
        ok (
          if ltb prefetch_capacity storage_max_prefetch
          then prefetch_capacity
          else storage_max_prefetch))

-- What the head tells the server.
pub data ToServer : Type 0 where
  weight : StateId → ToServer
  prefetch_query : List (ℕ × StateId) → ℕ → ℕ → ToServer
  delete_query : List (ℕ × StateId) → ToServer

-- An answer of the server: the state to delete, or those to pull and to dump.
pub record Answer : Type 0 where
  pub to_delete : StateId
  pub pull_states : List StateId
  pub dump_states : List StateId

-- `pop` of a `std::queue`, which is not empty.
unfoldable pub pop {ℓ} : {A : Type ℓ} → List A → List A
pop [] = []
pop (x ∷ xs) = xs

module _ (I : IoController) where
  -- `m_used_slots` fails an assertion before it is negative.
  pub record StorageController : Type 0 where
    pub io : I.State
    pub capacity : ℕ
    pub used_slots : ℕ
    pub ckpted_states : List (ℕ × StateId)
    pub cached_states : List (ℕ × StateId)
    pub state_pull_requests : List StateId
    pub del_q : List StateId
    pub last_assimilation_cycle : ℕ
    pub next_try_delete : ℕ
    pub server_closed : Bool
    pub answers : ℕ → Answer
    pub asked : ℕ
    pub sent : List ToServer

  abbrev pub free : StorageController → ℕ
  free s = s.capacity - s.used_slots

  -- `operator++` and `operator--` of the pool.
  unfoldable pub take_slot : StorageController → Result StorageController
  take_slot s = do
    check (leb (s.used_slots + 1) s.capacity)
    ok (record s { used_slots = s.used_slots + 1 })

  unfoldable pub free_slot : StorageController → Result StorageController
  free_slot s = do check (ltb 0 s.used_slots); ok (record s { used_slots = s.used_slots - 1 })

  unfoldable pub delete_request : StorageController → Result StorageController
  unfolding free_slot to_ckpt_id map_erase
  delete_request s = do
    let state_id = (s.answers s.asked).to_delete
    io ← I.remove s.io state_id io_storage_l1
    ckpt_id ← to_ckpt_id state_id
    if I.has_local_dir io state_id then err exit else ok tt
    check (not (I.is_local io state_id))
    s' ← free_slot (record s {
      io = io;
      asked = s.asked + 1;
      sent = s.sent ++ (delete_query s.cached_states ∷ []);
    })
    ok (record s' { cached_states = map_erase ckpt_id s'.cached_states })

  -- The loop of `prefetch_request` over the states to dump.
  unfoldable pub dump : List StateId → StorageController → Result StorageController
  unfolding free_slot
  dump [] s = ok s
  dump (state_id ∷ state_ids) s = do
    io ← I.remove s.io state_id io_storage_l1
    s' ← free_slot (record s { io = io })
    dump state_ids s'

  unfoldable pub prefetch_request : StorageController → Result StorageController
  unfolding dump
  prefetch_request s =
      let answer = s.answers s.asked in
      dump answer.dump_states (record s {
        asked = s.asked + 1;
        sent = s.sent ++ (prefetch_query s.cached_states s.capacity (free s) ∷ []);
        state_pull_requests = s.state_pull_requests ++ answer.pull_states;
      })

  -- The loop of `m_pull_head`: states are deleted until two slots are free. Each deletion frees one,
  -- and the recursion is on the slots that are used; with none, a deletion fails.
  unfoldable pub make_room : ℕ → StorageController → Result StorageController
  unfolding delete_request
  make_room zero s = if leb (free s) 1 then delete_request s else ok s
  make_room (suc used) s = if leb (free s) 1 then delete_request s >>= make_room used else ok s

  -- `copy`
  unfoldable pub copy_state : StateId → Level → Level → StorageController → Result StorageController
  unfolding delete_request take_slot
  copy_state state_id from to s = do
    s' ← elim to [
      | io_storage_l1 ↦ if free s == 0 then delete_request s else ok s
      | io_storage_l2 ↦ ok s
    ]
    io ← I.stage s'.io state_id from to
    let s'' = record s' { io = io }
    elim to [ io_storage_l1 ↦ take_slot s'' | io_storage_l2 ↦ ok s'' ]

  -- What is not local yet is staged.
  unfoldable pub stage_if_missing : StateId → StorageController → Result StorageController
  stage_if_missing state_id s =
      if I.is_local s.io state_id
      then ok s
      else (I.stage s.io state_id io_storage_l2 io_storage_l1 >>= λ io. ok (record s { io = io }))

  unfoldable pub m_pull_head : StateId → StorageController → Result StorageController
  unfolding make_room stage_if_missing take_slot to_ckpt_id map_emplace
  m_pull_head state_id s = if I.is_local s.io state_id then ok s else (do
    s1 ← make_room s.used_slots s
    s2 ← stage_if_missing state_id s1
    ckpt_id ← to_ckpt_id state_id
    check (I.is_local s2.io state_id)
    take_slot (record s2 { cached_states = map_emplace ckpt_id state_id s2.cached_states }))

  -- `m_push_weight_to_server`: the state may be deleted from the shared storage two cycles later.
  unfoldable pub m_push_weight_to_server : StateId → StorageController → StorageController
  m_push_weight_to_server state_id s = record s {
    sent = s.sent ++ (weight state_id ∷ []);
    last_assimilation_cycle = max state_id.t s.last_assimilation_cycle;
    del_q = s.del_q ++ (state_id ∷ []);
  }

  -- `m_request_post`: the app cores have stored a state, and it has a weight.
  unfoldable pub post_state : StateId → StorageController → Result StorageController
  unfolding to_ckpt_id m_push_weight_to_server take_slot map_emplace
  post_state state_id s = do
    ckpt_id ← to_ckpt_id state_id
    io ← I.update_metadata s.io state_id io_storage_l1
    check (I.is_local io state_id)
    shared ← I.stage io state_id io_storage_l1 io_storage_l2
    let s' =
        m_push_weight_to_server state_id
          (record s { io = shared; ckpted_states = map_emplace ckpt_id state_id s.ckpted_states })
    take_slot (record s' { cached_states = map_emplace ckpt_id state_id s'.cached_states })

  unfoldable pub m_request_post : StateId → StorageController → Result StorageController
  unfolding post_state delete_request prefetch_request
  m_request_post state_id s = do
    s1 ← post_state state_id s
    s2 ← if free s1 == 0 then delete_request s1 else ok s1
    prefetch_request s2

  -- `m_request_load`: the app cores miss a state.
  unfoldable pub m_request_load : StateId → StorageController → Result StorageController
  unfolding m_pull_head
  m_request_load state_id s = m_pull_head state_id s

  -- `m_request_pull`: the first of the states that the server wants to be here.
  unfoldable pub m_request_pull : StorageController → Result StorageController
  unfolding m_pull_head pop
  m_request_pull s = elim (s.state_pull_requests) [
    | [] ↦ ok s
    | state_id ∷ later ↦
        (if I.is_local s.io state_id then ok s else m_pull_head state_id s) >>= λ s'.
        ok (record s' { state_pull_requests = pop s'.state_pull_requests })
  ]

  -- The loop of `callback` that deletes states of past cycles from the shared storage.
  unfoldable pub delete_old : List StateId → StorageController → Result StorageController
  delete_old [] s = ok (record s { del_q = [] })
  delete_old (state_id ∷ state_ids) s =
      if ltb (state_id.t + 1) s.last_assimilation_cycle
      then (I.remove s.io state_id io_storage_l2 >>= λ io.
          delete_old state_ids (record s { io = io }))
      else ok (record s { del_q = state_id ∷ state_ids })

  -- `m_request_fini`: the connection to the server is closed. What a later request over it would do is
  -- left out.
  unfoldable pub m_request_fini : StorageController → StorageController
  m_request_fini s = record s { server_closed = true }

  -- `m_store_user`: an app core has stored a state on the node.
  unfoldable pub m_store_user : StateId → StorageController → Result StorageController
  m_store_user state_id s = I.store s.io state_id >>= λ io. ok (record s { io = io })
