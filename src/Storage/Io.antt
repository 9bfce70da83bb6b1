-- ===== src/Storage/Io.antt =====
-- api/p2p/StorageController/io_controller.hpp: the interface behind which the storage controller keeps its
-- checkpoints, over a state of its own, as far as the head of a runner calls it; and the ids of
-- fti_controller.hpp. L1 is the storage of the node, L2 the one that all runners share.
use fugaku_particle_filter.Prelude.{
  ℕ, ◌+◌, ◌*◌, ◌/◌, ◌%◌, ◌<◌, ◌≡◌, refl, sym, Bool, false, ltb, ◌==◌, ◌&&◌, if◌then◌else◌, Result,
  ok, check, check-inv, ok_inj, ◌>>◌, arith,
}

-- `io_state_id_t`: an assimilation cycle and the id of a particle.
pub record StateId : Type 0 where
  pub t : ℕ
  pub id : ℕ

pub data Level : Type 0 where
  io_storage_l1 io_storage_l2 : Level

abbrev pub max_members : ℕ
max_members = 100000

unfoldable pub to_ckpt_id : StateId → Result ℕ
to_ckpt_id state_id = do
  check (ltb state_id.id max_members)
  ok (state_id.t * max_members + state_id.id)

unfoldable pub to_state_id : ℕ → StateId
to_state_id ckpt_id = record { t = ckpt_id / max_members; id = ckpt_id % max_members }

-- `has_local_dir` is the test of the storage controller with `stat`, and `store` is what the app cores
-- do. An operation that throws an `IoException` fails.
pub record IoController : Type 1 where
  pub State : Type 0
  pub is_local : State → StateId → Bool
  pub has_local_dir : State → StateId → Bool
  pub store : State → StateId → Result State
  pub remove : State → StateId → Level → Result State
  pub stage : State → StateId → Level → Level → Result State
  pub update_metadata : State → StateId → Level → Result State

abbrev pub same_state : StateId → StateId → Bool
same_state x y = x.t == y.t && x.id == y.id

-- What the calls change of what is local, when they succeed: `remove` takes a state away; a state is
-- brought by `store`, `stage` to L1 and `update_metadata`, if it is, and no other state changes by them.
pub record IsLawful (I : IoController) : Type 0 where
  pub is_local-remove :
      (s s' : I.State) (x y : StateId)
      → I.remove s x io_storage_l1 ≡ ok s'
      → I.is_local s' y ≡ (if same_state x y then false else I.is_local s y)
  pub is_local-remove_shared :
      (s s' : I.State) (x y : StateId)
      → I.remove s x io_storage_l2 ≡ ok s'
      → I.is_local s' y ≡ I.is_local s y
  pub is_local-store :
      (s s' : I.State) (x y : StateId)
      → I.store s x ≡ ok s'
      → same_state x y ≡ false
      → I.is_local s' y ≡ I.is_local s y
  pub is_local-stage :
      (s s' : I.State) (x y : StateId)
      → I.stage s x io_storage_l2 io_storage_l1 ≡ ok s'
      → same_state x y ≡ false
      → I.is_local s' y ≡ I.is_local s y
  pub is_local-stage_shared :
      (s s' : I.State) (x y : StateId)
      → I.stage s x io_storage_l1 io_storage_l2 ≡ ok s'
      → I.is_local s' y ≡ I.is_local s y
  pub is_local-update_metadata :
      (s s' : I.State) (x y : StateId)
      → I.update_metadata s x io_storage_l1 ≡ ok s'
      → same_state x y ≡ false
      → I.is_local s' y ≡ I.is_local s y

div_mod : (t i : ℕ) → i < 100000 → ((t * 100000 + i) / 100000 ≡ t) × ((t * 100000 + i) % 100000 ≡ i)
div_mod t i h = (omega arith, omega arith)

-- The id of a checkpoint tells the state it is of.
pub to_state_id-to_ckpt_id : (x : StateId) (k : ℕ) → to_ckpt_id x ≡ ok k → to_state_id k ≡ x
unfolding to_state_id to_ckpt_id
to_state_id-to_ckpt_id x k e =
    let (small, is) = check-inv (ltb x.id max_members) _ e in
    let (q, r) = div_mod x.t x.id (ground (arith, small)) in rw (sym (ok_inj _ k is), q, r) refl
