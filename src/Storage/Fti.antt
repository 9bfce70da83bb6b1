-- ===== src/Storage/Fti.antt =====
-- api/p2p/StorageController/fti_controller.cxx: the controller behind the interface of Storage/Io.antt.
-- What FTI and the file system do is a parameter; a call that does not give FTI_SCES, or is not what an
-- IO_TRY expects, gives none, and the `IoException` ends the process.
pub mod Lawful
use fugaku_particle_filter.Prelude.{
  ℕ, ◌≡◌, ◌≢◌, refl, sym, ap, ap₂, ◌∙◌, Bool, true, false, ◌&&◌, if◌then◌else◌, Option, some,
  Result, ok, err, exit, or_fail, or_fail-inv, ◌>>=◌, >>=-eq-ok, ok_inj, arith, Bool-cases,
  Result-cases, inl, inr, subst,
}
use fugaku_particle_filter.Storage.Io.{
  StateId, Level, io_storage_l1, io_storage_l2, IoController, IsLawful, same_state, to_ckpt_id,
  to_state_id-to_ckpt_id,
}
use fugaku_particle_filter.Storage.Counted.{same_state_self}

pub data FtiLevel : Type 0 where
  fti_l1 fti_l4 : FtiLevel

-- `m_io_level_map`
unfoldable pub io_level_map : Level → FtiLevel
io_level_map io_storage_l1 = fti_l1
io_level_map io_storage_l2 = fti_l4

-- FTI and the files. `stat_is_local` is FTI_Stat with FTI_ST_IS_LOCAL, `remove_tree` is `nftw` over the
-- directory of a checkpoint in the shared storage, of which a failure is only reported. `push_files` and
-- `pull_files` are what `stage_l1l2` and `stage_l2l1` do with files before the metadata are updated;
-- the second tells whether it has read and written all of them.
pub record Fti : Type 1 where
  pub State : Type 0
  pub stat_is_local : State → ℕ → Bool
  pub has_local_dir : State → ℕ → Bool
  pub checkpoint : State → ℕ → FtiLevel → State
  pub fti_remove : State → ℕ → FtiLevel → Option State
  pub update_ckpt_metadata : State → ℕ → FtiLevel → Option State
  pub remove_ckpt_metadata : State → ℕ → FtiLevel → Option State
  pub remove_tree : State → ℕ → State
  pub push_files : State → ℕ → Option State
  pub pull_files : State → ℕ → Option (Bool × State)

-- What FTI documents of its database: a checkpoint that is removed at L1 is not local; a call about one
-- checkpoint leaves the others; metadata at L4 and files of the shared storage are not about what is
-- local.
pub record IsDocumented (F : Fti) : Type 0 where
  pub removed :
      (s s' : F.State) (k : ℕ) → F.fti_remove s k fti_l1 ≡ some s' → F.stat_is_local s' k ≡ false
  pub remove-others :
      (s s' : F.State) (k j : ℕ)
      → F.fti_remove s k fti_l1 ≡ some s'
      → j ≢ k
      → F.stat_is_local s' j ≡ F.stat_is_local s j
  pub checkpoint-others :
      (s : F.State) (k j : ℕ)
      → j ≢ k
      → F.stat_is_local (F.checkpoint s k fti_l1) j ≡ F.stat_is_local s j
  pub update-others :
      (s s' : F.State) (k j : ℕ)
      → F.update_ckpt_metadata s k fti_l1 ≡ some s'
      → j ≢ k
      → F.stat_is_local s' j ≡ F.stat_is_local s j
  pub update-shared :
      (s s' : F.State) (k j : ℕ)
      → F.update_ckpt_metadata s k fti_l4 ≡ some s'
      → F.stat_is_local s' j ≡ F.stat_is_local s j
  pub forget-shared :
      (s s' : F.State) (k j : ℕ)
      → F.remove_ckpt_metadata s k fti_l4 ≡ some s'
      → F.stat_is_local s' j ≡ F.stat_is_local s j
  pub tree-shared :
      (s : F.State) (k j : ℕ) → F.stat_is_local (F.remove_tree s k) j ≡ F.stat_is_local s j
  pub push-shared :
      (s s' : F.State) (k j : ℕ)
      → F.push_files s k ≡ some s'
      → F.stat_is_local s' j ≡ F.stat_is_local s j
  pub pull-others :
      (s s' : F.State) (whole : Bool) (k j : ℕ)
      → F.pull_files s k ≡ some (whole, s')
      → j ≢ k
      → F.stat_is_local s' j ≡ F.stat_is_local s j

-- `master_global` is the entry of `m_dict_bool`.
module _ (F : Fti) (master_global : Bool) where
  -- The assertion on the id fails in the calls of FTI that come after the test in every handler; the
  -- test itself says no.
  unfoldable pub is_local : F.State → StateId → Bool
  is_local s state_id = elim (to_ckpt_id state_id) [
    | ok ckpt_id ↦ F.stat_is_local s ckpt_id
    | err _ ↦ false
  ]

  unfoldable pub has_local_dir : F.State → StateId → Bool
  has_local_dir s state_id = elim (to_ckpt_id state_id) [
    | ok ckpt_id ↦ F.has_local_dir s ckpt_id
    | err _ ↦ false
  ]

  unfoldable pub store : F.State → StateId → Result F.State
  unfolding to_ckpt_id
  store s state_id = to_ckpt_id state_id >>= λ ckpt_id. ok (F.checkpoint s ckpt_id fti_l1)

  unfoldable pub remove : F.State → StateId → Level → Result F.State
  unfolding to_ckpt_id io_level_map
  remove s state_id io_storage_l1 = do
    ckpt_id ← to_ckpt_id state_id
    or_fail exit (F.fti_remove s ckpt_id (io_level_map io_storage_l1))
  remove s state_id io_storage_l2 =
      if master_global
      then (to_ckpt_id state_id >>= λ ckpt_id.
          or_fail exit
            (F.remove_ckpt_metadata (F.remove_tree s ckpt_id) ckpt_id (io_level_map io_storage_l2)))
      else ok s

  unfoldable pub update_metadata : F.State → StateId → Level → Result F.State
  unfolding to_ckpt_id io_level_map
  update_metadata s state_id level = do
    ckpt_id ← to_ckpt_id state_id
    or_fail exit (F.update_ckpt_metadata s ckpt_id (io_level_map level))

  unfoldable pub stage_l1l2 : F.State → StateId → ℕ → Result F.State
  unfolding update_metadata
  stage_l1l2 s state_id ckpt_id = do
    s' ← or_fail exit (F.push_files s ckpt_id)
    if master_global then update_metadata s' state_id io_storage_l2 else ok s'

  -- A file that cannot be read or written ends the function early, without an exception.
  unfoldable pub stage_l2l1 : F.State → StateId → ℕ → Result F.State
  unfolding update_metadata
  stage_l2l1 s state_id ckpt_id = do
    (whole, s') ← or_fail exit (F.pull_files s ckpt_id)
    if whole && master_global then update_metadata s' state_id io_storage_l1 else ok s'

  -- Only the level that a state comes from decides.
  unfoldable pub stage : F.State → StateId → Level → Level → Result F.State
  unfolding stage_l1l2 stage_l2l1 to_ckpt_id
  stage s state_id from to = do
    ckpt_id ← to_ckpt_id state_id
    elim from [
      | io_storage_l1 ↦ stage_l1l2 s state_id ckpt_id
      | io_storage_l2 ↦ stage_l2l1 s state_id ckpt_id
    ]

  abbrev pub fti_controller : IoController
  fti_controller = record {
    State = F.State;
    is_local = is_local;
    has_local_dir = has_local_dir;
    store = store;
    remove = remove;
    stage = stage;
    update_metadata = update_metadata;
  }
