-- ===== src/Tests/Disk.antt =====
-- A storage for runs of api/p2p/StorageController, in place of FTI and the file systems.
use fugaku_particle_filter.Prelude.{
  ℕ, ◌≡◌, ◌≢◌, refl, sym, ap, ◌∙◌, List, [], ◌∷◌, Bool, true, false, ◌||◌, ◌==◌, if◌then◌else◌,
  Option, some, some_inj, Bool-cases, inl, inr, arith,
}
use fugaku_particle_filter.Storage.Io.{IoController, IsLawful}
use fugaku_particle_filter.Storage.Fti.{Fti, FtiLevel, fti_l1, fti_l4, IsDocumented, fti_controller}
use fugaku_particle_filter.Storage.Fti.Lawful.{fti_controller-IsLawful}

-- The checkpoints whose files are on the node, and those that FTI knows to be.
pub record Disk : Type 0 where
  pub files : List ℕ
  pub known : List ℕ

abbrev pub has : ℕ → List ℕ → Bool
has k [] = false
has k (j ∷ js) = j == k || has k js

abbrev pub without : ℕ → List ℕ → List ℕ
without k [] = []
without k (j ∷ js) = let others = without k js in if j == k then others else j ∷ others

abbrev pub update : Disk → ℕ → FtiLevel → Option Disk
update d k fti_l1 = some (record d { known = k ∷ d.known })
update d k fti_l4 = some d

abbrev pub remove_from : Disk → ℕ → FtiLevel → Option Disk
remove_from d k fti_l1 = some (record { files = without k d.files; known = without k d.known })
remove_from d k fti_l4 = some d

-- The shared storage has all checkpoints.
abbrev pub disk : Fti
disk = record {
  State = Disk;
  stat_is_local = λ d k. has k d.known;
  has_local_dir = λ d k. has k d.files;
  checkpoint = λ d k level. record d { files = k ∷ d.files };
  fti_remove = remove_from;
  update_ckpt_metadata = update;
  remove_ckpt_metadata = λ d k level. some d;
  remove_tree = λ d k. d;
  push_files = λ d k. some d;
  pull_files = λ d k. some (true, record d { files = k ∷ d.files });
}

has-without : (k j : ℕ) (s : List ℕ) → has j (without k s) ≡ (if j == k then false else has j s)
has-without k j [] = ground arith
has-without k j (z ∷ s) = ground (arith, has-without k j s)

other : (k j : ℕ) → j ≢ k → (j == k) ≡ false
other k j ne = elim (Bool-cases (j == k)) [ inl t ↦ absurd (ne (ground (arith, t))) | inr f ↦ f ]

known_of : (d e : Disk) → some d ≡ some e → d.known ≡ e.known
known_of d e p = ap (λ z. z.known) (some_inj d e p)

disk-IsDocumented : IsDocumented disk
disk-IsDocumented = record {
  removed = λ d e k p. ap (has k) (sym (known_of _ e p)) ∙ has-without k k d.known ∙ ground arith;
  remove-others = λ d e k j p ne.
      let f = other k j ne in
      ap (has j) (sym (known_of _ e p)) ∙ has-without k j d.known ∙ ground (arith, f);
  checkpoint-others = λ d k j ne. refl;
  update-others =
      λ d e k j p ne. let f = other k j ne in ap (has j) (sym (known_of _ e p)) ∙ ground (arith, f);
  update-shared = λ d e k j p. ap (has j) (sym (known_of d e p));
  forget-shared = λ d e k j p. ap (has j) (sym (known_of d e p));
  tree-shared = λ d k j. refl;
  push-shared = λ d e k j p. ap (has j) (sym (known_of d e p));
  pull-others = λ d e whole k j p ne. ap (λ z. has j (z.1).known) (sym (some_inj _ (whole, e) p));
}

abbrev pub listed : IoController
listed = fti_controller disk true

pub listed-IsLawful : IsLawful listed
listed-IsLawful = fti_controller-IsLawful disk disk-IsDocumented true
