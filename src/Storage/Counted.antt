-- ===== src/Storage/Counted.antt =====
-- api/p2p/StorageController/storage_controller.cxx: `m_cached_states` as a set of checkpoint ids, and how
-- many of them pass a test.
use fugaku_particle_filter.Prelude.{
  ℕ, ◌+◌, ◌*◌, ◌/◌, ◌%◌, ◌<◌, ◌≡◌, ◌≢◌, refl, ap, ap₂, List, [], ◌∷◌, Bool, true, false, ◌==◌, ltb,
  arith, Bool-cases, inl, inr, ok, ok_inj, check-inv,
}
use fugaku_particle_filter.Containers.{map_emplace, map_erase, set_insert, set_erase, set_count}
use fugaku_particle_filter.Containers.Sets.{Ascending, AllAbove, AllAbove-mono, set_count-AllAbove}
use fugaku_particle_filter.Storage.Io.{StateId, to_ckpt_id, to_state_id, same_state, max_members}

abbrev pub keys : List (ℕ × StateId) → List ℕ
keys [] = []
keys ((k, x) ∷ m) = k ∷ keys m

pub keys-map_emplace :
    (k : ℕ) (x : StateId) (m : List (ℕ × StateId))
    → keys (map_emplace k x m) ≡ set_insert k (keys m)
unfolding map_emplace set_insert
keys-map_emplace k x [] = refl
keys-map_emplace k x ((j, y) ∷ m) = ground (arith, keys-map_emplace k x m)

pub keys-map_erase : (k : ℕ) (m : List (ℕ × StateId)) → keys (map_erase k m) ≡ set_erase k (keys m)
unfolding map_erase set_erase
keys-map_erase k [] = refl
keys-map_erase k ((j, y) ∷ m) = ground (arith, keys-map_erase k m)

abbrev pub one_if : Bool → ℕ
one_if true = 1
one_if false = 0

abbrev pub count : (ℕ → Bool) → List ℕ → ℕ
count g [] = 0
count g (k ∷ ks) = one_if (g k) + count g ks

pub count-set_insert_new :
    (g : ℕ → Bool) (k : ℕ) (ks : List ℕ)
    → set_count k ks ≡ 0
    → count g (set_insert k ks) ≡ one_if (g k) + count g ks
unfolding set_insert set_count
count-set_insert_new g k [] e = refl
count-set_insert_new g k (j ∷ ks) e = ground (arith, e, count-set_insert_new g k ks)

above : (k j : ℕ) (ks : List ℕ) → AllAbove j ks → k < j → set_count k ks ≡ 0
above k j ks a h = set_count-AllAbove k ks (AllAbove-mono k j ks (omega arith) a)

pub count-set_insert_there :
    (g : ℕ → Bool) (k : ℕ) (ks : List ℕ)
    → Ascending ks
    → 0 < set_count k ks
    → count g (set_insert k ks) ≡ count g ks
unfolding set_insert set_count
count-set_insert_there g k [] a e = elim e [ ]
count-set_insert_there g k (j ∷ ks) a e =
    ground (arith, e, count-set_insert_there g k ks a.1, above k j ks a.0)

pub count-set_erase :
    (g : ℕ → Bool) (k : ℕ) (ks : List ℕ)
    → 0 < set_count k ks
    → one_if (g k) + count g (set_erase k ks) ≡ count g ks
unfolding set_erase set_count
count-set_erase g k [] e = elim e [ ]
count-set_erase g k (j ∷ ks) e = elim (Bool-cases (k == j)) [
  | inl t ↦ let same : k ≡ j = ground (arith, t) in rw t (ap (λ i. one_if (g i) + count g ks) same)
  | inr f ↦
      let rest = count-set_erase g k ks (omega (arith, rw f at e)) in rw f (omega (arith, rest))
]

-- The test changes at one id, which is not in the set or is.
pub count-absent :
    (g h : ℕ → Bool) (k : ℕ) (ks : List ℕ)
    → ((j : ℕ) → j ≢ k → g j ≡ h j)
    → set_count k ks ≡ 0
    → count g ks ≡ count h ks
unfolding set_count
count-absent g h k [] same e = refl
count-absent g h k (j ∷ ks) same e =
    let ne : j ≢ k = λ p. differ p in
    let later = count-absent g h k ks same (ground (arith, e)) in
    ap₂ (λ a b. one_if a + b) (same j ne) later
  where
    differ : j ≡ k → ⊥
    differ p = ground (arith, e, p)

pub count-present :
    (g h : ℕ → Bool) (k : ℕ) (ks : List ℕ)
    → Ascending ks
    → ((j : ℕ) → j ≢ k → g j ≡ h j)
    → 0 < set_count k ks
    → count g ks + one_if (h k) ≡ count h ks + one_if (g k)
unfolding set_count
count-present g h k [] a same e = elim e [ ]
count-present g h k (j ∷ ks) a same e = elim (Bool-cases (k == j)) [
  | inl t ↦
      let is : k ≡ j = ground (arith, t) in
      let none_later : set_count k ks ≡ 0 = rw is (set_count-AllAbove j ks a.0) in
      let later = count-absent g h k ks same none_later in rw is (omega (arith, later))
  | inr f ↦
      let later = count-present g h k ks a.1 same (omega (arith, rw f at e)) in
      let here : g j ≡ h j = same j (λ p. not_same f p) in rw here (omega (arith, later))
]
  where
    not_same : (k == j) ≡ false → j ≡ k → ⊥
    not_same f p = ground (arith, f, p)

-- Another state than the one of a checkpoint has another id.
pub same_state_other :
    (x : StateId) (k j : ℕ) → to_ckpt_id x ≡ ok k → j ≢ k → same_state x (to_state_id j) ≡ false
unfolding to_ckpt_id to_state_id
same_state_other x k j e ne =
    let (_, is) = check-inv (ltb x.id max_members) _ e in
    let k_is = ok_inj _ k is in
    let whole : j / 100000 * 100000 + j % 100000 ≡ j = omega arith in
    ground (arith, apart (j / 100000) (j % 100000) x.t x.id whole k_is)
  where
    apart : (q r t i : ℕ) → q * 100000 + r ≡ j → t * 100000 + i ≡ k → t ≡ q → i ≡ r → ⊥
    apart q r t i u v p w = ne (omega (arith, u, v, p, w))

pub same_state_self : (x : StateId) → same_state x x ≡ true
same_state_self x = ground arith
