-- ===== src/Containers/Sets.antt =====
-- The laws of `std::set<int>` as the server uses it.
use fugaku_particle_filter.Prelude.{
  ℕ, ◌≤◌, ◌<◌, ◌≡◌, refl, List, [], ◌∷◌, arith, ◌==◌, if◌then◌else◌,
}
use fugaku_particle_filter.Containers.{set_insert, set_erase, set_count}

abbrev pub AllAbove : ℕ → List ℕ → Type 0
AllAbove x [] = Unit {0}
AllAbove x (y ∷ ys) = (x < y) × AllAbove x ys

abbrev pub Ascending : List ℕ → Type 0
Ascending [] = Unit {0}
Ascending (x ∷ xs) = AllAbove x xs × Ascending xs

pub AllAbove-mono : (x y : ℕ) (zs : List ℕ) → x ≤ y → AllAbove y zs → AllAbove x zs
AllAbove-mono x y [] h a = tt
AllAbove-mono x y (z ∷ zs) h a = (omega arith, AllAbove-mono x y zs h a.1)

pub set_count-AllAbove : (x : ℕ) (ys : List ℕ) → AllAbove x ys → set_count x ys ≡ 0
unfolding set_count
set_count-AllAbove x [] a = refl
set_count-AllAbove x (y ∷ ys) a = ground (arith, set_count-AllAbove x ys a.1)

pub set_count-set_insert :
    (i x : ℕ) (ys : List ℕ)
    → Ascending ys
    → set_count i (set_insert x ys) ≡ (if i == x then 1 else set_count i ys)
unfolding set_count set_insert
set_count-set_insert i x [] a = ground arith
set_count-set_insert i x (y ∷ ys) a = ground (
  arith,
  set_count-set_insert i x ys a.1,
  set_count-AllAbove y ys a.0,
  set_count-AllAbove x ys,
  AllAbove-mono x y ys,
)

AllAbove-set_insert : (x y : ℕ) (zs : List ℕ) → x < y → AllAbove x zs → AllAbove x (set_insert y zs)
unfolding set_insert
AllAbove-set_insert x y [] h a = (h, tt)
AllAbove-set_insert x y (z ∷ zs) h a = ground (arith, AllAbove-set_insert x y zs h a.1)

pub set_insert-Ascending : (x : ℕ) (ys : List ℕ) → Ascending ys → Ascending (set_insert x ys)
unfolding set_insert
set_insert-Ascending x [] a = (tt, tt)
set_insert-Ascending x (y ∷ ys) a =
    ground (arith, set_insert-Ascending x ys a.1, AllAbove-set_insert y x ys, AllAbove-mono x y ys)

pub set_count-set_erase :
    (i x : ℕ) (ys : List ℕ)
    → Ascending ys
    → set_count i (set_erase x ys) ≡ (if i == x then 0 else set_count i ys)
unfolding set_count set_erase
set_count-set_erase i x [] a = ground arith
set_count-set_erase i x (y ∷ ys) a =
    ground (arith, set_count-set_erase i x ys a.1, set_count-AllAbove y ys a.0)

AllAbove-set_erase : (x y : ℕ) (zs : List ℕ) → AllAbove x zs → AllAbove x (set_erase y zs)
unfolding set_erase
AllAbove-set_erase x y [] a = tt
AllAbove-set_erase x y (z ∷ zs) a = ground (arith, AllAbove-set_erase x y zs a.1)

pub set_erase-Ascending : (x : ℕ) (ys : List ℕ) → Ascending ys → Ascending (set_erase x ys)
unfolding set_erase
set_erase-Ascending x [] a = tt
set_erase-Ascending x (y ∷ ys) a =
    ground (arith, set_erase-Ascending x ys a.1, AllAbove-set_erase y x ys a.0)

pub set_count-le_one : (x : ℕ) (ys : List ℕ) → Ascending ys → set_count x ys ≤ 1
unfolding set_count
set_count-le_one x [] a = omega arith
set_count-le_one x (y ∷ ys) a =
    ground (arith, set_count-le_one x ys a.1, set_count-AllAbove y ys a.0)
