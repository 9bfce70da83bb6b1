-- ===== src/Containers.antt =====
-- The containers of the C++ standard library that server/server.cxx and server/Field.h use:
-- `std::set` and `std::map` as lists in the order of their keys, and slices of a `std::vector`.
pub mod Sets
use fugaku_particle_filter.Prelude.{
  ℕ, suc, zero, ◌+◌, ◌≤◌, ◌≡◌, List, [], ◌∷◌, ◌++◌, Option, none, some, Bool, true, false, ltb, leb,
  ◌==◌, if◌then◌else◌, take, drop, length,
}

-- `std::set<int>`: `insert`, `erase` and `count`.
unfoldable pub set_insert : ℕ → List ℕ → List ℕ
set_insert x [] = x ∷ []
set_insert x (y ∷ ys) =
    if x == y then y ∷ ys else if ltb x y then x ∷ (y ∷ ys) else y ∷ set_insert x ys

unfoldable pub set_erase : ℕ → List ℕ → List ℕ
set_erase x [] = []
set_erase x (y ∷ ys) = if x == y then ys else y ∷ set_erase x ys

unfoldable pub set_count : ℕ → List ℕ → ℕ
set_count x [] = 0
set_count x (y ∷ ys) = (if x == y then 1 else 0) + set_count x ys

-- `std::map<int, V>`: `find`, `emplace` (which keeps an entry that is there), assignment to an entry
-- and `erase`.
module _ {ℓ} {V : Type ℓ} where
  unfoldable pub map_find : ℕ → List (ℕ × V) → Option V
  map_find k [] = none
  map_find k ((j, v) ∷ m) = if k == j then some v else map_find k m

  unfoldable pub map_emplace : ℕ → V → List (ℕ × V) → List (ℕ × V)
  map_emplace k v [] = (k, v) ∷ []
  map_emplace k v ((j, w) ∷ m) =
      if k == j
      then (j, w) ∷ m
      else if ltb k j
      then (k, v) ∷ ((j, w) ∷ m)
      else (j, w) ∷ map_emplace k v m

  unfoldable pub map_assign : ℕ → V → List (ℕ × V) → List (ℕ × V)
  map_assign k v [] = []
  map_assign k v ((j, w) ∷ m) = if k == j then (j, v) ∷ m else (j, w) ∷ map_assign k v m

  unfoldable pub map_erase : ℕ → List (ℕ × V) → List (ℕ × V)
  map_erase k [] = []
  map_erase k ((j, w) ∷ m) = if k == j then m else (j, w) ∷ map_erase k m

module _ {ℓ} {A : Type ℓ} where
  -- The `n` values from index `o` on; `none` where they are not all inside the vector.
  unfoldable pub slice : ℕ → ℕ → List A → Option (List A)
  slice o n xs = if leb (o + n) (length xs) then some (take n (drop o xs)) else none

  -- `std::copy` of `vs` over `xs` from index `o` on. The caller has asserted that they fit.
  unfoldable pub overwrite : ℕ → List A → List A → List A
  overwrite o vs xs = take o xs ++ (vs ++ drop (o + length vs) xs)

  -- `std::vector::resize`: cut off, or filled up by `v`.
  unfoldable pub resize : ℕ → A → List A → List A
  resize zero v xs = []
  resize (suc n) v [] = v ∷ resize n v []
  resize (suc n) v (x ∷ xs) = x ∷ resize n v xs
