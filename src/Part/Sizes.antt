-- ===== src/Part/Sizes.antt =====
-- `calculate_local_vect_sizes_server` of common/Part.cxx: how many bytes each server rank holds.
use fugaku_particle_filter.Prelude.{
  ℕ, zero, suc, ◌+◌, ◌-◌, ◌*◌, ◌/◌, ◌%◌, ◌^◌, ◌≤◌, ◌<◌, ◌≡◌, refl, ap, ◌∙◌, List, [], ◌∷◌, arith,
  ltb, if◌then◌else◌, min, some, get_elem?,
}
use native.Mathlib.Numerals.{add-one}
use native.Mathlib.Nat.{add-zero}
use fugaku_particle_filter.Part.{
  size_t_mod, int_mod, size_of_int, div_int, sum_from, sum_vec, local_vect_size_server,
  sizes_server_from, calculate_local_vect_sizes_server,
}
use fugaku_particle_filter.Part.Positions.{sum, AllIn}

sum_from-eq-sum :
    (acc : ℕ) (xs : List ℕ) → acc + sum xs < size_t_mod → sum_from acc xs ≡ acc + sum xs
unfolding sum_from
sum_from-eq-sum acc [] h = omega arith
sum_from-eq-sum acc (x ∷ xs) h =
    let e : (acc + x) % size_t_mod ≡ acc + x = omega arith in
    rw e (omega (arith, sum_from-eq-sum (acc + x) xs (omega arith)))

pub sum_vec-eq-sum : (xs : List ℕ) → sum xs < size_t_mod → sum_vec xs ≡ sum xs
unfolding sum_vec
sum_vec-eq-sum xs h = omega (arith, sum_from-eq-sum 0 xs (omega arith))

-- The elements of server rank `i` of `m`, if there are `g` in all.
abbrev pub fair_share : ℕ → ℕ → ℕ → ℕ
fair_share m g i = if ltb i (g % m) then g / m + 1 else g / m

div_bounds : (g m : ℕ) → 0 < m → (g / m * m + g % m ≡ g) × (g % m < m) × (g / m ≤ g)
div_bounds g m h = grind arith

share-eq : (m g : ℕ) → 0 < m → g < 2 ^ 31 → size_of_int (div_int g m) ≡ g / m
share-eq m g hm hg = ground (arith, div_bounds g m hm)

size_of_int-eq : (g : ℕ) → g < 2 ^ 31 → size_of_int g ≡ g
size_of_int-eq g h = ground arith

rest-eq :
    (m g : ℕ) → 0 < m → g < 2 ^ 31 → (g + size_t_mod - g / m * m % size_t_mod) % size_t_mod ≡ g % m
rest-eq m g hm hg = omega (arith, div_bounds g m hm)

suc-div-le : (m g : ℕ) → 0 < m → 0 < g % m → g / m + 1 ≤ g
suc-div-le m g hm h = grind (arith, div_bounds g m hm)

fair_share-le : (m g i : ℕ) → 0 < m → fair_share m g i ≤ g
fair_share-le m g i hm = ground (arith, div_bounds g m hm, suc-div-le m g hm)

mul_mono : (a b w : ℕ) → a ≤ b → a * w ≤ b * w
mul_mono a b w h = grind arith

share_wraps_not :
    (m g i : ℕ)
    → 0 < m
    → g < 2 ^ 31
    → (if ltb i (g % m) then (g / m + 1) % size_t_mod else g / m) ≡ fair_share m g i
share_wraps_not m g i hm hg = ground (arith, div_bounds g m hm)

fair_share-pos : (m g i : ℕ) → 0 < m → m ≤ g → 1 ≤ fair_share m g i
fair_share-pos m g i hm h = grind (arith, div_bounds g m hm)

pub mul_div : (g w : ℕ) → 0 < w → g * w / w ≡ g
mul_div g w h = grind arith

pub local_vect_size_server-eq :
    (m g w i : ℕ)
    → 0 < m
    → g < 2 ^ 31
    → g * w < size_t_mod
    → local_vect_size_server m g w i ≡ fair_share m g i * w
unfolding local_vect_size_server
local_vect_size_server-eq m g w i hm hg hs =
    rw (share-eq m g hm hg, size_of_int-eq g hg, rest-eq m g hm hg)
      (rw (share_wraps_not m g i hm hg)
        (omega (arith, mul_mono (fair_share m g i) g w (fair_share-le m g i hm))))

-- The elements of the first `n` server ranks of `m`.
abbrev shares : ℕ → ℕ → ℕ → ℕ
shares m g zero = 0
shares m g (suc n) = shares m g n + fair_share m g n

-- Which is `n` equal shares, and one more for each of these ranks that is below the rest.
shares-eq : (m g n : ℕ) → shares m g n ≡ g / m * n + min n (g % m)
shares-eq m g zero = omega arith
shares-eq m g (suc n) = ground (arith, shares-eq m g n)

pub shares-all : (m g : ℕ) → 0 < m → shares m g m ≡ g
shares-all m g h = omega (arith, shares-eq m g m, div_bounds g m h)

shares-suc : (m g i : ℕ) → shares m g (i + 1) ≡ shares m g i + fair_share m g i
shares-suc m g i = rw add-one refl

sum-sizes_server_from :
    (rounds i k m g w : ℕ)
    → 0 < m
    → g < 2 ^ 31
    → g * w < size_t_mod
    → i + rounds ≡ k
    → sum (sizes_server_from rounds i m g w) + shares m g i * w ≡ shares m g k * w
unfolding sizes_server_from
sum-sizes_server_from zero i k m g w hm hg hs e =
    let e' : i ≡ k = omega arith in rw e' (omega arith)
sum-sizes_server_from (suc n) i k m g w hm hg hs e =
    let ih = sum-sizes_server_from n (i + 1) k m g w hm hg hs (omega arith) in
    omega (arith, rw (shares-suc m g i) at ih, local_vect_size_server-eq m g w i hm hg hs)

sizes_server_from-AllIn :
    (rounds i m g w : ℕ)
    → 0 < m
    → 0 < w
    → m ≤ g
    → g < 2 ^ 31
    → g * w < size_t_mod
    → AllIn (sizes_server_from rounds i m g w)
unfolding sizes_server_from
sizes_server_from-AllIn zero i m g w hm hw hmg hg hs = tt
sizes_server_from-AllIn (suc n) i m g w hm hw hmg hg hs =
    let e = local_vect_size_server-eq m g w i hm hg hs in
    (
      omega (arith, e, mul_mono 1 (fair_share m g i) w (fair_share-pos m g i hm hmg)),
      omega (arith, e, mul_mono (fair_share m g i) g w (fair_share-le m g i hm)),
      sizes_server_from-AllIn n (i + 1) m g w hm hw hmg hg hs,
    )

-- `g` elements of `w` bytes each, which an `int` can count, on `m` server ranks.
pub record IsSplittable (m g w : ℕ) : Type 0 where
  pub ranks : 0 < m
  pub width : 0 < w
  pub counted : g < 2 ^ 31
  pub addressed : g * w < size_t_mod
  pub enough : m ≤ g

pub elements-eq : (g w : ℕ) → 0 < w → g < 2 ^ 31 → g * w / w % int_mod ≡ g
elements-eq g w hw hg = omega (arith, mul_div g w hw)

pub sum-calculate_local_vect_sizes_server :
    (m g w : ℕ) → IsSplittable m g w → sum (calculate_local_vect_sizes_server m (g * w) w) ≡ g * w
unfolding calculate_local_vect_sizes_server
sum-calculate_local_vect_sizes_server m g w v = rw (elements-eq g w v.width v.counted) (
    omega (
      arith,
      sum-sizes_server_from m 0 m m g w v.ranks v.counted v.addressed (omega arith),
      ap (λ k. k * w) (shares-all m g v.ranks),
    ))

pub calculate_local_vect_sizes_server-AllIn :
    (m g w : ℕ) → IsSplittable m g w → AllIn (calculate_local_vect_sizes_server m (g * w) w)
unfolding calculate_local_vect_sizes_server
calculate_local_vect_sizes_server-AllIn m g w v =
    rw (elements-eq g w v.width v.counted)
      (sizes_server_from-AllIn m 0 m g w v.ranks v.width v.enough v.counted v.addressed)

sizes_server_from-get :
    (rounds i k m g w : ℕ)
    → k < rounds
    → get_elem? (sizes_server_from rounds i m g w) k ≡ some (local_vect_size_server m g w (i + k))
unfolding sizes_server_from
sizes_server_from-get zero i k m g w h = elim h [ ]
sizes_server_from-get (suc n) i zero m g w h = rw add-zero refl
sizes_server_from-get (suc n) i (suc k) m g w h =
    sizes_server_from-get n (i + 1) k m g w (omega arith)
    ∙ ap (λ j. some (local_vect_size_server m g w j)) (omega arith)

-- For `g` elements of `w` bytes on `m` server ranks, with `m ≤ g` and sizes that an `int` and a
-- `size_t` can hold: the ranks together hold the whole field, and each holds `g / m` elements,
-- those below `g % m` one more.
pub calculate_local_vect_sizes_server_fair :
    (m g w i : ℕ)
    → IsSplittable m g w
    → i < m
    → (sum (calculate_local_vect_sizes_server m (g * w) w) ≡ g * w)
      × (get_elem? (calculate_local_vect_sizes_server m (g * w) w) i
          ≡ some ((if ltb i (g % m) then g / m + 1 else g / m) * w))
unfolding calculate_local_vect_sizes_server
calculate_local_vect_sizes_server_fair m g w i v h = (
  sum-calculate_local_vect_sizes_server m g w v,
  rw (elements-eq g w v.width v.counted) (
      sizes_server_from-get m 0 i m g w h
      ∙ ap some (
          ap (local_vect_size_server m g w) (omega arith)
          ∙ local_vect_size_server-eq m g w i v.ranks v.counted v.addressed)),
)

-- The element count is an `int`: a field with 2^32 elements more is split as if it had not got them.
pub calculate_local_vect_sizes_server_wraps :
    (m g w : ℕ)
    → 0 < w
    → calculate_local_vect_sizes_server m ((g + int_mod) * w) w
      ≡ calculate_local_vect_sizes_server m (g * w) w
unfolding calculate_local_vect_sizes_server
calculate_local_vect_sizes_server_wraps m g w h =
    ap (λ k. sizes_server_from m 0 m k w) (omega (arith, mul_div g w h, mul_div (g + int_mod) w h))
