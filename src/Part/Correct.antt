-- ===== src/Part/Correct.antt =====
-- `calculate_n_to_m` of common/Part.cxx as a whole: which bytes the parts join, and how many bytes
-- each server rank holds by them.
use fugaku_particle_filter.Prelude.{
  ℕ, zero, suc, ◌+◌, ◌-◌, ◌*◌, ◌<◌, ◌≡◌, refl, sym, ap, ap₂, ◌∙◌, List, [], ◌∷◌, ◌++◌, some,
  some_inj, arith, ◌==◌, if◌then◌else◌, ltb, length, get_elem?, get_or,
}
use mathlib.Core.Path.{◌≡⟨◌⟩◌, ◌∎}
use fugaku_particle_filter.Part.{
  Part, sum_vec, calculate_local_vect_sizes_server, calculate_n_to_m, cut_bytes, first_cut,
  parts_of,
}
use fugaku_particle_filter.Part.Positions.{
  Link, Position, run, links, pair_up, expand, expand_all, positions, sum, AllIn, length-positions,
}
use fugaku_particle_filter.Part.NToM.{cut_bytes-positions}
use fugaku_particle_filter.Part.Sizes.{
  IsSplittable, sum_vec-eq-sum, sum-calculate_local_vect_sizes_server,
  calculate_local_vect_sizes_server-AllIn,
}

-- The parts that are cut are those of Part/Positions.antt.
abbrev pub IsCutting : ℕ → ℕ → List ℕ → List Part → Type 0
IsCutting m w xs parts =
    (calculate_n_to_m m xs w ≡ some parts)
    × (expand_all parts
        ≡ pair_up (positions 0 xs) (positions 0 (calculate_local_vect_sizes_server m (sum xs) w)))

elements_pos : (g w : ℕ) → 0 < g → 0 < w → (n : ℕ) × (g * w ≡ suc n)
elements_pos zero w h k = elim h [ ]
elements_pos (suc g) zero h k = elim k [ ]
elements_pos (suc g) (suc w) h k = (suc g * suc w - 1, omega arith)

calculate_n_to_m-suc :
    (m w : ℕ) (xs : List ℕ) (n : ℕ)
    → sum_vec xs ≡ suc n
    → calculate_n_to_m m xs w
      ≡ parts_of (cut_bytes xs (calculate_local_vect_sizes_server m (suc n) w) (suc n) first_cut)
unfolding calculate_n_to_m
calculate_n_to_m-suc m w xs n e = rw (e, calculate_n_to_m) (ground arith)

-- For a field of `g` elements of `w` bytes, held in positive sizes by the runner ranks, and split on
-- `m` server ranks with `m ≤ g`: the loop reads no vector out of range, and read in order its parts
-- join the n-th byte of the runner side to the n-th byte of the server side, for every byte.
pub calculate_n_to_m_lem :
    (m g w : ℕ) (xs : List ℕ)
    → IsSplittable m g w
    → AllIn xs
    → sum xs ≡ g * w
    → (parts : List Part) × IsCutting m w xs parts
calculate_n_to_m_lem m g w xs v all e =
    let (n, ne) = elements_pos g w (omega (arith, v.enough, v.ranks)) v.width in
    let total : sum_vec xs ≡ suc n = sum_vec-eq-sum xs (omega (arith, v.addressed, e)) ∙ e ∙ ne in
    let (parts, done, joined) =
      cut_bytes-positions xs (calculate_local_vect_sizes_server m (suc n) w) n all
        (rw ne at (calculate_local_vect_sizes_server-AllIn m g w v)) (e ∙ ne)
        (rw ne at (sum-calculate_local_vect_sizes_server m g w v)) in
    (
      parts,
      (
        calculate_n_to_m-suc m w xs n total ∙ done,
        joined
            ∙ ap
                (λ k.
                  pair_up (positions 0 xs) (positions 0 (calculate_local_vect_sizes_server m k w)))
                (sym (e ∙ ne)),
      ),
    )

-- The bytes that the parts give to server rank `s`.
abbrev pub received : ℕ → List Part → ℕ
received s [] = 0
received s (p ∷ ps) = (if p.rank_server == s then p.send_count else 0) + received s ps

abbrev count_links : ℕ → List Link → ℕ
count_links s [] = 0
count_links s ((p, (r, o)) ∷ l) = (if r == s then 1 else 0) + count_links s l

abbrev count_rank : ℕ → List Position → ℕ
count_rank s [] = 0
count_rank s ((r, o) ∷ l) = (if r == s then 1 else 0) + count_rank s l

count_links-append :
    (s : ℕ) (l k : List Link) → count_links s (l ++ k) ≡ count_links s l + count_links s k
count_links-append s [] k = omega arith
count_links-append s ((p, (r, o)) ∷ l) k = omega (arith, count_links-append s l k)

count_rank-append :
    (s : ℕ) (l k : List Position) → count_rank s (l ++ k) ≡ count_rank s l + count_rank s k
count_rank-append s [] k = omega arith
count_rank-append s ((r, o) ∷ l) k = omega (arith, count_rank-append s l k)

count_links-links :
    (s rr o rs p n : ℕ) → count_links s (links rr o rs p n) ≡ (if rs == s then n else 0)
count_links-links s rr o rs p zero = ground arith
count_links-links s rr o rs p (suc n) = ground (arith, count_links-links s rr (o + 1) rs (p + 1) n)

count_links-expand_all : (s : ℕ) (ps : List Part) → count_links s (expand_all ps) ≡ received s ps
count_links-expand_all s [] = refl
count_links-expand_all s (p ∷ ps) =
    count_links-append s (expand p) (expand_all ps)
    ∙ ap₂ ◌+◌
        (count_links-links s p.rank_runner p.local_offset_runner p.rank_server p.local_offset_server
          p.send_count)
        (count_links-expand_all s ps)

count_links-pair_up :
    (s : ℕ) (l k : List Position)
    → length l ≡ length k
    → count_links s (pair_up l k) ≡ count_rank s k
count_links-pair_up s [] [] e = refl
count_links-pair_up s [] (y ∷ k) e = absurd (omega arith)
count_links-pair_up s (x ∷ l) [] e = absurd (omega arith)
count_links-pair_up s (x ∷ l) ((r, o) ∷ k) e =
    omega (arith, count_links-pair_up s l k (omega arith))

count_rank-run : (s r o n : ℕ) → count_rank s (run r o n) ≡ (if r == s then n else 0)
count_rank-run s r o zero = ground arith
count_rank-run s r o (suc n) = ground (arith, count_rank-run s r (o + 1) n)

get_or-cons_pos : (y : ℕ) (ys : List ℕ) (k : ℕ) → 0 < k → get_or (y ∷ ys) k 0 ≡ get_or ys (k - 1) 0
get_or-cons_pos y ys zero h = elim h [ ]
get_or-cons_pos y ys (suc k) h = ap (λ j. get_or ys j 0) (omega arith)

sub-add_one : (s r : ℕ) → s - r - 1 ≡ s - (r + 1)
sub-add_one s r = omega arith

get_or_zero : (y : ℕ) (ys : List ℕ) (k : ℕ) → k ≡ 0 → get_or (y ∷ ys) k 0 ≡ y
get_or_zero y ys k e = rw e refl

count_rank-positions :
    (s r : ℕ) (ys : List ℕ)
    → count_rank s (positions r ys) ≡ (if ltb s r then 0 else get_or ys (s - r) 0)
count_rank-positions s r [] = ground arith
count_rank-positions s r (y ∷ ys) = ground (
  arith,
  count_rank-append s (run r 0 y) (positions (r + 1) ys),
  count_rank-run s r 0 y,
  count_rank-positions s (r + 1) ys,
  get_or-cons_pos y ys (s - r),
  get_or_zero y ys (s - r),
  sub-add_one s r,
)

get_or-get_elem? : (ys : List ℕ) (k y : ℕ) → get_elem? ys k ≡ some y → get_or ys k 0 ≡ y
get_or-get_elem? [] k y h = cc
get_or-get_elem? (x ∷ ys) zero y h = ground arith
get_or-get_elem? (x ∷ ys) (suc k) y h = get_or-get_elem? ys k y h

sub_zero : (s : ℕ) → s - 0 ≡ s
sub_zero s = omega arith

-- For a field of `g` elements of `w` bytes, held in positive sizes by the runner ranks, and split
-- on `m` server ranks with `m ≤ g`: the parts give every server rank exactly the bytes that
-- `calculate_local_vect_sizes_server` sets aside for it.
pub received-calculate_n_to_m :
    (m g w s size : ℕ) (xs : List ℕ) (parts : List Part)
    → IsSplittable m g w
    → AllIn xs
    → sum xs ≡ g * w
    → calculate_n_to_m m xs w ≡ some parts
    → get_elem? (calculate_local_vect_sizes_server m (sum xs) w) s ≡ some size
    → received s parts ≡ size
received-calculate_n_to_m m g w s size xs parts v all e done at =
    let ys = calculate_local_vect_sizes_server m (sum xs) w in
    let cut : (ps : List Part) × IsCutting m w xs ps = calculate_n_to_m_lem m g w xs v all e in
    let same : cut.0 ≡ parts = some_inj (cut.0) parts (sym (cut.1.0) ∙ done) in
    received s parts
    ≡⟨ ap (received s) (sym same) ⟩ received s (cut.0)
    ≡⟨ sym (count_links-expand_all s (cut.0)) ⟩ count_links s (expand_all (cut.0))
    ≡⟨ ap (count_links s) (cut.1.1) ⟩ count_links s (pair_up (positions 0 xs) (positions 0 ys))
    ≡⟨ count_links-pair_up s (positions 0 xs) (positions 0 ys) (
        omega (
          arith,
          length-positions 0 xs,
          length-positions 0 ys,
          e,
          rw (← e) at (sum-calculate_local_vect_sizes_server m g w v),
        )) ⟩
      count_rank s (positions 0 ys)
    ≡⟨ count_rank-positions s 0 ys ⟩ (if ltb s 0 then 0 else get_or ys (s - 0) 0)
    ≡⟨ ground (arith, get_or-get_elem? ys s size at, sub_zero s) ⟩ size ∎
