-- ===== src/Part/Fits.antt =====
-- common/Part.cxx: the parts and the vectors of the ranks that they join.
use fugaku_particle_filter.Prelude.{
  ℕ, zero, suc, ◌+◌, ◌*◌, ◌≤◌, ◌<◌, ◌≡◌, sym, ap, List, [], ◌∷◌, ◌++◌, some, some_inj, arith,
  get_or, ◌∙◌, subst,
}
use fugaku_particle_filter.Part.{Part, calculate_n_to_m, calculate_local_vect_sizes_server}
use fugaku_particle_filter.Part.Positions.{
  Link, Position, run, links, pair_up, expand, expand_all, positions, sum, AllIn,
}
use fugaku_particle_filter.Part.Sizes.{IsSplittable}
use fugaku_particle_filter.Part.Correct.{IsCutting, calculate_n_to_m_lem}

abbrev AllAt : (ℕ → ℕ) → List Position → Type 0
AllAt f [] = Unit {0}
AllAt f ((r, o) ∷ l) = (o < f r) × AllAt f l

abbrev AllBoth : (ℕ → ℕ) → (ℕ → ℕ) → List Link → Type 0
AllBoth f g [] = Unit {0}
AllBoth f g (((r, o), (s, j)) ∷ l) = (o < f r) × (j < g s) × AllBoth f g l

-- The bytes of every part are inside the vectors of its two ranks, of which `f` and `g` say the sizes.
abbrev pub AllFit : (ℕ → ℕ) → (ℕ → ℕ) → List Part → Type 0
AllFit f g [] = Unit {0}
AllFit f g (p ∷ ps) =
    (0 < p.send_count
      → (p.local_offset_runner + p.send_count ≤ f p.rank_runner)
        × (p.local_offset_server + p.send_count ≤ g p.rank_server))
    × AllFit f g ps

run-AllAt : (f : ℕ → ℕ) (r o n : ℕ) → o + n ≤ f r → AllAt f (run r o n)
run-AllAt f r o zero h = tt
run-AllAt f r o (suc n) h = (omega arith, run-AllAt f r (o + 1) n (omega arith))

append-AllAt : (f : ℕ → ℕ) (l k : List Position) → AllAt f l → AllAt f k → AllAt f (l ++ k)
append-AllAt f [] k a b = b
append-AllAt f ((r, o) ∷ l) k a b = (a.0, append-AllAt f l k a.1 b)

positions-AllAt :
    (f : ℕ → ℕ) (r : ℕ) (ys : List ℕ)
    → ((k : ℕ) → get_or ys k 0 ≡ f (r + k))
    → AllAt f (positions r ys)
positions-AllAt f r [] h = tt
positions-AllAt f r (y ∷ ys) h =
    let first : y ≡ f r = h 0 ∙ ap f (omega arith) in
    append-AllAt f (run r 0 y) (positions (r + 1) ys) (run-AllAt f r 0 y (omega (arith, first)))
      (positions-AllAt f (r + 1) ys (λ k. h (suc k) ∙ ap f (omega arith)))

pair_up-AllBoth :
    (f g : ℕ → ℕ) (l k : List Position) → AllAt f l → AllAt g k → AllBoth f g (pair_up l k)
pair_up-AllBoth f g [] k a b = tt
pair_up-AllBoth f g (x ∷ l) [] a b = tt
pair_up-AllBoth f g ((r, o) ∷ l) ((s, j) ∷ k) a b = (a.0, b.0, pair_up-AllBoth f g l k a.1 b.1)

AllBoth-append :
    (f g : ℕ → ℕ) (l k : List Link) → AllBoth f g (l ++ k) → AllBoth f g l × AllBoth f g k
AllBoth-append f g [] k a = (tt, a)
AllBoth-append f g (((r, o), (s, j)) ∷ l) k a =
    let (b, c) = AllBoth-append f g l k a.2 in ((a.0, a.1, b), c)

AllBoth-links :
    (f g : ℕ → ℕ) (r o s j n : ℕ)
    → AllBoth f g (links r o s j n)
    → 0 < n
    → (o + n ≤ f r) × (j + n ≤ g s)
AllBoth-links f g r o s j zero a h = elim h [ ]
AllBoth-links f g r o s j (suc zero) a h = (omega (arith, a.0), omega (arith, a.1))
AllBoth-links f g r o s j (suc (suc n)) a h =
    let (b, c) = AllBoth-links f g r (o + 1) s (j + 1) (suc n) a.2 (omega arith) in
    (omega (arith, b), omega (arith, c))

AllBoth-AllFit : (f g : ℕ → ℕ) (ps : List Part) → AllBoth f g (expand_all ps) → AllFit f g ps
AllBoth-AllFit f g [] a = tt
AllBoth-AllFit f g (p ∷ ps) a =
    let (b, c) = AllBoth-append f g (expand p) (expand_all ps) a in
    (
      λ h.
          AllBoth-links f g p.rank_runner p.local_offset_runner p.rank_server p.local_offset_server
            p.send_count b h,
      AllBoth-AllFit f g ps c,
    )

-- For a field of `g` elements of `w` bytes, held in positive sizes by the runner ranks, and split on
-- `m` server ranks with `m ≤ g`: every part that is not empty ends inside the vector of its runner
-- rank and inside the vector that `calculate_local_vect_sizes_server` sets aside on its server rank.
pub calculate_n_to_m-AllFit :
    (m g w : ℕ) (xs : List ℕ) (parts : List Part)
    → IsSplittable m g w
    → AllIn xs
    → sum xs ≡ g * w
    → calculate_n_to_m m xs w ≡ some parts
    → AllFit
        (λ r. get_or xs r 0)
        (λ s. get_or (calculate_local_vect_sizes_server m (sum xs) w) s 0)
        parts
calculate_n_to_m-AllFit m g w xs parts v all e done =
    let f = λ (r : ℕ). get_or xs r 0 in
    let ys = calculate_local_vect_sizes_server m (sum xs) w in
    let h = λ (s : ℕ). get_or ys s 0 in
    let cut : (ps : List Part) × IsCutting m w xs ps = calculate_n_to_m_lem m g w xs v all e in
    let same : cut.0 ≡ parts = some_inj (cut.0) parts (sym (cut.1.0) ∙ done) in
    subst (AllFit f h) same (
      AllBoth-AllFit f h (cut.0) (
        subst (AllBoth f h) (sym (cut.1.1)) (
          pair_up-AllBoth f h (positions 0 xs) (positions 0 ys)
            (positions-AllAt f 0 xs (λ k. ap (λ i. get_or xs i 0) (omega arith)))
            (positions-AllAt h 0 ys (λ k. ap (λ i. get_or ys i 0) (omega arith))))))
