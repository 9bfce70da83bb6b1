-- ===== src/Part/Order.antt =====
-- common/Part.cxx: the order in which `calculate_n_to_m` makes its parts, and what follows from it for a
-- part that is looked up by its two ranks.
use fugaku_particle_filter.Prelude.{
  ℕ, zero, suc, ◌+◌, ◌≤◌, ◌<◌, ◌≡◌, refl, sym, ap₂, ◌∙◌, ◌⊎◌, inl, inr, List, [], ◌∷◌, ◌++◌, Option,
  none, some, some_inj, Bool, true, false, arith, ◌==◌, if◌then◌else◌, get_elem?, Option-cases,
  subst,
}
use fugaku_particle_filter.Part.{
  Part, Cut, cut_bytes, advance, cross_runner, cross_server, count_byte, calculate_n_to_m, parts_of,
  first_cut, crosses, sum_vec, calculate_local_vect_sizes_server,
}
use fugaku_particle_filter.Field.{find_part}

-- `p` lies before the ranks `r` and `s`: neither of its ranks is greater, and one is less.
abbrev pub Before : ℕ → ℕ → Part → Type 0
Before r s p =
    (p.rank_runner ≤ r) × (p.rank_server ≤ s) × ((p.rank_runner < r) ⊎ (p.rank_server < s))

abbrev pub AllBefore : ℕ → ℕ → List Part → Type 0
AllBefore r s [] = Unit {0}
AllBefore r s (p ∷ ps) = Before r s p × AllBefore r s ps

abbrev pub AllAfter : ℕ → ℕ → List Part → Type 0
AllAfter r s [] = Unit {0}
AllAfter r s (p ∷ ps) =
    ((r ≤ p.rank_runner) × (s ≤ p.rank_server) × ((r < p.rank_runner) ⊎ (s < p.rank_server)))
    × AllAfter r s ps

-- Every part comes before those that follow it.
abbrev pub Ordered : List Part → Type 0
Ordered [] = Unit {0}
Ordered (p ∷ ps) = AllAfter p.rank_runner p.rank_server ps × Ordered ps

AllBefore-mono :
    (r s r' s' : ℕ) (ps : List Part) → r ≤ r' → s ≤ s' → AllBefore r s ps → AllBefore r' s' ps
AllBefore-mono r s r' s' [] h k a = tt
AllBefore-mono r s r' s' (p ∷ ps) h k a =
    ((omega (arith, a), omega (arith, a), grind (arith, a)), AllBefore-mono r s r' s' ps h k a.1)

AllBefore-append :
    (r s : ℕ) (ps qs : List Part) → AllBefore r s ps → AllBefore r s qs → AllBefore r s (ps ++ qs)
AllBefore-append r s [] qs a b = b
AllBefore-append r s (p ∷ ps) qs a b = (a.0, AllBefore-append r s ps qs a.1 b)

AllAfter-append :
    (r s : ℕ) (ps : List Part) (q : Part)
    → AllAfter r s ps
    → AllAfter r s (q ∷ [])
    → AllAfter r s (ps ++ (q ∷ []))
AllAfter-append r s [] q a b = b
AllAfter-append r s (p ∷ ps) q a b = (a.0, AllAfter-append r s ps q a.1 b)

Ordered-append :
    (ps : List Part) (q : Part)
    → Ordered ps
    → AllBefore q.rank_runner q.rank_server ps
    → Ordered (ps ++ (q ∷ []))
Ordered-append [] q o a = (tt, tt)
Ordered-append (p ∷ ps) q o a = (
  AllAfter-append p.rank_runner p.rank_server ps q o.0 ((a.0.0, a.0.1, a.0.2), tt),
  Ordered-append ps q o.1 a.1,
)

-- The parts of the loop so far.
pub record CutOrdered (c : Cut) : Type 0 where
  pub ordered : Ordered c.closed
  pub before : AllBefore c.last.rank_runner c.last.rank_server c.closed

cross_runner-CutOrdered : (c : Cut) → CutOrdered c → CutOrdered (cross_runner c)
unfolding cross_runner
cross_runner-CutOrdered c o = record {
  ordered = Ordered-append c.closed (c.last) o.ordered o.before;
  before =
      AllBefore-append (c.last.rank_runner + 1) (c.last.rank_server) c.closed (c.last ∷ [])
        (AllBefore-mono (c.last.rank_runner) (c.last.rank_server) (c.last.rank_runner + 1)
          (c.last.rank_server) c.closed (omega arith) (omega arith) o.before)
        ((omega arith, omega arith, inl (omega arith)), tt);
}

cross_server-CutOrdered :
    (added_part : Bool) (c : Cut) → CutOrdered c → CutOrdered (cross_server added_part c)
unfolding cross_server
cross_server-CutOrdered true c o = record {
  ordered = o.ordered;
  before =
      AllBefore-mono (c.last.rank_runner) (c.last.rank_server) (c.last.rank_runner)
        (c.last.rank_server + 1) c.closed (omega arith) (omega arith) o.before;
}
cross_server-CutOrdered false c o = record {
  ordered = Ordered-append c.closed (c.last) o.ordered o.before;
  before =
      AllBefore-append (c.last.rank_runner) (c.last.rank_server + 1) c.closed (c.last ∷ [])
        (AllBefore-mono (c.last.rank_runner) (c.last.rank_server) (c.last.rank_runner)
          (c.last.rank_server + 1) c.closed (omega arith) (omega arith) o.before)
        ((omega arith, omega arith, inr (omega arith)), tt);
}

count_byte-CutOrdered : (c : Cut) → CutOrdered c → CutOrdered (count_byte c)
unfolding count_byte
count_byte-CutOrdered c o = record { ordered = o.ordered; before = o.before }

if-CutOrdered :
    (b : Bool) (c d : Cut) → CutOrdered c → CutOrdered d → CutOrdered (if b then c else d)
if-CutOrdered true c d h k = h
if-CutOrdered false c d h k = k

advance-CutOrdered :
    (size_runner size_server : ℕ) (c : Cut)
    → CutOrdered c
    → CutOrdered (advance size_runner size_server c)
unfolding advance
advance-CutOrdered size_runner size_server c o =
    let added = crosses c.index_in_runner size_runner in
    let c' = if added then cross_runner c else c in
    let o' = if-CutOrdered added (cross_runner c) c (cross_runner-CutOrdered c o) o in
    count_byte-CutOrdered _ (
      if-CutOrdered (crosses c'.index_in_server size_server) (cross_server added c') c'
        (cross_server-CutOrdered added c' o') o')

cut_bytes-CutOrdered :
    (xs ys : List ℕ) (n : ℕ) (c d : Cut)
    → CutOrdered c
    → cut_bytes xs ys n c ≡ some d
    → CutOrdered d
unfolding cut_bytes
cut_bytes-CutOrdered xs ys zero c d o e = subst CutOrdered (some_inj c d e) o
cut_bytes-CutOrdered xs ys (suc n) c d o e = elim (Option-cases (get_elem? xs c.last.rank_runner)) [
  | inl ne ↦ let bad : none ≡ some d = rw (ne, cut_bytes) at e in cc
  | inr (sr, er) ↦ elim (Option-cases (get_elem? ys c.last.rank_server)) [
    | inl ne ↦ let bad : none ≡ some d = rw (er, ne, cut_bytes) at e in cc
    | inr (ss, es) ↦
        cut_bytes-CutOrdered xs ys n (advance sr ss c) d (advance-CutOrdered sr ss c o)
          (rw (er, es, cut_bytes) at e)
  ]
]

parts_of-Ordered :
    (o : Option Cut) (parts : List Part)
    → ((d : Cut) → o ≡ some d → CutOrdered d)
    → parts_of o ≡ some parts
    → Ordered parts
parts_of-Ordered none parts h e = cc
parts_of-Ordered (some d) parts h e =
    let o = h d refl in
    subst Ordered (some_inj _ parts e) (Ordered-append d.closed (d.last) o.ordered o.before)

if_some_nil-Ordered :
    (b : Bool) (o : Option (List Part)) (parts : List Part)
    → (o ≡ some parts → Ordered parts)
    → (if b then some [] else o) ≡ some parts
    → Ordered parts
if_some_nil-Ordered true o parts h e = subst Ordered (some_inj [] parts e) tt
if_some_nil-Ordered false o parts h e = h e

-- Each part of `calculate_n_to_m` comes before those that follow it: no rank ever decreases, and one
-- of the two increases, so that no two parts join the same two ranks.
pub calculate_n_to_m-Ordered :
    (m w : ℕ) (xs : List ℕ) (parts : List Part)
    → calculate_n_to_m m xs w ≡ some parts
    → Ordered parts
unfolding calculate_n_to_m
calculate_n_to_m-Ordered m w xs parts e =
    if_some_nil-Ordered (sum_vec xs == 0) _ parts
      (parts_of-Ordered _ parts (λ d.
        cut_bytes-CutOrdered xs (calculate_local_vect_sizes_server m (sum_vec xs) w) (sum_vec xs)
          first_cut d (record { ordered = tt; before = tt })))
      e

AllAfter-get :
    (r s i : ℕ) (ps : List Part) (p : Part)
    → AllAfter r s ps
    → get_elem? ps i ≡ some p
    → (r ≤ p.rank_runner) × (s ≤ p.rank_server) × ((r < p.rank_runner) ⊎ (s < p.rank_server))
AllAfter-get r s i [] p a e = cc
AllAfter-get r s zero (q ∷ ps) p a e =
    subst
      (λ p. (r ≤ p.rank_runner) × (s ≤ p.rank_server) × ((r < p.rank_runner) ⊎ (s < p.rank_server)))
      (some_inj q p e) (a.0)
AllAfter-get r s (suc i) (q ∷ ps) p a e = AllAfter-get r s i ps p a.1 e

-- Each part is the one that is found for its ranks.
find_part-Ordered :
    (ps : List Part) (i : ℕ) (p : Part)
    → Ordered ps
    → get_elem? ps i ≡ some p
    → find_part p.rank_server p.rank_runner ps ≡ some p
unfolding find_part
find_part-Ordered [] i p o e = cc
find_part-Ordered (q ∷ ps) zero p o e = rw (some_inj q p e) (ground arith)
find_part-Ordered (q ∷ ps) (suc i) p o e =
    let after = AllAfter-get q.rank_runner q.rank_server i ps p o.0 e in
    let ih = find_part-Ordered ps i p o.1 e in ground (arith, after, ih)

pub find_part-at :
    (s r : ℕ) (ps : List Part) (i : ℕ) (p : Part)
    → Ordered ps
    → get_elem? ps i ≡ some p
    → p.rank_runner ≡ r
    → p.rank_server ≡ s
    → find_part s r ps ≡ some p
find_part-at s r ps i p o e runner server =
    ap₂ (λ a b. find_part a b ps) (sym server) (sym runner) ∙ find_part-Ordered ps i p o e
