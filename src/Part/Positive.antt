-- ===== src/Part/Positive.antt =====
-- common/Part.cxx: no part that `calculate_n_to_m` makes is empty.
use fugaku_particle_filter.Prelude.{
  ℕ, zero, suc, ◌<◌, ◌≡◌, refl, sym, List, [], ◌∷◌, ◌++◌, Option, none, some, some_inj, Bool, true,
  false, arith, ◌==◌, if◌then◌else◌, get_elem?, Option-cases, Bool-cases, ◌⊎◌, inl, inr, subst,
}
use fugaku_particle_filter.Part.{
  Part, Cut, cut_bytes, advance, cross_runner, cross_server, count_byte, calculate_n_to_m, parts_of,
  first_cut, crosses, sum_vec, calculate_local_vect_sizes_server,
}

abbrev pub AllPositive : List Part → Type 0
AllPositive [] = Unit {0}
AllPositive (p ∷ ps) = (0 < p.send_count) × AllPositive ps

AllPositive-append :
    (ps : List Part) (p : Part) → AllPositive ps → 0 < p.send_count → AllPositive (ps ++ (p ∷ []))
AllPositive-append [] p a h = (h, tt)
AllPositive-append (q ∷ ps) p a h = (a.0, AllPositive-append ps p a.1 h)

-- The last part is empty at the very start only.
record CutPositive (c : Cut) : Type 0 where
  closed_positive : AllPositive c.closed
  start : c.last.send_count ≡ 0 → (c.index_in_runner ≡ 0) × (c.index_in_server ≡ 0)

crosses_zero : (i s : ℕ) → i ≡ 0 → crosses i s ≡ false
crosses_zero i s e = ground arith

positive_cases : (n : ℕ) → (0 < n) ⊎ (n ≡ 0)
positive_cases n = omega arith

-- A border is crossed behind a part that is not empty.
crosses-positive : (n i s : ℕ) → (n ≡ 0 → i ≡ 0) → crosses i s ≡ true → 0 < n
crosses-positive n i s h e = elim (positive_cases n) [
  | inl k ↦ k
  | inr k ↦ let bad : false ≡ true = rw (crosses_zero i s (h k)) at e in cc
]

borders-AllPositive :
    (b d : Bool) (c : Cut)
    → AllPositive c.closed
    → (b ≡ true → 0 < c.last.send_count)
    → (b ≡ false → d ≡ true → 0 < c.last.send_count)
    → let c' = if b then cross_runner c else c in
      AllPositive (if d then cross_server b c' else c').closed
unfolding cross_runner cross_server
borders-AllPositive true true c a h k = AllPositive-append c.closed (c.last) a (h refl)
borders-AllPositive true false c a h k = AllPositive-append c.closed (c.last) a (h refl)
borders-AllPositive false true c a h k = AllPositive-append c.closed (c.last) a (k refl refl)
borders-AllPositive false false c a h k = a

same_server :
    (b : Bool) (c : Cut)
    → b ≡ false
    → (if b then cross_runner c else c).index_in_server ≡ c.index_in_server
same_server true c e = cc
same_server false c e = refl

advance-counts :
    (size_runner size_server : ℕ) (c : Cut)
    → 0 < (advance size_runner size_server c).last.send_count
unfolding advance count_byte
advance-counts sr ss c = omega arith

advance-CutPositive :
    (size_runner size_server : ℕ) (c : Cut)
    → CutPositive c
    → CutPositive (advance size_runner size_server c)
unfolding advance count_byte
advance-CutPositive sr ss c x =
    let b = crosses c.index_in_runner sr in
    let c' = if b then cross_runner c else c in
    record {
      closed_positive =
          borders-AllPositive b (crosses c'.index_in_server ss) c x.closed_positive
            (crosses-positive c.last.send_count c.index_in_runner sr (λ e. (x.start e).0))
            (λ f t.
              crosses-positive c.last.send_count c.index_in_server ss (λ e. (x.start e).1)
                (rw (same_server b c f) at t));
      start = λ e. absurd (omega (arith, e));
    }

cut_bytes-CutPositive :
    (xs ys : List ℕ) (n : ℕ) (c d : Cut)
    → CutPositive c
    → cut_bytes xs ys n c ≡ some d
    → CutPositive d × ((0 < c.last.send_count) ⊎ (0 < n) → 0 < d.last.send_count)
unfolding cut_bytes
cut_bytes-CutPositive xs ys zero c d x e =
    let same = some_inj c d e in (subst CutPositive same x, (λ h. rw (sym same) (left h)))
  where
    left : {k : ℕ} → (0 < k) ⊎ (0 < 0) → 0 < k
    left h = omega (arith, h)
cut_bytes-CutPositive xs ys (suc n) c d x e =
    elim (Option-cases (get_elem? xs c.last.rank_runner)) [
      | inl ne ↦ let bad : none ≡ some d = rw (ne, cut_bytes) at e in cc
      | inr (sr, er) ↦ elim (Option-cases (get_elem? ys c.last.rank_server)) [
        | inl ne ↦ let bad : none ≡ some d = rw (er, ne, cut_bytes) at e in cc
        | inr (ss, es) ↦
            let (y, grown) =
              cut_bytes-CutPositive xs ys n (advance sr ss c) d (advance-CutPositive sr ss c x)
                (rw (er, es, cut_bytes) at e) in
            (y, (λ h. grown (inl (advance-counts sr ss c))))
      ]
    ]

parts_of-AllPositive :
    (o : Option Cut) (parts : List Part)
    → ((d : Cut) → o ≡ some d → CutPositive d × (0 < d.last.send_count))
    → parts_of o ≡ some parts
    → AllPositive parts
parts_of-AllPositive none parts h e = cc
parts_of-AllPositive (some d) parts h e =
    let (x, counts) = h d refl in
    subst AllPositive (some_inj _ parts e)
      (AllPositive-append d.closed (d.last) x.closed_positive counts)

not_zero : (n : ℕ) → (n == 0) ≡ false → 0 < n
not_zero n e = ground (arith, e)

pub calculate_n_to_m-AllPositive :
    (m w : ℕ) (xs : List ℕ) (parts : List Part)
    → calculate_n_to_m m xs w ≡ some parts
    → AllPositive parts
unfolding calculate_n_to_m
calculate_n_to_m-AllPositive m w xs parts e = elim (Bool-cases (sum_vec xs == 0)) [
  | inl t ↦ subst AllPositive (some_inj [] parts (rw (t, calculate_n_to_m) at e)) tt
  | inr f ↦
      parts_of-AllPositive _ parts
        (λ d made.
          let (x, counts) =
            cut_bytes-CutPositive xs (calculate_local_vect_sizes_server m (sum_vec xs) w)
              (sum_vec xs) first_cut d (record { closed_positive = tt; start = λ _. (refl, refl) })
              made in
          (x, counts (inr (not_zero (sum_vec xs) f))))
        (rw (f, calculate_n_to_m) at e)
]
