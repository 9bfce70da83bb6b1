-- ===== src/Server/Registration/Scattered.antt =====
-- server/server.cxx, `scatter_index_map`: the pieces and the index map of the whole field.
use fugaku_particle_filter.Prelude.{
  ℕ, zero, suc, ◌+◌, ◌*◌, ◌/◌, ◌%◌, ◌^◌, true, false, ◌≤◌, ◌<◌, ◌≡◌, refl, sym, ap, ap₂, ◌∙◌, List,
  [], ◌∷◌, ◌++◌, arith, ltb, some, get_elem?, check-inv, >>=-eq-ok, ok_inj, some_inj, ◌==◌, length,
  take, drop, ok, length-drop, length_zero, take-append-drop,
}
use fugaku_particle_filter.Part.{calculate_local_vect_sizes_server, sizes_server_from, size_t_mod}
use fugaku_particle_filter.Part.Positions.{sum}
use fugaku_particle_filter.Part.Sizes.{
  IsSplittable, fair_share, mul_div, local_vect_size_server-eq, elements-eq,
  sum-calculate_local_vect_sizes_server,
}
use fugaku_particle_filter.Server.Registration.{
  entry_counts, displacements, scatter_from, scatter_files, read_index_map, scatter_index_map,
}

-- The files one after the other.
unfoldable pub join : List (List ℕ) → List ℕ
join [] = []
join (f ∷ fs) = f ++ join fs

abbrev pub lengths : List (List ℕ) → List ℕ
lengths [] = []
lengths (f ∷ fs) = length f ∷ lengths fs

-- What the ranks find: the whole map in order, in pieces of the counts.
pub record Scattered (ns p : List ℕ) (files : List (List ℕ)) : Type 0 where
  pub whole : join files ≡ p
  pub counts : lengths files ≡ ns

length-take_le : (n : ℕ) (xs : List ℕ) → n ≤ length xs → length (take n xs) ≡ n
length-take_le zero xs h = refl
length-take_le (suc n) [] h = absurd (omega arith)
length-take_le (suc n) (x ∷ xs) h = omega (arith, length-take_le n xs (omega arith))

scatter_from-Scattered :
    (ns p : List ℕ) (d : ℕ)
    → sum ns ≡ length p
    → (files : List (List ℕ)) × (scatter_from d ns (displacements d ns) p ≡ ok files)
      × Scattered ns p files
unfolding scatter_from displacements join
scatter_from-Scattered [] p d e =
    ([], refl, record { whole = sym (length_zero p (omega arith)); counts = refl })
scatter_from-Scattered (n ∷ ns) p d e =
    let (files, done, s) =
      scatter_from-Scattered ns (drop n p) (d + n) (omega (arith, length-drop n p)) in
    let same : (d == d) ≡ true = ground arith in
    let fits : ltb (length p) n ≡ false = ground arith in
    (
      take n p ∷ files,
      rw (same, fits, done) refl,
      record {
        whole = ap (λ l. take n p ++ l) s.whole ∙ take-append-drop n p;
        counts = ap₂ (λ a b. a ∷ b) (length-take_le n p (omega arith)) s.counts;
      },
    )

mul_mod : (k w : ℕ) → 0 < w → k * w % w ≡ 0
mul_mod k w h = grind arith

-- The sizes of the server ranks are whole entries.
entry_counts-sizes :
    (rounds i m g w : ℕ)
    → 0 < m
    → 0 < w
    → g < 2 ^ 31
    → g * w < size_t_mod
    → (ks : List ℕ) × (entry_counts w (sizes_server_from rounds i m g w) ≡ ok ks)
      × (sum ks * w ≡ sum (sizes_server_from rounds i m g w))
unfolding entry_counts sizes_server_from
entry_counts-sizes zero i m g w hm hw hg hs = ([], refl, omega arith)
entry_counts-sizes (suc n) i m g w hm hw hg hs =
    let e = local_vect_size_server-eq m g w i hm hg hs in
    let (ks, done, total) = entry_counts-sizes n (i + 1) m g w hm hw hg hs in
    let whole : (fair_share m g i * w % w == 0) ≡ true =
      ground (arith, mul_mod (fair_share m g i) w hw) in
    (
      fair_share m g i ∷ ks,
      rw (e, whole, done, mul_div (fair_share m g i) w hw) refl,
      rw e (omega (arith, total)),
    )

mul_cancel : (a b w : ℕ) → 0 < w → a * w ≡ b * w → a ≡ b
mul_cancel a b w h e = omega (arith, sym (mul_div a w h) ∙ ap (λ k. k / w) e ∙ mul_div b w h)

-- `counts` are those of the sizes, one for each rank.
entry_counts-at :
    (w : ℕ) (sizes ks : List ℕ) (i n : ℕ)
    → entry_counts w sizes ≡ ok ks
    → get_elem? sizes i ≡ some n
    → get_elem? ks i ≡ some (n / w)
unfolding entry_counts
entry_counts-at w [] ks i n e at = cc
entry_counts-at w (x ∷ sizes) ks zero n e at =
    let (_, e1) = check-inv (x % w == 0) _ e in
    let (ks', _, e2) = >>=-eq-ok (entry_counts w sizes) _ e1 in
    rw (sym (ok_inj _ ks e2)) (ap (λ k. some (k / w)) (some_inj x n at))
entry_counts-at w (x ∷ sizes) ks (suc i) n e at =
    let (_, e1) = check-inv (x % w == 0) _ e in
    let (ks', counted, e2) = >>=-eq-ok (entry_counts w sizes) _ e1 in
    rw (sym (ok_inj _ ks e2)) (entry_counts-at w sizes ks' i n counted at)

lengths-at :
    (files : List (List ℕ)) (i k : ℕ)
    → get_elem? (lengths files) i ≡ some k
    → (file : List ℕ) × (get_elem? files i ≡ some file) × (length file ≡ k)
lengths-at [] i k e = cc
lengths-at (f ∷ files) zero k e = (f, refl, some_inj (length f) k e)
lengths-at (f ∷ files) (suc i) k e = lengths-at files i k e

-- A rank reads the file that is as long as what it wants.
read-file :
    (i k : ℕ) (file : List ℕ) (files : List (List ℕ))
    → get_elem? files i ≡ some file
    → length file ≡ k
    → read_index_map i k files ≡ ok file
unfolding read_index_map
read-file i k file files at l =
    let same : (length file == k) ≡ true = ground (arith, l) in rw (at, same) refl

-- For a field of `g` elements of `w` bytes on `m` server ranks with `m ≤ g`, and an index map of `g`
-- entries: there are pieces that are, one after the other, the index map, and every rank whose local
-- size is that which `calculate_local_vect_sizes_server` gives it gets the piece of its number, of as
-- many entries as it has elements. No assertion fails, neither in the scattering nor when a rank reads.
pub scatter_index_map-Scattered :
    (m g w : ℕ) (index_map : List ℕ)
    → IsSplittable m g w
    → length index_map ≡ g
    → (files : List (List ℕ)) × (join files ≡ index_map)
      × ((i size : ℕ)
          → get_elem? (calculate_local_vect_sizes_server m (g * w) w) i ≡ some size
          → (file : List ℕ) × (get_elem? files i ≡ some file)
            × (length file ≡ size / w)
            × (scatter_index_map i m (g * w) size w index_map ≡ ok file))
unfolding scatter_index_map scatter_files calculate_local_vect_sizes_server
scatter_index_map-Scattered m g w index_map v e =
    let (ks, counted, total) = entry_counts-sizes m 0 m g w v.ranks v.width v.counted v.addressed in
    let all : sum (sizes_server_from m 0 m g w) ≡ g * w =
      rw (elements-eq g w v.width v.counted) at (sum-calculate_local_vect_sizes_server m g w v) in
    let (files, done, s) =
      scatter_from-Scattered ks index_map 0
        (mul_cancel (sum ks) g w v.width (total ∙ all) ∙ sym e) in
    (
      files,
      s.whole,
      λ i size at.
          let at_sizes : get_elem? (sizes_server_from m 0 m g w) i ≡ some size =
            rw (elements-eq g w v.width v.counted) at at in
          let counts_at =
            entry_counts-at w (sizes_server_from m 0 m g w) ks i size counted at_sizes in
          let (file, there, l) = lengths-at files i (size / w) (rw s.counts counts_at) in
          (
            file,
            there,
            l,
            rw (elements-eq g w v.width v.counted, counted, done)
                (read-file i (size / w) file files there l),
          ),
    )
