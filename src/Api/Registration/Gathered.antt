-- ===== src/Api/Registration/Gathered.antt =====
-- api/melissa_da_api.cxx, `gather_global_index_map`: the index map of the whole field, and those of the
-- ranks.
use fugaku_particle_filter.Prelude.{
  ℕ, zero, suc, ◌+◌, ◌/◌, ◌≡◌, refl, sym, ap, ◌∙◌, List, [], ◌∷◌, ◌++◌, Option, none, some, arith,
  true, ◌==◌, length, length-append, length-drop, length_zero, append_assoc, drop, ok, check-inv,
  ok_inj, >>=-eq-ok,
}
use fugaku_particle_filter.Field.Members.{length-overwrite}
use fugaku_particle_filter.Server.Registration.Scattered.{join}
use fugaku_particle_filter.Api.{copy_in}
use fugaku_particle_filter.Api.Exchange.{copy_in-append}
use fugaku_particle_filter.Api.Registration.{gather_from, gather_global_index_map, number_entries}

-- Every rank has an index map with an entry for each element of its vector.
abbrev pub AllWhole : ℕ → List ℕ → List (List ℕ) → Type 0
AllWhole w [] [] = Unit {0}
AllWhole w [] (file ∷ files) = ⊥
AllWhole w (n ∷ ns) [] = ⊥
AllWhole w (n ∷ ns) (file ∷ files) = (length file ≡ n / w) × AllWhole w ns files

gather_from-join :
    (w : ℕ) (ns : List ℕ) (files : List (List ℕ)) (done todo : List ℕ)
    → AllWhole w ns files
    → length (join files) ≡ length todo
    → gather_from w (length done) ns files (done ++ todo) ≡ ok (done ++ join files)
unfolding gather_from join
gather_from-join w [] [] done todo a e = rw (length_zero todo (sym e)) refl
gather_from-join w [] (file ∷ files) done todo a e = absurd a
gather_from-join w (n ∷ ns) [] done todo a e = absurd a
gather_from-join w (n ∷ ns) (file ∷ files) done todo a e =
    let whole : (length file == n / w) ≡ true = ground (arith, a.0) in
    let total = length-append file (join files) in
    let put = copy_in-append (length done) file done todo refl (omega (arith, total, e)) in
    let next : length done + n / w ≡ length (done ++ file) =
      omega (arith, length-append done file, a.0) in
    rw (whole, put, next)
      (gather_from-join w ns files (done ++ file) (drop (length file) todo) a.1
          (omega (arith, total, e, length-drop (length file) todo))
        ∙ ap ok (append_assoc done file (join files)))

-- Every rank has an index map with an entry for each element of its vector, and the map of rank 0 has
-- room for just as many. Then the gathering succeeds, and the global index map is the maps of the
-- ranks, one after the other.
pub gather_global_index_map-join :
    (w : ℕ) (ns : List ℕ) (files : List (List ℕ)) (empty_map : List ℕ)
    → AllWhole w ns files
    → length (join files) ≡ length empty_map
    → gather_global_index_map (some files) empty_map ns w ≡ ok (join files)
unfolding gather_global_index_map
gather_global_index_map-join w ns files empty_map a e = gather_from-join w ns files [] empty_map a e

length-number_entries : (i n : ℕ) → length (number_entries i n) ≡ n
unfolding number_entries
length-number_entries i zero = refl
length-number_entries i (suc n) = ap suc (length-number_entries (i + 1) n)

length-copy_in : (o : ℕ) (v xs ys : List ℕ) → copy_in o v xs ≡ ok ys → length ys ≡ length xs
unfolding copy_in
length-copy_in o v xs ys e = ground (arith, e, length-overwrite o v xs)

length-gather_from :
    (w displ : ℕ) (ns : List ℕ) (files : List (List ℕ)) (xs ys : List ℕ)
    → gather_from w displ ns files xs ≡ ok ys
    → length ys ≡ length xs
unfolding gather_from
length-gather_from w displ [] files xs ys e = ap length (sym (ok_inj xs ys e))
length-gather_from w displ (n ∷ ns) [] xs ys e = cc
length-gather_from w displ (n ∷ ns) (file ∷ files) xs ys e =
    let (_, e1) = check-inv (length file == n / w) _ e in
    let (xs', put, e2) = >>=-eq-ok (copy_in displ file xs) _ e1 in
    length-gather_from w (displ + n / w) ns files xs' ys e2 ∙ length-copy_in displ file xs xs' put

pub length-gather_global_index_map :
    (maps : Option (List (List ℕ))) (xs ns : List ℕ) (w : ℕ) (ys : List ℕ)
    → gather_global_index_map maps xs ns w ≡ ok ys
    → length ys ≡ length xs
unfolding gather_global_index_map
length-gather_global_index_map none xs ns w ys e =
    ap length (sym (ok_inj _ ys e)) ∙ length-number_entries 0 (length xs)
length-gather_global_index_map (some files) xs ns w ys e = length-gather_from w 0 ns files xs ys e
