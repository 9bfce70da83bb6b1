-- ===== src/Server/Registration/Agreement.antt =====
-- server/server.cxx, `broadcast_field_information_and_calculate_parts`: every server rank cuts the
-- field on its own.
use fugaku_particle_filter.Prelude.{
  or_fail-inv, ℕ, ◌<◌, ◌≡◌, refl, sym, ap, subst, ◌∙◌, List, [], ◌∷◌, some, ◌==◌, ◌||◌, ltb, length,
  if◌then◌else◌, ok, or_fail, out_of_range, >>=-eq-ok, check-inv, ok_inj, some_inj, Bool-cases, inl,
  inr, arith,
}
use fugaku_particle_filter.Part.{Part, calculate_n_to_m}
use fugaku_particle_filter.Field.{
  Field, take_part, take_parts, take_part_hidden, take_parts_hidden, calculate_parts,
  set_local_vect_sizes, is_empty,
}
use fugaku_particle_filter.Server.{Config}
use fugaku_particle_filter.Server.Registration.{
  broadcast_field, scatter_index_maps, broadcast_field_information_and_calculate_parts,
}

-- The two cuttings of a field.
record SameCut (f f' : Field) : Type 0 where
  parts_same : f'.parts ≡ f.parts
  parts_hidden_same : f'.parts_hidden ≡ f.parts_hidden

SameCut-trans : (f g h : Field) → SameCut f g → SameCut g h → SameCut f h
SameCut-trans f g h a b = record {
  parts_same = b.parts_same ∙ a.parts_same;
  parts_hidden_same = b.parts_hidden_same ∙ a.parts_hidden_same;
}

take_part-SameCut : (r : ℕ) (p : Part) (f : Field) → SameCut f (take_part r p f)
unfolding take_part
take_part-SameCut r p f = record { parts_same = ground arith; parts_hidden_same = ground arith }

take_parts-SameCut : (r : ℕ) (ps : List Part) (f : Field) → SameCut f (take_parts r ps f)
unfolding take_parts
take_parts-SameCut r [] f = record { parts_same = refl; parts_hidden_same = refl }
take_parts-SameCut r (p ∷ ps) f =
    SameCut-trans f (take_part r p f) _ (take_part-SameCut r p f)
      (take_parts-SameCut r ps (take_part r p f))

take_part_hidden-SameCut :
    (r : ℕ) (p h : Part) (f f' : Field) → take_part_hidden r p h f ≡ ok f' → SameCut f f'
unfolding take_part_hidden
take_part_hidden-SameCut r p h f f' e = record {
  parts_same = ground (arith, e);
  parts_hidden_same = ground (arith, e);
}

take_parts_hidden-SameCut :
    (r : ℕ) (ps hs : List Part) (f f' : Field) → take_parts_hidden r ps hs f ≡ ok f' → SameCut f f'
unfolding take_parts_hidden
take_parts_hidden-SameCut r [] hs f f' e =
    subst (SameCut f) (ok_inj f f' e) (record { parts_same = refl; parts_hidden_same = refl })
take_parts_hidden-SameCut r (p ∷ ps) [] f f' e = cc
take_parts_hidden-SameCut r (p ∷ ps) (h ∷ hs) f f' e =
    let (f1, one, rest) = >>=-eq-ok (take_part_hidden r p h (take_part r p f)) _ e in
    SameCut-trans f (take_part r p f) f' (take_part-SameCut r p f) (
      SameCut-trans _ f1 f' (take_part_hidden-SameCut r p h _ f1 one)
        (take_parts_hidden-SameCut r ps hs f1 f' rest))

-- The parts depend on the sizes of the runner ranks and the number of server ranks only, and some of
-- them belong to this rank.
pub record CutFrom (m : ℕ) (f f' : Field) : Type 0 where
  pub cut : calculate_n_to_m m f.local_vect_sizes_runner f.bytes_per_element ≡ some f'.parts
  pub cut_hidden :
      calculate_n_to_m m f.local_vect_sizes_runner_hidden f.bytes_per_element_hidden
      ≡ some f'.parts_hidden
  pub connected : 0 < length f'.connected_runner_ranks

pub calculate_parts-CutFrom :
    (r m : ℕ) (f f' : Field) → calculate_parts r m f ≡ ok f' → CutFrom m f f'
unfolding calculate_parts
calculate_parts-CutFrom r m f f' e =
    let (ps, cut, e1) =
      >>=-eq-ok
        (or_fail out_of_range (calculate_n_to_m m f.local_vect_sizes_runner f.bytes_per_element)) _
        e in
    let (hs, cut_hidden, e2) =
      >>=-eq-ok
        (or_fail out_of_range
          (calculate_n_to_m m f.local_vect_sizes_runner_hidden f.bytes_per_element_hidden))
        _ e1 in
    let (_, e3) = check-inv (length hs == 0 || length hs == length ps) _ e2 in
    let g : Field = record f { parts = ps; parts_hidden = hs } in
    let (g', taken, e4) =
      >>=-eq-ok (if is_empty hs then ok (take_parts r ps g) else take_parts_hidden r ps hs g) _
        e3 in
    let (_, _, e4') =
      >>=-eq-ok
        (set_local_vect_sizes g'.local_vect_size g'.local_vect_size_hidden g'.ensemble_members) _
        e4 in
    let (has_ranks, e5) = check-inv (ltb 0 (length (g'.connected_runner_ranks))) _ e4' in
    let same : SameCut g g' = elim (Bool-cases (is_empty hs)) [
      | inl q ↦ subst (SameCut g) (ok_inj _ g' (rw q at taken)) (take_parts-SameCut r ps g)
      | inr q ↦ take_parts_hidden-SameCut r ps hs g g' (rw q at taken)
    ] in
    let out = ok_inj _ f' e5 in
    record {
      cut = or_fail-inv _ _ ps cut ∙ ap some (sym same.parts_same ∙ ap (λ x. x.parts) out);
      cut_hidden =
          or_fail-inv _ _ hs cut_hidden
          ∙ ap some (sym same.parts_hidden_same ∙ ap (λ x. x.parts_hidden) out);
      connected =
          subst (λ x. 0 < length (x.connected_runner_ranks)) out (ground (arith, has_ranks));
    }

-- What the ranks cut from is the same on all of them.
broadcast_field-same :
    (c : Config) (root : Field)
    → ((broadcast_field c root).local_vect_sizes_runner ≡ root.local_vect_sizes_runner)
      × ((broadcast_field c root).bytes_per_element ≡ root.bytes_per_element)
      × ((broadcast_field c root).local_vect_sizes_runner_hidden
          ≡ root.local_vect_sizes_runner_hidden)
      × ((broadcast_field c root).bytes_per_element_hidden ≡ root.bytes_per_element_hidden)
unfolding broadcast_field
broadcast_field-same c root = (ground arith, ground arith, ground arith, ground arith)

pub broadcast-CutFrom :
    (c : Config) (root : Field) (index_map index_map_hidden : List ℕ) (f : Field)
    (maps : List ℕ × List ℕ)
    → broadcast_field_information_and_calculate_parts c root index_map index_map_hidden
      ≡ ok (f, maps)
    → CutFrom c.comm_size root f
unfolding broadcast_field_information_and_calculate_parts
broadcast-CutFrom c root index_map index_map_hidden f maps e =
    let (f1, cut, e1) =
      >>=-eq-ok (calculate_parts c.comm_rank c.comm_size (broadcast_field c root)) _ e in
    let (maps1, _, e2) = >>=-eq-ok (scatter_index_maps c f1 index_map index_map_hidden) _ e1 in
    let d = calculate_parts-CutFrom c.comm_rank c.comm_size (broadcast_field c root) f1 cut in
    let (a, b, a', b') = broadcast_field-same c root in
    let same : f1 ≡ f = ap (λ x. x.0) (ok_inj _ (f, maps) e2) in
    subst (CutFrom c.comm_size root) same (record {
      cut = rw (a, b) at d.cut;
      cut_hidden = rw (a', b') at d.cut_hidden;
      connected = d.connected;
    })

-- Two server ranks that are told of the same number of server ranks and have set up the same field
-- of rank 0 have the same parts, of the assimilated and of the hidden state.
pub broadcast-agreement :
    (c d : Config) (root : Field) (index_map index_map_hidden : List ℕ) (f g : Field)
    (maps maps' : List ℕ × List ℕ)
    → c.comm_size ≡ d.comm_size
    → broadcast_field_information_and_calculate_parts c root index_map index_map_hidden
      ≡ ok (f, maps)
    → broadcast_field_information_and_calculate_parts d root index_map index_map_hidden
      ≡ ok (g, maps')
    → (f.parts ≡ g.parts) × (f.parts_hidden ≡ g.parts_hidden)
broadcast-agreement c d root index_map index_map_hidden f g maps maps' same e e' =
    let a = broadcast-CutFrom c root index_map index_map_hidden f maps e in
    let b = broadcast-CutFrom d root index_map index_map_hidden g maps' e' in
    (
      some_inj f.parts g.parts (sym a.cut ∙ rw same b.cut),
      some_inj f.parts_hidden g.parts_hidden (sym a.cut_hidden ∙ rw same b.cut_hidden),
    )
