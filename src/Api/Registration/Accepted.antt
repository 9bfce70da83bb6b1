-- ===== src/Api/Registration/Accepted.antt =====
-- api/melissa_da_api.cxx and server/server.cxx together: the field that a runner announces.
use Prim.Native.String.{String}
use fugaku_particle_filter.Prelude.{
  ℕ, zero, suc, ◌/◌, ◌%◌, ◌≡◌, refl, sym, ap, ◌∙◌, List, [], ◌∷◌, ◌++◌, Option, some, none, true,
  arith, ◌==◌, if◌then◌else◌, length, length-replicate, ok, check-inv, ok_inj, some_inj, >>=-eq-ok,
  Result,
}
use fugaku_particle_filter.Part.{sum_vec}
use fugaku_particle_filter.Field.{Field, new_field}
use fugaku_particle_filter.Server.{Config}
use fugaku_particle_filter.Server.Registration.{
  Setup, FieldMessage, acknowledged, index_map_size, register_field,
}
use fugaku_particle_filter.Api.{RunnerRank}
use fugaku_particle_filter.Api.Connections.{init_connections}
use fugaku_particle_filter.Api.Registration.{
  InitArguments, field_message, new_index_map, gather_global_index_map, global_index_maps,
  create_field, melissa_init_with_index_map,
}
use fugaku_particle_filter.Api.Registration.Gathered.{length-gather_global_index_map}

-- An index map of the size that the server asks for.
record IsSized (sizes : List ℕ) (w : ℕ) (index_map : List ℕ) : Type 0 where
  size : ℕ
  accepted : index_map_size (sum_vec sizes) w ≡ ok size
  is : length index_map ≡ size

new_index_map-IsSized :
    (sizes : List ℕ) (w : ℕ) (xs ys : List ℕ)
    → new_index_map sizes w ≡ ok xs
    → length ys ≡ length xs
    → IsSized sizes w ys
unfolding new_index_map index_map_size
new_index_map-IsSized sizes zero xs ys e l = cc
new_index_map-IsSized sizes (suc w) xs ys e l =
    let (divides, made) = check-inv (sum_vec sizes % suc w == 0) _ e in
    record {
      size = sum_vec sizes / suc w;
      accepted = rw divides refl;
      is = l ∙ ap length (sym (ok_inj _ xs made)) ∙ length-replicate (sum_vec sizes / suc w) 0;
    }

global_index_maps-IsSized :
    (a : InitArguments) (xs hs : List ℕ)
    → ◌≡◌ {A = Result (List ℕ × List ℕ)} (global_index_maps a) (ok (xs, hs))
    → IsSized a.local_vect_sizes a.bytes_per_element xs
      × IsSized a.local_hidden_vect_sizes a.bytes_per_element_hidden hs
unfolding global_index_maps
global_index_maps-IsSized a xs hs e =
    let (xs0, new, e1) = >>=-eq-ok (new_index_map a.local_vect_sizes a.bytes_per_element) _ e in
    let (hs0, new_hidden, e2) =
      >>=-eq-ok (new_index_map a.local_hidden_vect_sizes a.bytes_per_element_hidden) _ e1 in
    let (xs1, got, e3) =
      >>=-eq-ok
        (gather_global_index_map a.local_index_maps xs0 a.local_vect_sizes a.bytes_per_element) _
        e2 in
    let (hs1, got_hidden, e4) =
      >>=-eq-ok
        (gather_global_index_map a.local_index_maps_hidden hs0 a.local_hidden_vect_sizes
          a.bytes_per_element_hidden)
        _ e3 in
    let out = ok_inj _ (xs, hs) e4 in
    (
      new_index_map-IsSized a.local_vect_sizes a.bytes_per_element xs0 xs new (
          ap (λ p. length (p.0)) (sym out)
          ∙ length-gather_global_index_map a.local_index_maps xs0 a.local_vect_sizes
              a.bytes_per_element xs1 got),
      new_index_map-IsSized a.local_hidden_vect_sizes a.bytes_per_element_hidden hs0 hs new_hidden (
          ap (λ p. length (p.1)) (sym out)
          ∙ length-gather_global_index_map a.local_index_maps_hidden hs0 a.local_hidden_vect_sizes
              a.bytes_per_element_hidden hs1 got_hidden),
    )

-- What the server knows of a field that has been announced with `a`.
pub record Announced (a : InitArguments) (u u' : Setup) : Type 0 where
  pub f : Field
  pub field_is : u'.field ≡ some f
  pub sizes : f.local_vect_sizes_runner ≡ a.local_vect_sizes
  pub sizes_hidden : f.local_vect_sizes_runner_hidden ≡ a.local_hidden_vect_sizes
  pub width : f.bytes_per_element ≡ a.bytes_per_element
  pub width_hidden : f.bytes_per_element_hidden ≡ a.bytes_per_element_hidden
  pub maps :
      ◌≡◌ {A = Result (List ℕ × List ℕ)}
        (global_index_maps a)
        (ok (u'.global_index_map, u'.global_index_map_hidden))
  pub answered : u'.replies ≡ u.replies ++ (acknowledged ∷ [])

==_self : (n : ℕ) → (n == n) ≡ true
==_self n = ground arith

field_message-Announced :
    (c : Config) (u : Setup) (a : InitArguments) (xs hs : List ℕ)
    → u.in_init_phase ≡ true
    → u.field ≡ none
    → length a.local_hidden_vect_sizes ≡ length a.local_vect_sizes
    → ◌≡◌ {A = Result (List ℕ × List ℕ)} (global_index_maps a) (ok (xs, hs))
    → (u' : Setup) × (register_field c (field_message a xs hs) u ≡ ok u') × Announced a u u'
unfolding register_field field_message new_field
field_message-Announced c u a xs hs phase fresh same e =
    let (s, h) = global_index_maps-IsSized a xs hs e in
    let n = length a.local_vect_sizes in
    let f : Field =
      record (new_field a.field_name n c.ensemble_size a.bytes_per_element
        a.bytes_per_element_hidden) {
          local_vect_sizes_runner = a.local_vect_sizes;
          local_vect_sizes_runner_hidden = a.local_hidden_vect_sizes;
        } in
    let size : (length xs == s.size) ≡ true = rw s.is (==_self s.size) in
    let size_hidden : (length hs == h.size) ≡ true = rw h.is (==_self h.size) in
    let as_many : (length a.local_hidden_vect_sizes == n) ≡ true = rw same (==_self n) in
    (
      record u {
        field = some f;
        global_index_map = xs;
        global_index_map_hidden = hs;
        replies = u.replies ++ (acknowledged ∷ []);
      },
      rw (phase, fresh, ==_self n, as_many, s.accepted, size, h.accepted, size_hidden) refl,
      record {
        f = f;
        field_is = refl;
        sizes = refl;
        sizes_hidden = refl;
        width = refl;
        width_hidden = refl;
        maps = e;
        answered = refl;
      },
    )

-- Rank 0 of a runner, all of whose ranks say two sizes, initialises itself and is told to register the
-- field. Then the message it sends is accepted by a server that is in its first phase and has no field
-- yet: the server has the sizes and the element widths of the runner and the global index maps that
-- rank 0 has gathered, and answers with an empty message.
pub melissa_init_with_index_map-Announced :
    (c : Config) (u : Setup) (comm_size : ℕ) (port_names : List String) (a : InitArguments)
    (r r' : RunnerRank) (message : FieldMessage)
    → r.comm_rank ≡ 0
    → length a.local_hidden_vect_sizes ≡ length a.local_vect_sizes
    → ◌≡◌ {A = Result (Option FieldMessage × RunnerRank)}
        (melissa_init_with_index_map true comm_size port_names a r)
        (ok (some message, r'))
    → u.in_init_phase ≡ true
    → u.field ≡ none
    → (u' : Setup) × (register_field c message u ≡ ok u') × Announced a u u'
unfolding melissa_init_with_index_map
melissa_init_with_index_map-Announced c u comm_size port_names a r r' message root same done phase
      fresh =
    let is_root : (r.comm_rank == 0) ≡ true = rw root refl in
    let ((xs, hs), maps, e1) =
      >>=-eq-ok (if r.comm_rank == 0 then global_index_maps a else ok ([], [])) _ done in
    let (r1, _, e2) =
      >>=-eq-ok
        (init_connections comm_size port_names a.local_vect_sizes a.local_hidden_vect_sizes
          a.bytes_per_element a.bytes_per_element_hidden (create_field a r))
        _ e1 in
    let is : field_message a xs hs ≡ message =
      some_inj (field_message a xs hs) message (ap (λ p. p.0) (ok_inj _ (some message, r') e2)) in
    rw (sym is) (field_message-Announced c u a xs hs phase fresh same (rw is_root at maps))
