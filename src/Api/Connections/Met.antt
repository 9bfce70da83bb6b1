-- ===== src/Api/Connections/Met.antt =====
-- api/api_common.cxx and server/Field.cxx: a runner rank and a server rank that cut the same field have
-- the same parts between them.
use Prim.Native.String.{String}
use fugaku_particle_filter.Prelude.{
  ℕ, zero, suc, ◌≡◌, refl, sym, ap, ◌∙◌, ◌⊎◌, inl, inr, List, [], ◌∷◌, some, none, some_inj, Bool,
  true, false, arith, ◌==◌, if◌then◌else◌, ◌||◌, ltb, length, get_elem?, ok, >>=-eq-ok, check-inv,
  List-cases,
}
use fugaku_particle_filter.Part.{Part, calculate_n_to_m}
use fugaku_particle_filter.Part.Order.{Ordered, calculate_n_to_m-Ordered, find_part-at}
use fugaku_particle_filter.Field.{
  Field, calculate_parts, take_parts, take_part, take_parts_hidden, take_part_hidden, find_part,
  get_part, get_part_hidden, is_empty, null_part,
}
use fugaku_particle_filter.Server.Registration.Agreement.{calculate_parts-CutFrom}
use fugaku_particle_filter.Api.{ConnectedServerRank, RunnerRank}
use fugaku_particle_filter.Api.Connections.{connection, init_connections}
use fugaku_particle_filter.Api.Connections.Matching.{wanted, SameRunner, init_connections-Wanted}

-- The hidden parts that go along with parts of the server rank belong to it, too.
abbrev SameServer : ℕ → List Part → List Part → Type 0
SameServer s [] hs = Unit {0}
SameServer s (p ∷ ps) [] = Unit {0}
SameServer s (p ∷ ps) (h ∷ hs) = (p.rank_server ≡ s → h.rank_server ≡ s) × SameServer s ps hs

take_parts_hidden-SameServer :
    (s : ℕ) (ps hs : List Part) (f f' : Field)
    → take_parts_hidden s ps hs f ≡ ok f'
    → SameServer s ps hs
unfolding take_parts_hidden take_part_hidden
take_parts_hidden-SameServer s [] hs f f' e = tt
take_parts_hidden-SameServer s (p ∷ ps) [] f f' e = tt
take_parts_hidden-SameServer s (p ∷ ps) (h ∷ hs) f f' e =
    let (f1, one, rest) = >>=-eq-ok (take_part_hidden s p h (take_part s p f)) _ e in
    ((λ same. ground (arith, one, same)), take_parts_hidden-SameServer s ps hs f1 f' rest)

SameServer-nil : (s : ℕ) (ps : List Part) → SameServer s ps []
SameServer-nil s [] = tt
SameServer-nil s (p ∷ ps) = tt

taken-SameServer :
    (s : ℕ) (ps hs : List Part) (f g : Field)
    → (if is_empty hs then ok (take_parts s ps f) else take_parts_hidden s ps hs f) ≡ ok g
    → SameServer s ps hs
taken-SameServer s ps [] f g e = SameServer-nil s ps
taken-SameServer s ps (h ∷ hs) f g e = take_parts_hidden-SameServer s ps (h ∷ hs) f g e

calculate_parts-SameServer :
    (s m : ℕ) (f f' : Field) (ps hs : List Part)
    → calculate_n_to_m m f.local_vect_sizes_runner f.bytes_per_element ≡ some ps
    → calculate_n_to_m m f.local_vect_sizes_runner_hidden f.bytes_per_element_hidden ≡ some hs
    → calculate_parts s m f ≡ ok f'
    → SameServer s ps hs
unfolding calculate_parts
calculate_parts-SameServer s m f f' ps hs cut cut_hidden e =
    let e0 = rw (cut, cut_hidden) at e in
    let (_, e1) = check-inv (length hs == 0 || length hs == length ps) _ e0 in
    let g : Field = record f { parts = ps; parts_hidden = hs } in
    let (g', taken, _) =
      >>=-eq-ok (if is_empty hs then ok (take_parts s ps g) else take_parts_hidden s ps hs g) _
        e1 in
    taken-SameServer s ps hs g g' taken

-- Where a connection comes from: a part between the two ranks, with the hidden part that goes along.
record Source (r s : ℕ) (ps hs : List Part) (csr : ConnectedServerRank) : Type 0 where
  index : ℕ
  part : Part
  hidden_part : Part
  is : csr ≡ connection part hidden_part
  part_at : get_elem? ps index ≡ some part
  hidden_at :
      ((hs ≡ []) × (hidden_part ≡ null_part))
      ⊎ ((get_elem? hs index ≡ some hidden_part)
          × (hidden_part.rank_runner ≡ r)
          × (hidden_part.rank_server ≡ s))
  runner : part.rank_runner ≡ r

-- Of two lists of the same length, or none in the second.
Source-later_none :
    (r s : ℕ) (p : Part) (ps : List Part) (csr : ConnectedServerRank)
    → Source r s ps [] csr
    → Source r s (p ∷ ps) [] csr
Source-later_none r s p ps csr x = record {
  index = suc x.index;
  part = x.part;
  hidden_part = x.hidden_part;
  is = x.is;
  part_at = x.part_at;
  hidden_at = elim (x.hidden_at) [ inl y ↦ inl y | inr (y, _, _) ↦ cc ];
  runner = x.runner;
}

Source-later :
    (r s : ℕ) (p h : Part) (ps hs : List Part) (csr : ConnectedServerRank)
    → length hs ≡ length ps
    → Source r s ps hs csr
    → Source r s (p ∷ ps) (h ∷ hs) csr
Source-later r s p h ps hs csr l x = record {
  index = suc x.index;
  part = x.part;
  hidden_part = x.hidden_part;
  is = x.is;
  part_at = x.part_at;
  hidden_at = elim (x.hidden_at) [
    | inl (y, _) ↦ absurd (none_at ps hs x.index l y x.part_at)
    | inr y ↦ inr y
  ];
  runner = x.runner;
}
  where
    none_at :
        (ps hs : List Part) (i : ℕ) {p : Part}
        → length hs ≡ length ps
        → hs ≡ []
        → get_elem? ps i ≡ some p
        → ⊥
    none_at [] hs i l y e = cc
    none_at (q ∷ ps) [] i l y e = cc
    none_at (q ∷ ps) (h ∷ hs) i l y e = cc

-- An element of a list that may begin with `x`.
get_elem?-if :
    (b : Bool) (x y : ConnectedServerRank) (xs : List ConnectedServerRank) (k : ℕ)
    → get_elem? (if b then x ∷ xs else xs) k ≡ some y
    → ((b ≡ true) × (y ≡ x)) ⊎ ((j : ℕ) × (get_elem? xs j ≡ some y))
get_elem?-if true x y xs zero e = inl (refl, sym (some_inj x y e))
get_elem?-if true x y xs (suc k) e = inr (k, e)
get_elem?-if false x y xs k e = inr (k, e)

Source-wanted_none :
    (r s k : ℕ) (ps : List Part) (csr : ConnectedServerRank)
    → get_elem? (wanted r ps []) k ≡ some csr
    → Source r s ps [] csr
Source-wanted_none r s k [] csr e = cc
Source-wanted_none r s k (p ∷ ps) csr e =
    elim (get_elem?-if (p.rank_runner == r) (connection p null_part) csr (wanted r ps []) k e) [
      | inl (t, is) ↦ record {
        index = 0;
        part = p;
        hidden_part = null_part;
        is = is;
        part_at = refl;
        hidden_at = inl (refl, refl);
        runner = ground (arith, t);
      }
      | inr (j, later) ↦ Source-later_none r s p ps csr (Source-wanted_none r s j ps csr later)
    ]

Source-wanted :
    (r s k : ℕ) (ps hs : List Part) (csr : ConnectedServerRank)
    → SameRunner r ps hs
    → SameServer s ps hs
    → length hs ≡ length ps
    → get_elem? (wanted r ps hs) k ≡ some csr
    → csr.server_rank ≡ s
    → Source r s ps hs csr
Source-wanted r s k [] hs csr a b l e at = cc
Source-wanted r s k (p ∷ ps) [] csr a b l e at = cc
Source-wanted r s k (p ∷ ps) (h ∷ hs) csr a b l e at =
    elim (get_elem?-if (p.rank_runner == r) (connection p h) csr (wanted r ps hs) k e) [
      | inl (t, is) ↦
          let runner : p.rank_runner ≡ r = ground (arith, t) in
          let server : p.rank_server ≡ s = sym (ap (λ x. x.server_rank) is) ∙ at in
          record {
            index = 0;
            part = p;
            hidden_part = h;
            is = is;
            part_at = refl;
            hidden_at = inr (refl, a.0 runner, b.0 server);
            runner = runner;
          }
      | inr (j, later) ↦
          let l' : length hs ≡ length ps = omega (arith, l) in
          Source-later r s p h ps hs csr l' (Source-wanted r s j ps hs csr a.1 b.1 l' later at)
    ]

-- What a runner rank and a server rank know of each other: the server rank finds the part, and the part
-- of the hidden state if there is one, and they are of the sizes that the runner rank has.
pub record Met (s : ℕ) (f : Field) (r : ℕ) (csr : ConnectedServerRank) : Type 0 where
  pub part : Part
  pub hidden_part : Part
  pub part_of : get_part s f r ≡ ok part
  pub hidden_part_of : get_part_hidden s f r ≡ ok hidden_part
  pub size : csr.send_count ≡ part.send_count
  pub offset : csr.local_vector_offset ≡ part.local_offset_runner
  pub size_hidden : csr.send_count_hidden ≡ hidden_part.send_count
  pub offset_hidden : csr.local_vector_offset_hidden ≡ hidden_part.local_offset_runner

find_part-nonempty :
    (s r : ℕ) (ps : List Part) (p : Part) → find_part s r ps ≡ some p → ltb 0 (length ps) ≡ true
unfolding find_part
find_part-nonempty s r [] p e = cc
find_part-nonempty s r (q ∷ ps) p e = ground arith

get_part-found :
    (s r : ℕ) (f : Field) (p : Part) → find_part s r f.parts ≡ some p → get_part s f r ≡ ok p
unfolding get_part
get_part-found s r f p e = rw (find_part-nonempty s r f.parts p e, e) refl

get_part_hidden-found :
    (s r : ℕ) (f : Field) (p : Part)
    → find_part s r f.parts_hidden ≡ some p
    → get_part_hidden s f r ≡ ok p
unfolding get_part_hidden find_part
get_part_hidden-found s r f p e = elim (List-cases f.parts_hidden) [
  | inl n ↦ let bad : none ≡ some p = rw n at e in cc
  | inr (q, qs, n) ↦ rw n (rw (rw n at e) refl)
]

get_part_hidden-none :
    (s r : ℕ) (f : Field) → f.parts_hidden ≡ [] → get_part_hidden s f r ≡ ok null_part
unfolding get_part_hidden
get_part_hidden-none s r f e = rw e refl

Source-Met :
    (s r : ℕ) (f : Field) (csr : ConnectedServerRank)
    → Ordered f.parts
    → Ordered f.parts_hidden
    → Source r s f.parts f.parts_hidden csr
    → csr.server_rank ≡ s
    → Met s f r csr
Source-Met s r f csr o o' x at = record {
  part = x.part;
  hidden_part = x.hidden_part;
  part_of = get_part-found s r f x.part (
      find_part-at s r f.parts x.index x.part o x.part_at x.runner
        (sym (ap (λ y. y.server_rank) x.is) ∙ at));
  hidden_part_of = elim (x.hidden_at) [
    | inl (n, is_null) ↦ get_part_hidden-none s r f n ∙ ap ok (sym is_null)
    | inr (h, runner, server) ↦
        get_part_hidden-found s r f x.hidden_part
          (find_part-at s r f.parts_hidden x.index x.hidden_part o' h runner server)
  ];
  size = ap (λ y. y.send_count) x.is;
  offset = ap (λ y. y.local_vector_offset) x.is;
  size_hidden = ap (λ y. y.send_count_hidden) x.is;
  offset_hidden = ap (λ y. y.local_vector_offset_hidden) x.is;
}

-- A runner rank that had no connections has initialised them, and server rank `s` has cut the same
-- field for the same number of server ranks: for each connection to `s`, the look-ups of the server
-- rank succeed, and find the part and the hidden part of which the connection has the sizes and the
-- runner's offsets.
pub init_connections-Met :
    (s m k : ℕ) (ports : List String) (f f' : Field) (r r' : RunnerRank) (csr : ConnectedServerRank)
    → calculate_parts s m f ≡ ok f'
    → init_connections m ports f.local_vect_sizes_runner f.local_vect_sizes_runner_hidden
        f.bytes_per_element f.bytes_per_element_hidden r
      ≡ ok r'
    → r.field.connected_server_ranks ≡ []
    → get_elem? r'.field.connected_server_ranks k ≡ some csr
    → csr.server_rank ≡ s
    → Met s f' r.comm_rank csr
init_connections-Met s m k ports f f' r r' csr cut_server done fresh at is_s =
    let x = init_connections-Wanted m ports _ _ _ _ r r' done in
    let y = calculate_parts-CutFrom s m f f' cut_server in
    let same = some_inj x.parts f'.parts (sym x.cut ∙ y.cut) in
    let same_hidden = some_inj x.parts_hidden f'.parts_hidden (sym x.cut_hidden ∙ y.cut_hidden) in
    let here : get_elem? (wanted r.comm_rank x.parts x.parts_hidden) k ≡ some csr =
      rw (x.connected, fresh) at at in
    let together =
      calculate_parts-SameServer s m f f' x.parts x.parts_hidden x.cut x.cut_hidden cut_server in
    let source : Source r.comm_rank s x.parts x.parts_hidden csr = elim (x.as_many) [
      | inl n ↦ rw n (Source-wanted_none r.comm_rank s k x.parts csr (rw n at here))
      | inr l ↦
          Source-wanted r.comm_rank s k x.parts x.parts_hidden csr x.same_runner together l here
            is_s
    ] in
    Source-Met s r.comm_rank f' csr
      (calculate_n_to_m-Ordered m f.bytes_per_element f.local_vect_sizes_runner f'.parts y.cut)
      (calculate_n_to_m-Ordered m f.bytes_per_element_hidden f.local_vect_sizes_runner_hidden
        f'.parts_hidden y.cut_hidden)
      (rw (same, same_hidden) at source) is_s
