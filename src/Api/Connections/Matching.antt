-- ===== src/Api/Connections/Matching.antt =====
-- api/api_common.cxx and server/Field.h: the connections of a runner rank, and the parts by which the
-- server ranks know it.
use Prim.Native.String.{String}
use fugaku_particle_filter.Prelude.{
  ℕ, ◌≡◌, refl, sym, ap, ◌∙◌, ◌⊎◌, inl, inr, List, [], ◌∷◌, ◌++◌, append_assoc, append-nil, some,
  true, arith, ◌==◌, if◌then◌else◌, ◌||◌, length, ok, out_of_range, or_fail, ◌>>◌, check, ok_inj,
  >>=-eq-ok, check-inv, or_fail-inv, Bool-cases,
}
use fugaku_particle_filter.Part.{Part, calculate_n_to_m}
use fugaku_particle_filter.Field.{is_empty, null_part}
use fugaku_particle_filter.Api.{ConnectedServerRank, RunnerRank}
use fugaku_particle_filter.Api.Connections.{
  get_server_rank, connection, Connected, connect_to, connect_parts, connect_parts_hidden,
  init_connections,
}

-- The connections of a runner rank for these parts and the hidden parts that go along with them.
abbrev pub wanted : ℕ → List Part → List Part → List ConnectedServerRank
wanted r [] hs = []
wanted r (p ∷ ps) [] =
    let later = wanted r ps [] in
    if p.rank_runner == r then connection p null_part ∷ later else later
wanted r (p ∷ ps) (h ∷ hs) =
    let later = wanted r ps hs in if p.rank_runner == r then connection p h ∷ later else later

-- The hidden parts that go along with parts of the runner rank belong to it, too.
abbrev pub SameRunner : ℕ → List Part → List Part → Type 0
SameRunner r [] hs = Unit {0}
SameRunner r (p ∷ ps) [] = Unit {0}
SameRunner r (p ∷ ps) (h ∷ hs) = (p.rank_runner ≡ r → h.rank_runner ≡ r) × SameRunner r ps hs

connect_to-wanted :
    (ports : List String) (p h : Part) (c c' : Connected)
    → connect_to ports p h c ≡ ok c'
    → c'.connected_server_ranks ≡ c.connected_server_ranks ++ (connection p h ∷ [])
unfolding connect_to
connect_to-wanted ports p h c c' e =
    let (ranks, _, e1) = >>=-eq-ok (get_server_rank ports p.rank_server c.ranks) _ e in
    ap (λ x. x.connected_server_ranks) (sym (ok_inj _ c' e1))

connect_parts-wanted :
    (r : ℕ) (ports : List String) (ps : List Part) (c c' : Connected)
    → connect_parts r ports ps c ≡ ok c'
    → c'.connected_server_ranks ≡ c.connected_server_ranks ++ wanted r ps []
unfolding connect_parts
connect_parts-wanted r ports [] c c' e =
    ap (λ x. x.connected_server_ranks) (sym (ok_inj c c' e))
    ∙ sym (append-nil c.connected_server_ranks)
connect_parts-wanted r ports (p ∷ ps) c c' e =
    let (c1, one, rest) =
      >>=-eq-ok (if p.rank_runner == r then connect_to ports p null_part c else ok c) _ e in
    let ih = connect_parts-wanted r ports ps c1 c' rest in
    elim (Bool-cases (p.rank_runner == r)) [
      | inl t ↦
          let first = connect_to-wanted ports p null_part c c1 (rw t at one) in
          rw t (
            rw first at ih
            ∙ append_assoc c.connected_server_ranks (connection p null_part ∷ []) (wanted r ps []))
      | inr f ↦ rw f (rw (sym (ok_inj c c1 (rw f at one))) at ih)
    ]

connect_parts_hidden-wanted :
    (r : ℕ) (ports : List String) (ps hs : List Part) (c c' : Connected)
    → length hs ≡ length ps
    → connect_parts_hidden r ports ps hs c ≡ ok c'
    → (c'.connected_server_ranks ≡ c.connected_server_ranks ++ wanted r ps hs) × SameRunner r ps hs
unfolding connect_parts_hidden
connect_parts_hidden-wanted r ports [] hs c c' l e = (
  ap (λ x. x.connected_server_ranks) (sym (ok_inj c c' e))
      ∙ sym (append-nil c.connected_server_ranks),
  tt,
)
connect_parts_hidden-wanted r ports (p ∷ ps) [] c c' l e = cc
connect_parts_hidden-wanted r ports (p ∷ ps) (h ∷ hs) c c' l e =
    let (c1, one, rest) =
      >>=-eq-ok
        (if p.rank_runner == r then check (h.rank_runner == r) >> connect_to ports p h c else ok c)
        _ e in
    let (ih, same) = connect_parts_hidden-wanted r ports ps hs c1 c' (omega (arith, l)) rest in
    elim (Bool-cases (p.rank_runner == r)) [
      | inl t ↦
          let (own, done) = check-inv (h.rank_runner == r) _ (rw t at one) in
          let first = connect_to-wanted ports p h c c1 done in
          (
            rw t (
                rw first at ih
                ∙ append_assoc c.connected_server_ranks (connection p h ∷ []) (wanted r ps hs)),
            ((λ _. ground (arith, own)), same),
          )
      | inr f ↦ (
        rw f (rw (sym (ok_inj c c1 (rw f at one))) at ih),
        ((λ u. absurd (ground (arith, f, u))), same),
      )
    ]

-- What a runner rank has connected to.
pub record Wanted (m : ℕ) (xs hs : List ℕ) (w v : ℕ) (r r' : RunnerRank) : Type 0 where
  pub parts : List Part
  pub parts_hidden : List Part
  pub cut : calculate_n_to_m m xs w ≡ some parts
  pub cut_hidden : calculate_n_to_m m hs v ≡ some parts_hidden
  pub as_many : (parts_hidden ≡ []) ⊎ (length parts_hidden ≡ length parts)
  pub same_runner : SameRunner r.comm_rank parts parts_hidden
  pub rank_same : r'.comm_rank ≡ r.comm_rank
  pub connected :
      r'.field.connected_server_ranks
      ≡ r.field.connected_server_ranks ++ wanted r.comm_rank parts parts_hidden

SameRunner-nil : (r : ℕ) (ps : List Part) → SameRunner r ps []
SameRunner-nil r [] = tt
SameRunner-nil r (p ∷ ps) = tt

connect_all-wanted :
    (r : ℕ) (ports : List String) (ps qs : List Part) (c c' : Connected)
    → (length qs == 0 || length qs == length ps) ≡ true
    → (if is_empty qs then connect_parts r ports ps c else connect_parts_hidden r ports ps qs c)
      ≡ ok c'
    → ((qs ≡ []) ⊎ (length qs ≡ length ps))
      × (c'.connected_server_ranks ≡ c.connected_server_ranks ++ wanted r ps qs)
      × SameRunner r ps qs
connect_all-wanted r ports ps [] c c' many e =
    (inl refl, connect_parts-wanted r ports ps c c' e, SameRunner-nil r ps)
connect_all-wanted r ports ps (q ∷ qs) c c' many e =
    let l : length (q ∷ qs) ≡ length ps = ground (arith, many) in
    let (connected, same) = connect_parts_hidden-wanted r ports ps (q ∷ qs) c c' l e in
    (inr l, connected, same)

pub init_connections-Wanted :
    (m : ℕ) (ports : List String) (xs hs : List ℕ) (w v : ℕ) (r r' : RunnerRank)
    → init_connections m ports xs hs w v r ≡ ok r'
    → Wanted m xs hs w v r r'
unfolding init_connections
init_connections-Wanted m ports xs hs w v r r' e =
    let (ps, cut, e1) = >>=-eq-ok (or_fail out_of_range (calculate_n_to_m m xs w)) _ e in
    let (qs, cut_hidden, e2) = >>=-eq-ok (or_fail out_of_range (calculate_n_to_m m hs v)) _ e1 in
    let (many, e3) = check-inv (length qs == 0 || length qs == length ps) _ e2 in
    let c : Connected = record {
      connected_server_ranks = r.field.connected_server_ranks;
      ranks = r.ranks;
    } in
    let (c', done, e4) =
      >>=-eq-ok
        (if is_empty qs
          then connect_parts r.comm_rank ports ps c
          else connect_parts_hidden r.comm_rank ports ps qs c)
        _ e3 in
    let out = ok_inj _ r' e4 in
    let (many', connected, same) = connect_all-wanted r.comm_rank ports ps qs c c' many done in
    record {
      parts = ps;
      parts_hidden = qs;
      cut = or_fail-inv _ _ ps cut;
      cut_hidden = or_fail-inv _ _ qs cut_hidden;
      as_many = many';
      same_runner = same;
      rank_same = sym (ap (λ x. x.comm_rank) out);
      connected = sym (ap (λ x. x.field.connected_server_ranks) out) ∙ connected;
    }
