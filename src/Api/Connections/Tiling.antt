-- ===== src/Api/Connections/Tiling.antt =====
-- api/api_common.cxx: where the parts of a runner rank lie in its vector.
use Prim.Native.String.{String}
use fugaku_particle_filter.Prelude.{
  ℕ, zero, suc, ◌+◌, ◌*◌, ◌<◌, ◌≡◌, refl, sym, ap, ◌∙◌, List, [], ◌∷◌, ◌++◌, some, some_inj, arith,
  ◌==◌, if◌then◌else◌, length, get_or, ok, append-nil,
}
use fugaku_particle_filter.Part.{Part, calculate_n_to_m, calculate_local_vect_sizes_server}
use fugaku_particle_filter.Part.Positions.{
  Link, Position, run, links, pair_up, expand, expand_all, positions, sum, AllIn, length-positions,
}
use fugaku_particle_filter.Part.Sizes.{IsSplittable, sum-calculate_local_vect_sizes_server}
use fugaku_particle_filter.Part.Correct.{IsCutting, calculate_n_to_m_lem}
use fugaku_particle_filter.Part.Positive.{AllPositive, calculate_n_to_m-AllPositive}
use fugaku_particle_filter.Api.{ConnectedServerRank, RunnerRank}
use fugaku_particle_filter.Api.Connections.{init_connections}
use fugaku_particle_filter.Api.Connections.Matching.{wanted, init_connections-Wanted}
use fugaku_particle_filter.Api.Exchange.{Tiles}

abbrev seq : ℕ → ℕ → List ℕ
seq o zero = []
seq o (suc n) = o ∷ seq (o + 1) n

-- The offsets on rank `r`, on the runner side.
abbrev offsets : ℕ → List Link → List ℕ
offsets r [] = []
offsets r (((p, o), s) ∷ l) = let later = offsets r l in if p == r then o ∷ later else later

abbrev offsets_of : ℕ → List Position → List ℕ
offsets_of r [] = []
offsets_of r ((p, o) ∷ l) = let later = offsets_of r l in if p == r then o ∷ later else later

abbrev covered : List ConnectedServerRank → List ℕ
covered [] = []
covered (c ∷ cs) = seq c.local_vector_offset c.send_count ++ covered cs

offsets-append : (r : ℕ) (l k : List Link) → offsets r (l ++ k) ≡ offsets r l ++ offsets r k
offsets-append r [] k = refl
offsets-append r (((p, o), s) ∷ l) k = ground (arith, offsets-append r l k)

offsets_of-append :
    (r : ℕ) (l k : List Position) → offsets_of r (l ++ k) ≡ offsets_of r l ++ offsets_of r k
offsets_of-append r [] k = refl
offsets_of-append r ((p, o) ∷ l) k = ground (arith, offsets_of-append r l k)

offsets-links :
    (r rr o rs p n : ℕ) → offsets r (links rr o rs p n) ≡ (if rr == r then seq o n else [])
offsets-links r rr o rs p zero = ground arith
offsets-links r rr o rs p (suc n) = ground (arith, offsets-links r rr (o + 1) rs (p + 1) n)

offsets-pair_up :
    (r : ℕ) (l k : List Position) → length l ≡ length k → offsets r (pair_up l k) ≡ offsets_of r l
offsets-pair_up r [] k e = refl
offsets-pair_up r (x ∷ l) [] e = absurd (omega arith)
offsets-pair_up r ((p, o) ∷ l) (y ∷ k) e = ground (arith, offsets-pair_up r l k (omega arith))

offsets_of-run : (r p o n : ℕ) → offsets_of r (run p o n) ≡ (if p == r then seq o n else [])
offsets_of-run r p o zero = ground arith
offsets_of-run r p o (suc n) = ground (arith, offsets_of-run r p (o + 1) n)

offsets-wanted : (r : ℕ) (ps hs : List Part) → offsets r (expand_all ps) ≡ covered (wanted r ps hs)
offsets-wanted r [] hs = refl
offsets-wanted r (p ∷ ps) [] =
    offsets-append r (expand p) (expand_all ps)
    ∙ ground (
      arith,
      offsets-links r p.rank_runner p.local_offset_runner p.rank_server p.local_offset_server
          p.send_count,
      offsets-wanted r ps [],
    )
offsets-wanted r (p ∷ ps) (h ∷ hs) =
    offsets-append r (expand p) (expand_all ps)
    ∙ ground (
      arith,
      offsets-links r p.rank_runner p.local_offset_runner p.rank_server p.local_offset_server
          p.send_count,
      offsets-wanted r ps hs,
    )

offsets_of-later : (r k : ℕ) (ys : List ℕ) → r < k → offsets_of r (positions k ys) ≡ []
offsets_of-later r k [] h = refl
offsets_of-later r k (y ∷ ys) h = ground (
  arith,
  offsets_of-append r (run k 0 y) (positions (k + 1) ys),
  offsets_of-run r k 0 y,
  offsets_of-later r (k + 1) ys (omega arith),
)

-- A rank holds its offsets in order.
offsets_of-positions :
    (r k j : ℕ) (ys : List ℕ) → r ≡ k + j → offsets_of r (positions k ys) ≡ seq 0 (get_or ys j 0)
offsets_of-positions r k j [] e = refl
offsets_of-positions r k zero (y ∷ ys) e = ground (
  arith,
  offsets_of-append r (run k 0 y) (positions (k + 1) ys),
  offsets_of-run r k 0 y,
  offsets_of-later r (k + 1) ys (omega arith),
  append-nil (seq 0 y),
)
offsets_of-positions r k (suc j) (y ∷ ys) e = ground (
  arith,
  offsets_of-append r (run k 0 y) (positions (k + 1) ys),
  offsets_of-run r k 0 y,
  offsets_of-positions r (k + 1) j ys (omega arith),
)

abbrev AllSent : List ConnectedServerRank → Type 0
AllSent [] = Unit {0}
AllSent (c ∷ cs) = (0 < c.send_count) × AllSent cs

wanted-AllSent : (r : ℕ) (ps hs : List Part) → AllPositive ps → AllSent (wanted r ps hs)
wanted-AllSent r [] hs a = tt
wanted-AllSent r (p ∷ ps) [] a = ground (arith, wanted-AllSent r ps [] a.1, a.0)
wanted-AllSent r (p ∷ ps) (h ∷ hs) a = ground (arith, wanted-AllSent r ps hs a.1, a.0)

cons_inj : {x y : ℕ} {xs ys : List ℕ} → x ∷ xs ≡ y ∷ ys → (x ≡ y) × (xs ≡ ys)
cons_inj e = (cc, cc)

seq-cancel :
    (a o n : ℕ) (later : List ℕ)
    → seq o a ++ later ≡ seq o n
    → (m : ℕ) × (a + m ≡ n) × (later ≡ seq (o + a) m)
seq-cancel zero o n later e = (n, omega arith, rw (add_zero o) e)
  where
    add_zero : (o : ℕ) → o + 0 ≡ o
    add_zero o = omega arith
seq-cancel (suc a) o zero later e = cc
seq-cancel (suc a) o (suc n) later e =
    let (m, total, is) = seq-cancel a (o + 1) n later (cons_inj e).1 in
    let at : o + 1 + a ≡ o + suc a = omega arith in (m, omega (arith, total), rw at at is)

covered-Tiles :
    (o n : ℕ) (cs : List ConnectedServerRank)
    → AllSent cs
    → covered cs ≡ seq o n
    → Tiles o cs (o + n)
covered-Tiles o zero [] a e = omega arith
covered-Tiles o (suc n) [] a e = cc
covered-Tiles o n (c ∷ cs) a e =
    let first : c.local_vector_offset ≡ o = starts c.send_count (a.0) n e in
    let (m, total, later) = seq-cancel c.send_count o n (covered cs) (rw first at e) in
    let end : o + c.send_count + m ≡ o + n = omega (arith, total) in
    (first, rw end at (covered-Tiles (o + c.send_count) m cs a.1 later))
  where
    starts :
        (k : ℕ)
        → 0 < k
        → (n : ℕ) → seq c.local_vector_offset k ++ covered cs ≡ seq o n
        → c.local_vector_offset ≡ o
    starts zero h n e = elim h [ ]
    starts (suc k) h zero e = cc
    starts (suc k) h (suc n) e = (cons_inj e).0

cut-covered :
    (m g w r : ℕ) (xs : List ℕ) (parts : List Part)
    → IsSplittable m g w
    → AllIn xs
    → sum xs ≡ g * w
    → calculate_n_to_m m xs w ≡ some parts
    → offsets r (expand_all parts) ≡ seq 0 (get_or xs r 0)
cut-covered m g w r xs parts v all e done =
    let ys = calculate_local_vect_sizes_server m (sum xs) w in
    let cut : (ps : List Part) × IsCutting m w xs ps = calculate_n_to_m_lem m g w xs v all e in
    let same : cut.0 ≡ parts = some_inj (cut.0) parts (sym (cut.1.0) ∙ done) in
    let as_many : length (positions 0 xs) ≡ length (positions 0 ys) = omega (
      arith,
      length-positions 0 xs,
      length-positions 0 ys,
      e,
      rw (← e) at (sum-calculate_local_vect_sizes_server m g w v),
    ) in
    ap (λ ps. offsets r (expand_all ps)) (sym same)
    ∙ ap (offsets r) (cut.1.1)
    ∙ offsets-pair_up r (positions 0 xs) (positions 0 ys) as_many
    ∙ offsets_of-positions r 0 r xs (omega arith)

-- For a field of `g` elements of `w` bytes, held in positive sizes by the runner ranks, and split on
-- `m` server ranks with `m ≤ g`: the connections that a runner rank initialises, of which it had none,
-- begin at the start of its local vector, follow one another with no gap and no overlap, and end at
-- its end.
pub init_connections-Tiles :
    (m g w v : ℕ) (ports : List String) (xs hs : List ℕ) (r r' : RunnerRank)
    → IsSplittable m g w
    → AllIn xs
    → sum xs ≡ g * w
    → init_connections m ports xs hs w v r ≡ ok r'
    → r.field.connected_server_ranks ≡ []
    → Tiles 0 r'.field.connected_server_ranks (get_or xs r.comm_rank 0)
init_connections-Tiles m g w v ports xs hs r r' split all e done fresh =
    let x = init_connections-Wanted m ports xs hs w v r r' done in
    let is : r'.field.connected_server_ranks ≡ wanted r.comm_rank x.parts x.parts_hidden =
      rw fresh at x.connected in
    let whole : 0 + get_or xs r.comm_rank 0 ≡ get_or xs r.comm_rank 0 = omega arith in
    rw is (
      rw whole at (
        covered-Tiles 0 (get_or xs r.comm_rank 0) (wanted r.comm_rank x.parts x.parts_hidden)
          (wanted-AllSent r.comm_rank x.parts x.parts_hidden
            (calculate_n_to_m-AllPositive m w xs x.parts x.cut))
          (sym (offsets-wanted r.comm_rank x.parts x.parts_hidden)
            ∙ cut-covered m g w r.comm_rank xs x.parts split all e x.cut)))
