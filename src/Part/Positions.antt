-- ===== src/Part/Positions.antt =====
-- What `calculate_n_to_m` of common/Part.cxx is for: the n-th byte of the field, counted over the
-- runner ranks, goes to the n-th byte, counted over the server ranks.
use fugaku_particle_filter.Prelude.{
  ℕ, zero, suc, ◌+◌, ◌-◌, ◌≤◌, ◌<◌, ◌≡◌, refl, ap, subst, ◌∙◌, ◌⊎◌, inl, inr, List, [], ◌∷◌, ◌++◌,
  append_assoc, some, Bool, true, false, arith, length, length-append, drop, get_elem?, List-cases,
}
use fugaku_particle_filter.Part.{Part, size_t_mod, crosses}

-- A byte: its rank, and its offset there.
abbrev pub Position : Type 0
Position = ℕ × ℕ

abbrev pub run : ℕ → ℕ → ℕ → List Position
run rank offset zero = []
run rank offset (suc n) = (rank, offset) ∷ run rank (offset + 1) n

-- All bytes of the ranks from `rank` on, in order, where these hold so many bytes.
abbrev pub positions : ℕ → List ℕ → List Position
positions rank [] = []
positions rank (size ∷ sizes) = run rank 0 size ++ positions (rank + 1) sizes

abbrev pub Link : Type 0
Link = Position × Position

abbrev pub pair_up : List Position → List Position → List Link
pair_up [] ys = []
pair_up (x ∷ xs) [] = []
pair_up (x ∷ xs) (y ∷ ys) = (x, y) ∷ pair_up xs ys

-- The pairs of bytes that a part joins, runner side first.
abbrev pub links : ℕ → ℕ → ℕ → ℕ → ℕ → List Link
links rank_runner offset_runner rank_server offset_server zero = []
links rank_runner offset_runner rank_server offset_server (suc n) =
    ((rank_runner, offset_runner), (rank_server, offset_server))
    ∷ links rank_runner (offset_runner + 1) rank_server (offset_server + 1) n

abbrev pub expand : Part → List Link
expand p =
    links p.rank_runner p.local_offset_runner p.rank_server p.local_offset_server p.send_count

abbrev pub expand_all : List Part → List Link
expand_all [] = []
expand_all (p ∷ ps) = expand p ++ expand_all ps

abbrev pub sum : List ℕ → ℕ
sum [] = 0
sum (x ∷ xs) = x + sum xs

abbrev pub AllIn : List ℕ → Type 0
AllIn [] = Unit {0}
AllIn (x ∷ xs) = (0 < x) × (x < size_t_mod) × AllIn xs

lt_cases : (i s : ℕ) → i ≤ s → (i < s) ⊎ (i ≡ s)
lt_cases i s h = omega arith

pub links-suc :
    (rr o rs p n : ℕ)
    → links rr o rs p (suc n) ≡ links rr o rs p n ++ (((rr, o + n), (rs, p + n)) ∷ [])
links-suc rr o rs p zero = ground arith
links-suc rr o rs p (suc n) = ground (arith, links-suc rr (o + 1) rs (p + 1) n)

pub expand_all-append : (ps qs : List Part) → expand_all (ps ++ qs) ≡ expand_all ps ++ expand_all qs
expand_all-append [] qs = refl
expand_all-append (p ∷ ps) qs =
    rw (expand_all-append ps qs, append_assoc (expand p) (expand_all ps) (expand_all qs)) refl

pub length-run : (r o n : ℕ) → length (run r o n) ≡ n
length-run r o zero = refl
length-run r o (suc n) = ap suc (length-run r (o + 1) n)

pub length-positions : (r : ℕ) (sizes : List ℕ) → length (positions r sizes) ≡ sum sizes
length-positions r [] = refl
length-positions r (s ∷ ss) = omega (
  arith,
  length-append (run r 0 s) (positions (r + 1) ss),
  length-run r 0 s,
  length-positions (r + 1) ss,
)

-- The bytes from offset `i` of rank `r` on, which holds `s`, while `ss` are the ranks after it.
abbrev pub rest : ℕ → ℕ → ℕ → List ℕ → List Position
rest r i s ss = run r i (s - i) ++ positions (r + 1) ss

pub run-step : (r i s : ℕ) → i < s → run r i (s - i) ≡ (r, i) ∷ run r (i + 1) (s - (i + 1))
run-step r i s h = let e : s - i ≡ suc (s - (i + 1)) = omega arith in rw e refl

run_none : (r i s : ℕ) → i ≡ s → run r i (s - i) ≡ []
run_none r i s e = let z : s - i ≡ 0 = omega arith in rw z refl

run_first : (r t : ℕ) → 0 < t → run r 0 t ≡ (r, 0) ∷ run r (0 + 1) (t - (0 + 1))
run_first r zero h = elim h [ ]
run_first r (suc t) h = ap (λ k. (r, 0) ∷ run r 1 k) (omega arith)

pub get_elem?-drop :
    (xs : List ℕ) (n x : ℕ) (ys : List ℕ)
    → drop n xs ≡ x ∷ ys
    → (get_elem? xs n ≡ some x) × (drop (n + 1) xs ≡ ys)
get_elem?-drop [] zero x ys h = cc
get_elem?-drop [] (suc n) x ys h = cc
get_elem?-drop (y ∷ xs) zero x ys h = ground arith
get_elem?-drop (y ∷ xs) (suc n) x ys h = ground (arith, get_elem?-drop xs n x ys h)

-- Offset `i` of rank `r`, with `n` bytes from there on.
pub record Side (sizes : List ℕ) (r i n : ℕ) : Type 0 where
  pub size : ℕ
  pub later : List ℕ
  pub here : drop r sizes ≡ size ∷ later
  pub sizes_in : AllIn (size ∷ later)
  pub bound : i ≤ size
  pub left : size - i + sum later ≡ n

abbrev pub bytes : {sizes : List ℕ} (r i : ℕ) {n : ℕ} → Side sizes r i n → List Position
bytes r i x = rest r i x.size x.later

-- The rank and offset at which a border test puts the next byte.
abbrev pub Lands : Bool → ℕ → ℕ → ℕ → ℕ → Type 0
Lands true r i rank offset = (rank ≡ r + 1) × (offset ≡ 0)
Lands false r i rank offset = (rank ≡ r) × (offset ≡ i)

-- Where the next byte lies: on this rank, or at the start of the next one, which is what the border
-- test of the loop finds out.
pub record Next {sizes : List ℕ} {r i n : ℕ} (x : Side sizes r i (suc n)) : Type 0 where
  pub rank : ℕ
  pub offset : ℕ
  pub border : Bool
  pub crossed : crosses i x.size ≡ border
  pub lands : Lands border r i rank offset
  pub after : Side sizes rank (offset + 1) n
  pub step : bytes r i x ≡ (rank, offset) ∷ bytes rank (offset + 1) after

stay : {sizes : List ℕ} {r i n : ℕ} (x : Side sizes r i (suc n)) → i < x.size → Next x
stay {sizes} {r} {i} {n} x lt = record {
  rank = r;
  offset = i;
  border = false;
  crossed = ground (arith, x.sizes_in);
  lands = (refl, refl);
  after = record {
    size = x.size;
    later = x.later;
    here = x.here;
    sizes_in = x.sizes_in;
    bound = omega arith;
    left = omega (arith, x.left);
  };
  step = rw (run-step r i (x.size) lt) refl;
}

Next-rank :
    {sizes : List ℕ} {r i n : ℕ} (x : Side sizes r i (suc n)) (t : ℕ) (ts : List ℕ)
    → i ≡ x.size
    → x.later ≡ t ∷ ts
    → Next x
Next-rank {sizes} {r} {i} {n} x t ts e l = record {
  rank = r + 1;
  offset = 0;
  border = true;
  crossed = ground (arith, x.sizes_in);
  lands = (refl, refl);
  after = record {
    size = t;
    later = ts;
    here = (get_elem?-drop sizes r (x.size) (x.later) x.here).1 ∙ l;
    sizes_in = later_in;
    bound = later_in.0;
    left = omega (arith, x.left, ap sum l, later_in.0);
  };
  step = rw (run_none r i (x.size) e, l, run_first (r + 1) t (later_in.0)) refl;
}
  where
    later_in : AllIn (t ∷ ts)
    later_in = subst AllIn l (x.sizes_in.2)

pub find-Next : {sizes : List ℕ} {r i n : ℕ} (x : Side sizes r i (suc n)) → Next x
find-Next {sizes} {r} {i} {n} x = elim (lt_cases i (x.size) x.bound) [
  | inl lt ↦ stay x lt
  | inr e ↦ elim (List-cases x.later) [
    | inl none_left ↦ absurd (omega (arith, x.left, ap sum none_left))
    | inr (t, ts, l) ↦ Next-rank x t ts e l
  ]
]

pub bytes_none : {sizes : List ℕ} {r i : ℕ} (x : Side sizes r i 0) → bytes r i x ≡ []
bytes_none {sizes} {r} {i} x = elim (List-cases x.later) [
  | inl l ↦ rw (l, run_none r i (x.size) (omega (arith, x.left, x.bound))) refl
  | inr (t, ts, l) ↦
      let later_in : AllIn (t ∷ ts) = subst AllIn l (x.sizes_in.2) in
      absurd (omega (arith, x.left, ap sum l, later_in.0))
]
