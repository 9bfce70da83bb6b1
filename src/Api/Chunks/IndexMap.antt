-- ===== src/Api/Chunks/IndexMap.antt =====
-- api/chunk_based.cxx: the index maps of `melissa_commit_chunks_f`, which give every byte the entry of
-- its element.
use fugaku_particle_filter.Prelude.{
  ℕ, zero, suc, ◌+◌, ◌-◌, ◌*◌, ◌%◌, ◌≤◌, ◌<◌, ◌≡◌, refl, sym, ap, List, [], ◌∷◌, ◌++◌, some, true,
  false, arith, ◌==◌, length, take, replicate, get_elem?, ok, drop,
}
use fugaku_particle_filter.Part.Positions.{get_elem?-drop}
use fugaku_particle_filter.Api.Registration.{index_map_entry}
use fugaku_particle_filter.Api.Chunks.{Chunk, bytes_of, index_entries}

-- `w` times the entry of each index.
abbrev pub each_byte : ℕ → ℕ → List ℕ → List ℕ
each_byte w varid [] = []
each_byte w varid (index ∷ indices) =
    replicate w (index_map_entry index varid) ++ each_byte w varid indices

inside_element : (q w r : ℕ) → suc r < w → (q * w + (w - suc r)) % w ≡ w - suc r
inside_element q w r h = grind arith

element_start : (q w : ℕ) → 0 < w → q * w % w ≡ 0
element_start q w h = grind arith

replicate-front :
    (w : ℕ) (xs : List ℕ) (e : ℕ) → 0 < w → replicate w e ++ xs ≡ e ∷ (replicate (w - 1) e ++ xs)
replicate-front zero xs e h = elim h [ ]
replicate-front (suc w) xs e h = let same : suc w - 1 ≡ w = omega arith in rw same refl

-- The bytes of an element after its first.
index_entries-inside :
    (c : Chunk) (q r left index : ℕ) (later : List ℕ)
    → r < c.size_per_element
    → get_elem? c.index_map q ≡ some index
    → index_entries c left (suc q * c.size_per_element) (suc q) ≡ ok later
    → index_entries c (r + left) (q * c.size_per_element + (c.size_per_element - r)) (suc q)
      ≡ ok (replicate r (index_map_entry index c.varid) ++ later)
unfolding index_entries
index_entries-inside c q zero left index later h at e =
    let w = c.size_per_element in
    let all : 0 + left ≡ left = omega arith in
    let here : q * w + (w - 0) ≡ suc q * w = grind arith in rw (all, here) e
index_entries-inside c q (suc r) left index later h at e =
    let w = c.size_per_element in
    let all : suc r + left ≡ suc (r + left) = omega arith in
    let not_first : ((q * w + (w - suc r)) % w == 0) ≡ false =
      ground (arith, inside_element q w r h) in
    let next : q * w + (w - suc r) + 1 ≡ q * w + (w - r) = omega (arith, h) in
    let same : suc q - 1 ≡ q = omega arith in
    let rest = index_entries-inside c q r left index later (omega (arith, h)) at e in
    rw (all, not_first, same, at, next, rest) refl

index_entries-element :
    (c : Chunk) (q left index : ℕ) (later : List ℕ)
    → 0 < c.size_per_element
    → get_elem? c.index_map q ≡ some index
    → index_entries c left (suc q * c.size_per_element) (suc q) ≡ ok later
    → index_entries c (c.size_per_element + left) (q * c.size_per_element) q
      ≡ ok (replicate c.size_per_element (index_map_entry index c.varid) ++ later)
unfolding index_entries
index_entries-element c q left index later h at e =
    let w = c.size_per_element in
    let all : w + left ≡ suc (w - 1 + left) = omega (arith, h) in
    let first : (q * w % w == 0) ≡ true = ground (arith, element_start q w h) in
    let next : q * w + (w - (w - 1)) ≡ q * w + 1 = omega (arith, h) in
    let up : q + 1 ≡ suc q = omega arith in
    let same : suc q - 1 ≡ q = omega arith in
    let rest =
      rw next at (index_entries-inside c q (w - 1) left index later (omega (arith, h)) at e) in
    rw (all, first, up, same, at, rest)
      (ap ok (sym (replicate-front w later (index_map_entry index c.varid) h)))

index_entries-elements :
    (c : Chunk) (q : ℕ) (indices : List ℕ) (n : ℕ)
    → 0 < c.size_per_element
    → drop q c.index_map ≡ indices
    → n ≤ length indices
    → index_entries c (c.size_per_element * n) (q * c.size_per_element) q
      ≡ ok (each_byte c.size_per_element c.varid (take n indices))
unfolding index_entries
index_entries-elements c q indices zero h d l =
    let none_left : c.size_per_element * 0 ≡ 0 = omega arith in rw none_left refl
index_entries-elements c q [] (suc n) h d l = absurd (omega (arith, l))
index_entries-elements c q (x ∷ xs) (suc n) h d l =
    let w = c.size_per_element in
    let (at, later) = get_elem?-drop c.index_map q x xs d in
    let up : q + 1 ≡ suc q = omega arith in
    let more : w * suc n ≡ w + w * n = grind arith in
    rw more (
      index_entries-element c q (w * n) x (each_byte w c.varid (take n xs)) h at
        (index_entries-elements c (suc q) xs n h (rw up at later) (omega (arith, l))))

-- A chunk with elements of at least one byte, and with an index for each of them at least: the loop
-- succeeds, and its entries are those of the elements, each as often as its element has bytes.
pub index_entries-each_byte :
    (c : Chunk)
    → 0 < c.size_per_element
    → c.count ≤ length c.index_map
    → index_entries c (bytes_of c) 0 0
      ≡ ok (each_byte c.size_per_element c.varid (take c.count c.index_map))
index_entries-each_byte c h l =
    let start : 0 * c.size_per_element ≡ 0 = omega arith in
    rw start at (index_entries-elements c 0 c.index_map c.count h refl l)
