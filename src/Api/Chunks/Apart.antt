-- ===== src/Api/Chunks/Apart.antt =====
-- api/chunk_based.cxx: what arrives in the memory of the model, chunk by chunk.
use fugaku_particle_filter.Prelude.{
  ℕ, zero, suc, ◌+◌, ◌-◌, ◌≤◌, ◌≡◌, refl, sym, ap, ap₂, ◌∙◌, ◌⊎◌, inl, inr, List, [], ◌∷◌, ◌++◌,
  Option, some, none, true, false, Bool, arith, ltb, leb, ◌&&◌, if◌then◌else◌, length, take, drop,
  take-append-drop, length-append, length-take, length-drop, length_zero, length-replicate,
  replicate, append_assoc, get_elem?, ok, Bool-cases, some_inj,
}
use fugaku_particle_filter.Containers.{slice, overwrite}
use fugaku_particle_filter.Field.Members.{get_elem?-overwrite, length-overwrite}
use fugaku_particle_filter.Api.Exchange.{take-length-append, drop-length-append}
use fugaku_particle_filter.Api.Exchange.RoundTrip.{slice-append}
use fugaku_particle_filter.Api.Handover.{copy_in-fits}
use fugaku_particle_filter.Api.Chunks.{Chunk, bytes_of, unpack_chunk, unpack, pack, from_start}
use fugaku_particle_filter.Api.Chunks.RoundTrip.{
  bytes_in, assimilated, hidden, AllInside, packing, advance-pos, packed, unpack-pack,
  length-bytes_in,
}

-- Two chunks that share no byte.
abbrev pub IsApart : Chunk → Chunk → Type 0
IsApart c d = (c.values + bytes_of c ≤ d.values) ⊎ (d.values + bytes_of d ≤ c.values)

abbrev pub AllApart : Chunk → List Chunk → Type 0
AllApart c [] = Unit {0}
AllApart c (d ∷ ds) = IsApart c d × AllApart c ds

abbrev pub PairwiseApart : List Chunk → Type 0
PairwiseApart [] = Unit {0}
PairwiseApart (c ∷ cs) = AllApart c cs × PairwiseApart cs

-- The sizes of the buffers.
abbrev pub size_assimilated : List Chunk → ℕ
size_assimilated [] = 0
size_assimilated (c ∷ cs) =
    let later = size_assimilated cs in if c.is_assimilated then bytes_of c + later else later

abbrev pub size_hidden : List Chunk → ℕ
size_hidden [] = 0
size_hidden (c ∷ cs) =
    let later = size_hidden cs in if c.is_assimilated then later else bytes_of c + later

List-ext : (xs ys : List ℕ) → ((i : ℕ) → get_elem? xs i ≡ get_elem? ys i) → xs ≡ ys
List-ext [] [] h = refl
List-ext [] (y ∷ ys) h = let bad = h 0 in cc
List-ext (x ∷ xs) [] h = let bad = h 0 in cc
List-ext (x ∷ xs) (y ∷ ys) h =
    ap₂ (λ a b. a ∷ b) (some_inj x y (h 0)) (List-ext xs ys (λ i. h (suc i)))

get_elem?-take :
    (n i : ℕ) (xs : List ℕ) → get_elem? (take n xs) i ≡ (if ltb i n then get_elem? xs i else none)
get_elem?-take zero i xs = ground arith
get_elem?-take (suc n) i [] = ground arith
get_elem?-take (suc n) zero (x ∷ xs) = ground arith
get_elem?-take (suc n) (suc i) (x ∷ xs) = get_elem?-take n i xs ∙ ground arith

get_elem?-drop_add : (o i : ℕ) (xs : List ℕ) → get_elem? (drop o xs) i ≡ get_elem? xs (o + i)
get_elem?-drop_add zero i xs = ap (get_elem? xs) (omega arith)
get_elem?-drop_add (suc o) i [] = refl
get_elem?-drop_add (suc o) i (x ∷ xs) =
    let e : suc o + i ≡ suc (o + i) = omega arith in rw e (get_elem?-drop_add o i xs)

if-same :
    (b : Bool) (x y : Option ℕ)
    → (b ≡ true → x ≡ y)
    → (if b then x else none) ≡ (if b then y else none)
if-same true x y h = h refl
if-same false x y h = refl

-- A chunk keeps its bytes when a chunk apart from it is written.
bytes_in-overwrite :
    (memory v : List ℕ) (c d : Chunk)
    → IsApart d c
    → length v ≡ bytes_of c
    → c.values + bytes_of c ≤ length memory
    → bytes_in (overwrite c.values v memory) d ≡ bytes_in memory d
bytes_in-overwrite memory v c d apart l fits =
    let w = overwrite c.values v memory in
    let n = bytes_of d in
    List-ext _ _ (λ i.
      get_elem?-take n i (drop d.values w)
      ∙ if-same (ltb i n) (get_elem? (drop d.values w) i) (get_elem? (drop d.values memory) i)
          (λ lt.
            get_elem?-drop_add d.values i w
            ∙ get_elem?-overwrite c.values (d.values + i) v memory (omega (arith, l, fits))
            ∙ out i lt
            ∙ sym (get_elem?-drop_add d.values i memory))
      ∙ sym (get_elem?-take n i (drop d.values memory)))
  where
    out :
        (i : ℕ)
        → ltb i (bytes_of d) ≡ true
        → (if leb c.values (d.values + i) && ltb (d.values + i) (c.values + length v)
            then get_elem? v (d.values + i - c.values)
            else get_elem? memory (d.values + i))
          ≡ get_elem? memory (d.values + i)
    out i lt = ground (arith, apart, l, lt)

bytes_in-written :
    (memory v : List ℕ) (c : Chunk)
    → length v ≡ bytes_of c
    → c.values + bytes_of c ≤ length memory
    → bytes_in (overwrite c.values v memory) c ≡ v
unfolding overwrite
bytes_in-written memory v c l fits =
    let before : length (take c.values memory) ≡ c.values =
      omega (arith, length-take c.values memory) in
    let later = drop (c.values + length v) memory in
    let start : drop c.values (take c.values memory ++ (v ++ later)) ≡ v ++ later =
      ap (λ k. drop k (take c.values memory ++ (v ++ later))) (omega (arith, before))
      ∙ drop-length-append 0 (take c.values memory) (v ++ later) in
    rw (start, sym l) (take-length-append v later)

-- What the second loop leaves in the memory.
pub record Arrived (memory memory' : List ℕ) (cs : List Chunk) (buf_assimilated buf_hidden : List ℕ)
    : Type 0 where
  pub length_same : length memory' ≡ length memory
  pub assimilated_is : assimilated memory' cs ≡ buf_assimilated
  pub hidden_is : hidden memory' cs ≡ buf_hidden
  pub others_same : (d : Chunk) → AllApart d cs → bytes_in memory' d ≡ bytes_in memory d

AllInside-same :
    (memory memory' : List ℕ) (cs : List Chunk)
    → length memory' ≡ length memory
    → AllInside memory cs
    → AllInside memory' cs
AllInside-same memory memory' [] e a = tt
AllInside-same memory memory' (c ∷ cs) e a =
    (omega (arith, e, a.0), AllInside-same memory memory' cs e a.1)

-- The front of what is left of a buffer, where it has been read up to `done`.
slice-front :
    (done todo : List ℕ) (n : ℕ)
    → length (take n todo) ≡ n
    → slice (length done) n (done ++ todo) ≡ some (take n todo)
slice-front done todo n l =
    ap (λ p. slice (length done) n (done ++ p)) (sym (take-append-drop n todo))
    ∙ slice-append (length done) done (take n todo) (drop n todo) n refl l

move_front : (done todo : List ℕ) (n : ℕ) → (done ++ take n todo) ++ drop n todo ≡ done ++ todo
move_front done todo n =
    append_assoc done (take n todo) (drop n todo) ∙ ap (λ p. done ++ p) (take-append-drop n todo)

-- The first chunk has been written before the others, which are apart from it.
write_first :
    (memory memory' v ba bh : List ℕ) (c : Chunk) (cs : List Chunk)
    → length v ≡ bytes_of c
    → c.values + bytes_of c ≤ length memory
    → AllApart c cs
    → Arrived (overwrite c.values v memory) memory' cs ba bh
    → (length memory' ≡ length memory)
      × (bytes_in memory' c ≡ v)
      × ((d : Chunk) → AllApart d (c ∷ cs) → bytes_in memory' d ≡ bytes_in memory d)
write_first memory memory' v ba bh c cs n fits apart x = (
  x.length_same ∙ length-overwrite c.values v memory (omega (arith, n, fits)),
  x.others_same c apart ∙ bytes_in-written memory v c n fits,
  λ d away. x.others_same d (away.1) ∙ bytes_in-overwrite memory v c d (away.0) n fits,
)

front :
    (todo : List ℕ) (n m : ℕ)
    → length todo ≡ n + m
    → (length (take n todo) ≡ n) × (length (drop n todo) ≡ m)
front todo n m e = (omega (arith, length-take n todo), omega (arith, length-drop n todo))

unpack-Arrived :
    (memory : List ℕ) (cs : List Chunk) (done todo hidden_done hidden_todo : List ℕ)
    → AllInside memory cs
    → PairwiseApart cs
    → length todo ≡ size_assimilated cs
    → length hidden_todo ≡ size_hidden cs
    → (memory' : List ℕ) × (unpack cs (packing done todo hidden_done hidden_todo) memory
        ≡ ok memory')
      × Arrived memory memory' cs todo hidden_todo
unfolding unpack unpack_chunk
unpack-Arrived memory [] done todo hidden_done hidden_todo a apart l lh = (
  memory,
  refl,
  record {
    length_same = refl;
    assimilated_is = sym (length_zero todo l);
    hidden_is = sym (length_zero hidden_todo lh);
    others_same = λ d _. refl;
  },
)
unpack-Arrived memory (c ∷ cs) done todo hidden_done hidden_todo a apart l lh =
    elim (Bool-cases c.is_assimilated) [
      | inl t ↦
          let (n, m) = front todo (bytes_of c) (size_assimilated cs) (rw t at l) in
          let v = take (bytes_of c) todo in
          let later = drop (bytes_of c) todo in
          let memory1 = overwrite c.values v memory in
          let put = copy_in-fits c.values v memory (omega (arith, n, a.0)) in
          let same = length-overwrite c.values v memory (omega (arith, n, a.0)) in
          let (memory', did, x) =
            unpack-Arrived memory1 cs (done ++ v) later hidden_done hidden_todo
              (AllInside-same memory memory1 cs same (a.1)) (apart.1) m (rw t at lh) in
          let (size, own, others) =
            write_first memory memory' v later hidden_todo c cs n (a.0) (apart.0) x in
          (
            memory',
            rw (t, slice-front done todo (bytes_of c) n, put, advance-pos done v (bytes_of c) n)
                (rw (move_front done todo (bytes_of c)) at did),
            record {
              length_same = size;
              assimilated_is =
                  rw t
                    (ap₂ (λ p q. p ++ q) own x.assimilated_is ∙ take-append-drop (bytes_of c) todo);
              hidden_is = rw t x.hidden_is;
              others_same = others;
            },
          )
      | inr t ↦
          let (n, m) = front hidden_todo (bytes_of c) (size_hidden cs) (rw t at lh) in
          let v = take (bytes_of c) hidden_todo in
          let later = drop (bytes_of c) hidden_todo in
          let memory1 = overwrite c.values v memory in
          let put = copy_in-fits c.values v memory (omega (arith, n, a.0)) in
          let same = length-overwrite c.values v memory (omega (arith, n, a.0)) in
          let (memory', did, x) =
            unpack-Arrived memory1 cs done todo (hidden_done ++ v) later
              (AllInside-same memory memory1 cs same (a.1)) (apart.1) (rw t at l) m in
          let (size, own, others) =
            write_first memory memory' v todo later c cs n (a.0) (apart.0) x in
          (
            memory',
            rw
                (
                  t,
                  slice-front hidden_done hidden_todo (bytes_of c) n,
                  put,
                  advance-pos hidden_done v (bytes_of c) n,
                )
                (rw (move_front hidden_done hidden_todo (bytes_of c)) at did),
            record {
              length_same = size;
              assimilated_is = rw t x.assimilated_is;
              hidden_is =
                  rw t (
                    ap₂ (λ p q. p ++ q) own x.hidden_is
                    ∙ take-append-drop (bytes_of c) hidden_todo);
              others_same = others;
            },
          )
    ]

size_assimilated-length :
    (memory : List ℕ) (cs : List Chunk)
    → AllInside memory cs
    → (length (assimilated memory cs) ≡ size_assimilated cs)
      × (length (hidden memory cs) ≡ size_hidden cs)
size_assimilated-length memory [] a = (refl, refl)
size_assimilated-length memory (c ∷ cs) a =
    let (l, lh) = size_assimilated-length memory cs a.1 in
    let n = length-bytes_in memory c (a.0) in
    let v = bytes_in memory c in
    (
      ground (arith, l, n, length-append v (assimilated memory cs)),
      ground (arith, lh, n, length-append v (hidden memory cs)),
    )

-- The chunks lie inside the memory of the model, share no byte, and the buffers that come back are of
-- their sizes. Then the second loop succeeds; the first loop, on the memory it leaves, would bring just
-- these buffers again; and every run of bytes that shares none with a chunk is as it was.
pub pack-unpack :
    (memory : List ℕ) (cs : List Chunk) (buf_assimilated buf_hidden : List ℕ)
    → AllInside memory cs
    → PairwiseApart cs
    → length buf_assimilated ≡ size_assimilated cs
    → length buf_hidden ≡ size_hidden cs
    → (memory' : List ℕ) × (unpack cs (from_start buf_assimilated buf_hidden) memory ≡ ok memory')
      × (pack memory' cs
            (from_start (replicate (size_assimilated cs) 0) (replicate (size_hidden cs) 0))
          ≡ ok (packed buf_assimilated buf_hidden))
      × ((d : Chunk) → AllApart d cs → bytes_in memory' d ≡ bytes_in memory d)
pack-unpack memory cs ba bh a apart l lh =
    let (memory', did, x) = unpack-Arrived memory cs [] ba [] bh a apart l lh in
    let a' = AllInside-same memory memory' cs x.length_same a in
    let (n, m) = size_assimilated-length memory' cs a' in
    let again =
      unpack-pack memory' cs (replicate (size_assimilated cs) 0) (replicate (size_hidden cs) 0) a'
        (length-replicate (size_assimilated cs) 0 ∙ sym n)
        (length-replicate (size_hidden cs) 0 ∙ sym m) in
    (memory', did, rw (x.assimilated_is, x.hidden_is) at again.0, x.others_same)
