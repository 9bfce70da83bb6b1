-- ===== src/Api/Chunks/RoundTrip.antt =====
-- api/chunk_based.cxx: the two loops of `melissa_commit_chunks_f` that copy, from the model to the
-- buffers and back.
use fugaku_particle_filter.Prelude.{
  ℕ, zero, suc, ◌+◌, ◌≤◌, ◌≡◌, refl, sym, ap, ◌∙◌, inl, inr, List, [], ◌∷◌, ◌++◌, some, arith,
  if◌then◌else◌, length, take, drop, take-append-drop, length-append, length-take, length-drop,
  length_zero, append_assoc, append-nil, ok, Bool-cases,
}
use fugaku_particle_filter.Containers.{slice, overwrite}
use fugaku_particle_filter.Api.{copy_in}
use fugaku_particle_filter.Api.Exchange.{copy_in-append}
use fugaku_particle_filter.Api.Exchange.RoundTrip.{slice-append}
use fugaku_particle_filter.Api.Handover.{copy_in-fits}
use fugaku_particle_filter.Api.Chunks.{
  Chunk, bytes_of, Packing, pack_chunk, pack, unpack_chunk, unpack, from_start,
}

-- The bytes of a chunk in the memory of the model.
abbrev pub bytes_in : List ℕ → Chunk → List ℕ
bytes_in memory c = take (bytes_of c) (drop c.values memory)

-- All bytes of the assimilated chunks, and of the hidden ones.
abbrev pub assimilated : List ℕ → List Chunk → List ℕ
assimilated memory [] = []
assimilated memory (c ∷ cs) =
    let later = assimilated memory cs in
    if c.is_assimilated then bytes_in memory c ++ later else later

abbrev pub hidden : List ℕ → List Chunk → List ℕ
hidden memory [] = []
hidden memory (c ∷ cs) =
    let later = hidden memory cs in if c.is_assimilated then later else bytes_in memory c ++ later

abbrev pub AllInside : List ℕ → List Chunk → Type 0
AllInside memory [] = Unit {0}
AllInside memory (c ∷ cs) = (c.values + bytes_of c ≤ length memory) × AllInside memory cs

pub length-bytes_in :
    (memory : List ℕ) (c : Chunk)
    → c.values + bytes_of c ≤ length memory
    → length (bytes_in memory c) ≡ bytes_of c
length-bytes_in memory c h =
    omega (arith, length-take (bytes_of c) (drop c.values memory), length-drop c.values memory)

slice-bytes_in :
    (memory : List ℕ) (c : Chunk)
    → c.values + bytes_of c ≤ length memory
    → slice c.values (bytes_of c) memory ≡ some (bytes_in memory c)
unfolding slice
slice-bytes_in memory c h = ground arith

-- Buffers of which the parts up to the positions are done.
abbrev pub packing : List ℕ → List ℕ → List ℕ → List ℕ → Packing
packing done todo hidden_done hidden_todo = record {
  buf_assimilated = done ++ todo;
  buf_hidden = hidden_done ++ hidden_todo;
  pos_assimilated = length done;
  pos_hidden = length hidden_done;
}

pub advance-pos : (done v : List ℕ) (n : ℕ) → length v ≡ n → length done + n ≡ length (done ++ v)
advance-pos done v n l = omega (arith, length-append done v)

abbrev pub packed : List ℕ → List ℕ → Packing
packed buf_assimilated buf_hidden = record {
  buf_assimilated = buf_assimilated;
  buf_hidden = buf_hidden;
  pos_assimilated = length buf_assimilated;
  pos_hidden = length buf_hidden;
}

pack-content :
    (memory : List ℕ) (cs : List Chunk) (done todo hidden_done hidden_todo : List ℕ)
    → AllInside memory cs
    → length todo ≡ length (assimilated memory cs)
    → length hidden_todo ≡ length (hidden memory cs)
    → pack memory cs (packing done todo hidden_done hidden_todo)
      ≡ ok (packed (done ++ assimilated memory cs) (hidden_done ++ hidden memory cs))
unfolding pack pack_chunk
pack-content memory [] done todo hidden_done hidden_todo a l lh =
    rw (length_zero todo l, length_zero hidden_todo lh)
      (rw (append-nil done, append-nil hidden_done) refl)
pack-content memory (c ∷ cs) done todo hidden_done hidden_todo a l lh =
    let v = bytes_in memory c in
    let n = length-bytes_in memory c (a.0) in
    elim (Bool-cases c.is_assimilated) [
      | inl t ↦
          let l' = rw t at l in
          let all = length-append v (assimilated memory cs) in
          let put = copy_in-append (length done) v done todo refl (omega (arith, l', all)) in
          rw (t, slice-bytes_in memory c (a.0), put, advance-pos done v (bytes_of c) n)
            (pack-content memory cs (done ++ v) (drop (length v) todo) hidden_done hidden_todo a.1
                (omega (arith, l', all, length-drop (length v) todo)) (rw t at lh)
              ∙ rw (append_assoc done v (assimilated memory cs)) refl)
      | inr f ↦
          let l' = rw f at lh in
          let all = length-append v (hidden memory cs) in
          let put =
            copy_in-append (length hidden_done) v hidden_done hidden_todo refl
              (omega (arith, l', all)) in
          rw (f, slice-bytes_in memory c (a.0), put, advance-pos hidden_done v (bytes_of c) n)
            (pack-content memory cs done todo (hidden_done ++ v) (drop (length v) hidden_todo) a.1
                (rw f at l) (omega (arith, l', all, length-drop (length v) hidden_todo))
              ∙ rw (append_assoc hidden_done v (hidden memory cs)) refl)
    ]

-- Writing back what is there changes nothing.
take-drop-split :
    (o n : ℕ) (xs : List ℕ)
    → o + n ≤ length xs
    → take o xs ++ (take n (drop o xs) ++ drop (o + n) xs) ≡ xs
take-drop-split zero n xs h = ap (λ k. take n xs ++ drop k xs) (omega arith) ∙ take-append-drop n xs
take-drop-split (suc o) n [] h = absurd (omega arith)
take-drop-split (suc o) n (x ∷ xs) h =
    let e : suc o + n ≡ suc (o + n) = omega arith in
    rw e (ap (λ l. x ∷ l) (take-drop-split o n xs (omega arith)))

copy_in-same :
    (memory : List ℕ) (c : Chunk)
    → c.values + bytes_of c ≤ length memory
    → copy_in c.values (bytes_in memory c) memory ≡ ok memory
unfolding overwrite
copy_in-same memory c h =
    let n = length-bytes_in memory c h in
    copy_in-fits c.values (bytes_in memory c) memory (omega (arith, n, h))
    ∙ ap ok (rw n (take-drop-split c.values (bytes_of c) memory h))

-- The buffers as a whole, while the parts before the positions have been read.
unpack-content :
    (memory : List ℕ) (cs : List Chunk) (done hidden_done : List ℕ)
    → AllInside memory cs
    → unpack cs (packing done (assimilated memory cs) hidden_done (hidden memory cs)) memory
      ≡ ok memory
unfolding unpack unpack_chunk
unpack-content memory [] done hidden_done a = refl
unpack-content memory (c ∷ cs) done hidden_done a =
    let v = bytes_in memory c in
    let n = length-bytes_in memory c (a.0) in
    elim (Bool-cases c.is_assimilated) [
      | inl t ↦
          let got = slice-append (length done) done v (assimilated memory cs) (bytes_of c) refl n in
          rw (t, got, copy_in-same memory c (a.0), advance-pos done v (bytes_of c) n)
            (rw (sym (append_assoc done v (assimilated memory cs)))
              (unpack-content memory cs (done ++ v) hidden_done a.1))
      | inr f ↦
          let got =
            slice-append (length hidden_done) hidden_done v (hidden memory cs) (bytes_of c) refl
              n in
          rw (f, got, copy_in-same memory c (a.0), advance-pos hidden_done v (bytes_of c) n)
            (rw (sym (append_assoc hidden_done v (hidden memory cs)))
              (unpack-content memory cs done (hidden_done ++ v) a.1))
    ]

-- The chunks lie inside the memory of the model, and the buffers have room for them. Then the first
-- loop succeeds, the buffers are the bytes of the assimilated chunks and of the hidden chunks in
-- order, and the second loop, on unchanged buffers, leaves the memory as it was.
pub unpack-pack :
    (memory : List ℕ) (cs : List Chunk) (empty_assimilated empty_hidden : List ℕ)
    → AllInside memory cs
    → length empty_assimilated ≡ length (assimilated memory cs)
    → length empty_hidden ≡ length (hidden memory cs)
    → (pack memory cs (from_start empty_assimilated empty_hidden)
        ≡ ok (packed (assimilated memory cs) (hidden memory cs)))
      × (unpack cs (from_start (assimilated memory cs) (hidden memory cs)) memory ≡ ok memory)
unpack-pack memory cs empty_assimilated empty_hidden a l lh = (
  pack-content memory cs [] empty_assimilated [] empty_hidden a l lh,
  unpack-content memory cs [] [] a,
)
