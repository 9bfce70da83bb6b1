-- ===== src/Api/Chunks.antt =====
-- api/chunk_based.cxx: the interface by which a model hands over its state in chunks. `VEC_T` is
-- `char`; the memory of the model is a list of bytes, and a pointer into it is an offset.
pub mod RoundTrip
pub mod Apart
pub mod IndexMap
use Prim.Native.String.{String}
use fugaku_particle_filter.Prelude.{
  ℕ, zero, suc, ◌+◌, ◌-◌, ◌*◌, ◌%◌, List, [], ◌∷◌, ◌++◌, Option, Bool, true, false, ◌==◌, not,
  if◌then◌else◌, none, get_elem?, replicate, Result, ok, err, out_of_range, check, or_fail, ◌>>=◌,
  ◌>>◌,
}
use fugaku_particle_filter.Prelude.Int.{ℤ}
use fugaku_particle_filter.Containers.{slice}
use fugaku_particle_filter.Server.{Content}
use fugaku_particle_filter.Server.Registration.{FieldMessage}
use fugaku_particle_filter.Api.{Buffers, RunnerRank, copy_in, melissa_expose}
use fugaku_particle_filter.Api.Registration.{
  InitArguments, index_map_entry, melissa_init_with_index_map,
}

pub record Chunk : Type 0 where
  pub varid : ℕ
  pub index_map : List ℕ
  pub values : ℕ
  pub size_per_element : ℕ
  pub count : ℕ
  pub is_assimilated : Bool

-- The static variables of the file.
pub record Chunks : Type 0 where
  pub chunks : List Chunk
  pub may_add_chunks : Bool
  pub hidden_size : ℕ
  pub assimilated_size : ℕ
  pub is_inited : Bool

unfoldable pub melissa_add_chunk : Chunk → Chunks → Result Chunks
melissa_add_chunk c s = do check s.may_add_chunks; ok (record s { chunks = s.chunks ++ (c ∷ []) })

abbrev pub bytes_of : Chunk → ℕ
bytes_of c = c.size_per_element * c.count

-- The loop over the chunks that adds up the sizes.
unfoldable pub add_sizes : List Chunk → Chunks → Chunks
add_sizes [] s = s
add_sizes (c ∷ cs) s = add_sizes cs (record s {
  assimilated_size =
      if c.is_assimilated then s.assimilated_size + bytes_of c else s.assimilated_size;
  hidden_size = if c.is_assimilated then s.hidden_size else s.hidden_size + bytes_of c;
})

-- The loop over the bytes of a chunk, with the bytes left, `i`, and `j` one higher than in the source,
-- where it begins at -1. Each byte has the entry of its element. A size of 0 leaves no bytes.
unfoldable pub index_entries : Chunk → ℕ → ℕ → ℕ → Result (List ℕ)
index_entries c zero i j = ok []
index_entries c (suc left) i j = do
  let j' = if i % c.size_per_element == 0 then j + 1 else j
  index ← or_fail out_of_range (get_elem? c.index_map (j' - 1))
  later ← index_entries c left (i + 1) j'
  ok (index_map_entry index c.varid ∷ later)

-- The index maps of the assimilated and of the hidden state, over all chunks.
unfoldable pub index_maps : List Chunk → Result (List ℕ × List ℕ)
unfolding index_entries
index_maps [] = ok ([], [])
index_maps (c ∷ cs) = do
  entries ← index_entries c (bytes_of c) 0 0
  (later, later_hidden) ← index_maps cs
  ok (
      if c.is_assimilated
      then (entries ++ later, later_hidden)
      else (later, entries ++ later_hidden))

-- The buffers, and the positions in them.
pub record Packing : Type 0 where
  pub buf_assimilated : List ℕ
  pub buf_hidden : List ℕ
  pub pos_assimilated : ℕ
  pub pos_hidden : ℕ

-- `memcpy` of one chunk from the model to its buffer.
unfoldable pub pack_chunk : List ℕ → Chunk → Packing → Result Packing
unfolding slice copy_in
pack_chunk memory c p = do
  bytes ← or_fail out_of_range (slice c.values (bytes_of c) memory)
  if c.is_assimilated
      then (copy_in p.pos_assimilated bytes p.buf_assimilated >>= λ buf.
          ok (record p { buf_assimilated = buf; pos_assimilated = p.pos_assimilated + bytes_of c }))
      else (copy_in p.pos_hidden bytes p.buf_hidden >>= λ buf.
          ok (record p { buf_hidden = buf; pos_hidden = p.pos_hidden + bytes_of c }))

unfoldable pub pack : List ℕ → List Chunk → Packing → Result Packing
unfolding pack_chunk
pack memory [] p = ok p
pack memory (c ∷ cs) p = pack_chunk memory c p >>= pack memory cs

-- `memcpy` of one chunk from its buffer to the model.
unfoldable pub unpack_chunk : Chunk → Packing → List ℕ → Result (Packing × List ℕ)
unfolding slice copy_in
unpack_chunk c p memory =
    if c.is_assimilated
    then (do
      bytes ← or_fail out_of_range (slice p.pos_assimilated (bytes_of c) p.buf_assimilated)
      memory' ← copy_in c.values bytes memory
      ok (record p { pos_assimilated = p.pos_assimilated + bytes_of c }, memory'))
    else (do
      bytes ← or_fail out_of_range (slice p.pos_hidden (bytes_of c) p.buf_hidden)
      memory' ← copy_in c.values bytes memory
      ok (record p { pos_hidden = p.pos_hidden + bytes_of c }, memory'))

unfoldable pub unpack : List Chunk → Packing → List ℕ → Result (List ℕ)
unfolding unpack_chunk
unpack [] p memory = ok memory
unpack (c ∷ cs) p memory = unpack_chunk c p memory >>= λ (p', memory'). unpack cs p' memory'

abbrev pub from_start : List ℕ → List ℕ → Packing
from_start buf_assimilated buf_hidden = record {
  buf_assimilated = buf_assimilated;
  buf_hidden = buf_hidden;
  pos_assimilated = 0;
  pos_hidden = 0;
}

-- What the collective calls of a runner bring, on all its ranks: the arguments of the initialisation
-- for the sizes and the index maps of this rank; and the answer of the server.
pub record Collective : Type 0 where
  pub gathered : ℕ → ℕ → List ℕ → List ℕ → InitArguments
  pub must_register : Bool
  pub comm_size : ℕ
  pub port_names : List String

-- The first commit initialises the runner.
unfoldable pub init_chunks :
    Collective → Chunks → RunnerRank → Result (Chunks × Option FieldMessage × RunnerRank)
unfolding add_sizes index_maps melissa_init_with_index_map
init_chunks g s r = do
  let s' = add_sizes s.chunks s
  (global_index_map, global_index_map_hidden) ← index_maps s.chunks
  (message, r') ←
      melissa_init_with_index_map g.must_register g.comm_size g.port_names
        (g.gathered s'.assimilated_size s'.hidden_size global_index_map global_index_map_hidden) r
  ok (record s' { is_inited = true; may_add_chunks = false }, message, r')

-- From the model to the buffers, out to the server, and back.
unfoldable pub expose_chunks :
    (ℕ → List Content) → List ℕ → Chunks → RunnerRank → Result (ℤ × List ℕ × RunnerRank)
unfolding pack unpack melissa_expose
expose_chunks inbox memory s r = do
  p ← pack memory s.chunks (from_start (replicate s.assimilated_size 0) (replicate s.hidden_size 0))
  (nsteps, b, r') ←
      melissa_expose "data" inbox
        (record { values = p.buf_assimilated; hidden_values = p.buf_hidden }) r
  memory' ← unpack s.chunks (from_start b.values b.hidden_values) memory
  ok (nsteps, memory', r')

-- `melissa_commit_chunks_f`.
unfoldable pub melissa_commit_chunks_f :
    Collective
    → (ℕ → List Content)
    → List ℕ
    → Chunks
    → RunnerRank
    → Result (ℤ × List ℕ × Chunks × Option FieldMessage × RunnerRank)
unfolding init_chunks expose_chunks
melissa_commit_chunks_f g inbox memory s r = do
  (s', message, r') ← if s.is_inited then ok (s, none, r) else init_chunks g s r
  (nsteps, memory', r'') ← expose_chunks inbox memory s' r'
  ok (nsteps, memory', s', message, r'')
