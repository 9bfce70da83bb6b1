-- ===== src/Tests/Memory.antt =====
-- Runs of api/chunk_based.cxx: two assimilated integers of two bytes each, and a hidden byte, in a memory
-- of eight bytes.
use fugaku_particle_filter.Prelude.{
  ℕ, ◌≡◌, refl, List, [], ◌∷◌, ok, true, false, arith, inr, replicate, take,
}
use fugaku_particle_filter.Api.Chunks.{Chunk, bytes_of, index_entries, unpack, pack, from_start}
use fugaku_particle_filter.Api.Chunks.RoundTrip.{bytes_in, packed}
use fugaku_particle_filter.Api.Chunks.Apart.{AllApart, pack-unpack, size_assimilated, size_hidden}
use fugaku_particle_filter.Api.Chunks.IndexMap.{each_byte, index_entries-each_byte}

abbrev integers : Chunk
integers = record {
  varid = 1;
  index_map = 5 ∷ 6 ∷ [];
  values = 3;
  size_per_element = 2;
  count = 2;
  is_assimilated = true;
}

abbrev one_byte : Chunk
one_byte = record {
  varid = 2;
  index_map = 9 ∷ [];
  values = 1;
  size_per_element = 1;
  count = 1;
  is_assimilated = false;
}

abbrev two_chunks : List Chunk
two_chunks = integers ∷ (one_byte ∷ [])

abbrev eight_bytes : List ℕ
eight_bytes = 0 ∷ 1 ∷ 2 ∷ 3 ∷ 4 ∷ 5 ∷ 6 ∷ 7 ∷ []

pack_example :
    (memory' : List ℕ) × (unpack two_chunks
        (from_start (30 ∷ 40 ∷ 50 ∷ 60 ∷ []) (10 ∷ []))
        eight_bytes
      ≡ ok memory')
    × (pack memory' two_chunks (
          from_start
            (replicate (size_assimilated two_chunks) 0)
            (replicate (size_hidden two_chunks) 0))
        ≡ ok (packed (30 ∷ 40 ∷ 50 ∷ 60 ∷ []) (10 ∷ [])))
    × ((d : Chunk) → AllApart d two_chunks → bytes_in memory' d ≡ bytes_in eight_bytes d)
pack_example =
    pack-unpack eight_bytes two_chunks (30 ∷ 40 ∷ 50 ∷ 60 ∷ []) (10 ∷ [])
      (omega arith, (omega arith, tt)) ((inr (omega arith), tt), (tt, tt)) refl refl

each_byte_example :
    index_entries integers (bytes_of integers) 0 0 ≡ ok (each_byte 2 1 (take 2 (5 ∷ 6 ∷ [])))
each_byte_example = index_entries-each_byte integers (omega arith) (omega arith)
