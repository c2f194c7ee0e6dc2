-- ===== src/StreamBlocks/Success.antt =====
-- When `packStreamChunks` of src/stream-blocks.ts does not refuse.
use workflow_world.Prelude.{
  ◌≡◌, refl, ℕ, ◌+◌, ◌<◌, ◌≤◌, ◌==◌, ltb, true, false, ◌||◌, some, List, [], ◌∷◌, ◌++◌, length,
  arith, All, Bool-cases, inl, inr,
}
use workflow_world.StreamBlocks.{
  Utf8, LogicalStreamChunk, PackedStreamBlock, write_u16, write_u32, append_bytes, both_bytes,
  encode_entry, encode_block, encode_entries, flush, join_blocks, is_full, pack_from,
  pack_stream_chunks, encoded_bytes,
}

module _ (utf8 : Utf8) where
  -- An id of a length that has 16 bits, and data of a length that has 32.
  abbrev pub IsPackable : LogicalStreamChunk → Type 0
  IsPackable c = (length (utf8.encode c.id) ≤ 65535) × (length c.bytes < 4294967296)

  encode_entry-some :
      (c : LogicalStreamChunk)
      → IsPackable c
      → (encoded : List ℕ) × (encode_entry utf8 c ≡ some encoded)
  unfolding encode_entry write_u16 write_u32 both_bytes append_bytes
  encode_entry-some c fits =
      let short : ltb (length (utf8.encode c.id)) 65536 ≡ true = ground (arith, fits.0) in
      let small : ltb (length c.bytes) 4294967296 ≡ true = ground (arith, fits.1) in
      rw (short, small) (_, refl)

  encode_entries-some :
      (cs : List LogicalStreamChunk)
      → All IsPackable cs
      → (encoded : List ℕ) × (encode_entries utf8 cs ≡ some encoded)
  unfolding encode_entries both_bytes
  encode_entries-some [] fits = ([], refl)
  encode_entries-some (c ∷ cs) fits =
      let (first, head) = encode_entry-some c fits.0 in
      let (rest, tail) = encode_entries-some cs fits.1 in (first ++ rest, rw (head, tail) refl)

  flush-some :
      (cs : List LogicalStreamChunk)
      → All IsPackable cs
      → (blocks : List PackedStreamBlock) × (flush utf8 cs ≡ some blocks)
  unfolding flush encode_block
  flush-some [] fits = ([], refl)
  flush-some (c ∷ cs) fits =
      let (encoded, good) = encode_entries-some (c ∷ cs) fits in rw good (_, refl)

  All-append :
      (xs ys : List LogicalStreamChunk)
      → All IsPackable xs
      → All IsPackable ys
      → All IsPackable (xs ++ ys)
  All-append [] ys h k = k
  All-append (x ∷ xs) ys h k = (h.0, All-append xs ys h.1 k)

  pack_from-some :
      (max_chunks max_bytes : ℕ) (pending : List LogicalStreamChunk) (bytes : ℕ)
      (cs : List LogicalStreamChunk)
      → All IsPackable pending
      → All IsPackable cs
      → (blocks : List PackedStreamBlock) × (pack_from utf8 max_chunks max_bytes pending bytes cs
          ≡ some blocks)
  unfolding pack_from join_blocks
  pack_from-some mc mb pending bytes [] old new = flush-some pending old
  pack_from-some mc mb pending bytes (c ∷ cs) old new =
      let short : ltb 65535 (length (utf8.encode c.id)) ≡ false = ground (arith, new.0.0) in
      elim (Bool-cases (is_full utf8 mc mb pending bytes c)) [
        | inl full ↦
            let (xs, first) = flush-some pending old in
            let (ys, rest) =
              pack_from-some mc mb (c ∷ []) (0 + encoded_bytes utf8 c) cs (new.0, tt) new.1 in
            rw (short, full, first, rest) (_, refl)
        | inr room ↦
            let (ys, rest) =
              pack_from-some mc mb (pending ++ c ∷ []) (bytes + encoded_bytes utf8 c) cs
                (All-append pending (c ∷ []) old (new.0, tt)) new.1 in
            rw (short, room, rest) (_, refl)
      ]

  -- Packing returns blocks for every list of chunks whose ids and data have lengths that the header
  -- can hold, if neither limit is zero.
  pub pack_stream_chunks-some :
      (max_chunks max_bytes : ℕ) (cs : List LogicalStreamChunk)
      → 1 ≤ max_chunks
      → 1 ≤ max_bytes
      → All IsPackable cs
      → (blocks : List PackedStreamBlock) × (pack_stream_chunks utf8 max_chunks max_bytes cs
          ≡ some blocks)
  unfolding pack_stream_chunks
  pack_stream_chunks-some mc mb cs some_chunks some_bytes fits =
      let limited : (mc == 0 || mb == 0) ≡ false = ground arith in
      rw limited (pack_from-some mc mb [] 0 cs tt fits)
