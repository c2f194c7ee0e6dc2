-- ===== src/StreamBlocks/Packing.antt =====
-- What `packStreamChunks` of src/stream-blocks.ts makes of a list of chunks.
use mathlib.Core.List.{append_assoc, append-nil}
use workflow_world.Prelude.{
  ◌≡◌, refl, sym, ◌∙◌, ap, ℕ, ◌==◌, ltb, ◌||◌, Option, none, some, List, [], ◌∷◌, ◌++◌, map, length,
  All, Bool-cases, Option-cases, inl, inr,
}
use workflow_world.StreamBlocks.{
  Utf8, LogicalStreamChunk, PackedStreamBlock, encode_block, flush, join_blocks, is_full, pack_from,
  pack_stream_chunks, append_chunks, unpack_rows, unpack_stream_row, stored_row,
}
use workflow_world.StreamBlocks.RoundTrip.{Utf8Laws, IsChunk, unpack_stream_row-encode_block}

module _ (utf8 : Utf8) where
  -- The chunks that a list of blocks is read back as.
  abbrev unpacked : List PackedStreamBlock → Option (List LogicalStreamChunk)
  unpacked blocks = unpack_rows utf8 (map stored_row blocks)

  All-append :
      (xs ys : List LogicalStreamChunk) → All IsChunk xs → All IsChunk ys → All IsChunk (xs ++ ys)
  All-append [] ys h k = k
  All-append (x ∷ xs) ys h k = (h.0, All-append xs ys h.1 k)

  split_chunks :
      (a b : Option (List LogicalStreamChunk)) (e : List LogicalStreamChunk)
      → append_chunks utf8 a b ≡ some e
      → (x : List LogicalStreamChunk) × (y : List LogicalStreamChunk) × (a ≡ some x)
        × (b ≡ some y)
        × (e ≡ x ++ y)
  unfolding append_chunks
  split_chunks (some x) (some y) e h = (x, y, refl, refl, cc)
  split_chunks (some x) none e h = cc
  split_chunks none b e h = cc

  unpacked-append :
      (xs ys : List PackedStreamBlock) (cs ds : List LogicalStreamChunk)
      → unpacked xs ≡ some cs
      → unpacked ys ≡ some ds
      → unpacked (xs ++ ys) ≡ some (cs ++ ds)
  unfolding unpack_rows append_chunks
  unpacked-append [] ys cs ds h k = let same : cs ≡ [] = cc in rw same k
  unpacked-append (x ∷ xs) ys cs ds h k =
      let (a, b, first, rest, all) =
        split_chunks (unpack_stream_row utf8 (stored_row x)) (unpacked xs) cs h in
      let more = unpacked-append xs ys b ds rest k in
      rw (first, more, all) (ap some (sym (append_assoc a b ds)))

  pub split_blocks :
      (a b : Option (List PackedStreamBlock)) (e : List PackedStreamBlock)
      → join_blocks utf8 a b ≡ some e
      → (x : List PackedStreamBlock) × (y : List PackedStreamBlock) × (a ≡ some x)
        × (b ≡ some y)
        × (e ≡ x ++ y)
  unfolding join_blocks
  split_blocks (some x) (some y) e h = (x, y, refl, refl, cc)
  split_blocks (some x) none e h = cc
  split_blocks none b e h = cc

  module _ (laws : Utf8Laws utf8) where
    unpacked-flush :
        (cs : List LogicalStreamChunk) (blocks : List PackedStreamBlock)
        → All IsChunk cs
        → flush utf8 cs ≡ some blocks
        → unpacked blocks ≡ some cs
    unfolding flush unpack_rows append_chunks
    unpacked-flush [] blocks valid h = let same : blocks ≡ [] = cc in rw same refl
    unpacked-flush (c ∷ cs) blocks valid h = elim (Option-cases (encode_block utf8 c cs)) [
      | inl bad ↦ let k = rw bad at h in cc
      | inr (b, good) ↦
          let k = rw good at h in
          let same : blocks ≡ b ∷ [] = cc in
          let back = unpack_stream_row-encode_block utf8 laws c cs b valid good in
          rw (same, back, append-nil cs) refl
    ]

    -- What is pending and what is still to come, read back from the blocks.
    unpacked-pack_from :
        (max_chunks max_bytes : ℕ) (pending : List LogicalStreamChunk) (bytes : ℕ)
        (cs : List LogicalStreamChunk) (blocks : List PackedStreamBlock)
        → All IsChunk pending
        → All IsChunk cs
        → pack_from utf8 max_chunks max_bytes pending bytes cs ≡ some blocks
        → unpacked blocks ≡ some (pending ++ cs)
    unfolding pack_from
    unpacked-pack_from mc mb pending bytes [] blocks old new h =
        unpacked-flush pending blocks old h ∙ ap some (sym (append-nil pending))
    unpacked-pack_from mc mb pending bytes (c ∷ cs) blocks old new h =
        elim (Bool-cases (ltb 65535 (length (utf8.encode c.id)))) [
          | inl long ↦ let k = rw long at h in cc
          | inr short ↦ elim (Bool-cases (is_full utf8 mc mb pending bytes c)) [
            | inl full ↦
                let k = rw (short, full) at h in
                let (xs, ys, first, rest, all) = split_blocks _ _ blocks k in
                rw all (
                  unpacked-append xs ys pending (c ∷ cs) (unpacked-flush pending xs old first)
                    (unpacked-pack_from mc mb (c ∷ []) _ cs ys (new.0, tt) new.1 rest))
            | inr room ↦
                let k = rw (short, room) at h in
                let (xs, ys, first, rest, all) = split_blocks (some []) _ blocks k in
                let none_yet : xs ≡ [] = cc in
                rw (all, none_yet)
                  (unpacked-pack_from mc mb (pending ++ c ∷ []) _ cs ys
                      (All-append pending (c ∷ []) old (new.0, tt)) new.1 rest
                    ∙ ap some (append_assoc pending (c ∷ []) cs))
          ]
        ]

    -- The chunks of a stream, packed into blocks and read back from the rows that store them, are the
    -- same chunks in the same order, whatever the limits, if packing does not refuse them. Of the
    -- UTF-8 codec it is relied on that decoding undoes encoding.
    pub unpack_rows-pack_stream_chunks :
        (max_chunks max_bytes : ℕ) (cs : List LogicalStreamChunk) (blocks : List PackedStreamBlock)
        → All IsChunk cs
        → pack_stream_chunks utf8 max_chunks max_bytes cs ≡ some blocks
        → unpack_rows utf8 (map stored_row blocks) ≡ some cs
    unfolding pack_stream_chunks
    unpack_rows-pack_stream_chunks mc mb cs blocks valid h =
        elim (Bool-cases (mc == 0 || mb == 0)) [
          | inl zero_limit ↦ let k = rw zero_limit at h in cc
          | inr positive ↦
              let k = rw positive at h in unpacked-pack_from mc mb [] 0 cs blocks tt valid k
        ]
