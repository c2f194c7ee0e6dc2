-- ===== src/StreamBlocks/Bounds.antt =====
-- The sizes of the blocks that `packStreamChunks` of src/stream-blocks.ts makes, and when it makes
-- them.
use workflow_world.Prelude.{
  ◌≡◌, refl, subst, ℕ, suc, ◌+◌, ◌≤◌, ◌==◌, ltb, false, ◌||◌, Option, none, some, List, [], ◌∷◌,
  ◌++◌, length, arith, length-append, All, Bool-cases, Option-cases, ◌⊎◌, inl, inr,
}
use workflow_world.StreamBlocks.{
  Utf8, LogicalStreamChunk, PackedStreamBlock, encode_block, encode_entries, flush, is_full,
  pack_from, pack_stream_chunks, encoded_bytes,
}
use workflow_world.StreamBlocks.Encoding.{total, total-append, length-encode_entries}
use workflow_world.StreamBlocks.Packing.{split_blocks}

-- A block has a chunk, at most so many, and at most so many bytes unless it is one chunk alone.
abbrev pub Within : ℕ → ℕ → PackedStreamBlock → Type 0
Within max_chunks max_bytes b =
    (1 ≤ b.chunk_count)
    × (b.chunk_count ≤ max_chunks)
    × ((length b.bytes ≤ max_bytes) ⊎ (b.chunk_count ≡ 1))

module _ (utf8 : Utf8) (max_chunks max_bytes : ℕ) where
  All-append :
      (xs ys : List PackedStreamBlock)
      → All (Within max_chunks max_bytes) xs
      → All (Within max_chunks max_bytes) ys
      → All (Within max_chunks max_bytes) (xs ++ ys)
  All-append [] ys h k = k
  All-append (x ∷ xs) ys h k = (h.0, All-append xs ys h.1 k)

  -- What packing knows of the chunks that are pending.
  abbrev Fits : List LogicalStreamChunk → ℕ → Type 0
  Fits pending bytes =
      (bytes ≡ total utf8 pending)
      × (length pending ≤ max_chunks)
      × ((bytes ≤ max_bytes) ⊎ (length pending ≤ 1))

  abbrev AllIn : Option (List PackedStreamBlock) → Type 0
  AllIn none = Unit
  AllIn (some blocks) = All (Within max_chunks max_bytes) blocks

  Within-flush :
      (pending : List LogicalStreamChunk) (bytes : ℕ) (blocks : List PackedStreamBlock)
      → Fits pending bytes
      → flush utf8 pending ≡ some blocks
      → All (Within max_chunks max_bytes) blocks
  unfolding flush encode_block
  Within-flush [] bytes blocks fits h = let same : blocks ≡ [] = cc in rw same tt
  Within-flush (c ∷ cs) bytes blocks fits h = elim (Option-cases (encode_entries utf8 (c ∷ cs))) [
    | inl bad ↦ let k = rw bad at h in cc
    | inr (encoded, good) ↦
        let k = rw good at h in
        let size = length-encode_entries utf8 (c ∷ cs) encoded good in
        let small : (length encoded ≤ max_bytes) ⊎ (suc (length cs) ≡ 1) = elim fits.2 [
          | inl few_bytes ↦ inl (omega (arith, fits.0))
          | inr alone ↦ inr (omega arith)
        ] in
        subst AllIn k ((omega arith, fits.1, small), tt)
  ]

  Fits-next :
      (pending : List LogicalStreamChunk) (bytes : ℕ) (c : LogicalStreamChunk)
      → 1 ≤ max_chunks
      → Fits pending bytes
      → is_full utf8 max_chunks max_bytes pending bytes c ≡ false
      → Fits (pending ++ c ∷ []) (bytes + encoded_bytes utf8 c)
  unfolding is_full
  Fits-next pending bytes c positive fits room = (
    omega (arith, fits.0, total-append utf8 pending c),
    ground (arith, fits.1, length-append pending (c ∷ [])),
    elim (Bool-cases (ltb max_bytes (bytes + encoded_bytes utf8 c))) [
      | inl large ↦ inr (ground (arith, length-append pending (c ∷ [])))
      | inr small ↦ inl (ground arith)
    ],
  )

  Fits-first : (c : LogicalStreamChunk) → 1 ≤ max_chunks → Fits (c ∷ []) (0 + encoded_bytes utf8 c)
  unfolding total
  Fits-first c positive = (omega arith, omega arith, inr (omega arith))

  Within-pack_from :
      (pending : List LogicalStreamChunk) (bytes : ℕ) (cs : List LogicalStreamChunk)
      (blocks : List PackedStreamBlock)
      → 1 ≤ max_chunks
      → Fits pending bytes
      → pack_from utf8 max_chunks max_bytes pending bytes cs ≡ some blocks
      → All (Within max_chunks max_bytes) blocks
  unfolding pack_from
  Within-pack_from pending bytes [] blocks positive fits h =
      Within-flush pending bytes blocks fits h
  Within-pack_from pending bytes (c ∷ cs) blocks positive fits h =
      elim (Bool-cases (ltb 65535 (length (utf8.encode c.id)))) [
        | inl long ↦ let k = rw long at h in cc
        | inr short ↦ elim (Bool-cases (is_full utf8 max_chunks max_bytes pending bytes c)) [
          | inl full ↦
              let k = rw (short, full) at h in
              let (xs, ys, first, rest, all) = split_blocks utf8 _ _ blocks k in
              rw all (
                All-append xs ys (Within-flush pending bytes xs fits first)
                  (Within-pack_from (c ∷ []) _ cs ys positive (Fits-first c positive) rest))
          | inr room ↦
              let k = rw (short, room) at h in
              let (xs, ys, first, rest, all) = split_blocks utf8 (some []) _ blocks k in
              let none_yet : xs ≡ [] = cc in
              rw (all, none_yet)
                (Within-pack_from (pending ++ c ∷ []) _ cs ys positive
                  (Fits-next pending bytes c positive fits room) rest)
        ]
      ]

  -- Each block of a packed stream has at least one chunk and at most the limit of chunks, and its
  -- bytes are at most the limit of bytes, unless it is one chunk alone.
  pub pack_stream_chunks-Within :
      (cs : List LogicalStreamChunk) (blocks : List PackedStreamBlock)
      → pack_stream_chunks utf8 max_chunks max_bytes cs ≡ some blocks
      → All (Within max_chunks max_bytes) blocks
  unfolding pack_stream_chunks total
  pack_stream_chunks-Within cs blocks h = elim (Bool-cases (max_chunks == 0 || max_bytes == 0)) [
    | inl unlimited ↦ let k = rw unlimited at h in cc
    | inr limited ↦
        let k = rw limited at h in
        let positive : 1 ≤ max_chunks = ground arith in
        Within-pack_from [] 0 cs blocks positive (refl, omega arith, inl (omega arith)) k
  ]
