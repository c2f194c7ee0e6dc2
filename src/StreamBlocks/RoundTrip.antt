-- ===== src/StreamBlocks/RoundTrip.antt =====
-- Unpacking a packed block of src/stream-blocks.ts gives its chunks back.
use Prim.Native.String.{String}
use text.Mathlib.Text.{◌==◌ as str_eq, starts_with}
use text.Mathlib.TextEquality.{eq_iff}
use mathlib.Core.List.{append_assoc}
use workflow_world.Prelude.{
  ◌≡◌, refl, ◌∙◌, ap, subst, ℕ, zero, suc, ◌+◌, ◌*◌, ◌/◌, ◌%◌, ◌≤◌, ==_refl, ltb, true, false, some,
  List, [], ◌∷◌, ◌++◌, length, arith, length-append, take-length-append, drop-length-append, All,
  Option-cases, inl, inr,
}
use workflow_world.StreamBlocks.{
  Utf8, LogicalStreamChunk, PackedStreamBlock, encode_entry, encode_entries, encode_block, chunk_of,
  read_entry, read_entries, add_rest, checked, last_id, id_eq, unpack_stream_row, stored_row,
}
use workflow_world.StreamBlocks.Encoding.{entry, encode_entry-entry, length-entry, split_bytes}

-- What the codec is relied on for.
pub record Utf8Laws (utf8 : Utf8) : Type 0 where
  pub decode-encode : (s : String) → utf8.decode (utf8.encode s) ≡ s

-- The type of a chunk's id, `chnk_${string}`.
abbrev pub IsChunk : LogicalStreamChunk → Type 0
IsChunk c = starts_with c.id "chnk_" ≡ true

module _ (utf8 : Utf8) (laws : Utf8Laws utf8) where
  chunk_of-encoded :
      (c : LogicalStreamChunk) (rest : List ℕ)
      → IsChunk c
      → chunk_of utf8
          (length (utf8.encode c.id))
          (length c.bytes)
          (utf8.encode c.id ++ (c.bytes ++ rest))
        ≡ some (c, rest)
  unfolding chunk_of
  chunk_of-encoded c rest valid =
      rw
        (
          take-length-append (utf8.encode c.id) (c.bytes ++ rest),
          drop-length-append (utf8.encode c.id) (c.bytes ++ rest),
          take-length-append c.bytes rest,
          drop-length-append c.bytes rest,
          laws.decode-encode c.id,
          valid,
          fits,
        )
        refl
    where
      fits :
          ltb
            (length (utf8.encode c.id ++ (c.bytes ++ rest)))
            (length (utf8.encode c.id) + length c.bytes)
          ≡ false
      fits =
          ground
            (arith, length-append (utf8.encode c.id) (c.bytes ++ rest), length-append c.bytes rest)

  u16 : (n : ℕ) → n / 256 * 256 + n % 256 ≡ n
  u16 n = omega arith

  u32 : (n : ℕ) → ((n / 16777216 * 256 + n / 65536 % 256) * 256 + n / 256 % 256) * 256 + n % 256 ≡ n
  u32 n = omega arith

  read_entry-entry :
      (c : LogicalStreamChunk) (rest : List ℕ)
      → IsChunk c
      → read_entry utf8 (entry utf8 c ++ rest) ≡ some (c, rest)
  unfolding read_entry
  read_entry-entry c rest valid =
      rw
        (
          u16 (length (utf8.encode c.id)),
          u32 (length c.bytes),
          append_assoc (utf8.encode c.id) c.bytes rest,
        )
        (chunk_of-encoded c rest valid)

  read_entries-step :
      (x : ℕ) (xs rest : List ℕ) (c : LogicalStreamChunk) (cs : List LogicalStreamChunk) (fuel : ℕ)
      → read_entry utf8 (x ∷ xs) ≡ some (c, rest)
      → read_entries utf8 fuel rest ≡ some cs
      → read_entries utf8 (suc fuel) (x ∷ xs) ≡ some (c ∷ cs)
  unfolding read_entries add_rest
  read_entries-step x xs rest c cs fuel head tail = rw (head, tail) refl

  read_entries-entry :
      (c : LogicalStreamChunk) (cs : List LogicalStreamChunk) (rest : List ℕ) (fuel : ℕ)
      → IsChunk c
      → length (entry utf8 c ++ rest) ≤ fuel
      → ((less : ℕ) → length rest ≤ less → read_entries utf8 less rest ≡ some cs)
      → read_entries utf8 fuel (entry utf8 c ++ rest) ≡ some (c ∷ cs)
  read_entries-entry c cs rest zero valid enough more =
      absurd (omega (arith, length-entry utf8 c rest))
  read_entries-entry c cs rest (suc fuel) valid enough more =
      read_entries-step _ _ rest c cs fuel (read_entry-entry c rest valid)
        (more fuel (omega (arith, length-entry utf8 c rest)))

  -- The entries of a block, read with at least as much fuel as there are bytes.
  read_entries-encode_entries :
      (cs : List LogicalStreamChunk) (encoded : List ℕ) (fuel : ℕ)
      → All IsChunk cs
      → encode_entries utf8 cs ≡ some encoded
      → length encoded ≤ fuel
      → read_entries utf8 fuel encoded ≡ some cs
  unfolding encode_entries read_entries
  read_entries-encode_entries [] encoded fuel valid h enough =
      let same : encoded ≡ [] = cc in rw same refl
  read_entries-encode_entries (c ∷ cs) encoded fuel valid h enough =
      let (first, rest, head, tail, all) =
        split_bytes utf8 (encode_entry utf8 c) (encode_entries utf8 cs) encoded h in
      let same : encoded ≡ entry utf8 c ++ rest =
        all ∙ ap (λ l. l ++ rest) (encode_entry-entry utf8 c first head) in
      let enough' = rw same at enough in
      rw same (
        read_entries-entry c cs rest fuel valid.0 enough'
          λ less. read_entries-encode_entries cs rest less valid.1 tail)

  str_eq_refl : (s : String) → str_eq s s ≡ true
  str_eq_refl s = ground (arith, eq_iff s s)

  checked-first :
      (c : LogicalStreamChunk) (cs : List LogicalStreamChunk) (encoded : List ℕ)
      → checked utf8
          (stored_row (record {
            first_chunk_id = c.id;
            last_chunk_id = last_id c.id cs;
            chunk_count = length (c ∷ cs);
            codec_version = 2;
            bytes = encoded;
          }))
          (length (c ∷ cs))
          (some (c ∷ cs))
        ≡ some (c ∷ cs)
  unfolding checked id_eq
  checked-first c cs encoded =
      rw (==_refl (length (c ∷ cs)), str_eq_refl c.id, str_eq_refl (last_id c.id cs)) refl

  -- A block of chunks whose ids are the type's, stored as a row, is unpacked to exactly those chunks.
  -- Of the UTF-8 codec it is relied on that decoding undoes encoding.
  pub unpack_stream_row-encode_block :
      (c : LogicalStreamChunk) (cs : List LogicalStreamChunk) (block : PackedStreamBlock)
      → All IsChunk (c ∷ cs)
      → encode_block utf8 c cs ≡ some block
      → unpack_stream_row utf8 (stored_row block) ≡ some (c ∷ cs)
  unfolding encode_block unpack_stream_row
  unpack_stream_row-encode_block c cs block valid h =
      elim (Option-cases (encode_entries utf8 (c ∷ cs))) [
        | inl bad ↦ let k = rw bad at h in cc
        | inr (encoded, good) ↦
            let k = rw good at h in
            let same : record {
              first_chunk_id = c.id;
              last_chunk_id = last_id c.id cs;
              chunk_count = length (c ∷ cs);
              codec_version = 2;
              bytes = encoded;
            }
                ≡ block =
              cc in
            let entries =
              read_entries-encode_entries (c ∷ cs) encoded (length encoded) valid good
                (omega arith) in
            subst (λ b. unpack_stream_row utf8 (stored_row b) ≡ some (c ∷ cs)) same
              (rw entries (checked-first c cs encoded))
      ]
