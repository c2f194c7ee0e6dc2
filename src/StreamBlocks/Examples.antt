-- ===== src/StreamBlocks/Examples.antt =====
-- The theorems on stream blocks at a stream of two chunks. The codec writes a character as its number,
-- one list entry each.
use Prim.Native.Nat.{Ordering, compare}
use Prim.Native.Char.{Char, char, code, nul, IsLt, IsScalar}
use Prim.Native.String.{String}
use Prim.Native.String.{[] as empty, ◌∷◌ as ◌before◌}
use workflow_world.Prelude.{
  ◌≡◌, refl, ap, ◌∙◌, ℕ, Option, none, some, List, [], ◌∷◌, map, arith, All,
}
use workflow_world.StreamBlocks.{
  Utf8, LogicalStreamChunk, PackedStreamBlock, encode_block, pack_stream_chunks, unpack_rows,
  pack_from, is_full, flush, join_blocks, encode_entries, encode_entry, write_u16, write_u32,
  both_bytes, append_bytes, encoded_bytes, last_id, unpack_stream_row, stored_row,
}
use workflow_world.StreamBlocks.RoundTrip.{Utf8Laws, unpack_stream_row-encode_block}
use workflow_world.StreamBlocks.Packing.{unpack_rows-pack_stream_chunks}
use workflow_world.StreamBlocks.Bounds.{Within, pack_stream_chunks-Within}
use workflow_world.StreamBlocks.Success.{pack_stream_chunks-some}

-- The three comparisons of `IsScalar`.
abbrev BothLt : Ordering → Ordering → Type 0
BothLt Ordering.lt o = IsLt o
BothLt Ordering.eq o = ⊥
BothLt Ordering.gt o = ⊥

abbrev Scalar : Ordering → Ordering → Ordering → Type 0
Scalar Ordering.lt o p = Unit
Scalar Ordering.eq o p = BothLt o p
Scalar Ordering.gt o p = BothLt o p

abbrev find_both : (o p : Ordering) → Option (BothLt o p)
find_both Ordering.lt Ordering.lt = some tt
find_both _ _ = none

abbrev find_scalar : (o p q : Ordering) → Option (Scalar o p q)
find_scalar Ordering.lt p q = some tt
find_scalar Ordering.eq p q = find_both p q
find_scalar Ordering.gt p q = find_both p q

find_both-some : (o p : Ordering) (s : BothLt o p) → find_both o p ≡ some s
find_both-some Ordering.lt Ordering.lt s = refl
find_both-some Ordering.lt Ordering.eq s = absurd s
find_both-some Ordering.lt Ordering.gt s = absurd s
find_both-some Ordering.eq p s = absurd s
find_both-some Ordering.gt p s = absurd s

find_scalar-some : (o p q : Ordering) (s : Scalar o p q) → find_scalar o p q ≡ some s
find_scalar-some Ordering.lt p q s = refl
find_scalar-some Ordering.eq p q s = find_both-some p q s
find_scalar-some Ordering.gt p q s = find_both-some p q s

abbrev char_or_nul : (n : ℕ) → Option (IsScalar n) → Char
char_or_nul n none = nul
char_or_nul n (some s) = char n s

abbrev char_of : ℕ → Char
char_of n = char_or_nul n (find_scalar (compare n 55296) (compare 57343 n) (compare n 1114112))

char_of-code : (c : Char) → char_of (code c) ≡ c
char_of-code (char n s) =
    ap (char_or_nul n) (find_scalar-some (compare n 55296) (compare 57343 n) (compare n 1114112) s)

abbrev codes : String → List ℕ
codes empty = []
codes (c before s) = code c ∷ codes s

abbrev text_of : List ℕ → String
text_of [] = empty
text_of (n ∷ ns) = char_of n before text_of ns

text_of-codes : (s : String) → text_of (codes s) ≡ s
text_of-codes empty = refl
text_of-codes (c before s) =
    ap (λ d. d before text_of (codes s)) (char_of-code c) ∙ ap (λ t. c before t) (text_of-codes s)

abbrev utf8 : Utf8
utf8 = record { encode = codes; decode = text_of }

utf8_laws : Utf8Laws utf8
utf8_laws = record { decode-encode = text_of-codes }

abbrev first_chunk : LogicalStreamChunk
first_chunk = record { id = "chnk_1"; bytes = 7 ∷ 8 ∷ [] }

abbrev second_chunk : LogicalStreamChunk
second_chunk = record { id = "chnk_2"; bytes = [] }

-- A block of one chunk: the lengths 6 and n, the id's characters, the data.
abbrev block_of : String → List ℕ → PackedStreamBlock
block_of id bytes = record {
  first_chunk_id = id;
  last_chunk_id = id;
  chunk_count = 1;
  codec_version = 2;
  bytes = bytes;
}

abbrev first_block : PackedStreamBlock
first_block =
    block_of "chnk_1" (0 ∷ 6 ∷ 0 ∷ 0 ∷ 0 ∷ 2 ∷ 99 ∷ 104 ∷ 110 ∷ 107 ∷ 95 ∷ 49 ∷ 7 ∷ 8 ∷ [])

abbrev second_block : PackedStreamBlock
second_block = block_of "chnk_2" (0 ∷ 6 ∷ 0 ∷ 0 ∷ 0 ∷ 0 ∷ 99 ∷ 104 ∷ 110 ∷ 107 ∷ 95 ∷ 50 ∷ [])

packs_apart :
    pack_stream_chunks utf8 64 20 (first_chunk ∷ second_chunk ∷ [])
    ≡ some (first_block ∷ second_block ∷ [])
unfolding pack_stream_chunks pack_from is_full flush join_blocks encode_block encode_entries
    encode_entry write_u16 write_u32 both_bytes append_bytes encoded_bytes last_id
packs_apart = refl

unpack_rows-pack_stream_chunks_example :
    unpack_rows utf8 (map stored_row (first_block ∷ second_block ∷ []))
    ≡ some (first_chunk ∷ second_chunk ∷ [])
unpack_rows-pack_stream_chunks_example =
    unpack_rows-pack_stream_chunks utf8 utf8_laws 64 20 (first_chunk ∷ second_chunk ∷ [])
      (first_block ∷ second_block ∷ []) (refl, (refl, tt)) packs_apart

pack_stream_chunks-Within_example : All (Within 64 20) (first_block ∷ second_block ∷ [])
pack_stream_chunks-Within_example =
    pack_stream_chunks-Within utf8 64 20 (first_chunk ∷ second_chunk ∷ [])
      (first_block ∷ second_block ∷ []) packs_apart

pack_stream_chunks-some_example :
    (blocks : List PackedStreamBlock) × (pack_stream_chunks utf8 64 20
        (first_chunk ∷ second_chunk ∷ [])
      ≡ some blocks)
pack_stream_chunks-some_example =
    pack_stream_chunks-some utf8 64 20 (first_chunk ∷ second_chunk ∷ []) (omega arith) (omega arith)
      ((omega arith, omega arith), ((omega arith, omega arith), tt))

encodes_first : encode_block utf8 first_chunk [] ≡ some first_block
unfolding encode_block encode_entries encode_entry write_u16 write_u32 both_bytes append_bytes
    last_id
encodes_first = refl

unpack_stream_row-encode_block_example :
    unpack_stream_row utf8 (stored_row first_block) ≡ some (first_chunk ∷ [])
unpack_stream_row-encode_block_example =
    unpack_stream_row-encode_block utf8 utf8_laws first_chunk [] first_block (refl, tt)
      encodes_first
