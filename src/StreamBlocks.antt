-- ===== src/StreamBlocks.antt =====
-- src/stream-blocks.ts: the chunks of a stream, packed into blocks of limited size, and unpacked from
-- a stored row. A Buffer is a list of bytes; the UTF-8 codec is the runtime's.
pub mod Encoding
pub mod RoundTrip
pub mod Packing
pub mod Bounds
pub mod Success
mod Examples
use Prim.Native.String.{String}
use text.Mathlib.Text.{◌==◌ as str_eq, starts_with}
use workflow_world.Prelude.{
  ℕ, zero, suc, ◌+◌, ◌*◌, ◌/◌, ◌%◌, ◌==◌, ltb, leb, Option, none, some, Bool, true, false, not,
  ◌&&◌, ◌||◌, List, [], ◌∷◌, ◌++◌, length, take, drop, if◌then◌else◌,
}

-- `Buffer.from(id, "utf8")` and `toString("utf8")`.
pub record Utf8 : Type 0 where
  pub encode : String → List ℕ
  pub decode : List ℕ → String

pub record LogicalStreamChunk : Type 0 where
  pub id : String
  pub bytes : List ℕ

pub record PackedStreamBlock : Type 0 where
  pub first_chunk_id : String
  pub last_chunk_id : String
  pub chunk_count : ℕ
  pub codec_version : ℕ
  pub bytes : List ℕ

pub record PhysicalStreamRow : Type 0 where
  pub chunk_id : String
  pub last_chunk_id : Option String
  pub chunk_count : Option ℕ
  pub codec_version : Option ℕ
  pub bytes : List ℕ
  pub eof : Bool

abbrev pub packed_stream_codec_version : ℕ
packed_stream_codec_version = 2

abbrev pub entry_header_bytes : ℕ
entry_header_bytes = 6

-- `writeUInt16BE`, which raises on a value out of range.
unfoldable pub write_u16 : ℕ → Option (List ℕ)
write_u16 n = if ltb n 65536 then some (n / 256 ∷ n % 256 ∷ []) else none

unfoldable pub write_u32 : ℕ → Option (List ℕ)
write_u32 n =
    if ltb n 4294967296
    then some (n / 16777216 ∷ n / 65536 % 256 ∷ n / 256 % 256 ∷ n % 256 ∷ [])
    else none

unfoldable pub last_id : String → List LogicalStreamChunk → String
last_id id [] = id
last_id id (c ∷ cs) = last_id c.id cs

unfoldable pub append_bytes : Option (List ℕ) → List ℕ → Option (List ℕ)
append_bytes none ys = none
append_bytes (some xs) ys = some (xs ++ ys)

unfoldable pub both_bytes : Option (List ℕ) → Option (List ℕ) → Option (List ℕ)
both_bytes (some xs) (some ys) = some (xs ++ ys)
both_bytes _ _ = none

module _ (utf8 : Utf8) where
  open utf8 use {encode, decode}

  unfoldable pub encoded_bytes : LogicalStreamChunk → ℕ
  encoded_bytes c = entry_header_bytes + length (encode c.id) + length c.bytes

  unfoldable pub encode_entry : LogicalStreamChunk → Option (List ℕ)
  unfolding write_u16 write_u32 both_bytes append_bytes
  encode_entry c =
      append_bytes (both_bytes (write_u16 (length (encode c.id))) (write_u32 (length c.bytes)))
        (encode c.id ++ c.bytes)

  unfoldable pub encode_entries : List LogicalStreamChunk → Option (List ℕ)
  unfolding encode_entry both_bytes
  encode_entries [] = some []
  encode_entries (c ∷ cs) = both_bytes (encode_entry c) (encode_entries cs)

  -- The chunks of a block, the first one apart, since a block has one.
  unfoldable pub encode_block :
      LogicalStreamChunk → List LogicalStreamChunk → Option PackedStreamBlock
  unfolding encode_entries last_id
  encode_block c cs = of_data (encode_entries (c ∷ cs))
    where
      of_data : Option (List ℕ) → Option PackedStreamBlock
      of_data none = none
      of_data (some encoded) = some (record {
        first_chunk_id = c.id;
        last_chunk_id = last_id c.id cs;
        chunk_count = length (c ∷ cs);
        codec_version = packed_stream_codec_version;
        bytes = encoded;
      })

  unfoldable pub flush : List LogicalStreamChunk → Option (List PackedStreamBlock)
  unfolding encode_block
  flush [] = some []
  flush (c ∷ cs) = one (encode_block c cs)
    where
      one : Option PackedStreamBlock → Option (List PackedStreamBlock)
      one none = none
      one (some b) = some (b ∷ [])

  unfoldable pub join_blocks :
      Option (List PackedStreamBlock)
      → Option (List PackedStreamBlock)
      → Option (List PackedStreamBlock)
  join_blocks (some xs) (some ys) = some (xs ++ ys)
  join_blocks _ _ = none

  unfoldable pub is_full : ℕ → ℕ → List LogicalStreamChunk → ℕ → LogicalStreamChunk → Bool
  unfolding encoded_bytes
  is_full max_chunks max_bytes pending bytes c =
      ltb 0 (length pending)
      && (leb max_chunks (length pending) || ltb max_bytes (bytes + encoded_bytes c))

  unfoldable pub pack_from :
      ℕ
      → ℕ
      → List LogicalStreamChunk
      → ℕ
      → List LogicalStreamChunk
      → Option (List PackedStreamBlock)
  unfolding flush join_blocks is_full encoded_bytes
  pack_from max_chunks max_bytes pending bytes [] = flush pending
  pack_from max_chunks max_bytes pending bytes (c ∷ cs) =
      let full = is_full max_chunks max_bytes pending bytes c in
      let flushed = if full then flush pending else some [] in
      let kept = if full then [] else pending in
      let kept_bytes = if full then 0 else bytes in
      let rest =
        pack_from max_chunks max_bytes (kept ++ c ∷ []) (kept_bytes + encoded_bytes c) cs in
      if ltb 65535 (length (encode c.id)) then none else join_blocks flushed rest

  -- `none` is a TypeError, or the RangeError of a data length that has no 32 bits.
  unfoldable pub pack_stream_chunks :
      ℕ → ℕ → List LogicalStreamChunk → Option (List PackedStreamBlock)
  unfolding pack_from
  pack_stream_chunks max_chunks max_bytes chunks =
      if max_chunks == 0 || max_bytes == 0 then none else pack_from max_chunks max_bytes [] 0 chunks

  unfoldable pub chunk_of : ℕ → ℕ → List ℕ → Option (LogicalStreamChunk × List ℕ)
  chunk_of id_length data_length rest =
      let id = decode (take id_length rest) in
      if ltb (length rest) (id_length + data_length) || not (starts_with id "chnk_")
      then none
      else some (
        record { id = id; bytes = take data_length (drop id_length rest) },
        drop data_length (drop id_length rest),
      )

  -- The header, `readUInt16BE` and `readUInt32BE`, and what it announces.
  unfoldable pub read_entry : List ℕ → Option (LogicalStreamChunk × List ℕ)
  unfolding chunk_of
  read_entry (i ∷ j ∷ a ∷ b ∷ c ∷ d ∷ rest) =
      chunk_of (i * 256 + j) (((a * 256 + b) * 256 + c) * 256 + d) rest
  read_entry _ = none

  unfoldable pub add_chunk :
      LogicalStreamChunk → Option (List LogicalStreamChunk) → Option (List LogicalStreamChunk)
  add_chunk c none = none
  add_chunk c (some cs) = some (c ∷ cs)

  unfoldable pub add_rest :
      Option (LogicalStreamChunk × List ℕ)
      → (List ℕ → Option (List LogicalStreamChunk))
      → Option (List LogicalStreamChunk)
  unfolding add_chunk
  add_rest none k = none
  add_rest (some (c, rest)) k = add_chunk c (k rest)

  -- Each entry takes six bytes or more, so the number of bytes is enough fuel.
  unfoldable pub read_entries : ℕ → List ℕ → Option (List LogicalStreamChunk)
  unfolding add_rest read_entry
  read_entries fuel [] = some []
  read_entries zero (x ∷ xs) = none
  read_entries (suc fuel) (x ∷ xs) = add_rest (read_entry (x ∷ xs)) (λ rest. read_entries fuel rest)

  unfoldable pub id_eq : Option String → String → Bool
  id_eq none id = false
  id_eq (some a) id = str_eq a id

  unfoldable pub checked :
      PhysicalStreamRow → ℕ → Option (List LogicalStreamChunk) → Option (List LogicalStreamChunk)
  unfolding last_id id_eq
  checked row expected (some (c ∷ cs)) =
      if length (c ∷ cs) == expected
        && str_eq c.id row.chunk_id
        && id_eq row.last_chunk_id (last_id c.id cs)
      then some (c ∷ cs)
      else none
  checked row expected _ = none

  -- `none` is a malformed block or an unsupported version.
  unfoldable pub unpack_stream_row : PhysicalStreamRow → Option (List LogicalStreamChunk)
  unfolding read_entries checked
  unpack_stream_row row = if row.eof then some [] else by_version row.codec_version
    where
      of_count : Option ℕ → Option (List LogicalStreamChunk)
      of_count none = none
      of_count (some zero) = none
      of_count (some (suc n)) = checked row (suc n) (read_entries (length row.bytes) row.bytes)

      by_version : Option ℕ → Option (List LogicalStreamChunk)
      by_version none = some (record { id = row.chunk_id; bytes = row.bytes } ∷ [])
      by_version (some v) =
          if v == 1
          then some (record { id = row.chunk_id; bytes = row.bytes } ∷ [])
          else if v == 2
          then of_count row.chunk_count
          else none

  unfoldable pub append_chunks :
      Option (List LogicalStreamChunk)
      → Option (List LogicalStreamChunk)
      → Option (List LogicalStreamChunk)
  append_chunks (some xs) (some ys) = some (xs ++ ys)
  append_chunks _ _ = none

  -- `rows.flatMap(unpackStreamRow)`
  unfoldable pub unpack_rows : List PhysicalStreamRow → Option (List LogicalStreamChunk)
  unfolding append_chunks
  unpack_rows [] = some []
  unpack_rows (row ∷ rows) = append_chunks (unpack_stream_row row) (unpack_rows rows)

-- The row that `writeMulti` of src/streamer.ts stores for a block.
abbrev pub stored_row : PackedStreamBlock → PhysicalStreamRow
stored_row block = record {
  chunk_id = block.first_chunk_id;
  last_chunk_id = some block.last_chunk_id;
  chunk_count = some block.chunk_count;
  codec_version = some block.codec_version;
  bytes = block.bytes;
  eof = false;
}
