-- ===== src/StreamBlocks/Encoding.antt =====
-- The bytes that `encodeBlock` of src/stream-blocks.ts writes.
use workflow_world.Prelude.{
  ◌≡◌, refl, ℕ, suc, ◌+◌, ◌/◌, ◌%◌, ◌≤◌, ltb, Option, none, some, List, [], ◌∷◌, ◌++◌, length,
  arith, length-append, Bool-cases, inl, inr,
}
use workflow_world.StreamBlocks.{
  Utf8, LogicalStreamChunk, write_u16, write_u32, append_bytes, both_bytes, encode_entry,
  encode_entries, encoded_bytes,
}

module _ (utf8 : Utf8) where
  -- The bytes of an entry.
  abbrev pub entry : LogicalStreamChunk → List ℕ
  entry c =
      let n = length (utf8.encode c.id) in
      let m = length c.bytes in
      n / 256
      ∷ n % 256
      ∷ m / 16777216
      ∷ m / 65536 % 256
      ∷ m / 256 % 256
      ∷ m % 256
      ∷ (utf8.encode c.id ++ c.bytes)

  pub encode_entry-entry :
      (c : LogicalStreamChunk) (encoded : List ℕ)
      → encode_entry utf8 c ≡ some encoded
      → encoded ≡ entry c
  unfolding encode_entry write_u16 write_u32 both_bytes append_bytes
  encode_entry-entry c encoded h = elim (Bool-cases (ltb (length (utf8.encode c.id)) 65536)) [
    | inl short ↦ elim (Bool-cases (ltb (length c.bytes) 4294967296)) [
      | inl small ↦ let k = rw (short, small) at h in cc
      | inr large ↦ let k = rw (short, large) at h in cc
    ]
    | inr long ↦ let k = rw long at h in cc
  ]

  pub length-entry :
      (c : LogicalStreamChunk) (rest : List ℕ) → suc (length rest) ≤ length (entry c ++ rest)
  length-entry c rest = omega (arith, length-append (utf8.encode c.id ++ c.bytes) rest)

  pub split_bytes :
      (a b : Option (List ℕ)) (e : List ℕ)
      → both_bytes a b ≡ some e
      → (x : List ℕ) × (y : List ℕ) × (a ≡ some x) × (b ≡ some y) × (e ≡ x ++ y)
  unfolding both_bytes
  split_bytes (some x) (some y) e h = (x, y, refl, refl, cc)
  split_bytes (some x) none e h = cc
  split_bytes none b e h = cc

  -- The size that packing counts for the chunks.
  unfoldable pub total : List LogicalStreamChunk → ℕ
  total [] = 0
  total (c ∷ cs) = encoded_bytes utf8 c + total cs

  pub total-append :
      (xs : List LogicalStreamChunk) (c : LogicalStreamChunk)
      → total (xs ++ c ∷ []) ≡ total xs + encoded_bytes utf8 c
  unfolding total
  total-append [] c = omega arith
  total-append (x ∷ xs) c = omega (arith, total-append xs c)

  -- It is the number of bytes written.
  pub length-encode_entries :
      (cs : List LogicalStreamChunk) (encoded : List ℕ)
      → encode_entries utf8 cs ≡ some encoded
      → length encoded ≡ total cs
  unfolding encode_entries total encoded_bytes
  length-encode_entries [] encoded h = let same : encoded ≡ [] = cc in rw same refl
  length-encode_entries (c ∷ cs) encoded h =
      let (first, rest, head, tail, all) =
        split_bytes (encode_entry utf8 c) (encode_entries utf8 cs) encoded h in
      let same = encode_entry-entry c first head in
      let ih = length-encode_entries cs rest tail in
      rw (all, same) omega
        (arith, length-append (entry c) rest, length-append (utf8.encode c.id) c.bytes, ih)
