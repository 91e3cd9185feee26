-- ===== src/Hash/Serde.antt =====
-- src/hash.rs: hashes on the wire. The format (`rmp_serde` in the program) is a parameter.
use world_dat.Base.{
  ℕ, ◌≡◌, ◌≢◌, List, Option, none, some, length, Run, ok, panic, ◌>>=◌, ==_iff, arith,
}
use world_dat.Hash.{Blake2Hash, IsHash, blake2_hash_size, copy_from_slice}

-- The serde format's byte strings: how it writes one, and what it reads (`none` is its error).
pub record Format : Type 0 where
  pub serialize_bytes : List ℕ → List ℕ
  pub deserialize_bytes : List ℕ → Option (List ℕ)

-- The documented round trip of byte strings.
abbrev pub RoundTrips : Format → Type 0
RoundTrips f = (bytes : List ℕ) → f.deserialize_bytes (f.serialize_bytes bytes) ≡ some bytes

-- `Blake2HashVisitor::visit_bytes`. It never returns an error: on another length it panics.
unfoldable pub visit_bytes : List ℕ → Run (Option Blake2Hash)
unfolding copy_from_slice
visit_bytes value = do out ← copy_from_slice value; ok (some out)

module _ (f : Format) where
  unfoldable pub serialize : Blake2Hash → List ℕ
  serialize h = f.serialize_bytes h.bytes

  -- `ok none` is an error of the format.
  unfoldable pub deserialize : List ℕ → Run (Option Blake2Hash)
  unfolding visit_bytes
  deserialize wire = elim (f.deserialize_bytes wire) [
    | none ↦ ok none
    | some bytes ↦ visit_bytes bytes
  ]

  -- Over a format that reads back the byte strings that it writes, `deserialize` reads back what
  -- `serialize` writes of a hash of 32 bytes.
  pub deserialize-serialize :
      RoundTrips f → {h : Blake2Hash} → IsHash h → deserialize (serialize h) ≡ ok (some h)
  unfolding serialize deserialize
  deserialize-serialize back {h} v =
      rw (serialize, deserialize, back h.bytes)
        (ground (arith, ==_iff (length h.bytes) blake2_hash_size))

  -- Where the format reads a byte string, `deserialize` panics if its length is not 32, and returns
  -- its bytes as a hash if it is.
  pub deserialize_lem :
      (wire bytes : List ℕ)
      → f.deserialize_bytes wire ≡ some bytes
      → (length bytes ≢ blake2_hash_size → deserialize wire ≡ panic)
        × (length bytes ≡ blake2_hash_size
            → deserialize wire ≡ ok (some (record { bytes = bytes })))
  unfolding deserialize
  deserialize_lem wire bytes e =
      ((λ ne. rw (deserialize, e) (ground arith)), (λ same. rw (deserialize, e) (ground arith)))
