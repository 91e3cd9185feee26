-- ===== src/FlatMap/Invariant.antt =====
-- src/types.rs: the invariant of `FlatPeerMap`, and its buckets as slices of the flat vector.
use world_dat.Base.{
  ℕ, zero, suc, ◌+◌, ◌*◌, ◌^◌, ◌≤◌, ◌<◌, ◌≡◌, refl, sym, ◌∙◌, Option, none, some, [], ◌∷◌, length,
  replicate, drop, All, All-take, All-drop, length-replicate, ok, slice-window, window, mul_usize,
  add_usize_lem, mul_usize_lem, row_end, length-take, length-drop, arith,
}
use world_dat.Hash.{max_power}
use world_dat.Types.{PeerId, Contact}
use world_dat.Types.Distance.{IsPeerId, rank, distance_rank-rank}
use world_dat.FlatMap.{FlatPeerMap, new, bucket_at, bucket_for, bucket_start}
use world_dat.FlatMap.Bucket.{Bucket, filled, IsBucket, known-empty, empty-IsPacked, occurs}

-- The bucket of a rank.
abbrev pub bucket : FlatPeerMap → ℕ → Bucket
bucket m r = window m.contacts (r * m.bucket_size) m.bucket_size

-- 256 buckets of the same size, each in order; `count` is the number of contacts. The cursor of the
-- eviction is a slot, so no bucket is empty.
pub record IsValid (m : FlatPeerMap) : Type 0 where
  pub own : IsPeerId m.peer_id
  pub width : length m.contacts ≡ max_power * m.bucket_size
  pub fits : max_power * m.bucket_size < 2 ^ 64
  pub counted : m.count ≡ filled m.contacts
  pub cursor : m.next_eviction < m.bucket_size
  pub buckets : (r : ℕ) → r < max_power → IsBucket m.peer_id r (bucket m r)

filled-none : (n : ℕ) → filled (replicate n none) ≡ 0
filled-none zero = refl
filled-none (suc n) = filled-none n

All-none : (n : ℕ) → All (λ s. s ≡ none) (replicate {A = Option Contact} n none)
All-none zero = tt
All-none (suc n) = (refl, All-none n)

filled_of_none : (b : Bucket) → All (λ s. s ≡ none) b → filled b ≡ 0
filled_of_none [] h = refl
filled_of_none (none ∷ b) h = filled_of_none b h.1
filled_of_none (some c ∷ b) h = cc h.0

empty-IsBucket : (self : PeerId) (r : ℕ) (b : Bucket) → filled b ≡ 0 → IsBucket self r b
unfolding occurs
empty-IsBucket self r b h = record {
  placed = rw (known-empty b h) tt;
  packed = empty-IsPacked b h;
  once = λ q. rw (known-empty b h) (omega arith);
}

-- `new` makes a valid map with no contact, for every own id of 32 bytes and every bucket size but 0
-- whose 256 buckets have fewer than 2 ^ 64 slots.
pub new-IsValid :
    {self : PeerId} (bucket_size : ℕ)
    → IsPeerId self
    → 0 < bucket_size
    → max_power * bucket_size < 2 ^ 64
    → IsValid (new self bucket_size) × ((new self bucket_size).count ≡ 0)
unfolding new
new-IsValid {self} n own pos fits =
    let e = mul_usize_lem max_power n fits in
    (
      record {
        own = own;
        width = length-replicate (mul_usize max_power n) none ∙ e;
        fits = fits;
        counted = sym (filled-none (mul_usize max_power n));
        cursor = pos;
        buckets = λ r _. empty-IsBucket self r _ (
            filled_of_none _
              (All-take _ n _ (All-drop _ (r * n) _ (All-none (mul_usize max_power n)))));
      },
      refl,
    )

module _ {m : FlatPeerMap} (v : IsValid m) where
  pub row : (r : ℕ) → r < max_power → r * m.bucket_size + m.bucket_size ≤ length m.contacts
  row r h = omega (arith, v.width, row_end r max_power m.bucket_size h)

  pub start : (r : ℕ) → r < max_power → bucket_start m r ≡ r * m.bucket_size
  start r h = mul_usize_lem r m.bucket_size (omega (arith, row r h, v.width, v.fits))

  pub length-bucket : (r : ℕ) → r < max_power → length (bucket m r) ≡ m.bucket_size
  length-bucket r h = omega (
    arith,
    length-take m.bucket_size (drop (r * m.bucket_size) m.contacts),
    length-drop (r * m.bucket_size) m.contacts,
    row r h,
  )

  pub bucket_at-bucket : (r : ℕ) → r < max_power → bucket_at m r ≡ ok (bucket m r)
  unfolding bucket_at
  bucket_at-bucket r h = rw (
    start r h,
    add_usize_lem (r * m.bucket_size) m.bucket_size (omega (arith, row r h, v.width, v.fits)),
    slice-window m.contacts (r * m.bucket_size) m.bucket_size (row r h),
  )

  module _ {p : PeerId} (good : IsPeerId p) where
    pub home-lt : rank m.peer_id p < max_power
    home-lt = (distance_rank-rank v.own good).1

    -- On a valid map `bucket_for` returns the bucket of the id's rank, and panics for no id of 32
    -- bytes.
    pub bucket_for-bucket : bucket_for m p ≡ ok (bucket m (rank m.peer_id p))
    unfolding bucket_for
    bucket_for-bucket = rw ((distance_rank-rank v.own good).0, bucket_at-bucket _ home-lt)
