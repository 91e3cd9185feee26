-- ===== src/FlatMap/Write.antt =====
-- src/types.rs: a bucket of `FlatPeerMap` written back through its mutable slice.
use native.Mathlib.Decide.{ℕ_discrete}
use world_dat.Base.{
  ℕ, ◌+◌, ◌*◌, ◌≤◌, ◌<◌, ◌≡◌, ◌≢◌, sym, ap, ◌∙◌, ◌++◌, length, take, drop, take-append-drop,
  drop-drop, ok, splice, window, length-splice, window-splice_self, window-splice_before,
  window-splice_behind, row_lt, ltb, Bool-cases, ltb→lt, ltb→le, inl, inr, subst, arith,
}
use world_dat.Hash.{max_power}
use world_dat.Types.{PeerId}
use world_dat.Types.Distance.{IsPeerId, rank, distance_rank-rank}
use world_dat.FlatMap.{FlatPeerMap, bucket_for_mut}
use world_dat.FlatMap.Bucket.{Bucket, filled, IsBucket, filled-append}
use world_dat.FlatMap.Invariant.{bucket, IsValid, row, start, bucket_at-bucket, home-lt}

-- The map once `b` has been written over the bucket of rank `r`.
abbrev pub written : FlatPeerMap → ℕ → Bucket → FlatPeerMap
written m r b = record m { contacts = splice m.contacts (r * m.bucket_size) b }

module _ {m : FlatPeerMap} (v : IsValid m) where
  pub bucket_for_mut-written :
      {p : PeerId}
      → IsPeerId p
      → let r = rank m.peer_id p in bucket_for_mut m p ≡ ok (bucket m r, written m r)
  unfolding bucket_for_mut
  bucket_for_mut-written {p} good =
      let r = rank m.peer_id p in
      rw ((distance_rank-rank v.own good).0, bucket_at-bucket v r (home-lt v good))
        (ap (λ s. ok (bucket m r, λ w. record m { contacts = splice m.contacts s w }))
          (start v r (home-lt v good)))

  module _ (r : ℕ) (h : r < max_power) (b : Bucket) (size : length b ≡ m.bucket_size) where
    end : r * m.bucket_size + length b ≤ length m.contacts
    end = omega (arith, row v r h)

    pub length-written : length (written m r b).contacts ≡ length m.contacts
    length-written = length-splice m.contacts (r * m.bucket_size) b end

    pub bucket-written_self : bucket (written m r b) r ≡ b
    bucket-written_self =
        ap (window (written m r b).contacts (r * m.bucket_size)) (sym size)
        ∙ window-splice_self m.contacts (r * m.bucket_size) b end

    pub bucket-written_ne : (q : ℕ) → q ≢ r → bucket (written m r b) q ≡ bucket m q
    bucket-written_ne q ne = elim (Bool-cases (ltb q r)) [
      | inl before ↦
          window-splice_before m.contacts (r * m.bucket_size) b end (q * m.bucket_size)
            m.bucket_size (row_lt q r m.bucket_size (ltb→lt q r before))
      | inr behind ↦
          window-splice_behind m.contacts (r * m.bucket_size) b end (q * m.bucket_size)
            m.bucket_size
            (omega (arith, size, row_lt r q m.bucket_size (omega (arith, ltb→le q r behind))))
    ]

    -- A write changes the number of contacts by what it changes in the bucket.
    pub filled-written :
        filled (written m r b).contacts + filled (bucket m r) ≡ filled m.contacts + filled b
    unfolding splice
    filled-written =
        let s = r * m.bucket_size in
        let xs = m.contacts in
        omega (
          arith,
          filled-append (take s xs ++ b) (drop (s + length b) xs),
          filled-append (take s xs) b,
          filled-append (take s xs) (drop s xs),
          filled-append (bucket m r) (drop m.bucket_size (drop s xs)),
          ap filled (take-append-drop s xs),
          ap filled (take-append-drop m.bucket_size (drop s xs)),
          ap filled (drop-drop s m.bucket_size xs),
          ap (λ (k : ℕ). filled (drop (s + k) xs)) size,
        )

    pub written-IsValid :
        (count : ℕ)
        → IsBucket m.peer_id r b
        → count + filled (bucket m r) ≡ m.count + filled b
        → IsValid (record (written m r b) { count = count })
    written-IsValid count good e = record {
      own = v.own;
      width = length-written ∙ v.width;
      fits = v.fits;
      counted = omega (arith, filled-written, v.counted);
      cursor = v.cursor;
      buckets = λ q k. elim (ℕ_discrete q r) [
        | yes same ↦
            subst (λ t. IsBucket m.peer_id t (bucket (written m r b) t)) (sym same)
              (rw bucket-written_self good)
        | no ne ↦ rw (bucket-written_ne q ne) (v.buckets q k)
      ];
    }
