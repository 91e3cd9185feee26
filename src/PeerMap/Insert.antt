-- ===== src/PeerMap/Insert.antt =====
-- src/types.rs: `PeerMap::insert` refines the update of a map from peers to addresses.
use native.Mathlib.Decide.{ℕ_discrete}
use world_dat.Base.{
  ℕ, zero, suc, ◌+◌, ◌%◌, ◌^◌, ◌<◌, ◌≡◌, ◌≢◌, refl, sym, ap, subst, ◌∙◌, some, List, [], ◌∷◌,
  length, set, get_or, length-set, get_or-set_self, get_or-set_ne, ok, ◌>>=◌, Returns,
  if◌then◌else◌, is_some, arith,
}
use world_dat.HashMap.Laws.{get-insert, length-insert, insert-IsMap, insert-All}
use world_dat.Types.{PeerId, SocketAddr, Contact, id_eq, id_eq_iff, peer_id_eq}
use world_dat.Types.Distance.{IsPeerId, rank, distance_rank-rank}
use world_dat.PeerMap.{PeerMap, Bucket, new_bucket, bucket_insert, insert, contains, count}
use world_dat.PeerMap.Invariant.{
  bucket, BelongsAt, IsBucket, IsValid, view, named, total, count-total, bucket_at-bucket, home-lt,
  contains-named,
}

total-set :
    (bs : List Bucket) (i : ℕ) (b : Bucket)
    → i < length bs
    → total (set bs i b) + length (get_or bs i new_bucket).known_peers
      ≡ total bs + length b.known_peers
total-set [] i b h = absurd (omega arith)
total-set (x ∷ bs) zero b h = omega arith
total-set (x ∷ bs) (suc i) b h = omega (arith, total-set bs i b (omega arith))

module _ {self : PeerId} {m : PeerMap} (v : IsValid self m) (addr : SocketAddr) {p : PeerId}
    (good : IsPeerId p) where
  -- What an `insert` shows outside.
  pub record Updates (m' : PeerMap) : Type 0 where
    pub valid : IsValid self m'
    pub same_size : m'.bucket_size ≡ m.bucket_size
    pub reads : (q : PeerId) → view m' self q ≡ (if id_eq p q then some addr else view m self q)
    pub finds :
        (q : PeerId)
        → IsPeerId q
        → contains m' self q ≡ ok (named q (if id_eq p q then some addr else view m self q))
    pub counts : count m' ≡ (count m + (if is_some (view m self p) then 0 else 1)) % 2 ^ 32

  abbrev home : ℕ
  home = rank self p

  abbrev new_peer : Contact
  new_peer = record { peer_id = p; address = addr }

  abbrev grown : Bucket
  grown = bucket_insert (bucket m home) new_peer

  abbrev after : PeerMap
  after = record m { buckets = set m.buckets home grown }

  in_range : home < length m.buckets
  in_range = omega (arith, home-lt v good, v.width)

  bucket-after_self : bucket after home ≡ grown
  bucket-after_self = get_or-set_self m.buckets home grown new_bucket in_range

  bucket-after_ne : (q : ℕ) → q ≢ home → bucket after q ≡ bucket m q
  bucket-after_ne q ne = get_or-set_ne m.buckets home q grown new_bucket (λ e. ne (sym e))

  grown-IsBucket : IsBucket self home grown
  unfolding bucket_insert
  grown-IsBucket =
      let old = v.buckets home (home-lt v good) in
      record {
        placed =
            insert-All (BelongsAt self home) p addr (bucket m home).known_peers (good, refl)
              old.placed;
        once = insert-IsMap p addr (bucket m home).known_peers old.once;
      }

  after-IsValid : IsValid self after
  after-IsValid = record {
    own = v.own;
    width = length-set m.buckets home grown ∙ v.width;
    buckets = λ r h. elim (ℕ_discrete r home) [
      | yes same ↦
          subst (λ t. IsBucket self t (bucket after t)) (sym same)
            (rw bucket-after_self grown-IsBucket)
      | no ne ↦ rw (bucket-after_ne r ne) (v.buckets r h)
    ];
  }

  after-view : (q : PeerId) → view after self q ≡ (if id_eq p q then some addr else view m self q)
  unfolding view bucket_insert
  after-view q = elim (ℕ_discrete (rank self q) home) [
    | yes same ↦ rw (same, bucket-after_self) (get-insert p q addr (bucket m home).known_peers)
    | no ne ↦ rw (bucket-after_ne (rank self q) ne) (ground (arith, id_eq_iff p q))
  ]

  after-count : count after ≡ (count m + (if is_some (view m self p) then 0 else 1)) % 2 ^ 32
  unfolding view bucket_insert
  after-count = ground (
    arith,
    count-total after,
    count-total m,
    total-set m.buckets home grown in_range,
    length-insert p addr (bucket m home).known_peers,
  )

  -- On a valid map `insert` panics for no id of 32 bytes and keeps the map valid. Afterwards `contains` returns the
  -- new address for the peer, and for every other peer what it returned before; `count` grows by one,
  -- as a `u32`, exactly if the peer is new.
  pub insert-Updates : Returns (insert m self addr p) Updates
  unfolding insert
  insert-Updates = (
    after,
    rw ((distance_rank-rank v.own good).0, ◌>>=◌, bucket_at-bucket v home (home-lt v good)),
    record {
      valid = after-IsValid;
      same_size = refl;
      reads = after-view;
      finds = λ q h. contains-named after-IsValid h ∙ ap (λ a. ok (named q a)) (after-view q);
      counts = after-count;
    },
  )
