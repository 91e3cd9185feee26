-- ===== src/FlatMap/Insert.antt =====
-- src/types.rs: `FlatPeerMap::insert`, against the map from ids to contacts that `contains` reads.
use world_dat.Base.{
  ℕ, ◌+◌, ◌≡◌, refl, ◌∙◌, Option, none, some, length, set, ==_iff, ok, ◌>>=◌, Returns, Option-cases,
  inl, inr, lt→ltb, length-set, add_usize_lem, arith,
}
use world_dat.Types.{PeerId, Contact}
use world_dat.Types.Distance.{IsPeerId, rank}
use world_dat.FlatMap.{
  FlatPeerMap, insert_loop, insert, evict, item_to_evict, contains, known, find,
}
use world_dat.FlatMap.Bucket.{
  Bucket, IsBucket, Inserted, insert_loop-Inserted, insert_loop-full, Inserted-filled,
  Inserted-IsBucket, find-occurs, filled-le-length,
}
use world_dat.FlatMap.Eviction.{Evicts, victim_of, set-full, evict-IsBucket}
use world_dat.FlatMap.Invariant.{bucket, IsValid, length-bucket, bucket_for-bucket, home-lt}
use world_dat.FlatMap.Write.{written, bucket_for_mut-written, written-IsValid}

-- What `contains` reads: the contact of an id, in the bucket of the id's rank.
unfoldable pub view : FlatPeerMap → PeerId → Option Contact
view m p = find p (known (bucket m (rank m.peer_id p)))

-- On a valid map and an id of 32 bytes `contains` does not panic, and returns the contact of that id
-- in the bucket of its rank.
pub contains-view :
    {m : FlatPeerMap} {p : PeerId} → IsValid m → IsPeerId p → contains m p ≡ ok (view m p)
unfolding contains view
contains-view v good = rw (bucket_for-bucket v good)

-- The bucket in which `insert` writes.
abbrev pub target : FlatPeerMap → Contact → Bucket
target m c = bucket m (rank m.peer_id c.peer_id)

-- `insert` evicts `d` only where it finds neither the id nor an empty slot.
pub data Outcome (m : FlatPeerMap) (c : Contact) (m' : FlatPeerMap) : Type 0 where
  stored :
      (b : Bucket) (n : ℕ)
      → Inserted c (target m c) b n
      → m' ≡ record (written m (rank m.peer_id c.peer_id) b) { count = m.count + n }
      → Outcome m c m'
  replaced :
      (d : Contact)
      → Evicts c d (target m c) m.next_eviction
      → m' ≡ written m (rank m.peer_id c.peer_id) (set (target m c) m.next_eviction (some c))
      → Outcome m c m'

module _ {m : FlatPeerMap} (v : IsValid m) (c : Contact) (good : IsPeerId c.peer_id) where
  abbrev home : ℕ
  home = rank m.peer_id c.peer_id

  home-IsBucket : IsBucket m.peer_id home (target m c)
  home-IsBucket = v.buckets home (home-lt v good)

  stored-IsValid :
      {b : Bucket} {n : ℕ}
      → Inserted c (target m c) b n
      → IsValid (record (written m home b) { count = m.count + n })
  stored-IsValid {b} {n} i =
      let (size, more, _) = Inserted-filled c i in
      written-IsValid v home (home-lt v good) b (size ∙ length-bucket v home (home-lt v good))
        (m.count + n) (Inserted-IsBucket c m.peer_id home (good, refl) home-IsBucket i)
        (omega (arith, more))

  replaced-IsValid :
      {d : Contact}
      → Evicts c d (target m c) m.next_eviction
      → IsValid (written m home (set (target m c) m.next_eviction (some c)))
  replaced-IsValid {d} e =
      let b = target m c in
      let i = m.next_eviction in
      written-IsValid v home (home-lt v good) (set b i (some c))
        (length-set b i (some c) ∙ length-bucket v home (home-lt v good)) m.count
        (evict-IsBucket c d m.peer_id home (good, refl) b i home-IsBucket e)
        (omega (arith, (set-full c d b i e).1))

  evict-replaced :
      insert_loop c (target m c) ≡ none → Returns (evict m c) (λ m'. Outcome m c m' × IsValid m')
  unfolding evict item_to_evict
  evict-replaced e =
      let (full, _, absent) = insert_loop-full c (target m c) e in
      let size = length-bucket v home (home-lt v good) in
      let (d, there) =
        victim_of (target m c) m.next_eviction full (omega (arith, size, v.cursor)) in
      let gone : Evicts c d (target m c) m.next_eviction = record {
        full = full;
        victim = there;
        absent = find-occurs c.peer_id _ absent;
      } in
      (
        written m home (set (target m c) m.next_eviction (some c)),
        rw (
          bucket_for-bucket v good,
          (==_iff (length (target m c)) m.bucket_size).1 size,
          full,
          bucket_for_mut-written v good,
          lt→ltb m.next_eviction (length (target m c)) (omega (arith, size, v.cursor)),
        ),
        (replaced d gone refl, replaced-IsValid gone),
      )

  -- On a valid map `insert` panics for no contact with an id of 32 bytes and keeps the map valid. It
  -- writes the contact over the one of its id or else into the first empty slot of its bucket, and
  -- where there is neither, it overwrites the slot of the eviction cursor.
  pub insert-Outcome : Returns (insert m c) (λ m'. Outcome m c m' × IsValid m')
  unfolding insert
  insert-Outcome = elim (Option-cases (insert_loop c (target m c))) [
    | inr (w, e) ↦
        let i = insert_loop-Inserted c (target m c) e in
        let valid = stored-IsValid i in
        (
          record (written m home w.0) { count = m.count + w.1 },
          rw (
            bucket_for_mut-written v good,
            ◌>>=◌,
            e,
            add_usize_lem m.count w.1 (
                omega (
                  arith,
                  valid.counted,
                  valid.width,
                  valid.fits,
                  filled-le-length (written m home w.0).contacts,
                )),
          ),
          (stored w.0 w.1 i refl, valid),
        )
    | inl e ↦
        let (m', run, done) = evict-replaced e in
        (m', rw (bucket_for_mut-written v good, ◌>>=◌, e) run, done)
  ]
