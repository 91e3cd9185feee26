-- ===== src/FlatMap/Reads.antt =====
-- src/types.rs: what `contains` and `count` return after an `insert` into `FlatPeerMap`.
use world_dat.Base.{
  ℕ, ◌+◌, ◌≡◌, refl, sym, ap, ◌∙◌, Bool, true, false, ◌||◌, not, Option, none, some, length, set,
  length-set, if◌then◌else◌, ltb, is_some, get_elem?, ok, Returns, subst, arith,
}
use native.Mathlib.Decide.{ℕ_discrete}
use world_dat.Types.{PeerId, Contact, id_eq, id_eq_iff}
use world_dat.Types.Distance.{IsPeerId, rank}
use world_dat.FlatMap.{FlatPeerMap, insert, contains, known, find}
use world_dat.FlatMap.Bucket.{
  Bucket, filled, Inserted, Inserted-filled, Inserted-more, find-Inserted, occurs-find,
}
use world_dat.FlatMap.Eviction.{Evicts, find-evict, full-filled, All-slot}
use world_dat.FlatMap.Invariant.{IsValid, length-bucket, home-lt}
use world_dat.FlatMap.Write.{written, bucket-written_self, bucket-written_ne}
use world_dat.FlatMap.Insert.{
  view, contains-view, target, Outcome, stored, replaced, insert-Outcome,
}

-- The contact that an `insert` of `c` evicts: the one in the slot of the cursor, if the bucket is
-- full and has no contact of `c`'s id.
unfoldable pub evicted : FlatPeerMap → Contact → Option Contact
unfolding view
evicted m c =
    if is_some (view m c.peer_id) || ltb (filled (target m c)) m.bucket_size
    then none
    else (elim (get_elem? (target m c) m.next_eviction) [ none ↦ none | some slot ↦ slot ])

abbrev pub has_id : Option Contact → PeerId → Bool
has_id none q = false
has_id (some d) q = id_eq d.peer_id q

-- The map from ids to contacts after an insertion.
abbrev pub reads_after : FlatPeerMap → Contact → PeerId → Option Contact
reads_after m c q =
    if id_eq c.peer_id q then some c else (if has_id (evicted m c) q then none else view m q)

module _ {m : FlatPeerMap} (v : IsValid m) (c : Contact) (good : IsPeerId c.peer_id) where
  abbrev home : ℕ
  home = rank m.peer_id c.peer_id

  -- A write into the bucket of `c` is seen at the ids of that bucket only.
  view-written :
      (b : Bucket) (k : ℕ) (d : Option Contact)
      → length b ≡ m.bucket_size
      → ((q : PeerId)
          → find q (known b) ≡ (
              if id_eq c.peer_id q
              then some c
              else (if has_id d q then none else find q (known (target m c)))))
      → ((q : PeerId) → has_id d q ≡ true → rank m.peer_id q ≡ home)
      → (q : PeerId)
      → view (record (written m home b) { count = k }) q
        ≡ (if id_eq c.peer_id q then some c else (if has_id d q then none else view m q))
  unfolding view
  view-written b k d size reads near q = elim (ℕ_discrete (rank m.peer_id q) home) [
    | yes same ↦ rw (same, bucket-written_self v home (home-lt v good) b size) (reads q)
    | no ne ↦
        rw (bucket-written_ne v home (home-lt v good) b size (rank m.peer_id q) ne)
          (ground (arith, near q, id_eq_iff c.peer_id q))
  ]

  -- What an `insert` shows outside: the ids it reads, the count, and the fields it leaves alone.
  pub record Inserts (m' : FlatPeerMap) : Type 0 where
    pub valid : IsValid m'
    pub reads : (q : PeerId) → view m' q ≡ reads_after m c q
    pub finds : (q : PeerId) → IsPeerId q → contains m' q ≡ ok (reads_after m c q)
    pub grows :
        m'.count
        ≡ m.count
          + (if is_some (view m c.peer_id) || not (ltb (filled (target m c)) m.bucket_size)
              then 0
              else 1)
    pub same :
        (m'.peer_id ≡ m.peer_id)
        × (m'.bucket_size ≡ m.bucket_size)
        × (m'.next_eviction ≡ m.next_eviction)

  size : length (target m c) ≡ m.bucket_size
  size = length-bucket v home (home-lt v good)

  stored-Inserts :
      (b : Bucket) (n : ℕ)
      → Inserted c (target m c) b n
      → IsValid (record (written m home b) { count = m.count + n })
      → Inserts (record (written m home b) { count = m.count + n })
  unfolding view evicted
  stored-Inserts b n i valid =
      let (adds, room) = Inserted-more c (v.buckets home (home-lt v good)).packed i in
      let kept : evicted m c ≡ none = ground (arith, room, size) in
      let reads : (q : PeerId)
          → view (record (written m home b) { count = m.count + n }) q ≡ reads_after m c q =
        λ q. rw kept (
          view-written b (m.count + n) none (omega (arith, size, (Inserted-filled c i).0))
            (λ p. find-Inserted c p i) (λ p h. cc) q) in
      record {
        valid = valid;
        reads = reads;
        finds = λ q good. contains-view valid good ∙ ap ok (reads q);
        grows = ground (arith, adds, room, size);
        same = (refl, refl, refl);
      }

  replaced-Inserts :
      (d : Contact)
      → Evicts c d (target m c) m.next_eviction
      → let b = set (target m c) m.next_eviction (some c) in
        IsValid (written m home b) → Inserts (written m home b)
  unfolding view evicted
  replaced-Inserts d gone valid =
      let b = target m c in
      let full = full-filled b gone.full in
      let absent = occurs-find c.peer_id (known b) gone.absent in
      let inside = v.buckets home (home-lt v good) in
      let out : evicted m c ≡ some d = ground (arith, full, absent, size, gone.victim) in
      let reads : (q : PeerId)
          → view (written m home (set b m.next_eviction (some c))) q ≡ reads_after m c q =
        λ q. rw out (
          view-written (set b m.next_eviction (some c)) m.count (some d)
            (length-set b m.next_eviction (some c) ∙ size)
            (λ p. find-evict c d p b m.next_eviction gone (inside.once p))
            (λ p h.
              subst (λ t. rank m.peer_id t ≡ home) ((id_eq_iff d.peer_id p).0 h)
                (All-slot _ d b m.next_eviction inside.placed gone.victim).1)
            q) in
      record {
        valid = valid;
        reads = reads;
        finds = λ q good. contains-view valid good ∙ ap ok (reads q);
        grows = ground (arith, full, absent, size);
        same = (refl, refl, refl);
      }

  pub Outcome-Inserts : {m' : FlatPeerMap} → Outcome m c m' → IsValid m' → Inserts m'
  Outcome-Inserts (stored b n i e) =
      subst (λ x. IsValid x → Inserts x) (sym e) (stored-Inserts b n i)
  Outcome-Inserts (replaced d gone e) =
      subst (λ x. IsValid x → Inserts x) (sym e) (replaced-Inserts d gone)

  -- On a valid map `insert` panics for no contact with an id of 32 bytes. It keeps the map valid;
  -- afterwards
  -- `contains` finds the new contact under its id and every other id as before, but for the one that
  -- a full bucket evicts; `count` grows by one exactly if the id is new and its bucket has room.
  pub insert-Inserts : Returns (insert m c) Inserts
  insert-Inserts =
      let (m', run, (o, valid)) = insert-Outcome v c good in (m', run, Outcome-Inserts o valid)
