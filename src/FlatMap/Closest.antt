-- ===== src/FlatMap/Closest.antt =====
-- src/types.rs: what `find_closest_peers` and `lookup` of `FlatPeerMap` return.
use world_dat.Base.{
  ℕ, suc, ◌+◌, ◌-◌, ◌≤◌, ◌<◌, ◌≡◌, ap, ◌∙◌, inl, inr, le→leb, some_inj, sym, Option-cases, none,
  some, List, ◌++◌, length, take, length-append, length-take, All, All-append, All-take, Returns,
  ◌>>=◌, ◌%◌, refl, sum_up, sum_up-rotate, sum_up-first, min, arith,
}
use world_dat.Hash.{max_power}
use world_dat.Types.{PeerId, Contact}
use world_dat.Types.Distance.{IsPeerId, rank, distance_rank-rank}
use world_dat.FlatMap.{FlatPeerMap, known, find_closest_peers, lookup}
use world_dat.FlatMap.Bucket.{filled, length-known}
use world_dat.FlatMap.Invariant.{bucket, IsValid, bucket_for-bucket, home-lt}
use world_dat.FlatMap.Insert.{view, contains-view}
use world_dat.FlatMap.Total.{filled_at, count-sum_up, Finds, bucket-Finds}
use world_dat.FlatMap.Widen.{circle, Collects, closest_loop-Collects}

module _ {m : FlatPeerMap} (v : IsValid m) {needle : PeerId} (good : IsPeerId needle) where
  -- The contacts in the bucket of the needle.
  abbrev pub own : List Contact
  own = known (bucket m (rank m.peer_id needle))

  -- What `find_closest_peers` may return for `count`.
  pub record Closest (count : ℕ) (l : List Contact) : Type 0 where
    pub few : length l ≤ count
    pub many : min count m.count ≤ length l
    pub held : All (λ c. IsPeerId c.peer_id × Finds m c) l
    pub own_first : (rest : List Contact) × (l ≡ take count (own ++ rest))

  -- The needle's bucket and all others, ahead of it round the circle.
  own-others : length own + sum_up (filled_at m) (rank m.peer_id needle + 1) 255 ≡ m.count
  own-others =
      let t = rank m.peer_id needle in
      let f = filled_at m in
      let lt = home-lt v good in
      omega (
        arith,
        length-known (bucket m t),
        ap (λ k. filled (bucket m k)) {x = t % max_power} {y = t} (omega (arith, lt)),
        count-sum_up v,
        sum_up-rotate f max_power (circle v t lt) t (omega (arith, lt)),
        sum_up-first f t 255,
        ap (λ i. sum_up f i 255) {x = suc t} {y = t + 1} (omega arith),
      )

  find_closest_peers-run :
      (count : ℕ)
      → count ≤ length m.contacts
      → Returns (find_closest_peers m needle count) λ l.
        (r : List Contact) × Collects v (rank m.peer_id needle) (home-lt v good) count own 255 r
        × (l ≡ take count r)
  unfolding find_closest_peers
  find_closest_peers-run count h =
      let t = rank m.peer_id needle in
      let (r, run, c) = closest_loop-Collects v t (home-lt v good) count 255 own (omega arith) in
      (
        take count r,
        rw (
          le→leb count (length m.contacts) h,
          bucket_for-bucket v good,
          (distance_rank-rank v.own good).0,
          ◌>>=◌,
          run,
        ),
        (r, c, refl),
      )

  -- On a valid map `find_closest_peers` panics for no id of 32 bytes and no `count` up to the capacity. It returns
  -- at most `count` contacts, and that many if the map knows as many, else at least as many as the
  -- map knows, where copies of a contact count; `contains` finds each of them; those of the needle's bucket stand first.
  pub find_closest_peers-Closest :
      (count : ℕ)
      → count ≤ length m.contacts
      → Returns (find_closest_peers m needle count) (Closest count)
  find_closest_peers-Closest count h =
      let (l, run, (r, c, e)) = find_closest_peers-run count h in
      let size = length-append own c.tail in
      (
        l,
        run,
        record {
          few = omega (arith, ap length e, length-take count r);
          many = ground (
            arith,
            ap length e,
            length-take count r,
            c.enough,
            ap length c.split,
            size,
            own-others,
          );
          held = rw e (
              All-take _ count r
                (rw c.split (All-append _ own c.tail (bucket-Finds v _ (home-lt v good)) c.held)));
          own_first = (c.tail, e ∙ ap (take count) c.split);
        },
      )

  -- On a valid map, if some contact stands outside the needle's bucket, `find_closest_peers` returns more
  -- contacts than the map knows: as many as `m.count`, and as many again as stand outside the needle's
  -- bucket, where `count` is no smaller than that and at most the capacity.
  pub find_closest_peers_twice :
      (count : ℕ)
      → count ≤ length m.contacts
      → m.count + (m.count - length own) ≤ count
      → length own < m.count
      → Returns
          (find_closest_peers m needle count)
          λ l. (length l ≡ m.count + (m.count - length own)) × (m.count < length l)
  find_closest_peers_twice count h big other =
      let t = rank m.peer_id needle in
      let (l, run, (r, c, e)) = find_closest_peers-run count h in
      let size = length-append own c.tail in
      let around =
        ap (λ i. sum_up (filled_at m) i 255) {x = t + max_power - 255} {y = t + 1} (omega arith) in
      let served : length l ≡ m.count + (m.count - length own) = ground (
        arith,
        ap length e,
        length-take count r,
        c.enough,
        c.bound,
        ap length c.split,
        size,
        own-others,
        around,
      ) in
      (l, run, (served, omega (arith, served, other)))

  -- On a valid map `lookup` does not panic for an id of 32 bytes. It returns the contact that `contains` finds, or
  -- else what `find_closest_peers` may return for the size of a bucket.
  pub lookup_lem : Returns (lookup m needle) λ r.
      ((c : Contact) → view m needle ≡ some c → r ≡ inl c)
      × (view m needle ≡ none → (l : List Contact) × (r ≡ inr l) × Closest m.bucket_size l)
  unfolding lookup
  lookup_lem = elim (Option-cases (view m needle)) [
    | inr (c, e) ↦ (
      inl c,
      rw (contains-view v good, ◌>>=◌, e),
      ((λ d f. ap inl (some_inj (sym e ∙ f))), (λ f. absurd (cc (sym e ∙ f)))),
    )
    | inl e ↦
        let (l, run, c) = find_closest_peers-Closest m.bucket_size (omega (arith, v.width)) in
        (
          inr l,
          rw (contains-view v good, ◌>>=◌, e, run),
          ((λ d f. absurd (cc (sym e ∙ f))), (λ _. (l, refl, c))),
        )
  ]
