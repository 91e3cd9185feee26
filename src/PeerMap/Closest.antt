-- ===== src/PeerMap/Closest.antt =====
-- src/types.rs: what `find_closest_peers` and `lookup` of `PeerMap` return.
use world_dat.Base.{
  suc, ◌+◌, ◌-◌, ◌≤◌, ◌≡◌, refl, sym, ap, ◌∙◌, inl, inr, true, Option-cases, none, some, some_inj,
  List, [], ◌++◌, length, take, length-append, length-take, All, All-append, All-take, Returns,
  ◌>>=◌, sum_up, sum_up-first, min, arith,
}
use world_dat.Hash.{max_power}
use world_dat.HashMap.{IterationOrder}
use world_dat.Types.{PeerId, SocketAddr}
use world_dat.Types.Distance.{IsPeerId, rank, distance_rank-rank}
use world_dat.PeerMap.{PeerMap, find_closest_peers, lookup}
use world_dat.PeerMap.Invariant.{Entry, IsValid, bucket, view, home-lt, contains-named}
use world_dat.PeerMap.Widen.{size_at, IsHeld, extend_if-tail, closest_loop-Collects}

module _ (order : IterationOrder Entry) {self : PeerId} {m : PeerMap} (v : IsValid self m)
    {p : PeerId} (good : IsPeerId p) where
  -- What `find_closest_peers` may return: at most `bucket_size` entries, and as many if the buckets
  -- from the searched one on hold as many, else at least as many as they hold, where copies of an
  -- entry count; those of the searched bucket stand first; `contains` returns each; none is from a
  -- bucket between the first and the searched one.
  pub record Neighbors (l : List Entry) : Type 0 where
    pub few : length l ≤ m.bucket_size
    pub many : min m.bucket_size (sum_up (size_at m) (rank self p) max_power) ≤ length l
    pub held : All (IsHeld order v (rank self p) (home-lt v good)) l
    pub own_first :
        (rest : List Entry) × (l
          ≡ take m.bucket_size (order.arrange (bucket m (rank self p)).known_peers ++ rest))

  -- On a valid map `find_closest_peers` panics for no id of 32 bytes. It returns a list of at most
  -- `bucket_size` entries, which may hold the same entry many times; counted with the copies, they are
  -- no fewer than the smaller of that size and the number of peers in the buckets from the searched one
  -- up. The entries of the searched bucket stand first, up to that size, and copies may follow. `contains` returns
  -- each entry. Each is of bucket 0, or of the searched one or a higher one: the buckets in between are
  -- left out.
  pub find_closest_peers-Neighbors : Returns (find_closest_peers order m self p) Neighbors
  unfolding find_closest_peers
  find_closest_peers-Neighbors =
      let t = rank self p in
      let lt = home-lt v good in
      let (r, run, (own, split, size, held, same)) =
        extend_if-tail order v t lt true t [] (λ _. (lt, inr (omega arith))) in
      let (l, run', c) = closest_loop-Collects order v t lt 255 r (omega arith) in
      let whole = length-append own c.tail in
      let parts : l ≡ own ++ c.tail = c.split ∙ ap (λ x. x ++ c.tail) split in
      (
        take m.bucket_size l,
        rw ((distance_rank-rank v.own good).0, ◌>>=◌, run, ◌>>=◌, run'),
        record {
          few = omega (arith, length-take m.bucket_size l);
          many = ground (
            arith,
            length-take m.bucket_size l,
            c.enough,
            ap length parts,
            whole,
            size,
            sum_up-first (size_at m) t 255,
            ap (λ i. sum_up (size_at m) i 255) {x = suc t} {y = t + max_power - 255} (omega arith),
          );
          held =
              All-take (IsHeld order v t lt) m.bucket_size l
                (rw parts (All-append (IsHeld order v t lt) own c.tail held c.held));
          own_first = (c.tail, ap (take m.bucket_size) (parts ∙ ap (λ x. x ++ c.tail) (same refl)));
        },
      )

  -- On a valid map `lookup` panics for no id of 32 bytes. It returns the peer with the address that the map holds
  -- of it, or else what `find_closest_peers` may return.
  pub lookup-Neighbors : Returns (lookup order m self p) λ r.
      ((a : SocketAddr) → view m self p ≡ some a → r ≡ inl (p, a))
      × (view m self p ≡ none → (l : List Entry) × (r ≡ inr l) × Neighbors l)
  unfolding lookup
  lookup-Neighbors = elim (Option-cases (view m self p)) [
    | inr (a, e) ↦ (
      inl (p, a),
      rw (contains-named v good, ◌>>=◌, e),
      ((λ b f. ap (λ x. inl (p, x)) (some_inj (sym e ∙ f))), (λ f. absurd (cc (sym e ∙ f)))),
    )
    | inl e ↦
        let (l, run, c) = find_closest_peers-Neighbors in
        (
          inr l,
          rw (contains-named v good, ◌>>=◌, e, run),
          ((λ b f. absurd (cc (sym e ∙ f))), (λ _. (l, refl, c))),
        )
  ]
