-- ===== src/FlatMap/Total.antt =====
-- src/types.rs: the buckets of `FlatPeerMap` together, and that `contains` finds what they hold.
use world_dat.Base.{
  ℕ, zero, suc, ◌+◌, ◌*◌, ◌%◌, ◌≤◌, ◌<◌, ◌≡◌, sym, ap, ◌∙◌, some, List, [], ◌∷◌, length,
  length-drop, take, drop, take-append-drop, drop-drop, All, All-map, All-both, ok, sum_up, arith,
  window,
}
use world_dat.Hash.{max_power}
use world_dat.Types.{PeerId, Contact}
use world_dat.Types.Distance.{IsPeerId}
use world_dat.FlatMap.{FlatPeerMap, contains, known, find}
use world_dat.FlatMap.Bucket.{Bucket, filled, occurs, filled-append, filled-le-length, id_eq_self}
use world_dat.FlatMap.Invariant.{bucket, IsValid}
use world_dat.FlatMap.Insert.{view, contains-view}

-- The contacts of the bucket at an index that goes round.
abbrev pub filled_at : FlatPeerMap → ℕ → ℕ
filled_at m i = filled (bucket m (i % max_power))

filled-rows :
    (xs : Bucket) (s : ℕ) (f : ℕ → ℕ) (r n : ℕ)
    → length (drop (r * s) xs) ≡ n * s
    → ((i : ℕ) → r ≤ i → i < r + n → f i ≡ filled (window xs (i * s) s))
    → filled (drop (r * s) xs) ≡ sum_up f r n
unfolding sum_up
filled-rows xs s f r zero e h = omega (arith, e, filled-le-length (drop (r * s) xs))
filled-rows xs s f r (suc n) e h =
    let here = drop (r * s) xs in
    let step : r * s + s ≡ suc r * s = omega arith in
    let next : drop s here ≡ drop (suc r * s) xs =
      drop-drop (r * s) s xs ∙ ap (λ k. drop k xs) step in
    let rest =
      filled-rows xs s f (suc r) n
        (omega (arith, e, length-drop (r * s) xs, length-drop (suc r * s) xs))
        (λ i lo hi. h i (omega arith) (omega arith)) in
    omega (
      arith,
      filled-append (take s here) (drop s here),
      ap filled (take-append-drop s here),
      ap filled next,
      h r (omega arith) (omega arith),
      rest,
    )

-- On a valid map `count` is the number of contacts in all 256 buckets.
pub count-sum_up : {m : FlatPeerMap} → IsValid m → m.count ≡ sum_up (filled_at m) 0 max_power
count-sum_up {m} v =
    let whole : drop (0 * m.bucket_size) m.contacts ≡ m.contacts =
      ap (λ k. drop k m.contacts) {x = 0 * m.bucket_size} {y = 0} (omega arith) in
    v.counted
    ∙ ap filled (sym whole)
    ∙ filled-rows m.contacts m.bucket_size (filled_at m) 0 max_power (ap length whole ∙ v.width)
        (λ i lo hi. ap (λ k. filled (bucket m k)) (omega arith))

-- A contact that `contains` returns under its own id.
abbrev pub Finds : FlatPeerMap → Contact → Type 0
Finds m c = contains m c.peer_id ≡ ok (some c)

find-occurs-some :
    (q : PeerId) (c : Contact) (cs : List Contact) → find q cs ≡ some c → 0 < occurs q cs
unfolding find occurs
find-occurs-some q c [] e = cc
find-occurs-some q c (x ∷ cs) e = ground (arith, find-occurs-some q c cs)

find_own :
    (cs : List Contact)
    → ((q : PeerId) → occurs q cs ≤ 1)
    → All (λ c. find c.peer_id cs ≡ some c) cs
unfolding find occurs
find_own [] h = tt
find_own (c ∷ cs) h = (
  ground (arith, id_eq_self c.peer_id),
  All-map cs (λ x e. ground (arith, h x.peer_id, find-occurs-some x.peer_id x cs e))
      (find_own cs (λ q. omega (arith, h q))),
)

-- On a valid map every contact of every bucket has an id of 32 bytes, and `contains` finds it by
-- that id.
pub bucket-Finds :
    {m : FlatPeerMap}
    → IsValid m
    → (r : ℕ) → r < max_power
    → All (λ c. IsPeerId c.peer_id × Finds m c) (known (bucket m r))
unfolding view
bucket-Finds {m} v r h =
    let b = v.buckets r h in
    let cs = known (bucket m r) in
    All-both cs (λ c at e. (at.0, contains-view v at.0 ∙ ap ok (rw at.1 e))) b.placed
      (find_own cs b.once)
