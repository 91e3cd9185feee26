-- ===== src/PeerMap/Widen.antt =====
-- src/types.rs: the loop of `find_closest_peers` of `PeerMap`.
use world_dat.Base.{
  ℕ, zero, suc, ◌+◌, ◌-◌, ◌≤◌, ◌<◌, ◌≡◌, refl, sym, ap, ◌∙◌, ◌⊎◌, inl, inr, Bool, true, false,
  Bool-cases, some, List, [], ◌++◌, length, get_or_over, append-nil, append_assoc, length-append,
  All, All-append, All-both, ok, Returns, ◌>>=◌, ltb, ltb→lt, ltb→le, if◌then◌else◌, sum_up,
  sum_up-first, add_usize, add_usize_lem, arith,
}
use world_dat.Hash.{max_power}
use world_dat.HashMap.{IterationOrder}
use world_dat.HashMap.Laws.{length-arrange, All-arrange, get_own}
use world_dat.Types.{PeerId, peer_id_eq}
use world_dat.Types.Distance.{IsPeerId, rank}
use world_dat.PeerMap.{PeerMap, new_bucket, contains, extend_if, closest_loop}
use world_dat.PeerMap.Invariant.{
  Entry, bucket, IsValid, view, named, bucket_at-bucket, contains-named,
}

-- How many peers stand in the bucket at an index; none out of range.
abbrev pub size_at : PeerMap → ℕ → ℕ
size_at m i = length (bucket m i).known_peers

module _ (order : IterationOrder Entry) {self : PeerId} {m : PeerMap} (v : IsValid self m) (t : ℕ)
    (t-lt : t < max_power) where
  -- An entry that `contains` returns; its bucket is 0, or `t` or higher.
  pub record IsHeld (e : Entry) : Type 0 where
    pub good : IsPeerId e.0
    pub found : contains m self e.0 ≡ ok (some e)
    pub where_from : (rank self e.0 ≡ 0) ⊎ (t ≤ rank self e.0)

  pub bucket-IsHeld :
      (r : ℕ)
      → r < max_power
      → (r ≡ 0) ⊎ (t ≤ r)
      → All IsHeld (order.arrange (bucket m r).known_peers)
  unfolding view
  bucket-IsHeld r h from =
      let b = v.buckets r h in
      let es = (bucket m r).known_peers in
      All-arrange order IsHeld es (
        All-both es
          (λ e at own. record {
            good = at.0;
            found = contains-named v at.0 ∙ ap (λ o. ok (named e.0 o)) {y = some e.1} (rw at.1 own);
            where_from = rw at.1 from;
          })
          b.placed (get_own es b.once))

  pub extend_if-tail :
      (b : Bool) (i : ℕ) (results : List Entry)
      → (b ≡ true → (i < max_power) × ((i ≡ 0) ⊎ (t ≤ i)))
      → Returns (extend_if order b m i results) λ l.
        (tail : List Entry) × (l ≡ results ++ tail)
        × (length tail ≡ (if b then size_at m i else 0))
        × All IsHeld tail
        × (b ≡ true → tail ≡ order.arrange (bucket m i).known_peers)
  unfolding extend_if
  extend_if-tail false i results h =
      (results, refl, ([], sym (append-nil results), refl, tt, (λ e. absurd (cc e))))
  extend_if-tail true i results h =
      let (lt, from) = h refl in
      (
        results ++ order.arrange (bucket m i).known_peers,
        rw (bucket_at-bucket v i lt),
        (
          order.arrange (bucket m i).known_peers,
          refl,
          length-arrange order (bucket m i).known_peers,
          bucket-IsHeld i lt from,
          (λ e. refl),
        ),
      )

  pub record Collects (results : List Entry) (k : ℕ) (l : List Entry) : Type 0 where
    pub tail : List Entry
    pub split : l ≡ results ++ tail
    pub enough :
        (m.bucket_size ≤ length l) ⊎ (sum_up (size_at m) (t + max_power - k) k ≤ length tail)
    pub held : All IsHeld tail

  size_at-over : (i : ℕ) → max_power ≤ i → size_at m i ≡ 0
  size_at-over i h =
      ap (λ b. length b.known_peers) (get_or_over m.buckets i new_bucket (omega (arith, v.width)))

  -- The bucket ahead, or nothing behind the last one.
  ahead :
      (k : ℕ)
      → k < 255
      → let i = add_usize t (max_power - suc k) in
        (if ltb i max_power then size_at m i else 0) + sum_up (size_at m) (t + max_power - k) k
        ≡ sum_up (size_at m) (t + max_power - suc k) (suc k)
  ahead k h =
      let i : ℕ = t + (max_power - suc k) in
      rw (add_usize_lem t (max_power - suc k) (omega arith)) (
        ground (
          arith,
          size_at-over i,
          sum_up-first (size_at m) (t + max_power - suc k) k,
          ap (size_at m) {x = t + max_power - suc k} {y = i} (omega arith),
          ap (λ j. sum_up (size_at m) j k) {x = suc (t + max_power - suc k)} {y = t + max_power - k}
              (omega arith),
        ))

  pub closest_loop-Collects :
      (k : ℕ) (results : List Entry)
      → k < max_power
      → Returns (closest_loop order m t k results) (Collects results k)
  unfolding closest_loop sum_up
  closest_loop-Collects zero results h = (
    results,
    refl,
    record { tail = []; split = sym (append-nil results); enough = inr (omega arith); held = tt },
  )
  closest_loop-Collects (suc k) results h = elim (Bool-cases (ltb (length results) m.bucket_size)) [
    | inr full ↦ (
      results,
      rw (closest_loop, full),
      record {
        tail = [];
        split = sym (append-nil results);
        enough = inl (ltb→le (length results) m.bucket_size full);
        held = tt;
      },
    )
    | inl more ↦
        let w : ℕ = max_power - suc k in
        let (r, run, (a, split_a, size_a, held_a, _)) =
          extend_if-tail (ltb t w) (t - w) results
            (λ lt. (omega arith, inl (omega (arith, ltb→lt t w lt)))) in
        let sum = add_usize_lem t w (omega arith) in
        let (r', run', (b, split_b, size_b, held_b, _)) =
          extend_if-tail (ltb (add_usize t w) max_power) (add_usize t w) r
            (λ lt. (ltb→lt (add_usize t w) max_power lt, inr (omega (arith, sum)))) in
        let (l, run'', c) = closest_loop-Collects k r' (omega arith) in
        let size = length-append (a ++ b) c.tail in
        (
          l,
          rw (closest_loop, more, run, ◌>>=◌, run', ◌>>=◌) run'',
          record {
            tail = (a ++ b) ++ c.tail;
            split = c.split ∙ rw (split_b, split_a) (simp append_assoc);
            enough = elim c.enough [
              | inl full ↦ inl full
              | inr all ↦
                  inr (omega (arith, all, size, length-append a b, size_b, ahead k (omega arith)))
            ];
            held = All-append IsHeld (a ++ b) c.tail (All-append IsHeld a b held_a held_b) c.held;
          },
        )
  ]
