-- ===== src/FlatMap/Widen.antt =====
-- src/types.rs: the loop of `find_closest_peers` of `FlatPeerMap`.
use world_dat.Base.{
  ℕ, zero, suc, ◌+◌, ◌-◌, ◌%◌, ◌≤◌, ◌<◌, ◌≡◌, refl, sym, ap, ◌∙◌, ◌⊎◌, inl, inr, Bool-cases, List,
  [], ◌++◌, length, length-append, All, All-append, Returns, ◌>>=◌, sum_up, sum_up-last, ltb,
  ltb→le, add_usize, sub_usize, append-nil, append_assoc, arith,
}
use world_dat.Hash.{max_power}
use world_dat.Types.{Contact}
use world_dat.Types.Distance.{IsPeerId}
use world_dat.FlatMap.{FlatPeerMap, known, closest_loop}
use world_dat.FlatMap.Bucket.{filled, length-known}
use world_dat.FlatMap.Invariant.{bucket, IsValid, bucket_at-bucket}
use world_dat.FlatMap.Total.{filled_at, Finds, bucket-Finds}

module _ {m : FlatPeerMap} (v : IsValid m) (t : ℕ) (t-lt : t < max_power) where
  pub circle : (i : ℕ) → filled_at m (i + max_power) ≡ filled_at m i
  circle i = ap (λ k. filled (bucket m k)) (omega arith)

  -- What the widths that are left collect, ahead and behind.
  abbrev pub left : ℕ → ℕ
  left k = sum_up (filled_at m) (t + max_power - k) k + sum_up (filled_at m) (t + 1) k

  abbrev pub IsHeld : Contact → Type 0
  IsHeld c = IsPeerId c.peer_id × Finds m c

  pub record Collects (count : ℕ) (results : List Contact) (k : ℕ) (l : List Contact) : Type 0 where
    pub tail : List Contact
    pub split : l ≡ results ++ tail
    pub bound : length tail ≤ left k
    pub enough : (count ≤ length l) ⊎ (length tail ≡ left k)
    pub held : All IsHeld tail

  left-suc :
      (k : ℕ)
      → k < 255
      → left (suc k)
        ≡ filled_at m (t + (max_power - suc k))
          + filled_at m (t + max_power - (max_power - suc k))
          + left k
  unfolding sum_up
  left-suc k h =
      let f = filled_at m in
      omega (
        arith,
        ap f {x = t + max_power - suc k} {y = t + (max_power - suc k)} (omega arith),
        ap (λ i. sum_up f i k) {x = suc (t + max_power - suc k)} {y = t + max_power - k}
            (omega arith),
        sum_up-last f (t + 1) k,
        ap f {x = t + 1 + k} {y = t + max_power - (max_power - suc k)} (omega arith),
      )

  ahead_index : (w : ℕ) → w < 256 → add_usize t w % max_power ≡ (t + w) % max_power
  unfolding add_usize
  ahead_index w h = omega arith

  behind_index : (w : ℕ) → w < 256 → sub_usize t w % max_power ≡ (t + max_power - w) % max_power
  unfolding sub_usize
  behind_index w h = omega arith

  -- One round of the loop in front of what the later rounds collect.
  widened :
      {l : List Contact} (count k : ℕ) (results : List Contact)
      → k < 255
      → let ahead = known (bucket m ((t + (max_power - suc k)) % max_power)) in
        let behind = known (bucket m ((t + max_power - (max_power - suc k)) % max_power)) in
        Collects count ((results ++ ahead) ++ behind) k l → Collects count results (suc k) l
  widened {l} count k results h c =
      let i : ℕ = (t + (max_power - suc k)) % max_power in
      let j : ℕ = (t + max_power - (max_power - suc k)) % max_power in
      let ahead = known (bucket m i) in
      let behind = known (bucket m j) in
      let size = length-append (ahead ++ behind) c.tail in
      let more = length-append ahead behind in
      record {
        tail = (ahead ++ behind) ++ c.tail;
        split = c.split ∙ simp append_assoc;
        bound = omega (
          arith,
          c.bound,
          left-suc k h,
          size,
          more,
          length-known (bucket m i),
          length-known (bucket m j),
        );
        enough = elim c.enough [
          | inl full ↦ inl full
          | inr all ↦ inr (
              omega (
                arith,
                all,
                left-suc k h,
                size,
                more,
                length-known (bucket m i),
                length-known (bucket m j),
              ))
        ];
        held =
            All-append _ (ahead ++ behind) c.tail
              (All-append _ ahead behind (bucket-Finds v i (omega arith))
                (bucket-Finds v j (omega arith)))
              c.held;
      }

  pub closest_loop-Collects :
      (count k : ℕ) (results : List Contact)
      → k < max_power
      → Returns (closest_loop m count t k results) (Collects count results k)
  unfolding closest_loop sum_up
  closest_loop-Collects count zero results h = (
    results,
    refl,
    record {
      tail = [];
      split = sym (append-nil results);
      bound = omega arith;
      enough = inr refl;
      held = tt;
    },
  )
  closest_loop-Collects count (suc k) results h = elim (Bool-cases (ltb (length results) count)) [
    | inr full ↦ (
      results,
      rw (closest_loop, full),
      record {
        tail = [];
        split = sym (append-nil results);
        bound = omega arith;
        enough = inl (ltb→le (length results) count full);
        held = tt;
      },
    )
    | inl more ↦
        let w : ℕ = max_power - suc k in
        let a : ℕ = (t + w) % max_power in
        let b : ℕ = (t + max_power - w) % max_power in
        let new_a = known (bucket m a) in
        let new_b = known (bucket m b) in
        let (l, run, c) =
          closest_loop-Collects count k ((results ++ new_a) ++ new_b) (omega arith) in
        (
          l,
          rw
              (
                closest_loop,
                more,
                ahead_index w (omega arith),
                bucket_at-bucket v a (omega arith),
                ◌>>=◌,
                behind_index w (omega arith),
                bucket_at-bucket v b (omega arith),
              )
              run,
          widened count k results (omega arith) c,
        )
  ]
