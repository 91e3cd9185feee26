-- ===== src/FlatMap/Cursor.antt =====
-- src/types.rs: the slot that `FlatPeerMap` evicts. The documentation says "round-robin".
use world_dat.Base.{
  ℕ, zero, suc, ◌<◌, ◌≡◌, ◌≢◌, refl, sym, ap, ◌∙◌, none, some, List, [], ◌∷◌, length, set, is_some,
  get_elem?, length-set, ok, ◌>>=◌, Returns, subst, arith,
}
use world_dat.Types.{Contact, id_eq_iff}
use world_dat.Types.Distance.{IsPeerId, rank}
use world_dat.FlatMap.{FlatPeerMap, insert, contains}
use world_dat.FlatMap.Bucket.{Bucket, filled, filled-le-length, Inserted-more}
use world_dat.FlatMap.Invariant.{bucket, IsValid, length-bucket, home-lt}
use world_dat.FlatMap.Write.{written, bucket-written_self}
use world_dat.FlatMap.Insert.{view, target, Outcome, stored, replaced, insert-Outcome}
use world_dat.FlatMap.Reads.{evicted, insert-Inserts, Outcome-Inserts}

get_elem?-set_self {ℓ} :
    {A : Type ℓ} (xs : List A) (i : ℕ) (x : A) → i < length xs → get_elem? (set xs i x) i ≡ some x
get_elem?-set_self [] i x h = absurd (omega arith)
get_elem?-set_self (y ∷ xs) zero x h = refl
get_elem?-set_self (y ∷ xs) (suc i) x h = get_elem?-set_self xs i x (omega arith)

filled-set_full :
    (b : Bucket) (i : ℕ) (c : Contact) → filled b ≡ length b → filled (set b i (some c)) ≡ length b
filled-set_full [] i c h = refl
filled-set_full (none ∷ b) i c h = absurd (omega (arith, filled-le-length b))
filled-set_full (some d ∷ b) zero c h = h
filled-set_full (some d ∷ b) (suc i) c h = omega (arith, filled-set_full b i c)

-- The contact is new, and its bucket full.
pub record IsFullFor (m : FlatPeerMap) (c : Contact) : Type 0 where
  pub unknown : view m c.peer_id ≡ none
  pub no_room : filled (target m c) ≡ m.bucket_size

module _ {m : FlatPeerMap} (v : IsValid m) (c : Contact) (good : IsPeerId c.peer_id)
    (full : IsFullFor m c) where
  -- Into a full bucket `insert` writes the new contact at the cursor.
  insert-full :
      {m' : FlatPeerMap}
      → Outcome m c m'
      → let b = target m c in
        m' ≡ written m (rank m.peer_id c.peer_id) (set b m.next_eviction (some c))
  unfolding view
  insert-full (stored b n i e) =
      let h = rank m.peer_id c.peer_id in
      let (_, room) = Inserted-more c (v.buckets h (home-lt v good)).packed i in
      absurd (
        omega
          (arith, room (ap is_some full.unknown), full.no_room, length-bucket v h (home-lt v good)))
  insert-full (replaced d gone e) = e

  abbrev slot : ℕ
  slot = m.next_eviction

  -- The map after that.
  abbrev after : FlatPeerMap
  after = written m (rank m.peer_id c.peer_id) (set (target m c) slot (some c))

  -- The next new contact of that bucket evicts the contact that has just been inserted.
  after-evicted :
      (c' : Contact)
      → rank m.peer_id c'.peer_id ≡ rank m.peer_id c.peer_id
      → view after c'.peer_id ≡ none
      → evicted after c' ≡ some c
  unfolding evicted
  after-evicted c' near unknown =
      let h = rank m.peer_id c.peer_id in
      let b = target m c in
      let wide = length-bucket v h (home-lt v good) in
      let there : target after c' ≡ set b slot (some c) =
        ap (bucket after) near
        ∙ bucket-written_self v h (home-lt v good) (set b slot (some c))
            (length-set b slot (some c) ∙ wide) in
      ground (
        arith,
        ap is_some unknown,
        ap filled there,
        filled-set_full b slot c (full.no_room ∙ sym wide),
        wide,
        ap (λ x. get_elem? x slot) there,
        get_elem?-set_self b slot (some c) (omega (arith, wide, v.cursor)),
      )

  -- On a valid map, a new contact inserted into a full bucket is lost at the next insertion of another new contact into
  -- that bucket: both `insert`s return, and afterwards `contains` finds the second contact and not
  -- the first.
  pub insert-insert_lost :
      (c' : Contact)
      → IsPeerId c'.peer_id
      → rank m.peer_id c'.peer_id ≡ rank m.peer_id c.peer_id
      → IsFullFor m c'
      → c'.peer_id ≢ c.peer_id
      → Returns
          (insert m c >>= λ m'. insert m' c')
          λ m''. (contains m'' c'.peer_id ≡ ok (some c')) × (contains m'' c.peer_id ≡ ok none)
  insert-insert_lost c' good' near full' ne =
      let (m', run, (o, valid)) = insert-Outcome v c good in
      let first = Outcome-Inserts v c good o valid in
      let (m'', run', second) = insert-Inserts first.valid c' good' in
      let unknown : view m' c'.peer_id ≡ none =
        first.reads c'.peer_id ∙ ground (arith, id_eq_iff c.peer_id c'.peer_id, full'.unknown) in
      let gone : evicted m' c' ≡ some c =
        subst (λ x. view x c'.peer_id ≡ none → evicted x c' ≡ some c) (sym (insert-full o))
          (after-evicted c' near) unknown in
      (
        m'',
        rw (run, ◌>>=◌) run',
        (
          second.finds c'.peer_id good' ∙ ap ok (ground (arith, id_eq_iff c'.peer_id c'.peer_id)),
          second.finds c.peer_id good
              ∙ ap ok (
                  ground
                    (arith, gone, id_eq_iff c'.peer_id c.peer_id, id_eq_iff c.peer_id c.peer_id)),
        ),
      )
