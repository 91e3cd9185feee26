-- ===== src/FlatMap/Bucket.antt =====
-- src/types.rs: one bucket of `FlatPeerMap`, and what `insert` does to it.
use world_dat.Base.{
  ℕ, suc, ◌+◌, ◌≤◌, ◌<◌, ◌≡◌, refl, subst, some_inj, is_some, Option-cases, ap, true, false, Option,
  none, some, List, [], ◌∷◌, ◌++◌, length, All, if◌then◌else◌, Bool-cases, inl, inr, arith,
}
use world_dat.Types.{PeerId, Contact, id_eq, id_eq_iff}
use world_dat.Types.Distance.{IsPeerId, rank}
use world_dat.FlatMap.{insert_loop, known, find, all_some}

abbrev pub Bucket : Type 0
Bucket = List (Option Contact)

-- How many contacts a bucket holds.
abbrev pub filled : Bucket → ℕ
filled [] = 0
filled (none ∷ b) = filled b
filled (some c ∷ b) = suc (filled b)

-- How many contacts of a list have an id.
unfoldable pub occurs : PeerId → List Contact → ℕ
occurs q [] = 0
occurs q (c ∷ cs) = (if id_eq c.peer_id q then 1 else 0) + occurs q cs

-- No contact stands behind an empty slot.
abbrev pub IsPacked : Bucket → Type 0
IsPacked [] = Unit
IsPacked (none ∷ b) = filled b ≡ 0
IsPacked (some c ∷ b) = IsPacked b

-- A contact that belongs in the bucket of rank `r` of the peer `self`.
abbrev pub BelongsAt : PeerId → ℕ → Contact → Type 0
BelongsAt self r c = IsPeerId c.peer_id × (rank self c.peer_id ≡ r)

-- The bucket of rank `r`: its contacts belong there, fill it from the front, and each id stands in
-- it at most once.
pub record IsBucket (self : PeerId) (r : ℕ) (b : Bucket) : Type 0 where
  pub placed : All (BelongsAt self r) (known b)
  pub packed : IsPacked b
  pub once : (q : PeerId) → occurs q (known b) ≤ 1

pub filled-append : (a b : Bucket) → filled (a ++ b) ≡ filled a + filled b
filled-append [] b = omega arith
filled-append (none ∷ a) b = filled-append a b
filled-append (some c ∷ a) b = omega (arith, filled-append a b)

pub length-known : (b : Bucket) → length (known b) ≡ filled b
unfolding known
length-known [] = refl
length-known (none ∷ b) = length-known b
length-known (some c ∷ b) = ap suc (length-known b)

pub filled-le-length : (b : Bucket) → filled b ≤ length b
filled-le-length [] = omega arith
filled-le-length (none ∷ b) = omega (arith, filled-le-length b)
filled-le-length (some c ∷ b) = omega (arith, filled-le-length b)

pub known-empty : (b : Bucket) → filled b ≡ 0 → known b ≡ []
unfolding known
known-empty [] h = refl
known-empty (none ∷ b) h = known-empty b h
known-empty (some c ∷ b) h = absurd (omega arith)

pub id_eq_self : (p : PeerId) → id_eq p p ≡ true
id_eq_self p = (id_eq_iff p p).1 refl

pub find-occurs : (q : PeerId) (cs : List Contact) → find q cs ≡ none → occurs q cs ≡ 0
unfolding find occurs
find-occurs q [] h = refl
find-occurs q (c ∷ cs) h = ground (arith, find-occurs q cs)

pub occurs-find : (q : PeerId) (cs : List Contact) → occurs q cs ≡ 0 → find q cs ≡ none
unfolding find occurs
occurs-find q [] h = refl
occurs-find q (c ∷ cs) h = ground (arith, occurs-find q cs)

pub empty-IsPacked : (b : Bucket) → filled b ≡ 0 → IsPacked b
empty-IsPacked [] h = tt
empty-IsPacked (none ∷ b) h = h
empty-IsPacked (some c ∷ b) h = absurd (omega arith)

module _ (c : Contact) where
  -- How the loop of `insert` goes from the bucket `b` to `w`, with `n` contacts more.
  pub data Inserted : Bucket → Bucket → ℕ → Type 0 where
    taken : {b w : Bucket} {n : ℕ} → w ≡ some c ∷ b → n ≡ 1 → Inserted (none ∷ b) w n
    updated :
        {d : Contact} {b w : Bucket} {n : ℕ}
        → id_eq d.peer_id c.peer_id ≡ true
        → w ≡ some c ∷ b
        → n ≡ 0
        → Inserted (some d ∷ b) w n
    later :
        {d : Contact} {b v w : Bucket} {n : ℕ}
        → id_eq d.peer_id c.peer_id ≡ false
        → Inserted b v n
        → w ≡ some d ∷ v
        → Inserted (some d ∷ b) w n

  pub insert_loop-Inserted :
      (b : Bucket) {w : Bucket × ℕ} → insert_loop c b ≡ some w → Inserted b w.0 w.1
  unfolding insert_loop
  insert_loop-Inserted [] e = cc
  insert_loop-Inserted (none ∷ b) e = taken (ground arith) (ground arith)
  insert_loop-Inserted (some d ∷ b) e = elim (Bool-cases (id_eq d.peer_id c.peer_id)) [
    | inl same ↦ updated same (ground arith) (ground arith)
    | inr other ↦ elim (Option-cases (insert_loop c b)) [
      | inl full ↦ absurd (cc (rw (other, full) at e))
      | inr (v, found) ↦
          let result = some_inj (rw (other, found) at e) in
          subst (λ r. Inserted (some d ∷ b) r.0 r.1) result
            (later other (insert_loop-Inserted b found) refl)
    ]
  ]

  -- The loop runs to the end only on a full bucket without the id.
  pub insert_loop-full :
      (b : Bucket)
      → insert_loop c b ≡ none
      → (all_some b ≡ true) × (filled b ≡ length b) × (find c.peer_id (known b) ≡ none)
  unfolding insert_loop known find
  insert_loop-full [] e = (refl, refl, refl)
  insert_loop-full (none ∷ b) e = cc
  insert_loop-full (some d ∷ b) e = ground (arith, insert_loop-full b)

  -- The loop keeps the length, and adds at most one contact.
  pub Inserted-filled :
      {b w : Bucket} {n : ℕ}
      → Inserted b w n
      → (length w ≡ length b) × (filled w ≡ filled b + n) × (n ≤ 1)
  Inserted-filled (taken e m) = ground arith
  Inserted-filled (updated same e m) = ground arith
  Inserted-filled (later other i e) = ground (arith, Inserted-filled i)

  -- Afterwards the id reads as the new contact, and every other id as before.
  pub find-Inserted :
      (q : PeerId) {b w : Bucket} {n : ℕ}
      → Inserted b w n
      → find q (known w) ≡ (if id_eq c.peer_id q then some c else find q (known b))
  unfolding known find
  find-Inserted q (taken e m) = rw e
  find-Inserted q (updated {d} same e m) =
      rw e (ground (arith, (id_eq_iff d.peer_id c.peer_id).0 same))
  find-Inserted q (later {d} other i e) = rw e (
      ground (
        arith,
        find-Inserted q i,
        id_eq_iff d.peer_id c.peer_id,
        id_eq_iff d.peer_id q,
        id_eq_iff c.peer_id q,
      ))

  occurs-Inserted :
      (q : PeerId) {b w : Bucket} {n : ℕ}
      → IsPacked b
      → occurs q (known b) ≤ 1
      → Inserted b w n
      → occurs q (known w) ≡ (if id_eq c.peer_id q then 1 else occurs q (known b))
  unfolding known occurs
  occurs-Inserted q p o (taken {b} e m) = rw e (ground (arith, known-empty b p))
  occurs-Inserted q p o (updated {d} same e m) =
      rw e (ground (arith, (id_eq_iff d.peer_id c.peer_id).0 same))
  occurs-Inserted q p o (later {d} other i e) = rw e (
      ground (
        arith,
        occurs-Inserted q p (omega arith) i,
        id_eq_iff d.peer_id c.peer_id,
        id_eq_iff d.peer_id q,
        id_eq_iff c.peer_id q,
      ))

  -- The loop adds a contact exactly if the id is not there, and then there was room.
  pub Inserted-more :
      {b w : Bucket} {n : ℕ}
      → IsPacked b
      → Inserted b w n
      → (n ≡ (if is_some (find c.peer_id (known b)) then 0 else 1))
        × (is_some (find c.peer_id (known b)) ≡ false → filled b < length b)
  unfolding known find
  Inserted-more p (taken {b} e m) = rw (known-empty b p) (m, λ _. omega (arith, filled-le-length b))
  Inserted-more p (updated same e m) = rw same (m, λ h. cc)
  Inserted-more p (later other i e) = rw other (ground (arith, Inserted-more p i))

  Inserted-IsPacked : {b w : Bucket} {n : ℕ} → IsPacked b → Inserted b w n → IsPacked w
  Inserted-IsPacked p (taken {b} e m) = rw e (empty-IsPacked b p)
  Inserted-IsPacked p (updated same e m) = rw e p
  Inserted-IsPacked p (later other i e) = rw e (Inserted-IsPacked p i)

  module _ (self : PeerId) (r : ℕ) (here : BelongsAt self r c) where
    Inserted-placed :
        {b w : Bucket} {n : ℕ}
        → All (BelongsAt self r) (known b)
        → Inserted b w n
        → All (BelongsAt self r) (known w)
    unfolding known
    Inserted-placed h (taken e m) = rw e (here, h)
    Inserted-placed h (updated same e m) = rw e (here, h.1)
    Inserted-placed h (later other i e) = rw e (h.0, Inserted-placed h.1 i)

    pub Inserted-IsBucket :
        {b w : Bucket} {n : ℕ} → IsBucket self r b → Inserted b w n → IsBucket self r w
    Inserted-IsBucket v i = record {
      placed = Inserted-placed v.placed i;
      packed = Inserted-IsPacked v.packed i;
      once = λ q. ground (arith, occurs-Inserted q v.packed (v.once q) i, v.once q);
    }
