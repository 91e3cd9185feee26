-- ===== src/FlatMap/Eviction.antt =====
-- src/types.rs: a full bucket of `FlatPeerMap`, when `insert` replaces one of its contacts.
use world_dat.Base.{
  ℕ, zero, suc, ◌+◌, ◌≤◌, ◌<◌, ◌≡◌, refl, true, none, some, [], ◌∷◌, length, set, get_elem?, All,
  if◌then◌else◌, subst, some_inj, arith,
}
use world_dat.Types.{PeerId, Contact, id_eq, id_eq_iff}
use world_dat.FlatMap.{known, find, all_some}
use world_dat.FlatMap.Bucket.{Bucket, filled, occurs, IsPacked, BelongsAt, IsBucket, occurs-find}

full-IsPacked : (b : Bucket) → all_some b ≡ true → IsPacked b
full-IsPacked [] h = tt
full-IsPacked (none ∷ b) h = cc
full-IsPacked (some c ∷ b) h = full-IsPacked b h

-- In a full bucket every slot holds a contact.
pub victim_of :
    (b : Bucket) (i : ℕ)
    → all_some b ≡ true
    → i < length b
    → (d : Contact) × (get_elem? b i ≡ some (some d))
victim_of [] i h l = absurd (omega arith)
victim_of (none ∷ b) i h l = cc
victim_of (some d ∷ b) zero h l = (d, refl)
victim_of (some d ∷ b) (suc i) h l = victim_of b i h (omega arith)

victim-occurs :
    (q : PeerId) (d : Contact) (b : Bucket) (i : ℕ)
    → get_elem? b i ≡ some (some d)
    → id_eq d.peer_id q ≡ true
    → 0 < occurs q (known b)
unfolding known occurs
victim-occurs q d [] i e h = cc
victim-occurs q d (none ∷ b) zero e h = cc
victim-occurs q d (some x ∷ b) zero e h = ground arith
victim-occurs q d (none ∷ b) (suc i) e h = victim-occurs q d b i e h
victim-occurs q d (some x ∷ b) (suc i) e h = omega (arith, victim-occurs q d b i e h)

pub full-filled : (b : Bucket) → all_some b ≡ true → filled b ≡ length b
full-filled [] h = refl
full-filled (none ∷ b) h = cc
full-filled (some c ∷ b) h = omega (arith, full-filled b h)

-- What holds of every contact of a bucket holds of the one in a slot.
pub All-slot {κ} :
    (P : Contact → Type κ) (d : Contact) (b : Bucket) (i : ℕ)
    → All P (known b)
    → get_elem? b i ≡ some (some d)
    → P d
unfolding known
All-slot P d [] i h e = cc
All-slot P d (none ∷ b) zero h e = cc
All-slot P d (some x ∷ b) zero h e = subst P (some_inj (some_inj e)) h.0
All-slot P d (none ∷ b) (suc i) h e = All-slot P d b i h e
All-slot P d (some x ∷ b) (suc i) h e = All-slot P d b i h.1 e

module _ (c d : Contact) where
  -- `c` replaces `d` in slot `i` of a full bucket that has no contact of `c`'s id.
  pub record Evicts (b : Bucket) (i : ℕ) : Type 0 where
    pub full : all_some b ≡ true
    pub victim : get_elem? b i ≡ some (some d)
    pub absent : occurs c.peer_id (known b) ≡ 0

  tail-Evicts : {e : Contact} {b : Bucket} {i : ℕ} → Evicts (some e ∷ b) (suc i) → Evicts b i
  unfolding known occurs
  tail-Evicts v = record { full = v.full; victim = v.victim; absent = omega (arith, v.absent) }

  pub set-full :
      (b : Bucket) (i : ℕ)
      → Evicts b i
      → (all_some (set b i (some c)) ≡ true) × (filled (set b i (some c)) ≡ filled b)
  set-full [] i v = (refl, refl)
  set-full (none ∷ b) i v = cc v.full
  set-full (some e ∷ b) zero v = (v.full, refl)
  set-full (some e ∷ b) (suc i) v = ground (arith, set-full b i (tail-Evicts v))

  -- Exactly the victim goes: its id reads as nothing, the new one as the new contact, and every
  -- other id as before.
  pub find-evict :
      (q : PeerId) (b : Bucket) (i : ℕ)
      → Evicts b i
      → occurs q (known b) ≤ 1
      → find q (known (set b i (some c))) ≡ (
          if id_eq c.peer_id q
          then some c
          else (if id_eq d.peer_id q then none else find q (known b)))
  unfolding known find occurs
  find-evict q [] i v o = absurd (cc v.victim)
  find-evict q (none ∷ b) i v o = absurd (cc v.full)
  find-evict q (some e ∷ b) zero v o = ground (arith, v.victim, occurs-find q (known b))
  find-evict q (some e ∷ b) (suc i) v o = ground (
    arith,
    find-evict q b i (tail-Evicts v) (omega arith),
    v.absent,
    victim-occurs q d b i v.victim,
    id_eq_iff e.peer_id c.peer_id,
    id_eq_iff e.peer_id q,
    id_eq_iff c.peer_id q,
  )

  abbrev has : Contact → PeerId → ℕ
  has x q = if id_eq x.peer_id q then 1 else 0

  occurs-set :
      (q : PeerId) (b : Bucket) (i : ℕ)
      → get_elem? b i ≡ some (some d)
      → occurs q (known (set b i (some c))) + has d q ≡ occurs q (known b) + has c q
  unfolding known occurs
  occurs-set q [] i e = cc
  occurs-set q (none ∷ b) zero e = cc
  occurs-set q (some x ∷ b) zero e = ground (arith, e)
  occurs-set q (none ∷ b) (suc i) e = occurs-set q b i e
  occurs-set q (some x ∷ b) (suc i) e = omega (arith, occurs-set q b i e)

  occurs-evict :
      (q : PeerId) (b : Bucket) (i : ℕ)
      → Evicts b i
      → occurs q (known b) ≤ 1
      → occurs q (known (set b i (some c))) ≤ 1
  occurs-evict q b i v o =
      ground (arith, occurs-set q b i v.victim, v.absent, id_eq_iff c.peer_id q)

  module _ (self : PeerId) (r : ℕ) (here : BelongsAt self r c) where
    evict-placed :
        (b : Bucket) (i : ℕ)
        → All (BelongsAt self r) (known b)
        → All (BelongsAt self r) (known (set b i (some c)))
    unfolding known
    evict-placed [] i h = h
    evict-placed (none ∷ b) zero h = (here, h)
    evict-placed (some e ∷ b) zero h = (here, h.1)
    evict-placed (none ∷ b) (suc i) h = evict-placed b i h
    evict-placed (some e ∷ b) (suc i) h = (h.0, evict-placed b i h.1)

    pub evict-IsBucket :
        (b : Bucket) (i : ℕ) → IsBucket self r b → Evicts b i → IsBucket self r (set b i (some c))
    evict-IsBucket b i v e = record {
      placed = evict-placed b i v.placed;
      packed = full-IsPacked (set b i (some c)) (set-full b i e).0;
      once = λ q. occurs-evict q b i e (v.once q);
    }
