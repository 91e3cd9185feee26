-- ===== src/Peer/Insert.antt =====
-- src/peer.rs: what `insert` does to the map, and that the contacts stay in order.
use world_dat.Base.{
  ℕ, suc, ◌≤◌, ◌≡◌, refl, sym, ap, ◌∙◌, Option, none, some, Bool-cases, List, [], ◌∷◌, ◌++◌, All,
  ◌>>=◌, Returns, get_elem?, set, inl, inr, if◌then◌else◌, compare, arith, get_or, length, ltb,
  ltb→lt, ltb→le, ◌⊎◌, subst, ◌<◌,
}
use world_dat.Hash.Order.{value, cmp-value}
use world_dat.Types.{PeerId, id_eq, id_eq_iff, id_cmp}
use world_dat.Types.Distance.{IsPeerId}
use world_dat.Peer.{
  ContactInfo, Bucket, PeerMap, new, position, insert_sorted, sort, rename, insert,
}

-- The number of an id.
abbrev pub number : ContactInfo → ℕ
number c = value c.peer_id.hash.bytes

abbrev pub IsFirst : ContactInfo → List ContactInfo → Type 0
IsFirst c [] = Unit
IsFirst c (x ∷ xs) = number c ≤ number x

abbrev pub IsSorted : List ContactInfo → Type 0
IsSorted [] = Unit
IsSorted (c ∷ cs) = IsFirst c cs × IsSorted cs

abbrev pub Goods : List ContactInfo → Type 0
Goods = All (λ c. IsPeerId c.peer_id)

-- The first contact of an id.
unfoldable pub find : PeerId → List ContactInfo → Option ContactInfo
find q [] = none
find q (c ∷ cs) = if id_eq c.peer_id q then some c else find q cs

id_cmp-value :
    {a b : PeerId}
    → IsPeerId a
    → IsPeerId b
    → id_cmp a b ≡ compare (value a.hash.bytes) (value b.hash.bytes)
unfolding id_cmp
id_cmp-value ha hb = cmp-value ha hb

-- Where `c` goes: in front of `x`, or somewhere behind it.
insert_sorted-cases :
    (c x : ContactInfo) (xs : List ContactInfo)
    → IsPeerId c.peer_id
    → IsPeerId x.peer_id
    → ((insert_sorted c (x ∷ xs) ≡ c ∷ x ∷ xs) × (number c ≤ number x))
      ⊎ ((insert_sorted c (x ∷ xs) ≡ x ∷ insert_sorted c xs) × (number x < number c))
unfolding insert_sorted
insert_sorted-cases c x xs hc hx =
    let order = id_cmp-value hc hx in
    elim (Bool-cases (ltb (number x) (number c))) [
      | inl lt ↦ inr (rw (insert_sorted, order) (ground (arith, lt)), ltb→lt (number x) _ lt)
      | inr ge ↦ inl (rw (insert_sorted, order) (ground (arith, ge)), ltb→le (number x) _ ge)
    ]

-- What `insert_sorted` keeps of a sorted list.
pub record Sorts (c : ContactInfo) (xs ys : List ContactInfo) : Type 0 where
  pub goods : Goods ys
  pub sorted : IsSorted ys
  pub first : (y : ContactInfo) → number y ≤ number c → IsFirst y xs → IsFirst y ys
  pub reads : (q : PeerId) → find q ys ≡ (if id_eq c.peer_id q then some c else find q xs)

insert_sorted-Sorts :
    (c : ContactInfo) (xs : List ContactInfo)
    → IsPeerId c.peer_id
    → Goods xs
    → IsSorted xs
    → Sorts c xs (insert_sorted c xs)
unfolding find insert_sorted
insert_sorted-Sorts c [] h hs s = record {
  goods = (h, hs);
  sorted = (tt, tt);
  first = λ y le f. le;
  reads = λ q. refl;
}
insert_sorted-Sorts c (x ∷ xs) h hs s = elim (insert_sorted-cases c x xs h hs.0) [
  | inl (e, le) ↦
      subst (Sorts c (x ∷ xs)) (sym e)
        (record { goods = (h, hs); sorted = (le, s); first = λ y le' f. le'; reads = λ q. refl })
  | inr (e, lt) ↦
      let rest = insert_sorted-Sorts c xs h hs.1 s.1 in
      subst (Sorts c (x ∷ xs)) (sym e) (record {
        goods = (hs.0, rest.goods);
        sorted = (rest.first x (omega arith) s.0, rest.sorted);
        first = λ y le' f. f;
        reads = λ q. ground (
          arith,
          rest.reads q,
          id_eq_iff c.peer_id q,
          id_eq_iff x.peer_id q,
          λ (e : c.peer_id ≡ x.peer_id). ap (λ p. value p.hash.bytes) e,
        );
      })
]

-- What `sort` does to any list with ids of 32 bytes.
pub record IsSort (xs ys : List ContactInfo) : Type 0 where
  pub goods : Goods ys
  pub sorted : IsSorted ys
  pub reads : (q : PeerId) → find q ys ≡ find q xs

pub sort-IsSort : (xs : List ContactInfo) → Goods xs → IsSort xs (sort xs)
unfolding sort find
sort-IsSort [] h = record { goods = tt; sorted = tt; reads = λ q. refl }
sort-IsSort (x ∷ xs) h =
    let rest = sort-IsSort xs h.1 in
    let i = insert_sorted-Sorts x (sort xs) h.0 rest.goods rest.sorted in
    record {
      goods = i.goods;
      sorted = i.sorted;
      reads = λ q. i.reads q ∙ ap (λ o. if id_eq x.peer_id q then some x else o) (rest.reads q);
    }

abbrev pub or_else : Option ContactInfo → Option ContactInfo → Option ContactInfo
or_else none o = o
or_else (some c) o = some c

abbrev pub alone : ContactInfo → PeerId → Option ContactInfo
alone c q = if id_eq c.peer_id q then some c else none

find-append :
    (q : PeerId) (xs : List ContactInfo) (c : ContactInfo)
    → find q (xs ++ c ∷ []) ≡ or_else (find q xs) (alone c q)
unfolding find
find-append q [] c = refl
find-append q (x ∷ xs) c = ground (arith, find-append q xs c)

append-Goods :
    (xs : List ContactInfo) (c : ContactInfo) → Goods xs → IsPeerId c.peer_id → Goods (xs ++ c ∷ [])
append-Goods [] c hs h = (h, tt)
append-Goods (x ∷ xs) c hs h = (hs.0, append-Goods xs c hs.1 h)

-- The position of an id, at which its first contact stands.
record Stands (p : PeerId) (xs : List ContactInfo) (i : ℕ) (d : ContactInfo) : Type 0 where
  at : position p xs ≡ some i
  found : find p xs ≡ some d
  same : d.peer_id ≡ p
  there : get_elem? xs i ≡ some d
  again : set xs i d ≡ xs

position-cases :
    (p : PeerId) (xs : List ContactInfo)
    → ((position p xs ≡ none) × (find p xs ≡ none))
      ⊎ ((i : ℕ) × (d : ContactInfo) × Stands p xs i d)
unfolding position find
position-cases p [] = inl (refl, refl)
position-cases p (x ∷ xs) = elim (Bool-cases (id_eq x.peer_id p)) [
  | inl same ↦ inr (
    0,
    x,
    record {
      at = rw same;
      found = rw same;
      same = (id_eq_iff x.peer_id p).0 same;
      there = refl;
      again = refl;
    },
  )
  | inr other ↦ elim (position-cases p xs) [
    | inl (a, b) ↦ inl (rw (other, a), rw (other, b))
    | inr (i, d, t) ↦ inr (
      suc i,
      d,
      record {
        at = rw (other, t.at);
        found = rw (other, t.found);
        same = t.same;
        there = t.there;
        again = ap (λ ys. x ∷ ys) t.again;
      },
    )
  ]
]

-- The contacts of the one bucket.
abbrev pub peers : PeerMap → List ContactInfo
peers m = (get_or m.buckets 0 (record { known_peers = []; address_range = (0, 0) })).known_peers

-- One bucket, whose contacts stand in the order of their ids.
pub record IsValid (m : PeerMap) : Type 0 where
  pub width : length m.buckets ≡ 1
  pub goods : Goods (peers m)
  pub sorted : IsSorted (peers m)

-- What an `insert` of `c` makes of the map.
pub record Keeps (m : PeerMap) (c : ContactInfo) (m' : PeerMap) : Type 0 where
  pub valid : IsValid m'
  pub reads : (q : PeerId) → find q (peers m') ≡ or_else (find q (peers m)) (alone c q)
  pub unchanged : (d : ContactInfo) → find c.peer_id (peers m) ≡ some d → m' ≡ m

bucket_of : (bs : List Bucket) → length bs ≡ 1 → (b : Bucket) × (bs ≡ b ∷ [])
bucket_of [] e = absurd (omega arith)
bucket_of (b ∷ []) e = (b, refl)
bucket_of (b ∷ x ∷ bs) e = absurd (omega arith)

abbrev one_bucket : Bucket → ℕ → PeerMap
one_bucket b n = record { buckets = b ∷ []; bucket_size = n }

-- A list that is put in order behind its last contact.
appended-Keeps :
    (b : Bucket) (n : ℕ) (c : ContactInfo)
    → IsValid (one_bucket b n)
    → IsPeerId c.peer_id
    → find c.peer_id b.known_peers ≡ none
    → Keeps
        (one_bucket b n)
        c
        (one_bucket (record b { known_peers = sort (b.known_peers ++ c ∷ []) }) n)
appended-Keeps b n c v good absent =
    let s = sort-IsSort (b.known_peers ++ c ∷ []) (append-Goods b.known_peers c v.goods good) in
    record {
      valid = record { width = refl; goods = s.goods; sorted = s.sorted };
      reads = λ q. s.reads q ∙ find-append q b.known_peers c;
      unchanged = λ d e. absurd (cc (sym absent ∙ e));
    }

or_else-alone :
    (q : PeerId) (xs : List ContactInfo) (c d : ContactInfo)
    → find c.peer_id xs ≡ some d
    → find q xs ≡ or_else (find q xs) (alone c q)
or_else-alone q xs c d e = elim (Bool-cases (id_eq c.peer_id q)) [
  | inl same ↦ rw (subst (λ p. find p xs ≡ some d) ((id_eq_iff c.peer_id q).0 same) e)
  | inr other ↦ ground (arith, other)
]

insert-Keeps_one :
    (b : Bucket) (n : ℕ) (c : ContactInfo)
    → IsValid (one_bucket b n)
    → IsPeerId c.peer_id
    → Returns (insert (one_bucket b n) c) (Keeps (one_bucket b n) c)
unfolding insert rename
insert-Keeps_one b n c v good = elim (position-cases c.peer_id b.known_peers) [
  | inl (a, absent) ↦ (
    one_bucket (record b { known_peers = sort (b.known_peers ++ c ∷ []) }) n,
    rw (a, ◌>>=◌),
    appended-Keeps b n c v good absent,
  )
  | inr (i, d, t) ↦
      let own : record d { peer_id = c.peer_id } ≡ d =
        ap (λ p. record d { peer_id = p }) (sym t.same) in
      (
        one_bucket b n,
        rw (t.at, ◌>>=◌, t.there, ◌>>=◌, own, t.again),
        record {
          valid = v;
          reads = λ q. or_else-alone q b.known_peers c d t.found;
          unchanged = λ e f. refl;
        },
      )
]

-- On a valid map `insert` panics for no contact with an id of 32 bytes, and keeps the map valid: its
-- contacts stand in the order of the ids. Afterwards the map has the contact under its id if the id
-- is new, and still has every contact that it had, under the address that it had. If the id is not
-- new, nothing changes.
pub insert-Keeps :
    {m : PeerMap}
    → IsValid m
    → (c : ContactInfo) → IsPeerId c.peer_id
    → Returns (insert m c) (Keeps m c)
insert-Keeps {m} v c good =
    let (b, e) = bucket_of m.buckets v.width in
    let n = m.bucket_size in
    subst
      (λ bs.
        let x : PeerMap = record { buckets = bs; bucket_size = n } in
        IsValid x → Returns (insert x c) (Keeps x c))
      (sym e) (λ w. insert-Keeps_one b n c w good) v

-- The map of `new` is valid and has no contact.
pub new-Returns : Returns new (λ m. IsValid m × (peers m ≡ []))
unfolding new
new-Returns = (
  record { buckets = record { known_peers = []; address_range = (0, 256) } ∷ []; bucket_size = 8 },
  refl,
  (record { width = refl; goods = tt; sorted = tt }, refl),
)
