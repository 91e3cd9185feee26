-- ===== src/FlatMap/Tests.antt =====
-- src/types.rs: the theorems on `FlatPeerMap` at a map with one slot in a bucket.
use world_dat.Base.{
  ◌+◌, ◌-◌, ◌<◌, ◌≡◌, ◌≢◌, refl, ap, get_or, length, none, some, ok, ◌>>=◌, Returns, arith,
  add_usize, mul_usize,
}
use world_dat.FlatMap.{new, insert, contains, find, find_closest_peers, known}
use world_dat.FlatMap.Closest.{Closest, own, find_closest_peers-Closest, find_closest_peers_twice}
use world_dat.FlatMap.Cursor.{IsFullFor, insert-insert_lost}
use world_dat.FlatMap.Insert.{view, Outcome, contains-view, insert-Outcome}
use world_dat.FlatMap.Invariant.{IsValid}
use world_dat.FlatMap.Reads.{Inserts, insert-Inserts}
use world_dat.FlatMap.Samples.{one_map, one_map-IsValid}
use world_dat.Hash.{leading_zeros}
use world_dat.Hash.Xor.{xor_bytes}
use world_dat.Types.{id_eq}
use world_dat.Types.Distance.{IsPeerId, rank}
use world_dat.Types.Samples.{
  id_of, id0, id1, id2, id3, id1-IsPeerId, id2-IsPeerId, id3-IsPeerId, contact,
}

insert-Inserts_example :
    Returns (insert one_map (contact id3)) (Inserts one_map-IsValid (contact id3) id3-IsPeerId)
insert-Inserts_example = insert-Inserts one_map-IsValid (contact id3) id3-IsPeerId

insert-Outcome_example :
    Returns (insert one_map (contact id3)) (λ m'. Outcome one_map (contact id3) m' × IsValid m')
insert-Outcome_example = insert-Outcome one_map-IsValid (contact id3) id3-IsPeerId

contains-view_example : contains one_map id2 ≡ ok (view one_map id2)
contains-view_example = contains-view one_map-IsValid id2-IsPeerId

find_closest_peers-Closest_example :
    Returns (find_closest_peers one_map id1 16) (Closest one_map-IsValid id1-IsPeerId 16)
unfolding insert new add_usize mul_usize
find_closest_peers-Closest_example =
    find_closest_peers-Closest one_map-IsValid id1-IsPeerId 16 (omega arith)

find_closest_peers_twice_example : Returns (find_closest_peers one_map id1 16) λ l.
    (length l ≡ one_map.count + (one_map.count - length (own one_map-IsValid id1-IsPeerId)))
    × (one_map.count < length l)
unfolding insert new add_usize mul_usize rank find known xor_bytes
find_closest_peers_twice_example =
    find_closest_peers_twice one_map-IsValid id1-IsPeerId 16 (omega arith) (omega arith)
      (omega arith)

-- The bucket of the two contacts is full: that of the contact of `one_map`.
IsFullFor-id3 : IsFullFor one_map (contact id3)
unfolding view rank find known insert new add_usize mul_usize xor_bytes id_eq
IsFullFor-id3 = record { unknown = refl; no_room = refl }

IsFullFor-other : IsFullFor one_map (contact (id_of 1 2))
unfolding view rank find known insert new add_usize mul_usize xor_bytes id_eq
IsFullFor-other = record { unknown = refl; no_room = refl }

other-IsPeerId : IsPeerId (id_of 1 2)
other-IsPeerId = record { size = refl; u8s = omega arith }

same_rank : rank id0 (id_of 1 2) ≡ rank id0 id3
unfolding rank xor_bytes leading_zeros
same_rank = refl

id3-other : id_of 1 2 ≢ id3
id3-other e = absurd (omega (arith, ap (λ p. get_or p.hash.bytes 30 0) e))

insert-insert_lost_example :
    Returns (insert one_map (contact id3) >>= λ m'. insert m' (contact (id_of 1 2))) λ m''.
      (contains m'' (id_of 1 2) ≡ ok (some (contact (id_of 1 2)))) × (contains m'' id3 ≡ ok none)
unfolding insert new add_usize mul_usize
insert-insert_lost_example =
    insert-insert_lost one_map-IsValid (contact id3) id3-IsPeerId IsFullFor-id3
      (contact (id_of 1 2)) other-IsPeerId same_rank IsFullFor-other id3-other
