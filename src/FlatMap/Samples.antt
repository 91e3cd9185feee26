-- ===== src/FlatMap/Samples.antt =====
-- src/types.rs: a `FlatPeerMap` for the tests, with one slot in a bucket and one contact.
use world_dat.Base.{◌≡◌, refl, ok, panic, Returns-value, add_usize, mul_usize, arith}
use world_dat.FlatMap.{FlatPeerMap, new, insert}
use world_dat.FlatMap.Invariant.{IsValid, new-IsValid}
use world_dat.FlatMap.Reads.{insert-Inserts}
use world_dat.Types.Samples.{id0, id2, id0-IsPeerId, id2-IsPeerId, contact}

abbrev pub empty_map : FlatPeerMap
empty_map = new id0 1

pub empty_map-IsValid : IsValid empty_map
empty_map-IsValid = (new-IsValid 1 id0-IsPeerId (omega arith) (omega arith)).0

abbrev pub one_map : FlatPeerMap
one_map = elim (insert empty_map (contact id2)) [ ok m ↦ m | panic ↦ empty_map ]

one_map-run : insert empty_map (contact id2) ≡ ok one_map
unfolding insert new add_usize mul_usize
one_map-run = refl

pub one_map-IsValid : IsValid one_map
one_map-IsValid =
    (Returns-value one_map-run (insert-Inserts empty_map-IsValid (contact id2) id2-IsPeerId)).valid
