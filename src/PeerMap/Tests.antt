-- ===== src/PeerMap/Tests.antt =====
-- src/types.rs: the theorems on `PeerMap` at a map with one peer.
use world_dat.Base.{◌≡◌, ok, Returns}
use world_dat.PeerMap.{insert, contains, find_closest_peers}
use world_dat.PeerMap.Closest.{Neighbors, find_closest_peers-Neighbors}
use world_dat.PeerMap.Insert.{Updates, insert-Updates}
use world_dat.PeerMap.Invariant.{view, named, contains-named}
use world_dat.PeerMap.Samples.{one_peer, one_peer-IsValid, in_order}
use world_dat.Types.Samples.{id0, id1, id2, id1-IsPeerId, id2-IsPeerId, home}

insert-Updates_example :
    Returns (insert one_peer id0 home id2) (Updates one_peer-IsValid home id2-IsPeerId)
insert-Updates_example = insert-Updates one_peer-IsValid home id2-IsPeerId

contains-named_example : contains one_peer id0 id2 ≡ ok (named id2 (view one_peer id0 id2))
contains-named_example = contains-named one_peer-IsValid id2-IsPeerId

find_closest_peers-Neighbors_example :
    Returns
      (find_closest_peers in_order one_peer id0 id1)
      (Neighbors in_order one_peer-IsValid id1-IsPeerId)
find_closest_peers-Neighbors_example =
    find_closest_peers-Neighbors in_order one_peer-IsValid id1-IsPeerId
