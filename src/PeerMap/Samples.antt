-- ===== src/PeerMap/Samples.antt =====
-- src/types.rs: a `PeerMap` for the tests, with one peer.
use world_dat.Base.{◌≡◌, refl, ok, panic, Returns-value}
use mathlib.Core.List.Permᴰ
use world_dat.HashMap.{IterationOrder}
use world_dat.PeerMap.{PeerMap, default, insert}
use world_dat.PeerMap.Invariant.{Entry, IsValid, default-IsValid}
use world_dat.PeerMap.Insert.{insert-Updates}
use world_dat.Types.Samples.{id0, id2, id0-IsPeerId, id2-IsPeerId, away}

abbrev pub one_peer : PeerMap
one_peer = elim (insert default id0 away id2) [ ok m ↦ m | panic ↦ default ]

one_peer-run : insert default id0 away id2 ≡ ok one_peer
unfolding insert default
one_peer-run = refl

pub one_peer-IsValid : IsValid id0 one_peer
one_peer-IsValid =
    (Returns-value one_peer-run
      (insert-Updates (default-IsValid id0-IsPeerId) away id2-IsPeerId)).valid

-- The order of insertion.
abbrev pub in_order : IterationOrder Entry
in_order = record { arrange = λ xs. xs; permutes = Permᴰ.refl }
