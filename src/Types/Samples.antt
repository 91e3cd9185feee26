-- ===== src/Types/Samples.antt =====
-- src/types.rs: ids and contacts for the tests, named by the bytes of the id that are not zero.
use world_dat.Base.{ℕ, [], ◌∷◌, ◌++◌, replicate, arith, refl}
use world_dat.Types.{PeerId, SocketAddr, v4, Contact}
use world_dat.Types.Distance.{IsPeerId}

-- The last two bytes of the id.
abbrev pub id_of : ℕ → ℕ → PeerId
id_of a b = record { hash = record { bytes = replicate 30 0 ++ a ∷ b ∷ [] } }

abbrev pub id0 : PeerId
id0 = id_of 0 0

abbrev pub id1 : PeerId
id1 = id_of 0 1

abbrev pub id2 : PeerId
id2 = id_of 0 2

abbrev pub id3 : PeerId
id3 = id_of 0 3

pub id0-IsPeerId : IsPeerId id0
id0-IsPeerId = record { size = refl; u8s = omega arith }

pub id1-IsPeerId : IsPeerId id1
id1-IsPeerId = record { size = refl; u8s = omega arith }

pub id2-IsPeerId : IsPeerId id2
id2-IsPeerId = record { size = refl; u8s = omega arith }

pub id3-IsPeerId : IsPeerId id3
id3-IsPeerId = record { size = refl; u8s = omega arith }

abbrev pub home : SocketAddr
home = v4 167772161 4433

abbrev pub away : SocketAddr
away = v4 167772162 4433

abbrev pub contact : PeerId → Contact
contact p = record { peer_id = p; address = away }
