-- ===== src/Types/Tests.antt =====
-- src/types.rs: its tests of `distance_rank`, and the theorems on it at two ids.
use world_dat.Base.{◌<◌, ◌≡◌, refl, [], ◌∷◌, ◌++◌, replicate, ok}
use world_dat.Hash.{max_power}
use world_dat.Types.{raw, distance_rank}
use world_dat.Types.Distance.{rank, distance_rank-rank}
use world_dat.Types.Samples.{id1, id2, id1-IsPeerId, id2-IsPeerId}

-- `test_distance_rank`
distance_rank_test :
    (distance_rank (raw (replicate 31 0 ++ 1 ∷ [])) (raw (replicate 31 0 ++ 1 ∷ [])) ≡ ok 255)
    × (distance_rank (raw (replicate 31 0 ++ 1 ∷ [])) (raw (replicate 30 0 ++ 1 ∷ 1 ∷ [])) ≡ ok 246)
unfolding distance_rank raw
distance_rank_test = (refl, refl)

-- `test_distance_rank2`, whose ids differ in the fifth byte alone.
distance_rank2_test :
    distance_rank
      (raw (replicate 4 0 ++ 1 ∷ replicate 27 1))
      (raw (replicate 4 0 ++ 0 ∷ replicate 27 1))
    ≡ ok 38
unfolding distance_rank raw
distance_rank2_test = refl

distance_rank-rank_example :
    (distance_rank id1 id2 ≡ ok (rank id1 id2)) × (rank id1 id2 < max_power)
distance_rank-rank_example = distance_rank-rank id1-IsPeerId id2-IsPeerId
