-- ===== src/Rank/Tests.antt =====
-- Ranks of some ratings.
use legacy_match_platform.Common.{ℕ, ◌+◌, ◌≤◌, ◌<◌, some, ◌≡◌, refl}
use legacy_match_platform.Rank.{get_rank}
use legacy_match_platform.Rank.Bounds.{get_rank-bounds}

get_rank-at_floor : (get_rank 1000).name ≡ "Gold Nova I"
unfolding get_rank
get_rank-at_floor = refl

get_rank-bounds_example :
    ((get_rank 1130).floor + (get_rank 1130).points_into_rank ≡ 1130)
    × ((c : ℕ) → (get_rank 1130).ceiling ≡ some c → 1130 ≤ c)
    × ((p : ℕ)
        → (get_rank 1130).points_for_promotion ≡ some p
        → (get_rank 1130).points_into_rank < p)
get_rank-bounds_example = get_rank-bounds 1130
