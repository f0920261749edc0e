-- ===== src/Medals/Tests.antt =====
-- The first two service medals.
use legacy_match_platform.Common.{◌+◌, true, some, ◌≡◌, arith}
use legacy_match_platform.Medals.{ServiceMedalDefinition, next_service_medal}
use legacy_match_platform.Medals.Order.{leads, next_service_medal-ascending}

next_service_medal-ascending_example :
    (m : ServiceMedalDefinition) × (next_service_medal 8 ≡ some m)
    × (m.prestige ≡ 8 + 1)
    × (leads m (next_service_medal (8 + 1)) ≡ true)
next_service_medal-ascending_example = next_service_medal-ascending 8 (omega arith)
