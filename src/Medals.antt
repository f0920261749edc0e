-- ===== src/Medals.antt =====
-- The sequence of service medals, packages/db/src/services/service-medals.ts, without the texts.
pub mod Order
mod Tests
use legacy_match_platform.Common.{
  ℕ, zero, suc, ◌+◌, Option, ◌-◌, none, some, List, [], ◌∷◌, ◌++◌, get_elem?,
}

pub record ServiceMedalDefinition : Type 0 where
  pub prestige : ℕ
  pub year : ℕ
  pub tier : ℕ
  pub definition_index : ℕ

abbrev pub medal_definitions : List (ℕ × List ℕ)
medal_definitions =
    (2015, 1331 ∷ 1332 ∷ [])
    ∷ (2016, 1339 ∷ 1340 ∷ 1341 ∷ 1342 ∷ 1343 ∷ 1344 ∷ [])
    ∷ (2017, 1357 ∷ 1358 ∷ 1359 ∷ 1360 ∷ 1361 ∷ 1362 ∷ 1363 ∷ [])
    ∷ (2018, 1367 ∷ 1368 ∷ 1369 ∷ 1370 ∷ 1371 ∷ 1372 ∷ [])
    ∷ (2019, 1376 ∷ 1377 ∷ 1378 ∷ 1379 ∷ 1380 ∷ 1381 ∷ [])
    ∷ (2020, 4674 ∷ 4675 ∷ 4676 ∷ 4677 ∷ 4678 ∷ 4679 ∷ [])
    ∷ (2021, 4737 ∷ 4738 ∷ 4739 ∷ 4740 ∷ 4741 ∷ 4742 ∷ [])
    ∷ (2022, 4819 ∷ 4820 ∷ 4821 ∷ 4822 ∷ 4823 ∷ 4824 ∷ [])
    ∷ (2023, 4873 ∷ 4874 ∷ 4875 ∷ 4876 ∷ 4877 ∷ 4878 ∷ [])
    ∷ []

-- The medals of a tier, over the years; not yet numbered.
unfoldable pub of_tier : ℕ → List (ℕ × List ℕ) → List ServiceMedalDefinition
of_tier tier [] = []
of_tier tier ((year, definitions) ∷ rest) = elim (get_elem? definitions (tier - 1)) [
  | none ↦ of_tier tier rest
  | some d ↦
      record { prestige = 0; year = year; tier = tier; definition_index = d } ∷ of_tier tier rest
]

-- `n` tiers from `tier` on.
unfoldable pub tiers : (n tier : ℕ) → List ServiceMedalDefinition
unfolding of_tier
tiers zero tier = []
tiers (suc n) tier = of_tier tier medal_definitions ++ tiers n (suc tier)

unfoldable pub number : ℕ → List ServiceMedalDefinition → List ServiceMedalDefinition
number index [] = []
number index (m ∷ ms) = record m { prestige = index + 1 } ∷ number (suc index) ms

unfoldable pub service_medal_sequence : List ServiceMedalDefinition
unfolding tiers number
service_medal_sequence = number 0 (tiers 7 1)

-- On a natural number; the code refuses any other.
unfoldable pub next_service_medal : ℕ → Option ServiceMedalDefinition
unfolding service_medal_sequence
next_service_medal completed = get_elem? service_medal_sequence completed
