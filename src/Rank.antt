-- ===== src/Rank.antt =====
-- The ranks, packages/rating/src/ranks.ts, of a rating that is a whole number; the code rounds any
-- other down and takes 0 for a negative one.
pub mod Bounds
mod Tests
use legacy_match_platform.Common.{
  ℕ, suc, ◌+◌, ◌-◌, ◌≤◌, ◌<◌, String, Bool, true, false, Option, none, some, List, [], ◌∷◌,
  if◌then◌else◌, leb,
}

pub record Rank : Type 0 where
  pub name : String
  pub short_name : String
  pub floor : ℕ

abbrev rank : String → String → ℕ → Rank
rank name short_name floor = record { name = name; short_name = short_name; floor = floor }

abbrev pub lowest : Rank
lowest = rank "Silver I" "S1" 0

-- `RANKS` after its first entry.
abbrev pub higher : List Rank
higher =
    rank "Silver II" "S2" 375
    ∷ rank "Silver III" "S3" 500
    ∷ rank "Silver IV" "S4" 625
    ∷ rank "Silver Elite" "SE" 750
    ∷ rank "Silver Elite Master" "SEM" 875
    ∷ rank "Gold Nova I" "GN1" 1000
    ∷ rank "Gold Nova II" "GN2" 1125
    ∷ rank "Gold Nova III" "GN3" 1250
    ∷ rank "Gold Nova Master" "GNM" 1375
    ∷ rank "Master Guardian I" "MG1" 1500
    ∷ rank "Master Guardian II" "MG2" 1625
    ∷ rank "Master Guardian Elite" "MGE" 1750
    ∷ rank "Distinguished Master Guardian" "DMG" 1875
    ∷ rank "Legendary Eagle" "LE" 2000
    ∷ rank "Legendary Eagle Master" "LEM" 2150
    ∷ rank "Supreme Master First Class" "SMFC" 2300
    ∷ rank "The Global Elite" "GE" 2500
    ∷ []

pub record RankSnapshot : Type 0 where
  pub name : String
  pub short_name : String
  pub floor : ℕ
  pub ceiling : Option ℕ
  pub next_rank : Option String
  pub points_into_rank : ℕ
  pub points_for_promotion : Option ℕ

-- The search from the top: the last rank whose floor the rating reaches, and the rank after it.
-- `current` is the rank before `rest`.
unfoldable pub last_reached : ℕ → Rank → List Rank → Rank × Option Rank
last_reached rating current [] = (current, none)
last_reached rating current (r ∷ rs) =
    let (found, next) = last_reached rating r rs in
    if leb found.floor rating then (found, next) else (current, some r)

-- `getRank`, less the fraction `progress`, which is a floating-point quotient.
unfoldable pub get_rank : ℕ → RankSnapshot
unfolding last_reached
get_rank rating =
    let (current, next) = last_reached rating lowest higher in
    record {
      name = current.name;
      short_name = current.short_name;
      floor = current.floor;
      ceiling = (elim next [ none ↦ none | some r ↦ some (r.floor - 1) ]);
      next_rank = (elim next [ none ↦ none | some r ↦ some r.name ]);
      points_into_rank = rating - current.floor;
      points_for_promotion = (elim next [ none ↦ none | some r ↦ some (r.floor - current.floor) ]);
    }
