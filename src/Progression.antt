-- ===== src/Progression.antt =====
-- A player's level and experience, packages/db/src/services/progression.ts, and the arithmetic of
-- packages/db/src/services/convert-profile-xp.ts.
pub mod Totals
mod Tests
use legacy_match_platform.Common.{
  ℕ, zero, suc, ◌+◌, ◌-◌, ◌*◌, ◌/◌, ◌≤◌, ◌<◌, min, Bool, true, false, not, ◌&&◌, ◌||◌, Option, none,
  some, if◌then◌else◌, ◌==◌, ℕ_eq, leb, ltb,
}

abbrev pub profile_xp_per_level : ℕ
profile_xp_per_level = 1000

abbrev pub max_profile_level : ℕ
max_profile_level = 40

pub record ProfileProgress : Type 0 where
  pub level : ℕ
  pub xp : ℕ

pub record ProfileProgressionChange : Type 0 where
  pub progress : ProfileProgress
  pub earned_xp : ℕ

unfoldable pub competitive_match_xp : ℕ → ℕ
competitive_match_xp team_rounds_won = min (team_rounds_won * 30) 1000

unfoldable pub deathmatch_match_xp : ℕ → ℕ
deathmatch_match_xp kills = min (kills * 4) 1000

-- The loop of `advanceProfile`, on as many rounds as there are levels.
unfoldable pub level_up : ℕ → (level xp : ℕ) → ProfileProgress
level_up zero level xp = record { level = level; xp = xp }
level_up (suc n) level xp =
    let rest = level_up n (suc level) (xp - profile_xp_per_level) in
    if ltb level max_profile_level && leb profile_xp_per_level xp
    then rest
    else record { level = level; xp = xp }

-- At the last level the experience stays below that of a level.
unfoldable pub cap : ProfileProgress → ProfileProgress
cap p =
    if p.level == max_profile_level
    then record p { xp = min p.xp (profile_xp_per_level - 1) }
    else p

abbrev pub is_valid : ProfileProgress → Bool
is_valid p = leb 1 p.level && leb p.level max_profile_level && ltb p.xp profile_xp_per_level

unfoldable pub advance_profile : ProfileProgress → ℕ → Option ProfileProgressionChange
unfolding level_up cap
advance_profile current earned_xp =
    if not (is_valid current)
    then none
    else some (record {
      progress = cap (level_up max_profile_level current.level (current.xp + earned_xp));
      earned_xp = earned_xp;
    })

-- A row of `player_xp_conversion_1000`: what the old scale's experience becomes.
pub record Conversion : Type 0 where
  pub next_level : ℕ
  pub next_xp : ℕ
  pub reserved_xp : ℕ

unfoldable pub convert : (level xp : ℕ) → Conversion
convert level xp =
    let levels = min (40 - level) (xp / 1000) in
    let next = level + levels in
    let remaining = xp - levels * 1000 in
    record {
      next_level = next;
      next_xp = if next == 40 then 0 else remaining;
      reserved_xp = if next == 40 then remaining else 0;
    }
