-- ===== src/Progression/Tests.antt =====
-- Profiles that advance, and one that is converted.
use legacy_match_platform.Common.{◌+◌, ◌*◌, ◌≤◌, ◌<◌, min, some, ◌≡◌, arith}
use legacy_match_platform.Progression.{
  ProfileProgress, ProfileProgressionChange, competitive_match_xp, deathmatch_match_xp,
  advance_profile, convert,
}
use legacy_match_platform.Progression.Totals.{
  total, IsProfile, advance_profile-total, advance_profile-twice, advance_profile-one_match,
  convert-total,
}

abbrev veteran : ProfileProgress
veteran = record { level = 38; xp = 900 }

veteran-IsProfile : IsProfile veteran
veteran-IsProfile = record { least = omega arith; most = omega arith; below = omega arith }

advance_profile-total_example :
    (c : ProfileProgressionChange) × (advance_profile veteran 5000 ≡ some c)
    × IsProfile c.progress
    × (total c.progress ≡ min (total veteran + 5000) 40999)
advance_profile-total_example = advance_profile-total veteran 5000 veteran-IsProfile

advance_profile-twice_example :
    (c d f : ProfileProgressionChange) × (advance_profile veteran 300 ≡ some c)
    × (advance_profile c.progress 900 ≡ some d)
    × (advance_profile veteran 1200 ≡ some f)
    × (d.progress.level ≡ f.progress.level)
    × (d.progress.xp ≡ f.progress.xp)
advance_profile-twice_example = advance_profile-twice veteran 300 900 veteran-IsProfile

advance_profile-one_match_example :
    (c d : ProfileProgressionChange) × (advance_profile veteran (competitive_match_xp 16) ≡ some c)
    × (c.progress.level ≤ 39)
    × (advance_profile veteran (deathmatch_match_xp 400) ≡ some d)
    × (d.progress.level ≤ 39)
advance_profile-one_match_example = advance_profile-one_match veteran 16 400 veteran-IsProfile

convert-total_example :
    ((convert 37 7400).next_level * 1000 + (convert 37 7400).next_xp + (convert 37 7400).reserved_xp
      ≡ 44400)
    × IsProfile (record { level = (convert 37 7400).next_level; xp = (convert 37 7400).next_xp })
    × ((convert 37 7400).next_level < 40 → (convert 37 7400).reserved_xp ≡ 0)
convert-total_example = convert-total 37 7400 (omega arith) (omega arith)
