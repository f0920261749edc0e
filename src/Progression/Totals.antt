-- ===== src/Progression/Totals.antt =====
-- A profile of packages/db/src/services/progression.ts counted in experience from the start.
use legacy_match_platform.Common.{
  ℕ, zero, suc, ◌+◌, ◌-◌, ◌*◌, ◌/◌, ◌≤◌, ◌<◌, min, true, ◌&&◌, some, ◌==◌, ℕ_eq, leb, ltb, ◌≡◌,
  refl, ◌∙◌, inl, inr, arith, Bool-cases,
}
use legacy_match_platform.Progression.{
  ProfileProgress, ProfileProgressionChange, competitive_match_xp, deathmatch_match_xp, level_up,
  cap, is_valid, advance_profile, convert,
}

-- All the experience that a profile stands for, a thousand for each level.
unfoldable pub total : ProfileProgress → ℕ
total p = p.level * 1000 + p.xp

pub record IsProfile (p : ProfileProgress) : Type 0 where
  pub least : 1 ≤ p.level
  pub most : p.level ≤ 40
  pub below : p.xp < 1000

record Levelled (level xp : ℕ) (r : ProfileProgress) : Type 0 where
  up : level ≤ r.level
  most : r.level ≤ 40
  same : r.level * 1000 + r.xp ≡ level * 1000 + xp
  done : (r.level < 40) → r.xp < 1000

level_up-Levelled :
    (n level xp : ℕ) → level ≤ 40 → 40 ≤ n + level → Levelled level xp (level_up n level xp)
unfolding level_up
level_up-Levelled zero level xp m f = record {
  up = omega arith;
  most = m;
  same = refl;
  done = λ l. omega (arith, f, l);
}
level_up-Levelled (suc n) level xp m f = elim (Bool-cases (ltb level 40 && leb 1000 xp)) [
  | inl e ↦
      let l : level < 40 = ground (arith, e) in
      let x : 1000 ≤ xp = ground (arith, e) in
      let r = level_up-Levelled n (suc level) (xp - 1000) (omega (arith, l)) (omega (arith, f)) in
      rw (e, level_up)
        (record {
          up = omega (arith, r.up);
          most = r.most;
          same = omega (arith, r.same, x);
          done = r.done;
        })
  | inr e ↦
      rw (e, level_up)
        (record { up = omega arith; most = m; same = refl; done = λ l. ground (arith, e, l) })
]

record Capped (t : ℕ) (r : ProfileProgress) : Type 0 where
  valid : IsProfile r
  same : total r ≡ min t 40999

cap-Capped :
    (level xp : ℕ) (r : ProfileProgress)
    → 1 ≤ level
    → Levelled level xp r
    → Capped (level * 1000 + xp) (cap r)
unfolding cap total
cap-Capped level xp r o v = elim (Bool-cases (r.level == 40)) [
  | inl e ↦
      let l : r.level ≡ 40 = ground (arith, e) in
      rw (e, cap)
        (record {
          valid = record { least = omega (arith, l); most = v.most; below = omega arith };
          same = omega (arith, l, v.same);
        })
  | inr e ↦
      let l : r.level < 40 = let m = v.most in ground (arith, e, m) in
      let d = v.done l in
      rw (e, cap)
        (record {
          valid = record { least = omega (arith, o, v.up); most = v.most; below = d };
          same = omega (arith, l, v.same, d);
        })
]

-- Advancing a valid profile succeeds, however much is earned: the new profile is valid, and stands
-- for all the experience of the old one and what was earned, up to the end of the last level.
pub advance_profile-total :
    (p : ProfileProgress) (earned : ℕ)
    → IsProfile p
    → (c : ProfileProgressionChange) × (advance_profile p earned ≡ some c)
      × IsProfile c.progress
      × (total c.progress ≡ min (total p + earned) 40999)
unfolding advance_profile total
advance_profile-total p earned v =
    let valid : is_valid p ≡ true =
      let a = v.least in let b = v.most in let c = v.below in ground (arith, a, b, c) in
    let r = level_up-Levelled 40 p.level (p.xp + earned) v.most (omega arith) in
    let k = cap-Capped p.level (p.xp + earned) _ v.least r in
    (
      record { progress = cap (level_up 40 p.level (p.xp + earned)); earned_xp = earned },
      rw (valid, advance_profile) refl,
      k.valid,
      unfold total in k.same ∙ omega arith,
    )

total_inj :
    (p q : ProfileProgress)
    → IsProfile p
    → IsProfile q
    → total p ≡ total q
    → (p.level ≡ q.level) × (p.xp ≡ q.xp)
unfolding total
total_inj p q v w e = (omega (arith, v.below, w.below, e), omega (arith, v.below, w.below, e))

-- Earning twice is earning the sum at once.
pub advance_profile-twice :
    (p : ProfileProgress) (a b : ℕ)
    → IsProfile p
    → (c d f : ProfileProgressionChange) × (advance_profile p a ≡ some c)
      × (advance_profile c.progress b ≡ some d)
      × (advance_profile p (a + b) ≡ some f)
      × (d.progress.level ≡ f.progress.level)
      × (d.progress.xp ≡ f.progress.xp)
advance_profile-twice p a b v =
    let (c, hc, vc, tc) = advance_profile-total p a v in
    let (d, hd, vd, td) = advance_profile-total c.progress b vc in
    let (f, hf, vf, tf) = advance_profile-total p (a + b) v in
    let (level, xp) = total_inj d.progress f.progress vd vf (omega (arith, tc, td, tf)) in
    (c, d, f, hc, hd, hf, level, xp)

one_level :
    (p q : ProfileProgress) (earned : ℕ)
    → earned ≤ 1000
    → IsProfile p
    → total q ≡ min (total p + earned) 40999
    → q.level ≤ suc p.level
unfolding total
one_level p q earned h v t = omega (arith, h, v.below, t)

-- One match never raises a valid profile by more than one level, whatever was won or killed.
pub advance_profile-one_match :
    (p : ProfileProgress) (rounds kills : ℕ)
    → IsProfile p
    → (c d : ProfileProgressionChange) × (advance_profile p (competitive_match_xp rounds) ≡ some c)
      × (c.progress.level ≤ suc p.level)
      × (advance_profile p (deathmatch_match_xp kills) ≡ some d)
      × (d.progress.level ≤ suc p.level)
unfolding competitive_match_xp deathmatch_match_xp
advance_profile-one_match p rounds kills v =
    let (c, hc, vc, tc) = advance_profile-total p (competitive_match_xp rounds) v in
    let (d, hd, vd, td) = advance_profile-total p (deathmatch_match_xp kills) v in
    (
      c,
      d,
      hc,
      one_level p c.progress (competitive_match_xp rounds) (omega arith) v tc,
      hd,
      one_level p d.progress (deathmatch_match_xp kills) (omega arith) v td,
    )

-- The conversion of an old row loses nothing: what the new level, its experience and the reserve
-- stand for is what the old row stood for; the new row is valid, and nothing is reserved below the
-- last level.
pub convert-total :
    (level xp : ℕ)
    → 1 ≤ level
    → level ≤ 40
    → ((convert level xp).next_level * 1000
          + (convert level xp).next_xp
          + (convert level xp).reserved_xp
        ≡ level * 1000 + xp)
      × IsProfile
          (record { level = (convert level xp).next_level; xp = (convert level xp).next_xp })
      × ((convert level xp).next_level < 40 → (convert level xp).reserved_xp ≡ 0)
unfolding convert
convert-total level xp o m = elim (Bool-cases (level + min (40 - level) (xp / 1000) == 40)) [
  | inl e ↦
      let l : level + min (40 - level) (xp / 1000) ≡ 40 = ground (arith, e) in
      rw (e, convert)
        (
          omega (arith, l, m),
          record { least = omega (arith, l); most = omega (arith, l); below = omega arith },
          λ k. absurd (omega (arith, l, k)),
        )
  | inr e ↦
      let l : level + min (40 - level) (xp / 1000) < 40 = ground (arith, e, m) in
      rw (e, convert)
        (
          omega (arith, l, m),
          record { least = omega (arith, o); most = omega (arith, l); below = omega (arith, l) },
          λ k. refl,
        )
]
