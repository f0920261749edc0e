-- ===== src/Settlement/Awards.antt =====
-- One award of packages/db/src/services/settle-match.ts before the check of the agent in
-- apps/node-agent/src/event-pump.ts.
use legacy_match_platform.Common.{
  ℕ, zero, suc, ◌+◌, ◌-◌, ◌*◌, ◌≤◌, String, Bool, true, false, ◌&&◌, Option, none, some, List, map,
  includes, ◌==◌, String_eq, ℕ_eq, beq_refl, lt→ltb, ltb, leb, min, ok, some_inj, ◌≡◌, refl, sym,
  ◌∙◌, ap, subst, arith,
}
use legacy_match_platform.Common.JsMap
use legacy_match_platform.Common.JsMap.{JsMap}
use legacy_match_platform.Contracts.{competitive, deathmatch}
use legacy_match_platform.Progression.{
  ProfileProgress, ProfileProgressionChange, advance_profile, is_valid, competitive_match_xp,
  deathmatch_match_xp,
}
use legacy_match_platform.Progression.Totals.{IsProfile, total, advance_profile-total}
use legacy_match_platform.Receipts.{
  RosterEntry, ServiceDrop, ProgressionReceipt, Candidate, DropValue, nothing, reward, computed,
  fields_fine, drop_of, validate_fields, read, validate_one,
}
use legacy_match_platform.Receipts.Progress.{advance_profile-computed}
use legacy_match_platform.Settlement.{
  Tables, SettleInput, row_of, earned_by, category_of, grant, grant_levels, award,
}

-- A receipt as the agent decodes it.
abbrev value_of : Option ServiceDrop → DropValue
value_of none = nothing
value_of (some d) = reward (some d.id) (some d.service_level) (some d.reward_type)

abbrev pub sent : ProgressionReceipt → Option Candidate
sent r = some (record {
  steam_id = some r.steam_id;
  earned_xp = some r.earned_xp;
  previous_level = some r.previous_level;
  previous_xp = some r.previous_xp;
  next_level = some r.next_level;
  next_xp = some r.next_xp;
  xp_category = some r.xp_category;
  service_drop = value_of r.service_drop;
})

pub earned_by-le : (i : SettleInput) (e : RosterEntry) → earned_by i e ≤ 1000
unfolding earned_by deathmatch_match_xp competitive_match_xp
earned_by-le i e = elim i.mode as (λ m. earned_by (record i { mode = m }) e ≤ 1000) [
  | deathmatch ↦ omega arith
  | competitive ↦ omega arith
]

-- One match lifts a player by a level at most.
pub record OneStep (p : ProfileProgress) (earned : ℕ) (c : ProfileProgressionChange) : Type 0 where
  pub next : IsProfile c.progress
  pub at_most : c.progress.level ≤ p.level + 1
  pub at_least : p.level ≤ c.progress.level
  pub level : c.progress.level ≡ (computed p.level p.xp earned).0
  pub xp : c.progress.xp ≡ (computed p.level p.xp earned).1

pub one_step :
    (p : ProfileProgress) (earned : ℕ) (c : ProfileProgressionChange)
    → IsProfile p
    → earned ≤ 1000
    → advance_profile p earned ≡ some c
    → OneStep p earned c
unfolding total
one_step p earned c v h e =
    let (c', a, n, s) = advance_profile-total p earned v in
    let same : c' ≡ c = some_inj (sym a ∙ e) in
    let next : IsProfile c.progress =
      subst (λ (c : ProfileProgressionChange). IsProfile c.progress) same n in
    let sum : c.progress.level * 1000 + c.progress.xp ≡ min (p.level * 1000 + p.xp + earned) 40999 =
      subst
        (λ (c : ProfileProgressionChange).
          c.progress.level * 1000 + c.progress.xp ≡ min (p.level * 1000 + p.xp + earned) 40999)
        same s in
    let valid : is_valid p ≡ true =
      let a = v.least in let b = v.most in let c = v.below in ground (arith, a, b, c) in
    let k = some_inj (sym e ∙ advance_profile-computed p earned valid) in
    record {
      next = next;
      at_most = omega (arith, sum, h, v.below, next.below);
      at_least = omega (arith, sum, v.most, v.below, next.below);
      level = ap (λ (c : ProfileProgressionChange). c.progress.level) k;
      xp = ap (λ (c : ProfileProgressionChange). c.progress.xp) k;
    }

bounded : (least most n : ℕ) → least ≤ n → n ≤ most → (leb least n && leb n most) ≡ true
bounded least most n h g = ground (arith, h, g)

module _ (is_steam_id is_uuid : String → Bool) (draw : String → ℕ → String)
    (drawn : (player : String) (level : ℕ) → is_uuid (draw player level) ≡ true) where
  -- The drop that is granted with a level passes the agent's check.
  granted :
      (n : ℕ) (player : String) (previous next : ℕ) (s : Tables)
      → next ≡ previous + n
      → n ≤ 1
      → drop_of is_steam_id is_uuid
          (value_of (grant_levels draw n player (previous + 1) none s).1)
          previous
          next
        ≡ ok (grant_levels draw n player (previous + 1) none s).1
  unfolding grant_levels grant drop_of
  granted zero player previous next s e h =
      let f : ltb previous next ≡ false = ground (arith, e) in rw (f, drop_of) refl
  granted (suc zero) player previous next s e h =
      let f : next ≡ previous + 1 = omega (arith, e) in
      let u = drawn player (previous + 1) in
      let g = beq_refl (previous + 1) in rw (f, u, g, drop_of) refl
  granted (suc (suc n)) player previous next s e h = ground (arith, h)

  pub award-accepted :
      (i : SettleInput) (roster : List RosterEntry) (category : ℕ) (seen : List String)
      (e : RosterEntry) (before : ProfileProgress) (c : ProfileProgressionChange) (s : Tables)
      → category_of i.mode ≡ category
      → is_steam_id e.steam_id ≡ true
      → includes (map (λ e. e.steam_id) roster) e.steam_id ≡ true
      → includes seen e.steam_id ≡ false
      → IsProfile before
      → 1 ≤ earned_by i e
      → advance_profile before (earned_by i e) ≡ some c
      → validate_one is_steam_id is_uuid roster category seen
          (sent (award draw i e before c.progress s).1)
        ≡ ok (award draw i e before c.progress s).1
  unfolding validate_one validate_fields read award
  award-accepted i roster category seen e before c s k a b f v pos adv =
      let most = earned_by-le i e in
      let o = one_step before (earned_by i e) c v most adv in
      let fine : fields_fine is_steam_id is_uuid roster category seen (record {
        steam_id = e.steam_id;
        earned_xp = earned_by i e;
        previous_level = before.level;
        previous_xp = before.xp;
        next_level = c.progress.level;
        next_xp = c.progress.xp;
        xp_category = category_of i.mode;
        service_drop = none;
      })
          ≡ true =
        rw
          (
            a,
            b,
            f,
            bounded 1 1000 (earned_by i e) pos most,
            bounded 1 40 before.level v.least v.most,
            lt→ltb before.xp 1000 v.below,
            bounded 1 40 c.progress.level o.next.least o.next.most,
            lt→ltb c.progress.xp 1000 o.next.below,
            k,
            beq_refl category,
          )
          refl in
      let level = subst (λ n. (c.progress.level == n) ≡ true) o.level (beq_refl c.progress.level) in
      let xp = subst (λ n. (c.progress.xp == n) ≡ true) o.xp (beq_refl c.progress.xp) in
      let written : Tables = record s {
        ledger = JsMap.set e.player_id (row_of (earned_by i e) before c.progress) s.ledger;
        players = JsMap.set e.player_id c.progress s.players;
        lifetime =
            JsMap.set e.player_id
              ((elim (JsMap.get e.player_id s.lifetime) [ none ↦ 0 | some n ↦ n ]) + earned_by i e)
              s.lifetime;
      } in
      let drop =
        granted (c.progress.level - before.level) e.player_id before.level c.progress.level written
          (omega (arith, o.at_least)) (omega (arith, o.at_most)) in
      rw (fine, level, xp, drop, validate_fields) refl
