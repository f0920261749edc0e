-- ===== src/Settlement/Accepted.antt =====
-- What the settlement of packages/db/src/services/settle-match.ts awards, before the check of the
-- agent in apps/node-agent/src/event-pump.ts.
use legacy_match_platform.Common.{
  ℕ, suc, ◌≤◌, String, Bool, true, false, Option, some, List, [], ◌∷◌, map, length, includes,
  distinct, All, ◌==◌, String_eq, ℕ_eq, eq_iff, beq_refl, ltb, ok, Bool-cases, Option-cases,
  some_inj, ◌≡◌, inl, inr, refl, ap, subst, arith,
}
use legacy_match_platform.Common.JsMap
use legacy_match_platform.Common.JsMap.{JsMap}
use legacy_match_platform.Contracts.{GameMode}
use legacy_match_platform.Progression.{ProfileProgress, advance_profile}
use legacy_match_platform.Progression.Totals.{IsProfile}
use legacy_match_platform.Receipts.{
  RosterEntry, ProgressionReceipt, validate_all, validated_progression, expected_category,
}
use legacy_match_platform.Settlement.{
  Tables, SettleInput, earned_by, category_of, award, settle_progression,
}
use legacy_match_platform.Settlement.Awards.{sent, award-accepted}

-- Valid profiles.
abbrev pub AllValid : JsMap ProfileProgress → Type 0
AllValid profiles =
    (player : String) (p : ProfileProgress) → JsMap.get player profiles ≡ some p → IsProfile p

module _ (is_steam_id is_uuid : String → Bool) (draw : String → ℕ → String)
    (drawn : (player : String) (level : ℕ) → is_uuid (draw player level) ≡ true) where
  -- Roster entries that the agent knows and has not seen.
  abbrev Expected : List RosterEntry → List String → RosterEntry → Type 0
  Expected roster seen e =
      (is_steam_id e.steam_id ≡ true)
      × ((includes (map (λ e. e.steam_id) roster) e.steam_id ≡ true)
          × (includes seen e.steam_id ≡ false))

  expect_later :
      (roster : List RosterEntry) (x : String) (seen : List String) (es : List RosterEntry)
      → includes (map (λ (e : RosterEntry). e.steam_id) es) x ≡ false
      → All (Expected roster seen) es
      → All (Expected roster (x ∷ seen)) es
  expect_later roster x seen [] n h = tt
  expect_later roster x seen (e ∷ es) n h = (
    (h.0.0, (h.0.1.0, ground (arith, eq_iff x e.steam_id, eq_iff e.steam_id x, h.0.1.1, n))),
    expect_later roster x seen es (ground (arith, n)) h.1,
  )

  settle-accepted :
      (i : SettleInput) (profiles : JsMap ProfileProgress) (roster : List RosterEntry)
      (category : ℕ) (seen : List String) (es : List RosterEntry) (s s' : Tables)
      (rs : List ProgressionReceipt)
      → category_of i.mode ≡ category
      → AllValid profiles
      → All (Expected roster seen) es
      → distinct (map (λ (e : RosterEntry). e.steam_id) es) ≡ true
      → settle_progression draw i profiles es s ≡ some (s', rs)
      → (validate_all is_steam_id is_uuid roster category seen (map sent rs) ≡ ok rs)
        × (length rs ≤ length es)
  unfolding settle_progression validate_all JsMap.has
  settle-accepted i profiles roster category seen [] s s' rs k v x d h =
      let e : [] ≡ rs = ap (λ p. p.1) (some_inj h) in
      subst
        (λ rs.
          (validate_all is_steam_id is_uuid roster category seen (map sent rs) ≡ ok rs)
          × (length rs ≤ 0))
        e (refl, omega arith)
  settle-accepted i profiles roster category seen (e ∷ es) s s' rs k v x d h =
      let n : includes (map (λ (e : RosterEntry). e.steam_id) es) e.steam_id ≡ false =
        ground (arith, d) in
      let d' : distinct (map (λ (e : RosterEntry). e.steam_id) es) ≡ true = ground (arith, d) in
      let skip : settle_progression draw i profiles es s ≡ some (s', rs)
          → (validate_all is_steam_id is_uuid roster category seen (map sent rs) ≡ ok rs)
            × (length rs ≤ suc (length es)) =
        λ g.
          let r = settle-accepted i profiles roster category seen es s s' rs k v x.1 d' g in
          (r.0, omega (arith, r.1)) in
      elim (Option-cases (JsMap.get e.player_id profiles)) [
        | inl a ↦ absurd (let q = rw (a, settle_progression) at h in cc)
        | inr (before, a) ↦ elim (Bool-cases (earned_by i e == 0)) [
          | inl z ↦ skip (rw (a, z, settle_progression) at h)
          | inr z ↦ elim (Option-cases (advance_profile before (earned_by i e))) [
            | inl b ↦ absurd (let q = rw (a, z, b, settle_progression) at h in cc)
            | inr (c, b) ↦ elim (Bool-cases (JsMap.has e.player_id s.ledger)) [
              | inl f ↦ skip (rw (a, z, b, f, settle_progression) at h)
              | inr f ↦
                  let r = award draw i e before c.progress s in
                  elim (Option-cases (settle_progression draw i profiles es r.0)) [
                    | inl g ↦ absurd (let q = rw (a, z, b, f, g, settle_progression) at h in cc)
                    | inr (rest, g) ↦
                        let pos : 1 ≤ earned_by i e = ground (arith, z) in
                        let q : (rest.0, r.1 ∷ rest.1) ≡ (s', rs) =
                          some_inj (rw (a, z, b, f, g, settle_progression) at h) in
                        let one =
                          award-accepted is_steam_id is_uuid draw drawn i roster category seen e
                            before c s k x.0.0 x.0.1.0 x.0.1.1 (v e.player_id before a) pos b in
                        let all =
                          settle-accepted i profiles roster category (e.steam_id ∷ seen) es r.0
                            rest.0 rest.1 k v (expect_later roster e.steam_id seen es n x.1) d' g in
                        subst
                          (λ rs.
                            (validate_all is_steam_id is_uuid roster category seen (map sent rs)
                              ≡ ok rs)
                            × (length rs ≤ suc (length es)))
                          (ap (λ p. p.1) q)
                          (rw (one, all.0, validate_all) refl, omega (arith, all.1))
                  ]
            ]
          ]
        ]
      ]

  -- The entries of a roster that are still to come are the agent's.
  all_known :
      (roster es : List RosterEntry)
      → ((x : String)
          → includes (map (λ (e : RosterEntry). e.steam_id) es) x ≡ true
          → includes (map (λ (e : RosterEntry). e.steam_id) roster) x ≡ true)
      → All (λ (e : RosterEntry). is_steam_id e.steam_id ≡ true) es
      → All (Expected roster []) es
  all_known roster [] f h = tt
  all_known roster (e ∷ es) f h = (
    (h.0, (f e.steam_id (ground (arith, beq_refl e.steam_id)), refl)),
    all_known roster es (λ x g. f x (ground (arith, g))) h.1,
  )

  length-sent : (rs : List ProgressionReceipt) → length (map sent rs) ≡ length rs
  length-sent [] = refl
  length-sent (r ∷ rs) = ap suc (length-sent rs)

  -- Receipts that a settlement awards pass the agent's check unchanged, when the agent has the
  -- settlement's roster and kind of match, the profiles are valid, the roster's Steam identifiers
  -- are well-formed and distinct, and the identifiers that the database draws for drops are UUIDs.
  pub settlement-accepted :
      (i : SettleInput) (profiles : JsMap ProfileProgress) (mode : Option GameMode)
      (roster : List RosterEntry) (s s' : Tables) (rs : List ProgressionReceipt)
      → category_of i.mode ≡ expected_category mode roster
      → AllValid profiles
      → All (λ (e : RosterEntry). is_steam_id e.steam_id ≡ true) roster
      → distinct (map (λ (e : RosterEntry). e.steam_id) roster) ≡ true
      → settle_progression draw i profiles roster s ≡ some (s', rs)
      → validated_progression is_steam_id is_uuid mode roster (some (map sent rs)) ≡ ok rs
  unfolding validated_progression
  settlement-accepted i profiles mode roster s s' rs k v a d h =
      let known = all_known roster roster (λ x g. g) a in
      let (all, short) =
        settle-accepted i profiles roster (expected_category mode roster) [] roster s s' rs k v
          known d h in
      let fits : ltb (length roster) (length (map sent rs)) ≡ false =
        let e = length-sent rs in ground (arith, e, short) in
      rw (fits, all, validated_progression) refl
