-- ===== src/Settlement.antt =====
-- The experience that the settlement of a match awards, packages/db/src/services/settle-match.ts: the
-- loop over the roster. The tables are maps by player, of the settled match; what the database
-- draws for a new row of player_service_drops is the argument `draw`.
pub mod Awards
pub mod Accepted
pub mod Again
mod Tests
use legacy_match_platform.Common.{
  ◌&&◌, ◌||◌, map, Result, ok, err, ℕ, zero, suc, ◌+◌, ◌-◌, String, Bool, true, false, not, Option,
  none, some, List, [], ◌∷◌, ◌++◌, if◌then◌else◌, ◌==◌, String_eq, ℕ_eq,
}
use legacy_match_platform.Common.JsMap
use legacy_match_platform.Common.JsMap.{JsMap}
use legacy_match_platform.Contracts.{GameMode, GameMode_eq, competitive, deathmatch}
use legacy_match_platform.Progression.{
  ProfileProgress, ProfileProgressionChange, advance_profile, competitive_match_xp,
  deathmatch_match_xp,
}
use legacy_match_platform.Receipts.{
  RosterTeam, RosterEntry, ServiceDrop, ProgressionReceipt, alpha, bravo, ffa,
}

-- A row of `player_xp_ledger`.
pub record LedgerRow : Type 0 where
  pub delta : ℕ
  pub previous_level : ℕ
  pub previous_xp : ℕ
  pub next_level : ℕ
  pub next_xp : ℕ

-- What the transaction has written.
pub record Tables : Type 0 where
  pub players : JsMap ProfileProgress
  pub lifetime : JsMap ℕ
  -- The rows of the match, one for a player at most.
  pub ledger : JsMap LedgerRow
  -- The rows of `player_service_drops` of the match.
  pub drops : List (String × ServiceDrop)

pub record SettleInput : Type 0 where
  pub mode : GameMode
  pub alpha_rounds : ℕ
  pub bravo_rounds : ℕ
  pub kills : JsMap ℕ

abbrev rounds_of : SettleInput → RosterTeam → ℕ
rounds_of i alpha = i.alpha_rounds
rounds_of i _ = i.bravo_rounds

unfoldable pub earned_by : SettleInput → RosterEntry → ℕ
unfolding deathmatch_match_xp competitive_match_xp
earned_by i e = elim i.mode [
  | deathmatch ↦
      deathmatch_match_xp (elim (JsMap.get e.player_id i.kills) [ none ↦ 0 | some k ↦ k ])
  | competitive ↦ competitive_match_xp (rounds_of i e.team)
]

abbrev pub category_of : GameMode → ℕ
category_of deathmatch = 1
category_of competitive = 2

abbrev pub row_of : (earned : ℕ) (before next : ProfileProgress) → LedgerRow
row_of earned before next = record {
  delta = earned;
  previous_level = before.level;
  previous_xp = before.xp;
  next_level = next.level;
  next_xp = next.xp;
}

module _ (draw : String → ℕ → String) where
  -- `grantServiceLevelRewards`, as far as the drop's own row.
  unfoldable pub grant : String → ℕ → Tables → Tables × ServiceDrop
  grant player level s =
      let drop : ServiceDrop = record {
        id = draw player level;
        service_level = level;
        reward_type = "b2g_service_drop";
      } in
      (record s { drops = s.drops ++ (player, drop) ∷ [] }, drop)

  -- The loop over the new levels, `n` of them from `level` on; the last drop counts.
  unfoldable pub grant_levels :
      ℕ → String → (level : ℕ) → Option ServiceDrop → Tables → Tables × Option ServiceDrop
  unfolding grant
  grant_levels zero player level last s = (s, last)
  grant_levels (suc n) player level last s =
      let r = grant player level s in grant_levels n player (suc level) (some r.1) r.0

  -- One player of the roster who earned something, with the profile as it was read.
  unfoldable pub award :
      SettleInput
      → RosterEntry
      → ProfileProgress
      → ProfileProgress
      → Tables
      → Tables × ProgressionReceipt
  unfolding grant_levels earned_by
  award i e before next s =
      let earned = earned_by i e in
      let written : Tables = record s {
        ledger = JsMap.set e.player_id (row_of earned before next) s.ledger;
        players = JsMap.set e.player_id next s.players;
        lifetime =
            JsMap.set e.player_id
              ((elim (JsMap.get e.player_id s.lifetime) [ none ↦ 0 | some n ↦ n ]) + earned)
              s.lifetime;
      } in
      let r =
        grant_levels (next.level - before.level) e.player_id (before.level + 1) none written in
      (
        r.0,
        record {
          steam_id = e.steam_id;
          earned_xp = earned;
          previous_level = before.level;
          previous_xp = before.xp;
          next_level = next.level;
          next_xp = next.xp;
          xp_category = category_of i.mode;
          service_drop = r.1;
        },
      )

  -- The loop; none where the code throws, and the transaction with it. `profiles` are the rows that
  -- were read and locked before the loop.
  unfoldable pub settle_progression :
      SettleInput
      → JsMap ProfileProgress
      → List RosterEntry
      → Tables
      → Option (Tables × List ProgressionReceipt)
  unfolding earned_by award advance_profile
  settle_progression i profiles [] s = some (s, [])
  settle_progression i profiles (e ∷ es) s = elim (JsMap.get e.player_id profiles) [
    | none ↦ none
    | some before ↦
        if earned_by i e == 0
        then settle_progression i profiles es s
        else (elim (advance_profile before (earned_by i e)) [
          | none ↦ none
          | some change ↦
              if JsMap.has e.player_id s.ledger
              then settle_progression i profiles es s
              else (let r = award i e before change.progress s in
                  elim (settle_progression i profiles es r.0) [
                    | none ↦ none
                    | some rest ↦ some (rest.0, r.1 ∷ rest.1)
                  ])
        ])
  ]

-- The drops of a player in the match.
unfoldable pub drops_of : String → List (String × ServiceDrop) → List ServiceDrop
drops_of player [] = []
drops_of player ((p, d) ∷ ds) =
    let rest = drops_of player ds in if p == player then d ∷ rest else rest

-- What a joined row of `player_service_drops` is answered as.
abbrev pub answered : ServiceDrop → Option ServiceDrop
answered d =
    if d.id == "" || d.service_level == 0
    then none
    else some
        (record { id = d.id; service_level = d.service_level; reward_type = "b2g_service_drop" })

-- `left join player_service_drops`: a row without drops stays once.
unfoldable pub joined_drops : List ServiceDrop → List (Option ServiceDrop)
joined_drops [] = none ∷ []
joined_drops (d ∷ ds) = answered d ∷ map answered ds

unfoldable pub persisted_one : SettleInput → Tables → RosterEntry → List ProgressionReceipt
unfolding joined_drops drops_of
persisted_one i s e = elim (JsMap.get e.player_id s.ledger) [
  | none ↦ []
  | some row ↦
      map
        (λ d. record {
          steam_id = e.steam_id;
          earned_xp = row.delta;
          previous_level = row.previous_level;
          previous_xp = row.previous_xp;
          next_level = row.next_level;
          next_xp = row.next_xp;
          xp_category = category_of i.mode;
          service_drop = d;
        })
        (joined_drops (drops_of e.player_id s.drops))
]

-- The experience that a completed match is answered with, from the ledger.
unfoldable pub persisted_progression :
    SettleInput → Tables → List RosterEntry → List ProgressionReceipt
unfolding persisted_one
persisted_progression i s [] = []
persisted_progression i s (e ∷ es) = persisted_one i s e ++ persisted_progression i s es

pub data MatchStatus : Type 0 where
  live completed other : MatchStatus

pub record MatchRow : Type 0 where
  pub status : MatchStatus
  pub alpha_rounds : Option ℕ
  pub bravo_rounds : Option ℕ

pub data SettleError : Type 0 where
  conflicting_score not_live refused_profile : SettleError

abbrev pub scored : Option ℕ → ℕ → Bool
scored none n = false
scored (some k) n = k == n

-- `settleMatch` of a Deathmatch; a competitive match goes on with its ratings.
module _ (draw : String → ℕ → String) where
  unfoldable pub settle_match :
      SettleInput
      → JsMap ProfileProgress
      → List RosterEntry
      → MatchRow
      → Tables
      → Result SettleError (MatchRow × Tables × List ProgressionReceipt)
  unfolding settle_progression persisted_progression
  settle_match i profiles roster m s = elim m.status [
    | completed ↦
        if not (scored m.alpha_rounds i.alpha_rounds && scored m.bravo_rounds i.bravo_rounds)
        then err conflicting_score
        else ok (m, s, persisted_progression i s roster)
    | other ↦ err not_live
    | live ↦ elim (settle_progression draw i profiles roster s) [
      | none ↦ err refused_profile
      | some r ↦ ok (
        record {
          status = completed;
          alpha_rounds = some i.alpha_rounds;
          bravo_rounds = some i.bravo_rounds;
        },
        r.0,
        r.1,
      )
    ]
  ]
