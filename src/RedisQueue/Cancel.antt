-- ===== src/RedisQueue/Cancel.antt =====
-- Cancelling a ready check: `CANCEL_READY_CHECK_SCRIPT`, its penalties, and the acknowledgement.
use legacy_match_platform.Common.{
  ℕ, suc, ◌+◌, ◌*◌, String, Bool, true, false, not, ◌&&◌, none, some, List, [], ◌∷◌, ◌++◌,
  if◌then◌else◌, ◌==◌, String_eq, ℕ_eq, leb, ltb, includes, keep,
}
use legacy_match_platform.Common.JsMap
use legacy_match_platform.Common.JsMap.{JsMap}
use legacy_match_platform.RedisQueue.{Store, ReadyRecord, CancelMode, decline, expiry, for_each}
use legacy_match_platform.RedisQueue.Leave.{remove_ticket}

-- How long a player is kept out after the n-th failure within thirty days, in seconds.
unfoldable pub penalty_seconds : ℕ → ℕ
penalty_seconds count =
    if leb 4 count then 1800 else if count == 3 then 600 else if count == 2 then 120 else 30

-- `INCR` of the failures; a counter that has lapsed starts again.
unfoldable pub failure_count : ℕ → String → Store → ℕ
failure_count now m s = elim (JsMap.get m s.failures) [
  | none ↦ 1
  | some f ↦ if leb f.lapses_at now then 1 else suc f.count
]

unfoldable pub penalise : ℕ → String → Store → Store
unfolding penalty_seconds failure_count
penalise now m s =
    let count = failure_count now m s in
    record s {
      failures =
          JsMap.set m (record { count = count; lapses_at = now + 2592000 * 1000 }) s.failures;
      cooldowns = JsMap.set m (now + penalty_seconds count * 1000) s.cooldowns;
    }

-- Whether a party identifier is that of a native lobby: `string.sub(id, 1, 12) == 'steam-lobby:'`.
module _ (is_lobby : String → Bool) where
  -- The members other than the leader of each native lobby of the check.
  unfoldable pub followers : List String → Store → List String
  followers [] s = []
  followers (id ∷ ids) s =
      let rest = followers ids s in
      elim (JsMap.get id s.tickets) [
        | none ↦ rest
        | some t ↦ elim t.party_id [
          | none ↦ rest
          | some p ↦
              if is_lobby p
              then keep (λ m. not (m == t.leader_player_id)) t.member_player_ids ++ rest
              else rest
        ]
      ]

  -- Whether the player pays for the cancellation.
  unfoldable pub pays : CancelMode → String → ReadyRecord → List String → String → Bool
  pays decline requester r excused m = m == requester && not (includes excused m)
  pays expiry requester r excused m =
      not (includes r.check.accepted_player_ids m) && not (includes excused m)

  unfoldable pub penalise_member :
      CancelMode → String → ℕ → ReadyRecord → List String → String → Store → Store
  unfolding pays penalise
  penalise_member mode requester now r excused m s =
      if pays mode requester r excused m then penalise now m s else s

unfoldable pub drop_ticket : String → Store → Store
unfolding remove_ticket
drop_ticket id s = elim (JsMap.get id s.tickets) [ none ↦ s | some t ↦ remove_ticket id t s ]

pub data Cancelled : Type 0 where
  missing still_active cancelled : Cancelled

abbrev pub is_expiry : CancelMode → Bool
is_expiry decline = false
is_expiry expiry = true

unfoldable pub cancel_script :
    (String → Bool) → String → String → ℕ → CancelMode → Store → Store × Cancelled
unfolding followers penalise_member drop_ticket for_each
cancel_script is_lobby match_id requester now mode s = elim (JsMap.get match_id s.ready) [
  | none ↦ (s, missing)
  | some r ↦
      if is_expiry mode && ltb now r.expires_at_ms
      then (s, still_active)
      else let excused = followers is_lobby r.ticket_ids s in
        let s1 =
          for_each (penalise_member is_lobby mode requester now r excused) r.member_player_ids s in
        let s2 = for_each drop_ticket r.ticket_ids s1 in
        (
          record s2 {
            ready = JsMap.delete match_id s2.ready;
            ready_deadlines = JsMap.delete match_id s2.ready_deadlines;
            cancellation_reasons = JsMap.set match_id mode s2.cancellation_reasons;
            cancellations = JsMap.set match_id now s2.cancellations;
          },
          cancelled,
        )
]

-- `acknowledgeReadyCheckCancellation`.
unfoldable pub acknowledge : String → Store → Store
acknowledge match_id s = record s {
  cancellations = JsMap.delete match_id s.cancellations;
  cancellation_reasons = JsMap.delete match_id s.cancellation_reasons;
}
