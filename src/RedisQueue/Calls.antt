-- ===== src/RedisQueue/Calls.antt =====
-- The methods of `RedisQueueService` that run scripts for a player or for the sweeper. A method that
-- reads the clock again before its second script takes the second reading too.
use legacy_match_platform.Common.{
  ℕ, suc, ◌+◌, String, Bool, true, false, Option, none, some, List, [], ◌∷◌, if◌then◌else◌, leb,
  take, Result, ok, err,
}
use legacy_match_platform.Common.JsMap
use legacy_match_platform.Common.JsMap.{JsMap}
use legacy_match_platform.Contracts.{
  QueueState, ReadyCheck, MapVetoState, MatchAssignment, idle_queue,
}
use legacy_match_platform.RedisQueue.{Store, Ticket, ScriptError, decline, expiry}
use legacy_match_platform.RedisQueue.Leave.{anything, attempt, session, leave_script}
use legacy_match_platform.RedisQueue.Accept.{
  accept_script, missing, expired, waiting, vetoing, in_match,
}
use legacy_match_platform.RedisQueue.Veto.{
  manual, system, Banned, missing as no_veto, not_active, still_active, forbidden, invalid_map,
  updated, finalized, ban_script,
}
use legacy_match_platform.RedisQueue.Cancel.{cancel_script, cancelled}

-- What a player is told instead of an answer.
pub data CallError : Type 0 where
  check_not_active check_expired match_committed : CallError
  no_room veto_complete not_captain map_gone malformed_answer : CallError
  script_failed : ScriptError → CallError

pub data AcceptAnswer : Type 0 where
  check : ReadyCheck → AcceptAnswer
  veto : MapVetoState → AcceptAnswer
  server : Option MatchAssignment → AcceptAnswer

abbrev is_removed : Result ScriptError (Option Ticket) → Bool
is_removed (err e) = false
is_removed (ok none) = false
is_removed (ok (some t)) = true

-- `cancelDeathmatchTicket`; a reply that is an error rejects the promise.
unfoldable pub cancel_deathmatch_ticket : Ticket → Store → Store × Result ScriptError Bool
unfolding leave_script
cancel_deathmatch_ticket t s =
    let r = leave_script t.leader_player_id (attempt t.id t.fencing_token) s in
    (r.0, (elim r.1 [ err e ↦ err e | ok removed ↦ ok (is_removed (ok removed)) ]))

unfoldable pub release_search : String → String → Store → Store × Result ScriptError Bool
unfolding leave_script
release_search player ticket_id s =
    let r = leave_script player (session ticket_id) s in
    (r.0, (elim r.1 [ err e ↦ err e | ok removed ↦ ok (is_removed (ok removed)) ]))

abbrev pub is_expired : Option ReadyCheck → ℕ → Bool
is_expired none now = false
is_expired (some c) now = leb c.expires_at now

abbrev pub match_of : Option ReadyCheck → String
match_of none = ""
match_of (some c) = c.match_id

-- `DEL` of a player's pointer, whatever it has become.
unfoldable pub drop_pointer : String → Store → Store
drop_pointer player s = record s { pointers = JsMap.delete player s.pointers }

-- Each command that a method awaits is a step of its own: `meanwhile n` is what other clients do to
-- the store after the n-th.
module _ (is_lobby : String → Bool) (meanwhile : ℕ → Store → Store) where
  -- `getQueueRuntime` up to the copies it answers with: the player's ticket, or none when the player
  -- is idle. It reads the pointer, then the ticket; a pointer to no ticket is deleted, and a ready
  -- check that has run out is cancelled.
  unfoldable pub get_queue_runtime : String → (now later : ℕ) → Store → Store × Option Ticket
  unfolding drop_pointer cancel_script
  get_queue_runtime player now later s = elim (JsMap.get player s.pointers) [
    | none ↦ (s, none)
    | some id ↦
        let s1 = meanwhile 0 s in
        elim (JsMap.get id s1.tickets) [
          | none ↦ (drop_pointer player (meanwhile 1 s1), none)
          | some t ↦
              if is_expired t.ready_check now
              then (
                (cancel_script is_lobby (match_of t.ready_check) player later expiry
                    (meanwhile 1 s1)).0,
                none,
              )
              else (s1, some t)
        ]
  ]

  -- `leave` for the runtime that was read.
  unfoldable pub leave_with :
      String → ℕ → Option Ticket → Store → Store × Result CallError QueueState
  unfolding leave_script cancel_script
  leave_with player later runtime s =
      let search : Store × Result CallError QueueState =
        let r = leave_script player anything s in
        (r.0, (elim r.1 [ err e ↦ err (script_failed e) | ok _ ↦ ok idle_queue ])) in
      elim runtime [
        | none ↦ search
        | some t ↦ elim t.ready_check [
          | some c ↦ ((cancel_script is_lobby c.match_id player later decline s).0, ok idle_queue)
          | none ↦ elim t.map_veto [ some v ↦ (s, err match_committed) | none ↦ search ]
        ]
      ]

  unfoldable pub leave : String → (now later : ℕ) → Store → Store × Result CallError QueueState
  unfolding get_queue_runtime leave_with
  leave player now later s =
      let r = get_queue_runtime player now later s in leave_with player later r.1 (meanwhile 2 r.0)

  unfoldable pub accept :
      String → String → (now later : ℕ) → Store → Store × Result CallError AcceptAnswer
  unfolding accept_script cancel_script
  accept player match_id now later s =
      let r = accept_script player match_id now (now + 30000) s in
      elim r.1 [
        | missing ↦ (r.0, err check_not_active)
        | expired ↦ (
          (cancel_script is_lobby match_id player later expiry (meanwhile 0 r.0)).0,
          err check_expired,
        )
        | waiting c ↦ (r.0, ok (check c))
        | vetoing v ↦ (r.0, ok (veto v))
        | in_match a ↦ (r.0, ok (server a))
      ]

module _ (is_lobby : String → Bool) where
  -- `sweepExpiredReadyChecks` over the identifiers that Redis lists, each with the clock's reading
  -- when its turn comes.
  unfoldable pub sweep_expired_ready_checks : List (String × ℕ) → Store → Store × ℕ
  unfolding cancel_script
  sweep_expired_ready_checks [] s = (s, 0)
  sweep_expired_ready_checks ((id, now) ∷ ids) s =
      let r = cancel_script is_lobby id "system" now expiry s in
      let rest = sweep_expired_ready_checks ids r.0 in
      (rest.0, (elim r.1 [ cancelled ↦ suc rest.1 | _ ↦ rest.1 ]))

-- What a ban is answered with; the answer that a turn still runs, which a manual ban does not get,
-- would not parse.
abbrev ban_answer : Banned → Result CallError MapVetoState
ban_answer no_veto = err no_room
ban_answer not_active = err veto_complete
ban_answer forbidden = err not_captain
ban_answer invalid_map = err map_gone
ban_answer still_active = err malformed_answer
ban_answer (updated v) = ok v
ban_answer (finalized v) = ok v

unfoldable pub ban_map :
    String → String → String → ℕ → Store → Store × Result CallError MapVetoState
unfolding ban_script
ban_map player match_id m now s =
    let r = ban_script match_id player m manual now (now + 30000) s in (r.0, ban_answer r.1)

abbrev took_turn : Banned → Bool
took_turn (updated v) = true
took_turn (finalized v) = true
took_turn _ = false

abbrev pub is_gone : Banned → Bool
is_gone no_veto = true
is_gone not_active = true
is_gone _ = false

-- `sweepExpiredMapVetos`, the loop over the identifiers that Redis lists.
unfoldable pub sweep_expired_map_vetos : List String → ℕ → Store → Store × ℕ
unfolding ban_script
sweep_expired_map_vetos [] now s = (s, 0)
sweep_expired_map_vetos (id ∷ ids) now s =
    let r = ban_script id "system" "" system now (now + 30000) s in
    let kept =
      if is_gone r.1
      then record (r.0) { veto_deadlines = JsMap.delete id (r.0).veto_deadlines }
      else r.0 in
    let rest = sweep_expired_map_vetos ids now kept in
    (rest.0, if took_turn r.1 then suc rest.1 else rest.1)

-- `sweepExpiredMapVetos`: the deadlines that have passed, as `zRangeByScore` lists them, as many as the
-- limit.
unfoldable pub sweep_map_vetoes : (JsMap ℕ → ℕ → List String) → (limit now : ℕ) → Store → Store × ℕ
unfolding sweep_expired_map_vetos
sweep_map_vetoes z_range_by_score limit now s =
    sweep_expired_map_vetos (take limit (z_range_by_score s.veto_deadlines now)) now s
