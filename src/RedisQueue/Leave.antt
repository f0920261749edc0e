-- ===== src/RedisQueue/Leave.antt =====
-- Leaving the queue: `LEAVE_SCRIPT`, as `leave`, `cancelDeathmatchTicket` and `releaseSearch` run it.
use legacy_match_platform.Common.{
  ℕ, String, Bool, true, false, not, ◌&&◌, Option, none, some, [], ◌∷◌, if◌then◌else◌, ◌==◌,
  String_eq, ℕ_eq, ok, err,
}
use legacy_match_platform.Common.JsMap
use legacy_match_platform.Common.JsMap.{JsMap}
use legacy_match_platform.Contracts.{
  GameMode, deathmatch, searching, QueuePhase_eq, queue_cancelled, idle_queue, GameMode_eq,
}
use legacy_match_platform.RedisQueue.{
  Store, Ticket, party_leader_required, Reply, publish, release_pointers, release_party,
}

-- Which ticket the caller means to remove: any that the player holds, the searching Deathmatch entry
-- of one attempt with its fencing token, or the searching entry of a session that has ended.
pub data LeaveGuard : Type 0 where
  anything : LeaveGuard
  attempt : String → ℕ → LeaveGuard
  session : String → LeaveGuard

abbrev pub is_deathmatch : Option GameMode → Bool
is_deathmatch none = false
is_deathmatch (some m) = m == deathmatch

-- The guard as far as it looks at the ticket's identifier.
unfoldable pub names : LeaveGuard → String → Bool
names anything id = true
names (attempt expected token) id = id == expected
names (session expected) id = id == expected

-- The guard as far as it looks at the ticket.
unfoldable pub admits : LeaveGuard → Ticket → Bool
admits anything t = true
admits (attempt expected token) t =
    t.queue.phase == searching && t.fencing_token == token && is_deathmatch t.queue.mode
admits (session expected) t = t.queue.phase == searching

unfoldable pub session_ended : LeaveGuard → Bool
session_ended (session expected) = true
session_ended _ = false

abbrev pub is_party : Option String → Bool
is_party none = false
is_party (some p) = true

-- The ticket under `id` is deleted with its place in the queue and every pointer to it.
unfoldable pub remove_ticket : String → Ticket → Store → Store
remove_ticket id t s = publish t.member_player_ids (queue_cancelled idle_queue ∷ []) (record s {
  tickets = JsMap.delete id s.tickets;
  searching = JsMap.delete id s.searching;
  pointers = release_pointers id t.member_player_ids s.pointers;
  party_tickets = release_party id t.party_id s.party_tickets;
})

unfoldable pub leave_script : String → LeaveGuard → Store → Reply (Option Ticket)
unfolding names admits session_ended remove_ticket
leave_script requester guard s = elim (JsMap.get requester s.pointers) [
  | none ↦ (s, ok none)
  | some id ↦ if not (names guard id) then (s, ok none) else (elim (JsMap.get id s.tickets) [
    | none ↦ (record s { pointers = JsMap.delete requester s.pointers }, ok none)
    | some t ↦
        if not (admits guard t)
        then (s, ok none)
        else if is_party t.party_id
            && not (t.leader_player_id == requester)
            && not (session_ended guard)
        then (s, err party_leader_required)
        else (remove_ticket id t s, ok (some t))
  ])
]
