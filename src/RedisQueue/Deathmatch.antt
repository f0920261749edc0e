-- ===== src/RedisQueue/Deathmatch.antt =====
-- Drop-in Deathmatch and recovery: `ASSIGN_DEATHMATCH_SCRIPT`, `COMPLETE_DEATHMATCH_SCRIPT` and
-- `REASSIGN_MATCH_SCRIPT`.
use legacy_match_platform.Common.{
  ℕ, suc, ◌+◌, String, Bool, false, not, ◌&&◌, Option, none, some, List, [], ◌∷◌, ◌++◌,
  if◌then◌else◌, ◌==◌, String_eq, ℕ_eq, length, includes, ok, err,
}
use legacy_match_platform.Common.JsMap
use legacy_match_platform.Common.JsMap.{JsMap}
use legacy_match_platform.Contracts.{
  MatchAssignment, assigned, searching, QueuePhase_eq, queue_updated, match_assigned,
}
use legacy_match_platform.RedisQueue.{Store, Ticket, ticket_stale, Reply, publish}
use legacy_match_platform.RedisQueue.Leave.{is_deathmatch, remove_ticket}

abbrev or_length : Option ℕ → List String → ℕ
or_length none ms = length ms
or_length (some n) ms = n

unfoldable pub drop_in : MatchAssignment → Ticket → Ticket
drop_in a t = record t {
  queue = record (t.queue) {
    phase = assigned;
    players_found = or_length a.human_players t.member_player_ids;
    estimated_wait_seconds = 0;
  };
  ready_check = none;
  map_veto = none;
  assignment = some a;
}

-- `SADD` of each member.
unfoldable pub add_players : List String → List String → List String
add_players [] ps = ps
add_players (m ∷ ms) ps = add_players ms (if includes ps m then ps else ps ++ m ∷ [])

abbrev pub players_of : String → Store → List String
players_of match_id s = elim (JsMap.get match_id s.deathmatch_players) [ none ↦ [] | some ps ↦ ps ]

unfoldable pub assign_script : String → ℕ → MatchAssignment → Store → Reply Ticket
unfolding drop_in add_players
assign_script id token a s = elim (JsMap.get id s.tickets) [
  | none ↦ (s, err (ticket_stale id))
  | some t ↦
      if not (t.fencing_token == token && t.queue.phase == searching && is_deathmatch t.queue.mode)
      then (s, err (ticket_stale id))
      else let t' = drop_in a t in
        (
          publish t.member_player_ids (queue_updated t'.queue ∷ match_assigned a ∷ []) (record s {
            tickets = JsMap.set id t' s.tickets;
            searching = JsMap.delete id s.searching;
            deathmatch_players =
                JsMap.set a.match_id (add_players t.member_player_ids (players_of a.match_id s))
                  s.deathmatch_players;
          }),
          ok t',
        )
]

-- The ticket plays the match.
unfoldable pub plays : String → Ticket → Bool
plays match_id t = elim t.assignment [
  | none ↦ false
  | some a ↦ t.queue.phase == assigned && a.match_id == match_id
]

-- The ticket that a player's pointer names, unless the loop has been there.
unfoldable pub next_ticket : String → List String → Store → Option (String × Ticket)
next_ticket player seen s = elim (JsMap.get player s.pointers) [
  | none ↦ none
  | some id ↦
      if includes seen id
      then none
      else (elim (JsMap.get id s.tickets) [ none ↦ none | some t ↦ some (id, t) ])
]

abbrev pub mark : String → List String → Store → List String
mark player seen s = elim (JsMap.get player s.pointers) [ none ↦ seen | some id ↦ id ∷ seen ]

unfoldable pub clear_player : String → String → List String → Store × ℕ → Store × ℕ
unfolding next_ticket plays remove_ticket
clear_player match_id player seen (s, n) = elim (next_ticket player seen s) [
  | none ↦ (s, n)
  | some (id, t) ↦ if plays match_id t then (remove_ticket id t s, suc n) else (s, n)
]

unfoldable pub clear_players : String → List String → List String → Store × ℕ → Store × ℕ
unfolding clear_player
clear_players match_id [] seen r = r
clear_players match_id (p ∷ ps) seen r =
    clear_players match_id ps (mark p seen r.0) (clear_player match_id p seen r)

unfoldable pub complete_script : String → Store → Store × ℕ
unfolding clear_players
complete_script match_id s =
    let (s1, n) = clear_players match_id (players_of match_id s) [] (s, 0) in
    (record s1 { deathmatch_players = JsMap.delete match_id s1.deathmatch_players }, n)

unfoldable pub move_to : MatchAssignment → Ticket → Ticket
move_to a t = record t { assignment = some a; ready_check = none }

-- What `REASSIGN_MATCH_SCRIPT` has counted.
pub record Moved : Type 0 where
  pub store : Store
  pub players : ℕ
  pub tickets : ℕ

unfoldable pub move_player : String → MatchAssignment → String → List String → Moved → Moved
unfolding next_ticket plays move_to
move_player old a player seen r =
    let s = r.store in
    elim (next_ticket player seen s) [
      | none ↦ r
      | some (id, t) ↦
          if plays old t
          then record {
            store =
                publish t.member_player_ids (queue_updated t.queue ∷ match_assigned a ∷ [])
                  (record s { tickets = JsMap.set id (move_to a t) s.tickets });
            players = r.players + length t.member_player_ids;
            tickets = suc r.tickets;
          }
          else r
    ]

unfoldable pub reassign_script :
    String → MatchAssignment → List String → List String → Moved → Moved
unfolding move_player
reassign_script old a [] seen r = r
reassign_script old a (p ∷ ps) seen r =
    reassign_script old a ps (mark p seen r.store) (move_player old a p seen r)
