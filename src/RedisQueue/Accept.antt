-- ===== src/RedisQueue/Accept.antt =====
-- Accepting a ready check: `ACCEPT_SCRIPT`.
use legacy_match_platform.Common.{
  ℕ, ◌+◌, ◌*◌, String, Bool, true, false, not, Option, none, some, List, [], ◌∷◌, ◌++◌,
  if◌then◌else◌, ◌==◌, String_eq, ℕ_eq, leb, length, includes,
}
use legacy_match_platform.Common.JsMap
use legacy_match_platform.Common.JsMap.{JsMap}
use legacy_match_platform.Contracts.{
  GameMode_eq, map_veto, assigned, QueuePhase_eq, ReadyCheck, MapVetoState, MatchAssignment, alpha,
  active, allocating, queue_updated, match_accepted, veto_updated, match_assigned, ServerEvent,
}
use legacy_match_platform.RedisQueue.{
  Store, Ticket, ReadyRecord, VetoSeed, VetoRecord, publish, for_each,
}

-- A script's loop over the tickets that still exist.
unfoldable pub update_ticket : (Ticket → Ticket) → String → Store → Store
update_ticket f id s = elim (JsMap.get id s.tickets) [
  | none ↦ s
  | some t ↦ record s { tickets = JsMap.set id (f t) s.tickets }
]

-- Tells each member the state of the ticket that the member now holds, and then `events`.
unfoldable pub tell_member : List ServerEvent → String → Store → Store
tell_member events m s =
    let last = publish (m ∷ []) events s in
    elim (JsMap.get m s.pointers) [
      | none ↦ last
      | some id ↦ elim (JsMap.get id s.tickets) [
        | none ↦ last
        | some t ↦ publish (m ∷ []) (queue_updated t.queue ∷ events) s
      ]
    ]

abbrev pub sole : List String → Option String
sole [] = none
sole (m ∷ []) = some m
sole (m ∷ n ∷ ms) = none

abbrev is_sole : Option String → Bool
is_sole none = false
is_sole (some m) = true

-- The map veto that opens once everybody has accepted; a pool of one map leaves nothing to ban.
unfoldable pub open_veto : ReadyRecord → VetoSeed → (now veto_expires_at : ℕ) → VetoRecord
open_veto r seed now veto_expires_at =
    let selected = sole seed.map_pool in
    record {
      state = record {
        match_id = r.check.match_id;
        region = r.check.region;
        captains = seed.captains;
        acting_team = alpha;
        remaining_maps = seed.map_pool;
        bans = [];
        status = if is_sole selected then allocating else active;
        selected_map = selected;
        expires_at = if is_sole selected then none else some veto_expires_at;
      };
      expires_at_ms = if is_sole selected then none else some (now + seed.turn_seconds * 1000);
      turn_seconds = seed.turn_seconds;
      ticket_ids = r.ticket_ids;
      member_player_ids = r.member_player_ids;
    }

unfoldable pub enter_veto : ReadyRecord → MapVetoState → Ticket → Ticket
enter_veto r v t = record t {
  queue = record (t.queue) { phase = map_veto; players_found = r.check.total_players };
  ready_check = none;
  map_veto = some v;
  assignment = none;
}

unfoldable pub enter_match : ReadyRecord → Ticket → Ticket
enter_match r t = record t {
  queue = record (t.queue) { phase = assigned; players_found = r.check.total_players };
  ready_check = none;
  assignment = r.assignment;
}

pub data Accepted : Type 0 where
  missing expired : Accepted
  waiting : ReadyCheck → Accepted
  vetoing : MapVetoState → Accepted
  in_match : Option MatchAssignment → Accepted

unfoldable pub close_ready : String → Store → Store
close_ready id s = record s {
  ready = JsMap.delete id s.ready;
  ready_deadlines = JsMap.delete id s.ready_deadlines;
}

abbrev pub schedule : String → VetoRecord → ℕ → Store → Store
schedule id v now s = elim v.expires_at_ms [
  | none ↦ record s { veto_finalizations = JsMap.set id now s.veto_finalizations }
  | some at ↦ record s { veto_deadlines = JsMap.set id at s.veto_deadlines }
]

-- Everybody has accepted a check that leads to a map veto.
unfoldable pub start_veto :
    String → ReadyRecord → VetoSeed → (now veto_expires_at : ℕ) → Store → Store × Accepted
unfolding open_veto enter_veto update_ticket tell_member close_ready for_each
start_veto id r seed now veto_expires_at s =
    let v = open_veto r seed now veto_expires_at in
    let s1 = schedule id v now (record s { vetoes = JsMap.set id v s.vetoes }) in
    let s2 = for_each (update_ticket (enter_veto r v.state)) r.ticket_ids s1 in
    let s3 = for_each (tell_member (veto_updated v.state ∷ [])) r.member_player_ids s2 in
    (close_ready id s3, vetoing v.state)

-- A record with neither an assignment nor a veto, which `createReadyCheck` refuses, has no
-- assignment to tell of.
abbrev pub assignment_events : Option MatchAssignment → List ServerEvent
assignment_events none = []
assignment_events (some a) = match_assigned a ∷ []

-- Everybody has accepted a check that leads straight to a server.
unfoldable pub start_match : String → ReadyRecord → Store → Store × Accepted
unfolding enter_match update_ticket tell_member close_ready for_each
start_match id r s =
    let s1 = for_each (update_ticket (enter_match r)) r.ticket_ids s in
    let s2 = for_each (tell_member (assignment_events r.assignment)) r.member_player_ids s1 in
    (close_ready id s2, in_match r.assignment)

-- Somebody has still to accept.
unfoldable pub keep_waiting : String → ReadyRecord → Store → Store × Accepted
unfolding update_ticket for_each
keep_waiting id r s =
    let s1 =
      for_each (update_ticket (λ t. record t { ready_check = some r.check })) r.ticket_ids s in
    (record s1 { ready = JsMap.set id r s1.ready }, waiting r.check)

-- The record after the player's acceptance, which counts once.
unfoldable pub record_acceptance : String → ReadyRecord → ReadyRecord
record_acceptance player r =
    let accepted = r.check.accepted_player_ids in
    if includes accepted player
    then r
    else record r { check = record (r.check) { accepted_player_ids = accepted ++ player ∷ [] } }

unfoldable pub accept_script :
    String → String → (now veto_expires_at : ℕ) → Store → Store × Accepted
unfolding record_acceptance start_veto start_match keep_waiting
accept_script player match_id now veto_expires_at s = elim (JsMap.get match_id s.ready) [
  | none ↦ (s, missing)
  | some r ↦
      if leb r.expires_at_ms now
      then (s, expired)
      else if not (includes r.member_player_ids player)
      then (s, missing)
      else let r' = record_acceptance player r in
        let s' = publish r'.member_player_ids (match_accepted r'.check ∷ []) s in
        let complete = length r'.check.accepted_player_ids == r'.check.total_players in
        if not complete then keep_waiting match_id r' s' else (elim r'.veto [
          | none ↦ start_match match_id r' s'
          | some seed ↦ start_veto match_id r' seed now veto_expires_at s'
        ])
]
