-- ===== src/RedisQueue/Join.antt =====
-- Entering the queue: `JOIN_SCRIPT`, and the checks that `joinVerifiedParty` and `joinWithParty`
-- make before it.
use legacy_match_platform.Common.{
  ℕ, suc, ◌-◌, String, Bool, not, ◌&&◌, ◌||◌, Option, none, some, List, [], ◌∷◌, map, if◌then◌else◌,
  ◌==◌, String_eq, ltb, leb, length, includes, distinct, every, any, Result, ok, err,
}
use legacy_match_platform.Common.JsMap
use legacy_match_platform.Common.JsMap.{JsMap}
use legacy_match_platform.Contracts.{
  competitive, deathmatch, GameMode_eq, searching, mode_or, JoinQueueRequest, queue_updated,
  map_pool, deathmatch_map, known_regions,
}
use legacy_match_platform.RedisQueue.{
  Store, Ticket, QueuePartyMember, ScriptError, party_leader_required, party_not_ready,
  queue_cooldown, member_already_queued, Reply, ◌>>=◌, publish,
}

-- `PTTL` of a player's cooldown: the milliseconds left, 0 when there is none.
unfoldable pub cooldown_left : ℕ → String → Store → ℕ
cooldown_left now player s = elim (JsMap.get player s.cooldowns) [
  | none ↦ 0
  | some lapses_at ↦ lapses_at - now
]

-- The ticket that a player's pointer leads to.
unfoldable pub held_ticket : Store → String → Option Ticket
held_ticket s player = elim (JsMap.get player s.pointers) [
  | none ↦ none
  | some id ↦ JsMap.get id s.tickets
]

unfoldable pub clear_pointer : String → Store → Store
clear_pointer player s = elim (JsMap.get player s.pointers) [
  | none ↦ s
  | some _ ↦ record s { pointers = JsMap.delete player s.pointers }
]

-- The loop over the members: nobody on a cooldown, nobody with a ticket; stale pointers go.
unfoldable pub check_members : ℕ → List String → Store → Reply (Unit {0})
unfolding cooldown_left held_ticket clear_pointer
check_members now [] s = (s, ok tt)
check_members now (m ∷ ms) s =
    let rest = check_members now ms (clear_pointer m s) in
    let left = cooldown_left now m s in
    if ltb 0 left
    then (s, err (queue_cooldown m left))
    else (elim (held_ticket s m) [ some _ ↦ (s, err (member_already_queued m)) | none ↦ rest ])

pub record Group : Type 0 where
  pub party_id : Option String
  pub leader : String
  pub members : List String

pub record VerifiedParty : Type 0 where
  pub party_id : String
  pub leader_player_id : String
  pub member_player_ids : List String

unfoldable pub first_unready : List QueuePartyMember → Option String
first_unready [] = none
first_unready (m ∷ ms) = if m.ready then first_unready ms else some m.player_id

abbrev alone : String → Group
alone requester = record { party_id = none; leader = requester; members = requester ∷ [] }

-- On whose behalf the requester queues: a verified lobby, the stored party, or nobody else.
unfoldable pub group_of : String → Option VerifiedParty → Store → Reply Group
unfolding first_unready
group_of requester (some p) s = (
  s,
  ok (record {
    party_id = some p.party_id;
    leader = p.leader_player_id;
    members = p.member_player_ids;
  }),
)
group_of requester none s = elim (JsMap.get requester s.player_party) [
  | none ↦ (s, ok (alone requester))
  | some party_id ↦ elim (JsMap.get party_id s.parties) [
    | none ↦
        (record s { player_party = JsMap.delete requester s.player_party }, ok (alone requester))
    | some party ↦
        if not (party.leader_player_id == requester)
        then (s, err party_leader_required)
        else (elim (first_unready party.members) [
          | some m ↦ (s, err (party_not_ready m))
          | none ↦ (
            s,
            ok (record {
              party_id = some party_id;
              leader = party.leader_player_id;
              members = map (λ m. m.player_id) party.members;
            }),
          )
        ])
  ]
]

unfoldable pub point_to : String → List String → JsMap String → JsMap String
point_to id [] ps = ps
point_to id (m ∷ ms) ps = point_to id ms (JsMap.set m id ps)

-- The writes that persist a new ticket for a group.
unfoldable pub persist : Ticket → ℕ → Group → Store → Store × Ticket
unfolding point_to
persist ticket joined_at g s =
    let fence' = suc s.fence in
    let filed : Ticket = record ticket {
      fencing_token = fence';
      party_id = g.party_id;
      leader_player_id = g.leader;
      member_player_ids = g.members;
    } in
    (
      publish g.members (queue_updated ticket.queue ∷ []) (record s {
        fence = fence';
        tickets = JsMap.set ticket.id filed s.tickets;
        searching = JsMap.set ticket.id joined_at s.searching;
        pointers = point_to ticket.id g.members s.pointers;
        party_tickets = (elim g.party_id [
          | none ↦ s.party_tickets
          | some party ↦ JsMap.set party ticket.id s.party_tickets
        ]);
      }),
      filed,
    )

pub data Joined : Type 0 where
  existing created : Ticket → Joined

-- Nobody of the group is held up: the ticket is persisted.
unfoldable pub finish : Ticket → ℕ → Group → Store → Reply Joined
unfolding persist
finish ticket joined_at g s =
    let (s', filed) = persist ticket joined_at g s in (s', ok (created filed))

-- The script for a group. `now` is when it runs and `joined_at` when the request came, which is the
-- score of the entry.
unfoldable pub admit : Ticket → (now joined_at : ℕ) → Group → Store → Reply Joined
unfolding check_members finish
admit ticket now joined_at g s =
    check_members now g.members s >>= λ _ s'. finish ticket joined_at g s'

-- The script after the look-up of the requester's own ticket.
unfoldable pub enter :
    Ticket → Option VerifiedParty → (now joined_at : ℕ) → String → Store → Reply Joined
unfolding group_of admit
enter ticket verified now joined_at requester s =
    group_of requester verified s >>= admit ticket now joined_at

-- `JOIN_SCRIPT`, with the requester's new ticket.
unfoldable pub join_script :
    Ticket → Option VerifiedParty → (now joined_at : ℕ) → String → Store → Reply Joined
unfolding enter held_ticket clear_pointer
join_script ticket verified now joined_at requester s = elim (held_ticket s requester) [
  | some t ↦ (s, ok (existing t))
  | none ↦ enter ticket verified now joined_at requester (clear_pointer requester s)
]

-- What a request for the queue is refused for before the script runs.
pub data Refusal : Type 0 where
  no_selection unknown_region unknown_map invalid_party : Refusal

-- `validateSelections`.
unfoldable pub validate_selections : JoinQueueRequest → Option Refusal
validate_selections r =
    let is_competitive = mode_or r.mode == competitive in
    if leb (length r.regions) 0 || (is_competitive && leb (length r.maps) 0)
    then some no_selection
    else if any (λ x. not (includes known_regions x)) r.regions
    then some unknown_region
    else if is_competitive && any (λ x. not (includes map_pool x)) r.maps
    then some unknown_map
    else none

-- The ticket that `joinWithParty` hands to the script, under a fresh identifier.
unfoldable pub new_ticket : String → ℕ → JoinQueueRequest → Ticket
new_ticket id joined_at r = record {
  id = id;
  fencing_token = 0;
  party_id = none;
  leader_player_id = r.player_id;
  member_player_ids = r.player_id ∷ [];
  queue = record {
    ticket_id = none;
    mode = some (mode_or r.mode);
    phase = searching;
    joined_at = some joined_at;
    regions = r.regions;
    maps = if mode_or r.mode == deathmatch then deathmatch_map ∷ [] else r.maps;
    players_found = 0;
    estimated_wait_seconds = 0;
    rating_window = 50;
  };
  ready_check = none;
  map_veto = none;
  assignment = none;
}

-- The conditions of `joinVerifiedParty`. The pattern of the lobby identifier, a regular expression,
-- is the argument `is_lobby`.
unfoldable pub verified_party_ok : (String → Bool) → JoinQueueRequest → VerifiedParty → Bool
verified_party_ok is_lobby r p =
    is_lobby p.party_id
    && p.leader_player_id == r.player_id
    && leb 2 (length p.member_player_ids)
    && leb (length p.member_player_ids) 5
    && distinct p.member_player_ids
    && includes p.member_player_ids r.player_id
    && every (λ m. not (m == "")) p.member_player_ids

pub data JoinError : Type 0 where
  refused : Refusal → JoinError
  failed : ScriptError → JoinError

-- `join` and `joinVerifiedParty`, up to the population that they read back for the answer.
unfoldable pub join_with_party :
    (String → Bool)
    → JoinQueueRequest
    → Option VerifiedParty
    → String
    → (now joined_at : ℕ) → Store
    → Store × Result JoinError Joined
unfolding validate_selections new_ticket verified_party_ok
join_with_party is_lobby r verified id now joined_at s =
    let refuse : Refusal → Store × Result JoinError Joined = λ e. (s, err (refused e)) in
    let run : Store × Result JoinError Joined =
      let (s', reply) =
        join_script (new_ticket id joined_at r) verified now joined_at r.player_id s in
      (s', (elim reply [ err e ↦ err (failed e) | ok j ↦ ok j ])) in
    let checked : Store × Result JoinError Joined = elim (validate_selections r) [
      | some e ↦ refuse e
      | none ↦ run
    ] in
    elim verified [
      | none ↦ checked
      | some p ↦ if verified_party_ok is_lobby r p then checked else refuse invalid_party
    ]
