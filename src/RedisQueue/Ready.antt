-- ===== src/RedisQueue/Ready.antt =====
-- Opening a ready check: `CREATE_READY_CHECK_SCRIPT`, with the checks of `createReadyCheck`.
use legacy_match_platform.Common.{
  ℕ, ◌+◌, ◌*◌, String, Bool, true, false, not, ◌&&◌, Option, none, some, List, [], ◌∷◌, ◌++◌, map,
  if◌then◌else◌, ◌==◌, String_eq, ℕ_eq, length, includes, any, keep, Result, ok, err,
}
use legacy_match_platform.Common.JsMap
use legacy_match_platform.Common.JsMap.{JsMap}
use legacy_match_platform.Contracts.{
  GameMode, GameMode_eq, competitive, deathmatch, mode_or, searching, ready_check, QueuePhase_eq,
  ReadyCheck, MatchAssignment, queue_updated, match_found,
}
use legacy_match_platform.RedisQueue.{
  Store, Ticket, ReadyRecord, VetoSeed, ScriptError, ticket_stale, duplicate_player,
  ready_check_size, Reply, publish, for_each,
}

-- A ticket as the matchmaker saw it.
pub record Claim : Type 0 where
  pub id : String
  pub fencing_token : ℕ

-- The inner loop: nobody stands on two tickets of the match.
unfoldable pub count_members : List String → List String → ℕ → Result ScriptError (List String × ℕ)
count_members [] seen total = ok (seen, total)
count_members (m ∷ ms) seen total =
    let rest = count_members ms (m ∷ seen) (total + 1) in
    if includes seen m then err (duplicate_player m) else rest

abbrev pub is_claimed : Claim → Ticket → Bool
is_claimed c t = t.fencing_token == c.fencing_token && t.queue.phase == searching

-- The first loop: every claim still holds; the number of players.
unfoldable pub check_claims : Store → List Claim → List String → ℕ → Result ScriptError ℕ
unfolding count_members
check_claims s [] seen total = ok total
check_claims s (c ∷ cs) seen total = elim (JsMap.get c.id s.tickets) [
  | none ↦ err (ticket_stale c.id)
  | some t ↦
      if not (is_claimed c t)
      then err (ticket_stale c.id)
      else (elim (count_members t.member_player_ids seen total) [
        | err e ↦ err e
        | ok r ↦ check_claims s cs r.0 r.1
      ])
]

unfoldable pub found : ReadyCheck → Ticket → Ticket
found check t = record t {
  queue = record (t.queue) { phase = ready_check; players_found = check.total_players };
  ready_check = some check;
}

-- The second loop's body: the ticket enters the ready check and leaves the queue.
unfoldable pub open_ticket : ReadyCheck → Claim → Store → Store
unfolding found
open_ticket check c s = elim (JsMap.get c.id s.tickets) [
  | none ↦ s
  | some t ↦
      let t' = found check t in
      publish t.member_player_ids (queue_updated t'.queue ∷ match_found check ∷ []) (record s {
        tickets = JsMap.set c.id t' s.tickets;
        searching = JsMap.delete c.id s.searching;
      })
]

unfoldable pub create_ready_script : List Claim → ReadyRecord → Store → Reply ReadyCheck
unfolding check_claims open_ticket for_each
create_ready_script claims r s = elim (check_claims s claims [] 0) [
  | err e ↦ (s, err e)
  | ok total ↦
      if not (total == r.check.total_players)
      then (s, err (ready_check_size total r.check.total_players))
      else (
        for_each (open_ticket r.check) claims (record s {
          ready = JsMap.set r.check.match_id r s.ready;
          ready_deadlines = JsMap.set r.check.match_id r.expires_at_ms s.ready_deadlines;
        }),
        ok r.check,
      )
]

-- What the matchmaker asks for, and what `createReadyCheck` makes of it.
pub record Plan : Type 0 where
  pub match_id : String
  pub mode : Option GameMode
  pub tickets : List Ticket
  pub map_name : String
  pub map_pool : Option (List String)
  pub region : String
  pub duration_seconds : ℕ
  pub assignment : Option MatchAssignment
  pub veto : Option VetoSeed

pub data PlanError : Type 0 where
  not_one_outcome map_outside_pool mixed_modes deathmatch_veto wrong_size : PlanError

abbrev pub exactly_one : {A B : Type 0} → Option A → Option B → Bool
exactly_one none none = false
exactly_one (some a) none = true
exactly_one none (some b) = true
exactly_one (some a) (some b) = false

-- `[...new Set(xs)]`.
unfoldable pub unique : List String → List String
unique [] = []
unique (x ∷ xs) = x ∷ keep (λ y. not (x == y)) (unique xs)

unfoldable pub player_count : List Ticket → ℕ
player_count [] = 0
player_count (t ∷ ts) = length t.member_player_ids + player_count ts

unfoldable pub all_members : List Ticket → List String
all_members [] = []
all_members (t ∷ ts) = t.member_player_ids ++ all_members ts

abbrev pub match_size : GameMode → ℕ
match_size competitive = 10
match_size deathmatch = 14

abbrev pub is_some : {A : Type 0} → Option A → Bool
is_some none = false
is_some (some a) = true

abbrev pub claims_of : List Ticket → List Claim
claims_of = map (λ t. record { id = t.id; fencing_token = t.fencing_token })

unfoldable pub prepare_ready : Plan → ℕ → Result PlanError (List Claim × ReadyRecord)
unfolding unique player_count all_members
prepare_ready p now =
    let pool = unique (elim p.map_pool [ none ↦ p.map_name ∷ [] | some ms ↦ ms ]) in
    let mode = mode_or p.mode in
    let expires = now + p.duration_seconds * 1000 in
    let total = player_count p.tickets in
    if not (exactly_one p.assignment p.veto)
    then err not_one_outcome
    else if not (includes pool p.map_name)
    then err map_outside_pool
    else if any (λ t. not (mode_or t.queue.mode == mode)) p.tickets
    then err mixed_modes
    else if mode == deathmatch && is_some p.veto
    then err deathmatch_veto
    else if not (total == match_size mode)
    then err wrong_size
    else ok (
      claims_of p.tickets,
      record {
        check = record {
          mode = some mode;
          match_id = p.match_id;
          expires_at = expires;
          accepted_player_ids = [];
          total_players = total;
          map_name = p.map_name;
          map_pool = pool;
          region = p.region;
        };
        expires_at_ms = expires;
        ticket_ids = map (λ t. t.id) p.tickets;
        member_player_ids = all_members p.tickets;
        assignment = p.assignment;
        veto = elim p.veto [ none ↦ none | some v ↦ some (record v { map_pool = pool }) ];
      },
    )
