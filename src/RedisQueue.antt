-- ===== src/RedisQueue.antt =====
-- The durable queue, apps/api/src/redis-queue-service.ts: the store that its Lua scripts read and
-- write. Each kind of key is a map of its own (`queue:ticket:*`, `player:*:ticket`, and so on); a
-- sorted set is the map from its members to their scores; a key with a time to live carries the
-- time at which it lapses. What a script publishes is appended to `published`.
pub mod Join
pub mod Leave
pub mod Ready
pub mod Accept
pub mod Veto
pub mod Cancel
pub mod Deathmatch
pub mod Calls
pub mod Owned
pub mod Behaviour
pub mod Bans
pub mod Turns
pub mod Deadlines
pub mod Sweeping
pub mod Sweeps
pub mod Plans
pub mod Penalties
pub mod Requests
pub mod Expiry
pub mod Once
mod Tests
use legacy_match_platform.Common.{
  ℕ, String, Bool, true, false, Option, none, some, List, [], ◌∷◌, ◌++◌, map, if◌then◌else◌, ◌==◌,
  String_eq, Result, ok, err,
}
use legacy_match_platform.Common.JsMap
use legacy_match_platform.Common.JsMap.{JsMap}
use legacy_match_platform.Contracts.{
  GameMode, QueueState, ReadyCheck, MapVetoState, MatchAssignment, Captains, ServerEvent,
}

pub record Ticket : Type 0 where
  pub id : String
  pub fencing_token : ℕ
  pub party_id : Option String
  pub leader_player_id : String
  pub member_player_ids : List String
  pub queue : QueueState
  pub ready_check : Option ReadyCheck
  pub map_veto : Option MapVetoState
  pub assignment : Option MatchAssignment

pub record VetoSeed : Type 0 where
  pub captains : Captains
  pub map_pool : List String
  pub turn_seconds : ℕ

-- A ready check with what only the store keeps of it.
pub record ReadyRecord : Type 0 where
  pub check : ReadyCheck
  pub expires_at_ms : ℕ
  pub ticket_ids : List String
  pub member_player_ids : List String
  pub assignment : Option MatchAssignment
  pub veto : Option VetoSeed

pub record VetoRecord : Type 0 where
  pub state : MapVetoState
  pub expires_at_ms : Option ℕ
  pub turn_seconds : ℕ
  pub ticket_ids : List String
  pub member_player_ids : List String

-- The party record that the durable party service stores; only what the queue reads.
pub record QueuePartyMember : Type 0 where
  pub player_id : String
  pub ready : Bool

pub record QueueParty : Type 0 where
  pub leader_player_id : String
  pub members : List QueuePartyMember

pub data CancelMode : Type 0 where
  decline expiry : CancelMode

pub record Failures : Type 0 where
  pub count : ℕ
  pub lapses_at : ℕ

pub record Store : Type 0 where
  pub tickets : JsMap Ticket
  pub pointers : JsMap String
  pub fence : ℕ
  pub searching : JsMap ℕ
  pub player_party : JsMap String
  pub parties : JsMap QueueParty
  pub party_tickets : JsMap String
  pub cooldowns : JsMap ℕ
  pub failures : JsMap Failures
  pub ready : JsMap ReadyRecord
  pub ready_deadlines : JsMap ℕ
  pub vetoes : JsMap VetoRecord
  pub veto_deadlines : JsMap ℕ
  pub veto_finalizations : JsMap ℕ
  pub deathmatch_players : JsMap (List String)
  pub cancellation_reasons : JsMap CancelMode
  pub cancellations : JsMap ℕ
  pub published : List (String × ServerEvent)

abbrev pub empty_store : Store
empty_store = record {
  tickets = [];
  pointers = [];
  fence = 0;
  searching = [];
  player_party = [];
  parties = [];
  party_tickets = [];
  cooldowns = [];
  failures = [];
  ready = [];
  ready_deadlines = [];
  vetoes = [];
  veto_deadlines = [];
  veto_finalizations = [];
  deathmatch_players = [];
  cancellation_reasons = [];
  cancellations = [];
  published = [];
}

-- What a script answers by `redis.error_reply`.
pub data ScriptError : Type 0 where
  party_leader_required : ScriptError
  party_not_ready : String → ScriptError
  queue_cooldown : String → ℕ → ScriptError
  member_already_queued : String → ScriptError
  ticket_stale : String → ScriptError
  duplicate_player : String → ScriptError
  ready_check_size : ℕ → ℕ → ScriptError

-- A script's effect and its reply; what it wrote before an error stays written.
abbrev pub Reply : Type 0 → Type 0
Reply A = Store × Result ScriptError A

-- What follows a step of a script, unless that step answered with an error.
infixl 5 ◌>>=◌
abbrev pub ◌>>=◌ : {A B : Type 0} → Reply A → (A → Store → Reply B) → Reply B
(s, err e) >>= k = (s, err e)
(s, ok a) >>= k = k a s

abbrev pub notices : List String → List ServerEvent → List (String × ServerEvent)
notices [] es = []
notices (m ∷ ms) es = map (λ e. (m, e)) es ++ notices ms es

-- `PUBLISH` of the same events to each member.
abbrev pub publish : List String → List ServerEvent → Store → Store
publish members es s = record s { published = s.published ++ notices members es }

-- A loop `for _, x in ipairs(xs) do ... end` over the store.
unfoldable pub for_each : {A : Type 0} → (A → Store → Store) → List A → Store → Store
for_each f [] s = s
for_each f (x ∷ xs) s = for_each f xs (f x s)

-- `if redis.call('GET', pointer) == ticketId then redis.call('DEL', pointer) end`, for each member.
unfoldable pub release_pointers : String → List String → JsMap String → JsMap String
release_pointers id [] ps = ps
release_pointers id (m ∷ ms) ps =
    release_pointers id ms (elim (JsMap.get m ps) [
      | none ↦ ps
      | some held ↦ if held == id then JsMap.delete m ps else ps
    ])

-- The party's pointer to its ticket, released in the same way.
unfoldable pub release_party : String → Option String → JsMap String → JsMap String
release_party id none ps = ps
release_party id (some party) ps = elim (JsMap.get party ps) [
  | none ↦ ps
  | some held ↦ if held == id then JsMap.delete party ps else ps
]
