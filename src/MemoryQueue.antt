-- ===== src/MemoryQueue.antt =====
-- The queue of a single process, apps/api/src/queue-service.ts: what each player's runtime holds,
-- the operations, and the two timers. A timer is the moment at which it is due; identifiers that
-- the code draws are arguments, and what it publishes is appended to `published`.
pub mod Phases
pub mod Matches
mod Tests
use legacy_match_platform.Common.{
  ℕ, zero, suc, ◌+◌, ◌*◌, String, Bool, true, false, not, ◌&&◌, ◌||◌, Option, none, some, List, [],
  ◌∷◌, ◌++◌, map, take, ◌-◌, if◌then◌else◌, ◌==◌, String_eq, ℕ_eq, leb, length, includes, any,
  Result, ok, err,
}
use legacy_match_platform.Common.JsMap
use legacy_match_platform.Common.JsMap.{JsMap}
use legacy_match_platform.Contracts.{
  GameMode, competitive, deathmatch, GameMode_eq, QueuePhase_eq, idle, searching, ready_check,
  assigned, QueueState, ReadyCheck, MapVetoState, MatchAssignment, ServerEvent, queue_updated,
  queue_cancelled, match_found, match_accepted, match_assigned, JoinQueueRequest, mode_or,
  idle_queue, map_pool, deathmatch_map, known_regions,
}

pub record PlayerRuntime : Type 0 where
  pub queue : QueueState
  pub ready_check : Option ReadyCheck
  pub map_veto : Option MapVetoState
  pub assignment : Option MatchAssignment
  pub match_timer : Option ℕ
  pub expiry_timer : Option ℕ

pub record QueueServiceOptions : Type 0 where
  pub auto_match_delay_ms : Option ℕ
  pub ready_check_seconds : ℕ

pub record QueueService : Type 0 where
  pub options : QueueServiceOptions
  pub runtimes : JsMap PlayerRuntime
  pub published : List (String × ServerEvent)

pub data QueueError : Type 0 where
  no_selection unknown_region unknown_map : QueueError
  not_active expired : QueueError

abbrev pub fresh_runtime : PlayerRuntime
fresh_runtime = record {
  queue = idle_queue;
  ready_check = none;
  map_veto = none;
  assignment = none;
  match_timer = none;
  expiry_timer = none;
}

-- `runtimeFor`: a player seen for the first time gets an idle runtime. Every operation that looks a
-- runtime up then writes it, so the look-up and the insertion are apart here.
unfoldable pub runtime_for : String → QueueService → PlayerRuntime
runtime_for player s = elim (JsMap.get player s.runtimes) [ none ↦ fresh_runtime | some r ↦ r ]

unfoldable pub save : String → PlayerRuntime → QueueService → QueueService
save player r s = record s { runtimes = JsMap.set player r s.runtimes }

unfoldable pub publish : String → ServerEvent → QueueService → QueueService
publish player e s = record s { published = s.published ++ (player, e) ∷ [] }

unfoldable pub clear_timers : PlayerRuntime → PlayerRuntime
clear_timers r = record r { match_timer = none; expiry_timer = none }

-- The runtime with everything of a match forgotten, in the queue state `q`.
unfoldable pub restart : QueueState → PlayerRuntime → PlayerRuntime
unfolding clear_timers
restart q r = record (clear_timers r) {
  queue = q;
  ready_check = none;
  map_veto = none;
  assignment = none;
}

abbrev pub counts : GameMode → PlayerRuntime → Bool
counts mode r = r.queue.phase == searching && mode_or r.queue.mode == mode

unfoldable pub count_searching : GameMode → List PlayerRuntime → ℕ
count_searching mode [] = 0
count_searching mode (r ∷ rs) =
    if counts mode r then suc (count_searching mode rs) else count_searching mode rs

-- `searchingPlayers`.
unfoldable pub searching_players : GameMode → QueueService → ℕ
unfolding count_searching
searching_players mode s = count_searching mode (JsMap.values s.runtimes)

unfoldable pub validate_selections : JoinQueueRequest → Option QueueError
validate_selections r =
    let is_competitive = mode_or r.mode == competitive in
    if leb (length r.regions) 0 || (is_competitive && leb (length r.maps) 0)
    then some no_selection
    else if any (λ x. not (includes known_regions x)) r.regions
    then some unknown_region
    else if is_competitive && any (λ x. not (includes map_pool x)) r.maps
    then some unknown_map
    else none

abbrev pub after : ℕ → Option ℕ → Option ℕ
after now none = none
after now (some delay) = some (now + delay)

-- The search that a request starts, when `found` others search in its mode.
unfoldable pub search_state : JoinQueueRequest → (ticket_id : String) → (now found : ℕ) → QueueState
search_state r ticket_id now found = record {
  ticket_id = some ticket_id;
  mode = some (mode_or r.mode);
  phase = searching;
  joined_at = some now;
  regions = r.regions;
  maps = if mode_or r.mode == deathmatch then deathmatch_map ∷ [] else r.maps;
  players_found = found + 1;
  estimated_wait_seconds = 0;
  rating_window = 50;
}

unfoldable pub join :
    JoinQueueRequest
    → (ticket_id : String) → ℕ
    → QueueService
    → QueueService × Result QueueError QueueState
unfolding validate_selections runtime_for restart search_state searching_players save publish
join r ticket_id now s = elim (validate_selections r) [
  | some e ↦ (s, err e)
  | none ↦
      let q = search_state r ticket_id now (searching_players (mode_or r.mode) s) in
      let runtime = record (restart q (runtime_for r.player_id s)) {
        match_timer = after now s.options.auto_match_delay_ms;
      } in
      (publish r.player_id (queue_updated q) (save r.player_id runtime s), ok q)
]

-- `leave`, and `expireReadyCheck`, which does the same.
unfoldable pub leave : String → QueueService → QueueService
unfolding runtime_for restart save publish
leave player s =
    publish player (queue_cancelled idle_queue)
      (save player (restart idle_queue (runtime_for player s)) s)

abbrev pub is_ticket : Option String → String → Bool
is_ticket none id = false
is_ticket (some held) id = held == id

unfoldable pub release_search : String → String → QueueService → QueueService × Bool
unfolding runtime_for leave save
release_search player ticket_id s =
    let r = runtime_for player s in
    if not (r.queue.phase == searching) || not (is_ticket r.queue.ticket_id ticket_id)
    then (save player r s, false)
    else (leave player s, true)

pub data Accepted : Type 0 where
  waiting : ReadyCheck → Accepted
  in_match : MatchAssignment → Accepted

-- The server that the single process pretends to have found.
unfoldable pub prototype_server : String → ReadyCheck → MatchAssignment
prototype_server match_id c = record {
  mode = some (mode_or c.mode);
  match_id = match_id;
  map_name = c.map_name;
  region = c.region;
  server_label = "Prototype Server · Chicago 01";
  address = "127.0.0.1:27015";
  connect_url = "steam://connect/127.0.0.1:27015/aftertickDemoPassword123";
  launcher_url = "b2g://connect?server=127.0.0.1%3A27015&password=aftertickDemoPassword123";
  human_players = none;
  bot_players = none;
  capacity = none;
}

-- The ready check once the player has accepted, which counts once.
unfoldable pub accept_once : String → ReadyCheck → ReadyCheck
accept_once player c =
    if includes c.accepted_player_ids player
    then c
    else record c { accepted_player_ids = c.accepted_player_ids ++ player ∷ [] }

-- Everybody has accepted.
unfoldable pub start_match :
    String
    → String
    → ReadyCheck
    → PlayerRuntime
    → QueueService
    → QueueService × Result QueueError Accepted
unfolding prototype_server save publish
start_match player match_id c r s =
    let a = prototype_server match_id c in
    let q = record (r.queue) { phase = assigned; players_found = c.total_players } in
    let r' = record r { queue = q; ready_check = none; assignment = some a; expiry_timer = none } in
    (
      publish player (match_assigned a) (publish player (queue_updated q) (save player r' s)),
      ok (in_match a),
    )

-- Somebody has still to accept.
unfoldable pub keep_waiting :
    String → ReadyCheck → PlayerRuntime → QueueService → QueueService × Result QueueError Accepted
unfolding save
keep_waiting player c r s = (save player (record r { ready_check = some c }) s, ok (waiting c))

unfoldable pub accept :
    String → String → ℕ → QueueService → QueueService × Result QueueError Accepted
unfolding runtime_for leave accept_once start_match keep_waiting save publish
accept player match_id now s =
    let r = runtime_for player s in
    elim r.ready_check [
      | none ↦ (save player r s, err not_active)
      | some c ↦
          if not (c.match_id == match_id)
          then (s, err not_active)
          else if leb c.expires_at now
          then (leave player s, err expired)
          else let c' = accept_once player c in
            let s' = publish player (match_accepted c') s in
            if length c'.accepted_player_ids == c'.total_players
            then start_match player match_id c' r s'
            else keep_waiting player c' r s'
    ]

-- `reset`, up to the answer: the timers are cleared, the runtime goes, and building the answer creates
-- an idle one again.
unfoldable pub reset : String → QueueService → QueueService
unfolding save clear_timers runtime_for
reset player s =
    let cleared = save player (clear_timers (runtime_for player s)) s in
    save player fresh_runtime (record cleared { runtimes = JsMap.delete player cleared.runtimes })

-- `getQueueRuntime`, which creates the runtime that it does not find.
unfoldable pub get_queue_runtime : String → QueueService → QueueService × PlayerRuntime
unfolding runtime_for save
get_queue_runtime player s = let r = runtime_for player s in (save player r s, r)

abbrev simulated : List String
simulated =
    "sim-1" ∷ "sim-2" ∷ "sim-3" ∷ "sim-4" ∷ "sim-5" ∷ "sim-6" ∷ "sim-7" ∷ "sim-8" ∷ "sim-9"
    ∷ "sim-10" ∷ "sim-11" ∷ "sim-12" ∷ "sim-13" ∷ []

abbrev pub match_size : GameMode → ℕ
match_size deathmatch = 14
match_size competitive = 10

abbrev pub first_or : String → List String → String
first_or d [] = d
first_or d (x ∷ xs) = x

-- The ready check for a search: every other place is taken by a simulated player who has accepted.
unfoldable pub ready_check_for : QueueState → String → (expires_at : ℕ) → ReadyCheck
ready_check_for q match_id expires_at =
    let mode = mode_or q.mode in
    let pool = if mode == deathmatch then deathmatch_map ∷ [] else q.maps in
    record {
      mode = some mode;
      match_id = match_id;
      expires_at = expires_at;
      accepted_player_ids = take (match_size mode - 1) simulated;
      total_players = match_size mode;
      map_name = if mode == deathmatch then deathmatch_map else first_or "Mirage" pool;
      map_pool = pool;
      region = first_or "NA Central" q.regions;
    }

unfoldable pub create_ready_check : String → (match_id : String) → ℕ → QueueService → QueueService
unfolding runtime_for ready_check_for save publish
create_ready_check player match_id now s =
    let r = runtime_for player s in
    if not (r.queue.phase == searching)
    then save player r s
    else let wait = s.options.ready_check_seconds * 1000 in
      let c = ready_check_for r.queue match_id (now + wait) in
      let q = record (r.queue) { phase = ready_check; players_found = c.total_players } in
      let r' = record r {
        queue = q;
        ready_check = some c;
        match_timer = none;
        expiry_timer = some (now + wait + 50);
      } in
      publish player (match_found c) (publish player (queue_updated q) (save player r' s))

-- A timer that is pending and due.
unfoldable pub is_due : ℕ → Option ℕ → Bool
is_due now none = false
is_due now (some at) = leb at now

-- The callbacks of the two timers, which run only while their timer is pending and once it is due.
unfoldable pub fire_match : String → (match_id : String) → ℕ → QueueService → QueueService
unfolding is_due runtime_for create_ready_check
fire_match player match_id now s =
    if is_due now (runtime_for player s).match_timer
    then create_ready_check player match_id now s
    else s

unfoldable pub fire_expiry : String → ℕ → QueueService → QueueService
unfolding is_due runtime_for leave
fire_expiry player now s =
    if is_due now (runtime_for player s).expiry_timer then leave player s else s

-- What happens to the service: a request of a client, or a timer.
pub data Call : Type 0 where
  joins : JoinQueueRequest → (ticket_id : String) → Call
  leaves resets looks_up : String → Call
  releases : (player ticket_id : String) → Call
  accepts : (player match_id : String) → Call
  match_due : (player match_id : String) → Call
  expiry_due : String → Call

unfoldable pub step : Call → (now : ℕ) → QueueService → QueueService
unfolding join leave reset get_queue_runtime release_search accept fire_match fire_expiry
step (joins r ticket_id) now s = (join r ticket_id now s).0
step (leaves player) now s = leave player s
step (resets player) now s = reset player s
step (looks_up player) now s = (get_queue_runtime player s).0
step (releases player ticket_id) now s = (release_search player ticket_id s).0
step (accepts player match_id) now s = (accept player match_id now s).0
step (match_due player match_id) now s = fire_match player match_id now s
step (expiry_due player) now s = fire_expiry player now s

unfoldable pub run : List (Call × ℕ) → QueueService → QueueService
unfolding step
run [] s = s
run ((c, now) ∷ cs) s = run cs (step c now s)
