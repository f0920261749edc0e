-- ===== src/RedisQueue/Tests.antt =====
-- The durable queue on small stores: a search, a veto of three maps, a cancelled ready check and a
-- plan.
use legacy_match_platform.Common.{
  ℕ, zero, suc, ◌≤◌, ◌<◌, map, keep, leb, some_inj, Bool-cases, String, Bool, true, false, none,
  some, List, [], ◌∷◌, includes, String_eq, ◌==◌, ◌≡◌, refl, ◌⊎◌, inl, inr, arith,
}
use legacy_match_platform.Common.JsMap
use legacy_match_platform.Common.JsMap.{JsMap}
use legacy_match_platform.Contracts.{
  competitive, searching, alpha, active, JoinQueueRequest, QueuePhase_eq,
}
use legacy_match_platform.RedisQueue.{
  Store, Ticket, ReadyRecord, VetoRecord, VetoSeed, empty_store, expiry, release_pointers,
}
use legacy_match_platform.RedisQueue.Join.{held_ticket, join_script, new_ticket}
use legacy_match_platform.RedisQueue.Leave.{anything, leave_script, session_ended}
use legacy_match_platform.RedisQueue.Ready.{Claim, Plan, prepare_ready}
use legacy_match_platform.RedisQueue.Veto.{manual, ban_script}
use legacy_match_platform.RedisQueue.Cancel.{cancel_script}
use legacy_match_platform.RedisQueue.Owned.Sound.{Sound}
use legacy_match_platform.RedisQueue.Owned.History.{
  Script, joins, opens, accepts, execute_all, Allowed, execute_all-empty, empty_store-Sound,
}
use legacy_match_platform.RedisQueue.Behaviour.{join_script-created, leave_script-frees}
use legacy_match_platform.RedisQueue.Bans.{IsVeto}
use legacy_match_platform.RedisQueue.Turns.{Turn, ban_script-Turn}
use legacy_match_platform.RedisQueue.Sweeping.{Settled}
use legacy_match_platform.RedisQueue.Sweeps.{sweeps, sweeps-settle}
use legacy_match_platform.RedisQueue.Penalties.{Spared, cancel_script-Spared}
use legacy_match_platform.RedisQueue.Calls.{sweep_expired_ready_checks, sweep_map_vetoes}
use legacy_match_platform.RedisQueue.Owned.Ending.{leave_script-Sound}
use legacy_match_platform.RedisQueue.Requests.{looks_up, serve, serve-Sound}
use legacy_match_platform.RedisQueue.Expiry.{Swept, sweep-Swept}
use legacy_match_platform.RedisQueue.Once.{cancel_script-once, complete_veto_script-once}
use legacy_match_platform.RedisQueue.Accept.{accept_script, missing}
use legacy_match_platform.RedisQueue.Cancel.{missing as nothing}
use legacy_match_platform.RedisQueue.Veto.{no_veto, complete_veto_script}
use legacy_match_platform.Contracts.{MatchAssignment, allocating}
use legacy_match_platform.RedisQueue.{CancelMode}
use legacy_match_platform.RedisQueue.Plans.{Prepared, prepare_ready-Prepared}

abbrev no_lobby : String → Bool
no_lobby id = false

abbrev request : JoinQueueRequest
request = record {
  player_id = "a";
  regions = "NA East" ∷ [];
  maps = "Nuke" ∷ [];
  mode = some competitive;
}

abbrev search : Ticket
search = record {
  id = "t1";
  fencing_token = 0;
  party_id = none;
  leader_player_id = "a";
  member_player_ids = "a" ∷ [];
  queue = record {
    ticket_id = none;
    mode = some competitive;
    phase = searching;
    joined_at = some 5;
    regions = "NA East" ∷ [];
    maps = "Nuke" ∷ [];
    players_found = 0;
    estimated_wait_seconds = 0;
    rating_window = 50;
  };
  ready_check = none;
  map_veto = none;
  assignment = none;
}

search-new : new_ticket "t1" 5 request ≡ search
unfolding new_ticket
search-new = refl

abbrev filed : Ticket
filed = record search { fencing_token = 1 }

abbrev checked : ReadyRecord
checked = record {
  check = record {
    mode = some competitive;
    match_id = "m1";
    expires_at = 100;
    accepted_player_ids = "b" ∷ [];
    total_players = 1;
    map_name = "Nuke";
    map_pool = "Nuke" ∷ [];
    region = "NA East";
  };
  expires_at_ms = 100;
  ticket_ids = "t1" ∷ [];
  member_player_ids = "a" ∷ "b" ∷ [];
  assignment = none;
  veto = none;
}

abbrev history : List Script
history =
    joins search none 5 5 "a"
    ∷ opens (record { id = "t1"; fencing_token = 1 } ∷ []) checked
    ∷ accepts "a" "m1" 50 60
    ∷ []

first_join-Allowed : Allowed (joins search none 5 5 "a") empty_store
unfolding JsMap.get
first_join-Allowed = (record { unused = refl; unnamed = λ m h. cc }, λ match_id r h. cc, refl)

execute_all-empty_example : Sound (execute_all no_lobby history empty_store)
execute_all-empty_example =
    execute_all-empty no_lobby history (first_join-Allowed, (refl, (tt, tt)))

abbrev joined : Store
joined = (join_script search none 5 5 "a" empty_store).0

join_script-created_example :
    (held_ticket empty_store "a" ≡ none)
    × ((m : String) → includes filed.member_player_ids m ≡ true → held_ticket joined m ≡ some filed)
    × (filed.fencing_token ≡ joined.fence)
    × ((id : String) (u : Ticket)
        → JsMap.get id empty_store.tickets ≡ some u
        → u.fencing_token < filed.fencing_token)
unfolding join_script JsMap.get
join_script-created_example =
    join_script-created search filed none 5 5 "a" empty_store joined empty_store-Sound.owned refl

abbrev one_search : Store
one_search = execute_all no_lobby (joins search none 5 5 "a" ∷ []) empty_store

one_search-Sound : Sound one_search
one_search-Sound =
    execute_all-empty no_lobby (joins search none 5 5 "a" ∷ []) (first_join-Allowed, tt)

abbrev left : Store
left = (leave_script "a" anything one_search).0

leave_script-frees_example :
    (held_ticket one_search "a" ≡ some filed)
    × ((anything ≡ anything) ⊎ ((filed.queue.phase == searching) ≡ true))
    × ((filed.party_id ≡ none) ⊎ (filed.leader_player_id ≡ "a") ⊎ (session_ended anything ≡ true))
    × ((m : String) → includes filed.member_player_ids m ≡ true → held_ticket left m ≡ none)
unfolding leave_script execute_all JsMap.get JsMap.set
leave_script-frees_example =
    leave_script-frees "a" anything one_search left filed one_search-Sound.owned refl

abbrev veto : VetoRecord
veto = record {
  state = record {
    match_id = "m1";
    region = "NA East";
    captains = record { of_alpha = "ca"; of_bravo = "cb" };
    acting_team = alpha;
    remaining_maps = "Mirage" ∷ "Nuke" ∷ "Inferno" ∷ [];
    bans = [];
    status = active;
    selected_map = none;
    expires_at = some 100;
  };
  expires_at_ms = some 100;
  turn_seconds = 15;
  ticket_ids = [];
  member_player_ids = "ca" ∷ "cb" ∷ [];
}

three_maps-IsVeto : IsVeto veto.state
three_maps-IsVeto = record {
  once = refl;
  gone = tt;
  choice = λ a. omega arith;
  settled = λ e. absurd (cc);
}

abbrev vetoing : Store
vetoing = record empty_store { vetoes = ("m1", veto) ∷ []; veto_deadlines = ("m1", 100) ∷ [] }

-- A listing by score, in the order of the entries.
abbrev due : JsMap ℕ → ℕ → List String
due m now = map (λ e. e.0) (keep (λ e. leb e.1 now) m)

includes-due :
    (m : JsMap ℕ) (now : ℕ) (id : String) (at : ℕ)
    → JsMap.get id m ≡ some at
    → at ≤ now
    → includes (due m now) id ≡ true
unfolding JsMap.get
includes-due [] now id at h l = absurd cc
includes-due ((k, score) ∷ m) now id at h l = elim (Bool-cases (k == id)) [
  | inl e ↦
      let same : score ≡ at = some_inj (rw (e, JsMap.get) at h) in
      let over : leb score now ≡ true = ground (arith, same, l) in rw (over) (ground (arith, e))
  | inr e ↦
      let rest = includes-due m now id at (rw (e, JsMap.get) at h) l in
      elim (Bool-cases (leb score now)) [
        | inl o ↦ rw (o) (ground (arith, rest))
        | inr o ↦ rw (o) rest
      ]
]

sweeps-settle_example : Settled "m1" "Mirage" (sweeps due 100 (120 ∷ 15200 ∷ []) vetoing)
unfolding JsMap.get sweep_map_vetoes JsMap.set
sweeps-settle_example =
    sweeps-settle due 100 "m1" "Mirage" ("Nuke" ∷ "Inferno" ∷ []) 100 (120 ∷ 15200 ∷ []) vetoing
      veto includes-due refl three_maps-IsVeto refl refl refl refl (omega arith) refl
      (omega arith, (omega arith, tt)) (omega arith, (omega arith, tt))

ban_script-Turn_example :
    ((ban_script "m1" "ca" "Nuke" manual 50 115 vetoing).0 ≡ vetoing)
    ⊎ Turn "m1" "ca" "Nuke" 50 vetoing (ban_script "m1" "ca" "Nuke" manual 50 115 vetoing).0
ban_script-Turn_example = ban_script-Turn "m1" "ca" "Nuke" manual 50 115 vetoing

abbrev waiting : Store
waiting = record empty_store { ready = ("m1", checked) ∷ [] }

cancel_script-Spared_example :
    Spared "b" waiting (cancel_script no_lobby "m1" "" 200 expiry waiting).0
unfolding JsMap.get
cancel_script-Spared_example =
    cancel_script-Spared no_lobby "m1" "" "b" 200 expiry waiting checked refl
      (inr (inl (refl, refl)))

abbrev ten : Ticket
ten = record filed {
  member_player_ids = "p1" ∷ "p2" ∷ "p3" ∷ "p4" ∷ "p5" ∷ "p6" ∷ "p7" ∷ "p8" ∷ "p9" ∷ "p10" ∷ [];
}

abbrev seed : VetoSeed
seed = record {
  captains = record { of_alpha = "p1"; of_bravo = "p6" };
  map_pool = "Nuke" ∷ [];
  turn_seconds = 15;
}

abbrev plan : Plan
plan = record {
  match_id = "m2";
  mode = some competitive;
  tickets = ten ∷ [];
  map_name = "Nuke";
  map_pool = none;
  region = "NA East";
  duration_seconds = 20;
  assignment = none;
  veto = some seed;
}

abbrev plan_claims : List Claim
plan_claims = record { id = "t1"; fencing_token = 1 } ∷ []

abbrev plan_record : ReadyRecord
plan_record = record {
  check = record {
    mode = some competitive;
    match_id = "m2";
    expires_at = 21000;
    accepted_player_ids = [];
    total_players = 10;
    map_name = "Nuke";
    map_pool = "Nuke" ∷ [];
    region = "NA East";
  };
  expires_at_ms = 21000;
  ticket_ids = "t1" ∷ [];
  member_player_ids = ten.member_player_ids;
  assignment = none;
  veto = some seed;
}

prepare_ready-Prepared_example : Prepared plan plan_claims plan_record
unfolding prepare_ready
prepare_ready-Prepared_example = prepare_ready-Prepared plan 1000 plan_claims plan_record refl

-- Another client leaves while the pointer has been read and the ticket has not.
abbrev meanwhile : ℕ → Store → Store
meanwhile zero s = (leave_script "a" anything s).0
meanwhile (suc n) s = s

meanwhile-Sound : (n : ℕ) (s : Store) → Sound s → Sound (meanwhile n s)
meanwhile-Sound zero s v = leave_script-Sound "a" anything s v
meanwhile-Sound (suc n) s v = v

serve-Sound_example : Sound (serve no_lobby meanwhile (looks_up "a" 50 60) one_search)
unfolding JsMap.get JsMap.set JsMap.delete held_ticket leave_script execute_all release_pointers
serve-Sound_example =
    serve-Sound no_lobby meanwhile (looks_up "a" 50 60) one_search meanwhile-Sound one_search-Sound
      refl

sweep-Swept_example :
    Swept "m1" 200 (sweep_expired_ready_checks no_lobby (("m0", 200) ∷ ("m1", 200) ∷ []) waiting).0
    × ((k : String) (r : ReadyRecord)
        → JsMap.get k
            (sweep_expired_ready_checks no_lobby (("m0", 200) ∷ ("m1", 200) ∷ []) waiting).0.ready
          ≡ some r
        → JsMap.get k waiting.ready ≡ some r)
sweep-Swept_example = sweep-Swept no_lobby (("m0", 200) ∷ []) [] "m1" 200 waiting

abbrev over : Store
over = (cancel_script no_lobby "m1" "" 200 expiry waiting).0

cancel_script-once_example :
    ((player : String) (now at : ℕ) → accept_script player "m1" now at over ≡ (over, missing))
    × ((player : String) (now : ℕ) (again : CancelMode)
        → cancel_script no_lobby "m1" player now again over ≡ (over, nothing))
unfolding cancel_script JsMap.get
cancel_script-once_example = cancel_script-once no_lobby "m1" "" 200 expiry waiting over refl

abbrev server : MatchAssignment
server = record {
  mode = some competitive;
  match_id = "m1";
  map_name = "Mirage";
  region = "NA East";
  server_label = "East 1";
  address = "10.0.0.1:27015";
  connect_url = "steam://connect/10.0.0.1:27015";
  launcher_url = "b2g://connect?server=10.0.0.1";
  human_players = none;
  bot_players = none;
  capacity = none;
}

abbrev settled : Store
settled = record empty_store {
  vetoes =
      (
        "m1",
        record veto {
          state = record (veto.state) {
            remaining_maps = "Mirage" ∷ [];
            status = allocating;
            selected_map = some "Mirage";
            expires_at = none;
          };
          expires_at_ms = none;
        },
      )
      ∷ [];
}

abbrev allocated : Store
allocated = (complete_veto_script "m1" server settled).0

complete_veto_script-once_example :
    complete_veto_script "m1" server allocated ≡ (allocated, no_veto)
unfolding complete_veto_script JsMap.get
complete_veto_script-once_example =
    complete_veto_script-once "m1" server server settled allocated 0 refl
