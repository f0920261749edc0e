-- ===== src/Matchmaker/Run.antt =====
-- One run of the matchmaker: `runOnceUnlocked` of `RedisMatchmaker`, with `listSearchingTickets` of
-- apps/api/src/redis-queue-service.ts, from which it takes the tickets. The profiles, the random
-- index and the two providers of servers are parameters; a provider that throws answers none.
use legacy_match_platform.Common.{
  ℕ, String, Bool, true, false, not, ◌&&◌, Option, none, some, List, [], ◌∷◌, map, keep, includes,
  if◌then◌else◌, ◌==◌, String_eq, ltb, Result, ok, err,
}
use legacy_match_platform.Common.JsMap
use legacy_match_platform.Common.JsMap.{JsMap}
use legacy_match_platform.Common.Doubles.{Double}
use legacy_match_platform.Contracts.{
  GameMode_eq, competitive, mode_or, searching, QueuePhase_eq, MatchAssignment, ReadyCheck,
}
use legacy_match_platform.RedisQueue.{Store, Ticket, VetoSeed, ScriptError}
use legacy_match_platform.RedisQueue.Ready.{
  Plan, PlanError, unique, player_count, all_members, prepare_ready, create_ready_script,
}
use legacy_match_platform.Matchmaker.{
  Player, MatchmakingTicket, MatchPlan, Order, players_of, captain_for, choose_client_selected_map,
}
use legacy_match_platform.Matchmaker.Search.{find_match}

-- The loop over the listed identifiers: the tickets that search, and the identifiers without a ticket.
unfoldable pub read_tickets : List String → JsMap Ticket → List Ticket × List String
read_tickets [] tickets = ([], [])
read_tickets (id ∷ ids) tickets =
    let rest = read_tickets ids tickets in
    elim (JsMap.get id tickets) [
      | none ↦ (rest.0, id ∷ rest.1)
      | some t ↦ if t.queue.phase == searching then (t ∷ rest.0, rest.1) else rest
    ]

unfoldable pub drop_stale : List String → JsMap ℕ → JsMap ℕ
drop_stale [] m = m
drop_stale (id ∷ ids) m = drop_stale ids (JsMap.delete id m)

-- The order in which Redis lists the sorted set is the argument `z_range`.
unfoldable pub list_searching_tickets : (JsMap ℕ → List String) → Store → Store × List Ticket
unfolding read_tickets drop_stale
list_searching_tickets z_range s =
    let r = read_tickets (z_range s.searching) s.tickets in
    (record s { searching = drop_stale r.1 s.searching }, r.0)

-- `memberPlayerIds.map((id) => profiles.get(id))`, when every one is there.
unfoldable pub profiles_of :
    {W : Type 0} → JsMap (Player W) → List String → Option (List (Player W))
profiles_of profiles [] = some []
profiles_of profiles (id ∷ ids) =
    let rest = profiles_of profiles ids in
    elim (JsMap.get id profiles) [
      | none ↦ none
      | some p ↦ elim rest [ none ↦ none | some ps ↦ some (p ∷ ps) ]
    ]

unfoldable pub candidate : {W : Type 0} → JsMap (Player W) → Ticket → Option (MatchmakingTicket W)
unfolding profiles_of
candidate profiles t = elim t.queue.joined_at [
  | none ↦ none
  | some joined ↦ elim (profiles_of profiles t.member_player_ids) [
    | none ↦ none
    | some players ↦ some (record {
      id = t.id;
      fencing_token = t.fencing_token;
      joined_at = joined;
      mode = mode_or t.queue.mode;
      regions = t.queue.regions;
      maps = t.queue.maps;
      players = players;
      source = t;
    })
  ]
]

unfoldable pub candidates :
    {W : Type 0} → JsMap (Player W) → List Ticket → List (MatchmakingTicket W)
unfolding candidate
candidates profiles [] = []
candidates profiles (t ∷ ts) =
    let rest = candidates profiles ts in
    elim (candidate profiles t) [ none ↦ rest | some c ↦ c ∷ rest ]

pub record Options (W : Type 0) : Type 0 where
  pub ready_check_seconds : Option ℕ
  pub client_selection : Bool
  pub assignment : Option MatchAssignment
  pub prepare_match : Option (MatchPlan W → String → Option MatchAssignment)
  pub reserve_match : Option (MatchPlan W → String → Bool)
  pub random_index : ℕ → Option ℕ

pub data RunError : Type 0 where
  invalid_index no_provider provider_failed no_captain : RunError
  plan_refused : PlanError → RunError
  script_refused : ScriptError → RunError

-- Who will serve the match.
pub data Provider : Type 0 where
  reserved : Provider
  prepared : MatchAssignment → Provider

-- The answer of a run: nothing, a ready check or an error, and whether a provider was told to abort.
pub record Answer : Type 0 where
  pub result : Result RunError (Option ReadyCheck)
  pub aborted : Bool

abbrev only : Store → Result RunError (Option ReadyCheck) → Store × Answer
only s r = (s, record { result = r; aborted = false })

module _ {W : Type 0} (o : Options W) where
  unfoldable pub prepare : MatchPlan W → String → Result RunError Provider
  prepare plan match_id = elim o.prepare_match [
    | some f ↦ elim (f plan match_id) [ none ↦ err provider_failed | some a ↦ ok (prepared a) ]
    | none ↦ elim o.assignment [ none ↦ err no_provider | some a ↦ ok (prepared a) ]
  ]

  unfoldable pub provide : MatchPlan W → String → Result RunError Provider
  unfolding prepare
  provide plan match_id = elim o.reserve_match [
    | none ↦ prepare plan match_id
    | some reserve ↦
        if not (plan.mode == competitive)
        then prepare plan match_id
        else if reserve plan match_id
        then ok reserved
        else err provider_failed
  ]

module _ {W : Type 0} ⦃d : Double W⦄ (locale_compare : String → String → Order)
    (o : Options W) where
  -- The map veto of a reserved match, unless a team has no captain.
  unfoldable pub veto_seed : MatchPlan W → Option VetoSeed
  unfolding captain_for players_of
  veto_seed plan =
      let team : List String → List (Player W) =
        λ ids. keep (λ p. includes ids p.player_id) (players_of plan.tickets) in
      elim (captain_for locale_compare (team plan.alpha_player_ids)) [
        | none ↦ none
        | some a ↦ elim (captain_for locale_compare (team plan.bravo_player_ids)) [
          | none ↦ none
          | some b ↦ some (record {
            captains = record { of_alpha = a; of_bravo = b };
            map_pool = plan.map_pool;
            turn_seconds = 30;
          })
        ]
      ]

  abbrev pub proposal_of : MatchPlan W → String → Option MatchAssignment → Option VetoSeed → Plan
  proposal_of plan match_id assignment veto = record {
    match_id = match_id;
    mode = some plan.mode;
    tickets = map (λ t. t.source) plan.tickets;
    map_name = plan.map_name;
    map_pool = some plan.map_pool;
    region = plan.region;
    duration_seconds = elim o.ready_check_seconds [ none ↦ 20 | some n ↦ n ];
    assignment = assignment;
    veto = veto;
  }

  -- What `createReadyCheck` is called with.
  unfoldable pub propose : MatchPlan W → String → Provider → Result RunError Plan
  unfolding veto_seed
  propose plan match_id reserved = elim (veto_seed plan) [
    | none ↦ err no_captain
    | some v ↦ ok (proposal_of plan match_id none (some v))
  ]
  propose plan match_id (prepared a) = ok (
      proposal_of plan match_id
        (some (record a {
          match_id = match_id;
          mode = some plan.mode;
          map_name = plan.map_name;
          region = plan.region;
        }))
        none)

  -- `createReadyCheck`; an error tells the provider to abort.
  unfoldable pub submit : ℕ → Result RunError Plan → Store → Store × Answer
  unfolding prepare_ready create_ready_script
  submit clock (err e) s = (s, record { result = err e; aborted = true })
  submit clock (ok plan) s = elim (prepare_ready plan clock) [
    | err e ↦ (s, record { result = err (plan_refused e); aborted = true })
    | ok (claims, ready) ↦
        let r = create_ready_script claims ready s in
        elim r.1 [
          | err e ↦ (r.0, record { result = err (script_refused e); aborted = true })
          | ok check ↦ only r.0 (ok (some check))
        ]
  ]

  -- The plan, with one of its maps when players select maps in the client.
  unfoldable pub with_map : MatchPlan W → Option (MatchPlan W)
  unfolding choose_client_selected_map
  with_map plan =
      if plan.mode == competitive && o.client_selection
      then choose_client_selected_map o.random_index plan
      else some plan

  unfoldable pub conclude : ℕ → String → MatchPlan W → Store → Store × Answer
  unfolding with_map provide propose submit
  conclude clock match_id matched s = elim (with_map matched) [
    | none ↦ only s (err invalid_index)
    | some plan ↦ elim (provide o plan match_id) [
      | err e ↦ only s (err e)
      | ok p ↦ submit clock (propose plan match_id p) s
    ]
  ]

  -- `now` is the clock at the start of the run, `clock` at the creation of the ready check.
  unfoldable pub run_once :
      (JsMap ℕ → List String)
      → (List String → JsMap (Player W))
      → (now clock : ℕ) → String
      → Store
      → Store × Answer
  unfolding list_searching_tickets unique player_count all_members candidates find_match conclude
  run_once z_range resolve now clock match_id s =
      let listed = list_searching_tickets z_range s in
      let tickets = keep (λ t. mode_or t.queue.mode == competitive) listed.1 in
      if ltb (player_count tickets) 10
      then only listed.0 (ok none)
      else (elim (find_match locale_compare now 5000
          (candidates (resolve (unique (all_members tickets))) tickets)) [
            | none ↦ only listed.0 (ok none)
            | some plan ↦ conclude clock match_id plan listed.0
          ])
