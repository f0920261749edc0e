-- ===== src/Matchmaker/Tests.antt =====
-- The matchmaker on two parties of five.
use Prim.Native.String.{compare}
use Prim.Native.Nat.{Ordering}
use legacy_match_platform.Common.{
  ℕ, String, Bool, true, false, Option, none, some, List, ◌==◌, String_eq, eq_iff, Bool-cases,
  Option-cases, every, includes, eq→≡, subst, ap, ◌∙◌, inl, inr, arith, [], ◌∷◌, ◌≡◌, refl, map,
}
use legacy_match_platform.Common.JsMap
use legacy_match_platform.Common.JsMap.{JsMap}
use legacy_match_platform.Common.Doubles.{Whole, Whole_double, Whole-IsDouble}
use legacy_match_platform.Contracts.{competitive, searching, QueueState}
use legacy_match_platform.RedisQueue.{Store, Ticket, empty_store}
use legacy_match_platform.Matchmaker.{
  Player, players_of, MatchmakingTicket, MatchPlan, normal, Order, below, level, above,
}
use legacy_match_platform.Matchmaker.Search.{find_match}
use legacy_match_platform.Matchmaker.Fair.{Fair}
use legacy_match_platform.Matchmaker.Oldest.{Anchored, find_match-Fair}
use legacy_match_platform.Matchmaker.Run.{Options, run_once}
use legacy_match_platform.Matchmaker.Proposals.{blames_plan, run_once-fine}
use legacy_match_platform.Matchmaker.Invariant.{run_once-Sound}
use legacy_match_platform.RedisQueue.Owned.Sound.{Sound}
use legacy_match_platform.Matchmaker.Teams.{
  stack_imbalance, choose_teams, divide, teams_score, best_score,
}
use legacy_match_platform.Matchmaker.Splits.{split_end, to_alpha, to_bravo, choose_teams-best}

abbrev by_code : String → String → Order
by_code a b = elim (compare a b) [ Ordering.lt ↦ below | Ordering.eq ↦ level | Ordering.gt ↦ above ]

abbrev player : ℕ → String → Player Whole
player rating id = record {
  player_id = id;
  steam_id = id;
  rating = some rating;
  uncertainty = some 50;
  moderation_band = normal;
  region_pings = ("EU Central", some 30) ∷ [];
}

abbrev state : ℕ → QueueState
state joined = record {
  ticket_id = none;
  mode = some competitive;
  phase = searching;
  joined_at = some joined;
  regions = "EU Central" ∷ [];
  maps = "Nuke" ∷ "Mirage" ∷ [];
  players_found = 5;
  estimated_wait_seconds = 0;
  rating_window = 50;
}

abbrev party : String → ℕ → List String → Ticket
party id joined members = record {
  id = id;
  fencing_token = joined;
  party_id = some id;
  leader_player_id = id;
  member_player_ids = members;
  queue = state joined;
  ready_check = none;
  map_veto = none;
  assignment = none;
}

abbrev ticket : String → ℕ → ℕ → List String → MatchmakingTicket Whole
ticket id joined rating members = record {
  id = id;
  fencing_token = joined;
  joined_at = joined;
  mode = competitive;
  regions = "EU Central" ∷ [];
  maps = "Nuke" ∷ "Mirage" ∷ [];
  players = map (player rating) members;
  source = party id joined members;
}

abbrev reds : MatchmakingTicket Whole
reds = ticket "reds" 2 1500 ("r1" ∷ "r2" ∷ "r3" ∷ "r4" ∷ "r5" ∷ [])

abbrev blues : MatchmakingTicket Whole
blues = ticket "blues" 1 1550 ("b1" ∷ "b2" ∷ "b3" ∷ "b4" ∷ "b5" ∷ [])

abbrev found : Option (MatchPlan Whole)
found = find_match by_code 1000 5000 (reds ∷ blues ∷ [])

choose_teams-best_example :
    Whole_double.lt
      (teams_score (divide (reds ∷ []) (blues ∷ [])))
      (best_score (choose_teams (blues ∷ reds ∷ [])))
    ≡ false
unfolding players_of
choose_teams-best_example =
    choose_teams-best Whole-IsDouble (blues ∷ reds ∷ []) (reds ∷ []) (blues ∷ [])
      (to_bravo blues (reds ∷ []) (reds ∷ []) [] (to_alpha reds [] [] [] split_end)) refl refl

abbrev plan : MatchPlan Whole
plan = record {
  mode = competitive;
  tickets = blues ∷ reds ∷ [];
  alpha_player_ids = "r1" ∷ "r2" ∷ "r3" ∷ "r4" ∷ "r5" ∷ [];
  bravo_player_ids = "b1" ∷ "b2" ∷ "b3" ∷ "b4" ∷ "b5" ∷ [];
  map_name = "Mirage";
  map_pool = "Mirage" ∷ "Nuke" ∷ [];
  region = "EU Central";
  quality = record {
    score = some 0;
    predicted_alpha_win = some 0;
    rating_difference = some 0;
    ping_spread = some 0;
    max_ping = some 30;
    stack_imbalance = 0;
    oldest_wait_seconds = 0;
    rating_window = 100;
    ping_limit = 70;
  };
}

abbrev offered : List (MatchmakingTicket Whole)
offered = reds ∷ blues ∷ []

find_match-Fair_example : Fair 1000 plan × Anchored offered plan
unfolding find_match JsMap.get stack_imbalance
find_match-Fair_example = find_match-Fair by_code 1000 5000 offered plan refl

-- Redis lists a sorted set by score; the tickets of this store stand in that order.
abbrev z_range : JsMap ℕ → List String
z_range = map (λ e. e.0)

abbrev resolve : List String → JsMap (Player Whole)
resolve = map (λ id. (id, player 1500 id))

abbrev options : Options Whole
options = record {
  ready_check_seconds = none;
  client_selection = true;
  assignment = none;
  prepare_match = none;
  reserve_match = some (λ _ _. true);
  random_index = λ n. some 1;
}

abbrev waiting : Store
waiting = record empty_store {
  tickets = ("blues", blues.source) ∷ ("reds", reds.source) ∷ [];
  pointers =
      ("b1", "blues")
      ∷ ("b2", "blues")
      ∷ ("b3", "blues")
      ∷ ("b4", "blues")
      ∷ ("b5", "blues")
      ∷ ("r1", "reds")
      ∷ ("r2", "reds")
      ∷ ("r3", "reds")
      ∷ ("r4", "reds")
      ∷ ("r5", "reds")
      ∷ [];
  fence = 2;
  searching = ("blues", 1) ∷ ("reds", 2) ∷ [];
}

run_once-fine_example :
    blames_plan (run_once by_code options z_range resolve 1000 1100 "m1" waiting).1.result ≡ false
run_once-fine_example = run_once-fine by_code options z_range resolve 1000 1100 "m1" waiting

-- A check of every entry holds of the one that is found.
get-every :
    {V : Type 0} (p : String × V → Bool) (k : String) (v : V) (m : JsMap V)
    → every p m ≡ true
    → JsMap.get k m ≡ some v
    → p (k, v) ≡ true
unfolding JsMap.get
get-every p k v [] h g = absurd cc
get-every p k v ((j, w) ∷ m) h g = elim (Bool-cases (j == k)) [
  | inl e ↦
      let same : w ≡ v = ground arith in
      subst (λ x. p (x, v) ≡ true) (eq→≡ j k e) (subst (λ x. p (j, x) ≡ true) same (ground arith))
  | inr e ↦ get-every p k v m (ground arith) (ground arith)
]

includes-every :
    (p : String → Bool) (m : String) (xs : List String)
    → every p xs ≡ true
    → includes xs m ≡ true
    → p m ≡ true
includes-every p m [] h g = absurd cc
includes-every p m (x ∷ xs) h g = elim (Bool-cases (x == m)) [
  | inl e ↦ subst (λ y. p y ≡ true) (eq→≡ x m e) (ground arith)
  | inr e ↦ includes-every p m xs (ground arith) (ground arith)
]

abbrev points : String → String → Bool
points id m = elim (JsMap.get m waiting.pointers) [ none ↦ false | some k ↦ k == id ]

abbrev is_on : String × String → Bool
is_on (m, id) = elim (JsMap.get id waiting.tickets) [
  | none ↦ true
  | some t ↦ includes t.member_player_ids m
]

pointed : (id m : String) → points id m ≡ true → JsMap.get m waiting.pointers ≡ some id
pointed id m h = elim (Option-cases (JsMap.get m waiting.pointers)) [
  | inl e ↦ absurd (let k = rw (e, points) at h in cc)
  | inr (k, e) ↦ let q = rw (e, points) at h in e ∙ ap some (eq→≡ k id q)
]

waiting-Sound : Sound waiting
unfolding JsMap.get
waiting-Sound = record {
  owned = record {
    filed = λ id t h. ground (arith, eq_iff "blues" id, eq_iff "reds" id);
    held = λ id m t h i.
        let found =
          get-every (λ (e : String × Ticket). every (points e.0) e.1.member_player_ids) id t
            waiting.tickets refl h in
        let k = includes-every (points id) m t.member_player_ids found i in pointed id m k;
    mine = λ id m t h g. let k = get-every is_on m id waiting.pointers refl h in rw (g, is_on) at k;
    fenced = λ id t h. ground arith;
    tokens = λ a b t u h g e.
        ground (arith, eq_iff "blues" a, eq_iff "reds" a, eq_iff "blues" b, eq_iff "reds" b);
    listed = λ id score h. elim (Bool-cases ("blues" == id)) [
      | inl e ↦ (blues.source, ground arith, refl)
      | inr e ↦ (reds.source, ground arith, refl)
    ];
    queued = λ id t h p. elim (Bool-cases ("blues" == id)) [
      | inl e ↦ (1, ground arith)
      | inr e ↦ (2, ground arith)
    ];
  };
  settled = λ match_id id r t h. cc;
}

run_once-Sound_example : Sound (run_once by_code options z_range resolve 1000 1100 "m1" waiting).0
run_once-Sound_example =
    run_once-Sound by_code options z_range resolve 1000 1100 "m1" waiting waiting-Sound
