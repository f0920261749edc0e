-- ===== src/Matchmaker/Evaluate.antt =====
-- Whether chosen tickets make a match: `evaluateCompetitive`, `evaluateDeathmatch`, `evaluate`.
use legacy_match_platform.Common.{
  ℕ, ◌+◌, ◌*◌, ◌/◌, String, Bool, true, false, ◌&&◌, ◌||◌, not, Option, none, some, List, [], ◌∷◌,
  map, length, keep, any, includes, if◌then◌else◌, ◌==◌, ℕ_eq, String_eq, ltb, min,
}
use legacy_match_platform.Common.JsMap
use legacy_match_platform.Common.JsMap.{JsMap}
use legacy_match_platform.Common.Doubles.{Double}
use legacy_match_platform.Contracts.{GameMode, GameMode_eq, competitive, deathmatch, deathmatch_map}
use legacy_match_platform.Contracts.{map_pool as all_maps}
use legacy_match_platform.RedisQueue.Ready.{unique}
use legacy_match_platform.Matchmaker.{
  MatchmakingTicket, MatchPlan, Player, ModerationBand, normal, restricted, Order, or_else, sort,
  by_double, players_of, ids_of, intersection, oldest_wait, sum, largest, smallest,
}
use legacy_match_platform.Matchmaker.Teams.{Teams, choose_teams}

abbrev pub rating_window_of : ℕ → ℕ
rating_window_of waited = min 400 (100 + waited / 60 * 50)

abbrev pub ping_limit_of : ℕ → ℕ
ping_limit_of waited = min 110 (70 + waited / 60 * 5)

abbrev same_band : ModerationBand → ModerationBand → Bool
same_band normal normal = true
same_band restricted restricted = true
same_band _ _ = false

-- `new Set(bands).size > 1`.
abbrev pub mixed_bands : {W : Type 0} → List (Player W) → Bool
mixed_bands [] = false
mixed_bands (p ∷ ps) = any (λ q. not (same_band p.moderation_band q.moderation_band)) ps

abbrev pub five_stacks : {W : Type 0} → List (MatchmakingTicket W) → ℕ
five_stacks ts = length (keep (λ t. length t.players == 5) ts)

-- `players.length !== size || new Set(ids).size !== size`.
abbrev pub wrong_players : {W : Type 0} → ℕ → List (Player W) → Bool
wrong_players size ps = not (length ps == size) || not (length (unique (ids_of ps)) == size)

abbrev pub first : {A : Type 0} → List A → Option A
first [] = none
first (x ∷ xs) = some x

pub record RegionOption (W : Type 0) : Type 0 where
  pub region : String
  pub pings : List W
  pub max_ping : W
  pub average_ping : W

module _ {W : Type 0} ⦃d : Double W⦄ where
  -- `Math.max` and `Math.min` of the list; what they are for an empty one is never asked.
  abbrev pub max_of : List W → W
  max_of [] = d.infinity
  max_of (x ∷ xs) = largest x xs

  abbrev pub min_of : List W → W
  min_of [] = d.infinity
  min_of (x ∷ xs) = smallest x xs

  abbrev ping : String → Player W → W
  ping region p = elim (JsMap.get region p.region_pings) [ none ↦ d.infinity | some w ↦ w ]

  unfoldable pub option_of : List (Player W) → String → RegionOption W
  option_of players region =
      let pings = map (ping region) players in
      record {
        region = region;
        pings = pings;
        max_ping = max_of pings;
        average_ping = d.div (sum pings) (d.of_nat (length pings));
      }

  abbrev pub is_near : ℕ → RegionOption W → Bool
  is_near limit o = d.is_finite o.max_ping && d.le o.max_ping (d.of_nat limit)

  -- The plan of a competitive match, from its maps, region and teams.
  unfoldable pub competitive_plan :
      List (MatchmakingTicket W) → ℕ → String → List String → RegionOption W → Teams W → MatchPlan W
  unfolding players_of oldest_wait
  competitive_plan tickets now first_map maps region teams =
      let players = players_of tickets in
      let waited = oldest_wait tickets now in
      let ping_spread = d.sub region.max_ping (min_of region.pings) in
      let uncertainty = d.div (sum (map (λ p. p.uncertainty) players)) (d.of_nat 10) in
      let half = d.div (d.of_nat 1) (d.of_nat 2) in
      let score =
        d.add
          (d.add
            (d.add (d.mul (d.abs (d.sub teams.predicted_alpha_win half)) (d.of_nat 1000))
              (d.mul ping_spread (d.of_nat 2)))
            (d.of_nat (teams.stack_imbalance * 35)))
          (d.mul uncertainty (d.div (d.of_nat 2) (d.of_nat 100))) in
      record {
        mode = competitive;
        tickets = tickets;
        alpha_player_ids = ids_of (players_of teams.alpha);
        bravo_player_ids = ids_of (players_of teams.bravo);
        map_name = first_map;
        map_pool = maps;
        region = region.region;
        quality = record {
          score = score;
          predicted_alpha_win = teams.predicted_alpha_win;
          rating_difference = teams.rating_difference;
          ping_spread = ping_spread;
          max_ping = region.max_ping;
          stack_imbalance = teams.stack_imbalance;
          oldest_wait_seconds = waited;
          rating_window = rating_window_of waited;
          ping_limit = ping_limit_of waited;
        };
      }

  -- The early returns on ratings, stacks and moderation bands.
  abbrev pub unfair : List (MatchmakingTicket W) → ℕ → Bool
  unfair tickets waited =
      let players = players_of tickets in
      let ratings = map (λ p. p.rating) players in
      d.lt (d.of_nat (rating_window_of waited)) (d.sub (max_of ratings) (min_of ratings))
      || (five_stacks tickets == 1 && ltb waited 180)
      || (mixed_bands players && ltb waited 300)

  abbrev pub maps_of : List (MatchmakingTicket W) → List String
  maps_of tickets =
      let common = intersection (map (λ t. t.maps) tickets) in keep (includes common) all_maps

  abbrev pub regions_of : List (MatchmakingTicket W) → List String
  regions_of tickets = intersection (map (λ t. t.regions) tickets)

  unfoldable pub deathmatch_plan : List (MatchmakingTicket W) → ℕ → RegionOption W → MatchPlan W
  unfolding players_of oldest_wait
  deathmatch_plan tickets now region =
      let players = players_of tickets in
      let waited = oldest_wait tickets now in
      let ping_spread = d.sub region.max_ping (min_of region.pings) in
      let uncertainty =
        d.div (sum (map (λ p. p.uncertainty) players)) (d.of_nat (length players)) in
      record {
        mode = deathmatch;
        tickets = tickets;
        alpha_player_ids = [];
        bravo_player_ids = [];
        map_name = deathmatch_map;
        map_pool = deathmatch_map ∷ [];
        region = region.region;
        quality = record {
          score =
              d.add (d.mul ping_spread (d.of_nat 2))
                (d.mul uncertainty (d.div (d.of_nat 2) (d.of_nat 100)));
          predicted_alpha_win = d.div (d.of_nat 1) (d.of_nat 2);
          rating_difference = d.of_nat 0;
          ping_spread = ping_spread;
          max_ping = region.max_ping;
          stack_imbalance = 0;
          oldest_wait_seconds = waited;
          rating_window = 0;
          ping_limit = ping_limit_of waited;
        };
      }

module _ {W : Type 0} ⦃d : Double W⦄ (locale_compare : String → String → Order) where
  unfoldable pub compare_regions : RegionOption W → RegionOption W → Order
  compare_regions a b =
      or_else (by_double a.max_ping b.max_ping)
        (or_else (by_double a.average_ping b.average_ping) (locale_compare a.region b.region))

  -- `regionOptions`.
  unfoldable pub region_options : List (Player W) → List String → ℕ → List (RegionOption W)
  unfolding option_of compare_regions sort
  region_options players regions limit =
      sort compare_regions (keep (is_near limit) (map (option_of players) regions))

  unfoldable pub evaluate_competitive : List (MatchmakingTicket W) → ℕ → Option (MatchPlan W)
  unfolding players_of oldest_wait intersection unique region_options choose_teams competitive_plan
  evaluate_competitive tickets now =
      let players = players_of tickets in
      let waited = oldest_wait tickets now in
      if any (λ t. not (t.mode == competitive)) tickets
      then none
      else if wrong_players 10 players
      then none
      else (elim (maps_of tickets) [
        | [] ↦ none
        | m ∷ maps ↦
            if unfair tickets waited
            then none
            else (elim (region_options players (regions_of tickets) (ping_limit_of waited)) [
              | [] ↦ none
              | region ∷ _ ↦ elim (choose_teams tickets) [
                | none ↦ none
                | some teams ↦ some (competitive_plan tickets now m (m ∷ maps) region teams)
              ]
            ])
      ])

  unfoldable pub evaluate_deathmatch : List (MatchmakingTicket W) → ℕ → Option (MatchPlan W)
  unfolding players_of oldest_wait intersection unique region_options deathmatch_plan
  evaluate_deathmatch tickets now =
      let players = players_of tickets in
      let waited = oldest_wait tickets now in
      if any (λ t. not (t.mode == deathmatch)) tickets
      then none
      else if wrong_players 14 players
      then none
      else if mixed_bands players && ltb waited 300
      then none
      else (elim (region_options players (regions_of tickets) (ping_limit_of waited)) [
        | [] ↦ none
        | region ∷ _ ↦ some (deathmatch_plan tickets now region)
      ])

  unfoldable pub evaluate : GameMode → List (MatchmakingTicket W) → ℕ → Option (MatchPlan W)
  unfolding evaluate_competitive evaluate_deathmatch
  evaluate deathmatch tickets now = evaluate_deathmatch tickets now
  evaluate competitive tickets now = evaluate_competitive tickets now
