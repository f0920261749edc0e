-- ===== src/Matchmaker/Fair.antt =====
-- What the evaluation of chosen tickets in apps/api/src/matchmaker.ts makes sure of.
use legacy_match_platform.Common.{
  ℕ, String, true, false, not, ◌&&◌, Option, none, some, List, [], ◌∷◌, map, length, any, every,
  min, ◌≤◌, ◌+◌, ◌*◌, ◌/◌, includes, distinct, All, ◌==◌, ℕ_eq, String_eq, some_inj, ◌≡◌, inl, inr,
  Bool-cases, Option-cases, refl, sym, ◌∙◌, subst, arith, ltb,
}
use legacy_match_platform.Common.Doubles.{Double}
use legacy_match_platform.Contracts.{GameMode, GameMode_eq, competitive, deathmatch, deathmatch_map}
use legacy_match_platform.Contracts.{map_pool as all_maps}
use legacy_match_platform.RedisQueue.Ready.{unique, match_size}
use legacy_match_platform.Matchmaker.{
  MatchmakingTicket, MatchPlan, Player, Order, players_of, ids_of, intersection, oldest_wait,
}
use legacy_match_platform.Matchmaker.Teams.{Teams, choose_teams}
use legacy_match_platform.Matchmaker.Evaluate.{
  RegionOption, option_of, is_near, region_options, compare_regions, ping_limit_of, wrong_players,
  unfair, mixed_bands, five_stacks, max_of, min_of, maps_of, regions_of, competitive_plan,
  deathmatch_plan, evaluate_competitive, evaluate_deathmatch, evaluate,
}
use legacy_match_platform.Matchmaker.Splits.{Divides, choose_teams-Divides}
use legacy_match_platform.Matchmaker.Lists.{
  All-sort, All-keep_passing, All-includes, every-intersection, distinct-unique, every-keep,
  includes-first, List-cases,
}

some-ne-none : {A : Type 0} {a : A} {B : Type 0} → Path (Option A) none (some a) → B
some-ne-none e = absurd cc

module _ {W : Type 0} ⦃d : Double W⦄ where
  -- The worst ping of a region is finite and within the limit.
  abbrev pub Within : ℕ → RegionOption W → Type 0
  Within limit o = (d.is_finite o.max_ping ≡ true) × (d.le o.max_ping (d.of_nat limit) ≡ true)

  -- What a competitive match has beside what any match has.
  pub record Competitive (now : ℕ) (p : MatchPlan W) : Type 0 where
    pub teams : Teams W
    pub divides : Divides p.tickets teams
    pub alpha_ids : p.alpha_player_ids ≡ ids_of (players_of teams.alpha)
    pub bravo_ids : p.bravo_player_ids ≡ ids_of (players_of teams.bravo)
    pub map_shared : every (λ xs. includes xs p.map_name) (map (λ t. t.maps) p.tickets) ≡ true
    pub rated :
        d.lt (d.of_nat (min 400 (100 + oldest_wait p.tickets now / 60 * 50))) (
          d.sub
            (max_of (map (λ q. q.rating) (players_of p.tickets)))
            (min_of (map (λ q. q.rating) (players_of p.tickets))))
        ≡ false
    pub stacked : five_stacks p.tickets ≡ 1 → 180 ≤ oldest_wait p.tickets now

  abbrev pub Suits : ℕ → MatchPlan W → GameMode → Type 0
  Suits now p competitive = Competitive now p
  Suits now p deathmatch = p.map_name ≡ deathmatch_map

  pub record Fair (now : ℕ) (p : MatchPlan W) : Type 0 where
    pub counted : length (players_of p.tickets) ≡ match_size p.mode
    pub apart : distinct (ids_of (players_of p.tickets)) ≡ true
    pub alike : any (λ t. not (t.mode == p.mode)) p.tickets ≡ false
    pub region_shared : every (λ xs. includes xs p.region) (map (λ t. t.regions) p.tickets) ≡ true
    pub near :
        Within
          (min 110 (70 + oldest_wait p.tickets now / 60 * 5))
          (option_of (players_of p.tickets) p.region)
    pub banded : mixed_bands (players_of p.tickets) ≡ true → 300 ≤ oldest_wait p.tickets now
    pub pooled : includes p.map_pool p.map_name ≡ true
    pub suits : Suits now p p.mode

  -- A region that the tickets share and whose pings are within the limit.
  abbrev Offered : List (MatchmakingTicket W) → ℕ → RegionOption W → Type 0
  Offered tickets limit o =
      ((o ≡ option_of (players_of tickets) o.region)
        × (every (λ xs. includes xs o.region) (map (λ t. t.regions) tickets) ≡ true))
      × (is_near limit o ≡ true)

  All-option_of :
      (players : List (Player W)) (P : String → Type 0) (regions : List String)
      → All P regions
      → All (λ o. (o ≡ option_of players o.region) × P o.region) (map (option_of players) regions)
  unfolding option_of
  All-option_of players P [] h = tt
  All-option_of players P (r ∷ rs) h = ((refl, h.0), All-option_of players P rs h.1)

  region_options-Offered :
      (locale_compare : String → String → Order) (tickets : List (MatchmakingTicket W)) (limit : ℕ)
      → All
          (Offered tickets limit)
          (region_options locale_compare (players_of tickets) (regions_of tickets) limit)
  unfolding region_options
  region_options-Offered locale_compare tickets limit =
      let shared : String → Type 0 = λ r.
        every (λ xs. includes xs r) (map (λ (t : MatchmakingTicket W). t.regions) tickets) ≡ true in
      All-sort (Offered tickets limit) (compare_regions locale_compare) _ (
        All-keep_passing _ (is_near limit) _ (
          All-option_of (players_of tickets) shared (regions_of tickets) (
            All-includes shared (regions_of tickets)
              (λ v e. every-intersection v (map (λ t. t.regions) tickets) e))))

  length-ids_of : (ps : List (Player W)) → length (ids_of ps) ≡ length ps
  length-ids_of [] = refl
  length-ids_of (p ∷ ps) = omega (arith, length-ids_of ps)

  right_players :
      (n : ℕ) (ps : List (Player W))
      → wrong_players n ps ≡ false
      → (length ps ≡ n) × (distinct (ids_of ps) ≡ true)
  right_players n ps h =
      let counted : length ps ≡ n = ground arith in
      let set : length (unique (ids_of ps)) ≡ n = ground arith in
      (counted, distinct-unique (ids_of ps) (set ∙ sym counted ∙ sym (length-ids_of ps)))

  module _ (locale_compare : String → String → Order) (tickets : List (MatchmakingTicket W))
      (now : ℕ) (p : MatchPlan W) where
    abbrev Result : GameMode → MatchPlan W → Type 0
    Result mode q = Fair now q × (q.tickets ≡ tickets) × (q.mode ≡ mode)

    abbrev limit : ℕ
    limit = ping_limit_of (oldest_wait tickets now)

    abbrev options : List (RegionOption W)
    options = region_options locale_compare (players_of tickets) (regions_of tickets) limit

    offered :
        (o : RegionOption W) (os : List (RegionOption W))
        → options ≡ o ∷ os
        → Offered tickets limit o
    offered o os e =
        (subst (All (Offered tickets limit)) e
          (region_options-Offered locale_compare tickets limit)).0

    near_of :
        (o : RegionOption W) (os : List (RegionOption W))
        → options ≡ o ∷ os
        → Within limit (option_of (players_of tickets) o.region)
    near_of o os e =
        let f = offered o os e in subst (Within limit) f.0.0 (ground arith, ground arith)

    evaluate_deathmatch-Fair :
        evaluate_deathmatch locale_compare tickets now ≡ some p → Result deathmatch p
    unfolding evaluate_deathmatch deathmatch_plan
    evaluate_deathmatch-Fair h =
        elim (Bool-cases (any (λ (t : MatchmakingTicket W). not (t.mode == deathmatch)) tickets)) [
          | inl e ↦ some-ne-none (rw (e, evaluate_deathmatch) at h)
          | inr a ↦ elim (Bool-cases (wrong_players 14 (players_of tickets))) [
            | inl e ↦ some-ne-none (rw (a, e, evaluate_deathmatch) at h)
            | inr w ↦
                elim (Bool-cases
                  (mixed_bands (players_of tickets) && ltb (oldest_wait tickets now) 300)) [
                    | inl e ↦ some-ne-none (rw (a, w, e, evaluate_deathmatch) at h)
                    | inr b ↦ elim (List-cases options) [
                      | inl e ↦ some-ne-none (rw (a, w, b, e, evaluate_deathmatch) at h)
                      | inr (o, os, e) ↦
                          let made : deathmatch_plan tickets now o ≡ p =
                            some_inj (rw (a, w, b, e, evaluate_deathmatch) at h) in
                          let (counted, apart) = right_players 14 (players_of tickets) w in
                          subst (Result deathmatch) made (
                            record {
                              counted = counted;
                              apart = apart;
                              alike = a;
                              region_shared = (offered o os e).0.1;
                              near = near_of o os e;
                              banded = λ m. ground arith;
                              pooled = includes-first deathmatch_map [];
                              suits = refl;
                            },
                            refl,
                            refl,
                          )
                    ]
                  ]
          ]
        ]

    -- The three early returns, taken apart.
    fair_parts :
        unfair tickets (oldest_wait tickets now) ≡ false
        → (d.lt (d.of_nat (min 400 (100 + oldest_wait tickets now / 60 * 50))) (
              d.sub
                (max_of (map (λ (q : Player W). q.rating) (players_of tickets)))
                (min_of (map (λ (q : Player W). q.rating) (players_of tickets))))
            ≡ false)
          × ((five_stacks tickets ≡ 1 → 180 ≤ oldest_wait tickets now)
              × (mixed_bands (players_of tickets) ≡ true → 300 ≤ oldest_wait tickets now))
    fair_parts h = (ground arith, (λ e. ground arith, λ e. ground arith))

    maps-shared :
        (m : String) (ms : List String)
        → maps_of tickets ≡ m ∷ ms
        → every (λ xs. includes xs m) (map (λ (t : MatchmakingTicket W). t.maps) tickets) ≡ true
    maps-shared m ms e =
        let lists = map (λ (t : MatchmakingTicket W). t.maps) tickets in
        let (_, k) =
          every-keep m (includes (intersection lists)) all_maps
            (subst (λ xs. includes xs m ≡ true) (sym e) (includes-first m ms)) in
        every-intersection m lists k

    evaluate_competitive-Fair :
        evaluate_competitive locale_compare tickets now ≡ some p → Result competitive p
    unfolding evaluate_competitive competitive_plan
    evaluate_competitive-Fair h =
        elim (Bool-cases (any (λ (t : MatchmakingTicket W). not (t.mode == competitive)) tickets)) [
          | inl e ↦ some-ne-none (rw (e, evaluate_competitive) at h)
          | inr a ↦ elim (Bool-cases (wrong_players 10 (players_of tickets))) [
            | inl e ↦ some-ne-none (rw (a, e, evaluate_competitive) at h)
            | inr w ↦ elim (List-cases (maps_of tickets)) [
              | inl e ↦ some-ne-none (rw (a, w, e, evaluate_competitive) at h)
              | inr (m, ms, g) ↦ elim (Bool-cases (unfair tickets (oldest_wait tickets now))) [
                | inl e ↦ some-ne-none (rw (a, w, g, e, evaluate_competitive) at h)
                | inr u ↦ elim (List-cases options) [
                  | inl e ↦ some-ne-none (rw (a, w, g, u, e, evaluate_competitive) at h)
                  | inr (o, os, e) ↦ elim (Option-cases (choose_teams tickets)) [
                    | inl n ↦ some-ne-none (rw (a, w, g, u, e, n, evaluate_competitive) at h)
                    | inr (c, n) ↦
                        let made : competitive_plan tickets now m (m ∷ ms) o c ≡ p =
                          some_inj (rw (a, w, g, u, e, n, evaluate_competitive) at h) in
                        let (counted, apart) = right_players 10 (players_of tickets) w in
                        subst (Result competitive) made (
                          record {
                            counted = counted;
                            apart = apart;
                            alike = a;
                            region_shared = (offered o os e).0.1;
                            near = near_of o os e;
                            banded = (fair_parts u).1.1;
                            pooled = includes-first m ms;
                            suits = record {
                              teams = c;
                              divides = choose_teams-Divides tickets c n;
                              alpha_ids = refl;
                              bravo_ids = refl;
                              map_shared = maps-shared m ms g;
                              rated = (fair_parts u).0;
                              stacked = (fair_parts u).1.0;
                            };
                          },
                          refl,
                          refl,
                        )
                  ]
                ]
              ]
            ]
          ]
        ]

    pub evaluate-Fair :
        (mode : GameMode)
        → evaluate locale_compare mode tickets now ≡ some p
        → Fair now p × (p.tickets ≡ tickets) × (p.mode ≡ mode)
    unfolding evaluate
    evaluate-Fair competitive h = evaluate_competitive-Fair h
    evaluate-Fair deathmatch h = evaluate_deathmatch-Fair h
