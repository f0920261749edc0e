-- ===== src/Matchmaker/Proposals.antt =====
-- The matchmaker's plans (apps/api/src/matchmaker.ts) before `createReadyCheck` of
-- apps/api/src/redis-queue-service.ts.
use legacy_match_platform.Common.{
  ℕ, String, Bool, true, false, not, ◌&&◌, Option, none, some, List, [], map, length, keep,
  get_elem?, any, includes, All, ◌==◌, String_eq, ℕ_eq, eq→≡, beq_refl, some_inj, ◌≡◌, ◌⊎◌, inl,
  inr, Bool-cases, Option-cases, refl, ap, ◌∙◌, subst, ltb, Result, ok, err, is_ok, Result-cases,
}
use legacy_match_platform.Common.JsMap.{JsMap}
use legacy_match_platform.Common.Doubles.{Double}
use legacy_match_platform.Contracts.{
  GameMode_eq, competitive, deathmatch, mode_or, MatchAssignment, ReadyCheck,
}
use legacy_match_platform.RedisQueue.{Store, Ticket, VetoSeed}
use legacy_match_platform.RedisQueue.Ready.{
  Plan, prepare_ready, create_ready_script, unique, player_count, all_members, match_size,
}
use legacy_match_platform.Matchmaker.{
  Player, MatchPlan, Order, sort, players_of, by_captain, captain_for, choose_client_selected_map,
}
use legacy_match_platform.Matchmaker.Search.{find_match}
use legacy_match_platform.Matchmaker.Run.{
  Options, RunError, no_captain, plan_refused, Provider, reserved, prepared, provider_failed,
  no_provider, candidates, provide, prepare, veto_seed, proposal_of, propose, submit, with_map,
  conclude, run_once, list_searching_tickets,
}
use legacy_match_platform.Matchmaker.Fair.{Fair, Competitive, Suits}
use legacy_match_platform.Matchmaker.Oldest.{find_match-Fair}
use legacy_match_platform.Matchmaker.Lists.{
  All-unsorted, includes-unique, includes-first, List-cases, All-drawn,
}
use legacy_match_platform.Matchmaker.Sources.{
  IsRead, candidates-IsRead, player_count-source, modes-source, All-Split, nobody-kept, somebody-in,
}

-- Errors that only a faulty plan can lead to.
abbrev pub blames_plan : Result RunError (Option ReadyCheck) → Bool
blames_plan (err no_captain) = true
blames_plan (err (plan_refused e)) = true
blames_plan _ = false

module _ {W : Type 0} ⦃d : Double W⦄ (locale_compare : String → String → Order)
    (o : Options W) where
  captain_for-none : (ps : List (Player W)) → captain_for locale_compare ps ≡ none → All (λ _. ⊥) ps
  unfolding captain_for
  captain_for-none ps h = elim (List-cases (sort (by_captain locale_compare) ps)) [
    | inl e ↦ All-unsorted (λ _. ⊥) (by_captain locale_compare) ps (rw e tt)
    | inr (p, qs, e) ↦ absurd (let k = rw (e, captain_for) at h in cc)
  ]

  -- Both teams have a captain.
  abbrev Led : MatchPlan W → Type 0
  Led p =
      (a : String) × (b : String) × (captain_for locale_compare
          (keep (λ q. includes p.alpha_player_ids q.player_id) (players_of p.tickets))
        ≡ some a)
      × (captain_for locale_compare
            (keep (λ q. includes p.bravo_player_ids q.player_id) (players_of p.tickets))
          ≡ some b)

  -- What `createReadyCheck` asks of a plan.
  record Submittable (p : MatchPlan W) : Type 0 where
    pub counted : player_count (map (λ t. t.source) p.tickets) ≡ match_size p.mode
    pub alike :
        any (λ (t : Ticket). not (mode_or t.queue.mode == p.mode)) (map (λ t. t.source) p.tickets)
        ≡ false
    pub pooled : includes p.map_pool p.map_name ≡ true
    pub led : p.mode ≡ competitive → Led p

  captains_of : (now : ℕ) (p : MatchPlan W) → Competitive now p → Led p
  captains_of now p c =
      let alpha_in : Player W → Bool = λ q. includes p.alpha_player_ids q.player_id in
      let bravo_in : Player W → Bool = λ q. includes p.bravo_player_ids q.player_id in
      elim (Option-cases (captain_for locale_compare (keep alpha_in (players_of p.tickets)))) [
        | inl e ↦
            let out = nobody-kept alpha_in _ (captain_for-none _ e) in
            let k = (All-Split _ _ _ _ c.divides.split out).0 in
            absurd (
              somebody-in _ c.divides.alpha_five (
                subst
                  (λ ids. All (λ q. includes ids q.player_id ≡ false) (players_of c.teams.alpha))
                  c.alpha_ids k))
        | inr (a, e) ↦
            elim (Option-cases
              (captain_for locale_compare (keep bravo_in (players_of p.tickets)))) [
                | inl f ↦
                    let out = nobody-kept bravo_in _ (captain_for-none _ f) in
                    let k = (All-Split _ _ _ _ c.divides.split out).1 in
                    absurd (
                      somebody-in _ c.divides.bravo_five (
                        subst
                          (λ ids.
                            All (λ q. includes ids q.player_id ≡ false) (players_of c.teams.bravo))
                          c.bravo_ids k))
                | inr (b, f) ↦ (a, b, e, f)
              ]
      ]

  Fair-Submittable : (now : ℕ) (p : MatchPlan W) → Fair now p → All IsRead p.tickets → Submittable p
  Fair-Submittable now p f h = record {
    counted = player_count-source p.tickets h ∙ f.counted;
    alike = modes-source p.mode p.tickets h ∙ f.alike;
    pooled = f.pooled;
    led = λ e. captains_of now p (subst (Suits now p) e f.suits);
  }

  with_map-Submittable :
      (p q : MatchPlan W) → with_map locale_compare o p ≡ some q → Submittable p → Submittable q
  unfolding with_map choose_client_selected_map
  with_map-Submittable p q h s = elim (Bool-cases (p.mode == competitive && o.client_selection)) [
    | inr e ↦ subst Submittable (some_inj (rw (e, with_map) at h)) s
    | inl e ↦ elim (Option-cases (o.random_index (length p.map_pool))) [
      | inl f ↦ absurd (let k = rw (e, f, with_map, choose_client_selected_map) at h in cc)
      | inr (i, f) ↦ elim (Option-cases (get_elem? p.map_pool i)) [
        | inl g ↦ absurd (let k = rw (e, f, g, with_map, choose_client_selected_map) at h in cc)
        | inr (m, g) ↦
            subst Submittable (some_inj (rw (e, f, g, with_map, choose_client_selected_map) at h))
              (record {
                counted = s.counted;
                alike = s.alike;
                pooled = includes-first m [];
                led = s.led;
              })
      ]
    ]
  ]

  abbrev made : MatchPlan W → String → MatchAssignment → MatchAssignment
  made p match_id a = record a {
    match_id = match_id;
    mode = some p.mode;
    map_name = p.map_name;
    region = p.region;
  }

  abbrev seed : MatchPlan W → String → String → VetoSeed
  seed p a b = record {
    captains = record { of_alpha = a; of_bravo = b };
    map_pool = p.map_pool;
    turn_seconds = 30;
  }

  abbrev Prepares : ℕ → Plan → Type 0
  Prepares clock plan = is_ok (prepare_ready plan clock) ≡ true

  direct-Prepares :
      (clock : ℕ) (p : MatchPlan W) (match_id : String) (a : MatchAssignment)
      → Submittable p
      → Prepares clock (proposal_of locale_compare o p match_id (some a) none)
  unfolding prepare_ready
  direct-Prepares clock p match_id a s =
      let pooled = includes-unique p.map_name p.map_pool s.pooled in
      let sized = beq_refl (match_size p.mode) in
      elim (Bool-cases (p.mode == deathmatch)) [
        | inl e ↦ rw (pooled, s.alike, e, s.counted, sized, prepare_ready) refl
        | inr e ↦ rw (pooled, s.alike, e, s.counted, sized, prepare_ready) refl
      ]

  reserved-Prepares :
      (clock : ℕ) (p : MatchPlan W) (match_id : String) (v : VetoSeed)
      → p.mode ≡ competitive
      → Submittable p
      → Prepares clock (proposal_of locale_compare o p match_id none (some v))
  unfolding prepare_ready
  reserved-Prepares clock p match_id v e s =
      let pooled = includes-unique p.map_name p.map_pool s.pooled in
      let alike = rw e at s.alike in
      let counted : player_count (map (λ t. t.source) p.tickets) ≡ 10 =
        s.counted ∙ ap match_size e in
      rw (pooled, e, alike, counted, prepare_ready) refl

  submit-fine :
      (clock : ℕ) (plan : Plan) (s : Store)
      → Prepares clock plan
      → blames_plan (submit locale_compare o clock (ok plan) s).1.result ≡ false
  unfolding submit
  submit-fine clock plan s h = elim (Result-cases (prepare_ready plan clock)) [
    | inl (e, g) ↦ absurd (let k = rw g at h in cc)
    | inr (r, g) ↦ elim (Result-cases (create_ready_script r.0 r.1 s).1) [
      | inl (e, f) ↦ rw (g, f, submit) refl
      | inr (c, f) ↦ rw (g, f, submit) refl
    ]
  ]

  -- A provider's failure is no fault of the plan, and only competitive matches are reserved.
  abbrev Provides : MatchPlan W → Result RunError Provider → Type 0
  Provides p r =
      (r ≡ err provider_failed)
      ⊎ ((r ≡ err no_provider)
          ⊎ (((a : MatchAssignment) × (r ≡ ok (prepared a)))
              ⊎ ((p.mode ≡ competitive) × (r ≡ ok reserved))))

  prepare-Provides : (p : MatchPlan W) (match_id : String) → Provides p (prepare o p match_id)
  unfolding prepare
  prepare-Provides p match_id = elim (Option-cases o.prepare_match) [
    | inr (f, e) ↦ elim (Option-cases (f p match_id)) [
      | inl g ↦ inl (rw (e, g, prepare) refl)
      | inr (a, g) ↦ inr (inr (inl (a, rw (e, g, prepare) refl)))
    ]
    | inl e ↦ elim (Option-cases o.assignment) [
      | inl g ↦ inr (inl (rw (e, g, prepare) refl))
      | inr (a, g) ↦ inr (inr (inl (a, rw (e, g, prepare) refl)))
    ]
  ]

  provide-Provides : (p : MatchPlan W) (match_id : String) → Provides p (provide o p match_id)
  unfolding provide
  provide-Provides p match_id = elim (Option-cases o.reserve_match) [
    | inl e ↦ rw (e, provide) (prepare-Provides p match_id)
    | inr (f, e) ↦ elim (Bool-cases (p.mode == competitive)) [
      | inr g ↦ rw (e, g, provide) (prepare-Provides p match_id)
      | inl g ↦ elim (Bool-cases (f p match_id)) [
        | inl h ↦ inr (inr (inr (eq→≡ p.mode competitive g, rw (e, g, h, provide) refl)))
        | inr h ↦ inl (rw (e, g, h, provide) refl)
      ]
    ]
  ]

  conclude-fine :
      (clock : ℕ) (match_id : String) (p : MatchPlan W) (s : Store)
      → Submittable p
      → blames_plan (conclude locale_compare o clock match_id p s).1.result ≡ false
  unfolding conclude propose
  conclude-fine clock match_id p s h = elim (Option-cases (with_map locale_compare o p)) [
    | inl e ↦ rw (e, conclude) refl
    | inr (q, e) ↦
        let k = with_map-Submittable p q e h in
        elim (provide-Provides q match_id) [
          | inl f ↦ rw (e, f, conclude) refl
          | inr (inl f) ↦ rw (e, f, conclude) refl
          | inr (inr (inl (a, f))) ↦
              rw (e, f, conclude, propose)
                (submit-fine clock
                  (proposal_of locale_compare o q match_id (some (made q match_id a)) none) s
                  (direct-Prepares clock q match_id (made q match_id a) k))
          | inr (inr (inr (c, f))) ↦
              let (a, b, i, j) = k.led c in
              rw (e, f, i, j, conclude, propose, veto_seed)
                (submit-fine clock
                  (proposal_of locale_compare o q match_id none (some (seed q a b))) s
                  (reserved-Prepares clock q match_id (seed q a b) c k))
        ]
  ]

  -- For any store, profiles, options, clocks and order of listing: the matchmaker never runs into an
  -- error that a faulty plan would cause. Both teams of a match that is found have a captain, and the
  -- plan that is made of it passes every check of createReadyCheck. (What can fail is a provider,
  -- the selector of the map, or the script, on tickets that have changed.)
  pub run_once-fine :
      (z_range : JsMap ℕ → List String) (resolve : List String → JsMap (Player W)) (now clock : ℕ)
      (match_id : String) (s : Store)
      → blames_plan (run_once locale_compare o z_range resolve now clock match_id s).1.result
        ≡ false
  unfolding run_once
  run_once-fine z_range resolve now clock match_id s =
      let listed = list_searching_tickets z_range s in
      let tickets = keep (λ (t : Ticket). mode_or t.queue.mode == competitive) listed.1 in
      let read = candidates (resolve (unique (all_members tickets))) tickets in
      elim (Bool-cases (ltb (player_count tickets) 10)) [
        | inl e ↦ rw (e, run_once) refl
        | inr e ↦ elim (Option-cases (find_match locale_compare now 5000 read)) [
          | inl f ↦ rw (e, f, run_once) refl
          | inr (p, f) ↦
              let (fair, a) = find_match-Fair locale_compare now 5000 read p f in
              let known = All-drawn IsRead read p.tickets a.drawn (candidates-IsRead _ tickets) in
              rw (e, f, run_once)
                (conclude-fine clock match_id p listed.0 (Fair-Submittable now p fair known))
        ]
      ]
