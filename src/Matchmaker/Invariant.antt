-- ===== src/Matchmaker/Invariant.antt =====
-- The matchmaker's run (apps/api/src/matchmaker.ts) and the invariant of the queue.
use legacy_match_platform.Common.{
  ℕ, String, none, some, List, [], ◌∷◌, keep, All, ◌==◌, String_eq, eq_iff, ltb, ◌≡◌, inl, inr,
  Bool-cases, Option-cases, arith, Result, ok, err, Result-cases,
}
use legacy_match_platform.Common.JsMap
use legacy_match_platform.Common.JsMap.{JsMap, get-delete}
use legacy_match_platform.Common.Doubles.{Double}
use legacy_match_platform.Contracts.{GameMode_eq, competitive, mode_or, searching, QueuePhase_eq}
use legacy_match_platform.RedisQueue.{Store, Ticket}
use legacy_match_platform.RedisQueue.Ready.{
  Plan, prepare_ready, create_ready_script, unique, player_count, all_members,
}
use legacy_match_platform.RedisQueue.Owned.Sound.{Sound}
use legacy_match_platform.RedisQueue.Plans.{create_ready_script-prepared}
use legacy_match_platform.Matchmaker.{Player, MatchPlan, Order}
use legacy_match_platform.Matchmaker.Search.{find_match}
use legacy_match_platform.Matchmaker.Run.{
  Options, RunError, read_tickets, drop_stale, list_searching_tickets, candidates, with_map,
  provide, propose, submit, conclude, run_once,
}

-- What is dropped from the sorted set has no ticket.
read_tickets-stale :
    (ids : List String) (tickets : JsMap Ticket)
    → All (λ id. JsMap.get id tickets ≡ none) (read_tickets ids tickets).1
unfolding read_tickets
read_tickets-stale [] tickets = tt
read_tickets-stale (id ∷ ids) tickets = elim (Option-cases (JsMap.get id tickets)) [
  | inl e ↦ rw (e, read_tickets) (e, read_tickets-stale ids tickets)
  | inr (t, e) ↦ elim (Bool-cases (t.queue.phase == searching)) [
    | inl f ↦ rw (e, f, read_tickets) (read_tickets-stale ids tickets)
    | inr f ↦ rw (e, f, read_tickets) (read_tickets-stale ids tickets)
  ]
]

delete-Sound :
    (id : String) (s : Store)
    → JsMap.get id s.tickets ≡ none
    → Sound s
    → Sound (record s { searching = JsMap.delete id s.searching })
delete-Sound id s gone v = record {
  owned = record {
    filed = v.owned.filed;
    held = v.owned.held;
    mine = v.owned.mine;
    fenced = v.owned.fenced;
    tokens = v.owned.tokens;
    listed = λ k score g.
        let there : JsMap.get k s.searching ≡ some score =
          ground (arith, get-delete id k s.searching) in
        v.owned.listed k score there;
    queued = λ k t h p.
        let (score, q) = v.owned.queued k t h p in
        (score, ground (arith, get-delete id k s.searching, eq_iff id k));
  };
  settled = v.settled;
}

drop_stale-Sound :
    (ids : List String) (s : Store)
    → All (λ id. JsMap.get id s.tickets ≡ none) ids
    → Sound s
    → Sound (record s { searching = drop_stale ids s.searching })
unfolding drop_stale
drop_stale-Sound [] s h v = record { owned = v.owned; settled = v.settled }
drop_stale-Sound (id ∷ ids) s h v =
    let s' : Store = record s { searching = JsMap.delete id s.searching } in
    let k = drop_stale-Sound ids s' h.1 (delete-Sound id s h.0 v) in
    record { owned = k.owned; settled = k.settled }

list_searching_tickets-Sound :
    (z_range : JsMap ℕ → List String) (s : Store)
    → Sound s
    → Sound (list_searching_tickets z_range s).0
unfolding list_searching_tickets
list_searching_tickets-Sound z_range s v =
    let k = drop_stale-Sound _ s (read_tickets-stale (z_range s.searching) s.tickets) v in
    record { owned = k.owned; settled = k.settled }

module _ {W : Type 0} ⦃d : Double W⦄ (locale_compare : String → String → Order)
    (o : Options W) where
  submit-Sound :
      (clock : ℕ) (p : Result RunError Plan) (s : Store)
      → Sound s
      → Sound (submit locale_compare o clock p s).0
  unfolding submit
  submit-Sound clock (err e) s v = v
  submit-Sound clock (ok p) s v = elim (Result-cases (prepare_ready p clock)) [
    | inl (e, g) ↦ rw (g, submit) v
    | inr (r, g) ↦
        let k = create_ready_script-prepared p clock r.0 r.1 s g v in
        elim (Result-cases (create_ready_script r.0 r.1 s).1) [
          | inl (e, f) ↦ rw (g, f, submit) k
          | inr (c, f) ↦ rw (g, f, submit) k
        ]
  ]

  conclude-Sound :
      (clock : ℕ) (match_id : String) (p : MatchPlan W) (s : Store)
      → Sound s
      → Sound (conclude locale_compare o clock match_id p s).0
  unfolding conclude
  conclude-Sound clock match_id p s v = elim (Option-cases (with_map locale_compare o p)) [
    | inl e ↦ rw (e, conclude) v
    | inr (q, e) ↦ elim (Result-cases (provide o q match_id)) [
      | inl (x, f) ↦ rw (e, f, conclude) v
      | inr (x, f) ↦
          rw (e, f, conclude) (submit-Sound clock (propose locale_compare o q match_id x) s v)
    ]
  ]

  -- A run of the matchmaker, whatever its profiles, options, clocks and order of listing, keeps the
  -- invariant of the queue's store.
  pub run_once-Sound :
      (z_range : JsMap ℕ → List String) (resolve : List String → JsMap (Player W)) (now clock : ℕ)
      (match_id : String) (s : Store)
      → Sound s
      → Sound (run_once locale_compare o z_range resolve now clock match_id s).0
  unfolding run_once
  run_once-Sound z_range resolve now clock match_id s v =
      let listed = list_searching_tickets z_range s in
      let v' = list_searching_tickets-Sound z_range s v in
      let tickets = keep (λ (t : Ticket). mode_or t.queue.mode == competitive) listed.1 in
      let read = candidates (resolve (unique (all_members tickets))) tickets in
      elim (Bool-cases (ltb (player_count tickets) 10)) [
        | inl e ↦ rw (e, run_once) v'
        | inr e ↦ elim (Option-cases (find_match locale_compare now 5000 read)) [
          | inl f ↦ rw (e, f, run_once) v'
          | inr (p, f) ↦ rw (e, f, run_once) (conclude-Sound clock match_id p listed.0 v')
        ]
      ]
