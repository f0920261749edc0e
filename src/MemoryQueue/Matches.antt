-- ===== src/MemoryQueue/Matches.antt =====
-- From a search to a match in the queue of a single process.
use legacy_match_platform.Common.{
  ℕ, ◌+◌, ◌-◌, ◌*◌, ◌<◌, String, true, false, some, [], ◌∷◌, includes, length, length-append, take,
  ◌==◌, String_eq, ℕ_eq, leb, ◌≡◌, refl, ◌∙◌, ap, inl, inr, arith, Bool-cases, beq_refl, ok,
}
use legacy_match_platform.Common.JsMap.{get-set_self}
use legacy_match_platform.Contracts.{
  GameMode, competitive, deathmatch, searching, QueuePhase_eq, QueueState, ReadyCheck, mode_or,
}
use legacy_match_platform.MemoryQueue.{
  QueueService, runtime_for, accept, accept_once, start_match, ready_check_for, create_ready_check,
  prototype_server, in_match, save, publish, simulated, match_size,
}

simulated-size : (m : GameMode) → length (take (match_size m - 1) simulated) + 1 ≡ match_size m
simulated-size competitive = refl
simulated-size deathmatch = refl

-- The single player's acceptance fills the check.
accept_once-full :
    (q : QueueState) (match_id player : String) (at : ℕ)
    → includes (ready_check_for q match_id at).accepted_player_ids player ≡ false
    → length (accept_once player (ready_check_for q match_id at)).accepted_player_ids
      ≡ (accept_once player (ready_check_for q match_id at)).total_players
unfolding ready_check_for accept_once
accept_once-full q match_id player at h =
    rw (h, accept_once)
      (length-append (take (match_size (mode_or q.mode) - 1) simulated) (player ∷ [])
        ∙ simulated-size (mode_or q.mode))

prototype_server-accept_once :
    (match_id player : String) (c : ReadyCheck)
    → prototype_server match_id (accept_once player c) ≡ prototype_server match_id c
unfolding accept_once prototype_server
prototype_server-accept_once match_id player c =
    elim (Bool-cases (includes c.accepted_player_ids player)) [
      | inl e ↦ rw (e, accept_once) refl
      | inr e ↦ rw (e, accept_once) refl
    ]

module _ (player match_id : String) (now : ℕ) (s : QueueService) where
  -- The ready check that the search of `player` leads to at `now`.
  abbrev pub check : ReadyCheck
  check =
      ready_check_for (runtime_for player s).queue match_id
        (now + s.options.ready_check_seconds * 1000)

  created :
      (runtime_for player s).queue.phase ≡ searching
      → (runtime_for player (create_ready_check player match_id now s)).ready_check ≡ some check
  unfolding create_ready_check save publish
  created h = rw (h, create_ready_check) (rw (get-set_self player _ s.runtimes, runtime_for) refl)

-- A search leads to a match: once its timer has made the ready check, its player's acceptance, in
-- time and under no simulated player's name, is answered with the server.
pub accept-create_ready_check :
    (player match_id : String) (now later : ℕ) (s : QueueService)
    → (runtime_for player s).queue.phase ≡ searching
    → includes (check player match_id now s).accepted_player_ids player ≡ false
    → later < now + s.options.ready_check_seconds * 1000
    → (accept player match_id later (create_ready_check player match_id now s)).1
      ≡ ok (in_match (prototype_server match_id (check player match_id now s)))
unfolding accept start_match
accept-create_ready_check player match_id now later s h fresh early =
    let c = check player match_id now s in
    let mine : (c.match_id == match_id) ≡ true = unfold ready_check_for in beq_refl match_id in
    let time : leb c.expires_at later ≡ false = unfold ready_check_for in ground (arith, early) in
    let size =
      accept_once-full (runtime_for player s).queue match_id player
        (now + s.options.ready_check_seconds * 1000) fresh in
    let whole : (length (accept_once player c).accepted_player_ids
          == (accept_once player c).total_players)
        ≡ true =
      rw size (beq_refl (accept_once player c).total_players) in
    rw (created player match_id now s h, mine, time, whole, accept)
      (ap (λ a. ok (in_match a)) (prototype_server-accept_once match_id player c))
