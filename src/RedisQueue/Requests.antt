-- ===== src/RedisQueue/Requests.antt =====
-- The methods of `RedisQueueService` that run scripts, and the queue's invariant.
use legacy_match_platform.Common.{
  ℕ, ◌+◌, String, Bool, true, false, Option, none, some, List, [], ◌∷◌, ◌≡◌, refl, inl, inr,
  Bool-cases, Option-cases,
}
use legacy_match_platform.RedisQueue.{Store, Ticket, decline, expiry}
use legacy_match_platform.Contracts.{JoinQueueRequest}
use legacy_match_platform.Common.JsMap
use legacy_match_platform.RedisQueue.Join.{
  held_ticket, VerifiedParty, join_script, join_with_party, new_ticket, validate_selections,
  verified_party_ok,
}
use legacy_match_platform.RedisQueue.Owned.History.{Unlisted, join_script-Sound}
use legacy_match_platform.RedisQueue.Owned.Writes.{Owned-unpoint}
use legacy_match_platform.RedisQueue.Leave.{anything, attempt, session}
use legacy_match_platform.RedisQueue.Accept.{
  accept_script, Accepted, missing, expired, waiting, vetoing, in_match,
}
use legacy_match_platform.RedisQueue.Veto.{manual, system, ban_script}
use legacy_match_platform.RedisQueue.Calls.{
  cancel_deathmatch_ticket, release_search, is_expired, match_of, get_queue_runtime, drop_pointer,
  leave_with, leave, accept, sweep_expired_ready_checks, ban_map, sweep_expired_map_vetos, is_gone,
}
use legacy_match_platform.RedisQueue.Owned.Entering.{IsFresh, held_ticket-none}
use legacy_match_platform.RedisQueue.Owned.Sound.{Sound}
use legacy_match_platform.RedisQueue.Owned.Ending.{leave_script-Sound, cancel_script-Sound}
use legacy_match_platform.RedisQueue.Owned.Accepting.{accept_script-Sound}
use legacy_match_platform.RedisQueue.Owned.Playing.{ban_script-Sound}

-- A method with its arguments.
pub data Request : Type 0 where
  joins :
      JoinQueueRequest → Option VerifiedParty → (ticket_id : String) → (now joined_at : ℕ) → Request
  cancels_deathmatch : Ticket → Request
  releases : (player ticket_id : String) → Request
  looks_up leaves : String → (now later : ℕ) → Request
  accepts : (player match_id : String) → (now later : ℕ) → Request
  bans : (player match_id requested : String) → ℕ → Request
  sweeps_checks : List (String × ℕ) → Request
  sweeps_vetoes : List String → ℕ → Request

module _ (is_lobby : String → Bool) (meanwhile : ℕ → Store → Store) where
  unfoldable pub serve : Request → Store → Store
  unfolding join_with_party cancel_deathmatch_ticket release_search get_queue_runtime leave accept
      ban_map sweep_expired_ready_checks sweep_expired_map_vetos
  serve (joins r verified id now joined_at) s =
      (join_with_party is_lobby r verified id now joined_at s).0
  serve (cancels_deathmatch t) s = (cancel_deathmatch_ticket t s).0
  serve (releases player ticket_id) s = (release_search player ticket_id s).0
  serve (looks_up player now later) s = (get_queue_runtime is_lobby meanwhile player now later s).0
  serve (leaves player now later) s = (leave is_lobby meanwhile player now later s).0
  serve (accepts player match_id now later) s =
      (accept is_lobby meanwhile player match_id now later s).0
  serve (bans player match_id requested now) s = (ban_map player match_id requested now s).0
  serve (sweeps_checks ids) s = (sweep_expired_ready_checks is_lobby ids s).0
  serve (sweeps_vetoes ids now) s = (sweep_expired_map_vetos ids now s).0

  -- When `getQueueRuntime` comes to delete the pointer that it read, the player holds no ticket: in
  -- particular, none that was made since.
  abbrev pub unraced : String → Store → Bool
  unraced player s = elim (JsMap.get player s.pointers) [
    | none ↦ true
    | some id ↦ elim (JsMap.get id (meanwhile 0 s).tickets) [
      | some t ↦ true
      | none ↦ elim (held_ticket (meanwhile 1 (meanwhile 0 s)) player) [
        | none ↦ true
        | some t ↦ false
      ]
    ]
  ]

  -- What a method is called with: a drawn identifier is fresh, and a pointer is not deleted under a
  -- new ticket.
  abbrev pub Granted : Request → Store → Type 0
  Granted (joins r verified id now joined_at) s = IsFresh s id × Unlisted s id
  Granted (looks_up player now later) s = unraced player s ≡ true
  Granted (leaves player now later) s = unraced player s ≡ true
  Granted _ s = Unit

join_with_party-Sound :
    (is_lobby : String → Bool) (r : JoinQueueRequest) (verified : Option VerifiedParty)
    (id : String) (now joined_at : ℕ) (s : Store)
    → IsFresh s id
    → Unlisted s id
    → Sound s
    → Sound (join_with_party is_lobby r verified id now joined_at s).0
unfolding join_with_party new_ticket
join_with_party-Sound is_lobby r verified id now joined_at s fresh unlisted v =
    let t = new_ticket id joined_at r in
    let run : Sound (join_script t verified now joined_at r.player_id s).0 =
      join_script-Sound t verified now joined_at r.player_id s v (fresh, unlisted, refl) in
    elim (Option-cases verified) [
      | inl e ↦ elim (Option-cases (validate_selections r)) [
        | inr (x, f) ↦ rw (e, f, join_with_party) v
        | inl f ↦ rw (e, f, join_with_party) run
      ]
      | inr (p, e) ↦ elim (Bool-cases (verified_party_ok is_lobby r p)) [
        | inr b ↦ rw (e, b, join_with_party) v
        | inl b ↦ elim (Option-cases (validate_selections r)) [
          | inr (x, f) ↦ rw (e, b, f, join_with_party) v
          | inl f ↦ rw (e, b, f, join_with_party) run
        ]
      ]
    ]

drop_pointer-Sound :
    (m : String) (s : Store) → held_ticket s m ≡ none → Sound s → Sound (drop_pointer m s)
unfolding drop_pointer
drop_pointer-Sound m s h v = record {
  owned = Owned-unpoint v.owned m (λ id. held_ticket-none s m id h);
  settled = v.settled;
}

module _ (is_lobby : String → Bool) (meanwhile : ℕ → Store → Store)
    (keeps : (n : ℕ) (s : Store) → Sound s → Sound (meanwhile n s)) where
  get_queue_runtime-Sound :
      (player : String) (now later : ℕ) (s : Store)
      → unraced is_lobby meanwhile player s ≡ true
      → Sound s
      → Sound (get_queue_runtime is_lobby meanwhile player now later s).0
  unfolding get_queue_runtime
  get_queue_runtime-Sound player now later s calm v =
      let v1 = keeps 0 s v in
      let v2 = keeps 1 (meanwhile 0 s) v1 in
      elim (Option-cases (JsMap.get player s.pointers)) [
        | inl e ↦ rw (e, get_queue_runtime) v
        | inr (id, e) ↦ elim (Option-cases (JsMap.get id (meanwhile 0 s).tickets)) [
          | inl f ↦ elim (Option-cases (held_ticket (meanwhile 1 (meanwhile 0 s)) player)) [
            | inr (t, g) ↦ absurd (let k = rw (e, f, g, unraced) at calm in cc)
            | inl g ↦
                rw (e, f, get_queue_runtime)
                  (drop_pointer-Sound player (meanwhile 1 (meanwhile 0 s)) g v2)
          ]
          | inr (t, f) ↦ elim (Bool-cases (is_expired t.ready_check now)) [
            | inl x ↦
                rw (e, f, x, get_queue_runtime)
                  (cancel_script-Sound is_lobby (match_of t.ready_check) player later expiry
                    (meanwhile 1 (meanwhile 0 s)) v2)
            | inr x ↦ rw (e, f, x, get_queue_runtime) v1
          ]
        ]
      ]

  leave_with-Sound :
      (player : String) (later : ℕ) (runtime : Option Ticket) (s : Store)
      → Sound s
      → Sound (leave_with is_lobby meanwhile player later runtime s).0
  unfolding leave_with
  leave_with-Sound player later none s v = leave_script-Sound player anything s v
  leave_with-Sound player later (some t) s v = elim (Option-cases t.ready_check) [
    | inr (c, e) ↦
        rw (e, leave_with) (cancel_script-Sound is_lobby c.match_id player later decline s v)
    | inl e ↦ elim (Option-cases t.map_veto) [
      | inr (x, f) ↦ rw (e, f, leave_with) v
      | inl f ↦ rw (e, f, leave_with) (leave_script-Sound player anything s v)
    ]
  ]

  accept-Sound :
      (player match_id : String) (now later : ℕ) (s : Store)
      → Sound s
      → Sound (accept is_lobby meanwhile player match_id now later s).0
  unfolding accept
  accept-Sound player match_id now later s v =
      answered (accept_script player match_id now (now + 30000) s).1 refl
    where
      answered :
          (a : Accepted)
          → (accept_script player match_id now (now + 30000) s).1 ≡ a
          → Sound (accept is_lobby meanwhile player match_id now later s).0
      answered missing e =
          rw (e, accept) (accept_script-Sound player match_id now (now + 30000) s v)
      answered expired e =
          rw (e, accept)
            (cancel_script-Sound is_lobby match_id player later expiry _
              (keeps 0 _ (accept_script-Sound player match_id now (now + 30000) s v)))
      answered (waiting c) e =
          rw (e, accept) (accept_script-Sound player match_id now (now + 30000) s v)
      answered (vetoing c) e =
          rw (e, accept) (accept_script-Sound player match_id now (now + 30000) s v)
      answered (in_match c) e =
          rw (e, accept) (accept_script-Sound player match_id now (now + 30000) s v)

module _ (is_lobby : String → Bool) where
  sweep_checks-Sound :
      (ids : List (String × ℕ)) (s : Store)
      → Sound s
      → Sound (sweep_expired_ready_checks is_lobby ids s).0
  unfolding sweep_expired_ready_checks
  sweep_checks-Sound [] s v = v
  sweep_checks-Sound ((id, now) ∷ ids) s v =
      sweep_checks-Sound ids _ (cancel_script-Sound is_lobby id "system" now expiry s v)

sweep_vetoes-Sound :
    (ids : List String) (now : ℕ) (s : Store)
    → Sound s
    → Sound (sweep_expired_map_vetos ids now s).0
unfolding sweep_expired_map_vetos
sweep_vetoes-Sound [] now s v = v
sweep_vetoes-Sound (id ∷ ids) now s v =
    let w = ban_script-Sound id "system" "" system now (now + 30000) s v in
    elim (Bool-cases (is_gone (ban_script id "system" "" system now (now + 30000) s).1)) [
      | inl e ↦
          rw (e, sweep_expired_map_vetos)
            (sweep_vetoes-Sound ids now _ (record { owned = w.owned; settled = w.settled }))
      | inr e ↦ rw (e, sweep_expired_map_vetos) (sweep_vetoes-Sound ids now _ w)
    ]

-- Joining, alone or with a verified party, and every method that runs scripts for a player or for the
-- sweeper keep the queue's invariant, whatever they are asked and whichever scripts they go on to
-- run. What other clients do between the commands that `getQueueRuntime`, `leave` and `accept` await
-- must keep it too; a new ticket's identifier is fresh, and where `getQueueRuntime` deletes a
-- pointer, the player holds no ticket at that moment.
pub serve-Sound :
    (is_lobby : String → Bool) (meanwhile : ℕ → Store → Store) (q : Request) (s : Store)
    → ((n : ℕ) (s : Store) → Sound s → Sound (meanwhile n s))
    → Sound s
    → Granted is_lobby meanwhile q s
    → Sound (serve is_lobby meanwhile q s)
unfolding serve cancel_deathmatch_ticket release_search leave ban_map
serve-Sound is_lobby meanwhile (joins r verified id now joined_at) s keeps v g =
    join_with_party-Sound is_lobby r verified id now joined_at s g.0 g.1 v
serve-Sound is_lobby meanwhile (cancels_deathmatch t) s keeps v g =
    leave_script-Sound t.leader_player_id (attempt t.id t.fencing_token) s v
serve-Sound is_lobby meanwhile (releases player ticket_id) s keeps v g =
    leave_script-Sound player (session ticket_id) s v
serve-Sound is_lobby meanwhile (looks_up player now later) s keeps v g =
    get_queue_runtime-Sound is_lobby meanwhile keeps player now later s g v
serve-Sound is_lobby meanwhile (leaves player now later) s keeps v g =
    leave_with-Sound is_lobby meanwhile keeps player later _ _
      (keeps 2 _ (get_queue_runtime-Sound is_lobby meanwhile keeps player now later s g v))
serve-Sound is_lobby meanwhile (accepts player match_id now later) s keeps v g =
    accept-Sound is_lobby meanwhile keeps player match_id now later s v
serve-Sound is_lobby meanwhile (bans player match_id requested now) s keeps v g =
    ban_script-Sound match_id player requested manual now (now + 30000) s v
serve-Sound is_lobby meanwhile (sweeps_checks ids) s keeps v g = sweep_checks-Sound is_lobby ids s v
serve-Sound is_lobby meanwhile (sweeps_vetoes ids now) s keeps v g = sweep_vetoes-Sound ids now s v
