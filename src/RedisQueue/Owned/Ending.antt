-- ===== src/RedisQueue/Owned/Ending.antt =====
-- The queue's invariant and leaving, cancelling a ready check and completing a Deathmatch session
-- (`LEAVE_SCRIPT`, `CANCEL_READY_CHECK_SCRIPT`, `COMPLETE_DEATHMATCH_SCRIPT`).
use legacy_match_platform.Common.{
  ℕ, String, Bool, not, ◌&&◌, some, List, [], ◌∷◌, ◌==◌, String_eq, ltb, ◌≡◌, sym, ◌∙◌, inl, inr,
  arith, Bool-cases, Option-cases, some_inj,
}
use legacy_match_platform.Common.JsMap
use legacy_match_platform.Common.JsMap.{JsMap}
use legacy_match_platform.RedisQueue.{Store, Ticket, ReadyRecord, CancelMode}
use legacy_match_platform.RedisQueue.Leave.{
  LeaveGuard, names, admits, session_ended, leave_script, is_party,
}
use legacy_match_platform.RedisQueue.Cancel.{
  followers, pays, penalise, penalise_member, drop_ticket, cancel_script, is_expiry,
}
use legacy_match_platform.RedisQueue.Deathmatch.{
  next_ticket, plays, clear_player, clear_players, complete_script, players_of, mark,
}
use legacy_match_platform.RedisQueue.Owned.{for_each_inv}
use legacy_match_platform.RedisQueue.Owned.Sound.{Sound, remove_ticket-Sound, Settled-delete}
use legacy_match_platform.RedisQueue.Owned.Writes.{Owned-unpoint}

pub leave_script-Sound :
    (requester : String) (guard : LeaveGuard) (s : Store)
    → Sound s
    → Sound (leave_script requester guard s).0
unfolding leave_script
leave_script-Sound requester guard s v = elim (Option-cases (JsMap.get requester s.pointers)) [
  | inl e ↦ rw (e, leave_script) v
  | inr (id, e) ↦ elim (Bool-cases (names guard id)) [
    | inr n ↦ rw (e, n, leave_script) v
    | inl n ↦ elim (Option-cases (JsMap.get id s.tickets)) [
      | inl f ↦
          rw (e, n, f, leave_script)
            (record {
              owned =
                  Owned-unpoint v.owned requester
                    (λ k p. let same : id ≡ k = some_inj (sym e ∙ p) in rw (← same) f);
              settled = v.settled;
            })
      | inr (t, f) ↦ elim (Bool-cases (admits guard t)) [
        | inr a ↦ rw (e, n, f, a, leave_script) v
        | inl a ↦
            elim (Bool-cases (
              is_party t.party_id
              && not (t.leader_player_id == requester)
              && not (session_ended guard))) [
                | inl b ↦ rw (e, n, f, a, b, leave_script) v
                | inr b ↦ rw (e, n, f, a, b, leave_script) (remove_ticket-Sound s id t v f)
              ]
      ]
    ]
  ]
]

drop_ticket-Sound : (id : String) (s : Store) → Sound s → Sound (drop_ticket id s)
unfolding drop_ticket
drop_ticket-Sound id s v = elim (Option-cases (JsMap.get id s.tickets)) [
  | inl e ↦ rw (e, drop_ticket) v
  | inr (t, e) ↦ rw (e, drop_ticket) (remove_ticket-Sound s id t v e)
]

penalise_member-Sound :
    (is_lobby : String → Bool) (mode : CancelMode) (requester : String) (now : ℕ) (r : ReadyRecord)
    (excused : List String) (m : String) (s : Store)
    → Sound s
    → Sound (penalise_member is_lobby mode requester now r excused m s)
unfolding penalise_member
penalise_member-Sound is_lobby mode requester now r excused m s v =
    elim (Bool-cases (pays is_lobby mode requester r excused m)) [
      | inl e ↦
          rw (e, penalise_member)
            (unfold penalise in record { owned = v.owned; settled = v.settled })
      | inr e ↦ rw (e, penalise_member) v
    ]

pub cancel_script-Sound :
    (is_lobby : String → Bool) (match_id requester : String) (now : ℕ) (mode : CancelMode)
    (s : Store)
    → Sound s
    → Sound (cancel_script is_lobby match_id requester now mode s).0
unfolding cancel_script
cancel_script-Sound is_lobby match_id requester now mode s v =
    elim (Option-cases (JsMap.get match_id s.ready)) [
      | inl e ↦ rw (e, cancel_script) v
      | inr (r, e) ↦ elim (Bool-cases (is_expiry mode && ltb now r.expires_at_ms)) [
        | inl b ↦ rw (e, b, cancel_script) v
        | inr b ↦
            let excused = followers is_lobby r.ticket_ids s in
            let v1 =
              for_each_inv Sound (penalise_member is_lobby mode requester now r excused)
                (penalise_member-Sound is_lobby mode requester now r excused) r.member_player_ids s
                v in
            let v2 = for_each_inv Sound drop_ticket drop_ticket-Sound r.ticket_ids _ v1 in
            rw (e, b, cancel_script)
              (record { owned = v2.owned; settled = Settled-delete _ _ match_id v2.settled })
      ]
    ]

pub next_ticket_found :
    (player : String) (seen : List String) (s : Store) (id : String) (t : Ticket)
    → next_ticket player seen s ≡ some (id, t)
    → JsMap.get id s.tickets ≡ some t
unfolding next_ticket
next_ticket_found player seen s id t h = ground arith

clear_player-Sound :
    (match_id player : String) (seen : List String) (s : Store) (n : ℕ)
    → Sound s
    → Sound (clear_player match_id player seen (s, n)).0
unfolding clear_player
clear_player-Sound match_id player seen s n v = elim (Option-cases (next_ticket player seen s)) [
  | inl e ↦ rw (e, clear_player) v
  | inr ((id, t), e) ↦ elim (Bool-cases (plays match_id t)) [
    | inr b ↦ rw (e, b, clear_player) v
    | inl b ↦
        rw (e, b, clear_player)
          (remove_ticket-Sound s id t v (next_ticket_found player seen s id t e))
  ]
]

clear_players-Sound :
    (match_id : String) (ps seen : List String) (r : Store × ℕ)
    → Sound r.0
    → Sound (clear_players match_id ps seen r).0
unfolding clear_players
clear_players-Sound match_id [] seen r v = v
clear_players-Sound match_id (p ∷ ps) seen r v =
    clear_players-Sound match_id ps (mark p seen r.0) (clear_player match_id p seen r)
      (clear_player-Sound match_id p seen r.0 r.1 v)

pub complete_script-Sound :
    (match_id : String) (s : Store) → Sound s → Sound (complete_script match_id s).0
unfolding complete_script
complete_script-Sound match_id s v =
    let w = clear_players-Sound match_id (players_of match_id s) [] (s, 0) v in
    record { owned = w.owned; settled = w.settled }
