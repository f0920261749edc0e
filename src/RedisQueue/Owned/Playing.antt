-- ===== src/RedisQueue/Owned/Playing.antt =====
-- The queue's invariant and the map veto, the delivery of a server, drop-in Deathmatch and
-- reassignment.
use legacy_match_platform.Common.{
  ℕ, String, Bool, true, false, not, ◌&&◌, ◌||◌, Option, none, some, List, [], ◌∷◌, includes, ◌==◌,
  String_eq, ℕ_eq, leb, length, ◌≡◌, refl, inl, inr, Bool-cases, Option-cases,
}
use legacy_match_platform.Common.JsMap
use legacy_match_platform.Common.JsMap.{JsMap}
use legacy_match_platform.Contracts.{
  searching, map_veto, MapVetoState, MatchAssignment, QueuePhase_eq, phase_eq_iff,
}
use legacy_match_platform.RedisQueue.{Store, VetoRecord}
use legacy_match_platform.RedisQueue.Leave.{is_deathmatch}
use legacy_match_platform.RedisQueue.Accept.{update_ticket}
use legacy_match_platform.RedisQueue.Veto.{
  BanMode, ban_script, ban, save_ban, reschedule, save_veto, apply_ban, show_veto, is_over, last_of,
  captain, is_active, is_system, deliver, deliver_ticket, deliver_all, complete_veto_script,
  selects,
}
use legacy_match_platform.RedisQueue.Deathmatch.{
  drop_in, assign_script, next_ticket, plays, move_to, move_player, reassign_script, Moved, mark,
}
use legacy_match_platform.RedisQueue.Owned.{for_each_inv}
use legacy_match_platform.RedisQueue.Owned.Sound.{
  Sound, Sound-rewrite, Sound-unqueue, update_ticket-Sound,
}
use legacy_match_platform.RedisQueue.Owned.Ending.{next_ticket_found}

reschedule-Sound :
    (match_id : String) (at : Option ℕ) (now : ℕ) (s : Store)
    → Sound s
    → Sound (reschedule match_id at now s)
unfolding reschedule
reschedule-Sound match_id none now s h = record { owned = h.owned; settled = h.settled }
reschedule-Sound match_id (some at) now s h = record { owned = h.owned; settled = h.settled }

save_veto-Sound :
    (match_id : String) (v : VetoRecord) (s : Store) → Sound s → Sound (save_veto match_id v s)
unfolding save_veto
save_veto-Sound match_id v s h = record { owned = h.owned; settled = h.settled }

show_veto-Sound :
    (st : MapVetoState) (id : String) (s : Store)
    → Sound s
    → Sound (update_ticket (show_veto st) id s)
unfolding show_veto
show_veto-Sound st id s h =
    update_ticket-Sound (show_veto st) s id h
      (λ t. record { id = refl; members = refl; token = refl }) (λ t _ p. p) (λ t p. p)

save_ban-Sound :
    (match_id : String) (v : VetoRecord) (now : ℕ) (s : Store)
    → Sound s
    → Sound (save_ban match_id v now s)
unfolding save_ban
save_ban-Sound match_id v now s h =
    let w =
      for_each_inv Sound (update_ticket (show_veto v.state)) (show_veto-Sound v.state) v.ticket_ids
        (save_veto match_id v (reschedule match_id v.expires_at_ms now s))
        (save_veto-Sound match_id v _ (reschedule-Sound match_id v.expires_at_ms now s h)) in
    record { owned = w.owned; settled = w.settled }

ban-Sound :
    (match_id : String) (v : VetoRecord) (m : String) (automated : Bool) (now next : ℕ) (s : Store)
    → Sound s
    → Sound (ban match_id v m automated now next s).0
unfolding ban
ban-Sound match_id v m automated now next s h =
    elim (Bool-cases (includes v.state.remaining_maps m)) [
      | inr e ↦ rw (e, ban) h
      | inl e ↦ rw (e, ban) (save_ban-Sound match_id (apply_ban v m automated now next) now s h)
    ]

pub ban_script-Sound :
    (match_id player requested : String) (mode : BanMode) (now next : ℕ) (s : Store)
    → Sound s
    → Sound (ban_script match_id player requested mode now next s).0
unfolding ban_script
ban_script-Sound match_id player requested mode now next s h =
    elim (Option-cases (JsMap.get match_id s.vetoes)) [
      | inl e ↦ rw (e, ban_script) h
      | inr (v, e) ↦
          let st = v.state in
          let automatic = ban-Sound match_id v (last_of st.remaining_maps) true now next s h in
          let by_hand = ban-Sound match_id v requested false now next s h in
          elim (Bool-cases (not (is_active st.status) || leb (length st.remaining_maps) 1)) [
            | inl a ↦ rw (e, a, ban_script) h
            | inr a ↦ elim (Bool-cases (is_system mode || is_over v.expires_at_ms now)) [
              | inl b ↦ elim (Bool-cases (is_over v.expires_at_ms now)) [
                | inl c ↦ rw (e, a, b, c, ban_script) automatic
                | inr c ↦ rw (e, a, b, c, ban_script) h
              ]
              | inr b ↦ elim (Bool-cases (player == captain st.captains st.acting_team)) [
                | inl c ↦ rw (e, a, b, c, ban_script) by_hand
                | inr c ↦ rw (e, a, b, c, ban_script) h
              ]
            ]
          ]
    ]

deliver_ticket-Sound :
    (a : MatchAssignment) (id : String) (s : Store) (n : ℕ)
    → Sound s
    → Sound (deliver_ticket a id (s, n)).0
unfolding deliver_ticket
deliver_ticket-Sound a id s n h = elim (Option-cases (JsMap.get id s.tickets)) [
  | inl e ↦ rw (e, deliver_ticket) h
  | inr (t, e) ↦ elim (Bool-cases (t.queue.phase == map_veto)) [
    | inr p ↦ rw (e, p, deliver_ticket) h
    | inl p ↦
        let q : t.queue.phase ≡ map_veto = (phase_eq_iff t.queue.phase map_veto).0 p in
        let w =
          Sound-rewrite s id t (deliver a t) h e
            (unfold deliver in record { id = refl; members = refl; token = refl })
            (λ f. absurd (cc)) (unfold deliver in λ f. absurd (cc)) in
        rw (e, p, deliver_ticket) (record { owned = w.owned; settled = w.settled })
  ]
]

deliver_all-Sound :
    (a : MatchAssignment) (ids : List String) (r : Store × ℕ)
    → Sound r.0
    → Sound (deliver_all a ids r).0
unfolding deliver_all
deliver_all-Sound a [] r h = h
deliver_all-Sound a (id ∷ ids) r h =
    deliver_all-Sound a ids (deliver_ticket a id r) (deliver_ticket-Sound a id r.0 r.1 h)

pub complete_veto_script-Sound :
    (match_id : String) (a : MatchAssignment) (s : Store)
    → Sound s
    → Sound (complete_veto_script match_id a s).0
unfolding complete_veto_script
complete_veto_script-Sound match_id a s h = elim (Option-cases (JsMap.get match_id s.vetoes)) [
  | inl e ↦ rw (e, complete_veto_script) h
  | inr (v, e) ↦
      elim (Bool-cases
        (is_active v.state.status || not (selects v.state.selected_map a.map_name))) [
          | inl b ↦ rw (e, b, complete_veto_script) h
          | inr b ↦
              let w = deliver_all-Sound a v.ticket_ids (s, 0) h in
              rw (e, b, complete_veto_script) (record { owned = w.owned; settled = w.settled })
        ]
]

pub assign_script-Sound :
    (id : String) (token : ℕ) (a : MatchAssignment) (s : Store)
    → Sound s
    → Sound (assign_script id token a s).0
unfolding assign_script
assign_script-Sound id token a s h = elim (Option-cases (JsMap.get id s.tickets)) [
  | inl e ↦ rw (e, assign_script) h
  | inr (t, e) ↦
      elim (Bool-cases
        (t.fencing_token == token && t.queue.phase == searching && is_deathmatch t.queue.mode)) [
          | inr b ↦ rw (e, b, assign_script) h
          | inl b ↦
              let w =
                Sound-unqueue s id t (drop_in a t) h e
                  (unfold drop_in in record { id = refl; members = refl; token = refl })
                  (unfold drop_in in λ f. cc) in
              rw (e, b, assign_script) (record { owned = w.owned; settled = w.settled })
        ]
]

move_player-Sound :
    (old : String) (a : MatchAssignment) (player : String) (seen : List String) (r : Moved)
    → Sound r.store
    → Sound (move_player old a player seen r).store
unfolding move_player
move_player-Sound old a player seen r h = elim (Option-cases (next_ticket player seen r.store)) [
  | inl e ↦ rw (e, move_player) h
  | inr ((id, t), e) ↦ elim (Bool-cases (plays old t)) [
    | inr b ↦ rw (e, b, move_player) h
    | inl b ↦
        let w =
          Sound-rewrite r.store id t (move_to a t) h (next_ticket_found player seen r.store id t e)
            (unfold move_to in record { id = refl; members = refl; token = refl })
            (unfold move_to in λ p. p) (unfold move_to in λ p. p) in
        rw (e, b, move_player) (record { owned = w.owned; settled = w.settled })
  ]
]

pub reassign_script-Sound :
    (old : String) (a : MatchAssignment) (ps seen : List String) (r : Moved)
    → Sound r.store
    → Sound (reassign_script old a ps seen r).store
unfolding reassign_script
reassign_script-Sound old a [] seen r h = h
reassign_script-Sound old a (p ∷ ps) seen r h =
    reassign_script-Sound old a ps (mark p seen r.store) (move_player old a p seen r)
      (move_player-Sound old a p seen r h)
