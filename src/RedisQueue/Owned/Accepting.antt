-- ===== src/RedisQueue/Owned/Accepting.antt =====
-- The queue's invariant and the acceptance of a ready check (`ACCEPT_SCRIPT`).
use legacy_match_platform.Common.{
  ℕ, String, some, List, [], ◌∷◌, includes, ◌==◌, String_eq, ℕ_eq, leb, length, ◌≡◌, refl, sym, inl,
  inr, arith, Bool-cases, Option-cases,
}
use legacy_match_platform.Common.JsMap
use legacy_match_platform.Common.JsMap.{JsMap, get-set, get-set_self, get-set_ne}
use legacy_match_platform.Contracts.{searching, ServerEvent, match_accepted, veto_updated}
use legacy_match_platform.RedisQueue.{
  Store, Ticket, ReadyRecord, VetoSeed, VetoRecord, for_each, publish,
}
use legacy_match_platform.RedisQueue.Accept.{
  update_ticket, tell_member, open_veto, enter_veto, enter_match, start_veto, start_match,
  keep_waiting, record_acceptance, accept_script, close_ready, assignment_events, schedule,
}
use legacy_match_platform.RedisQueue.Owned.{SameTicket, for_each_inv}
use legacy_match_platform.RedisQueue.Owned.Sound.{
  Sound, update_ticket-Sound, Settled-delete, Settled-replace, for_each_ids,
}

tell_member-Sound :
    (es : List ServerEvent) (m : String) (s : Store) → Sound s → Sound (tell_member es m s)
unfolding tell_member
tell_member-Sound es m s v = elim (Option-cases (JsMap.get m s.pointers)) [
  | inl e ↦ rw (e, tell_member) (record { owned = v.owned; settled = v.settled })
  | inr (id, e) ↦ elim (Option-cases (JsMap.get id s.tickets)) [
    | inl f ↦ rw (e, f, tell_member) (record { owned = v.owned; settled = v.settled })
    | inr (t, f) ↦ rw (e, f, tell_member) (record { owned = v.owned; settled = v.settled })
  ]
]

close_ready-Sound : (id : String) (s : Store) → Sound s → Sound (close_ready id s)
unfolding close_ready
close_ready-Sound id s v = record {
  owned = v.owned;
  settled = Settled-delete s.ready s.tickets id v.settled;
}

-- The store while the tickets `ids` of the check that is filed under `match_id` are written.
record During (match_id : String) (ids : List String) (s : Store) : Type 0 where
  sound : Sound s
  check : ReadyRecord
  open_check : JsMap.get match_id s.ready ≡ some check
  over : check.ticket_ids ≡ ids

update_ticket-ready :
    (f : Ticket → Ticket) (id : String) (s : Store) → (update_ticket f id s).ready ≡ s.ready
unfolding update_ticket
update_ticket-ready f id s = ground arith

-- Writing the tickets of an open check, if a ticket that was not searching is not after it.
update_all :
    (match_id : String) (ids : List String) (f : Ticket → Ticket) (s : Store)
    → During match_id ids s
    → ((t : Ticket) → SameTicket t (f t))
    → ((t : Ticket) → (f t).queue.phase ≡ searching → t.queue.phase ≡ searching)
    → During match_id ids (for_each (update_ticket f) ids s)
update_all match_id ids f s d same back =
    for_each_ids (During match_id ids) (update_ticket f) ids
      (λ id s' i d'. record {
        sound =
            update_ticket-Sound f s' id d'.sound same
              (λ t h p.
                absurd (d'.sound.settled match_id id d'.check t d'.open_check (rw d'.over i) h p))
              back;
        check = d'.check;
        over = d'.over;
        open_check = rw (update_ticket-ready f id s') d'.open_check;
      })
      s d

schedule-During :
    (id : String) (v : VetoRecord) (now : ℕ) (match_id : String) (ids : List String) (s : Store)
    → During match_id ids s
    → During match_id ids (schedule id v now s)
schedule-During id v now match_id ids s d = elim (Option-cases v.expires_at_ms) [
  | inl e ↦ rw e (record {
    sound = record { owned = d.sound.owned; settled = d.sound.settled };
    open_check = d.open_check;
    check = d.check;
    over = d.over;
  })
  | inr (at, e) ↦ rw e (record {
    sound = record { owned = d.sound.owned; settled = d.sound.settled };
    open_check = d.open_check;
    check = d.check;
    over = d.over;
  })
]

start_veto-Sound :
    (match_id : String) (r : ReadyRecord) (seed : VetoSeed) (now at : ℕ) (s : Store)
    → During match_id r.ticket_ids s
    → Sound (start_veto match_id r seed now at s).0
unfolding start_veto
start_veto-Sound match_id r seed now at s d =
    let v = open_veto r seed now at in
    let s1 = schedule match_id v now (record s { vetoes = JsMap.set match_id v s.vetoes }) in
    let d1 =
      schedule-During match_id v now match_id r.ticket_ids
        (record s { vetoes = JsMap.set match_id v s.vetoes })
        (record {
          sound = record { owned = d.sound.owned; settled = d.sound.settled };
          open_check = d.open_check;
          check = d.check;
          over = d.over;
        }) in
    let d2 =
      update_all match_id r.ticket_ids (enter_veto r v.state) s1 d1
        (unfold enter_veto in λ t. record { id = refl; members = refl; token = refl })
        (unfold enter_veto in λ t p. absurd (cc)) in
    close_ready-Sound match_id _ (
      for_each_inv Sound (tell_member (veto_updated v.state ∷ []))
        (tell_member-Sound (veto_updated v.state ∷ [])) r.member_player_ids _ d2.sound)

start_match-Sound :
    (match_id : String) (r : ReadyRecord) (s : Store)
    → During match_id r.ticket_ids s
    → Sound (start_match match_id r s).0
unfolding start_match
start_match-Sound match_id r s d =
    let d1 =
      update_all match_id r.ticket_ids (enter_match r) s d
        (unfold enter_match in λ t. record { id = refl; members = refl; token = refl })
        (unfold enter_match in λ t p. absurd (cc)) in
    close_ready-Sound match_id _ (
      for_each_inv Sound (tell_member (assignment_events r.assignment))
        (tell_member-Sound (assignment_events r.assignment)) r.member_player_ids _ d1.sound)

keep_waiting-Sound :
    (match_id : String) (r : ReadyRecord) (s : Store)
    → During match_id r.ticket_ids s
    → Sound (keep_waiting match_id r s).0
unfolding keep_waiting
keep_waiting-Sound match_id r s d =
    let d1 =
      update_all match_id r.ticket_ids (λ t. record t { ready_check = some r.check }) s d
        (λ t. record { id = refl; members = refl; token = refl }) (λ t p. p) in
    record {
      owned = d1.sound.owned;
      settled =
          Settled-replace _ _ match_id r d1.sound.settled
            (λ id t i. d1.sound.settled match_id id d1.check t d1.open_check (rw d1.over i));
    }

record_acceptance-ticket_ids :
    (player : String) (r : ReadyRecord) → (record_acceptance player r).ticket_ids ≡ r.ticket_ids
unfolding record_acceptance
record_acceptance-ticket_ids player r = ground arith

-- The store and the record with which the script goes on after the acceptance has been recorded.
accepted-During :
    (player match_id : String) (r : ReadyRecord) (s : Store)
    → Sound s
    → JsMap.get match_id s.ready ≡ some r
    → let r' = record_acceptance player r in
      During match_id r'.ticket_ids (publish r'.member_player_ids (match_accepted r'.check ∷ []) s)
accepted-During player match_id r s v e = record {
  sound = record { owned = v.owned; settled = v.settled };
  check = r;
  open_check = e;
  over = sym (record_acceptance-ticket_ids player r);
}

pub accept_script-Sound :
    (player match_id : String) (now at : ℕ) (s : Store)
    → Sound s
    → Sound (accept_script player match_id now at s).0
unfolding accept_script
accept_script-Sound player match_id now at s v = elim (Option-cases (JsMap.get match_id s.ready)) [
  | inl e ↦ rw (e, accept_script) v
  | inr (r, e) ↦ elim (Bool-cases (leb r.expires_at_ms now)) [
    | inl late ↦ rw (e, late, accept_script) v
    | inr early ↦ elim (Bool-cases (includes r.member_player_ids player)) [
      | inr other ↦ rw (e, early, other, accept_script) v
      | inl mine ↦
          let q = record_acceptance player r in
          let d = accepted-During player match_id r s v e in
          elim (Bool-cases (length q.check.accepted_player_ids == q.check.total_players)) [
            | inr n ↦ rw (e, early, mine, n, accept_script) (keep_waiting-Sound match_id q _ d)
            | inl n ↦ elim (Option-cases q.veto) [
              | inl o ↦ rw (e, early, mine, n, o, accept_script) (start_match-Sound match_id q _ d)
              | inr (seed, o) ↦
                  rw (e, early, mine, n, o, accept_script)
                    (start_veto-Sound match_id q seed now at _ d)
            ]
          ]
    ]
  ]
]
