-- ===== src/RedisQueue/Expiry.antt =====
-- What the sweep over expired ready checks leaves behind.
use legacy_match_platform.Common.{
  ℕ, ◌<◌, String, Bool, ◌&&◌, some, List, [], ◌∷◌, ◌++◌, String_eq, ltb, ◌≡◌, refl, sym, ◌∙◌, inl,
  inr, arith, Bool-cases, Option-cases, some_inj,
}
use legacy_match_platform.Common.JsMap
use legacy_match_platform.Common.JsMap.{JsMap, get-delete, get-delete_self}
use legacy_match_platform.RedisQueue.{Store, ReadyRecord, expiry, for_each}
use legacy_match_platform.RedisQueue.Leave.{remove_ticket}
use legacy_match_platform.RedisQueue.Cancel.{
  followers, penalise, penalise_member, pays, drop_ticket, cancel_script, is_expiry,
}
use legacy_match_platform.RedisQueue.Calls.{sweep_expired_ready_checks}
use legacy_match_platform.RedisQueue.Owned.{for_each_inv}

penalise_member-ready :
    (is_lobby : String → Bool) (requester : String) (now : ℕ) (r : ReadyRecord)
    (excused : List String) (m : String) (s : Store)
    → (penalise_member is_lobby expiry requester now r excused m s).ready ≡ s.ready
unfolding penalise_member penalise
penalise_member-ready is_lobby requester now r excused m s =
    elim (Bool-cases (pays is_lobby expiry requester r excused m)) [
      | inl e ↦ rw (e, penalise_member) refl
      | inr e ↦ rw (e, penalise_member) refl
    ]

drop_ticket-ready : (id : String) (s : Store) → (drop_ticket id s).ready ≡ s.ready
unfolding drop_ticket remove_ticket
drop_ticket-ready id s = elim (Option-cases (JsMap.get id s.tickets)) [
  | inl e ↦ rw (e, drop_ticket) refl
  | inr (t, e) ↦ rw (e, drop_ticket) refl
]

-- No ready check of that name is left, or it has not run out at `now`.
pub record Swept (id : String) (now : ℕ) (s : Store) : Type 0 where
  pub done : (r : ReadyRecord) → JsMap.get id s.ready ≡ some r → now < r.expires_at_ms

-- The cancellation on expiry touches no other ready check, and ends its own if that has run out.
record Ended (id : String) (now : ℕ) (s s' : Store) : Type 0 where
  swept : Swept id now s'
  others :
      (k : String) (r : ReadyRecord) → JsMap.get k s'.ready ≡ some r → JsMap.get k s.ready ≡ some r

cancel_script-Ended :
    (is_lobby : String → Bool) (id requester : String) (now : ℕ) (s : Store)
    → Ended id now s (cancel_script is_lobby id requester now expiry s).0
unfolding cancel_script
cancel_script-Ended is_lobby id requester now s = elim (Option-cases (JsMap.get id s.ready)) [
  | inl e ↦
      rw (e, cancel_script)
        (record {
          swept = record { done = λ r h. absurd (let k = sym e ∙ h in cc) };
          others = λ k r h. h;
        })
  | inr (r, e) ↦ elim (Bool-cases (is_expiry expiry && ltb now r.expires_at_ms)) [
    | inl o ↦
        rw (e, o, cancel_script)
          (record {
            swept = record {
              done = λ u h.
                  let early : now < r.expires_at_ms = ground (arith, o) in
                  let same = some_inj (sym e ∙ h) in rw same at early;
            };
            others = λ k u h. h;
          })
    | inr o ↦
        let excused = followers is_lobby r.ticket_ids s in
        let punished =
          for_each (penalise_member is_lobby expiry requester now r excused) r.member_player_ids
            s in
        let kept1 : punished.ready ≡ s.ready =
          for_each_inv (λ x. x.ready ≡ s.ready)
            (penalise_member is_lobby expiry requester now r excused)
            (λ m x h. penalise_member-ready is_lobby requester now r excused m x ∙ h)
            r.member_player_ids s refl in
        let kept : (for_each drop_ticket r.ticket_ids punished).ready ≡ s.ready =
          for_each_inv (λ x. x.ready ≡ s.ready) drop_ticket (λ t x h. drop_ticket-ready t x ∙ h)
            r.ticket_ids punished kept1 in
        rw (e, o, cancel_script)
          (rw kept (record {
            swept = record {
              done = λ u h. absurd (let k = sym (get-delete_self id s.ready) ∙ h in cc);
            };
            others = λ k u h. of_delete id k s.ready u h;
          }))
  ]
]
  where
    of_delete :
        (i k : String) (m : JsMap ReadyRecord) (u : ReadyRecord)
        → JsMap.get k (JsMap.delete i m) ≡ some u
        → JsMap.get k m ≡ some u
    of_delete i k m u h = let e = get-delete i k m in ground arith

sweep-others :
    (is_lobby : String → Bool) (ids : List (String × ℕ)) (k : String) (r : ReadyRecord) (s : Store)
    → JsMap.get k (sweep_expired_ready_checks is_lobby ids s).0.ready ≡ some r
    → JsMap.get k s.ready ≡ some r
unfolding sweep_expired_ready_checks
sweep-others is_lobby [] k r s h = h
sweep-others is_lobby ((id, now) ∷ ids) k r s h =
    (cancel_script-Ended is_lobby id "system" now s).others k r (sweep-others is_lobby ids k r _ h)

-- After a sweep, a ready check that was listed is gone, unless it had not yet run out when its turn
-- came; and the sweep opens no check and changes none that it leaves.
pub sweep-Swept :
    (is_lobby : String → Bool) (before after : List (String × ℕ)) (id : String) (now : ℕ)
    (s : Store)
    → Swept id now (sweep_expired_ready_checks is_lobby (before ++ (id, now) ∷ after) s).0
      × ((k : String) (r : ReadyRecord)
          → JsMap.get k
              (sweep_expired_ready_checks is_lobby (before ++ (id, now) ∷ after) s).0.ready
            ≡ some r
          → JsMap.get k s.ready ≡ some r)
unfolding sweep_expired_ready_checks
sweep-Swept is_lobby [] after id now s =
    let c = cancel_script-Ended is_lobby id "system" now s in
    (
      record { done = λ r h. c.swept.done r (sweep-others is_lobby after id r _ h) },
      λ k r h. c.others k r (sweep-others is_lobby after k r _ h),
    )
sweep-Swept is_lobby ((i, at) ∷ before) after id now s =
    let rest =
      sweep-Swept is_lobby before after id now (cancel_script is_lobby i "system" at expiry s).0 in
    (rest.0, λ k r h. (cancel_script-Ended is_lobby i "system" at s).others k r (rest.1 k r h))
