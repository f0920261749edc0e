-- ===== src/RedisQueue/Penalties.antt =====
-- Whom the cancellation of a ready check spares.
use legacy_match_platform.Common.{
  includes-append, ℕ, String, Bool, true, false, not, ◌&&◌, some, List, [], ◌∷◌, keep, ap, includes,
  ◌==◌, String_eq, ltb, ◌≡◌, refl, ◌∙◌, inl, inr, arith, ◌⊎◌, Bool-cases, Option-cases, eq→≡,
}
use legacy_match_platform.Common.JsMap
use legacy_match_platform.Common.JsMap.{JsMap, get-set_ne}
use legacy_match_platform.RedisQueue.{Store, Ticket, ReadyRecord, CancelMode, decline, expiry}
use legacy_match_platform.RedisQueue.Leave.{remove_ticket}
use legacy_match_platform.RedisQueue.Cancel.{
  followers, pays, penalise, penalise_member, drop_ticket, cancel_script, is_expiry,
}
use legacy_match_platform.RedisQueue.Owned.{for_each_inv}

-- The player's penalties are those of `s`.
pub record Spared (m : String) (s s' : Store) : Type 0 where
  pub cooldown : JsMap.get m s'.cooldowns ≡ JsMap.get m s.cooldowns
  pub failures : JsMap.get m s'.failures ≡ JsMap.get m s.failures

module _ (is_lobby : String → Bool) (mode : CancelMode) (requester : String) (now : ℕ)
    (r : ReadyRecord) (excused : List String) where
  penalise_member-Spared :
      (m p : String) (s0 s : Store)
      → pays is_lobby mode requester r excused m ≡ false
      → Spared m s0 s
      → Spared m s0 (penalise_member is_lobby mode requester now r excused p s)
  unfolding penalise_member penalise
  penalise_member-Spared m p s0 s free v =
      elim (Bool-cases (pays is_lobby mode requester r excused p)) [
        | inr e ↦ rw (e, penalise_member) v
        | inl e ↦ elim (Bool-cases (p == m)) [
          | inl same ↦ absurd (let k = rw (eq→≡ p m same) at e in cc)
          | inr other ↦
              rw (e, penalise_member)
                (record {
                  cooldown = get-set_ne p m _ s.cooldowns other ∙ v.cooldown;
                  failures = get-set_ne p m _ s.failures other ∙ v.failures;
                })
        ]
      ]

drop_ticket-Spared : (m id : String) (s0 s : Store) → Spared m s0 s → Spared m s0 (drop_ticket id s)
unfolding drop_ticket remove_ticket
drop_ticket-Spared m id s0 s v = elim (Option-cases (JsMap.get id s.tickets)) [
  | inl e ↦ rw (e, drop_ticket) v
  | inr (t, e) ↦ rw (e, drop_ticket) (record { cooldown = v.cooldown; failures = v.failures })
]

-- A member, other than the leader, of a stored ticket of the check that is a native lobby's.
abbrev pub Follows : (String → Bool) → ReadyRecord → Store → String → Type 0
Follows is_lobby r s m =
    (id : String) × (t : Ticket) × (p : String) × (includes r.ticket_ids id ≡ true)
    × (JsMap.get id s.tickets ≡ some t)
    × (t.party_id ≡ some p)
    × (is_lobby p ≡ true)
    × (includes t.member_player_ids m ≡ true)
    × ((m == t.leader_player_id) ≡ false)

includes-keep :
    (p : String → Bool) (m : String) (xs : List String)
    → includes xs m ≡ true
    → p m ≡ true
    → includes (keep p xs) m ≡ true
includes-keep p m [] i h = absurd cc
includes-keep p m (x ∷ xs) i h = elim (Bool-cases (x == m)) [
  | inl e ↦ let k : p x ≡ true = ap p (eq→≡ x m e) ∙ h in rw k (ground (arith, e))
  | inr e ↦
      let rest : includes (keep p xs) m ≡ true = includes-keep p m xs (ground (arith, e, i)) h in
      elim (Bool-cases (p x)) [ inl k ↦ rw k (ground (arith, rest)) | inr k ↦ rw k rest ]
]

includes-followers :
    (is_lobby : String → Bool) (ids : List String) (s : Store) (m id p : String) (t : Ticket)
    → includes ids id ≡ true
    → JsMap.get id s.tickets ≡ some t
    → t.party_id ≡ some p
    → is_lobby p ≡ true
    → includes t.member_player_ids m ≡ true
    → (m == t.leader_player_id) ≡ false
    → includes (followers is_lobby ids s) m ≡ true
unfolding followers
includes-followers is_lobby [] s m id p t i e f l on other = absurd cc
includes-followers is_lobby (k ∷ ids) s m id p t i e f l on other = elim (Bool-cases (k == id)) [
  | inl q ↦
      let e' : JsMap.get k s.tickets ≡ some t = ap (λ k. JsMap.get k s.tickets) (eq→≡ k id q) ∙ e in
      let kept =
        includes-keep (λ m. not (m == t.leader_player_id)) m t.member_player_ids on
          (rw other refl) in
      rw (e', f, l, followers)
        (includes-append m (keep (λ m. not (m == t.leader_player_id)) t.member_player_ids)
            (followers is_lobby ids s)
          ∙ (rw kept refl))
  | inr q ↦
      let rest : includes (followers is_lobby ids s) m ≡ true =
        includes-followers is_lobby ids s m id p t (ground (arith, q, i)) e f l on other in
      elim (Option-cases (JsMap.get k s.tickets)) [
        | inl a ↦ rw (a, followers) rest
        | inr (u, a) ↦ elim (Option-cases u.party_id) [
          | inl b ↦ rw (a, b, followers) rest
          | inr (party, b) ↦ elim (Bool-cases (is_lobby party)) [
            | inr c ↦ rw (a, b, c, followers) rest
            | inl c ↦
                rw (a, b, c, followers)
                  (includes-append m (keep (λ m. not (m == u.leader_player_id)) u.member_player_ids)
                      (followers is_lobby ids s)
                    ∙ ground (arith, rest))
          ]
        ]
      ]
]

-- Why a player is not to blame.
abbrev pub Blameless : (String → Bool) → CancelMode → String → ReadyRecord → Store → String → Type 0
Blameless is_lobby mode requester r s m =
    ((mode ≡ decline) × ((m == requester) ≡ false))
    ⊎ ((mode ≡ expiry) × (includes r.check.accepted_player_ids m ≡ true))
    ⊎ Follows is_lobby r s m

Blameless-pays :
    (is_lobby : String → Bool) (mode : CancelMode) (requester : String) (r : ReadyRecord)
    (s : Store) (m : String)
    → Blameless is_lobby mode requester r s m
    → pays is_lobby mode requester r (followers is_lobby r.ticket_ids s) m ≡ false
unfolding pays
Blameless-pays is_lobby decline requester r s m (inl (_, e)) = rw e refl
Blameless-pays is_lobby expiry requester r s m (inl (h, e)) = absurd (cc)
Blameless-pays is_lobby decline requester r s m (inr (inl (h, e))) = absurd (cc)
Blameless-pays is_lobby expiry requester r s m (inr (inl (_, e))) = rw e refl
Blameless-pays is_lobby decline requester r s m (inr (inr (id, t, p, i, e, f, l, on, other))) =
    let k = includes-followers is_lobby r.ticket_ids s m id p t i e f l on other in
    ground (arith, k)
Blameless-pays is_lobby expiry requester r s m (inr (inr (id, t, p, i, e, f, l, on, other))) =
    let k = includes-followers is_lobby r.ticket_ids s m id p t i e f l on other in
    ground (arith, k)

-- Cancelling a ready check neither starts a cooldown nor counts a failure for a player who is not to
-- blame: on a decline, anybody but the player who declined; on an expiry, whoever had accepted; and
-- in both the members, other than the leader, of a native lobby's ticket in the check.
pub cancel_script-Spared :
    (is_lobby : String → Bool) (match_id requester m : String) (now : ℕ) (mode : CancelMode)
    (s : Store) (r : ReadyRecord)
    → JsMap.get match_id s.ready ≡ some r
    → Blameless is_lobby mode requester r s m
    → Spared m s (cancel_script is_lobby match_id requester now mode s).0
unfolding cancel_script
cancel_script-Spared is_lobby match_id requester m now mode s r h b =
    elim (Bool-cases (is_expiry mode && ltb now r.expires_at_ms)) [
      | inl e ↦ rw (h, e, cancel_script) (record { cooldown = refl; failures = refl })
      | inr e ↦
          let excused = followers is_lobby r.ticket_ids s in
          let free = Blameless-pays is_lobby mode requester r s m b in
          let v =
            for_each_inv (Spared m s) (penalise_member is_lobby mode requester now r excused)
              (λ p s1 k.
                penalise_member-Spared is_lobby mode requester now r excused m p s s1 free k)
              r.member_player_ids s (record { cooldown = refl; failures = refl }) in
          let w =
            for_each_inv (Spared m s) drop_ticket (λ id s1 k. drop_ticket-Spared m id s s1 k)
              r.ticket_ids _ v in
          rw (h, e, cancel_script) (record { cooldown = w.cooldown; failures = w.failures })
    ]
