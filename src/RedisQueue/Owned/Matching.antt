-- ===== src/RedisQueue/Owned/Matching.antt =====
-- The queue's invariant and the opening of a ready check (`CREATE_READY_CHECK_SCRIPT`).
use legacy_match_platform.Common.{
  ℕ, String, true, some, List, [], ◌∷◌, map, includes, ◌==◌, String_eq, ℕ_eq, ◌≡◌, refl, inl, inr,
  arith, ◌⊎◌, ◌≢◌, Bool-cases, Option-cases, eq→≡, subst, Result, ok, err,
}
use legacy_match_platform.Common.JsMap
use legacy_match_platform.Common.JsMap.{JsMap, get-set, get-set_self, get-set_ne}
use legacy_match_platform.Contracts.{searching, ReadyCheck, QueuePhase_eq}
use legacy_match_platform.RedisQueue.{Store, Ticket, ReadyRecord, ScriptError, for_each}
use legacy_match_platform.RedisQueue.Ready.{
  Claim, check_claims, found, open_ticket, create_ready_script,
}
use legacy_match_platform.RedisQueue.Owned.{SameTicket, for_each_inv}
use legacy_match_platform.RedisQueue.Owned.Sound.{Sound, Sound-unqueue, Settled-replace}
use legacy_match_platform.RedisQueue.Owned.Writes.{get-set_cases}

found-SameTicket : (check : ReadyCheck) (t : Ticket) → SameTicket t (found check t)
unfolding found
found-SameTicket check t = record { id = refl; members = refl; token = refl }

open_ticket-Sound :
    (check : ReadyCheck) (c : Claim) (s : Store) → Sound s → Sound (open_ticket check c s)
unfolding open_ticket
open_ticket-Sound check c s v = elim (Option-cases (JsMap.get c.id s.tickets)) [
  | inl e ↦ rw (e, open_ticket) v
  | inr (t, e) ↦
      let w =
        Sound-unqueue s c.id t (found check t) v e (found-SameTicket check t)
          (unfold found in λ p. cc) in
      rw (e, open_ticket) (record { owned = w.owned; settled = w.settled })
]

abbrev OutAt : JsMap Ticket → String → Type 0
OutAt tickets id = (t : Ticket) → JsMap.get id tickets ≡ some t → t.queue.phase ≢ searching

abbrev pub claim_ids : List Claim → List String
claim_ids = map (λ c. c.id)

found_out : (check : ReadyCheck) (u : Ticket) → (found check u).queue.phase ≢ searching
unfolding found
found_out check u p = cc

-- A claimed ticket is out of the queue once it has been opened, and so it stays.
open_ticket_out :
    (check : ReadyCheck) (c : Claim) (s : Store) (id : String)
    → ((c.id == id) ≡ true) ⊎ OutAt s.tickets id
    → OutAt (open_ticket check c s).tickets id
unfolding open_ticket
open_ticket_out check c s id h t e = elim (Option-cases (JsMap.get c.id s.tickets)) [
  | inl f ↦
      let g : JsMap.get id s.tickets ≡ some t = ground arith in
      elim h [
        | inl q ↦ let same = eq→≡ c.id id q in let clash = rw same at f in absurd (cc)
        | inr out ↦ out t g
      ]
  | inr (u, f) ↦ elim (get-set_cases c.id id (found check u) t s.tickets (ground arith)) [
    | inl (same, g) ↦ subst (λ z. z.queue.phase ≢ searching) g (found_out check u)
    | inr (other, g) ↦ elim h [ inl q ↦ absurd (cc) | inr out ↦ out t g ]
  ]
]

open_tickets_out :
    (check : ReadyCheck) (cs : List Claim) (s : Store) (id : String)
    → (includes (claim_ids cs) id ≡ true) ⊎ OutAt s.tickets id
    → OutAt (for_each (open_ticket check) cs s).tickets id
unfolding for_each
open_tickets_out check [] s id (inl i) = absurd (cc)
open_tickets_out check [] s id (inr out) = out
open_tickets_out check (c ∷ cs) s id h =
    open_tickets_out check cs (open_ticket check c s) id (later h)
  where
    later :
        (includes (claim_ids (c ∷ cs)) id ≡ true) ⊎ OutAt s.tickets id
        → (includes (claim_ids cs) id ≡ true) ⊎ OutAt (open_ticket check c s).tickets id
    later (inr out) = inr (open_ticket_out check c s id (inr out))
    later (inl i) = elim (Bool-cases (c.id == id)) [
      | inl e ↦ inr (open_ticket_out check c s id (inl e))
      | inr e ↦ inl (ground arith)
    ]

open_ticket-ready :
    (check : ReadyCheck) (c : Claim) (s : Store) → (open_ticket check c s).ready ≡ s.ready
unfolding open_ticket
open_ticket-ready check c s = ground arith

-- The loop's invariant, over the ready checks as they were before.
record Opening (ready now : JsMap ReadyRecord) (s : Store) : Type 0 where
  sound : Sound (record s { ready = ready })
  kept : s.ready ≡ now

opening :
    (check : ReadyCheck) (ready now : JsMap ReadyRecord) (c : Claim) (s : Store)
    → Opening ready now s
    → Opening ready now (open_ticket check c s)
unfolding open_ticket
opening check ready now c s o = elim (Option-cases (JsMap.get c.id s.tickets)) [
  | inl e ↦ rw (e, open_ticket) o
  | inr (t, e) ↦
      let w =
        Sound-unqueue (record s { ready = ready }) c.id t (found check t) o.sound e
          (found-SameTicket check t) (found_out check t) in
      rw (e, open_ticket)
        (record { sound = record { owned = w.owned; settled = w.settled }; kept = o.kept })
]

-- A ready check over the claimed tickets.
pub create_ready_script-Sound :
    (claims : List Claim) (r : ReadyRecord) (s : Store)
    → Sound s
    → r.ticket_ids ≡ claim_ids claims
    → Sound (create_ready_script claims r s).0
unfolding create_ready_script
create_ready_script-Sound claims r s v ids = opened (check_claims s claims [] 0) refl
  where
    ready' : JsMap ReadyRecord
    ready' = JsMap.set r.check.match_id r s.ready

    s' : Store
    s' = record s {
      ready = ready';
      ready_deadlines = JsMap.set r.check.match_id r.expires_at_ms s.ready_deadlines;
    }

    start : Opening s.ready ready' s'
    start = record { sound = record { owned = v.owned; settled = v.settled }; kept = refl }

    last : Opening s.ready ready' (for_each (open_ticket r.check) claims s')
    last =
        for_each_inv (Opening s.ready ready') (open_ticket r.check) (opening r.check s.ready ready')
          claims s' start

    done : Sound (for_each (open_ticket r.check) claims s')
    done = record {
      owned = last.sound.owned;
      settled = rw last.kept (
          Settled-replace s.ready _ r.check.match_id r last.sound.settled
            (λ id t i. open_tickets_out r.check claims s' id (inl (rw (← ids) i)) t));
    }

    opened :
        (c : Result ScriptError ℕ)
        → check_claims s claims [] 0 ≡ c
        → Sound (create_ready_script claims r s).0
    opened (err e) h = rw (h, create_ready_script) v
    opened (ok total) h = elim (Bool-cases (total == r.check.total_players)) [
      | inr n ↦ rw (h, n, create_ready_script) v
      | inl n ↦ rw (h, n, create_ready_script) done
    ]
