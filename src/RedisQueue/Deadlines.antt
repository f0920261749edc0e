-- ===== src/RedisQueue/Deadlines.antt =====
-- What the sweep over map vetoes, `sweepExpiredMapVetos` of apps/api/src/redis-queue-service.ts, does to
-- the other vetoes and their deadlines.
use legacy_match_platform.Common.{
  ℕ, ◌+◌, String, true, false, not, ◌||◌, Option, none, some, includes, length, if◌then◌else◌, ◌==◌,
  String_eq, leb, ◌≡◌, refl, sym, ◌∙◌, ap, ◌⊎◌, inl, inr, Bool-cases, Option-cases, arith, subst,
}
use legacy_match_platform.Common.JsMap
use legacy_match_platform.Common.JsMap.{JsMap, get-set_ne, get-delete_ne}
use legacy_match_platform.RedisQueue.{Store, Ticket, VetoRecord}
use legacy_match_platform.RedisQueue.Accept.{update_ticket}
use legacy_match_platform.RedisQueue.Veto.{
  system, is_active, is_over, last_of, apply_ban, ban, ban_script, save_ban, save_veto, reschedule,
  show_veto,
}
use legacy_match_platform.RedisQueue.Calls.{is_gone}
use legacy_match_platform.RedisQueue.Owned.{for_each_inv}
use legacy_match_platform.RedisQueue.Turns.{save_ban-vetoes}

update_ticket-deadlines :
    (f : Ticket → Ticket) (id : String) (s : Store)
    → (update_ticket f id s).veto_deadlines ≡ s.veto_deadlines
unfolding update_ticket
update_ticket-deadlines f id s = ground arith

pub save_ban-deadlines :
    (id : String) (v : VetoRecord) (now : ℕ) (s : Store)
    → (save_ban id v now s).veto_deadlines ≡ (reschedule id v.expires_at_ms now s).veto_deadlines
unfolding save_ban save_veto
save_ban-deadlines id v now s =
    let next = (reschedule id v.expires_at_ms now s).veto_deadlines in
    for_each_inv (λ s1. s1.veto_deadlines ≡ next) (update_ticket (show_veto v.state))
      (λ t s1 h. update_ticket-deadlines (show_veto v.state) t s1 ∙ h) v.ticket_ids
      (save_veto id v (reschedule id v.expires_at_ms now s)) refl

-- The veto `id` and its deadline are those of `s`.
pub record Apart (id : String) (s s' : Store) : Type 0 where
  pub veto : JsMap.get id s'.vetoes ≡ JsMap.get id s.vetoes
  pub deadline : JsMap.get id s'.veto_deadlines ≡ JsMap.get id s.veto_deadlines

Apart-refl : (id : String) (s : Store) → Apart id s s
Apart-refl id s = record { veto = refl; deadline = refl }

reschedule-other :
    (x id : String) (at : Option ℕ) (now : ℕ) (s : Store)
    → (x == id) ≡ false
    → JsMap.get id (reschedule x at now s).veto_deadlines ≡ JsMap.get id s.veto_deadlines
unfolding reschedule
reschedule-other x id none now s e = get-delete_ne x id s.veto_deadlines e
reschedule-other x id (some at) now s e = get-set_ne x id at s.veto_deadlines e

save_ban-Apart :
    (x id : String) (v : VetoRecord) (now : ℕ) (s : Store)
    → (x == id) ≡ false
    → Apart id s (save_ban x v now s)
save_ban-Apart x id v now s e = record {
  veto = ap (JsMap.get id) (save_ban-vetoes x v now s) ∙ get-set_ne x id v s.vetoes e;
  deadline =
      ap (JsMap.get id) (save_ban-deadlines x v now s)
      ∙ reschedule-other x id v.expires_at_ms now s e;
}

-- The system's ban writes nothing, or one veto.
system-saves :
    (x : String) (now next : ℕ) (s : Store)
    → ((ban_script x "system" "" system now next s).0 ≡ s)
      ⊎ ((v : VetoRecord) × ((ban_script x "system" "" system now next s).0 ≡ save_ban x v now s))
unfolding ban_script ban
system-saves x now next s = elim (Option-cases (JsMap.get x s.vetoes)) [
  | inl e ↦ inl (rw (e, ban_script) refl)
  | inr (v, e) ↦
      elim (Bool-cases (not (is_active v.state.status) || leb (length v.state.remaining_maps) 1)) [
        | inl f ↦ inl (rw (e, f, ban_script) refl)
        | inr f ↦ elim (Bool-cases (is_over v.expires_at_ms now)) [
          | inr g ↦ inl (rw (e, f, g, ban_script) refl)
          | inl g ↦
              elim (Bool-cases (includes v.state.remaining_maps (last_of v.state.remaining_maps))) [
                | inr h ↦ inl (rw (e, f, g, h, ban_script, ban) refl)
                | inl h ↦ inr (
                  apply_ban v (last_of v.state.remaining_maps) true now next,
                  rw (e, f, g, h, ban_script, ban) refl,
                )
              ]
        ]
      ]
]

-- The sweep's step for one veto.
abbrev pub swept : String → ℕ → Store → Store
swept x now s =
    let r = ban_script x "system" "" system now (now + 30000) s in
    if is_gone r.1
    then record (r.0) { veto_deadlines = JsMap.delete x (r.0).veto_deadlines }
    else r.0

pub swept-Apart :
    (x id : String) (now : ℕ) (s : Store) → (x == id) ≡ false → Apart id s (swept x now s)
swept-Apart x id now s e =
    let r = ban_script x "system" "" system now (now + 30000) s in
    let banned : Apart id s r.0 = elim (system-saves x now (now + 30000) s) [
      | inl h ↦ subst (Apart id s) (sym h) (Apart-refl id s)
      | inr (v, h) ↦ subst (Apart id s) (sym h) (save_ban-Apart x id v now s e)
    ] in
    elim (Bool-cases (is_gone r.1)) [
      | inr g ↦ rw (g, swept) banned
      | inl g ↦
          rw (g, swept)
            (record {
              veto = banned.veto;
              deadline = get-delete_ne x id (r.0).veto_deadlines e ∙ banned.deadline;
            })
    ]
