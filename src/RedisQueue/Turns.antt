-- ===== src/RedisQueue/Turns.antt =====
-- The turns of a map veto, as the script for bans plays them in the store.
use legacy_match_platform.Common.{
  ℕ, ◌≤◌, String, Bool, true, false, not, ◌||◌, Option, none, some, includes, length, ◌==◌,
  String_eq, leb, ◌≡◌, refl, ◌∙◌, ap, inl, inr, arith, ◌⊎◌, Bool-cases, Option-cases, eq→≡,
}
use legacy_match_platform.Common.JsMap
use legacy_match_platform.Common.JsMap.{JsMap, get-set, get-set_self}
use legacy_match_platform.Contracts.{VetoStatus, active, allocating}
use legacy_match_platform.RedisQueue.{Store, Ticket, VetoRecord}
use legacy_match_platform.RedisQueue.Accept.{update_ticket}
use legacy_match_platform.RedisQueue.Veto.{
  BanMode, is_active, is_over, is_system, captain, apply_ban, last_of, show_veto, reschedule,
  save_veto, save_ban, ban, ban_script,
}
use legacy_match_platform.RedisQueue.Owned.{for_each_inv}
use legacy_match_platform.RedisQueue.Bans.{IsVeto, Banning, apply_ban-Banning, apply_ban-IsVeto}

update_ticket-vetoes :
    (f : Ticket → Ticket) (id : String) (s : Store) → (update_ticket f id s).vetoes ≡ s.vetoes
unfolding update_ticket
update_ticket-vetoes f id s = ground arith

reschedule-vetoes :
    (id : String) (at : Option ℕ) (now : ℕ) (s : Store) → (reschedule id at now s).vetoes ≡ s.vetoes
unfolding reschedule
reschedule-vetoes id none now s = refl
reschedule-vetoes id (some at) now s = refl

pub save_ban-vetoes :
    (id : String) (v : VetoRecord) (now : ℕ) (s : Store)
    → (save_ban id v now s).vetoes ≡ JsMap.set id v s.vetoes
unfolding save_ban save_veto
save_ban-vetoes id v now s =
    for_each_inv (λ s1. s1.vetoes ≡ JsMap.set id v s.vetoes) (update_ticket (show_veto v.state))
      (λ t s1 h. update_ticket-vetoes (show_veto v.state) t s1 ∙ h) v.ticket_ids
      (save_veto id v (reschedule id v.expires_at_ms now s))
      (ap (JsMap.set id v) (reschedule-vetoes id v.expires_at_ms now s))

-- A turn that `player` has taken, or the clock in the captain's place, and its ban of `m`.
pub record Turn (id player requested : String) (now : ℕ) (s s' : Store) : Type 0 where
  pub v : VetoRecord
  pub v' : VetoRecord
  pub m : String
  pub before : JsMap.get id s.vetoes ≡ some v
  pub after : s'.vetoes ≡ JsMap.set id v' s.vetoes
  pub was : v.state.status ≡ active
  pub left : 2 ≤ length v.state.remaining_maps
  pub change : Banning v v' m
  pub keeps : IsVeto v.state → IsVeto v'.state
  pub by :
      ((player ≡ captain v.state.captains v.state.acting_team)
        × (m ≡ requested)
        × (is_over v.expires_at_ms now ≡ false))
      ⊎ ((m ≡ last_of v.state.remaining_maps) × (is_over v.expires_at_ms now ≡ true))

active_of : (st : VetoStatus) → is_active st ≡ true → st ≡ active
active_of active h = refl
active_of allocating h = absurd (cc)

module _ (id player requested : String) (now next : ℕ) (s : Store) (v : VetoRecord) where
  ban-Turn :
      (m : String) (automated : Bool)
      → JsMap.get id s.vetoes ≡ some v
      → v.state.status ≡ active
      → 2 ≤ length v.state.remaining_maps
      → ((player ≡ captain v.state.captains v.state.acting_team)
          × (m ≡ requested)
          × (is_over v.expires_at_ms now ≡ false))
        ⊎ ((m ≡ last_of v.state.remaining_maps) × (is_over v.expires_at_ms now ≡ true))
      → ((ban id v m automated now next s).0 ≡ s)
        ⊎ Turn id player requested now s (ban id v m automated now next s).0
  unfolding ban
  ban-Turn m automated h a two by = elim (Bool-cases (includes v.state.remaining_maps m)) [
    | inr e ↦ inl (rw (e, ban) refl)
    | inl e ↦ inr (
        rw (e, ban)
          (record {
            v = v;
            v' = apply_ban v m automated now next;
            m = m;
            before = h;
            after = save_ban-vetoes id (apply_ban v m automated now next) now s;
            was = a;
            left = two;
            change = apply_ban-Banning v m automated now next a e;
            keeps = λ w. apply_ban-IsVeto v m automated now next w a e;
            by = by;
          }))
  ]

-- Whatever is asked of a veto, either nothing is written or an active veto with two maps left
-- loses one map to a turn: the acting captain's choice while the turn runs, the last map once it is
-- over. A turn records the ban and then the other team acts or one map is left; it keeps a
-- well-formed veto well formed.
pub ban_script-Turn :
    (id player requested : String) (mode : BanMode) (now next : ℕ) (s : Store)
    → ((ban_script id player requested mode now next s).0 ≡ s)
      ⊎ Turn id player requested now s (ban_script id player requested mode now next s).0
unfolding ban_script
ban_script-Turn id player requested mode now next s = elim (Option-cases (JsMap.get id s.vetoes)) [
  | inl e ↦ inl (rw (e, ban_script) refl)
  | inr (v, e) ↦
      elim (Bool-cases (not (is_active v.state.status) || leb (length v.state.remaining_maps) 1)) [
        | inl c ↦ inl (rw (e, c, ban_script) refl)
        | inr c ↦
            let a = active_of v.state.status (ground (arith, c)) in
            let two : 2 ≤ length v.state.remaining_maps = ground (arith, c) in
            elim (Bool-cases (is_over v.expires_at_ms now)) [
              | inl o ↦
                  let t =
                    ban-Turn id player requested now next s v (last_of v.state.remaining_maps) true
                      e a two (inr (refl, o)) in
                  rw (e, c, o, ban_script)
                    (elim (Bool-cases (is_system mode)) [ inl y ↦ rw y t | inr y ↦ rw y t ])
              | inr o ↦ elim (Bool-cases (is_system mode)) [
                | inl y ↦ inl (rw (e, c, o, y, ban_script) refl)
                | inr y ↦
                    elim (Bool-cases (player == captain v.state.captains v.state.acting_team)) [
                      | inr p ↦ inl (rw (e, c, o, y, p, ban_script) refl)
                      | inl p ↦
                          rw (e, c, o, y, p, ban_script)
                            (ban-Turn id player requested now next s v requested false e a two (
                              inl (
                                eq→≡ player (captain v.state.captains v.state.acting_team) p,
                                refl,
                                o,
                              )))
                    ]
              ]
            ]
      ]
]
