-- ===== src/RedisQueue/Once.antt =====
-- What can be done to a match of the durable queue only once.
use legacy_match_platform.Common.{
  ℕ, String, Bool, not, ◌&&◌, ◌||◌, none, ltb, ◌≡◌, refl, ap, inl, inr, Bool-cases, Option-cases,
  subst,
}
use legacy_match_platform.Common.JsMap
use legacy_match_platform.Common.JsMap.{JsMap, get-delete_self}
use legacy_match_platform.Contracts.{MatchAssignment}
use legacy_match_platform.RedisQueue.{Store, CancelMode}
use legacy_match_platform.RedisQueue.Accept.{accept_script, missing}
use legacy_match_platform.RedisQueue.Veto.{
  no_veto, delivered, complete_veto_script, is_active, selects,
}
use legacy_match_platform.RedisQueue.Cancel.{
  cancelled, missing as nothing, cancel_script, is_expiry,
}

-- The ready check is gone from the store.
cancel_script-gone :
    (is_lobby : String → Bool) (match_id requester : String) (now : ℕ) (mode : CancelMode)
    (s : Store)
    → (cancel_script is_lobby match_id requester now mode s).1 ≡ cancelled
    → JsMap.get match_id (cancel_script is_lobby match_id requester now mode s).0.ready ≡ none
unfolding cancel_script
cancel_script-gone is_lobby match_id requester now mode s h =
    elim (Option-cases (JsMap.get match_id s.ready)) [
      | inl e ↦ absurd (let k = rw (e, cancel_script) at h in cc)
      | inr (r, e) ↦ elim (Bool-cases (is_expiry mode && ltb now r.expires_at_ms)) [
        | inl o ↦ absurd (let k = rw (e, o, cancel_script) at h in cc)
        | inr o ↦ rw (e, o, cancel_script) (get-delete_self match_id _)
      ]
    ]

accept_script-missing :
    (player match_id : String) (now at : ℕ) (s : Store)
    → JsMap.get match_id s.ready ≡ none
    → accept_script player match_id now at s ≡ (s, missing)
unfolding accept_script
accept_script-missing player match_id now at s h = rw (h, accept_script) refl

cancel_script-nothing :
    (is_lobby : String → Bool) (match_id requester : String) (now : ℕ) (mode : CancelMode)
    (s : Store)
    → JsMap.get match_id s.ready ≡ none
    → cancel_script is_lobby match_id requester now mode s ≡ (s, nothing)
unfolding cancel_script
cancel_script-nothing is_lobby match_id requester now mode s h = rw (h, cancel_script) refl

-- Once a ready check has been cancelled, accepting it and cancelling it again, by whomever and for
-- whatever reason, answer that there is none and write nothing; so nobody is penalised twice.
pub cancel_script-once :
    (is_lobby : String → Bool) (match_id requester : String) (now : ℕ) (mode : CancelMode)
    (s s' : Store)
    → cancel_script is_lobby match_id requester now mode s ≡ (s', cancelled)
    → ((player : String) (now at : ℕ) → accept_script player match_id now at s' ≡ (s', missing))
      × ((player : String) (now : ℕ) (again : CancelMode)
          → cancel_script is_lobby match_id player now again s' ≡ (s', nothing))
cancel_script-once is_lobby match_id requester now mode s s' h =
    let gone : JsMap.get match_id s'.ready ≡ none =
      subst (λ (x : Store). JsMap.get match_id x.ready ≡ none) (ap (λ r. r.0) h)
        (cancel_script-gone is_lobby match_id requester now mode s (ap (λ r. r.1) h)) in
    (
      λ player now at. accept_script-missing player match_id now at s' gone,
      λ player now again. cancel_script-nothing is_lobby match_id player now again s' gone,
    )

complete_veto_script-gone :
    (match_id : String) (a : MatchAssignment) (s : Store) (n : ℕ)
    → (complete_veto_script match_id a s).1 ≡ delivered n
    → JsMap.get match_id (complete_veto_script match_id a s).0.vetoes ≡ none
unfolding complete_veto_script
complete_veto_script-gone match_id a s n h = elim (Option-cases (JsMap.get match_id s.vetoes)) [
  | inl e ↦ absurd (let k = rw (e, complete_veto_script) at h in cc)
  | inr (v, e) ↦
      elim (Bool-cases
        (is_active v.state.status || not (selects v.state.selected_map a.map_name))) [
          | inl o ↦ absurd (let k = rw (e, o, complete_veto_script) at h in cc)
          | inr o ↦ rw (e, o, complete_veto_script) (get-delete_self match_id _)
        ]
]

complete_veto_script-missing :
    (match_id : String) (a : MatchAssignment) (s : Store)
    → JsMap.get match_id s.vetoes ≡ none
    → complete_veto_script match_id a s ≡ (s, no_veto)
unfolding complete_veto_script
complete_veto_script-missing match_id a s h = rw (h, complete_veto_script) refl

-- A settled veto's server is delivered once: after a delivery, completing the veto again, with
-- whatever server, answers that there is none and writes nothing.
pub complete_veto_script-once :
    (match_id : String) (a b : MatchAssignment) (s s' : Store) (n : ℕ)
    → complete_veto_script match_id a s ≡ (s', delivered n)
    → complete_veto_script match_id b s' ≡ (s', no_veto)
complete_veto_script-once match_id a b s s' n h = complete_veto_script-missing match_id b s' (
    subst (λ (x : Store). JsMap.get match_id x.vetoes ≡ none) (ap (λ r. r.0) h)
      (complete_veto_script-gone match_id a s n (ap (λ r. r.1) h)))
