-- ===== src/RedisQueue/Behaviour.antt =====
-- What the queue's scripts answer and leave behind.
use legacy_match_platform.Common.{
  ℕ, suc, ◌<◌, String, Bool, true, false, not, ◌&&◌, Option, none, some, includes, ◌==◌, String_eq,
  ℕ_eq, ◌≡◌, refl, sym, ◌∙◌, ap, inl, inr, arith, ◌⊎◌, Bool-cases, Option-cases, eq_iff, subst, ok,
  err,
}
use legacy_match_platform.Common.JsMap
use legacy_match_platform.Common.JsMap.{JsMap, get-set, get-set_self, get-delete, get-delete_self}
use legacy_match_platform.Contracts.{searching, QueuePhase_eq}
use legacy_match_platform.RedisQueue.{Store, Ticket, Reply, ◌>>=◌}
use legacy_match_platform.RedisQueue.Join.{
  held_ticket, clear_pointer, join_script, enter, persist, finish, admit, Group, group_of,
  check_members, created, VerifiedParty,
}
use legacy_match_platform.RedisQueue.Leave.{
  LeaveGuard, anything, attempt, session, names, admits, session_ended, remove_ticket, leave_script,
  is_party,
}
use legacy_match_platform.RedisQueue.Owned.{Consistent}
use legacy_match_platform.RedisQueue.Owned.Entering.{
  clear_pointer-Consistent, clear_pointer-Shrinks, group_of-Consistent, group_of-Shrinks,
  check_members-Checked,
}
use legacy_match_platform.RedisQueue.Owned.Pointers.{release_pointers-gone, get-point_to}

held_ticket_of_none :
    (s : Store) (m : String) → JsMap.get m s.pointers ≡ none → held_ticket s m ≡ none
unfolding held_ticket
held_ticket_of_none s m h = ground arith

-- Once a ticket is removed from a consistent store, none of its members holds a ticket.
remove_ticket-frees :
    (s : Store) (id m : String) (t : Ticket)
    → Consistent s
    → JsMap.get id s.tickets ≡ some t
    → includes t.member_player_ids m ≡ true
    → held_ticket (remove_ticket id t s) m ≡ none
unfolding remove_ticket
remove_ticket-frees s id m t v h i =
    held_ticket_of_none (remove_ticket id t s) m
      (release_pointers-gone id m t.member_player_ids s.pointers i (v.held id m t h i))

-- What a successful removal by `leave_script` was.
pub record Left (requester : String) (guard : LeaveGuard) (s s' : Store) (t : Ticket) : Type 0 where
  pub id : String
  pub pointed : JsMap.get requester s.pointers ≡ some id
  pub stored : JsMap.get id s.tickets ≡ some t
  pub named : names guard id ≡ true
  pub admitted : admits guard t ≡ true
  pub allowed :
      (is_party t.party_id && not (t.leader_player_id == requester) && not (session_ended guard))
      ≡ false
  pub after : s' ≡ remove_ticket id t s

same_answer :
    {s s' : Store} {t u : Ticket}
    → Path (Reply (Option Ticket)) (s, ok (some u)) (s', ok (some t))
    → (s' ≡ s) × (u ≡ t)
same_answer p = (sym (ap (λ r. r.0) p), ground arith)

leave_script-Left :
    (requester : String) (guard : LeaveGuard) (s s' : Store) (t : Ticket)
    → leave_script requester guard s ≡ (s', ok (some t))
    → Left requester guard s s' t
unfolding leave_script
leave_script-Left requester guard s s' t h = elim (Option-cases (JsMap.get requester s.pointers)) [
  | inl e ↦ absurd (ground arith)
  | inr (id, e) ↦ elim (Bool-cases (names guard id)) [
    | inr n ↦ absurd (ground arith)
    | inl n ↦ elim (Option-cases (JsMap.get id s.tickets)) [
      | inl f ↦ absurd (ground arith)
      | inr (u, f) ↦ elim (Bool-cases (admits guard u)) [
        | inr a ↦ absurd (ground arith)
        | inl a ↦
            elim (Bool-cases (
              is_party u.party_id
              && not (u.leader_player_id == requester)
              && not (session_ended guard))) [
                | inl b ↦ absurd (ground arith)
                | inr b ↦
                    let (after, same) = same_answer (rw (e, n, f, a, b, leave_script) at h) in
                    subst (λ u. Left requester guard s s' u) same
                      (record {
                        id = id;
                        pointed = e;
                        stored = f;
                        named = n;
                        admitted = a;
                        allowed = b;
                        after = after;
                      })
              ]
      ]
    ]
  ]
]

was_searching :
    (g : LeaveGuard) (u : Ticket)
    → admits g u ≡ true
    → (g ≡ anything) ⊎ ((u.queue.phase == searching) ≡ true)
unfolding admits
was_searching anything u a = inl refl
was_searching (attempt id token) u a = inr (ground arith)
was_searching (session id) u a = inr a

may_remove :
    (p : Option String) (leader requester : String) (c : Bool)
    → (is_party p && not (leader == requester) && not c) ≡ false
    → (p ≡ none) ⊎ (leader ≡ requester) ⊎ (c ≡ true)
may_remove none leader requester c e = inl refl
may_remove (some p) leader requester c e = inr (ground (arith, eq_iff leader requester))

-- When `leave_script` removes a ticket from a consistent store: it is the requester's own; under a
-- guard it was still searching; nobody but the leader removes a party's ticket, unless a session has
-- ended; and afterwards no member of the ticket holds any.
pub leave_script-frees :
    (requester : String) (guard : LeaveGuard) (s s' : Store) (t : Ticket)
    → Consistent s
    → leave_script requester guard s ≡ (s', ok (some t))
    → (held_ticket s requester ≡ some t)
      × ((guard ≡ anything) ⊎ ((t.queue.phase == searching) ≡ true))
      × ((t.party_id ≡ none) ⊎ (t.leader_player_id ≡ requester) ⊎ (session_ended guard ≡ true))
      × ((m : String) → includes t.member_player_ids m ≡ true → held_ticket s' m ≡ none)
leave_script-frees requester guard s s' t v h =
    let l = leave_script-Left requester guard s s' t h in
    (
      unfold held_ticket in ground (arith, l.pointed, l.stored),
      was_searching guard t l.admitted,
      may_remove t.party_id t.leader_player_id requester (session_ended guard) l.allowed,
      λ m i. rw l.after (remove_ticket-frees s l.id m t v l.stored i),
    )

-- Inversion of a step and what follows it.
bind-eq-ok :
    {A B : Type 0} (m : Reply A) (k : A → Store → Reply B) (s' : Store) (b : B)
    → (m >>= k) ≡ (s', ok b)
    → (a : A) × (s : Store) × (m ≡ (s, ok a)) × (k a s ≡ (s', ok b))
bind-eq-ok (s, err e) k s' b h = absurd (ground arith)
bind-eq-ok (s, ok a) k s' b h = (a, s, refl, h)

held_ticket_of :
    (s : Store) (m id : String) (t : Ticket)
    → JsMap.get m s.pointers ≡ some id
    → JsMap.get id s.tickets ≡ some t
    → held_ticket s m ≡ some t
unfolding held_ticket
held_ticket_of s m id t p h = ground (arith, p, h)

persist-held :
    (t : Ticket) (score : ℕ) (g : Group) (s : Store) (m : String)
    → includes (persist t score g s).1.member_player_ids m ≡ true
    → held_ticket (persist t score g s).0 m ≡ some (persist t score g s).1
unfolding persist
persist-held t score g s m i =
    held_ticket_of (persist t score g s).0 m t.id (persist t score g s).1
      (ground (arith, get-point_to t.id m g.members s.pointers, i))
      (get-set_self t.id (persist t score g s).1 s.tickets)

-- What is known of a ticket that has just been persisted.
record Entered (fence : ℕ) (s' : Store) (filed : Ticket) : Type 0 where
  holds : (m : String) → includes filed.member_player_ids m ≡ true → held_ticket s' m ≡ some filed
  newest : filed.fencing_token ≡ suc fence
  recorded : filed.fencing_token ≡ s'.fence

created_inj : {t u : Ticket} → created t ≡ created u → t ≡ u
created_inj e = cc

finish-Entered :
    (t filed : Ticket) (joined_at : ℕ) (g : Group) (s s' : Store)
    → finish t joined_at g s ≡ (s', ok (created filed))
    → Entered s.fence s' filed
finish-Entered t filed joined_at g s s' h =
    let (store, ticket) = finish_parts t filed joined_at g s s' h in
    rw (← store, ← ticket)
      (record {
        holds = persist-held t joined_at g s;
        newest = unfold persist in refl;
        recorded = unfold persist in refl;
      })
  where
    finish_parts :
        (t filed : Ticket) (joined_at : ℕ) (g : Group) (s s' : Store)
        → finish t joined_at g s ≡ (s', ok (created filed))
        → ((persist t joined_at g s).0 ≡ s') × ((persist t joined_at g s).1 ≡ filed)
    finish_parts t filed joined_at g s s' h = unfold finish in (ap (λ r. r.0) h, ground arith)

enter_lem :
    (t : Ticket) (verified : Option VerifiedParty) (now joined_at : ℕ) (requester : String)
    (s : Store)
    → (group_of requester verified s >>= admit t now joined_at)
      ≡ enter t verified now joined_at requester s
unfolding enter
enter_lem t verified now joined_at requester s = refl

admit_lem :
    (t : Ticket) (now joined_at : ℕ) (g : Group) (s : Store)
    → (check_members now g.members s >>= λ _ s2. finish t joined_at g s2)
      ≡ admit t now joined_at g s
unfolding admit
admit_lem t now joined_at g s = refl

enter-Entered :
    (t filed : Ticket) (verified : Option VerifiedParty) (now joined_at : ℕ) (requester : String)
    (s s' : Store)
    → Consistent s
    → enter t verified now joined_at requester s ≡ (s', ok (created filed))
    → Entered s.fence s' filed
enter-Entered t filed verified now joined_at requester s s' v h =
    let (g, s1, grouped, h1) =
      bind-eq-ok (group_of requester verified s) (admit t now joined_at) s' (created filed)
        (enter_lem t verified now joined_at requester s ∙ h) in
    let (_, s2, checked, h2) =
      bind-eq-ok (check_members now g.members s1) (λ _ s2. finish t joined_at g s2) s'
        (created filed) (admit_lem t now joined_at g s1 ∙ h1) in
    let v1 : Consistent s1 =
      subst (λ r. Consistent r.0) grouped (group_of-Consistent requester verified s v) in
    let p1 : s1.fence ≡ s.fence =
      subst (λ r. r.0.fence ≡ s.fence) grouped (group_of-Shrinks requester verified s).fence in
    let p2 : s2.fence ≡ s1.fence =
      subst (λ r. r.0.fence ≡ s1.fence) checked
        (check_members-Checked now g.members s1 v1).shrinks.fence in
    subst (λ fence. Entered fence s' filed) (p2 ∙ p1) (finish-Entered t filed joined_at g s2 s' h2)

-- When `join_script` answers, on a consistent store, that it created a ticket: the requester held none
-- before, each member of the ticket that is filed holds it now, and its fencing token is the store's
-- fence and greater than the token of every ticket that was there before.
pub join_script-created :
    (t filed : Ticket) (verified : Option VerifiedParty) (now joined_at : ℕ) (requester : String)
    (s s' : Store)
    → Consistent s
    → join_script t verified now joined_at requester s ≡ (s', ok (created filed))
    → (held_ticket s requester ≡ none)
      × ((m : String) → includes filed.member_player_ids m ≡ true → held_ticket s' m ≡ some filed)
      × (filed.fencing_token ≡ s'.fence)
      × ((id : String) (u : Ticket)
          → JsMap.get id s.tickets ≡ some u
          → u.fencing_token < filed.fencing_token)
unfolding join_script
join_script-created t filed verified now joined_at requester s s' v h =
    elim (Option-cases (held_ticket s requester)) [
      | inr (u, e) ↦ absurd (let p = rw (e, join_script) at h in ground arith)
      | inl e ↦
          let w =
            enter-Entered t filed verified now joined_at requester (clear_pointer requester s) s'
              (clear_pointer-Consistent requester s e v) (rw (e, join_script) at h) in
          let same = (clear_pointer-Shrinks requester s).fence in
          let newest = w.newest in
          (
            e,
            w.holds,
            w.recorded,
            λ id u hu. let old = v.fenced id u hu in omega (arith, old, same, newest),
          )
    ]
