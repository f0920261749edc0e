-- ===== src/RedisQueue/Owned/Entering.antt =====
-- The queue's invariant and `JOIN_SCRIPT`.
use legacy_match_platform.Common.{
  ℕ, suc, String, true, Option, none, some, List, [], ◌∷◌, includes, ◌==◌, String_eq, ltb, ◌≡◌,
  refl, sym, ◌∙◌, ap, inl, inr, arith, ◌⊎◌, ◌≢◌, Bool-cases, Option-cases, eq→≡, eq_iff, subst, ok,
  err,
}
use legacy_match_platform.Common.JsMap
use legacy_match_platform.Common.JsMap.{JsMap, get-delete, get-set_ne}
use legacy_match_platform.Contracts.{searching}
use legacy_match_platform.RedisQueue.{Store, Ticket, Reply, ◌>>=◌, ScriptError}
use legacy_match_platform.RedisQueue.Join.{
  held_ticket, clear_pointer, check_members, cooldown_left, group_of, Group, VerifiedParty, persist,
  enter, join_script,
}
use legacy_match_platform.RedisQueue.Owned.{Consistent}
use legacy_match_platform.RedisQueue.Owned.Writes.{Owned-unpoint, Owned-file}

-- The store `s'` is `s` with some pointers deleted.
pub record Shrinks (s s' : Store) : Type 0 where
  pub tickets : s'.tickets ≡ s.tickets
  pub fence : s'.fence ≡ s.fence
  pub searching : s'.searching ≡ s.searching
  pub ready : s'.ready ≡ s.ready
  pub pointers : (m x : String) → JsMap.get m s'.pointers ≡ some x → JsMap.get m s.pointers ≡ some x

Shrinks-refl : (s : Store) → Shrinks s s
Shrinks-refl s = record {
  tickets = refl;
  fence = refl;
  searching = refl;
  ready = refl;
  pointers = λ m x h. h;
}

Shrinks-trans : {a b c : Store} → Shrinks a b → Shrinks b c → Shrinks a c
Shrinks-trans p q = record {
  tickets = q.tickets ∙ p.tickets;
  fence = q.fence ∙ p.fence;
  searching = q.searching ∙ p.searching;
  ready = q.ready ∙ p.ready;
  pointers = λ m x h. p.pointers m x (q.pointers m x h);
}

pub clear_pointer-Shrinks : (m : String) (s : Store) → Shrinks s (clear_pointer m s)
unfolding clear_pointer
clear_pointer-Shrinks m s = elim (Option-cases (JsMap.get m s.pointers)) [
  | inl e ↦ rw (e, clear_pointer) (Shrinks-refl s)
  | inr (id, e) ↦
      rw (e, clear_pointer)
        (record {
          tickets = refl;
          fence = refl;
          searching = refl;
          ready = refl;
          pointers = λ k x h. ground (arith, get-delete m k s.pointers);
        })
]

pub held_ticket-none :
    (s : Store) (m id : String)
    → held_ticket s m ≡ none
    → JsMap.get m s.pointers ≡ some id
    → JsMap.get id s.tickets ≡ none
unfolding held_ticket
held_ticket-none s m id h p = ground arith

pub clear_pointer-Consistent :
    (m : String) (s : Store)
    → held_ticket s m ≡ none
    → Consistent s
    → Consistent (clear_pointer m s)
unfolding clear_pointer
clear_pointer-Consistent m s free v = elim (Option-cases (JsMap.get m s.pointers)) [
  | inl e ↦ rw (e, clear_pointer) v
  | inr (id, e) ↦ rw (e, clear_pointer) (Owned-unpoint v m (λ id. held_ticket-none s m id free))
]

clear_pointer-none : (m : String) (s : Store) → JsMap.get m (clear_pointer m s).pointers ≡ none
unfolding clear_pointer
clear_pointer-none m s = ground (arith, get-delete m m s.pointers, eq_iff m m)

-- What the loop over the members leaves.
pub record Checked (ms : List String) (s : Store) (r : Reply (Unit {0})) : Type 0 where
  pub consistent : Consistent r.0
  pub shrinks : Shrinks s r.0
  pub free : r.1 ≡ ok tt → (m : String) → includes ms m ≡ true → JsMap.get m r.0.pointers ≡ none

none_of_Shrinks :
    {s s' : Store} (m : String)
    → Shrinks s s'
    → JsMap.get m s.pointers ≡ none
    → JsMap.get m s'.pointers ≡ none
none_of_Shrinks {s} {s'} m p h = elim (Option-cases (JsMap.get m s'.pointers)) [
  | inl e ↦ e
  | inr (x, e) ↦ let f = p.pointers m x e in absurd (cc)
]

pub check_members-Checked :
    (now : ℕ) (ms : List String) (s : Store) → Consistent s → Checked ms s (check_members now ms s)
unfolding check_members
check_members-Checked now [] s v = record {
  consistent = v;
  shrinks = Shrinks-refl s;
  free = λ e m i. absurd (cc);
}
check_members-Checked now (m ∷ ms) s v = elim (Bool-cases (ltb 0 (cooldown_left now m s))) [
  | inl c ↦
      rw (c, check_members)
        (record { consistent = v; shrinks = Shrinks-refl s; free = λ e. absurd (cc) })
  | inr c ↦ elim (Option-cases (held_ticket s m)) [
    | inr (t, e) ↦
        rw (c, e, check_members)
          (record { consistent = v; shrinks = Shrinks-refl s; free = λ e. absurd (cc) })
    | inl e ↦
        let rest =
          check_members-Checked now ms (clear_pointer m s) (clear_pointer-Consistent m s e v) in
        rw (c, e, check_members)
          (record {
            consistent = rest.consistent;
            shrinks = Shrinks-trans (clear_pointer-Shrinks m s) rest.shrinks;
            free = λ h k i. elim (Bool-cases (m == k)) [
              | inl q ↦ rw (← eq→≡ m k q) (none_of_Shrinks m rest.shrinks (clear_pointer-none m s))
              | inr q ↦ rest.free h k (ground arith)
            ];
          })
  ]
]

-- The group is found without touching tickets or pointers.
pub group_of-Shrinks :
    (requester : String) (verified : Option VerifiedParty) (s : Store)
    → Shrinks s (group_of requester verified s).0
unfolding group_of
group_of-Shrinks requester (some p) s = Shrinks-refl s
group_of-Shrinks requester none s = record {
  tickets = ground arith;
  fence = ground arith;
  searching = ground arith;
  ready = ground arith;
  pointers = λ m x h. ground arith;
}

group_of-pointers :
    (requester : String) (verified : Option VerifiedParty) (s : Store)
    → (group_of requester verified s).0.pointers ≡ s.pointers
unfolding group_of
group_of-pointers requester (some p) s = refl
group_of-pointers requester none s = ground arith

pub group_of-Consistent :
    (requester : String) (verified : Option VerifiedParty) (s : Store)
    → Consistent s
    → Consistent (group_of requester verified s).0
group_of-Consistent requester verified s v =
    let g = group_of-Shrinks requester verified s in
    rw (g.tickets, g.fence, g.searching, group_of-pointers requester verified s) v

-- The identifier of a new ticket names no ticket, and no pointer leads to it.
pub record IsFresh (s : Store) (id : String) : Type 0 where
  pub unused : JsMap.get id s.tickets ≡ none
  pub unnamed : (m : String) → JsMap.get m s.pointers ≢ some id

Shrinks-IsFresh : {s s' : Store} {id : String} → Shrinks s s' → IsFresh s id → IsFresh s' id
Shrinks-IsFresh {id} p f = record {
  unused = rw p.tickets f.unused;
  unnamed = λ m h. f.unnamed m (p.pointers m id h);
}

persist-Consistent :
    (t : Ticket) (score : ℕ) (g : Group) (s : Store)
    → Consistent s
    → IsFresh s t.id
    → t.queue.phase ≡ searching
    → ((m : String) → includes g.members m ≡ true → JsMap.get m s.pointers ≡ none)
    → Consistent (persist t score g s).0
unfolding persist
persist-Consistent t score g s v f phase free =
    let filed : Ticket = record t {
      fencing_token = suc s.fence;
      party_id = g.party_id;
      leader_player_id = g.leader;
      member_player_ids = g.members;
    } in
    Owned-file v filed score f.unused f.unnamed (λ m id u i p h. let n = free m i in absurd (cc))
      refl phase

-- A property of what a step and its continuation leave.
pub bind_inv {ℓ} :
    {A B : Type 0} (P : Store → Type ℓ) (m : Reply A) (k : A → Store → Reply B)
    → ((s : Store) (e : ScriptError) → m ≡ (s, err e) → P s)
    → ((s : Store) (a : A) → m ≡ (s, ok a) → P (k a s).0)
    → P (m >>= k).0
bind_inv P (s, err e) k failed passed = failed s e refl
bind_inv P (s, ok a) k failed passed = passed s a refl

enter-Consistent :
    (t : Ticket) (verified : Option VerifiedParty) (now joined_at : ℕ) (requester : String)
    (s : Store)
    → Consistent s
    → IsFresh s t.id
    → t.queue.phase ≡ searching
    → Consistent (enter t verified now joined_at requester s).0
unfolding enter
enter-Consistent t verified now joined_at requester s v f phase =
    let shrunk = group_of-Shrinks requester verified s in
    let grouped = group_of-Consistent requester verified s v in
    bind_inv Consistent (group_of requester verified s) _
      (λ s1 e h. subst (λ r. Consistent r.0) h grouped)
      (λ s1 g h.
        let v1 : Consistent s1 = subst (λ r. Consistent r.0) h grouped in
        let p1 : Shrinks s s1 = subst (λ r. Shrinks s r.0) h shrunk in
        let c = check_members-Checked now g.members s1 v1 in
        bind_inv Consistent (check_members now g.members s1) _
          (λ s2 e h'. subst (λ r. Consistent r.0) h' c.consistent)
          (λ s2 _ h'.
            let p2 : Shrinks s1 s2 = subst (λ r. Shrinks s1 r.0) h' c.shrinks in
            persist-Consistent t joined_at g s2 (subst (λ r. Consistent r.0) h' c.consistent)
              (Shrinks-IsFresh (Shrinks-trans p1 p2) f) phase
              (λ m i.
                subst (λ r. JsMap.get m r.0.pointers ≡ none) h'
                  (c.free (ap (λ r. r.1) h' ∙ ground arith) m i))))

pub join_script-Consistent :
    (t : Ticket) (verified : Option VerifiedParty) (now joined_at : ℕ) (requester : String)
    (s : Store)
    → Consistent s
    → IsFresh s t.id
    → t.queue.phase ≡ searching
    → Consistent (join_script t verified now joined_at requester s).0
unfolding join_script
join_script-Consistent t verified now joined_at requester s v f phase =
    elim (Option-cases (held_ticket s requester)) [
      | inr (u, e) ↦ rw (e, join_script) v
      | inl e ↦
          rw (e, join_script)
            (enter-Consistent t verified now joined_at requester (clear_pointer requester s)
              (clear_pointer-Consistent requester s e v)
              (Shrinks-IsFresh (clear_pointer-Shrinks requester s) f) phase)
    ]

-- The store `s'` has the tickets of `s`, but for one under `id`, and the same ready checks.
pub record Grows (id : String) (s s' : Store) : Type 0 where
  pub ready : s'.ready ≡ s.ready
  pub tickets :
      (k : String) (t : Ticket)
      → JsMap.get k s'.tickets ≡ some t
      → (JsMap.get k s.tickets ≡ some t) ⊎ (k ≡ id)

Shrinks-Grows : {s s' : Store} (id : String) → Shrinks s s' → Grows id s s'
Shrinks-Grows id p = record { ready = p.ready; tickets = λ k t h. inl (rw (← p.tickets) h) }

Grows-after : {a b c : Store} {id : String} → Shrinks a b → Grows id b c → Grows id a c
Grows-after p g = record {
  ready = g.ready ∙ p.ready;
  tickets = λ k t h. elim (g.tickets k t h) [ inl e ↦ inl (rw (← p.tickets) e) | inr e ↦ inr e ];
}

persist-Grows :
    (t : Ticket) (score : ℕ) (g : Group) (s : Store) → Grows t.id s (persist t score g s).0
unfolding persist
persist-Grows t score g s = record {
  ready = refl;
  tickets = λ k u h. elim (Bool-cases (t.id == k)) [
    | inl e ↦ inr (sym (eq→≡ t.id k e))
    | inr e ↦ inl (sym (get-set_ne t.id k _ s.tickets e) ∙ h)
  ];
}

enter-Grows :
    (t : Ticket) (verified : Option VerifiedParty) (now joined_at : ℕ) (requester : String)
    (s : Store)
    → Consistent s
    → Grows t.id s (enter t verified now joined_at requester s).0
unfolding enter
enter-Grows t verified now joined_at requester s v =
    let shrunk = group_of-Shrinks requester verified s in
    let grouped = group_of-Consistent requester verified s v in
    bind_inv (Grows t.id s) (group_of requester verified s) _
      (λ s1 e h. subst (λ r. Grows t.id s r.0) h (Shrinks-Grows t.id shrunk))
      (λ s1 g h.
        let p1 : Shrinks s s1 = subst (λ r. Shrinks s r.0) h shrunk in
        let c = check_members-Checked now g.members s1 (subst (λ r. Consistent r.0) h grouped) in
        bind_inv (Grows t.id s) (check_members now g.members s1) _
          (λ s2 e h'.
            Shrinks-Grows t.id (Shrinks-trans p1 (subst (λ r. Shrinks s1 r.0) h' c.shrinks)))
          (λ s2 _ h'.
            Grows-after (Shrinks-trans p1 (subst (λ r. Shrinks s1 r.0) h' c.shrinks))
              (persist-Grows t joined_at g s2)))

pub join_script-Grows :
    (t : Ticket) (verified : Option VerifiedParty) (now joined_at : ℕ) (requester : String)
    (s : Store)
    → Consistent s
    → Grows t.id s (join_script t verified now joined_at requester s).0
unfolding join_script
join_script-Grows t verified now joined_at requester s v =
    elim (Option-cases (held_ticket s requester)) [
      | inr (u, e) ↦ rw (e, join_script) (Shrinks-Grows t.id (Shrinks-refl s))
      | inl e ↦
          rw (e, join_script)
            (Grows-after (clear_pointer-Shrinks requester s) (
              enter-Grows t verified now joined_at requester (clear_pointer requester s)
                (clear_pointer-Consistent requester s e v)))
    ]
