-- ===== src/RedisQueue/Owned/Sound.antt =====
-- The invariant of the whole store: that of the tickets, and what holds of the tickets of an open
-- ready check. How it stands under each kind of write.
use legacy_match_platform.Common.{
  String, true, some, List, [], ◌∷◌, includes, ◌==◌, String_eq, ◌≡◌, refl, inl, inr, arith, ◌≢◌,
  Bool-cases, Option-cases, eq_iff,
}
use legacy_match_platform.Common.JsMap
use legacy_match_platform.Common.JsMap.{JsMap, get-set, get-delete, get-delete_ne, get-delete_self}
use legacy_match_platform.Contracts.{searching}
use legacy_match_platform.RedisQueue.{Store, Ticket, ReadyRecord, for_each}
use legacy_match_platform.RedisQueue.Leave.{remove_ticket}
use legacy_match_platform.RedisQueue.Accept.{update_ticket}
use legacy_match_platform.RedisQueue.Owned.{Consistent, SameTicket, Owned-Placed}
use legacy_match_platform.RedisQueue.Owned.Writes.{
  Owned-rewrite, Owned-delete, get-set_cases, get-delete-some,
}

abbrev pub Settled : JsMap ReadyRecord → JsMap Ticket → Type 0
Settled ready tickets =
    (match_id id : String) (r : ReadyRecord) (t : Ticket)
    → JsMap.get match_id ready ≡ some r
    → includes r.ticket_ids id ≡ true
    → JsMap.get id tickets ≡ some t
    → t.queue.phase ≢ searching

pub record Sound (s : Store) : Type 0 where
  pub owned : Consistent s
  pub settled : Settled s.ready s.tickets

Settled-rewrite :
    (ready : JsMap ReadyRecord) (tickets : JsMap Ticket) (id : String) (t u : Ticket)
    → Settled ready tickets
    → JsMap.get id tickets ≡ some t
    → (u.queue.phase ≡ searching → t.queue.phase ≡ searching)
    → Settled ready (JsMap.set id u tickets)
Settled-rewrite ready tickets id t u v here back match_id k r x hr i h p =
    elim (get-set_cases id k u x tickets h) [
      | inl (e, f) ↦ v match_id id r t hr (rw e i) here (back (rw f p))
      | inr (e, f) ↦ v match_id k r x hr i f p
    ]

-- A rewrite under which the ticket is searching exactly if it was.
pub Sound-rewrite :
    (s : Store) (id : String) (t u : Ticket)
    → Sound s
    → JsMap.get id s.tickets ≡ some t
    → SameTicket t u
    → (t.queue.phase ≡ searching → u.queue.phase ≡ searching)
    → (u.queue.phase ≡ searching → t.queue.phase ≡ searching)
    → Sound (record s { tickets = JsMap.set id u s.tickets })
Sound-rewrite s id t u v here same there back =
    let placed = Owned-Placed v.owned id t here in
    record {
      owned =
          Owned-rewrite v.owned id t here u s.searching same
            (record {
              listed = λ score q. there (placed.listed score q);
              queued = λ p. placed.queued (back p);
            })
            (λ k e. refl);
      settled = Settled-rewrite s.ready s.tickets id t u v.settled here back;
    }

-- A rewrite that takes the ticket out of the queue.
pub Sound-unqueue :
    (s : Store) (id : String) (t u : Ticket)
    → Sound s
    → JsMap.get id s.tickets ≡ some t
    → SameTicket t u
    → u.queue.phase ≢ searching
    → Sound
        (record s { tickets = JsMap.set id u s.tickets; searching = JsMap.delete id s.searching })
Sound-unqueue s id t u v here same out = record {
  owned =
      Owned-rewrite v.owned id t here u (JsMap.delete id s.searching) same
        (record {
          listed = λ score q. let gone = get-delete_self id s.searching in absurd (cc);
          queued = λ p. absurd (out p);
        })
        (λ k e. get-delete_ne id k s.searching e);
  settled = Settled-rewrite s.ready s.tickets id t u v.settled here (λ p. absurd (out p));
}

pub remove_ticket-Sound :
    (s : Store) (id : String) (t : Ticket)
    → Sound s
    → JsMap.get id s.tickets ≡ some t
    → Sound (remove_ticket id t s)
unfolding remove_ticket
remove_ticket-Sound s id t v here = record {
  owned = Owned-delete v.owned id t here;
  settled =
      λ match_id k r x hr i h. v.settled match_id k r x hr i (get-delete-some id k x s.tickets h).1;
}

pub update_ticket-Sound :
    (f : Ticket → Ticket) (s : Store) (id : String)
    → Sound s
    → ((t : Ticket) → SameTicket t (f t))
    → ((t : Ticket)
        → JsMap.get id s.tickets ≡ some t
        → t.queue.phase ≡ searching
        → (f t).queue.phase ≡ searching)
    → ((t : Ticket) → (f t).queue.phase ≡ searching → t.queue.phase ≡ searching)
    → Sound (update_ticket f id s)
unfolding update_ticket
update_ticket-Sound f s id v same there back = elim (Option-cases (JsMap.get id s.tickets)) [
  | inl e ↦ rw (e, update_ticket) v
  | inr (t, e) ↦
      rw (e, update_ticket) (Sound-rewrite s id t (f t) v e (same t) (there t e) (back t))
]

-- Deleting a ready check, and replacing one by another over the same tickets.
pub Settled-delete :
    (ready : JsMap ReadyRecord) (tickets : JsMap Ticket) (match_id : String)
    → Settled ready tickets
    → Settled (JsMap.delete match_id ready) tickets
Settled-delete ready tickets match_id v k id r t hr =
    v k id r t (ground (arith, get-delete match_id k ready))

pub Settled-replace :
    (ready : JsMap ReadyRecord) (tickets : JsMap Ticket) (match_id : String) (q : ReadyRecord)
    → Settled ready tickets
    → ((id : String) (t : Ticket)
        → includes q.ticket_ids id ≡ true
        → JsMap.get id tickets ≡ some t
        → t.queue.phase ≢ searching)
    → Settled (JsMap.set match_id q ready) tickets
Settled-replace ready tickets match_id q v new k id r t hr i = elim (Bool-cases (match_id == k)) [
  | inl e ↦ let same : q ≡ r = ground (arith, get-set match_id k q ready) in new id t (rw same i)
  | inr e ↦ v k id r t (ground (arith, get-set match_id k q ready)) i
]

-- A loop over identifiers keeps what its body keeps for each of them.
pub for_each_ids {ℓ} :
    (P : Store → Type ℓ) (f : String → Store → Store) (xs : List String)
    → ((id : String) (s : Store) → includes xs id ≡ true → P s → P (f id s))
    → (s : Store) → P s
    → P (for_each f xs s)
unfolding for_each
for_each_ids P f [] keep s h = h
for_each_ids P f (x ∷ xs) keep s h =
    for_each_ids P f xs (λ id s i. keep id s (ground arith)) (f x s)
      (keep x s (ground (arith, eq_iff x x)) h)
