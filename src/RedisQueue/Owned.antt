-- ===== src/RedisQueue/Owned.antt =====
-- Who holds which ticket: the invariant of the tickets, pointers, fence and sorted set of
-- apps/api/src/redis-queue-service.ts.
pub mod Pointers
pub mod Writes
pub mod Entering
pub mod Sound
pub mod Matching
pub mod Accepting
pub mod Playing
pub mod History
pub mod Ending
use legacy_match_platform.Common.{
  ℕ, ◌≤◌, String, Bool, true, false, Option, none, some, List, [], ◌∷◌, includes, ◌==◌, String_eq,
  ◌≡◌, refl, sym, ◌∙◌, ap, inl, inr, arith, ◌⊎◌, Bool-cases, Option-cases, eq→≡, eq_iff, beq_refl,
  some_inj, subst,
}
use legacy_match_platform.Common.JsMap
use legacy_match_platform.Common.JsMap.{JsMap, get-set, get-delete}
use legacy_match_platform.Contracts.{searching, QueueState}
use legacy_match_platform.RedisQueue.{Store, Ticket, release_pointers, for_each}

pub record Owned (tickets : JsMap Ticket) (pointers : JsMap String) (fence : ℕ) (queue : JsMap ℕ)
    : Type 0 where
  -- A ticket is filed under its identifier.
  pub filed : (id : String) (t : Ticket) → JsMap.get id tickets ≡ some t → t.id ≡ id
  -- Each member of a ticket points to it, so nobody is on two tickets.
  pub held :
      (id m : String) (t : Ticket)
      → JsMap.get id tickets ≡ some t
      → includes t.member_player_ids m ≡ true
      → JsMap.get m pointers ≡ some id
  -- A player who points to a ticket is on it.
  pub mine :
      (id m : String) (t : Ticket)
      → JsMap.get m pointers ≡ some id
      → JsMap.get id tickets ≡ some t
      → includes t.member_player_ids m ≡ true
  -- The fence has passed every token, and no two tickets have the same.
  pub fenced : (id : String) (t : Ticket) → JsMap.get id tickets ≡ some t → t.fencing_token ≤ fence
  pub tokens :
      (a b : String) (t u : Ticket)
      → JsMap.get a tickets ≡ some t
      → JsMap.get b tickets ≡ some u
      → t.fencing_token ≡ u.fencing_token
      → a ≡ b
  -- Whatever the sorted set lists is the identifier of a ticket that is searching, and it lists
  -- each such ticket.
  pub listed :
      (id : String) (score : ℕ)
      → JsMap.get id queue ≡ some score
      → (t : Ticket) × (JsMap.get id tickets ≡ some t) × (t.queue.phase ≡ searching)
  pub queued :
      (id : String) (t : Ticket)
      → JsMap.get id tickets ≡ some t
      → t.queue.phase ≡ searching
      → (score : ℕ) × (JsMap.get id queue ≡ some score)

abbrev pub Consistent : Store → Type 0
Consistent s = Owned s.tickets s.pointers s.fence s.searching

-- What a rewrite of a ticket leaves as it was.
pub record SameTicket (t u : Ticket) : Type 0 where
  pub id : u.id ≡ t.id
  pub members : u.member_player_ids ≡ t.member_player_ids
  pub token : u.fencing_token ≡ t.fencing_token

-- The place of one ticket in the sorted set agrees with its phase.
pub record Placed (queue : JsMap ℕ) (id : String) (t : Ticket) : Type 0 where
  pub listed : (score : ℕ) → JsMap.get id queue ≡ some score → t.queue.phase ≡ searching
  pub queued : t.queue.phase ≡ searching → (score : ℕ) × (JsMap.get id queue ≡ some score)

pub Owned-Placed :
    {tickets : JsMap Ticket} {pointers : JsMap String} {fence : ℕ} {queue : JsMap ℕ}
    → Owned tickets pointers fence queue
    → (id : String) (t : Ticket) → JsMap.get id tickets ≡ some t
    → Placed queue id t
Owned-Placed v id t h = record {
  listed = λ score q.
      let (u, hu, p) = v.listed id score q in
      subst (λ (t : Ticket). t.queue.phase ≡ searching) (some_inj (sym hu ∙ h)) p;
  queued = λ p. v.queued id t h p;
}

-- A loop keeps what its body keeps.
pub for_each_inv {ℓ} :
    {A : Type 0} (P : Store → Type ℓ) (f : A → Store → Store)
    → ((a : A) (s : Store) → P s → P (f a s))
    → (xs : List A) (s : Store) → P s
    → P (for_each f xs s)
unfolding for_each
for_each_inv P f keep [] s h = h
for_each_inv P f keep (x ∷ xs) s h = for_each_inv P f keep xs (f x s) (keep x s h)
