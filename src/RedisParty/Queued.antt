-- ===== src/RedisParty/Queued.antt =====
-- What the scripts of the durable party service leave alone while a party is in the queue.
use legacy_match_platform.Common.{
  ℕ, String, Bool, true, false, some, List, [], ◌∷◌, ◌==◌, String_eq, ◌≡◌, refl, ◌∙◌, ok, err,
  arith, Bool-cases, eq_iff, inl, inr, Option-cases,
}
use legacy_match_platform.Common.JsMap
use legacy_match_platform.Common.JsMap.{JsMap, get-set, get-delete}
use legacy_match_platform.Party.{
  Member, is_member, PartyState, Call, creates, lists_invites, invites, accepts, sets_ready,
  transfers, leaves,
}
use legacy_match_platform.RedisParty.{
  Store, Reply, mapped, shrink, grow, live_invite, create_script, invite_script, accept_script,
  ready_script, transfer_script, leave_script, get_for_player, create, invite, invite_from,
  accept_invite, set_ready, transfer_leader, leave, list_invites, with_party,
}
use legacy_match_platform.RedisParty.History.{stored_step, stored_run}

-- A party's roster is as it was, and it is still queued.
record Frozen (id : String) (d e : Store) : Type 0 where
  pub roster : JsMap.get id e.parties ≡ JsMap.get id d.parties
  pub tickets : e.tickets ≡ d.tickets

mapped-Frozen :
    {A : Type 0} (id : String) (d : Store) (r : Reply A)
    → Frozen id d r.0
    → Frozen id d (mapped r).0
mapped-Frozen id d (s, ok a) h = h
mapped-Frozen id d (s, err e) h = h

module _ (d : Store) (id ticket : String) (q : JsMap.get id d.tickets ≡ some ticket) where
  same-Frozen : Frozen id d d
  same-Frozen = record { roster = refl; tickets = refl }

  -- A party that is not queued is another one.
  other : (k : String) → JsMap.has k d.tickets ≡ false → (k == id) ≡ false
  unfolding JsMap.has
  other k h = elim (Bool-cases (k == id)) [ inl e ↦ ground (arith, eq_iff k id) | inr e ↦ e ]

  write :
      (k : String) (p : PartyState)
      → (k == id) ≡ false
      → JsMap.get id (JsMap.set k p d.parties) ≡ JsMap.get id d.parties
  write k p h = JsMap.get-set_ne k id p d.parties h

  accept-Frozen :
      (player invite_id : String) (m : Member) (now : ℕ)
      → Frozen id d (accept_script player invite_id m now d).0
  unfolding accept_script live_invite
  accept-Frozen player invite_id m now = elim (Option-cases (live_invite now invite_id d.invites)) [
    | inl e ↦ rw (e, accept_script) same-Frozen
    | inr (i, e) ↦ elim (Bool-cases (JsMap.has i.party_id d.tickets)) [
      | inl t ↦ record { roster = ground arith; tickets = ground arith }
      | inr n ↦ elim (Option-cases (JsMap.get i.party_id d.parties)) [
        | inl g ↦ record { roster = ground arith; tickets = ground arith }
        | inr (p, g) ↦ record {
          roster = ground (arith, write i.party_id (grow m p) (other i.party_id n));
          tickets = ground arith;
        }
      ]
    ]
  ]

  -- A script that opens with `with_party`.
  with_party-Frozen :
      (player : String) (k : String → PartyState → Reply PartyState)
      → ((key : String) (p : PartyState) → (key == id) ≡ false → Frozen id d (k key p).0)
      → Frozen id d (with_party player d k).0
  with_party-Frozen player k h = elim (Option-cases (JsMap.get player d.pointers)) [
    | inl e ↦ rw (e, with_party) same-Frozen
    | inr (key, e) ↦ elim (Bool-cases (JsMap.has key d.tickets)) [
      | inl t ↦ rw (e, t, with_party) same-Frozen
      | inr n ↦ elim (Option-cases (JsMap.get key d.parties)) [
        | inl g ↦ rw (e, n, g, with_party) same-Frozen
        | inr (p, g) ↦ rw (e, n, g, with_party) (h key p (other key n))
      ]
    ]
  ]

  ready-Frozen : (player : String) (ready : Bool) → Frozen id d (ready_script player ready d).0
  unfolding ready_script
  ready-Frozen player ready = with_party-Frozen player _ λ key p ne.
      elim (Bool-cases (is_member p player)) [
        | inr n ↦ rw n same-Frozen
        | inl m ↦ rw m (record { roster = write key _ ne; tickets = refl })
      ]

  transfer-Frozen : (player next : String) → Frozen id d (transfer_script player next d).0
  unfolding transfer_script
  transfer-Frozen player next = with_party-Frozen player _ λ key p ne.
      elim (Bool-cases (p.leader_player_id == player)) [
        | inr n ↦ rw n same-Frozen
        | inl l ↦ elim (Bool-cases (is_member p next)) [
          | inr n ↦ rw (l, n) same-Frozen
          | inl m ↦ rw (l, m) (record { roster = write key _ ne; tickets = refl })
        ]
      ]

  leave-Frozen : (player : String) → Frozen id d (leave_script player d).0
  unfolding leave_script
  leave-Frozen player = elim (Option-cases (JsMap.get player d.pointers)) [
    | inl e ↦ rw (e, leave_script) same-Frozen
    | inr (key, e) ↦ elim (Bool-cases (JsMap.has key d.tickets)) [
      | inl t ↦ rw (e, t, leave_script) same-Frozen
      | inr n ↦ elim (Option-cases (JsMap.get key d.parties)) [
        | inl g ↦ rw (e, n, g, leave_script) (record { roster = refl; tickets = refl })
        | inr (p, g) ↦ elim (Option-cases (shrink player p)) [
          | inl k ↦
              rw (e, n, g, k, leave_script)
                (record {
                  roster = rw (get-delete key id d.parties, other key n) refl;
                  tickets = refl;
                })
          | inr (r, k) ↦
              rw (e, n, g, k, leave_script)
                (record { roster = write key r (other key n); tickets = refl })
        ]
      ]
    ]
  ]

  create-Frozen :
      (player fresh : String) (now : ℕ)
      → (fresh == id) ≡ false
      → Frozen id d (create player fresh now d).0
  unfolding create create_script
  create-Frozen player fresh now ne =
      let party : PartyState = record {
        id = fresh;
        leader_player_id = player;
        members = record { player_id = player; ready = true; joined_at = now } ∷ [];
        created_at = now;
        version = 1;
      } in
      record { roster = ground (arith, write fresh party ne); tickets = ground arith }

  invite-Frozen :
      (ttl : ℕ) (player invited fresh : String) (now : ℕ)
      → Frozen id d (invite ttl player invited fresh now d).0
  unfolding invite invite_from get_for_player invite_script
  invite-Frozen ttl player invited fresh now = record {
    roster = ground arith;
    tickets = ground arith;
  }

-- The party identifiers that the calls draw are not `id`.
abbrev DrawsOther : String → Call → Type 0
DrawsOther id (creates player fresh now) = (fresh == id) ≡ false
DrawsOther id _ = Unit

abbrev pub AllDrawOther : String → List Call → Type 0
AllDrawOther id [] = Unit
AllDrawOther id (c ∷ cs) = DrawsOther id c × AllDrawOther id cs

step-Frozen :
    (z_range : JsMap ℕ → List String) (d : Store) (id ticket : String) (c : Call)
    → JsMap.get id d.tickets ≡ some ticket
    → DrawsOther id c
    → Frozen id d (stored_step z_range d c).0
unfolding stored_step accept_invite set_ready transfer_leader leave list_invites
step-Frozen z d id t (creates player fresh now) q h = create-Frozen d id t q player fresh now h
step-Frozen z d id t (lists_invites player now) q h = record { roster = refl; tickets = refl }
step-Frozen z d id t (invites player other fresh now) q h =
    invite-Frozen d id t q _ player other fresh now
step-Frozen z d id t (accepts player invite_id now) q h =
    mapped-Frozen id d _ (accept-Frozen d id t q player invite_id _ now)
step-Frozen z d id t (sets_ready player ready) q h =
    mapped-Frozen id d _ (ready-Frozen d id t q player ready)
step-Frozen z d id t (transfers player next) q h =
    mapped-Frozen id d _ (transfer-Frozen d id t q player next)
step-Frozen z d id t (leaves player) q h = mapped-Frozen id d _ (leave-Frozen d id t q player)

-- While a party has a queue ticket, no history of calls of the durable party service changes the
-- stored party or takes its ticket away, provided that no call draws the party's own identifier for
-- a new party.
pub queued-roster_frozen :
    (z_range : JsMap ℕ → List String) (d : Store) (id ticket : String) (cs : List Call)
    → JsMap.get id d.tickets ≡ some ticket
    → AllDrawOther id cs
    → ((JsMap.get id (stored_run z_range d cs).parties ≡ JsMap.get id d.parties)
        × (JsMap.get id (stored_run z_range d cs).tickets ≡ some ticket))
unfolding stored_run
queued-roster_frozen z d id t [] q h = (refl, q)
queued-roster_frozen z d id t (c ∷ cs) q h =
    let f = step-Frozen z d id t c q h.0 in
    let rest = queued-roster_frozen z (stored_step z d c).0 id t cs (rw (f.tickets) q) h.1 in
    (rest.0 ∙ f.roster, rest.1)
