-- ===== src/Party/Preservation.antt =====
-- The methods of the party service (apps/api/src/party-service.ts) and the invariant of its maps.
use legacy_match_platform.Common.{
  ℕ, String, Bool, true, false, some, List, [], ◌∷◌, length, includes, distinct, if◌then◌else◌,
  ◌==◌, String_eq, leb, ◌≡◌, refl, sym, ◌∙◌, ap, inl, inr, arith, Bool-cases, Option-cases, eq_iff,
  some_inj,
}
use legacy_match_platform.Common.JsMap
use legacy_match_platform.Common.JsMap.{JsMap, get-set, get-delete, has-eq-false}
use legacy_match_platform.Party.{
  PartyService, PartyState, Member, PartyInvite, find_party, is_member, player_ids, get_for_player,
  create, list_invites, invite, join, accept_invite, set_ready, transfer_leader, remove_first,
  splice_member, leave, with_party, expire_invites, Call, creates, lists_invites, invites, accepts,
  sets_ready, transfers, leaves, step, run, empty,
}
use legacy_match_platform.Party.Members.{
  player_ids-mark_ready, length-mark_ready, includes-remove_first,
}
use legacy_match_platform.Party.Invariant.{
  IsParty, Inv, find_party_found, find_party_missing, Inv-replace,
}
use legacy_match_platform.Party.Writes.{IsFresh, Inv-found, Inv-push, Inv-remove, Inv-disband}

pub create-Inv :
    (s : PartyService) (player id : String) (now : ℕ)
    → Inv s
    → IsFresh s id
    → Inv (create s player id now).0
unfolding create get_for_player
create-Inv s player id now v f = elim (Option-cases (find_party s player)) [
  | inl e ↦
      rw (e, create, get_for_player)
        (Inv-found s player id now v f (find_party_missing s player v e))
  | inr (found, e) ↦ rw (e, create, get_for_player) v
]

pub key-ne-empty :
    (s : PartyService) (key : String) (p : PartyState)
    → Inv s
    → JsMap.get key s.parties ≡ some p
    → (key == "") ≡ false
key-ne-empty s key p v found =
    let old = v.sound key p found in
    let (r, ne, _, _) = v.joined p.leader_player_id key (old.home p.leader_player_id old.led) in ne

join-Inv :
    (s : PartyService) (player id : String) (i : PartyInvite) (now : ℕ)
    → Inv s
    → Inv (join s player id i now).0
unfolding join
join-Inv s player id i now v = elim (Bool-cases (JsMap.has player s.party_by_player)) [
  | inl e ↦ rw (e, join) v
  | inr alone ↦ elim (Option-cases (JsMap.get i.party_id s.parties)) [
    | inl e ↦ rw (alone, e, join) v
    | inr (p, e) ↦ elim (Bool-cases (leb 5 (length p.members))) [
      | inl full ↦ rw (alone, e, full, join) v
      | inr room ↦
          rw (alone, e, room, join)
            (Inv-push s player i.party_id _ p _ v e (key-ne-empty s i.party_id p v e)
              (has-eq-false player s.party_by_player alone) refl (ground arith))
    ]
  ]
]

-- The invitations play no part in the invariant.
expire_invites-Inv : (s : PartyService) (now : ℕ) → Inv s → Inv (expire_invites s now)
unfolding expire_invites
expire_invites-Inv s now v = record { sound = v.sound; joined = v.joined }

accept_invite-Inv :
    (s : PartyService) (player id : String) (now : ℕ)
    → Inv s
    → Inv (accept_invite s player id now).0
unfolding accept_invite
accept_invite-Inv s player id now v =
    let s' = expire_invites s now in
    let v' = expire_invites-Inv s now v in
    elim (Option-cases (JsMap.get id s'.invites)) [
      | inl e ↦ rw (e, accept_invite) v'
      | inr (i, e) ↦ elim (Bool-cases (i.invited_player_id == player)) [
        | inl mine ↦ rw (e, mine, accept_invite) (join-Inv s' player id i now v')
        | inr other ↦ rw (e, other, accept_invite) v'
      ]
    ]

invite-same :
    (s : PartyService) (player invited id : String) (now : ℕ)
    → ((invite s player invited id now).0.parties ≡ s.parties)
      × ((invite s player invited id now).0.party_by_player ≡ s.party_by_player)
unfolding invite
invite-same s player invited id now = (ground arith, ground arith)

invite-Inv :
    (s : PartyService) (player invited id : String) (now : ℕ)
    → Inv s
    → Inv (invite s player invited id now).0
invite-Inv s player invited id now v =
    let (p, q) = invite-same s player invited id now in
    record { sound = rw (p, q) v.sound; joined = rw (p, q) v.joined }

set_ready-Inv :
    (s : PartyService) (player : String) (ready : Bool) → Inv s → Inv (set_ready s player ready).0
unfolding set_ready
set_ready-Inv s player ready v = elim (Option-cases (find_party s player)) [
  | inl e ↦ rw (e, with_party, set_ready) v
  | inr ((key, p), e) ↦ elim (Bool-cases (is_member p player)) [
    | inr n ↦ rw (e, n, with_party, set_ready) v
    | inl m ↦
        let (_, found) = find_party_found s player key p e in
        let old = v.sound key p found in
        let same = player_ids-mark_ready player ready p.members in
        rw (e, m, with_party, set_ready)
          (Inv-replace s key p _ v found same refl
            (omega (arith, length-mark_ready player ready p.members, old.few)) (rw same old.led))
  ]
]

transfer_leader-Inv :
    (s : PartyService) (player next : String) → Inv s → Inv (transfer_leader s player next).0
unfolding transfer_leader
transfer_leader-Inv s player next v = elim (Option-cases (find_party s player)) [
  | inl e ↦ rw (e, with_party, transfer_leader) v
  | inr ((key, p), e) ↦ elim (Bool-cases (p.leader_player_id == player)) [
    | inr n ↦ rw (e, n, with_party, transfer_leader) v
    | inl l ↦ elim (Bool-cases (is_member p next)) [
      | inr n ↦ rw (e, l, n, with_party, transfer_leader) v
      | inl m ↦
          let (_, found) = find_party_found s player key p e in
          rw (e, l, m, with_party, transfer_leader)
            (Inv-replace s key p _ v found refl refl (v.sound key p found).few m)
    ]
  ]
]

pub splice_member_lem :
    (player : String) (ms : List Member)
    → includes (player_ids ms) player ≡ true
    → splice_member player ms ≡ remove_first player ms
unfolding splice_member
splice_member_lem player ms h = rw (h, splice_member)

-- The leader after somebody has left is one of those who remain.
left-led :
    (player leader : String) (ms rest : List Member) (first : Member)
    → remove_first player ms ≡ first ∷ rest
    → distinct (player_ids ms) ≡ true
    → includes (player_ids ms) leader ≡ true
    → includes (player_ids (first ∷ rest)) (if leader == player then first.player_id else leader)
      ≡ true
left-led player leader ms rest first e d h = ground (
  arith,
  includes-remove_first player leader ms d,
  eq_iff leader player,
  eq_iff player leader,
  eq_iff first.player_id first.player_id,
  ap (λ xs. includes (player_ids xs) leader) e,
)

pub leave-Inv : (s : PartyService) (player : String) → Inv s → Inv (leave s player).0
unfolding leave
leave-Inv s player v = elim (Option-cases (find_party s player)) [
  | inl e ↦ rw (e, with_party, leave) v
  | inr ((key, p), e) ↦
      let (here, found) = find_party_found s player key p e in
      let (r, _, hr, h) = v.joined player key here in
      let same : r ≡ p = some_inj (sym hr ∙ found) in
      let old = v.sound key p found in
      let spliced = splice_member_lem player p.members (rw same at h) in
      remaining s player key p v e here found spliced old (remove_first player p.members) refl
]
  where
    remaining :
        (s : PartyService) (player key : String) (p : PartyState)
        → Inv s
        → find_party s player ≡ some (key, p)
        → JsMap.get player s.party_by_player ≡ some key
        → JsMap.get key s.parties ≡ some p
        → splice_member player p.members ≡ remove_first player p.members
        → IsParty s.party_by_player key p
        → (ms : List Member) → remove_first player p.members ≡ ms
        → Inv (leave s player).0
    remaining s player key p v e here found spliced old [] gone =
        rw (e, with_party, spliced, gone, leave) (Inv-disband s player key p v here found gone)
    remaining s player key p v e here found spliced old (first ∷ rest) left =
        rw (e, with_party, spliced, left, leave)
          (Inv-remove s player key p _ v here found refl (sym left)
            (left-led player p.leader_player_id p.members rest first left old.unique old.led))

-- The identifiers that the calls of a history draw are fresh when they are drawn.
abbrev pub AllFresh : PartyService → Call → Type 0
AllFresh s (creates player id now) = IsFresh s id
AllFresh s _ = Unit

abbrev pub FreshHistory : PartyService → List Call → Type 0
FreshHistory s [] = Unit
FreshHistory s (c ∷ cs) = AllFresh s c × FreshHistory (step s c) cs

pub step-Inv : (s : PartyService) (c : Call) → Inv s → AllFresh s c → Inv (step s c)
unfolding step list_invites
step-Inv s (creates player id now) v f = create-Inv s player id now v f
step-Inv s (lists_invites player now) v f = expire_invites-Inv s now v
step-Inv s (invites player invited id now) v f = invite-Inv s player invited id now v
step-Inv s (accepts player id now) v f = accept_invite-Inv s player id now v
step-Inv s (sets_ready player ready) v f = set_ready-Inv s player ready v
step-Inv s (transfers player next) v f = transfer_leader-Inv s player next v
step-Inv s (leaves player) v f = leave-Inv s player v

run-Inv : (s : PartyService) (cs : List Call) → Inv s → FreshHistory s cs → Inv (run s cs)
unfolding run
run-Inv s [] v f = v
run-Inv s (c ∷ cs) v f = run-Inv (step s c) cs (step-Inv s c v f.0) f.1

pub empty-Inv : Inv empty
unfolding JsMap.get
empty-Inv = record { sound = λ pid p h. cc; joined = λ player pid h. cc }

-- After any history of calls from the empty service whose new party identifiers are fresh and not
-- empty: every stored party is filed under its own identifier, has at most five members, all
-- distinct, the leader among them; the index maps each member to that party; and each index entry
-- names a stored party that has the player as a member.
pub run-empty-Inv : (cs : List Call) → FreshHistory empty cs → Inv (run empty cs)
run-empty-Inv cs f = run-Inv empty cs empty-Inv f
