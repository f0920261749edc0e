-- ===== src/Party/Behaviour.antt =====
-- What the party service's methods answer, and what they leave behind.
use legacy_match_platform.Common.{
  ℕ, ◌+◌, ◌<◌, String, Bool, true, false, Option, none, some, List, [], ◌∷◌, ◌++◌, length, keep,
  not, if◌then◌else◌, ◌==◌, String_eq, ◌≡◌, ◌⊎◌, ap, refl, sym, ◌∙◌, inl, inr, arith, Bool-cases,
  Option-cases, eq→≡, eq_iff, beq_refl, some_inj, ok,
}
use legacy_match_platform.Common.JsMap
use legacy_match_platform.Common.JsMap.{JsMap, get-set, get-delete, has-eq-false}
use legacy_match_platform.Party.{
  PartyService, PartyState, Member, PartyInvite, find_party, get_for_player, join, accept_invite,
  expire, remove_first, splice_member, is_member, leave, expire_invites,
}
use legacy_match_platform.Party.Invariant.{Inv, find_party_found}
use legacy_match_platform.Party.Members.{keep-eq-remove_first}
use legacy_match_platform.Party.Preservation.{splice_member_lem, leave-Inv}

get-expire :
    (id : String) (now : ℕ) (m : JsMap PartyInvite) (i : PartyInvite)
    → JsMap.get id (expire now m) ≡ some i
    → now < i.expires_at
unfolding expire JsMap.get
get-expire id now [] i h = cc
get-expire id now ((k, j) ∷ m) i h = ground (arith, get-expire id now m i)

-- What holds when `accept_invite` has answered with the party `p`.
pub record Accepted (s : PartyService) (player invite_id : String) (now : ℕ) (s' : PartyService)
    (p : PartyState) : Type 0 where
  pub i : PartyInvite
  pub before : PartyState
  pub listed : JsMap.get invite_id (expire_invites s now).invites ≡ some i
  pub live : now < i.expires_at
  pub addressed : i.invited_player_id ≡ player
  pub alone : JsMap.get player s.party_by_player ≡ none
  pub stored : JsMap.get i.party_id s.parties ≡ some before
  pub room : length before.members < 5
  pub grown : p ≡ record before {
    members = before.members ++ record { player_id = player; ready = false; joined_at = now } ∷ [];
    version = before.version + 1;
  }
  pub index : s'.party_by_player ≡ JsMap.set player before.id s.party_by_player
  pub kept : s'.parties ≡ JsMap.set i.party_id p s.parties
  pub used : JsMap.get invite_id s'.invites ≡ none

join-Accepted :
    (s s' : PartyService) (player id : String) (i : PartyInvite) (now : ℕ) (p : PartyState)
    → JsMap.get id (expire_invites s now).invites ≡ some i
    → i.invited_player_id ≡ player
    → join (expire_invites s now) player id i now ≡ (s', ok p)
    → Accepted s player id now s' p
unfolding join expire_invites
join-Accepted s s' player id i now p listed addressed h =
    elim (Bool-cases (JsMap.has player s.party_by_player)) [
      | inl e ↦ absurd (ground arith)
      | inr alone ↦ elim (Option-cases (JsMap.get i.party_id s.parties)) [
        | inl e ↦ absurd (ground arith)
        | inr (q, e) ↦ record {
          i = i;
          before = q;
          listed = listed;
          live = get-expire id now s.invites i listed;
          addressed = addressed;
          alone = has-eq-false player s.party_by_player alone;
          stored = e;
          room = ground arith;
          grown = ground arith;
          index = ground arith;
          kept = ground arith;
          used = ground (arith, get-delete id id (expire now s.invites), eq_iff id id);
        }
      ]
    ]

-- An invitation is accepted only while it is live, by the player it is addressed to, when that
-- player is in no party and the party still exists with fewer than five members. The player then
-- stands last among the members, not ready, the version has risen by one, and the invitation is
-- used up.
pub accept_invite-Accepted :
    (s : PartyService) (player id : String) (now : ℕ) (s' : PartyService) (p : PartyState)
    → accept_invite s player id now ≡ (s', ok p)
    → Accepted s player id now s' p
unfolding accept_invite
accept_invite-Accepted s player id now s' p h =
    elim (Option-cases (JsMap.get id (expire_invites s now).invites)) [
      | inl e ↦ absurd (ground arith)
      | inr (i, e) ↦ elim (Bool-cases (i.invited_player_id == player)) [
        | inl mine ↦ join-Accepted s s' player id i now p e (eq→≡ _ _ mine) (ground arith)
        | inr other ↦ absurd (ground arith)
      ]
    ]

leave-index :
    (s : PartyService) (player : String) (r : Option PartyState)
    → (leave s player).1 ≡ ok r
    → (leave s player).0.party_by_player ≡ JsMap.delete player s.party_by_player
unfolding leave
leave-index s player r h = ground arith

get_for_player_absent :
    (s : PartyService) (player : String)
    → JsMap.get player s.party_by_player ≡ none
    → get_for_player s player ≡ none
unfolding get_for_player find_party
get_for_player_absent s player h = ground arith

-- The stored party has the player on its list of members.
abbrev pub lists : Option PartyState → String → Bool
lists none player = false
lists (some p) player = is_member p player

-- Whoever has left a service with consistent maps is in no party afterwards, whether or not the
-- party lives on: the index does not know the player, and no stored party has the player among its
-- members.
pub get_for_player-leave :
    (s : PartyService) (player key : String) (r : Option PartyState)
    → Inv s
    → (leave s player).1 ≡ ok r
    → (get_for_player (leave s player).0 player ≡ none)
      × (lists (JsMap.get key (leave s player).0.parties) player ≡ false)
get_for_player-leave s player key r v h =
    let after = (leave s player).0 in
    let w = leave-Inv s player v in
    let absent : JsMap.get player after.party_by_player ≡ none =
      rw (leave-index s player r h, get-delete player player s.party_by_player, beq_refl player) in
    (get_for_player_absent after player absent, unlisted after key w absent)
  where
    unlisted :
        (s : PartyService) (key : String)
        → Inv s
        → JsMap.get player s.party_by_player ≡ none
        → lists (JsMap.get key s.parties) player ≡ false
    unlisted s key w absent = elim (Option-cases (JsMap.get key s.parties)) [
      | inl e ↦ rw e refl
      | inr (p, e) ↦ elim (Bool-cases (is_member p player)) [
        | inl m ↦ absurd (let k = (w.sound key p e).home player m in cc)
        | inr m ↦ rw e m
      ]
    ]

splice_found :
    (s : PartyService) (player key : String) (p : PartyState)
    → Inv s
    → find_party s player ≡ some (key, p)
    → splice_member player p.members ≡ remove_first player p.members
splice_found s player key p v f =
    let (here, found) = find_party_found s player key p f in
    let (r, _, hr, h) = v.joined player key here in
    let same : r ≡ p = some_inj (sym hr ∙ found) in
    splice_member_lem player p.members (rw same at h)

-- The answer of `leave`, by what the splice leaves of the member list.
abbrev LeaveAnswer : String → PartyState → PartyState → List Member → Type 0
LeaveAnswer player p q [] = ⊥
LeaveAnswer player p q (first ∷ rest) = q ≡ record p {
  leader_player_id = if p.leader_player_id == player then first.player_id else p.leader_player_id;
  members = first ∷ rest;
  version = p.version + 1;
}

leave-ok :
    (s : PartyService) (player key : String) (p q : PartyState) {ms : List Member}
    → find_party s player ≡ some (key, p)
    → splice_member player p.members ≡ ms
    → (leave s player).1 ≡ ok (some q)
    → LeaveAnswer player p q ms
unfolding leave
leave-ok s player key p q {ms = []} f e h = ground arith
leave-ok s player key p q {ms = first ∷ rest} f e h = ground arith

-- The party after somebody has left it.
pub record Remains (player : String) (p q : PartyState) : Type 0 where
  pub id : q.id ≡ p.id
  pub version : q.version ≡ p.version + 1
  pub others : q.members ≡ keep (λ m. not (m.player_id == player)) p.members
  pub leader :
      (((p.leader_player_id == player) ≡ false) × (q.leader_player_id ≡ p.leader_player_id))
      ⊎ (((p.leader_player_id == player) ≡ true)
          × ((first : Member) × (rest : List Member) × (q.members ≡ first ∷ rest)
              × (q.leader_player_id ≡ first.player_id)))

-- When consistent maps know the party of a player who leaves and others remain: the members are all
-- those that are not the player, as they were and in the same order, the version rises by one, and
-- the leader stays unless it was the player who left, in which case the first of those who remain
-- leads.
pub leave-hands_over :
    (s : PartyService) (player key : String) (p q : PartyState)
    → Inv s
    → find_party s player ≡ some (key, p)
    → (leave s player).1 ≡ ok (some q)
    → Remains player p q
leave-hands_over s player key p q v f h =
    let (here, found) = find_party_found s player key p f in
    let kept = keep-eq-remove_first player p.members (v.sound key p found).unique in
    remaining (remove_first player p.members) refl kept
  where
    remaining :
        (ms : List Member)
        → remove_first player p.members ≡ ms
        → keep (λ (m : Member). not (m.player_id == player)) p.members
          ≡ remove_first player p.members
        → Remains player p q
    remaining [] gone kept =
        absurd (leave-ok s player key p q f (splice_found s player key p v f ∙ gone) h)
    remaining (first ∷ rest) left kept =
        let e : q ≡ record p {
          leader_player_id =
              if p.leader_player_id == player then first.player_id else p.leader_player_id;
          members = first ∷ rest;
          version = p.version + 1;
        } =
          leave-ok s player key p q f (splice_found s player key p v f ∙ left) h in
        let members : q.members ≡ first ∷ rest = ap (λ q. q.members) e in
        let leader : q.leader_player_id
            ≡ (if p.leader_player_id == player then first.player_id else p.leader_player_id) =
          ap (λ q. q.leader_player_id) e in
        record {
          id = ap (λ q. q.id) e;
          version = ap (λ q. q.version) e;
          others = members ∙ sym left ∙ sym kept;
          leader = elim (Bool-cases (p.leader_player_id == player)) [
            | inl b ↦ inr (b, (first, rest, members, leader ∙ (rw b refl)))
            | inr b ↦ inl (b, leader ∙ (rw b refl))
          ];
        }
