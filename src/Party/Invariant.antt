-- ===== src/Party/Invariant.antt =====
-- What it means that the maps of the party service (apps/api/src/party-service.ts) agree with one
-- another.
use legacy_match_platform.Common.{
  ◌≤◌, String, true, false, none, some, length, distinct, ◌==◌, String_eq, ◌≡◌, sym, ◌∙◌, inl, inr,
  arith, Bool-cases, Option-cases, eq→≡, some_inj, subst,
}
use legacy_match_platform.Common.JsMap
use legacy_match_platform.Common.JsMap.{JsMap, get-set, get-delete}
use legacy_match_platform.Party.{
  PartyService, PartyState, PartyInvite, find_party, is_member, player_ids,
}

-- A party that is stored under `pid`, beside the index by player.
pub record IsParty (index : JsMap String) (pid : String) (p : PartyState) : Type 0 where
  pub named : p.id ≡ pid
  pub few : length p.members ≤ 5
  pub led : is_member p p.leader_player_id ≡ true
  pub unique : distinct (player_ids p.members) ≡ true
  pub home : (player : String) → is_member p player ≡ true → JsMap.get player index ≡ some pid

-- The party that an entry of the index stands for.
abbrev pub Joined : JsMap PartyState → String → String → Type 0
Joined parties player pid =
    (p : PartyState) × ((pid == "") ≡ false)
    × (JsMap.get pid parties ≡ some p)
    × (is_member p player ≡ true)

pub record Inv (s : PartyService) : Type 0 where
  pub sound :
      (pid : String) (p : PartyState)
      → JsMap.get pid s.parties ≡ some p
      → IsParty s.party_by_player pid p
  pub joined :
      (player pid : String)
      → JsMap.get player s.party_by_player ≡ some pid
      → Joined s.parties player pid

-- What `find_party` finds is the party that the index names.
pub find_party_found :
    (s : PartyService) (player key : String) (p : PartyState)
    → find_party s player ≡ some (key, p)
    → (JsMap.get player s.party_by_player ≡ some key) × (JsMap.get key s.parties ≡ some p)
unfolding find_party
find_party_found s player key p h = (ground arith, ground arith)

-- A player whom `find_party` does not find is in no party.
pub find_party_missing :
    (s : PartyService) (player : String)
    → Inv s
    → find_party s player ≡ none
    → JsMap.get player s.party_by_player ≡ none
unfolding find_party
find_party_missing s player v h = elim (Option-cases (JsMap.get player s.party_by_player)) [
  | inl e ↦ e
  | inr (pid, e) ↦ let (p, ne, hp, m) = v.joined player pid e in ground arith
]

-- A party written under `key`, with a new index: what is left to show of each.
pub Inv-write :
    (s : PartyService) (index : JsMap String) (invites : JsMap PartyInvite) (key : String)
    (q : PartyState)
    → IsParty index key q
    → ((pid : String) (r : PartyState)
        → (key == pid) ≡ false
        → JsMap.get pid s.parties ≡ some r
        → IsParty index pid r)
    → ((player : String)
        → JsMap.get player index ≡ some key
        → ((key == "") ≡ false) × (is_member q player ≡ true))
    → ((player pid : String)
        → (key == pid) ≡ false
        → JsMap.get player index ≡ some pid
        → Joined s.parties player pid)
    → Inv
        (record { parties = JsMap.set key q s.parties; party_by_player = index; invites = invites })
Inv-write s index invites key q here others mine theirs = record {
  sound = λ pid r h. elim (Bool-cases (key == pid)) [
    | inl e ↦
        let same : q ≡ r = ground (arith, get-set key pid q s.parties) in
        subst (λ r. IsParty index pid r) same (subst (λ k. IsParty index k q) (eq→≡ key pid e) here)
    | inr e ↦ others pid r e (ground (arith, get-set key pid q s.parties))
  ];
  joined = λ player pid h. elim (Bool-cases (key == pid)) [
    | inl e ↦
        let k : key ≡ pid = eq→≡ key pid e in
        let (ne, m) = mine player (rw k h) in
        (q, rw (← k) ne, ground (arith, get-set key pid q s.parties), m)
    | inr e ↦
        let (r, ne, hr, m) = theirs player pid e h in
        (r, ne, ground (arith, get-set key pid q s.parties), m)
  ];
}

-- Writing back a party with the same members keeps the maps consistent.
pub Inv-replace :
    (s : PartyService) (key : String) (p q : PartyState)
    → Inv s
    → JsMap.get key s.parties ≡ some p
    → player_ids q.members ≡ player_ids p.members
    → q.id ≡ p.id
    → length q.members ≤ 5
    → is_member q q.leader_player_id ≡ true
    → Inv (record s { parties = JsMap.set key q s.parties })
Inv-replace s key p q v found same id few led =
    let old = v.sound key p found in
    Inv-write s s.party_by_player s.invites key q
      (record {
        named = id ∙ old.named;
        few = few;
        led = led;
        unique = rw same old.unique;
        home = λ player m. old.home player (rw same at m);
      })
      (λ pid r e h. v.sound pid r h)
      (λ player h.
        let (r, ne, hr, m) = v.joined player key h in
        let same_party : r ≡ p = some_inj (sym hr ∙ found) in (ne, rw same (rw same_party at m)))
      (λ player pid e h. v.joined player pid h)
