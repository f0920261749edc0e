-- ===== src/Party.antt =====
-- The in-memory party service, apps/api/src/party-service.ts. A method takes the service's three
-- maps and returns them with its result. Times are milliseconds; `now` is the clock's reading and
-- `id` the fresh identifier that the method draws.
pub mod Members
pub mod Invariant
pub mod Writes
pub mod Preservation
pub mod Behaviour
mod Tests
use legacy_match_platform.Common.{
  ℕ, suc, ◌+◌, ◌*◌, String, Bool, true, false, not, ◌&&◌, Option, none, some, List, [], ◌∷◌, ◌++◌,
  map, length, includes, keep, if◌then◌else◌, ◌==◌, String_eq, leb, Result, ok, err,
}
use legacy_match_platform.Common.JsMap
use legacy_match_platform.Common.JsMap.{JsMap}

pub record Member : Type 0 where
  pub player_id : String
  pub ready : Bool
  pub joined_at : ℕ

pub record PartyState : Type 0 where
  pub id : String
  pub leader_player_id : String
  pub members : List Member
  pub created_at : ℕ
  pub version : ℕ

pub record PartyInvite : Type 0 where
  pub id : String
  pub party_id : String
  pub inviter_player_id : String
  pub invited_player_id : String
  pub created_at : ℕ
  pub expires_at : ℕ

pub record PartyError : Type 0 where
  pub status : ℕ
  pub message : String

pub record PartyService : Type 0 where
  pub parties : JsMap PartyState
  pub party_by_player : JsMap String
  pub invites : JsMap PartyInvite

abbrev pub empty : PartyService
empty = record { parties = []; party_by_player = []; invites = [] }

abbrev pub Reply : Type 0 → Type 0
Reply A = PartyService × Result PartyError A

abbrev throw : {A : Type 0} → PartyService → ℕ → String → Reply A
throw s status message = (s, err (record { status = status; message = message }))

abbrev pub player_ids : List Member → List String
player_ids = map (λ m. m.player_id)

abbrev pub is_member : PartyState → String → Bool
is_member p player = includes (player_ids p.members) player

-- `partyId ? this.parties.get(partyId) : undefined`, with the key under which the party was found.
unfoldable pub find_party : PartyService → String → Option (String × PartyState)
find_party s player = elim (JsMap.get player s.party_by_player) [
  | none ↦ none
  | some party_id ↦
      if party_id == ""
      then none
      else (elim (JsMap.get party_id s.parties) [ none ↦ none | some p ↦ some (party_id, p) ])
]

unfoldable pub get_for_player : PartyService → String → Option PartyState
unfolding find_party
get_for_player s player = elim (find_party s player) [ none ↦ none | some (_, p) ↦ some p ]

unfoldable pub expire : ℕ → JsMap PartyInvite → JsMap PartyInvite
expire now [] = []
expire now ((id, i) ∷ m) = if leb i.expires_at now then expire now m else (id, i) ∷ expire now m

unfoldable pub expire_invites : PartyService → ℕ → PartyService
unfolding expire
expire_invites s now = record s { invites = expire now s.invites }

unfoldable pub list_invites : PartyService → String → ℕ → PartyService × List PartyInvite
unfolding expire_invites
list_invites s player now =
    let s' = expire_invites s now in
    (s', keep (λ i. i.invited_player_id == player) (JsMap.values s'.invites))

unfoldable pub create : PartyService → String → String → ℕ → Reply PartyState
create s player id now =
    let party : PartyState = record {
      id = id;
      leader_player_id = player;
      members = record { player_id = player; ready = true; joined_at = now } ∷ [];
      created_at = now;
      version = 1;
    } in
    elim (get_for_player s player) [
      | some existing ↦ (s, ok existing)
      | none ↦ (
        record s {
          parties = JsMap.set id party s.parties;
          party_by_player = JsMap.set player id s.party_by_player;
        },
        ok party,
      )
    ]

-- `requireParty`, and what follows it.
abbrev pub with_party :
    {A : Type 0} → PartyService → String → (String → PartyState → Reply A) → Reply A
with_party s player k = elim (find_party s player) [
  | none ↦ throw s 404 "Create or join a party first."
  | some (key, p) ↦ k key p
]

unfoldable pub invite : PartyService → String → String → String → ℕ → Reply PartyInvite
invite s player invited id now = with_party s player λ key p.
    let new : PartyInvite = record {
      id = id;
      party_id = p.id;
      inviter_player_id = player;
      invited_player_id = invited;
      created_at = now;
      expires_at = now + 5 * 60000;
    } in
    if not (p.leader_player_id == player)
    then throw s 403 "Only the party leader can invite players."
    else if leb 5 (length p.members)
    then throw s 409 "The party is full."
    else if is_member p invited
    then throw s 409 "That player is already in the party."
    else if JsMap.has invited s.party_by_player
    then throw s 409 "That player is already in another party."
    else (record s { invites = JsMap.set id new s.invites }, ok new)

-- The party that a player joins, once the invitation has been found valid.
unfoldable pub join : PartyService → String → String → PartyInvite → ℕ → Reply PartyState
join s player invite_id i now =
    if JsMap.has player s.party_by_player
    then throw s 409 "Leave the current party before accepting another invite."
    else (elim (JsMap.get i.party_id s.parties) [
      | none ↦ throw s 404 "That party no longer exists."
      | some p ↦
          let grown : PartyState = record p {
            members =
                p.members ++ record { player_id = player; ready = false; joined_at = now } ∷ [];
            version = p.version + 1;
          } in
          if leb 5 (length p.members) then throw s 409 "The party is full." else (
            record {
              parties = JsMap.set i.party_id grown s.parties;
              party_by_player = JsMap.set player p.id s.party_by_player;
              invites = JsMap.delete invite_id s.invites;
            },
            ok grown,
          )
    ])

unfoldable pub accept_invite : PartyService → String → String → ℕ → Reply PartyState
accept_invite s player invite_id now =
    let s' = expire_invites s now in
    elim (JsMap.get invite_id s'.invites) [
      | none ↦ throw s' 404 "That party invite is no longer active."
      | some i ↦
          if not (i.invited_player_id == player)
          then throw s' 404 "That party invite is no longer active."
          else join s' player invite_id i now
    ]

-- `members.find(...)` and the write to what it finds.
unfoldable pub mark_ready : String → Bool → List Member → List Member
mark_ready player ready [] = []
mark_ready player ready (m ∷ ms) =
    if m.player_id == player
    then record m { ready = ready } ∷ ms
    else m ∷ mark_ready player ready ms

unfoldable pub set_ready : PartyService → String → Bool → Reply PartyState
unfolding mark_ready
set_ready s player ready = with_party s player λ key p.
    let marked : PartyState = record p {
      members = mark_ready player ready p.members;
      version = p.version + 1;
    } in
    if not (is_member p player)
    then throw s 404 "Party member not found."
    else (record s { parties = JsMap.set key marked s.parties }, ok marked)

unfoldable pub transfer_leader : PartyService → String → String → Reply PartyState
transfer_leader s player next = with_party s player λ key p.
    let led : PartyState = record p { leader_player_id = next; version = p.version + 1 } in
    if not (p.leader_player_id == player)
    then throw s 403 "Only the party leader can transfer leadership."
    else if not (is_member p next)
    then throw s 404 "The new leader must be a party member."
    else (record s { parties = JsMap.set key led s.parties }, ok led)

drop_last : List Member → List Member
drop_last [] = []
drop_last (m ∷ []) = []
drop_last (m ∷ n ∷ ms) = m ∷ drop_last (n ∷ ms)

unfoldable pub remove_first : String → List Member → List Member
remove_first player [] = []
remove_first player (m ∷ ms) = if m.player_id == player then ms else m ∷ remove_first player ms

-- `members.splice(index, 1)` at the player's index; the index -1 of an absent player takes the last.
unfoldable pub splice_member : String → List Member → List Member
unfolding drop_last remove_first
splice_member player ms =
    if includes (player_ids ms) player then remove_first player ms else drop_last ms

unfoldable pub leave : PartyService → String → Reply (Option PartyState)
unfolding splice_member
leave s player = with_party s player λ key p.
    let by = JsMap.delete player s.party_by_player in
    elim (splice_member player p.members) [
      | [] ↦ (record s { parties = JsMap.delete p.id s.parties; party_by_player = by }, ok none)
      | first ∷ rest ↦
          let left : PartyState = record p {
            leader_player_id =
                if p.leader_player_id == player then first.player_id else p.leader_player_id;
            members = first ∷ rest;
            version = p.version + 1;
          } in
          (
            record s { parties = JsMap.set key left s.parties; party_by_player = by },
            ok (some left),
          )
    ]

-- A call of one of the methods, with what it reads from the clock and the identifier generator.
pub data Call : Type 0 where
  creates : String → String → ℕ → Call
  lists_invites : String → ℕ → Call
  invites : String → String → String → ℕ → Call
  accepts : String → String → ℕ → Call
  sets_ready : String → Bool → Call
  transfers : String → String → Call
  leaves : String → Call

unfoldable pub step : PartyService → Call → PartyService
unfolding create list_invites invite accept_invite set_ready transfer_leader leave
step s (creates player id now) = (create s player id now).0
step s (lists_invites player now) = (list_invites s player now).0
step s (invites player invited id now) = (invite s player invited id now).0
step s (accepts player invite_id now) = (accept_invite s player invite_id now).0
step s (sets_ready player ready) = (set_ready s player ready).0
step s (transfers player next) = (transfer_leader s player next).0
step s (leaves player) = (leave s player).0

unfoldable pub run : PartyService → List Call → PartyService
unfolding step
run s [] = s
run s (c ∷ cs) = run (step s c) cs
