-- ===== src/RedisParty.antt =====
-- The durable party service, apps/api/src/redis-party-service.ts: its six Lua scripts and the
-- methods that run them. The store has one map for each kind of key; an invitation carries the
-- moment at which its key lapses. `tickets` are the keys `party:*:ticket`, which the queue writes.
pub mod Simulation
pub mod Methods
pub mod Invites
pub mod Departure
pub mod History
pub mod Queued
mod Tests
use legacy_match_platform.Common.{
  ℕ, suc, ◌+◌, ◌*◌, String, Bool, true, false, not, ◌&&◌, Option, none, some, List, [], ◌∷◌, ◌++◌,
  map, length, keep, includes, if◌then◌else◌, ◌==◌, String_eq, leb, ltb, Result, ok, err,
}
use legacy_match_platform.Common.JsMap
use legacy_match_platform.Common.JsMap.{JsMap}
use legacy_match_platform.Party.{Member, PartyState, PartyInvite, PartyError, player_ids, is_member}

pub record StoredInvite : Type 0 where
  pub invite : PartyInvite
  pub lapses_at : ℕ

pub record Store : Type 0 where
  pub parties : JsMap PartyState
  pub pointers : JsMap String
  pub invites : JsMap StoredInvite
  -- `player:*:invites`, each a map from invitations to scores.
  pub indexes : JsMap (JsMap ℕ)
  pub tickets : JsMap String

-- What a script answers by `redis.error_reply`.
pub data ScriptError : Type 0 where
  party_not_found party_leader_required party_full already_member : ScriptError
  already_in_party party_queued invite_not_found member_not_found : ScriptError

abbrev pub Reply : Type 0 → Type 0
Reply A = Store × Result ScriptError A

abbrev fail : {A : Type 0} → Store → ScriptError → Reply A
fail s e = (s, err e)

-- `GET` of an invitation at the moment `now`.
unfoldable pub live_invite : ℕ → String → JsMap StoredInvite → Option PartyInvite
live_invite now id invites = elim (JsMap.get id invites) [
  | none ↦ none
  | some i ↦ if leb i.lapses_at now then none else some i.invite
]

unfoldable pub index_of : String → Store → JsMap ℕ
index_of player s = elim (JsMap.get player s.indexes) [ none ↦ [] | some m ↦ m ]

unfoldable pub create_script : String → String → PartyState → Store → Store × PartyState
create_script player id party s =
    let founded : Store × PartyState = (
      record s {
        parties = JsMap.set id party s.parties;
        pointers = JsMap.set player id s.pointers;
      },
      party,
    ) in
    elim (JsMap.get player s.pointers) [
      | none ↦ founded
      | some existing_id ↦ elim (JsMap.get existing_id s.parties) [
        | some existing ↦ (s, existing)
        | none ↦ founded
      ]
    ]

unfoldable pub invite_script :
    String → String → PartyInvite → (lapses_at score : ℕ) → Store → Reply PartyInvite
unfolding index_of
invite_script player invited i lapses_at score s = elim (JsMap.get player s.pointers) [
  | none ↦ fail s party_not_found
  | some id ↦ elim (JsMap.get id s.parties) [
    | none ↦ fail (record s { pointers = JsMap.delete player s.pointers }) party_not_found
    | some p ↦
        if not (p.leader_player_id == player)
        then fail s party_leader_required
        else if leb 5 (length p.members)
        then fail s party_full
        else if is_member p invited
        then fail s already_member
        else if JsMap.has invited s.pointers
        then fail s already_in_party
        else (
          record s {
            invites = JsMap.set i.id (record { invite = i; lapses_at = lapses_at }) s.invites;
            indexes = JsMap.set invited (JsMap.set i.id score (index_of invited s)) s.indexes;
          },
          ok i,
        )
  ]
]

-- The party with one more member.
abbrev pub grow : Member → PartyState → PartyState
grow m p = record p { members = p.members ++ m ∷ []; version = p.version + 1 }

unfoldable pub accept_script : String → String → Member → (now : ℕ) → Store → Reply PartyState
unfolding live_invite index_of
accept_script player invite_id member now s = elim (live_invite now invite_id s.invites) [
  | none ↦ fail s invite_not_found
  | some i ↦
      if not (i.invited_player_id == player)
      then fail s invite_not_found
      else if JsMap.has player s.pointers
      then fail s already_in_party
      else if JsMap.has i.party_id s.tickets
      then fail s party_queued
      else (elim (JsMap.get i.party_id s.parties) [
        | none ↦ fail s party_not_found
        | some p ↦ if leb 5 (length p.members) then fail s party_full else (
          record s {
            parties = JsMap.set i.party_id (grow member p) s.parties;
            pointers = JsMap.set player i.party_id s.pointers;
            invites = JsMap.delete invite_id s.invites;
            indexes = JsMap.set player (JsMap.delete invite_id (index_of player s)) s.indexes;
          },
          ok (grow member p),
        )
      ])
]

-- The opening of the three scripts that change a party which is not queued.
abbrev pub with_party : {A : Type 0} → String → Store → (String → PartyState → Reply A) → Reply A
with_party player s k = elim (JsMap.get player s.pointers) [
  | none ↦ fail s party_not_found
  | some id ↦
      if JsMap.has id s.tickets
      then fail s party_queued
      else (elim (JsMap.get id s.parties) [ none ↦ fail s party_not_found | some p ↦ k id p ])
]

-- The loop that marks every entry of the player.
unfoldable pub mark_all : String → Bool → List Member → List Member
mark_all player ready [] = []
mark_all player ready (m ∷ ms) =
    (if m.player_id == player then record m { ready = ready } else m) ∷ mark_all player ready ms

unfoldable pub ready_script : String → Bool → Store → Reply PartyState
unfolding mark_all
ready_script player ready s = with_party player s λ id p.
    let marked : PartyState = record p {
      members = mark_all player ready p.members;
      version = p.version + 1;
    } in
    if not (is_member p player)
    then fail s party_not_found
    else (record s { parties = JsMap.set id marked s.parties }, ok marked)

unfoldable pub transfer_script : String → String → Store → Reply PartyState
transfer_script player next s = with_party player s λ id p.
    let led : PartyState = record p { leader_player_id = next; version = p.version + 1 } in
    if not (p.leader_player_id == player)
    then fail s party_leader_required
    else if not (is_member p next)
    then fail s member_not_found
    else (record s { parties = JsMap.set id led s.parties }, ok led)

-- The party without the player, when somebody remains.
unfoldable pub shrink : String → PartyState → Option PartyState
shrink player p = elim (keep (λ m. not (m.player_id == player)) p.members) [
  | [] ↦ none
  | first ∷ rest ↦ some (record p {
    leader_player_id = if p.leader_player_id == player then first.player_id else p.leader_player_id;
    members = first ∷ rest;
    version = p.version + 1;
  })
]

unfoldable pub leave_script : String → Store → Reply (Option PartyState)
unfolding shrink
leave_script player s = elim (JsMap.get player s.pointers) [
  | none ↦ fail s party_not_found
  | some id ↦
      let alone : Store = record s { pointers = JsMap.delete player s.pointers } in
      if JsMap.has id s.tickets then fail s party_queued else (elim (JsMap.get id s.parties) [
        | none ↦ (alone, ok none)
        | some p ↦ elim (shrink player p) [
          | none ↦ (record alone { parties = JsMap.delete id s.parties }, ok none)
          | some left ↦ (record alone { parties = JsMap.set id left s.parties }, ok (some left))
        ]
      ])
]

abbrev error : ℕ → String → PartyError
error status message = record { status = status; message = message }

-- `mapPartyError`.
unfoldable pub map_party_error : ScriptError → PartyError
map_party_error party_leader_required = error 403 "Only the party leader can perform that action."
map_party_error party_full = error 409 "The party is full."
map_party_error already_member = error 409 "That player is already in the party."
map_party_error already_in_party = error 409 "That player is already in another party."
map_party_error party_queued = error 409 "Leave the queue before changing the party roster."
map_party_error invite_not_found = error 404 "That party invite is no longer active."
map_party_error member_not_found = error 404 "The new leader must be a party member."
map_party_error party_not_found = error 404 "Create or join a party first."

abbrev pub mapped : {A : Type 0} → Reply A → Store × Result PartyError A
mapped (s, ok a) = (s, ok a)
mapped (s, err e) = (s, err (map_party_error e))

unfoldable pub get_for_player : String → Store → Store × Option PartyState
get_for_player player s = elim (JsMap.get player s.pointers) [
  | none ↦ (s, none)
  | some id ↦ if id == "" then (s, none) else (elim (JsMap.get id s.parties) [
    | none ↦ (record s { pointers = JsMap.delete player s.pointers }, none)
    | some p ↦ (s, some p)
  ])
]

unfoldable pub create : String → String → ℕ → Store → Store × PartyState
unfolding create_script
create player id now s =
    create_script player id
      (record {
        id = id;
        leader_player_id = player;
        members = record { player_id = player; ready = true; joined_at = now } ∷ [];
        created_at = now;
        version = 1;
      })
      s

-- `invite` once the party has been looked up; `ttl` is the time to live of an invitation.
unfoldable pub invite_from :
    (ttl : ℕ)
    → String
    → String
    → String
    → ℕ
    → Store × Option PartyState
    → Store × Result PartyError PartyInvite
unfolding invite_script map_party_error
invite_from ttl player invited id now (s, none) =
    (s, err (error 404 "Create or join a party first."))
invite_from ttl player invited id now (s, some p) = mapped (
    invite_script player invited
      (record {
        id = id;
        party_id = p.id;
        inviter_player_id = player;
        invited_player_id = invited;
        created_at = now;
        expires_at = now + ttl;
      })
      (now + ttl) (now + ttl) s)

unfoldable pub invite :
    (ttl : ℕ) → String → String → String → ℕ → Store → Store × Result PartyError PartyInvite
unfolding get_for_player invite_from
invite ttl player invited id now s = invite_from ttl player invited id now (get_for_player player s)

unfoldable pub accept_invite : String → String → ℕ → Store → Store × Result PartyError PartyState
unfolding accept_script map_party_error
accept_invite player invite_id now s = mapped (
    accept_script player invite_id (record { player_id = player; ready = false; joined_at = now })
      now s)

unfoldable pub set_ready : String → Bool → Store → Store × Result PartyError PartyState
unfolding ready_script map_party_error
set_ready player ready s = mapped (ready_script player ready s)

unfoldable pub transfer_leader : String → String → Store → Store × Result PartyError PartyState
unfolding transfer_script map_party_error
transfer_leader player next s = mapped (transfer_script player next s)

unfoldable pub leave : String → Store → Store × Result PartyError (Option PartyState)
unfolding leave_script map_party_error
leave player s = mapped (leave_script player s)

-- `ZREMRANGEBYSCORE` from 0 to `now`.
unfoldable pub drop_lapsed : ℕ → JsMap ℕ → JsMap ℕ
drop_lapsed now [] = []
drop_lapsed now ((id, score) ∷ m) =
    if leb score now then drop_lapsed now m else (id, score) ∷ drop_lapsed now m

-- The invitations that still stand, and the identifiers whose invitation is gone.
unfoldable pub sift : ℕ → List String → JsMap StoredInvite → List PartyInvite × List String
unfolding live_invite
sift now [] invites = ([], [])
sift now (id ∷ ids) invites =
    let rest = sift now ids invites in
    elim (live_invite now id invites) [
      | some i ↦ (i ∷ rest.0, rest.1)
      | none ↦ (rest.0, id ∷ rest.1)
    ]

unfoldable pub remove_all : List String → JsMap ℕ → JsMap ℕ
remove_all [] m = m
remove_all (id ∷ ids) m = remove_all ids (JsMap.delete id m)

-- `listInvites`; the order in which `ZRANGE` lists a sorted set is the argument `z_range`.
unfoldable pub list_invites :
    (JsMap ℕ → List String) → String → ℕ → Store → Store × List PartyInvite
unfolding index_of drop_lapsed sift remove_all
list_invites z_range player now s =
    let index = drop_lapsed now (index_of player s) in
    let found = sift now (z_range index) s.invites in
    (record s { indexes = JsMap.set player (remove_all found.1 index) s.indexes }, found.0)
