-- ===== src/RedisParty/Simulation.antt =====
-- The durable party service against the one in memory: the scripts on the store that stands for the
-- maps of the in-memory service.
use legacy_match_platform.Common.{
  ℕ, ◌≤◌, String, Bool, true, false, none, some, List, [], ◌∷◌, includes, distinct, ◌==◌, String_eq,
  leb, ◌≡◌, refl, sym, ◌∙◌, ap, inl, inr, arith, Option-cases, eq_iff, if◌then◌else◌,
}
use legacy_match_platform.Common.JsMap
use legacy_match_platform.Common.JsMap.{JsMap, get-set, get-delete}
use legacy_match_platform.Party.{
  Member, PartyState, PartyInvite, PartyService, find_party, is_member, player_ids, expire,
  expire_invites, mark_ready,
}
use legacy_match_platform.Party.Invariant.{IsParty, Inv}
use legacy_match_platform.RedisParty.{StoredInvite, Store, live_invite, mark_all}

-- What the durable store holds beside the maps of the in-memory service.
pub record Extras : Type 0 where
  pub invites : JsMap StoredInvite
  pub indexes : JsMap (JsMap ℕ)

-- The store for the service's maps, while no party is queued.
abbrev pub durable : PartyService → Extras → Store
durable s x = record {
  parties = s.parties;
  pointers = s.party_by_player;
  invites = x.invites;
  indexes = x.indexes;
  tickets = [];
}

-- From `t` on the same invitations stand.
pub record Agrees (t : ℕ) (s : PartyService) (x : Extras) : Type 0 where
  pub same :
      (now : ℕ) (id : String)
      → t ≤ now
      → live_invite now id x.invites ≡ JsMap.get id (expire now s.invites)

-- Where a player of consistent maps is.
pub data Home (s : PartyService) (player : String) : Type 0 where
  homeless : JsMap.get player s.party_by_player ≡ none → find_party s player ≡ none → Home s player
  home :
      (id : String) (p : PartyState)
      → JsMap.get player s.party_by_player ≡ some id
      → JsMap.get id s.parties ≡ some p
      → find_party s player ≡ some (id, p)
      → IsParty s.party_by_player id p
      → is_member p player ≡ true
      → Home s player

pub find_party-Home : (s : PartyService) (player : String) → Inv s → Home s player
unfolding find_party
find_party-Home s player v = elim (Option-cases (JsMap.get player s.party_by_player)) [
  | inl e ↦ homeless e (rw (e, find_party) refl)
  | inr (id, e) ↦
      let (p, ne, hp, m) = v.joined player id e in
      home id p e hp (rw (e, ne, hp, find_party) refl) (v.sound id p hp) m
]

-- On distinct players the loop marks what `find` finds.
mark_all-absent :
    (player : String) (ready : Bool) (ms : List Member)
    → includes (player_ids ms) player ≡ false
    → mark_all player ready ms ≡ ms
unfolding mark_all
mark_all-absent player ready [] h = refl
mark_all-absent player ready (m ∷ ms) h = ground (arith, mark_all-absent player ready ms)

pub mark_all-eq-mark_ready :
    (player : String) (ready : Bool) (ms : List Member)
    → distinct (player_ids ms) ≡ true
    → mark_all player ready ms ≡ mark_ready player ready ms
unfolding mark_all mark_ready
mark_all-eq-mark_ready player ready [] d = refl
mark_all-eq-mark_ready player ready (m ∷ ms) d = ground (
  arith,
  eq_iff m.player_id player,
  mark_all-absent player ready ms,
  mark_all-eq-mark_ready player ready ms,
)

-- Invitations in memory: dropping the lapsed ones early, adding one, deleting one.
pub expire-expire :
    (t now : ℕ) (m : JsMap PartyInvite) → t ≤ now → expire now (expire t m) ≡ expire now m
unfolding expire
expire-expire t now [] h = refl
expire-expire t now ((id, i) ∷ m) h = ground (arith, expire-expire t now m)

pub get-expire-set :
    (now : ℕ) (id k : String) (i : PartyInvite) (m : JsMap PartyInvite)
    → JsMap.get k m ≡ none
    → JsMap.get id (expire now (JsMap.set k i m)) ≡ (
        if k == id
        then (if leb i.expires_at now then none else some i)
        else JsMap.get id (expire now m))
unfolding expire JsMap.get JsMap.set
get-expire-set now id k i [] h = ground (arith, eq_iff k id)
get-expire-set now id k i ((j, w) ∷ m) h =
    ground (arith, eq_iff k id, eq_iff j k, eq_iff j id, get-expire-set now id k i m)

pub get-expire-delete :
    (now : ℕ) (id k : String) (m : JsMap PartyInvite)
    → JsMap.get id (expire now (JsMap.delete k m))
      ≡ (if k == id then none else JsMap.get id (expire now m))
unfolding expire JsMap.get JsMap.delete
get-expire-delete now id k [] = ground (arith, eq_iff k id)
get-expire-delete now id k ((j, w) ∷ m) =
    ground (arith, eq_iff k id, eq_iff j k, eq_iff j id, get-expire-delete now id k m)

-- The same of the store's invitations.
pub live_invite-set :
    (now : ℕ) (id k : String) (i : StoredInvite) (m : JsMap StoredInvite)
    → live_invite now id (JsMap.set k i m) ≡ (
        if k == id
        then (if leb i.lapses_at now then none else some i.invite)
        else live_invite now id m)
unfolding live_invite
live_invite-set now id k i m = ground (arith, get-set k id i m, eq_iff k id)

pub live_invite-delete :
    (now : ℕ) (id k : String) (m : JsMap StoredInvite)
    → live_invite now id (JsMap.delete k m) ≡ (if k == id then none else live_invite now id m)
unfolding live_invite
live_invite-delete now id k m = ground (arith, get-delete k id m, eq_iff k id)

-- Time passes.
pub Agrees-later :
    (t now : ℕ) (s : PartyService) (x : Extras) → t ≤ now → Agrees t s x → Agrees now s x
Agrees-later t now s x h a = record { same = λ u id g. a.same u id (omega (arith, h, g)) }

pub Agrees-expire :
    (t now : ℕ) (s : PartyService) (x : Extras)
    → t ≤ now
    → Agrees t s x
    → Agrees now (expire_invites s now) x
unfolding expire_invites
Agrees-expire t now s x h a = record {
  same = λ u id g.
      a.same u id (omega (arith, h, g)) ∙ ap (JsMap.get id) (sym (expire-expire now u s.invites g));
}

pub Agrees-invite :
    (now : ℕ) (s : PartyService) (x : Extras) (i : PartyInvite) (indexes : JsMap (JsMap ℕ))
    → JsMap.get i.id s.invites ≡ none
    → Agrees now s x
    → Agrees now
        (record s { invites = JsMap.set i.id i s.invites })
        (record {
          invites = JsMap.set i.id (record { invite = i; lapses_at = i.expires_at }) x.invites;
          indexes = indexes;
        })
Agrees-invite now s x i indexes f a = record {
  same = λ u id g. ground (
    arith,
    live_invite-set u id i.id (record { invite = i; lapses_at = i.expires_at }) x.invites,
    get-expire-set u id i.id i s.invites f,
    a.same u id g,
  );
}

pub Agrees-accept :
    (now : ℕ) (s : PartyService) (x : Extras) (k : String) (indexes : JsMap (JsMap ℕ))
    → Agrees now s x
    → Agrees now
        (record s { invites = JsMap.delete k s.invites })
        (record { invites = JsMap.delete k x.invites; indexes = indexes })
Agrees-accept now s x k indexes a = record {
  same = λ u id g. ground (
    arith,
    live_invite-delete u id k x.invites,
    get-expire-delete u id k s.invites,
    a.same u id g,
  );
}
