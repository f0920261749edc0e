-- ===== src/RedisParty/Methods.antt =====
-- Each method of the durable party service against the method in memory.
use legacy_match_platform.Common.{
  ℕ, ◌+◌, String, Bool, ◌==◌, String_eq, ◌≡◌, refl, inl, inr, Bool-cases, Result, ok, err,
}
use legacy_match_platform.Common.JsMap
use legacy_match_platform.Common.JsMap.{JsMap, get-set, get-delete}
use legacy_match_platform.Party
use legacy_match_platform.Party.{
  Member, PartyState, PartyInvite, PartyError, PartyService, find_party, is_member, player_ids,
  expire, expire_invites, mark_ready, remove_first, splice_member, join,
}
use legacy_match_platform.Party.Invariant.{Inv}
use legacy_match_platform.RedisParty
use legacy_match_platform.RedisParty.{
  StoredInvite, Store, ScriptError, live_invite, index_of, create_script, invite_script,
  accept_script, mark_all, ready_script, transfer_script, shrink, leave_script, map_party_error,
  mapped, party_not_found, party_leader_required, member_not_found, party_full, already_member,
  already_in_party, invite_not_found, get_for_player, create, invite, invite_from, accept_invite,
  set_ready, transfer_leader, leave, grow,
}
use legacy_match_platform.RedisParty.Simulation.{
  Extras, durable, Agrees, homeless, home, find_party-Home, mark_all-eq-mark_ready,
}

-- The answer, with an error's status for the error: the wording of the two services differs.
abbrev pub status : {A : Type 0} → Result PartyError A → Result ℕ A
status (ok a) = ok a
status (err e) = err e.status

-- What a method of the durable service makes of the store for `s` is the store for what the method
-- in memory makes of `s`, with the same answer.
pub record Simulates {A : Type 0} (t : ℕ) (m : PartyService × Result PartyError A)
    (d : Store × Result PartyError A) : Type 0 where
  pub extras : Extras
  pub after : d.0 ≡ durable m.0 extras
  pub agrees : Agrees t m.0 extras
  pub same : status d.1 ≡ status m.1

module _ {A : Type 0} (t : ℕ) (m : PartyService × Result PartyError A)
    (r : RedisParty.Reply A) where
  -- Both refuse.
  pub both_refuse :
      (s : PartyService) (x : Extras) (e : ScriptError) (message : String)
      → Agrees t s x
      → m ≡ (s, err (record { status = (map_party_error e).status; message = message }))
      → r ≡ (durable s x, err e)
      → Simulates t m (mapped r)
  both_refuse s x e message a f g =
      rw (f, g) (record { extras = x; after = refl; agrees = a; same = refl })

  -- Both give the same.
  pub both_give :
      (s : PartyService) (x : Extras) (b : A)
      → Agrees t s x
      → m ≡ (s, ok b)
      → r ≡ (durable s x, ok b)
      → Simulates t m (mapped r)
  both_give s x b a f g = rw (f, g) (record { extras = x; after = refl; agrees = a; same = refl })

module _ (t : ℕ) (s : PartyService) (x : Extras) (v : Inv s) (a : Agrees t s x) where
  pub set_ready-Simulates :
      (player : String) (ready : Bool)
      → Simulates t (Party.set_ready s player ready) (set_ready player ready (durable s x))
  unfolding Party.set_ready set_ready JsMap.has JsMap.get
  set_ready-Simulates player ready =
      let memory = Party.set_ready s player ready in
      let stored = ready_script player ready (durable s x) in
      elim (find_party-Home s player v) [
        | homeless e f ↦
            both_refuse t memory stored s x party_not_found "Create or join a party first." a
              (rw (f, Party.with_party, Party.set_ready) refl)
              (rw (e, RedisParty.with_party, ready_script) refl)
        | home id p e h f w m ↦
            let marked : PartyState = record p {
              members = mark_ready player ready p.members;
              version = p.version + 1;
            } in
            both_give t memory stored (record s { parties = JsMap.set id marked s.parties }) x
              marked (record { same = a.same }) (rw (f, m, Party.with_party, Party.set_ready) refl)
              (rw
                (
                  e,
                  h,
                  m,
                  mark_all-eq-mark_ready player ready p.members w.unique,
                  RedisParty.with_party,
                  ready_script,
                )
                refl)
      ]

  pub transfer_leader-Simulates :
      (player next : String)
      → Simulates t
          (Party.transfer_leader s player next)
          (transfer_leader player next (durable s x))
  unfolding Party.transfer_leader transfer_leader JsMap.has JsMap.get
  transfer_leader-Simulates player next =
      let memory = Party.transfer_leader s player next in
      let stored = transfer_script player next (durable s x) in
      elim (find_party-Home s player v) [
        | homeless e f ↦
            both_refuse t memory stored s x party_not_found "Create or join a party first." a
              (rw (f, Party.with_party, Party.transfer_leader) refl)
              (rw (e, RedisParty.with_party, transfer_script) refl)
        | home id p e h f w m ↦ elim (Bool-cases (p.leader_player_id == player)) [
          | inr l ↦
              both_refuse t memory stored s x party_leader_required
                "Only the party leader can transfer leadership." a
                (rw (f, l, Party.with_party, Party.transfer_leader) refl)
                (rw (e, h, l, RedisParty.with_party, transfer_script) refl)
          | inl l ↦ elim (Bool-cases (is_member p next)) [
            | inr n ↦
                both_refuse t memory stored s x member_not_found
                  "The new leader must be a party member." a
                  (rw (f, l, n, Party.with_party, Party.transfer_leader) refl)
                  (rw (e, h, l, n, RedisParty.with_party, transfer_script) refl)
            | inl n ↦
                let led : PartyState = record p {
                  leader_player_id = next;
                  version = p.version + 1;
                } in
                both_give t memory stored (record s { parties = JsMap.set id led s.parties }) x led
                  (record { same = a.same })
                  (rw (f, l, n, Party.with_party, Party.transfer_leader) refl)
                  (rw (e, h, l, n, RedisParty.with_party, transfer_script) refl)
          ]
        ]
      ]

  pub create-Simulates :
      (player id : String) (now : ℕ)
      → Simulates t
          (Party.create s player id now)
          (let r = create player id now (durable s x) in (r.0, ok r.1))
  unfolding create create_script Party.get_for_player Party.create JsMap.get
  create-Simulates player id now = elim (find_party-Home s player v) [
    | homeless e f ↦
        rw (f, e, Party.get_for_player, Party.create, create, create_script)
          (record { extras = x; after = refl; agrees = record { same = a.same }; same = refl })
    | home key p e h f w m ↦
        rw (f, e, h, Party.get_for_player, Party.create, create, create_script)
          (record { extras = x; after = refl; agrees = a; same = refl })
  ]

  -- The answer and the store of a look at the player's party.
  pub get_for_player-same :
      (player : String)
      → get_for_player player (durable s x) ≡ (durable s x, Party.get_for_player s player)
  unfolding get_for_player Party.get_for_player
  get_for_player-same player = elim (find_party-Home s player v) [
    | homeless e f ↦ rw (f, e, get_for_player, Party.get_for_player) refl
    | home key p e h f w m ↦
        let (_, ne, _, _) = v.joined player key e in
        rw (f, e, h, ne, get_for_player, Party.get_for_player) refl
  ]
