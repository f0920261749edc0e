-- ===== src/RedisParty/Invites.antt =====
-- Invitations of the durable party service, apps/api/src/redis-party-service.ts, against those in
-- memory.
use legacy_match_platform.Common.{
  ℕ, ◌+◌, ◌*◌, ◌≤◌, String, false, none, length, ◌==◌, String_eq, leb, ◌≡◌, refl, inl, inr,
  Bool-cases, Option-cases,
}
use legacy_match_platform.Common.JsMap
use legacy_match_platform.Common.JsMap.{JsMap, get-set, get-delete}
use legacy_match_platform.Party
use legacy_match_platform.Party.{
  Member, PartyState, PartyInvite, PartyError, PartyService, find_party, is_member, player_ids,
  expire, expire_invites, mark_ready, remove_first, splice_member, join,
}
use legacy_match_platform.Party.Invariant.{Inv}
use legacy_match_platform.RedisParty.{
  live_invite, index_of, invite_script, accept_script, party_not_found, party_leader_required,
  party_full, already_member, already_in_party, invite_not_found, invite, invite_from,
  accept_invite, grow,
}
use legacy_match_platform.RedisParty.Simulation.{
  Extras, durable, Agrees, homeless, home, find_party-Home, Agrees-later, Agrees-expire,
  Agrees-invite, Agrees-accept,
}
use legacy_match_platform.RedisParty.Methods.{
  Simulates, both_refuse, both_give, get_for_player-same,
}

module _ (t : ℕ) (s : PartyService) (x : Extras) (v : Inv s) (a : Agrees t s x) where
  invite-invite_from :
      (player invited id : String) (now : ℕ)
      → invite (5 * 60000) player invited id now (durable s x)
        ≡ invite_from (5 * 60000) player invited id now (durable s x, Party.get_for_player s player)
  unfolding invite
  invite-invite_from player invited id now = rw (get_for_player-same t s x v a player) refl

  pub invite-Simulates :
      (player invited id : String) (now : ℕ)
      → t ≤ now
      → JsMap.get id s.invites ≡ none
      → Simulates now
          (Party.invite s player invited id now)
          (invite (5 * 60000) player invited id now (durable s x))
  unfolding Party.invite Party.get_for_player invite_from JsMap.has JsMap.get
  invite-Simulates player invited id now g fresh =
      let memory = Party.invite s player invited id now in
      let b = Agrees-later t now s x g a in
      elim (find_party-Home s player v) [
        | homeless e f ↦
            rw
              (
                invite-invite_from player invited id now,
                f,
                Party.with_party,
                Party.invite,
                Party.get_for_player,
                invite_from,
              )
              (record { extras = x; after = refl; agrees = b; same = refl })
        | home key p e h f w m ↦
            let new : PartyInvite = record {
              id = id;
              party_id = p.id;
              inviter_player_id = player;
              invited_player_id = invited;
              created_at = now;
              expires_at = now + 5 * 60000;
            } in
            let stored =
              invite_script player invited new (now + 5 * 60000) (now + 5 * 60000) (durable s x) in
            rw (invite-invite_from player invited id now, f, Party.get_for_player, invite_from)
              (elim (Bool-cases (p.leader_player_id == player)) [
                | inr l ↦
                    both_refuse now memory stored s x party_leader_required
                      "Only the party leader can invite players." b
                      (rw (f, l, Party.with_party, Party.invite) refl)
                      (rw (e, h, l, invite_script) refl)
                | inl l ↦ elim (Bool-cases (leb 5 (length p.members))) [
                  | inl full ↦
                      both_refuse now memory stored s x party_full "The party is full." b
                        (rw (f, l, full, Party.with_party, Party.invite) refl)
                        (rw (e, h, l, full, invite_script) refl)
                  | inr room ↦ elim (Bool-cases (is_member p invited)) [
                    | inl in_it ↦
                        both_refuse now memory stored s x already_member
                          "That player is already in the party." b
                          (rw (f, l, room, in_it, Party.with_party, Party.invite) refl)
                          (rw (e, h, l, room, in_it, invite_script) refl)
                    | inr out ↦ elim (Bool-cases (JsMap.has invited s.party_by_player)) [
                      | inl taken ↦
                          both_refuse now memory stored s x already_in_party
                            "That player is already in another party." b
                            (rw (f, l, room, out, taken, Party.with_party, Party.invite) refl)
                            (rw (e, h, l, room, out, taken, invite_script) refl)
                      | inr free ↦
                          let indexes =
                            JsMap.set invited
                              (JsMap.set id (now + 5 * 60000) (index_of invited (durable s x)))
                              x.indexes in
                          both_give now memory stored
                            (record s { invites = JsMap.set id new s.invites })
                            (record {
                              invites =
                                  JsMap.set id
                                    (record { invite = new; lapses_at = now + 5 * 60000 })
                                    x.invites;
                              indexes = indexes;
                            })
                            new (Agrees-invite now s x new indexes fresh b)
                            (rw (f, l, room, out, free, Party.with_party, Party.invite) refl)
                            (rw (e, h, l, room, out, free, invite_script) refl)
                    ]
                  ]
                ]
              ])
      ]

  pub accept_invite-Simulates :
      (player invite_id : String) (now : ℕ)
      → t ≤ now
      → Simulates now
          (Party.accept_invite s player invite_id now)
          (accept_invite player invite_id now (durable s x))
  unfolding Party.accept_invite accept_invite Party.expire_invites Party.join JsMap.has JsMap.get
      live_invite
  accept_invite-Simulates player invite_id now g =
      let memory = Party.accept_invite s player invite_id now in
      let member : Member = record { player_id = player; ready = false; joined_at = now } in
      let stored = accept_script player invite_id member now (durable s x) in
      let s' = expire_invites s now in
      let b = Agrees-expire t now s x g a in
      let here = a.same now invite_id g in
      elim (Option-cases (JsMap.get invite_id (expire now s.invites))) [
        | inl n ↦
            both_refuse now memory stored s' x invite_not_found
              "That party invite is no longer active." b (rw (n, Party.accept_invite) refl)
              (rw (here, n, accept_script) refl)
        | inr (i, n) ↦ elim (Bool-cases (i.invited_player_id == player)) [
          | inr other ↦
              both_refuse now memory stored s' x invite_not_found
                "That party invite is no longer active." b (rw (n, other, Party.accept_invite) refl)
                (rw (here, n, other, accept_script) refl)
          | inl mine ↦ elim (Bool-cases (JsMap.has player s.party_by_player)) [
            | inl taken ↦
                both_refuse now memory stored s' x already_in_party
                  "Leave the current party before accepting another invite." b
                  (rw (n, mine, taken, Party.accept_invite, join) refl)
                  (rw (here, n, mine, taken, accept_script) refl)
            | inr free ↦ elim (Option-cases (JsMap.get i.party_id s.parties)) [
              | inl gone ↦
                  both_refuse now memory stored s' x party_not_found "That party no longer exists."
                    b (rw (n, mine, free, gone, Party.accept_invite, join) refl)
                    (rw (here, n, mine, free, gone, accept_script) refl)
              | inr (p, found) ↦ elim (Bool-cases (leb 5 (length p.members))) [
                | inl full ↦
                    both_refuse now memory stored s' x party_full "The party is full." b
                      (rw (n, mine, free, found, full, Party.accept_invite, join) refl)
                      (rw (here, n, mine, free, found, full, accept_script) refl)
                | inr room ↦
                    let joined : PartyService = record {
                      parties = JsMap.set i.party_id (grow member p) s.parties;
                      party_by_player = JsMap.set player i.party_id s.party_by_player;
                      invites = JsMap.delete invite_id s'.invites;
                    } in
                    let indexes =
                      JsMap.set player (JsMap.delete invite_id (index_of player (durable s x)))
                        x.indexes in
                    let c = Agrees-accept now s' x invite_id indexes b in
                    both_give now memory stored joined
                      (record { invites = JsMap.delete invite_id x.invites; indexes = indexes })
                      (grow member p) (record { same = c.same })
                      (rw
                        (
                          n,
                          mine,
                          free,
                          found,
                          room,
                          (v.sound i.party_id p found).named,
                          Party.accept_invite,
                          join,
                        )
                        refl)
                      (rw (here, n, mine, free, found, room, accept_script) refl)
              ]
            ]
          ]
        ]
      ]
