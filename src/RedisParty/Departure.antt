-- ===== src/RedisParty/Departure.antt =====
-- Leaving a party of the durable party service, apps/api/src/redis-party-service.ts, against leaving
-- one in memory.
use legacy_match_platform.Common.{
  ℕ, ◌+◌, String, not, none, some, List, [], ◌∷◌, keep, ◌==◌, String_eq, ◌≡◌, refl, if◌then◌else◌,
}
use legacy_match_platform.Common.JsMap
use legacy_match_platform.Common.JsMap.{JsMap, get-set, get-delete}
use legacy_match_platform.Party
use legacy_match_platform.Party.{
  Member, PartyState, PartyInvite, PartyError, PartyService, find_party, is_member, player_ids,
  expire, expire_invites, mark_ready, remove_first, splice_member, join,
}
use legacy_match_platform.Party.Invariant.{Inv}
use legacy_match_platform.Party.Preservation.{splice_member_lem}
use legacy_match_platform.Party.Members.{keep-eq-remove_first}
use legacy_match_platform.RedisParty.{live_invite, shrink, leave_script, party_not_found, leave}
use legacy_match_platform.RedisParty.Simulation.{
  Extras, durable, Agrees, homeless, home, find_party-Home,
}
use legacy_match_platform.RedisParty.Methods.{Simulates, both_refuse, both_give}

module _ (t : ℕ) (s : PartyService) (x : Extras) (v : Inv s) (a : Agrees t s x) where
  -- Leaving, by those who remain.
  leave-remaining :
      (player key : String) (p : PartyState)
      → JsMap.get player s.party_by_player ≡ some key
      → JsMap.get key s.parties ≡ some p
      → find_party s player ≡ some (key, p)
      → p.id ≡ key
      → (ms : List Member) → splice_member player p.members ≡ ms
      → keep (λ m. not (m.player_id == player)) p.members ≡ ms
      → Simulates t (Party.leave s player) (leave player (durable s x))
  unfolding Party.leave leave shrink JsMap.has JsMap.get live_invite
  leave-remaining player key p e h f named [] spliced kept =
      both_give t (Party.leave s player) (leave_script player (durable s x))
        (record s {
          parties = JsMap.delete key s.parties;
          party_by_player = JsMap.delete player s.party_by_player;
        })
        x none (record { same = a.same })
        (rw (f, spliced, named, Party.with_party, Party.leave) refl)
        (rw (e, h, kept, leave_script, shrink) refl)
  leave-remaining player key p e h f named (first ∷ rest) spliced kept =
      let left : PartyState = record p {
        leader_player_id =
            if p.leader_player_id == player then first.player_id else p.leader_player_id;
        members = first ∷ rest;
        version = p.version + 1;
      } in
      both_give t (Party.leave s player) (leave_script player (durable s x))
        (record s {
          parties = JsMap.set key left s.parties;
          party_by_player = JsMap.delete player s.party_by_player;
        })
        x (some left) (record { same = a.same })
        (rw (f, spliced, Party.with_party, Party.leave) refl)
        (rw (e, h, kept, leave_script, shrink) refl)

  pub leave-Simulates :
      (player : String) → Simulates t (Party.leave s player) (leave player (durable s x))
  unfolding leave Party.leave
  leave-Simulates player = elim (find_party-Home s player v) [
    | homeless e f ↦
        both_refuse t (Party.leave s player) (leave_script player (durable s x)) s x party_not_found
          "Create or join a party first." a (rw (f, Party.with_party, Party.leave) refl)
          (rw (e, leave_script) refl)
    | home key p e h f w m ↦
        leave-remaining player key p e h f w.named (remove_first player p.members)
          (splice_member_lem player p.members m) (keep-eq-remove_first player p.members w.unique)
  ]
