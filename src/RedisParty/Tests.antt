-- ===== src/RedisParty/Tests.antt =====
-- The durable party service on a small history: `a` founds a party, invites `b`, who joins and marks
-- itself ready; `a` leaves the party to `b`.
use legacy_match_platform.Common.{ℕ, true, some, List, [], ◌∷◌, String, ◌≡◌, refl, map, arith}
use legacy_match_platform.Common.JsMap
use legacy_match_platform.Common.JsMap.{JsMap}
use legacy_match_platform.Party
use legacy_match_platform.Party.{
  Member, PartyState, Call, creates, lists_invites, invites, accepts, sets_ready, transfers, leaves,
}
use legacy_match_platform.RedisParty.{Store}
use legacy_match_platform.RedisParty.History.{
  answers, stored_answers, stored_run, nothing_stored, durable-refines-memory,
}
use legacy_match_platform.RedisParty.Queued.{queued-roster_frozen}

-- Redis lists a sorted set by score; the invitations of this history come in that order.
abbrev z_range : JsMap ℕ → List String
z_range = map (λ e. e.0)

abbrev history : List Call
history =
    creates "a" "p1" 10
    ∷ invites "a" "b" "i1" 20
    ∷ lists_invites "b" 25
    ∷ accepts "b" "i1" 30
    ∷ sets_ready "b" true
    ∷ leaves "a"
    ∷ []

durable-refines-memory_example :
    (stored_answers z_range nothing_stored history ≡ answers Party.empty history)
    × ((stored_run z_range nothing_stored history).parties
        ≡ (Party.run Party.empty history).parties)
    × ((stored_run z_range nothing_stored history).pointers
        ≡ (Party.run Party.empty history).party_by_player)
unfolding JsMap.get Party.step Party.get_for_player
durable-refines-memory_example =
    durable-refines-memory z_range history
      (omega arith, (omega arith, (omega arith, (omega arith, (omega arith, (omega arith, tt))))))
      ((refl, refl), (tt, (tt, (tt, (tt, (tt, tt)))))) (tt, (refl, (tt, (tt, (tt, (tt, tt))))))

abbrev pair : PartyState
pair = record {
  id = "p1";
  leader_player_id = "a";
  members =
      record { player_id = "a"; ready = true; joined_at = 10 }
      ∷ record { player_id = "b"; ready = true; joined_at = 30 }
      ∷ [];
  created_at = 10;
  version = 3;
}

abbrev queued : Store
queued = record {
  parties = ("p1", pair) ∷ [];
  pointers = ("a", "p1") ∷ ("b", "p1") ∷ [];
  invites = [];
  indexes = [];
  tickets = ("p1", "t1") ∷ [];
}

abbrev attempts : List Call
attempts = leaves "a" ∷ transfers "a" "b" ∷ creates "c" "p2" 40 ∷ sets_ready "b" true ∷ []

queued-roster_frozen_example :
    (JsMap.get "p1" (stored_run z_range queued attempts).parties ≡ JsMap.get "p1" queued.parties)
    × (JsMap.get "p1" (stored_run z_range queued attempts).tickets ≡ some "t1")
unfolding JsMap.get
queued-roster_frozen_example =
    queued-roster_frozen z_range queued "p1" "t1" attempts refl (tt, (tt, (refl, (tt, tt))))
