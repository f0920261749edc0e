-- ===== src/Party/Tests.antt =====
-- The party service on a small history: `a` founds a party, invites `b`, and leaves it to `b`.
use legacy_match_platform.Common.{true, false, none, some, List, [], ◌∷◌, ◌≡◌, refl, String_eq}
use legacy_match_platform.Common.JsMap
use legacy_match_platform.Party.{
  PartyState, empty, Call, creates, invites, accepts, run, find_party, leave, accept_invite,
  get_for_player, join, expire_invites,
}
use legacy_match_platform.Party.Invariant.{Inv}
use legacy_match_platform.Party.Preservation.{run-empty-Inv}
use legacy_match_platform.Party.Behaviour.{
  Accepted, accept_invite-Accepted, get_for_player-leave, leave-hands_over, Remains, lists,
}

abbrev founded : List Call
founded = creates "a" "p1" 10 ∷ invites "a" "b" "i1" 20 ∷ []

abbrev history : List Call
history = creates "a" "p1" 10 ∷ invites "a" "b" "i1" 20 ∷ accepts "b" "i1" 30 ∷ []

abbrev pair : PartyState
pair = record {
  id = "p1";
  leader_player_id = "a";
  members =
      record { player_id = "a"; ready = true; joined_at = 10 }
      ∷ record { player_id = "b"; ready = false; joined_at = 30 }
      ∷ [];
  created_at = 10;
  version = 2;
}

abbrev rest_of_pair : PartyState
rest_of_pair = record {
  id = "p1";
  leader_player_id = "b";
  members = record { player_id = "b"; ready = false; joined_at = 30 } ∷ [];
  created_at = 10;
  version = 3;
}

run-empty-Inv_example : Inv (run empty history)
unfolding JsMap.get
run-empty-Inv_example = run-empty-Inv history ((refl, refl), (tt, (tt, tt)))

accept_invite-Accepted_example : Accepted (run empty founded) "b" "i1" 30 (run empty history) pair
unfolding run find_party JsMap.get get_for_player JsMap.set JsMap.has JsMap.delete join
    expire_invites accept_invite leave
accept_invite-Accepted_example =
    accept_invite-Accepted (run empty founded) "b" "i1" 30 (run empty history) pair refl

run-empty_example : Inv (run empty history)
unfolding JsMap.get
run-empty_example = run-empty-Inv history ((refl, refl), (tt, (tt, tt)))

get_for_player-leave_example :
    (get_for_player (leave (run empty history) "a").0 "a" ≡ none)
    × (lists (JsMap.get "p1" (leave (run empty history) "a").0.parties) "a" ≡ false)
unfolding run find_party JsMap.get get_for_player JsMap.set JsMap.has JsMap.delete join
    expire_invites accept_invite leave
get_for_player-leave_example =
    get_for_player-leave (run empty history) "a" "p1" (some rest_of_pair) run-empty_example refl

leave-hands_over_example : Remains "a" pair rest_of_pair
unfolding run find_party JsMap.get get_for_player JsMap.set JsMap.has JsMap.delete join
    expire_invites accept_invite leave
leave-hands_over_example =
    leave-hands_over (run empty history) "a" "p1" pair rest_of_pair run-empty_example refl refl
