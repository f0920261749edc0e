-- ===== src/Settlement/Tests.antt =====
-- The settlement of a match of two players, one of whom wins a level.
use legacy_match_platform.Common.{
  ℕ, String, Bool, true, ◌||◌, Option, none, some, List, [], ◌∷◌, All, map, distinct, ◌==◌,
  String_eq, ℕ_eq, Bool-cases, Result, ok, err, some_inj, ◌≡◌, inl, inr, refl, subst, arith,
}
use legacy_match_platform.Common.JsMap
use legacy_match_platform.Common.JsMap.{JsMap}
use legacy_match_platform.Contracts.{competitive, deathmatch}
use legacy_match_platform.Progression.{ProfileProgress}
use legacy_match_platform.Progression.Totals.{IsProfile}
use legacy_match_platform.Receipts.{
  RosterEntry, ProgressionReceipt, alpha, bravo, validated_progression, expected_category,
}
use legacy_match_platform.Receipts.Progress.{Honest, validated_progression-Honest}
use legacy_match_platform.Settlement.{
  Tables, SettleInput, settle_progression, MatchRow, live, completed, SettleError, settle_match,
  drops_of,
}
use legacy_match_platform.Settlement.Again.{settle_match-again}
use legacy_match_platform.Settlement.Awards.{sent}
use legacy_match_platform.Settlement.Accepted.{AllValid, settlement-accepted}

abbrev one_digit : String → Bool
one_digit s = s == "1" || s == "2"

abbrev is_drawn : String → Bool
is_drawn s = s == "7"

abbrev drawn_id : String → ℕ → String
drawn_id player level = "7"

abbrev input : SettleInput
input = record { mode = competitive; alpha_rounds = 13; bravo_rounds = 5; kills = [] }

abbrev profiles : JsMap ProfileProgress
profiles = ("a", record { level = 1; xp = 950 }) ∷ ("b", record { level = 3; xp = 0 }) ∷ []

abbrev roster : List RosterEntry
roster =
    record { player_id = "a"; steam_id = "1"; team = alpha }
    ∷ record { player_id = "b"; steam_id = "2"; team = bravo }
    ∷ []

abbrev empty_tables : Tables
empty_tables = record { players = profiles; lifetime = []; ledger = []; drops = [] }

abbrev settled : Option (Tables × List ProgressionReceipt)
settled = settle_progression drawn_id input profiles roster empty_tables

abbrev after : Tables
after = elim settled [ none ↦ empty_tables | some r ↦ r.0 ]

abbrev receipts : List ProgressionReceipt
receipts = elim settled [ none ↦ [] | some r ↦ r.1 ]

All-AllValid :
    (m : JsMap ProfileProgress)
    → All (λ (e : String × ProfileProgress). IsProfile e.1) m
    → AllValid m
unfolding JsMap.get
All-AllValid [] h player p g = absurd cc
All-AllValid ((k, v) ∷ m) h player p g = elim (Bool-cases (k == player)) [
  | inl e ↦ subst IsProfile (some_inj (rw (e, JsMap.get) at g)) h.0
  | inr e ↦ All-AllValid m h.1 player p (rw (e, JsMap.get) at g)
]

profiles-AllValid : AllValid profiles
profiles-AllValid = All-AllValid profiles (
  record { least = omega arith; most = omega arith; below = omega arith },
  (record { least = omega arith; most = omega arith; below = omega arith }, tt),
)

settled-eq-after : settled ≡ some (after, receipts)
unfolding settle_progression JsMap.get JsMap.has JsMap.set
settled-eq-after = refl

settlement-accepted_example :
    validated_progression one_digit is_drawn (some competitive) roster (some (map sent receipts))
    ≡ ok receipts
settlement-accepted_example =
    settlement-accepted one_digit is_drawn drawn_id (λ player level. refl) input profiles
      (some competitive) roster empty_tables after receipts refl profiles-AllValid
      (refl, (refl, tt)) refl settled-eq-after

validated_progression-Honest_example :
    All (Honest one_digit is_drawn roster (expected_category (some competitive) roster)) receipts
    × (distinct (map (λ (r : ProgressionReceipt). r.steam_id) receipts) ≡ true)
validated_progression-Honest_example =
    validated_progression-Honest one_digit is_drawn (some competitive) roster
      (some (map sent receipts)) receipts settlement-accepted_example

abbrev shots : SettleInput
shots = record input { mode = deathmatch; kills = ("a", 30) ∷ [] }

abbrev playing : MatchRow
playing = record { status = live; alpha_rounds = none; bravo_rounds = none }

abbrev over : MatchRow
over = record { status = completed; alpha_rounds = some 13; bravo_rounds = some 5 }

abbrev first_settlement : Result SettleError (MatchRow × Tables × List ProgressionReceipt)
first_settlement = settle_match drawn_id shots profiles roster playing empty_tables

abbrev written : Tables
written = elim first_settlement [ err e ↦ empty_tables | ok r ↦ r.1 ]

abbrev answers : List ProgressionReceipt
answers = elim first_settlement [ err e ↦ [] | ok r ↦ r.2 ]

first_settlement-eq-ok : first_settlement ≡ ok (over, written, answers)
unfolding settle_match JsMap.get JsMap.has JsMap.set
first_settlement-eq-ok = refl

settle_match-again_example :
    (over.status ≡ completed)
    × (settle_match drawn_id shots [] roster over written ≡ ok (over, written, answers))
unfolding JsMap.get drops_of
settle_match-again_example =
    settle_match-again drawn_id shots profiles [] roster playing over empty_tables written answers
      (λ player level. refl) profiles-AllValid ((refl, refl), ((refl, refl), tt)) refl refl refl
      first_settlement-eq-ok
