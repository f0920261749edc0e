-- ===== src/Receipts.antt =====
-- The receipts of experience that a game server's agent accepts from the platform:
-- `validatedProgression` of apps/node-agent/src/event-pump.ts. A field that the code reads by `Number`
-- is none where it is no natural number, which every range test refuses alike. The two regular
-- expressions are parameters.
pub mod Progress
use legacy_match_platform.Common.{
  ℕ, zero, suc, ◌+◌, ◌-◌, String, Bool, true, false, not, ◌&&◌, ◌||◌, Option, none, some, List, [],
  ◌∷◌, map, length, every, includes, if◌then◌else◌, ◌==◌, String_eq, ℕ_eq, ltb, leb, min, Result,
  ok, err,
}
use legacy_match_platform.Contracts.{GameMode, GameMode_eq, deathmatch}

pub data RosterTeam : Type 0 where
  alpha bravo ffa : RosterTeam

pub record RosterEntry : Type 0 where
  pub player_id : String
  pub steam_id : String
  pub team : RosterTeam

pub record ServiceDrop : Type 0 where
  pub id : String
  pub service_level : ℕ
  pub reward_type : String

pub record ProgressionReceipt : Type 0 where
  pub steam_id : String
  pub earned_xp : ℕ
  pub previous_level : ℕ
  pub previous_xp : ℕ
  pub next_level : ℕ
  pub next_xp : ℕ
  pub xp_category : ℕ
  pub service_drop : Option ServiceDrop

-- A decoded entry; `nothing` stands for null and undefined.
pub data DropValue : Type 0 where
  nothing no_object : DropValue
  reward : (id : Option String) (service_level : Option ℕ) (reward_type : Option String) → DropValue

pub record Candidate : Type 0 where
  pub steam_id : Option String
  pub earned_xp : Option ℕ
  pub previous_level : Option ℕ
  pub previous_xp : Option ℕ
  pub next_level : Option ℕ
  pub next_xp : Option ℕ
  pub xp_category : Option ℕ
  pub service_drop : DropValue

pub data ReceiptError : Type 0 where
  invalid_progression inconsistent_progression invalid_drop omitted_drop : ReceiptError

abbrev pub is_ffa : RosterTeam → Bool
is_ffa ffa = true
is_ffa _ = false

abbrev pub expected_category : Option GameMode → List RosterEntry → ℕ
expected_category mode roster =
    if mode_is_deathmatch || every (λ e. is_ffa e.team) roster then 1 else 2
  where
    mode_is_deathmatch : Bool
    mode_is_deathmatch = elim mode [ none ↦ false | some m ↦ m == deathmatch ]

-- The loop over the levels, on as many rounds as there are levels.
unfoldable pub climb : ℕ → (level xp : ℕ) → ℕ × ℕ
climb zero level xp = (level, xp)
climb (suc n) level xp =
    let rest = climb n (suc level) (xp - 1000) in
    if ltb level 40 && leb 1000 xp then rest else (level, xp)

unfoldable pub computed : (level xp earned : ℕ) → ℕ × ℕ
unfolding climb
computed level xp earned =
    let r = climb 40 level (xp + earned) in if r.0 == 40 then (r.0, min r.1 999) else r

module _ (is_steam_id is_uuid : String → Bool) where
  abbrev pub within : (least most : ℕ) → ℕ → Bool
  within least most n = leb least n && leb n most

  -- The long test, on the fields that are natural numbers.
  abbrev pub fields_fine : List RosterEntry → ℕ → List String → ProgressionReceipt → Bool
  fields_fine roster category seen r =
      is_steam_id r.steam_id
      && includes (map (λ e. e.steam_id) roster) r.steam_id
      && not (includes seen r.steam_id)
      && within 1 1000 r.earned_xp
      && within 1 40 r.previous_level
      && ltb r.previous_xp 1000
      && within 1 40 r.next_level
      && ltb r.next_xp 1000
      && r.xp_category == category

  -- `serviceDrop`.
  unfoldable pub drop_of :
      DropValue → (previous_level next_level : ℕ) → Result ReceiptError (Option ServiceDrop)
  drop_of nothing previous next = if ltb previous next then err omitted_drop else ok none
  drop_of no_object previous next = err invalid_drop
  drop_of (reward (some id) (some level) (some kind)) previous next =
      if is_uuid id && level == next && kind == "b2g_service_drop" && next == previous + 1
      then ok (some (record { id = id; service_level = next; reward_type = "b2g_service_drop" }))
      else err invalid_drop
  drop_of (reward id level kind) previous next = err invalid_drop

  unfoldable pub validate_fields :
      List RosterEntry
      → ℕ
      → List String
      → ProgressionReceipt
      → DropValue
      → Result ReceiptError ProgressionReceipt
  unfolding computed drop_of
  validate_fields roster category seen r drop =
      let next = computed r.previous_level r.previous_xp r.earned_xp in
      if not (fields_fine roster category seen r)
      then err invalid_progression
      else if not (r.next_level == next.0 && r.next_xp == next.1)
      then err inconsistent_progression
      else (elim (drop_of drop r.previous_level r.next_level) [
        | err e ↦ err e
        | ok d ↦ ok (record r { service_drop = d })
      ])

  -- The fields as numbers, when all of them are.
  unfoldable pub read : Candidate → Option ProgressionReceipt
  read c = elim c.steam_id [
    | none ↦ none
    | some steam_id ↦ elim c.earned_xp [
      | none ↦ none
      | some earned ↦ elim c.previous_level [
        | none ↦ none
        | some level ↦ elim c.previous_xp [
          | none ↦ none
          | some xp ↦ elim c.next_level [
            | none ↦ none
            | some next ↦ elim c.next_xp [
              | none ↦ none
              | some next_xp ↦ elim c.xp_category [
                | none ↦ none
                | some category ↦ some (record {
                  steam_id = steam_id;
                  earned_xp = earned;
                  previous_level = level;
                  previous_xp = xp;
                  next_level = next;
                  next_xp = next_xp;
                  xp_category = category;
                  service_drop = none;
                })
              ]
            ]
          ]
        ]
      ]
    ]
  ]

  unfoldable pub validate_one :
      List RosterEntry → ℕ → List String → Option Candidate → Result ReceiptError ProgressionReceipt
  unfolding validate_fields read
  validate_one roster category seen none = err invalid_progression
  validate_one roster category seen (some c) = elim (read c) [
    | none ↦ err invalid_progression
    | some r ↦ validate_fields roster category seen r c.service_drop
  ]

  unfoldable pub validate_all :
      List RosterEntry
      → ℕ
      → List String
      → List (Option Candidate)
      → Result ReceiptError (List ProgressionReceipt)
  unfolding validate_one
  validate_all roster category seen [] = ok []
  validate_all roster category seen (c ∷ cs) = elim (validate_one roster category seen c) [
    | err e ↦ err e
    | ok r ↦ elim (validate_all roster category (r.steam_id ∷ seen) cs) [
      | err e ↦ err e
      | ok rs ↦ ok (r ∷ rs)
    ]
  ]

  -- `value` is none when it is no array.
  unfoldable pub validated_progression :
      Option GameMode
      → List RosterEntry
      → Option (List (Option Candidate))
      → Result ReceiptError (List ProgressionReceipt)
  unfolding validate_all
  validated_progression mode roster none = err invalid_progression
  validated_progression mode roster (some cs) =
      if ltb (length roster) (length cs)
      then err invalid_progression
      else validate_all roster (expected_category mode roster) [] cs
