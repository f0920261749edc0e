-- ===== src/Matchmaker.antt =====
-- The matchmaker, apps/api/src/matchmaker.ts: its data, and the helpers that its parts share.
-- Ratings, pings and scores are numbers of an abstract type `W`; a `joinedAt` is the number of
-- milliseconds that the text stands for.
pub mod Teams
pub mod Evaluate
pub mod Search
pub mod Run
pub mod Splits
pub mod Lists
pub mod Fair
pub mod Oldest
pub mod Sources
pub mod Proposals
pub mod Invariant
mod Tests
use legacy_match_platform.Common.{
  ℕ, ◌+◌, ◌-◌, ◌*◌, ◌/◌, String, Bool, true, false, Option, none, some, List, [], ◌∷◌, ◌++◌, map,
  length, get_elem?, keep, every, includes, if◌then◌else◌, ◌==◌, String_eq, ltb, max, min,
}
use legacy_match_platform.Common.JsMap
use legacy_match_platform.Common.JsMap.{JsMap}
use legacy_match_platform.Common.Doubles.{Double}
use legacy_match_platform.Contracts.{GameMode}
use legacy_match_platform.RedisQueue.{Ticket}

pub data ModerationBand : Type 0 where
  normal restricted : ModerationBand

pub record Player (W : Type 0) : Type 0 where
  pub player_id : String
  pub steam_id : String
  pub rating : W
  pub uncertainty : W
  pub moderation_band : ModerationBand
  pub region_pings : JsMap W

pub record MatchmakingTicket (W : Type 0) : Type 0 where
  pub id : String
  pub fencing_token : ℕ
  pub joined_at : ℕ
  pub mode : GameMode
  pub regions : List String
  pub maps : List String
  pub players : List (Player W)
  pub source : Ticket

pub record MatchQuality (W : Type 0) : Type 0 where
  pub score : W
  pub predicted_alpha_win : W
  pub rating_difference : W
  pub ping_spread : W
  pub max_ping : W
  pub stack_imbalance : ℕ
  pub oldest_wait_seconds : ℕ
  pub rating_window : ℕ
  pub ping_limit : ℕ

pub record MatchPlan (W : Type 0) : Type 0 where
  pub mode : GameMode
  pub tickets : List (MatchmakingTicket W)
  pub alpha_player_ids : List String
  pub bravo_player_ids : List String
  pub map_name : String
  pub map_pool : List String
  pub region : String
  pub quality : MatchQuality W

-- What a comparison of `sort` answers: a negative number, a positive one, or neither.
pub data Order : Type 0 where
  below level above : Order

-- `x || y` of two comparisons.
abbrev pub or_else : Order → Order → Order
or_else below y = below
or_else level y = y
or_else above y = above

abbrev pub is_above : Order → Bool
is_above below = false
is_above level = false
is_above above = true

-- `xs.sort(compare)`, which is stable.
module _ {A : Type 0} (compare_to : A → A → Order) where
  unfoldable pub insert : A → List A → List A
  insert x [] = x ∷ []
  insert x (y ∷ ys) =
      let rest = insert x ys in if is_above (compare_to x y) then y ∷ rest else x ∷ y ∷ ys

  unfoldable pub sort : List A → List A
  unfolding insert
  sort [] = []
  sort (x ∷ xs) = insert x (sort xs)

-- `a - b` as a comparison of whole numbers.
abbrev pub by_number : ℕ → ℕ → Order
by_number a b = if ltb a b then below else if ltb b a then above else level

-- `flatMap((ticket) => ticket.players)`.
unfoldable pub players_of : {W : Type 0} → List (MatchmakingTicket W) → List (Player W)
players_of [] = []
players_of (t ∷ ts) = t.players ++ players_of ts

abbrev pub ids_of : {W : Type 0} → List (Player W) → List String
ids_of = map (λ p. p.player_id)

unfoldable pub intersection : List (List String) → List String
intersection [] = []
intersection (items ∷ rest) = keep (λ v. every (λ set. includes set v) rest) items

-- A start in the future counts as no wait.
abbrev pub wait_seconds : {W : Type 0} → MatchmakingTicket W → ℕ → ℕ
wait_seconds t now = (now - t.joined_at) / 1000

-- `Math.max(...waits)`, of tickets that have players.
unfoldable pub oldest_wait : {W : Type 0} → List (MatchmakingTicket W) → ℕ → ℕ
oldest_wait [] now = 0
oldest_wait (t ∷ ts) now = max (wait_seconds t now) (oldest_wait ts now)

module _ {W : Type 0} ⦃d : Double W⦄ where
  -- `a - b` as a comparison.
  abbrev pub by_double : W → W → Order
  by_double a b =
      if d.lt (d.sub a b) (d.of_nat 0)
      then below
      else if d.lt (d.of_nat 0) (d.sub a b)
      then above
      else level

  -- `reduce((sum, x) => sum + x, sum)`.
  abbrev pub sum_from : W → List W → W
  sum_from sum [] = sum
  sum_from sum (x ∷ xs) = sum_from (d.add sum x) xs

  abbrev pub sum : List W → W
  sum = sum_from (d.of_nat 0)

  -- `Math.max(...xs)` and `Math.min(...xs)` of a list that is not empty.
  abbrev pub largest : W → List W → W
  largest x [] = x
  largest x (y ∷ ys) = largest (d.larger x y) ys

  abbrev pub smallest : W → List W → W
  smallest x [] = x
  smallest x (y ∷ ys) = smallest (d.smaller x y) ys

  -- By rating, the highest first.
  unfoldable pub by_captain : (String → String → Order) → Player W → Player W → Order
  by_captain locale_compare l r =
      or_else (by_double r.rating l.rating) (locale_compare l.player_id r.player_id)

  -- The first player of a team by rating; a team without players has none.
  unfoldable pub captain_for : (String → String → Order) → List (Player W) → Option String
  unfolding sort by_captain
  captain_for locale_compare players = elim (sort (by_captain locale_compare) players) [
    | [] ↦ none
    | p ∷ _ ↦ some p.player_id
  ]

  -- The index that the selector answers; none for one that is no natural number.
  unfoldable pub choose_client_selected_map : (ℕ → Option ℕ) → MatchPlan W → Option (MatchPlan W)
  choose_client_selected_map random_index plan = elim (random_index (length plan.map_pool)) [
    | none ↦ none
    | some i ↦ elim (get_elem? plan.map_pool i) [
      | none ↦ none
      | some m ↦ some (record plan { map_name = m; map_pool = m ∷ [] })
    ]
  ]
