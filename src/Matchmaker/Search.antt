-- ===== src/Matchmaker/Search.antt =====
-- The search for a match: `findMatch`.
use legacy_match_platform.Common.{
  ℕ, ◌+◌, String, Bool, true, false, ◌&&◌, ◌||◌, Option, none, some, List, [], ◌∷◌, ◌++◌, length,
  take, keep, if◌then◌else◌, ◌==◌, ℕ_eq, ltb, leb, min,
}
use legacy_match_platform.Common.Doubles.{Double}
use legacy_match_platform.Contracts.{GameMode, GameMode_eq, competitive, deathmatch}
use legacy_match_platform.RedisQueue.Ready.{match_size}
use legacy_match_platform.Matchmaker.{
  MatchmakingTicket, MatchPlan, Order, or_else, sort, by_number, by_double,
}
use legacy_match_platform.Matchmaker.Teams.{ids_before}
use legacy_match_platform.Matchmaker.Evaluate.{evaluate, first}

-- The counter and the best plan of a search.
pub record Found (W : Type 0) : Type 0 where
  pub visited : ℕ
  pub best : Option (MatchPlan W)

-- `Math.min(...joined)` of a plan's tickets.
unfoldable oldest_from : {W : Type 0} → ℕ → List (MatchmakingTicket W) → ℕ
oldest_from n [] = n
oldest_from n (t ∷ ts) = oldest_from (min n t.joined_at) ts

unfoldable oldest_joined : {W : Type 0} → List (MatchmakingTicket W) → ℕ
unfolding oldest_from
oldest_joined [] = 0
oldest_joined (t ∷ ts) = oldest_from t.joined_at ts

abbrev pub slice_size : GameMode → ℕ
slice_size deathmatch = 30
slice_size competitive = 25

module _ {W : Type 0} ⦃d : Double W⦄ where
  abbrev pub is_better : MatchPlan W → Option (MatchPlan W) → Bool
  is_better plan none = true
  is_better plan (some b) =
      d.lt plan.quality.score b.quality.score
      || (d.same plan.quality.score b.quality.score && ids_before plan.tickets b.tickets)

  unfoldable pub keep_better : MatchPlan W → Option (MatchPlan W) → Option (MatchPlan W)
  keep_better plan best = if is_better plan best then some plan else best

  abbrev pub plans : Option (MatchPlan W) → List (MatchPlan W) → List (MatchPlan W)
  plans none ps = ps
  plans (some p) ps = p ∷ ps

  unfoldable pub compare_plans : MatchPlan W → MatchPlan W → Order
  unfolding oldest_joined
  compare_plans l r =
      or_else (by_number (oldest_joined l.tickets) (oldest_joined r.tickets))
        (by_double l.quality.score r.quality.score)

module _ {W : Type 0} (locale_compare : String → String → Order) where
  unfoldable pub by_age : MatchmakingTicket W → MatchmakingTicket W → Order
  by_age a b = or_else (by_number a.joined_at b.joined_at) (locale_compare a.id b.id)

  -- The tickets of a mode, the oldest first.
  unfoldable pub sorted : GameMode → List (MatchmakingTicket W) → List (MatchmakingTicket W)
  unfolding sort by_age
  sorted mode tickets = sort by_age (keep (λ t. t.mode == mode) tickets)

module _ {W : Type 0} ⦃d : Double W⦄ (locale_compare : String → String → Order)
    (now limit : ℕ) where
  -- A full selection is evaluated.
  unfoldable pub consider : GameMode → List (MatchmakingTicket W) → Found W → Found W
  unfolding evaluate keep_better
  consider mode selected f = record {
    visited = f.visited + 1;
    best = elim (evaluate locale_compare mode selected now) [
      | none ↦ f.best
      | some p ↦ keep_better p f.best
    ];
  }

  -- `visit`, whose loop over the later candidates is `deeper`.
  unfoldable pub enter :
      GameMode → List (MatchmakingTicket W) → ℕ → Found W → (Found W → Found W) → Found W
  unfolding consider
  enter mode selected size f deeper =
      if leb limit f.visited || ltb (match_size mode) size
      then f
      else (elim (size == match_size mode) [ true ↦ consider mode selected f | false ↦ deeper f ])

  -- The loop over the candidates that follow the last one selected. The tickets are distinct objects,
  -- so that the anchor, which is the first candidate, is not met again.
  unfoldable pub explore :
      GameMode → List (MatchmakingTicket W) → List (MatchmakingTicket W) → ℕ → Found W → Found W
  unfolding enter
  explore mode [] selected size f = f
  explore mode (t ∷ ts) selected size f = explore mode ts selected size (
      enter mode (selected ++ t ∷ []) (size + length t.players) f
        (λ f. explore mode ts (selected ++ t ∷ []) (size + length t.players) f))

  unfoldable pub search : GameMode → List (MatchmakingTicket W) → Option (MatchPlan W)
  unfolding sorted enter explore
  search mode tickets = elim (take (slice_size mode) (sorted locale_compare mode tickets)) [
    | [] ↦ none
    | anchor ∷ candidates ↦
        let size = length anchor.players in
        (enter mode (anchor ∷ []) size (record { visited = 0; best = none })
          (λ f. explore mode candidates (anchor ∷ []) size f)).best
  ]

  unfoldable pub find_match : List (MatchmakingTicket W) → Option (MatchPlan W)
  unfolding search sort compare_plans
  find_match tickets = first (
      sort compare_plans
        (plans (search competitive tickets) (plans (search deathmatch tickets) [])))
