-- ===== src/Matchmaker/Teams.antt =====
-- Dividing ten players into two teams: `chooseTeams` and `stackImbalance`.
use Prim.Native.String.{◌++◌ as str_append, compare as str_compare}
use Prim.Native.Nat.{Ordering}
use legacy_match_platform.Common.{
  ℕ, ◌+◌, ◌-◌, ◌*◌, String, Bool, true, false, ◌&&◌, ◌||◌, not, Option, none, some, List, [], ◌∷◌,
  ◌++◌, map, length, if◌then◌else◌, ◌==◌, ℕ_eq, ltb,
}
use legacy_match_platform.Common.Doubles.{Double}
use legacy_match_platform.Matchmaker.{MatchmakingTicket, by_number, sort, players_of, sum}

-- `ids.join(":")`, and `<` on the texts, which hold no characters beyond the basic plane.
unfoldable join_ids : List String → String
join_ids [] = ""
join_ids (i ∷ []) = i
join_ids (i ∷ j ∷ is) = str_append i (str_append ":" (join_ids (j ∷ is)))

abbrev text_lt : String → String → Bool
text_lt a b = elim (str_compare a b) [ Ordering.lt ↦ true | _ ↦ false ]

-- Whether the identifiers of the first tickets come before those of the second.
unfoldable pub ids_before :
    {W : Type 0} → List (MatchmakingTicket W) → List (MatchmakingTicket W) → Bool
unfolding join_ids
ids_before a b = text_lt (join_ids (map (λ t. t.id) a)) (join_ids (map (λ t. t.id) b))

abbrev distance : ℕ → ℕ → ℕ
distance a b = (a - b) + (b - a)

-- The loop over two lists of sizes; a missing size counts as 0.
unfoldable differences : List ℕ → List ℕ → ℕ
differences [] [] = 0
differences (a ∷ as') [] = a + differences as' []
differences [] (b ∷ bs) = b + differences [] bs
differences (a ∷ as') (b ∷ bs) = distance a b + differences as' bs

abbrev sizes : {W : Type 0} → List (MatchmakingTicket W) → List ℕ
sizes = map (λ t. length t.players)

unfoldable pub stack_imbalance :
    {W : Type 0} → List (MatchmakingTicket W) → List (MatchmakingTicket W) → ℕ
unfolding sort differences
stack_imbalance alpha bravo =
    differences (sort (λ a b. by_number b a) (sizes alpha))
      (sort (λ a b. by_number b a) (sizes bravo))

pub record Teams (W : Type 0) : Type 0 where
  pub alpha : List (MatchmakingTicket W)
  pub bravo : List (MatchmakingTicket W)
  pub rating_difference : W
  pub predicted_alpha_win : W
  pub stack_imbalance : ℕ

abbrev pub too_big : ℕ → ℕ → Bool
too_big alpha_size bravo_size = ltb 5 alpha_size || ltb 5 bravo_size

module _ {W : Type 0} ⦃d : Double W⦄ where
  abbrev team_rating : List (MatchmakingTicket W) → W
  team_rating ts = d.div (sum (map (λ p. p.rating) (players_of ts))) (d.of_nat 5)

  unfoldable pub divide : List (MatchmakingTicket W) → List (MatchmakingTicket W) → Teams W
  unfolding players_of
  divide alpha bravo =
      let alpha_rating = team_rating alpha in
      let bravo_rating = team_rating bravo in
      record {
        alpha = alpha;
        bravo = bravo;
        rating_difference = d.abs (d.sub alpha_rating bravo_rating);
        predicted_alpha_win = d.div (d.of_nat 1) (
            d.add (d.of_nat 1)
              (d.pow (d.of_nat 10) (d.div (d.sub bravo_rating alpha_rating) (d.of_nat 400))));
        stack_imbalance = stack_imbalance alpha bravo;
      }

  abbrev pub teams_score : Teams W → W
  teams_score c = d.add c.rating_difference (d.of_nat (c.stack_imbalance * 35))

  abbrev pub best_score : Option (Teams W) → W
  best_score none = d.infinity
  best_score (some b) = teams_score b

  abbrev best_alpha : Option (Teams W) → List (MatchmakingTicket W)
  best_alpha none = []
  best_alpha (some b) = b.alpha

  abbrev pub is_better : Teams W → Option (Teams W) → Bool
  is_better c best =
      d.lt (teams_score c) (best_score best)
      || (d.same (teams_score c) (best_score best) && ids_before c.alpha (best_alpha best))

  unfoldable pub keep_better : Teams W → Option (Teams W) → Option (Teams W)
  keep_better c best = if is_better c best then some c else best

  -- `visit`: each ticket goes to one team and then to the other.
  unfoldable pub visit :
      List (MatchmakingTicket W)
      → (alpha bravo : List (MatchmakingTicket W)) → (alpha_size bravo_size : ℕ) → Option (Teams W)
      → Option (Teams W)
  unfolding divide keep_better
  visit [] alpha bravo a b best = elim (too_big a b) [
    | true ↦ best
    | false ↦ if not (a == 5) || not (b == 5) then best else keep_better (divide alpha bravo) best
  ]
  visit (t ∷ ts) alpha bravo a b best = elim (too_big a b) [
    | true ↦ best
    | false ↦
        visit ts alpha (bravo ++ t ∷ []) a (b + length t.players)
          (visit ts (alpha ++ t ∷ []) bravo (a + length t.players) b best)
  ]

  unfoldable pub choose_teams : List (MatchmakingTicket W) → Option (Teams W)
  unfolding visit
  choose_teams tickets = visit tickets [] [] 0 0 none
