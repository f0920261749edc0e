-- ===== src/Matchmaker/Splits.antt =====
-- The divisions into teams among which `chooseTeams` of apps/api/src/matchmaker.ts chooses.
use legacy_match_platform.Common.{
  ℕ, ◌+◌, true, false, Option, none, some, List, [], ◌∷◌, ◌++◌, length, length-append, ◌==◌, ℕ_eq,
  ◌≡◌, ◌⊎◌, eq→≡, refl, subst, arith, inl, inr, Bool-cases,
}
use mathlib.Core.List.{append_assoc, append-nil}
use legacy_match_platform.Common.Doubles.{Double, IsDouble}
use legacy_match_platform.Matchmaker.{MatchmakingTicket, players_of}
use legacy_match_platform.Matchmaker.Teams.{
  Teams, divide, teams_score, best_score, is_better, keep_better, too_big, visit, choose_teams,
}

-- Each entry of the first list is in one of the two others, in the same order.
pub data Split {A : Type 0} : List A → List A → List A → Type 0 where
  split_end : Split [] [] []
  to_alpha : (x : A) (xs as' bs : List A) → Split xs as' bs → Split (x ∷ xs) (x ∷ as') bs
  to_bravo : (x : A) (xs as' bs : List A) → Split xs as' bs → Split (x ∷ xs) as' (x ∷ bs)

-- The number of players on tickets.
abbrev pub size : {W : Type 0} → List (MatchmakingTicket W) → ℕ
size ts = length (players_of ts)

size-cons :
    {W : Type 0} (t : MatchmakingTicket W) (ts : List (MatchmakingTicket W))
    → size (t ∷ ts) ≡ length t.players + size ts
unfolding players_of
size-cons t ts = length-append t.players (players_of ts)

room : (a b m n : ℕ) → a + m ≡ 5 → b + n ≡ 5 → too_big a b ≡ false
room a b m n p q = ground arith

module _ {W : Type 0} ⦃d : Double W⦄ where
  abbrev pub Holds : (Teams W → Type 0) → Option (Teams W) → Type 0
  Holds Q none = Unit
  Holds Q (some c) = Q c

  keep_better-Holds :
      (Q : Teams W → Type 0) (c : Teams W) (best : Option (Teams W))
      → Q c
      → Holds Q best
      → Holds Q (keep_better c best)
  unfolding keep_better
  keep_better-Holds Q c best q h = elim (Bool-cases (is_better c best)) [
    | inl e ↦ rw e q
    | inr e ↦ rw e h
  ]

  -- Where every ticket has a team.
  visit_end :
      (alpha bravo : List (MatchmakingTicket W)) (a b : ℕ) (best : Option (Teams W))
      → ((a ≡ 5)
          × (b ≡ 5)
          × (visit [] alpha bravo a b best ≡ keep_better (divide alpha bravo) best))
        ⊎ (visit [] alpha bravo a b best ≡ best)
  unfolding visit
  visit_end alpha bravo a b best = elim (Bool-cases (too_big a b)) [
    | inl e ↦ inr (rw (e, visit) refl)
    | inr e ↦ elim (Bool-cases (a == 5)) [
      | inr p ↦ inr (rw (e, p, visit) refl)
      | inl p ↦ elim (Bool-cases (b == 5)) [
        | inr q ↦ inr (rw (e, p, q, visit) refl)
        | inl q ↦ inl (eq→≡ a 5 p, eq→≡ b 5 q, rw (e, p, q, visit) refl)
      ]
    ]
  ]

  visit_next :
      (t : MatchmakingTicket W) (ts alpha bravo : List (MatchmakingTicket W)) (a b : ℕ)
      (best : Option (Teams W))
      → too_big a b ≡ false
      → visit (t ∷ ts) alpha bravo a b best
        ≡ visit ts alpha
            (bravo ++ t ∷ [])
            a
            (b + length t.players)
            (visit ts (alpha ++ t ∷ []) bravo (a + length t.players) b best)
  unfolding visit
  visit_next t ts alpha bravo a b best e = rw (e, visit) refl

  visit_full :
      (alpha bravo : List (MatchmakingTicket W)) (a b : ℕ) (best : Option (Teams W))
      → a ≡ 5
      → b ≡ 5
      → visit [] alpha bravo a b best ≡ keep_better (divide alpha bravo) best
  unfolding visit
  visit_full alpha bravo a b best p q = rw (p, q) refl

  visit_pruned :
      (ts alpha bravo : List (MatchmakingTicket W)) (a b : ℕ) (best : Option (Teams W))
      → too_big a b ≡ true
      → visit ts alpha bravo a b best ≡ best
  unfolding visit
  visit_pruned [] alpha bravo a b best e = rw (e, visit) refl
  visit_pruned (t ∷ ts) alpha bravo a b best e = rw (e, visit) refl

  -- What holds of every division of what is left, with five players on a side, holds of the best.
  visit-Holds :
      (Q : Teams W → Type 0) (ts alpha bravo : List (MatchmakingTicket W)) (a b : ℕ)
      (best : Option (Teams W))
      → ((as' bs : List (MatchmakingTicket W))
          → Split ts as' bs
          → a + size as' ≡ 5
          → b + size bs ≡ 5
          → Q (divide (alpha ++ as') (bravo ++ bs)))
      → Holds Q best
      → Holds Q (visit ts alpha bravo a b best)
  unfolding players_of
  visit-Holds Q [] alpha bravo a b best h g = elim (visit_end alpha bravo a b best) [
    | inr e ↦ rw e g
    | inl (p, q, e) ↦
        let c = h [] [] split_end (omega (arith, p)) (omega (arith, q)) in
        rw e (
          keep_better-Holds Q (divide alpha bravo) best
            (rw (append-nil alpha, append-nil bravo) at c) g)
  ]
  visit-Holds Q (t ∷ ts) alpha bravo a b best h g = elim (Bool-cases (too_big a b)) [
    | inl e ↦ rw (visit_pruned (t ∷ ts) alpha bravo a b best e) g
    | inr e ↦
        let one = t ∷ [] in
        rw (visit_next t ts alpha bravo a b best e) (
          visit-Holds Q ts alpha (bravo ++ one) a (b + length t.players) _
            (λ as' bs s p q.
              rw (append_assoc bravo one bs)
                (h as' (t ∷ bs) (to_bravo t ts as' bs s) p (omega (arith, q, size-cons t bs))))
            (visit-Holds Q ts (alpha ++ one) bravo (a + length t.players) b best
              (λ as' bs s p q.
                rw (append_assoc alpha one as')
                  (h (t ∷ as') bs (to_alpha t ts as' bs s) (omega (arith, p, size-cons t as')) q))
              g))
  ]

  -- The teams that are chosen are a division of the tickets, with five players on a side.
  pub record Divides (tickets : List (MatchmakingTicket W)) (c : Teams W) : Type 0 where
    pub split : Split tickets c.alpha c.bravo
    pub alpha_five : size c.alpha ≡ 5
    pub bravo_five : size c.bravo ≡ 5

  pub choose_teams-Divides :
      (tickets : List (MatchmakingTicket W)) (c : Teams W)
      → choose_teams tickets ≡ some c
      → Divides tickets c
  unfolding choose_teams divide
  choose_teams-Divides tickets c h = subst (Holds (Divides tickets)) h (
      visit-Holds (Divides tickets) tickets [] [] 0 0 none
        (λ as' bs s p q. record {
          split = s;
          alpha_five = omega (arith, p);
          bravo_five = omega (arith, q);
        })
        tt)

  module _ (laws : IsDouble W) where
    -- The score does not beat the best teams so far.
    abbrev Behind : W → Option (Teams W) → Type 0
    Behind w best = d.lt w (best_score best) ≡ false

    keep_better-Behind :
        (w : W) (c : Teams W) (best : Option (Teams W))
        → Behind w best
        → Behind w (keep_better c best)
    unfolding keep_better
    keep_better-Behind w c best h = elim (Bool-cases (is_better c best)) [
      | inr e ↦ rw e h
      | inl e ↦ elim (Bool-cases (d.lt w (teams_score c))) [
        | inr f ↦ rw e f
        | inl f ↦ absurd (elim (Bool-cases (d.lt (teams_score c) (best_score best))) [
          | inl g ↦ let k = laws.lt_trans w (teams_score c) (best_score best) f g in cc
          | inr g ↦
              let s : d.same (teams_score c) (best_score best) ≡ true = ground arith in
              let k = laws.lt-same w (teams_score c) (best_score best) f s in cc
        ])
      ]
    ]

    keep_better_self :
        (c : Teams W) (best : Option (Teams W)) → Behind (teams_score c) (keep_better c best)
    unfolding keep_better
    keep_better_self c best = elim (Bool-cases (is_better c best)) [
      | inl e ↦ rw e (laws.lt_irrefl (teams_score c))
      | inr e ↦ rw e (ground arith)
    ]

    visit-Behind :
        (w : W) (ts alpha bravo : List (MatchmakingTicket W)) (a b : ℕ) (best : Option (Teams W))
        → Behind w best
        → Behind w (visit ts alpha bravo a b best)
    visit-Behind w [] alpha bravo a b best h = elim (visit_end alpha bravo a b best) [
      | inr e ↦ rw e h
      | inl (_, _, e) ↦ rw e (keep_better-Behind w (divide alpha bravo) best h)
    ]
    visit-Behind w (t ∷ ts) alpha bravo a b best h = elim (Bool-cases (too_big a b)) [
      | inl e ↦ rw (visit_pruned (t ∷ ts) alpha bravo a b best e) h
      | inr e ↦ rw (visit_next t ts alpha bravo a b best e) (
          visit-Behind w ts alpha (bravo ++ t ∷ []) a (b + length t.players) _
            (visit-Behind w ts (alpha ++ t ∷ []) bravo (a + length t.players) b best h))
    ]

    -- No division of what is left beats the best that the search returns.
    visit-covers :
        (ts as' bs alpha bravo : List (MatchmakingTicket W)) (a b : ℕ) (best : Option (Teams W))
        → Split ts as' bs
        → a + size as' ≡ 5
        → b + size bs ≡ 5
        → Behind (teams_score (divide (alpha ++ as') (bravo ++ bs))) (visit ts alpha bravo a b best)
    unfolding players_of
    visit-covers _ _ _ alpha bravo a b best split_end p q =
        let e : visit [] alpha bravo a b best ≡ keep_better (divide alpha bravo) best =
          visit_full alpha bravo a b best (omega (arith, p)) (omega (arith, q)) in
        rw (e, append-nil alpha, append-nil bravo) (keep_better_self (divide alpha bravo) best)
    visit-covers _ _ _ alpha bravo a b best (to_alpha t ts as' bs s) p q =
        let one = t ∷ [] in
        let p' : a + length t.players + size as' ≡ 5 = omega (arith, p, size-cons t as') in
        rw
          (
            visit_next t ts alpha bravo a b best (room a b (size (t ∷ as')) (size bs) p q),
            ← append_assoc alpha one as',
          )
          (visit-Behind _ ts alpha (bravo ++ one) a (b + length t.players) _
            (visit-covers ts as' bs (alpha ++ one) bravo (a + length t.players) b best s p' q))
    visit-covers _ _ _ alpha bravo a b best (to_bravo t ts as' bs s) p q =
        let one = t ∷ [] in
        let q' : b + length t.players + size bs ≡ 5 = omega (arith, q, size-cons t bs) in
        rw
          (
            visit_next t ts alpha bravo a b best (room a b (size as') (size (t ∷ bs)) p q),
            ← append_assoc bravo one bs,
          )
          (visit-covers ts as' bs alpha (bravo ++ one) a (b + length t.players) _ s p q')

    -- When numbers compare as IEEE 754 says: no division of the tickets into two teams with five
    -- players each, no ticket being divided, has a score below that of the teams that are chosen;
    -- where none are chosen, no such division has a score below infinity.
    pub choose_teams-best :
        (tickets alpha bravo : List (MatchmakingTicket W))
        → Split tickets alpha bravo
        → size alpha ≡ 5
        → size bravo ≡ 5
        → d.lt (teams_score (divide alpha bravo)) (best_score (choose_teams tickets)) ≡ false
    unfolding choose_teams
    choose_teams-best tickets alpha bravo s p q =
        visit-covers tickets alpha bravo [] [] 0 0 none s (omega (arith, p)) (omega (arith, q))
