-- ===== src/Matchmaker/Oldest.antt =====
-- Which tickets `findMatch` of apps/api/src/matchmaker.ts chooses.
use mathlib.Core.List.{Memᴰ}
use legacy_match_platform.Common.{
  ℕ, zero, suc, ◌+◌, ◌≤◌, String, true, false, ◌||◌, Option, none, some, List, [], ◌∷◌, ◌++◌,
  length, take, keep, All, ◌==◌, ℕ_eq, ltb, leb, ◌≡◌, inl, inr, Bool-cases, Option-cases, sym,
  subst, arith,
}
use mathlib.Core.List.{append_assoc, append-nil}
use legacy_match_platform.Common.Doubles.{Double}
use legacy_match_platform.Contracts.{GameMode, GameMode_eq, competitive, deathmatch}
use legacy_match_platform.RedisQueue.Ready.{match_size}
use legacy_match_platform.Matchmaker.{MatchmakingTicket, MatchPlan, Order, is_above}
use legacy_match_platform.Matchmaker.Evaluate.{evaluate, first}
use legacy_match_platform.Matchmaker.Search.{
  Found, is_better, keep_better, consider, enter, explore, by_age, sorted, slice_size, search,
  plans, compare_plans, find_match,
}
use legacy_match_platform.Matchmaker.Fair.{Fair, evaluate-Fair}
use legacy_match_platform.Matchmaker.Lists.{
  Sub, sub_end, sub_skip, sub_take, All-Sub, All-keep, All-take, All-sort, All-unsorted, All-Memᴰ,
  Least, sort-Least, List-cases,
}

take-head :
    {A : Type 0} (n : ℕ) (xs : List A) (a : A) (ts : List A)
    → take n xs ≡ a ∷ ts
    → (rest : List A) × (xs ≡ a ∷ rest)
take-head zero xs a ts e = absurd cc
take-head (suc n) [] a ts e = absurd cc
take-head (suc n) (x ∷ xs) a ts e = (xs, cc)

module _ {W : Type 0} ⦃d : Double W⦄ where
  abbrev Holds : (MatchPlan W → Type 0) → Option (MatchPlan W) → Type 0
  Holds Q none = Unit
  Holds Q (some p) = Q p

  module _ (locale_compare : String → String → Order) (now limit : ℕ) (mode : GameMode)
      (Q : MatchPlan W → Type 0) where
    keep_better-Holds :
        (p : MatchPlan W) (best : Option (MatchPlan W))
        → Q p
        → Holds Q best
        → Holds Q (keep_better p best)
    unfolding keep_better
    keep_better-Holds p best q h = elim (Bool-cases (is_better p best)) [
      | inl e ↦ rw (e, keep_better) q
      | inr e ↦ rw (e, keep_better) h
    ]

    -- Every plan for the selected tickets and some of those that follow.
    abbrev Every : List (MatchmakingTicket W) → List (MatchmakingTicket W) → Type 0
    Every ts selected =
        (extra : List (MatchmakingTicket W)) (p : MatchPlan W)
        → Sub extra ts
        → evaluate locale_compare mode (selected ++ extra) now ≡ some p
        → Q p

    consider-Holds :
        (selected : List (MatchmakingTicket W)) (f : Found W)
        → ((p : MatchPlan W) → evaluate locale_compare mode selected now ≡ some p → Q p)
        → Holds Q f.best
        → Holds Q (consider locale_compare now limit mode selected f).best
    unfolding consider
    consider-Holds selected f h g =
        elim (Option-cases (evaluate locale_compare mode selected now)) [
          | inl e ↦ rw (e, consider) g
          | inr (p, e) ↦ rw (e, consider) (keep_better-Holds p f.best (h p e) g)
        ]

    enter-Holds :
        (ts selected : List (MatchmakingTicket W)) (size : ℕ) (f : Found W)
        (deeper : Found W → Found W)
        → Every ts selected
        → Holds Q f.best
        → Holds Q (deeper f).best
        → Holds Q (enter locale_compare now limit mode selected size f deeper).best
    unfolding enter
    enter-Holds ts selected size f deeper h g k =
        elim (Bool-cases (leb limit f.visited || ltb (match_size mode) size)) [
          | inl e ↦ rw (e, enter) g
          | inr e ↦ elim (Bool-cases (size == match_size mode)) [
            | inl s ↦
                rw (e, s, enter)
                  (consider-Holds selected f
                    (λ p q. h [] p (sub_end ts) (rw (append-nil selected) q)) g)
            | inr s ↦ rw (e, s, enter) k
          ]
        ]

    explore-Holds :
        (ts selected : List (MatchmakingTicket W)) (size : ℕ) (f : Found W)
        → Every ts selected
        → Holds Q f.best
        → Holds Q (explore locale_compare now limit mode ts selected size f).best
    unfolding explore
    explore-Holds [] selected size f h g = g
    explore-Holds (t ∷ ts) selected size f h g =
        let one = t ∷ [] in
        let taken : Every ts (selected ++ one) = λ extra p s e.
          h (t ∷ extra) p (sub_take t extra ts s) (rw (← append_assoc selected one extra) e) in
        explore-Holds ts selected size _ (λ extra p s e. h extra p (sub_skip extra t ts s) e)
          (enter-Holds ts (selected ++ one) (size + length t.players) f
            (explore locale_compare now limit mode ts (selected ++ one) (size + length t.players))
            taken g (explore-Holds ts (selected ++ one) (size + length t.players) f taken g))

  -- The oldest ticket of a plan's mode is in it, and all that is in it was offered.
  pub record Anchored (tickets : List (MatchmakingTicket W)) (p : MatchPlan W) : Type 0 where
    pub anchor : MatchmakingTicket W
    pub others : List (MatchmakingTicket W)
    pub chosen : p.tickets ≡ anchor ∷ others
    pub oldest :
        All
          (λ (t : MatchmakingTicket W). anchor.joined_at ≤ t.joined_at)
          (keep (λ t. t.mode == p.mode) tickets)
    pub drawn : All (λ (t : MatchmakingTicket W). Memᴰ t tickets) p.tickets

  module _ (locale_compare : String → String → Order) where
    by_age-ordered :
        (x y : MatchmakingTicket W)
        → ((is_above (by_age locale_compare x y) ≡ true) → y.joined_at ≤ x.joined_at)
          × ((is_above (by_age locale_compare x y) ≡ false) → x.joined_at ≤ y.joined_at)
    unfolding by_age
    by_age-ordered x y = (λ h. ground arith, λ h. ground arith)

    sorted-oldest :
        (mode : GameMode) (tickets : List (MatchmakingTicket W)) (n : ℕ) (a : MatchmakingTicket W)
        (ts : List (MatchmakingTicket W))
        → take n (sorted locale_compare mode tickets) ≡ a ∷ ts
        → All
            (λ (t : MatchmakingTicket W). a.joined_at ≤ t.joined_at)
            (keep (λ t. t.mode == mode) tickets)
    unfolding sorted
    sorted-oldest mode tickets n a ts e =
        let own = keep (λ (t : MatchmakingTicket W). t.mode == mode) tickets in
        let (rest, s) = take-head n (sorted locale_compare mode tickets) a ts e in
        let later : All (λ (t : MatchmakingTicket W). a.joined_at ≤ t.joined_at) rest =
          subst (Least (by_age locale_compare) (λ t. t.joined_at) (by_age-ordered)) s
            (sort-Least (by_age locale_compare) (λ t. t.joined_at) (by_age-ordered) own) in
        All-unsorted (λ t. a.joined_at ≤ t.joined_at) (by_age locale_compare) own
          (subst (All (λ t. a.joined_at ≤ t.joined_at)) (sym s) (omega arith, later))

  module _ (locale_compare : String → String → Order) (now limit : ℕ)
      (tickets : List (MatchmakingTicket W)) where
    abbrev Both : MatchPlan W → Type 0
    Both p = Fair now p × Anchored tickets p

    taken-drawn :
        (mode : GameMode)
        → All
            (λ (t : MatchmakingTicket W). Memᴰ t tickets)
            (take (slice_size mode) (sorted locale_compare mode tickets))
    unfolding sorted
    taken-drawn mode = All-take _ (slice_size mode) _ (
        All-sort _ (by_age locale_compare) _
          (All-keep _ (λ t. t.mode == mode) tickets (All-Memᴰ tickets)))

    search-Holds : (mode : GameMode) → Holds Both (search locale_compare now limit mode tickets)
    unfolding search
    search-Holds mode =
        elim (List-cases (take (slice_size mode) (sorted locale_compare mode tickets))) [
          | inl e ↦ rw (e, search) tt
          | inr (a, ts, e) ↦
              let anchor = a ∷ [] in
              let taken : All (λ (t : MatchmakingTicket W). Memᴰ t tickets) (a ∷ ts) =
                subst (All (λ t. Memᴰ t tickets)) e (taken-drawn mode) in
              let nothing : Found W = record { visited = 0; best = none } in
              let every : Every locale_compare now limit mode Both ts anchor = λ extra p s h.
                let (fair, tickets_of, mode_of) =
                  evaluate-Fair locale_compare (a ∷ extra) now p mode h in
                (
                  fair,
                  record {
                    anchor = a;
                    others = extra;
                    chosen = tickets_of;
                    oldest =
                        rw mode_of
                          (sorted-oldest locale_compare mode tickets (slice_size mode) a ts e);
                    drawn = rw tickets_of (taken.0, All-Sub (λ t. Memᴰ t tickets) s taken.1);
                  },
                ) in
              rw (e, search)
                (enter-Holds locale_compare now limit mode Both ts anchor (length a.players) nothing
                  (explore locale_compare now limit mode ts anchor (length a.players)) every tt
                  (explore-Holds locale_compare now limit mode Both ts anchor (length a.players)
                    nothing every tt))
        ]

    plans-Holds :
        (o : Option (MatchPlan W)) (ps : List (MatchPlan W))
        → Holds Both o
        → All Both ps
        → All Both (plans o ps)
    plans-Holds none ps h g = g
    plans-Holds (some p) ps h g = (h, g)

    first-Holds : (ps : List (MatchPlan W)) → All Both ps → Holds Both (first ps)
    first-Holds [] h = tt
    first-Holds (p ∷ ps) h = h.0

    -- For any numbers, any order of texts and any limit on the combinations: a match that is found
    -- has as many players as its mode takes, no player twice; all its tickets are offered ones, of
    -- its mode, and the oldest ticket of that mode is among them. Every ticket allows its region;
    -- the worst ping there is finite and at most 70 plus 5 for each minute of the oldest wait, and at
    -- most 110. Players of two moderation bands meet only after a wait of 300 seconds. Its map is in
    -- its map pool. A competitive match also has a map that every ticket allows, ratings that lie
    -- apart by no more than 100 plus 50 a minute, and at most 400, no single party of five before a
    -- wait of 180 seconds, and two teams of five players, of whole tickets. A Deathmatch is on the
    -- Deathmatch map.
    pub find_match-Fair :
        (p : MatchPlan W)
        → find_match locale_compare now limit tickets ≡ some p
        → Fair now p × Anchored tickets p
    unfolding find_match
    find_match-Fair p h =
        let competitive_plans = search locale_compare now limit competitive tickets in
        let deathmatch_plans = search locale_compare now limit deathmatch tickets in
        subst (Holds Both) h (
          first-Holds _ (
            All-sort Both compare_plans _ (
              plans-Holds competitive_plans _ (search-Holds competitive)
                (plans-Holds deathmatch_plans [] (search-Holds deathmatch) tt))))
