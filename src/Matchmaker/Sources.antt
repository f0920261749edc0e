-- ===== src/Matchmaker/Sources.antt =====
-- The tickets and teams of a plan of apps/api/src/matchmaker.ts beside the queue's tickets.
use legacy_match_platform.Common.{
  String, Bool, true, false, not, some, List, [], ◌∷◌, map, length, length-append, keep, any,
  includes, All, ◌==◌, String_eq, ℕ_eq, eq_iff, some_inj, ◌≡◌, inl, inr, Bool-cases, Option-cases,
  refl, subst, arith,
}
use legacy_match_platform.Common.JsMap
use legacy_match_platform.Common.JsMap.{JsMap}
use legacy_match_platform.Contracts.{GameMode, GameMode_eq, mode_or}
use legacy_match_platform.RedisQueue.{Ticket}
use legacy_match_platform.RedisQueue.Ready.{player_count}
use legacy_match_platform.Matchmaker.{Player, MatchmakingTicket, players_of, ids_of}
use legacy_match_platform.Matchmaker.Run.{profiles_of, candidate, candidates}
use legacy_match_platform.Matchmaker.Splits.{Split, split_end, to_alpha, to_bravo}
use legacy_match_platform.Matchmaker.Lists.{All-append-left, All-join}

-- A ticket as the matchmaker reads it has its queue ticket's mode and as many players.
abbrev pub IsRead : {W : Type 0} → MatchmakingTicket W → Type 0
IsRead c =
    (c.mode ≡ mode_or c.source.queue.mode) × (length c.players ≡ length c.source.member_player_ids)

module _ {W : Type 0} where
  length-profiles_of :
      (profiles : JsMap (Player W)) (ids : List String) (ps : List (Player W))
      → profiles_of profiles ids ≡ some ps
      → length ps ≡ length ids
  unfolding profiles_of
  length-profiles_of profiles [] ps h = rw (← some_inj h) refl
  length-profiles_of profiles (id ∷ ids) ps h = elim (Option-cases (JsMap.get id profiles)) [
    | inl e ↦ absurd (let k = rw (e, profiles_of) at h in cc)
    | inr (p, e) ↦ elim (Option-cases (profiles_of profiles ids)) [
      | inl g ↦ absurd (let k = rw (e, g, profiles_of) at h in cc)
      | inr (qs, g) ↦
          let k = some_inj (rw (e, g, profiles_of) at h) in
          rw (← k) (omega (arith, length-profiles_of profiles ids qs g))
    ]
  ]

  candidate-IsRead :
      (profiles : JsMap (Player W)) (t : Ticket) (c : MatchmakingTicket W)
      → candidate profiles t ≡ some c
      → IsRead c
  unfolding candidate
  candidate-IsRead profiles t c h = elim (Option-cases t.queue.joined_at) [
    | inl e ↦ absurd (let k = rw (e, candidate) at h in cc)
    | inr (joined, e) ↦ elim (Option-cases (profiles_of profiles t.member_player_ids)) [
      | inl g ↦ absurd (let k = rw (e, g, candidate) at h in cc)
      | inr (ps, g) ↦
          let k = some_inj (rw (e, g, candidate) at h) in
          subst IsRead k (refl, length-profiles_of profiles t.member_player_ids ps g)
    ]
  ]

  pub candidates-IsRead :
      (profiles : JsMap (Player W)) (ts : List Ticket) → All IsRead (candidates profiles ts)
  unfolding candidates
  candidates-IsRead profiles [] = tt
  candidates-IsRead profiles (t ∷ ts) = elim (Option-cases (candidate profiles t)) [
    | inl e ↦ rw (e, candidates) (candidates-IsRead profiles ts)
    | inr (c, e) ↦
        rw (e, candidates) (candidate-IsRead profiles t c e, candidates-IsRead profiles ts)
  ]

  -- Counts and modes are those of the queue's tickets.
  pub player_count-source :
      (ts : List (MatchmakingTicket W))
      → All IsRead ts
      → player_count (map (λ t. t.source) ts) ≡ length (players_of ts)
  unfolding player_count players_of
  player_count-source [] h = refl
  player_count-source (t ∷ ts) h =
      omega (arith, h.0.1, player_count-source ts h.1, length-append t.players (players_of ts))

  pub modes-source :
      (mode : GameMode) (ts : List (MatchmakingTicket W))
      → All IsRead ts
      → any (λ (t : Ticket). not (mode_or t.queue.mode == mode)) (map (λ t. t.source) ts)
        ≡ any (λ (t : MatchmakingTicket W). not (t.mode == mode)) ts
  modes-source mode [] h = refl
  modes-source mode (t ∷ ts) h = rw (h.0.0, modes-source mode ts h.1) refl

  -- What holds of all players holds of a team's.
  pub All-Split :
      (P : Player W → Type 0) (ts as' bs : List (MatchmakingTicket W))
      → Split ts as' bs
      → All P (players_of ts)
      → All P (players_of as') × All P (players_of bs)
  unfolding players_of
  All-Split P _ _ _ split_end h = (tt, tt)
  All-Split P _ _ _ (to_alpha t ts as' bs s) h =
      let r = All-append-left P t.players (players_of ts) h in
      let k = All-Split P ts as' bs s r.1 in (All-join P t.players (players_of as') r.0 k.0, k.1)
  All-Split P _ _ _ (to_bravo t ts as' bs s) h =
      let r = All-append-left P t.players (players_of ts) h in
      let k = All-Split P ts as' bs s r.1 in (k.0, All-join P t.players (players_of bs) r.0 k.1)

  pub nobody-kept :
      (f : Player W → Bool) (ps : List (Player W))
      → All (λ _. ⊥) (keep f ps)
      → All (λ p. f p ≡ false) ps
  nobody-kept f [] h = tt
  nobody-kept f (p ∷ ps) h = elim (Bool-cases (f p)) [
    | inl e ↦ absurd ((subst (All (λ _. ⊥)) (keep-true e) h).0)
    | inr e ↦ (e, nobody-kept f ps (subst (All (λ _. ⊥)) (keep-false e) h))
  ]
    where
      keep-true : f p ≡ true → keep f (p ∷ ps) ≡ p ∷ keep f ps
      keep-true e = rw (e, keep) refl

      keep-false : f p ≡ false → keep f (p ∷ ps) ≡ keep f ps
      keep-false e = rw (e, keep) refl

  -- Not everybody of a team of five is outside it.
  pub somebody-in :
      (team : List (Player W))
      → length team ≡ 5
      → All (λ p. includes (ids_of team) p.player_id ≡ false) team
      → ⊥
  somebody-in [] e h = ground arith
  somebody-in (p ∷ ps) e h = let k = h.0 in ground (arith, eq_iff p.player_id p.player_id)
