-- ===== src/Settlement/Again.antt =====
-- A second settlement of the same match, packages/db/src/services/settle-match.ts: what the match is
-- answered with once it is completed.
use legacy_match_platform.Common.{
  ℕ, zero, suc, ◌+◌, ◌-◌, ◌≤◌, String, true, false, Option, none, some, List, [], ◌∷◌, ◌++◌, map,
  All, includes, distinct, if◌then◌else◌, ◌==◌, String_eq, ℕ_eq, eq_iff, beq_refl, Bool-cases,
  Option-cases, some_inj, ok_inj, ok, ◌≡◌, inl, inr, refl, ◌∙◌, ap, subst, arith,
}
use legacy_match_platform.Common.JsMap
use legacy_match_platform.Common.JsMap.{JsMap, get-set_self, get-set_ne}
use legacy_match_platform.Contracts.{deathmatch}
use legacy_match_platform.Progression.{ProfileProgress, ProfileProgressionChange, advance_profile}
use legacy_match_platform.Receipts.{RosterEntry, ServiceDrop, ProgressionReceipt}
use legacy_match_platform.Settlement.{
  Tables, SettleInput, row_of, earned_by, grant, grant_levels, award, settle_progression, drops_of,
  answered, joined_drops, persisted_one, persisted_progression, MatchRow, live, completed,
  settle_match,
}
use legacy_match_platform.Settlement.Awards.{OneStep, one_step, earned_by-le}
use legacy_match_platform.Settlement.Accepted.{AllValid}

drops_of-append :
    (player : String) (ds : List (String × ServiceDrop)) (p : String) (d : ServiceDrop)
    → drops_of player (ds ++ (p, d) ∷ [])
      ≡ (if p == player then drops_of player ds ++ d ∷ [] else drops_of player ds)
unfolding drops_of
drops_of-append player [] p d = ground arith
drops_of-append player ((q, c) ∷ ds) p d = ground (arith, drops_of-append player ds p d)

module _ (draw : String → ℕ → String) where
  -- What the match holds of a player.
  record Kept (x : String) (s s' : Tables) : Type 0 where
    ledger : JsMap.get x s'.ledger ≡ JsMap.get x s.ledger
    drops : drops_of x s'.drops ≡ drops_of x s.drops

  grant_levels-Kept :
      (n : ℕ) (player x : String) (level : ℕ) (last : Option ServiceDrop) (s : Tables)
      → (player == x) ≡ false
      → Kept x s (grant_levels draw n player level last s).0
  unfolding grant_levels grant
  grant_levels-Kept zero player x level last s e = record { ledger = refl; drops = refl }
  grant_levels-Kept (suc n) player x level last s e =
      let r = grant draw player level s in
      let k = grant_levels-Kept n player x (suc level) (some r.1) r.0 e in
      record {
        ledger = k.ledger;
        drops = k.drops ∙ drops_of-append x s.drops player r.1 ∙ (rw e refl);
      }

  grant_levels-ledger :
      (n : ℕ) (player : String) (level : ℕ) (last : Option ServiceDrop) (s : Tables)
      → (grant_levels draw n player level last s).0.ledger ≡ s.ledger
  unfolding grant_levels grant
  grant_levels-ledger zero player level last s = refl
  grant_levels-ledger (suc n) player level last s =
      let r = grant draw player level s in grant_levels-ledger n player (suc level) (some r.1) r.0

  award-Kept :
      (i : SettleInput) (e : RosterEntry) (before next : ProfileProgress) (x : String) (s : Tables)
      → (e.player_id == x) ≡ false
      → Kept x s (award draw i e before next s).0
  unfolding award
  award-Kept i e before next x s apart =
      let written : Tables = record s {
        ledger = JsMap.set e.player_id (row_of (earned_by i e) before next) s.ledger;
        players = JsMap.set e.player_id next s.players;
        lifetime =
            JsMap.set e.player_id
              ((elim (JsMap.get e.player_id s.lifetime) [ none ↦ 0 | some n ↦ n ]) + earned_by i e)
              s.lifetime;
      } in
      let k =
        grant_levels-Kept (next.level - before.level) e.player_id x (before.level + 1) none written
          apart in
      record {
        ledger =
            k.ledger ∙ get-set_ne e.player_id x (row_of (earned_by i e) before next) s.ledger apart;
        drops = k.drops;
      }

  settle-Kept :
      (i : SettleInput) (profiles : JsMap ProfileProgress) (es : List RosterEntry) (x : String)
      (s s' : Tables) (rs : List ProgressionReceipt)
      → includes (map (λ (e : RosterEntry). e.player_id) es) x ≡ false
      → settle_progression draw i profiles es s ≡ some (s', rs)
      → Kept x s s'
  unfolding settle_progression
  settle-Kept i profiles [] x s s' rs n h =
      subst (Kept x s) (ap (λ p. p.0) (some_inj h)) (record { ledger = refl; drops = refl })
  settle-Kept i profiles (e ∷ es) x s s' rs n h =
      let apart : (e.player_id == x) ≡ false = ground (arith, n) in
      let later : includes (map (λ (e : RosterEntry). e.player_id) es) x ≡ false =
        ground (arith, n) in
      elim (Option-cases (JsMap.get e.player_id profiles)) [
        | inl a ↦ absurd (let q = rw (a, settle_progression) at h in cc)
        | inr (before, a) ↦ elim (Bool-cases (earned_by i e == 0)) [
          | inl z ↦ settle-Kept i profiles es x s s' rs later (rw (a, z, settle_progression) at h)
          | inr z ↦ elim (Option-cases (advance_profile before (earned_by i e))) [
            | inl b ↦ absurd (let q = rw (a, z, b, settle_progression) at h in cc)
            | inr (c, b) ↦ elim (Bool-cases (JsMap.has e.player_id s.ledger)) [
              | inl f ↦
                  settle-Kept i profiles es x s s' rs later
                    (rw (a, z, b, f, settle_progression) at h)
              | inr f ↦
                  let r = award draw i e before c.progress s in
                  elim (Option-cases (settle_progression draw i profiles es r.0)) [
                    | inl g ↦ absurd (let q = rw (a, z, b, f, g, settle_progression) at h in cc)
                    | inr (rest, g) ↦
                        let q : (rest.0, r.1 ∷ rest.1) ≡ (s', rs) =
                          some_inj (rw (a, z, b, f, g, settle_progression) at h) in
                        let k = settle-Kept i profiles es x r.0 rest.0 rest.1 later g in
                        let l = award-Kept i e before c.progress x s apart in
                        subst (Kept x s) (ap (λ p. p.0) q)
                          (record { ledger = k.ledger ∙ l.ledger; drops = k.drops ∙ l.drops })
                  ]
            ]
          ]
        ]
      ]

  -- The drop that goes with an award is read back.
  granted-joined :
      (n : ℕ) (player : String) (level : ℕ) (s : Tables)
      → ((player : String) (level : ℕ) → (draw player level == "") ≡ false)
      → n ≤ 1
      → drops_of player s.drops ≡ []
      → joined_drops (drops_of player (grant_levels draw n player (level + 1) none s).0.drops)
        ≡ (grant_levels draw n player (level + 1) none s).1 ∷ []
  unfolding grant_levels grant joined_drops
  granted-joined zero player level s named h e = rw (e, joined_drops) refl
  granted-joined (suc zero) player level s named h e =
      let drop : ServiceDrop = record {
        id = draw player (level + 1);
        service_level = level + 1;
        reward_type = "b2g_service_drop";
      } in
      let f : drops_of player (s.drops ++ (player, drop) ∷ []) ≡ drop ∷ [] =
        drops_of-append player s.drops player drop ∙ (rw (beq_refl player, e) refl) in
      let positive : (level + 1 == 0) ≡ false = ground arith in
      let whole : answered drop ≡ some drop = rw (named player (level + 1), positive) refl in
      ap joined_drops f ∙ ap (λ d. d ∷ []) whole
  granted-joined (suc (suc n)) player level s named h e = ground (arith, h)

  persisted_one-Kept :
      (i : SettleInput) (e : RosterEntry) (s s' : Tables)
      → Kept e.player_id s s'
      → persisted_one i s' e ≡ persisted_one i s e
  unfolding persisted_one
  persisted_one-Kept i e s s' k = elim (Option-cases (JsMap.get e.player_id s.ledger)) [
    | inl h ↦ rw (k.ledger ∙ h, h, persisted_one) refl
    | inr (row, h) ↦ rw (k.ledger ∙ h, h, k.drops, persisted_one) refl
  ]

  -- The match holds nothing of the player yet.
  abbrev pub Fresh : Tables → RosterEntry → Type 0
  Fresh s e = (JsMap.get e.player_id s.ledger ≡ none) × (drops_of e.player_id s.drops ≡ [])

  Fresh-later :
      (i : SettleInput) (e : RosterEntry) (before next : ProfileProgress) (s : Tables)
      (es : List RosterEntry)
      → includes (map (λ (e : RosterEntry). e.player_id) es) e.player_id ≡ false
      → All (Fresh s) es
      → All (Fresh (award draw i e before next s).0) es
  Fresh-later i e before next s [] n h = tt
  Fresh-later i e before next s (d ∷ es) n h =
      let apart : (e.player_id == d.player_id) ≡ false =
        ground (arith, n, eq_iff d.player_id e.player_id, eq_iff e.player_id d.player_id) in
      let k = award-Kept i e before next d.player_id s apart in
      (
        (k.ledger ∙ h.0.0, k.drops ∙ h.0.1),
        Fresh-later i e before next s es (ground (arith, n)) h.1,
      )

  award-persisted :
      (i : SettleInput) (e : RosterEntry) (before : ProfileProgress) (c : ProfileProgressionChange)
      (s : Tables)
      → ((player : String) (level : ℕ) → (draw player level == "") ≡ false)
      → OneStep before (earned_by i e) c
      → drops_of e.player_id s.drops ≡ []
      → persisted_one i (award draw i e before c.progress s).0 e
        ≡ (award draw i e before c.progress s).1 ∷ []
  unfolding award persisted_one
  award-persisted i e before c s named o fresh =
      let row = row_of (earned_by i e) before c.progress in
      let n = c.progress.level - before.level in
      let written : Tables = record s {
        ledger = JsMap.set e.player_id row s.ledger;
        players = JsMap.set e.player_id c.progress s.players;
        lifetime =
            JsMap.set e.player_id
              ((elim (JsMap.get e.player_id s.lifetime) [ none ↦ 0 | some n ↦ n ]) + earned_by i e)
              s.lifetime;
      } in
      let r = grant_levels draw n e.player_id (before.level + 1) none written in
      let ledger : JsMap.get e.player_id (r.0).ledger ≡ some row =
        ap (JsMap.get e.player_id)
          (grant_levels-ledger n e.player_id (before.level + 1) none written)
        ∙ get-set_self e.player_id row s.ledger in
      let drops =
        granted-joined n e.player_id before.level written named
          (omega (arith, o.at_most, o.at_least)) fresh in
      rw (ledger, drops, persisted_one) refl

  persisted-settle :
      (i : SettleInput) (profiles : JsMap ProfileProgress) (es : List RosterEntry) (s s' : Tables)
      (rs : List ProgressionReceipt)
      → ((player : String) (level : ℕ) → (draw player level == "") ≡ false)
      → AllValid profiles
      → All (Fresh s) es
      → distinct (map (λ (e : RosterEntry). e.player_id) es) ≡ true
      → settle_progression draw i profiles es s ≡ some (s', rs)
      → persisted_progression i s' es ≡ rs
  unfolding settle_progression persisted_progression JsMap.has
  persisted-settle i profiles [] s s' rs named v fresh d h = ap (λ p. p.1) (some_inj h)
  persisted-settle i profiles (e ∷ es) s s' rs named v fresh d h =
      let n : includes (map (λ (e : RosterEntry). e.player_id) es) e.player_id ≡ false =
        ground (arith, d) in
      let d' : distinct (map (λ (e : RosterEntry). e.player_id) es) ≡ true = ground (arith, d) in
      let f : JsMap.has e.player_id s.ledger ≡ false = rw (fresh.0.0, JsMap.has) refl in
      elim (Option-cases (JsMap.get e.player_id profiles)) [
        | inl a ↦ absurd (let q = rw (a, settle_progression) at h in cc)
        | inr (before, a) ↦ elim (Bool-cases (earned_by i e == 0)) [
          | inl z ↦
              let h' = rw (a, z, settle_progression) at h in
              let nothing : persisted_one i s e ≡ [] = no_row e s fresh.0.0 in
              let one : persisted_one i s' e ≡ [] =
                persisted_one-Kept i e s s' (settle-Kept i profiles es e.player_id s s' rs n h')
                ∙ nothing in
              rw (one) (persisted-settle i profiles es s s' rs named v fresh.1 d' h')
          | inr z ↦ elim (Option-cases (advance_profile before (earned_by i e))) [
            | inl b ↦ absurd (let q = rw (a, z, b, settle_progression) at h in cc)
            | inr (c, b) ↦
                let r = award draw i e before c.progress s in
                elim (Option-cases (settle_progression draw i profiles es r.0)) [
                  | inl g ↦ absurd (let q = rw (a, z, b, f, g, settle_progression) at h in cc)
                  | inr (rest, g) ↦
                      let q : (rest.0, r.1 ∷ rest.1) ≡ (s', rs) =
                        some_inj (rw (a, z, b, f, g, settle_progression) at h) in
                      let o =
                        one_step before (earned_by i e) c (v e.player_id before a)
                          (earned_by-le i e) b in
                      let one : persisted_one i rest.0 e ≡ r.1 ∷ [] =
                        persisted_one-Kept i e r.0 rest.0
                          (settle-Kept i profiles es e.player_id r.0 rest.0 rest.1 n g)
                        ∙ award-persisted i e before c s named o fresh.0.1 in
                      let more : persisted_progression i rest.0 es ≡ rest.1 =
                        persisted-settle i profiles es r.0 rest.0 rest.1 named v
                          (Fresh-later i e before c.progress s es n fresh.1) d' g in
                      let all : persisted_one i rest.0 e ++ persisted_progression i rest.0 es
                          ≡ r.1 ∷ rest.1 =
                        rw (one, more) refl in
                      subst
                        (λ (p : Tables × List ProgressionReceipt).
                          persisted_one i p.0 e ++ persisted_progression i p.0 es ≡ p.1)
                        q all
                ]
          ]
        ]
      ]
    where
      no_row :
          (e : RosterEntry) (s : Tables)
          → JsMap.get e.player_id s.ledger ≡ none
          → persisted_one i s e ≡ []
      no_row e s h = unfold persisted_one in rw (h, persisted_one) refl

  -- Settling a live Deathmatch completes it, and settling it once more with the same score gives the
  -- same answer, whatever the profiles have become, and writes nothing: the experience is read back
  -- from the ledger as it was awarded. The match has nothing of its roster's players before, they are
  -- distinct and their profiles valid, and the identifiers drawn for drops are not empty.
  pub settle_match-again :
      (i : SettleInput) (profiles later : JsMap ProfileProgress) (roster : List RosterEntry)
      (m m' : MatchRow) (s s' : Tables) (rs : List ProgressionReceipt)
      → ((player : String) (level : ℕ) → (draw player level == "") ≡ false)
      → AllValid profiles
      → All (Fresh s) roster
      → distinct (map (λ (e : RosterEntry). e.player_id) roster) ≡ true
      → i.mode ≡ deathmatch
      → m.status ≡ live
      → settle_match draw i profiles roster m s ≡ ok (m', s', rs)
      → (m'.status ≡ completed) × (settle_match draw i later roster m' s' ≡ ok (m', s', rs))
  unfolding settle_match
  settle_match-again i profiles later roster m m' s s' rs named v fresh d mode alive h =
      elim (Option-cases (settle_progression draw i profiles roster s)) [
        | inl e ↦ absurd (let q = rw (alive, e, settle_match) at h in cc)
        | inr (r, e) ↦
            let done : MatchRow = record {
              status = completed;
              alpha_rounds = some i.alpha_rounds;
              bravo_rounds = some i.bravo_rounds;
            } in
            let q : (done, r.0, r.1) ≡ (m', s', rs) = ok_inj (rw (alive, e, settle_match) at h) in
            let back = persisted-settle i profiles roster s r.0 r.1 named v fresh d e in
            let same_a = beq_refl i.alpha_rounds in
            let same_b = beq_refl i.bravo_rounds in
            subst
              (λ (p : MatchRow × Tables × List ProgressionReceipt).
                (p.0.status ≡ completed)
                × (settle_match draw i later roster p.0 p.1 ≡ ok (p.0, p.1, p.2)))
              q (refl, rw (same_a, same_b, back, settle_match) refl)
      ]
