-- ===== src/RedisQueue/Sweeping.antt =====
-- One step of `sweepExpiredMapVetos`, apps/api/src/redis-queue-service.ts, on an open veto and on a
-- settled one.
use legacy_match_platform.Common.{
  ℕ, suc, ◌+◌, ◌*◌, ◌≤◌, ◌<◌, String, true, false, not, ◌||◌, some, List, [], ◌∷◌, includes,
  distinct, length, ◌==◌, String_eq, leb, ◌≡◌, refl, sym, ◌∙◌, ap, inl, inr, ◌⊎◌, arith, Bool-cases,
  eq→≡, beq_refl, subst,
}
use legacy_match_platform.Common.JsMap
use legacy_match_platform.Common.JsMap.{JsMap, get-set_self}
use legacy_match_platform.Contracts.{active, allocating}
use legacy_match_platform.RedisQueue.{Store, VetoRecord}
use legacy_match_platform.RedisQueue.Veto.{
  system, is_active, is_over, is_final, without, apply_ban, last_of, last_map, ban, ban_script,
  reschedule, save_ban, not_active,
}
use legacy_match_platform.RedisQueue.Bans.{IsVeto, apply_ban-IsVeto, length-without}
use legacy_match_platform.RedisQueue.Turns.{save_ban-vetoes}
use legacy_match_platform.RedisQueue.Deadlines.{save_ban-deadlines, swept, Apart, swept-Apart}

includes-last_map : (n : String) (ms : List String) → includes (n ∷ ms) (last_map n ms) ≡ true
unfolding last_map
includes-last_map n [] = ground (arith, beq_refl n)
includes-last_map n (m ∷ ms) = ground (arith, includes-last_map m ms)

without-first :
    (m l : String) (ms : List String)
    → distinct (m ∷ ms) ≡ true
    → includes ms l ≡ true
    → without l (m ∷ ms) ≡ m ∷ without l ms
unfolding without
without-first m l ms d i = elim (Bool-cases (m == l)) [
  | inr e ↦ ground (arith, e)
  | inl e ↦ let same = eq→≡ m l e in ground (arith, e, same)
]

-- An open veto whose turn ends at `at`, as the veto and the deadlines have it, with the maps left.
pub record Open (id first : String) (rest : List String) (turn at : ℕ) (s : Store) : Type 0 where
  pub v : VetoRecord
  pub stored : JsMap.get id s.vetoes ≡ some v
  pub whole : IsVeto v.state
  pub status : v.state.status ≡ active
  pub maps : v.state.remaining_maps ≡ first ∷ rest
  pub ends : v.expires_at_ms ≡ some at
  pub listed : JsMap.get id s.veto_deadlines ≡ some at
  pub lasts : v.turn_seconds ≡ turn

-- A veto that is settled on `first`.
pub record Settled (id first : String) (s : Store) : Type 0 where
  pub v : VetoRecord
  pub stored : JsMap.get id s.vetoes ≡ some v
  pub status : v.state.status ≡ allocating
  pub selected : v.state.selected_map ≡ some first

pub Open-Apart :
    (id first : String) (rest : List String) (turn at : ℕ) (s s' : Store)
    → Apart id s s'
    → Open id first rest turn at s
    → Open id first rest turn at s'
Open-Apart id first rest turn at s s' a o = record {
  v = o.v;
  stored = a.veto ∙ o.stored;
  whole = o.whole;
  status = o.status;
  maps = o.maps;
  ends = o.ends;
  listed = a.deadline ∙ o.listed;
  lasts = o.lasts;
}

List-cases : (xs : List String) → (xs ≡ []) ⊎ ((k : String) × (ks : List String) × (xs ≡ k ∷ ks))
List-cases [] = inl refl
List-cases (k ∷ ks) = inr (k, ks, refl)

-- The system bans no map of a settled veto.
ban_script-idle :
    (id : String) (now next : ℕ) (s : Store) (v : VetoRecord)
    → JsMap.get id s.vetoes ≡ some v
    → v.state.status ≡ allocating
    → ban_script id "system" "" system now next s ≡ (s, not_active)
unfolding ban_script
ban_script-idle id now next s v e a =
    let f : (not (is_active v.state.status) || leb (length v.state.remaining_maps) 1) ≡ true =
      rw a refl in
    rw (e, f, ban_script) refl

-- A step of the sweep leaves a settled veto as it is.
pub swept-Settled :
    (x id first : String) (now : ℕ) (s : Store)
    → Settled id first s
    → Settled id first (swept x now s)
swept-Settled x id first now s d = elim (Bool-cases (x == id)) [
  | inr e ↦ record {
    v = d.v;
    stored = (swept-Apart x id now s e).veto ∙ d.stored;
    status = d.status;
    selected = d.selected;
  }
  | inl e ↦
      let here : JsMap.get x s.vetoes ≡ some d.v =
        ap (λ k. JsMap.get k s.vetoes) (eq→≡ x id e) ∙ d.stored in
      record {
        v = d.v;
        stored = rw (ban_script-idle x now (now + 30000) s d.v here d.status, swept) d.stored;
        status = d.status;
        selected = d.selected;
      }
]

-- A step before the turn is over leaves an open veto as it is.
pub swept-Open :
    (x id first n : String) (ms : List String) (turn at now : ℕ) (s : Store)
    → now < at
    → Open id first (n ∷ ms) turn at s
    → Open id first (n ∷ ms) turn at (swept x now s)
unfolding ban_script is_over
swept-Open x id first n ms turn at now s later o = elim (Bool-cases (x == id)) [
  | inr e ↦ Open-Apart id first (n ∷ ms) turn at s (swept x now s) (swept-Apart x id now s e) o
  | inl e ↦
      let here : JsMap.get x s.vetoes ≡ some o.v =
        ap (λ k. JsMap.get k s.vetoes) (eq→≡ x id e) ∙ o.stored in
      let early : is_over o.v.expires_at_ms now ≡ false = rw o.ends (ground (arith, later)) in
      let more : (not (is_active o.v.state.status) || leb (length o.v.state.remaining_maps) 1)
          ≡ false =
        rw (o.status, o.maps) (ground arith) in
      let same : swept x now s ≡ s = rw (here, more, early, ban_script, swept) refl in
      subst (Open id first (n ∷ ms) turn at) (sym same) o
]

-- What a sweep after the end of the turn makes of an open veto: it is settled when two maps were
-- left; else one map is gone and the next turn runs, its end among the deadlines.
abbrev pub Progress : String → String → List String → ℕ → ℕ → Store → Type 0
Progress id first rest turn at s =
    ((length rest ≡ 1) × Settled id first s)
    ⊎ ((k : String) × (ks : List String) × (suc (suc (length ks)) ≡ length rest)
        × Open id first (k ∷ ks) turn at s)

module _ (id first n : String) (ms : List String) (turn at now : ℕ) (s : Store) (due : at ≤ now)
    (o : Open id first (n ∷ ms) turn at s) where
  abbrev l : String
  l = last_map n ms

  abbrev v' : VetoRecord
  v' = apply_ban o.v (last_of o.v.state.remaining_maps) true now (now + 30000)

  last_listed : includes o.v.state.remaining_maps (last_of o.v.state.remaining_maps) ≡ true
  unfolding last_map
  last_listed = rw o.maps (let i = includes-last_map n ms in ground (arith, i))

  left_over :
      without (last_of o.v.state.remaining_maps) o.v.state.remaining_maps
      ≡ first ∷ without l (n ∷ ms)
  unfolding last_map
  left_over =
      rw o.maps
        (without-first first l (n ∷ ms) (rw o.maps at o.whole.once) (includes-last_map n ms))

  banned : swept id now s ≡ save_ban id v' now s
  unfolding ban_script ban is_over
  banned =
      let over : is_over o.v.expires_at_ms now ≡ true = rw o.ends (ground (arith, due)) in
      let more : (not (is_active o.v.state.status) || leb (length o.v.state.remaining_maps) 1)
          ≡ false =
        rw (o.status, o.maps) (ground arith) in
      elim (Bool-cases (is_final v')) [
        | inl f ↦ rw (o.stored, more, over, last_listed, f, ban_script, ban, swept) refl
        | inr f ↦ rw (o.stored, more, over, last_listed, f, ban_script, ban, swept) refl
      ]

  stored : JsMap.get id (swept id now s).vetoes ≡ some v'
  stored =
      ap (λ (s : Store). JsMap.get id s.vetoes) banned
      ∙ ap (JsMap.get id) (save_ban-vetoes id v' now s)
      ∙ get-set_self id v' s.vetoes

  pub swept-Progress : Progress id first (n ∷ ms) turn (now + turn * 1000) (swept id now s)
  unfolding apply_ban reschedule
  swept-Progress =
      let fewer = length-without l (n ∷ ms) (includes-last_map n ms) in
      elim (List-cases (without l (n ∷ ms))) [
        | inl f ↦
            let one : without (last_of o.v.state.remaining_maps) o.v.state.remaining_maps
                ≡ first ∷ [] =
              left_over ∙ ap (λ xs. first ∷ xs) f in
            let none_left : length (without l (n ∷ ms)) ≡ 0 = ap length f in
            inl (
              omega (arith, fewer, none_left),
              record {
                v = v';
                stored = stored;
                status = rw (one, apply_ban) refl;
                selected = rw (one, apply_ban) refl;
              },
            )
        | inr (k, ks, f) ↦
            let more : without (last_of o.v.state.remaining_maps) o.v.state.remaining_maps
                ≡ first ∷ k ∷ ks =
              left_over ∙ ap (λ xs. first ∷ xs) f in
            let some_left : length (without l (n ∷ ms)) ≡ suc (length ks) = ap length f in
            let ends : v'.expires_at_ms ≡ some (now + turn * 1000) =
              rw (more, apply_ban) (rw o.lasts refl) in
            inr (
              k,
              ks,
              omega (arith, fewer, some_left),
              record {
                v = v';
                stored = stored;
                whole =
                    apply_ban-IsVeto o.v (last_of o.v.state.remaining_maps) true now (now + 30000)
                      o.whole o.status last_listed;
                status = rw (more, apply_ban) o.status;
                maps = rw (more, apply_ban) more;
                ends = ends;
                listed =
                    ap (λ (s : Store). JsMap.get id s.veto_deadlines) banned
                    ∙ ap (JsMap.get id) (save_ban-deadlines id v' now s)
                    ∙ ap (λ e. JsMap.get id (reschedule id e now s).veto_deadlines) ends
                    ∙ get-set_self id (now + turn * 1000) s.veto_deadlines;
                lasts = rw (more, apply_ban) o.lasts;
              },
            )
      ]
