-- ===== src/RedisQueue/Sweeps.antt =====
-- A map veto that nobody takes part in: what `sweepExpiredMapVetos` of
-- apps/api/src/redis-queue-service.ts makes of it, sweep after sweep.
use legacy_match_platform.Common.{
  ℕ, zero, suc, ◌+◌, ◌*◌, ◌≤◌, ◌<◌, String, true, some, List, [], ◌∷◌, includes, length, take, ◌==◌,
  String_eq, ◌≡◌, refl, sym, ◌∙◌, ap, inl, inr, arith, Bool-cases, eq→≡, subst,
}
use legacy_match_platform.Common.JsMap
use legacy_match_platform.Common.JsMap.{JsMap, get-set_self}
use legacy_match_platform.Contracts.{active}
use legacy_match_platform.RedisQueue.{Store, VetoRecord}
use legacy_match_platform.RedisQueue.Calls.{sweep_expired_map_vetos, sweep_map_vetoes}
use legacy_match_platform.RedisQueue.Bans.{IsVeto}
use legacy_match_platform.RedisQueue.Deadlines.{swept, swept-Apart}
use legacy_match_platform.RedisQueue.Sweeping.{
  Open, Settled, Progress, Open-Apart, swept-Settled, swept-Open, swept-Progress,
}

-- A whole sweep, over identifiers that Redis lists.
loop-Settled :
    (id first : String) (ids : List String) (now : ℕ) (s : Store)
    → Settled id first s
    → Settled id first (sweep_expired_map_vetos ids now s).0
unfolding sweep_expired_map_vetos
loop-Settled id first [] now s d = d
loop-Settled id first (x ∷ ids) now s d =
    loop-Settled id first ids now (swept x now s) (swept-Settled x id first now s d)

loop-Open :
    (id first n : String) (ms ids : List String) (turn at now : ℕ) (s : Store)
    → now < at
    → Open id first (n ∷ ms) turn at s
    → Open id first (n ∷ ms) turn at (sweep_expired_map_vetos ids now s).0
unfolding sweep_expired_map_vetos
loop-Open id first n ms [] turn at now s later o = o
loop-Open id first n ms (x ∷ ids) turn at now s later o =
    loop-Open id first n ms ids turn at now (swept x now s) later
      (swept-Open x id first n ms turn at now s later o)

loop-Progress :
    (id first n : String) (ms ids : List String) (turn at now : ℕ) (s : Store)
    → at ≤ now
    → 1 ≤ turn
    → includes ids id ≡ true
    → Open id first (n ∷ ms) turn at s
    → Progress id first (n ∷ ms) turn (now + turn * 1000) (sweep_expired_map_vetos ids now s).0
unfolding sweep_expired_map_vetos
loop-Progress id first n ms [] turn at now s due pos i o = absurd cc
loop-Progress id first n ms (x ∷ ids) turn at now s due pos i o = elim (Bool-cases (x == id)) [
  | inr e ↦
      loop-Progress id first n ms ids turn at now (swept x now s) due pos (ground (arith, i, e))
        (Open-Apart id first (n ∷ ms) turn at s (swept x now s) (swept-Apart x id now s e) o)
  | inl e ↦
      let same : x ≡ id = eq→≡ x id e in
      let p : Progress id first (n ∷ ms) turn (now + turn * 1000) (swept x now s) =
        subst (λ x. Progress id first (n ∷ ms) turn (now + turn * 1000) (swept x now s)) (sym same)
          (swept-Progress id first n ms turn at now s due o) in
      elim p [
        | inl (one, d) ↦ inl (one, loop-Settled id first ids now (swept x now s) d)
        | inr (k, ks, len, o') ↦ inr (
          k,
          ks,
          len,
          loop-Open id first k ks ids turn (now + turn * 1000) now (swept x now s)
              (omega (arith, pos)) o',
        )
      ]
]

take_all : (n : ℕ) (xs : List String) → length xs ≤ n → take n xs ≡ xs
take_all zero [] h = refl
take_all zero (x ∷ xs) h = absurd (omega (arith, h))
take_all (suc n) [] h = refl
take_all (suc n) (x ∷ xs) h = ap (λ xs. x ∷ xs) (take_all n xs (omega (arith, h)))

module _ (z_range_by_score : JsMap ℕ → ℕ → List String) (limit : ℕ) where
  -- The sweeps at the given times, one after the other.
  unfoldable pub sweeps : List ℕ → Store → Store
  unfolding sweep_map_vetoes
  sweeps [] s = s
  sweeps (now ∷ times) s = sweeps times (sweep_map_vetoes z_range_by_score limit now s).0

  -- At none of the sweeps are more deadlines due than the limit.
  abbrev pub Roomy : List ℕ → Store → Type 0
  Roomy [] s = Unit
  Roomy (now ∷ times) s =
      (length (z_range_by_score s.veto_deadlines now) ≤ limit)
      × Roomy times (sweep_map_vetoes z_range_by_score limit now s).0

  -- Each sweep comes when the turn is over that the sweep before has begun.
  abbrev pub Spaced : (turn at : ℕ) → List ℕ → Type 0
  Spaced turn at [] = Unit
  Spaced turn at (now ∷ times) = (at ≤ now) × Spaced turn (now + turn * 1000) times

  sweep-Progress :
      (id first n : String) (ms : List String) (turn at now : ℕ) (s : Store)
      → includes (z_range_by_score s.veto_deadlines now) id ≡ true
      → length (z_range_by_score s.veto_deadlines now) ≤ limit
      → at ≤ now
      → 1 ≤ turn
      → Open id first (n ∷ ms) turn at s
      → Progress id first
          (n ∷ ms)
          turn
          (now + turn * 1000)
          (sweep_map_vetoes z_range_by_score limit now s).0
  unfolding sweep_map_vetoes
  sweep-Progress id first n ms turn at now s i room due pos o =
      let ids = z_range_by_score s.veto_deadlines now in
      loop-Progress id first n ms (take limit ids) turn at now s due pos
        (ap (λ xs. includes xs id) (take_all limit ids room) ∙ i) o

  sweeps-Settled :
      (id first n : String) (ms : List String) (turn at : ℕ) (times : List ℕ) (s : Store)
      → ((m : JsMap ℕ) (now : ℕ) (id : String) (at : ℕ)
          → JsMap.get id m ≡ some at
          → at ≤ now
          → includes (z_range_by_score m now) id ≡ true)
      → length times ≡ suc (length ms)
      → 1 ≤ turn
      → Spaced turn at times
      → Roomy times s
      → Open id first (n ∷ ms) turn at s
      → Settled id first (sweeps times s)
  unfolding sweeps
  sweeps-Settled id first n ms turn at [] s lists len pos spaced roomy o =
      absurd (omega (arith, len))
  sweeps-Settled id first n ms turn at (now ∷ times) s lists len pos spaced roomy o =
      let i = lists s.veto_deadlines now id at o.listed spaced.0 in
      elim (sweep-Progress id first n ms turn at now s i roomy.0 spaced.0 pos o) [
        | inl (one, d) ↦ finished times d (omega (arith, len, one))
        | inr (k, ks, more, o') ↦
            sweeps-Settled id first k ks turn (now + turn * 1000) times _ lists
              (omega (arith, len, more)) pos spaced.1 roomy.1 o'
      ]
    where
      finished :
          {s : Store} (times : List ℕ)
          → Settled id first s
          → length times ≡ 0
          → Settled id first (sweeps times s)
      finished [] d e = d
      finished (t ∷ times) d e = absurd (omega (arith, e))

-- A veto that nobody takes part in ends. Let it be well formed and active, with n + 1 maps left and its
-- turn's end recorded in the veto and among the deadlines, and let `zRangeByScore` list every deadline
-- that has passed. Then n sweeps, each at the end of the turn that the one before has begun or later,
-- settle it on the first of those maps, whatever else they sweep, provided that none of them finds
-- more deadlines due than its limit.
pub sweeps-settle :
    (z_range_by_score : JsMap ℕ → ℕ → List String) (limit : ℕ) (id first : String)
    (rest : List String) (at : ℕ) (times : List ℕ) (s : Store) (v : VetoRecord)
    → ((m : JsMap ℕ) (now : ℕ) (id : String) (at : ℕ)
        → JsMap.get id m ≡ some at
        → at ≤ now
        → includes (z_range_by_score m now) id ≡ true)
    → JsMap.get id s.vetoes ≡ some v
    → IsVeto v.state
    → v.state.status ≡ active
    → v.state.remaining_maps ≡ first ∷ rest
    → v.expires_at_ms ≡ some at
    → JsMap.get id s.veto_deadlines ≡ some at
    → 1 ≤ v.turn_seconds
    → length times ≡ length rest
    → Spaced z_range_by_score limit v.turn_seconds at times
    → Roomy z_range_by_score limit times s
    → Settled id first (sweeps z_range_by_score limit times s)
sweeps-settle z_range_by_score limit id first [] at times s v lists stored w a maps ends listed pos
      len spaced roomy =
    absurd (let two = rw maps at w.choice a in omega (arith, two))
sweeps-settle z_range_by_score limit id first (n ∷ ms) at times s v lists stored w a maps ends
      listed pos len spaced roomy =
    sweeps-Settled z_range_by_score limit id first n ms v.turn_seconds at times s lists len pos
      spaced roomy
      (record {
        v = v;
        stored = stored;
        whole = w;
        status = a;
        maps = maps;
        ends = ends;
        listed = listed;
        lasts = refl;
      })
