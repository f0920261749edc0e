-- ===== src/Rank/Bounds.antt =====
-- The rank that a rating gets.
use legacy_match_platform.Common.{
  ℕ, ◌+◌, ◌≤◌, ◌<◌, Option, some, List, [], ◌∷◌, leb, ◌≡◌, refl, inl, inr, ◌⊎◌, arith, Bool-cases,
  Option-cases, some_inj,
}
use legacy_match_platform.Rank.{Rank, lowest, higher, last_reached, get_rank}

record Reached (rating : ℕ) (current : Rank) (found : Rank) (next : Option Rank) : Type 0 where
  at : (found ≡ current) ⊎ (found.floor ≤ rating)
  under : (r : Rank) → next ≡ some r → rating < r.floor

last_reached-Reached :
    (rating : ℕ) (current : Rank) (rs : List Rank)
    → Reached rating current (last_reached rating current rs).0 (last_reached rating current rs).1
unfolding last_reached
last_reached-Reached rating current [] = record { at = inl refl; under = λ r e. absurd (cc) }
last_reached-Reached rating current (r ∷ rs) =
    let v = last_reached-Reached rating r rs in
    elim (Bool-cases (leb (last_reached rating r rs).0.floor rating)) [
      | inl e ↦ rw (e, last_reached) (record { at = inr (ground (arith, e)); under = v.under })
      | inr e ↦
          rw (e, last_reached)
            (record {
              at = inl refl;
              under = λ q h.
                  let l : rating < (last_reached rating r rs).0.floor = ground (arith, e) in
                  let k : rating < r.floor = elim v.at [
                    | inl same ↦ rw same at l
                    | inr low ↦ absurd (omega (arith, low, l))
                  ] in
                  rw (some_inj h) at k;
            })
    ]

-- A rating lies in its rank: at or above the floor, by the points shown, and not above the ceiling
-- when the rank has one; then the points into the rank are fewer than those for promotion.
pub get_rank-bounds :
    (rating : ℕ)
    → ((get_rank rating).floor + (get_rank rating).points_into_rank ≡ rating)
      × ((c : ℕ) → (get_rank rating).ceiling ≡ some c → rating ≤ c)
      × ((p : ℕ)
          → (get_rank rating).points_for_promotion ≡ some p
          → (get_rank rating).points_into_rank < p)
unfolding get_rank
get_rank-bounds rating =
    let v = last_reached-Reached rating lowest higher in
    let low : (last_reached rating lowest higher).0.floor ≤ rating = elim v.at [
      | inl e ↦ rw e (omega arith)
      | inr l ↦ l
    ] in
    (
      omega (arith, low),
      elim (Option-cases (last_reached rating lowest higher).1) [
        | inl e ↦ rw (e, get_rank) (λ c h. absurd (cc))
        | inr (n, e) ↦
            let u = v.under n e in
            rw (e, get_rank) (λ c h. let k = some_inj h in omega (arith, k, u))
      ],
      elim (Option-cases (last_reached rating lowest higher).1) [
        | inl e ↦ rw (e, get_rank) (λ p h. absurd (cc))
        | inr (n, e) ↦
            let u = v.under n e in
            rw (e, get_rank) (λ p h. let k = some_inj h in omega (arith, k, u, low))
      ],
    )
