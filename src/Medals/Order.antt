-- ===== src/Medals/Order.antt =====
-- The order of the service medals, packages/db/src/services/service-medals.ts.
use legacy_match_platform.Common.{
  ℕ, zero, suc, ◌+◌, ◌<◌, Bool, true, ◌&&◌, ◌||◌, Option, none, some, List, [], ◌∷◌, length,
  get_elem?, ltb, ◌==◌, ℕ_eq, some_inj, ◌≡◌, ap, subst, sym, ◌∙◌, refl, arith,
}
use legacy_match_platform.Medals.{
  ServiceMedalDefinition, number, tiers, service_medal_sequence, next_service_medal,
}

-- A later tier, or a later year of the same tier.
abbrev pub after : ServiceMedalDefinition → ServiceMedalDefinition → Bool
after m q = ltb m.tier q.tier || (m.tier == q.tier && ltb m.year q.year)

abbrev ascending : List ServiceMedalDefinition → Bool
ascending [] = true
ascending (m ∷ ms) = (elim ms [ [] ↦ true | q ∷ qs ↦ after m q ]) && ascending ms

number-prestige :
    (index : ℕ) (ms : List ServiceMedalDefinition) (n : ℕ) (m : ServiceMedalDefinition)
    → get_elem? (number index ms) n ≡ some m
    → m.prestige ≡ index + n + 1
unfolding number
number-prestige index [] n m h = absurd cc
number-prestige index (q ∷ ms) zero m h =
    ap (λ (m : ServiceMedalDefinition). m.prestige) (sym (some_inj h)) ∙ omega arith
number-prestige index (q ∷ ms) (suc n) m h =
    let k = number-prestige (suc index) ms n m h in omega (arith, k)

-- What comes next, if anything does, comes after.
abbrev pub leads : ServiceMedalDefinition → Option ServiceMedalDefinition → Bool
leads m none = true
leads m (some q) = after m q

ascending-leads :
    (ms : List ServiceMedalDefinition) (n : ℕ) (m : ServiceMedalDefinition)
    → ascending ms ≡ true
    → get_elem? ms n ≡ some m
    → leads m (get_elem? ms (suc n)) ≡ true
ascending-leads [] n m a h = absurd cc
ascending-leads (x ∷ []) n m a h = refl
ascending-leads (x ∷ y ∷ ms) zero m a h =
    let k : after x y ≡ true = ground (arith, a) in ap (λ x. after x y) (sym (some_inj h)) ∙ k
ascending-leads (x ∷ y ∷ ms) (suc n) m a h = ascending-leads (y ∷ ms) n m (ground (arith, a)) h

get_elem?-in :
    (ms : List ServiceMedalDefinition) (n : ℕ)
    → n < length ms
    → (m : ServiceMedalDefinition) × (get_elem? ms n ≡ some m)
get_elem?-in [] n h = ground (arith, h)
get_elem?-in (m ∷ ms) zero h = (m, refl)
get_elem?-in (m ∷ ms) (suc n) h = get_elem?-in ms n (omega (arith, h))

-- After each of the first 51 numbers of completed prestiges (from 0 on) there is a medal; its
-- prestige is the next one, and a medal that comes right after it is of a later tier, or of a later
-- year of the same tier.
pub next_service_medal-ascending :
    (n : ℕ)
    → n < 51
    → (m : ServiceMedalDefinition) × (next_service_medal n ≡ some m)
      × (m.prestige ≡ n + 1)
      × (leads m (next_service_medal (n + 1)) ≡ true)
unfolding next_service_medal service_medal_sequence tiers number
next_service_medal-ascending n h =
    let (m, e) = get_elem?-in service_medal_sequence n h in
    let k = number-prestige 0 (tiers 7 1) n m e in
    let one : suc n ≡ n + 1 = omega arith in
    let l : leads m (next_service_medal (n + 1)) ≡ true =
      subst (λ k. leads m (next_service_medal k) ≡ true) one
        (ascending-leads service_medal_sequence n m refl e) in
    (m, e, omega (arith, k), l)
