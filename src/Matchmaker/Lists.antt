-- ===== src/Matchmaker/Lists.antt =====
-- Lists as the matchmaker uses them: sorted, filtered, intersected and without duplicates.
use mathlib.Core.List.{Memᴰ}
use mathlib.Core.List.Memᴰ
use legacy_match_platform.Common.{
  ℕ, eq→≡, ◌||◌, zero, suc, sym, subst, ◌≤◌, ◌<◌, String, Bool, true, false, not, List, [], ◌∷◌,
  ◌++◌, length, take, keep, every, includes, distinct, All, length-keep-le, ◌==◌, String_eq, eq_iff,
  ◌≡◌, ◌⊎◌, inl, inr, Bool-cases, refl, arith,
}
use legacy_match_platform.RedisQueue.Ready.{unique}
use legacy_match_platform.Matchmaker.{Order, is_above, insert, sort, intersection}

-- The first list is the second with entries left out.
pub data Sub {A : Type 0} : List A → List A → Type 0 where
  sub_end : (ys : List A) → Sub [] ys
  sub_skip : (xs : List A) (y : A) (ys : List A) → Sub xs ys → Sub xs (y ∷ ys)
  sub_take : (x : A) (xs ys : List A) → Sub xs ys → Sub (x ∷ xs) (x ∷ ys)

module _ {A : Type 0} (P : A → Type 0) where
  pub All-Sub : {xs ys : List A} → Sub xs ys → All P ys → All P xs
  All-Sub (sub_end ys) h = tt
  All-Sub (sub_skip xs y ys s) h = All-Sub s h.1
  All-Sub (sub_take x xs ys s) h = (h.0, All-Sub s h.1)

  pub All-keep : (p : A → Bool) (xs : List A) → All P xs → All P (keep p xs)
  All-keep p [] h = tt
  All-keep p (x ∷ xs) h = elim (Bool-cases (p x)) [
    | inl e ↦ rw (e, keep) (h.0, All-keep p xs h.1)
    | inr e ↦ rw (e, keep) (All-keep p xs h.1)
  ]

  pub All-take : (n : ℕ) (xs : List A) → All P xs → All P (take n xs)
  All-take zero xs h = tt
  All-take (suc n) [] h = tt
  All-take (suc n) (x ∷ xs) h = (h.0, All-take n xs h.1)

  module _ (compare_to : A → A → Order) where
    All-insert : (x : A) (xs : List A) → P x → All P xs → All P (insert compare_to x xs)
    unfolding insert
    All-insert x [] p h = (p, tt)
    All-insert x (y ∷ ys) p h = elim (Bool-cases (is_above (compare_to x y))) [
      | inl e ↦ rw (e, insert) (h.0, All-insert x ys p h.1)
      | inr e ↦ rw (e, insert) (p, h)
    ]

    pub All-sort : (xs : List A) → All P xs → All P (sort compare_to xs)
    unfolding sort
    All-sort [] h = tt
    All-sort (x ∷ xs) h = All-insert x (sort compare_to xs) h.0 (All-sort xs h.1)

-- Sorting loses nothing.
module _ {A : Type 0} (P : A → Type 0) (compare_to : A → A → Order) where
  All-uninserted : (x : A) (xs : List A) → All P (insert compare_to x xs) → P x × All P xs
  unfolding insert
  All-uninserted x [] h = h
  All-uninserted x (y ∷ ys) h = elim (Bool-cases (is_above (compare_to x y))) [
    | inl e ↦
        let k : All P (y ∷ insert compare_to x ys) = rw (e, insert) at h in
        let rest = All-uninserted x ys k.1 in (rest.0, (k.0, rest.1))
    | inr e ↦ let k : All P (x ∷ y ∷ ys) = rw (e, insert) at h in k
  ]

  pub All-unsorted : (xs : List A) → All P (sort compare_to xs) → All P xs
  unfolding sort
  All-unsorted [] h = tt
  All-unsorted (x ∷ xs) h =
      let k = All-uninserted x (sort compare_to xs) h in (k.0, All-unsorted xs k.1)

-- What the entries that a test keeps have, and that they pass it.
pub All-keep_passing :
    {A : Type 0} (P : A → Type 0) (p : A → Bool) (xs : List A)
    → All P xs
    → All (λ x. P x × (p x ≡ true)) (keep p xs)
All-keep_passing P p [] h = tt
All-keep_passing P p (x ∷ xs) h = elim (Bool-cases (p x)) [
  | inl e ↦ rw (e, keep) ((h.0, e), All-keep_passing P p xs h.1)
  | inr e ↦ rw (e, keep) (All-keep_passing P p xs h.1)
]

pub All-includes :
    (P : String → Type 0) (xs : List String)
    → ((v : String) → includes xs v ≡ true → P v)
    → All P xs
All-includes P [] h = tt
All-includes P (x ∷ xs) h =
    (h x (ground (arith, eq_iff x x)), All-includes P xs (λ v e. h v (ground arith)))

keep-drops :
    (x : String) (ys : List String)
    → includes ys x ≡ true
    → length (keep (λ y. not (x == y)) ys) < length ys
keep-drops x [] h = ground arith
keep-drops x (y ∷ ys) h =
    ground (arith, eq_iff x y, eq_iff y x, keep-drops x ys, length-keep-le (λ y. not (x == y)) ys)

includes-keep :
    (v x : String) (ys : List String)
    → includes ys v ≡ true
    → (x == v) ≡ false
    → includes (keep (λ y. not (x == y)) ys) v ≡ true
includes-keep v x [] h n = ground arith
includes-keep v x (y ∷ ys) h n =
    ground (arith, eq_iff x y, eq_iff y v, eq_iff x v, includes-keep v x ys)

pub includes-unique :
    (v : String) (xs : List String) → includes xs v ≡ true → includes (unique xs) v ≡ true
unfolding unique
includes-unique v [] h = h
includes-unique v (x ∷ xs) h = ground (arith, includes-unique v xs, includes-keep v x (unique xs))

length-unique-le : (xs : List String) → length (unique xs) ≤ length xs
unfolding unique
length-unique-le [] = omega arith
length-unique-le (x ∷ xs) =
    ground (arith, length-unique-le xs, length-keep-le (λ y. not (x == y)) (unique xs))

-- A list that is no longer than its set has no duplicates.
pub distinct-unique : (xs : List String) → length (unique xs) ≡ length xs → distinct xs ≡ true
unfolding unique
distinct-unique [] h = refl
distinct-unique (x ∷ xs) h = ground (
  arith,
  distinct-unique xs,
  length-unique-le xs,
  length-keep-le (λ y. not (x == y)) (unique xs),
  includes-unique x xs,
  keep-drops x (unique xs),
)

All-tail :
    {A : Type 0} (y : A) (ys xs : List A) → All (λ x. Memᴰ x ys) xs → All (λ x. Memᴰ x (y ∷ ys)) xs
All-tail y ys [] h = tt
All-tail y ys (x ∷ xs) h = (Memᴰ.tail h.0, All-tail y ys xs h.1)

pub All-Memᴰ : {A : Type 0} (xs : List A) → All (λ x. Memᴰ x xs) xs
All-Memᴰ [] = tt
All-Memᴰ (x ∷ xs) = (Memᴰ.head refl, All-tail x xs xs (All-Memᴰ xs))

-- Sorting by a whole number first puts a smallest one in front.
module _ {A : Type 0} (compare_to : A → A → Order) (key : A → ℕ)
    (ordered : (x y : A)
      → ((is_above (compare_to x y) ≡ true) → key y ≤ key x)
        × ((is_above (compare_to x y) ≡ false) → key x ≤ key y)) where
  abbrev pub Least : List A → Type 0
  Least [] = Unit
  Least (x ∷ xs) = All (λ y. key x ≤ key y) xs

  least_le :
      (x y : A) (ys : List A)
      → key x ≤ key y
      → All (λ z. key y ≤ key z) ys
      → All (λ z. key x ≤ key z) ys
  least_le x y [] h g = tt
  least_le x y (z ∷ zs) h g = (omega (arith, h, g.0), least_le x y zs h g.1)

  insert-Least : (x : A) (ys : List A) → Least ys → Least (insert compare_to x ys)
  unfolding insert
  insert-Least x [] h = tt
  insert-Least x (y ∷ ys) h = elim (Bool-cases (is_above (compare_to x y))) [
    | inl e ↦ rw (e, insert) (All-insert (λ z. key y ≤ key z) compare_to x ys ((ordered x y).0 e) h)
    | inr e ↦ rw (e, insert) ((ordered x y).1 e, least_le x y ys ((ordered x y).1 e) h)
  ]

  pub sort-Least : (xs : List A) → Least (sort compare_to xs)
  unfolding sort
  sort-Least [] = tt
  sort-Least (x ∷ xs) = insert-Least x (sort compare_to xs) (sort-Least xs)

-- What the lists of an intersection share.
pub every-keep :
    (v : String) (p : String → Bool) (xs : List String)
    → includes (keep p xs) v ≡ true
    → (includes xs v ≡ true) × (p v ≡ true)
every-keep v p [] h = (h, ground arith)
every-keep v p (x ∷ xs) h = elim (Bool-cases (p x)) [
  | inr e ↦
      let k : includes (keep p xs) v ≡ true = rw (e, keep) at h in
      let rest = every-keep v p xs k in (ground arith, rest.1)
  | inl e ↦
      let k : (x == v || includes (keep p xs) v) ≡ true = rw (e, keep) at h in
      elim (Bool-cases (x == v)) [
        | inl q ↦ (ground arith, subst (λ w. p w ≡ true) (eq→≡ x v q) e)
        | inr q ↦ let rest = every-keep v p xs (ground arith) in (ground arith, rest.1)
      ]
]

pub every-intersection :
    (v : String) (lists : List (List String))
    → includes (intersection lists) v ≡ true
    → every (λ xs. includes xs v) lists ≡ true
unfolding intersection
every-intersection v [] h = refl
every-intersection v (items ∷ rest) h =
    let k = every-keep v (λ w. every (λ xs. includes xs w) rest) items h in ground arith

pub includes-first : (x : String) (xs : List String) → includes (x ∷ xs) x ≡ true
includes-first x xs = ground (arith, eq_iff x x)

pub List-cases : {A : Type 0} (xs : List A) → (xs ≡ []) ⊎ ((x : A) × (ys : List A) × (xs ≡ x ∷ ys))
List-cases [] = inl refl
List-cases (x ∷ xs) = inr (x, xs, refl)

-- What holds of two lists together, and of their parts.
pub All-append-left :
    {A : Type 0} (P : A → Type 0) (xs ys : List A) → All P (xs ++ ys) → All P xs × All P ys
All-append-left P [] ys h = (tt, h)
All-append-left P (x ∷ xs) ys h = let r = All-append-left P xs ys h.1 in ((h.0, r.0), r.1)

pub All-join :
    {A : Type 0} (P : A → Type 0) (xs ys : List A) → All P xs → All P ys → All P (xs ++ ys)
All-join P [] ys h g = g
All-join P (x ∷ xs) ys h g = (h.0, All-join P xs ys h.1 g)

All-Memᴰ_elim : {A : Type 0} (P : A → Type 0) (x : A) (ys : List A) → Memᴰ x ys → All P ys → P x
All-Memᴰ_elim P x [] m h = absurd (Memᴰ.not-nil m)
All-Memᴰ_elim P x (y ∷ ys) (Memᴰ.head e) h = subst P (sym e) h.0
All-Memᴰ_elim P x (y ∷ ys) (Memᴰ.tail m) h = All-Memᴰ_elim P x ys m h.1

-- What holds of all holds of those drawn from them.
pub All-drawn :
    {A : Type 0} (P : A → Type 0) (ys xs : List A) → All (λ x. Memᴰ x ys) xs → All P ys → All P xs
All-drawn P ys [] m h = tt
All-drawn P ys (x ∷ xs) m h = (All-Memᴰ_elim P x ys m.0 h, All-drawn P ys xs m.1 h)
