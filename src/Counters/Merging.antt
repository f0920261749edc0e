-- ===== src/Counters/Merging.antt =====
-- The map of counters that `acceptCounterReceipt` of apps/node-agent/src/counter-receipt.ts merges
-- into: what each of its steps keeps.
use legacy_match_platform.Common.{
  ℕ, ◌≤◌, String, true, false, ◌||◌, Option, none, some, List, [], ◌∷◌, map, includes, distinct,
  All, ◌==◌, String_eq, ℕ_eq, eq_iff, eq→≡, beq_refl, max, Bool-cases, ◌≡◌, inl, inr, refl, sym,
  ◌∙◌, ap, arith,
}
use legacy_match_platform.Common.JsMap
use legacy_match_platform.Common.JsMap.{JsMap, get-set}
use legacy_match_platform.Counters.{
  CounterEntry, entry_key, generation_of, allows, carry, stored, larger,
}

module _ {V : Type 0} where
  abbrev pub keys : JsMap V → List String
  keys = map (λ (e : String × V). e.0)

  includes-keys-set :
      (k j : String) (v : V) (m : JsMap V)
      → includes (keys (JsMap.set k v m)) j ≡ (k == j || includes (keys m) j)
  unfolding JsMap.set
  includes-keys-set k j v [] = refl
  includes-keys-set k j v ((i, w) ∷ m) =
      ground (arith, includes-keys-set k j v m, eq_iff i k, eq_iff i j, eq_iff k j)

  distinct-keys-set :
      (k : String) (v : V) (m : JsMap V)
      → distinct (keys m) ≡ true
      → distinct (keys (JsMap.set k v m)) ≡ true
  unfolding JsMap.set
  distinct-keys-set k v [] h = refl
  distinct-keys-set k v ((i, w) ∷ m) h =
      ground (arith, h, distinct-keys-set k v m, includes-keys-set k i v m, eq_iff i k, eq_iff k i)

  All-set :
      (P : String × V → Type 0) (k : String) (v : V) (m : JsMap V)
      → All P m
      → P (k, v)
      → All P (JsMap.set k v m)
  unfolding JsMap.set
  All-set P k v [] h p = (p, tt)
  All-set P k v ((i, w) ∷ m) h p = elim (Bool-cases (i == k)) [
    | inl e ↦ rw (e, JsMap.set) (p, h.1)
    | inr e ↦ rw (e, JsMap.set) (h.0, All-set P k v m h.1 p)
  ]

generation_of-stored :
    (steam_id asset_id g : String) (n : ℕ)
    → generation_of (stored steam_id asset_id g n).ownership_generation ≡ g
generation_of-stored steam_id asset_id g n = elim (Bool-cases (g == "0")) [
  | inl e ↦ rw (e) (sym (eq→≡ g "0" e))
  | inr e ↦ rw (e) refl
]

-- An entry under its own key, for an item that may be counted.
abbrev pub Kept : JsMap String → String × CounterEntry → Type 0
Kept allowed e =
    (entry_key e.1 ≡ e.0) × (allows allowed e.0 (generation_of e.1.ownership_generation) ≡ true)

abbrev pub Fine : JsMap String → JsMap CounterEntry → Type 0
Fine allowed m = All (Kept allowed) m × (distinct (keys m) ≡ true)

-- The count under a key, at least.
abbrev pub Reaches : String → ℕ → JsMap CounterEntry → Type 0
Reaches k n m = (e : CounterEntry) × (JsMap.get k m ≡ some e) × (n ≤ e.count)

pub carry-Fine :
    (allowed : JsMap String) (m : JsMap CounterEntry) (es : List CounterEntry)
    → Fine allowed m
    → Fine allowed (carry allowed m es)
unfolding carry
carry-Fine allowed m [] f = f
carry-Fine allowed m (e ∷ es) f =
    elim (Bool-cases (allows allowed (entry_key e) (generation_of e.ownership_generation))) [
      | inl a ↦
          rw (a, carry)
            (carry-Fine allowed (JsMap.set (entry_key e) e m) es (
              All-set (Kept allowed) (entry_key e) e m f.0 (refl, a),
              distinct-keys-set (entry_key e) e m f.1,
            ))
      | inr a ↦ rw (a, carry) (carry-Fine allowed m es f)
    ]

carry-keeps :
    (allowed : JsMap String) (m : JsMap CounterEntry) (es : List CounterEntry) (k : String)
    → includes (map entry_key es) k ≡ false
    → JsMap.get k (carry allowed m es) ≡ JsMap.get k m
unfolding carry
carry-keeps allowed m [] k n = refl
carry-keeps allowed m (e ∷ es) k n =
    let apart : (entry_key e == k) ≡ false = ground (arith, n) in
    let later : includes (map entry_key es) k ≡ false = ground (arith, n) in
    elim (Bool-cases (allows allowed (entry_key e) (generation_of e.ownership_generation))) [
      | inl a ↦
          rw (a, carry)
            (carry-keeps allowed (JsMap.set (entry_key e) e m) es k later
              ∙ get-set (entry_key e) k e m
              ∙ (rw (apart) refl))
      | inr a ↦ rw (a, carry) (carry-keeps allowed m es k later)
    ]

-- What of a list of entries may still be counted is in a map, with its count at least.
abbrev pub Held : JsMap String → JsMap CounterEntry → List CounterEntry → Type 0
Held allowed r = All (λ (e : CounterEntry).
    allows allowed (entry_key e) (generation_of e.ownership_generation) ≡ true
    → Reaches (entry_key e) e.count r)

pub carry-Held :
    (allowed : JsMap String) (m : JsMap CounterEntry) (es : List CounterEntry)
    (r : JsMap CounterEntry)
    → distinct (map entry_key es) ≡ true
    → r ≡ carry allowed m es
    → Held allowed r es
unfolding carry
carry-Held allowed m [] r d h = tt
carry-Held allowed m (e ∷ es) r d h =
    let new : includes (map entry_key es) (entry_key e) ≡ false = ground (arith, d) in
    let rest : distinct (map entry_key es) ≡ true = ground (arith, d) in
    elim (Bool-cases (allows allowed (entry_key e) (generation_of e.ownership_generation))) [
      | inl a ↦
          let h' : r ≡ carry allowed (JsMap.set (entry_key e) e m) es = h ∙ (rw (a, carry) refl) in
          (
            λ b. (
              e,
              ap (JsMap.get (entry_key e)) h'
                  ∙ carry-keeps allowed (JsMap.set (entry_key e) e m) es (entry_key e) new
                  ∙ get-set (entry_key e) (entry_key e) e m
                  ∙ (rw (beq_refl (entry_key e)) refl),
              omega arith,
            ),
            carry-Held allowed (JsMap.set (entry_key e) e m) es r rest h',
          )
      | inr a ↦
          let h' : r ≡ carry allowed m es = h ∙ (rw (a, carry) refl) in
          (λ b. absurd (let x = sym a ∙ b in cc), carry-Held allowed m es r rest h')
    ]

-- The step of the loop at an item that may be counted.
abbrev pub entered : CounterEntry → String → JsMap CounterEntry → JsMap CounterEntry
entered e g m =
    JsMap.set (entry_key e) (stored e.steam_id e.asset_id g (larger (entry_key e) e.count m)) m

pub entered-Fine :
    (allowed : JsMap String) (e : CounterEntry) (g : String) (m : JsMap CounterEntry)
    → allows allowed (entry_key e) g ≡ true
    → Fine allowed m
    → Fine allowed (entered e g m)
entered-Fine allowed e g m a f =
    let v = stored e.steam_id e.asset_id g (larger (entry_key e) e.count m) in
    (
      All-set (Kept allowed) (entry_key e) v m f.0 (
        refl,
        ap (allows allowed (entry_key e))
              (generation_of-stored e.steam_id e.asset_id g (larger (entry_key e) e.count m))
            ∙ a,
      ),
      distinct-keys-set (entry_key e) v m f.1,
    )

pub entered-Reaches :
    (e : CounterEntry) (g k : String) (n : ℕ) (m : JsMap CounterEntry)
    → Reaches k n m
    → Reaches k n (entered e g m)
entered-Reaches e g k n m (x, h, l) =
    let v = stored e.steam_id e.asset_id g (larger (entry_key e) e.count m) in
    elim (Bool-cases (entry_key e == k)) [
      | inl s ↦
          let same : entry_key e ≡ k = eq→≡ (entry_key e) k s in
          let old : JsMap.get (entry_key e) m ≡ some x = ap (λ k. JsMap.get k m) same ∙ h in
          let most : v.count ≡ max e.count x.count =
            ap (λ (o : Option CounterEntry). max e.count (elim o [ none ↦ 0 | some e ↦ e.count ]))
              old in
          (v, get-set (entry_key e) k v m ∙ (rw (s) refl), omega (arith, most, l))
      | inr s ↦ (x, get-set (entry_key e) k v m ∙ (rw (s) h), l)
    ]
