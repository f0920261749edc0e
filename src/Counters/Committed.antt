-- ===== src/Counters/Committed.antt =====
-- What a counter receipt does to the committed counters, apps/node-agent/src/counter-receipt.ts.
use legacy_match_platform.Common.{
  not, ◌||◌, ℕ, ◌≤◌, String, Bool, true, ◌&&◌, Option, some, List, [], ◌∷◌, map, length, any,
  includes, distinct, All, ◌==◌, String_eq, ℕ_eq, leb, max, ok, Result-cases, ok_inj, Bool-cases,
  Option-cases, some_inj, ◌≡◌, inl, inr, refl, ◌∙◌, ap, subst, arith,
}
use legacy_match_platform.Common.JsMap
use legacy_match_platform.Common.JsMap.{JsMap, get-set}
use legacy_match_platform.Counters.{
  CounterEntry, CommittedCounterState, Manifest, CountValue, CounterReceipt, Envelope, entry_key,
  generation_of, allows, allowed_of, owners_from, carry, read_count, merge, accept_counter_receipt,
}
use legacy_match_platform.Counters.Merging.{
  keys, Kept, Fine, Reaches, carry-Fine, Held, carry-Held, entered, entered-Fine, entered-Reaches,
}

-- The list of a map's entries.
values-keys :
    (allowed : JsMap String) (m : JsMap CounterEntry)
    → All (Kept allowed) m
    → map entry_key (JsMap.values m) ≡ keys m
values-keys allowed [] h = refl
values-keys allowed ((k, e) ∷ m) h = rw (h.0.0, values-keys allowed m h.1) refl

-- An entry of an item that may be counted.
abbrev pub Counted : JsMap String → CounterEntry → Type 0
Counted allowed e = allows allowed (entry_key e) (generation_of e.ownership_generation) ≡ true

values-Counted :
    (allowed : JsMap String) (m : JsMap CounterEntry)
    → All (Kept allowed) m
    → All (Counted allowed) (JsMap.values m)
values-Counted allowed [] h = tt
values-Counted allowed ((k, e) ∷ m) h = (
  ap (λ k. allows allowed k (generation_of e.ownership_generation)) h.0.0 ∙ h.0.1,
  values-Counted allowed m h.1,
)

-- Some entry has this key and at least this count.
abbrev pub reaches : String → ℕ → List CounterEntry → Bool
reaches k n = any (λ e. entry_key e == k && leb n e.count)

values-reaches :
    (allowed : JsMap String) (k : String) (n : ℕ) (m : JsMap CounterEntry)
    → All (Kept allowed) m
    → Reaches k n m
    → reaches k n (JsMap.values m) ≡ true
unfolding JsMap.get
values-reaches allowed k n [] h (x, g, l) = absurd cc
values-reaches allowed k n ((j, e) ∷ m) h (x, g, l) = elim (Bool-cases (j == k)) [
  | inl s ↦
      let same : e ≡ x = some_inj (rw (s, JsMap.get) at g) in
      let own : (entry_key e == k) ≡ true = ap (λ j. j == k) h.0.0 ∙ s in
      let most : e.count ≡ x.count = ap (λ (e : CounterEntry). e.count) same in
      ground (arith, own, most, l)
  | inr s ↦
      let rest = values-reaches allowed k n m h.1 (x, rw (s, JsMap.get) at g, l) in
      ground (arith, rest)
]

-- What an accepted receipt makes of the counters before.
pub record Committed (allowed : JsMap String) (before after : CommittedCounterState) : Type 0 where
  pub forward : before.sequence ≤ after.sequence
  pub once : distinct (map entry_key after.counts) ≡ true
  pub counted : All (Counted allowed) after.counts
  pub grown :
      All
        (λ (e : CounterEntry).
          (not (allows allowed (entry_key e) (generation_of e.ownership_generation))
            || reaches (entry_key e) e.count after.counts)
          ≡ true)
        before.counts

Held-reaches :
    (allowed : JsMap String) (r m : JsMap CounterEntry) (es : List CounterEntry)
    → All (Kept allowed) m
    → ((k : String) (n : ℕ) → Reaches k n r → Reaches k n m)
    → Held allowed r es
    → All
        (λ (e : CounterEntry).
          (not (allows allowed (entry_key e) (generation_of e.ownership_generation))
            || reaches (entry_key e) e.count (JsMap.values m))
          ≡ true)
        es
Held-reaches allowed r m [] f k h = tt
Held-reaches allowed r m (e ∷ es) f k h = (
  (elim (Bool-cases (allows allowed (entry_key e) (generation_of e.ownership_generation))) [
    | inr a ↦ rw (a) refl
    | inl a ↦
        rw (a, values-reaches allowed (entry_key e) e.count m f (k (entry_key e) e.count (h.0 a)))
          refl
  ]),
  Held-reaches allowed r m es f k h.1,
)

module _ (is_steam_id is_asset_id is_ownership_generation : String → Bool) where
  abbrev Merged : JsMap String → JsMap CounterEntry → JsMap CounterEntry → Type 0
  Merged allowed m m' = Fine allowed m' × ((k : String) (n : ℕ) → Reaches k n m → Reaches k n m')

  merge-Merged :
      (owners allowed : JsMap String) (seen : List String) (m : JsMap CounterEntry)
      (vs : List (Option CountValue)) (m' : JsMap CounterEntry)
      → merge is_steam_id is_asset_id is_ownership_generation owners allowed seen m vs ≡ ok m'
      → Fine allowed m
      → Merged allowed m m'
  unfolding merge
  merge-Merged owners allowed seen m [] m' h f = subst (Merged allowed m) (ok_inj h) (f, λ k n r. r)
  merge-Merged owners allowed seen m (v ∷ vs) m' h f =
      elim (Option-cases (read_count is_steam_id is_asset_id is_ownership_generation owners v)) [
        | inl a ↦ absurd (let q = rw (a, merge) at h in cc)
        | inr ((e, g), a) ↦ elim (Bool-cases (includes seen (entry_key e))) [
          | inl b ↦ absurd (let q = rw (a, b, merge) at h in cc)
          | inr b ↦ elim (Bool-cases (allows allowed (entry_key e) g)) [
            | inr c ↦
                merge-Merged owners allowed (entry_key e ∷ seen) m vs m' (rw (a, b, c, merge) at h)
                  f
            | inl c ↦
                let (fine, kept) =
                  merge-Merged owners allowed (entry_key e ∷ seen) (entered e g m) vs m'
                    (rw (a, b, c, merge) at h) (entered-Fine allowed e g m c f) in
                (fine, λ k n r. kept k n (entered-Reaches e g k n m r))
          ]
        ]
      ]

  -- A counter receipt that is accepted on counters of distinct items never takes back: the sequence
  -- number does not fall, and every entry before that the manifest still counts, in its
  -- generation of ownership, has an entry after with at least its count. The items are distinct
  -- again, and each is one that the manifest counts.
  pub accept_counter_receipt-Committed :
      (signed : CounterReceipt → String → Bool) (largest : ℕ) (checksum : String) (v : Envelope)
      (manifest : Manifest) (before after : CommittedCounterState)
      → distinct (map entry_key before.counts) ≡ true
      → accept_counter_receipt is_steam_id is_asset_id is_ownership_generation signed largest
          checksum
          (some (some v))
          manifest
          (some before)
        ≡ ok (some after)
      → Committed (allowed_of manifest) before after
  unfolding accept_counter_receipt
  accept_counter_receipt-Committed signed largest checksum v manifest before after d h =
      let r = v.receipt in
      let allowed = allowed_of manifest in
      let start = carry allowed [] before.counts in
      elim (Bool-cases (signed r v.signature)) [
        | inr a ↦ absurd (let q = rw (a, accept_counter_receipt) at h in cc)
        | inl a ↦
            elim (Bool-cases (
              r.kind == "stattrak.committed"
              && r.version == 1
              && r.match_id == manifest.match_id
              && r.lease_id == manifest.lease_id
              && r.fencing_token == manifest.fencing_token
              && r.sequence == largest
              && r.batch_checksum == checksum
              && leb (length r.counts) 100)) [
                | inr b ↦ absurd (let q = rw (a, b, accept_counter_receipt) at h in cc)
                | inl b ↦
                    elim (Result-cases (
                      merge is_steam_id is_asset_id is_ownership_generation
                        (owners_from [] manifest.roster) allowed [] start r.counts)) [
                          | inl (x, c) ↦
                              absurd (let q = rw (a, b, c, accept_counter_receipt) at h in cc)
                          | inr (m, c) ↦
                              let same : record {
                                sequence = max largest before.sequence;
                                counts = JsMap.values m;
                              }
                                  ≡ after =
                                some_inj (ok_inj (rw (a, b, c, accept_counter_receipt) at h)) in
                              let (fine, kept) =
                                merge-Merged (owners_from [] manifest.roster) allowed [] start
                                  r.counts m c (carry-Fine allowed [] before.counts (tt, refl)) in
                              subst (Committed allowed before) same (record {
                                forward = omega arith;
                                once =
                                    ap (distinct {A = String}) (values-keys allowed m fine.0)
                                    ∙ fine.1;
                                counted = values-Counted allowed m fine.0;
                                grown =
                                    Held-reaches allowed start m before.counts fine.0 kept
                                      (carry-Held allowed [] before.counts start d refl);
                              })
                        ]
              ]
      ]
