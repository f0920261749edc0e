-- ===== src/Receipts/Progress.antt =====
-- What the agent's check of receipts in apps/node-agent/src/event-pump.ts has to do with the
-- platform's experience, packages/db/src/services/progression.ts.
use legacy_match_platform.Common.{
  ℕ, zero, suc, ◌+◌, ◌-◌, ◌≤◌, String, Bool, true, false, ◌&&◌, Option, none, some, List, [], ◌∷◌,
  map, length, includes, distinct, All, ◌==◌, String_eq, ℕ_eq, eq→≡, eq_iff, ltb, leb, ok,
  Result-cases, ok_inj, Bool-cases, Option-cases, ◌≡◌, inl, inr, refl, subst, arith,
}
use legacy_match_platform.Contracts.{GameMode}
use legacy_match_platform.Progression.{
  ProfileProgress, ProfileProgressionChange, level_up, cap, is_valid, advance_profile,
}
use legacy_match_platform.Progression.Totals.{IsProfile}
use legacy_match_platform.Receipts.{
  RosterEntry, ServiceDrop, ProgressionReceipt, Candidate, DropValue, nothing, no_object, reward,
  climb, computed, fields_fine, drop_of, validate_fields, read, validate_one, validate_all,
  validated_progression, expected_category,
}

-- The agent's loop is the platform's.
climb-eq-level_up :
    (n level xp : ℕ) → climb n level xp ≡ ((level_up n level xp).level, (level_up n level xp).xp)
unfolding climb level_up
climb-eq-level_up zero level xp = refl
climb-eq-level_up (suc n) level xp = elim (Bool-cases (ltb level 40 && leb 1000 xp)) [
  | inl e ↦ rw (e, climb, level_up) (climb-eq-level_up n (suc level) (xp - 1000))
  | inr e ↦ rw (e, climb, level_up) refl
]

pub advance_profile-computed :
    (p : ProfileProgress) (earned : ℕ)
    → is_valid p ≡ true
    → advance_profile p earned
      ≡ some (record {
        progress = record {
          level = (computed p.level p.xp earned).0;
          xp = (computed p.level p.xp earned).1;
        };
        earned_xp = earned;
      })
unfolding advance_profile computed cap
advance_profile-computed p earned v =
    let r = level_up 40 p.level (p.xp + earned) in
    elim (Bool-cases (r.level == 40)) [
      | inl e ↦
          rw (v, climb-eq-level_up 40 p.level (p.xp + earned), e, advance_profile, computed, cap)
            refl
      | inr e ↦
          rw (v, climb-eq-level_up 40 p.level (p.xp + earned), e, advance_profile, computed, cap)
            refl
    ]

module _ (is_steam_id is_uuid : String → Bool) where
  -- The drop that goes with a new level, and only with one.
  abbrev Rewards : (previous_level next_level : ℕ) → Option ServiceDrop → Type 0
  Rewards previous next none = next ≤ previous
  Rewards previous next (some d) =
      (next ≡ previous + 1) × (d.service_level ≡ next) × (is_uuid d.id ≡ true)

  abbrev before : ProgressionReceipt → ProfileProgress
  before r = record { level = r.previous_level; xp = r.previous_xp }

  abbrev after : ProgressionReceipt → ProfileProgressionChange
  after r = record {
    progress = record { level = r.next_level; xp = r.next_xp };
    earned_xp = r.earned_xp;
  }

  -- A receipt that states what the platform's rules make of a player's profile.
  pub record Honest (roster : List RosterEntry) (category : ℕ) (r : ProgressionReceipt)
      : Type 0 where
    pub known : includes (map (λ e. e.steam_id) roster) r.steam_id ≡ true
    pub profile : IsProfile (before r)
    pub advanced : advance_profile (before r) r.earned_xp ≡ some (after r)
    pub earned : (1 ≤ r.earned_xp) × (r.earned_xp ≤ 1000)
    pub rewarded : Rewards r.previous_level r.next_level r.service_drop
    pub categorised : r.xp_category ≡ category

  drop_of-Rewards :
      (v : DropValue) (previous next : ℕ) (d : Option ServiceDrop)
      → drop_of is_steam_id is_uuid v previous next ≡ ok d
      → Rewards previous next d
  unfolding drop_of
  drop_of-Rewards nothing previous next d h = elim (Bool-cases (ltb previous next)) [
    | inl e ↦ absurd (let k = rw (e, drop_of) at h in cc)
    | inr e ↦ subst (Rewards previous next) (ok_inj (rw (e, drop_of) at h)) (ground arith)
  ]
  drop_of-Rewards no_object previous next d h = absurd cc
  drop_of-Rewards (reward none level kind) previous next d h = absurd cc
  drop_of-Rewards (reward (some id) none kind) previous next d h = absurd cc
  drop_of-Rewards (reward (some id) (some level) none) previous next d h = absurd cc
  drop_of-Rewards (reward (some id) (some level) (some kind)) previous next d h =
      elim (Bool-cases
        (is_uuid id && level == next && kind == "b2g_service_drop" && next == previous + 1)) [
          | inr e ↦ absurd (let k = rw (e, drop_of) at h in cc)
          | inl e ↦
              subst (Rewards previous next) (ok_inj (rw (e, drop_of) at h))
                (eq→≡ next (previous + 1) (ground arith), refl, ground arith)
        ]

  validate_fields-Honest :
      (roster : List RosterEntry) (category : ℕ) (seen : List String) (r q : ProgressionReceipt)
      (drop : DropValue)
      → validate_fields is_steam_id is_uuid roster category seen r drop ≡ ok q
      → Honest roster category q × (includes seen q.steam_id ≡ false)
  unfolding validate_fields
  validate_fields-Honest roster category seen r q drop h =
      let next = computed r.previous_level r.previous_xp r.earned_xp in
      elim (Bool-cases (fields_fine is_steam_id is_uuid roster category seen r)) [
        | inr e ↦ absurd (let k = rw (e, validate_fields) at h in cc)
        | inl e ↦ elim (Bool-cases (r.next_level == next.0 && r.next_xp == next.1)) [
          | inr f ↦ absurd (let k = rw (e, f, validate_fields) at h in cc)
          | inl f ↦
              elim (Result-cases (drop_of is_steam_id is_uuid drop r.previous_level r.next_level)) [
                | inl (x, g) ↦ absurd (let k = rw (e, f, g, validate_fields) at h in cc)
                | inr (d, g) ↦
                    let k : record r { service_drop = d } ≡ q =
                      ok_inj (rw (e, f, g, validate_fields) at h) in
                    let valid : is_valid (before r) ≡ true = ground arith in
                    let l : r.next_level ≡ next.0 = eq→≡ r.next_level next.0 (ground arith) in
                    let x : r.next_xp ≡ next.1 = eq→≡ r.next_xp next.1 (ground arith) in
                    subst (λ q. Honest roster category q × (includes seen q.steam_id ≡ false)) k
                      (
                        record {
                          known = ground arith;
                          profile = record {
                            least = ground arith;
                            most = ground arith;
                            below = ground arith;
                          };
                          advanced =
                              rw (l, x) (advance_profile-computed (before r) r.earned_xp valid);
                          earned = (ground arith, ground arith);
                          rewarded = drop_of-Rewards drop r.previous_level r.next_level d g;
                          categorised = eq→≡ r.xp_category category (ground arith);
                        },
                        ground arith,
                      )
              ]
        ]
      ]

  validate_one-Honest :
      (roster : List RosterEntry) (category : ℕ) (seen : List String) (c : Option Candidate)
      (q : ProgressionReceipt)
      → validate_one is_steam_id is_uuid roster category seen c ≡ ok q
      → Honest roster category q × (includes seen q.steam_id ≡ false)
  unfolding validate_one
  validate_one-Honest roster category seen none q h = absurd cc
  validate_one-Honest roster category seen (some c) q h =
      elim (Option-cases (read is_steam_id is_uuid c)) [
        | inl e ↦ absurd (let k = rw (e, validate_one) at h in cc)
        | inr (r, e) ↦
            validate_fields-Honest roster category seen r q c.service_drop
              (rw (e, validate_one) at h)
      ]

  -- Nobody is named twice, or among those seen.
  abbrev Fresh : List String → List ProgressionReceipt → Type 0
  Fresh seen rs =
      (distinct (map (λ r. r.steam_id) rs) ≡ true)
      × All (λ (r : ProgressionReceipt). includes seen r.steam_id ≡ false) rs

  later :
      (x : String) (seen : List String) (rs : List ProgressionReceipt)
      → Fresh (x ∷ seen) rs
      → (includes (map (λ (r : ProgressionReceipt). r.steam_id) rs) x ≡ false)
        × All (λ (r : ProgressionReceipt). includes seen r.steam_id ≡ false) rs
  later x seen [] h = (refl, tt)
  later x seen (r ∷ rs) h =
      let k : includes (x ∷ seen) r.steam_id ≡ false = h.1.0 in
      let rest = later x seen rs (ground arith, h.1.1) in
      (ground (arith, eq_iff x r.steam_id, eq_iff r.steam_id x), (ground arith, rest.1))

  validate_all-Honest :
      (roster : List RosterEntry) (category : ℕ) (seen : List String) (cs : List (Option Candidate))
      (rs : List ProgressionReceipt)
      → validate_all is_steam_id is_uuid roster category seen cs ≡ ok rs
      → All (Honest roster category) rs × Fresh seen rs
  unfolding validate_all
  validate_all-Honest roster category seen [] rs h =
      subst (λ rs. All (Honest roster category) rs × Fresh seen rs) (ok_inj h) (tt, (refl, tt))
  validate_all-Honest roster category seen (c ∷ cs) rs h =
      elim (Result-cases (validate_one is_steam_id is_uuid roster category seen c)) [
        | inl (x, e) ↦ absurd (let k = rw (e, validate_all) at h in cc)
        | inr (r, e) ↦
            elim (Result-cases
              (validate_all is_steam_id is_uuid roster category (r.steam_id ∷ seen) cs)) [
                | inl (x, f) ↦ absurd (let k = rw (e, f, validate_all) at h in cc)
                | inr (qs, f) ↦
                    let (honest, new) = validate_one-Honest roster category seen c r e in
                    let (rest, fresh) =
                      validate_all-Honest roster category (r.steam_id ∷ seen) cs qs f in
                    let (apart, unseen) = later r.steam_id seen qs fresh in
                    subst (λ rs. All (Honest roster category) rs × Fresh seen rs)
                      (ok_inj (rw (e, f, validate_all) at h))
                      ((honest, rest), (ground (arith, fresh.0), (new, unseen)))
              ]
      ]

  -- Receipts that the agent accepts name nobody twice, and each names a player of the roster, is of
  -- the match's kind, and states what the platform's own advanceProfile makes of a valid profile and
  -- an award of 1 to 1000. One with a service drop states the next level, and the drop is for that
  -- level; one without states no higher level.
  pub validated_progression-Honest :
      (mode : Option GameMode) (roster : List RosterEntry)
      (value : Option (List (Option Candidate))) (rs : List ProgressionReceipt)
      → validated_progression is_steam_id is_uuid mode roster value ≡ ok rs
      → All (Honest roster (expected_category mode roster)) rs
        × (distinct (map (λ r. r.steam_id) rs) ≡ true)
  unfolding validated_progression
  validated_progression-Honest mode roster none rs h = absurd cc
  validated_progression-Honest mode roster (some cs) rs h =
      elim (Bool-cases (ltb (length roster) (length cs))) [
        | inl e ↦ absurd (let k = rw (e, validated_progression) at h in cc)
        | inr e ↦
            let k =
              validate_all-Honest roster (expected_category mode roster) [] cs rs
                (rw (e, validated_progression) at h) in
            (k.0, k.1.0)
      ]
