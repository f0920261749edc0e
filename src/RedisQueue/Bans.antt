-- ===== src/RedisQueue/Bans.antt =====
-- What a ban of a map does to an open veto, and where the veto ends.
use legacy_match_platform.Common.{
  ℕ, suc, ◌≤◌, String, Bool, true, false, none, some, List, [], ◌∷◌, ◌++◌, includes, distinct,
  length, All, ◌==◌, String_eq, ◌≡◌, refl, sym, ◌∙◌, inl, inr, arith, ◌⊎◌, Bool-cases, eq→≡,
}
use legacy_match_platform.Contracts.{MapVetoState, MapVetoBan, active, allocating}
use legacy_match_platform.RedisQueue.{VetoRecord}
use legacy_match_platform.RedisQueue.Accept.{sole}
use legacy_match_platform.RedisQueue.Veto.{captain, other_team, without, apply_ban}

pub length-without :
    (m : String) (ms : List String) → includes ms m ≡ true → suc (length (without m ms)) ≡ length ms
unfolding without
length-without m [] i = absurd (cc)
length-without m (n ∷ ns) i = elim (Bool-cases (n == m)) [
  | inl e ↦ ground (arith, e)
  | inr e ↦ ground (arith, e, length-without m ns)
]

includes-without-false :
    (m x : String) (ms : List String) → includes ms x ≡ false → includes (without m ms) x ≡ false
unfolding without
includes-without-false m x [] i = refl
includes-without-false m x (n ∷ ns) i = elim (Bool-cases (n == m)) [
  | inl e ↦ ground (arith, e)
  | inr e ↦ ground (arith, e, includes-without-false m x ns)
]

includes-without_self :
    (m : String) (ms : List String) → distinct ms ≡ true → includes (without m ms) m ≡ false
unfolding without
includes-without_self m [] d = refl
includes-without_self m (n ∷ ns) d = elim (Bool-cases (n == m)) [
  | inl e ↦ let same = eq→≡ n m e in ground (arith, e, same)
  | inr e ↦ ground (arith, e, includes-without_self m ns)
]

distinct-without :
    (m : String) (ms : List String) → distinct ms ≡ true → distinct (without m ms) ≡ true
unfolding without
distinct-without m [] d = refl
distinct-without m (n ∷ ns) d = elim (Bool-cases (n == m)) [
  | inl e ↦ ground (arith, e)
  | inr e ↦ ground (arith, e, distinct-without m ns, includes-without-false m n ns)
]

-- A veto's record: no map twice; a banned map is gone; two maps are left while it is open, and the
-- selected one when it is settled.
pub record IsVeto (st : MapVetoState) : Type 0 where
  pub once : distinct st.remaining_maps ≡ true
  pub gone : All (λ (b : MapVetoBan). includes st.remaining_maps b.map_name ≡ false) st.bans
  pub choice : st.status ≡ active → 2 ≤ length st.remaining_maps
  pub settled :
      st.status ≡ allocating
      → (m : String) × (st.remaining_maps ≡ m ∷ []) × (st.selected_map ≡ some m)

gone-append :
    (m : String) (ms : List String) (bs : List MapVetoBan) (b : MapVetoBan)
    → distinct ms ≡ true
    → All (λ (b : MapVetoBan). includes ms b.map_name ≡ false) bs
    → b.map_name ≡ m
    → All (λ (b : MapVetoBan). includes (without m ms) b.map_name ≡ false) (bs ++ b ∷ [])
gone-append m ms [] b d g e = (rw e (includes-without_self m ms d), tt)
gone-append m ms (c ∷ cs) b d g e =
    (includes-without-false m c.map_name ms g.0, gone-append m ms cs b d g.1 e)

pub sole-cases :
    (ms : List String)
    → ((m : String) × (ms ≡ m ∷ []) × (sole ms ≡ some m)) ⊎ ((sole ms ≡ none) × (length ms ≡ 1 → ⊥))
sole-cases [] = inr (refl, λ e. omega (arith, e))
sole-cases (m ∷ []) = inl (m, refl, refl)
sole-cases (m ∷ n ∷ ms) = inr (refl, λ e. omega (arith, e))

-- What a ban of `m` changes of an open veto.
pub record Banning (v v' : VetoRecord) (m : String) : Type 0 where
  pub fewer : suc (length v'.state.remaining_maps) ≡ length v.state.remaining_maps
  pub recorded :
      (b : MapVetoBan) × (v'.state.bans ≡ v.state.bans ++ b ∷ [])
      × (b.map_name ≡ m)
      × (b.captain_player_id ≡ captain v.state.captains v.state.acting_team)
  pub next :
      ((v'.state.status ≡ active) × (v'.state.acting_team ≡ other_team v.state.acting_team))
      ⊎ ((v'.state.status ≡ allocating) × (length v'.state.remaining_maps ≡ 1))

module _ (v : VetoRecord) (m : String) (automated : Bool) (now next : ℕ) where
  pub apply_ban-Banning :
      v.state.status ≡ active
      → includes v.state.remaining_maps m ≡ true
      → Banning v (apply_ban v m automated now next) m
  unfolding apply_ban
  apply_ban-Banning a i = elim (sole-cases (without m v.state.remaining_maps)) [
    | inl (last, e, f) ↦ record {
      fewer = rw (f, apply_ban) (length-without m v.state.remaining_maps i);
      recorded = rw (f, apply_ban) (_, refl, refl, refl);
      next = rw (f, apply_ban) (inr (refl, rw e refl));
    }
    | inr (f, _) ↦ record {
      fewer = rw (f, apply_ban) (length-without m v.state.remaining_maps i);
      recorded = rw (f, apply_ban) (_, refl, refl, refl);
      next = rw (f, apply_ban) (inl (a, refl));
    }
  ]

  pub apply_ban-IsVeto :
      IsVeto v.state
      → v.state.status ≡ active
      → includes v.state.remaining_maps m ≡ true
      → IsVeto (apply_ban v m automated now next).state
  unfolding apply_ban
  apply_ban-IsVeto w a i =
      let fewer = length-without m v.state.remaining_maps i in
      elim (sole-cases (without m v.state.remaining_maps)) [
        | inl (last, e, f) ↦
            rw (f, apply_ban)
              (record {
                once = distinct-without m v.state.remaining_maps w.once;
                gone = gone-append m v.state.remaining_maps v.state.bans _ w.once w.gone refl;
                choice = λ p. absurd (cc);
                settled = λ p. (last, e, refl);
              })
        | inr (f, n) ↦
            rw (f, apply_ban)
              (record {
                once = distinct-without m v.state.remaining_maps w.once;
                gone = gone-append m v.state.remaining_maps v.state.bans _ w.once w.gone refl;
                choice = λ p. let two = w.choice a in ground (arith, fewer, two, n);
                settled = λ p. absurd (let q = sym a ∙ p in cc);
              })
      ]
