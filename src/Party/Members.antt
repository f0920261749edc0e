-- ===== src/Party/Members.antt =====
-- The member list of a party: what writing to it and removing from it do to the players on it.
use legacy_match_platform.Common.{
  ◌≤◌, String, Bool, true, false, not, ◌&&◌, ◌||◌, List, [], ◌∷◌, ◌++◌, length, keep, includes,
  distinct, ◌==◌, String_eq, ◌≡◌, refl, arith, eq_iff,
}
use legacy_match_platform.Party.{Member, player_ids, mark_ready, remove_first}

pub player_ids-mark_ready :
    (player : String) (ready : Bool) (ms : List Member)
    → player_ids (mark_ready player ready ms) ≡ player_ids ms
unfolding mark_ready
player_ids-mark_ready player ready [] = refl
player_ids-mark_ready player ready (m ∷ ms) = ground (arith, player_ids-mark_ready player ready ms)

pub length-mark_ready :
    (player : String) (ready : Bool) (ms : List Member)
    → length (mark_ready player ready ms) ≡ length ms
unfolding mark_ready
length-mark_ready player ready [] = refl
length-mark_ready player ready (m ∷ ms) = ground (arith, length-mark_ready player ready ms)

pub includes-remove_first_le :
    (x y : String) (ms : List Member)
    → includes (player_ids (remove_first x ms)) y ≡ true
    → includes (player_ids ms) y ≡ true
unfolding remove_first
includes-remove_first_le x y [] h = h
includes-remove_first_le x y (m ∷ ms) h = ground (arith, includes-remove_first_le x y ms)

-- On a list of distinct players exactly the removed one is gone.
pub includes-remove_first :
    (x y : String) (ms : List Member)
    → distinct (player_ids ms) ≡ true
    → includes (player_ids (remove_first x ms)) y ≡ (includes (player_ids ms) y && not (x == y))
unfolding remove_first
includes-remove_first x y [] d = refl
includes-remove_first x y (m ∷ ms) d =
    ground
      (arith, includes-remove_first x y ms, eq_iff x y, eq_iff m.player_id x, eq_iff m.player_id y)

pub distinct-remove_first :
    (x : String) (ms : List Member)
    → distinct (player_ids ms) ≡ true
    → distinct (player_ids (remove_first x ms)) ≡ true
unfolding remove_first
distinct-remove_first x [] d = d
distinct-remove_first x (m ∷ ms) d =
    ground (arith, distinct-remove_first x ms, includes-remove_first_le x m.player_id ms)

pub length-remove_first : (x : String) (ms : List Member) → length (remove_first x ms) ≤ length ms
unfolding remove_first
length-remove_first x [] = omega arith
length-remove_first x (m ∷ ms) = ground (arith, length-remove_first x ms)

-- The list after a newcomer is appended.
pub includes-push :
    (x : Member) (y : String) (ms : List Member)
    → includes (player_ids (ms ++ x ∷ [])) y ≡ (includes (player_ids ms) y || x.player_id == y)
includes-push x y [] = ground arith
includes-push x y (m ∷ ms) = ground (arith, includes-push x y ms)

pub distinct-push :
    (x : Member) (ms : List Member)
    → distinct (player_ids ms) ≡ true
    → includes (player_ids ms) x.player_id ≡ false
    → distinct (player_ids (ms ++ x ∷ [])) ≡ true
distinct-push x [] d n = refl
distinct-push x (m ∷ ms) d n = ground (
  arith,
  distinct-push x ms,
  includes-push x m.player_id ms,
  eq_iff m.player_id x.player_id,
  eq_iff x.player_id m.player_id,
)

keep-absent :
    (player : String) (ms : List Member)
    → includes (player_ids ms) player ≡ false
    → keep (λ m. not (m.player_id == player)) ms ≡ ms
keep-absent player [] h = refl
keep-absent player (m ∷ ms) h = ground (arith, keep-absent player ms)

-- On distinct players the loop drops what `splice` removes.
pub keep-eq-remove_first :
    (player : String) (ms : List Member)
    → distinct (player_ids ms) ≡ true
    → keep (λ m. not (m.player_id == player)) ms ≡ remove_first player ms
unfolding remove_first
keep-eq-remove_first player [] d = refl
keep-eq-remove_first player (m ∷ ms) d =
    ground (arith, eq_iff m.player_id player, keep-absent player ms, keep-eq-remove_first player ms)
