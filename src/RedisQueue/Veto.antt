-- ===== src/RedisQueue/Veto.antt =====
-- The map veto: `BAN_VETO_MAP_SCRIPT` and `COMPLETE_VETO_SCRIPT`.
use legacy_match_platform.Common.{
  ℕ, ◌+◌, ◌*◌, String, Bool, true, false, not, ◌||◌, Option, none, some, List, [], ◌∷◌, ◌++◌,
  if◌then◌else◌, ◌==◌, String_eq, ℕ_eq, leb, length, includes,
}
use legacy_match_platform.Common.JsMap
use legacy_match_platform.Common.JsMap.{JsMap}
use legacy_match_platform.Contracts.{
  Team, alpha, bravo, Captains, MapVetoState, MapVetoBan, MatchAssignment, active, allocating,
  VetoStatus, map_veto, assigned, QueuePhase_eq, queue_updated, veto_updated, match_assigned,
}
use legacy_match_platform.RedisQueue.{Store, Ticket, VetoRecord, publish, for_each}
use legacy_match_platform.RedisQueue.Accept.{update_ticket, sole}

-- Who asks for a ban: a captain by hand, or the sweep over expired turns.
pub data BanMode : Type 0 where
  manual system : BanMode

pub data Banned : Type 0 where
  missing not_active still_active forbidden invalid_map : Banned
  updated finalized : MapVetoState → Banned

abbrev pub captain : Captains → Team → String
captain c alpha = c.of_alpha
captain c bravo = c.of_bravo

abbrev pub other_team : Team → Team
other_team alpha = bravo
other_team bravo = alpha

abbrev pub is_active : VetoStatus → Bool
is_active active = true
is_active allocating = false

-- The turn has run out.
unfoldable pub is_over : Option ℕ → ℕ → Bool
is_over none now = false
is_over (some at) now = leb at now

abbrev pub is_system : BanMode → Bool
is_system manual = false
is_system system = true

unfoldable pub last_map : String → List String → String
last_map m [] = m
last_map m (n ∷ ms) = last_map n ms

abbrev pub last_of : List String → String
last_of [] = ""
last_of (m ∷ ms) = last_map m ms

-- The maps without the first occurrence of `map`.
unfoldable pub without : String → List String → List String
without m [] = []
without m (n ∷ ns) = if n == m then ns else n ∷ without m ns

-- The record after the acting captain's map is gone: the veto is settled, or the other team acts.
unfoldable pub apply_ban : VetoRecord → String → Bool → (now next_expires_at : ℕ) → VetoRecord
unfolding without
apply_ban v m automated now next_expires_at =
    let st = v.state in
    let remaining = without m st.remaining_maps in
    let ban : MapVetoBan = record {
      sequence = length st.bans + 1;
      map_name = m;
      team = st.acting_team;
      captain_player_id = captain st.captains st.acting_team;
      automated = automated;
      created_at = now;
    } in
    elim (sole remaining) [
      | some last ↦ record v {
        state = record st {
          remaining_maps = remaining;
          bans = st.bans ++ ban ∷ [];
          status = allocating;
          selected_map = some last;
          expires_at = none;
        };
        expires_at_ms = none;
      }
      | none ↦ record v {
        state = record st {
          remaining_maps = remaining;
          bans = st.bans ++ ban ∷ [];
          acting_team = other_team st.acting_team;
          expires_at = some next_expires_at;
        };
        expires_at_ms = some (now + v.turn_seconds * 1000);
      }
    ]

abbrev pub is_final : VetoRecord → Bool
is_final v = not (is_active v.state.status)

unfoldable pub show_veto : MapVetoState → Ticket → Ticket
show_veto st t = record t { map_veto = some st }

-- A settled veto waits for its server, any other for the end of the next turn.
unfoldable pub reschedule : String → Option ℕ → ℕ → Store → Store
reschedule match_id none now s = record s {
  veto_deadlines = JsMap.delete match_id s.veto_deadlines;
  veto_finalizations = JsMap.set match_id now s.veto_finalizations;
}
reschedule match_id (some at) now s = record s {
  veto_deadlines = JsMap.set match_id at s.veto_deadlines;
}

unfoldable pub save_veto : String → VetoRecord → Store → Store
save_veto match_id v s = record s { vetoes = JsMap.set match_id v s.vetoes }

unfoldable pub save_ban : String → VetoRecord → ℕ → Store → Store
unfolding show_veto update_ticket for_each reschedule save_veto
save_ban match_id v now s = publish v.member_player_ids (veto_updated v.state ∷ []) (
    for_each (update_ticket (show_veto v.state)) v.ticket_ids
      (save_veto match_id v (reschedule match_id v.expires_at_ms now s)))

-- The ban of `m` in an open veto, once it is settled whose ban it is.
unfoldable pub ban :
    String → VetoRecord → String → Bool → (now next_expires_at : ℕ) → Store → Store × Banned
unfolding apply_ban save_ban
ban match_id v m automated now next_expires_at s =
    if not (includes v.state.remaining_maps m)
    then (s, invalid_map)
    else let v' = apply_ban v m automated now next_expires_at in
      (save_ban match_id v' now s, if is_final v' then finalized v'.state else updated v'.state)

unfoldable pub ban_script :
    String → String → String → BanMode → (now next_expires_at : ℕ) → Store → Store × Banned
unfolding ban last_map is_over
ban_script match_id player requested mode now next_expires_at s =
    elim (JsMap.get match_id s.vetoes) [
      | none ↦ (s, missing)
      | some v ↦
          let over = is_over v.expires_at_ms now in
          if not (is_active v.state.status) || leb (length v.state.remaining_maps) 1
          then (s, not_active)
          else if is_system mode || over
          then (if not over
              then (s, still_active)
              else ban match_id v (last_of v.state.remaining_maps) true now next_expires_at s)
          else if not (player == captain v.state.captains v.state.acting_team)
          then (s, forbidden)
          else ban match_id v requested false now next_expires_at s
    ]

-- Delivering the server to the tickets of a settled veto.
unfoldable pub deliver : MatchAssignment → Ticket → Ticket
deliver a t = record t {
  queue = record (t.queue) { phase = assigned; players_found = 10 };
  ready_check = none;
  map_veto = none;
  assignment = some a;
}

unfoldable pub deliver_ticket : MatchAssignment → String → Store × ℕ → Store × ℕ
unfolding deliver
deliver_ticket a id (s, n) = elim (JsMap.get id s.tickets) [
  | none ↦ (s, n)
  | some t ↦
      if not (t.queue.phase == map_veto)
      then (s, n)
      else let t' = deliver a t in
        (
          publish t.member_player_ids (queue_updated t'.queue ∷ match_assigned a ∷ [])
              (record s { tickets = JsMap.set id t' s.tickets }),
          n + length t.member_player_ids,
        )
]

unfoldable pub deliver_all : MatchAssignment → List String → Store × ℕ → Store × ℕ
unfolding deliver_ticket
deliver_all a [] r = r
deliver_all a (id ∷ ids) r = deliver_all a ids (deliver_ticket a id r)

pub data Completed : Type 0 where
  no_veto mismatch : Completed
  delivered : ℕ → Completed

abbrev pub selects : Option String → String → Bool
selects none m = false
selects (some n) m = n == m

unfoldable pub complete_veto_script : String → MatchAssignment → Store → Store × Completed
unfolding deliver_all
complete_veto_script match_id a s = elim (JsMap.get match_id s.vetoes) [
  | none ↦ (s, no_veto)
  | some v ↦
      if is_active v.state.status || not (selects v.state.selected_map a.map_name)
      then (s, mismatch)
      else let (s1, n) = deliver_all a v.ticket_ids (s, 0) in
        (
          record s1 {
            vetoes = JsMap.delete match_id s1.vetoes;
            veto_deadlines = JsMap.delete match_id s1.veto_deadlines;
            veto_finalizations = JsMap.delete match_id s1.veto_finalizations;
          },
          delivered n,
        )
]
