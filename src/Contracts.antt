-- ===== src/Contracts.antt =====
-- The types that the services and their clients exchange, packages/contracts/src/index.ts, and the
-- fixed lists of apps/api/src/catalog.ts. A time that the code writes as an ISO text is the number
-- of milliseconds that the text stands for.
use legacy_match_platform.Common.{
  ℕ, String, Bool, true, false, Option, none, some, List, [], ◌∷◌, Eq, ◌↔◌, ◌≡◌, arith,
}

pub data GameMode : Type 0 where
  competitive deathmatch : GameMode

pub data QueuePhase : Type 0 where
  idle searching ready_check map_veto assigned : QueuePhase

pub data Team : Type 0 where
  alpha bravo : Team

abbrev pub mode_eq : GameMode → GameMode → Bool
mode_eq competitive competitive = true
mode_eq deathmatch deathmatch = true
mode_eq _ _ = false

pub mode_eq_iff : (a b : GameMode) → (mode_eq a b ≡ true) ↔ (a ≡ b)
mode_eq_iff a b = ground arith

instance abbrev pub GameMode_eq : Eq GameMode
GameMode_eq = record { equals = mode_eq; equals_iff = mode_eq_iff }

abbrev pub phase_eq : QueuePhase → QueuePhase → Bool
phase_eq idle idle = true
phase_eq searching searching = true
phase_eq ready_check ready_check = true
phase_eq map_veto map_veto = true
phase_eq assigned assigned = true
phase_eq _ _ = false

pub phase_eq_iff : (a b : QueuePhase) → (phase_eq a b ≡ true) ↔ (a ≡ b)
phase_eq_iff a b = ground arith

instance abbrev pub QueuePhase_eq : Eq QueuePhase
QueuePhase_eq = record { equals = phase_eq; equals_iff = phase_eq_iff }

pub record QueueState : Type 0 where
  pub ticket_id : Option String
  pub mode : Option GameMode
  pub phase : QueuePhase
  pub joined_at : Option ℕ
  pub regions : List String
  pub maps : List String
  pub players_found : ℕ
  pub estimated_wait_seconds : ℕ
  pub rating_window : ℕ

-- `queue.mode ?? "competitive"`.
abbrev pub mode_or : Option GameMode → GameMode
mode_or none = competitive
mode_or (some m) = m

pub record ReadyCheck : Type 0 where
  pub mode : Option GameMode
  pub match_id : String
  pub expires_at : ℕ
  pub accepted_player_ids : List String
  pub total_players : ℕ
  pub map_name : String
  pub map_pool : List String
  pub region : String

pub record MapVetoBan : Type 0 where
  pub sequence : ℕ
  pub map_name : String
  pub team : Team
  pub captain_player_id : String
  pub automated : Bool
  pub created_at : ℕ

pub record Captains : Type 0 where
  pub of_alpha : String
  pub of_bravo : String

pub data VetoStatus : Type 0 where
  active allocating : VetoStatus

pub record MapVetoState : Type 0 where
  pub match_id : String
  pub region : String
  pub captains : Captains
  pub acting_team : Team
  pub remaining_maps : List String
  pub bans : List MapVetoBan
  pub status : VetoStatus
  pub selected_map : Option String
  pub expires_at : Option ℕ

pub record MatchAssignment : Type 0 where
  pub mode : Option GameMode
  pub match_id : String
  pub map_name : String
  pub region : String
  pub server_label : String
  pub address : String
  pub connect_url : String
  pub launcher_url : String
  pub human_players : Option ℕ
  pub bot_players : Option ℕ
  pub capacity : Option ℕ

pub data ServerEvent : Type 0 where
  queue_updated queue_cancelled : QueueState → ServerEvent
  match_found match_accepted : ReadyCheck → ServerEvent
  veto_updated : MapVetoState → ServerEvent
  match_assigned : MatchAssignment → ServerEvent

pub record JoinQueueRequest : Type 0 where
  pub player_id : String
  pub regions : List String
  pub maps : List String
  pub mode : Option GameMode

abbrev pub map_pool : List String
map_pool = "Mirage" ∷ "Inferno" ∷ "Nuke" ∷ "Overpass" ∷ "Vertigo" ∷ "Ancient" ∷ "Anubis" ∷ []

abbrev pub deathmatch_map : String
deathmatch_map = "Dust II"

abbrev pub known_regions : List String
known_regions = "NA Central" ∷ "NA East" ∷ "NA West" ∷ "EU Central" ∷ []

-- `idleQueue()` of apps/api/src/queue-service.ts.
abbrev pub idle_queue : QueueState
idle_queue = record {
  ticket_id = none;
  mode = some competitive;
  phase = idle;
  joined_at = none;
  regions = "NA Central" ∷ [];
  maps = map_pool;
  players_found = 0;
  estimated_wait_seconds = 0;
  rating_window = 50;
}
