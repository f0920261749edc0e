-- ===== src/MemoryQueue/Phases.antt =====
-- What a player's runtime may hold in each phase of the queue.
use legacy_match_platform.Common.{ℕ, ◌<◌, String, none, some, String_eq, ℕ_eq, ◌≡◌, ◌≢◌}
use legacy_match_platform.Common.JsMap
use legacy_match_platform.Common.JsMap.{JsMap, get-set_self}
use legacy_match_platform.Contracts.{
  idle, searching, ready_check, assigned, QueuePhase_eq, ReadyCheck,
}
use legacy_match_platform.MemoryQueue.{PlayerRuntime, QueueService}

-- In which phase a runtime is, by what it holds.
pub data IsRuntime (r : PlayerRuntime) : Type 0 where
  is_idle :
      r.queue.phase ≡ idle
      → r.ready_check ≡ none
      → r.assignment ≡ none
      → r.match_timer ≡ none
      → r.expiry_timer ≡ none
      → IsRuntime r
  is_searching :
      r.queue.phase ≡ searching
      → r.ready_check ≡ none
      → r.assignment ≡ none
      → r.expiry_timer ≡ none
      → IsRuntime r
  is_called :
      (c : ReadyCheck) (at : ℕ)
      → r.queue.phase ≡ ready_check
      → r.ready_check ≡ some c
      → r.assignment ≡ none
      → r.match_timer ≡ none
      → r.expiry_timer ≡ some at
      → c.expires_at < at
      → IsRuntime r
  is_assigned :
      r.queue.phase ≡ assigned
      → r.ready_check ≡ none
      → r.assignment ≢ none
      → r.match_timer ≡ none
      → r.expiry_timer ≡ none
      → IsRuntime r

-- Every stored runtime is well formed.
pub record IsService (s : QueueService) : Type 0 where
  pub each :
      (player : String) (r : PlayerRuntime) → JsMap.get player s.runtimes ≡ some r → IsRuntime r
