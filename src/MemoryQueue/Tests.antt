-- ===== src/MemoryQueue/Tests.antt =====
-- The queue of a single process on a search that becomes a match.
use legacy_match_platform.Common.{ℕ, some, List, [], ◌∷◌, ◌≡◌, refl, arith, ok}
use legacy_match_platform.Common.JsMap
use legacy_match_platform.Contracts.{competitive, JoinQueueRequest}
use legacy_match_platform.MemoryQueue.{
  QueueService, QueueServiceOptions, Call, joins, match_due, accepts, run, runtime_for,
  create_ready_check, accept, in_match, prototype_server, ready_check_for, save, join,
}
use legacy_match_platform.MemoryQueue.Matches.{check, accept-create_ready_check}

abbrev options : QueueServiceOptions
options = record { auto_match_delay_ms = some 2400; ready_check_seconds = 20 }

abbrev request : JoinQueueRequest
request = record {
  player_id = "p";
  regions = "NA East" ∷ [];
  maps = "Nuke" ∷ [];
  mode = some competitive;
}

abbrev empty : QueueService
empty = record { options = options; runtimes = []; published = [] }

abbrev calls : List (Call × ℕ)
calls = (joins request "t1", 1000) ∷ (match_due "p" "m1", 3400) ∷ (accepts "p" "m1", 5000) ∷ []

abbrev searching_p : QueueService
searching_p = run ((joins request "t1", 1000) ∷ []) empty

accept-create_ready_check_example :
    (accept "p" "m1" 5000 (create_ready_check "p" "m1" 3400 searching_p)).1
    ≡ ok (in_match (prototype_server "m1" (check "p" "m1" 3400 searching_p)))
unfolding run runtime_for join save ready_check_for JsMap.get JsMap.set
accept-create_ready_check_example =
    accept-create_ready_check "p" "m1" 3400 5000 searching_p refl refl (omega arith)
