-- ===== src/RedisQueue/Owned/History.antt =====
-- Histories of scripts. Redis runs one script at a time, so the
-- interleavings of the API's processes are the sequences of scripts.
use legacy_match_platform.Common.{
  ℕ, String, Bool, false, Option, some, List, [], ◌∷◌, ◌≡◌, includes, String_eq, inl, inr,
}
use legacy_match_platform.Common.JsMap
use legacy_match_platform.Contracts.{searching, MatchAssignment}
use legacy_match_platform.RedisQueue.{Store, Ticket, ReadyRecord, CancelMode, empty_store}
use legacy_match_platform.RedisQueue.Join.{VerifiedParty, join_script}
use legacy_match_platform.RedisQueue.Leave.{LeaveGuard, leave_script}
use legacy_match_platform.RedisQueue.Ready.{Claim, create_ready_script}
use legacy_match_platform.RedisQueue.Accept.{accept_script}
use legacy_match_platform.RedisQueue.Veto.{BanMode, ban_script, complete_veto_script}
use legacy_match_platform.RedisQueue.Cancel.{cancel_script, acknowledge}
use legacy_match_platform.RedisQueue.Deathmatch.{assign_script, complete_script, reassign_script}
use legacy_match_platform.RedisQueue.Owned.Entering.{
  IsFresh, join_script-Consistent, join_script-Grows,
}
use legacy_match_platform.RedisQueue.Owned.Sound.{Sound}
use legacy_match_platform.RedisQueue.Owned.Ending.{
  leave_script-Sound, cancel_script-Sound, complete_script-Sound,
}
use legacy_match_platform.RedisQueue.Owned.Matching.{create_ready_script-Sound, claim_ids}
use legacy_match_platform.RedisQueue.Owned.Accepting.{accept_script-Sound}
use legacy_match_platform.RedisQueue.Owned.Playing.{
  ban_script-Sound, complete_veto_script-Sound, assign_script-Sound, reassign_script-Sound,
}

-- A script with its arguments.
pub data Script : Type 0 where
  joins : Ticket → Option VerifiedParty → (now joined_at : ℕ) → String → Script
  leaves : String → LeaveGuard → Script
  opens : List Claim → ReadyRecord → Script
  accepts : (player match_id : String) → (now at : ℕ) → Script
  bans : (match_id player requested : String) → BanMode → (now next : ℕ) → Script
  completes_veto : String → MatchAssignment → Script
  cancels : (match_id requester : String) → ℕ → CancelMode → Script
  acknowledges : String → Script
  assigns : String → ℕ → MatchAssignment → Script
  completes : String → Script
  reassigns : String → MatchAssignment → List String → Script

module _ (is_lobby : String → Bool) where
  unfoldable pub execute : Script → Store → Store
  unfolding join_script leave_script create_ready_script accept_script ban_script
      complete_veto_script cancel_script acknowledge assign_script complete_script reassign_script
  execute (joins t verified now joined_at requester) s =
      (join_script t verified now joined_at requester s).0
  execute (leaves requester guard) s = (leave_script requester guard s).0
  execute (opens claims r) s = (create_ready_script claims r s).0
  execute (accepts player match_id now at) s = (accept_script player match_id now at s).0
  execute (bans match_id player requested mode now next) s =
      (ban_script match_id player requested mode now next s).0
  execute (completes_veto match_id a) s = (complete_veto_script match_id a s).0
  execute (cancels match_id requester now mode) s =
      (cancel_script is_lobby match_id requester now mode s).0
  execute (acknowledges match_id) s = acknowledge match_id s
  execute (assigns id token a) s = (assign_script id token a s).0
  execute (completes match_id) s = (complete_script match_id s).0
  execute (reassigns old a ps) s =
      (reassign_script old a ps [] (record { store = s; players = 0; tickets = 0 })).store

  unfoldable pub execute_all : List Script → Store → Store
  unfolding execute
  execute_all [] s = s
  execute_all (c ∷ cs) s = execute_all cs (execute c s)

-- No open ready check lists the identifier of a new ticket.
abbrev pub Unlisted : Store → String → Type 0
Unlisted s id =
    (match_id : String) (r : ReadyRecord)
    → JsMap.get match_id s.ready ≡ some r
    → includes r.ticket_ids id ≡ false

-- What a script is run with: a new ticket is searching, under an identifier that nothing in the
-- store names; a ready check is opened over the tickets that it claims.
abbrev pub Allowed : Script → Store → Type 0
Allowed (joins t verified now joined_at requester) s =
    IsFresh s t.id × Unlisted s t.id × (t.queue.phase ≡ searching)
Allowed (opens claims r) s = r.ticket_ids ≡ claim_ids claims
Allowed _ s = Unit

pub join_script-Sound :
    (t : Ticket) (verified : Option VerifiedParty) (now joined_at : ℕ) (requester : String)
    (s : Store)
    → Sound s
    → Allowed (joins t verified now joined_at requester) s
    → Sound (join_script t verified now joined_at requester s).0
join_script-Sound t verified now joined_at requester s v (fresh, unlisted, phase) =
    let g = join_script-Grows t verified now joined_at requester s v.owned in
    record {
      owned = join_script-Consistent t verified now joined_at requester s v.owned fresh phase;
      settled = λ match_id id r u hr i h.
          let hr' = rw g.ready at hr in
          elim (g.tickets id u h) [
            | inl old ↦ v.settled match_id id r u hr' i old
            | inr new ↦ let out = unlisted match_id r hr' in let listed = rw new at i in absurd (cc)
          ];
    }

module _ (is_lobby : String → Bool) where
  abbrev pub AllAllowed : List Script → Store → Type 0
  AllAllowed [] s = Unit
  AllAllowed (c ∷ cs) s = Allowed c s × AllAllowed cs (execute is_lobby c s)

  execute-Sound : (c : Script) (s : Store) → Sound s → Allowed c s → Sound (execute is_lobby c s)
  unfolding execute acknowledge
  execute-Sound (joins t verified now joined_at requester) s v a =
      join_script-Sound t verified now joined_at requester s v a
  execute-Sound (leaves requester guard) s v a = leave_script-Sound requester guard s v
  execute-Sound (opens claims r) s v a = create_ready_script-Sound claims r s v a
  execute-Sound (accepts player match_id now at) s v a =
      accept_script-Sound player match_id now at s v
  execute-Sound (bans match_id player requested mode now next) s v a =
      ban_script-Sound match_id player requested mode now next s v
  execute-Sound (completes_veto match_id m) s v a = complete_veto_script-Sound match_id m s v
  execute-Sound (cancels match_id requester now mode) s v a =
      cancel_script-Sound is_lobby match_id requester now mode s v
  execute-Sound (acknowledges match_id) s v a = record { owned = v.owned; settled = v.settled }
  execute-Sound (assigns id token m) s v a = assign_script-Sound id token m s v
  execute-Sound (completes match_id) s v a = complete_script-Sound match_id s v
  execute-Sound (reassigns old m ps) s v a = reassign_script-Sound old m ps [] _ v

  pub execute_all-Sound :
      (cs : List Script) (s : Store) → Sound s → AllAllowed cs s → Sound (execute_all is_lobby cs s)
  unfolding execute_all
  execute_all-Sound [] s v a = v
  execute_all-Sound (c ∷ cs) s v a =
      execute_all-Sound cs (execute is_lobby c s) (execute-Sound c s v a.0) a.1

pub empty_store-Sound : Sound empty_store
unfolding JsMap.get
empty_store-Sound = record {
  owned = record {
    filed = λ id t h. cc;
    held = λ id m t h. cc;
    mine = λ id m t h. cc;
    fenced = λ id t h. cc;
    tokens = λ a b t u h. cc;
    listed = λ id score h. absurd cc;
    queued = λ id t h. cc;
  };
  settled = λ match_id id r t h. cc;
}

-- After any history of scripts from the empty store, where each join brings a searching ticket
-- under a fresh identifier and each ready check is opened over the tickets that it claims: the
-- members of a ticket all point to it, so nobody is on two tickets, and whoever points to a ticket
-- is on it; tickets are filed under their identifiers, with fencing tokens that are distinct and not
-- above the fence; the sorted set of the queue lists exactly the searching tickets; and no ticket of
-- an open ready check is searching.
pub execute_all-empty :
    (is_lobby : String → Bool) (cs : List Script)
    → AllAllowed is_lobby cs empty_store
    → Sound (execute_all is_lobby cs empty_store)
execute_all-empty is_lobby cs a = execute_all-Sound is_lobby cs empty_store empty_store-Sound a
