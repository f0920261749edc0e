-- ===== src/RedisParty/History.antt =====
-- Histories of calls of the durable party service and of the one in memory.
use legacy_match_platform.Common.{
  ℕ, ◌*◌, ◌≤◌, String, Option, none, List, [], ◌∷◌, ◌≡◌, refl, ap, Result, ok, err,
}
use legacy_match_platform.Common.JsMap
use legacy_match_platform.Common.JsMap.{JsMap}
use legacy_match_platform.Party
use legacy_match_platform.Party.{
  PartyState, PartyInvite, PartyError, PartyService, Call, creates, lists_invites, invites, accepts,
  sets_ready, transfers, leaves, expire_invites,
}
use legacy_match_platform.Party.Invariant.{Inv}
use legacy_match_platform.Party.Preservation.{FreshHistory, step-Inv, empty-Inv}
use legacy_match_platform.RedisParty.{
  Store, live_invite, create, invite, accept_invite, set_ready, transfer_leader, leave,
  list_invites,
}
use legacy_match_platform.RedisParty.Simulation.{Extras, durable, Agrees, Agrees-expire}
use legacy_match_platform.RedisParty.Methods.{
  status, Simulates, set_ready-Simulates, transfer_leader-Simulates, create-Simulates,
}
use legacy_match_platform.RedisParty.Invites.{invite-Simulates, accept_invite-Simulates}
use legacy_match_platform.RedisParty.Departure.{leave-Simulates}

-- What a caller sees; the wording of an error is left out, and so is a list of invitations, which
-- the two services order differently.
pub data Answer : Type 0 where
  party : PartyState → Answer
  invited : PartyInvite → Answer
  left : Option PartyState → Answer
  refused : ℕ → Answer
  listed : Answer

abbrev of_status : {A : Type 0} → (A → Answer) → Result ℕ A → Answer
of_status f (ok a) = f a
of_status f (err n) = refused n

unfoldable answer : PartyService → Call → Answer
answer s (creates player id now) = of_status party (status (Party.create s player id now).1)
answer s (lists_invites player now) = listed
answer s (invites player other id now) =
    of_status invited (status (Party.invite s player other id now).1)
answer s (accepts player invite_id now) =
    of_status party (status (Party.accept_invite s player invite_id now).1)
answer s (sets_ready player ready) = of_status party (status (Party.set_ready s player ready).1)
answer s (transfers player next) = of_status party (status (Party.transfer_leader s player next).1)
answer s (leaves player) = of_status left (status (Party.leave s player).1)

unfoldable pub answers : PartyService → List Call → List Answer
unfolding answer
answers s [] = []
answers s (c ∷ cs) = answer s c ∷ answers (Party.step s c) cs

-- The same of the durable service; an invitation stands for five minutes.
module _ (z_range : JsMap ℕ → List String) where
  abbrev perform : {A : Type 0} → (A → Answer) → Store × Result PartyError A → Store × Answer
  perform f (d, r) = (d, of_status f (status r))

  unfoldable pub stored_step : Store → Call → Store × Answer
  unfolding create invite accept_invite set_ready transfer_leader leave list_invites
  stored_step d (creates player id now) = let r = create player id now d in (r.0, party r.1)
  stored_step d (lists_invites player now) = ((list_invites z_range player now d).0, listed)
  stored_step d (invites player other id now) =
      perform invited (invite (5 * 60000) player other id now d)
  stored_step d (accepts player invite_id now) =
      perform party (accept_invite player invite_id now d)
  stored_step d (sets_ready player ready) = perform party (set_ready player ready d)
  stored_step d (transfers player next) = perform party (transfer_leader player next d)
  stored_step d (leaves player) = perform left (leave player d)

  unfoldable pub stored_run : Store → List Call → Store
  unfolding stored_step
  stored_run d [] = d
  stored_run d (c ∷ cs) = stored_run (stored_step d c).0 cs

  unfoldable pub stored_answers : Store → List Call → List Answer
  unfolding stored_step
  stored_answers d [] = []
  stored_answers d (c ∷ cs) = (stored_step d c).1 ∷ stored_answers (stored_step d c).0 cs

-- The clock when a call is made.
abbrev time : ℕ → Call → ℕ
time t (creates player id now) = t
time t (lists_invites player now) = now
time t (invites player other id now) = now
time t (accepts player invite_id now) = now
time t (sets_ready player ready) = t
time t (transfers player next) = t
time t (leaves player) = t

-- The clock does not run backwards.
abbrev pub IsTimely : ℕ → List Call → Type 0
IsTimely t [] = Unit
IsTimely t (c ∷ cs) = (t ≤ time t c) × IsTimely (time t c) cs

abbrev FreshInvite : PartyService → Call → Type 0
FreshInvite s (invites player other id now) = JsMap.get id s.invites ≡ none
FreshInvite s _ = Unit

-- The identifiers drawn for invitations are fresh.
abbrev pub FreshInvites : PartyService → List Call → Type 0
FreshInvites s [] = Unit
FreshInvites s (c ∷ cs) = FreshInvite s c × FreshInvites (Party.step s c) cs

-- A step of the durable service that does what a step in memory does.
record Follows (t : ℕ) (s : PartyService) (a : Answer) (d : Store × Answer) : Type 0 where
  pub extras : Extras
  pub after : d.0 ≡ durable s extras
  pub agrees : Agrees t s extras
  pub same : d.1 ≡ a

Simulates-Follows :
    {A : Type 0} (z_range : JsMap ℕ → List String) (t : ℕ) (f : A → Answer)
    (m : PartyService × Result PartyError A) (d : Store × Result PartyError A)
    → Simulates t m d
    → Follows t m.0 (of_status f (status m.1)) (perform z_range f d)
Simulates-Follows z_range t f m d h = record {
  extras = h.extras;
  after = h.after;
  agrees = h.agrees;
  same = ap (of_status f) h.same;
}

step-Follows :
    (z_range : JsMap ℕ → List String) (t : ℕ) (s : PartyService) (x : Extras) (c : Call)
    → Inv s
    → Agrees t s x
    → t ≤ time t c
    → FreshInvite s c
    → Follows (time t c) (Party.step s c) (answer s c) (stored_step z_range (durable s x) c)
unfolding answer stored_step Party.step Party.list_invites list_invites
step-Follows z t s x (creates player id now) v a g f =
    Simulates-Follows z t party _ _ (create-Simulates t s x v a player id now)
step-Follows z t s x (lists_invites player now) v a g f = record {
  extras = record {
    invites = x.invites;
    indexes = (list_invites z player now (durable s x)).0.indexes;
  };
  after = refl;
  agrees = record { same = (Agrees-expire t now s x g a).same };
  same = refl;
}
step-Follows z t s x (invites player other id now) v a g f =
    Simulates-Follows z now invited _ _ (invite-Simulates t s x v a player other id now g f)
step-Follows z t s x (accepts player invite_id now) v a g f =
    Simulates-Follows z now party _ _ (accept_invite-Simulates t s x v a player invite_id now g)
step-Follows z t s x (sets_ready player ready) v a g f =
    Simulates-Follows z t party _ _ (set_ready-Simulates t s x v a player ready)
step-Follows z t s x (transfers player next) v a g f =
    Simulates-Follows z t party _ _ (transfer_leader-Simulates t s x v a player next)
step-Follows z t s x (leaves player) v a g f =
    Simulates-Follows z t left _ _ (leave-Simulates t s x v a player)

history-Follows :
    (z_range : JsMap ℕ → List String) (t : ℕ) (s : PartyService) (x : Extras) (cs : List Call)
    → Inv s
    → Agrees t s x
    → IsTimely t cs
    → FreshHistory s cs
    → FreshInvites s cs
    → ((stored_answers z_range (durable s x) cs ≡ answers s cs)
        × ((stored_run z_range (durable s x) cs).parties ≡ (Party.run s cs).parties)
        × ((stored_run z_range (durable s x) cs).pointers ≡ (Party.run s cs).party_by_player))
unfolding stored_answers stored_run answers Party.run
history-Follows z t s x [] v a g f h = (refl, refl, refl)
history-Follows z t s x (c ∷ cs) v a g f h =
    let r = step-Follows z t s x c v a g.0 h.0 in
    let rest =
      history-Follows z (time t c) (Party.step s c) r.extras cs (step-Inv s c v f.0) r.agrees g.1
        f.1 h.1 in
    (
      rw (r.after, r.same, rest.0) refl,
      rw (r.after, stored_run) rest.1,
      rw (r.after, stored_run) rest.2,
    )

-- The store before the first call.
abbrev pub nothing_stored : Store
nothing_stored = record { parties = []; pointers = []; invites = []; indexes = []; tickets = [] }

-- For any history of calls of the party methods with fresh identifiers and a clock that does not run
-- backwards, while no party is queued: from an empty store the durable service gives the answers of
-- the service in memory, with the same status for each error, and ends with the same parties and
-- the same index by player. The contents of listed invitations are not compared.
pub durable-refines-memory :
    (z_range : JsMap ℕ → List String) (cs : List Call)
    → IsTimely 0 cs
    → FreshHistory Party.empty cs
    → FreshInvites Party.empty cs
    → ((stored_answers z_range nothing_stored cs ≡ answers Party.empty cs)
        × ((stored_run z_range nothing_stored cs).parties ≡ (Party.run Party.empty cs).parties)
        × ((stored_run z_range nothing_stored cs).pointers
            ≡ (Party.run Party.empty cs).party_by_player))
unfolding JsMap.get Party.expire live_invite
durable-refines-memory z cs g f h =
    history-Follows z 0 Party.empty (record { invites = []; indexes = [] }) cs empty-Inv
      (record { same = λ now id _. refl }) g f h
