-- ===== src/Lib.antt =====
-- The verification library of the match platform: the queue, the parties and the progression of
-- players as the TypeScript services of the repository implement them.
--
-- The program. Players search for a match in the queue. In production the queue lives in Redis and
-- nearly every change of it is one of ten Lua scripts (apps/api/src/redis-queue-service.ts);
-- without Redis one process holds it (apps/api/src/queue-service.ts). Parties
-- (apps/api/src/party-service.ts, or apps/api/src/redis-party-service.ts with Redis) queue
-- together. The matchmaker opens ready checks over the tickets of the queue; accepted checks go on
-- to a map veto or a server. After a match, players earn experience
-- (packages/db/src/services/progression.ts) and a rank (packages/rating/src/ranks.ts).
--
-- The files.
--   Common: shared names, Boolean tests, lists, results, and JavaScript's Map as a list of entries.
--   Contracts: the types of packages/contracts/src/index.ts, the lists of apps/api/src/catalog.ts.
--   RedisQueue: the store, one map for each kind of key. Its children Join, Leave, Ready, Accept,
--     Veto, Cancel and Deathmatch hold the scripts, each a function from the store to the store and
--     the reply (JOIN_SCRIPT is join_script, ACCEPT_SCRIPT is accept_script, and so on); Calls holds
--     the methods that run them for a player or the sweeper. Owned states the queue's invariant and
--     its children are about it under each script and, in History, under sequences of scripts;
--     Requests is about it under the methods. Behaviour, Bans, Turns, Penalties, Plans, Expiry and
--     Once are about single scripts and sweeps; Deadlines, Sweeping and Sweeps about the sweep over
--     map vetoes.
--   MemoryQueue: the queue of one process; Phases, Matches. A timer is the handle that its runtime
--     keeps: clearing the handle is cancelling the timer.
--   Party: the party service, one function for each method; Members, Invariant, Writes,
--     Preservation, Behaviour.
--   RedisParty: the party service that keeps its parties in Redis
--     (apps/api/src/redis-party-service.ts), its six scripts and its methods; Simulation,
--     Methods, Invites, Departure and History set it beside Party; Queued is about parties in the
--     queue.
--   Matchmaker: the matchmaker (apps/api/src/matchmaker.ts). Teams is chooseTeams, Evaluate the
--     evaluation of chosen tickets, Search is findMatch, Run is runOnceUnlocked, which reads the
--     queue's tickets and opens a ready check by RedisQueue.Ready. Lists, Splits, Fair, Oldest,
--     Sources, Proposals and Invariant are about them.
--   Settlement: the experience that the settlement of a match awards (settleMatch of
--     packages/db/src/services/settle-match.ts). Receipts: the agent's check of what a settlement
--     awarded (validatedProgression of apps/node-agent/src/event-pump.ts); Progress sets it beside
--     Progression. Awards and Accepted are about the two together, Again is about a match that is
--     settled twice.
--   Counters: the agent's merge of committed kill counters (acceptCounterReceipt of
--     apps/node-agent/src/counter-receipt.ts); Merging and Committed are about it.
--   Medals: the sequence of service medals (packages/db/src/services/service-medals.ts); Order.
--   Progression: experience and levels; Totals. Rank: the ranks; Bounds.
--   The Tests modules run the theorems on small inputs.
--
-- How the code is translated. State is passed explicitly: a method or script takes the store and
-- returns it with its answer, errors being values; what was written before an error stays written.
-- Redis runs one command or script at a time; interleavings are sequences of those. Where a method
-- of the durable queue awaits several commands for a player, what other clients do between them is
-- an argument of the model; the in-memory services run a method to its end. The clock's reading and
-- drawn identifiers are arguments. A time is a number of milliseconds, also where the code writes
-- an ISO text; a key with a time to live carries the moment at which it lapses; what is published
-- is appended to a list. A Lua table used as a set, and a JavaScript Set, are lists. Numbers are
-- natural numbers: the code's are small integers, far below 2 ^ 53. Whether a party identifier is
-- that of a Steam lobby is a parameter, since the code asks a regular expression or a prefix.
--
-- Loops are structural recursion over lists, but for the level loop of advanceProfile and its copy
-- in the agent, which run on 40 rounds: each round raises the level, which starts at 1 or more and
-- stops at 40, so that is enough, and the theorem on totals shows that no experience is left over.
--
-- Numbers that need not be whole (ratings, pings, scores) belong to an abstract type with the
-- operations of Common.Doubles; a theorem that compares them takes the laws of IEEE 754 that it
-- needs, and the tests use whole numbers. The order of localeCompare, the order in which Redis
-- lists a sorted set, and the callbacks of the matchmaker are parameters; so are the agent's
-- regular expressions, signatures and checksums, and the identifiers that the database draws. The
-- search for teams and matches is structural recursion over the tickets that are left; what the
-- code cuts off is cut off.
--
-- Not modelled: a timer of the in-memory queue whose handle is lost; ratings, which compute in
-- floating point; the services that are SQL transactions (ingestion, inventory, trading, node
-- control), of settlement the ratings of a competitive match and the items behind a drop; of the
-- agent on the game servers all but the checks of receipts; HTTP routes, sockets, user interfaces
-- and the launcher; Redis locks, presence counters, the decoding of stored JSON and the four-hour
-- life of a Deathmatch player set; the bootstrap answer and the subscriptions of the in-memory
-- queue; the fraction `progress` of a rank; and the database part of the conversion of experience.
pub mod Common
pub mod Contracts
pub mod Matchmaker
pub mod MemoryQueue
pub mod Party
pub mod Progression
pub mod Rank
pub mod Counters
pub mod Medals
pub mod Receipts
pub mod RedisParty
pub mod RedisQueue
pub mod Settlement
