-- ===== src/RedisQueue/Plans.antt =====
-- What `createReadyCheck` hands to its script.
use legacy_match_platform.Common.{
  includes-append, ok_inj, ℕ, String, true, false, not, ◌&&◌, none, some, List, [], ◌∷◌, ◌++◌, ◌||◌,
  ◌+◌, ◌∙◌, arith, length, map, any, includes, ◌==◌, String_eq, ℕ_eq, ◌≡◌, refl, ap, inl, inr,
  Bool-cases, eq→≡, ok,
}
use legacy_match_platform.Contracts.{GameMode_eq, deathmatch, mode_or}
use legacy_match_platform.RedisQueue.{Store, Ticket, ReadyRecord}
use legacy_match_platform.RedisQueue.Ready.{
  Claim, Plan, prepare_ready, create_ready_script, match_size, player_count, all_members, claims_of,
  unique, exactly_one, is_some,
}
use legacy_match_platform.RedisQueue.Owned.Sound.{Sound}
use legacy_match_platform.RedisQueue.Owned.Matching.{create_ready_script-Sound, claim_ids}

-- A prepared ready check.
pub record Prepared (p : Plan) (claims : List Claim) (r : ReadyRecord) : Type 0 where
  -- Each ticket of the plan is claimed, in order, under its identifier and with its token.
  pub claimed :
      map {B = String × ℕ} (λ (c : Claim). (c.id, c.fencing_token)) claims
      ≡ map {B = String × ℕ} (λ (t : Ticket). (t.id, t.fencing_token)) p.tickets
  -- The players of the check are exactly the members of the plan's tickets.
  pub players :
      (m : String)
      → includes r.member_player_ids m
        ≡ any (λ (t : Ticket). includes t.member_player_ids m) p.tickets
  pub full : length r.member_player_ids ≡ r.check.total_players
  pub listed : r.ticket_ids ≡ claim_ids claims
  pub sized : r.check.total_players ≡ match_size (mode_or p.mode)
  pub counted : player_count p.tickets ≡ r.check.total_players
  pub pooled : includes r.check.map_pool r.check.map_name ≡ true
  pub alike : any (λ (t : Ticket). not (mode_or t.queue.mode == mode_or p.mode)) p.tickets ≡ false

claim_ids-claims_of : (ts : List Ticket) → map (λ (t : Ticket). t.id) ts ≡ claim_ids (claims_of ts)
claim_ids-claims_of [] = refl
claim_ids-claims_of (t ∷ ts) = ap (λ ids. t.id ∷ ids) (claim_ids-claims_of ts)

claims_of-claimed :
    (ts : List Ticket)
    → map {B = String × ℕ} (λ (c : Claim). (c.id, c.fencing_token)) (claims_of ts)
      ≡ map {B = String × ℕ} (λ (t : Ticket). (t.id, t.fencing_token)) ts
claims_of-claimed [] = refl
claims_of-claimed (t ∷ ts) = ap (λ cs. (t.id, t.fencing_token) ∷ cs) (claims_of-claimed ts)

includes-all_members :
    (m : String) (ts : List Ticket)
    → includes (all_members ts) m ≡ any (λ (t : Ticket). includes t.member_player_ids m) ts
unfolding all_members
includes-all_members m [] = refl
includes-all_members m (t ∷ ts) =
    includes-append m t.member_player_ids (all_members ts)
    ∙ ap (λ b. includes t.member_player_ids m || b) (includes-all_members m ts)

length-append : (xs ys : List String) → length (xs ++ ys) ≡ length xs + length ys
length-append [] ys = omega arith
length-append (x ∷ xs) ys = ground (arith, length-append xs ys)

length-all_members : (ts : List Ticket) → length (all_members ts) ≡ player_count ts
unfolding all_members player_count
length-all_members [] = refl
length-all_members (t ∷ ts) =
    length-append t.member_player_ids (all_members ts)
    ∙ ap (λ n. length t.member_player_ids + n) (length-all_members ts)

-- The maps of a plan, each once.
abbrev pool : Plan → List String
pool p = unique (elim p.map_pool [ none ↦ p.map_name ∷ [] | some ms ↦ ms ])

-- When `prepare_ready` accepts a plan: it claims each ticket of the plan under its identifier and
-- fencing token, and the ready check lists the claimed tickets; its players are exactly the members
-- of those tickets, and as many as the mode takes; all the tickets are of the plan's mode, and the map
-- is of the check's pool.
pub prepare_ready-Prepared :
    (p : Plan) (now : ℕ) (claims : List Claim) (r : ReadyRecord)
    → prepare_ready p now ≡ ok (claims, r)
    → Prepared p claims r
unfolding prepare_ready
prepare_ready-Prepared p now claims r h = elim (Bool-cases (exactly_one p.assignment p.veto)) [
  | inr e ↦ absurd (let k = rw (e, prepare_ready) at h in cc)
  | inl e ↦ elim (Bool-cases (includes (pool p) p.map_name)) [
    | inr f ↦ absurd (let k = rw (e, f, prepare_ready) at h in cc)
    | inl f ↦
        elim (Bool-cases
          (any (λ (t : Ticket). not (mode_or t.queue.mode == mode_or p.mode)) p.tickets)) [
            | inl a ↦ absurd (let k = rw (e, f, a, prepare_ready) at h in cc)
            | inr a ↦ elim (Bool-cases (mode_or p.mode == deathmatch && is_some p.veto)) [
              | inl d ↦ absurd (let k = rw (e, f, a, d, prepare_ready) at h in cc)
              | inr d ↦ elim (Bool-cases (player_count p.tickets == match_size (mode_or p.mode))) [
                | inr n ↦ absurd (let k = rw (e, f, a, d, n, prepare_ready) at h in cc)
                | inl n ↦
                    let k = ok_inj (rw (e, f, a, d, n, prepare_ready) at h) in
                    let size = eq→≡ (player_count p.tickets) (match_size (mode_or p.mode)) n in
                    rw (← ap (λ x. x.0) k, ← ap (λ x. x.1) k)
                      (record {
                        claimed = claims_of-claimed p.tickets;
                        players = λ m. includes-all_members m p.tickets;
                        full = length-all_members p.tickets;
                        listed = claim_ids-claims_of p.tickets;
                        sized = size;
                        counted = refl;
                        pooled = f;
                        alike = a;
                      })
              ]
            ]
          ]
  ]
]

-- Opening a prepared ready check keeps the queue's invariant, whatever has become of the tickets
-- since the plan was made.
pub create_ready_script-prepared :
    (p : Plan) (now : ℕ) (claims : List Claim) (r : ReadyRecord) (s : Store)
    → prepare_ready p now ≡ ok (claims, r)
    → Sound s
    → Sound (create_ready_script claims r s).0
create_ready_script-prepared p now claims r s h v =
    create_ready_script-Sound claims r s v (prepare_ready-Prepared p now claims r h).listed
