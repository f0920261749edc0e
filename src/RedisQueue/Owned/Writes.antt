-- ===== src/RedisQueue/Owned/Writes.antt =====
-- Rewriting, deleting and filing a ticket.
use legacy_match_platform.Common.{
  ℕ, suc, String, true, false, none, some, includes, ◌==◌, String_eq, ◌≡◌, refl, sym, ◌∙◌, ap, inl,
  inr, arith, ◌⊎◌, ◌≢◌, Bool-cases, eq→≡, eq_iff, some_inj, subst,
}
use legacy_match_platform.Common.JsMap
use legacy_match_platform.Common.JsMap.{
  JsMap, get-set, get-delete, get-delete_ne, get-set_ne, get-set_self,
}
use legacy_match_platform.Contracts.{searching}
use legacy_match_platform.RedisQueue.{Ticket, release_pointers}
use legacy_match_platform.RedisQueue.Join.{point_to}
use legacy_match_platform.RedisQueue.Owned.{Owned, SameTicket, Placed}
use legacy_match_platform.RedisQueue.Owned.Pointers.{
  release_pointers-get, release_pointers-keeps, get-point_to,
}

-- What `get` finds after a write: the new ticket at its key, or an old one elsewhere.
pub get-set_cases :
    (id k : String) (t u : Ticket) (m : JsMap Ticket)
    → JsMap.get k (JsMap.set id t m) ≡ some u
    → ((id ≡ k) × (t ≡ u)) ⊎ (((id == k) ≡ false) × (JsMap.get k m ≡ some u))
get-set_cases id k t u m h = elim (Bool-cases (id == k)) [
  | inl e ↦ inl (eq→≡ id k e, ground (arith, get-set id k t m))
  | inr e ↦ inr (e, ground (arith, get-set id k t m))
]

pub get-delete-some :
    {V : Type 0} (id k : String) (x : V) (m : JsMap V)
    → JsMap.get k (JsMap.delete id m) ≡ some x
    → ((id == k) ≡ false) × (JsMap.get k m ≡ some x)
get-delete-some id k x m h = (ground (arith, get-delete id k m), ground (arith, get-delete id k m))

module _ {tickets : JsMap Ticket} {pointers : JsMap String} {fence : ℕ} {queue : JsMap ℕ}
    (v : Owned tickets pointers fence queue) (id : String) (t : Ticket)
    (here : JsMap.get id tickets ≡ some t) where
  -- The ticket that stood at a key before a rewrite.
  before :
      (u : Ticket)
      → SameTicket t u
      → (k : String) (x : Ticket) → JsMap.get k (JsMap.set id u tickets) ≡ some x
      → (y : Ticket) × (JsMap.get k tickets ≡ some y) × SameTicket y x
  before u same k x h = elim (get-set_cases id k u x tickets h) [
    | inl (e, f) ↦
        (t, subst (λ k. JsMap.get k tickets ≡ some t) e here, subst (λ z. SameTicket t z) f same)
    | inr (e, f) ↦ (x, f, record { id = refl; members = refl; token = refl })
  ]

  -- Rewriting a ticket, with the sorted set made to agree.
  pub Owned-rewrite :
      (u : Ticket) (queue' : JsMap ℕ)
      → SameTicket t u
      → Placed queue' id u
      → ((k : String) → (id == k) ≡ false → JsMap.get k queue' ≡ JsMap.get k queue)
      → Owned (JsMap.set id u tickets) pointers fence queue'
  Owned-rewrite u queue' same placed others = record {
    filed = λ k x h. let (y, hy, s) = before u same k x h in s.id ∙ v.filed k y hy;
    held = λ k m x h i. let (y, hy, s) = before u same k x h in v.held k m y hy (rw s.members at i);
    mine = λ k m x p h. let (y, hy, s) = before u same k x h in rw s.members (v.mine k m y p hy);
    fenced =
        λ k x h. let (y, hy, s) = before u same k x h in omega (arith, v.fenced k y hy, s.token);
    tokens = λ a b x y hx hy e.
        let (x', hx', sx) = before u same a x hx in
        let (y', hy', sy) = before u same b y hy in
        v.tokens a b x' y' hx' hy' (sym sx.token ∙ e ∙ sy.token);
    listed = λ k score q. elim (Bool-cases (id == k)) [
      | inl e ↦
          let same = eq→≡ id k e in
          let q' : JsMap.get id queue' ≡ some score = ap (λ k. JsMap.get k queue') same ∙ q in
          (
            u,
            ap (λ k. JsMap.get k (JsMap.set id u tickets)) (sym same) ∙ get-set_self id u tickets,
            placed.listed score q',
          )
      | inr e ↦
          let (y, hy, p) = v.listed k score (sym (others k e) ∙ q) in
          (y, get-set_ne id k u tickets e ∙ hy, p)
    ];
    queued = λ k x h p. elim (get-set_cases id k u x tickets h) [
      | inl (e, f) ↦
          subst (λ k. (score : ℕ) × (JsMap.get k queue' ≡ some score)) e (placed.queued (rw f p))
      | inr (e, f) ↦ let (score, q) = v.queued k x f p in (score, rw (others k e) q)
    ];
  }

  -- Deleting a ticket with its place in the queue and its members' pointers.
  pub Owned-delete :
      Owned
        (JsMap.delete id tickets)
        (release_pointers id t.member_player_ids pointers)
        fence
        (JsMap.delete id queue)
  Owned-delete = record {
    filed = λ k x h. v.filed k x (get-delete-some id k x tickets h).1;
    held = λ k m x h i.
        let (n, hx) = get-delete-some id k x tickets h in
        release_pointers-keeps id m k t.member_player_ids pointers (v.held k m x hx i)
          (ground (arith, eq_iff k id, eq_iff id k));
    mine = λ k m x p h.
        v.mine k m x (release_pointers-get id m k t.member_player_ids pointers p)
          (get-delete-some id k x tickets h).1;
    fenced = λ k x h. v.fenced k x (get-delete-some id k x tickets h).1;
    tokens = λ a b x y hx hy e.
        v.tokens a b x y (get-delete-some id a x tickets hx).1 (get-delete-some id b y tickets hy).1
          e;
    listed = λ k score q.
        let (n, q') = get-delete-some id k score queue q in
        let (y, hy, p) = v.listed k score q' in (y, get-delete_ne id k tickets n ∙ hy, p);
    queued = λ k x h p.
        let (n, hx) = get-delete-some id k x tickets h in
        let (score, q) = v.queued k x hx p in (score, get-delete_ne id k queue n ∙ q);
  }

-- Deleting the pointer of a player who holds no ticket.
pub Owned-unpoint :
    {tickets : JsMap Ticket} {pointers : JsMap String} {fence : ℕ} {queue : JsMap ℕ}
    → Owned tickets pointers fence queue
    → (player : String)
    → ((id : String) → JsMap.get player pointers ≡ some id → JsMap.get id tickets ≡ none)
    → Owned tickets (JsMap.delete player pointers) fence queue
Owned-unpoint {pointers} v player stale = record {
  filed = v.filed;
  held = λ id m t h i.
      let p = v.held id m t h i in
      elim (Bool-cases (player == m)) [
        | inl e ↦ let q = stale id (rw (eq→≡ player m e) p) in absurd (cc)
        | inr e ↦ get-delete_ne player m pointers e ∙ p
      ];
  mine = λ id m t p h. v.mine id m t (get-delete-some player m id pointers p).1 h;
  fenced = v.fenced;
  tokens = v.tokens;
  listed = v.listed;
  queued = v.queued;
}

-- Filing a ticket under a new identifier for players who hold none.
pub Owned-file :
    {tickets : JsMap Ticket} {pointers : JsMap String} {fence : ℕ} {queue : JsMap ℕ}
    → Owned tickets pointers fence queue
    → (t : Ticket) (score : ℕ) → JsMap.get t.id tickets ≡ none
    → ((m : String) → JsMap.get m pointers ≢ some t.id)
    → ((m id : String) (u : Ticket)
        → includes t.member_player_ids m ≡ true
        → JsMap.get m pointers ≡ some id
        → JsMap.get id tickets ≢ some u)
    → t.fencing_token ≡ suc fence
    → t.queue.phase ≡ searching
    → Owned
        (JsMap.set t.id t tickets)
        (point_to t.id t.member_player_ids pointers)
        (suc fence)
        (JsMap.set t.id score queue)
Owned-file {tickets} {pointers} {fence} {queue} v t score fresh unnamed free token phase = record {
  filed = λ k x h. elim (get-set_cases t.id k t x tickets h) [
    | inl (e, f) ↦ rw (← f) e
    | inr (e, f) ↦ v.filed k x f
  ];
  held = λ k m x h i. elim (get-set_cases t.id k t x tickets h) [
    | inl (e, f) ↦ ground (
      arith,
      get-point_to t.id m t.member_player_ids pointers,
      (subst (λ z. includes z.member_player_ids m ≡ true) (sym f) i),
    )
    | inr (e, f) ↦
        let p = v.held k m x f i in
        elim (Bool-cases (includes t.member_player_ids m)) [
          | inl j ↦ absurd (free m k x j p f)
          | inr j ↦ get-point_to t.id m t.member_player_ids pointers ∙ rw j p
        ]
  ];
  mine = λ k m x p h. elim (get-set_cases t.id k t x tickets h) [
    | inl (e, f) ↦
        subst (λ z. includes z.member_player_ids m ≡ true) f
          (elim (Bool-cases (includes t.member_player_ids m)) [
            | inl j ↦ j
            | inr j ↦ absurd (
                unnamed m (
                  sym (get-point_to t.id m t.member_player_ids pointers ∙ rw j)
                  ∙ p
                  ∙ ap some (sym e)))
          ])
    | inr (e, f) ↦ elim (Bool-cases (includes t.member_player_ids m)) [
      | inl j ↦
          let q : t.id ≡ k =
            some_inj (sym (get-point_to t.id m t.member_player_ids pointers ∙ rw j) ∙ p) in
          ground (arith, eq_iff t.id k)
      | inr j ↦ v.mine k m x (sym (get-point_to t.id m t.member_player_ids pointers ∙ rw j) ∙ p) f
    ]
  ];
  fenced = λ k x h. elim (get-set_cases t.id k t x tickets h) [
    | inl (e, f) ↦ rw (← f) (omega (arith, token))
    | inr (e, f) ↦ omega (arith, v.fenced k x f)
  ];
  tokens = λ a b x y hx hy e. elim (get-set_cases t.id a t x tickets hx) [
    | inl (ea, fa) ↦ elim (get-set_cases t.id b t y tickets hy) [
      | inl (eb, fb) ↦ sym ea ∙ eb
      | inr (eb, fb) ↦
          let le = v.fenced b y fb in
          let here : t.fencing_token ≡ y.fencing_token = ap (λ z. z.fencing_token) fa ∙ e in
          absurd (omega arith)
    ]
    | inr (ea, fa) ↦ elim (get-set_cases t.id b t y tickets hy) [
      | inl (eb, fb) ↦
          let le = v.fenced a x fa in
          let here : x.fencing_token ≡ t.fencing_token = e ∙ ap (λ z. z.fencing_token) (sym fb) in
          absurd (omega arith)
      | inr (eb, fb) ↦ v.tokens a b x y fa fb e
    ]
  ];
  listed = λ k sc q. elim (Bool-cases (t.id == k)) [
    | inl e ↦ (
      t,
      ap (λ k. JsMap.get k (JsMap.set t.id t tickets)) (sym (eq→≡ t.id k e))
          ∙ get-set_self t.id t tickets,
      phase,
    )
    | inr e ↦
        let (y, hy, p) = v.listed k sc (sym (get-set_ne t.id k score queue e) ∙ q) in
        (y, get-set_ne t.id k t tickets e ∙ hy, p)
  ];
  queued = λ k x h p. elim (get-set_cases t.id k t x tickets h) [
    | inl (e, f) ↦ (score, rw (← e) (get-set_self t.id score queue))
    | inr (e, f) ↦ let (sc, q) = v.queued k x f p in (sc, get-set_ne t.id k score queue e ∙ q)
  ];
}
