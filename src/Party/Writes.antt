-- ===== src/Party/Writes.antt =====
-- The four ways in which the party service (apps/api/src/party-service.ts) writes to its maps.
use legacy_match_platform.Common.{
  ℕ, suc, ◌+◌, ◌≤◌, String, true, false, none, some, [], ◌∷◌, ◌++◌, length, length-append, includes,
  ◌==◌, String_eq, ◌≡◌, refl, sym, ◌∙◌, ap, inl, inr, arith, Bool-cases, eq→≡, eq_iff, some_inj,
}
use legacy_match_platform.Common.JsMap
use legacy_match_platform.Common.JsMap.{JsMap, get-set, get-delete, has-eq-false}
use legacy_match_platform.Party.{
  PartyService, PartyState, Member, PartyInvite, is_member, player_ids, remove_first,
}
use legacy_match_platform.Party.Members.{
  includes-remove_first, distinct-remove_first, length-remove_first, includes-push, distinct-push,
}
use legacy_match_platform.Party.Invariant.{Inv, Inv-write}

-- The identifier that `create` draws is not empty and names no party.
abbrev pub IsFresh : PartyService → String → Type 0
IsFresh s id = ((id == "") ≡ false) × (JsMap.get id s.parties ≡ none)

-- The party of one that a player without a party founds.
pub Inv-found :
    (s : PartyService) (player id : String) (now : ℕ)
    → Inv s
    → IsFresh s id
    → JsMap.get player s.party_by_player ≡ none
    → let q : PartyState = record {
      id = id;
      leader_player_id = player;
      members = record { player_id = player; ready = true; joined_at = now } ∷ [];
      created_at = now;
      version = 1;
    } in
      Inv (record s {
        parties = JsMap.set id q s.parties;
        party_by_player = JsMap.set player id s.party_by_player;
      })
Inv-found s player id now v (ne, fresh) alone =
    Inv-write s _ s.invites id _
      (record {
        named = refl;
        few = omega arith;
        led = ground (arith, eq_iff player player);
        unique = refl;
        home = λ other m. ground (arith, get-set player other id s.party_by_player);
      })
      (λ pid r e h.
        let old = v.sound pid r h in
        record {
          named = old.named;
          few = old.few;
          led = old.led;
          unique = old.unique;
          home = λ other m. ground (
            arith,
            get-set player other id s.party_by_player,
            eq_iff player other,
            old.home other m,
          );
        })
      (λ other h. elim (Bool-cases (player == other)) [
        | inl e ↦ (ne, ground arith)
        | inr e ↦
            let (r, _, hr, _) =
              v.joined other id (ground (arith, get-set player other id s.party_by_player)) in
            cc
      ])
      (λ other pid e h. elim (Bool-cases (player == other)) [
        | inl f ↦ ground (arith, get-set player other id s.party_by_player, eq_iff id pid)
        | inr f ↦ v.joined other pid (ground (arith, get-set player other id s.party_by_player))
      ])

-- A player who is not in the index is no member of any party.
alone-not-member :
    (s : PartyService) (pid player : String) (p : PartyState)
    → Inv s
    → JsMap.get pid s.parties ≡ some p
    → JsMap.get player s.party_by_player ≡ none
    → is_member p player ≡ false
alone-not-member s pid player p v found alone = elim (Bool-cases (is_member p player)) [
  | inl m ↦ let home = (v.sound pid p found).home player m in cc
  | inr n ↦ n
]

-- The invited player at the end of the party's list.
pub Inv-push :
    (s : PartyService) (player key : String) (m : Member) (p : PartyState)
    (left : JsMap PartyInvite)
    → Inv s
    → JsMap.get key s.parties ≡ some p
    → (key == "") ≡ false
    → JsMap.get player s.party_by_player ≡ none
    → m.player_id ≡ player
    → suc (length p.members) ≤ 5
    → Inv (record {
      parties =
          JsMap.set key
            (record p { members = p.members ++ m ∷ []; version = p.version + 1 })
            s.parties;
      party_by_player = JsMap.set player p.id s.party_by_player;
      invites = left;
    })
Inv-push s player key m p left v found ne alone named room =
    let old = v.sound key p found in
    let new = alone-not-member s key player p v found alone in
    Inv-write s _ left key _
      (record {
        named = old.named;
        few = omega (arith, length-append p.members (m ∷ []));
        led = ground (arith, includes-push m p.leader_player_id p.members, old.led);
        unique = distinct-push m p.members old.unique (rw named new);
        home = λ other h. ground (
          arith,
          get-set player other p.id s.party_by_player,
          includes-push m other p.members,
          eq_iff m.player_id other,
          eq_iff player other,
          old.home other,
          old.named,
        );
      })
      (λ pid r e h.
        let o = v.sound pid r h in
        record {
          named = o.named;
          few = o.few;
          led = o.led;
          unique = o.unique;
          home = λ other h'. ground (
            arith,
            get-set player other p.id s.party_by_player,
            eq_iff player other,
            o.home other h',
          );
        })
      (λ other h. elim (Bool-cases (player == other)) [
        | inl e ↦ (
          ne,
          ground (
            arith,
            includes-push m other p.members,
            eq_iff m.player_id other,
            eq_iff player other,
          ),
        )
        | inr e ↦
            let (r, _, hr, h') =
              v.joined other key (ground (arith, get-set player other p.id s.party_by_player)) in
            let same : r ≡ p = some_inj (sym hr ∙ found) in
            (ne, ground (arith, includes-push m other p.members, (rw same at h')))
      ])
      (λ other pid e h. elim (Bool-cases (player == other)) [
        | inl f ↦
            ground (arith, get-set player other p.id s.party_by_player, eq_iff key pid, old.named)
        | inr f ↦ v.joined other pid (ground (arith, get-set player other p.id s.party_by_player))
      ])

-- What is left of a party when one of several members leaves.
pub Inv-remove :
    (s : PartyService) (player key : String) (p q : PartyState)
    → Inv s
    → JsMap.get player s.party_by_player ≡ some key
    → JsMap.get key s.parties ≡ some p
    → q.id ≡ p.id
    → q.members ≡ remove_first player p.members
    → is_member q q.leader_player_id ≡ true
    → Inv (record s {
      parties = JsMap.set key q s.parties;
      party_by_player = JsMap.delete player s.party_by_player;
    })
Inv-remove s player key p q v here found id rest led =
    let old = v.sound key p found in
    Inv-write s _ s.invites key q
      (record {
        named = id ∙ old.named;
        few = rw rest (omega (arith, length-remove_first player p.members, old.few));
        led = led;
        unique = rw rest (distinct-remove_first player p.members old.unique);
        home = λ other m. ground (
          arith,
          get-delete player other s.party_by_player,
          includes-remove_first player other p.members old.unique,
          (rw rest at m),
          old.home other,
        );
      })
      (λ pid r e h.
        let o = v.sound pid r h in
        record {
          named = o.named;
          few = o.few;
          led = o.led;
          unique = o.unique;
          home = λ other m. ground (
            arith,
            get-delete player other s.party_by_player,
            eq_iff player other,
            eq_iff key pid,
            o.home other m,
          );
        })
      (λ other h.
        let (r, ne, hr, m) =
          v.joined other key (ground (arith, get-delete player other s.party_by_player)) in
        let same : r ≡ p = some_inj (sym hr ∙ found) in
        (
          ne,
          rw rest (
              ground (
                arith,
                includes-remove_first player other p.members old.unique,
                get-delete player other s.party_by_player,
                (rw same at m),
              )),
        ))
      (λ other pid e h.
        v.joined other pid (ground (arith, get-delete player other s.party_by_player)))

-- The party that its last member leaves is deleted.
pub Inv-disband :
    (s : PartyService) (player key : String) (p : PartyState)
    → Inv s
    → JsMap.get player s.party_by_player ≡ some key
    → JsMap.get key s.parties ≡ some p
    → remove_first player p.members ≡ []
    → Inv (record s {
      parties = JsMap.delete p.id s.parties;
      party_by_player = JsMap.delete player s.party_by_player;
    })
Inv-disband s player key p v here found gone =
    let old = v.sound key p found in
    record {
      sound = λ pid r h.
          let o = v.sound pid r (ground (arith, get-delete p.id pid s.parties)) in
          record {
            named = o.named;
            few = o.few;
            led = o.led;
            unique = o.unique;
            home = λ other m. ground (
              arith,
              get-delete player other s.party_by_player,
              get-delete p.id pid s.parties,
              eq_iff player other,
              eq_iff p.id pid,
              old.named,
              o.home other m,
            );
          };
      joined = λ other pid h.
          let (r, ne, hr, m) =
            v.joined other pid (ground (arith, get-delete player other s.party_by_player)) in
          elim (Bool-cases (p.id == pid)) [
            | inr e ↦ (r, ne, ground (arith, get-delete p.id pid s.parties), m)
            | inl e ↦
                let at_key : key ≡ pid = sym old.named ∙ eq→≡ p.id pid e in
                let same : r ≡ p = some_inj (sym hr ∙ (rw at_key at found)) in
                absurd (
                  ground (
                    arith,
                    get-delete player other s.party_by_player,
                    includes-remove_first player other p.members old.unique,
                    ap (λ ms. includes (player_ids ms) other) gone,
                    (rw same at m),
                  ))
          ];
    }
