-- ===== src/Counters.antt =====
-- The kill counters of items that a game server's agent keeps as committed:
-- `acceptCounterReceipt` of apps/node-agent/src/counter-receipt.ts. The signature, the checksum and
-- the tests of texts by regular expressions are parameters.
mod Merging
pub mod Committed
mod Tests
use Prim.Native.String.{◌++◌}
use legacy_match_platform.Common.{
  ℕ, String, Bool, true, false, not, ◌&&◌, ◌||◌, Option, none, some, List, [], ◌∷◌, map, length,
  any, includes, if◌then◌else◌, ◌==◌, String_eq, ℕ_eq, leb, ltb, max, Result, ok, err, ◌^◌, ◌-◌,
}
use legacy_match_platform.Common.JsMap
use legacy_match_platform.Common.JsMap.{JsMap}
use legacy_match_platform.Receipts.{RosterEntry}

pub record CounterEntry : Type 0 where
  pub steam_id : String
  pub asset_id : String
  pub count : ℕ
  pub ownership_generation : Option String

pub record CommittedCounterState : Type 0 where
  pub sequence : ℕ
  pub counts : List CounterEntry

-- The fields of a manifest's cosmetic item that the code reads.
pub record CosmeticItem : Type 0 where
  pub asset_id : String
  pub ownership_generation : Option String
  pub source : String
  pub item_kind : String
  pub quality : ℕ
  pub kill_eater_score_type : Option ℕ
  pub kill_eater_value : Option ℕ

pub record Cosmetics : Type 0 where
  pub player_id : String
  pub steam_id : String
  pub items : List CosmeticItem

pub record Manifest : Type 0 where
  pub match_id : String
  pub lease_id : String
  pub fencing_token : String
  pub roster : List RosterEntry
  pub cosmetics : List Cosmetics

-- The field `ownershipGeneration` of a decoded count.
pub data GenerationValue : Type 0 where
  absent other : GenerationValue
  text : String → GenerationValue

-- A decoded count; a field of another type is none.
pub record CountValue : Type 0 where
  pub steam_id : Option String
  pub asset_id : Option String
  pub ownership_generation : GenerationValue
  pub count : Option ℕ

pub record CounterReceipt : Type 0 where
  pub kind : String
  pub version : ℕ
  pub match_id : String
  pub lease_id : String
  pub fencing_token : String
  pub sequence : ℕ
  pub batch_checksum : String
  pub counts : List (Option CountValue)

pub record Envelope : Type 0 where
  pub receipt : CounterReceipt
  pub signature : String

pub data CounterError : Type 0 where
  invalid_receipt invalid_signature wrong_batch invalid_data duplicate_items : CounterError

abbrev pub key_of : String → String → String
key_of steam_id asset_id = steam_id ++ ":" ++ asset_id

abbrev pub generation_of : Option String → String
generation_of none = "0"
generation_of (some g) = g

abbrev pub entry_key : CounterEntry → String
entry_key e = key_of e.steam_id e.asset_id

-- `owners`.
unfoldable pub owners_from : JsMap String → List RosterEntry → JsMap String
owners_from m [] = m
owners_from m (e ∷ es) = owners_from (JsMap.set e.steam_id e.player_id m) es

abbrev counted : CosmeticItem → Bool
counted i =
    i.source == "b2g"
    && i.item_kind == "cosmetic"
    && i.quality == 9
    && (elim i.kill_eater_score_type [ none ↦ false | some t ↦ t == 0 ])
    && (elim i.kill_eater_value [ none ↦ false | some v ↦ true ])

unfoldable pub allow_items : String → JsMap String → List CosmeticItem → JsMap String
allow_items steam_id m [] = m
allow_items steam_id m (i ∷ is) =
    if counted i
    then allow_items steam_id
        (JsMap.set (key_of steam_id i.asset_id) (generation_of i.ownership_generation) m) is
    else allow_items steam_id m is

abbrev owned : JsMap String → Cosmetics → Bool
owned owners c = elim (JsMap.get c.steam_id owners) [ none ↦ false | some p ↦ p == c.player_id ]

-- `allowed`: the generation of each item that may be counted.
unfoldable pub allowed_from : JsMap String → JsMap String → List Cosmetics → JsMap String
unfolding allow_items
allowed_from owners m [] = m
allowed_from owners m (c ∷ cs) =
    if owned owners c
    then allowed_from owners (allow_items c.steam_id m c.items) cs
    else allowed_from owners m cs

abbrev pub allowed_of : Manifest → JsMap String
allowed_of manifest = allowed_from (owners_from [] manifest.roster) [] manifest.cosmetics

-- `allowed.get(key) === generation`.
abbrev pub allows : JsMap String → String → String → Bool
allows allowed key g = elim (JsMap.get key allowed) [ none ↦ false | some h ↦ h == g ]

-- `merged`, as it starts.
unfoldable pub carry : JsMap String → JsMap CounterEntry → List CounterEntry → JsMap CounterEntry
carry allowed m [] = m
carry allowed m (e ∷ es) =
    if allows allowed (entry_key e) (generation_of e.ownership_generation)
    then carry allowed (JsMap.set (entry_key e) e m) es
    else carry allowed m es

-- An entry as it is stored: the generation "0" is left out.
abbrev pub stored : String → String → String → ℕ → CounterEntry
stored steam_id asset_id g n = record {
  steam_id = steam_id;
  asset_id = asset_id;
  count = n;
  ownership_generation = if g == "0" then none else some g;
}

-- The larger count of the received one and the one before.
abbrev pub larger : String → ℕ → JsMap CounterEntry → ℕ
larger key n m = max n (elim (JsMap.get key m) [ none ↦ 0 | some e ↦ e.count ])

abbrev sent_generation : GenerationValue → Option String
sent_generation absent = some "0"
sent_generation other = none
sent_generation (text g) = some g

module _ (is_steam_id is_asset_id is_ownership_generation : String → Bool) where
  -- A count whose fields pass the tests, as an entry with its generation written out.
  unfoldable pub read_count : JsMap String → Option CountValue → Option (CounterEntry × String)
  read_count owners none = none
  read_count owners (some v) = elim v.steam_id [
    | none ↦ none
    | some steam_id ↦ elim v.asset_id [
      | none ↦ none
      | some asset_id ↦ elim (sent_generation v.ownership_generation) [
        | none ↦ none
        | some g ↦ elim v.count [
          | none ↦ none
          | some n ↦
              if is_steam_id steam_id
                && JsMap.has steam_id owners
                && is_asset_id asset_id
                && is_ownership_generation g
                && ltb n (2 ^ 32)
              then some (stored steam_id asset_id g n, g)
              else none
        ]
      ]
    ]
  ]

  -- The loop over the counts.
  unfoldable pub merge :
      (owners allowed : JsMap String)
      → List String
      → JsMap CounterEntry
      → List (Option CountValue)
      → Result CounterError (JsMap CounterEntry)
  unfolding read_count
  merge owners allowed seen m [] = ok m
  merge owners allowed seen m (v ∷ vs) = elim (read_count owners v) [
    | none ↦ err invalid_data
    | some (e, g) ↦
        let k = entry_key e in
        let skipped = merge owners allowed (k ∷ seen) m vs in
        let merged =
          merge owners allowed (k ∷ seen)
            (JsMap.set k (stored e.steam_id e.asset_id g (larger k e.count m)) m) vs in
        if includes seen k
        then err duplicate_items
        else if allows allowed k g
        then merged
        else skipped
  ]

  -- `signed` is the comparison of the signature, `largest` the last sequence number of the batch,
  -- `checksum` that of the batch, and `outcome` none where the answer has no counter receipt.
  unfoldable pub accept_counter_receipt :
      (signed : CounterReceipt → String → Bool) (largest : ℕ) (checksum : String)
      (outcome : Option (Option Envelope)) (manifest : Manifest)
      (previous : Option CommittedCounterState)
      → Result CounterError (Option CommittedCounterState)
  unfolding merge carry
  accept_counter_receipt signed largest checksum none manifest previous = ok none
  accept_counter_receipt signed largest checksum (some none) manifest previous = err invalid_receipt
  accept_counter_receipt signed largest checksum (some (some v)) manifest previous =
      let r = v.receipt in
      let before : List CounterEntry = elim previous [ none ↦ [] | some p ↦ p.counts ] in
      let last : ℕ = elim previous [ none ↦ 0 | some p ↦ p.sequence ] in
      let allowed = allowed_of manifest in
      if not (signed r v.signature)
      then err invalid_signature
      else if not (
          r.kind == "stattrak.committed"
          && r.version == 1
          && r.match_id == manifest.match_id
          && r.lease_id == manifest.lease_id
          && r.fencing_token == manifest.fencing_token
          && r.sequence == largest
          && r.batch_checksum == checksum
          && leb (length r.counts) 100)
      then err wrong_batch
      else (elim (merge (owners_from [] manifest.roster) allowed [] (carry allowed [] before)
          r.counts) [
            | err e ↦ err e
            | ok m ↦ ok (some (record { sequence = max largest last; counts = JsMap.values m }))
          ])
