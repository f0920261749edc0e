-- ===== src/Counters/Tests.antt =====
-- A receipt for two items, one of which was counted before.
use legacy_match_platform.Common.{
  ℕ, String, Bool, true, Option, none, some, [], ◌∷◌, ◌==◌, String_eq, ok, ◌≡◌, refl,
}
use legacy_match_platform.Common.JsMap
use legacy_match_platform.Receipts.{alpha}
use legacy_match_platform.Counters.{
  CounterEntry, CommittedCounterState, CosmeticItem, Manifest, CountValue, absent, text,
  CounterReceipt, Envelope, allowed_of, allowed_from, owners_from, accept_counter_receipt,
}
use legacy_match_platform.Counters.Committed.{Committed, accept_counter_receipt-Committed}

abbrev any_text : String → Bool
any_text s = true

abbrev signed : CounterReceipt → String → Bool
signed r s = s == "signature"

abbrev item : String → Option String → CosmeticItem
item id g = record {
  asset_id = id;
  ownership_generation = g;
  source = "b2g";
  item_kind = "cosmetic";
  quality = 9;
  kill_eater_score_type = some 0;
  kill_eater_value = some 12;
}

abbrev manifest : Manifest
manifest = record {
  match_id = "m";
  lease_id = "l";
  fencing_token = "f";
  roster = record { player_id = "a"; steam_id = "1"; team = alpha } ∷ [];
  cosmetics =
      record { player_id = "a"; steam_id = "1"; items = item "10" none ∷ item "11" (some "3") ∷ [] }
      ∷ [];
}

abbrev value : String → Option String → ℕ → Option CountValue
value id g n = some (record {
  steam_id = some "1";
  asset_id = some id;
  ownership_generation = elim g [ none ↦ absent | some g ↦ text g ];
  count = some n;
})

abbrev envelope : Envelope
envelope = record {
  receipt = record {
    kind = "stattrak.committed";
    version = 1;
    match_id = "m";
    lease_id = "l";
    fencing_token = "f";
    sequence = 5;
    batch_checksum = "c";
    counts = value "10" none 5 ∷ value "11" (some "3") 2 ∷ [];
  };
  signature = "signature";
}

abbrev entry : String → Option String → ℕ → CounterEntry
entry id g n = record { steam_id = "1"; asset_id = id; count = n; ownership_generation = g }

abbrev before : CommittedCounterState
before = record { sequence = 4; counts = entry "10" none 7 ∷ [] }

abbrev after : CommittedCounterState
after = record { sequence = 5; counts = entry "10" none 7 ∷ entry "11" (some "3") 2 ∷ [] }

accepted :
    accept_counter_receipt any_text any_text any_text signed 5 "c"
      (some (some envelope))
      manifest
      (some before)
    ≡ ok (some after)
unfolding accept_counter_receipt JsMap.has owners_from JsMap.set allowed_from
accepted = refl

accept_counter_receipt-Committed_example : Committed (allowed_of manifest) before after
accept_counter_receipt-Committed_example =
    accept_counter_receipt-Committed any_text any_text any_text signed 5 "c" envelope manifest
      before after refl accepted
