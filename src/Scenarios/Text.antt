-- ===== src/Scenarios/Text.antt =====
-- Names and ids.
use hexagonal_queue.Prelude.{
  ◌≤◌, ◌≡◌, ◌↔◌, ok, All, String, ◌-◌, some, ◌<>◌, arith, ℕ, suc, ◌⊎◌, none,
}
use hexagonal_queue.Utils.Tokens.{Machine, generate_transaction_id, text_length}
use hexagonal_queue.Utils.Tokens.Laws.{Drawn, generate_transaction_id-Random, AllDrawn, SomeFailed}
use hexagonal_queue.Utils.Text.{codes, byte_length, validate_username}
use hexagonal_queue.Utils.Text.Laws.{IsUsernameChar, validate_username_iff}

validate_username_iff_example : (validate_username "ann_1" ≡ ok tt) ↔ (
    (3 ≤ byte_length (codes "ann_1"))
    × (byte_length (codes "ann_1") ≤ 50)
    × All IsUsernameChar (codes "ann_1"))
validate_username_iff_example = validate_username_iff "ann_1"

-- A machine that always draws the last character, and whose times print alike.
abbrev machine : Machine (Unit {0})
machine = record {
  rand_int = λ max s. (ok (max - 1), s);
  unix_nano = λ s. (1700000000, s);
  decimal_text = λ n. "1700000000";
}

machine_below :
    (max : ℕ) (s : Unit {0}) (n : ℕ) → 1 ≤ max → (machine.rand_int max s).0 ≡ ok n → suc n ≤ max
machine_below max s n h is = let same : max - 1 ≡ n = ground (arith, is) in omega (arith, h, same)

generate_transaction_id-Random_example :
    (AllDrawn machine machine_below 8 tt
      × ((random : String) × ((generate_transaction_id machine "ann" tt).0
            ≡ some ("ann" <> "_" <> "1700000000" <> "_" <> random))
          × (text_length random ≡ 8)
          × Drawn random))
    ⊎ (SomeFailed machine machine_below 8 tt
        × ((generate_transaction_id machine "ann" tt).0 ≡ none))
generate_transaction_id-Random_example =
    generate_transaction_id-Random machine machine_below "ann" tt
