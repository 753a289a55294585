-- ===== src/Scenarios/Booked.antt =====
-- A deposit of 30 units on 500 and a withdrawal of 30 from 500, as posted.
use hexagonal_queue.Prelude.{◌≡◌, refl, inr, inl, false, arith}
use hexagonal_queue.Prelude.Int.{pos, ◌+ℤ◌, ◌-ℤ◌, ltb_ℤ}
use hexagonal_queue.Platform.Exact.{units, units_exact}
use hexagonal_queue.Models.{WalletStatement}
use hexagonal_queue.Utils.Decimal.{
  convert_float_to_decimal128, convert_decimal128_to_float, sum_decimal128, compare_decimal128,
}
use hexagonal_queue.Service.{
  Stamp, create_deposit_statement, create_withdraw_statement, validate_balance_consistency,
}
use hexagonal_queue.Service.Laws.{entry}
use hexagonal_queue.Ports.Store.{Store, add_statement, set_balance}
use hexagonal_queue.Wallet.Movement.Posted.{Posted}
use hexagonal_queue.Wallet.Movement.Booked.{Booked, deposit-Booked, withdraw-Booked}
use hexagonal_queue.Scenarios.Fixture.{books, ann, account, opening, request_of}

abbrev at : Stamp
at = record { object_id = 7; time = 8 }

abbrev credited : WalletStatement units
credited = entry units units_exact at (request_of (pos 30)) ann "DEPOSIT" (pos 500) (pos 30)

abbrev debited : WalletStatement units
debited =
    entry units units_exact at (request_of (pos 30)) ann "WITHDRAW" (pos 500) (pos 0 -ℤ pos 30)

abbrev credited_books : Store units
credited_books = set_balance "ann" "shop" credited.after_credit 9 (add_statement credited books)

abbrev debited_books : Store units
debited_books = set_balance "ann" "shop" debited.after_credit 9 (add_statement debited books)

deposited : Posted (create_deposit_statement units) (request_of (pos 30)) books credited_books
unfolding create_deposit_statement convert_float_to_decimal128 sum_decimal128
    validate_balance_consistency compare_decimal128 ◌-ℤ◌
deposited = record {
  user = ann;
  account = account;
  last = opening;
  at = at;
  statement = credited;
  time = 9;
  user_found = refl;
  account_found = refl;
  last_found = inr (inl refl, (omega arith, tt));
  consistent = refl;
  made = refl;
  stored = refl;
}

withdrawn : Posted (create_withdraw_statement units) (request_of (pos 30)) books debited_books
unfolding create_withdraw_statement convert_float_to_decimal128 convert_decimal128_to_float
    sum_decimal128 validate_balance_consistency compare_decimal128 ◌-ℤ◌ ◌+ℤ◌
withdrawn = record {
  user = ann;
  account = account;
  last = opening;
  at = at;
  statement = debited;
  time = 9;
  user_found = refl;
  account_found = refl;
  last_found = inr (inl refl, (omega arith, tt));
  consistent = refl;
  made = refl;
  stored = refl;
}

deposit-Booked_example :
    Booked units_exact
      (request_of (pos 30))
      books
      credited_books
      deposited
      "DEPOSIT"
      (pos 500)
      (pos 30)
unfolding deposited ◌+ℤ◌
deposit-Booked_example =
    deposit-Booked units_exact (request_of (pos 30)) books credited_books deposited (pos 500)
      (pos 30) refl refl (omega arith) (omega arith) (omega arith) refl (omega arith, tt)

withdraw-Booked_example :
    (ltb_ℤ (pos 500) (pos 30) ≡ false)
    × Booked units_exact
        (request_of (pos 30))
        books
        debited_books
        withdrawn
        "WITHDRAW"
        (pos 500)
        (pos 0 -ℤ pos 30)
unfolding withdrawn ◌+ℤ◌ ◌-ℤ◌
withdraw-Booked_example =
    withdraw-Booked units_exact (request_of (pos 30)) books debited_books withdrawn (pos 500)
      (pos 30) refl refl refl (omega arith) (omega arith) (omega arith) refl (omega arith, tt)
