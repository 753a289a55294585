-- ===== src/Service.antt =====
-- internal/domain/services/wallet_service.go. The methods have no state; `primitive.NewObjectID()`
-- and `time.Now()` enter as the argument `Stamp`.
pub mod Laws
use hexagonal_queue.Prelude.{
  ℕ, String, Bool, true, false, not, Result, ok, err, Error, new, ◌>>=◌, ◌>>◌, if◌then◌else◌,
  str_eq,
}
use hexagonal_queue.Platform.{Platform}
use hexagonal_queue.Models.{User, WalletStatement, TransactionRequest}
use hexagonal_queue.Utils.Decimal.{
  convert_float_to_decimal128, convert_decimal128_to_float, sum_decimal128, compare_decimal128,
}
use hexagonal_queue.Utils.Text.{to_upper, equal_fold}

abbrev pub insufficient_funds : Error
insufficient_funds = new "insufficient funds"

abbrev pub invalid_amount : Error
invalid_amount = new "invalid amount"

abbrev pub balance_mismatch : Error
balance_mismatch = new "balance mismatch detected"

abbrev pub negative_balance : Error
negative_balance = new "balance cannot be negative"

-- A fresh ObjectID and the time at which a document is made.
pub record Stamp : Type 0 where
  pub object_id : ℕ
  pub time : ℕ

abbrev pub reject_if : Bool → Error → Result (Unit {0})
reject_if b e = if b then err e else ok tt

module _ (p : Platform) where
  unfoldable pub validate_deposit_request : TransactionRequest p → Result (Unit {0})
  validate_deposit_request req = do
    reject_if (p.le req.amount p.nought) invalid_amount
    reject_if (str_eq req.username "") (new "username is required")
    reject_if (str_eq req.parent_token "") (new "parent token is required")

  unfoldable pub validate_withdraw_request : TransactionRequest p → p.Float → Result (Unit {0})
  validate_withdraw_request req current_balance = do
    reject_if (p.le req.amount p.nought) invalid_amount
    reject_if (str_eq req.username "") (new "username is required")
    reject_if (str_eq req.parent_token "") (new "parent token is required")
    reject_if (p.lt current_balance req.amount) insufficient_funds

  unfoldable pub create_deposit_statement :
      Stamp → TransactionRequest p → p.Decimal → User → Result (WalletStatement p)
  create_deposit_statement at req current_balance user = do
    amount_decimal ← convert_float_to_decimal128 p req.amount
    new_balance ← sum_decimal128 p current_balance amount_decimal
    ok (record {
      id = at.object_id;
      datetime = at.time;
      username = req.username;
      parent_token = user.parent_token;
      amount = amount_decimal;
      before_credit = current_balance;
      after_credit = new_balance;
      status = 1;
      is_check = 1;
      type_name = to_upper p req.type_name;
      type_action = "DEPOSIT";
      description = req.description;
      hash = "";
      channel = req.channel;
    })

  unfoldable pub create_withdraw_statement :
      Stamp → TransactionRequest p → p.Decimal → User → Result (WalletStatement p)
  create_withdraw_statement at req current_balance user = do
    amount_decimal ← convert_float_to_decimal128 p (p.neg req.amount)
    new_balance ← sum_decimal128 p current_balance amount_decimal
    new_balance_float ← convert_decimal128_to_float p new_balance
    reject_if (p.lt new_balance_float p.nought) negative_balance
    ok (record {
      id = at.object_id;
      datetime = at.time;
      username = req.username;
      parent_token = user.parent_token;
      amount = amount_decimal;
      before_credit = current_balance;
      after_credit = new_balance;
      status = 1;
      is_check = 1;
      type_name = to_upper p req.type_name;
      type_action = "WITHDRAW";
      description = req.description;
      hash = "";
      channel = req.channel;
    })

  unfoldable pub create_parent_withdraw_statement :
      Stamp → TransactionRequest p → p.Decimal → User → Result (WalletStatement p)
  create_parent_withdraw_statement at req parent_balance parent = do
    amount_decimal ← convert_float_to_decimal128 p (p.neg req.amount)
    new_balance ← sum_decimal128 p parent_balance amount_decimal
    new_balance_float ← convert_decimal128_to_float p new_balance
    reject_if (p.lt new_balance_float p.nought) negative_balance
    ok (record {
      id = at.object_id;
      datetime = at.time;
      username = parent.username;
      parent_token = parent.parent_token;
      amount = amount_decimal;
      before_credit = parent_balance;
      after_credit = new_balance;
      status = 1;
      is_check = 1;
      type_name = to_upper p req.type_name;
      type_action = "WITHDRAW";
      description = req.description;
      hash = "";
      channel = req.channel;
    })

  unfoldable pub validate_balance_consistency : p.Decimal → p.Decimal → Result (Unit {0})
  validate_balance_consistency account_balance last_statement_balance = do
    is_equal ← compare_decimal128 p account_balance last_statement_balance
    reject_if (not is_equal) balance_mismatch

  unfoldable pub calculate_new_balance : p.Decimal → p.Float → Bool → Result p.Decimal
  calculate_new_balance current_balance amount is_deposit = do
    amount_decimal ← convert_float_to_decimal128 p (if is_deposit then amount else p.neg amount)
    new_balance ← sum_decimal128 p current_balance amount_decimal
    if is_deposit then ok new_balance else do
      new_balance_float ← convert_decimal128_to_float p new_balance
      reject_if (p.lt new_balance_float p.nought) negative_balance
      ok new_balance

  unfoldable pub is_parent_withdraw_required : User → Bool
  is_parent_withdraw_required parent = not (equal_fold p parent.type_member "super")
