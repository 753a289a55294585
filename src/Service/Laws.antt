-- ===== src/Service/Laws.antt =====
-- What the checks of the service accept, and what its statements record, in whole units.
use hexagonal_queue.Prelude.{
  String, ◌≡◌, ◌≢◌, ◌↔◌, true, false, Result, ok, err, ◌>>=◌, if◌then◌else◌, arith, eq_iff,
}
use hexagonal_queue.Prelude.Int.{ℤ, pos, ◌+ℤ◌, ◌-ℤ◌, ltb_ℤ}
use hexagonal_queue.Platform.{Platform}
use hexagonal_queue.Platform.Exact.{
  Exact, InRange, opposite-InRange, ltb_ℤ-opposite, ne_zero_of_pos,
}
use hexagonal_queue.Models.{User, WalletStatement, TransactionRequest}
use hexagonal_queue.Utils.Decimal.{convert_float_to_decimal128, convert_decimal128_to_float}
use hexagonal_queue.Utils.Text.{to_upper}
use hexagonal_queue.Utils.Decimal.Laws.{sum_decimal128_exact}
use hexagonal_queue.Service.{
  Stamp, validate_deposit_request, validate_withdraw_request, create_deposit_statement,
  create_withdraw_statement, calculate_new_balance, negative_balance,
}

module _ (p : Platform) where
  -- ValidateWithdrawRequest accepts exactly the requests that ValidateDepositRequest accepts and
  -- whose amount the current balance covers.
  validate_withdraw_request_iff :
      (req : TransactionRequest p) (current : p.Float)
      → (validate_withdraw_request p req current ≡ ok tt)
        ↔ ((validate_deposit_request p req ≡ ok tt) × (p.lt current req.amount ≡ false))
  unfolding validate_withdraw_request validate_deposit_request
  validate_withdraw_request_iff req current = ground arith

  -- ValidateDepositRequest accepts exactly the requests with an amount that is not `<= 0`, a
  -- username and a parent token.
  validate_deposit_request_iff :
      (req : TransactionRequest p)
      → (validate_deposit_request p req ≡ ok tt)
        ↔ ((p.le req.amount p.nought ≡ false) × (req.username ≢ "") × (req.parent_token ≢ ""))
  unfolding validate_deposit_request
  validate_deposit_request_iff req =
      ground (arith, eq_iff req.username "", eq_iff req.parent_token "")

  abbrev pub after : Result (WalletStatement p) → Result p.Decimal
  after r = r >>= λ st. ok st.after_credit

  -- CalculateNewBalance computes the credit after that CreateDepositStatement and
  -- CreateWithdrawStatement record, and fails with the same errors, on every platform.
  pub calculate_new_balance-eq-after :
      (at : Stamp) (req : TransactionRequest p) (current : p.Decimal) (user : User)
      → (calculate_new_balance p current req.amount true
          ≡ after (create_deposit_statement p at req current user))
        × (calculate_new_balance p current req.amount false
            ≡ after (create_withdraw_statement p at req current user))
  unfolding calculate_new_balance create_deposit_statement create_withdraw_statement
  calculate_new_balance-eq-after at req current user = ground arith

  module _ (e : Exact p) where
    -- The statement of a movement of `n` units on a balance of `b` units.
    abbrev pub entry : Stamp → TransactionRequest p → User → String → ℤ → ℤ → WalletStatement p
    entry at req user action b n = record {
      id = at.object_id;
      datetime = at.time;
      username = req.username;
      parent_token = user.parent_token;
      amount = e.decimal n;
      before_credit = e.decimal b;
      after_credit = e.decimal (b +ℤ n);
      status = 1;
      is_check = 1;
      type_name = to_upper p req.type_name;
      type_action = action;
      description = req.description;
      hash = "";
      channel = req.channel;
    }

    -- A deposit of n units on b units, with n, b and their sum in range, is recorded as a movement
    -- of n units from b to exactly b + n.
    pub create_deposit_statement_exact :
        (at : Stamp) (req : TransactionRequest p) (b n : ℤ) (user : User)
        → req.amount ≡ e.float n
        → InRange n
        → InRange b
        → InRange (b +ℤ n)
        → create_deposit_statement p at req (e.decimal b) user
          ≡ ok (entry at req user "DEPOSIT" b n)
    unfolding create_deposit_statement convert_float_to_decimal128
    create_deposit_statement_exact at req b n user amount hn hb hc =
        rw (amount, e.printed n hn, sum_decimal128_exact p e b n hb hn hc)

    -- A withdrawal of n > 0 units from b units, with n, b and b - n in range, is recorded as a
    -- movement of -n units from b to exactly b - n if b covers n, and refused with the error
    -- `negative_balance` otherwise.
    pub create_withdraw_statement_exact :
        (at : Stamp) (req : TransactionRequest p) (b n : ℤ) (user : User)
        → req.amount ≡ e.float n
        → ltb_ℤ (pos 0) n ≡ true
        → InRange n
        → InRange b
        → InRange (b +ℤ (pos 0 -ℤ n))
        → create_withdraw_statement p at req (e.decimal b) user ≡ (
            if ltb_ℤ b n
            then err negative_balance
            else ok (entry at req user "WITHDRAW" b (pos 0 -ℤ n)))
    unfolding create_withdraw_statement convert_float_to_decimal128 convert_decimal128_to_float
    create_withdraw_statement_exact at req b n user amount positive hn hb hc =
        let opp = opposite-InRange n hn in
        rw
          (
            amount,
            e.negated n hn (ne_zero_of_pos n positive),
            e.printed (pos 0 -ℤ n) opp,
            sum_decimal128_exact p e b (pos 0 -ℤ n) hb opp hc,
            e.read (b +ℤ (pos 0 -ℤ n)) hc,
            e.zero_float,
            e.ordered (b +ℤ (pos 0 -ℤ n)) (pos 0) hc (omega arith),
            ltb_ℤ-opposite b n,
          )
          (ground arith)
