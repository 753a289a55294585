-- ===== src/Wallet/Ledger/Entries.antt =====
-- What the statements that the service makes record, from a balance that reads as an amount.
use hexagonal_queue.Prelude.{
  String, ◌≡◌, ◌∙◌, refl, sym, ap, true, false, ok, err, List, [], ◌∷◌, ◌++◌, ok-injective, arith,
  if◌then◌else◌,
}
use mathlib.Core.Path.{subst}
use hexagonal_queue.Prelude.Int.{ℤ, pos, ◌+ℤ◌, ◌-ℤ◌, ltb_ℤ}
use hexagonal_queue.Platform.{Platform}
use hexagonal_queue.Platform.Exact.{
  Exact, InRange, opposite-InRange, ltb_ℤ-opposite, ne_zero_of_pos,
}
use hexagonal_queue.Models.{User, WalletStatement, TransactionRequest}
use hexagonal_queue.Utils.Decimal.{
  sum_decimal128, convert_float_to_decimal128, convert_decimal128_to_float,
}
use hexagonal_queue.Service.{
  Stamp, create_deposit_statement, create_withdraw_statement, negative_balance,
}
use hexagonal_queue.Service.Laws.{entry}
use hexagonal_queue.Wallet.Ledger.{Amount, Chained}

module _ {p : Platform} (e : Exact p) where
  sum_decimal128-Amount :
      (x y : p.Decimal) (a b : ℤ)
      → Amount e x a
      → Amount e y b
      → InRange a
      → InRange b
      → InRange (a +ℤ b)
      → sum_decimal128 p x y ≡ ok (e.decimal (a +ℤ b))
  unfolding sum_decimal128
  sum_decimal128-Amount x y a b hx hy ha hb hc = rw (hx, hy) (e.printed_sum a b ha hb hc)

  -- A statement of `n` units, for the member of the request, on a balance of `a` units.
  pub record Entered (req : TransactionRequest p) (user : User) (a n : ℤ) (st : WalletStatement p)
      : Type 0 where
    pub name : st.username ≡ req.username
    pub parent : st.parent_token ≡ user.parent_token
    pub moves : Amount e st.amount n
    pub starts : Amount e st.before_credit a
    pub ends : st.after_credit ≡ e.decimal (a +ℤ n)
    pub reads : Amount e st.after_credit (a +ℤ n)

  pub deposit-Entered :
      (at : Stamp) (req : TransactionRequest p) (x : p.Decimal) (user : User) (b n : ℤ)
      (st : WalletStatement p)
      → req.amount ≡ e.float n
      → Amount e x b
      → InRange n
      → InRange b
      → InRange (b +ℤ n)
      → create_deposit_statement p at req x user ≡ ok st
      → Entered req user b n st
  unfolding create_deposit_statement convert_float_to_decimal128
  deposit-Entered at req x user b n st amount hx hn hb hc made =
      let sum = sum_decimal128-Amount x (e.decimal n) b n hx (e.read n hn) hb hn hc in
      subst (Entered req user b n) (ok-injective (rw (amount, e.printed n hn, sum) at made))
        (record {
          name = refl;
          parent = refl;
          moves = e.read n hn;
          starts = hx;
          ends = refl;
          reads = e.read (b +ℤ n) hc;
        })

  -- The entry of a movement, on a balance `x` that reads as `b` units.
  abbrev recorded :
      Stamp → TransactionRequest p → User → String → p.Decimal → ℤ → ℤ → WalletStatement p
  recorded at req user action x b n = record (entry p e at req user action b n) {
    before_credit = x;
  }

  withdraw_eq :
      (at : Stamp) (req : TransactionRequest p) (x : p.Decimal) (user : User) (b n : ℤ)
      → req.amount ≡ e.float n
      → Amount e x b
      → ltb_ℤ (pos 0) n ≡ true
      → InRange n
      → InRange b
      → InRange (b +ℤ (pos 0 -ℤ n))
      → create_withdraw_statement p at req x user ≡ (
          if ltb_ℤ b n
          then err negative_balance
          else ok (recorded at req user "WITHDRAW" x b (pos 0 -ℤ n)))
  unfolding create_withdraw_statement convert_float_to_decimal128 convert_decimal128_to_float
  withdraw_eq at req x user b n amount hx positive hn hb hc =
      let m = pos 0 -ℤ n in
      let hm = opposite-InRange n hn in
      rw
        (
          amount,
          e.negated n hn (ne_zero_of_pos n positive),
          e.printed m hm,
          sum_decimal128-Amount x (e.decimal m) b m hx (e.read m hm) hb hm hc,
          e.read (b +ℤ m) hc,
          e.zero_float,
          e.ordered (b +ℤ m) (pos 0) hc (omega arith),
          ltb_ℤ-opposite b n,
        )
        (ground arith)

  withdraw_made :
      (b n : ℤ) (st entered : WalletStatement p)
      → (if ltb_ℤ b n then err negative_balance else ok entered) ≡ ok st
      → (ltb_ℤ b n ≡ false) × (entered ≡ st)
  withdraw_made b n st entered h = ground arith

  pub withdraw-Entered :
      (at : Stamp) (req : TransactionRequest p) (x : p.Decimal) (user : User) (b n : ℤ)
      (st : WalletStatement p)
      → req.amount ≡ e.float n
      → Amount e x b
      → ltb_ℤ (pos 0) n ≡ true
      → InRange n
      → InRange b
      → InRange (b +ℤ (pos 0 -ℤ n))
      → create_withdraw_statement p at req x user ≡ ok st
      → (ltb_ℤ b n ≡ false) × Entered req user b (pos 0 -ℤ n) st
  withdraw-Entered at req x user b n st amount hx positive hn hb hc made =
      let m = pos 0 -ℤ n in
      let (covered, is) =
        withdraw_made b n st (recorded at req user "WITHDRAW" x b m)
          (sym (withdraw_eq at req x user b n amount hx positive hn hb hc) ∙ made) in
      (
        covered,
        subst (Entered req user b m) is (record {
          name = refl;
          parent = refl;
          moves = e.read m (opposite-InRange n hn);
          starts = hx;
          ends = refl;
          reads = e.read (b +ℤ m) hc;
        }),
      )

  pub Chained-append :
      (req : TransactionRequest p) (user : User) (a b n : ℤ) (xs : List (WalletStatement p))
      (st : WalletStatement p)
      → Chained e a xs b
      → Entered req user b n st
      → Chained e a (xs ++ (st ∷ [])) (b +ℤ n)
  Chained-append req user a b n [] st same entered =
      (n, entered.moves, rw same entered.starts, rw same entered.reads, ap (λ c. c +ℤ n) same)
  Chained-append req user a b n (x ∷ xs) st (m, moves, starts, reads, rest) entered =
      (m, moves, starts, reads, Chained-append req user (a +ℤ m) b n xs st rest entered)

module _ (p : Platform) where
  -- The statement carries the key of the member.
  abbrev pub Named : TransactionRequest p → User → WalletStatement p → Type 0
  Named req user st = (st.username ≡ req.username) × (st.parent_token ≡ user.parent_token)

  pub deposit-Named :
      (at : Stamp) (req : TransactionRequest p) (x : p.Decimal) (user : User)
      (st : WalletStatement p)
      → create_deposit_statement p at req x user ≡ ok st
      → Named req user st
  unfolding create_deposit_statement
  deposit-Named at req x user st made = ground arith

  pub withdraw-Named :
      (at : Stamp) (req : TransactionRequest p) (x : p.Decimal) (user : User)
      (st : WalletStatement p)
      → create_withdraw_statement p at req x user ≡ ok st
      → Named req user st
  unfolding create_withdraw_statement
  withdraw-Named at req x user st made = ground arith
