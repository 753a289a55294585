-- ===== src/Wallet/Movement/Booked.antt =====
-- Posted deposits and withdrawals in whole units: the balance, the history and their agreement.
use hexagonal_queue.Prelude.{
  String, ◌≡◌, sym, ◌∙◌, ap, inr, true, false, some, err, [], ◌∷◌, ◌++◌, ok, ok-injective, All,
  All-append, find_first, if◌then◌else◌, arith, str_eq_refl,
}
use mathlib.Core.Path.{subst}
use hexagonal_queue.Prelude.Int.{ℤ, pos, ◌+ℤ◌, ◌-ℤ◌, ltb_ℤ}
use hexagonal_queue.Platform.{Platform}
use hexagonal_queue.Platform.Exact.{Exact, InRange}
use hexagonal_queue.Models.{WalletStatement, TransactionRequest}
use hexagonal_queue.Utils.Decimal.Laws.{compare_decimal128_self}
use hexagonal_queue.Service.{
  create_deposit_statement, create_withdraw_statement, negative_balance,
  validate_balance_consistency,
}
use hexagonal_queue.Service.Laws.{
  entry, create_deposit_statement_exact, create_withdraw_statement_exact,
}
use hexagonal_queue.Ports.Store.{
  Store, find_balance, balance_key, with_balance, history, statement_key, IsLast, NotAfter,
}
use hexagonal_queue.Wallet.Movement.Posted.{Maker, Posted}
use hexagonal_queue.Wallet.Movement.Credit.{found_after, history-after, parent_of_user, Elem-last}

module _ {p : Platform} (e : Exact p) where
  -- The account holds b + n units, the history grew by the entry of the movement, which is the last
  -- statement now, and the check that the next movement starts with passes.
  abbrev pub Booked :
      {make : Maker p}
      → (req : TransactionRequest p) (before after : Store p) → Posted make req before after
      → String
      → ℤ
      → ℤ
      → Type 0
  Booked req before after posted action b n =
      let st = entry p e posted.at req posted.user action b n in
      (find_balance req.username req.parent_token after
        ≡ some (with_balance {p = p} (e.decimal (b +ℤ n)) posted.time posted.account))
      × (history req.username req.parent_token after
          ≡ history req.username req.parent_token before ++ (st ∷ []))
      × IsLast req.username req.parent_token after st
      × (validate_balance_consistency p (e.decimal (b +ℤ n)) st.after_credit ≡ ok tt)

  consistent_self :
      (n : ℤ) → InRange n → validate_balance_consistency p (e.decimal n) (e.decimal n) ≡ ok tt
  unfolding validate_balance_consistency
  consistent_self n h = rw (compare_decimal128_self p e n h)

  booked :
      {make : Maker p} (req : TransactionRequest p) (before after : Store p)
      (posted : Posted make req before after) (action : String) (b n : ℤ)
      → posted.statement ≡ entry p e posted.at req posted.user action b n
      → InRange (b +ℤ n)
      → find_first (balance_key req.username req.parent_token) before.balances ≡ some posted.account
      → All (NotAfter posted.at.time) (history req.username req.parent_token before)
      → Booked req before after posted action b n
  booked {make} req before after posted action b n is hc first earlier =
      let st = entry p e posted.at req posted.user action b n in
      let own : statement_key {p = p} req.username req.parent_token posted.statement ≡ true = rw (
        is,
        parent_of_user make req before after posted,
        str_eq_refl req.username,
        str_eq_refl req.parent_token,
      ) in
      let grown : history req.username req.parent_token after
          ≡ history req.username req.parent_token before ++ (st ∷ []) =
        subst
          (λ x.
            history req.username req.parent_token after
            ≡ history req.username req.parent_token before ++ (x ∷ []))
          is (history-after make req before after posted own) in
      (
        subst
            (λ (x : WalletStatement p).
              find_balance req.username req.parent_token after
              ≡ some (with_balance {p = p} x.after_credit posted.time posted.account))
            is (found_after make req before after posted first),
        grown,
        inr (
          rw grown (Elem-last _ st),
          rw grown (All-append (NotAfter posted.at.time) _ (st ∷ []) earlier (omega arith, tt)),
        ),
        consistent_self (b +ℤ n) hc,
      )

  -- A posted deposit of n units on a first-found account of b units, with n, b and b + n in range and
  -- no statement of the member dated later: the account holds exactly b + n units, the history grew
  -- by exactly the entry of n units from b to b + n, that entry is a last statement, and the
  -- consistency check of balance and last statement passes again.
  pub deposit-Booked :
      (req : TransactionRequest p) (before after : Store p)
      (posted : Posted (create_deposit_statement p) req before after) (b n : ℤ)
      → req.amount ≡ e.float n
      → posted.account.balance ≡ e.decimal b
      → InRange n
      → InRange b
      → InRange (b +ℤ n)
      → find_first (balance_key req.username req.parent_token) before.balances ≡ some posted.account
      → All (NotAfter posted.at.time) (history req.username req.parent_token before)
      → Booked req before after posted "DEPOSIT" b n
  deposit-Booked req before after posted b n amount balance hn hb hc first earlier =
      booked req before after posted "DEPOSIT" b n
        (ok-injective (
          sym posted.made
          ∙ ap (λ d. create_deposit_statement p posted.at req d posted.user) balance
          ∙ create_deposit_statement_exact p e posted.at req b n posted.user amount hn hb hc))
        hc first earlier

  made_withdrawal :
      (b n : ℤ) (st entered : WalletStatement p)
      → (if ltb_ℤ b n then err negative_balance else ok entered) ≡ ok st
      → (ltb_ℤ b n ≡ false) × (st ≡ entered)
  made_withdrawal b n st entered h = ground arith

  -- A posted withdrawal of n > 0 units from a first-found account of b units, with n, b and b - n in
  -- range and no statement of the member dated later: the account covered n, it holds exactly b - n
  -- units, the history grew by exactly the entry of -n units from b to b - n, that entry is a last
  -- statement, and the consistency check passes again.
  pub withdraw-Booked :
      (req : TransactionRequest p) (before after : Store p)
      (posted : Posted (create_withdraw_statement p) req before after) (b n : ℤ)
      → req.amount ≡ e.float n
      → posted.account.balance ≡ e.decimal b
      → ltb_ℤ (pos 0) n ≡ true
      → InRange n
      → InRange b
      → InRange (b +ℤ (pos 0 -ℤ n))
      → find_first (balance_key req.username req.parent_token) before.balances ≡ some posted.account
      → All (NotAfter posted.at.time) (history req.username req.parent_token before)
      → (ltb_ℤ b n ≡ false) × Booked req before after posted "WITHDRAW" b (pos 0 -ℤ n)
  withdraw-Booked req before after posted b n amount balance positive hn hb hc first earlier =
      let exact =
        sym (
          create_withdraw_statement_exact p e posted.at req b n posted.user amount positive hn hb
            hc)
        ∙ ap (λ d. create_withdraw_statement p posted.at req d posted.user) (sym balance)
        ∙ posted.made in
      let made = made_withdrawal b n posted.statement _ exact in
      (made.0, booked req before after posted "WITHDRAW" b (pos 0 -ℤ n) made.1 hc first earlier)
