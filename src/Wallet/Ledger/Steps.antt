-- ===== src/Wallet/Ledger/Steps.antt =====
-- Each change of the documents keeps the books of every member.
use hexagonal_queue.Prelude.{
  ℕ, ◌+◌, ◌-◌, ◌≤◌, String, ◌≡◌, ◌∙◌, sym, inl, inr, Bool-cases, true, false, ◌&&◌, Option, some,
  str_eq, find_first-change_first, find_first-change_other, find_first-narrow, arith, eq_iff,
  str_eq_refl, find_first-passes,
}
use mathlib.Core.Path.{subst}
use hexagonal_queue.Prelude.Int.{ℤ, pos, ◌+ℤ◌, ◌-ℤ◌, ltb_ℤ}
use hexagonal_queue.Platform.{Platform}
use hexagonal_queue.Platform.Exact.{Exact, InRange, unit_bound}
use hexagonal_queue.Models.{AccountBalance, TransactionRequest}
use hexagonal_queue.Service.{create_deposit_statement, create_withdraw_statement}
use hexagonal_queue.Ports.Store.{Store, balance_key, balance_active, with_balance, statement_key}
use hexagonal_queue.Wallet.Movement.Posted.{Maker, Posted}
use hexagonal_queue.Wallet.Movement.Credit.{
  history-after, parent_of_user, posted_elsewhere, other_key,
}
use hexagonal_queue.Wallet.Ledger.{Ledger}
use hexagonal_queue.Wallet.Ledger.Entries.{
  Entered, deposit-Entered, withdraw-Entered, Chained-append, deposit-Named, withdraw-Named,
}

same_key : (a b c d : String) → (str_eq a b && str_eq c d) ≡ true → (a ≡ b) × (c ≡ d)
same_key a b c d h = ground (arith, eq_iff a b, eq_iff c d)

some-injective : {A : Type 0} {a b : A} → ◌≡◌ {A = Option A} (some a) (some b) → a ≡ b
some-injective h = cc

plus : (c n : ℕ) → pos c +ℤ pos n ≡ pos (c + n)
unfolding ◌+ℤ◌
plus c n = ground arith

minus : (c n : ℕ) → ltb_ℤ (pos c) (pos n) ≡ false → pos c +ℤ (pos 0 -ℤ pos n) ≡ pos (c - n)
unfolding ◌+ℤ◌ ◌-ℤ◌
minus c n h = ground arith

covers : (c n : ℕ) → ltb_ℤ (pos c) (pos n) ≡ false → n ≤ c
covers c n h = ground arith

minus-InRange : (c n : ℕ) → c ≤ unit_bound → n ≤ unit_bound → InRange (pos c +ℤ (pos 0 -ℤ pos n))
unfolding ◌+ℤ◌ ◌-ℤ◌
minus-InRange c n h k = ground arith

module _ {p : Platform} (e : Exact p) where
  pub Ledger-mono :
      (name parent : String) (r r' : ℕ) (d : Store p)
      → r' ≤ r
      → Ledger e name parent r d
      → Ledger e name parent r' d
  Ledger-mono name parent r r' d less books = record {
    account = books.account;
    credit = books.credit;
    first = books.first;
    active = books.active;
    holds = books.holds;
    fits = omega (arith, books.fits);
    chain = books.chain;
  }

  module _ (make : Maker p) (req : TransactionRequest p) (before after : Store p)
      (posted : Posted make req before after) where
    open req use {username, parent_token}

    same_account :
        (room : ℕ) (books : Ledger e username parent_token room before)
        → posted.account ≡ books.account
    same_account room books = some-injective (
        sym posted.account_found
        ∙ find_first-narrow (balance_key username parent_token)
            (balance_active username parent_token) before.balances books.account
            (λ x h. ground arith) books.active books.first)

    own-Ledger :
        (room room' c : ℕ) (n : ℤ) (books : Ledger e username parent_token room before)
        → Entered e req posted.user (pos books.credit) n posted.statement
        → pos books.credit +ℤ n ≡ pos c
        → c + room' ≤ unit_bound
        → Ledger e username parent_token room' after
    own-Ledger room room' c n books entered sum fits =
        let st = posted.statement in
        let change = with_balance {p = p} st.after_credit posted.time in
        let own : statement_key {p = p} username parent_token st ≡ true = rw (
          entered.name,
          entered.parent,
          parent_of_user make req before after posted,
          str_eq_refl username,
          str_eq_refl parent_token,
        ) in
        record {
          account = change books.account;
          credit = c;
          first = rw (posted.stored) (
              find_first-change_first (balance_key username parent_token)
                (balance_key username parent_token) change before.balances books.account (λ x h. h)
                (find_first-passes (balance_key username parent_token) before.balances books.account
                  books.first)
                books.first);
          active = books.active;
          holds = rw (← sum) entered.reads;
          fits = fits;
          chain =
              rw (history-after make req before after posted own, ← sum)
                (Chained-append e req posted.user (pos 0) (pos books.credit) n _ st books.chain
                  entered);
        }

    other-Ledger :
        (name parent : String) (room : ℕ)
        → (str_eq username name && str_eq parent_token parent) ≡ false
        → posted.statement.username ≡ username
        → posted.statement.parent_token ≡ posted.user.parent_token
        → Ledger e name parent room before
        → Ledger e name parent room after
    other-Ledger name parent room other su sp books =
        let change = with_balance {p = p} posted.statement.after_credit posted.time in
        let elsewhere = posted_elsewhere make req before after posted name parent other su sp in
        let missed : (x : AccountBalance p)
            → balance_key username parent_token x ≡ true
            → balance_key name parent x ≡ false =
          λ x h.
            other_key make req before after posted name parent x.username x.parent_token other h in
        record {
          account = books.account;
          credit = books.credit;
          first = rw (posted.stored) (
              find_first-change_other (balance_key username parent_token) (balance_key name parent)
                change before.balances missed missed
              ∙ books.first);
          active = books.active;
          holds = books.holds;
          fits = books.fits;
          chain = rw (elsewhere.1) books.chain;
        }

    -- The books of any member, from what a movement does to those of its own.
    either-Ledger :
        (name parent : String) (room room' : ℕ)
        → room' ≤ room
        → posted.statement.username ≡ username
        → posted.statement.parent_token ≡ posted.user.parent_token
        → (Ledger e username parent_token room before → Ledger e username parent_token room' after)
        → Ledger e name parent room before
        → Ledger e name parent room' after
    either-Ledger name parent room room' less su sp own books =
        elim (Bool-cases (str_eq username name && str_eq parent_token parent)) [
          | inl same ↦
              let (same_name, same_parent) = same_key username name parent_token parent same in
              subst (λ x. Ledger e x parent room' after) same_name
                (subst (λ x. Ledger e username x room' after) same_parent
                  (own (
                    subst (λ x. Ledger e x parent_token room before) (sym same_name)
                      (subst (λ x. Ledger e name x room before) (sym same_parent) books))))
          | inr other ↦
              Ledger-mono name parent room room' after less
                (other-Ledger name parent room other su sp books)
        ]

  -- A deposit takes its amount from the room.
  pub deposit-Ledger :
      (req : TransactionRequest p) (before after : Store p) (name parent : String) (n room : ℕ)
      → req.amount ≡ e.float (pos n)
      → Posted (create_deposit_statement p) req before after
      → Ledger e name parent (n + room) before
      → Ledger e name parent room after
  deposit-Ledger req before after name parent n room amount posted =
      let make = create_deposit_statement p in
      let named =
        deposit-Named p posted.at req posted.account.balance posted.user posted.statement
          posted.made in
      either-Ledger make req before after posted name parent (n + room) room (omega arith) named.0
        named.1
        (λ books.
          let total = plus books.credit n in
          own-Ledger make req before after posted (n + room) room (books.credit + n) (pos n) books
            (deposit-Entered e posted.at req posted.account.balance posted.user (pos books.credit)
              (pos n) posted.statement amount
              (rw (same_account make req before after posted (n + room) books) books.holds)
              (omega (arith, books.fits)) (omega (arith, books.fits))
              (rw total (omega (arith, books.fits))) posted.made)
            total (omega (arith, books.fits)))

  -- A withdrawal of something gives room.
  pub withdraw-Ledger :
      (req : TransactionRequest p) (before after : Store p) (name parent : String) (n room : ℕ)
      → req.amount ≡ e.float (pos n)
      → 1 ≤ n
      → Posted (create_withdraw_statement p) req before after
      → Ledger e name parent (n + room) before
      → Ledger e name parent room after
  withdraw-Ledger req before after name parent n room amount some_units posted =
      let make = create_withdraw_statement p in
      let named =
        withdraw-Named p posted.at req posted.account.balance posted.user posted.statement
          posted.made in
      either-Ledger make req before after posted name parent (n + room) room (omega arith) named.0
        named.1
        (λ books.
          let (covered, entered) =
            withdraw-Entered e posted.at req posted.account.balance posted.user (pos books.credit)
              (pos n) posted.statement amount
              (rw (same_account make req before after posted (n + room) books) books.holds)
              (ground arith) (omega (arith, books.fits)) (omega (arith, books.fits))
              (minus-InRange books.credit n (omega (arith, books.fits)) (omega (arith, books.fits)))
              posted.made in
          own-Ledger make req before after posted (n + room) room (books.credit - n)
            (pos 0 -ℤ pos n) books entered (minus books.credit n covered)
            (omega (arith, books.fits)))
