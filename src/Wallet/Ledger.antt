-- ===== src/Wallet/Ledger.antt =====
-- The books of one member, kept by any sequence of movements: every statement starts from the credit
-- that the one before left, the first from nothing, and the account holds what the last one left.
pub mod Entries
pub mod Steps
pub mod Opening
pub mod Calls
use hexagonal_queue.Prelude.{
  ℕ, ◌+◌, ◌≤◌, String, ◌≡◌, ◌∙◌, sym, true, some, List, [], ◌∷◌, ◌++◌, ok, find_first, arith,
}
use hexagonal_queue.Prelude.Int.{ℤ, pos, ◌+ℤ◌}
use hexagonal_queue.Platform.{Platform}
use hexagonal_queue.Platform.Exact.{Exact, unit_bound}
use hexagonal_queue.Models.{AccountBalance, WalletStatement}
use hexagonal_queue.Ports.Store.{Store, balance_key, balance_active, history}

module _ {p : Platform} (e : Exact p) where
  -- The decimal reads as `n` units.
  abbrev pub Amount : p.Decimal → ℤ → Type 0
  Amount d n = p.parse_float (p.decimal_string d) ≡ ok (e.float n)

  -- Statements that lead from `a` units to `b` units, each from where the one before ended.
  abbrev pub Chained : ℤ → List (WalletStatement p) → ℤ → Type 0
  Chained a [] b = a ≡ b
  Chained a (st ∷ rest) b =
      (n : ℤ) × Amount st.amount n
      × Amount st.before_credit a
      × Amount st.after_credit (a +ℤ n)
      × Chained (a +ℤ n) rest b

  -- The books of a member, with room for `room` more units: the first account under the member's key
  -- is active and holds `credit` units, to which the statements of the member lead from nothing.
  pub record Ledger (name parent : String) (room : ℕ) (d : Store p) : Type 0 where
    pub account : AccountBalance p
    pub credit : ℕ
    pub first : find_first (balance_key name parent) d.balances ≡ some account
    pub active : balance_active name parent account ≡ true
    pub holds : Amount account.balance (pos credit)
    pub fits : credit + room ≤ unit_bound
    pub chain : Chained (pos 0) (history name parent d) (pos credit)
