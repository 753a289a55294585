-- ===== src/Wallet/Ledger/Opening.antt =====
-- New users and accounts keep the books of the others and open those of a new member.
use hexagonal_queue.Prelude.{
  ℕ, ◌≤◌, String, ◌≡◌, refl, none, [], ◌∷◌, find_first, find_first-append, find_first-missed, arith,
  str_eq_refl,
}
use hexagonal_queue.Platform.{Platform}
use hexagonal_queue.Platform.Exact.{Exact, unit_bound}
use hexagonal_queue.Models.{User, AccountBalance}
use hexagonal_queue.Ports.Store.{Store, balance_key, history, add_user, add_account}
use hexagonal_queue.Wallet.Ledger.{Ledger}

module _ {p : Platform} (e : Exact p) where
  pub add_user-Ledger :
      (name parent : String) (room : ℕ) (d : Store p) (u : User)
      → Ledger e name parent room d
      → Ledger e name parent room (add_user u d)
  add_user-Ledger name parent room d u books = record {
    account = books.account;
    credit = books.credit;
    first = books.first;
    active = books.active;
    holds = books.holds;
    fits = books.fits;
    chain = books.chain;
  }

  pub add_account-Ledger :
      (name parent : String) (room : ℕ) (d : Store p) (b : AccountBalance p)
      → Ledger e name parent room d
      → Ledger e name parent room (add_account b d)
  add_account-Ledger name parent room d b books = record {
    account = books.account;
    credit = books.credit;
    first =
        find_first-append (balance_key name parent) d.balances (b ∷ []) books.account books.first;
    active = books.active;
    holds = books.holds;
    fits = books.fits;
    chain = books.chain;
  }

  -- An active account of credit zero opens the books of a member who has neither an account nor a
  -- statement.
  pub opened-Ledger :
      (room : ℕ) (d : Store p) (u : User) (b : AccountBalance p)
      → room ≤ unit_bound
      → find_first (balance_key b.username b.parent_token) d.balances ≡ none
      → history b.username b.parent_token d ≡ []
      → b.status ≡ 1
      → b.balance ≡ p.new_decimal128 0 0
      → Ledger e b.username b.parent_token room (add_account b (add_user u d))
  opened-Ledger room d u b fits unknown blank live nothing = record {
    account = b;
    credit = 0;
    first =
        find_first-missed (balance_key b.username b.parent_token) d.balances b unknown
          (rw (str_eq_refl b.username, str_eq_refl b.parent_token));
    active = rw (str_eq_refl b.username, str_eq_refl b.parent_token, live);
    holds = rw nothing e.read_zero;
    fits = omega (arith, fits);
    chain = rw blank refl;
  }
