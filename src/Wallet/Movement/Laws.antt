-- ===== src/Wallet/Movement/Laws.antt =====
-- `HandleDeposit` and `HandleWithdraw` on every path: all or nothing.
use hexagonal_queue.Prelude.{
  ◌==◌, true, false, ℕ, String, ◌<>◌, ◌≡◌, refl, ◌≢◌, ◌∙◌, inl, inr, ◌⊎◌, none, some, ok, Error,
  error_text, arith, ◌⊎◌,
}
use mathlib.Core.Path.{subst}
use hexagonal_queue.Platform.{Platform}
use hexagonal_queue.Models.{AccountBalance, TransactionRequest, TransactionResponse}
use hexagonal_queue.Utils.Decimal.{convert_decimal128_to_float}
use hexagonal_queue.Service.{
  create_deposit_statement, create_withdraw_statement, validate_deposit_request,
  validate_withdraw_request,
}
use hexagonal_queue.Ports.{Context, background, session}
use hexagonal_queue.Ports.Store.{Store, find_user, find_balance}
use hexagonal_queue.Ports.Laws.{RepositoryLaws, RuntimeLaws}
use hexagonal_queue.Flow.{response, or_reply, and_then}
use hexagonal_queue.Flow.Ends.{Ends, Ends-mono, next-Ends, try-Ends, and_then-Ends, returned-Ends}
use hexagonal_queue.Wallet.{WalletUseCase}
use hexagonal_queue.Wallet.Movement.{
  process_deposit, process_withdraw, handle_deposit, handle_withdraw, finish,
}
use hexagonal_queue.Wallet.Movement.Posted.{Maker, Posted, IsStamped, process}
use hexagonal_queue.Wallet.Movement.Process.{Processed, refused, posted, process-Ends, not_200}

module _ {p : Platform} where
  abbrev pub deposit_failure : Error → TransactionResponse p
  deposit_failure e = response 500 ("Failed to create deposit statement: " <> error_text e)

  abbrev pub withdraw_failure : Error → TransactionResponse p
  withdraw_failure e = response 400 ("Failed to create withdraw statement: " <> error_text e)

  -- How a handler ends, told by what every other client sees before and after: refused with nothing
  -- changed, posted after the checks `Accepted`, or with a commit that failed, which posted or not.
  pub data Outcome (make : Maker p) (request : TransactionRequest p) (Accepted : Type 0)
      (before : Store p) (r : TransactionResponse p) (after : Store p) : Type 0 where
    untouched : r.status ≢ 200 → after ≡ before → Outcome make request Accepted before r after
    done :
        r.status ≡ 200
        → Accepted
        → Posted make request before after
        → Outcome make request Accepted before r after
    commit_failed :
        r ≡ response 500 "Failed to commit transaction"
        → Accepted
        → (after ≡ before) ⊎ Posted make request before after
        → Outcome make request Accepted before r after

  -- The request passed ValidateDepositRequest.
  abbrev pub DepositAccepted : TransactionRequest p → Type 0
  DepositAccepted request = validate_deposit_request p request ≡ ok tt

  -- The request passed ValidateWithdrawRequest at the balance that was found before.
  pub record WithdrawAccepted (request : TransactionRequest p) (before : Store p) : Type 0 where
    pub account : AccountBalance p
    pub current : p.Float
    pub found : find_balance request.username request.parent_token before ≡ some account
    pub current_of : convert_decimal128_to_float p account.balance ≡ ok current
    pub valid : validate_withdraw_request p request current ≡ ok tt

  deposit-IsStamped : IsStamped (create_deposit_statement p)
  unfolding create_deposit_statement
  deposit-IsStamped = record {
    id_of = λ at req d u st e. ground arith;
    time_of = λ at req d u st e. ground arith;
  }

  withdraw-IsStamped : IsStamped (create_withdraw_statement p)
  unfolding create_withdraw_statement
  withdraw-IsStamped = record {
    id_of = λ at req d u st e. ground arith;
    time_of = λ at req d u st e. ground arith;
  }

is_200 : (n : ℕ) → n ≡ 200 → (n == 200) ≡ true
is_200 n h = ground arith

isnt_200 : (n : ℕ) → n ≢ 200 → (n == 200) ≡ false
isnt_200 n h = ground arith

module _ {p : Platform} {S T : Type 0} (uc : WalletUseCase p S T) (view : Context T → S → Store p)
    (laws : RepositoryLaws view uc.wallet_repo) (runtime_laws : RuntimeLaws view uc.runtime) where
  open uc use {wallet_repo as repo}

  module _ (make : Maker p) (failure : Error → TransactionResponse p) (message : String)
      (stamped : IsStamped make) (fails : (e : Error) → (failure e).status ≢ 200)
      (request : TransactionRequest p) (Accepted : Type 0) (base : Store p) where
    abbrev Finished : TransactionResponse p → S → Type 0
    Finished r s' = Outcome make request Accepted base r (view background s')

    -- No user was found, nothing was changed, and the transaction was left open.
    abbrev Crashed : S → Type 0
    Crashed s' =
        (view background s' ≡ base) × (find_user request.username request.parent_token base ≡ none)

    finish-Ends :
        (t : T) (s : S) (r : TransactionResponse p) (s' : S)
        → Accepted
        → view background s ≡ base
        → view (session t) s ≡ base
        → Processed uc make failure message view laws runtime_laws stamped fails t request s r s'
        → Ends Finished Finished Crashed (finish uc t r s')
    finish-Ends t s r s' accepted b v (refused bad kept) =
        rw (isnt_200 r.status bad)
          (next-Ends _ _ _ _ _ (untouched bad (laws.abort_background t s' ∙ (kept ∙ b))))
    finish-Ends t s r s' accepted b v (posted good kept post) = rw (is_200 r.status good) (
        try-Ends _ _ _ _ _ (repo.commit t s')
          (λ _ committed. next-Ends _ _ _ _ _ (
            done good accepted (
              subst (λ d. Posted make request d (view background (repo.commit t s').1)) v
                (rw (laws.commit_ok t s' committed) post))))
          (λ e _. commit_failed refl accepted (elim (laws.commit_either t s') [
            | inl same ↦ inl (same ∙ (kept ∙ b))
            | inr moved ↦ inr (
                subst (λ d. Posted make request d (view background (repo.commit t s').1)) v
                  (rw moved post))
          ])))

    -- A transaction from its start, in a state that has not changed anything yet.
    transact-Ends :
        (σ : S)
        → Accepted
        → view background σ ≡ base
        → Ends Finished Finished Crashed (
            and_then
              (or_reply
                (repo.start_transaction background σ)
                (λ _. response 500 "Failed to start database transaction"))
              (λ tx s.
                and_then (process uc make failure message (session tx) request s) (finish uc tx)))
    transact-Ends σ accepted same =
        let started = laws.start_transaction_background background σ ∙ same in
        let σ' = (repo.start_transaction background σ).1 in
        try-Ends _ _ _ _ _ (repo.start_transaction background σ)
          (λ t e.
            let snapshot = laws.start_transaction_ok background σ t e ∙ same in
            and_then-Ends _ _ _ _ _ (
              Ends-mono _ _ _ _ _ _ _ (λ r s' h. finish-Ends t σ' r s' accepted started snapshot h)
                (λ r s' h. absurd h) (λ s' h. (h.0 ∙ started, rw (← snapshot) h.1))
                (process-Ends uc make failure message view laws runtime_laws stamped fails t request
                  σ')))
          (λ _ _. untouched (not_200 500 refl) started)

  -- HandleDeposit on a lawful repository: it responds with a status other than 200 and leaves the
  -- committed documents as they were; or responds 200 after the request passed
  -- ValidateDepositRequest and exactly one deposit was posted; or reports that the commit failed, which
  -- has posted exactly one deposit or changed nothing. It
  -- panics only if no user was found, and then has committed nothing.
  pub handle_deposit-Outcome :
      (request : TransactionRequest p) (s : S)
      → Ends
          (λ r s'.
            Outcome
              (create_deposit_statement p)
              request
              (DepositAccepted request)
              (view background s)
              r
              (view background s'))
          (λ r s'. ⊥)
          (λ s'.
            (view background s' ≡ view background s)
            × (find_user request.username request.parent_token (view background s) ≡ none))
          (handle_deposit uc background request s)
  unfolding handle_deposit process_deposit
  handle_deposit-Outcome request s = returned-Ends _ _ _ _ (
      try-Ends _ _ _ _ _ (validate_deposit_request p request, s)
        (λ _ valid.
          transact-Ends (create_deposit_statement p) deposit_failure "Deposit successful"
            deposit-IsStamped (λ e. not_200 500 refl) request (DepositAccepted request)
            (view background s) s valid refl)
        (λ _ _. untouched (not_200 400 refl) refl))

  -- HandleWithdraw on a lawful repository: it responds with a status other than 200 and leaves the
  -- committed documents as they were; or responds 200 after the request passed
  -- ValidateWithdrawRequest at the balance found and exactly one withdrawal was posted; or reports
  -- that the commit failed, which has posted exactly one withdrawal or changed nothing. It panics only if no user was found, and then has committed nothing.
  pub handle_withdraw-Outcome :
      (request : TransactionRequest p) (s : S)
      → Ends
          (λ r s'.
            Outcome
              (create_withdraw_statement p)
              request
              (WithdrawAccepted request (view background s))
              (view background s)
              r
              (view background s'))
          (λ r s'. ⊥)
          (λ s'.
            (view background s' ≡ view background s)
            × (find_user request.username request.parent_token (view background s) ≡ none))
          (handle_withdraw uc background request s)
  unfolding handle_withdraw process_withdraw
  handle_withdraw-Outcome request s =
      let u = request.username in
      let parent = request.parent_token in
      let s₁ = (repo.get_account_balance background u parent s).1 in
      let same = laws.get_account_balance_reads background u parent s background in
      returned-Ends _ _ _ _ (
        try-Ends _ _ _ _ _ (repo.get_account_balance background u parent s)
          (λ account e₁.
            try-Ends _ _ _ _ _ (convert_decimal128_to_float p account.balance, s₁)
              (λ current e₂.
                try-Ends _ _ _ _ _ (validate_withdraw_request p request current, s₁)
                  (λ _ valid.
                    transact-Ends (create_withdraw_statement p) withdraw_failure
                      "Withdraw successful" withdraw-IsStamped (λ e. not_200 400 refl) request
                      (WithdrawAccepted request (view background s)) (view background s) s₁
                      (record {
                        account = account;
                        current = current;
                        found = laws.get_account_balance_ok background u parent s account e₁;
                        current_of = e₂;
                        valid = valid;
                      })
                      same)
                  (λ _ _. untouched (not_200 400 refl) same))
              (λ _ _. untouched (not_200 500 refl) same))
          (λ _ _. untouched (not_200 404 refl) same))
