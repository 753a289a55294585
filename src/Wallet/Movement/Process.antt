-- ===== src/Wallet/Movement/Process.antt =====
-- How `processDeposit` and `processWithdraw` end inside a transaction, on every path.
use hexagonal_queue.Prelude.{
  ap, sym, ◌==◌, false, ℕ, String, ◌≡◌, refl, ◌≢◌, ◌∙◌, none, some, ok, Error, arith,
}
use mathlib.Core.Path.{subst}
use hexagonal_queue.Platform.{Platform}
use hexagonal_queue.Models.{
  User, AccountBalance, WalletStatement, TransactionRequest, TransactionResponse,
}
use hexagonal_queue.Service.{Stamp, validate_balance_consistency}
use hexagonal_queue.Ports.{Context, background, session}
use hexagonal_queue.Ports.Store.{Store, find_user, find_balance, IsLast, set_balance, add_statement}
use hexagonal_queue.Ports.Laws.{Reads, RepositoryLaws, RuntimeLaws}
use hexagonal_queue.Flow.Ends.{Ends, next-Ends, try-Ends, deref-Ends, returned-Ends}
use hexagonal_queue.Wallet.{WalletUseCase}
use hexagonal_queue.Wallet.Movement.Posted.{Maker, Posted, IsStamped, process, post}

pub not_200 : (n : ℕ) → (n == 200) ≡ false → n ≢ 200
not_200 n h = ground arith

module _ {p : Platform} {S T : Type 0} (uc : WalletUseCase p S T) (make : Maker p)
    (failure : Error → TransactionResponse p) (message : String) (view : Context T → S → Store p)
    (laws : RepositoryLaws view uc.wallet_repo) (runtime_laws : RuntimeLaws view uc.runtime)
    (stamped : IsStamped make) (fails : (e : Error) → (failure e).status ≢ 200) where
  open uc use {wallet_repo as repo}

  pub data Processed (t : T) (request : TransactionRequest p) (s : S) (r : TransactionResponse p)
      (s' : S) : Type 0 where
    refused : r.status ≢ 200 → view background s' ≡ view background s → Processed t request s r s'
    posted :
        r.status ≡ 200
        → view background s' ≡ view background s
        → Posted make request (view (session t) s) (view (session t) s')
        → Processed t request s r s'

  module _ (t : T) (request : TransactionRequest p) (s : S) where
    open request use {username, parent_token}

    -- No user was found, and the pointer to it is read.
    abbrev pub NoUser : S → Type 0
    NoUser s' =
        (view background s' ≡ view background s)
        × (find_user username parent_token (view (session t) s) ≡ none)

    abbrev pub Never : TransactionResponse p → S → Type 0
    Never r s' = ⊥

    post-Ends :
        (σ : S) (user : User) (account : AccountBalance p) (last : WalletStatement p)
        → Reads view s σ
        → find_user username parent_token (view (session t) s) ≡ some user
        → find_balance username parent_token (view (session t) s) ≡ some account
        → IsLast username parent_token (view (session t) s) last
        → validate_balance_consistency p account.balance last.after_credit ≡ ok tt
        → Ends
            (Processed t request s)
            (Processed t request s)
            NoUser
            (post uc make failure message (session t) request account user σ)
    post-Ends σ user account last reads found_u found_a found_l agrees =
        let (id, σ₁) = uc.runtime.new_object_id σ in
        let (time, σ₂) = uc.runtime.now σ₁ in
        let at : Stamp = record { object_id = id; time = time } in
        let c : Context T = session t in
        let reads₂ : Reads view s σ₂ =
          λ c. runtime_laws.now_reads σ₁ c ∙ (runtime_laws.id_reads σ c ∙ reads c) in
        try-Ends _ _ _ _ _ (make at request account.balance user, σ₂)
          (λ st made.
            let σ₃ = (repo.create_wallet_statement c st σ₂).1 in
            let kept = laws.create_wallet_statement_session t st σ₂ ∙ reads₂ background in
            try-Ends _ _ _ _ _ (repo.create_wallet_statement c st σ₂)
              (λ r saved.
                let kept₂ =
                  laws.update_account_balance_session t username parent_token st.after_credit σ₃
                  ∙ kept in
                try-Ends _ _ _ _ _
                  (repo.update_account_balance c username parent_token st.after_credit σ₃)
                  (λ _ updated.
                    let (w, written) =
                      laws.update_account_balance_ok c username parent_token st.after_credit σ₃
                        updated in
                    let added =
                      laws.create_wallet_statement_ok c st r σ₂
                        (rw (stamped.id_of at request account.balance user st made)
                          (runtime_laws.id_nonzero σ))
                        (rw (stamped.time_of at request account.balance user st made)
                          (runtime_laws.now_nonzero σ₁))
                        saved
                      ∙ ap (add_statement st) (reads₂ c) in
                    next-Ends _ _ _ _ _ (
                      posted refl kept₂ (record {
                        user = user;
                        account = account;
                        last = last;
                        at = at;
                        statement = st;
                        time = w;
                        user_found = found_u;
                        account_found = found_a;
                        last_found = found_l;
                        consistent = agrees;
                        made = made;
                        stored =
                            written
                            ∙ ap (set_balance username parent_token st.after_credit w) added;
                      })))
                  (λ _ _. refused (not_200 500 refl) kept₂))
              (λ _ _. refused (not_200 500 refl) kept))
          (λ e _. refused (fails e) (reads₂ background))

    pub process-Ends :
        Ends
          (Processed t request s)
          Never
          NoUser
          (process uc make failure message (session t) request s)
    process-Ends =
        let c : Context T = session t in
        let σ₁ = (repo.get_user_by_username c username parent_token s).1 in
        let σ₂ = (repo.get_account_balance c username parent_token σ₁).1 in
        let σ₃ = (repo.get_last_wallet_statement c username parent_token σ₂).1 in
        let reads₁ = laws.get_user_by_username_reads c username parent_token s in
        let reads₂ : Reads view s σ₂ =
          λ c'. laws.get_account_balance_reads c username parent_token σ₁ c' ∙ reads₁ c' in
        let reads₃ : Reads view s σ₃ =
          λ c'. laws.get_last_wallet_statement_reads c username parent_token σ₂ c' ∙ reads₂ c' in
        returned-Ends _ _ _ _ (
          try-Ends _ _ _ _ _ (repo.get_user_by_username c username parent_token s)
            (λ user e₁.
              let found = laws.get_user_by_username_ok c username parent_token s user e₁ in
              try-Ends _ _ _ _ _ (repo.get_account_balance c username parent_token σ₁)
                (λ account e₂.
                  let found_a =
                    ap (find_balance username parent_token) (sym (reads₁ c))
                    ∙ laws.get_account_balance_ok c username parent_token σ₁ account e₂ in
                  try-Ends _ _ _ _ _ (repo.get_last_wallet_statement c username parent_token σ₂)
                    (λ last e₃.
                      let found_l =
                        subst (λ d. IsLast username parent_token d last) (reads₂ c)
                          (laws.get_last_wallet_statement_ok c username parent_token σ₂ last e₃) in
                      try-Ends _ _ _ _ _
                        (validate_balance_consistency p account.balance last.after_credit, σ₃)
                        (λ _ agrees.
                          deref-Ends _ _ _ _ user σ₃
                            (λ u e.
                              post-Ends σ₃ u account last reads₃ (sym found ∙ e) found_a found_l
                                agrees)
                            (λ e. (reads₃ background, sym found ∙ e)))
                        (λ _ _. refused (not_200 500 refl) (reads₃ background)))
                    (λ _ _. refused (not_200 500 refl) (reads₃ background)))
                (λ _ _. refused (not_200 404 refl) (reads₂ background)))
            (λ _ _. refused (not_200 404 refl) (reads₁ background)))
