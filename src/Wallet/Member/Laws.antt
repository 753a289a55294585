-- ===== src/Wallet/Member/Laws.antt =====
-- `HandleCreateMember` on every path.
use hexagonal_queue.Prelude.{
  ◌≡◌, refl, sym, ◌∙◌, ap, ◌≢◌, ◌⊎◌, inl, inr, Option, none, some, Result, ok, err, Error,
  find_first, arith,
}
use hexagonal_queue.Platform.{Platform}
use hexagonal_queue.Models.{User, AccountBalance, TransactionRequest, TransactionResponse}
use hexagonal_queue.Utils.Text.{validate_username}
use hexagonal_queue.Ports.{Context}
use hexagonal_queue.Ports.Store.{Store, find_user, user_with_token, add_user, add_account}
use hexagonal_queue.Ports.Laws.{Reads, RepositoryLaws, RuntimeLaws}
use hexagonal_queue.Flow.{Action, response, and_then, or_reply}
use hexagonal_queue.Flow.Ends.{Ends, next-Ends, try-Ends, returned-Ends}
use hexagonal_queue.Wallet.{WalletUseCase}
use hexagonal_queue.Wallet.Member.{refuse_existing, need_parent, enrol, handle_create_member}

module _ {p : Platform} where
  -- A user as the code makes it under a parent, and an account as the code opens it.
  abbrev pub IsMember : TransactionRequest p → User → User → Type 0
  IsMember request parent user =
      (user.username ≡ request.username) × (user.parent_token ≡ parent.token) × (user.status ≡ 1)

  abbrev pub IsOpened : TransactionRequest p → AccountBalance p → Type 0
  IsOpened request account =
      (account.username ≡ request.username)
      × (account.parent_token ≡ request.parent_token)
      × (account.balance ≡ p.new_decimal128 0 0)
      × (account.status ≡ 1)

  -- How the handler ends: refused with nothing changed; a new user and an account of credit zero
  -- added and nothing else; or one of the two insertions failed, which may have been made all the
  -- same, the second one with the user left behind.
  pub data Joined (request : TransactionRequest p) (Free : Type 0) (before : Store p)
      (r : TransactionResponse p) (after : Store p) : Type 0 where
    untouched : r.status ≢ 200 → after ≡ before → Joined request Free before r after
    joined :
        (parent user : User) (account : AccountBalance p)
        → r.status ≡ 200
        → validate_username request.username ≡ ok tt
        → Free
        → find_first (user_with_token request.parent_token) before.users ≡ some parent
        → IsMember request parent user
        → IsOpened request account
        → after ≡ add_account account (add_user user before)
        → Joined request Free before r after
    user_failed :
        (parent : User)
        → r ≡ response 500 "Failed to create user"
        → (after ≡ before)
          ⊎ ((user : User) × IsMember request parent user × (after ≡ add_user user before))
        → Joined request Free before r after
    account_failed :
        (parent user : User)
        → r ≡ response 500 "Failed to create account balance"
        → IsMember request parent user
        → (after ≡ add_user user before)
          ⊎ ((account : AccountBalance p) × IsOpened request account
              × (after ≡ add_account account (add_user user before)))
        → Joined request Free before r after

module _ {p : Platform} {S T : Type 0} (uc : WalletUseCase p S T) where
  refuse-Ends :
      (Q R : TransactionResponse p → S → Type 0) (K : S → Type 0)
      (f : Action p S (TransactionResponse p)) (x : Result (Option User)) (s : S)
      → ((u : User) → x ≡ ok (some u) → R (response 409 "User already exists") s)
      → (x ≡ ok none → Ends Q R K (f s))
      → ((e : Error) → x ≡ err e → Ends Q R K (f s))
      → Ends Q R K (and_then (refuse_existing uc x s) (λ _. f))
  unfolding Ends
  refuse-Ends Q R K f (ok (some u)) s taken free broken = taken u refl
  refuse-Ends Q R K f (ok none) s taken free broken = free refl
  refuse-Ends Q R K f (err e) s taken free broken = broken e refl

  parent-Ends :
      (Q R : TransactionResponse p → S → Type 0) (K : S → Type 0)
      (f : User → Action p S (TransactionResponse p)) (x : Option User) (s : S)
      → (x ≡ none → R (response 404 "Parent user not found") s)
      → ((u : User) → x ≡ some u → Ends Q R K (f u s))
      → Ends Q R K (and_then (need_parent uc x s) f)
  unfolding Ends
  parent-Ends Q R K f none s missing found = missing refl
  parent-Ends Q R K f (some u) s missing found = found u refl

module _ {p : Platform} {S T : Type 0} (uc : WalletUseCase p S T) (view : Context T → S → Store p)
    (laws : RepositoryLaws view uc.wallet_repo) (runtime_laws : RuntimeLaws view uc.runtime)
    (c : Context T) (request : TransactionRequest p) (s : S) where
  open uc use {wallet_repo as repo, runtime}

  -- No user of this name was found, or the lookup failed, which the code does not tell apart.
  abbrev pub NameFree : Type 0
  NameFree =
      (find_user request.username request.parent_token (view c s) ≡ none)
      ⊎ ((e : Error) × ((repo.get_user_by_username c request.username request.parent_token s).0
            ≡ err e))

  abbrev pub Done : TransactionResponse p → S → Type 0
  Done r s' = Joined request NameFree (view c s) r (view c s')

  enrol-Ends :
      (σ : S) (parent : User)
      → Reads view s σ
      → validate_username request.username ≡ ok tt
      → NameFree
      → find_first (user_with_token request.parent_token) (view c s).users ≡ some parent
      → Ends Done Done (λ s'. ⊥) (enrol uc c request parent σ)
  enrol-Ends σ parent reads valid free found =
      let (uuid, σ₁) = runtime.generate_uuid σ in
      let (id, σ₂) = runtime.new_object_id σ₁ in
      let (time, σ₃) = runtime.now σ₂ in
      let (updated, σ₄) = runtime.now σ₃ in
      let reads₄ : Reads view s σ₄ = λ c.
        runtime_laws.now_reads σ₃ c
        ∙ (runtime_laws.now_reads σ₂ c
            ∙ (runtime_laws.id_reads σ₁ c ∙ (runtime_laws.uuid_reads σ c ∙ reads c))) in
      let user : User = record {
        id = id;
        username = request.username;
        parent_token = parent.token;
        token = uuid;
        type_member = "member";
        status = 1;
        created_at = time;
        updated_at = updated;
      } in
      try-Ends _ _ _ _ _ (repo.create_user c user σ₄)
        (λ _ inserted.
          let (d₁, d₂, added) =
            laws.create_user_ok c user σ₄ (runtime_laws.id_nonzero σ₁) inserted in
          let τ = (repo.create_user c user σ₄).1 in
          let (id', τ₁) = runtime.new_object_id τ in
          let (time', τ₂) = runtime.now τ₁ in
          let (updated', τ₃) = runtime.now τ₂ in
          let reads' : Reads view τ τ₃ = λ c.
            runtime_laws.now_reads τ₂ c
            ∙ (runtime_laws.now_reads τ₁ c ∙ runtime_laws.id_reads τ c) in
          let account : AccountBalance p = record {
            id = id';
            username = request.username;
            parent_token = request.parent_token;
            token = request.token;
            balance = p.new_decimal128 0 0;
            status = 1;
            created_at = time';
            updated_at = updated';
          } in
          try-Ends _ _ _ _ _ (repo.create_account_balance c account τ₃)
            (λ _ opened.
              let (e₁, e₂, extended) =
                laws.create_account_balance_ok c account τ₃ (runtime_laws.id_nonzero τ) opened in
              let stored : User = record user { created_at = d₁; updated_at = d₂ } in
              let held : AccountBalance p = record account { created_at = e₁; updated_at = e₂ } in
              let τ₄ = (repo.create_account_balance c account τ₃).1 in
              next-Ends _ _ _ _ _ (
                joined parent stored held refl valid free found (refl, refl, refl)
                  (refl, refl, refl, refl)
                  (runtime_laws.now_reads τ₄ c
                    ∙ (extended
                        ∙ ap (add_account held)
                            (reads' c ∙ (added ∙ ap (add_user stored) (reads₄ c)))))))
            (λ _ _.
              let stored : User = record user { created_at = d₁; updated_at = d₂ } in
              let base = reads' c ∙ (added ∙ ap (add_user stored) (reads₄ c)) in
              account_failed parent stored refl (refl, refl, refl)
                (elim (laws.create_account_balance_either c account τ₃
                  (runtime_laws.id_nonzero τ)) [
                    | inl same ↦ inl (same ∙ base)
                    | inr (e₁, e₂, more) ↦
                        let held : AccountBalance p = record account {
                          created_at = e₁;
                          updated_at = e₂;
                        } in
                        inr (held, (refl, refl, refl, refl), more ∙ ap (add_account held) base)
                  ])))
        (λ _ _.
          user_failed parent refl
            (elim (laws.create_user_either c user σ₄ (runtime_laws.id_nonzero σ₁)) [
              | inl same ↦ inl (same ∙ reads₄ c)
              | inr (d₁, d₂, more) ↦
                  let stored : User = record user { created_at = d₁; updated_at = d₂ } in
                  inr (stored, (refl, refl, refl), more ∙ ap (add_user stored) (reads₄ c))
            ]))

  pub handle_create_member-Joined :
      Ends
        (λ r s'. Joined request NameFree (view c s) r (view c s'))
        (λ r s'. ⊥)
        (λ s'. ⊥)
        (handle_create_member uc c request s)
  unfolding handle_create_member
  handle_create_member-Joined =
      let name = request.username in
      let token = request.parent_token in
      let x = repo.get_user_by_username c name token s in
      let reads₁ = laws.get_user_by_username_reads c name token s in
      let y = repo.get_user_by_token c token x.1 in
      let reads₂ : Reads view s y.1 =
        λ c'. laws.get_user_by_token_reads c token x.1 c' ∙ reads₁ c' in
      returned-Ends _ _ _ _ (
        try-Ends _ _ _ _ _ (validate_username name, s)
          (λ _ valid.
            let rest : NameFree
                → Ends Done Done (λ s'. ⊥)
                    (and_then (or_reply y (λ _. response 500 "Failed to get parent user"))
                      (λ found σ. and_then (need_parent uc found σ) (enrol uc c request))) =
              λ free.
                try-Ends _ _ _ _ _ y
                  (λ found e.
                    let known =
                      ap (λ (d : Store p). find_first (user_with_token token) d.users)
                        (sym (reads₁ c))
                      ∙ sym (laws.get_user_by_token_ok c token x.1 found e) in
                    parent-Ends uc _ _ _ _ found y.1
                      (λ _. untouched (λ h. omega (arith, h)) (reads₂ c))
                      (λ parent some_parent.
                        enrol-Ends y.1 parent reads₂ valid free (known ∙ some_parent)))
                  (λ _ _. untouched (λ h. omega (arith, h)) (reads₂ c)) in
            refuse-Ends uc _ _ _ _ x.0 x.1 (λ _ _. untouched (λ h. omega (arith, h)) (reads₁ c))
              (λ e. rest (inl (sym (laws.get_user_by_username_ok c name token s none e))))
              (λ e h. rest (inr (e, h))))
          (λ _ _. untouched (λ h. omega (arith, h)) refl))
