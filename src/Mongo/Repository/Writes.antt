-- ===== src/Mongo/Repository/Writes.antt =====
-- What the writing methods of `MongoAdapter` do to the documents.
use hexagonal_queue.Prelude.{Bool, ◌==◌, ℕ, String, ◌≡◌, ◌∙◌, ap, ◌≢◌, ok, ◌⊎◌, inl, inr}
use hexagonal_queue.Platform.{Platform}
use hexagonal_queue.Models.{User, AccountBalance, WalletStatement}
use hexagonal_queue.Ports.{Context, background, session, Runtime}
use hexagonal_queue.Ports.Store.{
  set_user, Store, set_balance, add_statement, balance_key, with_balance, add_user, add_account,
}
use hexagonal_queue.Ports.Laws.{RuntimeLaws}
use hexagonal_queue.Operation.{pure, and_then, rewrap}
use hexagonal_queue.Operation.Lands.{Lands, Lands-out, any-Lands, and_then-Lands, wrapping-Lands}
use hexagonal_queue.Mongo.Driver.{Driver}
use hexagonal_queue.Mongo.Laws.{DriverLaws}
use hexagonal_queue.Mongo.Adapter.{
  update_user, fresh_id, fresh_time, create_wallet_statement, update_account_balance, create_user,
  create_account_balance,
}
use hexagonal_queue.Mongo.Repository.Steps.{
  saved-ok, matched-ok, rewrapped-ok, rewrap_state, isnt_0,
}
use hexagonal_queue.Mongo.Repository.Reads.{fresh_id-Reads, fresh_time-Reads}

module _ {p : Platform} {S T : Type 0} (driver : Driver p S T) (runtime : Runtime S)
    (view : Context T → S → Store p) (laws : DriverLaws view driver)
    (runtime_laws : RuntimeLaws view runtime) where
  pub create_wallet_statement_session :
      (t : T) (st : WalletStatement p) (s : S)
      → view background (create_wallet_statement driver runtime (session t) st s).1
        ≡ view background s
  unfolding create_wallet_statement
  create_wallet_statement_session t st s =
      let Same : S → Type 0 = λ σ. view background σ ≡ view background s in
      let σ₁ = (fresh_id driver runtime st.id s).1 in
      let r₁ = fresh_id-Reads driver runtime view laws runtime_laws st.id s background in
      let σ₂ = (fresh_time driver runtime st.datetime σ₁).1 in
      let r₂ =
        fresh_time-Reads driver runtime view laws runtime_laws st.datetime σ₁ background ∙ r₁ in
      let landed : Lands Same (create_wallet_statement driver runtime (session t) st s) =
        and_then-Lands Same (fresh_id driver runtime st.id s) _
          (λ id.
            and_then-Lands _ (fresh_time driver runtime st.datetime σ₁) _
              (λ time.
                let new : WalletStatement p = record st { id = id; datetime = time } in
                let kept = laws.statements.insert_one_session t new σ₂ ∙ r₂ in
                wrapping-Lands _ _ (driver.statements.insert_one (session t) new σ₂) _
                  (λ _. any-Lands _ _ kept) kept)
              r₂)
          r₁ in
      Lands-out Same _ landed

  pub create_wallet_statement_eq :
      (c : Context T) (st : WalletStatement p) (s : S)
      → st.id ≢ 0
      → st.datetime ≢ 0
      → create_wallet_statement driver runtime c st s
        ≡ and_then
            (rewrap "failed to create wallet statement: " (driver.statements.insert_one c st s))
            (λ _. pure st)
  unfolding create_wallet_statement
  create_wallet_statement_eq c st s h k = rw (isnt_0 st.id h, isnt_0 st.datetime k)

  pub update_account_balance_session :
      (t : T) (u parent : String) (d : p.Decimal) (s : S)
      → view background (update_account_balance driver runtime (session t) u parent d s).1
        ≡ view background s
  unfolding update_account_balance
  update_account_balance_session t u parent d s =
      let Same : S → Type 0 = λ σ. view background σ ≡ view background s in
      let (time, σ) = runtime.now s in
      let kept =
        laws.balances.update_one_session t (balance_key u parent) (with_balance d time) σ
        ∙ runtime_laws.now_reads s background in
      let landed : Lands Same (update_account_balance driver runtime (session t) u parent d s) =
        wrapping-Lands _ _
          (driver.balances.update_one (session t) (balance_key u parent) (with_balance d time) σ) _
          (λ n. any-Lands _ _ kept) kept in
      Lands-out Same _ landed

  pub update_account_balance_ok :
      (c : Context T) (u parent : String) (d : p.Decimal) (s : S)
      → (update_account_balance driver runtime c u parent d s).0 ≡ ok tt
      → (time : ℕ) × (view c (update_account_balance driver runtime c u parent d s).1
          ≡ set_balance u parent d time (view c s))
  unfolding update_account_balance
  update_account_balance_ok c u parent d s e =
      let (time, σ) = runtime.now s in
      let f = balance_key u parent in
      let change = with_balance d time in
      let (n, counted, some_match, state) =
        matched-ok _ _ (driver.balances.update_one c f change σ) e in
      (
        time,
        ap (view c) state
            ∙ (laws.balances.update_one_ok c f change σ n counted some_match
                ∙ ap (set_balance u parent d time) (runtime_laws.now_reads s c)),
      )

  pub create_wallet_statement_ok :
      (c : Context T) (st r : WalletStatement p) (s : S)
      → st.id ≢ 0
      → st.datetime ≢ 0
      → (create_wallet_statement driver runtime c st s).0 ≡ ok r
      → view c (create_wallet_statement driver runtime c st s).1 ≡ add_statement st (view c s)
  create_wallet_statement_ok c st r s h k e =
      let eq = create_wallet_statement_eq c st s h k in
      let (inserted, state) = saved-ok _ st (driver.statements.insert_one c st s) r (rw eq at e) in
      rw (eq, state) (laws.statements.insert_one_ok c st s inserted)

  pub create_user_ok :
      (c : Context T) (u : User) (s : S)
      → u.id ≢ 0
      → (create_user driver runtime c u s).0 ≡ ok tt
      → (created : ℕ) × (updated : ℕ) × (view c (create_user driver runtime c u s).1
          ≡ add_user (record u { created_at = created; updated_at = updated }) (view c s))
  unfolding create_user
  create_user_ok c u s h e =
      let (created, σ₁) = runtime.now s in
      let (updated, σ₂) = runtime.now σ₁ in
      let new : User = record u { created_at = created; updated_at = updated } in
      let same = runtime_laws.now_reads σ₁ c ∙ runtime_laws.now_reads s c in
      let (inserted, state) =
        rewrapped-ok _ (driver.users.insert_one c new σ₂) tt (rw (isnt_0 u.id h) at e) in
      (
        created,
        updated,
        rw (isnt_0 u.id h) (
            ap (view c) state
            ∙ (laws.users.insert_one_ok c new σ₂ inserted ∙ ap (add_user new) same)),
      )

  pub update_user_ok :
      (c : Context T) (u : User) (s : S)
      → (update_user driver runtime c u s).0 ≡ ok tt
      → (updated : ℕ) × (view c (update_user driver runtime c u s).1
          ≡ set_user (record u { updated_at = updated }) (view c s))
  unfolding update_user
  update_user_ok c u s e =
      let (updated, σ) = runtime.now s in
      let changed : User = record u { updated_at = updated } in
      let f : User → Bool = λ v. v.id == u.id in
      let (n, counted, some_match, state) =
        matched-ok _ _ (driver.users.update_one c f (λ _. changed) σ) e in
      (
        updated,
        ap (view c) state
            ∙ (laws.users.update_one_ok c f (λ _. changed) σ n counted some_match
                ∙ ap (set_user changed) (runtime_laws.now_reads s c)),
      )

  pub create_account_balance_ok :
      (c : Context T) (b : AccountBalance p) (s : S)
      → b.id ≢ 0
      → (create_account_balance driver runtime c b s).0 ≡ ok tt
      → (created : ℕ) × (updated : ℕ) × (view c (create_account_balance driver runtime c b s).1
          ≡ add_account (record b { created_at = created; updated_at = updated }) (view c s))
  unfolding create_account_balance
  create_account_balance_ok c b s h e =
      let (created, σ₁) = runtime.now s in
      let (updated, σ₂) = runtime.now σ₁ in
      let new : AccountBalance p = record b { created_at = created; updated_at = updated } in
      let same = runtime_laws.now_reads σ₁ c ∙ runtime_laws.now_reads s c in
      let (inserted, state) =
        rewrapped-ok _ (driver.balances.insert_one c new σ₂) tt (rw (isnt_0 b.id h) at e) in
      (
        created,
        updated,
        rw (isnt_0 b.id h) (
            ap (view c) state
            ∙ (laws.balances.insert_one_ok c new σ₂ inserted ∙ ap (add_account new) same)),
      )

  pub create_user_either :
      (c : Context T) (u : User) (s : S)
      → u.id ≢ 0
      → (view c (create_user driver runtime c u s).1 ≡ view c s)
        ⊎ ((created : ℕ) × (updated : ℕ) × (view c (create_user driver runtime c u s).1
              ≡ add_user (record u { created_at = created; updated_at = updated }) (view c s)))
  unfolding create_user
  create_user_either c u s h =
      let (created, σ₁) = runtime.now s in
      let (updated, σ₂) = runtime.now σ₁ in
      let new : User = record u { created_at = created; updated_at = updated } in
      let same = runtime_laws.now_reads σ₁ c ∙ runtime_laws.now_reads s c in
      rw (isnt_0 u.id h) (elim (laws.users.insert_one_either c new σ₂) [
        | inl e ↦ inl (ap (view c) (rewrap_state _ (driver.users.insert_one c new σ₂)) ∙ (e ∙ same))
        | inr e ↦ inr (
          created,
          updated,
          ap (view c) (rewrap_state _ (driver.users.insert_one c new σ₂))
              ∙ (e ∙ ap (add_user new) same),
        )
      ])

  pub create_account_balance_either :
      (c : Context T) (b : AccountBalance p) (s : S)
      → b.id ≢ 0
      → (view c (create_account_balance driver runtime c b s).1 ≡ view c s)
        ⊎ ((created : ℕ) × (updated : ℕ) × (view c (create_account_balance driver runtime c b s).1
              ≡ add_account (record b { created_at = created; updated_at = updated }) (view c s)))
  unfolding create_account_balance
  create_account_balance_either c b s h =
      let (created, σ₁) = runtime.now s in
      let (updated, σ₂) = runtime.now σ₁ in
      let new : AccountBalance p = record b { created_at = created; updated_at = updated } in
      let same = runtime_laws.now_reads σ₁ c ∙ runtime_laws.now_reads s c in
      rw (isnt_0 b.id h) (elim (laws.balances.insert_one_either c new σ₂) [
        | inl e ↦
            inl (ap (view c) (rewrap_state _ (driver.balances.insert_one c new σ₂)) ∙ (e ∙ same))
        | inr e ↦ inr (
          created,
          updated,
          ap (view c) (rewrap_state _ (driver.balances.insert_one c new σ₂))
              ∙ (e ∙ ap (add_account new) same),
        )
      ])
