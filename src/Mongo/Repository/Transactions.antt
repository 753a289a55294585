-- ===== src/Mongo/Repository/Transactions.antt =====
-- Sessions of `MongoAdapter` and the documents that others see.
use hexagonal_queue.Prelude.{◌≡◌, ◌∙◌, Result, ok, err, arith, ◌⊎◌, inl, inr}
use hexagonal_queue.Platform.{Platform}
use hexagonal_queue.Ports.{Context, background, session, Runtime}
use hexagonal_queue.Ports.Store.{Store}
use hexagonal_queue.Ports.Laws.{RuntimeLaws}
use hexagonal_queue.Operation.Lands.{Lands, Lands-out, any-Lands, wrapping-Lands}
use hexagonal_queue.Mongo.Driver.{Driver}
use hexagonal_queue.Mongo.Laws.{DriverLaws}
use hexagonal_queue.Mongo.Adapter.{begun, start_transaction, commit, abort}

module _ {p : Platform} {S T : Type 0} (driver : Driver p S T) (runtime : Runtime S)
    (view : Context T → S → Store p) (laws : DriverLaws view driver)
    (runtime_laws : RuntimeLaws view runtime) where
  pub begun-Lands :
      (P : S → Type 0) (t : T) (x : Result (Unit {0}) × S)
      → P x.1
      → P (driver.end_session t x.1)
      → Lands P (begun driver runtime t x)
  begun-Lands P t (ok _, s) kept ended = any-Lands P _ kept
  begun-Lands P t (err e, s) kept ended = any-Lands P _ ended

  pub start_transaction_background :
      (c : Context T) (s : S)
      → view background (start_transaction driver runtime c s).1 ≡ view background s
  unfolding start_transaction
  start_transaction_background c s =
      let Same : S → Type 0 = λ σ. view background σ ≡ view background s in
      let σ = (driver.start_session s).1 in
      let started = laws.start_session_reads s background in
      let landed : Lands Same (start_transaction driver runtime c s) =
        wrapping-Lands Same _ (driver.start_session s) _
          (λ t.
            let kept = laws.start_transaction_background t σ ∙ started in
            begun-Lands Same t (driver.start_transaction t σ) kept
              (laws.end_session_background t (driver.start_transaction t σ).1 ∙ kept))
          started in
      Lands-out Same _ landed

  pub start_transaction_ok :
      (c : Context T) (s : S) (t : T)
      → (start_transaction driver runtime c s).0 ≡ ok t
      → view (session t) (start_transaction driver runtime c s).1 ≡ view background s
  unfolding start_transaction
  start_transaction_ok c s t e =
      let σ = (driver.start_session s).1 in
      ground (arith, laws.start_session_reads s background, laws.start_transaction_ok t σ)

  pub commit_ok :
      (t : T) (s : S)
      → (commit driver runtime t s).0 ≡ ok tt
      → view background (commit driver runtime t s).1 ≡ view (session t) s
  unfolding commit
  commit_ok t s e =
      laws.end_session_background t (driver.commit_transaction t s).1
      ∙ laws.commit_transaction_ok t s e

  pub commit_either :
      (t : T) (s : S)
      → (view background (commit driver runtime t s).1 ≡ view background s)
        ⊎ (view background (commit driver runtime t s).1 ≡ view (session t) s)
  unfolding commit
  commit_either t s =
      let ended = laws.end_session_background t (driver.commit_transaction t s).1 in
      elim (laws.commit_transaction_either t s) [
        | inl h ↦ inl (ended ∙ h)
        | inr h ↦ inr (ended ∙ h)
      ]

  pub abort_background :
      (t : T) (s : S) → view background (abort driver runtime t s).1 ≡ view background s
  unfolding abort
  abort_background t s =
      laws.end_session_background t (driver.abort_transaction t s).1
      ∙ laws.abort_transaction_background t s
