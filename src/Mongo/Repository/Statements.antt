-- ===== src/Mongo/Repository/Statements.antt =====
-- The history of an account: a page of it, and what clearing the old statements leaves.
pub mod Keeping
pub mod Kept
use hexagonal_queue.Prelude.{
  ℕ, String, ◌≡◌, refl, sym, ap, ◌∙◌, ◌≢◌, Bool, true, false, not, ◌&&◌, Option, some, List, [],
  ◌∷◌, Result, ok, err, Error, map, keep, Newest, arith, inl, inr, Result-cases, ok-injective,
  Leading, Newest-Leading,
}
use hexagonal_queue.Prelude.Int.{pos}
use hexagonal_queue.Platform.{Platform}
use hexagonal_queue.Models.{User, WalletStatement}
use hexagonal_queue.Ports.{Context, Runtime}
use hexagonal_queue.Ports.Store.{at_time, Store, statement_key, history}
use hexagonal_queue.Ports.Laws.{Reads, RuntimeLaws}
use hexagonal_queue.Operation.{pure, and_then, rewrap}
use hexagonal_queue.Mongo.Driver.{descending, Driver, Cursor}
use hexagonal_queue.Mongo.Laws.{DriverLaws}
use hexagonal_queue.Mongo.Adapter.{
  id_in, decode_some, decode_all, delete_others, get_wallet_statements, clear_old_statements,
}
use hexagonal_queue.Mongo.Repository.Steps.{decoded-ok}

module _ {p : Platform} where
  -- The statements of the account that have none of the ids are gone; without any id, all stay.
  abbrev pub retain : String → String → List ℕ → Store p → Store p
  retain u parent [] d = d
  retain u parent (id ∷ ids) d = record d {
    statements =
        keep (λ x. not (statement_key u parent x && not (id_in x.id (id ∷ ids)))) d.statements;
  }

decode_some-map : {A : Type 0} (found : List A) → decode_some (map ok found) ≡ found
decode_some-map [] = refl
decode_some-map (a ∷ rest) = ap (λ l. a ∷ l) (decode_some-map rest)

-- After the reading step of a method has succeeded.
found-and_then :
    {S A B : Type 0} (message : String) (x : Result A × S) (f : A → S → Result B × S) (a : A)
    → x.0 ≡ ok a
    → and_then (rewrap message x) f ≡ f a x.1
found-and_then message (ok b, s) f a h = ap (λ r. f r s) (ok-injective h)
found-and_then message (err e, s) f a h = cc

-- A deletion that succeeded.
deleted-ok :
    {S : Type 0} (message : String) (x : Result ℕ × S)
    → (and_then (rewrap message x) (λ _. pure {A = Unit {0}} tt)).0 ≡ ok tt
    → (n : ℕ) × (x.0 ≡ ok n) × ((and_then (rewrap message x) (λ _. pure {A = Unit {0}} tt)).1 ≡ x.1)
deleted-ok message (ok n, s) e = (n, refl, refl)
deleted-ok message (err _, s) e = cc

module _ {p : Platform} {S T : Type 0} (driver : Driver p S T) (runtime : Runtime S)
    (view : Context T → S → Store p) (laws : DriverLaws view driver) where
  pub get_wallet_statements-Reads :
      (c : Context T) (u parent : String) (n : ℕ) (s : S)
      → Reads view s (get_wallet_statements driver runtime c u parent (pos n) s).1
  unfolding get_wallet_statements
  get_wallet_statements-Reads c u parent n s c' = ground (
    arith,
    laws.statements.find_reads c (statement_key u parent) (descending at_time) (some (pos n)) s c',
  )

  pub get_wallet_statements_ok :
      (c : Context T) (u parent : String) (n : ℕ) (s : S) (page : List (WalletStatement p))
      → (get_wallet_statements driver runtime c u parent (pos n) s).0 ≡ ok page
      → Leading at_time n page (history u parent (view c s))
  unfolding get_wallet_statements
  get_wallet_statements_ok c u parent n s page e =
      decoded-ok "failed to get wallet statements: " "failed to decode statement: " _ page
        (driver.statements.find c (statement_key u parent) (descending at_time) (some (pos n)) s)
        (λ cursor h is.
          elim (laws.statements.find_newest c (statement_key u parent) at_time n s cursor page h
            is) [
              | inl newest ↦ Newest-Leading at_time n page (history u parent (view c s)) newest
              | inr (leading, _) ↦ leading
            ])
        e

  deleted-retain :
      (c : Context T) (u parent : String) (ids : List ℕ) (s : S)
      → (delete_others driver runtime c u parent ids s).0 ≡ ok tt
      → view c (delete_others driver runtime c u parent ids s).1 ≡ retain u parent ids (view c s)
  deleted-retain c u parent [] s e = refl
  deleted-retain c u parent (id ∷ ids) s e =
      let f : WalletStatement p → Bool =
        λ x. statement_key u parent x && not (id_in x.id (id ∷ ids)) in
      let (n, counted, state) =
        deleted-ok "failed to delete old statements: " (driver.statements.delete_many c f s) e in
      ap (view c) state ∙ laws.statements.delete_many_ok c f s n counted

  -- Whatever ids the cursor has yielded, if they all decode: if the call succeeds, exactly the
  -- statements of the account with none of these ids are gone, or, without any ids, nothing.
  pub clear_old_statements-retain :
      (c : Context T) (u parent : String) (n : ℕ) (s : S) (cursor : Cursor ℕ) (ids : List ℕ)
      → (driver.statements.find_ids
          (λ st. st.id)
          c
          (statement_key u parent)
          (descending at_time)
          (some (pos n))
          s).0
        ≡ ok cursor
      → cursor.yielded ≡ map ok ids
      → (clear_old_statements driver runtime c u parent (pos n) s).0 ≡ ok tt
      → view c (clear_old_statements driver runtime c u parent (pos n) s).1
        ≡ retain u parent ids (view c s)
  unfolding clear_old_statements
  clear_old_statements-retain c u parent n s cursor ids read is e =
      let f = statement_key u parent in
      let x = driver.statements.find_ids (λ st. st.id) c f (descending at_time) (some (pos n)) s in
      let none_lost =
        laws.statements.find_ids_reads (λ st. st.id) c f (descending at_time) (some (pos n)) s c in
      let rest : Cursor ℕ → S → Result (Unit {0}) × S =
        λ cursor. delete_others driver runtime c u parent (decode_some cursor.yielded) in
      let eq : clear_old_statements driver runtime c u parent (pos n) s
          ≡ delete_others driver runtime c u parent ids x.1 =
        found-and_then "failed to find statements to keep: " x rest cursor read
        ∙ ap (λ l. delete_others driver runtime c u parent l x.1)
            (ap decode_some is ∙ decode_some-map ids) in
      ap (λ r. view c r.1) eq
      ∙ (deleted-retain c u parent ids x.1 (sym (ap (λ r. r.0) eq) ∙ e)
          ∙ ap (retain u parent ids) none_lost)
