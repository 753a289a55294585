-- ===== src/Mongo/Laws.antt =====
-- What the adapter relies on in the driver: the documented meaning of its calls, told by the
-- documents that a context sees. A document is stored as it is: its times are in milliseconds. A transaction sees a snapshot, and its writes are seen by others
-- only after a commit.
use mathlib.Core.List.{Perm}
use hexagonal_queue.Prelude.{
  not, Newest, ℕ, ◌≡◌, ◌≢◌, ◌≤◌, ◌⊎◌, Bool, List, [], ◌∷◌, ◌++◌, some, ok, All, Option, none, map,
  keep, find_first, change_first, Error, Leading,
}
use hexagonal_queue.Prelude.Int.{ℤ, pos}
use hexagonal_queue.Platform.{Platform}
use hexagonal_queue.Ports.{Context, background, session}
use hexagonal_queue.Ports.Store.{Store, Elem}
use hexagonal_queue.Ports.Laws.{Reads}
use hexagonal_queue.Mongo.Driver.{
  document, no_documents, unsorted, Sort, descending, Collection, Driver, Cursor,
}

-- An error ended the cursor.
abbrev pub IsStopped : {A : Type 0} → Cursor A → Type 0
IsStopped cursor = (e : Error) × (cursor.stopped ≡ some e)

module _ {p : Platform} {S T : Type 0} (view : Context T → S → Store p) where
  -- A collection whose documents are the part `get` of a store.
  pub record CollectionLaws {A : Type 0} (get : Store p → List A) (put : List A → Store p → Store p)
      (c : Collection S T A) : Type 0 where
    pub find_one_reads :
        (ctx : Context T) (f : A → Bool) (order : Sort A) (s : S)
        → Reads view s (c.find_one ctx f order s).1
    -- with no order, the first in natural order
    pub find_one_first :
        (ctx : Context T) (f : A → Bool) (s : S) (a : A)
        → (c.find_one ctx f unsorted s).0 ≡ document a
        → find_first f (get (view ctx s)) ≡ some a
    pub find_one_none :
        (ctx : Context T) (f : A → Bool) (order : Sort A) (s : S)
        → (c.find_one ctx f order s).0 ≡ no_documents
        → keep f (get (view ctx s)) ≡ []
    pub find_one_last :
        (ctx : Context T) (f : A → Bool) (key : A → ℕ) (s : S) (a : A)
        → (c.find_one ctx f (descending key) s).0 ≡ document a
        → Elem a (keep f (get (view ctx s))) × All (λ x. key x ≤ key a) (keep f (get (view ctx s)))
    pub find_reads :
        (ctx : Context T) (f : A → Bool) (order : Sort A) (limit : Option ℤ) (s : S)
        → Reads view s (c.find ctx f order limit s).1
    -- with no order and no limit, if all that the cursor yields decodes: the documents in some order,
    -- or some of them, if an error stopped the cursor
    pub find_all :
        (ctx : Context T) (f : A → Bool) (s : S) (cursor : Cursor A) (found : List A)
        → (c.find ctx f unsorted none s).0 ≡ ok cursor
        → cursor.yielded ≡ map ok found
        → (rest : List A) × Perm (found ++ rest) (keep f (get (view ctx s)))
          × ((rest ≡ []) ⊎ IsStopped cursor)
    -- with an order and a limit, if all that the cursor yields decodes; a limit of 0 is none
    pub find_newest :
        (ctx : Context T) (f : A → Bool) (key : A → ℕ) (n : ℕ) (s : S) (cursor : Cursor A)
        (found : List A)
        → (c.find ctx f (descending key) (some (pos n)) s).0 ≡ ok cursor
        → cursor.yielded ≡ map ok found
        → Newest key n found (keep f (get (view ctx s)))
          ⊎ (Leading key n found (keep f (get (view ctx s))) × IsStopped cursor)
    pub find_ids_reads :
        (id : A → ℕ) (ctx : Context T) (f : A → Bool) (order : Sort A) (limit : Option ℤ) (s : S)
        → Reads view s (c.find_ids id ctx f order limit s).1
    pub find_ids_newest :
        (id : A → ℕ) (ctx : Context T) (f : A → Bool) (key : A → ℕ) (n : ℕ) (s : S)
        (cursor : Cursor ℕ) (ids : List ℕ)
        → (c.find_ids id ctx f (descending key) (some (pos n)) s).0 ≡ ok cursor
        → cursor.yielded ≡ map ok ids
        → (found : List A) × (map id found ≡ ids)
          × (Newest key n found (keep f (get (view ctx s)))
              ⊎ (Leading key n found (keep f (get (view ctx s))) × IsStopped cursor))
    pub insert_one_session :
        (t : T) (a : A) (s : S)
        → view background (c.insert_one (session t) a s).1 ≡ view background s
    pub insert_one_ok :
        (ctx : Context T) (a : A) (s : S)
        → (c.insert_one ctx a s).0 ≡ ok tt
        → view ctx (c.insert_one ctx a s).1 ≡ put (get (view ctx s) ++ (a ∷ [])) (view ctx s)
    -- an insertion that failed may have been made all the same
    pub insert_one_either :
        (ctx : Context T) (a : A) (s : S)
        → (view ctx (c.insert_one ctx a s).1 ≡ view ctx s)
          ⊎ (view ctx (c.insert_one ctx a s).1 ≡ put (get (view ctx s) ++ (a ∷ [])) (view ctx s))
    pub update_one_session :
        (t : T) (f : A → Bool) (change : A → A) (s : S)
        → view background (c.update_one (session t) f change s).1 ≡ view background s
    pub update_one_ok :
        (ctx : Context T) (f : A → Bool) (change : A → A) (s : S) (n : ℕ)
        → (c.update_one ctx f change s).0 ≡ ok n
        → n ≢ 0
        → view ctx (c.update_one ctx f change s).1
          ≡ put (change_first f change (get (view ctx s))) (view ctx s)
    pub delete_many_session :
        (t : T) (f : A → Bool) (s : S)
        → view background (c.delete_many (session t) f s).1 ≡ view background s
    pub delete_many_ok :
        (ctx : Context T) (f : A → Bool) (s : S) (n : ℕ)
        → (c.delete_many ctx f s).0 ≡ ok n
        → view ctx (c.delete_many ctx f s).1
          ≡ put (keep (λ x. not (f x)) (get (view ctx s))) (view ctx s)

  pub record DriverLaws (d : Driver p S T) : Type 0 where
    pub users : CollectionLaws (λ s. s.users) (λ l s. record s { users = l }) d.users
    pub balances : CollectionLaws (λ s. s.balances) (λ l s. record s { balances = l }) d.balances
    pub statements :
        CollectionLaws (λ s. s.statements) (λ l s. record s { statements = l }) d.statements
    pub start_session_reads : (s : S) → Reads view s (d.start_session s).1
    pub end_session_background :
        (t : T) (s : S) → view background (d.end_session t s) ≡ view background s
    pub start_transaction_ok :
        (t : T) (s : S)
        → (d.start_transaction t s).0 ≡ ok tt
        → view (session t) (d.start_transaction t s).1 ≡ view background s
    pub start_transaction_background :
        (t : T) (s : S) → view background (d.start_transaction t s).1 ≡ view background s
    pub commit_transaction_ok :
        (t : T) (s : S)
        → (d.commit_transaction t s).0 ≡ ok tt
        → view background (d.commit_transaction t s).1 ≡ view (session t) s
    -- a commit that failed may have been made all the same
    pub commit_transaction_either :
        (t : T) (s : S)
        → (view background (d.commit_transaction t s).1 ≡ view background s)
          ⊎ (view background (d.commit_transaction t s).1 ≡ view (session t) s)
    pub abort_transaction_background :
        (t : T) (s : S) → view background (d.abort_transaction t s).1 ≡ view background s
