-- ===== src/Mongo/Memory.antt =====
-- A driver in memory that keeps the laws that the adapter relies on: one transaction at a time, on a
-- copy of the documents, and a list that says which of the next calls fail and which cursors stop.
pub mod Last
pub mod Sorted
pub mod Reads
pub mod Laws
use hexagonal_queue.Prelude.{
  ℕ, suc, String, Bool, true, false, Option, none, some, List, [], ◌∷◌, ◌++◌, Result, ok, err, new,
  length, keep, map, find_first, change_first, if◌then◌else◌, not, Leading,
}
use hexagonal_queue.Prelude.Int.{ℤ, pos, negsuc}
use hexagonal_queue.Platform.Exact.{units}
use hexagonal_queue.Ports.{Context, background, session, Operation, Runtime}
use hexagonal_queue.Ports.Store.{Store}
use hexagonal_queue.Mongo.Driver.{
  Found, document, no_documents, failed, Sort, unsorted, descending, Collection, Driver, Cursor,
}
use hexagonal_queue.Mongo.Memory.Last.{latest}
use hexagonal_queue.Mongo.Memory.Sorted.{sort, limited}

pub record State : Type 0 where
  pub main : Store units
  pub open_tx : Store units
  -- whether the next calls fail
  pub faults : List Bool
  pub clock : ℕ

abbrev pub Tx : Type 0
Tx = Unit {0}

unfoldable pub view : Context Tx → State → Store units
view background s = s.main
view (session _) s = s.open_tx

unfoldable pub write : Context Tx → Store units → State → State
write background d s = record s { main = d }
write (session _) d s = record s { open_tx = d }

abbrev pub skip_fault : List Bool → List Bool
skip_fault [] = []
skip_fault (b ∷ bs) = bs

abbrev pub fails : List Bool → Bool
fails [] = false
fails (b ∷ bs) = b

abbrev pub called : State → State
called s = record s { faults = skip_fault s.faults }

-- A call that may fail.
abbrev pub faulty : {A : Type 0} → (State → A × State) → Operation State A
faulty body s =
    if fails s.faults
    then (err (new "connection lost"), called s)
    else (let done = body (called s) in (ok done.0, done.1))

abbrev pub look : {A : Type 0} → Sort A → List A → Found A
look order [] = no_documents
look unsorted (x ∷ xs) = document x
look (descending key) (x ∷ xs) = document (latest key x xs)

abbrev pub arranged : {A : Type 0} → Sort A → List A → List A
arranged unsorted xs = xs
arranged (descending key) xs = sort key xs

-- A limit below zero is its opposite, as one batch.
abbrev pub cut : {A : Type 0} → Option ℤ → List A → List A
cut none xs = xs
cut (some (pos n)) xs = limited n xs
cut (some (negsuc n)) xs = limited (suc n) xs

-- A cursor, which with a fault stops before its first document.
abbrev pub opened : {A : Type 0} → Bool → List A → Cursor A
opened true xs = record { yielded = []; stopped = some (new "cursor lost") }
opened false xs = record { yielded = map ok xs; stopped = none }

abbrev pub removed : {A : Type 0} → (A → Bool) → List A → List A
removed f xs = keep (λ x. not (f x)) xs

module _ {A : Type 0} (get : Store units → List A) (put : List A → Store units → Store units) where
  abbrev pub find_one : Context Tx → (A → Bool) → Sort A → State → Found A × State
  find_one ctx f order s =
      if fails s.faults
      then (failed (new "connection lost"), called s)
      else (look order (keep f (get (view ctx s))), called s)

  abbrev pub find : Context Tx → (A → Bool) → Sort A → Option ℤ → Operation State (Cursor A)
  find ctx f order limit = faulty (λ s.
      (opened (fails s.faults) (cut limit (arranged order (keep f (get (view ctx s))))), called s))

  abbrev pub find_ids :
      (A → ℕ) → Context Tx → (A → Bool) → Sort A → Option ℤ → Operation State (Cursor ℕ)
  find_ids id ctx f order limit = faulty (λ s. (
    opened (fails s.faults) (map id (cut limit (arranged order (keep f (get (view ctx s)))))),
    called s,
  ))

  abbrev pub insert_one : Context Tx → A → Operation State (Unit {0})
  insert_one ctx a =
      faulty (λ s. (tt, write ctx (put (get (view ctx s) ++ (a ∷ [])) (view ctx s)) s))

  abbrev pub matched : (A → Bool) → List A → ℕ
  matched f xs = elim (find_first f xs) [ none ↦ 0 | some _ ↦ 1 ]

  abbrev pub update_one : Context Tx → (A → Bool) → (A → A) → Operation State ℕ
  update_one ctx f change = faulty (λ s. (
    matched f (get (view ctx s)),
    write ctx (put (change_first f change (get (view ctx s))) (view ctx s)) s,
  ))

  abbrev pub delete_many : Context Tx → (A → Bool) → Operation State ℕ
  delete_many ctx f = faulty (λ s. (
    length (keep f (get (view ctx s))),
    write ctx (put (removed f (get (view ctx s))) (view ctx s)) s,
  ))

  abbrev pub memory_collection : Collection State Tx A
  memory_collection = record {
    find_one = find_one;
    find = find;
    find_ids = find_ids;
    insert_one = insert_one;
    update_one = update_one;
    delete_many = delete_many;
  }

abbrev pub memory : Driver units State Tx
memory = record {
  users = memory_collection (λ s. s.users) (λ l s. record s { users = l });
  balances = memory_collection (λ s. s.balances) (λ l s. record s { balances = l });
  statements = memory_collection (λ s. s.statements) (λ l s. record s { statements = l });
  start_session = faulty (λ s. (tt, s));
  start_transaction = λ _. faulty (λ s. (tt, record s { open_tx = s.main }));
  commit_transaction = λ _. faulty (λ s. (tt, record s { main = s.open_tx }));
  abort_transaction = λ _. faulty (λ s. (tt, s));
  end_session = λ _ s. s;
  connect = λ _. faulty (λ s. (tt, s));
  ping = faulty (λ s. (tt, s));
  create_many = λ _ _. faulty (λ s. (tt, s));
  disconnect = faulty (λ s. (tt, s));
}

abbrev pub ticked : State → State
ticked s = record s { clock = suc s.clock }

abbrev pub memory_runtime : Runtime State
memory_runtime = record {
  now = λ s. (suc s.clock, ticked s);
  new_object_id = λ s. (suc s.clock, ticked s);
  generate_uuid = λ s. ("0b6f", ticked s);
}
