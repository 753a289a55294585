-- ===== src/Mongo/Memory/Laws.antt =====
-- The driver in memory keeps the laws.

use hexagonal_queue.Prelude.{
  ℕ, ◌⊎◌, ok, ◌++◌, ◌≡◌, refl, ◌≢◌, Bool, List, [], ◌∷◌, change_first, arith,
}
use hexagonal_queue.Platform.Exact.{units}
use hexagonal_queue.Ports.{Context, background, session}
use hexagonal_queue.Ports.Store.{Store}
use hexagonal_queue.Ports.Laws.{Reads, RuntimeLaws}
use hexagonal_queue.Mongo.Laws.{CollectionLaws, DriverLaws}
use hexagonal_queue.Mongo.Memory.{
  delete_many, removed, State, Tx, view, write, called, insert_one, update_one, memory_collection,
  memory, memory_runtime, faulty, ticked,
}
use hexagonal_queue.Mongo.Memory.Reads.{
  view-called, find_one-Reads, find_one_first, find_one_none, find_one_last, find-Reads, find_all,
  find-Newest, find_ids-Reads, find_ids-Newest,
}

view-write : (c : Context Tx) (d : Store units) (s : State) → view c (write c d s) ≡ d
unfolding view write
view-write background d s = refl
view-write (session _) d s = refl

main-write :
    (t : Tx) (d : Store units) (s : State)
    → view background (write (session t) d s) ≡ view background s
unfolding view write
main-write t d s = refl

module _ {A : Type 0} (get : Store units → List A) (put : List A → Store units → Store units) where
  delete_many_session :
      (t : Tx) (f : A → Bool) (s : State)
      → view background (delete_many get put (session t) f s).1 ≡ view background s
  delete_many_session t f s =
      let σ = view (session t) (called s) in
      let d = put (removed f (get σ)) σ in
      ground (arith, main-write t d (called s), view-called background s)

  delete_many_ok :
      (ctx : Context Tx) (f : A → Bool) (s : State) (n : ℕ)
      → (delete_many get put ctx f s).0 ≡ ok n
      → view ctx (delete_many get put ctx f s).1 ≡ put (removed f (get (view ctx s))) (view ctx s)
  delete_many_ok ctx f s n h =
      let σ = view ctx (called s) in
      let d = put (removed f (get σ)) σ in
      ground (arith, view-write ctx d (called s), view-called ctx s)

  insert_one_session :
      (t : Tx) (a : A) (s : State)
      → view background (insert_one get put (session t) a s).1 ≡ view background s
  insert_one_session t a s =
      let d = put (get (view (session t) (called s)) ++ (a ∷ [])) (view (session t) (called s)) in
      ground (arith, main-write t d (called s), view-called background s)

  insert_one_ok :
      (ctx : Context Tx) (a : A) (s : State)
      → (insert_one get put ctx a s).0 ≡ ok tt
      → view ctx (insert_one get put ctx a s).1 ≡ put (get (view ctx s) ++ (a ∷ [])) (view ctx s)
  insert_one_ok ctx a s h =
      let d = put (get (view ctx (called s)) ++ (a ∷ [])) (view ctx (called s)) in
      ground (arith, view-write ctx d (called s), view-called ctx s)

  insert_one_either :
      (ctx : Context Tx) (a : A) (s : State)
      → (view ctx (insert_one get put ctx a s).1 ≡ view ctx s)
        ⊎ (view ctx (insert_one get put ctx a s).1
            ≡ put (get (view ctx s) ++ (a ∷ [])) (view ctx s))
  insert_one_either ctx a s =
      let d = put (get (view ctx (called s)) ++ (a ∷ [])) (view ctx (called s)) in
      ground (arith, view-write ctx d (called s), view-called ctx s)

  update_one_session :
      (t : Tx) (f : A → Bool) (change : A → A) (s : State)
      → view background (update_one get put (session t) f change s).1 ≡ view background s
  update_one_session t f change s =
      let σ = view (session t) (called s) in
      let d = put (change_first f change (get σ)) σ in
      ground (arith, main-write t d (called s), view-called background s)

  update_one_ok :
      (ctx : Context Tx) (f : A → Bool) (change : A → A) (s : State) (n : ℕ)
      → (update_one get put ctx f change s).0 ≡ ok n
      → n ≢ 0
      → view ctx (update_one get put ctx f change s).1
        ≡ put (change_first f change (get (view ctx s))) (view ctx s)
  update_one_ok ctx f change s n h ne =
      let σ = view ctx (called s) in
      let d = put (change_first f change (get σ)) σ in
      ground (arith, view-write ctx d (called s), view-called ctx s)

  memory_collection-laws : CollectionLaws view get put (memory_collection get put)
  memory_collection-laws = record {
    find_one_reads = find_one-Reads get put;
    find_one_first = find_one_first get put;
    find_one_none = find_one_none get put;
    find_one_last = find_one_last get put;
    find_reads = find-Reads get put;
    find_all = find_all get put;
    find_newest = find-Newest get put;
    find_ids_reads = find_ids-Reads get put;
    find_ids_newest = find_ids-Newest get put;
    delete_many_session = delete_many_session;
    delete_many_ok = delete_many_ok;
    insert_one_session = insert_one_session;
    insert_one_ok = insert_one_ok;
    insert_one_either = insert_one_either;
    update_one_session = update_one_session;
    update_one_ok = update_one_ok;
  }

faulty_reads :
    {A : Type 0} (body : State → A × State) (c : Context Tx) (s : State)
    → ((s' : State) → view c (body s').1 ≡ view c s')
    → view c (faulty body s).1 ≡ view c s
faulty_reads body c s h = ground (arith, h (called s), view-called c s)

begin_ok :
    (t : Tx) (s : State)
    → (memory.start_transaction t s).0 ≡ ok tt
    → view (session t) (memory.start_transaction t s).1 ≡ view background s
unfolding view
begin_ok t s h = ground arith

commit_ok :
    (t : Tx) (s : State)
    → (memory.commit_transaction t s).0 ≡ ok tt
    → view background (memory.commit_transaction t s).1 ≡ view (session t) s
unfolding view
commit_ok t s h = ground arith

commit_either :
    (t : Tx) (s : State)
    → (view background (memory.commit_transaction t s).1 ≡ view background s)
      ⊎ (view background (memory.commit_transaction t s).1 ≡ view (session t) s)
unfolding view
commit_either t s = ground arith

begin_background :
    (t : Tx) (s : State) → view background (memory.start_transaction t s).1 ≡ view background s
unfolding view
begin_background t s = ground arith

pub memory-laws : DriverLaws view memory
memory-laws = record {
  users = memory_collection-laws (λ s. s.users) (λ l s. record s { users = l });
  balances = memory_collection-laws (λ s. s.balances) (λ l s. record s { balances = l });
  statements = memory_collection-laws (λ s. s.statements) (λ l s. record s { statements = l });
  start_session_reads = λ s c. faulty_reads (λ s. (tt, s)) c s (λ _. refl);
  end_session_background = λ t s. refl;
  start_transaction_ok = begin_ok;
  start_transaction_background = begin_background;
  commit_transaction_ok = commit_ok;
  commit_transaction_either = commit_either;
  abort_transaction_background = λ t s. faulty_reads (λ s. (tt, s)) background s (λ _. refl);
}

ticked-Reads : (s : State) → Reads view s (ticked s)
unfolding view
ticked-Reads s background = refl
ticked-Reads s (session _) = refl

pub memory_runtime-laws : RuntimeLaws view memory_runtime
memory_runtime-laws = record {
  now_reads = ticked-Reads;
  now_nonzero = λ s e. omega (arith, e);
  id_reads = ticked-Reads;
  id_nonzero = λ s e. omega (arith, e);
  uuid_reads = ticked-Reads;
}
