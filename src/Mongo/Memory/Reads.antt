-- ===== src/Mongo/Memory/Reads.antt =====
-- What the driver in memory reads.
use mathlib.Core.List.{Perm}
use mathlib.Core.List.Perm
use hexagonal_queue.Prelude.{
  ◌∙◌, inl, inr, sym, ap, Newest, ℕ, ◌⊎◌, ok, ◌≤◌, All, ◌++◌, ◌≡◌, refl, Bool, some, List, [], ◌∷◌,
  keep, find_first, arith, ok-injective, Leading, sym, ap, append_nil, Bool-cases,
}
use mathlib.Core.Path.{subst}
use hexagonal_queue.Platform.Exact.{units}
use hexagonal_queue.Ports.{Context, background, session}
use hexagonal_queue.Ports.Store.{Store, Elem}
use hexagonal_queue.Ports.Laws.{Reads}
use hexagonal_queue.Mongo.Driver.{document, no_documents, unsorted, Sort, descending, Cursor}
use hexagonal_queue.Mongo.Laws.{IsStopped}
use hexagonal_queue.Mongo.Memory.{
  State, Tx, view, called, find, find_one, look, faulty, Option, Result, none, map, ℤ, find_ids,
  opened, fails, skip_fault, new,
}
use hexagonal_queue.Prelude.Int.{pos}
use hexagonal_queue.Mongo.Memory.Last.{latest-last}
use hexagonal_queue.Mongo.Memory.Sorted.{sort, limited, sort-Newest, sort-Leading}

pub view-called : (c : Context Tx) (s : State) → view c (called s) ≡ view c s
unfolding view
view-called background s = refl
view-called (session _) s = refl

document-injective : {A : Type 0} {a b : A} → document a ≡ document b → a ≡ b
document-injective e = cc

list_head : {A : Type 0} {a b : A} {xs ys : List A} → (a ∷ xs) ≡ (b ∷ ys) → (a ≡ b) × (xs ≡ ys)
list_head e = (cc, cc)

-- Lists of successes are told apart by their values.
map_ok_injective :
    {A : Type 0} (xs ys : List A) → ◌≡◌ {A = List (Result A)} (map ok xs) (map ok ys) → xs ≡ ys
map_ok_injective [] [] h = refl
map_ok_injective [] (y ∷ ys) h = cc
map_ok_injective (x ∷ xs) [] h = cc
map_ok_injective (x ∷ xs) (y ∷ ys) h =
    let parts = list_head h in
    let tail = map_ok_injective xs ys parts.1 in let head = ok-injective parts.0 in cc

-- A call that has not failed.
faulty-ok :
    {A : Type 0} (body : State → A × State) (s : State) (a : A)
    → (faulty body s).0 ≡ ok a
    → a ≡ (body (called s)).0
faulty-ok body s a h = elim (Bool-cases (fails s.faults)) [
  | inl bad ↦ let wrong = rw bad at h in cc
  | inr good ↦ sym (ok-injective (rw good at h))
]

-- What a cursor over some elements has yielded, if it all decodes.
opened-cases :
    {A : Type 0} (fault : Bool) (xs : List A) (cursor : Cursor A) (found : List A)
    → cursor ≡ opened fault xs
    → cursor.yielded ≡ map ok found
    → (found ≡ xs) ⊎ ((found ≡ []) × IsStopped cursor)
opened-cases Bool.true xs cursor found opens is =
    let yields : map ok [] ≡ map ok found = sym (ap (λ c. c.yielded) opens) ∙ is in
    inr (map_ok_injective found [] (sym yields), (new "cursor lost", ap (λ c. c.stopped) opens))
opened-cases Bool.false xs cursor found opens is =
    inl (map_ok_injective found xs (sym is ∙ ap (λ c. c.yielded) opens))

module _ {A : Type 0} (get : Store units → List A) (put : List A → Store units → Store units) where
  pub find_one-Reads :
      (ctx : Context Tx) (f : A → Bool) (order : Sort A) (s : State)
      → Reads view s (find_one get put ctx f order s).1
  find_one-Reads ctx f order s c = ground (arith, view-called c s)

  first_kept :
      (f : A → Bool) (xs : List A) (a : A)
      → look unsorted (keep f xs) ≡ document a
      → find_first f xs ≡ some a
  first_kept f [] a h = cc
  first_kept f (x ∷ xs) a h = ground (arith, first_kept f xs a)

  none_kept : (order : Sort A) (xs : List A) → look order xs ≡ no_documents → xs ≡ []
  none_kept order [] h = refl
  none_kept unsorted (x ∷ xs) h = cc
  none_kept (descending key) (x ∷ xs) h = cc

  pub find_one_first :
      (ctx : Context Tx) (f : A → Bool) (s : State) (a : A)
      → (find_one get put ctx f unsorted s).0 ≡ document a
      → find_first f (get (view ctx s)) ≡ some a
  find_one_first ctx f s a h = ground (arith, first_kept f (get (view ctx s)) a)

  pub find_one_none :
      (ctx : Context Tx) (f : A → Bool) (order : Sort A) (s : State)
      → (find_one get put ctx f order s).0 ≡ no_documents
      → keep f (get (view ctx s)) ≡ []
  find_one_none ctx f order s h = ground (arith, none_kept order (keep f (get (view ctx s))))

  pub find-Reads :
      (ctx : Context Tx) (f : A → Bool) (order : Sort A) (limit : Option ℤ) (s : State)
      → Reads view s (find get put ctx f order limit s).1
  find-Reads ctx f order limit s c = ground (arith, view-called c s, view-called c (called s))

  pub find_all :
      (ctx : Context Tx) (f : A → Bool) (s : State) (cursor : Cursor A) (found : List A)
      → (find get put ctx f unsorted none s).0 ≡ ok cursor
      → cursor.yielded ≡ map ok found
      → (rest : List A) × Perm (found ++ rest) (keep f (get (view ctx s)))
        × ((rest ≡ []) ⊎ IsStopped cursor)
  find_all ctx f s cursor found h is =
      subst
        (λ d.
          (rest : List A) × Perm (found ++ rest) (keep f (get d))
          × ((rest ≡ []) ⊎ IsStopped cursor))
        (view-called ctx s)
        (let xs = keep f (get (view ctx (called s))) in
          elim (opened-cases (fails (skip_fault s.faults)) xs cursor found
            (faulty-ok (λ s. (opened (fails s.faults) (keep f (get (view ctx s))), called s)) s
              cursor h)
            is) [
              | inl same ↦ ([], rw (append_nil found, same) (Perm.refl xs), inl refl)
              | inr (none_found, stopped) ↦ (xs, rw none_found (Perm.refl xs), inr stopped)
            ])

  pub find-Newest :
      (ctx : Context Tx) (f : A → Bool) (key : A → ℕ) (n : ℕ) (s : State) (cursor : Cursor A)
      (found : List A)
      → (find get put ctx f (descending key) (some (pos n)) s).0 ≡ ok cursor
      → cursor.yielded ≡ map ok found
      → Newest key n found (keep f (get (view ctx s)))
        ⊎ (Leading key n found (keep f (get (view ctx s))) × IsStopped cursor)
  find-Newest ctx f key n s cursor found h is =
      subst
        (λ d.
          Newest key n found (keep f (get d))
          ⊎ (Leading key n found (keep f (get d)) × IsStopped cursor))
        (view-called ctx s)
        (let xs = keep f (get (view ctx (called s))) in
          let page = limited n (sort key xs) in
          elim (opened-cases (fails (skip_fault s.faults)) page cursor found
            (faulty-ok
              (λ s. (
                opened (fails s.faults) (limited n (sort key (keep f (get (view ctx s))))),
                called s,
              ))
              s cursor h)
            is) [
              | inl same ↦ inl (rw same (sort-Newest key n xs))
              | inr (none_found, stopped) ↦ inr (rw none_found (sort-Leading key n xs), stopped)
            ])

  pub find_ids-Reads :
      (id : A → ℕ) (ctx : Context Tx) (f : A → Bool) (order : Sort A) (limit : Option ℤ) (s : State)
      → Reads view s (find_ids get put id ctx f order limit s).1
  find_ids-Reads id ctx f order limit s c =
      ground (arith, view-called c s, view-called c (called s))

  pub find_ids-Newest :
      (id : A → ℕ) (ctx : Context Tx) (f : A → Bool) (key : A → ℕ) (n : ℕ) (s : State)
      (cursor : Cursor ℕ) (ids : List ℕ)
      → (find_ids get put id ctx f (descending key) (some (pos n)) s).0 ≡ ok cursor
      → cursor.yielded ≡ map ok ids
      → (found : List A) × (map id found ≡ ids)
        × (Newest key n found (keep f (get (view ctx s)))
            ⊎ (Leading key n found (keep f (get (view ctx s))) × IsStopped cursor))
  find_ids-Newest id ctx f key n s cursor ids h is =
      subst
        (λ d.
          (found : List A) × (map id found ≡ ids)
          × (Newest key n found (keep f (get d))
              ⊎ (Leading key n found (keep f (get d)) × IsStopped cursor)))
        (view-called ctx s)
        (let xs = keep f (get (view ctx (called s))) in
          let page = limited n (sort key xs) in
          elim (opened-cases (fails (skip_fault s.faults)) (map id page) cursor ids
            (faulty-ok
              (λ s. (
                opened (fails s.faults) (map id (limited n (sort key (keep f (get (view ctx s)))))),
                called s,
              ))
              s cursor h)
            is) [
              | inl same ↦ (page, sym same, inl (sort-Newest key n xs))
              | inr (none_found, stopped) ↦
                  ([], sym none_found, inr (sort-Leading key n xs, stopped))
            ])

  latest_kept :
      (key : A → ℕ) (xs : List A) (a : A)
      → look (descending key) xs ≡ document a
      → Elem a xs × All (λ x. key x ≤ key a) xs
  latest_kept key [] a h = cc
  latest_kept key (x ∷ xs) a h =
      subst (λ a. Elem a (x ∷ xs) × All (λ y. key y ≤ key a) (x ∷ xs)) (document-injective h)
        (latest-last key x xs)

  found_kept :
      (key : A → ℕ) (f : A → Bool) (ctx : Context Tx) (s : State) (a : A)
      → (find_one get put ctx f (descending key) s).0 ≡ document a
      → look (descending key) (keep f (get (view ctx s))) ≡ document a
  found_kept key f ctx s a h = ground arith

  pub find_one_last :
      (ctx : Context Tx) (f : A → Bool) (key : A → ℕ) (s : State) (a : A)
      → (find_one get put ctx f (descending key) s).0 ≡ document a
      → Elem a (keep f (get (view ctx s))) × All (λ x. key x ≤ key a) (keep f (get (view ctx s)))
  find_one_last ctx f key s a h =
      latest_kept key (keep f (get (view ctx s))) a (found_kept key f ctx s a h)
