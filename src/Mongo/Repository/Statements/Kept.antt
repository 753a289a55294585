-- ===== src/Mongo/Repository/Statements/Kept.antt =====
-- What clearing the old statements keeps and what it does not touch.
use hexagonal_queue.Prelude.{
  ℕ, String, ◌≡◌, refl, sym, ap, ◌∙◌, Bool, true, not, ◌&&◌, some, none, List, [], ◌∷◌, ◌++◌, ok,
  map, keep, append_nil, Bool-cases, inl, inr, arith, Newest,
}
use mathlib.Core.Path.{subst}
use mathlib.Core.List.{Mem, Perm, Nodup, Nodup-append, mem-map_of_mem}
use mathlib.Core.List.Perm
use hexagonal_queue.Prelude.Int.{pos}
use hexagonal_queue.Platform.{Platform}
use hexagonal_queue.Models.{WalletStatement}
use hexagonal_queue.Ports.{Context, Runtime}
use hexagonal_queue.Ports.Store.{at_time, Store, statement_key, history}
use hexagonal_queue.Mongo.Driver.{descending, Driver, Cursor}
use hexagonal_queue.Mongo.Laws.{DriverLaws}
use hexagonal_queue.Mongo.Adapter.{id_in, clear_old_statements}
use hexagonal_queue.Mongo.Repository.Statements.Keeping.{
  keep-all, keep-mem, keep-keep_own, keep-keep_other, keep-append, keep-none, keep-Perm, map_append,
  id_in-mem, mem-id_in,
}
use hexagonal_queue.Mongo.Repository.Statements.{retain, clear_old_statements-retain}

none_not_some : {A : Type 0} {a : A} → none ≡ some a → ⊥
none_not_some e = cc

module _ {p : Platform} where
  -- What is left of the history has one of the ids.
  history-retain :
      (u parent : String) (id : ℕ) (ids : List ℕ) (d : Store p)
      → history u parent (retain u parent (id ∷ ids) d)
        ≡ keep (λ x. id_in x.id (id ∷ ids)) (history u parent d)
  history-retain u parent id ids d =
      keep-keep_own (statement_key u parent) (λ x. id_in x.id (id ∷ ids)) d.statements

  -- With ids that are all different, those found are what a test for their ids keeps.
  keep-found :
      (found rest : List (WalletStatement p))
      → Nodup (map (λ st. st.id) (found ++ rest))
      → keep (λ x. id_in x.id (map (λ st. st.id) found)) (found ++ rest) ≡ found
  keep-found found rest distinct =
      let key : WalletStatement p → ℕ = λ st. st.id in
      let g : WalletStatement p → Bool = λ x. id_in x.id (map key found) in
      let apart =
        (Nodup-append {l₁ = map key found} {l₂ = map key rest}).0
          (subst Nodup (map_append key found rest) distinct) in
      let own : keep g found ≡ found =
        keep-all g found (λ x m. id_in-mem x.id (map key found) (mem-map_of_mem key m)) in
      let others : keep g rest ≡ [] = keep-none g rest (λ x m. elim (Bool-cases (g x)) [
        | inl h ↦ absurd (apart.2 x.id (mem-id_in x.id (map key found) h) (mem-map_of_mem key m))
        | inr h ↦ h
      ]) in
      keep-append g found rest ∙ rw (own, others) (append_nil found)

  -- When everything was found, nothing goes.
  retain-all :
      (u parent : String) (ids : List ℕ) (d : Store p)
      → ((x : WalletStatement p) → Mem x (history u parent d) → Mem x.id ids)
      → retain u parent ids d ≡ d
  retain-all u parent [] d all = refl
  retain-all u parent (id ∷ ids) d all =
      let f : WalletStatement p → Bool =
        λ x. not (statement_key u parent x && not (id_in x.id (id ∷ ids))) in
      let stays : (x : WalletStatement p) → Mem x d.statements → f x ≡ true = λ x m.
        elim (Bool-cases (statement_key u parent x)) [
          | inr other ↦ rw other refl
          | inl own ↦
              let known =
                id_in-mem x.id (id ∷ ids)
                  (all x (keep-mem (statement_key u parent) x d.statements m own)) in
              rw (own, known) refl
        ] in
      ap (λ l. record d { statements = l }) (keep-all f d.statements stays)

  -- What is left of the documents when those with the ids of the newest statements are retained.
  pub data Cleared (u parent : String) (n : ℕ) (before after : Store p) : Type 0 where
    cleared :
        (kept : List (WalletStatement p))
        → Newest at_time n kept (history u parent before)
        → Perm (history u parent after) kept
        → keep (λ x. not (statement_key u parent x)) after.statements
          ≡ keep (λ x. not (statement_key u parent x)) before.statements
        → after.users ≡ before.users
        → after.balances ≡ before.balances
        → Cleared u parent n before after

  retain-Cleared :
      (u parent : String) (n : ℕ) (found : List (WalletStatement p)) (ids : List ℕ) (d : Store p)
      → map (λ st. st.id) found ≡ ids
      → Newest at_time n found (history u parent d)
      → Nodup (map (λ st. st.id) (history u parent d))
      → Cleared u parent n d (retain u parent ids d)
  retain-Cleared u parent n [] [] d same (rest, perm, down, inl (none_left, few)) distinct =
      cleared [] (rest, perm, down, inl (none_left, few))
        (Perm.symm (subst (λ l. Perm l (history u parent d)) none_left perm)) refl refl refl
  retain-Cleared u parent n [] [] d same (rest, perm, down, inr (full, positive)) distinct =
      absurd (ground (arith, full, positive))
  retain-Cleared u parent n [] (id ∷ ids) d same newest distinct = cc
  retain-Cleared u parent n (st ∷ found) [] d same newest distinct = cc
  retain-Cleared u parent n (st ∷ found) (id ∷ ids) d same newest distinct =
      let (rest, perm, down, end) = newest in
      let g : WalletStatement p → Bool = λ x. id_in x.id (id ∷ ids) in
      let whole : List (WalletStatement p) = (st ∷ found) ++ rest in
      let all_distinct : Nodup (map (λ st. st.id) whole) =
        Perm.nodup (Perm.map (λ st. st.id) (Perm.symm perm)) distinct in
      let own : keep g whole ≡ st ∷ found =
        subst (λ l. keep (λ x. id_in x.id l) whole ≡ st ∷ found) same
          (keep-found (st ∷ found) rest all_distinct) in
      let left : Perm (keep g (history u parent d)) (st ∷ found) =
        subst (Perm (keep g (history u parent d))) own (keep-Perm g (Perm.symm perm)) in
      cleared (st ∷ found) newest
        (subst (λ l. Perm l (st ∷ found)) (sym (history-retain u parent id ids d)) left)
        (keep-keep_other (statement_key u parent) g d.statements) refl refl

module _ {p : Platform} {S T : Type 0} (driver : Driver p S T) (runtime : Runtime S)
    (view : Context T → S → Store p) (laws : DriverLaws view driver) where
  -- ClearOldStatements with a count n to keep, on a history whose ids are all different, if it
  -- succeeds, no error stopped its cursor and every id decoded: the history of the account is left with
  -- its n newest statements, or all of them if there are no more or n is 0, and the statements of
  -- others, the users and the accounts are as they were.
  pub clear_old_statements_ok :
      (c : Context T) (u parent : String) (n : ℕ) (s : S) (cursor : Cursor ℕ) (ids : List ℕ)
      → (driver.statements.find_ids
          (λ st. st.id)
          c
          (statement_key u parent)
          (descending at_time)
          (some (pos n))
          s).0
        ≡ ok cursor
      → cursor.yielded ≡ map ok ids
      → cursor.stopped ≡ none
      → Nodup (map (λ st. st.id) (history u parent (view c s)))
      → (clear_old_statements driver runtime c u parent (pos n) s).0 ≡ ok tt
      → Cleared u parent n
          (view c s)
          (view c (clear_old_statements driver runtime c u parent (pos n) s).1)
  clear_old_statements_ok c u parent n s cursor ids read is ended distinct e =
      let (found, same, page) =
        laws.statements.find_ids_newest (λ st. st.id) c (statement_key u parent) at_time n s cursor
          ids read is in
      elim page [
        | inl newest ↦
            rw
              (clear_old_statements-retain driver runtime view laws c u parent n s cursor ids read
                is e)
              (retain-Cleared u parent n found ids (view c s) same newest distinct)
        | inr (_, (error, stopped)) ↦ absurd (none_not_some (sym ended ∙ stopped))
      ]

  -- ClearOldStatements with a count of 0 to keep, if it succeeds, no error stopped its cursor and
  -- every id decoded, clears nothing: the documents are as they were.
  pub clear_old_statements_zero :
      (c : Context T) (u parent : String) (s : S) (cursor : Cursor ℕ) (ids : List ℕ)
      → (driver.statements.find_ids
          (λ st. st.id)
          c
          (statement_key u parent)
          (descending at_time)
          (some (pos 0))
          s).0
        ≡ ok cursor
      → cursor.yielded ≡ map ok ids
      → cursor.stopped ≡ none
      → (clear_old_statements driver runtime c u parent (pos 0) s).0 ≡ ok tt
      → view c (clear_old_statements driver runtime c u parent (pos 0) s).1 ≡ view c s
  clear_old_statements_zero c u parent s cursor ids read is ended e =
      let (found, same, page) =
        laws.statements.find_ids_newest (λ st. st.id) c (statement_key u parent) at_time 0 s cursor
          ids read is in
      elim page [
        | inl (rest, perm, down, end) ↦
            let none_left : rest ≡ [] = ground (arith, end) in
            let whole : found ++ rest ≡ found = ap (λ l. found ++ l) none_left ∙ append_nil found in
            let all : Perm found (history u parent (view c s)) =
              subst (λ l. Perm l (history u parent (view c s))) whole perm in
            clear_old_statements-retain driver runtime view laws c u parent 0 s cursor ids read is e
            ∙ retain-all u parent ids (view c s) (λ x m.
              subst (Mem x.id) same (mem-map_of_mem (λ st. st.id) ((Perm.mem_iff all).1 m)))
        | inr (_, (error, stopped)) ↦ absurd (none_not_some (sym ended ∙ stopped))
      ]
