-- ===== src/Scenarios/History.antt =====
-- Clearing all but the last of the two statements of ann.
use mathlib.Core.List.{Nodup, Nodup-cons, Nodup-nil, not-mem-nil}
use hexagonal_queue.Mongo.Repository.Statements.Keeping.{id_in-mem}
use hexagonal_queue.Prelude.{◌≡◌, refl, [], ◌∷◌, map, ok, none}
use hexagonal_queue.Prelude.Int.{pos}
use hexagonal_queue.Platform.Exact.{units}
use hexagonal_queue.Models.{WalletStatement}
use hexagonal_queue.Ports.{background}
use hexagonal_queue.Ports.Store.{history}
use hexagonal_queue.Mongo.Memory.{State, view, memory, memory_runtime}
use hexagonal_queue.Mongo.Memory.Laws.{memory-laws}
use hexagonal_queue.Mongo.Memory.Sorted.{sort, insert}
use hexagonal_queue.Mongo.Adapter.{clear_old_statements}
use hexagonal_queue.Mongo.Repository.Statements.Kept.{
  Cleared, clear_old_statements_ok, clear_old_statements_zero,
}
use hexagonal_queue.Scenarios.Fixture.{books, opening, world}

abbrev later : WalletStatement units
later = record opening { id = 4; datetime = 5; before_credit = pos 500; after_credit = pos 600 }

abbrev two : State
two = world (record books { statements = opening ∷ later ∷ [] }) []

different : Nodup (map (λ st. st.id) (history "ann" "shop" (view background two)))
unfolding view
different = Nodup-cons.1 (
  (λ m. let h = id_in-mem opening.id (4 ∷ []) m in cc),
  Nodup-cons.1 ((λ m. not-mem-nil m), Nodup-nil),
)

clear_old_statements_ok_example : Cleared "ann" "shop" 1 (view background two) (
    view background
      (clear_old_statements memory memory_runtime background "ann" "shop" (pos 1) two).1)
unfolding view sort insert clear_old_statements
clear_old_statements_ok_example =
    clear_old_statements_ok memory memory_runtime view memory-laws background "ann" "shop" 1 two
      (record { yielded = ok 4 ∷ []; stopped = none }) (4 ∷ []) refl refl refl different refl

clear_old_statements_zero_example :
    view background
      (clear_old_statements memory memory_runtime background "ann" "shop" (pos 0) two).1
    ≡ view background two
unfolding view sort insert clear_old_statements
clear_old_statements_zero_example =
    clear_old_statements_zero memory memory_runtime view memory-laws background "ann" "shop" two
      (record { yielded = map ok (4 ∷ opening.id ∷ []); stopped = none }) (4 ∷ opening.id ∷ []) refl
      refl refl refl
