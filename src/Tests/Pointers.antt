-- ===== src/Tests/Pointers.antt =====
-- A shared pointer that is copied once; then both are deleted.
use mathlib.Core.List.{Memᴰ}
use le_forum.Common.{◌≡◌, refl, arith, [], ◌∷◌, some, none, ok}
use le_forum.SharedPtr.{Store, update, add, delete, run_calls}
use le_forum.SharedPtr.Counting.{Holds, added, deleted, stop, run_calls_lem}

-- A pointer at 5, with its counter at 9.
abbrev one_pointer : Store
one_pointer = record {
  pointers = update (λ _. none) 5 (some (record { ref_count = 9; item = 7 }));
  counts = update (λ _. none) 9 (some 1);
  destroyed = [];
}

run_calls_lem_example :
    (s : Store) × (run_calls (add 6 5 ∷ delete 5 ∷ delete 6 ∷ []) one_pointer ≡ ok s)
    × Holds 9 7 [] [] s
run_calls_lem_example =
    run_calls_lem 9 7 {live = 5 ∷ []} {live' = []} [] one_pointer
      (record { counted = refl; pointing = ((omega arith, refl), tt); different = (tt, tt) }, refl)
      (added 6 5 (Memᴰ.head refl) (omega arith) (omega arith, tt)
        (deleted (6 ∷ []) 5 [] refl (deleted [] 6 [] refl stop)))
