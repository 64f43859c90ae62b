-- ===== src/SharedPtr.antt =====
-- Shared pointers: src/lib/shared_ptr.h and src/lib/shared_ptr.c. The counters and the pointers stand
-- at addresses; `malloc` gives an address that is free. A counter, an int64_t in the source, is a
-- natural number: there are never more pointers than addresses.
pub mod Counting
use le_forum.Common.{
  ℕ, ◌+◌, ◌-◌, List, [], ◌∷◌, Option, none, some, ◌==◌, if◌then◌else◌, leb, Outcome, ok, fault,
}
use le_forum.Common.Result.{◌>>=◌}
use le_forum.Conf.{LeStatus, lestatus_ok, lestatus_nptr}

-- A `SharedPtr`: the address of its counter, and its datum.
pub record SharedPtr : Type 0 where
  pub ref_count : ℕ
  pub item : ℕ

-- The pointers and the counters that are allocated, and the data that the destructor was called on,
-- the last first.
pub record Store : Type 0 where
  pub pointers : ℕ → Option SharedPtr
  pub counts : ℕ → Option ℕ
  pub destroyed : List ℕ

abbrev pub update {ℓ} : {A : Type ℓ} → (ℕ → A) → ℕ → A → ℕ → A
update f p a q = if q == p then a else f q

-- `fresh` and `counter` are the addresses of the two allocations; no datum, no pointer.
unfoldable pub sharedptr_create : (fresh counter item : ℕ) → Store → LeStatus × Store
sharedptr_create fresh counter item s = if item == 0 then (lestatus_nptr, s) else (
  lestatus_ok,
  record s {
    pointers = update s.pointers fresh (some (record { ref_count = counter; item = item }));
    counts = update s.counts counter (some 1);
  },
)

-- A new pointer to the datum of the pointer at `p`; NULL for NULL.
unfoldable pub sharedptr_add : (fresh p : ℕ) → Store → Outcome (ℕ × Store)
sharedptr_add fresh p s = if p == 0 then ok (0, s) else elim (s.pointers p) [
  | none ↦ fault
  | some old ↦ elim (s.counts old.ref_count) [
    | none ↦ fault
    | some n ↦ ok (
      fresh,
      record s {
        pointers = update s.pointers fresh (some old);
        counts = update s.counts old.ref_count (some (n + 1));
      },
    )
  ]
]

-- The counter falls; at zero the datum is destroyed and the counter freed. The pointer is freed.
unfoldable pub sharedptr_delete : ℕ → Store → Outcome (LeStatus × Store)
sharedptr_delete p s = if p == 0 then ok (lestatus_nptr, s) else elim (s.pointers p) [
  | none ↦ fault
  | some old ↦ elim (s.counts old.ref_count) [
    | none ↦ fault
    | some n ↦ ok (
      lestatus_ok,
      if leb (n - 1) 0
          then record {
            pointers = update s.pointers p none;
            counts = update s.counts old.ref_count none;
            destroyed = old.item ∷ s.destroyed;
          }
          else record s {
            pointers = update s.pointers p none;
            counts = update s.counts old.ref_count (some (n - 1));
          },
    )
  ]
]

-- Calls of the two operations on pointers that share a datum.
pub data Call : Type 0 where
  add : (fresh p : ℕ) → Call
  delete : (p : ℕ) → Call

unfoldable pub run_call : Call → Store → Outcome Store
unfolding sharedptr_add sharedptr_delete
run_call (add fresh p) s = do (q, s) ← sharedptr_add fresh p s; ok s
run_call (delete p) s = do (status, s) ← sharedptr_delete p s; ok s

unfoldable pub run_calls : List Call → Store → Outcome Store
run_calls [] s = ok s
run_calls (call ∷ calls) s = do s ← run_call call s; run_calls calls s
