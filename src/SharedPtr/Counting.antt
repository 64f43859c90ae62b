-- ===== src/SharedPtr/Counting.antt =====
-- The counter of shared pointers is their number, and the datum goes with the last of them.
use mathlib.Core.List.{Memᴰ}
use le_forum.Common.{
  ℕ, suc, ◌+◌, ◌-◌, ◌≡◌, ◌≢◌, refl, sym, ap, ◌∙◌, List, [], ◌∷◌, ◌++◌, arith, Option, none, some,
  true, false, ◌==◌, leb, length, length-append, All, ==_of_ne, ok, subst,
}
use le_forum.SharedPtr.{
  SharedPtr, Store, update, sharedptr_add, sharedptr_delete, Call, add, delete, run_call, run_calls,
}

abbrev AreDifferent : List ℕ → Type 0
AreDifferent [] = Unit
AreDifferent (x ∷ xs) = All (λ (q : ℕ). q ≢ x) xs × AreDifferent xs

-- `live` are the pointers to the datum `item`, with the counter at `c`.
pub record IsShared (c item : ℕ) (live : List ℕ) (s : Store) : Type 0 where
  pub counted : s.counts c ≡ some (length live)
  pub pointing :
      All (λ (p : ℕ). (p ≢ 0) × (s.pointers p ≡ some (record { ref_count = c; item = item }))) live
  pub different : AreDifferent live

-- While there are pointers, they are counted and nothing more is destroyed; with the last of them the
-- datum is destroyed and the counter freed. `before` is what was destroyed earlier.
abbrev pub Holds : (c item : ℕ) → (before : List ℕ) → List ℕ → Store → Type 0
Holds c item before [] s = (s.counts c ≡ none) × (s.destroyed ≡ item ∷ before)
Holds c item before (p ∷ ps) s = IsShared c item (p ∷ ps) s × (s.destroyed ≡ before)

-- Calls on pointers that are live, with new addresses.
pub data Uses : List ℕ → List Call → List ℕ → Type 0 where
  stop : {live : List ℕ} → Uses live [] live
  added :
      {live live' : List ℕ} {calls : List Call} (fresh p : ℕ)
      → Memᴰ p live
      → fresh ≢ 0
      → All (λ (q : ℕ). q ≢ fresh) live
      → Uses (fresh ∷ live) calls live'
      → Uses live (add fresh p ∷ calls) live'
  deleted :
      {live live' : List ℕ} {calls : List Call} (xs : List ℕ) (p : ℕ) (ys : List ℕ)
      → live ≡ xs ++ (p ∷ ys)
      → Uses (xs ++ ys) calls live'
      → Uses live (delete p ∷ calls) live'

All-remove :
    (P : ℕ → Type 0) (xs : List ℕ) (p : ℕ) (ys : List ℕ)
    → All P (xs ++ (p ∷ ys))
    → P p × All P (xs ++ ys)
All-remove P [] p ys h = h
All-remove P (x ∷ xs) p ys (hx, h) = let (hp, hs) = All-remove P xs p ys h in (hp, (hx, hs))

AreDifferent-remove :
    (xs : List ℕ) (p : ℕ) (ys : List ℕ)
    → AreDifferent (xs ++ (p ∷ ys))
    → All (λ (q : ℕ). q ≢ p) (xs ++ ys) × AreDifferent (xs ++ ys)
AreDifferent-remove [] p ys h = h
AreDifferent-remove (x ∷ xs) p ys (hx, h) =
    let (other, rest) = All-remove (λ (q : ℕ). q ≢ x) xs p ys hx in
    let (hp, hs) = AreDifferent-remove xs p ys h in (((λ e. other (sym e)), hp), (rest, hs))

All-Memᴰ : (P : ℕ → Type 0) (live : List ℕ) (p : ℕ) → Memᴰ p live → All P live → P p
All-Memᴰ P [] p m h = elim m [ ]
All-Memᴰ P (x ∷ xs) p (Memᴰ.head e) (hx, h) = rw e hx
All-Memᴰ P (x ∷ xs) p (Memᴰ.tail m) (hx, h) = All-Memᴰ P xs p m h

-- Pointers stay where another address is written.
pointing-update :
    (v : SharedPtr) (w : Option SharedPtr) (f : ℕ → Option SharedPtr) (a : ℕ) (live : List ℕ)
    → All (λ (q : ℕ). q ≢ a) live
    → All (λ (p : ℕ). (p ≢ 0) × (f p ≡ some v)) live
    → All (λ (p : ℕ). (p ≢ 0) × (update f a w p ≡ some v)) live
pointing-update v w f a [] d h = tt
pointing-update v w f a (x ∷ xs) (dx, d) ((nx, hx), h) =
    ((nx, rw (==_of_ne dx) hx), pointing-update v w f a xs d h)

module _ (c item : ℕ) where
  add_lem :
      (live : List ℕ) (s : Store) (fresh p : ℕ)
      → IsShared c item live s
      → Memᴰ p live
      → fresh ≢ 0
      → All (λ (q : ℕ). q ≢ fresh) live
      → (s' : Store) × (run_call (add fresh p) s ≡ ok s')
        × IsShared c item (fresh ∷ live) s'
        × (s'.destroyed ≡ s.destroyed)
  unfolding run_call sharedptr_add
  add_lem live s fresh p h m nonzero new =
      let v : SharedPtr = record { ref_count = c; item = item } in
      let (np, at) = All-Memᴰ (λ (q : ℕ). (q ≢ 0) × (s.pointers q ≡ some v)) live p m h.pointing in
      let here : (fresh == fresh) ≡ true = ground arith in
      let there : (c == c) ≡ true = ground arith in
      (
        record s {
          pointers = update s.pointers fresh (some v);
          counts = update s.counts c (some (length live + 1));
        },
        rw (run_call, sharedptr_add, ==_of_ne np, at, h.counted) refl,
        record {
          counted = rw there (ap some (omega arith));
          pointing = (
            (nonzero, rw here refl),
            pointing-update v (some v) s.pointers fresh live new h.pointing,
          );
          different = (new, h.different);
        },
        refl,
      )

  delete_lem :
      (xs : List ℕ) (p : ℕ) (ys : List ℕ) (s : Store)
      → IsShared c item (xs ++ (p ∷ ys)) s
      → (s' : Store) × (run_call (delete p) s ≡ ok s') × Holds c item s.destroyed (xs ++ ys) s'
  unfolding run_call sharedptr_delete
  delete_lem xs p ys s h = elim_rest (xs ++ ys) refl
    where
      v : SharedPtr
      v = record { ref_count = c; item = item }

      facts :
          ((p ≢ 0) × (s.pointers p ≡ some v))
          × All (λ (q : ℕ). (q ≢ 0) × (s.pointers q ≡ some v)) (xs ++ ys)
      facts = All-remove (λ (q : ℕ). (q ≢ 0) × (s.pointers q ≡ some v)) xs p ys h.pointing

      others : All (λ (q : ℕ). q ≢ p) (xs ++ ys) × AreDifferent (xs ++ ys)
      others = AreDifferent-remove xs p ys h.different

      size : length (xs ++ (p ∷ ys)) ≡ suc (length (xs ++ ys))
      size = omega (arith, length-append xs (p ∷ ys), length-append xs ys)

      there : (c == c) ≡ true
      there = ground arith

      elim_rest :
          (live : List ℕ)
          → xs ++ ys ≡ live
          → (s' : Store) × (run_call (delete p) s ≡ ok s') × Holds c item s.destroyed live s'
      elim_rest [] e =
          let n : length (xs ++ (p ∷ ys)) ≡ 1 = size ∙ ap (λ (l : List ℕ). suc (length l)) e in
          (
            record {
              pointers = update s.pointers p none;
              counts = update s.counts c none;
              destroyed = item ∷ s.destroyed;
            },
            rw (run_call, sharedptr_delete, ==_of_ne facts.0.0, facts.0.1, h.counted, n) refl,
            (rw there refl, refl),
          )
      elim_rest (x ∷ live) e =
          let n : length (xs ++ (p ∷ ys)) ≡ suc (suc (length live)) =
            size ∙ ap (λ (l : List ℕ). suc (length l)) e in
          let more : leb (suc (suc (length live)) - 1) 0 ≡ false = ground arith in
          let less : suc (suc (length live)) - 1 ≡ suc (length live) = omega arith in
          (
            record s {
              pointers = update s.pointers p none;
              counts = update s.counts c (some (suc (suc (length live)) - 1));
            },
            rw (run_call, sharedptr_delete, ==_of_ne facts.0.0, facts.0.1, h.counted, n, more) refl,
            (
              record {
                counted = rw there (ap some less);
                pointing =
                    pointing-update v none s.pointers p (x ∷ live) (rw e at others.0)
                      (rw e at facts.1);
                different = rw e at others.1;
              },
              refl,
            ),
          )

  -- For pointers that share a datum and a counter that is their number (`IsShared`), after any
  -- calls of `sharedptr_add` and `sharedptr_delete` on live ones of them, the copies at new
  -- addresses: no call is a fault; while a pointer is live, the counter is the number of the live
  -- ones and nothing was destroyed; and when none is left, the datum was destroyed once and the
  -- counter is freed.
  pub run_calls_lem :
      {live live' : List ℕ} {calls : List Call} (before : List ℕ) (s : Store)
      → Holds c item before live s
      → Uses live calls live'
      → (s' : Store) × (run_calls calls s ≡ ok s') × Holds c item before live' s'
  unfolding run_calls
  run_calls_lem before s h stop = (s, refl, h)
  run_calls_lem {live = []} before s h (added fresh p m _ _ rest) = elim m [ ]
  run_calls_lem {live = x ∷ live} before s g (added fresh p m nonzero new rest) =
      let (u, e, shared, same) = add_lem (x ∷ live) s fresh p g.0 m nonzero new in
      let (s', e', h') = run_calls_lem before u (shared, same ∙ g.1) rest in (s', rw e e', h')
  run_calls_lem {live = []} before s h (deleted [] p ys none_left rest) = cc
  run_calls_lem {live = []} before s h (deleted (x ∷ xs) p ys none_left rest) = cc
  run_calls_lem {live = x ∷ live} before s g (deleted xs p ys split rest) =
      let (u, e, held) = delete_lem xs p ys s (rw split at g.0) in
      let (s', e', h') =
        run_calls_lem before u (subst (λ (b : List ℕ). Holds c item b (xs ++ ys) u) g.1 held)
          rest in
      (s', rw e e', h')
