-- ===== src/Server/Sound/Threads.antt =====
-- Lists of threads that are kept.
use le_forum.Common.{
  false, ==_of_ne, ℕ, zero, suc, ◌<◌, ◌≡◌, ◌≢◌, refl, sym, ap, ◌∙◌, List, [], ◌∷◌, ◌++◌, arith,
  append-nil, append_assoc, Option, none, some, ◌⊎◌, inl, inr, length, All, All-append, get_elem?,
  set, ◌==◌, Bool-cases, Option-cases, eq_of_==,
}
use le_forum.Forum.{LeThread, LeMessage, LeAuthor}
use le_forum.Server.{place_of}
use le_forum.Server.Sound.{AreDistinct, IsKept, AreKept, new_lethreads, kept_lethread}

pub IsKept-refl : (t : LeThread) → IsKept t t
IsKept-refl t = record {
  id = refl;
  topic = refl;
  first = refl;
  added = ([], sym (append-nil t.messages));
  author = inr refl;
}

kept_author :
    {a b c : Option LeAuthor} → (a ≡ none) ⊎ (b ≡ a) → (b ≡ none) ⊎ (c ≡ b) → (a ≡ none) ⊎ (c ≡ a)
kept_author (inl unknown) _ = inl unknown
kept_author (inr same) (inl unknown) = inl (sym same ∙ unknown)
kept_author (inr same) (inr same') = inr (same' ∙ same)

pub IsKept-trans : {t u v : LeThread} → IsKept t u → IsKept u v → IsKept t v
IsKept-trans {t} a b =
    let (ms, e) = a.added in
    let (ns, e') = b.added in
    record {
      id = b.id ∙ a.id;
      topic = b.topic ∙ a.topic;
      first = b.first ∙ a.first;
      added =
          (ms ++ ns, e' ∙ (ap (λ (l : List LeMessage). l ++ ns) e ∙ append_assoc t.messages ms ns));
      author = kept_author a.author b.author;
    }

pub AreKept-refl : (ts : List LeThread) → AreKept ts ts
AreKept-refl [] = new_lethreads []
AreKept-refl (t ∷ ts) = kept_lethread (IsKept-refl t) (AreKept-refl ts)

pub AreKept-trans : {ts us vs : List LeThread} → AreKept ts us → AreKept us vs → AreKept ts vs
AreKept-trans {vs} (new_lethreads ts) b = new_lethreads vs
AreKept-trans (kept_lethread k a) (kept_lethread l b) =
    kept_lethread (IsKept-trans k l) (AreKept-trans a b)

pub AreKept-append : (ts us : List LeThread) → AreKept ts (ts ++ us)
AreKept-append [] us = new_lethreads us
AreKept-append (t ∷ ts) us = kept_lethread (IsKept-refl t) (AreKept-append ts us)

pub AreKept-set :
    (ts : List LeThread) (i : ℕ) (t t' : LeThread)
    → get_elem? ts i ≡ some t
    → IsKept t t'
    → AreKept ts (set ts i t')
AreKept-set [] i t t' e k = new_lethreads []
AreKept-set (x ∷ ts) zero t t' e k =
    let p : t ≡ x = cc in kept_lethread (rw p at k) (AreKept-refl ts)
AreKept-set (x ∷ ts) (suc i) t t' e k = kept_lethread (IsKept-refl x) (AreKept-set ts i t t' e k)

pub length-set : (ts : List LeThread) (i : ℕ) (t : LeThread) → length (set ts i t) ≡ length ts
length-set [] i t = refl
length-set (x ∷ ts) zero t = refl
length-set (x ∷ ts) (suc i) t = ap suc (length-set ts i t)

pub get_elem?-set :
    (ts : List LeThread) (i : ℕ) (t t' : LeThread)
    → get_elem? ts i ≡ some t
    → get_elem? (set ts i t') i ≡ some t'
get_elem?-set [] i t t' e = cc
get_elem?-set (x ∷ ts) zero t t' e = refl
get_elem?-set (x ∷ ts) (suc i) t t' e = get_elem?-set ts i t t' e

pub get_elem?-append_last :
    (ts : List LeThread) (t : LeThread) → get_elem? (ts ++ (t ∷ [])) (length ts) ≡ some t
get_elem?-append_last [] t = refl
get_elem?-append_last (x ∷ ts) t = get_elem?-append_last ts t

pub get_elem?-some :
    (ts : List LeThread) (i : ℕ) → i < length ts → (t : LeThread) × (get_elem? ts i ≡ some t)
get_elem?-some [] i h = absurd (omega arith)
get_elem?-some (x ∷ ts) zero h = (x, refl)
get_elem?-some (x ∷ ts) (suc i) h = get_elem?-some ts i (omega arith)

pub All-get_elem? :
    (P : LeThread → Type 0) (ts : List LeThread) (i : ℕ) (t : LeThread)
    → All P ts
    → get_elem? ts i ≡ some t
    → P t
All-get_elem? P [] i t h e = cc
All-get_elem? P (x ∷ ts) zero t (hx, h) e = let p : x ≡ t = cc in rw (← p) hx
All-get_elem? P (x ∷ ts) (suc i) t (hx, h) e = All-get_elem? P ts i t h e

pub All-set :
    (P : LeThread → Type 0) (ts : List LeThread) (i : ℕ) (t : LeThread)
    → All P ts
    → P t
    → All P (set ts i t)
All-set P [] i t h ht = tt
All-set P (x ∷ ts) zero t (hx, h) ht = (ht, h)
All-set P (x ∷ ts) (suc i) t (hx, h) ht = (hx, All-set P ts i t h ht)

pub All-weaken :
    {A : Type 0} (P Q : A → Type 0) (xs : List A) → ((x : A) → P x → Q x) → All P xs → All Q xs
All-weaken P Q [] f h = tt
All-weaken P Q (x ∷ xs) f (hx, h) = (f x hx, All-weaken P Q xs f h)

-- A thread is replaced by one with the same id.
pub AreDistinct-set :
    (ts : List LeThread) (i : ℕ) (t t' : LeThread)
    → get_elem? ts i ≡ some t
    → t'.id ≡ t.id
    → AreDistinct ts
    → AreDistinct (set ts i t')
AreDistinct-set [] i t t' e same h = tt
AreDistinct-set (x ∷ ts) zero t t' e same (hx, h) =
    let p : t ≡ x = cc in
    let q : t'.id ≡ x.id = same ∙ ap (λ (y : LeThread). y.id) p in
    (
      All-weaken (λ (u : LeThread). u.id ≢ x.id) (λ (u : LeThread). u.id ≢ t'.id) ts
          (λ u d e. d (e ∙ q)) hx,
      h,
    )
AreDistinct-set (x ∷ ts) (suc i) t t' e same (hx, h) =
    let d : t.id ≢ x.id = All-get_elem? (λ (u : LeThread). u.id ≢ x.id) ts i t hx e in
    (
      All-set (λ (u : LeThread). u.id ≢ x.id) ts i t' hx (λ e'. d (sym same ∙ e')),
      AreDistinct-set ts i t t' e same h,
    )

-- A thread with an id that was not given out before.
pub AreDistinct-append :
    (ts : List LeThread) (t : LeThread)
    → AreDistinct ts
    → All (λ (u : LeThread). u.id ≢ t.id) ts
    → AreDistinct (ts ++ (t ∷ []))
AreDistinct-append [] t h new = (tt, tt)
AreDistinct-append (x ∷ ts) t (hx, h) (n, new) = (
  All-append (λ (u : LeThread). u.id ≢ x.id) ts (t ∷ []) hx ((λ e. n (sym e)), tt),
  AreDistinct-append ts t h new,
)

-- What `place_of` gives is the thread at that place, and has the id.
pub place_of_lem :
    (id : ℕ) (ts : List LeThread) (i : ℕ) (t : LeThread)
    → place_of id ts ≡ some (i, t)
    → (get_elem? ts i ≡ some t) × (t.id ≡ id)
unfolding place_of
place_of_lem id [] i t e = cc
place_of_lem id (x ∷ ts) i t e = elim (Bool-cases (x.id == id)) [
  | inl b ↦
      let e' : some (0, x) ≡ some (i, t) = rw b at e in
      let p : 0 ≡ i = cc in let q : x ≡ t = cc in rw (← p, ← q) (refl, eq_of_== x.id id b)
  | inr b ↦ elim (Option-cases (place_of id ts)) [
    | inl nowhere ↦ absurd (let e' : none ≡ some (i, t) = rw (b, nowhere) at e in cc)
    | inr ((j, u), there) ↦
        let e' : some (suc j, u) ≡ some (i, t) = rw (b, there) at e in
        let p : suc j ≡ i = cc in let q : u ≡ t = cc in rw (← p, ← q) (place_of_lem id ts j u there)
  ]
]

pub get_elem?_bound :
    (ts : List LeThread) (i : ℕ) (t : LeThread) → get_elem? ts i ≡ some t → i < length ts
get_elem?_bound [] i t h = cc
get_elem?_bound (x ∷ ts) zero t h = omega arith
get_elem?_bound (x ∷ ts) (suc i) t h = omega (arith, get_elem?_bound ts i t h)

-- A thread is the first one with its id.
pub place_of-distinct :
    (ts : List LeThread) (i : ℕ) (t : LeThread)
    → AreDistinct ts
    → get_elem? ts i ≡ some t
    → place_of t.id ts ≡ some (i, t)
unfolding place_of
place_of-distinct [] i t d e = cc
place_of-distinct (x ∷ ts) zero t (d, ds) e = let p : x ≡ t = cc in ground (arith, p)
place_of-distinct (x ∷ ts) (suc i) t (d, ds) e =
    let other : t.id ≢ x.id = All-get_elem? (λ (u : LeThread). u.id ≢ x.id) ts i t d e in
    let differ : (x.id == t.id) ≡ false = ==_of_ne (λ q. other (sym q)) in
    rw (differ, place_of-distinct ts i t ds e)

-- Two threads with the same id are the same.
pub same_lethread :
    (ts : List LeThread) (i j : ℕ) (t u : LeThread)
    → AreDistinct ts
    → get_elem? ts i ≡ some t
    → get_elem? ts j ≡ some u
    → u.id ≡ t.id
    → t ≡ u
same_lethread ts i j t u d there there' same =
    let p = place_of-distinct ts i t d there in
    let q : place_of t.id ts ≡ some (j, u) =
      ap (λ (k : ℕ). place_of k ts) (sym same) ∙ place_of-distinct ts j u d there' in
    let r : ◌≡◌ {A = Option (ℕ × LeThread)} (some (i, t)) (some (j, u)) = sym p ∙ q in cc
