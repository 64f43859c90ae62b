-- ===== src/Queue/Chain.antt =====
-- The nodes that a pointer leads to, in order, and their contents.
use le_forum.Common.{
  ◌≡◌, ◌≢◌, refl, Bool, true, false, List, [], ◌∷◌, ◌++◌, Option, none, some, ◌==◌, ◌||◌, arith,
  ==_of_ne, ap,
}
use le_forum.Common.{ok}
use mathlib.Core.Bool.{or_assoc}
use le_forum.Queue.{Ptr, nullptr, QueueNode, node, Heap, update, load}

-- Address and contents of each node.
abbrev pub Cells : Type 0
Cells = List (Ptr × Ptr)

abbrev pub has : Ptr → Cells → Bool
has a [] = false
has a ((p, _) ∷ xs) = (a == p) || has a xs

abbrev pub items : Cells → List Ptr
items [] = []
items ((_, x) ∷ xs) = x ∷ items xs

-- From `p` on, the nodes `xs` up to the pointer `stop`; `end` is the address of the last of them.
pub data Chain (h : Heap) (stop : Ptr) : Ptr → Cells → Type 0 where
  nil : Chain h stop stop []
  cons :
      {p q x : Ptr} {xs : Cells}
      → p ≢ nullptr
      → h p ≡ some (node x q)
      → has p xs ≡ false
      → Chain h stop q xs
      → Chain h stop p ((p, x) ∷ xs)

pub load-node :
    {p q x : Ptr} (h : Heap) → p ≢ nullptr → h p ≡ some (node x q) → load p h ≡ ok (node x q)
unfolding load
load-node h ne e = rw (==_of_ne ne, e)

pub has-append : (a : Ptr) (xs ys : Cells) → has a (xs ++ ys) ≡ (has a xs || has a ys)
has-append a [] ys = refl
has-append a ((p, x) ∷ xs) ys = rw (has-append a xs ys, or_assoc)

pub items-append : (xs ys : Cells) → items (xs ++ ys) ≡ items xs ++ items ys
items-append [] ys = refl
items-append ((p, x) ∷ xs) ys = ap (λ (l : List Ptr). x ∷ l) (items-append xs ys)

-- `a` is the address of the last node, where `p` is the first and `xs` are those behind it.
abbrev pub LastOf : Ptr → Cells → Ptr → Type 0
LastOf p [] a = p ≡ a
LastOf p ((q, _) ∷ xs) a = LastOf q xs a

has-LastOf : (p x : Ptr) (xs : Cells) (a : Ptr) → LastOf p xs a → has a ((p, x) ∷ xs) ≡ true
has-LastOf p x [] a e = ground arith
has-LastOf p x ((q, y) ∷ xs) a l = ground (arith, has-LastOf q y xs a l)

module _ {h : Heap} {stop : Ptr} where
  -- A write elsewhere leaves the chain as it is.
  pub Chain-update :
      {p : Ptr} {xs : Cells} (a : Ptr) (c : Option QueueNode)
      → Chain h stop p xs
      → has a xs ≡ false
      → Chain (update h a c) stop p xs
  unfolding update
  Chain-update a c nil out = nil
  Chain-update a c (cons {p} {xs} ne e fresh s) out =
      cons ne (ground arith) fresh (Chain-update a c s (ground arith))

  pub not-has_of_none :
      {p : Ptr} {xs : Cells} (a : Ptr) → Chain h stop p xs → h a ≡ none → has a xs ≡ false
  not-has_of_none a nil unused = refl
  not-has_of_none a (cons ne e fresh s) unused = ground (arith, not-has_of_none a s unused)

-- `last->next = fresh` puts the node behind the others. The first node comes in its parts, since
-- its address stands in two indices.
pub link :
    {h : Heap} {p q x : Ptr} {xs : Cells} (a fresh item : Ptr)
    → p ≢ nullptr
    → h p ≡ some (node x q)
    → has p xs ≡ false
    → Chain h nullptr q xs
    → LastOf p xs a
    → has fresh ((p, x) ∷ xs) ≡ false
    → fresh ≢ nullptr
    → h fresh ≡ some (node item nullptr)
    → (y : Ptr) × (load a h ≡ ok (node y nullptr))
      × Chain (update h a (some (node y fresh))) nullptr p (((p, x) ∷ xs) ++ ((fresh, item) ∷ []))
unfolding update
link {h} {p} {x} a fresh item ne e out nil l new fn fe =
    rw (← l)
      (x, load-node h ne e, cons ne (ground arith) (ground arith) (cons fn (ground arith) refl nil))
link {h} {p} {x} a fresh item ne e out (cons {p = p'} {x = x'} {xs = xs'} ne' e' out' s) l new fn
      fe =
    let (y, ld, chain) = link a fresh item ne' e' out' s l (ground arith) fn fe in
    let other : has a ((p', x') ∷ xs') ≡ true = has-LastOf p' x' xs' a l in
    (y, ld, cons ne (ground arith) (ground (arith, has-append p xs' ((fresh, item) ∷ []))) chain)
