-- ===== src/Communication/Packets.antt =====
-- Packets arrive whole, in whatever pieces the network delivers them.
use mathlib.Core.List.{flatten}
use le_forum.Common.{
  ℕ, zero, suc, ◌+◌, ◌-◌, ◌≤◌, ◌<◌, ◌≡◌, refl, ap, ◌∙◌, List, [], ◌∷◌, ◌++◌, arith, leb, ◌==◌,
  Bool-cases, inl, inr, length, take-append, drop-append, take, drop, take-append, drop-append, map,
  append_assoc, take-append_of_le, drop-append_of_le, take-append-drop, length-take, length-drop,
  take_of_le, length-append, All, false,
}
use le_forum.Clib.Strings.{Bytes}
use le_forum.Communication.{
  arrived, timeout, Wire, Received, received, closed, failed, recv, recv_loop, s_recv, s_send,
}

-- The bytes that arrive before the first timeout.
abbrev pub carried : Wire → Bytes
carried [] = []
carried (timeout ∷ w) = []
carried (arrived bs ∷ w) = bs ++ carried w

-- What a call of `recv` gives.
data Gives (n : ℕ) (w : Wire) (r : Received × Wire) : Type 0 where
  some_bytes :
      (bs : Bytes) (w' : Wire)
      → r ≡ (received bs, w')
      → 0 < length bs
      → length bs ≤ n
      → carried w ≡ bs ++ carried w'
      → Gives n w r
  none_closed : (w' : Wire) → r ≡ (closed, w') → carried w ≡ [] → Gives n w r
  none_failed : (w' : Wire) → r ≡ (failed, w') → carried w ≡ [] → Gives n w r

recv-Gives : (n : ℕ) (w : Wire) → 0 < n → Gives n w (recv n w)
unfolding recv
recv-Gives n [] h = none_closed [] refl refl
recv-Gives n (timeout ∷ w) h = none_failed w refl refl
recv-Gives n (arrived [] ∷ w) h = elim (recv-Gives n w h) [
  | some_bytes bs w' e l k c ↦ some_bytes bs w' e l k c
  | none_closed w' e c ↦ none_closed w' e c
  | none_failed w' e c ↦ none_failed w' e c
]
recv-Gives n (arrived (b ∷ bs) ∷ w) h = elim (Bool-cases (leb (length (b ∷ bs)) n)) [
  | inl e ↦
      let all : length (b ∷ bs) ≤ n = ground (arith, e) in
      let t = take_of_le n (b ∷ bs) all in
      some_bytes (b ∷ bs) w (rw (recv, e, t)) (omega arith) all refl
  | inr e ↦
      let some : n < length (b ∷ bs) = ground (arith, e) in
      let l = length-take n (b ∷ bs) (omega arith) in
      some_bytes (take n (b ∷ bs)) (arrived (drop n (b ∷ bs)) ∷ w) (rw (recv, e)) (omega arith)
        (omega arith) (rw (← append_assoc, take-append-drop n (b ∷ bs)))
]

-- What a loop for `n` bytes reads, and what it leaves.
record Reads (n : ℕ) (w : Wire) (r : Bytes × Wire) : Type 0 where
  pub bytes : r.0 ≡ take n (carried w)
  pub rest : n ≤ length (carried w) → carried r.1 ≡ drop n (carried w)

Reads-none : (n : ℕ) (w w' : Wire) → 0 < n → carried w ≡ [] → Reads n w ([], w')
Reads-none n w w' pos c = record {
  bytes = rw (c, take_of_le {A = ℕ} n [] (omega arith));
  rest = λ h. absurd (omega (arith, ap (λ (l : Bytes). length l) c));
}

recv_loop-Reads : (fuel n : ℕ) (w : Wire) → n ≤ fuel → Reads n w (recv_loop fuel n w)
unfolding recv_loop
recv_loop-Reads zero n w h =
    let z : n ≡ 0 = omega arith in rw z (record { bytes = refl; rest = λ _. refl })
recv_loop-Reads (suc fuel) n w h = elim (Bool-cases (n == 0)) [
  | inl e ↦ let z : n ≡ 0 = ground (arith, e) in rw z (record { bytes = refl; rest = λ _. refl })
  | inr e ↦
      let pos : 0 < n = ground (arith, e) in
      elim (recv-Gives n w pos) [
        | some_bytes bs w' r l k c ↦
            let ih = recv_loop-Reads fuel (n - length bs) w' (omega arith) in
            rw (recv_loop, e, r)
              (record {
                bytes =
                    rw (c, take-append_of_le n bs (carried w') k)
                      (ap (λ (t : Bytes). bs ++ t) ih.bytes);
                rest = λ h.
                    rw (c, drop-append_of_le n bs (carried w') k)
                      (ih.rest (
                        omega
                          (arith, ap (λ (t : Bytes). length t) c, length-append bs (carried w'))));
              })
        | none_closed w' r c ↦ rw (recv_loop, e, r) (Reads-none n w w' pos c)
        | none_failed w' r c ↦ rw (recv_loop, e, r) (Reads-none n w w' pos c)
      ]
]

module _ (n : ℕ) (w : Wire) where
  pub s_recv_lem : ((s_recv n w).0 ≡ take n (carried w))
  unfolding s_recv
  s_recv_lem = (recv_loop-Reads n n w (omega arith)).bytes

  pub carried-s_recv : n ≤ length (carried w) → carried (s_recv n w).1 ≡ drop n (carried w)
  unfolding s_recv
  carried-s_recv = (recv_loop-Reads n n w (omega arith)).rest

-- A packet at the front of what is carried.
pub s_recv-packet :
    (packet rest : Bytes) (w : Wire)
    → carried w ≡ packet ++ rest
    → (w' : Wire) × (s_recv (length packet) w ≡ (packet, w')) × (carried w' ≡ rest)
s_recv-packet packet rest w c =
    let n = length packet in
    let r = s_recv n w in
    let a : r.0 ≡ packet = s_recv_lem n w ∙ rw (c, take-append packet rest) in
    let b : carried r.1 ≡ rest =
      carried-s_recv n w (omega (arith, ap (λ (t : Bytes). length t) c, length-append packet rest))
      ∙ rw (c, drop-append packet rest) in
    (r.1, λ i. (a i, r.1), b)

-- All of the numbers are at least one, and together they are enough.
abbrev pub total : List ℕ → ℕ
total [] = 0
total (k ∷ ks) = k + total ks

pub flatten-s_send :
    (buf : Bytes) (ks : List ℕ)
    → All (λ k. 0 < k) ks
    → length buf ≤ total ks
    → flatten (s_send buf ks) ≡ buf
unfolding s_send flatten
flatten-s_send [] [] pos enough = refl
flatten-s_send (b ∷ buf) [] pos enough = absurd (omega arith)
flatten-s_send [] (k ∷ ks) pos enough = refl
flatten-s_send (b ∷ buf) (k ∷ ks) (p, pos) enough =
    let nz : (k == 0) ≡ false = ground arith in
    let ih = flatten-s_send (drop k (b ∷ buf)) ks pos (omega (arith, length-drop k (b ∷ buf))) in
    let ne : (length (b ∷ buf) == 0) ≡ false = ground arith in
    rw (s_send, ne, nz, ih) (take-append-drop k (b ∷ buf))

abbrev pub deliver : List Bytes → Wire
deliver pieces = map (λ (bs : Bytes). arrived bs) pieces

carried-deliver :
    (pieces : List Bytes) (w : Wire) → carried (deliver pieces ++ w) ≡ flatten pieces ++ carried w
unfolding flatten
carried-deliver [] w = refl
carried-deliver (bs ∷ pieces) w = rw (carried-deliver pieces w, append_assoc)

-- Whatever numbers of bytes the calls of `send` take, each at least one and together enough for the
-- packet: `s_recv` of its size gives back the packet, and of what arrives behind it nothing that
-- comes before the first timeout is lost.
pub s_recv-s_send :
    (buf : Bytes) (ks : List ℕ) (w : Wire)
    → All (λ k. 0 < k) ks
    → length buf ≤ total ks
    → (w' : Wire) × (s_recv (length buf) (deliver (s_send buf ks) ++ w) ≡ (buf, w'))
      × (carried w' ≡ carried w)
s_recv-s_send buf ks w pos enough =
    s_recv-packet buf (carried w) (deliver (s_send buf ks) ++ w)
      (carried-deliver (s_send buf ks) w ∙ rw (flatten-s_send buf ks pos enough))
