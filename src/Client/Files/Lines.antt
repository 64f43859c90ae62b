-- ===== src/Client/Files/Lines.antt =====
-- The lines of the file of servers, written and read.
use le_forum.Common.{
  ℕ, zero, suc, ◌+◌, ◌-◌, ◌/◌, ◌%◌, ◌^◌, ◌≤◌, ◌<◌, ◌≡◌, ◌≢◌, refl, sym, ap, ◌∙◌, List, [], ◌∷◌,
  ◌++◌, arith, true, false, ◌==◌, ltb, Bool-cases, inl, inr, ◌⊎◌, Option, some, none, length,
  length-append, append_assoc, All, All-append, Outcome, ok,
}
use mathlib.Core.List.{Memᴰ}
use le_forum.Common.Result.{◌>>=◌}
use le_forum.Clib.Strings.{Bytes}
use le_forum.Clib.Decimal.{digits, print_hd, is_space, skip_spaces}
use le_forum.Clib.Decimal.RoundTrip.{IsDigit, digits-IsDigit, scan_hd-print_hd}
use le_forum.Util.{newline, fgets, s_fgets}
use le_forum.Util.Lines.{IsLine, s_fgets-line, read_line-line, before_newline-line, before_nul-line}
use le_forum.Client.State.{HAddress}
use le_forum.Client.Files.{
  same_text, formatted_address, scan_word, scan_address, history_rounds, contains_line, getline,
  new_haddress,
}
use le_forum.Client.Files.Lookup.{same_text_self, eq_of_same_text}

-- A word that fits `addr`, and a port.
pub record IsAddress (h : HAddress) : Type 0 where
  pub word : All (λ c. (c ≢ 0) × (is_space c ≡ false)) h.addr
  pub there : 0 < length h.addr
  pub short : length h.addr < 32
  pub port : h.port < 2 ^ 16

pub length-digits : (k n : ℕ) → length (digits k n) ≤ k
unfolding digits
length-digits zero n = omega arith
length-digits (suc k) n = elim (Bool-cases (ltb n 10)) [
  | inl e ↦ rw e (omega arith)
  | inr e ↦ rw e (
      omega
        (arith, length-append (digits k (n / 10)) ((48 + n % 10) ∷ []), length-digits k (n / 10)))
]

length-print_hd : (n : ℕ) → length (print_hd n) ≤ 6
unfolding print_hd
length-print_hd n = elim (Bool-cases (ltb n (2 ^ 15))) [
  | inl e ↦ rw e (omega (arith, length-digits 5 n))
  | inr e ↦ rw e (omega (arith, length-digits 5 (2 ^ 16 - n)))
]

pub IsLine-digits : (u : Bytes) → All IsDigit u → IsLine u
IsLine-digits [] h = tt
IsLine-digits (c ∷ u) ((lo, hi), h) = ((omega arith, omega arith), IsLine-digits u h)

print_hd-IsLine : (n : ℕ) → IsLine (print_hd n)
unfolding print_hd
print_hd-IsLine n = elim (Bool-cases (ltb n (2 ^ 15))) [
  | inl e ↦ rw e (IsLine-digits (digits 5 n) (digits-IsDigit 5 n))
  | inr e ↦ rw e (
    (omega arith, omega arith),
    IsLine-digits (digits 5 (2 ^ 16 - n)) (digits-IsDigit 5 (2 ^ 16 - n)),
  )
]

IsLine-word : (u : Bytes) → All (λ c. (c ≢ 0) × (is_space c ≡ false)) u → IsLine u
IsLine-word [] h = tt
IsLine-word (c ∷ u) ((nz, ns), h) = ((nz, ground (arith, ns)), IsLine-word u h)

scan_word_lem :
    (u s : Bytes)
    → All (λ c. (c ≢ 0) × (is_space c ≡ false)) u
    → scan_word (u ++ (32 ∷ s)) ≡ (u, 32 ∷ s)
unfolding scan_word
scan_word_lem [] s h = refl
scan_word_lem (c ∷ u) s ((nz, ns), h) = rw (ns, scan_word_lem u s h)

skip_spaces_lem :
    (u s : Bytes)
    → All (λ c. (c ≢ 0) × (is_space c ≡ false)) u
    → 0 < length u
    → skip_spaces (u ++ s) ≡ u ++ s
unfolding skip_spaces
skip_spaces_lem [] s h there = absurd (omega arith)
skip_spaces_lem (c ∷ u) s ((nz, ns), h) there = rw ns

abbrev pub line_of : HAddress → Bytes
line_of h = formatted_address h.addr h.port

-- The file: a line for each server.
unfoldable pub lines_of : List HAddress → Bytes
lines_of [] = []
lines_of (h ∷ hs) = formatted_address h.addr h.port ++ (newline ∷ lines_of hs)

module _ (h : HAddress) (good : IsAddress h) where
  line_of-IsLine : IsLine (line_of h)
  unfolding formatted_address
  line_of-IsLine =
      All-append (λ c. (c ≢ 0) × (c ≢ newline)) h.addr (32 ∷ print_hd h.port)
        (IsLine-word h.addr good.word) ((omega arith, omega arith), print_hd-IsLine h.port)

  length-line_of : length (line_of h) < 62
  unfolding formatted_address
  length-line_of =
      omega (arith, length-append h.addr (32 ∷ print_hd h.port), length-print_hd h.port, good.short)

  line_of_pos : 0 < length (line_of h)
  unfolding formatted_address
  line_of_pos = omega (arith, length-append h.addr (32 ∷ print_hd h.port))

  scan_address_lem :
      (scanned : Option Bytes × Option ℕ)
      → scan_address (line_of h) scanned ≡ ok (some h.addr, some h.port)
  unfolding scan_address formatted_address
  scan_address_lem (a, p) =
      let some_word : (length h.addr == 0) ≡ false = ground (arith, good.there) in
      let fits : ltb (length h.addr) 32 ≡ true = ground (arith, good.short) in
      rw (
        skip_spaces_lem h.addr (32 ∷ print_hd h.port) good.word good.there,
        scan_word_lem h.addr (print_hd h.port) good.word,
        some_word,
        fits,
        scan_hd-print_hd h.port good.port,
      )

getline-line :
    (u rest : Bytes) → IsLine u → getline (u ++ (newline ∷ rest)) ≡ some (u ++ (newline ∷ []), rest)
unfolding getline
getline-line [] rest h = rw (read_line-line (suc (length rest)) [] rest tt (omega arith))
getline-line (c ∷ u) rest h = rw (
    read_line-line (suc (length (u ++ (newline ∷ rest)))) (c ∷ u) rest h
      (omega (arith, length-append u (newline ∷ rest))))

pub line_of_inj : (h h' : HAddress) → IsAddress h → IsAddress h' → line_of h ≡ line_of h' → h ≡ h'
line_of_inj h h' good good' same =
    let one = scan_address_lem h good (none, none) in
    let two = scan_address_lem h' good' (none, none) in
    let both : ok (some h.addr, some h.port) ≡ ok (some h'.addr, some h'.port) =
      sym one ∙ (ap (λ (u : Bytes). scan_address u (none, none)) same ∙ two) in
    let whole : ok h ≡ ok h' =
      ap (λ (o : Outcome (Option Bytes × Option ℕ)). o >>= new_haddress) both in
    cc

pub contains_line_lem :
    (fuel : ℕ) (h : HAddress) (hs : List HAddress)
    → IsAddress h
    → All IsAddress hs
    → length hs < fuel
    → ((contains_line fuel (line_of h) (lines_of hs) ≡ ok true) × Memᴰ h hs)
      ⊎ ((contains_line fuel (line_of h) (lines_of hs) ≡ ok false) × All (λ x. x ≢ h) hs)
unfolding contains_line lines_of
contains_line_lem zero h hs good goods enough = absurd (omega arith)
contains_line_lem (suc fuel) h [] good goods enough = inr (refl, tt)
contains_line_lem (suc fuel) h (x ∷ hs) good (good', goods) enough =
    let line = line_of-IsLine x good' in
    let first = getline-line (line_of x) (lines_of hs) line in
    let cut = before_newline-line (line_of x) [] line in
    let whole = before_nul-line (line_of x) line in
    elim (Bool-cases (same_text (line_of x) (line_of h))) [
      | inl e ↦ inl (
        rw (contains_line, first, cut, whole, e),
        Memᴰ.head (line_of_inj h x good good' (sym (eq_of_same_text (line_of x) (line_of h) e))),
      )
      | inr e ↦ elim (contains_line_lem fuel h hs good goods (omega arith)) [
        | inl (found, m) ↦ inl (rw (contains_line, first, cut, whole, e, found), Memᴰ.tail m)
        | inr (not_found, m) ↦ inr (
          rw (contains_line, first, cut, whole, e, not_found),
          (
            (λ (s : x ≡ h).
                let bad : false ≡ true =
                  sym e
                  ∙ (ap (λ (y : HAddress). same_text (line_of y) (line_of h)) s
                      ∙ same_text_self (line_of h)) in
                cc),
            m,
          ),
        )
      ]
    ]

pub history_rounds_lem :
    (fuel : ℕ) (hs : List HAddress) (scanned : Option Bytes × Option ℕ)
    → All IsAddress hs
    → length hs < fuel
    → history_rounds fuel (lines_of hs) scanned ≡ ok hs
unfolding history_rounds lines_of s_fgets fgets
history_rounds_lem zero hs scanned goods enough = absurd (omega arith)
history_rounds_lem (suc fuel) [] scanned goods enough = refl
history_rounds_lem (suc fuel) (h ∷ hs) scanned (good, goods) enough =
    let first =
      s_fgets-line 64 (line_of h) (lines_of hs) (line_of-IsLine h good)
        (omega (arith, length-line_of h good)) in
    let long : (length (line_of h) == 0) ≡ false = ground (arith, line_of_pos h good) in
    rw (
      history_rounds,
      first,
      long,
      scan_address_lem h good scanned,
      history_rounds_lem fuel hs (some h.addr, some h.port) goods (omega arith),
    )

pub length-lines_of : (hs : List HAddress) → length hs ≤ length (lines_of hs)
unfolding lines_of
length-lines_of [] = omega arith
length-lines_of (h ∷ hs) =
    omega (arith, length-append (line_of h) (newline ∷ lines_of hs), length-lines_of hs)

pub lines_of-append :
    (hs : List HAddress) (h : HAddress)
    → lines_of (hs ++ (h ∷ [])) ≡ lines_of hs ++ (line_of h ++ (newline ∷ []))
unfolding lines_of
lines_of-append [] h = refl
lines_of-append (x ∷ hs) h =
    rw (lines_of-append hs h) (sym (append_assoc (line_of x) (newline ∷ lines_of hs) _))
