-- ===== src/Client/Menus/Overrun.antt =====
-- A long line in a menu.
use le_forum.Common.{
  ℕ, zero, ◌+◌, ==_of_ne, List, suc, ◌≤◌, ◌≡◌, [], ◌∷◌, ◌++◌, arith, true, ltb, lt→ltb, length,
}
use le_forum.Common.Command.{Run}
use le_forum.Clib.Strings.{Bytes}
use le_forum.Util.{newline, fgets, read_line}
use le_forum.Util.Lines.{IsLine}
use le_forum.Client.State.{LeClient, Shown}
use le_forum.Client.Input.{get_line}
use le_forum.Client.Menus.{leclient_loop_process}

-- `fgets` takes as much of a long line as it may.
pub read_line-long :
    (k n : ℕ) (u rest : Bytes)
    → IsLine u
    → k ≤ n
    → k ≤ length u + 1
    → k ≤ length (read_line n (u ++ (newline ∷ rest))).0
unfolding read_line
read_line-long zero n u rest text h l = omega arith
read_line-long (suc k) zero u rest text h l = absurd (omega arith)
read_line-long (suc k) (suc n) [] rest text h l = omega arith
read_line-long (suc k) (suc n) (c ∷ u) rest ((nz, nn), text) h l =
    rw (==_of_ne nn) (omega (arith, read_line-long k n u rest text (omega arith) (omega arith)))

too_long : (n : ℕ) → 64 ≤ n → ltb 64 (suc n) ≡ true
too_long n h = lt→ltb (omega arith)

-- On a line of 63 characters or more `leclient_loop_process` writes outside its buffer of 64 bytes.
pub leclient_loop_process_overruns :
    {P : Type 0} (c : LeClient P) (menu : List Shown) (u rest : Bytes)
    → c.stdin ≡ u ++ (newline ∷ rest)
    → IsLine u
    → 63 ≤ length u
    → leclient_loop_process menu c ≡ Run.fault
unfolding leclient_loop_process get_line fgets
leclient_loop_process_overruns c menu [] rest typed text long = absurd (omega arith)
leclient_loop_process_overruns c menu (b ∷ u) rest typed text long =
    let taken = read_line-long 64 127 (b ∷ u) rest text (omega arith) (omega arith) in
    let over = too_long (length (read_line 127 ((b ∷ u) ++ (newline ∷ rest))).0) taken in
    rw (leclient_loop_process, get_line, typed, over)
