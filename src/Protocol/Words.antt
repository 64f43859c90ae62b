-- ===== src/Protocol/Words.antt =====
-- Reading back what was written.
use le_forum.Common.{
  ℕ, ◌<◌, ◌^◌, ◌≡◌, ◌++◌, ok, true, drop-append, drop-append_of_length, [], ◌∷◌, arith,
}
use le_forum.Common.Command.{done}
use le_forum.Clib.Strings.{Bytes, IsText, strncmp_eq_self}
use le_forum.Clib.Words.{le_bytes, le_value-le_bytes, length-le_bytes}
use le_forum.Conf.{LeStatus}
use le_forum.Protocol.{Word, chars, has_word, expect, read_int, gthr}

pub chars-IsText : (w : Word) → IsText (chars w)
unfolding chars
chars-IsText gthr = omega arith
chars-IsText _ = omega arith

pub has_word-chars : (w : Word) (p : Bytes) → has_word w (chars w ++ p) ≡ ok true
unfolding has_word
has_word-chars w p = strncmp_eq_self (chars w) p (0 ∷ []) (chars-IsText w)

module _ {S : Type 0} where
  pub expect-chars :
      (e : LeStatus) (w : Word) (p : Bytes) (s : S) → expect e w (chars w ++ p) s ≡ done p s
  unfolding expect
  expect-chars e w p s = rw (has_word-chars w p, drop-append (chars w) p)

  pub read_int-le_bytes :
      (k v : ℕ) (p : Bytes) (s : S) → v < 256 ^ k → read_int k (le_bytes k v ++ p) s ≡ done (v, p) s
  unfolding read_int
  read_int-le_bytes k v p s h =
      rw (le_value-le_bytes k v p h, drop-append_of_length (le_bytes k v) p (length-le_bytes k v))
