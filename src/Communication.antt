-- ===== src/Communication.antt =====
-- Whole packets over a stream socket: src/lib/communication.h and src/lib/communication.c. What a peer
-- sends arrives in pieces of any size.
pub mod Packets
use le_forum.Common.{
  ℕ, zero, suc, ◌+◌, ◌-◌, ◌*◌, List, [], ◌∷◌, ◌++◌, leb, if◌then◌else◌, ◌==◌, length, take, drop,
}
use le_forum.Clib.Strings.{Bytes}

abbrev pub max_packet_size : ℕ
max_packet_size = 1024 * 1024

-- What happens on the receiving side, in order: bytes arrive, or the wait for some times out. At the
-- end the peer has closed the connection.
pub data Event : Type 0 where
  arrived : Bytes → Event
  timeout : Event

abbrev pub Wire : Type 0
Wire = List Event

-- What `recv` returns: some bytes, 0 or a negative number.
pub data Received : Type 0 where
  received : Bytes → Received
  closed failed : Received

-- `recv` of at most `n` bytes: the first that are there.
unfoldable pub recv : ℕ → Wire → Received × Wire
recv n [] = (closed, [])
recv n (timeout ∷ w) = (failed, w)
recv n (arrived [] ∷ w) = recv n w
recv n (arrived (b ∷ bs) ∷ w) = (
  received (take n (b ∷ bs)),
  if leb (length (b ∷ bs)) n then w else arrived (drop n (b ∷ bs)) ∷ w,
)

-- What a round of `s_recv` does with what `recv` returned; `rest` is the loop from there.
abbrev pub read_on : (ℕ → Wire → Bytes × Wire) → ℕ → Received × Wire → Bytes × Wire
read_on rest n (received bs, w) = let (more, w') = rest (n - length bs) w in (bs ++ more, w')
read_on rest n (closed, w) = ([], w)
read_on rest n (failed, w) = ([], w)

-- The loop of `s_recv`, with the number of bytes that are still wanted.
unfoldable pub recv_loop : ℕ → ℕ → Wire → Bytes × Wire
unfolding recv
recv_loop zero n w = ([], w)
recv_loop (suc fuel) n w =
    let r = read_on (recv_loop fuel) n (recv n w) in if n == 0 then ([], w) else r

-- The bytes read, whose number is what `s_recv` returns. A round reads one at least.
unfoldable pub s_recv : ℕ → Wire → Bytes × Wire
unfolding recv_loop
s_recv size w = recv_loop size size w

-- The loop of `s_send`. Each call of `send` takes as many bytes as the next number says, or what is
-- left; with 0, or at the end of the list, the connection is broken. The pieces that were sent.
unfoldable pub s_send : Bytes → List ℕ → List Bytes
s_send buf [] = []
s_send buf (k ∷ ks) =
    let rest = s_send (drop k buf) ks in
    if length buf == 0 then [] else (if k == 0 then [] else take k buf ∷ rest)
