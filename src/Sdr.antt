-- ===== src/Sdr.antt =====
-- src/python/gizmo_sdr.py: the server that streams frames of samples to its clients.
pub mod Stream
pub mod Frame
use Prim.Native.Nat.{min}
use gizmo.Prelude.{
  ℕ, zero, suc, ◌+◌, ◌-◌, ◌*◌, ◌/◌, ◌%◌, ◌^◌, Bool, true, false, Option, none, some, List, [], ◌∷◌,
  ◌++◌, map, ltb, ◌==◌, if◌then◌else◌, length, take, drop,
}
use gizmo.Common.{ℤ, pos, negsuc}

-- Bytes as numbers.
abbrev pub Bytes : Type 0
Bytes = List ℕ

-- `np.frombuffer(…, dtype=np.uint32)`, little-endian
unfoldable pub from_buffer : Bytes → List ℕ
from_buffer (a ∷ b ∷ c ∷ d ∷ rest) = (a + 256 * b + 65536 * c + 16777216 * d) ∷ from_buffer rest
from_buffer rest = []

-- `.astype(np.int32)` of one word
unfoldable pub as_int32 : ℕ → ℤ
as_int32 w = if ltb w (2 ^ 31) then pos w else negsuc (2 ^ 32 - 1 - w)

-- The four bytes of an int32.
unfoldable pub word_bytes : ℕ → Bytes
word_bytes w = w % 256 ∷ (w / 256) % 256 ∷ (w / 65536) % 256 ∷ (w / 16777216) % 256 ∷ []

unfoldable pub int32_bytes : ℤ → Bytes
unfolding word_bytes
int32_bytes (pos n) = word_bytes n
int32_bytes (negsuc n) = word_bytes (2 ^ 32 - 1 - n)

-- `.tobytes()`
unfoldable pub to_bytes : List ℤ → Bytes
to_bytes [] = []
to_bytes (n ∷ values) = int32_bytes n ++ to_bytes values

-- `read_frame`: the memory is as long as the map of it, BRAM_SIZE
unfoldable pub read_frame : ℕ → Bytes → Bytes
read_frame sample_count bram = to_bytes (map as_int32 (from_buffer (take (sample_count * 4) bram)))

-- What a socket does with a `send`: it has room for some bytes and takes as many of them as it
-- is given, it would block, or it is broken.
pub data Send : Type 0 where
  room : ℕ → Send
  blocked broken : Send

-- A value of `clients`, with the bytes that were sent on its socket so far.
pub record Client : Type 0 where
  pub pending : Option (Bytes × ℕ)
  pub sent : Bytes

-- `pending = (frame, 0)` where it is None
unfoldable pub pending_or : Bytes → Option (Bytes × ℕ) → Bytes × ℕ
pending_or frame none = (frame, 0)
pending_or frame (some p) = p

-- `None if offset == len(pending_frame) else (pending_frame, offset)`
unfoldable pub rest_of : Bytes → ℕ → Option (Bytes × ℕ)
rest_of frame offset = if offset == length frame then none else some (frame, offset)

-- The statements behind a `send`, which took a number of bytes; `none` is a client that is closed.
unfoldable pub after_send : Bytes → ℕ → Client → ℕ → Option Client
after_send frame offset c count =
    if count == 0
    then none
    else some record {
      pending = rest_of frame (offset + count);
      sent = c.sent ++ take count (drop offset frame);
    }

-- The rest of the round of the inner loop.
unfoldable pub send_pending : Bytes × ℕ → Client → Send → Option Client
send_pending (frame, offset) c (room n) =
    after_send frame offset c (min n (length (drop offset frame)))
send_pending p c blocked = some (record c { pending = some p })
send_pending p c broken = none

-- One round of the loop over the clients.
unfoldable pub serve_client : Bytes → Send → Client → Option Client
serve_client frame s c = send_pending (pending_or frame c.pending) c s

unfoldable pub keep_client : Option Client → List Client → List Client
keep_client none clients = clients
keep_client (some c) clients = c ∷ clients

-- The loop over the clients, each with what its socket does; a socket with nothing said would block.
unfoldable pub serve_clients : Bytes → List Send → List Client → List Client
serve_clients frame sends [] = []
serve_clients frame [] (c ∷ clients) =
    keep_client (serve_client frame blocked c) (serve_clients frame [] clients)
serve_clients frame (s ∷ sends) (c ∷ clients) =
    keep_client (serve_client frame s c) (serve_clients frame sends clients)

-- `clients[connection] = None`, for as many connections as wait
unfoldable pub accept : ℕ → List Client → List Client
accept zero clients = clients
accept (suc n) clients = accept n (clients ++ record { pending = none; sent = [] } ∷ [])

-- One round of `main`: the connections that wait, the frame of `read_frame`, and the sockets.
unfoldable pub serve_round : ℕ → Bytes → List Send → List Client → List Client
serve_round connections frame sends clients = serve_clients frame sends (accept connections clients)
