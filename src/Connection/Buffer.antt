-- ===== src/Connection/Buffer.antt =====
-- Reads and writes of `conn->buf`, and `Response_send_status` of src/response.c.
pub mod Reads
use mongrel.Prelude.{ℕ, zero, suc, ◌+◌, ℤ, Bool, Option, List, [], ◌∷◌, length, ◌||◌, ltb, update}
use mongrel.Connection.{Bytes, Connection, status, Outside}
use mongrel.Connection.Monad.{M, ◌>>=◌, ◌>>◌, pure, modify, ask, log, need}

-- the `n` bytes from `off` on
abbrev pub slice : (ℕ → ℕ) → ℕ → ℕ → Bytes
slice buf off zero = []
slice buf off (suc n) = buf off ∷ slice buf (off + 1) n

-- the memory after the bytes are written at `off`
abbrev pub store_at : (ℕ → ℕ) → ℕ → Bytes → ℕ → ℕ
store_at buf off [] = buf
store_at buf off (b ∷ bs) = store_at (update buf off b) (off + 1) bs

module _ {W : Type 0} where
  -- bytes that arrive at `conn->buf + off`
  abbrev pub arrive : ℕ → Bytes → Connection W → Connection W
  arrive off bytes c = record c {
    buf = store_at c.buf off bytes;
    overrun = c.overrun || ltb c.buf_size (off + length bytes);
  }

  module _ (o : Outside W) where
    -- `rc = conn->recv(conn, conn->buf + off, len); check(rc > 0, …)`
    unfoldable pub recv_at : ℕ → ℕ → M W ℕ
    recv_at off len = do
      answer ← ask (o.recv len)
      bytes ← need answer
      modify (arrive off bytes)
      pure (length bytes)

    -- `Response_send_status` with a status line, its result unread
    unfoldable pub send_status : ℕ → M W (Unit {0})
    send_status code = do ask (o.send (o.status_line code)) >>= λ _. pure tt; log (status code)
