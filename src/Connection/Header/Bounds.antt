-- ===== src/Connection/Header/Bounds.antt =====
-- The memory that `Connection_read_header` of src/connection.c writes to.
use mongrel.Prelude.{
  Bool-cases, update, inl, inr, Option-cases, ℕ, zero, suc, ◌+◌, ◌≤◌, ◌<◌, ℤ, pos, ◌≡◌, false,
  Option, none, some, leb, arith,
}
use mongrel.Connection.{Connection, Limits, Outside}
use mongrel.Connection.Monad.{◌>>=◌}
use mongrel.Connection.Buffer.Reads.{RecvsAtMost, recv_at-cases}
use mongrel.Connection.Buffer.{send_status}
use mongrel.Connection.Header.{room, parse_buffer, read_round, read_loop, read_header}

module _ {W : Type 0} (o : Outside W) (limits : Limits) (at_most : RecvsAtMost o) where
  open limits use {buffer_size}

  -- nothing is written past the end of the buffer, and there is room to cap what is read
  abbrev IsSafe : Connection W → Type 0
  IsSafe c = (c.overrun ≡ false) × (buffer_size + 1 ≤ c.buf_size) × (c.nread < buffer_size)

  read_round-IsSafe :
      (len : ℕ) (c : Connection W)
      → IsSafe c
      → c.nread + len < buffer_size
      → IsSafe (read_round o limits c.nread len c).1
  unfolding read_round parse_buffer ◌>>=◌
  read_round-IsSafe len c h k = elim (recv_at-cases o at_most c.nread len c) [
    | inl e ↦ ground arith
    | inr (bytes, l, m, e) ↦ ground arith
  ]

  -- what may be read into
  HasRoom : Connection W → Option ℕ → Type 0
  HasRoom c none = Unit
  HasRoom c (some len) = c.nread + len < buffer_size

  room-HasRoom : (c : Connection W) → HasRoom c (room o limits c.nread)
  unfolding HasRoom
  room-HasRoom c = elim (Bool-cases (leb (c.nread + 1) buffer_size)) [
    | inl e ↦ rw e (ground arith)
    | inr e ↦ rw e tt
  ]

  read_loop-IsSafe :
      (fuel : ℕ) (finished : ℤ) (rest : Option ℕ) (c : Connection W)
      → HasRoom c rest
      → IsSafe c
      → IsSafe (read_loop o limits fuel finished c.nread rest c).1
  unfolding read_loop ◌>>=◌ HasRoom
  read_loop-IsSafe zero finished rest c r h = h
  read_loop-IsSafe (suc fuel) finished none c r h = h
  read_loop-IsSafe (suc fuel) finished (some len) c r h =
      let c' = (read_round o limits c.nread len c).1 in
      let q = read_round-IsSafe len c h r in
      elim (Option-cases (read_round o limits c.nread len c).0) [
        | inl e ↦ ground arith
        | inr (f, e) ↦
            let ih = read_loop-IsSafe fuel f (room o limits c'.nread) c' (room-HasRoom c') q in
            ground arith
      ]

  -- For a socket that answers with at least one byte and at most as many as it is asked for, and a
  -- connection that has read nothing yet, whose buffer is free of overruns and of BUFFER_SIZE + 1
  -- bytes or more: `Connection_read_header` writes nothing past the end of the buffer, and leaves
  -- fewer than BUFFER_SIZE bytes read, whether it succeeds or not and whatever the parser answers.
  pub read_header-IsSafe :
      (c : Connection W)
      → 0 < buffer_size
      → c.nread ≡ 0
      → c.overrun ≡ false
      → buffer_size + 1 ≤ c.buf_size
      → let c' = (read_header o limits c).1 in (c'.overrun ≡ false) × (c'.nread < buffer_size)
  unfolding read_header ◌>>=◌ send_status
  read_header-IsSafe c p n h k =
      let c1 = record c {
        nparsed = 0;
        req = o.request_start c.req;
        buf = update c.buf buffer_size 0;
      } in
      let q =
        read_loop-IsSafe (buffer_size + 1) (pos 0) (room o limits c1.nread) c1 (room-HasRoom c1)
          (h, k, ground arith) in
      ground arith
