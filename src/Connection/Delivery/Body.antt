-- ===== src/Connection/Delivery/Body.antt =====
-- The memory that `connection_http_to_handler` of src/connection.c reads a body into.
use mongrel.Prelude.{
  ℕ, zero, suc, ◌+◌, ◌-◌, ◌≤◌, ◌<◌, ◌≡◌, ◌||◌, some, length, inl, inr, Bool-cases, ◌==◌, ◌&&◌, ltb,
  arith,
}
use mongrel.Connection.{Bytes, Connection, Limits, Outside}
use mongrel.Connection.Monad.{◌>>=◌}
use mongrel.Connection.Buffer.{recv_at, arrive}
use mongrel.Connection.Delivery.{body_loop, enlarge, read_body}

-- a socket that always has bytes: one at least, and at most as many as it is asked for
abbrev pub AlwaysRecvs : {W : Type 0} → Outside W → Type 0
AlwaysRecvs {W} o =
    (len : ℕ) (w : W)
    → 0 < len
    → (bytes : Bytes) × ((o.recv len w).0 ≡ some bytes) × (1 ≤ length bytes) × (length bytes ≤ len)

module _ {W : Type 0} (o : Outside W) (limits : Limits) (always : AlwaysRecvs o) where
  recv_at-answers :
      (off len : ℕ) (c : Connection W)
      → 0 < len
      → let c' = record c { world = (o.recv len c.world).1 } in
        (bytes : Bytes) × (1 ≤ length bytes)
        × (length bytes ≤ len)
        × (recv_at o off len c ≡ (some (length bytes), arrive off bytes c'))
  unfolding recv_at ◌>>=◌
  recv_at-answers off len c p = let (bytes, e, l, h) = always len c.world p in (bytes, l, h, rw e)

  body_loop_lem :
      (fuel body rest : ℕ) (c : Connection W)
      → rest ≤ fuel
      → let r = body_loop o limits fuel body rest c in
        (r.0 ≡ some tt)
        × (r.1.buf_size ≡ c.buf_size)
        × (r.1.overrun ≡ (c.overrun || (ltb 0 rest && ltb c.buf_size (body + rest))))
  unfolding body_loop ◌>>=◌
  body_loop_lem zero body rest c h = ground arith
  body_loop_lem (suc fuel) body rest c h = elim (Bool-cases (rest == 0)) [
    | inl e ↦ ground arith
    | inr e ↦
        let (bytes, l, m, q) = recv_at-answers body rest c (ground arith) in
        let ih =
          body_loop_lem fuel (body + length bytes) (rest - length bytes) (recv_at o body rest c).1
            (ground arith) in
        ground arith
  ]

  -- For a socket that always has bytes, a body of `content_len > 0` bytes behind a header of
  -- `header_len`, and a connection that has not read all of it yet: the loop that reads the body
  -- ends without an error, and it has written past the end of the buffer, as it is after the
  -- `h_realloc`, in just the cases in which that is shorter than `nread + content_len`.
  pub read_body_lem :
      (header_len content_len : ℕ) (c : Connection W)
      → 0 < content_len
      → c.nread < header_len + content_len
      → let r = read_body o limits header_len content_len c in
        (r.0 ≡ some tt)
        × (r.1.overrun ≡ (
            c.overrun
            || ltb
                (enlarge o limits (header_len + content_len) c).buf_size
                (c.nread + content_len)))
  unfolding read_body ◌>>=◌
  read_body_lem header_len content_len c p h =
      let l =
        body_loop_lem content_len c.nread content_len
          (enlarge o limits (header_len + content_len) c) (ground arith) in
      ground arith
