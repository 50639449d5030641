-- ===== src/Connection/Proxies/Relay.antt =====
-- The loop of `connection_proxy_reply_parse` of src/connection.c that reads until the backend closes.
use mongrel.Prelude.{
  ℕ, zero, suc, ◌+◌, ◌<◌, ℤ, ◌≡◌, refl, ap, ◌∙◌, some, inl, inr, Option-cases, Bool-cases, length,
  arith,
}
use mongrel.Connection.{Bytes, Connection, Limits, Outside}
use mongrel.Connection.Monad.{◌>>=◌}
use mongrel.Connection.Delivery.{equals}
use mongrel.Connection.Proxies.{relay_loop}

-- A read that brings something lowers what the backend has left, and a send to the client does not
-- raise it.
pub record Drains {W : Type 0} (o : Outside W) : Type 0 where
  pub read_lowers :
      (fd : ℤ) (len : ℕ) (w : W) (bytes : Bytes)
      → (o.fdrecv fd len w).0 ≡ some bytes
      → o.proxy_left (o.fdrecv fd len w).1 < o.proxy_left w
  pub send_keeps : (bytes : Bytes) (w : W) → o.proxy_left (o.send bytes w).1 ≡ o.proxy_left w

module _ {W : Type 0} (o : Outside W) (limits : Limits) (drains : Drains o) where
  open limits use {buffer_size}

  relay_loop-suc :
      (fuel : ℕ) (bytes : Bytes) (c : Connection W)
      → o.proxy_left c.world < fuel
      → relay_loop o limits (suc fuel) bytes c ≡ relay_loop o limits fuel bytes c
  unfolding relay_loop ◌>>=◌
  relay_loop-suc zero bytes c h = absurd (omega arith)
  relay_loop-suc (suc fuel) bytes c h =
      let sent = o.send bytes c.world in
      let read = o.fdrecv c.proxy_fd buffer_size sent.1 in
      let keeps = drains.send_keeps bytes c.world in
      elim (Bool-cases (equals sent.0 (length bytes))) [
        | inr bad ↦ simp bad refl
        | inl good ↦ elim (Option-cases read.0) [
          | inl e ↦ simp (good, e) refl
          | inr (more, e) ↦
              let less = drains.read_lowers c.proxy_fd buffer_size sent.1 more e in
              let ih = relay_loop-suc fuel more (record c { world = read.1 }) (omega arith) in
              simp (good, e) ih
        ]
      ]

  -- For a backend that answers a bounded number of reads, the loop that passes on a reply without
  -- length and chunks until a read brings nothing ends after that number of reads and one more: any
  -- number of rounds above gives the same result, whatever is sent and whether sends fail.
  pub relay_loop-ends :
      (more : ℕ) (bytes : Bytes) (c : Connection W)
      → relay_loop o limits (more + (o.proxy_left c.world + 1)) bytes c
        ≡ relay_loop o limits (o.proxy_left c.world + 1) bytes c
  relay_loop-ends zero bytes c = same (omega arith)
    where
      same : {n m : ℕ} → n ≡ m → relay_loop o limits n bytes c ≡ relay_loop o limits m bytes c
      same e = ap (λ k. relay_loop o limits k bytes c) e
  relay_loop-ends (suc more) bytes c = rw (suc_add more) (
      relay_loop-suc (more + (o.proxy_left c.world + 1)) bytes c (omega arith)
      ∙ relay_loop-ends more bytes c)
    where
      suc_add : (n : ℕ) → suc n + (o.proxy_left c.world + 1) ≡ suc (n + (o.proxy_left c.world + 1))
      suc_add n = omega arith
