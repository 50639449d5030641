-- ===== src/Connection/Proxies.antt =====
-- The handlers of src/connection.c that pass a request to a proxy backend and its reply back.
pub mod Relay
use mongrel.Prelude.{
  ℕ, zero, suc, ◌+◌, ◌-◌, ℤ, pos, is_positive, Bool, true, false, Option, none, some, length, not,
  ◌||◌, ltb, ◌==◌, if◌then◌else◌,
}
use mongrel.Strings.{Bstring, Strings}
use mongrel.State.{
  Event, close, connect, failed, http_req, proxy, remote_close, req_recv, req_sent, Callback,
}
use mongrel.Host.{Backend, match_backend}
use mongrel.Tst.Insert.{same_key}
use mongrel.Connection.{Bytes, Client, Connection, Limits, Outside, proxied}
use mongrel.Connection.Monad.{M, ◌>>=◌, ◌>>◌, pure, fail, check, modify, gets, log, ask, need}
use mongrel.Connection.Buffer.{slice, recv_at, send_status}
use mongrel.Connection.Header.{read_header}
use mongrel.Connection.Routes.{outcome, outcome_of, need_or, backend_event}
use mongrel.Connection.Delivery.{action_target, not_minus_one, equals}

-- `biseq(a, b)` is not 0; with a NULL it is -1
biseq : Option Bstring → Option Bstring → Bool
biseq (some a) (some b) = same_key a b
biseq _ _ = true

module _ {W : Type 0} (o : Outside W) (limits : Limits) where
  open limits use {buffer_size}

  -- `connection_http_to_proxy`; the buffers of the proxy side are allocated, if they are not yet
  unfoldable pub dial_steps : M W (Unit {0})
  dial_steps = do
    action ← gets (λ c. c.req.action)
    target ← need (action_target action)
    fd ← ask (o.netdial target)
    modify (λ c. record c { proxy_fd = fd })
    check (not_minus_one fd)

  -- `connection_http_to_proxy`: its label `error` and its result
  unfoldable pub connection_http_to_proxy : Callback (Connection W)
  connection_http_to_proxy = outcome connect failed dial_steps

  -- `rc = fdsend(conn->proxy_fd, conn->buf, n)`
  send_buf : ℕ → M W ℤ
  send_buf n = do
    c ← gets (λ c. c)
    rc ← ask (o.fdsend c.proxy_fd (slice c.buf 0 n))
    log proxied
    pure rc

  -- `do … while(total_len > 0)` of `connection_proxy_deliver`; below 0 `total_len` is 0 here, which
  -- its tests do not tell apart: it is above `nread`, and so above 0, at the start. Each read brings a byte or more, so `total_len` more rounds are
  -- enough after the first.
  stream_loop : ℕ → ℕ → M W (Unit {0})
  unfolding send_buf
  stream_loop zero total = fail
  stream_loop (suc fuel) total = gets (λ c. c.nread) >>= λ nread. send_buf nread >>= λ rc.
      check (equals rc nread) >>= λ _.
      (if ltb nread total
        then (recv_at o 0 buffer_size >>= λ n.
            modify (λ c. record c { nread = n }) >>= λ _. stream_loop fuel (total - nread))
        else modify (λ c. record c { nread = 0 }))

  -- `memmove(conn->buf, conn->buf + total_len, conn->nread)`
  move_down : ℕ → ℕ → (ℕ → ℕ) → ℕ → ℕ
  move_down total n buf i = if ltb i n then buf (i + total) else buf i

  -- `Request_header_length(conn->req) + Request_content_length(conn->req)`
  total_length : ℕ → ℤ → ℤ
  total_length header_len (pos n) = pos (header_len + n)
  total_length header_len (ℤ.negsuc n) =
      if ltb n header_len then pos (header_len - (n + 1)) else ℤ.negsuc (n - header_len)

  -- The three branches of `connection_proxy_deliver`. A negative `total_len` is below `nread`; of it
  -- `fdsend` (src/task/fd.c) sends nothing and returns 0, and the check for `rc > 0` fails.
  deliver_request : ℤ → ℕ → M W (Unit {0})
  unfolding send_buf stream_loop move_down
  deliver_request (ℤ.negsuc n) nread = log proxied >>= λ _. fail
  deliver_request (pos total) nread =
      if ltb total nread
      then (send_buf total >>= λ rc. check (is_positive rc) >>= λ _.
          modify
            (λ c. record c { nread = nread - total; buf = move_down total (nread - total) c.buf }))
      else if ltb nread total
      then stream_loop (total + 1) total
      else (send_buf total >>= λ rc.
          check (equals rc total) >>= λ _. modify (λ c. record c { nread = 0 }))

  -- `connection_proxy_deliver`
  unfoldable pub forward_steps : M W (Unit {0})
  unfolding deliver_request total_length
  forward_steps = gets (λ c. c) >>= λ c.
      deliver_request (total_length c.req.body_start c.req.content_len) c.nread

  -- `connection_proxy_deliver`: its label `error` and its result
  unfoldable pub connection_proxy_deliver : Callback (Connection W)
  connection_proxy_deliver = outcome req_sent remote_close forward_steps

  -- The reply of a backend that says neither chunks nor a length: it is passed on until a read
  -- from the backend returns 0 or less. The fuel is one round more than reads are answered.
  pub relay_loop : ℕ → Bytes → M W (Unit {0})
  relay_loop zero bytes = pure tt
  relay_loop (suc fuel) bytes = ask (o.send bytes) >>= λ rc.
      check (equals rc (length bytes)) >>= λ _. gets (λ c. c.proxy_fd) >>= λ fd.
      ask (o.fdrecv fd buffer_size) >>= λ answer.
      λ c. elim answer [ none ↦ (some tt, c) | some more ↦ relay_loop fuel more c ]

  -- the branches of `connection_proxy_reply_parse` for a reply without chunks
  pass_by_length : ℕ → ℤ → ℕ → M W (Unit {0})
  unfolding relay_loop
  pass_by_length body_start (pos n) nread =
      ask (o.stream_response (body_start + n) nread) >>= λ rc. check (not_minus_one rc)
  pass_by_length body_start (ℤ.negsuc n) nread =
      if n == 0
      then (ask (λ w. (o.proxy_buf nread w, w)) >>= λ bytes.
          gets (λ c. o.proxy_left c.world + 1) >>= λ rounds. relay_loop rounds bytes)
      else fail

  -- the branches of `connection_proxy_reply_parse` on the parsed reply
  pass_reply : Client → ℕ → M W (Unit {0})
  unfolding pass_by_length
  pass_reply client nread =
      if client.chunked
      then (ask (o.stream_chunks nread) >>= λ rc. check (not_minus_one rc))
      else pass_by_length client.body_start client.content_len nread

  -- `connection_proxy_reply_parse`
  unfoldable pub reply_steps : M W (Unit {0})
  unfolding pass_reply
  reply_steps = do
    answer ← ask o.proxy_read_and_parse
    nread ← need answer
    client ← gets (λ c. o.proxy_client c.world)
    pass_reply client nread

  -- `connection_proxy_reply_parse`: its label `error` and its result
  unfoldable pub connection_proxy_reply_parse : Callback (Connection W)
  connection_proxy_reply_parse = outcome req_recv failed reply_steps

  -- `connection_proxy_failed`
  unfoldable pub connection_proxy_failed : Callback (Connection W)
  connection_proxy_failed = outcome close close (send_status o 502)

  module _ (lib : Strings) where
    -- whether a pointer to a backend is the one that the request has
    same_backend : Backend → Option Backend → Bool
    same_backend found none = false
    same_backend found (some b) = found.address == b.address

    -- `connection_proxy_req_parse` behind the test of the protocol: the host of the new request is
    -- copied and held against itself
    unfoldable pub next_route : Connection W → M W Event
    unfolding biseq same_backend
    next_route before = do
      host ← gets (λ c. c.req.host)
      c ← gets (λ c. c)
      if not (biseq host c.req.host) then pure proxy else do
        target_host ← need before.req.target_host
        found ← need_or o 404 (match_backend lib target_host c.req.path)
        if same_backend found.0 before.req.action then pure http_req else do
          modify (λ c. record c { req = record c.req { action = some found.0 } })
          backend_event o limits lib found.0

    -- `connection_proxy_req_parse`
    unfoldable pub next_request_steps : M W Event
    next_request_steps = do
      before ← gets (λ c. c)
      n ← read_header o limits
      check (not (n == 0))
      req ← gets (λ c. c.req)
      need_or o 400 (if req.is_json || req.is_socket then none else some tt)
      next_route before

    -- `connection_proxy_req_parse`: its label `error` and its result
    unfoldable pub connection_proxy_req_parse : Callback (Connection W)
    connection_proxy_req_parse = outcome_of remote_close next_request_steps
