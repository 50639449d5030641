-- ===== src/Connection/Delivery.antt =====
-- The handlers of src/connection.c that give a request to a 0MQ handler or to a directory.
pub mod Body
use mongrel.Prelude.{
  ℕ, zero, suc, ◌+◌, ◌-◌, ℤ, pos, minus_one, is_positive, pos_part, Bool, true, false, Option, none,
  some, [], ◌∷◌, length, not, ltb, leb, ◌==◌, if◌then◌else◌, min,
}
use mongrel.Strings.{Bstring}
use mongrel.State.{Event, close, req_sent, resp_sent, Callback}
use mongrel.Host.{Backend}
use mongrel.Connection.{Connection, Limits, Outside, Request, delivered, pinged, unlinked, closed}
use mongrel.Connection.Monad.{M, ◌>>=◌, ◌>>◌, pure, fail, check, modify, gets, when, log, ask, need}
use mongrel.Connection.Buffer.{slice, recv_at}
use mongrel.Connection.Header.{chars}
use mongrel.Connection.Routes.{outcome, outcome_of, error_response, need_or}

-- `Request_get_action`: the pointer in the union, or `none` for NULL
abbrev pub action_target : Option Backend → Option ℕ
action_target none = none
action_target (some b) = if b.target == 0 then none else some b.target

-- the same where NULL is handed on
abbrev dir_target : Option Backend → ℕ
dir_target none = 0
dir_target (some b) = b.target

-- `rc != -1`
abbrev pub not_minus_one : ℤ → Bool
not_minus_one (ℤ.negsuc n) = not (n == 0)
not_minus_one (pos n) = true

-- `rc == n` of an `int`
abbrev pub equals : ℤ → ℕ → Bool
equals (pos m) n = m == n
equals (ℤ.negsuc m) n = false

module _ {W : Type 0} (o : Outside W) (limits : Limits) where
  open limits use {buffer_size, max_content_length, upload_store}

  -- `dict_alloc_insert(conn->req->headers, …)`
  add_header : Bstring → Bstring → M W (Unit {0})
  add_header name v =
      modify (λ c. record c { req = record c.req { headers = (name, v) ∷ c.req.headers } })

  -- `connection_msg_to_handler`; `Register_ping`'s result is not read, and a payload that is NULL goes
  -- to `Handler_deliver` as it is
  unfoldable pub message_steps : M W (Unit {0})
  message_steps = do
    c ← gets (λ c. c)
    target ← need (action_target c.req.action)
    if o.is_ping (slice c.buf 0 c.nparsed) then log pinged else do
      let header_len = length c.req.path + 1
      check (leb (header_len + 1) c.nread)
      let len = c.nread - header_len - 1
      payload ← ask (o.to_payload c.req target c.fd (slice c.buf header_len len) (pos len))
      rc ← ask (o.handler_deliver target payload)
      log delivered
      check (equals rc 0)

  -- `connection_msg_to_handler`: its label `error` and its result
  unfoldable pub connection_msg_to_handler : Callback (Connection W)
  connection_msg_to_handler = outcome req_sent close message_steps

  -- `for(…; content_len > 0; content_len -= rc)` of `connection_upload_file`; a round writes one
  -- byte or more, so `content_len` rounds are enough
  upload_loop : ℕ → ℕ → M W (Unit {0})
  upload_loop zero content_len = check (content_len == 0)
  upload_loop (suc fuel) content_len =
      if content_len == 0
      then pure tt
      else (recv_at o 0 (min content_len buffer_size) >>= λ nread.
          gets (λ c. slice c.buf 0 nread) >>= λ bytes. ask (o.fdwrite bytes) >>= λ rc.
          check (is_positive rc) >>= λ _.
          -- below 0 `content_len` ends the loop and fails the check behind it
          check (leb (pos_part rc) content_len) >>= λ _.
          upload_loop fuel (content_len - pos_part rc))

  -- `connection_upload_file` from the `mkstemp` on, with the name of the file
  upload_to : Bstring → ℕ → ℕ → ℕ → M W (Unit {0})
  unfolding add_header upload_loop
  upload_to store target header_len content_len = do
    add_header (chars "X-Mongrel2-Upload-Start") store
    c ← gets (λ c. c)
    payload ← ask (o.to_payload c.req target c.fd [] (pos 0))
    bytes ← need payload
    sent ← ask (o.handler_deliver target (some bytes))
    log delivered
    check (not_minus_one sent)
    rc ←
        if ltb header_len c.nread
        then ask (o.fdwrite (slice c.buf header_len (c.nread - header_len)))
        else pure sent
    check (if ltb header_len c.nread then equals rc (c.nread - header_len) else true)
    modify (λ c. record c { nread = 0 })
    check (leb (pos_part rc) content_len)
    upload_loop content_len (content_len - pos_part rc)
    add_header (chars "X-Mongrel2-Upload-Done") store

  -- the part behind `error:`, where `fd` is `tmpfd`
  upload_error : ℤ → Bool → M W (Unit {0})
  upload_error fd has_store = log (closed fd) >>= λ _. when has_store (log unlinked) >>= λ _. fail

  -- what `m` ends in, with `cleanup` behind its label `error`
  abbrev on_error : M W (Unit {0}) → M W (Unit {0}) → M W (Unit {0})
  on_error m cleanup c = let (r, c') = m c in elim r [ none ↦ cleanup c' | some u ↦ (some u, c') ]

  -- `connection_upload_file`. Without the setting `tmpfd` is still 0 at `error:`.
  upload_file : ℕ → ℕ → ℕ → M W (Unit {0})
  unfolding upload_to upload_error
  upload_file target header_len content_len = elim upload_store [
    | none ↦ on_error (error_response o 413) (upload_error (pos 0) false)
    | some store ↦ ask (o.mkstemp store) >>= λ tmpfd.
        on_error
          (check (not_minus_one tmpfd) >>= λ _.
            upload_to store target header_len content_len >>= λ _. log (closed tmpfd))
          (upload_error tmpfd true)
  ]

  -- `for(remaining = content_len; remaining > 0; remaining -= rc, body += rc)`, with `body` as an
  -- offset; a round reads one byte or more, so `content_len` rounds are enough
  body_loop : ℕ → ℕ → ℕ → M W (Unit {0})
  body_loop zero body remaining = check (remaining == 0)
  body_loop (suc fuel) body remaining =
      if remaining == 0
      then pure tt
      else (recv_at o body remaining >>= λ rc.
          check (leb rc remaining) >>= λ _. body_loop fuel (body + rc) (remaining - rc))

  -- `if(total > BUFFER_SIZE) conn->buf = h_realloc(conn->buf, total);`
  abbrev pub enlarge : ℕ → Connection W → Connection W
  enlarge total c = if ltb buffer_size total then record c { buf_size = total } else c

  -- The branch of `connection_http_to_handler` for a body that fits MAX_CONTENT_LENGTH. The loop
  -- starts at what is read so far, and asks for `content_len` bytes more.
  pub read_body : ℕ → ℕ → M W (Unit {0})
  unfolding body_loop
  read_body header_len content_len = do
    modify (enlarge (header_len + content_len))
    nread ← gets (λ c. c.nread)
    when (ltb nread (header_len + content_len)) (body_loop content_len nread content_len)

  -- The body that goes to the handler, and its length. A negative `content_len` makes `total` less
  -- than what is read of the header, so nothing more is read, and `bcatblk` appends nothing.
  take_body : ℕ → ℕ → ℤ → M W (ℕ × ℤ)
  unfolding read_body upload_file
  take_body target header_len (pos n) =
      if n == 0
      then pure (0, pos 0)
      else if ltb max_content_length n
      then (upload_file target header_len n >>= λ _. pure (0, pos 0))
      else (read_body header_len n >>= λ _. pure (n, pos n))
  take_body target header_len (ℤ.negsuc n) = do
    nread ← gets (λ c. c.nread)
    check (leb (header_len - (n + 1)) nread)
    pure (0, ℤ.negsuc n)

  -- `connection_http_to_handler`
  unfoldable pub request_steps : M W (Unit {0})
  unfolding take_body
  request_steps = do
    req ← gets (λ c. c.req)
    target ← need_or o 404 (action_target req.action)
    len ← take_body target req.body_start req.content_len
    c ← gets (λ c. c)
    payload ← ask (o.to_payload c.req target c.fd (slice c.buf req.body_start len.0) len.1)
    bytes ← need payload
    rc ← ask (o.handler_deliver target (some bytes))
    log delivered
    if not_minus_one rc then pure tt else error_response o 502

  -- `connection_http_to_handler`: its label `error` and its result
  unfoldable pub connection_http_to_handler : Callback (Connection W)
  connection_http_to_handler = outcome req_sent close request_steps

  -- `connection_http_to_directory`; `Dir_serve_file` gets the union's pointer as it is
  unfoldable pub directory_steps : M W Event
  directory_steps = do
    c ← gets (λ c. c)
    rc ← ask (o.serve_file (dir_target c.req.action) c.req)
    check (equals rc 0)
    pure (if c.closing then close else resp_sent)

  -- `connection_http_to_directory`: its label `error` and its result
  unfoldable pub connection_http_to_directory : Callback (Connection W)
  connection_http_to_directory = outcome_of close directory_steps
