-- ===== src/Connection/Routes.antt =====
-- The handlers of src/connection.c that take a request in, find its route, and end a connection.
use mongrel.Prelude.{
  ℕ, ℤ, pos, is_positive, Bool, true, false, Option, none, some, not, ◌==◌, if◌then◌else◌,
}
use mongrel.Strings.{Bstring, Strings}
use mongrel.State.{
  Event, accept, close, directory, handler, http_req, msg_req, proxy, req_recv, resp_sent,
  socket_req, Callback,
}
use mongrel.Host.{
  Backend, Host, Server, backend_handler, backend_proxy, backend_dir, match_backend, match_host,
}
use mongrel.Connection.{
  Connection, Limits, Outside, Request, destroyed, disconnected, closed, registered_as,
}
use mongrel.Connection.Monad.{M, ◌>>=◌, ◌>>◌, pure, fail, check, modify, gets, when, log, ask}
use mongrel.Connection.Buffer.{send_status}
use mongrel.Connection.Header.{read_header}

-- `conn_type` of src/register.h
abbrev pub conn_type_http : ℕ
conn_type_http = 1

abbrev pub conn_type_msg : ℕ
conn_type_msg = 2

abbrev pub conn_type_socket : ℕ
conn_type_socket = 3

module _ {W : Type 0} where
  -- `… return good; error: return bad;`
  abbrev pub outcome : Event → Event → M W (Unit {0}) → Callback (Connection W)
  outcome good bad m _ c =
      let (r, c') = m c in (elim r [ none ↦ some bad | some _ ↦ some good ], c')

  -- the same where the function says what it returns
  abbrev pub outcome_of : Event → M W Event → Callback (Connection W)
  outcome_of bad m _ c = let (r, c') = m c in (elim r [ none ↦ some bad | some e ↦ some e ], c')

  -- `connection_open`
  unfoldable pub connection_open : Callback (Connection W)
  connection_open _ c = (some accept, record c { registered = true })

  -- `connection_finish`, which is `Connection_destroy`
  unfoldable pub connection_finish : Callback (Connection W)
  connection_finish = outcome close close (log destroyed)

module _ {W : Type 0} (o : Outside W) where
  -- `error_response`
  abbrev pub error_response : {A : Type 0} → ℕ → M W A
  error_response code = send_status o code >>= λ _. fail

  -- `error_unless` of a pointer
  abbrev pub need_or : {A : Type 0} → ℕ → Option A → M W A
  need_or code none = error_response code
  need_or code (some a) = pure a

module _ {W : Type 0} (o : Outside W) (limits : Limits) (lib : Strings) where
  -- `Connection_backend_event`: for an invalid type its own label `error` returns CLOSE
  unfoldable pub backend_event : Backend → M W Event
  backend_event found =
      if found.type_of == backend_handler
      then pure handler
      else if found.type_of == backend_dir
      then pure directory
      else if found.type_of == backend_proxy
      then pure proxy
      else (send_status o 501 >>= λ _. pure close)

  -- `connection_parse`
  unfoldable pub parse_steps : M W (Unit {0})
  parse_steps = modify (λ c. record c { nread = 0 }) >>= λ _.
      read_header o limits >>= λ n. check (not (n == 0))

  -- `connection_parse`: its label `error` and its result
  unfoldable pub connection_parse : Callback (Connection W)
  connection_parse = outcome req_recv close parse_steps

  -- `connection_send_socket_response`
  unfoldable pub policy_steps : M W (Unit {0})
  policy_steps = ask (o.send o.flash_response) >>= λ rc. check (is_positive rc)

  -- `connection_send_socket_response`: its label `error` and its result
  unfoldable pub connection_send_socket_response : Callback (Connection W)
  connection_send_socket_response = outcome resp_sent close policy_steps

  -- the host of `connection_route_request`
  find_host : Server Host → Option Bstring → Option Host
  find_host server none = server.default_host
  find_host server (some name) = match_host lib server name

  -- `connection_route_request`
  unfoldable pub route_steps : M W Event
  unfolding find_host
  route_steps = do
    c ← gets (λ c. c)
    host ← need_or o 404 (find_host c.server c.req.host_name)
    found ← need_or o 404 (match_backend lib host c.req.path)
    modify (λ c. record c {
      req = record c.req { action = some found.0; target_host = some host; pattern = some found.1 };
    })
    backend_event found.0

  -- `connection_route_request`: its label `error` and its result
  unfoldable pub connection_route_request : Callback (Connection W)
  connection_route_request = outcome_of close route_steps

  -- `ident_and_register`: the type of connection and the event
  identify : Request → ℕ × Event
  identify req =
      if req.is_socket
      then (conn_type_socket, socket_req)
      else if req.is_json
      then (conn_type_msg, msg_req)
      else (conn_type_http, http_req)

  -- `ident_and_register`; its last branch, a request of no type, is dead: `Request_is_http` is the
  -- negation of the other two tests
  ident_and_register : Bool → Callback (Connection W)
  unfolding identify
  ident_and_register reg_too = outcome_of close do
    found ← gets (λ c. identify c.req)
    when reg_too (log (registered_as found.0))
    pure found.1

  -- `connection_register_request`
  unfoldable pub connection_register_request : Callback (Connection W)
  unfolding ident_and_register
  connection_register_request = ident_and_register true

  -- `connection_identify_request`
  unfoldable pub connection_identify_request : Callback (Connection W)
  unfolding ident_and_register
  connection_identify_request = ident_and_register false

  -- the body of `connection_proxy_close`
  unfoldable pub close_proxy : M W (Unit {0})
  close_proxy = do
    fd ← gets (λ c. c.proxy_fd)
    log (closed fd)
    modify (λ c. record c { proxy_fd = pos 0 })

  -- `connection_proxy_close`
  unfoldable pub connection_proxy_close : Callback (Connection W)
  connection_proxy_close = outcome close close close_proxy

  abbrev is_zero : ℤ → Bool
  is_zero (pos n) = n == 0
  is_zero (ℤ.negsuc n) = false

  -- `close_or_error`, but for the event that it returns
  unfoldable pub close_or_error : M W (Unit {0})
  unfolding close_proxy
  close_or_error = do
    open_proxy ← gets (λ c. not (is_zero c.proxy_fd))
    when open_proxy close_proxy
    fd ← gets (λ c. c.fd)
    ask (o.register_disconnect fd) >>= λ _. log (disconnected fd)

  -- `connection_close` returns 0
  unfoldable pub connection_close : Callback (Connection W)
  connection_close _ c = let (_, c') = close_or_error c in (none, c')

  -- `connection_error`
  unfoldable pub connection_error : Callback (Connection W)
  connection_error = outcome close close close_or_error
