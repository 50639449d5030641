-- ===== src/Connection/Task/Returns.antt =====
-- What the handlers of src/connection.c can return.
use mongrel.Prelude.{◌≡◌, refl, Bool, true, false, Option, none, some, arith, if◌then◌else◌}
use mongrel.State.{
  Event, accept, close, connect, directory, failed, handler, http_req, msg_req, proxy, remote_close,
  req_recv, req_sent, resp_sent, socket_req, Code, Action, on_open, error, finish, on_close, parse,
  register_request, identify_request, route_request, send_socket_response, msg_to_handler,
  http_to_handler, http_to_proxy, http_to_directory, proxy_deliver, proxy_failed, proxy_reply_parse,
  proxy_req_parse, proxy_close,
}
use mongrel.Strings.{Bstring, Strings}
use mongrel.Host.{Backend}
use mongrel.Connection.{Connection, Limits, Outside}
use mongrel.Connection.Monad.{M, ◌>>=◌, pure}
use mongrel.Connection.Routes.{
  outcome, outcome_of, backend_event, connection_open, connection_finish, connection_parse,
  connection_send_socket_response, connection_route_request, connection_register_request,
  connection_identify_request, connection_proxy_close, connection_close, connection_error,
  parse_steps, policy_steps, route_steps, close_proxy, close_or_error,
}
use mongrel.Connection.Delivery.{
  connection_msg_to_handler, connection_http_to_handler, connection_http_to_directory,
  message_steps, request_steps, directory_steps,
}
use mongrel.Connection.Proxies.{
  connection_http_to_proxy, connection_proxy_deliver, connection_proxy_reply_parse,
  connection_proxy_failed, connection_proxy_req_parse, dial_steps, forward_steps, reply_steps,
  next_request_steps, next_route,
}
use mongrel.Connection.Buffer.{send_status}
use mongrel.Connection.Task.{conn_actions}

-- the codes that the handler of an action may return
abbrev pub may_return : Action → Code → Bool
may_return on_open (some accept) = true
may_return error (some close) = true
may_return finish (some close) = true
may_return on_close none = true
may_return parse (some req_recv) = true
may_return parse (some close) = true
may_return register_request (some http_req) = true
may_return register_request (some msg_req) = true
may_return register_request (some socket_req) = true
may_return identify_request (some http_req) = true
may_return identify_request (some msg_req) = true
may_return identify_request (some socket_req) = true
may_return route_request (some handler) = true
may_return route_request (some proxy) = true
may_return route_request (some directory) = true
may_return route_request (some close) = true
may_return send_socket_response (some resp_sent) = true
may_return send_socket_response (some close) = true
may_return msg_to_handler (some req_sent) = true
may_return msg_to_handler (some close) = true
may_return http_to_handler (some req_sent) = true
may_return http_to_handler (some close) = true
may_return http_to_proxy (some connect) = true
may_return http_to_proxy (some failed) = true
may_return http_to_directory (some resp_sent) = true
may_return http_to_directory (some close) = true
may_return proxy_deliver (some req_sent) = true
may_return proxy_deliver (some remote_close) = true
may_return proxy_failed (some close) = true
may_return proxy_reply_parse (some req_recv) = true
may_return proxy_reply_parse (some failed) = true
may_return proxy_req_parse (some http_req) = true
may_return proxy_req_parse (some proxy) = true
may_return proxy_req_parse (some handler) = true
may_return proxy_req_parse (some directory) = true
may_return proxy_req_parse (some remote_close) = true
may_return proxy_req_parse (some close) = true
may_return proxy_close (some close) = true
may_return _ _ = false

-- every event that `m` comes to satisfies `P`
abbrev all_of : (Event → Bool) → Option Event → Bool
all_of P none = true
all_of P (some e) = P e

module _ {W : Type 0} where
  outcome-returns :
      (P : Code → Bool) (good bad : Event) (m : M W (Unit {0})) (c : Code) (s : Connection W)
      → P (some good) ≡ true
      → P (some bad) ≡ true
      → P (outcome good bad m c s).0 ≡ true
  outcome-returns P good bad m c s g b = split (m s).0
    where
      split : (r : Option (Unit {0})) → P (elim r [ none ↦ some bad | some _ ↦ some good ]) ≡ true
      split none = b
      split (some u) = g

  record Yields (P : Event → Bool) (m : M W Event) : Type 0 where
    at : (s : Connection W) → all_of P (m s).0 ≡ true

  Yields-bind :
      (P : Event → Bool) {A : Type 0} (m : M W A) (f : A → M W Event)
      → ((a : A) → Yields P (f a))
      → Yields P (m >>= f)
  unfolding ◌>>=◌
  Yields-bind P {A} m f y = record { at = λ s. split (m s).0 (m s).1 }
    where
      split :
          (r : Option A) (c : Connection W)
          → all_of P (
              let q : Option Event × Connection W = elim r [ none ↦ (none, c) | some a ↦ f a c ] in
              q.0)
            ≡ true
      split none c = refl
      split (some a) c = (y a).at c

  Yields-pure : (P : Event → Bool) (e : Event) → P e ≡ true → Yields P (pure e)
  Yields-pure P e h = record { at = λ s. h }

  Yields-if :
      (P : Event → Bool) (b : Bool) (m n : M W Event)
      → Yields P m
      → Yields P n
      → Yields P (if b then m else n)
  Yields-if P true m n y z = y
  Yields-if P false m n y z = z

  outcome_of-returns :
      (P : Code → Bool) (bad : Event) (m : M W Event) (c : Code) (s : Connection W)
      → Yields (λ e. P (some e)) m
      → P (some bad) ≡ true
      → P (outcome_of bad m c s).0 ≡ true
  outcome_of-returns P bad m c s y b = split (m s).0 (y.at s)
    where
      split :
          (r : Option Event)
          → all_of (λ e. P (some e)) r ≡ true
          → P (elim r [ none ↦ some bad | some e ↦ some e ]) ≡ true
      split none h = b
      split (some e) h = h

module _ {W : Type 0} (o : Outside W) (limits : Limits) (lib : Strings) where
  register-may_return :
      (c : Code) (s : Connection W)
      → may_return register_request (connection_register_request o limits lib c s).0 ≡ true
  unfolding connection_register_request ◌>>=◌
  register-may_return c s = ground arith

  identify-may_return :
      (c : Code) (s : Connection W)
      → may_return identify_request (connection_identify_request o limits lib c s).0 ≡ true
  unfolding connection_identify_request ◌>>=◌
  identify-may_return c s = ground arith

  backend_event-Yields :
      (P : Event → Bool) (b : Backend)
      → P handler ≡ true
      → P directory ≡ true
      → P proxy ≡ true
      → P close ≡ true
      → Yields P (backend_event o limits lib b)
  unfolding backend_event
  backend_event-Yields P b h d p c = Yields-if P _ _ _ (Yields-pure P handler h) (
      Yields-if P _ _ _ (Yields-pure P directory d)
        (Yields-if P _ _ _ (Yields-pure P proxy p) (Yields-bind P _ _ λ u. Yields-pure P close c)))

  route-may_return :
      (c : Code) (s : Connection W)
      → may_return route_request (connection_route_request o limits lib c s).0 ≡ true
  unfolding connection_route_request route_steps
  route-may_return c s =
      outcome_of-returns (may_return route_request) close (route_steps o limits lib) c s
        (Yields-bind _ _ _ λ c. Yields-bind _ _ _ λ host.
          Yields-bind _ _ _ λ (found : Backend × Bstring).
            Yields-bind _ _ _ λ u. backend_event-Yields _ found.0 refl refl refl refl)
        refl

  directory-may_return :
      (c : Code) (s : Connection W)
      → may_return http_to_directory (connection_http_to_directory o limits c s).0 ≡ true
  unfolding connection_http_to_directory directory_steps
  directory-may_return c s =
      outcome_of-returns (may_return http_to_directory) close (directory_steps o limits) c s
        (Yields-bind _ _ _
          λ c. Yields-bind _ _ _ λ rc. Yields-bind _ _ _ λ u. record { at = λ s. ground arith })
        refl

  next_route-Yields :
      (before : Connection W)
      → Yields (λ e. may_return proxy_req_parse (some e)) (next_route o limits lib before)
  unfolding next_route
  next_route-Yields before = Yields-bind _ _ _ λ host. Yields-bind _ _ _ λ c.
      Yields-if _ _ _ _ (Yields-pure _ proxy refl) (
        Yields-bind _ _ _ λ t. Yields-bind _ _ _ λ (found : Backend × Bstring).
          Yields-if _ _ _ _ (Yields-pure _ http_req refl)
            (Yields-bind _ _ _ λ u. backend_event-Yields _ found.0 refl refl refl refl))

  next_request-may_return :
      (c : Code) (s : Connection W)
      → may_return proxy_req_parse (connection_proxy_req_parse o limits lib c s).0 ≡ true
  unfolding connection_proxy_req_parse next_request_steps
  next_request-may_return c s =
      outcome_of-returns (may_return proxy_req_parse) remote_close (next_request_steps o limits lib)
        c s
        (Yields-bind _ _ _ λ before. Yields-bind _ _ _ λ n.
          Yields-bind _ _ _
            λ u. Yields-bind _ _ _ λ req. Yields-bind _ _ _ λ v. next_route-Yields before)
        refl

  -- Whatever the outside answers, each handler returns one of its codes.
  pub conn_actions-may_return :
      (a : Action) (c : Code) (s : Connection W)
      → may_return a (conn_actions o limits lib a c s).0 ≡ true
  unfolding conn_actions connection_open connection_finish connection_close connection_parse
      connection_error connection_send_socket_response connection_proxy_close
      connection_msg_to_handler connection_http_to_handler connection_http_to_proxy
      connection_proxy_deliver connection_proxy_failed connection_proxy_reply_parse
  conn_actions-may_return on_open c s = refl
  conn_actions-may_return on_close c s = refl
  conn_actions-may_return error c s =
      outcome-returns (may_return error) close close (close_or_error o limits lib) c s refl refl
  conn_actions-may_return finish c s = refl
  conn_actions-may_return parse c s =
      outcome-returns (may_return parse) req_recv close (parse_steps o limits lib) c s refl refl
  conn_actions-may_return send_socket_response c s =
      outcome-returns (may_return send_socket_response) resp_sent close (policy_steps o limits lib)
        c s refl refl
  conn_actions-may_return msg_to_handler c s =
      outcome-returns (may_return msg_to_handler) req_sent close (message_steps o limits) c s refl
        refl
  conn_actions-may_return http_to_handler c s =
      outcome-returns (may_return http_to_handler) req_sent close (request_steps o limits) c s refl
        refl
  conn_actions-may_return http_to_proxy c s =
      outcome-returns (may_return http_to_proxy) connect failed (dial_steps o limits) c s refl refl
  conn_actions-may_return proxy_deliver c s =
      outcome-returns (may_return proxy_deliver) req_sent remote_close (forward_steps o limits) c s
        refl refl
  conn_actions-may_return proxy_failed c s =
      outcome-returns (may_return proxy_failed) close close (send_status o 502) c s refl refl
  conn_actions-may_return proxy_reply_parse c s =
      outcome-returns (may_return proxy_reply_parse) req_recv failed (reply_steps o limits) c s refl
        refl
  conn_actions-may_return proxy_close c s =
      outcome-returns (may_return proxy_close) close close (close_proxy o limits lib) c s refl refl
  conn_actions-may_return register_request c s = register-may_return c s
  conn_actions-may_return identify_request c s = identify-may_return c s
  conn_actions-may_return route_request c s = route-may_return c s
  conn_actions-may_return http_to_directory c s = directory-may_return c s
  conn_actions-may_return proxy_req_parse c s = next_request-may_return c s
