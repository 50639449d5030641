-- ===== src/Connection/Task.antt =====
-- `Connection_task` and the table of handlers of src/connection.c.
pub mod Hangup
pub mod Lifecycle
pub mod Returns
use mongrel.Prelude.{ℕ, zero, suc, Option, none, some, List, [], ◌∷◌}
use mongrel.Strings.{Strings}
use mongrel.State.{
  Event, close, opening, Code, Action, on_open, error, finish, on_close, parse, register_request,
  identify_request, route_request, send_socket_response, msg_to_handler, http_to_handler,
  http_to_proxy, http_to_directory, proxy_deliver, proxy_failed, proxy_reply_parse, proxy_req_parse,
  proxy_close, Control, init, StateActions, Callback, exec,
}
use mongrel.Connection.{Connection, Limits, Outside}
use mongrel.Connection.Buffer.{send_status}
use mongrel.Connection.Routes.{
  connection_open, connection_finish, connection_parse, connection_send_socket_response,
  connection_route_request, connection_register_request, connection_identify_request,
  connection_proxy_close, connection_close, connection_error,
}
use mongrel.Connection.Delivery.{
  connection_msg_to_handler, connection_http_to_handler, connection_http_to_directory,
}
use mongrel.Connection.Proxies.{
  connection_http_to_proxy, connection_proxy_deliver, connection_proxy_reply_parse,
  connection_proxy_failed, connection_proxy_req_parse,
}

module _ {ℓ} {S : Type ℓ} (actions : StateActions S) (report : S → S) where
  -- `State_exec(&conn->state, CLOSE, conn)` at the end of the task
  last_exec : Control → S → Control × S
  last_exec cs s = let f = exec actions cs close s in (f.cs, f.store)

  -- The loop of `Connection_task`. An invalid `next` goes to the label `error` by way of `report`.
  unfoldable pub task_loop : ℕ → Control → Code → S → Option (Control × S)
  unfolding last_exec
  task_loop zero cs next s = none
  task_loop (suc fuel) cs none s = some (last_exec cs (report s))
  task_loop (suc fuel) cs (some close) s = some (last_exec cs s)
  task_loop (suc fuel) cs (some e) s =
      let f = exec actions cs e s in task_loop fuel f.cs f.next f.store

  -- `Connection_task`; `none` if it has not ended after `fuel` events
  unfoldable pub task : ℕ → S → Option (Control × S)
  task fuel s = task_loop fuel init (some opening) s

module _ {W : Type 0} (o : Outside W) (limits : Limits) (lib : Strings) where
  -- `CONN_ACTIONS`
  unfoldable pub conn_actions : Action → Callback (Connection W)
  conn_actions on_open = connection_open
  conn_actions error = connection_error o limits lib
  conn_actions finish = connection_finish
  conn_actions on_close = connection_close o limits lib
  conn_actions parse = connection_parse o limits lib
  conn_actions register_request = connection_register_request o limits lib
  conn_actions identify_request = connection_identify_request o limits lib
  conn_actions route_request = connection_route_request o limits lib
  conn_actions send_socket_response = connection_send_socket_response o limits lib
  conn_actions msg_to_handler = connection_msg_to_handler o limits
  conn_actions http_to_handler = connection_http_to_handler o limits
  conn_actions http_to_proxy = connection_http_to_proxy o limits
  conn_actions http_to_directory = connection_http_to_directory o limits
  conn_actions proxy_deliver = connection_proxy_deliver o limits
  conn_actions proxy_failed = connection_proxy_failed o limits
  conn_actions proxy_reply_parse = connection_proxy_reply_parse o limits
  conn_actions proxy_req_parse = connection_proxy_req_parse o limits lib
  conn_actions proxy_close = connection_proxy_close o limits lib

  -- `error_unless(next >= FINISHED && next < EVENT_END, conn, 500, …)` of the task
  abbrev pub report_500 : Connection W → Connection W
  report_500 c = (send_status o 500 c).1

  -- `Connection_task` on a connection
  unfoldable pub connection_task : ℕ → Connection W → Option (Control × Connection W)
  connection_task = task (λ a. some (conn_actions a)) report_500
