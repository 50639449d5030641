-- ===== src/State/Chart.antt =====
-- src/state_machine.rl and the actions of src/state.rl, read as a state chart: the source from
-- which state.c is generated. `State_exec` of state.c is compared with it.
use mongrel.Prelude.{Option, none, some, List, [], ◌∷◌, ◌++◌, map, ◌≡◌, arith}
use mongrel.State.{
  Event, close, connect, directory, failed, handler, http_req, msg_req, opening, accept, proxy,
  remote_close, req_recv, req_sent, resp_sent, socket_req, Code, Action, on_open, error, finish,
  on_close, parse, register_request, identify_request, route_request, send_socket_response,
  msg_to_handler, http_to_handler, http_to_proxy, http_to_directory, proxy_deliver, proxy_failed,
  proxy_reply_parse, proxy_req_parse, proxy_close, Control, st0, st1, st2, st3, st4, st5, st6, st7,
  st8, st9, st11, st12, st13, st15, st16, st17, st18, StateActions, exec,
}

-- The named states of `Connection` and `Proxy`. `identified` is the nameless one between
-- `REQ_RECV @identify_request` and the event that follows it, and `proxy_start` is Proxy's `start`.
pub data Phase : Type 0 where
  start accepting identifying registered idle identified msg_routing http_routing : Phase
  queueing responding final proxy_start proxying sending receiving closing : Phase

-- The number that Ragel gave a state; the error state is the `none` of `Option Phase`.
abbrev pub control : Phase → Control
control start = st17
control accepting = st1
control identifying = st2
control registered = st3
control idle = st6
control identified = st7
control msg_routing = st8
control http_routing = st4
control queueing = st9
control responding = st5
control final = st18
control proxy_start = st11
control proxying = st16
control sending = st12
control receiving = st15
control closing = st13

abbrev pub control_or_error : Option Phase → Control
control_or_error none = st0
control_or_error (some p) = control p

abbrev pub Edge : Type 0
Edge = List Action × Phase

abbrev pub one : Action → Phase → Option Edge
one a p = some (a ∷ [], p)

-- the states of `Connection` that take a request to its route
request_edge : Event → Option Edge
request_edge http_req = one route_request http_routing
request_edge msg_req = one route_request msg_routing
request_edge socket_req = one send_socket_response responding
request_edge _ = none

http_routing_edge : Event → Option Edge
http_routing_edge handler = one http_to_handler queueing
http_routing_edge proxy = one http_to_proxy proxy_start
http_routing_edge directory = one http_to_directory responding
http_routing_edge close = one on_close final
http_routing_edge _ = none

idle_edge : Event → Option Edge
idle_edge req_recv = one identify_request identified
idle_edge close = one on_close final
idle_edge _ = none

-- `proxy_exit_routing`: the connection leaves the proxy and routes the same event
after_proxy_close : Option Edge → Option Edge
after_proxy_close none = none
after_proxy_close (some (acts, p)) = some (proxy_close ∷ acts, p)

-- The edges of the chart: the actions in order, and the state that follows.
unfoldable pub edge : Phase → Event → Option Edge
unfolding request_edge http_routing_edge idle_edge after_proxy_close
edge start opening = one on_open accepting
edge accepting accept = one parse identifying
edge identifying req_recv = one register_request registered
edge identifying close = one on_close final
edge registered close = one on_close final
edge registered e = request_edge e
edge idle e = idle_edge e
edge identified e = request_edge e
edge msg_routing handler = one msg_to_handler queueing
edge http_routing e = http_routing_edge e
edge queueing req_sent = one parse idle
edge responding resp_sent = one parse idle
edge responding close = one on_close final
edge final opening = one on_open accepting
edge proxy_start connect = one proxy_deliver sending
edge proxy_start failed = one proxy_failed closing
edge proxying http_req = one proxy_deliver sending
edge proxying proxy = after_proxy_close (http_routing_edge proxy)
edge proxying handler = after_proxy_close (http_routing_edge handler)
edge proxying directory = after_proxy_close (http_routing_edge directory)
edge proxying remote_close = one proxy_close closing
edge sending req_sent = one proxy_reply_parse receiving
edge sending remote_close = one proxy_close closing
edge receiving req_recv = one proxy_req_parse proxying
edge receiving remote_close = one proxy_close closing
edge closing close = idle_edge close
edge _ _ = none

-- `<err(error)`: every state but the start of a machine has the error action.
abbrev pub on_error : Phase → List Action
on_error start = []
on_error proxy_start = []
on_error _ = error ∷ []

-- `%eof(finish)`: after CLOSE the input is at its end, and a `Connection` that is final finishes.
abbrev pub at_eof : Event → Phase → List (Action × Code)
at_eof close final = (finish, none) ∷ []
at_eof _ _ = []

-- what `State_exec` has to call at `e`, and where it has to be afterwards
unfoldable pub plan : Phase → Event → List (Action × Code) × Option Phase
plan p e = elim (edge p e) [
  | none ↦ (map (λ a. (a, some e)) (on_error p), none)
  | some (acts, q) ↦ (map (λ a. (a, some e)) acts ++ at_eof e q, some q)
]

module _ {ℓ} {S : Type ℓ} (actions : StateActions S) where
  -- the actions in order, each with what it is given, the last return value being kept
  unfoldable pub perform : List (Action × Code) → Code × S → Code × S
  perform [] r = r
  perform ((a, c) ∷ l) (n, s) = perform l (elim (actions a) [ none ↦ (n, s) | some cb ↦ cb c s ])

  -- `State_exec` of state.c does what state_machine.rl says, in every named state, for every event
  -- and for any callbacks, NULL ones included: it calls the actions of the chart, in its order and
  -- with its arguments, it returns what the last callback returned (0 if there was none), and it
  -- leaves `cs` at the number of the chart's next state, or at 0 after an event the chart refuses.
  pub exec-eq-plan :
      (p : Phase) (e : Event) (s : S)
      → let (n, s') = perform (plan p e).0 (none, s) in
        exec actions (control p) e s
        ≡ record { cs = control_or_error (plan p e).1; next = n; store = s' }
  unfolding exec plan perform edge
  exec-eq-plan start opening s = ground arith
  exec-eq-plan proxying handler s = ground arith
  exec-eq-plan _ _ s = ground arith
