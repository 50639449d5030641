-- ===== src/State.antt =====
-- src/events.h, src/state.h and src/state.c: the connection state machine as Ragel compiled it.
-- An `int` event is an `Event`; the `int` 0, which `State_exec` starts from and `connection_close`
-- returns, is the `none` of `Option Event`. A label `stN` of the code is the number N in `cs`.
-- A field of `StateActions` is an `Action`, and the struct a function of its fields: a NULL field,
-- or a NULL struct, has the callback `none`.
pub mod Chart
use mongrel.Prelude.{ℕ, ℤ, pos, minus_one, Option, none, some, leb, ◌==◌, if◌then◌else◌}

-- `enum StateEvent`
pub data Event : Type 0 where
  finished accept close connect directory failed handler http_req msg_req opening proxy : Event
  remote_close req_recv req_sent resp_sent socket_req timeout : Event

-- the numbers of `enum StateEvent`
abbrev pub event_code : Event → ℕ
event_code finished = 100
event_code accept = 101
event_code close = 102
event_code connect = 103
event_code directory = 104
event_code failed = 105
event_code handler = 106
event_code http_req = 107
event_code msg_req = 108
event_code opening = 109
event_code proxy = 110
event_code remote_close = 111
event_code req_recv = 112
event_code req_sent = 113
event_code resp_sent = 114
event_code socket_req = 115
event_code timeout = 116

-- what a callback returns, and what it is given
abbrev pub Code : Type 0
Code = Option Event

-- the fields of `StateActions`; `on_open` is `open`
pub data Action : Type 0 where
  on_open error finish on_close parse register_request identify_request route_request : Action
  send_socket_response msg_to_handler http_to_handler http_to_proxy http_to_directory : Action
  proxy_deliver proxy_failed proxy_reply_parse proxy_req_parse proxy_close : Action

-- `state->cs`
pub data Control : Type 0 where
  st0 st1 st2 st3 st4 st5 st6 st7 st8 st9 st10 st11 st12 st13 st14 st15 st16 st17 st18 : Control

-- `state_action_cb`, on a connection and its surroundings of type `S`
abbrev pub Callback {ℓ} : Type ℓ → Type ℓ
Callback S = Code → S → Code × S

abbrev pub StateActions {ℓ} : Type ℓ → Type ℓ
StateActions S = Action → Option (Callback S)

-- the variables of `State_exec`: `state->cs`, `next`, and what `data` points to
pub record Frame {ℓ} (S : Type ℓ) : Type ℓ where
  pub cs : Control
  pub next : Code
  pub store : S

module _ {ℓ} {S : Type ℓ} (actions : StateActions S) where
  -- the macro CALL
  call : Action → Code → Frame S → Frame S
  call a c f = elim (actions a) [
    | none ↦ f
    | some cb ↦ let (n, s) = cb c f.store in record f { next = n; store = s }
  ]

  -- the switch after `_test_eof`, where `p == eof`
  eof_actions : Control → Frame S → Frame S
  unfolding call
  eof_actions st18 f = call finish none f
  eof_actions st0 f = f
  eof_actions st11 f = f
  eof_actions st17 f = f
  eof_actions _ f = call error none f

  -- `if (++p == pe) goto _test_eofN`: one event is queued, and `eof` is set for CLOSE alone
  test_eof : Control → Event → Frame S → Frame S
  unfolding eof_actions
  test_eof c close f = eof_actions c (record f { cs = c })
  test_eof c _ f = record f { cs = c }

  -- `st0: state->cs = 0; goto _out;`
  goto_st0 : Frame S → Frame S
  goto_st0 f = record f { cs = st0 }

  -- tr0
  reject : Event → Frame S → Frame S
  unfolding call goto_st0
  reject e f = goto_st0 (call error (some e) f)

  -- a `trN` that runs one action and goes to a state
  take_edge : Action → Control → Event → Frame S → Frame S
  unfolding call test_eof
  take_edge a c e f = test_eof c e (call a (some e) f)

  case_17 : Event → Frame S → Frame S
  unfolding take_edge goto_st0
  case_17 opening f = take_edge on_open st1 opening f
  case_17 _ f = goto_st0 f

  case_1 : Event → Frame S → Frame S
  unfolding take_edge reject
  case_1 accept f = take_edge parse st2 accept f
  case_1 e f = reject e f

  case_2 : Event → Frame S → Frame S
  unfolding take_edge reject
  case_2 close f = take_edge on_close st18 close f
  case_2 req_recv f = take_edge register_request st3 req_recv f
  case_2 e f = reject e f

  case_18 : Event → Frame S → Frame S
  unfolding take_edge reject
  case_18 opening f = take_edge on_open st1 opening f
  case_18 e f = reject e f

  case_3 : Event → Frame S → Frame S
  unfolding take_edge reject
  case_3 close f = take_edge on_close st18 close f
  case_3 http_req f = take_edge route_request st4 http_req f
  case_3 msg_req f = take_edge route_request st8 msg_req f
  case_3 socket_req f = take_edge send_socket_response st5 socket_req f
  case_3 e f = reject e f

  -- `{goto st11;}` of tr9 does what `goto st11` does
  case_4 : Event → Frame S → Frame S
  unfolding take_edge reject
  case_4 close f = take_edge on_close st18 close f
  case_4 directory f = take_edge http_to_directory st5 directory f
  case_4 handler f = take_edge http_to_handler st9 handler f
  case_4 proxy f = take_edge http_to_proxy st11 proxy f
  case_4 e f = reject e f

  case_5 : Event → Frame S → Frame S
  unfolding take_edge reject
  case_5 close f = take_edge on_close st18 close f
  case_5 resp_sent f = take_edge parse st6 resp_sent f
  case_5 e f = reject e f

  case_6 : Event → Frame S → Frame S
  unfolding take_edge reject
  case_6 close f = take_edge on_close st18 close f
  case_6 req_recv f = take_edge identify_request st7 req_recv f
  case_6 e f = reject e f

  case_7 : Event → Frame S → Frame S
  unfolding take_edge reject
  case_7 http_req f = take_edge route_request st4 http_req f
  case_7 msg_req f = take_edge route_request st8 msg_req f
  case_7 socket_req f = take_edge send_socket_response st5 socket_req f
  case_7 e f = reject e f

  case_8 : Event → Frame S → Frame S
  unfolding take_edge reject
  case_8 handler f = take_edge msg_to_handler st9 handler f
  case_8 e f = reject e f

  case_9 : Event → Frame S → Frame S
  unfolding take_edge reject
  case_9 req_sent f = take_edge parse st6 req_sent f
  case_9 e f = reject e f

  case_11 : Event → Frame S → Frame S
  unfolding take_edge goto_st0
  case_11 connect f = take_edge proxy_deliver st12 connect f
  case_11 failed f = take_edge proxy_failed st13 failed f
  case_11 _ f = goto_st0 f

  case_12 : Event → Frame S → Frame S
  unfolding take_edge reject
  case_12 remote_close f = take_edge proxy_close st13 remote_close f
  case_12 req_sent f = take_edge proxy_reply_parse st15 req_sent f
  case_12 e f = reject e f

  -- tr18: `p--; goto st6;` reads the same event again, in state 6
  case_13 : Event → Frame S → Frame S
  unfolding reject case_6
  case_13 close f = case_6 close f
  case_13 e f = reject e f

  case_15 : Event → Frame S → Frame S
  unfolding take_edge reject
  case_15 remote_close f = take_edge proxy_close st13 remote_close f
  case_15 req_recv f = take_edge proxy_req_parse st16 req_recv f
  case_15 e f = reject e f

  -- tr20: `CALL(proxy_close, *p); p--; goto st4;`
  exit_routing : Event → Frame S → Frame S
  unfolding call case_4
  exit_routing e f = case_4 e (call proxy_close (some e) f)

  case_16 : Event → Frame S → Frame S
  unfolding take_edge reject exit_routing
  case_16 directory f = exit_routing directory f
  case_16 handler f = exit_routing handler f
  case_16 http_req f = take_edge proxy_deliver st12 http_req f
  case_16 proxy f = exit_routing proxy f
  case_16 remote_close f = take_edge proxy_close st13 remote_close f
  case_16 e f = reject e f

  -- `switch (state->cs)`. There is no `case 0`: control falls on to `_test_eof1`, with `p != eof`.
  dispatch : Control → Event → Frame S → Frame S
  unfolding case_17 case_1 case_2 case_18 case_3 case_4 case_5 case_6 case_7 case_8 case_9 case_11
      case_12 case_13 case_15 case_16
  dispatch st0 e f = record f { cs = st1 }
  dispatch st1 e f = case_1 e f
  dispatch st2 e f = case_2 e f
  dispatch st3 e f = case_3 e f
  dispatch st4 e f = case_4 e f
  dispatch st5 e f = case_5 e f
  dispatch st6 e f = case_6 e f
  dispatch st7 e f = case_7 e f
  dispatch st8 e f = case_8 e f
  dispatch st9 e f = case_9 e f
  dispatch st10 e f = reject e f
  dispatch st11 e f = case_11 e f
  dispatch st12 e f = case_12 e f
  dispatch st13 e f = case_13 e f
  dispatch st14 e f = reject e f
  dispatch st15 e f = case_15 e f
  dispatch st16 e f = case_16 e f
  dispatch st17 e f = case_17 e f
  dispatch st18 e f = case_18 e f

  -- `State_exec`: `next` starts as 0
  unfoldable pub exec : Control → Event → S → Frame S
  unfolding dispatch
  exec c e s = dispatch c e (record { cs = c; next = none; store = s })

-- `State_init`
abbrev pub init : Control
init = st17

-- the number in `cs`
abbrev pub control_code : Control → ℕ
control_code st0 = 0
control_code st1 = 1
control_code st2 = 2
control_code st3 = 3
control_code st4 = 4
control_code st5 = 5
control_code st6 = 6
control_code st7 = 7
control_code st8 = 8
control_code st9 = 9
control_code st10 = 10
control_code st11 = 11
control_code st12 = 12
control_code st13 = 13
control_code st14 = 14
control_code st15 = 15
control_code st16 = 16
control_code st17 = 17
control_code st18 = 18

-- `State_finish`, which is `State_invariant`
unfoldable pub state_finish : Control → ℤ
state_finish c =
    if control_code c == 0 then minus_one else if leb 17 (control_code c) then pos 1 else pos 0
