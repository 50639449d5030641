-- ===== src/Connection/Task/Lifecycle.antt =====
-- The order in which `Connection_task` of src/connection.c calls the handlers: every callback is made
-- to note its action, newest first.
use mongrel.Prelude.{
  ℕ, zero, suc, ◌≡◌, refl, Bool, true, false, ◌&&◌, Option, none, some, List, [], ◌∷◌, arith,
}
use mongrel.Strings.{Strings}
use mongrel.State.{
  Event, accept, close, connect, directory, failed, handler, http_req, msg_req, opening, proxy,
  remote_close, req_recv, req_sent, resp_sent, socket_req, Code, Action, on_open, error, finish,
  on_close, parse, register_request, identify_request, route_request, send_socket_response,
  msg_to_handler, http_to_handler, http_to_proxy, http_to_directory, proxy_deliver, proxy_failed,
  proxy_reply_parse, proxy_req_parse, proxy_close, Control, st0, st1, st2, st3, st4, st5, st6, st7,
  st8, st9, st11, st12, st13, st15, st16, st17, init, StateActions, Callback, exec,
}
use mongrel.Connection.{Connection, Limits, Outside}
use mongrel.Connection.Task.{task_loop, task, conn_actions, report_500}
use mongrel.Connection.Task.Returns.{may_return, conn_actions-may_return}

-- neither disconnected, nor in error, nor destroyed
quiet : List Action → Bool
quiet [] = true
quiet (on_close ∷ l) = false
quiet (error ∷ l) = false
quiet (finish ∷ l) = false
quiet (a ∷ l) = quiet l

-- The calls of a task that has ended: it has closed and then destroyed the connection, or it has
-- called the error action, as the last of all calls.
pub has_ended : List Action → Bool
unfolding quiet
has_ended (finish ∷ on_close ∷ l) = quiet l
has_ended (error ∷ l) = quiet l
has_ended _ = false

-- the codes that come up in a state
waits : Control → Code → Bool
waits st17 (some opening) = true
waits st1 (some accept) = true
waits st2 n = may_return parse n
waits st3 n = may_return register_request n
waits st4 n = may_return route_request n
waits st5 n = may_return http_to_directory n
waits st6 n = may_return parse n
waits st7 n = may_return identify_request n
waits st8 n = may_return route_request n
waits st9 n = may_return http_to_handler n
waits st11 n = may_return http_to_proxy n
waits st12 n = may_return proxy_deliver n
waits st13 (some close) = true
waits st15 n = may_return proxy_reply_parse n
waits st16 n = may_return proxy_req_parse n
waits _ _ = false

fits : Control → Code → List Action → Bool
unfolding waits quiet
fits st0 (some close) (error ∷ l) = quiet l
fits st0 _ _ = false
fits c n l = waits c n && quiet l

-- the states that an action which is called without CLOSE leads to
leads : Action → Control → Bool
leads on_open st1 = true
leads parse st2 = true
leads parse st6 = true
leads register_request st3 = true
leads identify_request st7 = true
leads route_request st4 = true
leads route_request st8 = true
leads send_socket_response st5 = true
leads msg_to_handler st9 = true
leads http_to_handler st9 = true
leads http_to_proxy st11 = true
leads http_to_directory st5 = true
leads proxy_deliver st12 = true
leads proxy_failed st13 = true
leads proxy_reply_parse st15 = true
leads proxy_req_parse st16 = true
leads proxy_close st13 = true
leads _ _ = false

and-true : (a b : Bool) → a ≡ true → b ≡ true → (a && b) ≡ true
and-true a b h k = ground arith

returned-waits :
    (a : Action) (c : Control) (n : Code)
    → leads a c ≡ true
    → may_return a n ≡ true
    → waits c n ≡ true
unfolding leads waits
returned-waits a c n h k = ground arith

refused :
    (n : Code) (l : List Action)
    → may_return error n ≡ true
    → quiet l ≡ true
    → fits st0 n (error ∷ l) ≡ true
unfolding fits
refused (some close) l h q = q
refused none l h q = ground arith
refused (some _) l h q = ground arith

goes_on : Event → Bool
goes_on close = false
goes_on _ = true

fits_parts :
    (c : Control) (e : Event) (l : List Action)
    → goes_on e ≡ true
    → fits c (some e) l ≡ true
    → (waits c (some e) ≡ true) × (quiet l ≡ true)
unfolding fits goes_on
fits_parts c e l g h = ground arith

never_none : (c : Control) (l : List Action) → fits c none l ≡ false
unfolding fits waits
never_none c l = ground arith

-- what has been called by a task that has ended
abbrev pub ends_well {ℓ} : {S : Type ℓ} → Option (Control × (S × List Action)) → Bool
ends_well none = true
ends_well (some r) = has_ended r.1.1

module _ {ℓ} {S : Type ℓ} (actions : Action → Callback S) where
  -- the callbacks, noting what is called
  unfoldable pub noting : StateActions (S × List Action)
  noting a = some (λ c (r : S × List Action). let (n, s) = actions a c r.0 in (n, (s, a ∷ r.1)))

  module _ (returns : (a : Action) (c : Code) (s : S) → may_return a (actions a c s).0 ≡ true) where
    passes :
        (a : Action) (c : Control) (x : Code) (s : S) (l : List Action)
        → leads a c ≡ true
        → quiet l ≡ true
        → (waits c (actions a x s).0 && quiet l) ≡ true
    passes a c x s l h q = and-true _ _ (returned-waits a c _ h (returns a x s)) q

    step-fits :
        (c : Control) (e : Event) (s : S) (l : List Action)
        → goes_on e ≡ true
        → waits c (some e) ≡ true
        → quiet l ≡ true
        → let f = exec noting c e (s, l) in fits f.cs f.next f.store.1 ≡ true
    unfolding exec fits quiet waits noting leads goes_on
    step-fits st17 opening s l g h q = passes on_open st1 (some opening) s l refl q
    step-fits st1 accept s l g h q = passes parse st2 (some accept) s l refl q
    step-fits st2 req_recv s l g h q = passes register_request st3 (some req_recv) s l refl q
    step-fits st3 http_req s l g h q = passes route_request st4 (some http_req) s l refl q
    step-fits st3 msg_req s l g h q = passes route_request st8 (some msg_req) s l refl q
    step-fits st3 socket_req s l g h q =
        passes send_socket_response st5 (some socket_req) s l refl q
    step-fits st4 directory s l g h q = passes http_to_directory st5 (some directory) s l refl q
    step-fits st4 handler s l g h q = passes http_to_handler st9 (some handler) s l refl q
    step-fits st4 proxy s l g h q = passes http_to_proxy st11 (some proxy) s l refl q
    step-fits st5 resp_sent s l g h q = passes parse st6 (some resp_sent) s l refl q
    step-fits st6 req_recv s l g h q = passes identify_request st7 (some req_recv) s l refl q
    step-fits st7 http_req s l g h q = passes route_request st4 (some http_req) s l refl q
    step-fits st7 msg_req s l g h q = passes route_request st8 (some msg_req) s l refl q
    step-fits st7 socket_req s l g h q =
        passes send_socket_response st5 (some socket_req) s l refl q
    step-fits st8 handler s l g h q = passes msg_to_handler st9 (some handler) s l refl q
    step-fits st9 req_sent s l g h q = passes parse st6 (some req_sent) s l refl q
    step-fits st11 connect s l g h q = passes proxy_deliver st12 (some connect) s l refl q
    step-fits st11 failed s l g h q = passes proxy_failed st13 (some failed) s l refl q
    step-fits st12 remote_close s l g h q = passes proxy_close st13 (some remote_close) s l refl q
    step-fits st12 req_sent s l g h q = passes proxy_reply_parse st15 (some req_sent) s l refl q
    step-fits st15 req_recv s l g h q = passes proxy_req_parse st16 (some req_recv) s l refl q
    step-fits st15 remote_close s l g h q = passes proxy_close st13 (some remote_close) s l refl q
    step-fits st16 directory s l g h q =
        passes http_to_directory st5 (some directory) (actions proxy_close (some directory) s).1 l
          refl q
    step-fits st16 handler s l g h q =
        passes http_to_handler st9 (some handler) (actions proxy_close (some handler) s).1 l refl q
    step-fits st16 proxy s l g h q =
        passes http_to_proxy st11 (some proxy) (actions proxy_close (some proxy) s).1 l refl q
    step-fits st16 http_req s l g h q = passes proxy_deliver st12 (some http_req) s l refl q
    step-fits st16 remote_close s l g h q = passes proxy_close st13 (some remote_close) s l refl q
    step-fits st8 proxy s l g h q = refused _ l (returns error (some proxy) s) q
    step-fits st8 directory s l g h q = refused _ l (returns error (some directory) s) q
    step-fits st15 failed s l g h q = refused _ l (returns error (some failed) s) q
    step-fits _ _ s l g h q = ground arith

    last-ends :
        (c : Control) (s : S) (l : List Action)
        → fits c (some close) l ≡ true
        → has_ended (exec noting c close (s, l)).store.1 ≡ true
    unfolding exec fits noting has_ended
    last-ends c s l h = ground arith

    module _ (report : S → S) where
      loop-ends :
          (fuel : ℕ) (c : Control) (n : Code) (s : S) (l : List Action)
          → fits c n l ≡ true
          → ends_well (task_loop noting (λ r. (report r.0, r.1)) fuel c n (s, l)) ≡ true
      unfolding task_loop fits goes_on
      loop-ends zero c n s l h = refl
      loop-ends (suc fuel) c none s l h = let k = never_none c l in ground arith
      loop-ends (suc fuel) c (some close) s l h = last-ends c s l h
      loop-ends (suc fuel) c (some e) s l h =
          let f = exec noting c e (s, l) in
          let (w, q) = fits_parts c e l refl h in
          loop-ends fuel f.cs f.next f.store.0 f.store.1 (step-fits c e s l refl w q)

      task-ends :
          (fuel : ℕ) (s : S) → ends_well (task noting (λ r. (report r.0, r.1)) fuel (s, [])) ≡ true
      unfolding task fits quiet
      task-ends fuel s = loop-ends fuel init (some opening) s [] refl

module _ {W : Type 0} (o : Outside W) (limits : Limits) (lib : Strings) where
  -- Whatever the outside answers (the socket, the parsers, the routing, the handlers), a connection's
  -- task, if it has ended after `fuel` events, has made its calls in one of two orders: `on_close` and
  -- then `finish`, as the last two calls, with no call of `on_close`, `finish` or `error` before them;
  -- or `error` as the last call, again with none of the three before it. So exactly one of `on_close`
  -- and `error` is called, once, and nothing is called after `finish`.
  pub connection_task-ends :
      (fuel : ℕ) (c : Connection W)
      → ends_well (
          task
            (noting (conn_actions o limits lib))
            (λ r. (report_500 o limits lib r.0, r.1))
            fuel
            (c, []))
        ≡ true
  connection_task-ends fuel c =
      task-ends (conn_actions o limits lib) (conn_actions-may_return o limits lib)
        (report_500 o limits lib) fuel c
