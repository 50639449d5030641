-- ===== src/Tests/Machine.antt =====
-- Runs of the state machine.
use mongrel.Prelude.{◌≡◌, none, some, List, [], ◌∷◌}
use mongrel.State.{
  close, handler, Action, on_close, proxy_close, http_to_handler, st9, StateActions, exec,
}
use mongrel.State.Chart.{proxying, control, plan, perform, edge, exec-eq-plan}

abbrev machine : StateActions (List Action)
machine on_close = some (λ c l. (none, on_close ∷ l))
machine a = some (λ c l. (some close, a ∷ l))

exec-eq-plan_example :
    exec machine (control proxying) handler []
    ≡ record { cs = st9; next = some close; store = http_to_handler ∷ proxy_close ∷ [] }
unfolding exec plan perform edge
exec-eq-plan_example = exec-eq-plan machine proxying handler []
