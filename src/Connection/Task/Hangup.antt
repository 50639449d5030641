-- ===== src/Connection/Task/Hangup.antt =====
-- A peer that sends nothing: `Connection_task` of src/connection.c to its end.
use mongrel.Prelude.{ℕ, suc, ◌<◌, ◌≡◌, refl, Option, none, some, List, [], ◌∷◌, arith}
use mongrel.Strings.{Strings}
use mongrel.State.{
  Code, close, accept, opening, Action, on_open, on_close, parse, finish, Callback, Control, exec,
}
use mongrel.Connection.{Connection, Limits, Outside}
use mongrel.Connection.Monad.{◌>>=◌}
use mongrel.Connection.Header.Fuel.{read_header-none}
use mongrel.Connection.Routes.{connection_open, connection_parse, parse_steps}
use mongrel.Connection.Task.{task_loop, task, conn_actions, report_500}
use mongrel.Connection.Task.Lifecycle.{noting}

-- the calls of a task that has ended
abbrev pub calls {ℓ} : {S : Type ℓ} → Option (Control × (S × List Action)) → Option (List Action)
calls none = none
calls (some r) = some r.1.1

module _ {ℓ} {S : Type ℓ} (actions : Action → Callback S) (report : S → S) where
  opened_and_closed :
      (fuel : ℕ) (s : S)
      → (actions on_open (some opening) s).0 ≡ some accept
      → (actions parse (some accept) (actions on_open (some opening) s).1).0 ≡ some close
      → calls (task (noting actions) (λ r. (report r.0, r.1)) (suc (suc (suc fuel))) (s, []))
        ≡ some (finish ∷ on_close ∷ parse ∷ on_open ∷ [])
  unfolding task task_loop exec noting
  opened_and_closed fuel s h k = ground arith

module _ {W : Type 0} (o : Outside W) (limits : Limits) (lib : Strings)
    (hung_up : (len : ℕ) (w : W) → (o.recv len w).0 ≡ none) where
  open limits use {buffer_size}

  parse-close :
      (n : Code) (c : Connection W)
      → 0 < buffer_size
      → (connection_parse o limits lib n c).0 ≡ some close
  unfolding connection_parse parse_steps ◌>>=◌
  parse-close n c p =
      let h = read_header-none o limits hung_up (record c { nread = 0 }) p in ground arith

  -- A connection whose peer sends nothing: its task ends after three events, having called the
  -- actions `on_open`, `parse`, `on_close` and `finish`, in this order.
  pub connection_task-hung_up :
      (fuel : ℕ) (c : Connection W)
      → 0 < buffer_size
      → calls (
          task
            (noting (conn_actions o limits lib))
            (λ r. (report_500 o limits lib r.0, r.1))
            (suc (suc (suc fuel)))
            (c, []))
        ≡ some (finish ∷ on_close ∷ parse ∷ on_open ∷ [])
  unfolding conn_actions connection_open
  connection_task-hung_up fuel c p =
      opened_and_closed (conn_actions o limits lib) (report_500 o limits lib) fuel c refl
        (parse-close (some accept) (connection_open (some opening) c).1 p)
