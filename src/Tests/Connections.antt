-- ===== src/Tests/Connections.antt =====
-- Runs of a connection.
use mongrel.Prelude.{zero, suc, ◌<◌, pos, ◌≡◌, refl, true, false, none, some, [], ◌∷◌, arith}
use mongrel.State.{on_open, parse, on_close, finish}
use mongrel.Connection.{Bytes, Connection}
use mongrel.Connection.Buffer.Reads.{RecvsAtMost}
use mongrel.Connection.Header.{read_header, read_loop, room}
use mongrel.Connection.Header.Bounds.{read_header-IsSafe}
use mongrel.Connection.Header.Fuel.{read_loop-ends}
use mongrel.Connection.Delivery.{read_body}
use mongrel.Connection.Delivery.Body.{AlwaysRecvs, read_body_lem}
use mongrel.Connection.Task.{task, conn_actions, report_500}
use mongrel.Connection.Task.Returns.{may_return, conn_actions-may_return}
use mongrel.Connection.Task.Lifecycle.{noting, ends_well, connection_task-ends}
use mongrel.Connection.Task.Hangup.{calls, connection_task-hung_up}
use mongrel.Tests.Samples.{strings, one_byte, endless, silent, surroundings, limits, fresh}

one_byte-RecvsAtMost : RecvsAtMost (surroundings one_byte)
one_byte-RecvsAtMost zero w bytes e = ground arith
one_byte-RecvsAtMost (suc n) [] bytes e = ground arith
one_byte-RecvsAtMost (suc n) (b ∷ w) bytes e = ground arith

endless-AlwaysRecvs : AlwaysRecvs (surroundings endless)
endless-AlwaysRecvs len w p = (65 ∷ [], refl, omega arith, omega arith)

abbrev abc : Bytes
abc = 1 ∷ 2 ∷ 3 ∷ []

conn_actions-may_return_example :
    may_return parse (conn_actions (surroundings one_byte) limits strings parse none (fresh abc)).0
    ≡ true
conn_actions-may_return_example =
    conn_actions-may_return (surroundings one_byte) limits strings parse none (fresh abc)

connection_task-ends_example :
    ends_well (
      task
        (noting (conn_actions (surroundings one_byte) limits strings))
        (λ r. (report_500 (surroundings one_byte) limits strings r.0, r.1))
        9
        (fresh abc, []))
    ≡ true
connection_task-ends_example =
    connection_task-ends (surroundings one_byte) limits strings 9 (fresh abc)

connection_task-hung_up_example :
    calls (
      task
        (noting (conn_actions (surroundings silent) limits strings))
        (λ r. (report_500 (surroundings silent) limits strings r.0, r.1))
        (suc (suc (suc 2)))
        (fresh [], []))
    ≡ some (finish ∷ on_close ∷ parse ∷ on_open ∷ [])
connection_task-hung_up_example =
    connection_task-hung_up (surroundings silent) limits strings (λ len w. refl) 2 (fresh [])
      (omega arith)

read_header-IsSafe_example :
    ((read_header (surroundings one_byte) limits (fresh abc)).1.overrun ≡ false)
    × ((read_header (surroundings one_byte) limits (fresh abc)).1.nread < 4)
read_header-IsSafe_example =
    read_header-IsSafe (surroundings one_byte) limits one_byte-RecvsAtMost (fresh abc) (omega arith)
      refl refl (omega arith)

read_loop-ends_example :
    read_loop
      (surroundings one_byte)
      limits
      8
      (pos 0)
      0
      (room (surroundings one_byte) limits 0)
      (record (fresh abc) { nread = 2 })
    ≡ read_loop
        (surroundings one_byte)
        limits
        5
        (pos 0)
        0
        (room (surroundings one_byte) limits 0)
        (record (fresh abc) { nread = 2 })
read_loop-ends_example =
    read_loop-ends (surroundings one_byte) limits one_byte-RecvsAtMost 3 (pos 0)
      (record (fresh abc) { nread = 2 })

-- Of a request of 1 + 3 bytes 3 are read, two of them of its body, and the loop asks for 3 more.
abbrev halfway : Connection Bytes
halfway = record (fresh []) { nread = 3 }

read_body_lem_example :
    ((read_body (surroundings endless) limits 1 3 halfway).0 ≡ some tt)
    × ((read_body (surroundings endless) limits 1 3 halfway).1.overrun ≡ true)
read_body_lem_example =
    read_body_lem (surroundings endless) limits endless-AlwaysRecvs 1 3 halfway (omega arith)
      (omega arith)
