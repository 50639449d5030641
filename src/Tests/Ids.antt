-- ===== src/Tests/Ids.antt =====
-- Runs of the register.
use mongrel.Prelude.{
  ℕ, ℤ, pos, ◌≡◌, refl, ◌≢◌, ◌↔◌, Option, none, some, List, [], ◌∷◌, arith, update,
}
use mongrel.Register.{Register, init, connect, disconnect, ping, fd_exists, fd_for_id, id_for_fd}
use mongrel.Register.Ids.{
  Call, perform, run, booted, connect-fd_for_id, fd_for_id-id_for_fd, connect_takes_live_id,
  disconnect_closes,
}

abbrev register_of : Option (ℤ × Register) → Register
register_of none = booted
register_of (some r) = r.1

-- descriptor 7 as the first connection
abbrev one_connected : Register
one_connected = register_of (connect 5 7 1 booted)

connect-fd_for_id_example :
    (pos 0 ≡ pos 0)
    × (fd_for_id 0 one_connected ≡ some 7)
    × (id_for_fd 7 one_connected ≡ some 0)
    × (fd_exists 7 one_connected ≡ some 1)
    × ((g : ℕ) → g ≢ 7 → one_connected.registrations g ≡ booted.registrations g)
unfolding connect init
connect-fd_for_id_example = connect-fd_for_id 5 7 1 booted (omega arith) (omega arith) refl

disconnect_closes_example :
    ((register_of (disconnect (pos 7) one_connected)).closed ≡ pos 7 ∷ [])
    × (fd_exists 7 (register_of (disconnect (pos 7) one_connected)) ≡ some 0)
    × ((pos 0 ≡ ℤ.negsuc 0) ↔ (fd_exists 7 one_connected ≡ some 0))
unfolding connect disconnect init
disconnect_closes_example = disconnect_closes 7 one_connected refl

-- the counter has come round to the id of descriptor 3
abbrev wrapped : Register
wrapped = record booted {
  registrations = update booted.registrations 3 (record { conn_type = 1; id = 9; last_ping = 0 });
  reg_count = 9;
}

connect_takes_live_id_example :
    (id_for_fd 3 (register_of (connect 5 8 1 wrapped)) ≡ some 9)
    × (fd_for_id 9 (register_of (connect 5 8 1 wrapped)) ≡ some 8)
unfolding connect id_for_fd init
connect_takes_live_id_example =
    connect_takes_live_id 5 3 8 1 wrapped (omega arith) (omega arith) refl (omega arith) refl

abbrev some_calls : List Call
some_calls =
    Call.connecting 5 7 1
    ∷ Call.connecting 6 8 1
    ∷ Call.pinging 7 8
    ∷ Call.disconnecting (pos 7)
    ∷ []

abbrev ran : Option Register → Register
ran none = booted
ran (some r) = r

fd_for_id-id_for_fd_example : fd_for_id 1 (ran (run some_calls booted)) ≡ some 8
unfolding run perform connect disconnect ping init fd_exists id_for_fd
fd_for_id-id_for_fd_example =
    fd_for_id-id_for_fd some_calls 8 (omega arith) refl (λ e. ground arith) refl
