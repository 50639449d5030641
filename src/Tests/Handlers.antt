-- ===== src/Tests/Handlers.antt =====
-- Runs of the parser of handlers' messages, and of what is done with the messages.
use mongrel.Prelude.{
  ℕ, ◌≤◌, ◌≡◌, ◌⊎◌, refl, pos, minus_one, none, some, List, [], ◌∷◌, ◌++◌, length, text, decimal,
  digits_loop, update, ◌==◌, if◌then◌else◌, arith,
}
use mongrel.Register.{Register, id_for_fd, fd_exists, fd_for_id, disconnect}
use mongrel.Register.Ids.{IsNamed}
use mongrel.HandlerParser.{HandlerParser, execute}
use mongrel.HandlerParser.Message.{message, join_ids, later_ids, all_ident_chars, all_fit}
use mongrel.HandlerParser.Message.RoundTrip.{execute-message}
use mongrel.HandlerParser.Bounds.{execute_stays_inside}
use mongrel.Handler.{Net, Server, round, to_targets, to_target, process_request}
use mongrel.Handler.Replies.{reply_reaches_connection}
use mongrel.Handler.Spared.{times_closed, Misses, to_targets_spares}

abbrev two_targets : HandlerParser
two_targets = record { targets = []; target_max = 2; uuid = none; body = [] }

abbrev ab : List ℕ
ab = text "ab"

execute-message_example :
    execute two_targets (message ab (3 ∷ 17 ∷ []) (text "hi")) (text "rest")
    ≡ some
        (pos 1, record { targets = 3 ∷ 17 ∷ []; target_max = 2; uuid = some ab; body = text "hi" })
unfolding all_ident_chars all_fit join_ids later_ids decimal digits_loop
execute-message_example =
    execute-message two_targets 225 (226 ∷ []) (3 ∷ 17 ∷ []) (text "hi") (text "rest") refl refl
      (omega arith) (omega arith)

execute_stays_inside_example :
    (2 ≤ 2)
    × (◌≡◌ {A = ℕ} 2 2)
    × ((pos 1 ≡ minus_one)
        ⊎ ((pos 1 ≡ pos 1)
            × ((front : List ℕ) × (message ab (3 ∷ 17 ∷ []) (text "hi") ≡ front ++ text "hi"))))
unfolding all_ident_chars all_fit join_ids later_ids decimal digits_loop
execute_stays_inside_example =
    execute_stays_inside two_targets (message ab (3 ∷ 17 ∷ []) (text "hi")) (text "rest") (pos 1)
      (record { targets = 3 ∷ 17 ∷ []; target_max = 2; uuid = some ab; body = text "hi" })
      (execute-message two_targets 225 (226 ∷ []) (3 ∷ 17 ∷ []) (text "hi") (text "rest") refl refl
        (omega arith) (omega arith))

-- what is sent to descriptors, the last first
abbrev net : Net (List ℕ)
net = record {
  fdsend = λ fd bytes w. (pos (length bytes), fd ∷ w);
  mqsend = λ bytes w. (pos 0, w);
  base64 = λ bytes. bytes;
}

-- descriptor 7 with the id 0
abbrev one_live : Register
one_live = record {
  registrations = λ fd.
      if fd == 7
      then record { conn_type = 1; id = 0; last_ping = 0 }
      else record { conn_type = 0; id = 0; last_ping = 0 };
  reg_count = 1;
  reg_id_to_fd = λ id. if id == 0 then 7 else 0;
  closed = [];
}

one_live-IsNamed : IsNamed one_live
one_live-IsNamed = record { id_below = λ fd live. ground arith; id_back = λ fd live. ground arith }

abbrev server : Server (List ℕ)
server = record { world = []; register = one_live }

reply_reaches_connection_example :
    round net [] two_targets (message ab (0 ∷ []) (text "hi")) [] server
    ≡ some (
      record { targets = 0 ∷ []; target_max = 2; uuid = none; body = text "hi" },
      record { world = 7 ∷ []; register = one_live },
    )
unfolding all_ident_chars join_ids later_ids decimal digits_loop id_for_fd fd_exists
reply_reaches_connection_example =
    reply_reaches_connection net [] two_targets 225 (226 ∷ []) 0 7 1 232 (233 ∷ []) [] server refl
      (omega arith) (omega arith) one_live-IsNamed (omega arith) (omega arith) refl refl
      (omega arith) (omega arith)

-- descriptor 8 with the id 1, besides
abbrev two_live : Register
two_live = record one_live {
  registrations = λ fd.
      if fd == 8
      then record { conn_type = 1; id = 1; last_ping = 5 }
      else one_live.registrations fd;
  reg_count = 2;
  reg_id_to_fd = λ id. if id == 0 then 7 else if id == 1 then 8 else 0;
}

abbrev busy_server : Server (List ℕ)
busy_server = record { world = []; register = two_live }

-- Nothing for the id 0 is a disconnect of descriptor 7, and a second one finds no connection.
abbrev hung_up : Server (List ℕ)
hung_up = record {
  world = text "away";
  register = record two_live {
    registrations =
        update two_live.registrations 7 (record { conn_type = 0; id = 0; last_ping = 0 });
    reg_id_to_fd = update two_live.reg_id_to_fd 0 0;
    closed = pos 7 ∷ [];
  };
}

abbrev leaving : Net (List ℕ)
leaving = record net { mqsend = λ bytes w. (pos 0, text "away") }

to_targets_disconnects : to_targets leaving [] [] (0 ∷ 0 ∷ []) busy_server ≡ some hung_up
unfolding to_targets to_target process_request fd_for_id fd_exists disconnect
to_targets_disconnects = refl

to_targets_spares_example :
    (hung_up.register.registrations 8 ≡ two_live.registrations 8)
    × (times_closed 8 hung_up.register.closed ≡ times_closed 8 two_live.closed)
unfolding Misses
to_targets_spares_example =
    to_targets_spares leaving 8 (omega arith) [] [] (0 ∷ 0 ∷ []) busy_server {t = hung_up}
      to_targets_disconnects (omega arith, (omega arith, tt))
