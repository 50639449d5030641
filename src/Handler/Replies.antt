-- ===== src/Handler/Replies.antt =====
-- From the message of a handler to the connections: src/handler.c with src/handler_parser.c and
-- src/register.c.
use mongrel.Prelude.{
  ℕ, ◌^◌, ◌<◌, ◌≤◌, ◌≡◌, ◌≢◌, ap, ◌∙◌, ℤ, pos, true, Option, none, some, List, [], ◌∷◌, length,
  if◌then◌else◌, arith,
}
use mongrel.Register.{fd_exists, fd_for_id, id_for_fd, max_registered_fds}
use mongrel.Register.Ids.{IsNamed}
use mongrel.HandlerParser.{HandlerParser}
use mongrel.HandlerParser.Message.{message, join_ids, all_ident_chars, all_fit}
use mongrel.HandlerParser.Message.RoundTrip.{execute-message}
use mongrel.Handler.{
  Net, Server, conn_type_msg, deliver_payload, disconnected, ignored, is_minus_one, process_request,
  to_target, to_targets, round,
}

module _ {W : Type 0} (net : Net W) where
  abbrev handled : HandlerParser → Option (Server W) → Option (HandlerParser × Server W)
  handled p none = none
  handled p (some s) = some (p, s)

  -- A message that a handler writes to ids is done with as the ids say, one after the other, with the
  -- body of the message; the conditions are those of the parser.
  pub round-message :
      (send_ident : List ℕ) (parser : HandlerParser) (c : ℕ) (u : List ℕ) (i : ℕ)
      (ids body behind : List ℕ) (s : Server W)
      → all_ident_chars (c ∷ u) ≡ true
      → all_fit (i ∷ ids) ≡ true
      → length (i ∷ ids) ≤ parser.target_max
      → length (join_ids (i ∷ ids)) < 2 ^ 31
      → round net send_ident parser (message (c ∷ u) (i ∷ ids) body) behind s
        ≡ handled
            (record parser { targets = i ∷ ids; uuid = none; body = body })
            (to_targets net send_ident body (i ∷ ids) s)
  unfolding round
  round-message send_ident parser c u i ids body behind s good f t small =
      ground (arith, execute-message parser c u (i ∷ ids) body behind good f t small)

  -- what `deliver_payload` of a connection that is no message socket and a body leave
  abbrev sent : ℕ → List ℕ → Server W → Option (Server W)
  sent fd body s =
      let (rc, w) = net.fdsend fd body s.world in
      let s' = record s { world = w } in
      if is_minus_one rc then ignored net (disconnected net fd s') else some s'

  process_request-sent :
      (send_ident : List ℕ) (id : ℤ) (fd ty b : ℕ) (body : List ℕ) (s : Server W)
      → ty ≢ 0
      → ty ≢ conn_type_msg
      → process_request net send_ident id fd ty (b ∷ body) s ≡ sent fd (b ∷ body) s
  unfolding process_request deliver_payload
  process_request-sent send_ident id fd ty b body s live raw = ground arith

  to_target-sent :
      (send_ident : List ℕ) (id fd ty b : ℕ) (body : List ℕ) (s : Server W)
      → id < 2 ^ 16
      → fd_for_id id s.register ≡ some fd
      → fd_exists fd s.register ≡ some ty
      → ty ≢ 0
      → ty ≢ conn_type_msg
      → to_target net send_ident (b ∷ body) id s ≡ sent fd (b ∷ body) s
  unfolding to_target
  to_target-sent send_ident id fd ty b body s small found there live raw =
      ground (arith, process_request-sent send_ident (pos id) fd ty b body s live raw)

  one-target :
      (send_ident body : List ℕ) (id : ℕ) (s : Server W)
      → to_targets net send_ident body (id ∷ []) s ≡ to_target net send_ident body id s
  unfolding to_targets
  one-target send_ident body id s = ground arith

  -- A handler's reply to the id of a connection that is registered, and is no message socket, is sent
  -- to that connection's descriptor as it is; if the send fails, the connection is disconnected, and
  -- otherwise the register stays as it is. The body has a char, the ids name their descriptors
  -- (`IsNamed`), the uuid is of letters, digits and dashes, and the text of the id is in bounds.
  pub reply_reaches_connection :
      (send_ident : List ℕ) (parser : HandlerParser) (c : ℕ) (u : List ℕ) (id fd ty b : ℕ)
      (body behind : List ℕ) (s : Server W)
      → all_ident_chars (c ∷ u) ≡ true
      → 1 ≤ parser.target_max
      → length (join_ids (id ∷ [])) < 2 ^ 31
      → IsNamed s.register
      → s.register.reg_count < 2 ^ 16
      → fd < max_registered_fds
      → id_for_fd fd s.register ≡ some id
      → fd_exists fd s.register ≡ some ty
      → ty ≢ 0
      → ty ≢ conn_type_msg
      → round net send_ident parser (message (c ∷ u) (id ∷ []) (b ∷ body)) behind s
        ≡ handled
            (record parser { targets = id ∷ []; uuid = none; body = b ∷ body })
            (sent fd (b ∷ body) s)
  unfolding all_fit fd_exists id_for_fd fd_for_id
  reply_reaches_connection send_ident parser c u id fd ty b body behind s good room small named
        count below e there live raw =
      let known : (s.register.registrations fd).id ≡ id = ground arith in
      let alive : (s.register.registrations fd).conn_type ≢ 0 = ground arith in
      let bound : id < 2 ^ 16 = ground (arith, named.id_below fd alive) in
      let back : fd_for_id id s.register ≡ some fd = ground (arith, named.id_back fd alive) in
      round-message send_ident parser c u id [] (b ∷ body) behind s good (ground arith) room small
      ∙ ap (handled _) (
          one-target send_ident (b ∷ body) id s
          ∙ to_target-sent send_ident id fd ty b body s bound back there live raw)
