-- ===== src/Handler.antt =====
-- src/handler.c: what is done with the messages of a handler, and `Connection_deliver` and
-- `Connection_deliver_raw` of src/connection.c. An `assert` that fails and an index outside of an
-- array are the result `none`.
pub mod Replies
pub mod Spared
use mongrel.Prelude.{
  ℕ, ◌+◌, ℤ, pos, negsuc, minus_one, Bool, true, false, Option, none, some, List, [], ◌∷◌, ◌++◌,
  length, decimal, text, ltb, ◌==◌, if◌then◌else◌,
}
use mongrel.Register.{Register, disconnect, fd_exists, fd_for_id}
use mongrel.HandlerParser.{HandlerParser, execute, as_int}

-- what is called: `fdsend` of a descriptor, `mqsend` to the handler's socket, and `bBase64Encode`
pub record Net (W : Type 0) : Type 0 where
  pub fdsend : ℕ → List ℕ → W → ℤ × W
  pub mqsend : List ℕ → W → ℤ × W
  pub base64 : List ℕ → List ℕ

pub record Server (W : Type 0) : Type 0 where
  pub world : W
  pub register : Register

-- `CONN_TYPE_MSG`
abbrev pub conn_type_msg : ℕ
conn_type_msg = 2

-- '\0'
abbrev pub nul : ℕ
nul = 128

abbrev pub is_minus_one : ℤ → Bool
is_minus_one (pos n) = false
is_minus_one (negsuc n) = n == 0

abbrev equals : ℤ → ℕ → Bool
equals (pos n) m = n == m
equals (negsuc n) m = false

abbrev pub leave_header : List ℕ
leave_header = text "{\"METHOD\":\"JSON\"}"

abbrev pub leave_msg : List ℕ
leave_msg = text "{\"type\":\"disconnect\"}"

-- `%d` of an `int`
abbrev print_int : ℤ → List ℕ
print_int (pos n) = decimal n
print_int (negsuc n) = text "-" ++ decimal (n + 1)

-- the `bformat` of `Handler_notify_leave`
pub leave_payload : List ℕ → ℤ → List ℕ
leave_payload send_ident id =
    send_ident
    ++ text " "
    ++ print_int id
    ++ text " @* "
    ++ decimal (length leave_header)
    ++ text ":"
    ++ leave_header
    ++ text ","
    ++ decimal (length leave_msg)
    ++ text ":"
    ++ leave_msg
    ++ text ","

-- `handler_cap_payload`: `data[slen]` is '\0' in every bstring
pub cap_payload : List ℕ → List ℕ
cap_payload [] = []
cap_payload (c ∷ []) = if c == nul then [] else c ∷ []
cap_payload (c ∷ d ∷ s) = c ∷ cap_payload (d ∷ s)

module _ {W : Type 0} (net : Net W) where
  -- `Connection_deliver_raw`
  abbrev deliver_raw : ℕ → List ℕ → W → ℤ × W
  deliver_raw fd buf w = net.fdsend fd buf w

  -- `Connection_deliver`
  pub deliver : ℕ → List ℕ → W → ℤ × W
  deliver fd buf w =
      let b64 = net.base64 buf in
      let (rc, w') = net.fdsend fd (b64 ++ (nul ∷ [])) w in
      (if equals rc (length b64 + 1) then pos 0 else minus_one, w')

  -- `deliver_payload`
  unfoldable pub deliver_payload : Bool → ℕ → List ℕ → W → ℤ × W
  unfolding deliver cap_payload
  deliver_payload raw fd payload w =
      let (rc, w') = if raw then deliver_raw fd payload w else deliver fd (cap_payload payload) w in
      (if is_minus_one rc then minus_one else pos 0, w')

  abbrev pub disconnected : ℕ → Server W → Option (ℤ × Server W)
  disconnected fd s = elim (disconnect (pos fd) s.register) [
    | none ↦ none
    | some v ↦ some (v.0, record s { register = v.1 })
  ]

  abbrev pub ignored : Option (ℤ × Server W) → Option (Server W)
  ignored none = none
  ignored (some (rc, s)) = some s

  -- `handler_process_request`; its label `error` disconnects again
  unfoldable pub process_request : List ℕ → ℤ → ℕ → ℕ → List ℕ → Server W → Option (Server W)
  unfolding deliver_payload leave_payload
  process_request send_ident id fd conn_type body s =
      if conn_type == 0
      then some (record s { world = (net.mqsend (leave_payload send_ident id) s.world).1 })
      else if length body == 0
      then elim (disconnected fd s) [
        | none ↦ none
        | some v ↦ if is_minus_one v.0 then ignored (disconnected fd v.1) else some v.1
      ]
      else (let (rc, w) =
            deliver_payload (if conn_type == conn_type_msg then false else true) fd body s.world in
          let s' = record s { world = w } in
          if is_minus_one rc then ignored (disconnected fd s') else some s')

  -- `Register_fd_for_id` and `Register_fd_exists` of a target
  unfoldable pub to_target : List ℕ → List ℕ → ℕ → Server W → Option (Server W)
  unfolding process_request
  to_target send_ident body target s = elim (as_int target) [
    | negsuc n ↦ none
    | pos id ↦ elim (fd_for_id id s.register) [
      | none ↦ none
      | some fd ↦ elim (fd_exists fd s.register) [
        | none ↦ none
        | some conn_type ↦ process_request send_ident (pos id) fd conn_type body s
      ]
    ]
  ]

  -- the loop over the targets in `Handler_task`
  unfoldable pub to_targets : List ℕ → List ℕ → List ℕ → Server W → Option (Server W)
  unfolding to_target
  to_targets send_ident body [] s = some s
  to_targets send_ident body (target ∷ targets) s = elim (to_target send_ident body target s) [
    | none ↦ none
    | some s' ↦ to_targets send_ident body targets s'
  ]

  -- a round of the loop of `Handler_task` with a message that `mqrecv` received
  pub round :
      List ℕ → HandlerParser → List ℕ → List ℕ → Server W → Option (HandlerParser × Server W)
  unfolding to_targets
  round send_ident parser message behind s = elim (execute parser message behind) [
    | none ↦ none
    | some r ↦
        if equals r.0 1
        then elim r.1.targets [
          | [] ↦ some (r.1, s)
          | target ∷ targets ↦ elim (to_targets send_ident r.1.body r.1.targets s) [
            | none ↦ none
            | some s' ↦ some (record r.1 { uuid = none }, s')
          ]
        ]
        else some (r.1, s)
  ]
