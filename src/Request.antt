-- ===== src/Request.antt =====
-- src/request.c: what the callbacks of the HTTP parser put into a request, and the message that is
-- made of it for a handler. A bstring that is NULL is `none`. Of the parser, the fields that the
-- server reads later are kept. Chars are plus 128.
pub mod Fresh
pub mod Payload
pub mod Parse
use mongrel.Prelude.{
  ℕ, ◌+◌, ℤ, pos, Bool, true, false, Option, none, some, List, [], ◌∷◌, ◌++◌, length, decimal, text,
  ◌==◌, if◌then◌else◌,
}
use mongrel.Strings.{Bstring, Strings}

-- The dictionary of the headers (src/adt/dict.c), with its comparison `bstricmp`; `dict_lookup`,
-- `dict_alloc_insert`, the order of `dict_first` and `dict_next`, and the empty one; `atoi`.
-- `dict_alloc_insert` asserts that the dictionary is not full (DICTCOUNT_T_MAX nodes), which it is taken
-- not to be.
pub record Headers (H : Type 0) : Type 0 where
  pub empty : H
  pub insert : Bstring → Bstring → H → H
  pub lookup : Bstring → H → Option Bstring
  pub entries : H → List (Bstring × Bstring)
  pub atoi : Bstring → ℤ

-- `Request`; the pointers `target_host` and `action`, which routing sets, are addresses, or `none`
pub record Request (H : Type 0) : Type 0 where
  pub method : Option Bstring
  pub version : Option Bstring
  pub uri : Option Bstring
  pub path : Option Bstring
  pub query_string : Option Bstring
  pub fragment : Option Bstring
  pub host : Option Bstring
  pub host_name : Option Bstring
  pub pattern : Option Bstring
  pub target_host : Option ℕ
  pub action : Option ℕ
  pub headers : H
  pub status_code : ℕ
  pub response_size : ℤ
  pub content_len : ℤ
  pub json_sent : Bool

abbrev pub header_host : Bstring
header_host = text "Host"

abbrev pub header_content_length : Bstring
header_content_length = text "Content-Length"

-- a call of a callback by the parser
pub data Callback : Type 0 where
  request_method fragment_cb http_version uri_cb path_cb query_cb : Bstring → Callback
  header_field : Bstring → Bstring → Callback
  json : Callback

module _ {H : Type 0} (dict : Headers H) (lib : Strings) where
  -- `Request_get`
  abbrev pub get : Bstring → Request H → Option Bstring
  get field req = dict.lookup field req.headers

  -- the other callbacks; `json` is the parser's own `json_sent = 1`
  pub call : Callback → Request H → Request H
  call (request_method s) req = record req { method = some s }
  call (fragment_cb s) req = record req { fragment = some s }
  call (http_version s) req = record req { version = some s }
  call (uri_cb s) req = record req { uri = some s }
  call (path_cb s) req = record req { path = some s }
  call (query_cb s) req = record req { query_string = some s }
  call (header_field field value) req = record req { headers = dict.insert field value req.headers }
  call json req = record req { json_sent = true }

  -- the `host_name` of a host: `colon > 0 ? bHead(host, colon) : bstrcpy(host)`
  abbrev pub name_of : Bstring → Bstring
  name_of host = elim (lib.bstrchr host (58 + 128)) [
    | none ↦ host
    | some colon ↦ if colon == 0 then host else lib.b_head host colon
  ]

  -- `header_done_cb`; without a host the former `host_name` stays
  pub header_done : Request H → Request H
  header_done req =
      let host = get header_host req in
      let sized : Request H = elim (get header_content_length req) [
        | none ↦ req
        | some clen ↦ record req { content_len = dict.atoi clen }
      ] in
      elim host [
        | none ↦ record sized { host = none }
        | some h ↦ record sized { host = some h; host_name = some (name_of h) }
      ]

  -- the callbacks of a request that the parser finishes
  pub calls : List Callback → Request H → Request H
  unfolding call
  calls [] req = req
  calls (c ∷ cs) req = calls cs (call c req)

  -- `Request_start`, with `http_parser_init` and `Request_nuke_parts`; the pattern,
  -- `target_host` and `action` stay, and so does `host`, which then points to memory that `dict_free_nodes` has freed.
  pub start : Request H → Request H
  start req = record req {
    method = none;
    version = none;
    uri = none;
    path = none;
    query_string = none;
    fragment = none;
    host_name = none;
    headers = dict.empty;
    status_code = 0;
    response_size = pos 0;
    content_len = pos 0;
    json_sent = false;
  }
