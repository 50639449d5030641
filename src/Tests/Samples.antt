-- ===== src/Tests/Samples.antt =====
-- Sample strings, surroundings and connections.
use mathlib.Core.List.{reverse}
use mongrel.Prelude.{
  false, ℕ, zero, suc, ◌+◌, ◌-◌, pos, Option, none, some, [], ◌∷◌, length, leb, ◌==◌, if◌then◌else◌,
}
use mongrel.Strings.{Bstring, Strings}
use mongrel.Tst.Insert.{same_key}
use mongrel.Routing.{create}
use mongrel.Connection.{Bytes, Request, Limits, Outside, Connection}

abbrev index_from : ℕ → Bstring → ℕ → Option ℕ
index_from i [] c = none
index_from i (d ∷ s) c = let rest = index_from (i + 1) s c in if d == c then some i else rest

abbrev last_index : Bstring → Option ℕ → Option ℕ
last_index s none = none
last_index s (some i) = some (length s - 1 - i)

abbrev first_of : ℕ → Bstring → Bstring
first_of zero s = []
first_of (suc n) [] = []
first_of (suc n) (c ∷ s) = c ∷ first_of n s

abbrev pub strings : Strings
strings = record {
  bstrchr = index_from 0;
  bstrrchr = λ s c. last_index s (index_from 0 (reverse s) c);
  b_head = λ s n. first_of n s;
  b_tail = λ s n. reverse (first_of n (reverse s));
  b_reverse = reverse;
  bstring_match = same_key;
}

abbrev pub blank_request : Request
blank_request = record {
  path = [];
  host = none;
  host_name = none;
  version = none;
  is_json = false;
  is_socket = false;
  content_len = pos 0;
  body_start = 0;
  headers = [];
  action = none;
  target_host = none;
  pattern = none;
}

abbrev pub Socket : Type 0
Socket = ℕ → Bytes → Option Bytes × Bytes

-- The bytes that are to come, one at each read.
abbrev pub one_byte : Socket
one_byte zero w = (none, w)
one_byte (suc n) [] = (none, [])
one_byte (suc n) (b ∷ w) = (some (b ∷ []), w)

abbrev pub endless : Socket
endless len w = (some (65 ∷ []), w)

abbrev pub silent : Socket
silent len w = (none, w)

-- A request is complete with its third byte.
abbrev pub surroundings : Socket → Outside Bytes
surroundings socket = record {
  recv = socket;
  send = λ bytes w. (pos (length bytes), w);
  fdrecv = λ fd len w. (none, w);
  fdsend = λ fd bytes w. (pos (length bytes), w);
  fdwrite = λ bytes w. (pos (length bytes), w);
  netdial = λ target w. (pos 9, w);
  mkstemp = λ name w. (pos 8, w);
  request_start = λ req. req;
  request_parse = λ req bytes n. (pos (if leb 3 (length bytes) then 1 else 0), length bytes, req);
  connection_header = λ req. none;
  to_payload = λ req target fd body len w. (some body, w);
  handler_deliver = λ target bytes w. (pos 0, w);
  register_disconnect = λ fd w. (pos 0, w);
  serve_file = λ target req w. (pos 0, w);
  proxy_read_and_parse = λ w. (none, w);
  proxy_client = λ w. record { chunked = false; content_len = pos 0; body_start = 0 };
  proxy_buf = λ len w. [];
  proxy_left = λ w. 0;
  stream_chunks = λ n w. (pos 0, w);
  stream_response = λ n m w. (pos 0, w);
  is_ping = λ bytes. false;
  is_http_1_0 = λ s. false;
  is_close = λ s. false;
  status_line = λ code. code ∷ [];
  flash_response = 1 ∷ [];
}

abbrev pub limits : Limits
limits = record { max_content_length = 100; buffer_size = 4; upload_store = none }

-- a connection that has read nothing of the bytes that are to come
abbrev pub fresh : Bytes → Connection Bytes
fresh w = record {
  world = w;
  effects = [];
  server = record { hosts = create; default_host = none; default_hostname = [] };
  fd = 7;
  proxy_fd = pos 0;
  req = blank_request;
  nread = 0;
  nparsed = 0;
  registered = false;
  closing = false;
  remote = [];
  buf = λ n. 0;
  buf_size = 5;
  overrun = false;
}
