-- ===== src/Connection.antt =====
-- src/connection.h: a connection, and what its handlers in src/connection.c call on.
-- `conn->buf` is the memory `buf` of `buf_size` bytes; `overrun` is set by a write past its end.
-- What the outside answers comes from a value of `W`; what is done to it is kept in `effects`, the
-- last first. The release of memory and logging are not modelled.
pub mod Monad
pub mod Buffer
pub mod Header
pub mod Routes
pub mod Delivery
pub mod Proxies
pub mod Task
use mongrel.Prelude.{ℕ, ℤ, Bool, Option, List}
use mongrel.Strings.{Bstring}
use mongrel.Host.{Backend, Host, Server}

abbrev pub Bytes : Type 0
Bytes = List ℕ

-- the fields of `Request` and of its parser that src/connection.c reads or writes
pub record Request : Type 0 where
  pub path : Bstring
  pub host : Option Bstring
  pub host_name : Option Bstring
  pub version : Option Bstring
  pub is_json : Bool
  pub is_socket : Bool
  pub content_len : ℤ
  pub body_start : ℕ
  pub headers : List (Bstring × Bstring)
  pub action : Option Backend
  pub target_host : Option Host
  pub pattern : Option Bstring

-- `httpclient_parser`, as far as it is read
pub record Client : Type 0 where
  pub chunked : Bool
  pub content_len : ℤ
  pub body_start : ℕ

-- what a handler does to the outside
pub data Effect : Type 0 where
  -- `Response_send_status` with a status line, `Register_disconnect`, `fdclose`
  status disconnected : ℕ → Effect
  closed : ℤ → Effect
  registered_as : ℕ → Effect
  pinged delivered proxied unlinked destroyed : Effect

-- the settings that `Connection_init` reads
pub record Limits : Type 0 where
  pub max_content_length : ℕ
  pub buffer_size : ℕ
  pub upload_store : Option Bstring

-- What the handlers call: descriptors and sockets (src/task), 0MQ, the parsers (src/http11), and
-- the parts of src/request.c, src/register.c, src/dir.c, src/proxy.c and src/handler.c that are
-- seen here by their answers alone. A read that returns 0 or less is `none`,
-- and so is a payload that is NULL. `proxy_left` is how many more reads a backend answers.
pub record Outside (W : Type 0) : Type 0 where
  pub recv : ℕ → W → Option Bytes × W
  pub send : Bytes → W → ℤ × W
  pub fdrecv : ℤ → ℕ → W → Option Bytes × W
  pub fdsend : ℤ → Bytes → W → ℤ × W
  pub fdwrite : Bytes → W → ℤ × W
  pub netdial : ℕ → W → ℤ × W
  pub mkstemp : Bstring → W → ℤ × W
  pub request_start : Request → Request
  pub request_parse : Request → Bytes → ℕ → ℤ × ℕ × Request
  pub connection_header : Request → Option Bstring
  pub to_payload : Request → ℕ → ℕ → Bytes → ℤ → W → Option Bytes × W
  pub handler_deliver : ℕ → Option Bytes → W → ℤ × W
  pub register_disconnect : ℕ → W → ℤ × W
  pub serve_file : ℕ → Request → W → ℤ × W
  pub proxy_read_and_parse : W → Option ℕ × W
  pub proxy_client : W → Client
  pub proxy_buf : ℕ → W → Bytes
  pub proxy_left : W → ℕ
  pub stream_chunks : ℕ → W → ℤ × W
  pub stream_response : ℕ → ℕ → W → ℤ × W
  pub is_ping : Bytes → Bool
  pub is_http_1_0 : Bstring → Bool
  pub is_close : Bstring → Bool
  pub status_line : ℕ → Bytes
  pub flash_response : Bytes

-- `Connection`; `finished`, `rport` and `send`, `recv` and the TLS fields are left to `Outside`
pub record Connection (W : Type 0) : Type 0 where
  pub world : W
  pub effects : List Effect
  pub server : Server Host
  pub fd : ℕ
  pub proxy_fd : ℤ
  pub req : Request
  pub nread : ℕ
  pub nparsed : ℕ
  pub registered : Bool
  pub closing : Bool
  pub remote : Bstring
  pub buf : ℕ → ℕ
  pub buf_size : ℕ
  pub overrun : Bool
