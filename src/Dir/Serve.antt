-- ===== src/Dir/Serve.antt =====
-- `Dir_send_header`, `Dir_stream_file` of a connection without TLS, and `Dir_serve_file` of src/dir.c,
-- with `Response_send_status` and the texts of src/response.c that it sends. The clock is read once.
pub mod Sends
pub mod Holds
use mongrel.Prelude.{
  ℕ, zero, suc, ◌+◌, ◌-◌, ◌++◌, ℤ, pos, negsuc, minus_one, Bool, true, false, ◌||◌, not, Option,
  none, some, List, length, int_of_uint32, ◌%◌, ◌^◌, text, decimal, ltb, leb, ◌==◌, if◌then◌else◌,
}
use mongrel.Strings.{Bstring, Strings}
use mongrel.Tst.Insert.{same_key}
use mongrel.Request.{Headers, Request}
use mongrel.Dir.Files.{Stat, Files, FileRecord, Dir, Store}
use mongrel.Dir.Find.{release, resolve_file}
use mongrel.Dir.Answer.{
  Reply, http_304, http_404, http_405, http_412, http_500, redirect, Clock, calculate_response,
}

-- `conn->send`, `fdwait(conn->fd, 'w')`, and `Dir_send` from a descriptor at an offset with a block
-- size, which answers what it sent and the offset after it
pub record Socket (W : Type 0) : Type 0 where
  pub send : Bstring → W → ℤ × W
  pub fdwait : W → ℕ × W
  pub dir_send : ℤ → ℕ → ℕ → W → ℤ × (ℕ × W)

-- `(int) total` of a `size_t`
abbrev pub int_of_size : ℕ → ℤ
int_of_size total = int_of_uint32 (total % 2 ^ 32)

-- HTTP_304, HTTP_404, HTTP_405, HTTP_412 and HTTP_500, with `VERSION`
abbrev pub status_text : Bstring → Reply → Bstring
status_text version http_304 =
    text
      "HTTP/1.1 304 Not Modified\r\nContent-Type: text/plain\r\nConnection: close\r\nContent-Length: 0\r\nServer: "
    ++ (version ++ text "\r\n\r\n")
status_text version http_404 =
    text
      "HTTP/1.1 404 Not Found\r\nContent-Type: text/plain\r\nConnection: close\r\nContent-Length: 9\r\nServer: "
    ++ (version ++ text "\r\n\r\nNot Found")
status_text version http_405 =
    text
      "HTTP/1.1 405 Method Not Allowed\r\nContent-Type: text/plain\r\nConnection: close\r\nContent-Length: 18\r\nServer: "
    ++ (version ++ text "\r\n\r\nMethod Not Allowed")
status_text version http_412 =
    text
      "HTTP/1.1 412 Precondition Failed\r\nContent-Type: text/plain\r\nConnection: close\r\nContent-Length: 19\r\nServer: "
    ++ (version ++ text "\r\n\r\nPrecondition Failed")
status_text version http_500 =
    text
      "HTTP/1.1 500 Internal Server Error\r\nContent-Type: text/plain\r\nConnection: close\r\nContent-Length: 21\r\nServer: "
    ++ (version ++ text "\r\n\r\nInternal Server Error")
status_text version (redirect s) = s

abbrev is_length : ℤ → ℕ → Bool
is_length (pos n) m = n == m
is_length (negsuc n) m = false

-- `biseq(req->request_method, …)` as a condition; of a NULL it is -1
abbrev is_method : Bstring → Option Bstring → Bool
is_method name none = true
is_method name (some m) = same_key m name

module _ {W : Type 0} (socket : Socket W) (block_size : ℕ) where
  -- `Dir_send_header`
  abbrev pub send_header : FileRecord → W → Bool × W
  send_header file w =
      let (rc, w') = socket.send file.header w in (is_length rc (length file.header), w')

  -- The loop of `Dir_stream_file`, on fuel: what it adds to `total`, or `none` for the label `error`;
  -- the outer `none` is the end of the fuel.
  pub stream_loop : ℕ → FileRecord → ℕ → ℕ → W → Option (Option ℕ × W)
  stream_loop zero file total offset w = none
  stream_loop (suc fuel) file total offset w =
      let (blocked, w1) = socket.fdwait w in
      let (sent, (offset', w2)) = socket.dir_send file.fd offset block_size w1 in
      if blocked == 0
      then (if ltb total file.sb.size
          then elim sent [
            | negsuc n ↦ some (none, w2)
            | pos zero ↦ some (none, w2)
            | pos (suc n) ↦ stream_loop fuel file (total + suc n) offset' w2
          ]
          else some (some total, w1))
      else some (some total, w1)

  -- `Dir_stream_file` of a connection without TLS
  pub stream_file : FileRecord → W → Option (ℤ × W)
  unfolding stream_loop
  stream_file file w =
      let (good, w1) = send_header file w in
      if good
      then elim (stream_loop (file.sb.size + 1) file 0 0 w1) [
        | none ↦ none
        | some r ↦ elim r.0 [
          | none ↦ some (minus_one, r.1)
          | some total ↦ some (if total == file.sb.size then int_of_size total else minus_one, r.1)
        ]
      ]
      else some (minus_one, w1)

  module _ {H : Type 0} (o : Files W) (dict : Headers H) (lib : Strings) (clock : Clock)
      (version : Bstring) (dir : Dir) where
    -- `Response_send_status`, and whether all of it went out
    abbrev send_status : Reply → Store W → Bool × Store W
    send_status reply s =
        let (rc, w) = socket.send (status_text version reply) s.world in
        (is_length rc (length (status_text version reply)), record s { world = w })

    -- `FileRecord_release` of a file that may be NULL
    abbrev release_found : Option ℕ → Store W → Store W
    release_found none s = s
    release_found (some a) s = release a s

    abbrev found : Option ℕ → Store W → Option FileRecord
    found none s = none
    found (some a) s = some (s.heap a)

    -- the branch of `Dir_serve_file` that sends a file
    pub send_file : Bool → FileRecord → Request H → Store W → Option (Bool × (Request H × Store W))
    unfolding stream_file
    send_file is_get file req s =
        let (good, w) = send_header file s.world in
        if is_get
        then elim (stream_file file s.world) [
          | none ↦ none
          | some r ↦ some (
            is_length r.0 file.sb.size,
            (record req { response_size = r.0 }, record s { world = r.1 }),
          )
        ]
        else some (good, (req, record s { world = w }))

    -- `Dir_serve_file` for a method that is GET or HEAD
    pub serve_found : Bool → Request H → Option ℕ → Store W → Option (ℤ × (Request H × Store W))
    unfolding send_file
    serve_found is_get req a s =
        let (now, w) = o.time s.world in
        let (reply, req') = calculate_response dict lib clock version req (found a s) now in
        let s' = record s { world = w } in
        elim reply [
          | some r ↦
              let (good, s2) = send_status r s' in
              some (if good then pos 0 else minus_one, (req', release_found a s2))
          | none ↦ elim (found a s) [
            | none ↦ none
            | some file ↦ elim (send_file is_get file req' s') [
              | none ↦ none
              | some v ↦ some (if v.0 then pos 0 else minus_one, (v.1.0, release_found a v.1.1))
            ]
          ]
        ]

    -- `Dir_serve_file`, of a request that has a path
    unfoldable pub serve_file :
        Bstring → Bstring → Request H → Store W → Option (ℤ × (Request H × Store W))
    unfolding serve_found
    serve_file pattern path req0 s =
        let req = record req0 { response_size = pos 0 } in
        let is_get = is_method (text "GET") req.method in
        let is_head = is_method (text "HEAD") req.method in
        let (a, s1) = resolve_file o lib dir pattern path s in
        let (good, s2) = send_status http_405 s in
        if is_get || is_head
        then serve_found is_get req a s1
        else some (minus_one, (record req { status_code = 405 }, s2))
