-- ===== src/Connection/Header.antt =====
-- `Connection_read_header` of src/connection.c.
pub mod Bounds
pub mod Fuel
use Prim.Native.Char.{code}
use Prim.Native.String.{String}
use mongrel.Prelude.{
  [], ℕ, zero, suc, ◌+◌, ◌-◌, ℤ, pos, Bool, true, false, Option, none, some, ◌∷◌, ◌==◌, leb,
  if◌then◌else◌, update,
}
use mongrel.Strings.{Bstring}
use mongrel.Connection.{Connection, Limits, Outside, Request}
use mongrel.Connection.Monad.{M, ◌>>=◌, ◌>>◌, pure, fail, check, modify, gets}
use mongrel.Connection.Buffer.{slice, recv_at, send_status}

-- `finished == 1`
abbrev pub is_one : ℤ → Bool
is_one (pos n) = n == 1
is_one (ℤ.negsuc n) = false

-- a text as a bstring
abbrev pub chars : String → Bstring
chars String.[] = []
chars (String.◌∷◌ c s) = (code c + 128) ∷ chars s

abbrev forwarded_for : Bstring
forwarded_for = chars "X-Forwarded-For"

module _ {W : Type 0} (o : Outside W) (limits : Limits) where
  open limits use {buffer_size}

  -- `BUFFER_SIZE - 1 - nread`, or `none` if that is below 0
  abbrev pub room : ℕ → Option ℕ
  room nread = if leb (nread + 1) buffer_size then some (buffer_size - 1 - nread) else none

  -- `finished = Request_parse(req, conn->buf, conn->nread, &conn->nparsed);`
  parse_buffer : M W ℤ
  parse_buffer c =
      let (finished, nparsed, req) = o.request_parse c.req (slice c.buf 0 c.nread) c.nparsed in
      (some finished, record c { nparsed = nparsed; req = req })

  -- One round of the loop behind its test: what `finished` is then.
  read_round : ℕ → ℕ → M W ℤ
  unfolding parse_buffer
  read_round off len = do
    n ← recv_at o off len
    modify (λ c. record c { nread = c.nread + n })
    cap ← gets (λ c. c.buf buffer_size)
    check (cap == 0)
    parse_buffer

  -- `while(finished != 1 && remaining >= 0)`, with `cur_buf` as an offset
  pub read_loop : ℕ → ℤ → ℕ → Option ℕ → M W ℤ
  unfolding read_round
  read_loop zero finished off remaining = pure finished
  read_loop (suc fuel) finished off none = pure finished
  read_loop (suc fuel) finished off (some len) =
      if is_one finished
      then pure finished
      else (read_round off len >>= λ finished'.
          gets (λ c. c.nread) >>= λ nread. read_loop fuel finished' nread (room nread))

  -- the `Connection` header of `check_should_close`
  closes_by_header : Option Bstring → Bool
  closes_by_header none = false
  closes_by_header (some h) = o.is_close h

  -- `check_should_close`
  should_close : Request → Bool
  unfolding closes_by_header
  should_close req = elim req.version [
    | some v ↦ if o.is_http_1_0 v then true else closes_by_header (o.connection_header req)
    | none ↦ closes_by_header (o.connection_header req)
  ]

  -- `Connection_read_header`; every round reads a byte into less than BUFFER_SIZE, so that many
  -- rounds are enough
  unfoldable pub read_header : M W ℕ
  unfolding read_loop should_close
  read_header = do
    modify (λ c. record c {
      nparsed = 0;
      req = o.request_start c.req;
      buf = update c.buf buffer_size 0;
    })
    finished ← read_loop (buffer_size + 1) (pos 0) 0 (room 0)
    if is_one finished then pure tt else (send_status o 400 >> fail)
    modify (λ c. record c {
      req = record c.req { headers = (forwarded_for, c.remote) ∷ c.req.headers };
    })
    modify (λ c. record c { closing = should_close c.req })
    gets (λ c. c.nread)
