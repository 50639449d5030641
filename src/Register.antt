-- ===== src/Register.antt =====
-- src/register.c: which descriptors are connections, and the 16-bit ids by which handlers name
-- them. The arrays of 64 * 1024 entries are functions of the index. An `assert` that fails is the
-- result `none`, as in a build without NDEBUG. `time(NULL)` is an argument; the descriptors that are
-- passed to `fdclose` are kept in order, the last first.
pub mod Ids
use mongrel.Prelude.{
  ℕ, ◌+◌, ◌*◌, ◌%◌, ◌^◌, ℤ, pos, negsuc, minus_one, int_of_uint32, Option, none, some, List, ◌∷◌,
  not, ◌||◌, ltb, ◌==◌, if◌then◌else◌, update,
}

-- `Registration`: uint8_t, uint16_t, uint32_t
pub record Registration : Type 0 where
  pub conn_type : ℕ
  pub id : ℕ
  pub last_ping : ℕ

pub record Register : Type 0 where
  pub registrations : ℕ → Registration
  pub reg_count : ℕ
  pub reg_id_to_fd : ℕ → ℕ
  pub closed : List ℤ

abbrev pub max_registered_fds : ℕ
max_registered_fds = 64 * 1024

abbrev blank : Registration
blank = record { conn_type = 0; id = 0; last_ping = 0 }

-- `Register_init`: REG_COUNT is not reset
unfoldable pub init : Register → Register
init r = record r { registrations = λ _. blank; reg_id_to_fd = λ _. 0 }

-- `Register_clear` of the entry at `fd`: the entry keeps its id
clear : ℕ → Register → Register
clear fd r =
    let reg = r.registrations fd in
    record r {
      registrations = update r.registrations fd (record reg { conn_type = 0; last_ping = 0 });
      reg_id_to_fd = update r.reg_id_to_fd reg.id 0;
    }

-- the part of `Register_connect` after the test for a stale entry
enroll : ℕ → ℕ → ℕ → Register → ℤ × Register
enroll now fd conn_type r =
    let id = r.reg_count in
    (
      pos id,
      record r {
        registrations =
            update r.registrations fd
              (record { conn_type = conn_type % 2 ^ 8; id = id; last_ping = now % 2 ^ 32 });
        reg_count = (r.reg_count + 1) % 2 ^ 16;
        reg_id_to_fd = update r.reg_id_to_fd id (fd % 2 ^ 16);
      },
    )

-- `Register_connect`. Its `check(rc != -1, …)` always passes: `rc` is 0.
unfoldable pub connect : ℕ → ℕ → ℕ → Register → Option (ℤ × Register)
unfolding clear enroll
connect now fd conn_type r =
    if not (ltb fd max_registered_fds) || conn_type == 0
    then none
    else some
        (enroll now fd conn_type (if (r.registrations fd).conn_type == 0 then r else clear fd r))

fdclose : ℤ → Register → Register
fdclose fd r = record r { closed = fd ∷ r.closed }

-- `Register_disconnect`
unfoldable pub disconnect : ℤ → Register → Option (ℤ × Register)
unfolding clear fdclose
disconnect (negsuc n) r = some (minus_one, fdclose (negsuc n) r)
disconnect (pos fd) r =
    if not (ltb fd max_registered_fds)
    then none
    else if (r.registrations fd).conn_type == 0
    then some (minus_one, fdclose (pos fd) r)
    else some (pos (r.registrations fd).id, fdclose (pos fd) (clear fd r))

-- `Register_ping`
unfoldable pub ping : ℕ → ℕ → Register → Option (ℤ × Register)
ping now fd r =
    if not (ltb fd max_registered_fds)
    then none
    else if (r.registrations fd).conn_type == 0
    then some (minus_one, r)
    else let stamp = now % 2 ^ 32 in
      some (
        int_of_uint32 stamp,
        record r {
          registrations =
              update r.registrations fd (record (r.registrations fd) { last_ping = stamp });
        },
      )

-- `Register_fd_exists`
unfoldable pub fd_exists : ℕ → Register → Option ℕ
fd_exists fd r = if ltb fd max_registered_fds then some (r.registrations fd).conn_type else none

-- `Register_fd_for_id`
unfoldable pub fd_for_id : ℕ → Register → Option ℕ
fd_for_id id r = if ltb id max_registered_fds then some (r.reg_id_to_fd id) else none

-- `Register_id_for_fd`
unfoldable pub id_for_fd : ℕ → Register → Option ℕ
id_for_fd fd r = if ltb fd max_registered_fds then some (r.registrations fd).id else none
