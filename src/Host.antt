-- ===== src/Host.antt =====
-- src/host.c, src/host.h and the host part of src/server.c: the backends of a host by path, and the
-- hosts of a server by name. A target is an opaque pointer, a number that is 0 for NULL.
-- Allocation is taken to succeed, and a failed `assert` is the result `none`.
pub mod Match
use mongrel.Prelude.{
  ℕ, ◌-◌, ℤ, pos, minus_one, Bool, Option, none, some, List, length, ltb, ◌==◌, ◌||◌, if◌then◌else◌,
}
use mongrel.Strings.{Bstring, Strings}
use mongrel.Routing.{
  Route, RouteMap, create, insert_route, insert_reversed, simple_prefix_match, match_suffix,
}

-- `BackendType`
abbrev pub backend_handler : ℕ
backend_handler = 1

abbrev pub backend_proxy : ℕ
backend_proxy = 2

abbrev pub backend_dir : ℕ
backend_dir = 3

-- `Backend`: where it lies, and its fields; the union is one pointer, read as `type` says
pub record Backend : Type 0 where
  pub address : ℕ
  pub type_of : ℕ
  pub target : ℕ

pub record Host : Type 0 where
  pub routes : RouteMap Backend
  pub name : Bstring

-- `Host_create`, by the setting `limits.host_name`; `none` is NULL
unfoldable pub host_create : ℕ → Bstring → Option Host
host_create max_host_name name =
    if ltb (length name) max_host_name then some (record { routes = create; name = name }) else none

-- the types that `Host_add_backend` takes
abbrev pub is_backend_type : ℕ → Bool
is_backend_type t = t == backend_handler || (t == backend_proxy || t == backend_dir)

-- `Server`: its hosts, and the fields that choose a host
pub record Server {ℓ} (D : Type ℓ) : Type ℓ where
  pub hosts : RouteMap D
  pub default_host : Option D
  pub default_hostname : Bstring

-- `host->routes = …`
with_routes : Host → Option (RouteMap Backend) → Option (ℤ × Host)
with_routes host none = none
with_routes host (some map) = some (pos 0, record host { routes = map })

module _ (lib : Strings) where
  open lib use {bstring_match}

  -- `Host_add_backend`, with the address that `calloc` returns
  unfoldable pub add_backend : ℕ → Host → Bstring → ℕ → ℕ → Option (ℤ × Host)
  unfolding with_routes
  add_backend address host path type_of target =
      if is_backend_type type_of
      then with_routes host (
          insert_route lib host.routes path
            (record { address = address; type_of = type_of; target = target }))
      else some (minus_one, host)

  abbrev backend_and_pattern : Option (Route Backend) → Option (Backend × Bstring)
  backend_and_pattern none = none
  backend_and_pattern (some found) = some (found.data_of, found.pattern)

  -- `Host_match_backend`: the backend and `*out_pattern`, both NULL if there is none
  unfoldable pub match_backend : Host → Bstring → Option (Backend × Bstring)
  match_backend host target = backend_and_pattern (simple_prefix_match lib host.routes target)

  module _ {ℓ} {D : Type ℓ} where
    abbrev with_hosts : Server D → Option (RouteMap D) → Option (Server D)
    with_hosts srv none = none
    with_hosts srv (some map) = some (record srv { hosts = map })

    -- `Server_add_host`
    unfoldable pub add_host : Server D → Bstring → D → Option (Server D)
    add_host srv pattern host = with_hosts srv (insert_reversed lib srv.hosts pattern host)

    -- `Server_set_default_host`
    unfoldable pub set_default_host : Server D → D → Server D
    set_default_host srv host = record srv { default_host = some host }

    -- `Server_match_backend` on what `RouteMap_match_suffix` found
    abbrev choose_host : Server D → Bstring → Option (Route D) → Option D
    choose_host srv target (some found) = some found.data_of
    choose_host srv target none =
        if bstring_match target srv.default_hostname then srv.default_host else none

    -- `Server_match_backend`
    unfoldable pub match_host : Server D → Bstring → Option D
    match_host srv target = choose_host srv target (match_suffix lib srv.hosts target)
