-- ===== src/Host/Match.antt =====
-- What the lookups of src/host.c answer after a registration.
use mongrel.Prelude.{
  ℕ, ◌≡◌, ℤ, pos, minus_one, none, some, ◌∷◌, arith, if◌then◌else◌, Bool-cases, Option-cases, inl,
  inr,
}
use mongrel.Strings.{Bstring, Strings, open_paren}
use mongrel.Routing.{insert_route}
use mongrel.Routing.Literal.{simple_prefix_match-insert_route}
use mongrel.Host.{Backend, Host, add_backend, match_backend, is_backend_type, with_routes}

abbrev backend : ℕ → ℕ → ℕ → Backend
backend address type_of target = record { address = address; type_of = type_of; target = target }

module _ (lib : Strings) where
  open lib use {bstrchr}

  -- `Host_add_backend` of a path with at least one char and no parenthesis: if it does not stop at the `assert`, then
  -- for a known backend type it returns 0 and `Host_match_backend` answers that very path with
  -- the new backend and the path as the pattern; for any other type it returns -1 and changes
  -- nothing.
  pub match_backend-add_backend :
      (address : ℕ) (host : Host) (a : ℕ) (k : Bstring) (type_of target : ℕ) {rc : ℤ} {host' : Host}
      → bstrchr (a ∷ k) open_paren ≡ none
      → add_backend lib address host (a ∷ k) type_of target ≡ some (rc, host')
      → if is_backend_type type_of
        then (rc ≡ pos 0)
          × (match_backend lib host' (a ∷ k)
              ≡ some (record { address = address; type_of = type_of; target = target }, a ∷ k))
        else (rc ≡ minus_one) × (host' ≡ host)
  unfolding add_backend match_backend with_routes
  match_backend-add_backend address host a k type_of target literal h =
      elim (Bool-cases (is_backend_type type_of)) [
        | inr bad ↦ rw bad (ground arith)
        | inl good ↦
            elim (Option-cases
              (insert_route lib host.routes (a ∷ k) (backend address type_of target))) [
                | inl e ↦ absurd (ground arith)
                | inr (map, e) ↦
                    let found =
                      simple_prefix_match-insert_route lib host.routes a k
                        (backend address type_of target) literal e in
                    rw good (ground arith)
              ]
      ]
