-- ===== src/Connection/Buffer/Reads.antt =====
-- What `recv_at` does, for a socket that answers with at most as many bytes as it is asked for.
use mongrel.Prelude.{ℕ, ◌≤◌, ◌≡◌, none, some, length, Option-cases, ◌⊎◌, inl, inr}
use mongrel.Connection.{Bytes, Connection, Outside}
use mongrel.Connection.Monad.{◌>>=◌}
use mongrel.Connection.Buffer.{recv_at, arrive}

-- `recv` gives at most `len` bytes, and a result of 0 is not taken for one
abbrev pub RecvsAtMost : {W : Type 0} → Outside W → Type 0
RecvsAtMost {W} o =
    (len : ℕ) (w : W) (bytes : Bytes)
    → (o.recv len w).0 ≡ some bytes
    → (1 ≤ length bytes) × (length bytes ≤ len)

module _ {W : Type 0} (o : Outside W) where
  pub recv_at-cases :
      (at_most : RecvsAtMost o) (off len : ℕ) (c : Connection W)
      → let c' = record c { world = (o.recv len c.world).1 } in
        (recv_at o off len c ≡ (none, c'))
        ⊎ ((bytes : Bytes) × (1 ≤ length bytes)
            × (length bytes ≤ len)
            × (recv_at o off len c ≡ (some (length bytes), arrive off bytes c')))
  unfolding recv_at ◌>>=◌
  recv_at-cases at_most off len c = elim (Option-cases (o.recv len c.world).0) [
    | inl e ↦ inl (rw e)
    | inr (bytes, e) ↦ let (l, h) = at_most len c.world bytes e in inr (bytes, l, h, rw e)
  ]
