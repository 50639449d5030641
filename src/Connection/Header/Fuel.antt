-- ===== src/Connection/Header/Fuel.antt =====
-- The rounds of `Connection_read_header` of src/connection.c.
use mongrel.Connection.Buffer.{recv_at}
use mongrel.Prelude.{
  ◌-◌, update, ap, Bool-cases, leb, ℕ, zero, suc, ◌+◌, ◌<◌, ◌≤◌, sym, ℤ, pos, ◌≡◌, refl, ◌∙◌,
  Option, none, some, inl, inr, Option-cases, arith,
}
use mongrel.Connection.{Connection, Limits, Outside}
use mongrel.Connection.Monad.{◌>>=◌}
use mongrel.Connection.Buffer.Reads.{RecvsAtMost, recv_at-cases}
use mongrel.Connection.Header.{room, parse_buffer, read_round, read_loop, read_header}

module _ {W : Type 0} (o : Outside W) (limits : Limits) (at_most : RecvsAtMost o) where
  open limits use {buffer_size}

  -- A round that does not fail reads something, wherever it puts it.
  read_round-reads :
      (off len : ℕ) (c : Connection W) (f : ℤ)
      → (read_round o limits off len c).0 ≡ some f
      → c.nread < (read_round o limits off len c).1.nread
  unfolding read_round parse_buffer ◌>>=◌
  read_round-reads off len c f h = elim (recv_at-cases o at_most off len c) [
    | inl e ↦ ground arith
    | inr (bytes, l, m, e) ↦ ground arith
  ]

  -- `rest` bytes may be read only if fewer than BUFFER_SIZE have been
  HasRoom : Connection W → Option ℕ → Type 0
  HasRoom c none = Unit
  HasRoom c (some len) = c.nread < buffer_size

  room-HasRoom : (c : Connection W) → HasRoom c (room o limits c.nread)
  unfolding HasRoom
  room-HasRoom c = elim (Bool-cases (leb (c.nread + 1) buffer_size)) [
    | inl e ↦ rw e (ground arith)
    | inr e ↦ rw e tt
  ]

  read_loop-suc :
      (fuel : ℕ) (finished : ℤ) (rest : Option ℕ) (c : Connection W)
      → HasRoom c rest
      → buffer_size < fuel + c.nread
      → read_loop o limits (suc fuel) finished c.nread rest c
        ≡ read_loop o limits fuel finished c.nread rest c
  unfolding read_loop ◌>>=◌ HasRoom
  read_loop-suc zero finished none c r h = refl
  read_loop-suc zero finished (some len) c r h = ground arith
  read_loop-suc (suc fuel) finished none c r h = refl
  read_loop-suc (suc fuel) finished (some len) c r h =
      let c' = (read_round o limits c.nread len c).1 in
      elim (Option-cases (read_round o limits c.nread len c).0) [
        | inl e ↦ ground arith
        | inr (f, e) ↦
            let more = read_round-reads c.nread len c f e in
            let ih =
              read_loop-suc fuel f (room o limits c'.nread) c' (room-HasRoom c') (ground arith) in
            ground arith
      ]

  -- Behind the first round, which reads at offset 0, the loop goes on at `nread`.
  read_loop-begins :
      (fuel : ℕ) (finished : ℤ) (rest : Option ℕ) (c : Connection W)
      → buffer_size ≤ fuel
      → read_loop o limits (suc (suc fuel)) finished 0 rest c
        ≡ read_loop o limits (suc fuel) finished 0 rest c
  unfolding read_loop ◌>>=◌
  read_loop-begins fuel finished none c h = ground arith
  read_loop-begins fuel finished (some len) c h =
      let c' = (read_round o limits 0 len c).1 in
      elim (Option-cases (read_round o limits 0 len c).0) [
        | inl e ↦ ground arith
        | inr (f, e) ↦
            let more = read_round-reads 0 len c f e in
            let later =
              read_loop-suc fuel f (room o limits c'.nread) c' (room-HasRoom c') (ground arith) in
            ground arith
      ]

  -- For a socket that answers with at least one byte and at most as many as it is asked for, the
  -- loop of `Connection_read_header`, begun as it begins it, at the start of the buffer and with room
  -- for all of it, ends within BUFFER_SIZE + 1 rounds: whatever the parser answers, and whatever
  -- `nread` is kept from before, any number of rounds above that gives the same result.
  pub read_loop-ends :
      (more : ℕ) (finished : ℤ) (c : Connection W)
      → read_loop o limits (more + (buffer_size + 1)) finished 0 (room o limits 0) c
        ≡ read_loop o limits (buffer_size + 1) finished 0 (room o limits 0) c
  read_loop-ends zero finished c = same (omega arith)
    where
      same :
          {n m : ℕ}
          → n ≡ m
          → read_loop o limits n finished 0 (room o limits 0) c
            ≡ read_loop o limits m finished 0 (room o limits 0) c
      same e = ap (λ k. read_loop o limits k finished 0 (room o limits 0) c) e
  read_loop-ends (suc more) finished c =
      rw (suc_add more, suc_add' more)
        (read_loop-begins (more + buffer_size) finished (room o limits 0) c (omega arith)
          ∙ rw (sym (suc_add' more)) (read_loop-ends more finished c))
    where
      suc_add : (n : ℕ) → suc n + (buffer_size + 1) ≡ suc (n + (buffer_size + 1))
      suc_add n = omega arith

      suc_add' : (n : ℕ) → n + (buffer_size + 1) ≡ suc (n + buffer_size)
      suc_add' n = omega arith

module _ {W : Type 0} (o : Outside W) (limits : Limits)
    (hung_up : (len : ℕ) (w : W) → (o.recv len w).0 ≡ none) where
  open limits use {buffer_size}

  read_loop-none :
      (fuel : ℕ) (len : ℕ) (c : Connection W)
      → (read_loop o limits (suc fuel) (pos 0) 0 (some len) c).0 ≡ none
  unfolding read_loop read_round recv_at ◌>>=◌
  read_loop-none fuel len c = let h = hung_up len c.world in ground arith

  pub read_header-none : (c : Connection W) → 0 < buffer_size → (read_header o limits c).0 ≡ none
  unfolding read_header ◌>>=◌
  read_header-none c p =
      let c1 = record c {
        nparsed = 0;
        req = o.request_start c.req;
        buf = update c.buf buffer_size 0;
      } in
      let first = starts (ground arith) (ground arith) c1 in ground arith
    where
      starts :
          (buffer_size + 1 ≡ suc buffer_size)
          → room o limits 0 ≡ some (buffer_size - 1)
          → (d : Connection W)
          → (read_loop o limits (buffer_size + 1) (pos 0) 0 (room o limits 0) d).0 ≡ none
      starts e r d = rw (e, r) (read_loop-none buffer_size (buffer_size - 1) d)
