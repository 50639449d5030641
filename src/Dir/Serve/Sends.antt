-- ===== src/Dir/Serve/Sends.antt =====
-- `Dir_stream_file` of src/dir.c ends and sends the whole file, and `Dir_serve_file` gives back what
-- it holds.
use mongrel.Prelude.{
  ℕ, zero, suc, ◌+◌, ◌-◌, ◌≤◌, ◌<◌, ◌≡◌, refl, ℤ, pos, negsuc, minus_one, Bool, true, false, Option,
  none, some, ltb, ◌==◌, if◌then◌else◌, Bool-cases, inl, inr, arith,
}
use mongrel.Dir.Files.{FileRecord}
use mongrel.Dir.Serve.{Socket, int_of_size, stream_loop, stream_file, send_header}

module _ {W : Type 0} (socket : Socket W) (block_size : ℕ) where
  stream_loop-ends :
      (fuel : ℕ) (file : FileRecord) (total offset : ℕ) (w : W)
      → file.sb.size - total < fuel
      → (r : Option ℕ × W) × (stream_loop socket block_size fuel file total offset w ≡ some r)
  unfolding stream_loop
  stream_loop-ends zero file total offset w h = absurd (omega arith)
  stream_loop-ends (suc fuel) file total offset w h =
      split ((socket.fdwait w).0 == 0) (ltb total file.sb.size) refl
        (socket.dir_send file.fd offset block_size (socket.fdwait w).1) (stream_loop-ends fuel file)
    where
      split :
          (free less : Bool)
          → ltb total file.sb.size ≡ less
          → (sent : ℤ × (ℕ × W))
          → ((t q : ℕ) (v : W)
              → file.sb.size - t < fuel
              → (r : Option ℕ × W) × (stream_loop socket block_size fuel file t q v ≡ some r))
          → (r : Option ℕ × W) × ((if free
                then (if less
                    then elim sent.0 [
                      | negsuc n ↦ some (none, sent.1.1)
                      | pos zero ↦ some (none, sent.1.1)
                      | pos (suc n) ↦
                          stream_loop socket block_size fuel file (total + suc n) sent.1.0 sent.1.1
                    ]
                    else some (some total, (socket.fdwait w).1))
                else some (some total, (socket.fdwait w).1))
              ≡ some r)
      split false less e sent ih = (_, refl)
      split true false e sent ih = (_, refl)
      split true true e (negsuc n, rest) ih = (_, refl)
      split true true e (pos zero, rest) ih = (_, refl)
      split true true e (pos (suc n), rest) ih = ih (total + suc n) rest.0 rest.1 (ground arith)

  -- A connection that stays writable, and a file whose every block is sent in part at least, and not
  -- past the end that `stat` told.
  pub record Sending (file : FileRecord) : Type 0 where
    pub writable : (w : W) → (socket.fdwait w).0 ≡ 0
    pub moves :
        (offset : ℕ) (w : W)
        → offset < file.sb.size
        → (n : ℕ) × ((socket.dir_send file.fd offset block_size w).0 ≡ pos (suc n))
          × ((socket.dir_send file.fd offset block_size w).1.0 ≡ offset + suc n)
          × (offset + suc n ≤ file.sb.size)

  stream_loop-sends :
      (fuel : ℕ) (file : FileRecord) (total : ℕ) (w : W)
      → Sending file
      → total ≤ file.sb.size
      → file.sb.size < total + fuel
      → (w' : W) × (stream_loop socket block_size fuel file total total w
          ≡ some (some file.sb.size, w'))
  unfolding stream_loop
  stream_loop-sends zero file total w s b h = absurd (omega arith)
  stream_loop-sends (suc fuel) file total w s b h = elim (Bool-cases (ltb total file.sb.size)) [
    | inl less ↦
        let (n, sent, next, inside) = s.moves total (socket.fdwait w).1 (ground arith) in
        let v = (socket.dir_send file.fd total block_size (socket.fdwait w).1).1.1 in
        let (w', rest) = stream_loop-sends fuel file (total + suc n) v s inside (omega arith) in
        (w', ground (arith, s.writable w, sent, next, less, rest))
    | inr more ↦ ((socket.fdwait w).1, ground (arith, s.writable w, more))
  ]

  -- `Dir_stream_file` comes to an end.
  pub stream_file-ends :
      (file : FileRecord) (w : W) → (r : ℤ × W) × (stream_file socket block_size file w ≡ some r)
  unfolding stream_file
  stream_file-ends file w =
      let w1 = (send_header socket block_size file w).1 in
      let (r, ends) = stream_loop-ends (file.sb.size + 1) file 0 0 w1 (omega arith) in
      ended (send_header socket block_size file w).0 _ ends
    where
      ended :
          (good : Bool) (o : Option (Option ℕ × W)) {r : Option ℕ × W}
          → o ≡ some r
          → (x : ℤ × W) × ((if good
                then elim o [
                  | none ↦ none
                  | some r ↦ elim r.0 [
                    | none ↦ some (minus_one, r.1)
                    | some total ↦
                        some (if total == file.sb.size then int_of_size total else minus_one, r.1)
                  ]
                ]
                else some (minus_one, (send_header socket block_size file w).1))
              ≡ some x)
      ended false o e = (_, refl)
      ended true none e = absurd (ground arith)
      ended true (some (none, v)) e = (_, refl)
      ended true (some (some total, v)) e = (_, refl)

  -- `Dir_stream_file` returns the size of the file, cut to an `int`, if the header goes out whole, the connection stays
  -- writable, and every `Dir_send` sends something and nothing past the end.
  pub stream_file_sends :
      (file : FileRecord) (w : W)
      → (send_header socket block_size file w).0 ≡ true
      → Sending file
      → (w' : W) × (stream_file socket block_size file w ≡ some (int_of_size file.sb.size, w'))
  unfolding stream_file
  stream_file_sends file w good s =
      let w1 = (send_header socket block_size file w).1 in
      let (w', sends) =
        stream_loop-sends (file.sb.size + 1) file 0 w1 s (omega arith) (omega arith) in
      (w', ground (arith, good, sends))
