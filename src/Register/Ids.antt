-- ===== src/Register/Ids.antt =====
-- Ids and descriptors of src/register.c name each other, until the 16-bit counter wraps.
use mongrel.Prelude.{
  ℕ, suc, ◌+◌, ◌^◌, ◌<◌, ◌≡◌, ◌≢◌, refl, ℤ, pos, Option, none, some, List, [], ◌∷◌, arith, ap, ◌↔◌,
  inl, inr, subst, some-injective, Option-cases,
}
use mongrel.Register.{
  Register, init, connect, disconnect, ping, fd_exists, fd_for_id, id_for_fd, max_registered_fds,
}

-- Every live descriptor has an id below the counter, and the id leads back to the descriptor.
pub record IsNamed (r : Register) : Type 0 where
  pub id_below :
      (fd : ℕ) → (r.registrations fd).conn_type ≢ 0 → (r.registrations fd).id < r.reg_count
  pub id_back :
      (fd : ℕ) → (r.registrations fd).conn_type ≢ 0 → r.reg_id_to_fd (r.registrations fd).id ≡ fd

-- Where the id counter is below 2 ^ 16 and the connection type below 2 ^ 8, so that neither is cut
-- off: a `Register_connect` that passes its assertions returns the counter as the id, whatever was
-- registered before; that id leads to the descriptor, the descriptor has it and the connection type, and
-- the registrations of the other descriptors (their type, id and last ping) stay as they were. Their
-- entries in REG_ID_TO_FD may change.
pub connect-fd_for_id :
    (now fd ty : ℕ) (r : Register) {v : ℤ} {r' : Register}
    → r.reg_count < 2 ^ 16
    → ty < 2 ^ 8
    → connect now fd ty r ≡ some (v, r')
    → (v ≡ pos r.reg_count)
      × (fd_for_id r.reg_count r' ≡ some fd)
      × (id_for_fd fd r' ≡ some r.reg_count)
      × (fd_exists fd r' ≡ some ty)
      × ((g : ℕ) → g ≢ fd → r'.registrations g ≡ r.registrations g)
unfolding connect fd_for_id id_for_fd fd_exists
connect-fd_for_id now fd ty r bound small h =
    (ground arith, ground arith, ground arith, ground arith, λ g ne. ground arith)

connect-IsNamed :
    (now fd ty : ℕ) (r : Register) {v : ℤ} {r' : Register}
    → r.reg_count + 1 < 2 ^ 16
    → connect now fd ty r ≡ some (v, r')
    → IsNamed r
    → IsNamed r'
unfolding connect
connect-IsNamed now fd ty r bound h n = record {
  id_below = λ g live. ground (arith, n.id_below g, n.id_below fd);
  id_back = λ g live. ground (arith, n.id_back g, n.id_below g, n.id_back fd);
}

pub disconnect-IsNamed :
    (fd : ℤ) (r : Register) {v : ℤ} {r' : Register}
    → disconnect fd r ≡ some (v, r')
    → IsNamed r
    → IsNamed r'
unfolding disconnect
disconnect-IsNamed (ℤ.negsuc k) r h n = record {
  id_below = λ g live. ground (arith, n.id_below g);
  id_back = λ g live. ground (arith, n.id_back g);
}
disconnect-IsNamed (pos fd) r h n = record {
  id_below = λ g live. ground (arith, n.id_below g);
  id_back = λ g live. ground (arith, n.id_back g, n.id_back fd);
}

ping-IsNamed :
    (now fd : ℕ) (r : Register) {v : ℤ} {r' : Register}
    → ping now fd r ≡ some (v, r')
    → IsNamed r
    → IsNamed r'
unfolding ping
ping-IsNamed now fd r h n = record {
  id_below = λ g live. ground (arith, n.id_below g, n.id_below fd);
  id_back = λ g live. ground (arith, n.id_back g, n.id_back fd);
}

pub data Call : Type 0 where
  connecting : ℕ → ℕ → ℕ → Call
  disconnecting : ℤ → Call
  pinging : ℕ → ℕ → Call

abbrev pub state_of : Option (ℤ × Register) → Option Register
state_of none = none
state_of (some (_, r)) = some r

unfoldable pub perform : Call → Register → Option Register
perform (connecting now fd ty) r = state_of (connect now fd ty r)
perform (disconnecting fd) r = state_of (disconnect fd r)
perform (pinging now fd) r = state_of (ping now fd r)

-- calls in order, until an `assert` fails
unfoldable pub run : List Call → Register → Option Register
run [] r = some r
run (c ∷ cs) r = elim (perform c r) [ none ↦ none | some r' ↦ run cs r' ]

abbrev pub connects : List Call → ℕ
connects [] = 0
connects (connecting _ _ _ ∷ cs) = suc (connects cs)
connects (_ ∷ cs) = connects cs

reg_count-connect :
    (now fd ty : ℕ) (r : Register) {v : ℤ} {r' : Register}
    → r.reg_count + 1 < 2 ^ 16
    → connect now fd ty r ≡ some (v, r')
    → r'.reg_count ≡ r.reg_count + 1
unfolding connect
reg_count-connect now fd ty r bound h = ground arith

reg_count-disconnect :
    (fd : ℤ) (r : Register) {v : ℤ} {r' : Register}
    → disconnect fd r ≡ some (v, r')
    → r'.reg_count ≡ r.reg_count
unfolding disconnect
reg_count-disconnect (ℤ.negsuc k) r h = ground arith
reg_count-disconnect (pos fd) r h = ground arith

reg_count-ping :
    (now fd : ℕ) (r : Register) {v : ℤ} {r' : Register}
    → ping now fd r ≡ some (v, r')
    → r'.reg_count ≡ r.reg_count
unfolding ping
reg_count-ping now fd r h = ground arith

state_of-some :
    (o : Option (ℤ × Register)) {r' : Register}
    → state_of o ≡ some r'
    → (v : ℤ) × (o ≡ some (v, r'))
state_of-some none h = cc
state_of-some (some (v, r)) h = (v, ground arith)

-- One call keeps the ids right and counts at most itself.
perform-IsNamed :
    (c : Call) (r : Register) {r' : Register}
    → r.reg_count + connects (c ∷ []) < 2 ^ 16
    → perform c r ≡ some r'
    → IsNamed r
    → IsNamed r' × (r'.reg_count ≡ r.reg_count + connects (c ∷ []))
unfolding perform
perform-IsNamed (connecting now fd ty) r bound h n =
    let (v, e) = state_of-some (connect now fd ty r) h in
    (connect-IsNamed now fd ty r bound e n, reg_count-connect now fd ty r bound e)
perform-IsNamed (disconnecting fd) r bound h n =
    let (v, e) = state_of-some (disconnect fd r) h in
    (disconnect-IsNamed fd r e n, omega (arith, reg_count-disconnect fd r e))
perform-IsNamed (pinging now fd) r bound h n =
    let (v, e) = state_of-some (ping now fd r) h in
    (ping-IsNamed now fd r e n, omega (arith, reg_count-ping now fd r e))

connects-cons : (c : Call) (cs : List Call) → connects (c ∷ cs) ≡ connects (c ∷ []) + connects cs
connects-cons (connecting _ _ _) cs = omega arith
connects-cons (disconnecting _) cs = omega arith
connects-cons (pinging _ _) cs = omega arith

run-IsNamed :
    (cs : List Call) (r : Register) {r' : Register}
    → r.reg_count + connects cs < 2 ^ 16
    → run cs r ≡ some r'
    → IsNamed r
    → IsNamed r' × (r'.reg_count ≡ r.reg_count + connects cs)
unfolding run
run-IsNamed [] r bound h n =
    let e = some-injective r _ h in
    (subst IsNamed e n, omega (arith, ap (λ (q : Register). q.reg_count) e))
run-IsNamed (c ∷ cs) r bound h n = elim (Option-cases (perform c r)) [
  | inl e ↦ absurd (ground arith)
  | inr (q, e) ↦
      let all = connects-cons c cs in
      let (kept, counted) = perform-IsNamed c r (omega arith) e n in
      let done = run-IsNamed cs q (omega arith) (ground arith) kept in (done.0, omega arith)
]

-- The server's start: a cleared register that has given out no id.
abbrev pub booted : Register
booted = init (record {
  registrations = λ _. record { conn_type = 0; id = 0; last_ping = 0 };
  reg_count = 0;
  reg_id_to_fd = λ _. 0;
  closed = [];
})

booted-IsNamed : IsNamed booted
unfolding init
booted-IsNamed = record { id_below = λ fd live. ground arith; id_back = λ fd live. ground arith }

reg_count-booted : booted.reg_count ≡ 0
unfolding init
reg_count-booted = refl

-- After any calls with fewer than 2 ^ 16 connects since the start, the id of a live descriptor
-- leads back to that descriptor.
pub fd_for_id-id_for_fd :
    (cs : List Call) {r : Register} (fd : ℕ) {id : ℕ}
    → connects cs < 2 ^ 16
    → run cs booted ≡ some r
    → fd_exists fd r ≢ some 0
    → id_for_fd fd r ≡ some id
    → fd_for_id id r ≡ some fd
unfolding fd_exists id_for_fd fd_for_id
fd_for_id-id_for_fd cs {r} fd bound h live e =
    let (named, counted) =
      run-IsNamed cs booted (omega (arith, reg_count-booted)) h booted-IsNamed in
    let start = reg_count-booted in ground (arith, named.id_back fd, named.id_below fd)

-- The counter wraps without a look at who holds the id: once it comes round to the id of a live
-- descriptor, the next connect on another descriptor takes that id away, and messages for the
-- first connection go to the second.
pub connect_takes_live_id :
    (now f g ty : ℕ) (r : Register) {v : ℤ} {r' : Register}
    → f < max_registered_fds
    → f ≢ g
    → id_for_fd f r ≡ some r.reg_count
    → r.reg_count < 2 ^ 16
    → connect now g ty r ≡ some (v, r')
    → (id_for_fd f r' ≡ some r.reg_count) × (fd_for_id r.reg_count r' ≡ some g)
unfolding connect id_for_fd fd_for_id
connect_takes_live_id now f g ty r hf ne e bound h = (ground arith, ground arith)

-- `Register_disconnect` hands the descriptor to `fdclose` exactly once on each of its returns,
-- and afterwards the descriptor is not registered; it answers -1 exactly if it was not before.
pub disconnect_closes :
    (fd : ℕ) (r : Register) {v : ℤ} {r' : Register}
    → disconnect (pos fd) r ≡ some (v, r')
    → (r'.closed ≡ pos fd ∷ r.closed)
      × (fd_exists fd r' ≡ some 0)
      × ((v ≡ ℤ.negsuc 0) ↔ (fd_exists fd r ≡ some 0))
unfolding disconnect fd_exists
disconnect_closes fd r h = (ground arith, ground arith, ground arith)
