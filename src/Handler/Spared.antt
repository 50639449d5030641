-- ===== src/Handler/Spared.antt =====
-- Which registrations of src/register.c the answers of src/handler.c leave alone.
use mongrel.Prelude.{
  ℕ, suc, ◌-◌, ◌%◌, ◌^◌, ◌≡◌, ◌≢◌, refl, ◌∙◌, subst, ℤ, pos, negsuc, Bool, true, false, Option,
  none, some, List, [], ◌∷◌, length, ltb, ◌==◌, if◌then◌else◌, arith,
}
use mongrel.Register.{Register, max_registered_fds, disconnect, fd_exists, fd_for_id}
use mongrel.Handler.{
  Net, Server, conn_type_msg, is_minus_one, deliver_payload, disconnected, ignored, process_request,
  to_target, to_targets,
}

-- how often a descriptor is among those that `fdclose` has been called with
abbrev pub times_closed : ℕ → List ℤ → ℕ
times_closed g [] = 0
times_closed g (negsuc n ∷ fds) = times_closed g fds
times_closed g (pos fd ∷ fds) = let rest = times_closed g fds in if fd == g then suc rest else rest

-- that none of the targets is an id that leads to `g`; they are cut to an `int`
unfoldable pub Misses : ℕ → Register → List ℕ → Type 0
Misses g r [] = Unit
Misses g r (target ∷ targets) = (r.reg_id_to_fd (target % 2 ^ 32) ≢ g) × Misses g r targets

-- From `r` to `r'` the registration of `g` stays, `g` is not closed, and no id comes to lead to it.
record Spares (g : ℕ) (r r' : Register) : Type 0 where
  registration : r'.registrations g ≡ r.registrations g
  open_still : times_closed g r'.closed ≡ times_closed g r.closed
  ids : (id : ℕ) → r.reg_id_to_fd id ≢ g → r'.reg_id_to_fd id ≢ g

same_Spares : (g : ℕ) (r : Register) → Spares g r r
same_Spares g r = record { registration = refl; open_still = refl; ids = λ id h. h }

then_Spares : {g : ℕ} {r r' r'' : Register} → Spares g r r' → Spares g r' r'' → Spares g r r''
then_Spares h k = record {
  registration = k.registration ∙ h.registration;
  open_still = k.open_still ∙ h.open_still;
  ids = λ id m. k.ids id (h.ids id m);
}

disconnect-Spares :
    (g fd : ℕ) (r : Register) {v : ℤ} {r' : Register}
    → g ≢ 0
    → fd ≢ g
    → disconnect (pos fd) r ≡ some (v, r')
    → Spares g r r'
unfolding disconnect
disconnect-Spares g fd r p ne h = record {
  registration = ground arith;
  open_still = ground arith;
  ids = λ id m. ground arith;
}

Misses-later :
    (g : ℕ) (targets : List ℕ) {r r' : Register}
    → Spares g r r'
    → Misses g r targets
    → Misses g r' targets
unfolding Misses
Misses-later g [] h m = tt
Misses-later g (target ∷ targets) h (m, ms) =
    (h.ids (target % 2 ^ 32) m, Misses-later g targets h ms)

module _ {W : Type 0} (net : Net W) (g : ℕ) (above : g ≢ 0) where
  abbrev After : Register → Option (Server W) → Type 0
  After r none = r ≡ r
  After r (some s) = Spares g r s.register

  abbrev AfterCode : Register → Option (ℤ × Server W) → Type 0
  AfterCode r none = r ≡ r
  AfterCode r (some v) = Spares g r v.1.register

  disconnected-After :
      (fd : ℕ) (s : Server W) → fd ≢ g → AfterCode s.register (disconnected net fd s)
  disconnected-After fd s ne = split (disconnect (pos fd) s.register) refl
    where
      split :
          (o : Option (ℤ × Register))
          → disconnect (pos fd) s.register ≡ o
          → AfterCode s.register
              (elim o [ none ↦ none | some v ↦ some (v.0, record s { register = v.1 }) ])
      split none e = refl
      split (some (v, r)) e = disconnect-Spares g fd s.register above ne e

  ignored-After :
      (r : Register) (o : Option (ℤ × Server W)) → AfterCode r o → After r (ignored net o)
  ignored-After r none h = refl
  ignored-After r (some (v, s)) h = h

  After-later : (r r' : Register) (o : Option (Server W)) → Spares g r r' → After r' o → After r o
  After-later r r' none h k = refl
  After-later r r' (some s) h k = then_Spares h k

  if_After :
      (r : Register) (b : Bool) (x y : Option (Server W))
      → After r x
      → After r y
      → After r (if b then x else y)
  if_After r true x y h k = h
  if_After r false x y h k = k

  again_After :
      (fd : ℕ) (r : Register) (o : Option (ℤ × Server W))
      → fd ≢ g
      → AfterCode r o
      → After r (elim o [
        | none ↦ none
        | some v ↦ if is_minus_one v.0 then ignored net (disconnected net fd v.1) else some v.1
      ])
  again_After fd r none ne h = refl
  again_After fd r (some (v, s)) ne h =
      if_After r (is_minus_one v) _ _
        (After-later r s.register _ h (ignored-After s.register _ (disconnected-After fd s ne))) h

  process_request-After :
      (send_ident : List ℕ) (id : ℤ) (fd ty : ℕ) (body : List ℕ) (s : Server W)
      → fd ≢ g
      → After s.register (process_request net send_ident id fd ty body s)
  unfolding process_request
  process_request-After send_ident id fd ty body s ne =
      if_After s.register (ty == 0) _ _ (same_Spares g s.register) (
        if_After s.register (length body == 0) _ _
          (again_After fd s.register (disconnected net fd s) ne (disconnected-After fd s ne))
          (if_After s.register (is_minus_one (sent).0) _ _
            (ignored-After s.register _ (disconnected-After fd (record s { world = (sent).1 }) ne))
            (same_Spares g s.register)))
    where
      sent : ℤ × W
      sent = deliver_payload net (if ty == conn_type_msg then false else true) fd body s.world

  to_target-After :
      (send_ident body : List ℕ) (target : ℕ) (s : Server W)
      → s.register.reg_id_to_fd (target % 2 ^ 32) ≢ g
      → After s.register (to_target net send_ident body target s)
  unfolding to_target fd_for_id
  to_target-After send_ident body target s m = signed (ltb (target % 2 ^ 32) (2 ^ 31))
    where
      live :
          (id fd : ℕ) (o : Option ℕ)
          → fd ≢ g
          → After s.register (elim o [
            | none ↦ none
            | some ty ↦ process_request net send_ident (pos id) fd ty body s
          ])
      live id fd none ne = refl
      live id fd (some ty) ne = process_request-After send_ident (pos id) fd ty body s ne

      named :
          (id : ℕ) (o : Bool)
          → s.register.reg_id_to_fd id ≢ g
          → After s.register (elim (if o then some (s.register.reg_id_to_fd id) else none) [
            | none ↦ none
            | some fd ↦ elim (fd_exists fd s.register) [
              | none ↦ none
              | some ty ↦ process_request net send_ident (pos id) fd ty body s
            ]
          ])
      named id false ne = refl
      named id true ne =
          live id (s.register.reg_id_to_fd id) (fd_exists (s.register.reg_id_to_fd id) s.register)
            ne

      signed :
          (small : Bool)
          → After s.register
              (elim (if small
                then pos (target % 2 ^ 32)
                else negsuc (2 ^ 32 - target % 2 ^ 32 - 1)) [
                  | negsuc n ↦ none
                  | pos id ↦ elim (fd_for_id id s.register) [
                    | none ↦ none
                    | some fd ↦ elim (fd_exists fd s.register) [
                      | none ↦ none
                      | some ty ↦ process_request net send_ident (pos id) fd ty body s
                    ]
                  ]
                ])
      signed false = refl
      signed true = named (target % 2 ^ 32) (ltb (target % 2 ^ 32) max_registered_fds) m

  to_targets-After :
      (send_ident body targets : List ℕ) (s : Server W)
      → Misses g s.register targets
      → After s.register (to_targets net send_ident body targets s)
  unfolding to_targets Misses
  to_targets-After send_ident body [] s m = same_Spares g s.register
  to_targets-After send_ident body (target ∷ targets) s (m, ms) =
      split (to_target net send_ident body target s) (to_target-After send_ident body target s m)
        (to_targets-After send_ident body targets)
    where
      split :
          (o : Option (Server W))
          → After s.register o
          → ((t : Server W)
              → Misses g t.register targets
              → After t.register (to_targets net send_ident body targets t))
          → After s.register
              (elim o [ none ↦ none | some t ↦ to_targets net send_ident body targets t ])
      split none h ih = refl
      split (some t) h ih =
          After-later s.register t.register _ h (ih t (Misses-later g targets h ms))

  -- A descriptor above 0 to which none of the targets' ids leads, at the start, keeps its registration
  -- (its type, its id and its last ping), and is not closed, by the loop over the targets: whatever the
  -- body is, whatever sends fail, and whichever other descriptors are disconnected on the way.
  pub to_targets_spares :
      (send_ident body targets : List ℕ) (s : Server W) {t : Server W}
      → to_targets net send_ident body targets s ≡ some t
      → Misses g s.register targets
      → (t.register.registrations g ≡ s.register.registrations g)
        × (times_closed g t.register.closed ≡ times_closed g s.register.closed)
  to_targets_spares send_ident body targets s h m =
      let done = subst (After s.register) h (to_targets-After send_ident body targets s m) in
      (done.registration, done.open_still)
