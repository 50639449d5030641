-- ===== src/Connection/Monad.antt =====
-- Actions on a connection. A `check` that fails, a `sentinel` and an `error_unless` jump to the
-- label `error` of their function: the result `none`.
use mongrel.Prelude.{Bool, Option, none, some, ◌∷◌, if◌then◌else◌}
use mongrel.Connection.{Connection, Effect}

abbrev pub M : Type 0 → Type 0 → Type 0
M W A = Connection W → Option A × Connection W

infixl 5 ◌>>=◌ ◌>>◌
unfoldable pub ◌>>=◌ : {W A B : Type 0} → M W A → (A → M W B) → M W B
◌>>=◌ m f c = let (r, c') = m c in elim r [ none ↦ (none, c') | some a ↦ f a c' ]

abbrev pub ◌>>◌ : {W B : Type 0} → M W (Unit {0}) → M W B → M W B
m >> k = m >>= λ _. k

module _ {W : Type 0} where
  abbrev pub pure : {A : Type 0} → A → M W A
  pure a c = (some a, c)

  abbrev pub fail : {A : Type 0} → M W A
  fail c = (none, c)

  abbrev pub check : Bool → M W (Unit {0})
  check b c = if b then (some tt, c) else (none, c)

  abbrev pub modify : (Connection W → Connection W) → M W (Unit {0})
  modify f c = (some tt, f c)

  abbrev pub gets : {A : Type 0} → (Connection W → A) → M W A
  gets f c = (some (f c), c)

  abbrev pub when : Bool → M W (Unit {0}) → M W (Unit {0})
  when b m c = if b then m c else (some tt, c)

  -- an effect is kept
  abbrev pub log : Effect → M W (Unit {0})
  log e c = (some tt, record c { effects = e ∷ c.effects })

  -- a call of the outside
  abbrev pub ask : {A : Type 0} → (W → A × W) → M W A
  ask f c = let (a, w) = f c.world in (some a, record c { world = w })

  -- an `Option` that is checked for NULL
  abbrev pub need : {A : Type 0} → Option A → M W A
  need o c = (o, c)
