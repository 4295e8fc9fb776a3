-- ===== src/Exec.antt =====
-- Code that acts on a state and may raise. What was done before a raise stays done, so the state
-- comes back beside an error too.
use bnb_agent_marketplace.Errors.{Error, Result, ok, err}

abbrev pub Exec : Type 0 → Type 0 → Type 0
Exec W A = W → Result A × W

module _ {W : Type 0} where
  abbrev pub pure : {A : Type 0} → A → Exec W A
  pure a w = (ok a, w)

  abbrev pub lift : {A : Type 0} → Result A → Exec W A
  lift r w = (r, w)

  abbrev pub continue : {A B : Type 0} → Result A → (A → Exec W B) → Exec W B
  continue (ok a) f w = f a w
  continue (err e) f w = (err e, w)

  infixl 5 ◌>>=◌ ◌>>◌
  abbrev pub ◌>>=◌ : {A B : Type 0} → Exec W A → (A → Exec W B) → Exec W B
  ◌>>=◌ m f w = continue (m w).0 f (m w).1

  abbrev pub ◌>>◌ : {B : Type 0} → Exec W (Unit {0}) → Exec W B → Exec W B
  m >> k = m >>= λ _. k

  -- `try: m` with a handler that turns some errors into others.
  abbrev pub catch : {A : Type 0} → (Error → Error) → Exec W A → Exec W A
  catch f m w = (elim (m w).0 [ ok a ↦ ok a | err e ↦ err (f e) ], (m w).1)
