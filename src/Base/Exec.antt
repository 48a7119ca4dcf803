-- ===== src/Base/Exec.antt =====
-- Functions that change a state and may raise. What was committed before a raise stays.
use dev_tools_distribution_p.Base.Results.{Error, Result, ok, err}

abbrev pub Exec : Type 0 → Type 0 → Type 0
Exec S A = S → Result A × S

module _ {S A : Type 0} where
  abbrev pub pure : A → Exec S A
  pure a s = (ok a, s)

  abbrev pub raise : Error → Exec S A
  raise e s = (err e, s)

  abbrev pub lift : Result A → Exec S A
  lift r s = (r, s)

  -- A statement that raises is rolled back.
  abbrev pub settle : S → Result (A × S) → Result A × S
  settle s (ok (a, s')) = (ok a, s')
  settle s (err e) = (err e, s)

  abbrev pub transact : (S → Result (A × S)) → Exec S A
  transact m s = settle s (m s)

module _ {S A B : Type 0} where
  abbrev pub continue : Result A → (A → Exec S B) → S → Result B × S
  continue (ok a) f s = f a s
  continue (err e) f s = (err e, s)

  infixl 5 ◌>>=◌ ◌>>◌
  abbrev pub ◌>>=◌ : Exec S A → (A → Exec S B) → Exec S B
  ◌>>=◌ m f s = let (r, s') = m s in continue r f s'

  abbrev pub ◌>>◌ : Exec S A → Exec S B → Exec S B
  ◌>>◌ m n s = let (r, s') = m s in continue r (λ _. n) s'

  infixr 5 ◌⨟◌
  -- One after the other, where `>>` is that of the errors.
  abbrev pub ◌⨟◌ : Exec S A → Exec S B → Exec S B
  ◌⨟◌ m n s = let (r, s') = m s in continue r (λ _. n) s'
