-- ===== src/Prelude/Exec.antt =====
-- Asynchronous functions that read and write a state and may throw: the state comes back beside a
-- thrown error too, since what was written before a throw stays written.

pub data Result {ℓ κ} (E : Type ℓ) (A : Type κ) : Type (ℓ ⊔ κ) where
  ok : A → Result E A
  throw : E → Result E A

abbrev pub Exec {ℓ} : Type ℓ → Type ℓ → Type ℓ → Type ℓ
Exec S E A = S → Result E A × S

module _ {ℓ} {S E A : Type ℓ} where
  abbrev pub pure : A → Exec S E A
  pure a s = (ok a, s)

  abbrev pub raise : E → Exec S E A
  raise e s = (throw e, s)

  abbrev pub gets : (S → A) → Exec S E A
  gets f s = (ok (f s), s)

module _ {ℓ} {S E A B : Type ℓ} where
  abbrev pub continue : Result E A → (A → Exec S E B) → Exec S E B
  continue (ok a) f s = f a s
  continue (throw e) f s = (throw e, s)

  infixl 10 ◌>>=◌ ◌>>◌
  abbrev pub ◌>>=◌ : Exec S E A → (A → Exec S E B) → Exec S E B
  ◌>>=◌ m f s = continue (m s).0 f (m s).1

  abbrev pub ◌>>◌ : Exec S E A → Exec S E B → Exec S E B
  m >> n = m >>= λ _. n

module _ {ℓ} {S E A : Type ℓ} where
  -- `try m catch (err) handler err`
  abbrev pub caught : Result E A → (E → Exec S E A) → Exec S E A
  caught (ok a) handler s = (ok a, s)
  caught (throw e) handler s = handler e s

  abbrev pub try_catch : Exec S E A → (E → Exec S E A) → Exec S E A
  try_catch m handler s = caught (m s).0 handler (m s).1
