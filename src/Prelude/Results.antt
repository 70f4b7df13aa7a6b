-- ===== src/Prelude/Results.antt =====
-- Python's exceptions: a result is a value or the exception that was raised. An action also
-- carries the state, which comes back after a raise too.
use mathlib.Core.Path.{◌≡◌, refl}
use mathlib.Core.Logic.{◌⊎◌, inl, inr}
use mathlib.Core.Bool.{Bool}
use ai_native_content_agency.Prelude.Tests.{if◌then◌else◌}

pub data Result (E : Type 0) (A : Type 0) : Type 0 where
  ok : A → Result E A
  err : E → Result E A

pub Result-cases :
    {E A : Type 0} (r : Result E A) → ((a : A) × (r ≡ ok a)) ⊎ ((e : E) × (r ≡ err e))
Result-cases (ok a) = inl (a, refl)
Result-cases (err e) = inr (e, refl)

infixl 5 ◌>>=◌ ◌>>◌
abbrev pub ◌>>=◌ : {E A B : Type 0} → Result E A → (A → Result E B) → Result E B
ok a >>= f = f a
err e >>= f = err e

abbrev pub ◌>>◌ : {E A B : Type 0} → Result E A → Result E B → Result E B
m >> k = m >>= λ _. k

-- `if test: raise e`
abbrev pub raise_if : {E : Type 0} → Bool → E → Result E (Unit {0})
raise_if b e = if b then err e else ok tt

-- The checks before a critical section; the section runs if they pass.
unfoldable pub guarded :
    {E A S : Type 0} → Result E (Unit {0}) → (S → Result E A × S) → S → Result E A × S
guarded (ok _) body s = body s
guarded (err e) body s = (err e, s)

module _ {E A S : Type 0} (c : Result E (Unit {0})) (body : S → Result E A × S) (s : S) where
  -- A state that both branches leave has what both have.
  pub guarded-kept : (P : S → Type 0) → P s → P (body s).1 → P (guarded c body s).1
  unfolding guarded
  guarded-kept P before after = elim (Result-cases c) [
    | inl (_, passed) ↦ rw passed after
    | inr (_, raised) ↦ rw raised before
  ]
