-- ===== src/Base/Effects.antt =====
-- Go functions that return `(T, error)` and touch the state: an error is its text, and the state
-- comes back beside it too.
use Prim.Native.String.{String}
use mathlib.Core.Path.{◌≡◌, refl}
use mathlib.Core.Logic.{◌⊎◌, inl, inr}
use store_order.Base.Text.{◌<>◌}

pub data Result {ℓ} (A : Type ℓ) : Type ℓ where
  ok : A → Result A
  err : String → Result A

abbrev pub Action : Type 0 → Type 0 → Type 0
Action S A = S → Result A × S

module _ {S A : Type 0} where
  abbrev pub pure : A → Action S A
  pure a s = (ok a, s)

  abbrev pub raise : String → Action S A
  raise e s = (err e, s)

  abbrev pub lift : Result A → Action S A
  lift r s = (r, s)

  -- the error, if there is one, as a value: `x, err := f()`
  abbrev pub attempt : Action S A → Action S (Result A)
  attempt m s = let (r, s') = m s in (ok r, s')

module _ {A : Type 0} where
  -- fmt.Errorf("text: %w", err)
  abbrev pub wrapped : String → Result A → Result A
  wrapped text (ok a) = ok a
  wrapped text (err e) = err (text <> ": " <> e)

module _ {S A : Type 0} where
  abbrev pub wrap : String → Action S A → Action S A
  wrap text m s = let (r, s') = m s in (wrapped text r, s')

module _ {A B S : Type 0} where
  abbrev pub continue : Result A → (A → Action S B) → Action S B
  continue (ok a) f s = f a s
  continue (err e) f s = (err e, s)

  infixl 10 ◌>>=◌ ◌>>◌
  abbrev pub ◌>>=◌ : Action S A → (A → Action S B) → Action S B
  ◌>>=◌ m f s = let (r, s') = m s in continue r f s'

  abbrev pub ◌>>◌ : Action S A → Action S B → Action S B
  m >> n = m >>= λ _. n

-- What a run of two steps that succeeds went through.
pub Result-cases {ℓ} :
    {A : Type ℓ} (r : Result A) → ((a : A) × (r ≡ ok a)) ⊎ ((e : String) × (r ≡ err e))
Result-cases (ok a) = inl (a, refl)
Result-cases (err e) = inr (e, refl)

module _ {A B S : Type 0} where
  pub continue-ok :
      (r : Result A) (f : A → Action S B) (s : S) {b : B}
      → (continue r f s).0 ≡ ok b
      → (a : A) × (r ≡ ok a) × ((f a s).0 ≡ ok b) × ((continue r f s).1 ≡ (f a s).1)
  continue-ok (ok a) f s h = (a, refl, h, refl)
  continue-ok (err e) f s h = cc

pub wrapped-ok :
    {A : Type 0} (text : String) (r : Result A) {a : A} → wrapped text r ≡ ok a → r ≡ ok a
wrapped-ok text (ok a) h = h
wrapped-ok text (err e) h = cc

pub ok_inj : {A : Type 0} {a b : A} → ok a ≡ ok b → a ≡ b
ok_inj h = cc

module _ {A B S : Type 0} where
  -- a run whose second step only returns
  pub continue-pure :
      (r : Result A) (g : A → B) (s : S) {b : B}
      → (continue r (λ a. pure (g a)) s).0 ≡ ok b
      → (a : A) × (r ≡ ok a) × (g a ≡ b) × ((continue r (λ a. pure (g a)) s).1 ≡ s)
  continue-pure (ok a) g s h = (a, refl, ok_inj h, refl)
  continue-pure (err e) g s h = cc
