-- ===== src/Prelude/Act.antt =====
-- Effects of the program as values: an action runs in a world `W`, returns a result or an error, and
-- emits events `V`, which the proofs read in the order in which they were emitted. What was emitted
-- before an error stays emitted.

use mathlib.Core.Path.{◌≡◌, refl}
use mathlib.Core.List.{List, [], ◌∷◌, ◌++◌}
use native.Mathlib.Omega.{arith}
use ai_agent_cloud_runtime.Prelude.Results.{Result, ok, err}
use ai_agent_cloud_runtime.Prelude.Text.{Text}

abbrev pub Act : Type 0 → Type 0 → Type 0 → Type 0
Act V W A = W → Result Text A × List V × W

module _ {V W A : Type 0} where
  abbrev pub pure : A → Act V W A
  pure a w = (ok a, [], w)

  abbrev pub raise : Text → Act V W A
  raise e w = (err e, [], w)

  -- a call of an operation that the program does not implement
  abbrev pub call : (W → A × W) → Act V W A
  call op w = let (a, w') = op w in (ok a, [], w')

  -- `res, err := m`: the error is a value of the caller
  abbrev pub try : Act V W A → Act V W (Result Text A)
  try m w = let (r, es, w') = m w in (ok r, es, w')

abbrev pub emit : {V W : Type 0} → V → Act V W (Unit {0})
emit v w = (ok tt, v ∷ [], w)

module _ {V W A B : Type 0} where
  abbrev pub continue : Result Text A → List V → (A → Act V W B) → Act V W B
  continue (ok a) es f w = let (r, fs, w') = f a w in (r, es ++ fs, w')
  continue (err e) es f w = (err e, es, w)

  infixl 5 ◌>>=◌ ◌>>◌
  unfoldable pub ◌>>=◌ : Act V W A → (A → Act V W B) → Act V W B
  ◌>>=◌ m f w = let (r, es, w') = m w in continue r es f w'

  abbrev pub ◌>>◌ : Act V W A → Act V W B → Act V W B
  m >> n = m >>= λ _. n

module _ {V W A B : Type 0} where
  -- A composition that succeeds is a success of both parts.
  pub >>=-ok :
      (m : Act V W A) (f : A → Act V W B) (w : W) {b : B} {es : List V} {w' : W}
      → (m >>= f) w ≡ (ok b, es, w')
      → (a : A) × (fs : List V) × (v : W) × (gs : List V) × (m w ≡ (ok a, fs, v))
        × (f a v ≡ (ok b, gs, w'))
  unfolding ◌>>=◌
  >>=-ok m f w {b} {es} {w'} h = go (m w) refl h
    where
      go :
          (r : Result Text A × List V × W)
          → m w ≡ r
          → continue r.0 r.1 f r.2 ≡ (ok b, es, w')
          → (a : A) × (fs : List V) × (v : W) × (gs : List V) × (m w ≡ (ok a, fs, v))
            × (f a v ≡ (ok b, gs, w'))
      go (ok a, fs, v) e k = (a, fs, v, (f a v).1, e, ground arith)
      go (err x, fs, v) e k = cc

  -- Two continuations that agree make the same composition.
  pub >>=-cong :
      (m : Act V W A) (f g : A → Act V W B) (w : W)
      → ((a : A) (v : W) → f a v ≡ g a v)
      → (m >>= f) w ≡ (m >>= g) w
  unfolding ◌>>=◌
  >>=-cong m f g w h = go (m w)
    where
      go : (r : Result Text A × List V × W) → continue r.0 r.1 f r.2 ≡ continue r.0 r.1 g r.2
      go (ok a, fs, v) = rw (h a v)
      go (err x, fs, v) = refl

pub pure-ok :
    {V W A : Type 0} (a b : A) (w w' : W) (es : List V)
    → pure a w ≡ (ok b, es, w')
    → (a ≡ b) × (w ≡ w')
pure-ok a b w w' es h = ground arith
