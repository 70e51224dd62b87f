-- ===== src/Base/Outcome.antt =====
-- What a call does: it returns a value, throws a C++ exception, has not returned within the
-- recursion depth that the model allows, or runs into undefined behaviour. Calls pass a state on, also where they throw.
use mathlib.Core.Path.{◌≡◌, ap}
use mathlib.Core.Option.{Option, none, some}

pub data Outcome {ℓ} (A : Type ℓ) : Type ℓ where
  done : A → Outcome A
  thrown : Outcome A
  unfinished : Outcome A
  undefined : Outcome A

abbrev pub M {ℓ κ} : Type ℓ → Type κ → Type (ℓ ⊔ κ)
M S A = S → Outcome A × S

abbrev pub pure {ℓ κ} : {S : Type ℓ} {A : Type κ} → A → M S A
pure a s = (done a, s)

abbrev pub throw {ℓ κ} : {S : Type ℓ} {A : Type κ} → M S A
throw s = (thrown, s)

abbrev pub diverge {ℓ κ} : {S : Type ℓ} {A : Type κ} → M S A
diverge s = (unfinished, s)

abbrev pub fault {ℓ κ} : {S : Type ℓ} {A : Type κ} → M S A
fault s = (undefined, s)

-- The next step of a call, from the outcome and the state of the one before.
abbrev pub continue {ℓ κ ι} :
    {S : Type ℓ} {A : Type κ} {B : Type ι} → (A → M S B) → Outcome A → S → Outcome B × S
continue f (done a) s = f a s
continue f thrown s = (thrown, s)
continue f unfinished s = (unfinished, s)
continue f undefined s = (undefined, s)

infixl 5 ◌>>=◌ ◌>>◌
abbrev pub ◌>>=◌ {ℓ κ ι} : {S : Type ℓ} {A : Type κ} {B : Type ι} → M S A → (A → M S B) → M S B
◌>>=◌ m f s = let r = m s in continue f r.0 r.1

abbrev pub ◌>>◌ {ℓ κ ι} : {S : Type ℓ} {A : Type κ} {B : Type ι} → M S A → M S B → M S B
m >> k = m >>= λ _. k

-- The step after one that has returned.
pub then_done {ℓ κ ι} :
    {S : Type ℓ} {A : Type κ} {B : Type ι} (m : M S A) (k : M S B) (s : S) {t : S} {a : A}
    → m s ≡ (done a, t)
    → (m >> k) s ≡ k t
then_done m k s e = ap (λ r. continue (λ _. k) r.0 r.1) e

-- An optional value that the source reads by a call which throws where there is none.
abbrev pub or_throw {ℓ κ} : {S : Type ℓ} {A : Type κ} → Option A → M S A
or_throw none s = (thrown, s)
or_throw (some a) s = (done a, s)
