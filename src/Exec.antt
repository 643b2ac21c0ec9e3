-- ===== src/Exec.antt =====
-- Python methods that mutate an object and may raise. What was written before a raise stays
-- written, so that the state comes back beside the exception too.
pub mod Triple
pub mod Returns
use graphon.Prelude.{String, ◌≡◌, refl, List, [], ◌∷◌, Option, none, some}

-- The exception classes that the modelled code raises, with their arguments.
pub data Exception : Type 0 where
  key_error : String → Exception
  value_error : String → Exception
  runtime_error : String → Exception
  not_implemented_error : String → Exception
  type_error : String → Exception
  assertion_error : String → Exception
  -- ListOperatorError, which is a ValueError, and its subclasses.
  list_operator_error : String → Exception
  -- queue.Empty
  empty_error : Exception
  -- The interpreter's recursion limit.
  recursion_error : Exception

pub data Result {ℓ} (A : Type ℓ) : Type ℓ where
  ok : A → Result A
  err : Exception → Result A

abbrev pub Exec {ℓ} : Type ℓ → Type ℓ → Type ℓ
Exec State A = State → Result A × State

module _ {ℓ} {State A : Type ℓ} where
  abbrev pub pure : A → Exec State A
  pure a state = (ok a, state)

  abbrev pub raise : Exception → Exec State A
  raise e state = (err e, state)

  abbrev pub gets : (State → A) → Exec State A
  gets read state = (ok (read state), state)

  -- A value from a dictionary, whose absence is a KeyError.
  abbrev pub require : String → Option A → Exec State A
  require k none = raise (key_error k)
  require k (some a) = pure a

  abbrev pub from_result : Result A → Exec State A
  from_result r state = (r, state)

module _ {ℓ} {State A B : Type ℓ} where
  abbrev pub continue : Result A → (A → Exec State B) → Exec State B
  continue (ok a) next state = next a state
  continue (err e) next state = (err e, state)

  infixl 5 ◌>>=◌ ◌>>◌
  unfoldable pub ◌>>=◌ : Exec State A → (A → Exec State B) → Exec State B
  ◌>>=◌ action next state = let (r, state') = action state in continue r next state'

  abbrev pub ◌>>◌ : Exec State A → Exec State B → Exec State B
  action >> after = action >>= λ _. after

abbrev pub modify {ℓ} : {S : Type ℓ} → (S → S) → Exec S (Unit {ℓ})
modify f s = (ok tt, f s)

-- `for x in xs: body(x)`
unfoldable pub for_each {ℓ} : {S A : Type ℓ} → (A → Exec S (Unit {ℓ})) → List A → Exec S (Unit {ℓ})
unfolding ◌>>=◌
for_each body [] = pure tt
for_each body (x ∷ xs) = body x >> for_each body xs
