-- ===== src/Outcome.antt =====
-- How a search ends: the result, the `Visited` and the entry that `CheckAndSet` failed for, an access
-- outside an array, or the fuel of one of its loops running out.
use sptag.Visited
use sptag.Visited.Growth.{IsValid}
use sptag.Base.{ℕ, ◌≡◌, refl, Bool, true, false, if◌then◌else◌, Option, none, some, List, get_elem?}
use sptag.Base.Int.{ℤ, pos, negsuc}
use sptag.Visited.{Visited}

pub data Outcome {ℓ} (A : Type ℓ) : Type ℓ where
  done : A → Outcome A
  overflow : Visited → ℕ → Outcome A
  fault out_of_fuel : Outcome A

-- `do` blocks over `Outcome`
infixl 5 ◌>>=◌
abbrev pub ◌>>=◌ {ℓ κ} : {A : Type ℓ} {B : Type κ} → Outcome A → (A → Outcome B) → Outcome B
done a >>= f = f a
overflow v x >>= f = overflow v x
fault >>= f = fault
out_of_fuel >>= f = out_of_fuel

-- an access that can be outside an array
abbrev pub checked {ℓ} : {A : Type ℓ} → Option A → Outcome A
checked none = fault
checked (some a) = done a

-- the access at a signed index
abbrev pub at {ℓ} : {A : Type ℓ} → List A → ℤ → Outcome A
at a (pos n) = checked (get_elem? a n)
at a (negsuc n) = fault

-- The computation ends in a result with `P`, or because `CheckAndSet` itself fails on the well-formed
-- set of visited vectors that it is called on.
pub data EndsIn {ℓ} (marks : ℕ) {A : Type ℓ} (P : A → Type 0) : Outcome A → Type ℓ where
  returns : {a : A} → P a → EndsIn marks P (done a)
  overflows :
      {v : Visited} {x : ℕ}
      → IsValid v
      → Visited.check_and_set marks v x ≡ none
      → EndsIn marks P (overflow v x)

module _ {marks : ℕ} where
  pub bind-EndsIn {ℓ κ} :
      {A : Type ℓ} {B : Type κ} {P : A → Type 0} {Q : B → Type 0} (m : Outcome A)
      (f : A → Outcome B)
      → EndsIn marks P m
      → ((a : A) → P a → EndsIn marks Q (f a))
      → EndsIn marks Q (m >>= f)
  bind-EndsIn (done a) f (returns p) next = next a p
  bind-EndsIn (overflow v x) f (overflows p e) next = overflows p e
  bind-EndsIn fault f ends next = elim ends [ ]
  bind-EndsIn out_of_fuel f ends next = elim ends [ ]

  -- the result is that of the computation
  pub known-EndsIn :
      {A : Type 0} {P : A → Type 0} (m : Outcome A)
      → EndsIn marks P m
      → EndsIn marks (λ a. P a × (m ≡ done a)) m
  known-EndsIn (done a) (returns p) = returns (p, refl)
  known-EndsIn (overflow v x) (overflows p e) = overflows p e
  known-EndsIn fault ends = elim ends [ ]
  known-EndsIn out_of_fuel ends = elim ends [ ]

  pub checked-EndsIn {ℓ} :
      {A : Type ℓ} {P : A → Type 0} (o : Option A) (a : A)
      → o ≡ some a
      → P a
      → EndsIn marks P (checked o)
  checked-EndsIn o a e p = rw e (returns p)

  pub weaken-EndsIn {ℓ} :
      {A : Type ℓ} {P Q : A → Type 0} (m : Outcome A)
      → EndsIn marks P m
      → ((a : A) → P a → Q a)
      → EndsIn marks Q m
  weaken-EndsIn (done a) (returns p) f = returns (f a p)
  weaken-EndsIn (overflow v x) (overflows p e) f = overflows p e
  weaken-EndsIn fault ends f = elim ends [ ]
  weaken-EndsIn out_of_fuel ends f = elim ends [ ]

  pub if-EndsIn {ℓ} :
      {A : Type ℓ} {P : A → Type 0} (b : Bool) (m n : Outcome A)
      → (b ≡ true → EndsIn marks P m)
      → (b ≡ false → EndsIn marks P n)
      → EndsIn marks P (if b then m else n)
  if-EndsIn true m n p q = p refl
  if-EndsIn false m n p q = q refl
