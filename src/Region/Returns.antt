-- ===== src/Region/Returns.antt =====
-- What the results of an action satisfy, one rule for each way to build an action.
use dis.Prelude.{◌≡◌, refl, Bool, true, false, if◌then◌else◌}
use dis.Result.{Result, ok, err, panic, Error, Panic}
use dis.Region.{RegionIter, M, pure, lift, ◌>>=◌, continue}

abbrev pub Holds : {A : Type 0} → (A → Type 0) → Result A × RegionIter → Type 0
Holds P (ok a, it) = P a
Holds P (err e, it) = Unit
Holds P (panic p, it) = Unit

-- Every result of `m` satisfies `P`.
pub record Returns {A : Type 0} (P : A → Type 0) (m : M A) : Type 0 where
  pub at : (it : RegionIter) → Holds P (m it)

module _ {A : Type 0} (P : A → Type 0) where
  pub Returns-pure : (a : A) → P a → Returns P (pure a)
  unfolding pure
  Returns-pure a h = record { at = λ it. h }

  pub Returns-err : (e : Error) → Returns P (lift (err e))
  unfolding lift
  Returns-err e = record { at = λ it. tt }

  pub Returns-panic : (p : Panic) → Returns P (lift (panic p))
  unfolding lift
  Returns-panic p = record { at = λ it. tt }

  pub Returns-if :
      (b : Bool) (m n : M A) → Returns P m → Returns P n → Returns P (if b then m else n)
  Returns-if true m n p q = p
  Returns-if false m n p q = q

  pub Returns-lem : (m : M A) (it it' : RegionIter) (a : A) → Returns P m → m it ≡ (ok a, it') → P a
  Returns-lem m it it' a r e = rw e at (r.at it)

module _ {A B : Type 0} (Q : A → Type 0) (P : B → Type 0) where
  pub Holds-continue :
      (out : Result A × RegionIter) (f : A → M B)
      → Holds Q out
      → ((a : A) → Q a → Returns P (f a))
      → Holds P (continue out f)
  Holds-continue (ok a, it) f h q = (q a h).at it
  Holds-continue (err e, it) f h q = tt
  Holds-continue (panic p, it) f h q = tt

  -- The rest of the block may use what is known of the first result.
  pub Returns-bind_with :
      (m : M A) (f : A → M B)
      → Returns Q m
      → ((a : A) → Q a → Returns P (f a))
      → Returns P (m >>= f)
  unfolding ◌>>=◌
  Returns-bind_with m f r q = record { at = λ it. Holds-continue (m it) f (r.at it) q }

module _ {A B : Type 0} (P : B → Type 0) where
  any-Holds : (out : Result A × RegionIter) → Holds (λ a. Unit {0}) out
  any-Holds (ok a, it) = tt
  any-Holds (err e, it) = tt
  any-Holds (panic p, it) = tt

  pub Returns-bind : (m : M A) (f : A → M B) → ((a : A) → Returns P (f a)) → Returns P (m >>= f)
  Returns-bind m f q =
      Returns-bind_with (λ a. Unit {0}) P m f (record { at = λ it. any-Holds (m it) }) (λ a _. q a)

  pub Returns-bind_lift :
      (r : Result A) (f : A → M B)
      → ((a : A) → r ≡ ok a → Returns P (f a))
      → Returns P (lift r >>= f)
  unfolding ◌>>=◌
  Returns-bind_lift (ok a) f k = record { at = λ it. (k a refl).at it }
  Returns-bind_lift (err e) f k = record { at = λ it. tt }
  Returns-bind_lift (panic p) f k = record { at = λ it. tt }

module _ {A : Type 0} (P Q : A → Type 0) (up : (a : A) → P a → Q a) where
  pub Holds-weaken : (out : Result A × RegionIter) → Holds P out → Holds Q out
  Holds-weaken (ok a, it) h = up a h
  Holds-weaken (err e, it) h = tt
  Holds-weaken (panic p, it) h = tt

  pub Returns-weaken : (m : M A) → Returns P m → Returns Q m
  Returns-weaken m r = record { at = λ it. Holds-weaken (m it) (r.at it) }
