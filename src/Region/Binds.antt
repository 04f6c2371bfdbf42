-- ===== src/Region/Binds.antt =====
-- Blocks of the monad of dis86/src/region.rs whose later steps use what an earlier step read.
use dis.Prelude.{
  ℕ, ◌+◌, ◌<◌, ◌^◌, ◌≡◌, refl, true, Option, none, some, arith, ltb, ltb→lt, get_elem?,
  all-get_elem?, ◌∙◌,
}
use mathlib.Core.Path.{fun_ext}
use dis.Result.{Result, ok, err, panic}
use dis.Region.{
  RegionIter, M, pure, lift, ask, ◌>>=◌, ◌>>◌, continue, fetch, advance, advance_by, peek_checked,
}
use dis.Region.Fetch.{fetch_lem, fetch_result, fetched}
use dis.Region.Keeps.{
  IsInside, IsQuiet, Acts, Safe, Moved-trans, stays, fetched-Acts, byte_or_end, peek_checked_inside,
  advance_inside,
}

-- The rest of the block may use that a byte was read.
after_byte :
    {B : Type 0} (it : RegionIter) (o : Option ℕ) (f : ℕ → M B)
    → IsInside it
    → get_elem? it.mem it.off ≡ o
    → ((b : ℕ) → b < 2 ^ 8 → Safe (f b))
    → Acts it (continue (fetched it o) f)
after_byte it none f h e q = unfold fetched in stays it _ h tt
after_byte it (some b) f h e q =
    let fit : b < 2 ^ 8 =
      ltb→lt b (2 ^ 8) (all-get_elem? (λ c. ltb c (2 ^ 8)) it.mem it.off b h.bytes e) in
    let first = fetched-Acts it (some b) h e in
    let rest = (q b fit).at (fetched it (some b)).1 first.inside in
    unfold fetched in
    record { moved = Moved-trans first.moved rest.moved; inside = rest.inside; quiet = rest.quiet }

pub fetch_inside : (it : RegionIter) → IsInside it → fetch it ≡ fetched it (get_elem? it.mem it.off)
unfolding fetch_result
fetch_inside it h =
    let no_wrap : ltb (it.base_off + it.off) (2 ^ 16) ≡ true = ground arith in
    fetch_lem it (omega arith) (omega arith) ∙ (rw no_wrap)

pub Safe-bind_byte :
    {B : Type 0} (f : ℕ → M B) → ((b : ℕ) → b < 2 ^ 8 → Safe (f b)) → Safe (fetch >>= f)
unfolding ◌>>=◌
Safe-bind_byte f q = record { at = λ it h. rw (fetch_inside it h) (after_byte it _ f h refl q) }

-- The rest of the block may use what a computed result is.
pub Safe-bind_lift :
    {A B : Type 0} (r : Result A) (f : A → M B)
    → IsQuiet r
    → ((a : A) → r ≡ ok a → Safe (f a))
    → Safe (lift r >>= f)
unfolding ◌>>=◌
Safe-bind_lift (ok a) f q k = record { at = λ it h. (k a refl).at it h }
Safe-bind_lift (err e) f q k = record { at = λ it h. stays it (err e) h tt }
Safe-bind_lift (panic p) f q k = record { at = λ it h. stays it (panic p) h q }

pub bind_assoc :
    {A B C : Type 0} (m : M A) (f : A → M B) (g : B → M C)
    → ((m >>= f) >>= g) ≡ (m >>= λ a. f a >>= g)
unfolding ◌>>=◌
bind_assoc {A} {B} {C} m f g = fun_ext λ it. cases (m it)
  where
    cases :
        (o : Result A × RegionIter)
        → continue (continue o f) g ≡ continue o (λ a it'. continue (f a it') g)
    cases (ok a, it') = refl
    cases (err e, it') = refl
    cases (panic p, it') = refl

pub pure-bind : {A B : Type 0} (a : A) (f : A → M B) → (pure a >>= f) ≡ f a
unfolding ◌>>=◌
pure-bind a f = refl

after_peek :
    {B : Type 0} (it : RegionIter) (o : Option ℕ) (f : ℕ → M B)
    → IsInside it
    → get_elem? it.mem it.off ≡ o
    → ((b : ℕ) → Safe (f b))
    → Acts it (continue (byte_or_end o, it) (λ b. advance >> f b))
after_peek it none f h e q = stays it _ h tt
after_peek it (some b) f h e q =
    unfold ◌>>=◌ advance advance_by in
    let first = advance_inside it b h e in
    let rest =
      (q b).at (record it { off = it.off + 1 }) (unfold advance advance_by in first.inside) in
    record {
      moved = Moved-trans (unfold advance advance_by in first.moved) rest.moved;
      inside = rest.inside;
      quiet = rest.quiet;
    }

-- A byte that was peeked at can be passed.
pub Safe-peek_advance :
    {B : Type 0} (f : ℕ → M B)
    → ((b : ℕ) → Safe (f b))
    → Safe (ask peek_checked >>= λ b. advance >> f b)
unfolding ◌>>=◌
Safe-peek_advance f q = record {
  at = λ it h.
      rw (peek_checked_inside it (get_elem? it.mem it.off) h refl)
        (unfold ◌>>=◌ in after_peek it _ f h refl q);
}
