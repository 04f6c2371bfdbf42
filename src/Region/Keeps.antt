-- ===== src/Region/Keeps.antt =====
-- Which actions stay inside a region that lies inside its segment, and how they may panic.
use dis.Prelude.{
  ℕ, ◌+◌, ◌≤◌, ◌<◌, ◌^◌, ◌≡◌, refl, true, false, Bool, Option, none, some, arith, ltb, length,
  get_elem?, all, length-le_of_none, lt-length_of_get_elem?, if◌then◌else◌, ◌∙◌,
}
use dis.Result.{Result, ok, err, panic, beyond_region, sreg_out_of_range}
use dis.SegOff.{add_offset}
use dis.Region.{
  RegionIter, M, pure, lift, ask, ◌>>=◌, continue, fetch, fetch_sext, fetch_u16, advance,
  advance_by, addr, end_addr, peek_checked,
}
use dis.Region.Fetch.{fetch_lem, fetch_result, fetched, peek_beyond, peek_inside}

-- The bytes are bytes, they end before the segment does, and the cursor is among them or just
-- behind.
pub record IsInside (it : RegionIter) : Type 0 where
  pub segment : it.base_off + length it.mem < 2 ^ 16
  pub cursor : it.off ≤ length it.mem
  pub bytes : all (λ b. ltb b (2 ^ 8)) it.mem ≡ true

-- The same region, with the cursor not further back.
pub record Moved (it it' : RegionIter) : Type 0 where
  pub mem_eq : it'.mem ≡ it.mem
  pub seg_eq : it'.base_seg ≡ it.base_seg
  pub base_eq : it'.base_off ≡ it.base_off
  pub forward : it.off ≤ it'.off

-- Of all panics only the assertion of `Reg::sreg16` is allowed.
abbrev pub IsQuiet {ℓ} : {A : Type ℓ} → Result A → Type 0
IsQuiet (ok a) = Unit
IsQuiet (err e) = Unit
IsQuiet (panic p) = p ≡ sreg_out_of_range

pub record Acts {A : Type 0} (it : RegionIter) (out : Result A × RegionIter) : Type 0 where
  pub moved : Moved it out.1
  pub inside : IsInside out.1
  pub quiet : IsQuiet out.0

-- From inside a region `m` only moves the cursor forward inside it.
pub record Safe {A : Type 0} (m : M A) : Type 0 where
  pub at : (it : RegionIter) → IsInside it → Acts it (m it)

pub Moved-refl : (it : RegionIter) → Moved it it
Moved-refl it = record { mem_eq = refl; seg_eq = refl; base_eq = refl; forward = omega arith }

pub Moved-trans : {a b c : RegionIter} → Moved a b → Moved b c → Moved a c
Moved-trans p q = record {
  mem_eq = q.mem_eq ∙ p.mem_eq;
  seg_eq = q.seg_eq ∙ p.seg_eq;
  base_eq = q.base_eq ∙ p.base_eq;
  forward = omega (arith, p.forward, q.forward);
}

pub stays :
    {A : Type 0} (it : RegionIter) (r : Result A) → IsInside it → IsQuiet r → Acts it (r, it)
stays it r h q = record { moved = Moved-refl it; inside = h; quiet = q }

pub Safe-pure : {A : Type 0} (a : A) → Safe (pure a)
unfolding pure
Safe-pure a = record { at = λ it h. stays it (ok a) h tt }

pub Safe-lift : {A : Type 0} (r : Result A) → IsQuiet r → Safe (lift r)
unfolding lift
Safe-lift r q = record { at = λ it h. stays it r h q }

after :
    {A B : Type 0} (it : RegionIter) (out : Result A × RegionIter) (f : A → M B)
    → Acts it out
    → ((a : A) → Safe (f a))
    → Acts it (continue out f)
after it (ok a, it') f p q =
    let s = (q a).at it' p.inside in
    record { moved = Moved-trans p.moved s.moved; inside = s.inside; quiet = s.quiet }
after it (err e, it') f p q = record { moved = p.moved; inside = p.inside; quiet = tt }
after it (panic e, it') f p q = record { moved = p.moved; inside = p.inside; quiet = p.quiet }

pub Safe-bind :
    {A B : Type 0} (m : M A) (f : A → M B) → Safe m → ((a : A) → Safe (f a)) → Safe (m >>= f)
unfolding ◌>>=◌
Safe-bind m f p q = record { at = λ it h. after it (m it) f (p.at it h) q }

pub Safe-if : {A : Type 0} (b : Bool) (m n : M A) → Safe m → Safe n → Safe (if b then m else n)
Safe-if true m n p q = p
Safe-if false m n p q = q

pub fetched-Acts :
    (it : RegionIter) (o : Option ℕ)
    → IsInside it
    → get_elem? it.mem it.off ≡ o
    → Acts it (fetched it o)
unfolding fetched
fetched-Acts it none h e = stays it _ h tt
fetched-Acts it (some b) h e =
    let below : it.off < length it.mem = lt-length_of_get_elem? it.mem it.off b e in
    record {
      moved = record { mem_eq = refl; seg_eq = refl; base_eq = refl; forward = omega arith };
      inside = record { segment = h.segment; cursor = omega arith; bytes = h.bytes };
      quiet = tt;
    }

fetch_result-Acts : (it : RegionIter) → IsInside it → Acts it (fetch_result it)
unfolding fetch_result
fetch_result-Acts it h =
    let no_wrap : ltb (it.base_off + it.off) (2 ^ 16) ≡ true = ground arith in
    rw no_wrap (fetched-Acts it _ h refl)

pub Safe-fetch : Safe fetch
Safe-fetch = record {
  at = λ it h. rw (fetch_lem it (omega arith) (omega arith)) (fetch_result-Acts it h);
}

pub ruleset safe_rules = (Safe-pure, Safe-lift, Safe-bind, Safe-if, Safe-fetch)

pub Safe-fetch_sext : Safe fetch_sext
unfolding fetch_sext
Safe-fetch_sext = search safe_rules

pub Safe-fetch_u16 : Safe fetch_u16
unfolding fetch_u16
Safe-fetch_u16 = search safe_rules

abbrev pub byte_or_end : Option ℕ → Result ℕ
byte_or_end none = err beyond_region
byte_or_end (some b) = ok b

pub peek_checked_inside :
    (it : RegionIter) (o : Option ℕ)
    → IsInside it
    → get_elem? it.mem it.off ≡ o
    → peek_checked it ≡ byte_or_end o
peek_checked_inside it none h e =
    peek_beyond it (omega arith) (omega arith) (length-le_of_none it.mem it.off e)
peek_checked_inside it (some b) h e =
    let below : it.off < length it.mem = lt-length_of_get_elem? it.mem it.off b e in
    peek_inside it b (omega arith, e)

-- Past a byte the cursor can advance.
pub advance_inside :
    (it : RegionIter) (b : ℕ)
    → IsInside it
    → get_elem? it.mem it.off ≡ some b
    → Acts it (advance it)
unfolding advance advance_by
advance_inside it b h e =
    let below : it.off < length it.mem = lt-length_of_get_elem? it.mem it.off b e in
    record {
      moved = record { mem_eq = refl; seg_eq = refl; base_eq = refl; forward = omega arith };
      inside = record { segment = h.segment; cursor = omega arith; bytes = h.bytes };
      quiet = tt;
    }

byte_or_end-IsQuiet : (o : Option ℕ) → IsQuiet (byte_or_end o)
byte_or_end-IsQuiet none = tt
byte_or_end-IsQuiet (some b) = tt

pub Safe-peek : Safe (ask peek_checked)
unfolding ask
Safe-peek = record {
  at = λ it h.
      stays it _ h
        (rw (peek_checked_inside it (get_elem? it.mem it.off) h refl) (byte_or_end-IsQuiet _));
}

-- Inside its segment a cursor has an address, and the region an end.
pub addr_inside :
    (it : RegionIter)
    → IsInside it
    → addr it ≡ ok (record { seg = it.base_seg; off = it.base_off + it.off })
unfolding addr add_offset
addr_inside it h = ground arith

pub end_addr_inside :
    (it : RegionIter)
    → IsInside it
    → end_addr it ≡ ok (record { seg = it.base_seg; off = it.base_off + length it.mem })
unfolding end_addr add_offset
end_addr_inside it h = ground arith

pub Safe-addr : Safe (ask addr)
unfolding ask
Safe-addr = record { at = λ it h. stays it _ h (rw (addr_inside it h) tt) }

pub Safe-end_addr : Safe (ask end_addr)
unfolding ask
Safe-end_addr = record { at = λ it h. stays it _ h (rw (end_addr_inside it h) tt) }

pub ruleset region_rules =
    (safe_rules, Safe-fetch_sext, Safe-fetch_u16, Safe-peek, Safe-addr, Safe-end_addr)
