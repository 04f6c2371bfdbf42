-- ===== src/Asm/Decoder/Runs.antt =====
-- What a sequence of calls of `try_next` returns.
use mathlib.Core.Path.{subst, ap₂}
use dis.Prelude.{
  ℕ, zero, suc, ◌+◌, ◌-◌, ◌≤◌, ◌<◌, ◌≡◌, refl, sym, ap, ◌∙◌, none, some, List, [], ◌∷◌, ◌++◌, arith,
  length, take, drop, length-drop,
}
use dis.Result.{Result, ok, err, panic}
use dis.SegOff.{Seg, SegOff}
use dis.Region.{RegionIter, base_addr}
use dis.Region.Keeps.{IsInside, Moved, Moved-refl, Moved-trans}
use dis.Region.Rollback.{here}
use dis.Asm.Instr.{Instr}
use dis.Asm.Decode.{Decoded, decode_one}
use dis.Asm.Decode.Decoded.{Outcome, at_end, decoded, failed, sreg_panic, decode_one-Outcome}
use dis.Asm.Decoder.{try_next, Run, done, call}

-- An instruction read from one iterator to another.
pub record IsRead (it : RegionIter) (ins : Instr) (raw : List ℕ) (mid : RegionIter) : Type 0 where
  pub moved : Moved it mid
  pub inside : IsInside mid
  pub progress : it.off < mid.off
  pub addr_eq : ins.addr ≡ here it
  pub n_bytes_eq : ins.n_bytes ≡ mid.off - it.off
  pub raw_eq : raw ≡ take (mid.off - it.off) (drop it.off it.mem)

abbrev IfRead : RegionIter → Result Decoded × RegionIter → Type 0
IfRead it (ok (some (ins, raw)), mid) = IsRead it ins raw mid
IfRead it (ok none, mid) = Unit
IfRead it (err e, mid) = Unit
IfRead it (panic p, mid) = Unit

Outcome-IfRead :
    (it : RegionIter) (out : Result Decoded × RegionIter) → Outcome it out → IfRead it out
Outcome-IfRead it _ (at_end e) = tt
Outcome-IfRead it _ (decoded b it' m h lt) = record {
  moved = m;
  inside = h;
  progress = lt;
  addr_eq = refl;
  n_bytes_eq = refl;
  raw_eq = refl;
}
Outcome-IfRead it _ (failed e) = tt
Outcome-IfRead it _ (sreg_panic it') = tt

pub try_next-IsRead :
    (it mid : RegionIter) (ins : Instr) (raw : List ℕ)
    → IsInside it
    → try_next it ≡ (ok (some (ins, raw)), mid)
    → IsRead it ins raw mid
unfolding try_next
try_next-IsRead it mid ins raw h e =
    subst (IfRead it) e (Outcome-IfRead it (decode_one it) (decode_one-Outcome it h))

-- The bytes of the instructions, put together.
abbrev pub all_bytes : List (Instr × List ℕ) → List ℕ
all_bytes [] = []
all_bytes ((ins, raw) ∷ rest) = raw ++ all_bytes rest

-- The address `n` bytes behind another one of the same segment.
abbrev pub behind : SegOff → ℕ → SegOff
behind a n = record { seg = a.seg; off = a.off + n }

-- Each instruction stands where the one before it ends, in the same segment.
abbrev pub IsContiguous : SegOff → List (Instr × List ℕ) → Type 0
IsContiguous a [] = Unit
IsContiguous a ((ins, raw) ∷ rest) = (ins.addr ≡ a) × IsContiguous (behind a ins.n_bytes) rest

pub record IsDisassembly (it : RegionIter) (out : List (Instr × List ℕ)) (it' : RegionIter)
    : Type 0 where
  pub moved : Moved it it'
  pub inside : IsInside it'
  pub bytes_eq : all_bytes out ≡ take (it'.off - it.off) (drop it.off it.mem)
  pub contiguous : IsContiguous (behind (base_addr it) it.off) out
  pub count : length out ≤ it'.off - it.off

module _ {A : Type 0} where
  take-nil : (n : ℕ) → take {A = A} n [] ≡ []
  take-nil zero = refl
  take-nil (suc n) = refl

  drop-nil : (n : ℕ) → drop {A = A} n [] ≡ []
  drop-nil zero = refl
  drop-nil (suc n) = refl

  take_sum : (m n : ℕ) (xs : List A) → take m xs ++ take n (drop m xs) ≡ take (m + n) xs
  take_sum zero n xs = ap (λ k. take k xs) (omega arith)
  take_sum (suc m) n [] = take-nil n ∙ sym (take-nil (suc m + n))
  take_sum (suc m) n (x ∷ xs) =
      let more : suc (m + n) ≡ suc m + n = omega arith in
      ap (λ l. x ∷ l) (take_sum m n xs) ∙ ap (λ k. take k (x ∷ xs)) more

  drop_sum : (m n : ℕ) (xs : List A) → drop n (drop m xs) ≡ drop (m + n) xs
  drop_sum zero n xs = ap (λ k. drop k xs) (omega arith)
  drop_sum (suc m) n [] = drop-nil n ∙ sym (drop-nil (suc m + n))
  drop_sum (suc m) n (x ∷ xs) =
      let more : suc (m + n) ≡ suc m + n = omega arith in
      drop_sum m n xs ∙ ap (λ k. drop k (x ∷ xs)) more

  -- Two neighbouring parts make one.
  parts :
      (a b c : ℕ) (xs : List A)
      → a ≤ b
      → b ≤ c
      → take (b - a) (drop a xs) ++ take (c - b) (drop b xs) ≡ take (c - a) (drop a xs)
  parts a b c xs h k =
      let place : a + (b - a) ≡ b = omega arith in
      let size : b - a + (c - b) ≡ c - a = omega arith in
      ap (λ l. take (b - a) (drop a xs) ++ take (c - b) l)
        (ap (λ n. drop n xs) (sym place) ∙ sym (drop_sum a (b - a) xs))
      ∙ take_sum (b - a) (c - b) (drop a xs)
      ∙ ap (λ n. take n (drop a xs)) size

IsDisassembly-done : (it : RegionIter) → IsInside it → IsDisassembly it [] it
IsDisassembly-done it h =
    let nothing : 0 ≡ it.off - it.off = omega arith in
    record {
      moved = Moved-refl it;
      inside = h;
      bytes_eq = ap (λ n. take n (drop it.off it.mem)) nothing;
      contiguous = tt;
      count = omega arith;
    }

IsDisassembly-call :
    (it mid it' : RegionIter) (ins : Instr) (raw : List ℕ) (rest : List (Instr × List ℕ))
    → IsRead it ins raw mid
    → IsDisassembly mid rest it'
    → IsDisassembly it ((ins, raw) ∷ rest) it'
IsDisassembly-call it mid it' ins raw rest r d =
    let next : mid.base_off + mid.off ≡ it.base_off + it.off + ins.n_bytes =
      omega (arith, r.moved.base_eq, r.n_bytes_eq, r.progress) in
    let place : behind (base_addr mid) mid.off ≡ behind (here it) ins.n_bytes =
      ap₂ (λ (s : Seg) (n : ℕ). record { seg = s; off = n }) r.moved.seg_eq next in
    record {
      moved = Moved-trans r.moved d.moved;
      inside = d.inside;
      bytes_eq =
          rw (r.raw_eq, d.bytes_eq, r.moved.mem_eq)
            (parts it.off mid.off it'.off it.mem (omega (arith, r.progress)) d.moved.forward);
      contiguous = (r.addr_eq, subst (λ a. IsContiguous a rest) place d.contiguous);
      count = omega (arith, d.count, r.progress, d.moved.forward);
    }

-- In a region of bytes that ends before its segment does, the instructions that successive calls of
-- `try_next` return carry together exactly the bytes between the first cursor and the last, in
-- order. Each stands at the address where the one before it ends, the first at the first cursor,
-- and there are no more of them than bytes.
pub Run-IsDisassembly :
    (it it' : RegionIter) (out : List (Instr × List ℕ))
    → IsInside it
    → Run it out it'
    → IsDisassembly it out it'
Run-IsDisassembly it _ _ h done = IsDisassembly-done it h
Run-IsDisassembly it it' _ h (call {mid = mid} {ins = ins} {raw = raw} {rest = rest} e r) =
    let read = try_next-IsRead it mid ins raw h e in
    IsDisassembly-call it mid it' ins raw rest read (Run-IsDisassembly mid it' rest read.inside r)

-- No instruction was returned.
abbrev pub IsStop : Result Decoded → Type 0
IsStop (ok (some read)) = ⊥
IsStop (ok none) = Unit
IsStop (err e) = Unit
IsStop (panic p) = Unit

pub record IsFinished (it : RegionIter) : Type 0 where
  pub out : List (Instr × List ℕ)
  pub last : RegionIter
  pub run : Run it out last
  pub stop : IsStop (try_next last).0

extend :
    (it : RegionIter) (o : Result Decoded × RegionIter)
    → IsInside it
    → try_next it ≡ o
    → ((mid : RegionIter) (ins : Instr) (raw : List ℕ) → IsRead it ins raw mid → IsFinished mid)
    → IsFinished it
extend it (ok (some (ins, raw)), mid) h e k =
    let rest = k mid ins raw (try_next-IsRead it mid ins raw h e) in
    record {
      out = (ins, raw) ∷ rest.out;
      last = rest.last;
      run = call e rest.run;
      stop = rest.stop;
    }
extend it (ok none, mid) h e k = record { out = []; last = it; run = done; stop = rw e tt }
extend it (err x, mid) h e k = record { out = []; last = it; run = done; stop = rw e tt }
extend it (panic x, mid) h e k = record { out = []; last = it; run = done; stop = rw e tt }

finish_within : (n : ℕ) (it : RegionIter) → IsInside it → length it.mem - it.off ≤ n → IsFinished it
finish_within zero it h le =
    extend it (try_next it) h refl
      λ mid ins raw r. absurd (omega (arith, r.progress, ap length r.moved.mem_eq, r.inside.cursor))
finish_within (suc n) it h le = extend it (try_next it) h refl λ mid ins raw r.
    finish_within n mid r.inside
      (omega (arith, r.progress, ap length r.moved.mem_eq, r.inside.cursor))

-- In a region of bytes that ends before its segment does, calling `try_next` again and again comes
-- to a call that returns no instruction.
pub Run-IsFinished : (it : RegionIter) → IsInside it → IsFinished it
Run-IsFinished it h = finish_within (length it.mem - it.off) it h (omega arith)

abbrev IfEnd : RegionIter → Result Decoded × RegionIter → Type 0
IfEnd it (ok none, mid) = it.off ≡ length it.mem
IfEnd it (ok (some read), mid) = Unit
IfEnd it (err e, mid) = Unit
IfEnd it (panic p, mid) = Unit

Outcome-IfEnd :
    (it : RegionIter) (out : Result Decoded × RegionIter) → Outcome it out → IfEnd it out
Outcome-IfEnd it _ (at_end e) = e
Outcome-IfEnd it _ (decoded b it' m h lt) = tt
Outcome-IfEnd it _ (failed e) = tt
Outcome-IfEnd it _ (sreg_panic it') = tt

try_next-none :
    (it mid : RegionIter) → IsInside it → try_next it ≡ (ok none, mid) → it.off ≡ length it.mem
unfolding try_next
try_next-none it mid h e =
    subst (IfEnd it) e (Outcome-IfEnd it (decode_one it) (decode_one-Outcome it h))

take-length : {A : Type 0} (xs : List A) → take (length xs) xs ≡ xs
take-length [] = refl
take-length (x ∷ xs) = ap (λ l. x ∷ l) (take-length xs)

-- In a region of bytes that ends before its segment does, if successive calls of `try_next` end
-- with one that reports the end, then the bytes of the instructions are together all bytes of the
-- region from the first cursor on.
pub Run-all_bytes :
    (it it' last : RegionIter) (out : List (Instr × List ℕ))
    → IsInside it
    → Run it out it'
    → try_next it' ≡ (ok none, last)
    → all_bytes out ≡ drop it.off it.mem
Run-all_bytes it it' last out h r e =
    let d = Run-IsDisassembly it it' out h r in
    let size : it'.off - it.off ≡ length (drop it.off it.mem) = omega (
      arith,
      try_next-none it' last d.inside e,
      ap length d.moved.mem_eq,
      length-drop it.off it.mem,
    ) in
    d.bytes_eq ∙ ap (λ n. take n (drop it.off it.mem)) size ∙ take-length (drop it.off it.mem)
