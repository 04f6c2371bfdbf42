-- ===== src/Decompile/Opt/Snapshots.antt =====
-- Which references `operand_propagate` of dis86/src/decompile/opt.rs passes over, and where it stops.
use Prim.Native.Nat.{bit_and}
use mathlib.Core.Path.{subst}
use dis.Prelude.{
  ℕ, zero, suc, ◌+◌, ◌^◌, ◌≡◌, inl, inr, sym, ap, ◌∙◌, true, false, not, ◌||◌, some, List, [], ◌∷◌,
  arith, length, get_elem?, all-get_elem?, Bool-cases,
}
use dis.Result.{ok, ok-injective}
use dis.Decompile.Ir.Opcode.{Opcode}
use dis.Decompile.Ir.Def.{Ref, const, instr, Instr, Ir, ref_eq}
use dis.Decompile.Ir.Equality.{ref_eq_sound}
use dis.Decompile.Ir.Methods.{instr_at}
use dis.Decompile.Ir.Value.{find_instr, is_valid, IsWellFormed}
use dis.Decompile.Ir.Rewrite.{is_some-eq-true, some-injective}
use dis.Decompile.Opt.Replace.{IsFine-IsUnary, operand_at_0}
use dis.Decompile.Opt.Propagate.{
  is_ref, is_snapshot, contains_ref, propagate_from, operand_propagate, refs_of_blocks,
}
use dis.Decompile.Opt.Pigeonhole.{or_false, ref_eq_refl}
use dis.Decompile.Opt.Propagated.{
  stops, head-injective, is_ref-eq, arity_ref, or_right, propagate-stop, propagate-next,
}
use dis.Decompile.Opt.Propagation.{operand_propagate_lem, only_operand}

-- `r` is a reference instruction whose operand is `s`, with neither the attribute MATERIALISE
-- (bit 3) nor CALL_CONTRACT (bit 7).
abbrev pub Copies : Ir → Ref → Ref → Type 0
Copies ir (instr b i) s =
    (x : Instr) × (find_instr ir b i ≡ some x)
    × (x.opcode ≡ Opcode.ref)
    × (bit_and x.attrs (2 ^ 3 + 2 ^ 7) ≡ 0)
    × (x.operands ≡ s ∷ [])
Copies ir _ s = ⊥

-- From one reference to another over copies.
pub data Through (ir : Ir) : Ref → Ref → Type 0 where
  here : {r : Ref} → Through ir r r
  past : {r s t : Ref} → Copies ir r s → Through ir s t → Through ir r t

-- `r'` is reached from `r`, and is no copy, or one on a cycle of copies.
pub record IsEnd (ir : Ir) (r r' : Ref) : Type 0 where
  pub through : Through ir r r'
  pub stopped : (s : Ref) → Copies ir r' s → Through ir s r'

Through-snoc : {ir : Ir} {r s t : Ref} → Through ir r s → Copies ir s t → Through ir r t
Through-snoc here c = past c here
Through-snoc (past d p) c = past d (Through-snoc p c)

same_copy :
    (ir : Ir) (b i : ℕ) (s t : Ref) → Copies ir (instr b i) s → Copies ir (instr b i) t → s ≡ t
same_copy ir b i s t (x, e, _, _, p) (y, f, _, _, q) =
    head-injective (sym p ∙ ap (λ (z : Instr). z.operands) (some-injective (sym e ∙ f)) ∙ q)

not_snapshot : (x : Instr) → is_snapshot x ≡ false → bit_and x.attrs (2 ^ 3 + 2 ^ 7) ≡ 0
not_snapshot x h = ground arith

-- Every reference that was seen is a copy that leads to the current one.
abbrev Led : Ir → List Ref → Ref → Type 0
Led ir seen r = (q : Ref) → contains_ref seen q ≡ true → (s : Ref) × Copies ir q s × Through ir s r

Led-next :
    (ir : Ir) (seen : List Ref) (r s : Ref) → Led ir seen r → Copies ir r s → Led ir (r ∷ seen) s
unfolding contains_ref
Led-next ir seen r s led c q h = elim (Bool-cases (ref_eq r q)) [
  | inl e ↦
      subst (λ p. (t : Ref) × Copies ir p t × Through ir t s) (ref_eq_sound r q e) (s, c, here)
  | inr e ↦ let old = led q (ground (arith, h, e)) in (old.0, old.1, Through-snoc old.2 c)
]

only_seen :
    (seen : List Ref) (r : Ref) (x : Instr)
    → x.opcode ≡ Opcode.ref
    → bit_and x.attrs (2 ^ 3 + 2 ^ 7) ≡ 0
    → stops seen r x ≡ true
    → contains_ref seen r ≡ true
only_seen seen r x o z h = rw (o, z) at h

stopped_here :
    (ir : Ir) (seen : List Ref) (b i : ℕ) (x : Instr)
    → find_instr ir b i ≡ some x
    → Led ir seen (instr b i)
    → stops seen (instr b i) x ≡ true
    → IsEnd ir (instr b i) (instr b i)
stopped_here ir seen b i x e led h = record {
  through = here;
  stopped = λ s c.
      let same = some-injective (sym c.1 ∙ e) in
      let was_seen =
        only_seen seen (instr b i) x (subst (λ (y : Instr). y.opcode ≡ Opcode.ref) same c.2)
          (subst (λ (y : Instr). bit_and y.attrs (2 ^ 3 + 2 ^ 7) ≡ 0) same c.3) h in
      let next = led (instr b i) was_seen in
      subst (λ t. Through ir t (instr b i)) (same_copy ir b i next.0 s next.1 c) next.2;
}

IsEnd-past : {ir : Ir} {r s t : Ref} → Copies ir r s → IsEnd ir s t → IsEnd ir r t
IsEnd-past c p = record { through = past c p.through; stopped = p.stopped }

propagate_from-IsEnd :
    (fuel : ℕ) (ir : Ir) (seen : List Ref) (r r' : Ref)
    → IsWellFormed ir
    → is_valid ir r ≡ true
    → Led ir seen r
    → propagate_from fuel ir seen r ≡ ok r'
    → IsEnd ir r r'
unfolding propagate_from instr_at
propagate_from-IsEnd zero ir seen r r' w v led h = cc
propagate_from-IsEnd (suc fuel) ir seen (instr b i) r' w v led h =
    let x = is_some-eq-true (find_instr ir b i) v in
    elim (Bool-cases (stops seen (instr b i) x.0)) [
      | inl stop ↦
          subst (IsEnd ir (instr b i))
            (ok-injective (sym (propagate-stop fuel ir seen b i x.0 w x.1 stop) ∙ h))
            (stopped_here ir seen b i x.0 x.1 led stop)
      | inr next ↦
          let parts =
            or_false (not (is_ref x.0.opcode)) (is_snapshot x.0 || contains_ref seen (instr b i))
              next in
          let is_one : is_ref x.0.opcode ≡ true = ground (arith, parts.0) in
          let o = is_ref-eq x.0.opcode is_one in
          let plain =
            not_snapshot x.0
              (or_false (is_snapshot x.0) (contains_ref seen (instr b i)) parts.1).0 in
          let p = IsFine-IsUnary ir x.0 Opcode.ref (w.fine b i x.0 x.1) o arity_ref in
          let c : Copies ir (instr b i) p.src = (x.0, x.1, o, plain, p.operands) in
          IsEnd-past c (
            propagate_from-IsEnd fuel ir (instr b i ∷ seen) p.src r' w p.src_valid
              (Led-next ir seen (instr b i) p.src led c)
              (sym (
                  propagate-next fuel ir seen b i x.0 p.src w x.1 next
                    (operand_at_0 x.0 p.src [] p.operands))
                ∙ h))
    ]
propagate_from-IsEnd (suc fuel) ir seen (const n) r' w v led h =
    subst (IsEnd ir (const n)) (ok-injective h)
      (record { through = here; stopped = λ s c. absurd c })
propagate_from-IsEnd (suc fuel) ir seen r r' w v led h =
    subst (IsEnd ir r) (ok-injective h) (record { through = here; stopped = λ s c. absurd c })

contains_ref-get_elem? :
    (rs : List Ref) (n : ℕ) (r : Ref) → get_elem? rs n ≡ some r → contains_ref rs r ≡ true
unfolding contains_ref
contains_ref-get_elem? [] n r h = cc
contains_ref-get_elem? (s ∷ rs) zero r h =
    subst (λ t. (ref_eq s t || contains_ref rs t) ≡ true) (some-injective h)
      (ap (λ t. t || contains_ref rs s) (ref_eq_refl s))
contains_ref-get_elem? (s ∷ rs) (suc n) r h =
    or_right (ref_eq s r) (contains_ref rs r) (contains_ref-get_elem? rs n r h)

-- For an operand of an instruction of a well-formed representation `operand_propagate` returns a
-- reference that is reached from it over reference instructions which have neither the attribute
-- MATERIALISE nor CALL_CONTRACT, and which is no such instruction itself, unless it lies on a cycle
-- of them.
pub operand_propagate-IsEnd :
    (ir : Ir) (b i n : ℕ) (x : Instr) (r : Ref)
    → IsWellFormed ir
    → find_instr ir b i ≡ some x
    → get_elem? x.operands n ≡ some r
    → (r' : Ref) × (operand_propagate ir r ≡ ok r') × IsEnd ir r r'
unfolding operand_propagate contains_ref
operand_propagate-IsEnd ir b i n x r w e h =
    let v = all-get_elem? (is_valid ir) x.operands n r (w.fine b i x e).valid h in
    let run =
      operand_propagate_lem ir b i x w e r
        (only_operand ir b i x w e r (contains_ref-get_elem? x.operands n r h)) v in
    let fuel = suc (length (refs_of_blocks 0 ir.blocks)) in
    (run.0, run.1, propagate_from-IsEnd fuel ir [] r run.0 w v (λ q k. absurd (cc)) run.1)
