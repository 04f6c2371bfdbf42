-- ===== src/Decompile/Opt/Halves.antt =====
-- The two halves of 32-bit values in dis86/src/decompile/opt.rs: what a match of the passes shows,
-- and the value that is put together again.
use mathlib.Core.List.{map}
use mathlib.Core.Path.{subst, ap₂}
use dis.Prelude.{
  ℕ, ◌+◌, ◌-◌, ◌*◌, ◌/◌, ◌%◌, ◌<◌, ◌^◌, ◌≡◌, ◌≢◌, ◌⊎◌, inl, inr, refl, sym, ap, ◌∙◌, Bool, true,
  false, none, some, arith, Bool-cases, if◌then◌else◌, ltb, get_elem?, all-get_elem?, Option-cases,
}
use dis.Result.{Result, ok}
use dis.Decompile.Ir.Opcode.{Opcode}
use dis.Decompile.Ir.Def.{Ref, const, instr, Instr, Ir}
use dis.Decompile.Ir.Methods.{instr_matches}
use dis.Decompile.Ir.Value.{
  find_instr, Valuation, value, is_valid, IsWellFormed, arity, eval, eval_1, eval_2, Equation,
}
use dis.Decompile.Ir.Rewrite.{instr_at_lem, is_some-eq-true, eq_or_ne, some-injective}
use dis.Decompile.Ir.Changed.{SatisfiesBut}
use dis.Decompile.Ir.Consts.{lt_of_ltb}
use dis.Decompile.Opt.Wide.{is_make32, is_upper16, is_lower16, is_signext32, or_continue}
use dis.Decompile.Opt.Walk.{Keeps, Keeps-refl}
use dis.Decompile.Opt.Replace.{IsUnary, IsFine-IsUnary, IsBinary, eval_binary, eval_unary}

pub is_make32-eq : (o : Opcode) → is_make32 o ≡ true → o ≡ Opcode.make32
is_make32-eq Opcode.make32 h = refl
is_make32-eq _ h = absurd (cc)

pub is_upper16-eq : (o : Opcode) → is_upper16 o ≡ true → o ≡ Opcode.upper16
is_upper16-eq Opcode.upper16 h = refl
is_upper16-eq _ h = absurd (cc)

pub is_lower16-eq : (o : Opcode) → is_lower16 o ≡ true → o ≡ Opcode.lower16
is_lower16-eq Opcode.lower16 h = refl
is_lower16-eq _ h = absurd (cc)

pub is_signext32-eq : (o : Opcode) → is_signext32 o ≡ true → o ≡ Opcode.sign_ext_to32
is_signext32-eq Opcode.sign_ext_to32 h = refl
is_signext32-eq _ h = absurd (cc)

pub arity_make32 : arity Opcode.make32 ≡ some 2
unfolding arity
arity_make32 = refl

pub arity_upper16 : arity Opcode.upper16 ≡ some 1
unfolding arity
arity_upper16 = refl

pub arity_lower16 : arity Opcode.lower16 ≡ some 1
unfolding arity
arity_lower16 = refl

pub arity_signext32 : arity Opcode.sign_ext_to32 ≡ some 1
unfolding arity
arity_signext32 = refl

-- The reference of an instruction whose opcode passes a test.
pub record IsMatch (ir : Ir) (r : Ref) (test : Opcode → Bool) (x : Instr) : Type 0 where
  pub b : ℕ
  pub i : ℕ
  pub at : r ≡ instr b i
  pub found : find_instr ir b i ≡ some x
  pub passes : test x.opcode ≡ true

pub instr_matches_lem :
    (ir : Ir) (r : Ref) (test : Opcode → Bool)
    → IsWellFormed ir
    → is_valid ir r ≡ true
    → (instr_matches ir r test ≡ ok none)
      ⊎ ((x : Instr) × (instr_matches ir r test ≡ ok (some x)) × IsMatch ir r test x)
unfolding instr_matches
instr_matches_lem ir (instr b i) test w h =
    let x = is_some-eq-true (find_instr ir b i) h in
    elim (Bool-cases (test x.0.opcode)) [
      | inl e ↦ inr (
        x.0,
        rw (instr_at_lem ir b i x.0 w x.1, e) refl,
        record { b = b; i = i; at = refl; found = x.1; passes = e },
      )
      | inr e ↦ inl (rw (instr_at_lem ir b i x.0 w x.1, e) refl)
    ]
instr_matches_lem ir (const n) test w h = inl refl
instr_matches_lem ir _ test w h = inl refl

-- A step that goes on only at a match.
pub Keeps-matches :
    (ir : Ir) (r : Ref) (test : Opcode → Bool) (f : Instr → Result Ir)
    → IsWellFormed ir
    → is_valid ir r ≡ true
    → ((x : Instr) → IsMatch ir r test x → Keeps ir (f x))
    → Keeps ir (or_continue ir (instr_matches ir r test) f)
Keeps-matches ir r test f w h g = elim (instr_matches_lem ir r test w h) [
  | inl e ↦ rw e (Keeps-refl ir w)
  | inr m ↦ rw m.1 (g m.0 m.2)
]

pub value_small :
    (ir : Ir) (val : Valuation) (r : Ref)
    → IsWellFormed ir
    → ((s : Ref) → val s < 2 ^ 32)
    → value ir val r < 2 ^ 32
value_small ir val (const n) w s = elim (Option-cases (get_elem? ir.consts n)) [
  | inl e ↦ rw e (omega arith)
  | inr e ↦ rw e.1 (
      let k =
        lt_of_ltb e.0 (2 ^ 16) (all-get_elem? (λ v. ltb v (2 ^ 16)) ir.consts n e.0 w.words e.1) in
      omega arith)
]
value_small ir val r w s = s r

-- A match has another opcode, so it is another instruction.
pub differs :
    (ir : Ir) (b i : ℕ) (x : Instr) (r : Ref) (test : Opcode → Bool) (u : Instr)
    (m : IsMatch ir r test u)
    → find_instr ir b i ≡ some x
    → test x.opcode ≡ false
    → (b ≢ m.b) ⊎ (i ≢ m.i)
differs ir b i x r test u m e n = elim (eq_or_ne b m.b) [
  | inl same ↦ elim (eq_or_ne i m.i) [
    | inl here ↦ absurd (
        let eq : x ≡ u = some-injective (sym e ∙ ap₂ (find_instr ir) same here ∙ m.found) in
        let clash : true ≡ false = sym m.passes ∙ ap (λ (t : Instr). test t.opcode) (sym eq) ∙ n in
        cc)
    | inr n' ↦ inr n'
  ]
  | inr n' ↦ inl n'
]

-- A match of one operand has the value that it computes.
pub unary_value :
    (ir : Ir) (b i : ℕ) (x : Instr) (r : Ref) (test : Opcode → Bool) (u : Instr)
    (m : IsMatch ir r test u) (p : IsUnary ir u) (op : Opcode) (val : Valuation) (k : ℕ)
    → SatisfiesBut ir b i val
    → find_instr ir b i ≡ some x
    → test x.opcode ≡ false
    → u.opcode ≡ op
    → eval_1 op (value ir val p.src) ≡ some k
    → value ir val r ≡ k
unary_value ir b i x r test u m p op val k s e n o h =
    let computes = s.computes m.b m.i u m.found (differs ir b i x r test u m e n) in
    ap (value ir val) m.at
    ∙ subst (Equation (val (instr m.b m.i))) (eval_unary ir val u p op o ∙ h) computes

signext_arith :
    (a b s v : ℕ)
    → b ≡ s
    → a ≡ v / 2 ^ 16 % 2 ^ 16
    → v ≡ (if ltb (s % 2 ^ 16) (2 ^ 15) then s % 2 ^ 16 else s % 2 ^ 16 + (2 ^ 32 - 2 ^ 16))
    → a % 2 ^ 16 * 2 ^ 16 + b % 2 ^ 16 ≡ v
signext_arith a b s v p q r = ground arith

halves_arith :
    (a b s v : ℕ)
    → v ≡ s
    → a ≡ v / 2 ^ 16 % 2 ^ 16
    → b ≡ s % 2 ^ 16
    → v < 2 ^ 32
    → a % 2 ^ 16 * 2 ^ 16 + b % 2 ^ 16 ≡ v
halves_arith a b s v p q r l = omega arith

module _ (ir : Ir) (b i : ℕ) (x : Instr) (w : IsWellFormed ir) (e : find_instr ir b i ≡ some x)
    (o : x.opcode ≡ Opcode.make32) where
  pub unary :
      (u : Instr) (r : Ref) (test : Opcode → Bool) (op : Opcode)
      → IsMatch ir r test u
      → u.opcode ≡ op
      → arity op ≡ some 1
      → IsUnary ir u
  unary u r test op m q a = IsFine-IsUnary ir u op (w.fine m.b m.i u m.found) q a

  other : (test : Opcode → Bool) → test Opcode.make32 ≡ false → test x.opcode ≡ false
  other test h = ap test o ∙ h

  pub signext_value :
      (p : IsBinary ir x) (u s : Instr) (mu : IsMatch ir p.lhs is_upper16 u) (pu : IsUnary ir u)
      (ms : IsMatch ir pu.src is_signext32 s) (ps : IsUnary ir s) (val : Valuation)
      → p.rhs ≡ ps.src
      → SatisfiesBut ir b i val
      → eval x (map (value ir val) x.operands) ≡ some (value ir val pu.src)
  unfolding eval_1 eval_2
  signext_value p u s mu pu ms ps val same but =
      let wide =
        unary_value ir b i x pu.src is_signext32 s ms ps Opcode.sign_ext_to32 val
          (if ltb (value ir val ps.src % 2 ^ 16) (2 ^ 15)
            then value ir val ps.src % 2 ^ 16
            else value ir val ps.src % 2 ^ 16 + (2 ^ 32 - 2 ^ 16))
          but e (other is_signext32 refl) (is_signext32-eq s.opcode ms.passes) refl in
      let upper =
        unary_value ir b i x p.lhs is_upper16 u mu pu Opcode.upper16 val
          (value ir val pu.src / 2 ^ 16 % 2 ^ 16) but e (other is_upper16 refl)
          (is_upper16-eq u.opcode mu.passes) refl in
      let low = ap (value ir val) same in
      eval_binary ir val x p Opcode.make32 o
      ∙ ap some (
          signext_arith (value ir val p.lhs) (value ir val p.rhs) (value ir val ps.src)
            (value ir val pu.src) low upper wide)

  pub halves_value :
      (p : IsBinary ir x) (u l : Instr) (mu : IsMatch ir p.lhs is_upper16 u) (pu : IsUnary ir u)
      (ml : IsMatch ir p.rhs is_lower16 l) (pl : IsUnary ir l) (val : Valuation)
      → pu.src ≡ pl.src
      → SatisfiesBut ir b i val
      → eval x (map (value ir val) x.operands) ≡ some (value ir val pu.src)
  unfolding eval_1 eval_2
  halves_value p u l mu pu ml pl val same but =
      let upper =
        unary_value ir b i x p.lhs is_upper16 u mu pu Opcode.upper16 val
          (value ir val pu.src / 2 ^ 16 % 2 ^ 16) but e (other is_upper16 refl)
          (is_upper16-eq u.opcode mu.passes) refl in
      let lower =
        unary_value ir b i x p.rhs is_lower16 l ml pl Opcode.lower16 val
          (value ir val pl.src % 2 ^ 16) but e (other is_lower16 refl)
          (is_lower16-eq l.opcode ml.passes) refl in
      let src = ap (value ir val) same in
      let small = value_small ir val pu.src w but.small in
      eval_binary ir val x p Opcode.make32 o
      ∙ ap some (
          halves_arith (value ir val p.lhs) (value ir val p.rhs) (value ir val pl.src)
            (value ir val pu.src) src upper lower small)
