-- ===== src/Asm/InstrFmt/Checks.antt =====
-- What holds of the instruction table and its search.
use dis.Prelude.{
  ℕ, suc, ◌+◌, ◌*◌, ◌<◌, ◌≡◌, ◌≢◌, refl, sym, ap, ◌∙◌, ◌⊎◌, inl, inr, Bool, true, false, ◌&&◌,
  Option, none, some, List, [], ◌∷◌, arith, ltb, ltb→lt, ◌==◌, ==_iff, all, Bool-cases, &&-eq-true,
}
use dis.Asm.InstrFmt.Types.{InstrFmt}
use dis.Asm.InstrFmt.Table.{instr_tbl}
use dis.Asm.InstrFmt.Lookup.{fmt_ok, opt_eq, missing, lookup_from, lookup}

abbrev pub InTable : InstrFmt → List InstrFmt → Type 0
InTable f [] = ⊥
InTable f (g ∷ gs) = (f ≡ g) ⊎ InTable f gs

opt_eq_sound : (a b : Option ℕ) → opt_eq a b ≡ true → b ≡ a
opt_eq_sound none none h = refl
opt_eq_sound none (some b) h = cc
opt_eq_sound (some a) none h = cc
opt_eq_sound (some a) (some b) h = ground arith

opt_eq_refl : (a : Option ℕ) → opt_eq a a ≡ true
opt_eq_refl none = refl
opt_eq_refl (some a) = ground arith

-- A row that the search finds.
pub record IsFound (tbl : List InstrFmt) (op1 : ℕ) (op2 : Option ℕ) (f : InstrFmt) : Type 0 where
  pub op1_eq : f.op1 ≡ op1
  pub op2_eq : f.op2 ≡ op2
  pub in_table : InTable f tbl

later :
    {tbl : List InstrFmt} {op1 : ℕ} {op2 : Option ℕ} {f : InstrFmt} (g : InstrFmt)
    → IsFound tbl op1 op2 f
    → IsFound (g ∷ tbl) op1 op2 f
later g r = record { op1_eq = r.op1_eq; op2_eq = r.op2_eq; in_table = inr r.in_table }

fmt_ok-injective : {f g : InstrFmt} → fmt_ok f ≡ fmt_ok g → f ≡ g
fmt_ok-injective h = cc

here :
    (tbl : List InstrFmt) (op1 : ℕ) (op2 : Option ℕ) (f g : InstrFmt)
    → (op1 == g.op1) ≡ true
    → opt_eq op2 g.op2 ≡ true
    → f ≡ g
    → IsFound (g ∷ tbl) op1 op2 f
here tbl op1 op2 f g h k e = record {
  op1_eq = ground (arith, e);
  op2_eq = ap (λ (x : InstrFmt). x.op2) e ∙ opt_eq_sound op2 g.op2 k;
  in_table = inl e;
}

missing_err : (b : Bool) (op1 : ℕ) (op2 : Option ℕ) (f : InstrFmt) → missing b op1 op2 ≢ fmt_ok f
unfolding missing
missing_err b op1 op2 f = ground arith

-- One step of the search.
module _ (b : Bool) (g : InstrFmt) (gs : List InstrFmt) (op1 : ℕ) (op2 : Option ℕ) where
  step_other : (op1 == g.op1) ≡ false → lookup_from b (g ∷ gs) op1 op2 ≡ lookup_from b gs op1 op2
  unfolding lookup_from
  step_other e = rw (e, lookup_from)

  step_group :
      (op1 == g.op1) ≡ true
      → opt_eq op2 g.op2 ≡ false
      → lookup_from b (g ∷ gs) op1 op2 ≡ lookup_from true gs op1 op2
  unfolding lookup_from
  step_group e f = rw (e, f, lookup_from)

  step_found :
      (op1 == g.op1) ≡ true → opt_eq op2 g.op2 ≡ true → lookup_from b (g ∷ gs) op1 op2 ≡ fmt_ok g
  unfolding lookup_from
  step_found e f = rw (e, f, lookup_from)

lookup_from_sound :
    (b : Bool) (tbl : List InstrFmt) (op1 : ℕ) (op2 : Option ℕ) (f : InstrFmt)
    → lookup_from b tbl op1 op2 ≡ fmt_ok f
    → IsFound tbl op1 op2 f
lookup_from_sound b [] op1 op2 f h = absurd (unfold lookup_from in missing_err b op1 op2 f h)
lookup_from_sound b (g ∷ gs) op1 op2 f h = elim (Bool-cases (op1 == g.op1)) [
  | inr other ↦
      later g (lookup_from_sound b gs op1 op2 f (sym (step_other b g gs op1 op2 other) ∙ h))
  | inl same ↦ elim (Bool-cases (opt_eq op2 g.op2)) [
    | inl both ↦
        here gs op1 op2 f g same both
          (sym (fmt_ok-injective (sym (step_found b g gs op1 op2 same both) ∙ h)))
    | inr not_both ↦
        later g
          (lookup_from_sound true gs op1 op2 f (sym (step_group b g gs op1 op2 same not_both) ∙ h))
  ]
]

-- A row that the search returns is a row of the table, with the opcode bytes that were asked for.
pub lookup-IsFound :
    (op1 : ℕ) (op2 : Option ℕ) (f : InstrFmt)
    → lookup op1 op2 ≡ fmt_ok f
    → IsFound instr_tbl op1 op2 f
unfolding lookup
lookup-IsFound op1 op2 f h = lookup_from_sound false instr_tbl op1 op2 f h

-- What a Boolean test says of every row it says of a row of the table.
pub all-InTable :
    (p : InstrFmt → Bool) (tbl : List InstrFmt) (f : InstrFmt)
    → all p tbl ≡ true
    → InTable f tbl
    → p f ≡ true
all-InTable p [] f h m = absurd m
all-InTable p (g ∷ gs) f h (inl e) = rw e (&&-eq-true (p g) (all p gs) h).0
all-InTable p (g ∷ gs) f h (inr m) = all-InTable p gs f (&&-eq-true (p g) (all p gs) h).1 m

-- The rows in the order of their opcode bytes.
abbrev key : InstrFmt → ℕ
key f = elim f.op2 [ none ↦ f.op1 * 512 | some b ↦ f.op1 * 512 + b + 1 ]

increasing : ℕ → List InstrFmt → Bool
increasing k [] = true
increasing k (f ∷ fs) = ltb k (suc (key f)) && increasing (suc (key f)) fs

instr_tbl-increasing : increasing 0 instr_tbl ≡ true
unfolding increasing instr_tbl
instr_tbl-increasing = refl

-- Where the keys increase a row is found under its own key: no row hides another.
key-lt :
    (k : ℕ) (tbl : List InstrFmt) (f : InstrFmt)
    → increasing k tbl ≡ true
    → InTable f tbl
    → k < suc (key f)
unfolding increasing
key-lt k [] f h m = absurd m
key-lt k (g ∷ gs) f h (inl e) = rw e (ltb→lt k (suc (key g)) (&&-eq-true _ _ h).0)
key-lt k (g ∷ gs) f h (inr m) =
    let split = &&-eq-true (ltb k (suc (key g))) _ h in
    omega (arith, ltb→lt k (suc (key g)) split.0, key-lt (suc (key g)) gs f split.1 m)

same_key : (f g : InstrFmt) → (f.op1 == g.op1) ≡ true → opt_eq f.op2 g.op2 ≡ true → key f ≡ key g
same_key f g h k =
    let e = opt_eq_sound f.op2 g.op2 k in let d = (==_iff f.op1 g.op1).0 h in rw (e, d)

lookup_from_complete :
    (b : Bool) (k : ℕ) (tbl : List InstrFmt) (f : InstrFmt)
    → increasing k tbl ≡ true
    → InTable f tbl
    → lookup_from b tbl f.op1 f.op2 ≡ fmt_ok f
unfolding increasing
lookup_from_complete b k [] f h m = absurd m
lookup_from_complete b k (g ∷ gs) f h (inl e) =
    rw e (step_found b g gs g.op1 g.op2 (ground arith) (opt_eq_refl g.op2))
lookup_from_complete b k (g ∷ gs) f h (inr m) =
    let split = &&-eq-true (ltb k (suc (key g))) (increasing (suc (key g)) gs) h in
    let above = key-lt (suc (key g)) gs f split.1 m in
    elim (Bool-cases (f.op1 == g.op1)) [
      | inr other ↦
          step_other b g gs f.op1 f.op2 other ∙ lookup_from_complete b (suc (key g)) gs f split.1 m
      | inl same ↦ elim (Bool-cases (opt_eq f.op2 g.op2)) [
        | inl both ↦ absurd (omega (arith, above, same_key f g same both))
        | inr not_both ↦
            step_group b g gs f.op1 f.op2 same not_both
            ∙ lookup_from_complete true (suc (key g)) gs f split.1 m
      ]
    ]

-- Every row of the table is what the search returns for its own opcode bytes: no row is shadowed.
pub lookup-InTable : (f : InstrFmt) → InTable f instr_tbl → lookup f.op1 f.op2 ≡ fmt_ok f
unfolding lookup
lookup-InTable f m = lookup_from_complete false 0 instr_tbl f instr_tbl-increasing m
