-- ===== src/Decompile/Opt/Sample.antt =====
-- A block of dis86/src/decompile/ir on which every pass of dis86/src/decompile/opt.rs that is
-- modelled has work to do, and values that satisfy it.
use mathlib.Core.Path.{subst}
use dis.Prelude.{
  ℕ, ◌<◌, ◌^◌, arith, zero, suc, ◌≡◌, refl, sym, ap, Bool, ◌&&◌, true, Option, none, some, List, [],
  ◌∷◌, get_elem?, all, all-get_elem?, &&-eq-true,
}
use dis.Asm.Instr.{Reg}
use dis.Types.{DataType}
use dis.Decompile.Ir.Opcode.{Opcode}
use dis.Decompile.Ir.Def.{Ref, const, instr, init, Instr, InstrLink, Block, Ir}
use dis.Decompile.Ir.BlockData.{index_of, lookup_link, data_next}
use dis.Decompile.Ir.Methods.{iter_instrs, block_at, data_refs, refs_from}
use dis.Decompile.Ir.Value.{
  Valuation, Satisfies, Computes, or_zero, eval_1, eval_2, find_block, find_instr, is_some,
  is_valid, has_arity, arity, IsFine, IsWalked, IsWellFormed,
}
use dis.Decompile.Ir.Rewrite.{some-injective}

abbrev pub op : Opcode → DataType → List Ref → Instr
op o t rs = record { typ = t; compare_width = none; attrs = 0; opcode = o; operands = rs }

abbrev pub sample_instrs : List Instr
sample_instrs =
    op Opcode.xor DataType.u16 (init Reg.ax ∷ init Reg.ax ∷ [])
    ∷ op Opcode.or DataType.u16 (instr 0 0 ∷ instr 0 0 ∷ [])
    ∷ op Opcode.sub DataType.u16 (const 0 ∷ const 1 ∷ [])
    ∷ op Opcode.sign_ext_to32 DataType.u32 (instr 0 2 ∷ [])
    ∷ op Opcode.upper16 DataType.u16 (instr 0 3 ∷ [])
    ∷ op Opcode.make32 DataType.u32 (instr 0 4 ∷ instr 0 2 ∷ [])
    ∷ op Opcode.lower16 DataType.u16 (instr 0 3 ∷ [])
    ∷ op Opcode.make32 DataType.u32 (instr 0 4 ∷ instr 0 6 ∷ [])
    ∷ op Opcode.or DataType.u16 (instr 0 6 ∷ instr 0 4 ∷ [])
    ∷ op Opcode.eq DataType.u16 (instr 0 8 ∷ const 2 ∷ [])
    ∷ op Opcode.ref DataType.u16 (instr 0 11 ∷ [])
    ∷ op Opcode.ref DataType.u16 (instr 0 10 ∷ [])
    ∷ op Opcode.add DataType.u16 (instr 0 10 ∷ instr 0 10 ∷ [])
    ∷ []

abbrev pub chain : ℕ → Option Ref → ℕ → List InstrLink
chain i prev zero = record { prev = prev; next = none } ∷ []
chain i prev (suc n) =
    record { prev = prev; next = some (instr 0 (suc i)) } ∷ chain (suc i) (some (instr 0 i)) n

abbrev pub sample : Ir
sample = record {
  consts = 2 ∷ 3 ∷ 0 ∷ [];
  names = [];
  name_next = [];
  blocks =
      some (record {
        name = "entry";
        defs = [];
        preds = [];
        instr_data = record {
          blkref = 0;
          links = chain 0 none 12;
          instrs = sample_instrs;
          count = 13;
          first = some (instr 0 0);
          last = some (instr 0 12);
        };
        sealed = true;
        incomplete_phis = [];
      })
      ∷ [];
}

-- Whether the operands of an instruction are fine, as a test.
abbrev pub is_fine : Ir → Instr → Bool
is_fine ir x = has_arity (arity x.opcode) x.operands && all (is_valid ir) x.operands

all-is_fine : all (is_fine sample) sample_instrs ≡ true
unfolding arity
all-is_fine = refl

entry-IsFine : (i : ℕ) (x : Instr) → get_elem? sample_instrs i ≡ some x → IsFine sample x
entry-IsFine i x h =
    let both =
      &&-eq-true (has_arity (arity x.opcode) x.operands) (all (is_valid sample) x.operands)
        (all-get_elem? (is_fine sample) sample_instrs i x all-is_fine h) in
    record { count = both.0; valid = both.1 }

sample_blkref : (b : ℕ) (blk : Block) → find_block sample b ≡ some blk → blk.instr_data.blkref ≡ b
sample_blkref zero blk h = ap (λ (t : Block). t.instr_data.blkref) (sym (some-injective h))
sample_blkref (suc b) blk h = absurd (cc)

sample-IsWalked : (b : ℕ) → is_some (find_block sample b) ≡ true → IsWalked sample b
unfolding iter_instrs block_at data_refs refs_from data_next lookup_link index_of
sample-IsWalked zero h = record {
  refs =
      instr 0 0
      ∷ instr 0 1
      ∷ instr 0 2
      ∷ instr 0 3
      ∷ instr 0 4
      ∷ instr 0 5
      ∷ instr 0 6
      ∷ instr 0 7
      ∷ instr 0 8
      ∷ instr 0 9
      ∷ instr 0 10
      ∷ instr 0 11
      ∷ instr 0 12
      ∷ [];
  walk = refl;
  live = refl;
}
sample-IsWalked (suc b) h = absurd (cc)

sample-IsFine : (b i : ℕ) (x : Instr) → find_instr sample b i ≡ some x → IsFine sample x
sample-IsFine zero i x h = entry-IsFine i x h
sample-IsFine (suc b) i x h = absurd (cc)

pub sample-IsWellFormed : IsWellFormed sample
sample-IsWellFormed = record {
  blkref = sample_blkref;
  walked = sample-IsWalked;
  fine = sample-IsFine;
  words = refl;
}

-- Values that satisfy the block, so the statements on satisfying values are not empty.
abbrev pub value_at : ℕ → ℕ
value_at n = or_zero (
    get_elem?
      (0 ∷ 0 ∷ 65535 ∷ 4294967295 ∷ 65535 ∷ 4294967295 ∷ 65535 ∷ 4294967295 ∷ 65535 ∷ 0 ∷ 7 ∷ 7 ∷ 14
        ∷ [])
      n)

abbrev pub sample_value : Valuation
sample_value (instr b i) = value_at i
sample_value _ = 5

value_at_small : (i : ℕ) → value_at i < 2 ^ 32
value_at_small zero = omega arith
value_at_small (suc zero) = omega arith
value_at_small (suc (suc zero)) = omega arith
value_at_small (suc (suc (suc zero))) = omega arith
value_at_small (suc (suc (suc (suc zero)))) = omega arith
value_at_small (suc (suc (suc (suc (suc zero))))) = omega arith
value_at_small (suc (suc (suc (suc (suc (suc zero)))))) = omega arith
value_at_small (suc (suc (suc (suc (suc (suc (suc zero))))))) = omega arith
value_at_small (suc (suc (suc (suc (suc (suc (suc (suc zero)))))))) = omega arith
value_at_small (suc (suc (suc (suc (suc (suc (suc (suc (suc zero))))))))) = omega arith
value_at_small (suc (suc (suc (suc (suc (suc (suc (suc (suc (suc zero)))))))))) = omega arith
value_at_small (suc (suc (suc (suc (suc (suc (suc (suc (suc (suc (suc zero))))))))))) = omega arith
value_at_small (suc (suc (suc (suc (suc (suc (suc (suc (suc (suc (suc (suc zero)))))))))))) =
    omega arith
value_at_small (suc (suc (suc (suc (suc (suc (suc (suc (suc (suc (suc (suc (suc i))))))))))))) =
    omega arith

sample_small : (r : Ref) → sample_value r < 2 ^ 32
sample_small (instr b i) = value_at_small i
sample_small (const n) = omega arith
sample_small _ = omega arith

entry-Computes :
    (i : ℕ) (x : Instr)
    → get_elem? sample_instrs i ≡ some x
    → Computes sample sample_value (instr 0 i) x
unfolding eval_1 eval_2
entry-Computes zero x h = subst (Computes sample sample_value (instr 0 0)) (some-injective h) refl
entry-Computes (suc zero) x h =
    subst (Computes sample sample_value (instr 0 1)) (some-injective h) refl
entry-Computes (suc (suc zero)) x h =
    subst (Computes sample sample_value (instr 0 2)) (some-injective h) refl
entry-Computes (suc (suc (suc zero))) x h =
    subst (Computes sample sample_value (instr 0 3)) (some-injective h) refl
entry-Computes (suc (suc (suc (suc zero)))) x h =
    subst (Computes sample sample_value (instr 0 4)) (some-injective h) refl
entry-Computes (suc (suc (suc (suc (suc zero))))) x h =
    subst (Computes sample sample_value (instr 0 5)) (some-injective h) refl
entry-Computes (suc (suc (suc (suc (suc (suc zero)))))) x h =
    subst (Computes sample sample_value (instr 0 6)) (some-injective h) refl
entry-Computes (suc (suc (suc (suc (suc (suc (suc zero))))))) x h =
    subst (Computes sample sample_value (instr 0 7)) (some-injective h) refl
entry-Computes (suc (suc (suc (suc (suc (suc (suc (suc zero)))))))) x h =
    subst (Computes sample sample_value (instr 0 8)) (some-injective h) refl
entry-Computes (suc (suc (suc (suc (suc (suc (suc (suc (suc zero))))))))) x h =
    subst (Computes sample sample_value (instr 0 9)) (some-injective h) refl
entry-Computes (suc (suc (suc (suc (suc (suc (suc (suc (suc (suc zero)))))))))) x h =
    subst (Computes sample sample_value (instr 0 10)) (some-injective h) refl
entry-Computes (suc (suc (suc (suc (suc (suc (suc (suc (suc (suc (suc zero))))))))))) x h =
    subst (Computes sample sample_value (instr 0 11)) (some-injective h) refl
entry-Computes (suc (suc (suc (suc (suc (suc (suc (suc (suc (suc (suc (suc zero)))))))))))) x h =
    subst (Computes sample sample_value (instr 0 12)) (some-injective h) refl
entry-Computes (suc (suc (suc (suc (suc (suc (suc (suc (suc (suc (suc (suc (suc i))))))))))))) x h =
    absurd (cc)

sample-Computes :
    (b i : ℕ) (x : Instr)
    → find_instr sample b i ≡ some x
    → Computes sample sample_value (instr b i) x
sample-Computes zero i x h = entry-Computes i x h
sample-Computes (suc b) i x h = absurd (cc)

sample-Satisfies : Satisfies sample sample_value
sample-Satisfies = record { small = sample_small; computes = sample-Computes }
