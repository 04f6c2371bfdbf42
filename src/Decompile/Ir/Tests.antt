-- ===== src/Decompile/Ir/Tests.antt =====
-- A block of dis86/src/decompile/ir whose second instruction was erased.
use dis.Prelude.{
  ℕ, zero, suc, ◌≡◌, refl, sym, ap, Bool, true, Option, none, some, List, [], ◌∷◌, all,
  all-get_elem?, &&-eq-true, ◌&&◌, ◌++◌,
}
use dis.Asm.Instr.{Reg}
use dis.Result.{ok}
use dis.Types.{DataType}
use dis.Decompile.Ir.Opcode.{Opcode}
use dis.Decompile.Ir.Def.{Ref, instr, init, Instr, InstrLink, InstrData, Block, Ir}
use dis.Decompile.Ir.BlockData.{before, insert, index_of, lookup_link, data_next}
use dis.Decompile.Ir.Methods.{iter_instrs, block_at, data_refs, refs_from, instr_prev, instr_next}
use dis.Decompile.Ir.Value.{
  find_block, find_instr, is_some, is_valid, has_arity, arity, IsFine, IsWalked, IsWellFormed,
}
use dis.Decompile.Ir.Rewrite.{some-injective}
use dis.Decompile.Ir.Chain.{IsChain, data_refs-IsChain}
use dis.Decompile.Ir.Refine.{placed, can_place, place_before, insert_lem}
use dis.Decompile.Ir.Skip.{last_kept, first_kept, instr_prev_lem, instr_next_lem}

abbrev op : Opcode → List Ref → Instr
op o rs = record { typ = DataType.u16; compare_width = none; attrs = 0; opcode = o; operands = rs }

abbrev link : Option Ref → Option Ref → InstrLink
link p q = record { prev = p; next = q }

-- The instructions 1 and 2 in this order, with 0 between them.
abbrev three : InstrData
three = record {
  blkref = 0;
  links =
      link (some (instr 0 1)) (some (instr 0 2))
      ∷ link none (some (instr 0 0))
      ∷ link (some (instr 0 0)) none
      ∷ [];
  instrs =
      op Opcode.nop []
      ∷ op Opcode.xor (init Reg.ax ∷ init Reg.ax ∷ [])
      ∷ op Opcode.ref (instr 0 1 ∷ [])
      ∷ [];
  count = 3;
  first = some (instr 0 1);
  last = some (instr 0 2);
}

three-IsChain : IsChain three (1 ∷ 0 ∷ 2 ∷ [])
three-IsChain = record {
  links_length = refl;
  all_there = refl;
  counted = refl;
  distinct = refl;
  first = refl;
  last = refl;
  linked = (refl, (refl, (refl, tt)));
}

abbrev block_of_three : Block
block_of_three = record {
  name = "entry";
  defs = [];
  preds = [];
  instr_data = three;
  sealed = true;
  incomplete_phis = [];
}

abbrev ir_of_three : Ir
ir_of_three = record { consts = []; names = []; name_next = []; blocks = some block_of_three ∷ [] }

abbrev is_fine : Instr → Bool
is_fine x = has_arity (arity x.opcode) x.operands && all (is_valid ir_of_three) x.operands

all-is_fine : all is_fine three.instrs ≡ true
unfolding arity
all-is_fine = refl

three-IsFine : (b i : ℕ) (x : Instr) → find_instr ir_of_three b i ≡ some x → IsFine ir_of_three x
three-IsFine zero i x h =
    let both =
      &&-eq-true (has_arity (arity x.opcode) x.operands) (all (is_valid ir_of_three) x.operands)
        (all-get_elem? is_fine three.instrs i x all-is_fine h) in
    record { count = both.0; valid = both.1 }
three-IsFine (suc b) i x h = absurd (cc)

three_blkref :
    (b : ℕ) (blk : Block) → find_block ir_of_three b ≡ some blk → blk.instr_data.blkref ≡ b
three_blkref zero blk h = ap (λ (t : Block). t.instr_data.blkref) (sym (some-injective h))
three_blkref (suc b) blk h = absurd (cc)

three-IsWalked : (b : ℕ) → is_some (find_block ir_of_three b) ≡ true → IsWalked ir_of_three b
unfolding iter_instrs block_at data_refs refs_from data_next lookup_link index_of
three-IsWalked zero h = record {
  refs = instr 0 1 ∷ instr 0 0 ∷ instr 0 2 ∷ [];
  walk = refl;
  live = refl;
}
three-IsWalked (suc b) h = absurd (cc)

ir_of_three-IsWellFormed : IsWellFormed ir_of_three
ir_of_three-IsWellFormed = record {
  blkref = three_blkref;
  walked = three-IsWalked;
  fine = three-IsFine;
  words = refl;
}

can_place_before : can_place 0 (before (instr 0 0)) (1 ∷ 0 ∷ 2 ∷ []) ≡ true
unfolding can_place
can_place_before = refl

insert_lem_example :
    (d' : InstrData) × (insert three (op Opcode.nop []) (before (instr 0 0)) ≡ ok (instr 0 3, d'))
    × IsChain d' (placed (before (instr 0 0)) 3 (1 ∷ 0 ∷ 2 ∷ []))
    × (d'.instrs ≡ three.instrs ++ op Opcode.nop [] ∷ [])
insert_lem_example =
    insert_lem three (op Opcode.nop []) (before (instr 0 0)) (1 ∷ 0 ∷ 2 ∷ []) three-IsChain
      can_place_before

placed_before : placed (before (instr 0 0)) 3 (1 ∷ 0 ∷ 2 ∷ []) ≡ 1 ∷ 3 ∷ 0 ∷ 2 ∷ []
unfolding placed place_before
placed_before = refl

data_refs-IsChain_example : data_refs three ≡ ok (instr 0 1 ∷ instr 0 0 ∷ instr 0 2 ∷ [])
data_refs-IsChain_example = data_refs-IsChain three (1 ∷ 0 ∷ 2 ∷ []) three-IsChain

instr_prev_lem_example :
    instr_prev ir_of_three (instr 0 2) ≡ ok (last_kept ir_of_three 0 none (1 ∷ 0 ∷ []))
instr_prev_lem_example =
    instr_prev_lem ir_of_three block_of_three (1 ∷ 0 ∷ []) 2 [] ir_of_three-IsWellFormed refl
      three-IsChain

instr_next_lem_example :
    instr_next ir_of_three (instr 0 1) ≡ ok (first_kept ir_of_three 0 (0 ∷ 2 ∷ []))
instr_next_lem_example =
    instr_next_lem ir_of_three block_of_three [] 1 (0 ∷ 2 ∷ []) ir_of_three-IsWellFormed refl
      three-IsChain

-- The erased instruction between them is passed over.
next_of_three : first_kept ir_of_three 0 (0 ∷ 2 ∷ []) ≡ some (instr 0 2)
unfolding first_kept
next_of_three = refl
