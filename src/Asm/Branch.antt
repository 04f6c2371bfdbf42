-- ===== src/Asm/Branch.antt =====
-- dis86/src/asm/branch.rs: which opcodes branch, and where to.
pub mod Shapes
use dis.Prelude.{ℕ, Bool, true, false, Option, none, some, if◌then◌else◌, get_elem?}
use dis.SegOff.{SegOff}
use dis.Asm.InstrFmt.{
  Opcode, op_ja, op_jae, op_jb, op_jbe, op_jcxz, op_je, op_jg, op_jge, op_jl, op_jle, op_jmp,
  op_jmpf, op_jne, op_jno, op_jnp, op_jns, op_jo, op_jp, op_js, op_loop, op_loope, op_loopne,
}
use dis.Asm.Instr.{Instr, Operand, rel, far, rel_addr, instr_end_addr}

pub record BranchShape : Type 0 where
  pub oper_num : ℕ
  pub fallthrough : Bool

abbrev shape : ℕ → Bool → Option BranchShape
shape n f = some (record { oper_num = n; fallthrough = f })

unfoldable pub branch_shape : Opcode → Option BranchShape
branch_shape op_ja = shape 0 true
branch_shape op_jae = shape 0 true
branch_shape op_jb = shape 0 true
branch_shape op_jbe = shape 0 true
branch_shape op_jcxz = shape 1 true
branch_shape op_je = shape 0 true
branch_shape op_jg = shape 0 true
branch_shape op_jge = shape 0 true
branch_shape op_jl = shape 0 true
branch_shape op_jle = shape 0 true
branch_shape op_jmp = shape 0 false
branch_shape op_jmpf = shape 0 false
branch_shape op_jne = shape 0 true
branch_shape op_jno = shape 0 true
branch_shape op_jnp = shape 0 true
branch_shape op_jns = shape 0 true
branch_shape op_jo = shape 0 true
branch_shape op_jp = shape 0 true
branch_shape op_js = shape 0 true
branch_shape op_loop = shape 1 true
branch_shape op_loope = shape 1 true
branch_shape op_loopne = shape 1 true
branch_shape _ = none

pub data UnresolvedTransfer : Type 0 where
  far_direct : ℕ → ℕ → UnresolvedTransfer
  far_indirect near_indirect : UnresolvedTransfer

pub data BranchTarget : Type 0 where
  relative : SegOff → Option SegOff → BranchTarget
  unresolved : UnresolvedTransfer → BranchTarget

abbrev far_transfer : Option Operand → UnresolvedTransfer
far_transfer (some (far seg off)) = far_direct seg off
far_transfer _ = far_indirect

abbrev transfer_of : Opcode → Option Operand → UnresolvedTransfer
transfer_of op_jmpf first = far_transfer first
transfer_of _ first = near_indirect

unfoldable pub unresolved_transfer : Instr → UnresolvedTransfer
unresolved_transfer ins = transfer_of ins.opcode (get_elem? ins.operands 0)

abbrev target_of : Instr → BranchShape → Option Operand → BranchTarget
target_of ins s (some (rel val)) =
    relative (rel_addr ins val) (if s.fallthrough then some (instr_end_addr ins) else none)
target_of ins s _ = unresolved (unresolved_transfer ins)

abbrev target_with : Instr → Option BranchShape → Option BranchTarget
target_with ins none = none
target_with ins (some s) = some (target_of ins s (get_elem? ins.operands s.oper_num))

unfoldable pub branch_target : Instr → Option BranchTarget
unfolding branch_shape unresolved_transfer
branch_target ins = target_with ins (branch_shape ins.opcode)
