-- ===== src/Decompile/Ir/Opcode.antt =====
-- dis86/src/decompile/ir/opcode.rs: the operations of the intermediate representation. The names of
-- the constructors are written with the type in front.
use Prim.Native.String.{String}
use dis.Prelude.{ℕ, Bool, true, false}
use dis.Result.{Result, ok, panic, invalid_opcode}

pub data Opcode : Type 0 where
  nop pin ref phi unimpl add sub shl : Opcode
  shr ushr and or xor imul umul idiv : Opcode
  udiv irem urem neg not sign_ext_to16 sign_ext_to32 load8 : Opcode
  load16 load32 store8 store16 store32 read_var8 read_var16 read_var32 : Opcode
  write_var8 write_var16 write_var32 read_arr8 read_arr16 read_arr32 write_arr8 write_arr16 : Opcode
  lower16 upper16 make32 update_flags eq_flags neq_flags gt_flags geq_flags : Opcode
  lt_flags leq_flags ugt_flags ugeq_flags ult_flags uleq_flags sign_flags overflow_flags : Opcode
  parity_flags eq neq gt geq lt leq ugt : Opcode
  ugeq ult uleq sign not_sign call_far call_near call_near_ptr : Opcode
  call_far_ptr call_args int rep_movs rep_stos rep_lods rep_cmps rep_scas : Opcode
  in8 in16 out8 out16 ins outs rep_ins rep_outs : Opcode
  cld std cli sti ret_far ret_near jmp jne : Opcode
  jmp_tbl assert_even assert_pos : Opcode

unfoldable pub as_str : Opcode → String
as_str Opcode.nop = "nop"
as_str Opcode.pin = "pin"
as_str Opcode.ref = "ref"
as_str Opcode.phi = "phi"
as_str Opcode.unimpl = "unimpl"
as_str Opcode.sub = "sub"
as_str Opcode.add = "add"
as_str Opcode.shl = "shl"
as_str Opcode.shr = "shr"
as_str Opcode.ushr = "ushr"
as_str Opcode.and = "and"
as_str Opcode.or = "or"
as_str Opcode.xor = "xor"
as_str Opcode.imul = "imul"
as_str Opcode.umul = "umul"
as_str Opcode.idiv = "idiv"
as_str Opcode.udiv = "udiv"
as_str Opcode.irem = "irem"
as_str Opcode.urem = "urem"
as_str Opcode.neg = "neg"
as_str Opcode.not = "not"
as_str Opcode.sign_ext_to16 = "signext16"
as_str Opcode.sign_ext_to32 = "signext32"
as_str Opcode.load8 = "load8"
as_str Opcode.load16 = "load16"
as_str Opcode.load32 = "load32"
as_str Opcode.store8 = "store8"
as_str Opcode.store16 = "store16"
as_str Opcode.store32 = "store32"
as_str Opcode.read_var8 = "readvar8"
as_str Opcode.read_var16 = "readvar16"
as_str Opcode.read_var32 = "readvar32"
as_str Opcode.write_var8 = "writevar8"
as_str Opcode.write_var16 = "writevar16"
as_str Opcode.write_var32 = "writevar32"
as_str Opcode.read_arr8 = "readarr8"
as_str Opcode.read_arr16 = "readarr16"
as_str Opcode.read_arr32 = "readarr32"
as_str Opcode.write_arr8 = "writearr8"
as_str Opcode.write_arr16 = "writearr16"
as_str Opcode.lower16 = "lower16"
as_str Opcode.upper16 = "upper16"
as_str Opcode.make32 = "make32"
as_str Opcode.update_flags = "updf"
as_str Opcode.eq_flags = "eqf"
as_str Opcode.neq_flags = "neqf"
as_str Opcode.gt_flags = "gtf"
as_str Opcode.geq_flags = "geqf"
as_str Opcode.lt_flags = "ltf"
as_str Opcode.leq_flags = "leqf"
as_str Opcode.ugt_flags = "ugtf"
as_str Opcode.ugeq_flags = "ugeqf"
as_str Opcode.ult_flags = "ultf"
as_str Opcode.uleq_flags = "uleqf"
as_str Opcode.sign_flags = "signf"
as_str Opcode.overflow_flags = "ovf"
as_str Opcode.parity_flags = "parf"
as_str Opcode.eq = "eq"
as_str Opcode.neq = "neq"
as_str Opcode.gt = "gt"
as_str Opcode.geq = "geq"
as_str Opcode.lt = "lt"
as_str Opcode.leq = "leq"
as_str Opcode.ugt = "ugt"
as_str Opcode.ugeq = "ugeq"
as_str Opcode.ult = "ult"
as_str Opcode.uleq = "uleq"
as_str Opcode.sign = "sign"
as_str Opcode.not_sign = "notsign"
as_str Opcode.call_far = "callfar"
as_str Opcode.call_near = "callnear"
as_str Opcode.call_near_ptr = "callnearptr"
as_str Opcode.call_far_ptr = "callfarptr"
as_str Opcode.call_args = "callargs"
as_str Opcode.int = "int"
as_str Opcode.rep_movs = "repmovs"
as_str Opcode.rep_stos = "repstos"
as_str Opcode.rep_lods = "replods"
as_str Opcode.rep_cmps = "repcmps"
as_str Opcode.rep_scas = "repscas"
as_str Opcode.in8 = "in8"
as_str Opcode.in16 = "in16"
as_str Opcode.out8 = "out8"
as_str Opcode.out16 = "out16"
as_str Opcode.ins = "ins"
as_str Opcode.outs = "outs"
as_str Opcode.rep_ins = "repins"
as_str Opcode.rep_outs = "repouts"
as_str Opcode.cld = "cld"
as_str Opcode.std = "std"
as_str Opcode.cli = "cli"
as_str Opcode.sti = "sti"
as_str Opcode.ret_far = "retf"
as_str Opcode.ret_near = "retn"
as_str Opcode.jmp = "jmp"
as_str Opcode.jne = "jne"
as_str Opcode.jmp_tbl = "jmptbl"
as_str Opcode.assert_even = "assert_even"
as_str Opcode.assert_pos = "assert_pos"

unfoldable pub is_load : Opcode → Bool
is_load Opcode.load8 = true
is_load Opcode.load16 = true
is_load Opcode.load32 = true
is_load _ = false

unfoldable pub is_store : Opcode → Bool
is_store Opcode.store8 = true
is_store Opcode.store16 = true
is_store Opcode.store32 = true
is_store _ = false

unfoldable pub is_flag_marker : Opcode → Bool
is_flag_marker Opcode.update_flags = true
is_flag_marker Opcode.eq_flags = true
is_flag_marker Opcode.neq_flags = true
is_flag_marker Opcode.gt_flags = true
is_flag_marker Opcode.geq_flags = true
is_flag_marker Opcode.lt_flags = true
is_flag_marker Opcode.leq_flags = true
is_flag_marker Opcode.ugt_flags = true
is_flag_marker Opcode.ugeq_flags = true
is_flag_marker Opcode.ult_flags = true
is_flag_marker Opcode.uleq_flags = true
is_flag_marker Opcode.sign_flags = true
is_flag_marker Opcode.overflow_flags = true
is_flag_marker Opcode.parity_flags = true
is_flag_marker _ = false

unfoldable pub may_clobber_memory : Opcode → Bool
may_clobber_memory Opcode.call_far = true
may_clobber_memory Opcode.call_near = true
may_clobber_memory Opcode.call_near_ptr = true
may_clobber_memory Opcode.call_far_ptr = true
may_clobber_memory Opcode.call_args = true
may_clobber_memory Opcode.int = true
may_clobber_memory Opcode.rep_movs = true
may_clobber_memory Opcode.rep_stos = true
may_clobber_memory Opcode.ins = true
may_clobber_memory Opcode.rep_ins = true
may_clobber_memory _ = false

unfoldable pub is_mem_op : Opcode → Bool
is_mem_op Opcode.load8 = true
is_mem_op Opcode.load16 = true
is_mem_op Opcode.load32 = true
is_mem_op Opcode.store8 = true
is_mem_op Opcode.store16 = true
is_mem_op Opcode.store32 = true
is_mem_op Opcode.read_var8 = true
is_mem_op Opcode.read_var16 = true
is_mem_op Opcode.read_var32 = true
is_mem_op Opcode.write_var8 = true
is_mem_op Opcode.write_var16 = true
is_mem_op Opcode.write_var32 = true
is_mem_op _ = false

unfoldable pub is_call : Opcode → Bool
is_call Opcode.call_far = true
is_call Opcode.call_near = true
is_call Opcode.call_near_ptr = true
is_call Opcode.call_far_ptr = true
is_call Opcode.call_args = true
is_call _ = false

unfoldable pub has_no_result : Opcode → Bool
has_no_result Opcode.nop = true
has_no_result Opcode.store8 = true
has_no_result Opcode.store16 = true
has_no_result Opcode.out8 = true
has_no_result Opcode.out16 = true
has_no_result Opcode.ins = true
has_no_result Opcode.outs = true
has_no_result Opcode.rep_ins = true
has_no_result Opcode.rep_outs = true
has_no_result Opcode.cld = true
has_no_result Opcode.std = true
has_no_result Opcode.cli = true
has_no_result Opcode.sti = true
has_no_result Opcode.write_var8 = true
has_no_result Opcode.write_var16 = true
has_no_result Opcode.write_var32 = true
has_no_result Opcode.ret_far = true
has_no_result Opcode.ret_near = true
has_no_result Opcode.jmp = true
has_no_result Opcode.jne = true
has_no_result Opcode.jmp_tbl = true
has_no_result _ = false

unfoldable pub maybe_unused : Opcode → Bool
maybe_unused Opcode.nop = true
maybe_unused Opcode.pin = true
maybe_unused Opcode.store8 = true
maybe_unused Opcode.store16 = true
maybe_unused Opcode.write_var8 = true
maybe_unused Opcode.write_var16 = true
maybe_unused Opcode.write_var32 = true
maybe_unused Opcode.call_far = true
maybe_unused Opcode.call_near = true
maybe_unused Opcode.call_near_ptr = true
maybe_unused Opcode.call_far_ptr = true
maybe_unused Opcode.call_args = true
maybe_unused Opcode.int = true
maybe_unused Opcode.ret_far = true
maybe_unused Opcode.ret_near = true
maybe_unused Opcode.jmp = true
maybe_unused Opcode.jne = true
maybe_unused Opcode.jmp_tbl = true
maybe_unused _ = false

unfoldable pub has_side_effects : Opcode → Bool
has_side_effects Opcode.pin = true
has_side_effects Opcode.store8 = true
has_side_effects Opcode.store16 = true
has_side_effects Opcode.write_var8 = true
has_side_effects Opcode.write_var16 = true
has_side_effects Opcode.write_var32 = true
has_side_effects Opcode.call_far = true
has_side_effects Opcode.call_near = true
has_side_effects Opcode.call_near_ptr = true
has_side_effects Opcode.call_far_ptr = true
has_side_effects Opcode.call_args = true
has_side_effects Opcode.int = true
has_side_effects Opcode.rep_movs = true
has_side_effects Opcode.rep_stos = true
has_side_effects Opcode.in8 = true
has_side_effects Opcode.in16 = true
has_side_effects Opcode.out8 = true
has_side_effects Opcode.out16 = true
has_side_effects Opcode.ins = true
has_side_effects Opcode.outs = true
has_side_effects Opcode.rep_ins = true
has_side_effects Opcode.rep_outs = true
has_side_effects Opcode.cld = true
has_side_effects Opcode.std = true
has_side_effects Opcode.cli = true
has_side_effects Opcode.sti = true
has_side_effects Opcode.ret_far = true
has_side_effects Opcode.ret_near = true
has_side_effects Opcode.jmp = true
has_side_effects Opcode.jne = true
has_side_effects Opcode.jmp_tbl = true
has_side_effects Opcode.assert_even = true
has_side_effects Opcode.assert_pos = true
has_side_effects Opcode.unimpl = true
has_side_effects _ = false

unfoldable pub operation_size : Opcode → Result ℕ
operation_size Opcode.load8 = ok 1
operation_size Opcode.load16 = ok 2
operation_size Opcode.load32 = ok 4
operation_size Opcode.store8 = ok 1
operation_size Opcode.store16 = ok 2
operation_size _ = panic invalid_opcode
