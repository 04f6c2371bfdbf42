-- ===== src/Asm/InstrFmt/Names.antt =====
-- `Opcode::name` of dis86/src/asm/instr_fmt.rs: the mnemonics.
use Prim.Native.String.{String}
use dis.Asm.InstrFmt.Types.{
  Opcode, op_aaa, op_aas, op_adc, op_add, op_and, op_call, op_callf, op_cbw, op_clc, op_cld, op_cli,
  op_cmc, op_cmp, op_cmps, op_cwd, op_daa, op_das, op_dec, op_div, op_enter, op_hlt, op_idiv,
  op_imul, op_imul_trunc, op_in, op_inc, op_ins, op_int, op_into, op_inval, op_iret, op_ja, op_jae,
  op_jb, op_jbe, op_jcxz, op_je, op_jg, op_jge, op_jl, op_jle, op_jmp, op_jmpf, op_jne, op_jno,
  op_jnp, op_jns, op_jo, op_jp, op_js, op_lahf, op_lds, op_lea, op_leave, op_les, op_lods, op_loop,
  op_loope, op_loopne, op_mov, op_movs, op_mul, op_neg, op_nop, op_not, op_or, op_out, op_outs,
  op_pop, op_popa, op_popf, op_push, op_pusha, op_pushf, op_rcl, op_rcr, op_ret, op_retf, op_rol,
  op_ror, op_sahf, op_sar, op_sbb, op_scas, op_seto, op_setno, op_setb, op_setae, op_sete, op_setne,
  op_setbe, op_seta, op_sets, op_setns, op_setp, op_setnp, op_setl, op_setge, op_setle, op_setg,
  op_shl, op_shr, op_stc, op_std, op_sti, op_stos, op_sub, op_test, op_xchg, op_xlat, op_xor,
}

unfoldable pub opcode_name : Opcode → String
opcode_name op_aaa = "aaa"
opcode_name op_aas = "aas"
opcode_name op_adc = "adc"
opcode_name op_add = "add"
opcode_name op_and = "and"
opcode_name op_call = "call"
opcode_name op_callf = "callf"
opcode_name op_cbw = "cbw"
opcode_name op_clc = "clc"
opcode_name op_cld = "cld"
opcode_name op_cli = "cli"
opcode_name op_cmc = "cmc"
opcode_name op_cmp = "cmp"
opcode_name op_cmps = "cmps"
opcode_name op_cwd = "cwd"
opcode_name op_daa = "daa"
opcode_name op_das = "das"
opcode_name op_dec = "dec"
opcode_name op_div = "div"
opcode_name op_enter = "enter"
opcode_name op_hlt = "hlt"
opcode_name op_idiv = "idiv"
opcode_name op_imul = "imul"
opcode_name op_imul_trunc = "imul"
opcode_name op_in = "in"
opcode_name op_inc = "inc"
opcode_name op_ins = "ins"
opcode_name op_int = "int"
opcode_name op_into = "into"
opcode_name op_inval = "inval"
opcode_name op_iret = "iret"
opcode_name op_ja = "ja"
opcode_name op_jae = "jae"
opcode_name op_jb = "jb"
opcode_name op_jbe = "jbe"
opcode_name op_jcxz = "jcxz"
opcode_name op_je = "je"
opcode_name op_jg = "jg"
opcode_name op_jge = "jge"
opcode_name op_jl = "jl"
opcode_name op_jle = "jle"
opcode_name op_jmp = "jmp"
opcode_name op_jmpf = "jmpf"
opcode_name op_jne = "jne"
opcode_name op_jno = "jno"
opcode_name op_jnp = "jnp"
opcode_name op_jns = "jns"
opcode_name op_jo = "jo"
opcode_name op_jp = "jp"
opcode_name op_js = "js"
opcode_name op_lahf = "lahf"
opcode_name op_lds = "lds"
opcode_name op_lea = "lea"
opcode_name op_leave = "leave"
opcode_name op_les = "les"
opcode_name op_lods = "lods"
opcode_name op_loop = "loop"
opcode_name op_loope = "loope"
opcode_name op_loopne = "loopne"
opcode_name op_mov = "mov"
opcode_name op_movs = "movs"
opcode_name op_mul = "mul"
opcode_name op_neg = "neg"
opcode_name op_nop = "nop"
opcode_name op_not = "not"
opcode_name op_or = "or"
opcode_name op_out = "out"
opcode_name op_outs = "outs"
opcode_name op_pop = "pop"
opcode_name op_popa = "popa"
opcode_name op_popf = "popf"
opcode_name op_push = "push"
opcode_name op_pusha = "pusha"
opcode_name op_pushf = "pushf"
opcode_name op_rcl = "rcl"
opcode_name op_rcr = "rcr"
opcode_name op_ret = "ret"
opcode_name op_retf = "retf"
opcode_name op_rol = "rol"
opcode_name op_ror = "ror"
opcode_name op_sahf = "sahf"
opcode_name op_sar = "sar"
opcode_name op_sbb = "sbb"
opcode_name op_scas = "scas"
opcode_name op_seto = "seto"
opcode_name op_setno = "setno"
opcode_name op_setb = "setb"
opcode_name op_setae = "setae"
opcode_name op_sete = "sete"
opcode_name op_setne = "setne"
opcode_name op_setbe = "setbe"
opcode_name op_seta = "seta"
opcode_name op_sets = "sets"
opcode_name op_setns = "setns"
opcode_name op_setp = "setp"
opcode_name op_setnp = "setnp"
opcode_name op_setl = "setl"
opcode_name op_setge = "setge"
opcode_name op_setle = "setle"
opcode_name op_setg = "setg"
opcode_name op_shl = "shl"
opcode_name op_shr = "shr"
opcode_name op_stc = "stc"
opcode_name op_std = "std"
opcode_name op_sti = "sti"
opcode_name op_stos = "stos"
opcode_name op_sub = "sub"
opcode_name op_test = "test"
opcode_name op_xchg = "xchg"
opcode_name op_xlat = "xlat"
opcode_name op_xor = "xor"
