-- ===== src/Lib.antt =====
-- dis86: a disassembler and decompiler for 16-bit x86 programs (the Rust crate dis86).
--
-- The crate reads an executable, decodes the instructions of its functions, builds an intermediate
-- representation of them, optimises and structures it, and prints C. This library models the part
-- that everything else stands on: addresses, the bytes of a region, the instruction set and its
-- decoder, branches, the printed form of an instruction, the set of address ranges in which the
-- analyses record what they covered, the code segments that they work on, and the intermediate
-- representation with the passes that rewrite one instruction at a time.
--
-- Parts and files:
--   Prelude: what the other modules share; lists over the native numbers, Boolean tests, machine
--     words (Prelude/Words), where a u16 is a number with its wrap-around written out.
--   Result: `Ok`, `Err` and panics as values. The text of a message is not kept, only which it is.
--   RangeSet: dis86/src/util/range_set.rs. The vector is a list; `insert`, `span` and
--     `gaps_within` are the functions of those names, and `covers` is the set that a list means.
--     Addresses are numbers without a bound, since no operation computes a new address.
--   SegOff: dis86/src/segoff.rs, the arithmetic of segment and offset. SegOff/Text is its
--     `FromStr` and `Display`, on the list of the bytes of a text.
--   Region: dis86/src/region.rs. `RegionIter` is a record; a method that takes `&mut self` is a
--     function from the iterator to a result and the changed iterator, in the monad `M`.
--   Asm/Instr: dis86/src/asm/instr.rs, registers and operands; the operands of an instruction are
--     the elements of its `ArrayVec` (dis86/src/util/arrayvec.rs).
--   Asm/InstrFmt: dis86/src/asm/instr_fmt.rs. The modules under Table hold the rows of `INSTR_TBL`
--     in order, sixteen opcode bytes to a list; Lookup is the search, Names the mnemonics.
--   Asm/Operands: the first half of dis86/src/asm/decode.rs, the ModRM fields and the function for
--     each kind of operand, and the loop over the kinds of a row.
--   Asm/Decode: the rest of that file. `decode_one` and `decode_one_impl` have those names;
--     `prefixes`, `second_lookup`, `check_format`, `read_modrm`, `decode_operands` and `finish` are
--     the parts of `decode_one_impl`, in this order. The children prove how an action of the decoder
--     moves the iterator (Operands, PrefixLoop, Acts, Decoded) and what it returns (PrefixBytes,
--     Kinds, Facts, Sound).
--   Asm/Decoder: the `Decoder` of the same file; `Run` is a sequence of its calls.
--   Asm/Branch: dis86/src/asm/branch.rs.
--   Asm/IntelSyntax: dis86/src/asm/intel_syntax.rs, on the list of the bytes of the text.
--   Analyze/CodeSegment: dis86/src/analyze/code_segment.rs, with the fields of an executable
--     (dis86/src/binfmt/mz) that it reads. Overlays says without the loops what
--     `from_overlay_info` returns.
--   Types: dis86/src/types.rs, the types of values and their sizes.
--   Decompile/Ir: dis86/src/decompile/ir. Opcode and Def are the data of opcode.rs and def.rs;
--     BlockData is block_data.rs, the vector of a block's instructions with its linked list, and
--     Methods the part of methods.rs on blocks, instructions and constants. Chain, Spliced, Insert,
--     InsertBefore and Refine prove that the links stand for a list of indices; Skip is about
--     `instr_prev` and `instr_next`.
--   Decompile/Ir/Value: what an instruction means, as an equation between the values of its
--     operands and its own. A constant is its 16 bits, values have at most 32, and an operation with
--     an effect or a phi node has no equation. Rewrite, Changed and Consts say what one changed
--     instruction or one more constant keeps.
--   Decompile/Opt: seven passes of dis86/src/decompile/opt.rs under their names; the body of the two
--     loops over blocks and instructions is the function whose name ends in `_at`. The children
--     prove that a pass keeps the values: Walk for the loops, Replace for the change of an
--     instruction, and Passes, Folding, Constants, Halves, Make32, EqualZero, Words,
--     Pigeonhole, Propagated, Propagation and Snapshots for the single passes; Fold, Wide and
--     Propagate hold the definitions of `constant_folding`, of the passes on halves and of
--     `value_propagation`; Sample is a block on which each pass has work to do, with values that
--     satisfy it.
--
-- Fuel: the loop over the prefixes of an instruction runs on fuel, one round for each byte of the
-- region and one to find its end. Each round but the last moves the cursor on by one byte and a
-- round behind the last byte ends with an error, so inside a region the fuel does not run out; the
-- theorem on `decode_one` has no outcome in which it does. The walk over the instructions of a
-- block (`refs_from`) runs one round for each link, and the search for an instruction that was not
-- erased (`skip_nops` and `skip_nops_forward`) two more; in a block whose links form a list, the fuel
-- does not run out.
-- `propagate_from` runs one round for each instruction and one more, which is enough since it stops
-- at a reference that it saw. The other loops are over lists.
--
-- Panics: an index out of range, a failed assertion, conversion or `unwrap`, and the capacity of an
-- `ArrayVec` are panics of the model. The sums of `usize` do not overflow here.
--
-- Not modelled: of the decompiler (dis86/src/decompile) the lifting, phi nodes and names, the other
-- passes, the structuring and the output; the rest of the code analysis (dis86/src/analyze), the
-- decoding of executables and the configuration (dis86/src/binfmt, dis86/src/config.rs), the
-- emulator (dis86/src/emu86), the command line, and the C and Python programs (hydra, bsl, confgen).
pub mod Prelude
pub mod Result
pub mod RangeSet
pub mod SegOff
pub mod Region
pub mod Types
pub mod Asm
pub mod Analyze
pub mod Decompile
