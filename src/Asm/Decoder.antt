-- ===== src/Asm/Decoder.antt =====
-- `Decoder` of dis86/src/asm/decode.rs: the instructions of a region one behind the other. The
-- decoder is its region iterator.
pub mod Runs
use dis.Prelude.{ℕ, none, some, List, [], ◌∷◌, ◌≡◌}
use dis.Result.{Result, ok, err, panic, unwrap}
use dis.SegOff.{SegOff}
use dis.Region.{RegionIter, M, addr}
use dis.Asm.Instr.{Instr}
use dis.Asm.Decode.{Decoded, decode_one}

abbrev pub decoder_new : RegionIter → RegionIter
decoder_new it = it

unfoldable pub try_next : M Decoded
try_next = decode_one

unfoldable pub decoder_addr : RegionIter → Result SegOff
decoder_addr it = addr it

-- `Iterator::next`
unfoldable pub decoder_next : M Decoded
unfolding try_next
decoder_next it = let r = try_next it in (unwrap r.0, r.1)

-- The calls of `try_next` from one iterator to another that returned these instructions with
-- their bytes.
pub data Run : RegionIter → List (Instr × List ℕ) → RegionIter → Type 0 where
  done : {it : RegionIter} → Run it [] it
  call :
      {it mid it' : RegionIter} {ins : Instr} {raw : List ℕ} {rest : List (Instr × List ℕ)}
      → try_next it ≡ (ok (some (ins, raw)), mid)
      → Run mid rest it'
      → Run it ((ins, raw) ∷ rest) it'
