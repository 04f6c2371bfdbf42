-- ===== src/Region.antt =====
-- dis86/src/region.rs: `RegionIter`, a cursor over the bytes of a part of one segment. Methods
-- that take `&mut self` are actions of the monad `M`; what they changed before an error stays.
pub mod Fetch
pub mod Rollback
pub mod SegmentEnd
pub mod Keeps
pub mod Binds
pub mod Returns
mod Tests
use dis.Prelude.{
  ℕ, suc, ◌+◌, ◌-◌, ◌^◌, Bool, true, false, not, ◌&&◌, ◌||◌, Option, none, some, List, ltb, leb,
  if◌then◌else◌, length, get_elem?, take, drop,
}
use dis.Prelude.Words.{u16, sext, word}
use dis.Result.{
  Result, ok, err, panic, Error, Panic, and_then, unwrap, from_option, mismatching_segments,
  below_region, beyond_region, out_of_u16, slice_segments, slice_below, slice_beyond,
  reset_out_of_region, index_out_of_range, subtract_overflow,
}
use dis.SegOff.{Seg, SegOff, add_offset, seg_eq, segoff_lt, segoff_le}

pub record RegionIter : Type 0 where
  pub mem : List ℕ
  pub base_seg : Seg
  pub base_off : ℕ
  pub off : ℕ

abbrev pub M : Type 0 → Type 0
M A = RegionIter → Result A × RegionIter

unfoldable pub pure : {A : Type 0} → A → M A
pure a it = (ok a, it)

unfoldable pub lift : {A : Type 0} → Result A → M A
lift r it = (r, it)

-- A method that takes `&self`, as an action.
unfoldable pub ask : {A : Type 0} → (RegionIter → Result A) → M A
ask f it = (f it, it)

abbrev pub continue : {A B : Type 0} → Result A × RegionIter → (A → M B) → Result B × RegionIter
continue (ok a, it) f = f a it
continue (err e, it) f = (err e, it)
continue (panic p, it) f = (panic p, it)

-- Opening this opens `pure`, `lift` and `ask` too.
infixl 5 ◌>>=◌ ◌>>◌
unfoldable pub ◌>>=◌ : {A B : Type 0} → M A → (A → M B) → M B
unfolding pure lift ask
◌>>=◌ m f it = continue (m it) f

abbrev pub ◌>>◌ : {A B : Type 0} → M A → M B → M B
m >> k = m >>= λ _. k

unfoldable pub region_new : List ℕ → SegOff → RegionIter
region_new mem base = record { mem = mem; base_seg = base.seg; base_off = base.off; off = 0 }

unfoldable pub get_checked : RegionIter → SegOff → Result ℕ
get_checked it a =
    if not (seg_eq a.seg it.base_seg)
    then err mismatching_segments
    else if ltb a.off it.base_off
    then err below_region
    else if leb (it.base_off + length it.mem) a.off
    then err beyond_region
    else from_option index_out_of_range (get_elem? it.mem (a.off - it.base_off))

unfoldable pub get : RegionIter → SegOff → Result ℕ
unfolding get_checked
get it a = unwrap (get_checked it a)

unfoldable pub slice : RegionIter → SegOff → ℕ → Result (List ℕ)
slice it a len =
    if not (seg_eq a.seg it.base_seg)
    then panic slice_segments
    else if ltb a.off it.base_off
    then panic slice_below
    else if ltb (it.base_off + length it.mem) (a.off + len)
    then panic slice_beyond
    else ok (take len (drop (a.off - it.base_off) it.mem))

abbrev pub base_addr : RegionIter → SegOff
base_addr it = record { seg = it.base_seg; off = it.base_off }

-- `n.try_into::<u16>().unwrap()`
abbrev pub try_u16 : ℕ → Result ℕ
try_u16 n = if ltb n (2 ^ 16) then ok n else panic out_of_u16

unfoldable pub end_addr : RegionIter → Result SegOff
end_addr it = and_then (try_u16 (length it.mem)) λ off. ok (add_offset (base_addr it) off)

unfoldable pub addr : RegionIter → Result SegOff
addr it = and_then (try_u16 it.off) λ off. ok (add_offset (base_addr it) off)

unfoldable pub peek_checked : RegionIter → Result ℕ
peek_checked it = and_then (addr it) λ a. get_checked it a

unfoldable pub peek : RegionIter → Result ℕ
unfolding peek_checked
peek it = unwrap (peek_checked it)

unfoldable pub advance_by : ℕ → M (Unit {0})
advance_by n it = (ok tt, record it { off = it.off + n })

unfoldable pub advance : M (Unit {0})
advance = advance_by 1

unfoldable pub fetch : M ℕ
fetch = do b ← ask peek_checked; advance; pure b

unfoldable pub fetch_sext : M ℕ
fetch_sext = do b ← fetch; pure (sext b)

unfoldable pub fetch_u16 : M ℕ
fetch_u16 = do low ← fetch; high ← fetch; pure (word high low)

-- The assertion, and then the new position.
abbrev pub reset_to : Result SegOff → SegOff → M (Unit {0})
reset_to (ok end) a it =
    if segoff_le (base_addr it) a && segoff_lt a end
    then (ok tt, record it { off = a.off - it.base_off })
    else (panic reset_out_of_region, it)
reset_to (err e) a it = (err e, it)
reset_to (panic p) a it = (panic p, it)

-- `&&` evaluates `end_addr` only if the first comparison holds.
unfoldable pub reset_addr : SegOff → M (Unit {0})
reset_addr a it =
    if segoff_le (base_addr it) a
    then reset_to (end_addr it) a it
    else (panic reset_out_of_region, it)

-- A checked subtraction; a build without overflow checks wraps instead of the panic.
unfoldable pub bytes_remaining : RegionIter → Result ℕ
bytes_remaining it =
    if ltb (length it.mem) it.off then panic subtract_overflow else ok (length it.mem - it.off)
