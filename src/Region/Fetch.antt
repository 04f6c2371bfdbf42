-- ===== src/Region/Fetch.antt =====
-- What `fetch` and its variants read.
use dis.Prelude.{
  ℕ, ◌+◌, ◌-◌, ◌*◌, ◌≤◌, ◌<◌, ◌%◌, ◌^◌, ◌≡◌, Option, none, some, arith, ltb, length, get_elem?,
  Bool-cases, Option-cases, length-le_of_none, inl, inr, if◌then◌else◌, lt-length_of_get_elem?,
}
use dis.Prelude.Words.{word_lem}
use dis.Result.{Result, ok, err, below_region, beyond_region}
use dis.SegOff.{add_offset}
use dis.SegOff.Laws.{seg_eq_refl}
use dis.Region.{
  RegionIter, addr, get_checked, peek_checked, ◌>>=◌, fetch, fetch_u16, advance, advance_by,
}

-- A byte lies at the cursor, below the end of the segment.
abbrev pub HasByte : RegionIter → ℕ → Type 0
HasByte it b = (it.base_off + it.off < 2 ^ 16) × (get_elem? it.mem it.off ≡ some b)

module _ (it : RegionIter) where
  abbrev next : RegionIter
  next = record it { off = it.off + 1 }

  pub peek_inside : (b : ℕ) → HasByte it b → peek_checked it ≡ ok b
  unfolding peek_checked addr get_checked add_offset
  peek_inside b h =
      let place : (it.base_off + it.off) % 2 ^ 16 - it.base_off ≡ it.off = omega arith in
      let inside : it.off < length it.mem = lt-length_of_get_elem? it.mem it.off b h.1 in
      ground (arith, seg_eq_refl it.base_seg, place, inside)

  pub peek_beyond :
      it.off < 2 ^ 16
      → it.base_off + it.off < 2 ^ 16
      → length it.mem ≤ it.off
      → peek_checked it ≡ err beyond_region
  unfolding peek_checked addr get_checked add_offset
  peek_beyond h k l = ground (arith, seg_eq_refl it.base_seg)

  peek_wrapped :
      it.off < 2 ^ 16
      → it.base_off < 2 ^ 16
      → 2 ^ 16 ≤ it.base_off + it.off
      → peek_checked it ≡ err below_region
  unfolding peek_checked addr get_checked add_offset
  peek_wrapped h k l = ground (arith, seg_eq_refl it.base_seg)

  pub fetch_byte : (b : ℕ) → HasByte it b → fetch it ≡ (ok b, next)
  unfolding fetch ◌>>=◌ advance advance_by
  fetch_byte b h = rw (peek_inside b h)

  fetch_beyond :
      it.off < 2 ^ 16
      → it.base_off + it.off < 2 ^ 16
      → length it.mem ≤ it.off
      → fetch it ≡ (err beyond_region, it)
  unfolding fetch ◌>>=◌ advance advance_by
  fetch_beyond h k l = rw (peek_beyond h k l)

  fetch_wrapped :
      it.off < 2 ^ 16
      → it.base_off < 2 ^ 16
      → 2 ^ 16 ≤ it.base_off + it.off
      → fetch it ≡ (err below_region, it)
  unfolding fetch ◌>>=◌ advance advance_by
  fetch_wrapped h k l = rw (peek_wrapped h k l)

-- `fetch`, told from the bytes: at the cursor it reads a byte and moves one on; behind the last
-- byte and beyond the end of the segment it fails and stays.
unfoldable pub fetched : RegionIter → Option ℕ → Result ℕ × RegionIter
fetched it (some b) = (ok b, record it { off = it.off + 1 })
fetched it none = (err beyond_region, it)

unfoldable pub fetch_result : RegionIter → Result ℕ × RegionIter
unfolding fetched
fetch_result it =
    if ltb (it.base_off + it.off) (2 ^ 16)
    then fetched it (get_elem? it.mem it.off)
    else (err below_region, it)

-- For a 16-bit base and cursor `fetch` does this on every branch: inside the bytes and the segment
-- it returns the byte and moves one on, behind the last byte it fails with the one error, and past
-- the end of the segment with the other; on an error the cursor stays.
pub fetch_lem :
    (it : RegionIter) → it.base_off < 2 ^ 16 → it.off < 2 ^ 16 → fetch it ≡ fetch_result it
unfolding fetch_result
fetch_lem it h k = elim (Bool-cases (ltb (it.base_off + it.off) (2 ^ 16))) [
  | inr wraps ↦ rw wraps (fetch_wrapped it k h (ground arith))
  | inl inside ↦ elim (Option-cases (get_elem? it.mem it.off)) [
    | inl missing ↦
        rw (inside, missing)
          (fetch_beyond it k (ground arith) (length-le_of_none it.mem it.off missing))
    | inr found ↦ rw (inside, found.1) (fetch_byte it found.0 (ground arith, found.1))
  ]
]

-- Two bytes in a row below the end of the segment, the low one first, are read as one word, and the
-- cursor moves two on.
pub fetch_u16_lem :
    (it : RegionIter) (low high : ℕ)
    → low < 2 ^ 8
    → high < 2 ^ 8
    → it.base_off + it.off + 1 < 2 ^ 16
    → get_elem? it.mem it.off ≡ some low
    → get_elem? it.mem (it.off + 1) ≡ some high
    → fetch_u16 it ≡ (ok (high * 2 ^ 8 + low), record it { off = it.off + 1 + 1 })
unfolding fetch_u16 ◌>>=◌
fetch_u16_lem it low high h k room first second = rw (
  fetch_byte it low (omega arith, first),
  fetch_byte (next it) high (omega arith, second),
  word_lem high low k h,
)
