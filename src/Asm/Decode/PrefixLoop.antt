-- ===== src/Asm/Decode/PrefixLoop.antt =====
-- The loop over the prefixes ends: one round for each byte of the region is enough.
use dis.Prelude.{
  ℕ, zero, suc, ◌+◌, ◌<◌, ◌≡◌, Option, Option-cases, inl, inr, none, some, arith, length, get_elem?,
}
use dis.Result.{ok, err, beyond_region}
use dis.Region.{RegionIter, pure, ◌>>=◌, ◌>>◌, advance, advance_by}
use dis.Region.Keeps.{IsInside, Acts, Safe, stays, Moved-trans, peek_checked_inside, advance_inside}
use dis.Asm.Decode.{Prefixes, no_prefixes, prefix_byte, prefix_round, read_prefixes, prefixes}

module _ (fuel : ℕ) (p : Prefixes) (it : RegionIter) (h : IsInside it) where
  -- One round, at the end of the bytes and at a byte.
  round_end : get_elem? it.mem it.off ≡ none → Acts it (read_prefixes (suc fuel) p it)
  unfolding read_prefixes ◌>>=◌
  round_end e = rw (peek_checked_inside it none h e) (stays it (err beyond_region) h tt)

  pub round_byte :
      (b : ℕ)
      → get_elem? it.mem it.off ≡ some b
      → read_prefixes (suc fuel) p it ≡ prefix_round p (read_prefixes fuel) (prefix_byte p b) it
  unfolding read_prefixes ◌>>=◌
  round_byte b e = rw (peek_checked_inside it (some b) h e)

  round_next :
      (q : Prefixes) (b : ℕ)
      → get_elem? it.mem it.off ≡ some b
      → Acts (advance it).1 (read_prefixes fuel q (advance it).1)
      → Acts it ((advance >> read_prefixes fuel q) it)
  unfolding ◌>>=◌ advance advance_by
  round_next q b e rest =
      let first = advance_inside it b h e in
      unfold advance advance_by in
      record {
        moved = Moved-trans first.moved rest.moved;
        inside = rest.inside;
        quiet = rest.quiet;
      }

read_prefixes-Acts :
    (fuel : ℕ) (p : Prefixes) (it : RegionIter)
    → IsInside it
    → length it.mem < it.off + fuel
    → Acts it (read_prefixes fuel p it)
read_prefixes-Acts zero p it h room = absurd (omega arith)
read_prefixes-Acts (suc fuel) p it h room = elim (Option-cases (get_elem? it.mem it.off)) [
  | inl e ↦ round_end fuel p it h e
  | inr found ↦ rw (round_byte fuel p it h found.0 found.1) (
      at_byte found.0 found.1 (prefix_byte p found.0) (λ q.
        read_prefixes-Acts fuel q (advance it).1 (advance_inside it found.0 h found.1).inside
          (more found.0 found.1)))
]
  where
    more :
        (b : ℕ)
        → get_elem? it.mem it.off ≡ some b
        → length (advance it).1.mem < (advance it).1.off + fuel
    more b e = unfold advance advance_by in omega arith

    at_byte :
        (b : ℕ)
        → get_elem? it.mem it.off ≡ some b
        → (o : Option Prefixes)
        → ((q : Prefixes) → Acts (advance it).1 (read_prefixes fuel q (advance it).1))
        → Acts it (prefix_round p (read_prefixes fuel) o it)
    at_byte b e none rest = unfold pure in stays it (ok p) h tt
    at_byte b e (some q) rest = round_next fuel p it h q b e (rest q)

-- The loop over the prefixes never runs out of its fuel.
pub Safe-prefixes : Safe prefixes
unfolding prefixes
Safe-prefixes = record {
  at = λ it h. read_prefixes-Acts (suc (length it.mem)) no_prefixes it h (omega arith);
}
