-- ===== src/Asm/Decode/Decoded.antt =====
-- What `decode_one` does on a region inside its segment, from every cursor.
use dis.Prelude.{
  ℕ, ◌+◌, ◌-◌, ◌≤◌, ◌<◌, ◌≡◌, refl, inl, inr, true, false, Option, none, some, arith, ◌==◌, length,
  get_elem?, take, drop, Bool-cases,
}
use dis.Result.{Result, ok, err, panic, Error, sreg_out_of_range}
use dis.SegOff.{segoff_eq}
use dis.SegOff.Laws.{seg_eq_refl}
use dis.Region.{RegionIter, M, ◌>>=◌, continue, fetch}
use dis.Region.Fetch.{fetched}
use dis.Region.Keeps.{IsInside, Moved, Acts, Safe, addr_inside, end_addr_inside, fetched-Acts}
use dis.Region.Binds.{fetch_inside}
use dis.Region.Rollback.{here, reset_addr-Moved, offset_to-here, slice-here}
use dis.Asm.Decode.{
  Body, Decoded, decode_body, finish, decode_at, decode_one_impl, decode_one, instr_of, roll_back,
  prefixes,
}
use dis.Asm.Decode.PrefixLoop.{Safe-prefixes}
use dis.Asm.Decode.Acts.{Safe-decode_body, Safe-lookups}

-- A result is reached with the cursor further on.
abbrev Ate : {A : Type 0} → RegionIter → Result A × RegionIter → Type 0
Ate it (ok a, it') = it.off < it'.off
Ate it (err e, it') = Unit
Ate it (panic p, it') = Unit

Ate-of_Moved :
    {A : Type 0} (it mid : RegionIter) (out : Result A × RegionIter)
    → it.off < mid.off
    → Moved mid out.1
    → Ate it out
Ate-of_Moved it mid (ok a, it') h m = omega (arith, m.forward)
Ate-of_Moved it mid (err e, it') h m = tt
Ate-of_Moved it mid (panic p, it') h m = tt

Ate-fetched :
    {A : Type 0} (it mid : RegionIter) (o : Option ℕ) (f : ℕ → M A)
    → it.off ≤ mid.off
    → IsInside mid
    → get_elem? mid.mem mid.off ≡ o
    → ((b : ℕ) → Safe (f b))
    → Ate it (continue (fetched mid o) f)
unfolding fetched
Ate-fetched it mid none f h k e q = tt
Ate-fetched it mid (some b) f h k e q =
    let next : RegionIter = record mid { off = mid.off + 1 } in
    Ate-of_Moved it next (f b next) (omega arith)
      ((q b).at next (fetched-Acts mid (some b) k e).inside).moved

Ate-behind :
    {P A : Type 0} (it : RegionIter) (out : Result P × RegionIter) (f : P → ℕ → M A)
    → Acts it out
    → ((p : P) (b : ℕ) → Safe (f p b))
    → Ate it (continue out (λ p. fetch >>= f p))
unfolding ◌>>=◌
Ate-behind it (ok p, mid) f s q =
    rw (fetch_inside mid s.inside) (Ate-fetched it mid _ (f p) s.moved.forward s.inside refl (q p))
Ate-behind it (err e, mid) f s q = tt
Ate-behind it (panic p, mid) f s q = tt

-- A body that is read takes at least its opcode byte.
decode_body-Ate : (it : RegionIter) → IsInside it → Ate it (decode_body it)
unfolding decode_body
decode_body-Ate it h =
    unfold ◌>>=◌ in Ate-behind it (prefixes it) _ (Safe-prefixes.at it h) Safe-lookups

-- The ways in which `decode_one` ends.
pub data Outcome (it : RegionIter) : Result Decoded × RegionIter → Type 0 where
  -- at the end of the region there is no instruction
  at_end : it.off ≡ length it.mem → Outcome it (ok none, it)
  -- an instruction at the cursor's address, with the bytes that were passed
  decoded :
      (b : Body) (it' : RegionIter)
      → Moved it it'
      → IsInside it'
      → it.off < it'.off
      → Outcome it (
        ok (
            some (
              instr_of (here it) (it'.off - it.off) b,
              take (it'.off - it.off) (drop it.off it.mem),
            )),
        it',
      )
  -- an error, with nothing consumed
  failed : (e : Error) → Outcome it (err e, it)
  -- the assertion of `Reg::sreg16`
  sreg_panic : (it' : RegionIter) → Outcome it (panic sreg_out_of_range, it')

finish-here :
    (it it' : RegionIter) (b : Body)
    → Moved it it'
    → IsInside it'
    → finish (here it) b it' ≡ (
      ok (
          some (
            instr_of (here it) (it'.off - it.off) b,
            take (it'.off - it.off) (drop it.off it.mem),
          )),
      it',
    )
unfolding finish ◌>>=◌
finish-here it it' b m h = rw (addr_inside it' h, offset_to-here it it' m, slice-here it it' m h)

behind_body :
    (it : RegionIter) (out : Result Body × RegionIter)
    → Acts it out
    → Ate it out
    → it.off < length it.mem
    → Outcome it (roll_back (here it) (continue out (finish (here it))))
behind_body it (ok b, it') a ate h =
    rw (finish-here it it' b a.moved a.inside) (decoded b it' a.moved a.inside ate)
behind_body it (err e, it') a ate h = rw (reset_addr-Moved it it' a.moved a.inside h) (failed e)
behind_body it (panic p, it') a ate h = rw a.quiet (sreg_panic it')

end_test :
    (it : RegionIter)
    → segoff_eq (here it) (record { seg = it.base_seg; off = it.base_off + length it.mem })
      ≡ (it.off == length it.mem)
end_test it = ground (arith, seg_eq_refl it.base_seg)

module _ (it : RegionIter) (h : IsInside it) where
  pub decode_one_lem : decode_one it ≡ roll_back (here it) (decode_one_impl it)
  unfolding decode_one ◌>>=◌
  decode_one_lem = rw (addr_inside it h)

  pub impl_end : (it.off == length it.mem) ≡ true → decode_one_impl it ≡ (ok none, it)
  unfolding decode_one_impl ◌>>=◌
  impl_end e = rw (addr_inside it h, continue, end_addr_inside it h, end_test it, e)

  pub impl_more :
      (it.off == length it.mem) ≡ false
      → decode_one_impl it ≡ continue (decode_body it) (finish (here it))
  unfolding decode_one_impl decode_at ◌>>=◌
  impl_more e = rw (addr_inside it h, continue, end_addr_inside it h, end_test it, e)

-- In a region of bytes that ends before its segment does, from a cursor inside it, `decode_one`
-- ends in one of four ways. At the end of the region it returns no instruction. Elsewhere it
-- returns the instruction at the cursor's address, whose length is the number of bytes passed, at
-- least one and none beyond the region, together with exactly those bytes; or it returns an error
-- with the iterator as before the call; or the assertion on a segment register number fails.
pub decode_one-Outcome : (it : RegionIter) → IsInside it → Outcome it (decode_one it)
decode_one-Outcome it h = elim (Bool-cases (it.off == length it.mem)) [
  | inl end ↦ rw (decode_one_lem it h, impl_end it h end) (at_end (ground arith))
  | inr more ↦
      rw (decode_one_lem it h, impl_more it h more)
        (behind_body it (decode_body it) (Safe-decode_body.at it h) (decode_body-Ate it h)
          (ground (arith, h.cursor)))
]
