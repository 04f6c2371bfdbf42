-- ===== src/Decompile/Ir/BlockData.antt =====
-- dis86/src/decompile/ir/block_data.rs: the instructions of a block, in a vector that only grows,
-- in the order of a doubly linked list through a second vector. A method that takes `&mut self`
-- returns the changed data.
use dis.Prelude.{
  ℕ, ◌+◌, Option, none, some, [], ◌∷◌, ◌++◌, ◌==◌, if◌then◌else◌, length, get_elem?, set_elem,
}
use dis.Result.{
  Result, ok, panic, and_then, from_option, expected_instr_ref, wrong_block, invalid_ref,
  unimpl_insert,
}
use dis.Decompile.Ir.Def.{Ref, instr, Instr, InstrLink, InstrData}

pub data Loc : Type 0 where
  at_first at_last : Loc
  before after : Ref → Loc

abbrev pub data_new : ℕ → InstrData
data_new blkref = record {
  blkref = blkref;
  links = [];
  instrs = [];
  count = 0;
  first = none;
  last = none;
}

-- The tests that `lookup`, `lookup_mut`, `lookup_link` and `lookup_link_mut` share.
unfoldable pub index_of : InstrData → Ref → Result ℕ
index_of d (instr blkref idx) = if blkref == d.blkref then ok idx else panic wrong_block
index_of d _ = panic expected_instr_ref

unfoldable pub lookup : InstrData → Ref → Result Instr
lookup d r = and_then (index_of d r) λ idx. from_option invalid_ref (get_elem? d.instrs idx)

-- `*lookup_mut(r) = f(..)`
unfoldable pub modify : InstrData → Ref → (Instr → Instr) → Result InstrData
unfolding lookup
modify d r f =
    and_then (index_of d r)
      λ idx. and_then (lookup d r) λ x. ok (record d { instrs = set_elem d.instrs idx (f x) })

unfoldable pub lookup_link : InstrData → Ref → Result InstrLink
unfolding index_of
lookup_link d r = and_then (index_of d r) λ idx. from_option invalid_ref (get_elem? d.links idx)

unfoldable pub modify_link : InstrData → Ref → (InstrLink → InstrLink) → Result InstrData
unfolding lookup_link
modify_link d r f =
    and_then (index_of d r)
      λ idx. and_then (lookup_link d r) λ l. ok (record d { links = set_elem d.links idx (f l) })

abbrev pub set_prev : Option Ref → InstrLink → InstrLink
set_prev p l = record l { prev = p }

abbrev pub set_next : Option Ref → InstrLink → InstrLink
set_next n l = record l { next = n }

unfoldable pub data_next : InstrData → Ref → Result (Option Ref)
unfolding lookup_link
data_next d r = and_then (lookup_link d r) λ l. ok l.next

unfoldable pub data_prev : InstrData → Ref → Result (Option Ref)
unfolding lookup_link
data_prev d r = and_then (lookup_link d r) λ l. ok l.prev

-- `if let Some(..) = o { lookup_link_mut(..).. }`
abbrev pub modify_some : Option Ref → (InstrLink → InstrLink) → InstrData → Result InstrData
modify_some none f d = ok d
modify_some (some r) f d = modify_link d r f

unfoldable pub link_first : Ref → InstrData → Result InstrData
unfolding modify_link
link_first r d = and_then (modify_link d r (λ l. record { prev = none; next = d.first })) λ d1.
    and_then (modify_some d.first (set_prev (some r)) d1) λ d2. ok (record d2 { first = some r })

unfoldable pub link_last : Ref → InstrData → Result InstrData
unfolding modify_link
link_last r d = and_then (modify_link d r (λ l. record { prev = d.last; next = none })) λ d1.
    and_then (modify_some d.last (set_next (some r)) d1) λ d2. ok (record d2 { last = some r })

abbrev pub link_behind : Option Ref → Ref → InstrData → Result InstrData
link_behind none r d = ok (record d { first = some r })
link_behind (some prev) r d = modify_link d prev (set_next (some r))

unfoldable pub link_before : Ref → Ref → InstrData → Result InstrData
unfolding modify_link data_prev
link_before r next d = and_then (data_prev d next) λ prev.
    and_then (modify_link d r (set_next (some next))) λ d1.
      and_then (modify_link d1 r (set_prev prev))
        λ d2. and_then (modify_link d2 next (set_prev (some r))) λ d3. link_behind prev r d3

abbrev pub link_at : Loc → Ref → InstrData → Result InstrData
link_at at_first r d = link_first r d
link_at at_last r d = link_last r d
link_at (before next) r d = link_before r next d
link_at (after _) r d = panic unimpl_insert

abbrev pub or_ref : Option Ref → Ref → Option Ref
or_ref none r = some r
or_ref (some s) r = some s

-- On the first insertion both ends are the new instruction.
abbrev pub fix_ends : Ref → InstrData → InstrData
fix_ends r d = record d { first = or_ref d.first r; last = or_ref d.last r }

abbrev pub pushed : InstrData → Instr → InstrData
pushed d x = record d {
  instrs = d.instrs ++ x ∷ [];
  links = d.links ++ record { prev = none; next = none } ∷ [];
  count = d.count + 1;
}

unfoldable pub insert : InstrData → Instr → Loc → Result (Ref × InstrData)
unfolding link_first link_last link_before
insert d x loc =
    let r : Ref = instr d.blkref (length d.instrs) in
    and_then (link_at loc r (pushed d x)) λ d1. ok (r, fix_ends r d1)
