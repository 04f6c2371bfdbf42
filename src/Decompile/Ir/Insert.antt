-- ===== src/Decompile/Ir/Insert.antt =====
-- `insert` of dis86/src/decompile/ir/block_data.rs implements an insertion into the list of indices.
use mathlib.Core.Path.{subst}
use mathlib.Core.List.{append-nil}
use dis.Prelude.{
  ℕ, ◌<◌, ◌≡◌, ◌≢◌, inl, inr, refl, sym, ap, ◌∙◌, true, not, Option, none, some, List, [], ◌∷◌,
  ◌++◌, ◌==◌, ==_iff, arith, length, get_elem?, set_elem, length-set_elem, get_elem?-set_elem,
  get_elem?-set_elem_ne, get_elem?-append_length, &&-eq-true, length-append,
}
use dis.Result.{Result, ok, and_then}
use dis.Decompile.Ir.Def.{Ref, instr, Instr, InstrLink, InstrData}
use dis.Decompile.Ir.BlockData.{
  Loc, at_first, at_last, index_of, lookup_link, modify_link, modify_some, set_prev, set_next,
  link_first, link_last, link_at, or_ref, fix_ends, pushed, insert,
}
use dis.Decompile.Ir.Chain.{
  head_or, last_or, Segment, Segment-set, Segment-append, Segment-split, Segment-is_new, is_new,
  IsChain,
}
use dis.Decompile.Ir.Spliced.{
  is_new-append, is_distinct-apart, is_distinct-insert, last_or-append, or_ref-last, Segment-front,
  Segment-back, snoc_cases, IsSpliced, IsSpliced-Segment,
}

pub modify_link_lem :
    (d : InstrData) (i : ℕ) (l : InstrLink) (f : InstrLink → InstrLink)
    → get_elem? d.links i ≡ some l
    → modify_link d (instr d.blkref i) f ≡ ok (record d { links = set_elem d.links i (f l) })
unfolding modify_link lookup_link index_of
modify_link_lem d i l f h = rw ((==_iff d.blkref d.blkref).1 refl, h) refl

abbrev pub blank : InstrLink
blank = record { prev = none; next = none }

module _ (d : InstrData) (x : Instr) where
  abbrev pub n : ℕ
  n = length d.instrs

  abbrev pub r : Ref
  r = instr d.blkref n

  abbrev pub links : List InstrLink
  links = d.links ++ blank ∷ []

  abbrev pub with_links : List InstrLink → Option Ref → Option Ref → InstrData
  with_links ls f l = record (pushed d x) { links = ls; first = f; last = l }

  -- The insertion succeeds with the instructions in the order `xs`.
  abbrev pub Inserted : Loc → List ℕ → Type 0
  Inserted loc xs =
      (d' : InstrData) × (insert d x loc ≡ ok (r, d'))
      × IsChain d' xs
      × (d'.instrs ≡ d.instrs ++ x ∷ [])

  module _ (ys zs : List ℕ) (c : IsChain d (ys ++ zs)) where
    pub is_there : get_elem? links n ≡ some blank
    is_there =
        subst (λ k. get_elem? links k ≡ some blank) c.links_length
          (get_elem?-append_length d.links blank)

    pub in_range : n < length links
    in_range = omega (arith, length-append d.links (blank ∷ []), c.links_length)

    pub old : Segment d.blkref links none (ys ++ zs) none
    old = Segment-append d.blkref d.links (blank ∷ []) none (ys ++ zs) none c.linked

    pub fresh : is_new n (ys ++ zs) ≡ true
    fresh =
        Segment-is_new d.blkref d.links none (ys ++ zs) none n (omega (arith, c.links_length))
          c.linked

    pub inserted_lem :
        (loc : Loc) (ls : List InstrLink) (f l : Option Ref)
        → link_at loc r (pushed d x) ≡ ok (with_links ls f l)
        → length ls ≡ length links
        → or_ref f r ≡ head_or d.blkref (ys ++ n ∷ zs) none
        → or_ref l r ≡ last_or d.blkref none (ys ++ n ∷ zs)
        → IsSpliced d.blkref ls ys n zs
        → Inserted loc (ys ++ n ∷ zs)
    unfolding insert
    inserted_lem loc ls f l e len hf hl s = (
      with_links ls (or_ref f r) (or_ref l r),
      ap (λ t. and_then t λ d1. ok (r, fix_ends r d1)) e,
      record {
        links_length = omega (
          arith,
          len,
          c.links_length,
          length-append d.links (blank ∷ []),
          length-append d.instrs (x ∷ []),
        );
        all_there = omega (
          arith,
          c.all_there,
          length-append ys zs,
          length-append ys (n ∷ zs),
          length-append d.instrs (x ∷ []),
        );
        counted = omega (arith, c.counted, length-append d.instrs (x ∷ []));
        distinct = is_distinct-insert ys n zs fresh c.distinct;
        first = hf;
        last = hl;
        linked = IsSpliced-Segment d.blkref ls ys n zs s;
      },
      refl,
    )

  -- In front.
  abbrev first_with : Option Ref → Result InstrData
  first_with o =
      and_then (modify_link (pushed d x) r (λ l. record { prev = none; next = o })) λ d1.
        and_then (modify_some o (set_prev (some r)) d1) λ d2. ok (record d2 { first = some r })

  -- The new link is written first, and the others stay.
  new_link : InstrLink → List InstrLink
  new_link l = set_elem links n l

  pub apart : (j : ℕ) (zs : List ℕ) → is_new n (j ∷ zs) ≡ true → n ≢ j
  apart j zs h = let one = (&&-eq-true (not (n == j)) (is_new n zs) h).0 in ground (arith, one)

  pub modify_new :
      (ys zs : List ℕ) (c : IsChain d (ys ++ zs)) (f : InstrLink → InstrLink)
      → modify_link (pushed d x) r f ≡ ok (with_links (set_elem links n (f blank)) d.first d.last)
  modify_new ys zs c f = modify_link_lem (pushed d x) n blank f (is_there ys zs c)

  pub first_lem : (zs : List ℕ) → IsChain d zs → Inserted at_first (n ∷ zs)
  unfolding link_first
  first_lem [] c =
      inserted_lem [] [] c at_first (set_elem links n blank) (some r) d.last
        (ap first_with c.first ∙ rw (modify_new [] [] c (λ l. blank)) refl)
        (length-set_elem links n blank) refl (ap (λ o. or_ref o r) c.last)
        (record {
          here = get_elem?-set_elem links n blank (in_range [] [] c);
          before = tt;
          behind = tt;
        })
  first_lem (j ∷ zs) c =
      let new : InstrLink = record { prev = none; next = some (instr d.blkref j) } in
      let next : InstrLink = record { prev = none; next = head_or d.blkref zs none } in
      let next' : InstrLink = record { prev = some r; next = head_or d.blkref zs none } in
      let ls1 = set_elem links n new in
      let seg =
        Segment-set d.blkref links none (j ∷ zs) none n new (fresh [] (j ∷ zs) c)
          (old [] (j ∷ zs) c) in
      let new_j = (is_distinct-apart [] j zs c.distinct).1 in
      let n_j = apart j zs (fresh [] (j ∷ zs) c) in
      inserted_lem [] (j ∷ zs) c at_first (set_elem ls1 j next') (some r) d.last
        (ap first_with c.first
          ∙ rw
              (
                modify_new [] (j ∷ zs) c (λ l. new),
                modify_link_lem (with_links ls1 d.first d.last) j next (set_prev (some r)) seg.0,
              )
              refl)
        (length-set_elem ls1 j next' ∙ length-set_elem links n new) refl
        (ap (λ o. or_ref o r) c.last ∙ or_ref-last d.blkref j zs r)
        (record {
          here =
              get_elem?-set_elem_ne ls1 j n next' (λ e. n_j (sym e))
              ∙ get_elem?-set_elem links n new (in_range [] (j ∷ zs) c);
          before = tt;
          behind = Segment-front d.blkref ls1 none (some r) j zs none new_j seg;
        })

  -- Behind.
  abbrev last_with : Option Ref → Result InstrData
  last_with o =
      and_then (modify_link (pushed d x) r (λ l. record { prev = o; next = none }))
        λ d1. and_then (modify_some o (set_next (some r)) d1) λ d2. ok (record d2 { last = some r })

  pub head_or-snoc :
      (blk : ℕ) (ys : List ℕ) (k : ℕ) (zs : List ℕ)
      → or_ref (head_or blk (ys ++ k ∷ zs) none) r ≡ head_or blk (ys ++ k ∷ zs) none
  head_or-snoc blk [] k zs = refl
  head_or-snoc blk (i ∷ ys) k zs = refl

  pub head_or-more :
      (blk : ℕ) (ys : List ℕ) (k : ℕ) (zs : List ℕ)
      → head_or blk (ys ++ k ∷ []) none ≡ head_or blk ((ys ++ k ∷ []) ++ zs) none
  head_or-more blk [] k zs = refl
  head_or-more blk (i ∷ ys) k zs = refl

  last_empty : IsChain d [] → Inserted at_last (n ∷ [])
  unfolding link_last
  last_empty c =
      inserted_lem [] [] c at_last (set_elem links n blank) d.first (some r)
        (ap last_with c.last ∙ rw (modify_new [] [] c (λ l. blank)) refl)
        (length-set_elem links n blank) (ap (λ o. or_ref o r) c.first) refl
        (record {
          here = get_elem?-set_elem links n blank (in_range [] [] c);
          before = tt;
          behind = tt;
        })

  last_snoc :
      (ys : List ℕ) (k : ℕ) → IsChain d (ys ++ k ∷ []) → Inserted at_last ((ys ++ k ∷ []) ++ n ∷ [])
  unfolding link_last
  last_snoc ys k c =
      let is_last : last_or d.blkref none (ys ++ k ∷ []) ≡ some (instr d.blkref k) =
        last_or-append d.blkref none ys (k ∷ []) in
      let new : InstrLink = record { prev = some (instr d.blkref k); next = none } in
      let prev : InstrLink = record { prev = last_or d.blkref none ys; next = none } in
      let prev' : InstrLink = record { prev = last_or d.blkref none ys; next = some r } in
      let ls1 = set_elem links n new in
      let new_n = fresh ys (k ∷ []) c in
      let seg =
        Segment-set d.blkref links none (ys ++ k ∷ []) none n new new_n (old ys (k ∷ []) c) in
      let at_k = (Segment-split d.blkref ls1 none ys (k ∷ []) none seg).1.0 in
      let n_k =
        apart k []
          (&&-eq-true (is_new n ys) (is_new n (k ∷ []))
            (sym (is_new-append n ys (k ∷ [])) ∙ new_n)).1 in
      inserted_lem (ys ++ k ∷ []) [] (subst (IsChain d) (sym (append-nil (ys ++ k ∷ []))) c) at_last
        (set_elem ls1 k prev') d.first (some r)
        (ap last_with (c.last ∙ is_last)
          ∙ rw
              (
                modify_new ys (k ∷ []) c (λ l. new),
                modify_link_lem (with_links ls1 d.first d.last) k prev (set_next (some r)) at_k,
              )
              refl)
        (length-set_elem ls1 k prev' ∙ length-set_elem links n new)
        (ap (λ o. or_ref o r) c.first
          ∙ head_or-snoc d.blkref ys k []
          ∙ head_or-more d.blkref ys k (n ∷ []))
        (sym (last_or-append d.blkref none (ys ++ k ∷ []) (n ∷ [])))
        (record {
          here =
              get_elem?-set_elem_ne ls1 k n prev' (λ e. n_k (sym e))
              ∙ get_elem?-set_elem links n new (in_range ys (k ∷ []) c)
              ∙ ap (λ o. some (record { prev = o; next = none })) (sym is_last);
          before =
              Segment-back d.blkref ls1 none ys k none (some r)
                (is_distinct-apart ys k [] c.distinct).0 seg;
          behind = tt;
        })

  pub last_lem : (xs : List ℕ) → IsChain d xs → Inserted at_last (xs ++ n ∷ [])
  last_lem xs c = elim (snoc_cases xs) [
    | inl e ↦
        subst (λ us. Inserted at_last (us ++ n ∷ [])) (sym e) (last_empty (subst (IsChain d) e c))
    | inr e ↦
        subst (λ us. Inserted at_last (us ++ n ∷ [])) (sym e.2)
          (last_snoc e.0 e.1 (subst (IsChain d) e.2 c))
  ]
