-- ===== src/Decompile/Ir/InsertBefore.antt =====
-- `insert` of dis86/src/decompile/ir/block_data.rs in front of an instruction.
use mathlib.Core.Path.{subst}
use mathlib.Core.List.{append_assoc}
use dis.Prelude.{
  ℕ, ◌<◌, ◌≡◌, inl, inr, refl, sym, ap, ◌∙◌, true, none, some, List, [], ◌∷◌, ◌++◌, ==_iff, length,
  get_elem?, set_elem, length-set_elem, get_elem?-set_elem, get_elem?-set_elem_ne, &&-eq-true,
}
use dis.Result.{ok}
use dis.Decompile.Ir.Def.{Ref, instr, Instr, InstrLink, InstrData}
use dis.Decompile.Ir.BlockData.{
  before, index_of, lookup_link, set_prev, set_next, data_prev, link_before, link_behind, or_ref,
  pushed,
}
use dis.Decompile.Ir.Chain.{
  head_or, last_or, Segment, Segment-set, Segment-split, is_new, is_distinct, IsChain,
}
use dis.Decompile.Ir.Spliced.{
  is_new-append, is_distinct-apart, last_or-append, or_ref-last, Segment-front, Segment-back,
  snoc_cases,
}
use dis.Decompile.Ir.Insert.{
  Inserted, n, r, links, with_links, modify_link_lem, modify_new, in_range, old, fresh,
  inserted_lem, apart,
}

data_prev_lem :
    (d : InstrData) (i : ℕ) (l : InstrLink)
    → get_elem? d.links i ≡ some l
    → data_prev d (instr d.blkref i) ≡ ok l.prev
unfolding data_prev lookup_link index_of
data_prev_lem d i l h = rw ((==_iff d.blkref d.blkref).1 refl, h) refl

module _ (d : InstrData) (x : Instr) (ys : List ℕ) (j : ℕ) (zs : List ℕ)
    (c : IsChain d (ys ++ j ∷ zs)) where
  abbrev idx : ℕ
  idx = n d x

  abbrev new_ref : Ref
  new_ref = r d x

  abbrev to_next : InstrLink
  to_next = record { prev = none; next = some (instr d.blkref j) }

  abbrev to_both : InstrLink
  to_both = record { prev = last_or d.blkref none ys; next = some (instr d.blkref j) }

  abbrev old_next : InstrLink
  old_next = record { prev = last_or d.blkref none ys; next = head_or d.blkref zs none }

  abbrev new_next : InstrLink
  new_next = record { prev = some new_ref; next = head_or d.blkref zs none }

  abbrev links1 : List InstrLink
  links1 = set_elem (links d x) idx to_next

  abbrev links2 : List InstrLink
  links2 = set_elem links1 idx to_both

  abbrev links3 : List InstrLink
  links3 = set_elem links2 j new_next

  new_idx : is_new idx (ys ++ j ∷ zs) ≡ true
  new_idx = fresh d x ys (j ∷ zs) c

  new_parts : (is_new idx ys ≡ true) × (is_new idx (j ∷ zs) ≡ true)
  new_parts =
      &&-eq-true (is_new idx ys) (is_new idx (j ∷ zs))
        (sym (is_new-append idx ys (j ∷ zs)) ∙ new_idx)

  parts1 :
      Segment d.blkref (links d x) none ys (some (instr d.blkref j))
      × Segment d.blkref (links d x) (last_or d.blkref none ys) (j ∷ zs) none
  parts1 = Segment-split d.blkref (links d x) none ys (j ∷ zs) none (old d x ys (j ∷ zs) c)

  parts2 :
      Segment d.blkref links2 none ys (some (instr d.blkref j))
      × Segment d.blkref links2 (last_or d.blkref none ys) (j ∷ zs) none
  parts2 = Segment-split d.blkref links2 none ys (j ∷ zs) none (
      Segment-set d.blkref links1 none (ys ++ j ∷ zs) none idx to_both new_idx (
        Segment-set d.blkref (links d x) none (ys ++ j ∷ zs) none idx to_next new_idx
          (old d x ys (j ∷ zs) c)))

  length3 : length links3 ≡ length (links d x)
  length3 =
      length-set_elem links2 j new_next
      ∙ length-set_elem links1 idx to_both
      ∙ length-set_elem (links d x) idx to_next

  in_range1 : idx < length links1
  in_range1 =
      subst (λ l. idx < l) (sym (length-set_elem (links d x) idx to_next))
        (in_range d x ys (j ∷ zs) c)

  here3 : get_elem? links3 idx ≡ some to_both
  here3 =
      get_elem?-set_elem_ne links2 j idx new_next (λ e. apart d x j zs new_parts.1 (sym e))
      ∙ get_elem?-set_elem links1 idx to_both in_range1

  before3 : Segment d.blkref links3 none ys (some (instr d.blkref j))
  before3 =
      Segment-set d.blkref links2 none ys (some (instr d.blkref j)) j new_next
        (is_distinct-apart ys j zs c.distinct).0 parts2.0

  behind3 : Segment d.blkref links3 (some new_ref) (j ∷ zs) none
  behind3 =
      Segment-front d.blkref links2 (last_or d.blkref none ys) (some new_ref) j zs none
        (is_distinct-apart ys j zs c.distinct).1 parts2.1

  link_before_lem :
      link_before new_ref (instr d.blkref j) (pushed d x)
      ≡ link_behind (last_or d.blkref none ys) new_ref (with_links d x links3 d.first d.last)
  unfolding link_before
  link_before_lem =
      rw
        (
          data_prev_lem (pushed d x) j old_next parts1.1.0,
          modify_new d x ys (j ∷ zs) c (set_next (some (instr d.blkref j))),
          modify_link_lem (with_links d x links1 d.first d.last) idx to_next
              (set_prev (last_or d.blkref none ys))
              (get_elem?-set_elem (links d x) idx to_next (in_range d x ys (j ∷ zs) c)),
          modify_link_lem (with_links d x links2 d.first d.last) j old_next
              (set_prev (some new_ref)) parts2.1.0,
        )
        refl

module _ (d : InstrData) (x : Instr) where
  before_front :
      (j : ℕ) (zs : List ℕ)
      → IsChain d (j ∷ zs)
      → Inserted d x (before (instr d.blkref j)) (n d x ∷ j ∷ zs)
  before_front j zs c =
      inserted_lem d x [] (j ∷ zs) c (before (instr d.blkref j)) (links3 d x [] j zs c)
        (some (r d x)) d.last (link_before_lem d x [] j zs c) (length3 d x [] j zs c) refl
        (ap (λ o. or_ref o (r d x)) c.last ∙ or_ref-last d.blkref j zs (r d x))
        (record { here = here3 d x [] j zs c; before = tt; behind = behind3 d x [] j zs c })

  last_or-insert :
      (ys : List ℕ) (j : ℕ) (zs : List ℕ) (k : ℕ)
      → or_ref (last_or d.blkref none (ys ++ j ∷ zs)) (r d x)
        ≡ last_or d.blkref none (ys ++ k ∷ j ∷ zs)
  last_or-insert ys j zs k =
      ap (λ o. or_ref o (r d x)) (last_or-append d.blkref none ys (j ∷ zs))
      ∙ or_ref-last d.blkref j zs (r d x)
      ∙ sym (last_or-append d.blkref none ys (k ∷ j ∷ zs))

  head_or-both :
      (ws : List ℕ) (k : ℕ) (us vs : List ℕ)
      → or_ref (head_or d.blkref ((ws ++ k ∷ []) ++ us) none) (r d x)
        ≡ head_or d.blkref ((ws ++ k ∷ []) ++ vs) none
  head_or-both [] k us vs = refl
  head_or-both (i ∷ ws) k us vs = refl

  before_snoc :
      (ws : List ℕ) (k j : ℕ) (zs : List ℕ)
      → IsChain d ((ws ++ k ∷ []) ++ j ∷ zs)
      → Inserted d x (before (instr d.blkref j)) ((ws ++ k ∷ []) ++ n d x ∷ j ∷ zs)
  before_snoc ws k j zs c =
      let ys = ws ++ k ∷ [] in
      let is_last : last_or d.blkref none ys ≡ some (instr d.blkref k) =
        last_or-append d.blkref none ws (k ∷ []) in
      let prev : InstrLink = record {
        prev = last_or d.blkref none ws;
        next = some (instr d.blkref j);
      } in
      let prev' : InstrLink = record { prev = last_or d.blkref none ws; next = some (r d x) } in
      let ls3 = links3 d x ys j zs c in
      let at_k =
        (Segment-split d.blkref ls3 none ws (k ∷ []) (some (instr d.blkref j))
          (before3 d x ys j zs c)).1.0 in
      let new_k =
        is_distinct-apart ws k (j ∷ zs)
          (subst (λ us. is_distinct us ≡ true) (append_assoc ws (k ∷ []) (j ∷ zs)) c.distinct) in
      let n_ys = (new_parts d x ys j zs c).0 in
      let n_k =
        apart d x k []
          (&&-eq-true (is_new (n d x) ws) (is_new (n d x) (k ∷ []))
            (sym (is_new-append (n d x) ws (k ∷ [])) ∙ n_ys)).1 in
      inserted_lem d x ys (j ∷ zs) c (before (instr d.blkref j)) (set_elem ls3 k prev') d.first
        d.last
        (link_before_lem d x ys j zs c
          ∙ ap (λ o. link_behind o (r d x) (with_links d x ls3 d.first d.last)) is_last
          ∙ modify_link_lem (with_links d x ls3 d.first d.last) k prev (set_next (some (r d x)))
              at_k)
        (length-set_elem ls3 k prev' ∙ length3 d x ys j zs c)
        (ap (λ o. or_ref o (r d x)) c.first ∙ head_or-both ws k (j ∷ zs) (n d x ∷ j ∷ zs))
        (ap (λ o. or_ref o (r d x)) c.last ∙ last_or-insert ys j zs (n d x))
        (record {
          here = get_elem?-set_elem_ne ls3 k (n d x) prev' (λ e. n_k (sym e)) ∙ here3 d x ys j zs c;
          before =
              Segment-back d.blkref ls3 none ws k (some (instr d.blkref j)) (some (r d x)) new_k.0
                (before3 d x ys j zs c);
          behind =
              Segment-set d.blkref ls3 (some (r d x)) (j ∷ zs) none k prev' new_k.1
                (behind3 d x ys j zs c);
        })

  pub before_lem :
      (ys : List ℕ) (j : ℕ) (zs : List ℕ)
      → IsChain d (ys ++ j ∷ zs)
      → Inserted d x (before (instr d.blkref j)) (ys ++ n d x ∷ j ∷ zs)
  before_lem ys j zs c = elim (snoc_cases ys) [
    | inl e ↦
        subst (λ us. Inserted d x (before (instr d.blkref j)) (us ++ n d x ∷ j ∷ zs)) (sym e)
          (before_front j zs (subst (λ us. IsChain d (us ++ j ∷ zs)) e c))
    | inr e ↦
        subst (λ us. Inserted d x (before (instr d.blkref j)) (us ++ n d x ∷ j ∷ zs)) (sym e.2)
          (before_snoc e.0 e.1 j zs (subst (λ us. IsChain d (us ++ j ∷ zs)) e.2 c))
  ]
