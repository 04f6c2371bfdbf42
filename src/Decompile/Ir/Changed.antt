-- ===== src/Decompile/Ir/Changed.antt =====
-- `instr_mut` of dis86/src/decompile/ir/methods.rs: what one changed instruction leaves as it was.
use mathlib.Core.List.{map}
use mathlib.Core.Path.{subst, fun_ext, ap₂}
use dis.Prelude.{
  ℕ, ◌≡◌, ◌≢◌, refl, sym, ap, ◌∙◌, ◌⊎◌, ◌↔◌, inl, inr, some, length, get_elem?, set_elem,
  get_elem?-set_elem, get_elem?-set_elem_ne, lt-length_of_get_elem?, ◌<◌, ◌^◌, ◌>>=◌,
}
use dis.Result.{ok}
use dis.Decompile.Ir.Def.{Ref, const, instr, Instr, Block, Ir}
use dis.Decompile.Ir.Methods.{block_at, block_mut, iter_instrs, data_refs, instr_mut}
use dis.Decompile.Ir.Value.{
  find_block, find_instr, Valuation, value, Computes, Satisfies, is_some, is_valid, IsFine, is_live,
  IsWellFormed, Equation, eval,
}
use dis.Decompile.Ir.Rewrite.{
  Kept, bind-eq-some, eq_or_ne, find_block-mut, find_block-mut_ne, refs_from-with_instrs, changed,
  instr_mut_lem, block_at_lem, some-injective,
}

-- Values that agree with every instruction but one.
pub record SatisfiesBut (ir : Ir) (b i : ℕ) (val : Valuation) : Type 0 where
  pub small : (r : Ref) → val r < 2 ^ 32
  pub computes :
      (c j : ℕ) (z : Instr)
      → find_instr ir c j ≡ some z
      → (b ≢ c) ⊎ (i ≢ j)
      → Computes ir val (instr c j) z

module _ (ir : Ir) (b i : ℕ) (x y : Instr) (blk : Block) (h : find_block ir b ≡ some blk)
    (k : get_elem? blk.instr_data.instrs i ≡ some x) where
  abbrev after : Ir
  after = block_mut ir b (changed blk i y)

  block_there : find_block after b ≡ some (changed blk i y)
  block_there = find_block-mut ir b blk (changed blk i y) h

  block_elsewhere : (c : ℕ) → b ≢ c → find_block after c ≡ find_block ir c
  block_elsewhere c n = find_block-mut_ne ir b c (changed blk i y) n

  there : find_instr after b i ≡ some y
  there = rw block_there (
      get_elem?-set_elem blk.instr_data.instrs i y
        (lt-length_of_get_elem? blk.instr_data.instrs i x k))

  found : find_instr ir b i ≡ some x
  found = rw h k

  elsewhere : (c j : ℕ) → ((b ≡ c) × (i ≡ j)) ⊎ (find_instr after c j ≡ find_instr ir c j)
  elsewhere c j = elim (eq_or_ne b c) [
    | inl same ↦ elim (eq_or_ne i j) [
      | inl here ↦ inl (same, here)
      | inr n ↦ inr (
          subst (λ d. find_instr after d j ≡ find_instr ir d j) same
            (rw (block_there, h) (get_elem?-set_elem_ne blk.instr_data.instrs i j y n)))
    ]
    | inr n ↦ inr (ap (λ o. o >>= λ blk'. get_elem? blk'.instr_data.instrs j) (block_elsewhere c n))
  ]

  same_blocks : (c : ℕ) → is_some (find_block after c) ≡ is_some (find_block ir c)
  same_blocks c = elim (eq_or_ne b c) [
    | inl same ↦
        subst (λ d. is_some (find_block after d) ≡ is_some (find_block ir d)) same
          (rw (block_there, h) refl)
    | inr n ↦ ap is_some (block_elsewhere c n)
  ]

  same_instrs : (c j : ℕ) → is_some (find_instr after c j) ≡ is_some (find_instr ir c j)
  same_instrs c j = elim (elsewhere c j) [
    | inl same ↦
        subst (λ d. is_some (find_instr after d j) ≡ is_some (find_instr ir d j)) same.0
          (subst (λ l. is_some (find_instr after b l) ≡ is_some (find_instr ir b l)) same.1
            (ap is_some there ∙ sym (ap is_some found)))
    | inr e ↦ ap is_some e
  ]

  walk_there : iter_instrs after b ≡ iter_instrs ir b
  unfolding iter_instrs data_refs
  walk_there =
      rw (block_at_lem after b (changed blk i y) block_there, block_at_lem ir b blk h)
        (refs_from-with_instrs (set_elem blk.instr_data.instrs i y) (length blk.instr_data.links)
          blk.instr_data blk.instr_data.first)

  walk_elsewhere : (c : ℕ) → b ≢ c → iter_instrs after c ≡ iter_instrs ir c
  unfolding iter_instrs block_at block_mut
  walk_elsewhere c n = rw (get_elem?-set_elem_ne ir.blocks b c (some (changed blk i y)) n) refl

  same_walk : (c : ℕ) → iter_instrs after c ≡ iter_instrs ir c
  same_walk c = elim (eq_or_ne b c) [
    | inl same ↦ subst (λ d. iter_instrs after d ≡ iter_instrs ir d) same walk_there
    | inr n ↦ walk_elsewhere c n
  ]

  same_valid : (r : Ref) → is_valid after r ≡ is_valid ir r
  unfolding block_mut
  same_valid (const n) = refl
  same_valid (instr c j) = same_instrs c j
  same_valid _ = refl

  same_live : (r : Ref) → is_live after r ≡ is_live ir r
  same_live (instr c j) = same_instrs c j
  same_live _ = refl

  same_value : (val : Valuation) (r : Ref) → value after val r ≡ value ir val r
  unfolding block_mut
  same_value val (const n) = refl
  same_value val _ = refl

  same_IsFine : (z : Instr) → IsFine ir z → IsFine after z
  same_IsFine z p = record { count = p.count; valid = rw (fun_ext same_valid) p.valid }

  same_Computes :
      (val : Valuation) (r : Ref) (z : Instr) → Computes ir val r z → Computes after val r z
  same_Computes val r z p =
      subst (λ f. Equation (val r) (eval z (map f z.operands))) (sym (fun_ext (same_value val))) p

  back_Computes :
      (val : Valuation) (r : Ref) (z : Instr) → Computes after val r z → Computes ir val r z
  back_Computes val r z p =
      subst (λ f. Equation (val r) (eval z (map f z.operands))) (fun_ext (same_value val)) p

  but_of_before : (val : Valuation) → Satisfies ir val → SatisfiesBut ir b i val
  but_of_before val s = record { small = s.small; computes = λ c j z e n. s.computes c j z e }

  elsewhere_ne : (c j : ℕ) → (b ≢ c) ⊎ (i ≢ j) → find_instr after c j ≡ find_instr ir c j
  elsewhere_ne c j n = elim (elsewhere c j) [
    | inl same ↦ elim n [ inl m ↦ absurd (m same.0) | inr m ↦ absurd (m same.1) ]
    | inr e ↦ e
  ]

  but_of_after : (val : Valuation) → Satisfies after val → SatisfiesBut ir b i val
  but_of_after val s = record {
    small = s.small;
    computes =
        λ c j z e n. back_Computes val (instr c j) z (s.computes c j z (elsewhere_ne c j n ∙ e));
  }

  instr_cases :
      (c j : ℕ) (z : Instr)
      → find_instr ir c j ≡ some z
      → ((instr b i ≡ instr c j) × (x ≡ z)) ⊎ ((b ≢ c) ⊎ (i ≢ j))
  instr_cases c j z e = elim (eq_or_ne b c) [
    | inl same ↦ elim (eq_or_ne i j) [
      | inl here ↦
          inl (ap₂ instr same here, some-injective (sym found ∙ ap₂ (find_instr ir) same here ∙ e))
      | inr n ↦ inr (inr n)
    ]
    | inr n ↦ inr (inl n)
  ]

  find_instr-after :
      (c j : ℕ) (z : Instr)
      → find_instr after c j ≡ some z
      → ((instr b i ≡ instr c j) × (y ≡ z)) ⊎ (find_instr ir c j ≡ some z)
  find_instr-after c j z e = elim (elsewhere c j) [
    | inl same ↦ inl (
      ap₂ instr same.0 same.1,
      some-injective (sym there ∙ ap₂ (find_instr after) same.0 same.1 ∙ e),
    )
    | inr eq ↦ inr (sym eq ∙ e)
  ]

  after-IsWellFormed : IsWellFormed ir → IsFine ir y → IsWellFormed after
  unfolding block_mut
  after-IsWellFormed w fine = record {
    blkref = λ c found e. elim (eq_or_ne b c) [
      | inl same ↦
          ap (λ (t : Block). t.instr_data.blkref)
            (some-injective (sym e ∙ ap (find_block after) (sym same) ∙ block_there))
          ∙ w.blkref b blk h
          ∙ same
      | inr n ↦ w.blkref c found (sym (block_elsewhere c n) ∙ e)
    ];
    walked = λ c e.
        let old = w.walked c (sym (same_blocks c) ∙ e) in
        record {
          refs = old.refs;
          walk = same_walk c ∙ old.walk;
          live = rw (fun_ext same_live) old.live;
        };
    fine = λ c j z e. elim (find_instr-after c j z e) [
      | inl here ↦ same_IsFine z (subst (IsFine ir) here.1 fine)
      | inr old ↦ same_IsFine z (w.fine c j z old)
    ];
    words = w.words;
  }

  after-Kept :
      IsWellFormed ir
      → IsFine ir y
      → ((val : Valuation)
          → SatisfiesBut ir b i val
          → Computes ir val (instr b i) x ↔ Computes ir val (instr b i) y)
      → Kept ir after
  after-Kept w fine agree = record {
    well_formed = after-IsWellFormed w fine;
    same_blocks = same_blocks;
    same_instrs = same_instrs;
    same_values = λ val. (
      λ s. record {
        small = s.small;
        computes = λ c j z e. elim (find_instr-after c j z e) [
          | inl here ↦ same_Computes val (instr c j) z (
              subst (λ r. Computes ir val r z) here.0
                (subst (Computes ir val (instr b i)) here.1
                  ((agree val (but_of_before val s)).0 (s.computes b i x found))))
          | inr old ↦ same_Computes val (instr c j) z (s.computes c j z old)
        ];
      },
      λ s. record {
        small = s.small;
        computes = λ c j z e. elim (instr_cases c j z e) [
          | inl here ↦
              subst (λ r. Computes ir val r z) here.0
                (subst (Computes ir val (instr b i)) here.1 (
                  (agree val (but_of_after val s)).1
                    (back_Computes val (instr b i) y (s.computes b i y there))))
          | inr n ↦ (but_of_after val s).computes c j z e n
        ];
      },
    );
  }

-- An instruction is changed to one that computes the same, whatever agrees with the other ones.
pub instr_mut-Kept :
    (ir : Ir) (b i : ℕ) (x : Instr) (f : Instr → Instr)
    → IsWellFormed ir
    → find_instr ir b i ≡ some x
    → IsFine ir (f x)
    → ((val : Valuation)
        → SatisfiesBut ir b i val
        → Computes ir val (instr b i) x ↔ Computes ir val (instr b i) (f x))
    → (ir' : Ir) × (instr_mut ir (instr b i) f ≡ ok ir') × Kept ir ir'
instr_mut-Kept ir b i x f w e fine agree =
    let at = bind-eq-some (find_block ir b) (λ blk. get_elem? blk.instr_data.instrs i) x e in
    (
      after ir b i x (f x) at.0 at.1 at.2,
      instr_mut_lem ir b i x f at.0 (w.blkref b at.0 at.1) at.1 at.2,
      after-Kept ir b i x (f x) at.0 at.1 at.2 w fine agree,
    )
