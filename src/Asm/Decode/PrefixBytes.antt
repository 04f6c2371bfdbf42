-- ===== src/Asm/Decode/PrefixBytes.antt =====
-- The prefixes that the loop of dis86/src/asm/decode.rs keeps, from the bytes in front of the opcode.
use dis.Prelude.{
  ℕ, zero, suc, ◌+◌, ◌≡◌, refl, ap, ◌∙◌, Bool, true, false, ◌||◌, Option, Option-cases, inl, inr,
  none, some, List, [], ◌∷◌, arith, ◌==◌, if◌then◌else◌, length, get_elem?, drop, drop-at_elem,
}
use dis.Region.{RegionIter, pure, lift, ◌>>=◌, advance, advance_by}
use dis.Region.Keeps.{IsInside, peek_checked_inside, advance_inside}
use dis.Region.Returns.{Holds, Holds-weaken}
use dis.Asm.Instr.{Rep}
use dis.Asm.Decode.{Prefixes, no_prefixes, prefix_byte, prefix_round, read_prefixes, prefixes}
use dis.Asm.Decode.PrefixLoop.{round_byte}

-- The segment overrides, LOCK and the two repetitions.
abbrev pub is_prefix : ℕ → Bool
is_prefix b =
    b == 0x26
    || (b == 0x2e || (b == 0x36 || (b == 0x3e || (b == 0xf0 || (b == 0xf2 || b == 0xf3)))))

-- The prefix bytes in front of the first other byte.
unfoldable pub prefix_bytes : List ℕ → List ℕ
prefix_bytes [] = []
prefix_bytes (b ∷ bs) = let rest = prefix_bytes bs in if is_prefix b then b ∷ rest else []

unfoldable pub has_lock : List ℕ → Bool
has_lock [] = false
has_lock (b ∷ bs) = b == 0xf0 || has_lock bs

abbrev pub rep_byte : ℕ → Option Rep → Option Rep
rep_byte b r = if b == 0xf2 then some Rep.ne else if b == 0xf3 then some Rep.eq else r

-- The last repetition wins; `r` is the one before these bytes.
unfoldable pub last_rep : Option Rep → List ℕ → Option Rep
last_rep r [] = r
last_rep r (b ∷ bs) = last_rep (rep_byte b r) bs

-- What one byte does to the prefixes.
abbrev Step : Prefixes → ℕ → Option Prefixes → Type 0
Step p b none = is_prefix b ≡ false
Step p b (some q) =
    (is_prefix b ≡ true) × (q.lock ≡ (b == 0xf0 || p.lock)) × (q.rep ≡ rep_byte b p.rep)

prefix_byte-Step : (p : Prefixes) (b : ℕ) → Step p b (prefix_byte p b)
unfolding prefix_byte
prefix_byte-Step p b = ground arith

-- The bytes at the cursor, and behind it once it advances.
bytes_at :
    (it : RegionIter) (b : ℕ)
    → get_elem? it.mem it.off ≡ some b
    → drop it.off it.mem ≡ b ∷ drop (advance it).1.off (advance it).1.mem
unfolding advance advance_by
bytes_at it b e =
    let place : suc it.off ≡ it.off + 1 = omega arith in
    drop-at_elem it.mem it.off b e ∙ ap (λ n. b ∷ drop n it.mem) place

-- The prefixes `q` are what these bytes make of `p`.
abbrev pub Read : Prefixes → List ℕ → Prefixes → Type 0
Read p bs q =
    (q.lock ≡ (has_lock (prefix_bytes bs) || p.lock)) × (q.rep ≡ last_rep p.rep (prefix_bytes bs))

Read-stop : (p : Prefixes) (b : ℕ) (bs : List ℕ) → is_prefix b ≡ false → Read p (b ∷ bs) p
unfolding prefix_bytes has_lock last_rep
Read-stop p b bs h = rw h (refl, refl)

or_front : (a b c : Bool) → (a || (b || c)) ≡ ((b || a) || c)
or_front a b c = ground arith

Read-next :
    (p q r : Prefixes) (b : ℕ) (bs : List ℕ) → Step p b (some q) → Read q bs r → Read p (b ∷ bs) r
unfolding prefix_bytes has_lock last_rep
Read-next p q r b bs (h, l, e) (l', e') = rw h (
  l'
      ∙ ap (λ c. has_lock (prefix_bytes bs) || c) l
      ∙ or_front (has_lock (prefix_bytes bs)) (b == 0xf0) p.lock,
  e' ∙ ap (λ c. last_rep c (prefix_bytes bs)) e,
)

read_prefixes-Read :
    (fuel : ℕ) (p : Prefixes) (it : RegionIter)
    → IsInside it
    → Holds (Read p (drop it.off it.mem)) (read_prefixes fuel p it)
unfolding read_prefixes ◌>>=◌ lift
read_prefixes-Read zero p it h = tt
read_prefixes-Read (suc fuel) p it h = elim (Option-cases (get_elem? it.mem it.off)) [
  | inl e ↦ rw (peek_checked_inside it none h e) tt
  | inr found ↦
      let (b, e) = found in
      let next = advance_inside it b h e in
      let it1 = (advance it).1 in
      rw (round_byte fuel p it h b e, bytes_at it b e)
        (at_byte b (drop it1.off it1.mem) (prefix_byte p b) (prefix_byte-Step p b)
          (λ q. read_prefixes-Read fuel q it1 next.inside))
]
  where
    at_byte :
        (b : ℕ) (bs : List ℕ) (o : Option Prefixes)
        → Step p b o
        → ((q : Prefixes) → Holds (Read q bs) (read_prefixes fuel q (advance it).1))
        → Holds (Read p (b ∷ bs)) (prefix_round p (read_prefixes fuel) o it)
    at_byte b bs none s k = unfold pure in Read-stop p b bs s
    at_byte b bs (some q) s k =
        unfold advance advance_by in
        Holds-weaken (Read q bs) (Read p (b ∷ bs)) (λ r. Read-next p q r b bs s) _ (k q)

-- The loop over the prefixes, from inside a region.
pub prefixes-Read :
    (it : RegionIter) → IsInside it → Holds (Read no_prefixes (drop it.off it.mem)) (prefixes it)
unfolding prefixes
prefixes-Read it h = read_prefixes-Read (suc (length it.mem)) no_prefixes it h
