-- ===== src/Hash/Template/Absorb.antt =====
-- The specification of a block-wise hash: one byte at a time, into a block that is compressed when
-- it is full.
use native.Mathlib.Nat.{mod-lt, mod-eq_of_lt, mod_self, mod-add-mod}
use mathlib.Core.List.{append-nil, append_assoc}
use drew.Prelude.{
  ℕ, zero, suc, ◌+◌, ◌%◌, ◌≤◌, ◌<◌, ◌≡◌, refl, sym, ap, ◌∙◌, inl, inr, true, false, List, [], ◌∷◌,
  ◌++◌, length, take, drop, length-append, length-take, length-drop, take-append-drop, leb, ◌==◌,
  if◌then◌else◌, Bool-cases, arith,
}
use drew.Hash.Template.{Algorithm, whole_blocks}

-- The hash of the blocks so far, and the bytes of the block that is not full.
pub record Absorbed : Type 0 where
  pub hash : List ℕ
  pub pending : List ℕ

module _ (a : Algorithm) where
  unfoldable pub absorb_byte : Absorbed → ℕ → Absorbed
  absorb_byte s x =
      let p = s.pending ++ x ∷ [] in
      if length p == a.block_size
      then record { hash = a.transform s.hash p; pending = [] }
      else record s { pending = p }

  unfoldable pub absorb : Absorbed → List ℕ → Absorbed
  absorb s [] = s
  absorb s (x ∷ xs) = absorb (absorb_byte s x) xs

  pub absorb-append :
      (s : Absorbed) (xs ys : List ℕ) → absorb s (xs ++ ys) ≡ absorb (absorb s xs) ys
  unfolding absorb
  absorb-append s [] ys = refl
  absorb-append s (x ∷ xs) ys = absorb-append (absorb_byte s x) xs ys

  absorb_byte_within :
      (h p : List ℕ) (x : ℕ)
      → length p + 1 < a.block_size
      → absorb_byte (record { hash = h; pending = p }) x
        ≡ record { hash = h; pending = p ++ x ∷ [] }
  unfolding absorb_byte
  absorb_byte_within h p x k =
      let not_full : (length (p ++ x ∷ []) == a.block_size) ≡ false =
        ground (arith, length-append p (x ∷ [])) in
      rw not_full refl

  absorb_byte_full :
      (h p : List ℕ) (x : ℕ)
      → length p + 1 ≡ a.block_size
      → absorb_byte (record { hash = h; pending = p }) x
        ≡ record { hash = a.transform h (p ++ x ∷ []); pending = [] }
  unfolding absorb_byte
  absorb_byte_full h p x k =
      let is_full : (length (p ++ x ∷ []) == a.block_size) ≡ true =
        ground (arith, length-append p (x ∷ [])) in
      rw is_full refl

  -- Bytes that do not fill the block.
  pub absorb_within :
      (h p xs : List ℕ)
      → length p + length xs < a.block_size
      → absorb (record { hash = h; pending = p }) xs ≡ record { hash = h; pending = p ++ xs }
  unfolding absorb
  absorb_within h p [] k = ap (λ t. record { hash = h; pending = t }) (sym (append-nil p))
  absorb_within h p (x ∷ xs) k =
      ap (λ s. absorb s xs) (absorb_byte_within h p x (omega arith))
      ∙ absorb_within h (p ++ x ∷ []) xs (omega (arith, length-append p (x ∷ [])))
      ∙ ap (λ t. record { hash = h; pending = t }) (append_assoc p (x ∷ []) xs)

  -- Bytes that fill it exactly.
  pub absorb_block :
      (h p xs : List ℕ)
      → length p < a.block_size
      → length p + length xs ≡ a.block_size
      → absorb (record { hash = h; pending = p }) xs
        ≡ record { hash = a.transform h (p ++ xs); pending = [] }
  unfolding absorb
  absorb_block h p [] l k = absurd (omega arith)
  absorb_block h p (x ∷ []) l k = absorb_byte_full h p x (omega arith)
  absorb_block h p (x ∷ y ∷ xs) l k =
      ap (λ s. absorb s (y ∷ xs)) (absorb_byte_within h p x (omega arith))
      ∙ absorb_block h (p ++ x ∷ []) (y ∷ xs) (omega (arith, length-append p (x ∷ [])))
          (omega (arith, length-append p (x ∷ [])))
      ∙ ap (λ t. record { hash = a.transform h t; pending = [] }) (append_assoc p (x ∷ []) (y ∷ xs))

  -- The loop over whole blocks absorbs its message, and leaves less than a block.
  pub whole_blocks_lem :
      (fuel : ℕ) (h inp : List ℕ)
      → 0 < a.block_size
      → length inp ≤ fuel
      → (let r = whole_blocks a fuel h inp in
          (absorb (record { hash = h; pending = [] }) inp ≡ record { hash = r.0; pending = r.1 })
          × (length r.1 < a.block_size))
  unfolding whole_blocks
  whole_blocks_lem zero h inp pos k = (absorb_within h [] inp (omega arith), omega arith)
  whole_blocks_lem (suc fuel) h inp pos k = elim (Bool-cases (leb a.block_size (length inp))) [
    | inr less ↦ rw less (absorb_within h [] inp (ground arith), ground arith)
    | inl more ↦ rw more (
        let enough : a.block_size ≤ length inp = ground arith in
        let whole : length (take a.block_size inp) ≡ a.block_size =
          omega (arith, length-take a.block_size inp) in
        let next =
          whole_blocks_lem fuel (a.transform h (take a.block_size inp)) (drop a.block_size inp) pos
            (omega (arith, length-drop a.block_size inp)) in
        (
          ap (absorb (record { hash = h; pending = [] })) (sym (take-append-drop a.block_size inp))
              ∙ absorb-append (record { hash = h; pending = [] }) (take a.block_size inp)
                  (drop a.block_size inp)
              ∙ ap (λ s. absorb s (drop a.block_size inp))
                  (absorb_block h [] (take a.block_size inp) pos (omega (arith, whole)))
              ∙ next.0,
          next.1,
        ))
  ]

  -- How many bytes are left in the block.
  absorb_byte-length :
      (s : Absorbed) (x : ℕ)
      → length s.pending < a.block_size
      → length (absorb_byte s x).pending ≡ (length s.pending + 1) % a.block_size
  unfolding absorb_byte
  absorb_byte-length s x h = elim (Bool-cases (length s.pending + 1 == a.block_size)) [
    | inl full ↦
        let e : length s.pending + 1 ≡ a.block_size = ground arith in
        ap (λ t. length (t.pending)) (absorb_byte_full s.hash s.pending x e)
        ∙ sym (ap (λ (t : ℕ). t % a.block_size) e ∙ mod_self a.block_size)
    | inr not_full ↦
        let l : length s.pending + 1 < a.block_size = ground arith in
        ap (λ t. length (t.pending)) (absorb_byte_within s.hash s.pending x l)
        ∙ length-append s.pending (x ∷ [])
        ∙ sym (mod-eq_of_lt l)
  ]

  absorb_byte-lt :
      (s : Absorbed) (x : ℕ)
      → length s.pending < a.block_size
      → length (absorb_byte s x).pending < a.block_size
  absorb_byte-lt s x h = rw (absorb_byte-length s x h) (mod-lt (length s.pending + 1) (omega arith))

  pub absorb-length :
      (s : Absorbed) (xs : List ℕ)
      → length s.pending < a.block_size
      → length (absorb s xs).pending ≡ (length s.pending + length xs) % a.block_size
  unfolding absorb
  absorb-length s [] h = sym (
      let none : length s.pending + 0 ≡ length s.pending = omega arith in
      ap (λ (t : ℕ). t % a.block_size) none ∙ mod-eq_of_lt h)
  absorb-length s (x ∷ xs) h =
      absorb-length (absorb_byte s x) xs (absorb_byte-lt s x h)
      ∙ ap (λ (t : ℕ). (t + length xs) % a.block_size) (absorb_byte-length s x h)
      ∙ mod-add-mod (length s.pending + 1) a.block_size (length xs)
      ∙ let all : length s.pending + 1 + length xs ≡ length s.pending + suc (length xs) =
          omega arith in
        ap (λ (t : ℕ). t % a.block_size) all
