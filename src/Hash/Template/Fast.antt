-- ===== src/Hash/Template/Fast.antt =====
-- The loop over the whole blocks of a message, with any fuel, and `UpdateFast`, which counts its rounds.
use native.Mathlib.Nat.{add-mul, mul-le-mul_left, div-lt_iff_lt-mul}
use drew.Prelude.{
  ℕ, zero, suc, ◌+◌, ◌*◌, ◌/◌, ◌%◌, ◌≤◌, ◌<◌, ◌≡◌, inl, inr, refl, sym, ap, ap₂, ◌∙◌, false, List,
  [], ◌∷◌, length, take, drop, length-drop, leb, Bool-cases, arith,
}
use drew.Hash.Template.{Algorithm, Hash, add_length, whole_blocks, update, update_fast}
use drew.Hash.Template.Absorb.{absorb, whole_blocks_lem, absorb-length}
use drew.Hash.Template.Length.{add_length-offset}
use drew.Hash.Template.Update.{view, block_some, update_lem}

module _ (a : Algorithm) where
  short :
      (fuel : ℕ) (h inp : List ℕ) → length inp < a.block_size → whole_blocks a fuel h inp ≡ (h, inp)
  unfolding whole_blocks
  short zero h inp l = refl
  short (suc fuel) h inp l =
      let stop : leb a.block_size (length inp) ≡ false = ground arith in rw stop refl

  one : (fuel : ℕ) → suc fuel * a.block_size ≡ a.block_size + fuel * a.block_size
  one fuel = omega (arith, add-mul 1 fuel a.block_size)

  any_fuel :
      (f g : ℕ) (h inp : List ℕ)
      → length inp < suc f * a.block_size
      → length inp < suc g * a.block_size
      → whole_blocks a f h inp ≡ whole_blocks a g h inp
  unfolding whole_blocks
  any_fuel zero g h inp p q = sym (short g h inp (omega arith))
  any_fuel (suc f) zero h inp p q = short (suc f) h inp (omega arith)
  any_fuel (suc f) (suc g) h inp p q = elim (Bool-cases (leb a.block_size (length inp))) [
    | inr less ↦ rw less refl
    | inl more ↦ rw more (
        let enough : a.block_size ≤ length inp = ground arith in
        let size = length-drop a.block_size inp in
        let f_one = one (suc f) in
        let g_one = one (suc g) in
        any_fuel f g (a.transform h (take a.block_size inp)) (drop a.block_size inp) (omega arith)
          (omega arith))
  ]

  -- From the number of whole blocks on, every fuel gives the loop the result that the length of the
  -- message gives, and less than a block is left: the loop has ended by its condition.
  pub whole_blocks_enough :
      (fuel : ℕ) (h inp : List ℕ)
      → length inp / a.block_size ≤ fuel
      → (whole_blocks a fuel h inp ≡ whole_blocks a (length inp) h inp)
        × (length (whole_blocks a fuel h inp).1 < a.block_size)
  whole_blocks_enough fuel h inp p =
      let pos = block_some a in
      let below : length inp < suc fuel * a.block_size =
        (div-lt_iff_lt-mul {k = a.block_size} {x = length inp} {y = suc fuel} pos).0
          (omega arith) in
      let at_least : suc (length inp) ≤ suc (length inp) * a.block_size =
        le-mul (suc (length inp)) a.block_size pos in
      let same = any_fuel fuel (length inp) h inp below (omega arith) in
      (same, rw same ((whole_blocks_lem a (length inp) h inp pos (omega arith)).1))
    where
      le-mul : (x n : ℕ) → 0 < n → x ≤ x * n
      le-mul x n h = let most : x * 1 ≤ x * n = mul-le-mul_left x h in omega arith

  nothing_left : (xs : List ℕ) → length xs ≡ 0 → xs ≡ []
  nothing_left [] e = refl
  nothing_left (x ∷ xs) e = absurd (omega arith)

-- For a message of whole blocks, given when no block is begun and the array has the block size,
-- `UpdateFast` leaves the same hash and the same empty block as `Update`.
pub update_fast_lem :
    (a : Algorithm) (s : Hash) (inp : List ℕ)
    → length s.buf ≡ a.block_size
    → s.len0 % a.block_size ≡ 0
    → length inp % a.block_size ≡ 0
    → view a (update_fast a s inp) ≡ view a (update a s inp)
unfolding view update_fast add_length
update_fast_lem a s inp size aligned whole =
    let n = a.block_size in
    let pos : 0 < n = block_some a in
    let e = whole_blocks_enough a (length inp / n) s.hash inp (omega arith) in
    let w = whole_blocks_lem a (length inp) s.hash inp pos (omega arith) in
    let begun : view a s ≡ record { hash = s.hash; pending = [] } =
      ap (λ t. record { hash = s.hash; pending = take t s.buf }) aligned in
    let plain : 0 + length inp ≡ length inp = omega arith in
    let left : length (whole_blocks a (length inp) s.hash inp).1 ≡ 0 =
      sym (ap (λ t. length (t.pending)) (w.0))
      ∙ absorb-length a (record { hash = s.hash; pending = [] }) inp pos
      ∙ ap (λ (t : ℕ). t % n) plain
      ∙ whole in
    let offset : (add_length a (length inp) s).len0 % n ≡ 0 =
      add_length-offset a s (length inp)
      ∙ ap (λ (t : ℕ). (t + length inp) % n) aligned
      ∙ ap (λ (t : ℕ). t % n) plain
      ∙ whole in
    ap
      (λ t. record {
        hash = (whole_blocks a (length inp / n) s.hash inp).0;
        pending = take t s.buf;
      })
      offset
    ∙ ap₂ (λ x y. record { hash = x.0; pending = y }) (e.0) (sym (nothing_left a _ left))
    ∙ sym (w.0)
    ∙ sym (ap (λ t. absorb a t inp) begun)
    ∙ sym ((update_lem a s inp size).0)
