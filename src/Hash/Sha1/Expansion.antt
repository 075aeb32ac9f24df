-- ===== src/Hash/Sha1/Expansion.antt =====
-- The circular buffer of 16 words that `ForwardTransform` expands in place holds, in each round, the
-- last 16 of the 80 words that the plain recurrence gives.
use drew.Prelude.{
  ℕ, zero, suc, ◌+◌, ◌-◌, ◌%◌, ◌≤◌, ◌<◌, ◌≡◌, ◌⊎◌, inl, inr, refl, sym, ap, ◌∙◌, List, [], ◌∷◌,
  length, ltb→lt, take, get_or, set, length-take, length-set, get_or-set_self, get_or-set_ne,
  bit_and, bit_xor, ltb, Bool-cases, arith,
}
use drew.Prelude.Bits.{and_15}
use drew.Prelude.Loops.{for_up, for_up_count, for_up_next}
use drew.Util.Rotate.{rotate_left}
use drew.Hash.Sha1.{Regs, op, round_function, Forward, expansion, forward_round}
use drew.Hash.Sha1.Inverse.{rounds}

-- The recurrence for word `i`.
abbrev pub recurrence : ℕ → List ℕ → ℕ
recurrence i w =
    rotate_left 32
      (bit_xor (bit_xor (bit_xor (get_or w (i - 3) 0) (get_or w (i - 8) 0)) (get_or w (i - 14) 0))
        (get_or w (i - 16) 0))
      1

pub record IsExpanded (w : List ℕ) : Type 0 where
  pub size : length w ≡ 80
  pub follows : (i : ℕ) → 16 ≤ i → i < 80 → get_or w i 0 ≡ recurrence i w

-- Before round `i` the buffer holds the words from `i - 16`, or the first 16.
record IsWindow (w : List ℕ) (i : ℕ) (blk : List ℕ) : Type 0 where
  size : length blk ≡ 16
  holds : (k : ℕ) → (k < i) ⊎ (k < 16) → i ≤ k + 16 → get_or blk (k % 16) 0 ≡ get_or w k 0

get_or-take : (n k : ℕ) (xs : List ℕ) → k < n → get_or (take n xs) k 0 ≡ get_or xs k 0
get_or-take zero k xs h = absurd (omega arith)
get_or-take (suc n) k [] h = refl
get_or-take (suc n) zero (x ∷ xs) h = refl
get_or-take (suc n) (suc k) (x ∷ xs) h = get_or-take n k xs (omega arith)

module _ (w : List ℕ) (x : IsExpanded w) where
  start-IsWindow : IsWindow w 0 (take 16 w)
  start-IsWindow = record {
    size = let s = x.size in omega (arith, length-take 16 w);
    holds = λ k small l.
        let low : k % 16 ≡ k = omega arith in
        ap (λ t. get_or (take 16 w) t 0) low ∙ get_or-take 16 k w (omega arith);
  }

  last_or_before : (i k : ℕ) → (k < i + 1) ⊎ (k < 16) → 16 ≤ i → (k ≡ i) ⊎ (k < i)
  last_or_before i k u p = ground arith

  module _ (i : ℕ) (blk : List ℕ) (v : IsWindow w i blk) where
    -- A read of the circular buffer.
    read :
        (j k : ℕ)
        → j % 16 ≡ k % 16
        → (k < i) ⊎ (k < 16)
        → i ≤ k + 16
        → get_or blk (bit_and j 15) 0 ≡ get_or w k 0
    read j k e p q = ap (λ t. get_or blk t 0) (and_15 j ∙ e) ∙ v.holds k p q

    expansion_lem : 16 ≤ i → i < 80 → expansion 1 i blk ≡ get_or w i 0
    unfolding expansion
    expansion_lem p q =
        rw
          (
            read (i + 13) (i - 3) (omega arith) (inl (omega arith)) (omega arith),
            read (i + 8) (i - 8) (omega arith) (inl (omega arith)) (omega arith),
            read (i + 2) (i - 14) (omega arith) (inl (omega arith)) (omega arith),
            read i (i - 16) (omega arith) (inl (omega arith)) (omega arith),
          )
          (sym (x.follows i p q))

    first-IsWindow : i < 16 → IsWindow w (i + 1) blk
    first-IsWindow p = record {
      size = v.size;
      holds = λ k l m. v.holds k (inr (omega arith)) (omega arith);
    }

    window_read :
        16 ≤ i
        → (k : ℕ) → (k < i + 1) ⊎ (k < 16)
        → i + 1 ≤ k + 16
        → get_or (set blk (bit_and i 15) (get_or w i 0)) (k % 16) 0 ≡ get_or w k 0
    window_read p k u l = elim (last_or_before i k u p) [
      | inl last ↦
          let place : k % 16 ≡ bit_and i 15 = ap (λ (t : ℕ). t % 16) last ∙ sym (and_15 i) in
          let size = v.size in
          ap (λ t. get_or (set blk (bit_and i 15) (get_or w i 0)) t 0) place
          ∙ get_or-set_self blk (bit_and i 15) (get_or w i 0) 0 (omega (arith, and_15 i))
          ∙ ap (λ t. get_or w t 0) (sym last)
      | inr before ↦
          get_or-set_ne blk (bit_and i 15) (k % 16) (get_or w i 0) 0
            (λ e. absurd (omega (arith, and_15 i, e)))
          ∙ v.holds k (inl before) (omega arith)
    ]

    next-IsWindow : 16 ≤ i → IsWindow w (i + 1) (set blk (bit_and i 15) (get_or w i 0))
    next-IsWindow p = record {
      size = length-set blk (bit_and i 15) (get_or w i 0) ∙ v.size;
      holds = window_read p;
    }

  -- The registers after `i` rounds, and the buffer.
  record IsForward (r : Regs) (i : ℕ) (s : Forward) : Type 0 where
    same : s.regs ≡ for_up i 0 (rounds w) r
    window : IsWindow w i s.blk

  no_rounds : (r : Regs) → r ≡ for_up 0 0 (rounds w) r
  unfolding for_up
  no_rounds r = refl

  next_regs :
      (r s : Regs) (i g : ℕ)
      → s ≡ for_up i 0 (rounds w) r
      → g ≡ get_or w i 0
      → op (round_function i) g s ≡ for_up (i + 1) 0 (rounds w) r
  next_regs r s i g e e' = ap (λ y. op (round_function i) y s) e' ∙ for_up_next (rounds w) i r s e

  forward_round-IsForward :
      (r : Regs) (i : ℕ) (s : Forward)
      → i < 80
      → IsForward r i s
      → IsForward r (i + 1) (forward_round 1 i s)
  unfolding forward_round
  forward_round-IsForward r i s h k = elim (Bool-cases (ltb i 16)) [
    | inl first ↦
        let p : i < 16 = ltb→lt i 16 first in
        let low : i % 16 ≡ i = omega arith in
        let word : get_or s.blk i 0 ≡ get_or w i 0 =
          ap (λ t. get_or s.blk t 0) (sym low) ∙ k.window.holds i (inr p) (omega arith) in
        rw first (record {
          same = next_regs r s.regs i _ (k.same) word;
          window = first-IsWindow i s.blk (k.window) p;
        })
    | inr later ↦
        let p : 16 ≤ i = ground arith in
        rw (later, expansion_lem i s.blk (k.window) p h)
          (record {
            same = next_regs r s.regs i _ (k.same) refl;
            window = next-IsWindow i s.blk (k.window) p;
          })
  ]

  -- The rounds over the circular buffer are the rounds over the 80 words.
  pub forward_rounds :
      (r : Regs)
      → (for_up 80 0 (forward_round 1) (record { regs = r; blk = take 16 w })).regs
        ≡ for_up 80 0 (rounds w) r
  forward_rounds r =
      (for_up_count (IsForward r) (forward_round 1) 80 (forward_round-IsForward r) 80 0
        (record { regs = r; blk = take 16 w }) refl
        (record { same = no_rounds r; window = start-IsWindow })).same
