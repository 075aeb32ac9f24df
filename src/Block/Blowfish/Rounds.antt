-- ===== src/Block/Blowfish/Rounds.antt =====
-- The rounds with the keys in reverse undo the rounds.
use drew.Prelude.{
  ℕ, zero, suc, ◌+◌, ◌-◌, ◌*◌, ◌<◌, ◌≡◌, refl, sym, ap, ◌∙◌, List, bit_xor, get_or, arith,
}
use drew.Prelude.Bits.{xor_cancel, xor_right_comm}
use drew.Prelude.Loops.{for_up, for_up_last}
use drew.Block.Feistel.{Halves, swap}
use drew.Block.Blowfish.{f, two_rounds, main_algorithm}

-- `m_pd` is `m_p` in reverse.
abbrev pub IsMirror : List ℕ → List ℕ → Type 0
IsMirror p pd = (k : ℕ) → k < 18 → get_or pd (17 - k) 0 ≡ get_or p k 0

-- Masks that are added twice vanish, whatever is added between.
unmask : (a b c : ℕ) → bit_xor (bit_xor (bit_xor a b) c) b ≡ bit_xor a c
unmask a b c = xor_right_comm (bit_xor a b) c b ∙ ap (λ t. bit_xor t c) (xor_cancel a b)

unmask_two : (a b c : ℕ) → bit_xor (bit_xor (bit_xor (bit_xor a b) c) b) c ≡ a
unmask_two a b c = ap (λ t. bit_xor t c) (unmask a b c) ∙ xor_cancel a c

-- The halves with two keys added and swapped, as the last lines of `MainAlgorithm` leave them.
close : List ℕ → ℕ → Halves → Halves
close p i d = record { l = bit_xor d.r (get_or p (i + 1) 0); r = bit_xor d.l (get_or p i 0) }

module _ (s p pd : List ℕ) where
  -- Two rounds with the keys in reverse undo two rounds.
  two_rounds_undo :
      (i k : ℕ) (d : Halves)
      → get_or pd k 0 ≡ get_or p (i + 2 + 1) 0
      → get_or pd (k + 1) 0 ≡ get_or p (i + 2) 0
      → two_rounds s pd k (close p (i + 2) (two_rounds s p i d)) ≡ close p i d
  unfolding two_rounds close
  two_rounds_undo i k d e e' =
      rw (e, e')
        (let d0 = bit_xor d.l (get_or p i 0) in
          let d1 = bit_xor (bit_xor d.r (f s d0)) (get_or p (i + 1) 0) in
          let back1 : bit_xor (bit_xor d1 (get_or p (i + 2 + 1) 0)) (get_or p (i + 2 + 1) 0) ≡ d1 =
            xor_cancel d1 (get_or p (i + 2 + 1) 0) in
          rw
            (
              back1,
              unmask_two d0 (f s d1) (get_or p (i + 2) 0),
              unmask d.r (f s d0) (get_or p (i + 1) 0),
            )
            refl)

  module _ (mirror : IsMirror p pd) where
    key_at : (a b : ℕ) → b + a ≡ 17 → get_or pd b 0 ≡ get_or p a 0
    key_at a b e =
        let other : 17 - a ≡ b = omega arith in
        ap (λ t. get_or pd t 0) (sym other) ∙ mirror a (omega arith)

    loop_undo :
        (m k : ℕ) (d : Halves)
        → k + m ≡ 8
        → for_up m k
            (λ j. two_rounds s pd (2 * j))
            (close p (2 * m) (for_up m 0 (λ j. two_rounds s p (2 * j)) d))
          ≡ close p 0 d
    unfolding for_up
    loop_undo zero k d e = refl
    loop_undo (suc m) k d e =
        let enc = λ (j : ℕ). two_rounds s p (2 * j) in
        let dec = λ (j : ℕ). two_rounds s pd (2 * j) in
        let first : 0 + m ≡ m = omega arith in
        let twice : 2 * suc m ≡ 2 * m + 2 = omega arith in
        ap (λ u. for_up m (k + 1) dec (dec k (close p (2 * suc m) u)))
          (for_up_last enc m 0 d ∙ ap (λ j. enc j (for_up m 0 enc d)) first)
        ∙ ap (λ i. for_up m (k + 1) dec (dec k (close p i (enc m (for_up m 0 enc d))))) twice
        ∙ ap (for_up m (k + 1) dec) (
            two_rounds_undo (2 * m) (2 * k) (for_up m 0 enc d)
              (key_at (2 * m + 2 + 1) (2 * k) (omega arith))
              (key_at (2 * m + 2) (2 * k + 1) (omega arith)))
        ∙ loop_undo m (k + 1) d (omega arith)

    pub main_algorithm_undo :
        (d : Halves) → swap (main_algorithm s pd (swap (main_algorithm s p d))) ≡ d
    unfolding main_algorithm swap close
    main_algorithm_undo d =
        ap
          (λ (e : Halves).
            swap (record { l = bit_xor e.l (get_or pd 16 0); r = bit_xor e.r (get_or pd 17 0) }))
          (loop_undo 8 0 d refl)
        ∙ λ i. record { l = whitened i; r = whitened' i }
      where
        whitened : bit_xor (bit_xor d.l (get_or p 0 0)) (get_or pd 17 0) ≡ d.l
        whitened = rw (key_at 0 17 refl) (xor_cancel d.l (get_or p 0 0))

        whitened' : bit_xor (bit_xor d.r (get_or p 1 0)) (get_or pd 16 0) ≡ d.r
        whitened' = rw (key_at 1 16 refl) (xor_cancel d.r (get_or p 1 0))
