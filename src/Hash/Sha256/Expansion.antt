-- ===== src/Hash/Sha256/Expansion.antt =====
-- `ForwardTransform` expands the block in `blk` as it goes: in each round `blk` has the words of the
-- recurrence up to the one that the round takes.
use drew.Prelude.{
  ℕ, zero, suc, ◌+◌, ◌-◌, ◌≤◌, ◌<◌, ◌≡◌, ◌⊎◌, inl, inr, refl, sym, ap, ◌∙◌, List, [], ◌∷◌, ◌++◌,
  length, take, replicate, get_or, set, length-take, length-append, length-set, get_or-set_self,
  get_or-set_ne, arith,
}
use drew.Prelude.Loops.{for_up, for_up_count, for_up_next}
use drew.Prelude.Recurrence.{IsBackward, Follows}
use drew.Hash.Sha256.{constants, Regs, round, Forward, expanded, first_round, round2}
use drew.Hash.Sha256.Inverse.{rounds}

pub expanded-IsBackward : IsBackward expanded
unfolding expanded
expanded-IsBackward = record {
  unread = λ k i v w p q.
      rw
        (
          get_or-set_ne w i (k - 2) v 0 (λ e. absurd (omega (arith, e))),
          get_or-set_ne w i (k - 7) v 0 (λ e. absurd (omega (arith, e))),
          get_or-set_ne w i (k - 15) v 0 (λ e. absurd (omega (arith, e))),
          get_or-set_ne w i (k - 16) v 0 (λ e. absurd (omega (arith, e))),
        )
        refl;
}

-- The 64 words of a block that is expanded by the recurrence.
abbrev pub IsExpanded : List ℕ → Type 0
IsExpanded w = Follows expanded 64 64 w

-- The first 16 words, and the words before `i`.
record IsPrefix (w : List ℕ) (i : ℕ) (blk : List ℕ) : Type 0 where
  size : length blk ≡ 64
  holds : (k : ℕ) → (k < i) ⊎ (k < 16) → get_or blk k 0 ≡ get_or w k 0

get_or-take_append :
    (n k : ℕ) (xs ys : List ℕ)
    → k < n
    → n ≤ length xs
    → get_or (take n xs ++ ys) k 0 ≡ get_or xs k 0
get_or-take_append zero k xs ys h l = absurd (omega arith)
get_or-take_append (suc n) k [] ys h l = absurd (omega arith)
get_or-take_append (suc n) zero (x ∷ xs) ys h l = refl
get_or-take_append (suc n) (suc k) (x ∷ xs) ys h l =
    get_or-take_append n k xs ys (omega arith) (omega arith)

last_or_before : (i k : ℕ) → 16 ≤ i → (k < i + 1) ⊎ (k < 16) → (k ≡ i) ⊎ (k < i)
last_or_before i k p u = ground arith

module _ (w : List ℕ) (x : IsExpanded w) where
  start-IsPrefix : IsPrefix w 0 (take 16 w ++ replicate 48 0)
  start-IsPrefix =
      let all = x.whole in
      record {
        size = omega (arith, length-append (take 16 w) (replicate 48 0), length-take 16 w);
        holds = λ k small. get_or-take_append 16 k w (replicate 48 0) (ground arith) (omega arith);
      }

  -- Each word that the expansion writes is the next one.
  expanded_lem :
      (i : ℕ) (blk : List ℕ) → 16 ≤ i → i < 64 → IsPrefix w i blk → expanded i blk ≡ get_or w i 0
  unfolding expanded
  expanded_lem i blk p q v =
      rw
        (
          v.holds (i - 2) (inl (omega arith)),
          v.holds (i - 7) (inl (omega arith)),
          v.holds (i - 15) (inl (omega arith)),
          v.holds (i - 16) (inl (omega arith)),
        )
        (sym (x.each i p q))

  next-IsPrefix :
      (i : ℕ) (blk : List ℕ)
      → 16 ≤ i
      → i < 64
      → IsPrefix w i blk
      → IsPrefix w (i + 1) (set blk i (expanded i blk))
  next-IsPrefix i blk p q v =
      let size = v.size in
      record {
        size = length-set blk i (expanded i blk) ∙ v.size;
        holds = λ k u. elim (last_or_before i k p u) [
          | inl here ↦
              ap (λ t. get_or (set blk i (expanded i blk)) t 0) here
              ∙ get_or-set_self blk i (expanded i blk) 0 (omega arith)
              ∙ expanded_lem i blk p q v
              ∙ ap (λ t. get_or w t 0) (sym here)
          | inr before ↦
              get_or-set_ne blk i k (expanded i blk) 0 (λ e. absurd (omega (arith, e)))
              ∙ v.holds k (inl before)
        ];
      }

  -- The registers after `i` rounds, and `blk`.
  record IsForward (r : Regs) (i : ℕ) (s : Forward) : Type 0 where
    same : s.regs ≡ for_up i 0 (rounds w) r
    known : IsPrefix w i s.blk

  no_rounds : (r : Regs) → r ≡ for_up 0 0 (rounds w) r
  unfolding for_up
  no_rounds r = refl

  next_regs :
      (r s : Regs) (i g : ℕ)
      → s ≡ for_up i 0 (rounds w) r
      → g ≡ get_or w i 0
      → round (get_or constants i 0) g s ≡ for_up (i + 1) 0 (rounds w) r
  next_regs r s i g e e' =
      ap (λ y. round (get_or constants i 0) y s) e' ∙ for_up_next (rounds w) i r s e

  first_round-IsForward :
      (r : Regs) (i : ℕ) (s : Forward)
      → i < 16
      → IsForward r i s
      → IsForward r (i + 1) (first_round i s)
  unfolding first_round
  first_round-IsForward r i s h k = record {
    same = next_regs r s.regs i _ (k.same) (k.known.holds i (inr h));
    known = record { size = k.known.size; holds = λ j u. k.known.holds j (inr (ground arith)) };
  }

  round2-IsForward :
      (r : Regs) (i : ℕ) (s : Forward)
      → i < 64
      → (16 ≤ i) × IsForward r i s
      → (16 ≤ i + 1) × IsForward r (i + 1) (round2 i s)
  unfolding round2 first_round
  round2-IsForward r i s h (p, k) =
      let next = next-IsPrefix i s.blk p h (k.known) in
      (
        omega arith,
        record {
          same = next_regs r s.regs i _ (k.same) (next.holds i (inl (omega arith)));
          known = next;
        },
      )

  -- The two loops are the rounds over the 64 words.
  pub forward_rounds :
      (r : Regs)
      → (for_up 48 16 round2
          (for_up 16 0 first_round (record { regs = r; blk = take 16 w ++ replicate 48 0 }))).regs
        ≡ for_up 64 0 (rounds w) r
  forward_rounds r =
      let first =
        for_up_count (IsForward r) first_round 16 (first_round-IsForward r) 16 0
          (record { regs = r; blk = take 16 w ++ replicate 48 0 }) refl
          (record { same = no_rounds r; known = start-IsPrefix }) in
      (for_up_count (λ i s. (16 ≤ i) × IsForward r i s) round2 64 (round2-IsForward r) 48 16 _ refl
        (omega arith, first)).1.same
