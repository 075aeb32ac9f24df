-- ===== src/Hash/Sha1/Transform.antt =====
-- `InverseTransform` on the expanded block undoes `ForwardTransform`.
use drew.Prelude.{ℕ, ◌^◌, ◌≡◌, refl, ap, ◌∙◌, List, [], ◌∷◌, length, arith}
use drew.Prelude.Loops.{for_up, for_down}
use drew.Util.Endian.{IsWords}
use drew.Block.Interface.{get_or-lt}
use drew.Hash.Sha1.{Regs, read_regs, write_regs, forward_transform, inverse_transform}
use drew.Hash.Sha1.Inverse.{
  AreWords, rounds, rounds_back, rounds_undo, rounds-AreWords, rounds_back-AreWords,
}
use drew.Hash.Sha1.Expansion.{IsExpanded, forward_rounds}

read_regs-AreWords : (v : List ℕ) → IsWords 4 5 v → AreWords (read_regs v)
read_regs-AreWords v h =
    let word = λ (i : ℕ). get_or-lt (2 ^ 32) i v (omega arith) (h.below) in
    record { a_word = word 0; b_word = word 1; c_word = word 2; d_word = word 3; e_word = word 4 }

write_regs-IsWords : (s : Regs) → AreWords s → IsWords 4 5 (write_regs s)
write_regs-IsWords s h = record {
  size = refl;
  below = (h.a_word, (h.b_word, (h.c_word, (h.d_word, (h.e_word, tt)))));
}

five_reads : (v : List ℕ) → length v ≡ 5 → write_regs (read_regs v) ≡ v
five_reads [] h = absurd (omega arith)
five_reads (a ∷ []) h = absurd (omega arith)
five_reads (a ∷ b ∷ []) h = absurd (omega arith)
five_reads (a ∷ b ∷ c ∷ []) h = absurd (omega arith)
five_reads (a ∷ b ∷ c ∷ d ∷ []) h = absurd (omega arith)
five_reads (a ∷ b ∷ c ∷ d ∷ e ∷ []) h = refl
five_reads (a ∷ b ∷ c ∷ d ∷ e ∷ x ∷ v) h = absurd (omega arith)

pub length-forward_transform : (v w : List ℕ) → length v ≡ 5 → length (forward_transform 1 v w) ≡ 5
unfolding forward_transform
length-forward_transform v w h = refl

-- On a block that is expanded to 80 words by the recurrence, the rounds over the circular buffer of
-- 16 words compute what the rounds over the 80 words compute.
pub forward_transform_lem :
    (v w : List ℕ)
    → IsExpanded w
    → forward_transform 1 v w ≡ write_regs (for_up 80 0 (rounds w) (read_regs v))
unfolding forward_transform
forward_transform_lem v w x = ap write_regs (forward_rounds w x (read_regs v))

pub forward_transform-IsWords :
    (v w : List ℕ) → IsExpanded w → IsWords 4 5 v → IsWords 4 5 (forward_transform 1 v w)
forward_transform-IsWords v w x h =
    rw (forward_transform_lem v w x)
      (write_regs-IsWords _ (rounds-AreWords w (read_regs v) (read_regs-AreWords v h)))

pub inverse_transform-IsWords : (v w : List ℕ) → IsWords 4 5 v → IsWords 4 5 (inverse_transform v w)
unfolding inverse_transform
inverse_transform-IsWords v w h =
    write_regs-IsWords _ (rounds_back-AreWords w (read_regs v) (read_regs-AreWords v h))

-- `InverseTransform`, given all 80 words of an expanded block, undoes `ForwardTransform`, which is
-- given the block and expands it itself.
pub inverse_transform-forward_transform :
    (v w : List ℕ)
    → IsExpanded w
    → IsWords 4 5 v
    → inverse_transform (forward_transform 1 v w) w ≡ v
unfolding inverse_transform
inverse_transform-forward_transform v w x h =
    ap (λ t. write_regs (for_down 80 0 (rounds_back w) (read_regs t))) (forward_transform_lem v w x)
    ∙ ap write_regs (rounds_undo w (read_regs v) (read_regs-AreWords v h))
    ∙ five_reads v (h.size)
