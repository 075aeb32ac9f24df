-- ===== src/Hash/Sha256/Transform.antt =====
-- `InverseTransform` on the expanded block undoes `ForwardTransform`.
use drew.Prelude.{ℕ, ◌^◌, ◌≡◌, refl, ap, ◌∙◌, List, [], ◌∷◌, length, arith}
use drew.Prelude.Loops.{for_up, for_down}
use drew.Util.Endian.{IsWords}
use drew.Block.Interface.{get_or-lt}
use drew.Hash.Sha256.{Regs, read_regs, write_regs, forward_transform, inverse_transform}
use drew.Hash.Sha256.Inverse.{
  AreWords, rounds, rounds_back, rounds_undo, rounds-AreWords, rounds_back-AreWords,
}
use drew.Hash.Sha256.Expansion.{IsExpanded, forward_rounds}

read_regs-AreWords : (v : List ℕ) → IsWords 4 8 v → AreWords (read_regs v)
read_regs-AreWords v h =
    let word = λ (i : ℕ). get_or-lt (2 ^ 32) i v (omega arith) (h.below) in
    record {
      a_word = word 0;
      b_word = word 1;
      c_word = word 2;
      d_word = word 3;
      e_word = word 4;
      f_word = word 5;
      g_word = word 6;
      h_word = word 7;
    }

write_regs-IsWords : (s : Regs) → AreWords s → IsWords 4 8 (write_regs s)
write_regs-IsWords s h = record {
  size = refl;
  below = (
    h.a_word,
    (h.b_word, (h.c_word, (h.d_word, (h.e_word, (h.f_word, (h.g_word, (h.h_word, tt))))))),
  );
}

eight_reads : (v : List ℕ) → length v ≡ 8 → write_regs (read_regs v) ≡ v
eight_reads [] h = absurd (omega arith)
eight_reads (a ∷ []) h = absurd (omega arith)
eight_reads (a ∷ b ∷ []) h = absurd (omega arith)
eight_reads (a ∷ b ∷ c ∷ []) h = absurd (omega arith)
eight_reads (a ∷ b ∷ c ∷ d ∷ []) h = absurd (omega arith)
eight_reads (a ∷ b ∷ c ∷ d ∷ e ∷ []) h = absurd (omega arith)
eight_reads (a ∷ b ∷ c ∷ d ∷ e ∷ f ∷ []) h = absurd (omega arith)
eight_reads (a ∷ b ∷ c ∷ d ∷ e ∷ f ∷ g ∷ []) h = absurd (omega arith)
eight_reads (a ∷ b ∷ c ∷ d ∷ e ∷ f ∷ g ∷ i ∷ []) h = refl
eight_reads (a ∷ b ∷ c ∷ d ∷ e ∷ f ∷ g ∷ i ∷ x ∷ v) h = absurd (omega arith)

pub length-forward_transform : (v w : List ℕ) → length v ≡ 8 → length (forward_transform v w) ≡ 8
unfolding forward_transform
length-forward_transform v w h = refl

forward_transform_lem :
    (v w : List ℕ)
    → IsExpanded w
    → forward_transform v w ≡ write_regs (for_up 64 0 (rounds w) (read_regs v))
unfolding forward_transform
forward_transform_lem v w x = ap write_regs (forward_rounds w x (read_regs v))

pub forward_transform-IsWords :
    (v w : List ℕ) → IsExpanded w → IsWords 4 8 v → IsWords 4 8 (forward_transform v w)
forward_transform-IsWords v w x h =
    rw (forward_transform_lem v w x)
      (write_regs-IsWords _ (rounds-AreWords w (read_regs v) (read_regs-AreWords v h)))

pub inverse_transform-IsWords : (v w : List ℕ) → IsWords 4 8 v → IsWords 4 8 (inverse_transform v w)
unfolding inverse_transform
inverse_transform-IsWords v w h =
    write_regs-IsWords _ (rounds_back-AreWords w (read_regs v) (read_regs-AreWords v h))

pub sha256_inverse-forward :
    (v w : List ℕ) → IsExpanded w → IsWords 4 8 v → inverse_transform (forward_transform v w) w ≡ v
unfolding inverse_transform
sha256_inverse-forward v w x h =
    ap (λ t. write_regs (for_down 64 0 (rounds_back w) (read_regs t))) (forward_transform_lem v w x)
    ∙ ap write_regs (rounds_undo w (read_regs v) (read_regs-AreWords v h))
    ∙ eight_reads v (h.size)
