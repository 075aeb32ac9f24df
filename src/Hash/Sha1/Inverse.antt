-- ===== src/Hash/Sha1/Inverse.antt =====
-- `INVOP` undoes `OP`, and 80 of them undo 80, when all words of the expanded block are given.
use drew.Prelude.{ℕ, ◌^◌, ◌<◌, ◌≡◌, ap, ◌∙◌, List, get_or, arith}
use drew.Prelude.Loops.{for_up, for_down, for_up_inv, for_down_inv, for_down-for_up}
use drew.Util.Rotate.{
  add_word, sub_word, add_word-lt, sub_word-lt, sub_word-add_word, rotate_right-rotate_left,
  rotate_left-lt, rotate_right-lt,
}
use drew.Hash.Sha1.{Regs, round_sum, op, inv_op, round_function}

-- Every register holds a word.
pub record AreWords (s : Regs) : Type 0 where
  pub a_word : s.a < 2 ^ 32
  pub b_word : s.b < 2 ^ 32
  pub c_word : s.c < 2 ^ 32
  pub d_word : s.d < 2 ^ 32
  pub e_word : s.e < 2 ^ 32

module _ (f : ℕ → ℕ → ℕ → ℕ) (g : ℕ) (s : Regs) (h : AreWords s) where
  op-AreWords : AreWords (op f g s)
  unfolding op
  op-AreWords = record {
    a_word = add_word-lt 32 _ _;
    b_word = h.a_word;
    c_word = rotate_left-lt 32 30 s.b (h.b_word);
    d_word = h.c_word;
    e_word = h.d_word;
  }

  inv_op-AreWords : AreWords (inv_op f g s)
  unfolding inv_op
  inv_op-AreWords = record {
    a_word = h.b_word;
    b_word = rotate_right-lt 32 30 s.c (h.c_word);
    c_word = h.d_word;
    d_word = h.e_word;
    e_word = sub_word-lt 32 _ _;
  }

  inv_op-op : inv_op f g (op f g s) ≡ s
  unfolding op inv_op
  inv_op-op =
      let turned = rotate_right-rotate_left 32 30 s.b (omega arith) (h.b_word) in
      ap
        (λ b. record {
          a = s.a;
          b = b;
          c = s.c;
          d = s.d;
          e =
              sub_word 32 (add_word 32 s.e (round_sum f g s.a s.b s.c s.d))
                (round_sum f g s.a b s.c s.d);
        })
        turned
      ∙ ap (λ e. record s { e = e }) (sub_word-add_word 32 s.e _ (h.e_word))

-- The rounds on an expanded block, from the first to the last and back.
abbrev pub rounds : List ℕ → ℕ → Regs → Regs
rounds w i = op (round_function i) (get_or w i 0)

abbrev pub rounds_back : List ℕ → ℕ → Regs → Regs
rounds_back w i = inv_op (round_function i) (get_or w i 0)

module _ (w : List ℕ) where
  pub rounds_undo :
      (s : Regs) → AreWords s → for_down 80 0 (rounds_back w) (for_up 80 0 (rounds w) s) ≡ s
  rounds_undo s h =
      for_down-for_up AreWords (rounds w) (rounds_back w) (λ i. op-AreWords _ _)
        (λ i. inv_op-op _ _) 80 0 s h

  pub rounds-AreWords : (s : Regs) → AreWords s → AreWords (for_up 80 0 (rounds w) s)
  rounds-AreWords s h = for_up_inv AreWords (rounds w) (λ i. op-AreWords _ _) 80 0 s h

  pub rounds_back-AreWords : (s : Regs) → AreWords s → AreWords (for_down 80 0 (rounds_back w) s)
  rounds_back-AreWords s h =
      for_down_inv AreWords (rounds_back w) (λ i. inv_op-AreWords _ _) 80 0 s h
