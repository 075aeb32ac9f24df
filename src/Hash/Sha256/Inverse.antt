-- ===== src/Hash/Sha256/Inverse.antt =====
-- `INVROUND` undoes `ROUND`, and 64 of them undo 64, when all words of the expanded block are given.
use drew.Prelude.{ℕ, ◌^◌, ◌<◌, ◌≡◌, ap, ◌∙◌, List, get_or}
use drew.Prelude.Loops.{for_up, for_down, for_up_inv, for_down_inv, for_down-for_up}
use drew.Util.Rotate.{add_word, sub_word, add_word-lt, sub_word-lt, sub_word-add_word}
use drew.Hash.Sha256.{constants, Regs, first_sum, second_sum, round, inv_round}

-- Every register holds a word.
pub record AreWords (s : Regs) : Type 0 where
  pub a_word : s.a < 2 ^ 32
  pub b_word : s.b < 2 ^ 32
  pub c_word : s.c < 2 ^ 32
  pub d_word : s.d < 2 ^ 32
  pub e_word : s.e < 2 ^ 32
  pub f_word : s.f < 2 ^ 32
  pub g_word : s.g < 2 ^ 32
  pub h_word : s.h < 2 ^ 32

module _ (k w : ℕ) (s : Regs) (r : AreWords s) where
  round-AreWords : AreWords (round k w s)
  unfolding round
  round-AreWords = record {
    a_word = add_word-lt 32 _ _;
    b_word = r.a_word;
    c_word = r.b_word;
    d_word = r.c_word;
    e_word = add_word-lt 32 _ _;
    f_word = r.e_word;
    g_word = r.f_word;
    h_word = r.g_word;
  }

  inv_round-AreWords : AreWords (inv_round k w s)
  unfolding inv_round
  inv_round-AreWords = record {
    a_word = r.b_word;
    b_word = r.c_word;
    c_word = r.d_word;
    d_word = sub_word-lt 32 _ _;
    e_word = r.f_word;
    f_word = r.g_word;
    g_word = r.h_word;
    h_word = sub_word-lt 32 _ _;
  }

  inv_round-round : inv_round k w (round k w s) ≡ s
  unfolding round inv_round
  inv_round-round =
      let first = first_sum k w s.e s.f s.g in
      let second = second_sum s.a s.b s.c in
      let h = add_word 32 s.h first in
      let half : sub_word 32 (add_word 32 h second) second ≡ h =
        sub_word-add_word 32 h second (add_word-lt 32 _ _) in
      let d : sub_word 32 (add_word 32 s.d h) (sub_word 32 (add_word 32 h second) second) ≡ s.d =
        ap (sub_word 32 (add_word 32 s.d h)) half ∙ sub_word-add_word 32 s.d h (r.d_word) in
      let last : sub_word 32 (sub_word 32 (add_word 32 h second) second) first ≡ s.h =
        ap (λ t. sub_word 32 t first) half ∙ sub_word-add_word 32 s.h first (r.h_word) in
      λ j. record s { d = d j; h = last j }

-- The rounds on an expanded block, from the first to the last and back.
abbrev pub rounds : List ℕ → ℕ → Regs → Regs
rounds w i = round (get_or constants i 0) (get_or w i 0)

abbrev pub rounds_back : List ℕ → ℕ → Regs → Regs
rounds_back w i = inv_round (get_or constants i 0) (get_or w i 0)

module _ (w : List ℕ) where
  pub rounds_undo :
      (s : Regs) → AreWords s → for_down 64 0 (rounds_back w) (for_up 64 0 (rounds w) s) ≡ s
  rounds_undo s h =
      for_down-for_up AreWords (rounds w) (rounds_back w) (λ i. round-AreWords _ _)
        (λ i. inv_round-round _ _) 64 0 s h

  pub rounds-AreWords : (s : Regs) → AreWords s → AreWords (for_up 64 0 (rounds w) s)
  rounds-AreWords s h = for_up_inv AreWords (rounds w) (λ i. round-AreWords _ _) 64 0 s h

  pub rounds_back-AreWords : (s : Regs) → AreWords s → AreWords (for_down 64 0 (rounds_back w) s)
  rounds_back-AreWords s h =
      for_down_inv AreWords (rounds_back w) (λ i. inv_round-AreWords _ _) 64 0 s h
