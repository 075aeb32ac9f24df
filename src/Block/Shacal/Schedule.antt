-- ===== src/Block/Shacal/Schedule.antt =====
-- The key schedule of SHACAL-1 leaves 80 words that follow the recurrence of SHA-1.
use drew.Prelude.{
  ℕ, ◌-◌, ◌≡◌, refl, ◌∙◌, List, ◌++◌, length, replicate, length-append, get_or-set_ne, arith,
}
use drew.Prelude.Recurrence.{IsBackward, filled-Follows}
use drew.Util.Endian.{big, copy_in}
use drew.Util.Endian.Arrays.{length-copy_in}
use drew.Hash.Sha1.Expansion.{IsExpanded, recurrence}
use drew.Block.Shacal.{expanded, expand_key}

expanded_lem : (i : ℕ) (w : List ℕ) → expanded i w ≡ recurrence i w
unfolding expanded
expanded_lem i w = refl

expanded-IsBackward : IsBackward expanded
unfolding expanded
expanded-IsBackward = record {
  unread = λ k i v w p q.
      rw
        (
          get_or-set_ne w i (k - 3) v 0 (λ e. absurd (omega (arith, e))),
          get_or-set_ne w i (k - 8) v 0 (λ e. absurd (omega (arith, e))),
          get_or-set_ne w i (k - 14) v 0 (λ e. absurd (omega (arith, e))),
          get_or-set_ne w i (k - 16) v 0 (λ e. absurd (omega (arith, e))),
        )
        refl;
}

-- For every key, the 80 words that the key schedule leaves follow the recurrence of SHA-1.
pub expand_key-IsExpanded : (key : List ℕ) → IsExpanded (expand_key key)
unfolding expand_key
expand_key-IsExpanded key =
    let buf = key ++ replicate (64 - length key) 0 in
    let start = copy_in big 4 16 buf ++ replicate 64 0 in
    let size : length start ≡ 80 =
      omega (
        arith,
        length-append (copy_in big 4 16 buf) (replicate 64 0),
        length-copy_in big 4 16 buf,
      ) in
    let done = filled-Follows expanded expanded-IsBackward 80 start size (omega arith) in
    record { size = done.whole; follows = λ i l m. done.each i l m ∙ expanded_lem i _ }
