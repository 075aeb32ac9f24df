-- ===== src/Prelude/Recurrence.antt =====
-- An array of words of which the first 16 are given, and a loop that fills in the rest by a recurrence
-- on the words before.
use Prim.Native.Nat.{ℕ, ◌+◌, ◌-◌, ◌≤◌, ◌<◌}
use mathlib.Core.Path.{◌≡◌, sym, ap, ◌∙◌}
use mathlib.Core.Logic.{◌⊎◌, inl, inr}
use mathlib.Core.List.{List}
use native.Mathlib.Omega.{arith}
use drew.Prelude.Lists.{length, get_or, set, length-set, get_or-set_self, get_or-set_ne}
use drew.Prelude.Loops.{for_up, for_up_count}

-- A recurrence that reads only words below its index.
pub record IsBackward (f : ℕ → List ℕ → ℕ) : Type 0 where
  pub unread : (k i v : ℕ) (w : List ℕ) → 16 ≤ k → k ≤ i → f k (set w i v) ≡ f k w

-- The words from the sixteenth on, up to `n`, follow the recurrence.
pub record Follows (f : ℕ → List ℕ → ℕ) (size n : ℕ) (w : List ℕ) : Type 0 where
  pub whole : length w ≡ size
  pub each : (k : ℕ) → 16 ≤ k → k < n → get_or w k 0 ≡ f k w

before_or_here : (k i : ℕ) → k < i + 1 → (k < i) ⊎ (k ≡ i)
before_or_here k i h = omega arith

module _ (f : ℕ → List ℕ → ℕ) (b : IsBackward f) (size : ℕ) where
  next-Follows :
      (i : ℕ) (w : List ℕ)
      → i < size
      → (16 ≤ i) × Follows f size i w
      → (16 ≤ i + 1) × Follows f size (i + 1) (set w i (f i w))
  next-Follows i w h (p, x) = (
    omega arith,
    record {
      whole = length-set w i (f i w) ∙ x.whole;
      each = λ k l m. elim (before_or_here k i m) [
        | inl before ↦
            get_or-set_ne w i k (f i w) 0 (λ e. absurd (omega (arith, e)))
            ∙ x.each k l before
            ∙ sym (b.unread k i (f i w) w l (omega arith))
        | inr here ↦
            let all = x.whole in
            ap (λ t. get_or (set w i (f i w)) t 0) here
            ∙ get_or-set_self w i (f i w) 0 (omega arith)
            ∙ ap (λ t. f t w) (sym here)
            ∙ sym (b.unread k i (f i w) w l (omega arith))
      ];
    },
  )

  -- The loop `for (i = 16; i < size; i++) w[i] = f(i, w)` makes the whole array follow.
  pub filled-Follows :
      (w : List ℕ)
      → length w ≡ size
      → 16 ≤ size
      → Follows f size size (for_up (size - 16) 16 (λ i v. set v i (f i v)) w)
  filled-Follows w e h =
      (for_up_count (λ i v. (16 ≤ i) × Follows f size i v) (λ i v. set v i (f i v)) size
        next-Follows (size - 16) 16 w (omega arith)
        (omega arith, record { whole = e; each = λ k l m. absurd (omega arith) })).1
