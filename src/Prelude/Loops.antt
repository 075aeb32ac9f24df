-- ===== src/Prelude/Loops.antt =====
-- Counted loops, and the rule by which a loop that runs downwards undoes one that runs upwards.
use Prim.Native.Nat.{ℕ, zero, suc, ◌+◌, ◌<◌}
use native.Mathlib.Omega.{arith}
use mathlib.Core.Path.{◌≡◌, refl, sym, ap, ◌∙◌, subst}

module _ {ℓ} {S : Type ℓ} where
  -- `for (k = i; k < i + n; k++) s = body k s`
  unfoldable pub for_up : ℕ → ℕ → (ℕ → S → S) → S → S
  for_up zero i body s = s
  for_up (suc n) i body s = for_up n (i + 1) body (body i s)

  -- `for (k = i + n - 1; k >= i; k--) s = body k s`
  unfoldable pub for_down : ℕ → ℕ → (ℕ → S → S) → S → S
  for_down zero i body s = s
  for_down (suc n) i body s = body i (for_down n (i + 1) body s)

-- An invariant of the body is one of the loop.
pub for_up_inv {ℓ κ} :
    {S : Type ℓ} (P : S → Type κ) (body : ℕ → S → S)
    → ((i : ℕ) (s : S) → P s → P (body i s))
    → (n i : ℕ) (s : S) → P s
    → P (for_up n i body s)
unfolding for_up
for_up_inv P body keep zero i s h = h
for_up_inv P body keep (suc n) i s h = for_up_inv P body keep n (i + 1) (body i s) (keep i s h)

pub for_down_inv {ℓ κ} :
    {S : Type ℓ} (P : S → Type κ) (body : ℕ → S → S)
    → ((i : ℕ) (s : S) → P s → P (body i s))
    → (n i : ℕ) (s : S) → P s
    → P (for_down n i body s)
unfolding for_down
for_down_inv P body keep zero i s h = h
for_down_inv P body keep (suc n) i s h = keep i _ (for_down_inv P body keep n (i + 1) s h)

-- If each round of `back` undoes that of `body` on valid states, the loop downwards undoes the
-- loop upwards.
pub for_down-for_up {ℓ κ} :
    {S : Type ℓ} (P : S → Type κ) (body back : ℕ → S → S)
    → ((i : ℕ) (s : S) → P s → P (body i s))
    → ((i : ℕ) (s : S) → P s → back i (body i s) ≡ s)
    → (n i : ℕ) (s : S) → P s
    → for_down n i back (for_up n i body s) ≡ s
unfolding for_up for_down
for_down-for_up P body back keep undo zero i s h = refl
for_down-for_up P body back keep undo (suc n) i s h =
    ap (back i) (for_down-for_up P body back keep undo n (i + 1) (body i s) (keep i s h))
    ∙ undo i s h

-- A loop whose body does not read its counter, `n` rounds.
module _ {ℓ} {S : Type ℓ} where
  unfoldable pub repeat : ℕ → (S → S) → S → S
  repeat zero body s = s
  repeat (suc n) body s = repeat n body (body s)

pub repeat_inv {ℓ κ} :
    {S : Type ℓ} (P : S → Type κ) (body : S → S)
    → ((s : S) → P s → P (body s))
    → (n : ℕ) (s : S) → P s
    → P (repeat n body s)
unfolding repeat
repeat_inv P body keep zero s h = h
repeat_inv P body keep (suc n) s h = repeat_inv P body keep n (body s) (keep s h)

-- The last round of a repetition may be taken outside.
pub repeat_last {ℓ} :
    {S : Type ℓ} (body : S → S) (n : ℕ) (s : S) → repeat (suc n) body s ≡ body (repeat n body s)
unfolding repeat
repeat_last body zero s = refl
repeat_last body (suc n) s = repeat_last body n (body s)

-- Repeating an inverse undoes as many rounds.
pub repeat_undo {ℓ κ} :
    {S : Type ℓ} (P : S → Type κ) (body back : S → S)
    → ((s : S) → P s → P (body s))
    → ((s : S) → P s → back (body s) ≡ s)
    → (n : ℕ) (s : S) → P s
    → repeat n back (repeat n body s) ≡ s
unfolding repeat
repeat_undo P body back keep undo zero s h = refl
repeat_undo P body back keep undo (suc n) s h =
    repeat_last back n (repeat n body (body s))
    ∙ ap back (repeat_undo P body back keep undo n (body s) (keep s h))
    ∙ undo s h

-- The last round of a loop may be taken outside.
pub for_up_last {ℓ} :
    {S : Type ℓ} (body : ℕ → S → S) (n i : ℕ) (s : S)
    → for_up (suc n) i body s ≡ body (i + n) (for_up n i body s)
unfolding for_up
for_up_last body zero i s = ap (λ k. body k s) (omega arith)
for_up_last body (suc n) i s =
    for_up_last body n (i + 1) (body i s)
    ∙ let next : i + 1 + n ≡ i + suc n = omega arith in
      ap (λ k. body k (for_up n (i + 1) body (body i s))) next

-- An invariant that speaks of the rounds made.
pub for_up_count {ℓ κ} :
    {S : Type ℓ} (P : ℕ → S → Type κ) (body : ℕ → S → S) (m : ℕ)
    → ((i : ℕ) (s : S) → i < m → P i s → P (i + 1) (body i s))
    → (n i : ℕ) (s : S) → i + n ≡ m
    → P i s
    → P m (for_up n i body s)
unfolding for_up
for_up_count P body m keep zero i s e h =
    let done : i ≡ m = omega arith in subst (λ k. P k s) done h
for_up_count P body m keep (suc n) i s e h =
    for_up_count P body m keep n (i + 1) (body i s) (omega arith) (keep i s (omega arith) h)

-- One round after the first `i`.
pub for_up_next {ℓ} :
    {S : Type ℓ} (body : ℕ → S → S) (i : ℕ) (r s : S)
    → s ≡ for_up i 0 body r
    → body i s ≡ for_up (i + 1) 0 body r
for_up_next body i r s e =
    let one_more : suc i ≡ i + 1 = omega arith in
    let counter : 0 + i ≡ i = omega arith in
    ap (body i) e
    ∙ ap (λ k. body k (for_up i 0 body r)) (sym counter)
    ∙ sym (for_up_last body i 0 r)
    ∙ ap (λ n. for_up n 0 body r) one_more

-- A loop seen through a map that its body respects.
pub for_up_map {ℓ κ} :
    {S : Type ℓ} {T : Type κ} (view : S → T) (body : ℕ → S → S) (body' : ℕ → T → T)
    → ((i : ℕ) (s : S) → view (body i s) ≡ body' i (view s))
    → (n i : ℕ) (s : S) → view (for_up n i body s) ≡ for_up n i body' (view s)
unfolding for_up
for_up_map view body body' same zero i s = refl
for_up_map view body body' same (suc n) i s =
    for_up_map view body body' same n (i + 1) (body i s) ∙ ap (for_up n (i + 1) body') (same i s)

pub repeat_map {ℓ κ} :
    {S : Type ℓ} {T : Type κ} (view : S → T) (body : S → S) (body' : T → T)
    → ((s : S) → view (body s) ≡ body' (view s))
    → (n : ℕ) (s : S) → view (repeat n body s) ≡ repeat n body' (view s)
unfolding repeat
repeat_map view body body' same zero s = refl
repeat_map view body body' same (suc n) s =
    repeat_map view body body' same n (body s) ∙ ap (repeat n body') (same s)
