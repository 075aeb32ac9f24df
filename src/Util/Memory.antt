-- ===== src/Util/Memory.antt =====
-- Copies into arrays of bytes, `memcpy`, `memset` and `memmove`, within the array.
use mathlib.Core.List.{append-nil}
use drew.Prelude.{
  ℕ, zero, suc, ◌+◌, ◌≤◌, ◌≡◌, refl, ap, ◌∙◌, List, [], ◌∷◌, ◌++◌, length, take, drop,
  length-append, length-take, length-drop, get_or, arith,
}
use drew.Util.Endian.Laws.{take-append_self, drop-append_self}

-- `memcpy(buf + off, xs, …)` within the array.
unfoldable pub overwrite : List ℕ → ℕ → List ℕ → List ℕ
overwrite buf off xs = take off buf ++ xs ++ drop (off + length xs) buf

pub drop-whole : (n : ℕ) (xs : List ℕ) → length xs ≤ n → drop n xs ≡ []
drop-whole zero [] h = refl
drop-whole zero (x ∷ xs) h = absurd (omega arith)
drop-whole (suc n) [] h = refl
drop-whole (suc n) (x ∷ xs) h = drop-whole n xs (omega arith)

-- A write to the array: its size, and the bytes before its end.
pub overwrite-length :
    (buf : List ℕ) (off : ℕ) (xs : List ℕ)
    → off + length xs ≤ length buf
    → length (overwrite buf off xs) ≡ length buf
unfolding overwrite
overwrite-length buf off xs h = omega (
  arith,
  length-append (take off buf ++ xs) (drop (off + length xs) buf),
  length-append (take off buf) xs,
  length-take off buf,
  length-drop (off + length xs) buf,
)

pub take-overwrite :
    (buf : List ℕ) (off : ℕ) (xs : List ℕ)
    → off ≤ length buf
    → take (off + length xs) (overwrite buf off xs) ≡ take off buf ++ xs
unfolding overwrite
take-overwrite buf off xs h =
    take-append_self (off + length xs) (take off buf ++ xs) (drop (off + length xs) buf)
      (omega (arith, length-append (take off buf) xs, length-take off buf))

pub overwrite_to_end :
    (buf : List ℕ) (off : ℕ) (xs : List ℕ)
    → off + length xs ≡ length buf
    → overwrite buf off xs ≡ take off buf ++ xs
unfolding overwrite
overwrite_to_end buf off xs h =
    ap (λ t. take off buf ++ xs ++ t) (drop-whole (off + length xs) buf (omega arith))
    ∙ append-nil (take off buf ++ xs)

-- The front of what was written at the start.
take_of_front : (m : ℕ) (xs ys : List ℕ) → m ≤ length xs → take m (xs ++ ys) ≡ take m xs
take_of_front zero xs ys h = refl
take_of_front (suc m) [] ys h = absurd (omega arith)
take_of_front (suc m) (x ∷ xs) ys h = ap (λ t. x ∷ t) (take_of_front m xs ys (omega arith))

pub take-overwrite_front :
    (m : ℕ) (buf xs : List ℕ) → m ≤ length xs → take m (overwrite buf 0 xs) ≡ take m xs
unfolding overwrite
take-overwrite_front m buf xs h = take_of_front m xs (drop (0 + length xs) buf) h

-- Two writes of one size to the front.
pub overwrite-overwrite :
    (buf xs ys : List ℕ)
    → length xs ≡ length ys
    → overwrite (overwrite buf 0 xs) 0 ys ≡ overwrite buf 0 ys
unfolding overwrite
overwrite-overwrite buf xs ys h =
    ap (λ t. ys ++ t)
      (ap (λ (n : ℕ). drop n (xs ++ drop (0 + length xs) buf)) {x = 0 + length ys} {y = length xs}
          (omega arith)
        ∙ drop-append_self (length xs) xs (drop (0 + length xs) buf) refl
        ∙ ap (λ (n : ℕ). drop n buf) {x = 0 + length xs} {y = 0 + length ys} (omega arith))

-- A list is what is read of it.
unfoldable pub tabulate : ℕ → (ℕ → ℕ) → List ℕ
tabulate zero f = []
tabulate (suc n) f = f 0 ∷ tabulate n (λ i. f (suc i))

pub tabulate-get_or : (ws : List ℕ) → tabulate (length ws) (λ i. get_or ws i 0) ≡ ws
unfolding tabulate
tabulate-get_or [] = refl
tabulate-get_or (w ∷ ws) = ap (λ t. w ∷ t) (tabulate-get_or ws)
