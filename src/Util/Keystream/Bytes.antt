-- ===== src/Util/Keystream/Bytes.antt =====
-- Adding bytes to bytes: sizes, and that adding the same bytes again takes them away.
use drew.Prelude.{ℕ, suc, ◌≡◌, refl, ap, ap₂, ◌∙◌, List, [], ◌∷◌, bit_xor, length, arith}
use drew.Prelude.Bits.{xor-lt, xor_cancel, xor_cancel_left, xor_comm}
use drew.Util.Endian.{AllBelow}
use drew.Util.Keystream.{xor_bytes}

pub length-xor_bytes :
    (xs ys : List ℕ) → length xs ≡ length ys → length (xor_bytes xs ys) ≡ length ys
unfolding xor_bytes
length-xor_bytes [] ys e = e
length-xor_bytes (x ∷ xs) [] e = refl
length-xor_bytes (x ∷ xs) (y ∷ ys) e = ap suc (length-xor_bytes xs ys (omega arith))

pub xor_bytes-AllBelow :
    (xs ys : List ℕ) → AllBelow 256 xs → AllBelow 256 ys → AllBelow 256 (xor_bytes xs ys)
unfolding xor_bytes
xor_bytes-AllBelow [] ys p q = tt
xor_bytes-AllBelow (x ∷ xs) [] p q = tt
xor_bytes-AllBelow (x ∷ xs) (y ∷ ys) p q =
    (xor-lt 8 x y (p.0) (q.0), xor_bytes-AllBelow xs ys (p.1) (q.1))

-- Adding the same bytes again takes them away.
pub xor_bytes_cancel :
    (xs ys : List ℕ) → length xs ≡ length ys → xor_bytes (xor_bytes xs ys) xs ≡ ys
unfolding xor_bytes
xor_bytes_cancel [] [] e = refl
xor_bytes_cancel [] (y ∷ ys) e = absurd (omega arith)
xor_bytes_cancel (x ∷ xs) [] e = absurd (omega arith)
xor_bytes_cancel (x ∷ xs) (y ∷ ys) e =
    ap₂ ◌∷◌ (ap (λ (t : ℕ). bit_xor t x) (xor_comm x y) ∙ xor_cancel y x)
      (xor_bytes_cancel xs ys (omega arith))

pub xor_bytes_cancel_left :
    (xs ys : List ℕ) → length xs ≡ length ys → xor_bytes xs (xor_bytes xs ys) ≡ ys
unfolding xor_bytes
xor_bytes_cancel_left [] [] e = refl
xor_bytes_cancel_left [] (y ∷ ys) e = absurd (omega arith)
xor_bytes_cancel_left (x ∷ xs) [] e = absurd (omega arith)
xor_bytes_cancel_left (x ∷ xs) (y ∷ ys) e =
    ap₂ ◌∷◌ (xor_cancel_left x y) (xor_bytes_cancel_left xs ys (omega arith))
