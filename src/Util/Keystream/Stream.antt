-- ===== src/Util/Keystream/Stream.antt =====
-- The keystream as a whole: the buffers that an object gives, one after another.
use drew.Prelude.{
  ℕ, zero, suc, ◌*◌, ◌≤◌, ◌<◌, ◌≡◌, refl, sym, ap, ap₂, ◌∙◌, inl, inr, List, [], ◌∷◌, ◌++◌, length,
  take, drop, length-take, length-drop, take-append-drop, leb, Bool-cases, bit_xor, arith,
}
use native.Mathlib.Nat.{suc-mul}
use drew.Util.Keystream.{xor_bytes, copy_and_xor}
use drew.Util.Keystream.Refine.{copy_and_xor_lem}
use drew.Util.Keystream.Spec.{outputs, outputs-append}
use drew.Util.Keystream.Within.{at, outputs_one}
use drew.Util.Keystream.Whole.{after_whole}

xor_bytes-append :
    (ws bs cs ds : List ℕ)
    → length ws ≡ length cs
    → xor_bytes (ws ++ bs) (cs ++ ds) ≡ xor_bytes ws cs ++ xor_bytes bs ds
unfolding xor_bytes
xor_bytes-append [] bs [] ds h = refl
xor_bytes-append [] bs (c ∷ cs) ds h = absurd (omega arith)
xor_bytes-append (a ∷ ws) bs [] ds h = absurd (omega arith)
xor_bytes-append (a ∷ ws) bs (c ∷ cs) ds h =
    ap (λ t. bit_xor a c ∷ t) (xor_bytes-append ws bs cs ds (omega arith))

-- Bytes of the keystream that are not used.
xor_bytes_rest :
    (ws bs cs : List ℕ) → length cs ≤ length ws → xor_bytes (ws ++ bs) cs ≡ xor_bytes ws cs
unfolding xor_bytes
xor_bytes_rest [] [] [] h = refl
xor_bytes_rest [] (b ∷ bs) [] h = refl
xor_bytes_rest [] bs (c ∷ cs) h = absurd (omega arith)
xor_bytes_rest (a ∷ ws) bs [] h = refl
xor_bytes_rest (a ∷ ws) bs (c ∷ cs) h =
    ap (λ t. bit_xor a c ∷ t) (xor_bytes_rest ws bs cs (omega arith))

module _ {O : Type 0} (n : ℕ) (fill : O → List ℕ × O) where
  -- The next `k` buffers.
  unfoldable pub stream : ℕ → O → List ℕ
  stream zero o = []
  stream (suc k) o = (fill o).0 ++ stream k (fill o).1

  -- A message of at most `k` buffers, given to an object whose buffer is used up.
  pub outputs-stream :
      (pos : 0 < n) (full : (o : O) → length (fill o).0 ≡ n)
      → (k : ℕ) (buf : List ℕ) (o : O) (xs : List ℕ) → length xs ≤ k * n
      → outputs n fill (at buf 0 o) xs ≡ xor_bytes (stream k o) xs
  unfolding stream outputs xor_bytes
  outputs-stream pos full zero buf o [] h = refl
  outputs-stream pos full zero buf o (x ∷ xs) h =
      let none : 0 * n ≡ 0 = omega arith in absurd (omega arith)
  outputs-stream pos full (suc k) buf o xs h = elim (Bool-cases (leb n (length xs))) [
    | inr less ↦
        let short : length xs ≤ n = ground arith in
        outputs_one n fill pos full buf o xs short
        ∙ sym (xor_bytes_rest (fill o).0 (stream k (fill o).1) xs (omega (arith, full o)))
    | inl more ↦
        let whole : n ≤ length xs = ground arith in
        let first = length-take n xs in
        let rest = length-drop n xs in
        let step = suc-mul k n in
        ap (outputs n fill (at buf 0 o)) (sym (take-append-drop n xs))
        ∙ outputs-append n fill (at buf 0 o) (take n xs) (drop n xs)
        ∙ ap₂ (λ a b. a ++ b) (outputs_one n fill pos full buf o (take n xs) (omega arith))
            (ap (λ s. outputs n fill s (drop n xs)) (after_whole n fill pos full buf o xs whole)
              ∙ outputs-stream pos full k (fill o).0 (fill o).1 (drop n xs) (omega arith))
        ∙ sym (
            xor_bytes-append (fill o).0 (stream k (fill o).1) (take n xs) (drop n xs)
              (omega (arith, full o)))
        ∙ ap (xor_bytes (stream (suc k) o)) (take-append-drop n xs)
  ]

  -- `CopyAndXor` with no byte of the buffer unused, for a message of at most `k` buffers.
  pub copy_and_xor-stream :
      (pos : 0 < n) (full : (o : O) → length (fill o).0 ≡ n)
      → (k : ℕ) (buf : List ℕ) (o : O) (xs : List ℕ) → length buf ≡ n
      → length xs ≤ k * n
      → (copy_and_xor n fill (at buf 0 o) xs).0 ≡ xor_bytes (stream k o) xs
  copy_and_xor-stream pos full k buf o xs whole short =
      ap (λ r. r.0) (copy_and_xor_lem n fill pos full (at buf 0 o) xs whole (omega arith) (inl pos))
      ∙ outputs-stream pos full k buf o xs short
