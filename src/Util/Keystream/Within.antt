-- ===== src/Util/Keystream/Within.antt =====
-- Within one buffer the byte-at-a-time cipher adds the bytes of the buffer.
use drew.Prelude.{
  ℕ, zero, suc, ◌-◌, ◌≤◌, ◌<◌, ◌≡◌, ◌≢◌, refl, sym, ap, ◌∙◌, List, [], ◌∷◌, length, take, drop,
  get_or, bit_xor, arith,
}
use drew.Util.Keystream.{Cursor, xor_bytes}
use drew.Util.Keystream.Spec.{refill, next_byte, advance, outputs, after}

pub drop-step : (i : ℕ) (xs : List ℕ) → i < length xs → drop i xs ≡ get_or xs i 0 ∷ drop (suc i) xs
drop-step i [] h = absurd (omega arith)
drop-step zero (x ∷ xs) h = refl
drop-step (suc i) (x ∷ xs) h = drop-step i xs (omega arith)

pub xor_bytes-take :
    (b : ℕ) (ks xs : List ℕ) → length xs ≤ b → xor_bytes (take b ks) xs ≡ xor_bytes ks xs
unfolding xor_bytes
xor_bytes-take zero [] xs h = refl
xor_bytes-take zero (k ∷ ks) [] h = refl
xor_bytes-take zero (k ∷ ks) (x ∷ xs) h = absurd (omega arith)
xor_bytes-take (suc b) [] xs h = refl
xor_bytes-take (suc b) (k ∷ ks) [] h = refl
xor_bytes-take (suc b) (k ∷ ks) (x ∷ xs) h =
    ap (λ t. bit_xor k x ∷ t) (xor_bytes-take b ks xs (omega arith))

xor_bytes_nil : (ks : List ℕ) → xor_bytes ks [] ≡ []
unfolding xor_bytes
xor_bytes_nil [] = refl
xor_bytes_nil (k ∷ ks) = refl

length-zero : (xs : List ℕ) → length xs ≡ 0 → xs ≡ []
length-zero [] h = refl
length-zero (x ∷ xs) h = absurd (omega arith)

-- A state, by its parts.
abbrev pub at : {O : Type 0} → List ℕ → ℕ → O → Cursor O
at buf r o = record { mbuf = buf; bufrem = r; obj = o }

module _ {O : Type 0} (n : ℕ) (fill : O → List ℕ × O) (pos : 0 < n) where
  refill_rest : (s : Cursor O) → s.bufrem ≢ 0 → refill n fill s ≡ s
  unfolding refill
  refill_rest s h = ground arith

  next_byte_within :
      (buf : List ℕ) (r : ℕ) (o : O) → r ≢ 0 → next_byte n fill (at buf r o) ≡ get_or buf (n - r) 0
  unfolding next_byte
  next_byte_within buf r o h = rw (refill_rest (at buf r o) h)

  advance_within :
      (buf : List ℕ) (r : ℕ) (o : O) → r ≢ 0 → advance n fill (at buf r o) ≡ at buf (r - 1) o
  unfolding advance
  advance_within buf r o h = rw (refill_rest (at buf r o) h)

  -- An empty buffer is as good as the full one that replaces it.
  refill_empty :
      (buf : List ℕ) (o : O)
      → refill n fill (at buf 0 o) ≡ refill n fill (at (fill o).0 n (fill o).1)
  unfolding refill
  refill_empty buf o = ground arith

  outputs_empty :
      (buf : List ℕ) (o : O) (xs : List ℕ)
      → outputs n fill (at buf 0 o) xs ≡ outputs n fill (at (fill o).0 n (fill o).1) xs
  unfolding outputs next_byte advance
  outputs_empty buf o [] = refl
  outputs_empty buf o (x ∷ xs) =
      ap
        (λ (s : Cursor O).
          bit_xor (get_or s.mbuf (n - s.bufrem) 0) x
          ∷ outputs n fill (record s { bufrem = s.bufrem - 1 }) xs)
        (refill_empty buf o)

  after_empty :
      (buf : List ℕ) (o : O) (xs : List ℕ)
      → xs ≢ []
      → after n fill (at buf 0 o) xs ≡ after n fill (at (fill o).0 n (fill o).1) xs
  unfolding after advance
  after_empty buf o [] h = absurd (h refl)
  after_empty buf o (x ∷ xs) h =
      ap (λ (s : Cursor O). after n fill (record s { bufrem = s.bufrem - 1 }) xs)
        (refill_empty buf o)

  -- Within the buffer the cipher adds the bytes that are left in it.
  pub outputs_within :
      (buf : List ℕ) (r : ℕ) (o : O) (xs : List ℕ)
      → length buf ≡ n
      → r ≤ n
      → length xs ≤ r
      → outputs n fill (at buf r o) xs ≡ xor_bytes (drop (n - r) buf) xs
  unfolding outputs xor_bytes
  outputs_within buf r o [] e h k = sym (xor_bytes_nil (drop (n - r) buf))
  outputs_within buf r o (x ∷ xs) e h k =
      rw
        (
          next_byte_within buf r o (omega arith),
          advance_within buf r o (omega arith),
          drop-step (n - r) buf (omega arith),
          outputs_within buf (r - 1) o xs e (omega arith) (omega arith),
        )
        (let next : n - (r - 1) ≡ suc (n - r) = omega arith in
          ap (λ t. bit_xor (get_or buf (n - r) 0) x ∷ xor_bytes (drop t buf) xs) next)

  pub after_within :
      (buf : List ℕ) (r : ℕ) (o : O) (xs : List ℕ)
      → length xs ≤ r
      → after n fill (at buf r o) xs ≡ at buf (r - length xs) o
  unfolding after
  after_within buf r o [] k = ap (λ t. at buf t o) (omega arith)
  after_within buf r o (x ∷ xs) k =
      rw (advance_within buf r o (omega arith), after_within buf (r - 1) o xs (omega arith))
        (ap (λ t. at buf t o) (omega arith))

  module _ (full : (o : O) → length (fill o).0 ≡ n) where
    -- A message of at most one buffer, from an empty buffer.
    pub outputs_one :
        (buf : List ℕ) (o : O) (xs : List ℕ)
        → length xs ≤ n
        → outputs n fill (at buf 0 o) xs ≡ xor_bytes (fill o).0 xs
    outputs_one buf o xs k =
        outputs_empty buf o xs
        ∙ outputs_within (fill o).0 n (fill o).1 xs (full o) (omega arith) k
        ∙ let start : n - n ≡ 0 = omega arith in ap (λ t. xor_bytes (drop t (fill o).0) xs) start

    pub after_one :
        (buf : List ℕ) (o : O) (xs : List ℕ)
        → xs ≢ []
        → length xs ≤ n
        → after n fill (at buf 0 o) xs ≡ at (fill o).0 (n - length xs) (fill o).1
    after_one buf o xs h k = after_empty buf o xs h ∙ after_within (fill o).0 n (fill o).1 xs k
