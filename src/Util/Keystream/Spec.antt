-- ===== src/Util/Keystream/Spec.antt =====
-- The specification of a stream cipher over a refilled buffer: one byte at a time.
use drew.Prelude.{
  ℕ, suc, ◌-◌, ◌≡◌, length, refl, ap, ◌∙◌, List, [], ◌∷◌, ◌++◌, bit_xor, get_or, ◌==◌,
  if◌then◌else◌,
}
use drew.Prelude.Bits.{xor_cancel_left}
use drew.Util.Keystream.{Cursor}

module _ {O : Type 0} (bufsz : ℕ) (fill : O → List ℕ × O) where
  -- An empty buffer is filled.
  unfoldable pub refill : Cursor O → Cursor O
  refill s =
      let (buf, obj') = fill s.obj in
      if s.bufrem == 0 then record { mbuf = buf; bufrem = bufsz; obj = obj' } else s

  -- The next byte of the keystream stands `bufrem` bytes before the end of the buffer.
  unfoldable pub next_byte : Cursor O → ℕ
  next_byte s = let s' = refill s in get_or s'.mbuf (bufsz - s'.bufrem) 0

  unfoldable pub advance : Cursor O → Cursor O
  advance s = let s' = refill s in record s' { bufrem = s'.bufrem - 1 }

  -- The bytes that a message becomes, and the state after it.
  unfoldable pub outputs : Cursor O → List ℕ → List ℕ
  outputs s [] = []
  outputs s (x ∷ xs) = bit_xor (next_byte s) x ∷ outputs (advance s) xs

  unfoldable pub after : Cursor O → List ℕ → Cursor O
  after s [] = s
  after s (x ∷ xs) = after (advance s) xs

  pub length-outputs : (s : Cursor O) (xs : List ℕ) → length (outputs s xs) ≡ length xs
  unfolding outputs
  length-outputs s [] = refl
  length-outputs s (x ∷ xs) = ap suc (length-outputs (advance s) xs)

  pub outputs-append :
      (s : Cursor O) (xs ys : List ℕ)
      → outputs s (xs ++ ys) ≡ outputs s xs ++ outputs (after s xs) ys
  unfolding outputs after
  outputs-append s [] ys = refl
  outputs-append s (x ∷ xs) ys =
      ap (λ t. bit_xor (next_byte s) x ∷ t) (outputs-append (advance s) xs ys)

  pub after-append : (s : Cursor O) (xs ys : List ℕ) → after s (xs ++ ys) ≡ after (after s xs) ys
  unfolding after
  after-append s [] ys = refl
  after-append s (x ∷ xs) ys = after-append (advance s) xs ys

  -- The state does not depend on the message, so adding the keystream twice gives it back.
  pub outputs_twice : (s : Cursor O) (xs : List ℕ) → outputs s (outputs s xs) ≡ xs
  unfolding outputs
  outputs_twice s [] = refl
  outputs_twice s (x ∷ xs) =
      ap (λ t. t ∷ outputs (advance s) (outputs (advance s) xs)) (xor_cancel_left (next_byte s) x)
      ∙ ap (λ t. x ∷ t) (outputs_twice (advance s) xs)

  pub after-outputs : (s : Cursor O) (xs : List ℕ) → after s (outputs s xs) ≡ after s xs
  unfolding outputs after
  after-outputs s [] = refl
  after-outputs s (x ∷ xs) = after-outputs (advance s) xs
