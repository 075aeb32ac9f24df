-- ===== src/Util/Keystream/Split.antt =====
-- What the callers of `CopyAndXor` rely on: a message may be given in pieces, and the same call
-- decrypts. And the one case that loses keystream.
use drew.Prelude.{
  ℕ, ◌+◌, ◌-◌, ◌%◌, ◌≤◌, ◌<◌, ◌≡◌, inl, ap, ap₂, ◌∙◌, List, [], ◌∷◌, ◌++◌, length, false, ◌==◌,
  arith,
}
use drew.Util.Keystream.{Cursor, copy_and_xor, xor_bytes}
use drew.Util.Keystream.Spec.{
  refill, advance, outputs, after, outputs-append, after-append, outputs_twice,
}
use drew.Util.Keystream.Whole.{copy_rest-nil}
use drew.Util.Keystream.Refine.{copy_and_xor_lem}
use native.Mathlib.Nat.{mod_self, zero-mod, sub_self, min-zero}

-- The states between calls: a whole buffer, not all of it unused.
pub record IsReady {O : Type 0} (n : ℕ) (s : Cursor O) : Type 0 where
  pub size : length s.mbuf ≡ n
  pub used : s.bufrem < n

module _ {O : Type 0} (n : ℕ) (fill : O → List ℕ × O) (full : (o : O) → length (fill o).0 ≡ n) where
  advance-IsReady :
      (s : Cursor O) → 0 < n → length s.mbuf ≡ n → s.bufrem ≤ n → IsReady n (advance n fill s)
  unfolding advance refill
  advance-IsReady s p e h = ground (arith, full s.obj)

  pub after-IsReady : (s : Cursor O) (xs : List ℕ) → IsReady n s → IsReady n (after n fill s xs)
  unfolding after
  after-IsReady s [] r = r
  after-IsReady s (x ∷ xs) r =
      after-IsReady (advance n fill s) xs (advance-IsReady s (omega arith) (r.size) (omega arith))

-- When `FillBuffer` always fills the buffer, and from a whole buffer that is not wholly unused,
-- encrypting a message in two calls writes the bytes, and leaves the state, of one call for the
-- whole message, however the message is cut.
pub copy_and_xor-append :
    {O : Type 0} (n : ℕ) (fill : O → List ℕ × O) (s : Cursor O) (xs ys : List ℕ)
    → ((o : O) → length (fill o).0 ≡ n)
    → IsReady n s
    → let (out, s') = copy_and_xor n fill s xs in
      let (out', s'') = copy_and_xor n fill s' ys in
      copy_and_xor n fill s (xs ++ ys) ≡ (out ++ out', s'')
copy_and_xor-append n fill s xs ys full r =
    let pos : 0 < n = omega arith in
    let r' = after-IsReady n fill full s xs r in
    rw
      (
        copy_and_xor_lem n fill pos full s (xs ++ ys) (r.size) (omega arith) (inl r.used),
        copy_and_xor_lem n fill pos full s xs (r.size) (omega arith) (inl r.used),
        copy_and_xor_lem n fill pos full (after n fill s xs) ys (r'.size) (omega arith)
            (inl r'.used),
      )
      (ap₂ (λ a t. (a, t)) (outputs-append n fill s xs ys) (after-append n fill s xs ys))

-- When `FillBuffer` always fills the buffer, and from a whole buffer that is not wholly unused,
-- encrypting the result again from the same state gives the message back: the same call decrypts.
pub copy_and_xor_twice :
    {O : Type 0} (n : ℕ) (fill : O → List ℕ × O) (s : Cursor O) (xs : List ℕ)
    → ((o : O) → length (fill o).0 ≡ n)
    → IsReady n s
    → (copy_and_xor n fill s (copy_and_xor n fill s xs).0).0 ≡ xs
copy_and_xor_twice n fill s xs full r =
    let pos : 0 < n = omega arith in
    rw
      (
        copy_and_xor_lem n fill pos full s xs (r.size) (omega arith) (inl r.used),
        copy_and_xor_lem n fill pos full s (outputs n fill s xs) (r.size) (omega arith)
            (inl r.used),
      )
      (outputs_twice n fill s xs)

-- An empty message to a buffer of which nothing has been used marks the buffer as used up: its
-- bytes are lost from the keystream.
pub full_buffer_lost :
    {O : Type 0} (n : ℕ) (fill : O → List ℕ × O) (buf : List ℕ) (o : O)
    → ((o : O) → length (fill o).0 ≡ n)
    → 0 < n
    → copy_and_xor n fill (record { mbuf = buf; bufrem = n; obj = o }) []
      ≡ ([], record { mbuf = buf; bufrem = 0; obj = o })
unfolding copy_and_xor xor_bytes
full_buffer_lost n fill buf o full p =
    let some_left : (n == 0) ≡ false = ground arith in
    let start : (n - n) % n ≡ 0 = ap (λ t. t % n) (sub_self n) ∙ zero-mod n in
    let whole : n - 0 ≡ n = omega arith in
    let not_used : (0 + 0 == n) ≡ false = ground arith in
    rw (some_left, min-zero n, start, not_used, copy_rest-nil n fill p full buf 0 o)
      (ap (λ t. ([], record { mbuf = buf; bufrem = t % n; obj = o })) whole
        ∙ ap (λ t. ([], record { mbuf = buf; bufrem = t; obj = o })) (mod_self n))
