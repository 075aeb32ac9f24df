-- ===== src/Util/Keystream/Refine.antt =====
-- `CopyAndXor` does what the byte-at-a-time cipher does, for messages of every length.
use native.Mathlib.Nat.{mod-eq_of_lt, mod_self}
use drew.Prelude.{
  ℕ, ◌+◌, ◌-◌, ◌%◌, ◌≤◌, ◌<◌, min, ◌≡◌, ◌≢◌, ◌⊎◌, inl, inr, refl, sym, ap, ap₂, ◌∙◌, List, [], ◌∷◌,
  ◌++◌, length, take, drop, length-take, length-drop, take-append-drop, ◌==◌, if◌then◌else◌,
  Bool-cases, arith,
}
use drew.Util.Keystream.{Cursor, xor_bytes, copy_rest, copy_and_xor}
use drew.Util.Keystream.Spec.{outputs, after, outputs-append, after-append}
use drew.Util.Keystream.Within.{xor_bytes-take, outputs_within, after_within}
use drew.Util.Keystream.Whole.{copy_rest_lem, copy_rest-nil}

module _ {O : Type 0} (n : ℕ) (fill : O → List ℕ × O) (pos : 0 < n)
    (full : (o : O) → length (fill o).0 ≡ n) where
  -- The first half of `CopyAndXor`: what it writes, and the state in which the second half starts.
  head_lem :
      (s : Cursor O) (b : ℕ) (xs : List ℕ)
      → length s.mbuf ≡ n
      → s.bufrem ≤ n
      → b ≤ s.bufrem
      → b ≤ length xs
      → (xor_bytes (take b (drop (n - s.bufrem) s.mbuf)) (take b xs) ≡ outputs n fill s (take b xs))
        × (after n fill s (take b xs) ≡ record s { bufrem = s.bufrem - b })
  head_lem s b xs e h k l = (written, left)
    where
      short : length (take b xs) ≡ b
      short = omega (arith, length-take b xs)

      written :
          xor_bytes (take b (drop (n - s.bufrem) s.mbuf)) (take b xs) ≡ outputs n fill s (take b xs)
      written =
          xor_bytes-take b (drop (n - s.bufrem) s.mbuf) (take b xs) (omega (arith, short))
          ∙ sym (
              outputs_within n fill pos s.mbuf s.bufrem s.obj (take b xs) e h
                (omega (arith, short)))

      left : after n fill s (take b xs) ≡ record s { bufrem = s.bufrem - b }
      left =
          after_within n fill pos s.mbuf s.bufrem s.obj (take b xs) (omega (arith, short))
          ∙ ap (λ t. record s { bufrem = s.bufrem - t }) short

  -- Both halves together, once the second is known to agree from the state that the first leaves.
  join :
      (s : Cursor O) (b boff : ℕ) (xs : List ℕ)
      → length s.mbuf ≡ n
      → s.bufrem ≤ n
      → b ≤ s.bufrem
      → b ≤ length xs
      → copy_rest n fill s.mbuf boff s.obj (drop b xs) ≡ (
        outputs n fill (record s { bufrem = s.bufrem - b }) (drop b xs),
        after n fill (record s { bufrem = s.bufrem - b }) (drop b xs),
      )
      → let (tail, s') = copy_rest n fill s.mbuf boff s.obj (drop b xs) in
        ◌≡◌ {A = List ℕ × Cursor O}
          (xor_bytes (take b (drop (n - s.bufrem) s.mbuf)) (take b xs) ++ tail, s')
          (outputs n fill s xs, after n fill s xs)
  join s b boff xs e h k l rest =
      ap
        (λ (r : List ℕ × Cursor O).
          (xor_bytes (take b (drop (n - s.bufrem) s.mbuf)) (take b xs) ++ r.0, r.1))
        rest
      ∙ ap₂ (λ a t. (a ++ outputs n fill t (drop b xs), after n fill t (drop b xs))) (head.0)
          (sym (head.1))
      ∙ ap₂ (λ a t. (a, t)) (sym (outputs-append n fill s (take b xs) (drop b xs)))
          (sym (after-append n fill s (take b xs) (drop b xs)))
      ∙ ap (λ t. (outputs n fill s t, after n fill s t)) (take-append-drop b xs)
    where
      head :
          (xor_bytes (take b (drop (n - s.bufrem) s.mbuf)) (take b xs)
            ≡ outputs n fill s (take b xs))
          × (after n fill s (take b xs) ≡ record s { bufrem = s.bufrem - b })
      head = head_lem s b xs e h k l

  -- The message ends within the buffer.
  rest_nil :
      (s : Cursor O) (boff : ℕ) (xs : List ℕ)
      → length xs ≡ 0
      → boff ≤ n
      → (n - boff) % n ≡ s.bufrem
      → copy_rest n fill s.mbuf boff s.obj xs ≡ (outputs n fill s xs, after n fill s xs)
  unfolding outputs after
  rest_nil s boff [] z p q =
      copy_rest-nil n fill pos full s.mbuf boff s.obj ∙ ap (λ t. ([], record s { bufrem = t })) q
  rest_nil s boff (x ∷ xs) z p q = absurd (omega arith)

  from_empty :
      (s : Cursor O) (xs : List ℕ)
      → s.bufrem ≡ 0
      → copy_rest n fill s.mbuf ((n - s.bufrem) % n) s.obj xs
        ≡ (outputs n fill s xs, after n fill s xs)
  from_empty s xs z =
      let whole : n - s.bufrem ≡ n = omega arith in
      let start : (n - s.bufrem) % n ≡ 0 = ap (λ t. t % n) whole ∙ mod_self n in
      ap (λ t. copy_rest n fill s.mbuf t s.obj xs) start
      ∙ copy_rest_lem n fill pos full s.mbuf s.obj xs
      ∙ ap
          (λ t. (
            outputs n fill (record s { bufrem = t }) xs,
            after n fill (record s { bufrem = t }) xs,
          ))
          (sym z)

  -- The first half stops short of the end of the buffer, or has something to read.
  started :
      (s : Cursor O) (xs : List ℕ)
      → s.bufrem ≤ n
      → (s.bufrem < n) ⊎ (xs ≢ [])
      → 0 < s.bufrem
      → n - (n - s.bufrem + min s.bufrem (length xs)) < n
  started s xs h (inl less) p = omega arith
  started s [] h (inr ne) p = absurd (ne refl)
  started s (x ∷ xs) h (inr ne) p = omega arith

  from_rest :
      (s : Cursor O) (xs : List ℕ)
      → length s.mbuf ≡ n
      → s.bufrem ≤ n
      → (s.bufrem < n) ⊎ (xs ≢ [])
      → 0 < s.bufrem
      → let b = min s.bufrem (length xs) in
        let boff = n - s.bufrem in
        let (tail, s') =
          copy_rest n fill s.mbuf (if boff + b == n then 0 else boff + b) s.obj (drop b xs) in
        ◌≡◌ {A = List ℕ × Cursor O}
          (xor_bytes (take b (drop (n - s.bufrem) s.mbuf)) (take b xs) ++ tail, s')
          (outputs n fill s xs, after n fill s xs)
  from_rest s xs e h u p = elim (Bool-cases (boff + b == n)) [
    | inl used ↦ rw used (
        join s b 0 xs e h (omega arith) (omega arith)
          (from_empty_rest (record s { bufrem = s.bufrem - b }) (drop b xs) (ground arith)))
    | inr some_left ↦ rw some_left (
        join s b (boff + b) xs e h (omega arith) (omega arith) (
          rest_nil (record s { bufrem = s.bufrem - b }) (boff + b) (drop b xs)
            (ground (arith, length-drop b xs)) (omega arith)
            (mod-eq_of_lt (started s xs h u p) ∙ (omega arith))))
  ]
    where
      b : ℕ
      b = min s.bufrem (length xs)

      boff : ℕ
      boff = n - s.bufrem

      from_empty_rest :
          (t : Cursor O) (ys : List ℕ)
          → t.bufrem ≡ 0
          → copy_rest n fill t.mbuf 0 t.obj ys ≡ (outputs n fill t ys, after n fill t ys)
      from_empty_rest t ys z =
          copy_rest_lem n fill pos full t.mbuf t.obj ys
          ∙ ap
              (λ r. (
                outputs n fill (record t { bufrem = r }) ys,
                after n fill (record t { bufrem = r }) ys,
              ))
              (sym z)

  -- With buffers of a size above 0 that `FillBuffer` always fills, from any state with a whole buffer
  -- and at most the whole of it unused, and for a message of any length, `CopyAndXor` writes the
  -- bytes and leaves the state of the byte-at-a-time cipher, unless the buffer is unused and the
  -- message empty.
  pub copy_and_xor_lem :
      (s : Cursor O) (xs : List ℕ)
      → length s.mbuf ≡ n
      → s.bufrem ≤ n
      → (s.bufrem < n) ⊎ (xs ≢ [])
      → copy_and_xor n fill s xs ≡ (outputs n fill s xs, after n fill s xs)
  unfolding copy_and_xor
  copy_and_xor_lem s xs e h u = elim (Bool-cases (s.bufrem == 0)) [
    | inl empty ↦ rw empty (from_empty s xs (ground arith))
    | inr left ↦ rw left (
        let start : (n - s.bufrem) % n ≡ n - s.bufrem = mod-eq_of_lt (ground arith) in
        rw start (from_rest s xs e h u (ground arith)))
  ]
