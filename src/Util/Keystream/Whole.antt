-- ===== src/Util/Keystream/Whole.antt =====
-- The loop over whole buffers and the part of a buffer that follows it.
use native.Mathlib.Nat.{mod-eq_of_lt, mod_self}
use mathlib.Core.List.{append-nil, append_assoc}
use drew.Prelude.{
  ℕ, zero, suc, ◌-◌, ◌%◌, ◌≤◌, ◌<◌, ◌≡◌, ◌≢◌, inl, inr, refl, sym, ap, ap₂, ◌∙◌, false, List, [],
  ◌∷◌, ◌++◌, length, take, drop, length-take, length-drop, take-append-drop, leb, ◌==◌, Bool-cases,
  arith,
}
use drew.Util.Keystream.{Progress, xor_bytes, whole_buffers, last_buffer, copy_rest}
use drew.Util.Keystream.Spec.{outputs, after, outputs-append, after-append}
use drew.Util.Keystream.Within.{at, xor_bytes-take, outputs_one, after_one}

module _ {O : Type 0} (n : ℕ) (fill : O → List ℕ × O) (pos : 0 < n)
    (full : (o : O) → length (fill o).0 ≡ n) where
  -- The loop over whole buffers leaves less than a buffer, and what it wrote and where it left
  -- the object are those of the specification.
  pub record IsDone (buf : List ℕ) (o : O) (xs : List ℕ) (p : Progress O) : Type 0 where
    written : outputs n fill (at buf 0 o) xs ≡ p.out ++ outputs n fill (at p.mbuf 0 p.obj) p.rest
    left : after n fill (at buf 0 o) xs ≡ after n fill (at p.mbuf 0 p.obj) p.rest
    pub short : length p.rest < n

  length-take_whole : (xs : List ℕ) → n ≤ length xs → length (take n xs) ≡ n
  length-take_whole xs k = omega (arith, length-take n xs)

  take-ne-nil : (xs : List ℕ) → n ≤ length xs → take n xs ≢ []
  take-ne-nil xs k e = omega (arith, length-take_whole xs k, ap length e)

  pub after_whole :
      (buf : List ℕ) (o : O) (xs : List ℕ)
      → n ≤ length xs
      → after n fill (at buf 0 o) (take n xs) ≡ at (fill o).0 0 (fill o).1
  after_whole buf o xs k =
      after_one n fill pos full buf o (take n xs) (take-ne-nil xs k)
        (omega (arith, length-take_whole xs k))
      ∙ let none_left : n - length (take n xs) ≡ 0 = omega (arith, length-take_whole xs k) in
        ap (λ t. at (fill o).0 t (fill o).1) none_left

  -- One round of the loop, followed by the rounds of the recursive call.
  IsDone-round :
      (buf : List ℕ) (o : O) (xs : List ℕ) (p : Progress O)
      → n ≤ length xs
      → IsDone (fill o).0 (fill o).1 (drop n xs) p
      → IsDone buf o xs (record {
        out = xor_bytes (fill o).0 (take n xs) ++ p.out;
        rest = p.rest;
        mbuf = p.mbuf;
        obj = p.obj;
      })
  IsDone-round buf o xs p k d = record {
    written =
        ap (outputs n fill (at buf 0 o)) (sym (take-append-drop n xs))
        ∙ outputs-append n fill (at buf 0 o) (take n xs) (drop n xs)
        ∙ ap₂ ◌++◌
            (outputs_one n fill pos full buf o (take n xs) (omega (arith, length-take_whole xs k)))
            (ap (λ s. outputs n fill s (drop n xs)) (after_whole buf o xs k) ∙ d.written)
        ∙ sym (
            append_assoc (xor_bytes (fill o).0 (take n xs)) p.out
              (outputs n fill (at p.mbuf 0 p.obj) p.rest));
    left =
        ap (after n fill (at buf 0 o)) (sym (take-append-drop n xs))
        ∙ after-append n fill (at buf 0 o) (take n xs) (drop n xs)
        ∙ ap (λ s. after n fill s (drop n xs)) (after_whole buf o xs k)
        ∙ d.left;
    short = d.short;
  }

  pub whole_buffers-IsDone :
      (fuel : ℕ) (buf : List ℕ) (o : O) (xs : List ℕ)
      → length xs ≤ fuel
      → IsDone buf o xs (whole_buffers n fill fuel buf o xs)
  unfolding whole_buffers
  whole_buffers-IsDone zero buf o xs h = record { written = refl; left = refl; short = omega arith }
  whole_buffers-IsDone (suc fuel) buf o xs h = elim (Bool-cases (leb n (length xs))) [
    | inr less ↦ rw less (record { written = refl; left = refl; short = ground arith })
    | inl more ↦ rw more (
        let k : n ≤ length xs = ground arith in
        IsDone-round buf o xs _ k (
          whole_buffers-IsDone fuel (fill o).0 (fill o).1 (drop n xs)
            (omega (arith, length-drop n xs))))
  ]

  -- The last part of a buffer, from an empty buffer.
  pub last_buffer-nil :
      (out buf : List ℕ) (o : O)
      → last_buffer n fill 0 (record { out = out; rest = []; mbuf = buf; obj = o })
        ≡ (out, at buf 0 o)
  unfolding last_buffer
  last_buffer-nil out buf o =
      let whole : n - 0 ≡ n = omega arith in
      ap (λ t. (out, at buf (t % n) o)) whole ∙ ap (λ t. (out, at buf t o)) (mod_self n)

  last_buffer-cons :
      (out : List ℕ) (x : ℕ) (xs buf : List ℕ) (o : O)
      → length (x ∷ xs) < n
      → last_buffer n fill 0 (record { out = out; rest = x ∷ xs; mbuf = buf; obj = o })
        ≡ (out ++ outputs n fill (at buf 0 o) (x ∷ xs), after n fill (at buf 0 o) (x ∷ xs))
  unfolding last_buffer
  last_buffer-cons out x xs buf o h =
      let some_left : (length (x ∷ xs) == 0) ≡ false = ground arith in
      let short : n - length (x ∷ xs) < n = omega arith in
      rw some_left (
        ap₂ (λ a b. (out ++ a, at (fill o).0 b (fill o).1))
          (xor_bytes-take (length (x ∷ xs)) (fill o).0 (x ∷ xs) (omega arith)
            ∙ sym (outputs_one n fill pos full buf o (x ∷ xs) (omega arith)))
          (mod-eq_of_lt short))
      ∙ ap (λ t. (out ++ outputs n fill (at buf 0 o) (x ∷ xs), t))
          (sym (
            after_one n fill pos full buf o (x ∷ xs) (λ e. omega (arith, ap length e))
              (omega arith)))

  last_buffer_any :
      (out rest buf : List ℕ) (o : O)
      → length rest < n
      → last_buffer n fill 0 (record { out = out; rest = rest; mbuf = buf; obj = o })
        ≡ (out ++ outputs n fill (at buf 0 o) rest, after n fill (at buf 0 o) rest)
  unfolding outputs after
  last_buffer_any out [] buf o h =
      last_buffer-nil out buf o ∙ ap (λ t. (t, at buf 0 o)) (sym (append-nil out))
  last_buffer_any out (x ∷ xs) buf o h = last_buffer-cons out x xs buf o h

  last_buffer_lem :
      (p : Progress O)
      → length p.rest < n
      → last_buffer n fill 0 p ≡ (
        p.out ++ outputs n fill (at p.mbuf 0 p.obj) p.rest,
        after n fill (at p.mbuf 0 p.obj) p.rest,
      )
  last_buffer_lem p h = last_buffer_any p.out p.rest p.mbuf p.obj h

  -- The second half of `CopyAndXor`, with nothing left to read.
  pub copy_rest-nil :
      (buf : List ℕ) (boff : ℕ) (o : O)
      → copy_rest n fill buf boff o [] ≡ ([], at buf ((n - boff) % n) o)
  unfolding copy_rest last_buffer whole_buffers
  copy_rest-nil buf boff o = refl

  -- The second half of `CopyAndXor`, from an empty buffer.
  pub copy_rest_lem :
      (buf : List ℕ) (o : O) (xs : List ℕ)
      → copy_rest n fill buf 0 o xs ≡ (outputs n fill (at buf 0 o) xs, after n fill (at buf 0 o) xs)
  unfolding copy_rest
  copy_rest_lem buf o xs =
      last_buffer_lem (whole_buffers n fill (length xs) buf o xs) (done.short)
      ∙ ap₂ (λ a b. (a, b)) (sym (done.written)) (sym (done.left))
    where
      done : IsDone buf o xs (whole_buffers n fill (length xs) buf o xs)
      done = whole_buffers-IsDone (length xs) buf o xs (omega arith)
