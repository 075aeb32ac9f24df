-- ===== src/Mode/Offset/Refine.antt =====
-- The loops of counter mode and output feedback are `CopyAndXor`, with the free bytes counted from the
-- front of the buffer and not from its end.
use native.Mathlib.Nat.{mod-lt, mod-eq_of_lt, mod_self}
use drew.Prelude.{
  ℕ, zero, suc, ◌+◌, ◌-◌, ◌%◌, ◌<◌, min, ◌≡◌, refl, sym, ap, ◌∙◌, inl, inr, true, false, List, ◌++◌,
  length, take, drop, ◌==◌, if◌then◌else◌, Bool-cases, arith,
}
use drew.Util.Keystream.{
  xor_bytes, Cursor, Progress, whole_buffers, last_buffer, copy_rest, copy_and_xor,
}
use drew.Util.Keystream.Spec.{outputs, after}
use drew.Util.Keystream.Whole.{whole_buffers-IsDone}
use drew.Util.Keystream.Refine.{copy_and_xor_lem}
use drew.Util.Keystream.Split.{IsReady, after-IsReady}
use drew.Mode.Offset.{Front, finish, encrypt_rest, encrypt_front}

-- A buffer of the size of a block, with a byte of it still to use or to be refilled.
pub record IsFront {O : Type 0} (n : ℕ) (s : Front O) : Type 0 where
  pub whole : length s.buf ≡ n
  pub used : s.boff < n

-- The two ways to count, and back.
unfoldable pub cursor : {O : Type 0} → ℕ → Front O → Cursor O
cursor n s = record { mbuf = s.buf; bufrem = (n - s.boff) % n; obj = s.obj }

unfoldable pub front : {O : Type 0} → ℕ → Cursor O → Front O
front n s = record { buf = s.mbuf; boff = (n - s.bufrem) % n; obj = s.obj }

-- Counting from the other end and back.
turn : (n k : ℕ) → k < n → (n - (n - k) % n) % n ≡ k
turn n zero h =
    let none_used : n - 0 ≡ n = omega arith in
    ap (λ (t : ℕ). (n - t % n) % n) none_used
    ∙ ap (λ (t : ℕ). (n - t) % n) (mod_self n)
    ∙ ap (λ (t : ℕ). t % n) none_used
    ∙ mod_self n
turn n (suc k) h =
    let inner : (n - suc k) % n ≡ n - suc k = mod-eq_of_lt (omega arith) in
    let back : n - (n - suc k) ≡ suc k = omega arith in
    ap (λ (t : ℕ). (n - t) % n) inner ∙ ap (λ (t : ℕ). t % n) back ∙ mod-eq_of_lt h

pub cursor-front : {O : Type 0} (n : ℕ) (s : Cursor O) → s.bufrem < n → cursor n (front n s) ≡ s
unfolding cursor front
cursor-front n s h = λ i. record s { bufrem = turn n s.bufrem h i }

-- A result of `CopyAndXor` as one of these loops.
abbrev returned : {O : Type 0} → ℕ → List ℕ × Cursor O → List ℕ × Front O
returned n r = (r.0, front n r.1)

module _ {O : Type 0} (n : ℕ) (next : O → List ℕ × O) where
  -- Whole blocks from the start of one: the last `if` has nothing to do.
  pub encrypt_front_whole :
      (s : Front O) (inp : List ℕ)
      → s.boff ≡ 0
      → (let p = whole_buffers n next (length inp) s.buf s.obj inp in
          length p.rest ≡ 0
          → encrypt_front n next s inp ≡ (p.out, record { buf = p.mbuf; boff = 0; obj = p.obj }))
  unfolding encrypt_front encrypt_rest finish
  encrypt_front_whole s inp start all =
      let p : Progress O = whole_buffers n next (length inp) s.buf s.obj inp in
      let done : (length p.rest == 0) ≡ true = ground arith in
      let begun : (s.boff == 0) ≡ true = ground arith in rw begun (rw done refl)

  finish_lem :
      (boff : ℕ) (p : Progress O)
      → boff < n
      → length p.rest < n
      → finish n next boff p ≡ returned n (last_buffer n next boff p)
  unfolding finish last_buffer front
  finish_lem boff p h k = elim (Bool-cases (length p.rest == 0)) [
    | inl all ↦
        rw all
          (ap (λ t. (p.out, record { buf = p.mbuf; boff = t; obj = p.obj })) (sym (turn n boff h)))
    | inr some_left ↦ rw some_left (
        ap
          (λ t.
            let (buf, obj) = next p.obj in
            (
              p.out ++ xor_bytes (take (length p.rest) buf) p.rest,
              record { buf = buf; boff = t; obj = obj },
            ))
          (sym (turn n (length p.rest) k)))
  ]

  module _ (positive : 0 < n) (full : (o : O) → length (next o).0 ≡ n) where
    encrypt_rest_lem :
        (boff : ℕ) (s : Front O) (inp : List ℕ)
        → boff < n
        → encrypt_rest n next boff s inp ≡ returned n (copy_rest n next s.buf boff s.obj inp)
    unfolding encrypt_rest copy_rest
    encrypt_rest_lem boff s inp h =
        finish_lem boff _ h
          (whole_buffers-IsDone n next positive full (length inp) s.buf s.obj inp
            (omega arith)).short

    copy_and_xor_front :
        (s : Front O) (inp : List ℕ)
        → IsFront n s
        → encrypt_front n next s inp ≡ returned n (copy_and_xor n next (cursor n s) inp)
    unfolding encrypt_front copy_and_xor cursor
    copy_and_xor_front s inp k = elim (Bool-cases (s.boff == 0)) [
      | inl none_used ↦
          let rem : (n - s.boff) % n ≡ 0 = ap (λ (t : ℕ). t % n) (unused none_used) ∙ mod_self n in
          let whole : n - 0 ≡ n = omega arith in
          let start : (n - 0) % n ≡ 0 = ap (λ (t : ℕ). t % n) whole ∙ mod_self n in
          rw (none_used, rem, start) (encrypt_rest_lem 0 s inp positive)
      | inr used ↦
          let rem : (n - s.boff) % n ≡ n - s.boff = mod-eq_of_lt (less used) in
          let left : (n - s.boff == 0) ≡ false = some_left in
          let start : (n - (n - s.boff)) % n ≡ s.boff =
            ap (λ (t : ℕ). t % n) turned ∙ mod-eq_of_lt (k.used) in
          rw (used, rem, left, start)
            (ap (λ (r : List ℕ × Front O). (head ++ r.0, r.1))
              (encrypt_rest_lem boff s (drop b inp) next_boff))
    ]
      where
        b : ℕ
        b = min (n - s.boff) (length inp)

        boff : ℕ
        boff = if s.boff + b == n then 0 else s.boff + b

        head : List ℕ
        head = xor_bytes (take b (drop s.boff s.buf)) (take b inp)

        unused : (s.boff == 0) ≡ true → n - s.boff ≡ n
        unused h = ground arith

        less : (s.boff == 0) ≡ false → n - s.boff < n
        less h = let u = k.used in ground arith

        some_left : (n - s.boff == 0) ≡ false
        some_left = let u = k.used in ground arith

        turned : n - (n - s.boff) ≡ s.boff
        turned = let u = k.used in omega arith

        next_boff : boff < n
        next_boff = let u = k.used in ground arith

    pub cursor-IsReady : (s : Front O) → IsFront n s → IsReady n (cursor n s)
    unfolding cursor
    cursor-IsReady s k = record { size = k.whole; used = mod-lt (n - s.boff) positive }

    pub front-IsFront : (s : Cursor O) → IsReady n s → IsFront n (front n s)
    unfolding front
    front-IsFront s r = record { whole = r.size; used = mod-lt (n - s.bufrem) positive }

    -- The loops give the bytes, and leave what the byte-at-a-time cipher leaves.
    pub encrypt_front_lem :
        (s : Front O) (inp : List ℕ)
        → IsFront n s
        → encrypt_front n next s inp
          ≡ (outputs n next (cursor n s) inp, front n (after n next (cursor n s) inp))
    encrypt_front_lem s inp k =
        let r = cursor-IsReady s k in
        copy_and_xor_front s inp k
        ∙ ap (returned n) (
            copy_and_xor_lem n next positive full (cursor n s) inp (r.size)
              (let h = r.used in omega arith) (inl r.used))

    -- What is left is again such a buffer.
    pub encrypt_front-IsFront :
        (s : Front O) (inp : List ℕ) → IsFront n s → IsFront n (encrypt_front n next s inp).1
    encrypt_front-IsFront s inp k = rw (encrypt_front_lem s inp k) (
        front-IsFront (after n next (cursor n s) inp)
          (after-IsReady n next full (cursor n s) inp (cursor-IsReady s k)))
