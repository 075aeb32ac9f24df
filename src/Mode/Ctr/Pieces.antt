-- ===== src/Mode/Ctr/Pieces.antt =====
-- What the callers of counter mode rely on: pieces of a message, decryption, `reset`; and what
-- `ctr_setiv` does in the middle of a block.
use native.Mathlib.Nat.{mod-lt, mod-eq_of_lt}
use drew.Prelude.{
  ℕ, ◌-◌, ◌%◌, ◌≤◌, ◌<◌, ◌≡◌, refl, sym, ap, ap₂, true, Option, none, some, List, ◌++◌, length,
  drop, ◌==◌, arith,
}
use drew.Block.Interface.{BlockCipher}
use drew.Util.Keystream.{xor_bytes, Cursor}
use drew.Util.Keystream.Spec.{outputs, after, outputs-append, after-append, outputs_twice}
use drew.Util.Keystream.Within.{outputs_within}
use drew.Util.Keystream.Split.{IsReady, after-IsReady}
use drew.Mode.Status.{Status, ok, failure, unsigned}
use drew.Mode.Ctr.{Ctr, next_block, encrypt, set_iv, reset}
use drew.Mode.Ctr.Refine.{
  IsKeyed, view, unview, view-unview, full, positive, view-IsReady, encrypt_lem,
}

-- Two calls on one context, one after the other.
abbrev pub in_two_calls : Ctr → List ℕ → List ℕ → Option (List ℕ × Ctr)
in_two_calls c xs ys = elim (encrypt c xs) [
  | none ↦ none
  | some (out, c') ↦ elim (encrypt c' ys) [
    | none ↦ none
    | some (out', c'') ↦ some (out ++ out', c'')
  ]
]

-- The bytes that a call writes.
abbrev pub written : Ctr → List ℕ → Option (List ℕ)
written c xs = elim (encrypt c xs) [ none ↦ none | some (out, c') ↦ some out ]

-- A message is encrypted, and the result given to a context that stands where the first stood.
abbrev pub there_and_back : Ctr → List ℕ → Option (List ℕ)
there_and_back c xs = elim (encrypt c xs) [
  | none ↦ none
  | some (out, c') ↦ elim (encrypt c out) [ none ↦ none | some (back, c'') ↦ some back ]
]

-- A new IV, a message and `reset`.
abbrev pub start_again : Ctr → List ℕ → List ℕ → Option (Status × Ctr)
start_again c iv xs = elim (encrypt (set_iv iv c).1 xs) [
  | none ↦ none
  | some (out, c') ↦ some (reset c')
]

IsKeyed-unview :
    (e : BlockCipher) (c : Ctr) (s : Cursor (List ℕ))
    → IsKeyed e c
    → IsReady c.blksize s
    → IsKeyed e (unview c s)
unfolding unview
IsKeyed-unview e c s k r = record {
  keyed = k.keyed;
  size = k.size;
  whole = r.size;
  used = mod-lt (c.blksize - s.bufrem) (positive e c k);
}

-- Encrypting a message in two calls on a keyed context writes the bytes, and leaves the context, of
-- one call for the whole message, however the message is cut.
pub ctr_encrypt-append :
    (e : BlockCipher) (c : Ctr) (xs ys : List ℕ)
    → IsKeyed e c
    → in_two_calls c xs ys ≡ encrypt c (xs ++ ys)
unfolding unview
ctr_encrypt-append e c xs ys k =
    let n = c.blksize in
    let r = after-IsReady n (next_block e) (full e c k) (view c) xs (view-IsReady e c k) in
    let s = after n (next_block e) (view c) xs in
    rw
      (
        in_two_calls,
        encrypt_lem e c xs k,
        encrypt_lem e (unview c s) ys (IsKeyed-unview e c s k r),
        view-unview c s (r.used),
        encrypt_lem e c (xs ++ ys) k,
      )
      (ap₂ (λ a t. some (a, unview c t)) (sym (outputs-append n (next_block e) (view c) xs ys))
        (sym (after-append n (next_block e) (view c) xs ys)))

-- A keyed context that stands where the encrypting one stood gives the message back: decryption is
-- the same operation.
pub ctr_encrypt_twice :
    (e : BlockCipher) (c : Ctr) (xs : List ℕ) → IsKeyed e c → there_and_back c xs ≡ some xs
ctr_encrypt_twice e c xs k =
    rw
      (
        there_and_back,
        encrypt_lem e c xs k,
        encrypt_lem e c (outputs c.blksize (next_block e) (view c) xs) k,
      )
      (ap some (outputs_twice c.blksize (next_block e) (view c) xs))

-- The context after a new IV of the block's size.
abbrev renewed : Ctr → List ℕ → Ctr
renewed c iv = record c { counter = iv; buf = iv; iv = iv }

set_iv_ok : (c : Ctr) (iv : List ℕ) → length iv ≡ c.blksize → set_iv iv c ≡ (ok, renewed c iv)
unfolding set_iv
set_iv_ok c iv h = let same : (length iv == c.blksize) ≡ true = ground arith in rw same refl

IsKeyed-renewed :
    (e : BlockCipher) (c : Ctr) (iv : List ℕ)
    → IsKeyed e c
    → length iv ≡ c.blksize
    → IsKeyed e (renewed c iv)
IsKeyed-renewed e c iv k h = record { keyed = k.keyed; size = k.size; whole = h; used = k.used }

reset_ok :
    (c : Ctr) → length c.iv ≡ c.blksize → reset c ≡ (ok, record (renewed c c.iv) { boff = 0 })
unfolding reset
reset_ok c h =
    ap
      (λ (r : Status × Ctr). elim r.0 [
        | ok ↦ (ok, record r.1 { boff = 0 })
        | failure e ↦ (failure e, r.1)
        | unsigned e ↦ (unsigned e, r.1)
      ])
      (set_iv_ok c c.iv h)

-- `reset` after a new IV of the block's size and any message leaves the context as it was before the
-- message, at the start of a block.
pub reset_lem :
    (e : BlockCipher) (c : Ctr) (iv xs : List ℕ)
    → IsKeyed e c
    → length iv ≡ c.blksize
    → start_again c iv xs ≡ some (ok, record c { counter = iv; buf = iv; iv = iv; boff = 0 })
unfolding unview
reset_lem e c iv xs k h =
    rw (start_again, set_iv_ok c iv h, encrypt_lem e (renewed c iv) xs (IsKeyed-renewed e c iv k h))
      (ap some (reset_ok _ h))

-- A new IV in the middle of a block does not start a new block: the bytes up to the end of the
-- block are added to the end of the IV itself, without encryption.
pub set_iv_within_block :
    (e : BlockCipher) (c : Ctr) (iv xs : List ℕ)
    → IsKeyed e c
    → length iv ≡ c.blksize
    → 0 < c.boff
    → length xs ≤ c.blksize - c.boff
    → written (set_iv iv c).1 xs ≡ some (xor_bytes (drop c.boff iv) xs)
unfolding view
set_iv_within_block e c iv xs k h p l =
    let n = c.blksize in
    let u = k.used in
    let rem : (n - c.boff) % n ≡ n - c.boff = mod-eq_of_lt (omega arith) in
    let back : n - (n - c.boff) ≡ c.boff = omega arith in
    rw
      (
        written,
        set_iv_ok c iv h,
        encrypt_lem e (renewed c iv) xs (IsKeyed-renewed e c iv k h),
        rem,
        outputs_within n (next_block e) (positive e c k) iv (n - c.boff) iv xs h (omega arith) l,
        back,
      )
      refl
