-- ===== src/Util/Keystream/Aligned.antt =====
-- `CopyAndXorAligned` of include/util.hh, with `xor_aligned` of include/util.h, beside `CopyAndXor`.
use native.Mathlib.Nat.{suc-mul, mod_self, div-add-mod'}
use mathlib.Core.List.{append-nil}
use drew.Prelude.Bits.{xor_comm}
use drew.Prelude.{
  ℕ, zero, suc, ◌-◌, ◌*◌, ◌/◌, ◌%◌, ◌≤◌, ◌<◌, ◌≡◌, refl, sym, ap, ap₂, ◌∙◌, true, false, List, [],
  ◌∷◌, ◌++◌, length, take, drop, length-drop, length-take, leb, ◌==◌, if◌then◌else◌, arith,
}
use drew.Util.Endian.Laws.{take-whole}
use drew.Util.Memory.{drop-whole}
use drew.Util.Keystream.{Progress, xor_bytes, whole_buffers, last_buffer, copy_rest, copy_and_xor}
use drew.Util.Keystream.Within.{at}
use drew.Util.Keystream.Whole.{last_buffer-nil}

-- `xor_aligned`, which works on pieces of 16 bytes and leaves the rest of what is at `outp`.
unfoldable pub xor_aligned : List ℕ → List ℕ → List ℕ → ℕ → List ℕ
xor_aligned out inp x len = let m = len / 16 * 16 in xor_bytes (take m inp) (take m x) ++ drop m out

module _ {O : Type 0} (bufsz : ℕ) (fill : O → List ℕ × O) where
  -- The loop, where `len` is what is left of the length, and `fill` is `FillBufferAligned`. The arrays may
  -- have more bytes than that, since a last buffer is read and written as a whole. The result has the array
  -- at `outp`.
  unfoldable pub copy_aligned : ℕ → ℕ → List ℕ → List ℕ → O → List ℕ → Progress O
  copy_aligned zero len out mbuf obj inp = record { out = out; rest = inp; mbuf = mbuf; obj = obj }
  copy_aligned (suc fuel) len out mbuf obj inp =
      let (buf, obj') = fill obj in
      let p = copy_aligned fuel (len - bufsz) (drop bufsz out) buf obj' (drop bufsz inp) in
      if len == 0
      then record { out = out; rest = inp; mbuf = mbuf; obj = obj }
      else record p { out = xor_aligned (take bufsz out) (take bufsz inp) buf bufsz ++ p.out }

  -- `CopyAndXorAligned`; a round of fuel for each byte is enough.
  unfoldable pub copy_and_xor_aligned : ℕ → List ℕ → List ℕ → O → List ℕ → Progress O
  copy_and_xor_aligned len out mbuf obj inp = copy_aligned len len out mbuf obj inp

xor_bytes_comm : (xs ys : List ℕ) → xor_bytes xs ys ≡ xor_bytes ys xs
unfolding xor_bytes
xor_bytes_comm [] [] = refl
xor_bytes_comm [] (y ∷ ys) = refl
xor_bytes_comm (x ∷ xs) [] = refl
xor_bytes_comm (x ∷ xs) (y ∷ ys) = ap₂ (λ a t. a ∷ t) (xor_comm x y) (xor_bytes_comm xs ys)

-- A buffer whose size is a number of pieces is written as a whole.
xor_aligned_whole :
    (n : ℕ) (out inp x : List ℕ)
    → n % 16 ≡ 0
    → length out ≡ n
    → length inp ≡ n
    → length x ≡ n
    → xor_aligned out inp x n ≡ xor_bytes x inp
unfolding xor_aligned
xor_aligned_whole n out inp x pieces o i s =
    let all : n / 16 * 16 ≡ n = omega (arith, div-add-mod' n 16) in
    ap (λ (m : ℕ). xor_bytes (take m inp) (take m x) ++ drop m out) all
    ∙ ap₂ (λ a b. a ++ b) (ap₂ xor_bytes (take-whole n inp i) (take-whole n x s))
        (drop-whole n out (omega arith))
    ∙ append-nil (xor_bytes inp x)
    ∙ xor_bytes_comm inp x

module _ {O : Type 0} (n : ℕ) (fill aligned : O → List ℕ × O) (pos : 0 < n) (pieces : n % 16 ≡ 0)
    (same : (o : O) → aligned o ≡ fill o) (full : (o : O) → length (fill o).0 ≡ n) where
  -- The two loops, on `k` whole buffers.
  whole_buffers-copy_aligned :
      (k fuel len : ℕ) (buf : List ℕ) (o : O) (out xs : List ℕ)
      → len ≡ k * n
      → length xs ≡ len
      → length out ≡ len
      → len ≤ fuel
      → whole_buffers n fill fuel buf o xs
        ≡ record (copy_aligned n aligned fuel len out buf o xs) { rest = [] }
  unfolding whole_buffers copy_aligned
  whole_buffers-copy_aligned zero zero len buf o [] [] h x y l = refl
  whole_buffers-copy_aligned zero (suc fuel) len buf o [] [] h x y l =
      let stop : leb n 0 ≡ false = ground arith in
      let none_left : (len == 0) ≡ true = ground arith in rw (stop, none_left) refl
  whole_buffers-copy_aligned zero fuel len buf o out (x ∷ xs) h i y l =
      let none : 0 * n ≡ 0 = omega arith in absurd (omega arith)
  whole_buffers-copy_aligned zero fuel len buf o (x ∷ out) [] h i y l =
      let none : 0 * n ≡ 0 = omega arith in absurd (omega arith)
  whole_buffers-copy_aligned (suc k) zero len buf o out xs h x y l =
      absurd (omega (arith, suc-mul k n))
  whole_buffers-copy_aligned (suc k) (suc fuel) len buf o out xs h x y l =
      let step = suc-mul k n in
      let go : leb n (length xs) ≡ true = ground arith in
      let more : (len == 0) ≡ false = ground arith in
      let left = length-drop n xs in
      let room = length-drop n out in
      let piece : xor_aligned (take n out) (take n xs) (fill o).0 n
          ≡ xor_bytes (fill o).0 (take n xs) =
        xor_aligned_whole n (take n out) (take n xs) (fill o).0 pieces
          (omega (arith, length-take n out)) (omega (arith, length-take n xs)) (full o) in
      let ih =
        whole_buffers-copy_aligned k fuel (len - n) (fill o).0 (fill o).1 (drop n out) (drop n xs)
          (omega arith) (omega arith) (omega arith) (omega arith) in
      let joined : List ℕ → Progress O → Progress O = λ a p. record p { out = a ++ p.out } in
      rw (go, more, same o) (ap₂ joined (sym piece) ih)

  -- When `FillBufferAligned` does what `FillBuffer` does, which fills buffers of a number of 16-byte pieces;
  -- with no byte of the buffer unused, for a message of whole buffers, and an array as long to write to:
  -- `CopyAndXorAligned` writes the bytes that `CopyAndXor` writes, and leaves the buffer and the object that
  -- it leaves.
  pub copy_and_xor_aligned_lem :
      (k : ℕ) (buf : List ℕ) (o : O) (out xs : List ℕ)
      → length xs ≡ k * n
      → length out ≡ length xs
      → (let p = copy_and_xor_aligned n aligned (length xs) out buf o xs in
          copy_and_xor n fill (at buf 0 o) xs ≡ (p.out, at p.mbuf 0 p.obj))
  unfolding copy_and_xor copy_rest copy_and_xor_aligned
  copy_and_xor_aligned_lem k buf o out xs h room =
      let p : Progress O = copy_aligned n aligned (length xs) (length xs) out buf o xs in
      let whole : n - 0 ≡ n = omega arith in
      ap (λ t. last_buffer n fill (t % n) (whole_buffers n fill (length xs) buf o xs)) whole
      ∙ ap (λ t. last_buffer n fill t (whole_buffers n fill (length xs) buf o xs)) (mod_self n)
      ∙ ap (last_buffer n fill 0) (
          whole_buffers-copy_aligned k (length xs) (length xs) buf o out xs h refl room
            (omega arith))
      ∙ last_buffer-nil n fill pos full p.out p.mbuf p.obj
