-- ===== src/Mode/Ofb/Fast.antt =====
-- `ofb_encryptfast`, which takes 16 bytes of the array at a time whatever the block size.
use native.Mathlib.Nat.{suc-mul, mul-div_cancel}
use mathlib.Core.List.{append-nil}
use drew.Prelude.{
  ℕ, zero, suc, ◌+◌, ◌*◌, ◌/◌, ◌≤◌, ◌≡◌, refl, sym, ap, ap₂, ◌∙◌, true, List, [], ◌∷◌, ◌++◌, length,
  take, drop, leb, take-append-drop, length-drop, length-take, arith,
}
use drew.Block.Interface.{BlockCipher}
use drew.Block.Fast.{many, rounds, encrypt_fast}
use drew.Util.Memory.{overwrite, overwrite-length, overwrite-overwrite, take-overwrite_front}
use drew.Util.Endian.Laws.{take-whole}
use drew.Util.Keystream.{xor_bytes, whole_buffers, Progress}
use drew.Mode.Offset.{Front, encrypt_front}
use drew.Mode.Offset.Refine.{encrypt_front_whole}
use drew.Mode.Ofb.{Ofb, next_block, put_front, encrypt_with, fast_rounds, encrypt_fast_with}

module _ (e : BlockCipher) (size : e.block_size ≡ 16) where
  one_block : (buf : List ℕ) → encrypt_fast e 1 buf ≡ e.encrypt (take 16 buf)
  unfolding encrypt_fast rounds many
  one_block buf = rw size (append-nil (e.encrypt (take 16 buf)))

  block : (bs : List ℕ) → length (e.encrypt bs) ≡ 16
  block bs = e.length-encrypt bs ∙ size

  -- What a round of either loop makes of the block at the start of the array.
  next_array :
      (buf : List ℕ) → take 16 (overwrite buf 0 (encrypt_fast e 1 buf)) ≡ e.encrypt (take 16 buf)
  next_array buf =
      let b = block (take 16 buf) in
      ap (λ t. take 16 (overwrite buf 0 t)) (one_block buf)
      ∙ take-overwrite_front 16 buf (e.encrypt (take 16 buf)) (omega arith)
      ∙ take-whole 16 (e.encrypt (take 16 buf)) b

  -- The two loops, on `k` whole pieces: they write the same bytes and leave the same block.
  record IsSame (k : ℕ) (buf inp : List ℕ) (p : Progress (List ℕ)) : Type 0 where
    rounds_same : fast_rounds e 1 k buf inp ≡ (p.out, overwrite buf 0 p.mbuf)
    all : length p.rest ≡ 0
    whole : length p.mbuf ≡ 16

  IsSame-none :
      (buf : List ℕ)
      → 16 ≤ length buf
      → IsSame 0 buf [] (record { out = []; rest = []; mbuf = take 16 buf; obj = take 16 buf })
  unfolding fast_rounds overwrite
  IsSame-none buf h =
      let size : length (take 16 buf) ≡ 16 = omega (arith, length-take 16 buf) in
      record {
        rounds_same =
            ap (λ t. ([], t))
              (sym (
                ap (λ (n : ℕ). take 16 buf ++ drop n buf) {x = 0 + length (take 16 buf)} {y = 16}
                  (omega arith)
                ∙ take-append-drop 16 buf));
        all = refl;
        whole = size;
      }

  IsSame-whole_buffers :
      (k fuel : ℕ) (buf inp : List ℕ)
      → length inp ≡ k * 16
      → length inp ≤ fuel
      → 16 ≤ length buf
      → IsSame k buf inp (whole_buffers 16 (next_block e) fuel (take 16 buf) (take 16 buf) inp)
  unfolding whole_buffers fast_rounds next_block
  IsSame-whole_buffers zero zero buf [] h l r = IsSame-none buf r
  IsSame-whole_buffers zero (suc fuel) buf [] h l r = IsSame-none buf r
  IsSame-whole_buffers zero fuel buf (x ∷ xs) h l r = absurd (omega arith)
  IsSame-whole_buffers (suc k) zero buf inp h l r = absurd (omega (arith, suc-mul k 16))
  IsSame-whole_buffers (suc k) (suc fuel) buf inp h l r =
      let step = suc-mul k 16 in
      let go : leb 16 (length inp) ≡ true = ground arith in
      let left = length-drop 16 inp in
      let b = block (take 16 buf) in
      let made : length (encrypt_fast e 1 buf) ≡ 16 = ap length (one_block buf) ∙ b in
      let buf' : List ℕ = overwrite buf 0 (encrypt_fast e 1 buf) in
      let same = overwrite-length buf 0 (encrypt_fast e 1 buf) (omega arith) in
      let ih : IsSame k buf' (drop 16 inp) (
          whole_buffers 16 (next_block e) fuel (e.encrypt (take 16 buf)) (e.encrypt (take 16 buf))
            (drop 16 inp)) =
        rw (← next_array buf) (
          IsSame-whole_buffers k fuel buf' (drop 16 inp) (omega arith) (omega arith)
            (omega arith)) in
      let p : Progress (List ℕ) =
        whole_buffers 16 (next_block e) fuel (e.encrypt (take 16 buf)) (e.encrypt (take 16 buf))
          (drop 16 inp) in
      rw go (record {
        rounds_same =
            ap (λ q. (xor_bytes (take 16 buf') (take 16 inp) ++ q.0, q.1)) (ih.rounds_same)
            ∙ ap₂ (λ a t. (xor_bytes a (take 16 inp) ++ p.out, t)) (next_array buf)
                (overwrite-overwrite buf (encrypt_fast e 1 buf) p.mbuf (made ∙ sym (ih.whole)));
        all = ih.all;
        whole = ih.whole;
      })

-- For a cipher of 16-byte blocks, at the start of a block and for a message of whole blocks,
-- `ofb_encryptfast` writes what `ofb_encrypt` writes, and leaves the context that it leaves.
pub ofb_fast_lem :
    (e : BlockCipher) (c : Ofb) (k : ℕ) (inp : List ℕ)
    → e.block_size ≡ 16
    → c.blksize ≡ 16
    → c.chunks ≡ 1
    → c.boff ≡ 0
    → 16 ≤ length c.buf
    → length inp ≡ k * 16
    → encrypt_fast_with e c inp ≡ encrypt_with e c inp
unfolding encrypt_fast_with encrypt_with
ofb_fast_lem e c k inp size same chunks start room whole =
    let S = IsSame-whole_buffers e size k (length inp) c.buf inp whole (omega arith) room in
    let p : Progress (List ℕ) =
      whole_buffers 16 (next_block e) (length inp) (take 16 c.buf) (take 16 c.buf) inp in
    let rounds : length inp / 16 ≡ k =
      ap (λ (n : ℕ). n / 16) whole ∙ mul-div_cancel k (omega arith) in
    let begin : List ℕ → ℕ → Front (List ℕ) =
      λ buf n. record { buf = take n buf; boff = c.boff; obj = take n buf } in
    ap₂ (λ m n. let r = fast_rounds e m n c.buf inp in (r.0, record c { buf = r.1 })) chunks rounds
    ∙ ap (λ r. (r.0, record c { buf = r.1 })) (S.rounds_same)
    ∙ ap (λ t. (p.out, record c { buf = overwrite c.buf 0 p.mbuf; boff = t })) start
    ∙ sym (
        ap
          (λ n.
            let r = encrypt_front n (next_block e) (begin c.buf n) inp in (r.0, put_front c r.1))
          same
        ∙ ap (λ r. (r.0, put_front c r.1))
            (encrypt_front_whole 16 (next_block e) (begin c.buf 16) inp start (S.all)))
