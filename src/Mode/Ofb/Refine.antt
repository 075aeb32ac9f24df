-- ===== src/Mode/Ofb/Refine.antt =====
-- `ofb_encrypt` is the byte-at-a-time cipher whose next buffer is the encryption of the last one.
use drew.Prelude.{
  ◌-◌, ◌%◌, ℕ, ◌≤◌, ◌<◌, ◌≡◌, sym, ap, ◌∙◌, Option, none, some, List, length, length-take, arith,
}
use drew.Block.Interface.{BlockCipher}
use drew.Util.Memory.{overwrite, overwrite-length}
use drew.Util.Keystream.Spec.{outputs, after, outputs_twice}
use drew.Mode.Offset.{Front, encrypt_front}
use drew.Mode.Offset.Refine.{IsFront, cursor, front, encrypt_front_lem, encrypt_front-IsFront}
use drew.Mode.Ofb.{Ofb, next_block, front_of, put_front, encrypt_with, encrypt}

-- The context between calls: keyed with `e`, and an array that a block fits in.
pub record IsKeyed (e : BlockCipher) (c : Ofb) : Type 0 where
  pub keyed : c.algo ≡ some e
  pub size : c.blksize ≡ e.block_size
  pub array : c.blksize ≤ length c.buf
  pub stored : c.blksize ≤ length c.iv
  pub used : c.boff < c.blksize

-- A message is encrypted, and the result given to a context that stands where the first stood.
abbrev pub there_and_back : Ofb → List ℕ → Option (List ℕ)
there_and_back c xs = elim (encrypt c xs) [
  | none ↦ none
  | some (out, c') ↦ elim (encrypt c out) [ none ↦ none | some (back, c'') ↦ some back ]
]

module _ (e : BlockCipher) (c : Ofb) (k : IsKeyed e c) where
  pub full : (buf : List ℕ) → length (next_block e buf).0 ≡ c.blksize
  unfolding next_block
  full buf = e.length-encrypt buf ∙ sym (k.size)

  pub positive : 0 < c.blksize
  positive = let h = k.used in omega arith

  pub front_of-IsFront : IsFront c.blksize (front_of c)
  front_of-IsFront =
      let room = k.array in
      record { whole = omega (arith, length-take c.blksize c.buf); used = k.used }

  pub keyed_lem : (inp : List ℕ) → encrypt c inp ≡ some (encrypt_with e c inp)
  unfolding encrypt
  keyed_lem inp =
      ap (λ a. elim a [ none ↦ none | some e' ↦ some (encrypt_with e' c inp) ]) (k.keyed)

  -- The buffer still fits the array.
  pub encrypt_with-IsKeyed : (inp : List ℕ) → IsKeyed e (encrypt_with e c inp).1
  unfolding encrypt_with
  encrypt_with-IsKeyed inp =
      let kept =
        encrypt_front-IsFront c.blksize (next_block e) positive full (front_of c) inp
          front_of-IsFront in
      let s : Front (List ℕ) = (encrypt_front c.blksize (next_block e) (front_of c) inp).1 in
      let room = k.array in
      let whole : length s.buf ≡ c.blksize = kept.whole in
      let same = overwrite-length c.buf 0 s.buf (omega arith) in
      record {
        keyed = k.keyed;
        size = k.size;
        array = omega arith;
        stored = k.stored;
        used = kept.used;
      }

-- The specification's next block: the encryption of the last one, which is also encrypted next.
abbrev pub feed_back : BlockCipher → List ℕ → List ℕ × List ℕ
feed_back e buf = (e.encrypt buf, e.encrypt buf)

-- `ofb_encrypt` writes the keystream in which every block is the encryption of the block before, added
-- byte by byte, and leaves in the array and in `boff` what the byte-at-a-time cipher leaves, from any
-- keyed context and for any length.
pub ofb_encrypt_lem :
    (e : BlockCipher) (c : Ofb) (inp : List ℕ)
    → IsKeyed e c
    → (let start = cursor c.blksize (front_of c) in
        let last = after c.blksize (feed_back e) start inp in
        encrypt c inp
        ≡ some (
          outputs c.blksize (feed_back e) start inp,
          record c {
            buf = overwrite c.buf 0 last.mbuf;
            boff = (c.blksize - last.bufrem) % c.blksize;
          },
        ))
unfolding encrypt_with next_block front
ofb_encrypt_lem e c inp k =
    keyed_lem e c k inp
    ∙ ap (λ r. some (r.0, put_front c r.1))
        (encrypt_front_lem c.blksize (next_block e) (positive e c k) (full e c k) (front_of c) inp
          (front_of-IsFront e c k))

-- Decryption is the same operation, from a context that stands where the encrypting one stood.
pub ofb_encrypt_twice :
    (e : BlockCipher) (c : Ofb) (xs : List ℕ) → IsKeyed e c → there_and_back c xs ≡ some xs
ofb_encrypt_twice e c xs k =
    let s = cursor c.blksize (front_of c) in
    rw
      (
        there_and_back,
        ofb_encrypt_lem e c xs k,
        ofb_encrypt_lem e c (outputs c.blksize (feed_back e) s xs) k,
      )
      (ap some (outputs_twice c.blksize (feed_back e) s xs))
