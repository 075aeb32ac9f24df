-- ===== src/Mode/Ctr/Refine.antt =====
-- `ctr_encrypt` is `CopyAndXor` over the blocks of the counter, with the free bytes counted from the
-- front of the buffer and not from its end.
use drew.Prelude.{ℕ, ◌-◌, ◌%◌, ◌<◌, ◌≡◌, sym, ap, ◌∙◌, none, some, List, length, arith}
use drew.Block.Interface.{BlockCipher}
use drew.Util.Keystream.{Cursor}
use drew.Util.Keystream.Spec.{outputs, after}
use drew.Util.Keystream.Split.{IsReady}
use drew.Mode.Offset.Refine.{
  IsFront, cursor, front, cursor-front, cursor-IsReady, encrypt_front_lem,
}
use drew.Mode.Ctr.{Ctr, next_block, front_of, put_front, encrypt_with, encrypt}

-- The context between calls: keyed with `e`, and its arrays of the size of a block.
pub record IsKeyed (e : BlockCipher) (c : Ctr) : Type 0 where
  pub keyed : c.algo ≡ some e
  pub size : c.blksize ≡ e.block_size
  pub whole : length c.buf ≡ c.blksize
  pub used : c.boff < c.blksize

-- What `CopyAndXor` keeps of a context, and the context with that replaced.
unfoldable pub view : Ctr → Cursor (List ℕ)
view c = record { mbuf = c.buf; bufrem = (c.blksize - c.boff) % c.blksize; obj = c.counter }

unfoldable pub unview : Ctr → Cursor (List ℕ) → Ctr
unview c s = record c { buf = s.mbuf; counter = s.obj; boff = (c.blksize - s.bufrem) % c.blksize }

pub view-unview : (c : Ctr) (s : Cursor (List ℕ)) → s.bufrem < c.blksize → view (unview c s) ≡ s
unfolding view unview cursor front
view-unview c s h = cursor-front c.blksize s h

module _ (e : BlockCipher) (c : Ctr) (k : IsKeyed e c) where
  pub full : (ctr : List ℕ) → length (next_block e ctr).0 ≡ c.blksize
  unfolding next_block
  full ctr = e.length-encrypt ctr ∙ sym (k.size)

  pub positive : 0 < c.blksize
  positive = let h = k.used in omega arith

  front_of-IsFront : IsFront c.blksize (front_of c)
  front_of-IsFront = record { whole = k.whole; used = k.used }

  encrypt_with_lem :
      (inp : List ℕ)
      → encrypt_with e c inp ≡ (
        outputs c.blksize (next_block e) (view c) inp,
        unview c (after c.blksize (next_block e) (view c) inp),
      )
  unfolding encrypt_with view unview cursor front
  encrypt_with_lem inp =
      ap (λ r. (r.0, put_front c r.1))
        (encrypt_front_lem c.blksize (next_block e) positive full (front_of c) inp front_of-IsFront)

  pub view-IsReady : IsReady c.blksize (view c)
  unfolding view cursor
  view-IsReady = cursor-IsReady c.blksize (next_block e) positive full (front_of c) front_of-IsFront

-- `ctr_encrypt` writes the keystream of `next_block` added byte by byte, and leaves what the
-- byte-at-a-time cipher leaves, from any keyed context and for any length.
pub encrypt_lem :
    (e : BlockCipher) (c : Ctr) (inp : List ℕ)
    → IsKeyed e c
    → encrypt c inp
      ≡ some (
        outputs c.blksize (next_block e) (view c) inp,
        unview c (after c.blksize (next_block e) (view c) inp),
      )
unfolding encrypt
encrypt_lem e c inp k =
    ap (λ a. elim a [ none ↦ none | some e' ↦ some (encrypt_with e' c inp) ]) (k.keyed)
    ∙ ap some (encrypt_with_lem e c k inp)
