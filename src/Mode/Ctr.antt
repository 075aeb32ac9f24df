-- ===== src/Mode/Ctr.antt =====
-- impl/mode/ctr.cc: counter mode. The arrays `ctr`, `buf` and `iv` are their first `blksize` bytes,
-- which are all that is read of them; the arrays have 32 bytes, and a block of more, which the code does
-- not exclude, is outside the model.
pub mod Counter
pub mod Refine
pub mod Keystream
pub mod Pieces
mod Tests
use mathlib.Core.List.{reverse}
use drew.Prelude.{
  ℕ, ◌+◌, ◌-◌, ◌%◌, ◌^◌, min, Option, none, some, List, [], ◌∷◌, ◌++◌, length, take, drop,
  replicate, ◌==◌, if◌then◌else◌,
}
use drew.Block.Interface.{BlockCipher}
use drew.Mode.Offset.{Front, encrypt_front}
use drew.Mode.Status.{Status, ok, failure, unsigned, err_invalid, err_not_impl, err_not_allowed}

-- `struct ctr`; `algo` may be null.
pub record Ctr : Type 0 where
  pub algo : Option BlockCipher
  pub counter : List ℕ
  pub buf : List ℕ
  pub iv : List ℕ
  pub blksize : ℕ
  pub boff : ℕ

pub init : Ctr
init = record { algo = none; counter = []; buf = []; iv = []; blksize = 0; boff = 0 }

-- An array of 32 bytes seen through another block size. The bytes past the old block size, which no
-- operation has written, are those that `memset` left; a context that is given a smaller block and
-- then a larger one again, whose later bytes are stale, is outside the model.
pub resize : ℕ → List ℕ → List ℕ
resize n xs = take n (xs ++ replicate 32 0)

-- `functbl`, which this may change too, is not part of the model: `ctr_encrypt` is in both tables.
pub set_block : Option BlockCipher → Ctr → Status × Ctr
unfolding resize
set_block none c = (unsigned err_invalid, c)
set_block (some e) c = (
  ok,
  record c {
    algo = some e;
    blksize = e.block_size;
    counter = resize e.block_size c.counter;
    buf = resize e.block_size c.buf;
    iv = resize e.block_size c.iv;
  },
)

-- `boff` is left as it is.
pub set_iv : List ℕ → Ctr → Status × Ctr
set_iv iv c =
    if length iv == c.blksize
    then (ok, record c { counter = iv; buf = iv; iv = iv })
    else (failure err_invalid, c)

-- The length that the code passes is `blksize`, the size of the array `iv` once there is one.
pub reset : Ctr → Status × Ctr
reset c =
    let (status, c') = set_iv c.iv c in
    elim status [
      | ok ↦ (ok, record c' { boff = 0 })
      | failure e ↦ (failure e, c')
      | unsigned e ↦ (unsigned e, c')
    ]

pub resync : Ctr → Status
resync c = failure err_not_impl

pub set_data : List ℕ → Ctr → Status
set_data bytes c = failure err_not_allowed

-- `increment_counter`, on the bytes from the last to the first: a byte that wraps to 0 carries.
pub ripple : List ℕ → List ℕ
ripple [] = []
ripple (b ∷ bs) = if (b + 1) % 2 ^ 8 == 0 then (b + 1) % 2 ^ 8 ∷ ripple bs else (b + 1) % 2 ^ 8 ∷ bs

pub increment_counter : List ℕ → List ℕ
unfolding ripple
increment_counter ctr = reverse (ripple (reverse ctr))

-- `encrypt(c->algo, c->buf, c->ctr); increment_counter(c->ctr, c->blksize);`
pub next_block : BlockCipher → List ℕ → List ℕ × List ℕ
next_block e ctr = (e.encrypt ctr, increment_counter ctr)

-- What `ctr_encrypt` changes of a context.
abbrev pub front_of : Ctr → Front (List ℕ)
front_of c = record { buf = c.buf; boff = c.boff; obj = c.counter }

abbrev pub put_front : Ctr → Front (List ℕ) → Ctr
put_front c s = record c { buf = s.buf; counter = s.obj; boff = s.boff }

pub encrypt_with : BlockCipher → Ctr → List ℕ → List ℕ × Ctr
encrypt_with e c inp =
    let (out, s) = encrypt_front c.blksize (next_block e) (front_of c) inp in (out, put_front c s)

-- `ctr_encrypt`, which also decrypts. `none` is the call through a null `algo`.
pub encrypt : Ctr → List ℕ → Option (List ℕ × Ctr)
encrypt c inp = elim c.algo [ none ↦ none | some e ↦ some (encrypt_with e c inp) ]

-- `ctr_encryptfinal` and `ctr_decryptfinal` return the number of bytes.
pub encrypt_final : Ctr → List ℕ → Option (ℕ × List ℕ × Ctr)
encrypt_final c inp = elim (encrypt c inp) [
  | none ↦ none
  | some (out, c') ↦ some (length inp, out, c')
]
