-- ===== src/Mode/Ofb.antt =====
-- impl/mode/ofb.c: output feedback. `buf` and `iv` are the arrays of 32 bytes, of which `init` clears
-- none; a block of more than 32 bytes, which the code does not exclude, is outside the model.
pub mod Refine
pub mod Reach
pub mod Fast
mod Tests
use drew.Prelude.{
  ℕ, zero, suc, ◌/◌, Option, none, some, Bool, true, false, ◌||◌, List, [], ◌++◌, length, take,
  drop, ◌==◌, if◌then◌else◌,
}
use drew.Util.Memory.{overwrite}
use drew.Util.Keystream.{xor_bytes}
use drew.Block.Interface.{BlockCipher}
use drew.Block.Fast.{encrypt_fast}
use drew.Mode.Offset.{Front, encrypt_front}
use drew.Mode.Status.{Status, ok, failure, unsigned, err_invalid, err_more_info, err_not_allowed}

-- `struct ofb`; `algo` may be null. `fast` says which of the two tables `functbl` is.
pub record Ofb : Type 0 where
  pub algo : Option BlockCipher
  pub buf : List ℕ
  pub iv : List ℕ
  pub blksize : ℕ
  pub boff : ℕ
  pub chunks : ℕ
  pub fast : Bool

-- `ofb_init` on the memory of a context.
pub init : Ofb → Ofb
init c = record c { algo = none; boff = 0; fast = false }

pub set_block : Option BlockCipher → Ofb → Status × Ofb
set_block none c = (unsigned err_invalid, c)
set_block (some e) c =
    let whole = e.block_size == 8 || e.block_size == 16 in
    (
      ok,
      record c {
        algo = some e;
        blksize = e.block_size;
        chunks = if whole then 16 / e.block_size else c.chunks;
        fast = if whole then true else c.fast;
      },
    )

-- `boff` is left as it is.
pub set_iv : List ℕ → Ofb → Status × Ofb
set_iv iv c =
    if c.blksize == length iv
    then (ok, record c { buf = overwrite c.buf 0 iv; iv = overwrite c.iv 0 iv })
    else (failure err_invalid, c)

-- `if ((res = …)) return res; c->boff = 0;`
pub rewind : Status → Ofb → Status × Ofb
rewind ok c = (ok, record c { boff = 0 })
rewind (failure e) c = (failure e, c)
rewind (unsigned e) c = (unsigned e, c)

pub reset : Ofb → Status × Ofb
unfolding rewind
reset c = let (status, c') = set_iv (take c.blksize c.iv) c in rewind status c'

pub resync : Ofb → Status
resync c = failure err_more_info

pub set_data : List ℕ → Ofb → Status
set_data bytes c = failure err_not_allowed

-- `encrypt(c->algo, c->buf, c->buf)`: the buffer is also what is encrypted next.
pub next_block : BlockCipher → List ℕ → List ℕ × List ℕ
next_block e buf = (e.encrypt buf, e.encrypt buf)

-- What `ofb_encrypt` changes of a context: the block at the start of the array, and `boff`.
abbrev pub front_of : Ofb → Front (List ℕ)
front_of c = record { buf = take c.blksize c.buf; boff = c.boff; obj = take c.blksize c.buf }

abbrev pub put_front : Ofb → Front (List ℕ) → Ofb
put_front c s = record c { buf = overwrite c.buf 0 s.buf; boff = s.boff }

pub encrypt_with : BlockCipher → Ofb → List ℕ → List ℕ × Ofb
encrypt_with e c inp =
    let (out, s) = encrypt_front c.blksize (next_block e) (front_of c) inp in (out, put_front c s)

-- `ofb_encrypt`, which also decrypts. `none` is the call through a null `algo`.
pub encrypt : Ofb → List ℕ → Option (List ℕ × Ofb)
encrypt c inp = elim c.algo [ none ↦ none | some e ↦ some (encrypt_with e c inp) ]

-- `ofb_final` returns the number of bytes.
pub final : Ofb → List ℕ → Option (ℕ × List ℕ × Ofb)
final c inp = elim (encrypt c inp) [ none ↦ none | some (out, c') ↦ some (length inp, out, c') ]

-- The `for` of `ofb_encryptfast`: what is written, and the array.
pub fast_rounds : BlockCipher → ℕ → ℕ → List ℕ → List ℕ → List ℕ × List ℕ
fast_rounds e chunks zero buf inp = ([], buf)
fast_rounds e chunks (suc k) buf inp =
    let buf' = overwrite buf 0 (encrypt_fast e chunks buf) in
    let (out, buf'') = fast_rounds e chunks k buf' (drop 16 inp) in
    (xor_bytes (take 16 buf') (take 16 inp) ++ out, buf'')

pub encrypt_fast_with : BlockCipher → Ofb → List ℕ → List ℕ × Ofb
unfolding fast_rounds
encrypt_fast_with e c inp =
    let (out, buf) = fast_rounds e c.chunks (length inp / 16) c.buf inp in
    (out, record c { buf = buf })
