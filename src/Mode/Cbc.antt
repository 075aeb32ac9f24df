-- ===== src/Mode/Cbc.antt =====
-- impl/mode/cbc.c: cipher block chaining. The output does not overlap the input, or is the same array,
-- which the copy in `buf2` allows.
pub mod Blocks
pub mod Inverse
pub mod Final
pub mod Fast
mod Tests
use drew.Prelude.{
  ℕ, zero, suc, ◌*◌, ◌/◌, ◌%◌, ◌≡◌, ◌<◌, Option, none, some, Bool, true, false, List, [], ◌++◌,
  length, take, drop, leb, ◌==◌, if◌then◌else◌,
}
use drew.Block.Interface.{BlockCipher}
use drew.Util.Keystream.{xor_bytes}
use drew.Mode.Status.{
  Status, ok, failure, err_invalid, err_not_impl, err_not_allowed, err_no_memory,
}

-- `struct cbc`; `algo` may be null, and an array that is null is the empty list. `fast` says which of
-- the two tables `functbl` is.
pub record Cbc : Type 0 where
  pub algo : Option BlockCipher
  pub buf : List ℕ
  pub buf2 : List ℕ
  pub iv : List ℕ
  pub blksize : ℕ
  pub fast : Bool

pub init : Cbc
init = record { algo = none; buf = []; buf2 = []; iv = []; blksize = 0; fast = false }

-- `drew_mem_smalloc`: for each call in turn and the size, the new array with whatever is in it, or no
-- memory.
abbrev pub Memory : Type 0
Memory = ℕ → ℕ → Option (List ℕ)

-- The allocation of `iv`, and the choice of the table.
pub set_block_iv : Option (List ℕ) → Cbc → Status × Cbc
set_block_iv none c = (failure err_no_memory, record c { iv = [] })
set_block_iv (some iv) c =
    (ok, record c { iv = iv; fast = if c.blksize == 16 then true else c.fast })

-- The allocation of `buf2`, and the rest.
pub set_block_buf2 : Memory → Option (List ℕ) → Cbc → Status × Cbc
unfolding set_block_iv
set_block_buf2 mem none c = (failure err_no_memory, record c { buf2 = [] })
set_block_buf2 mem (some buf2) c = set_block_iv (mem 2 c.blksize) (record c { buf2 = buf2 })

-- The allocation of `buf`, and the rest.
pub set_block_buf : Memory → Option (List ℕ) → Cbc → Status × Cbc
unfolding set_block_buf2
set_block_buf mem none c = (failure err_no_memory, record c { buf = [] })
set_block_buf mem (some buf) c = set_block_buf2 mem (mem 1 c.blksize) (record c { buf = buf })

pub set_block : Memory → Option BlockCipher → Cbc → Status × Cbc
unfolding set_block_buf
set_block mem none c = (failure err_invalid, c)
set_block mem (some e) c =
    set_block_buf mem (mem 0 e.block_size) (record c { algo = some e; blksize = e.block_size })

pub set_iv : List ℕ → Cbc → Status × Cbc
set_iv iv c =
    if c.blksize == length iv
    then (ok, record c { buf = iv; iv = iv })
    else (failure err_invalid, c)

-- The length that the code passes is `blksize`, the size of the array `iv` once there is one.
pub reset : Cbc → Status × Cbc
unfolding set_iv
reset c = set_iv c.iv c

pub resync : Cbc → Status
resync c = failure err_not_impl

pub set_data : List ℕ → Cbc → Status
set_data bytes c = failure err_not_allowed

-- `xor_aligned2`, which works on pieces of 16 bytes and leaves the rest.
pub xor_aligned2 : List ℕ → List ℕ → ℕ → List ℕ
xor_aligned2 out x len =
    xor_bytes (take (len / 16 * 16) out) (take (len / 16 * 16) x) ++ drop (len / 16 * 16) out

-- The loop of `cbc_encrypt` and of `cbc_encryptfast`, by the function that adds the block: the bytes
-- written, and `buf` at the end. A round of fuel for each byte is enough.
pub encrypt_blocks :
    (List ℕ → List ℕ → ℕ → List ℕ) → BlockCipher → ℕ → ℕ → List ℕ → List ℕ → List ℕ × List ℕ
encrypt_blocks xor e bs zero buf inp = ([], buf)
encrypt_blocks xor e bs (suc fuel) buf inp =
    let buf' = e.encrypt (xor buf inp bs) in
    let (out, last) = encrypt_blocks xor e bs fuel buf' (drop bs inp) in
    if leb bs (length inp) then (buf' ++ out, last) else ([], buf)

-- `xor_buffers2`
pub xor_buffers2 : List ℕ → List ℕ → ℕ → List ℕ
xor_buffers2 out x len = xor_bytes (take len out) (take len x) ++ drop len out

-- What `cbc_decrypt` changes of the context.
pub record Chain : Type 0 where
  pub buf : List ℕ
  pub buf2 : List ℕ

-- The loop of `cbc_decrypt` and of `cbc_decryptfast`, which are the same.
pub decrypt_blocks : BlockCipher → ℕ → ℕ → Chain → List ℕ → List ℕ × Chain
unfolding xor_buffers2
decrypt_blocks e bs zero s inp = ([], s)
decrypt_blocks e bs (suc fuel) s inp =
    let block = take bs inp in
    let plain = xor_buffers2 (e.decrypt block) s.buf bs in
    let (out, last) =
      decrypt_blocks e bs fuel (record { buf = block; buf2 = block }) (drop bs inp) in
    if leb bs (length inp) then (plain ++ out, last) else ([], s)

-- A call: what it returns, the bytes it has written, and the context.
pub record Called : Type 0 where
  pub status : Status
  pub out : List ℕ
  pub ctx : Cbc

pub encrypt_with : BlockCipher → Cbc → List ℕ → Called
unfolding encrypt_blocks xor_buffers2
encrypt_with e c inp =
    let (out, buf) = encrypt_blocks xor_buffers2 e c.blksize (length inp) c.buf inp in
    if length inp % c.blksize == 0
    then record { status = ok; out = out; ctx = record c { buf = buf } }
    else record { status = failure err_invalid; out = []; ctx = c }

pub encrypt_fast_with : BlockCipher → Cbc → List ℕ → Called
unfolding encrypt_blocks xor_aligned2
encrypt_fast_with e c inp =
    let (out, buf) = encrypt_blocks xor_aligned2 e c.blksize (length inp) c.buf inp in
    record { status = ok; out = out; ctx = record c { buf = buf } }

pub decrypt_fast_with : BlockCipher → Cbc → List ℕ → Called
unfolding decrypt_blocks
decrypt_fast_with e c inp =
    let (out, s) =
      decrypt_blocks e c.blksize (length inp) (record { buf = c.buf; buf2 = c.buf2 }) inp in
    record { status = ok; out = out; ctx = record c { buf = s.buf; buf2 = s.buf2 } }

pub decrypt_with : BlockCipher → Cbc → List ℕ → Called
unfolding decrypt_fast_with
decrypt_with e c inp =
    if length inp % c.blksize == 0
    then decrypt_fast_with e c inp
    else record { status = failure err_invalid; out = []; ctx = c }

-- The calls through `algo`; `none` is the call through a null pointer.
pub through : (BlockCipher → Cbc → List ℕ → Called) → Cbc → List ℕ → Option Called
through call c inp = elim c.algo [ none ↦ none | some e ↦ some (call e c inp) ]

-- `cbc_encryptfinal` and `cbc_decryptfinal` return the length whatever the call has returned.
pub final : (BlockCipher → Cbc → List ℕ → Called) → Cbc → List ℕ → Option (ℕ × List ℕ × Cbc)
unfolding through
final call c inp = elim (through call c inp) [
  | none ↦ none
  | some r ↦ some (length inp, r.out, r.ctx)
]
