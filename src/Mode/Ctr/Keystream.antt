-- ===== src/Mode/Ctr/Keystream.antt =====
-- The keystream of counter mode as its definition has it: the encrypted numbers from the counter on.
use drew.Prelude.{ℕ, ◌+◌, ◌%◌, ◌^◌, ◌≡◌, ap, ap₂, ◌∙◌, some, List}
use drew.Util.Endian.{big, load, store, IsBlock}
use drew.Util.Keystream.Spec.{outputs, after}
use drew.Util.Keystream.Agree.{outputs_agree}
use drew.Block.Interface.{BlockCipher}
use drew.Mode.Ctr.{Ctr, next_block, encrypt}
use drew.Mode.Ctr.Counter.{increment_counter-IsBlock, increment_counter_lem}
use drew.Mode.Ctr.Refine.{IsKeyed, view, unview, encrypt_lem}

-- The encryption of a block of `n` bytes, and the block that is the next number, modulo `256 ^ n`.
abbrev pub count_on : BlockCipher → ℕ → List ℕ → List ℕ × List ℕ
count_on e n block = (e.encrypt block, store big n ((load big n block + 1) % 256 ^ n))

-- From any keyed context whose counter has bytes, and for a message of any length, `ctr_encrypt` adds to
-- it byte by byte the rest of the block in the buffer and then the encryptions of the counter and of the
-- numbers that follow it, as big-endian blocks, modulo the number of blocks. It leaves the counter, the
-- last block and the offset in it that the byte-at-a-time cipher leaves.
pub ctr_encrypt_lem :
    (e : BlockCipher) (c : Ctr) (inp : List ℕ)
    → IsKeyed e c
    → IsBlock c.blksize c.counter
    → (let n = c.blksize in
        encrypt c inp
        ≡ some
            (outputs n (count_on e n) (view c) inp, unview c (after n (count_on e n) (view c) inp)))
unfolding next_block view
ctr_encrypt_lem e c inp k b =
    let n = c.blksize in
    let (bytes, left) =
      outputs_agree n (next_block e) (count_on e n) (λ ctr. IsBlock n ctr)
        (λ ctr h. ap (λ t. (e.encrypt ctr, t)) (increment_counter_lem n ctr h))
        (λ ctr h. increment_counter-IsBlock n ctr h) (view c) inp b in
    encrypt_lem e c inp k ∙ ap₂ (λ x s. some (x, unview c s)) bytes left
