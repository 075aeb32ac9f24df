-- ===== src/Block/Tea/Tests.antt =====
-- The first vector of `teatest`.
use drew.Prelude.{◌≡◌, refl, [], ◌∷◌}
use drew.Prelude.Loops.{repeat}
use drew.Util.Rotate.{add_word}
use drew.Util.Endian.{load, store, host_load, host_store, copy_in, copy_out}
use drew.Block.Interface.{on_words}
use drew.Block.Tea.{encrypt, encrypt_words, cycle, mix}

tea_vector :
    encrypt (record { k0 = 0; k1 = 0; k2 = 0; k3 = 0 }) (0 ∷ 0 ∷ 0 ∷ 0 ∷ 0 ∷ 0 ∷ 0 ∷ 0 ∷ [])
    ≡ 0x41 ∷ 0xea ∷ 0x3a ∷ 0x0a ∷ 0x94 ∷ 0xba ∷ 0xa9 ∷ 0x40 ∷ []
unfolding encrypt encrypt_words cycle mix repeat add_word on_words copy_in copy_out load store
    host_load host_store
tea_vector = refl
