-- ===== src/Stream/Rc4/Tests.antt =====
-- RC4 at the key "Key" and a message of two buffers.
use drew.Prelude.{ℕ, ◌≡◌, refl, ap, length, arith, List, [], ◌∷◌, replicate, take}
use drew.Prelude.Loops.{for_up, repeat}
use drew.Stream.Rc4.{
  Rc4, swap_at, ks_reset, mix_byte, ks_set_key, get_value, buffer_byte, reset, set_key, encrypt,
}
use drew.Util.Keystream.{xor_bytes}
use drew.Stream.Rc4.Spec.{keyed, bytes}
use drew.Stream.Rc4.Published.{rc4_encrypt_lem}
use drew.Stream.Rc4.Permutation.{IsPermutation}
use drew.Stream.Rc4.Messages.{rc4_encrypt-IsPermutation}

abbrev key_3 : List ℕ
key_3 = 0x4b ∷ 0x65 ∷ 0x79 ∷ []

abbrev fresh : Rc4
fresh = record {
  ks = record { s = replicate 256 0; i = 0; j = 0 };
  drop = 0;
  key = [];
  buf = replicate 256 0;
  nbytes = 0;
}

-- "Key" gives the keystream that starts with eb 9f 77 81.
first_bytes : take 4 ((set_key key_3 fresh).buf) ≡ 0xeb ∷ 0x9f ∷ 0x77 ∷ 0x81 ∷ []
unfolding set_key reset ks_set_key ks_reset mix_byte swap_at get_value buffer_byte for_up repeat
first_bytes = refl

rc4_encrypt-IsPermutation_example :
    IsPermutation ((encrypt (set_key key_3 fresh) (0x50 ∷ replicate 500 0)).1.ks.s)
rc4_encrypt-IsPermutation_example =
    rc4_encrypt-IsPermutation key_3 fresh 0x50 (replicate 500 0) refl

rc4_encrypt_lem_example :
    (encrypt (set_key key_3 fresh) (replicate 9 0x50)).0
    ≡ xor_bytes (bytes 256 (keyed key_3)) (replicate 9 0x50)
unfolding repeat
rc4_encrypt_lem_example =
    rc4_encrypt_lem key_3 (replicate 9 0x50) fresh refl (λ e. omega (arith, ap length e))
      (omega arith)
