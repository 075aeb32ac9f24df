-- ===== src/Kdf/Pbkdf2/Tests.antt =====
-- PBKDF2 over HMAC over MD5.
use drew.Prelude.{
  ℕ, ◌+◌, ◌-◌, ◌/◌, ◌%◌, ◌^◌, ◌≡◌, refl, none, some, true, List, [], ◌∷◌, length, take, replicate,
  arith,
}
use drew.Util.Memory.{overwrite}
use drew.Util.Rotate.{rotate_left, add_word, sub_word, not_word}
use drew.Util.Endian.{copy_in, copy_out, load, store, host_load, host_store}
use drew.Util.Keystream.{xor_bytes}
use drew.Hash.Template.{
  reset, add_length, whole_blocks, update_rest, fill_buffer, update, length_bytes, pad_mark, pad,
  get_digest,
}
use drew.Hash.Md5.{f, g, h, i, op, calls, transform, md5}
use drew.Mode.Status.{ok, failure, err_invalid}
use drew.Mac.Hmac.{Hmac, store_key, key_pad, reset_mac, update_mac, final}
use drew.Mac.Hmac as HmacMac
use drew.Mac.Hmac.Spec.{IsSound, hmac}
use drew.Mac.Hmac.Generate.{hmac_prf}
use drew.Kdf.Prf.{Prf}
use drew.Kdf.Pbkdf2.{Pbkdf, fresh, init, set_salt, set_count, iterate, block, blocks, generate}
use drew.Kdf.Pbkdf2.Spec.{pieces}
use drew.Kdf.Pbkdf2.OverHmac.{pbkdf2_hmac_lem}

md5-IsSound : IsSound md5
unfolding transform
md5-IsSound = record {
  block_small = omega arith;
  block_short = omega arith;
  digest_small = omega arith;
  digest_some = omega arith;
  words_enough = λ state block. omega arith;
}

abbrev zeros : List ℕ
zeros = replicate 256 0

abbrev hmac_md5 : Prf Hmac
hmac_md5 = hmac_prf md5 zeros zeros

abbrev context : Pbkdf Hmac
context = fresh hmac_md5 (HmacMac.fresh md5 0)

begun : init hmac_md5 (some (HmacMac.fresh md5 0)) true ≡ (ok, some context)
unfolding init
begun = refl

no_prf : init hmac_md5 none true ≡ (failure err_invalid, none)
unfolding init
no_prf = refl

no_size :
    init (record hmac_md5 { info_error = some err_invalid }) (some (HmacMac.fresh md5 0)) true
    ≡ (failure err_invalid, none)
unfolding init
no_size = refl

nothing_asked : (generate hmac_md5 0 zeros context).0 ≡ failure err_invalid
unfolding generate
nothing_asked = refl

abbrev password : List ℕ
password = 0x70 ∷ 0x61 ∷ 0x73 ∷ 0x73 ∷ 0x77 ∷ 0x6f ∷ 0x72 ∷ 0x64 ∷ []

abbrev salt : List ℕ
salt = 0x73 ∷ 0x61 ∷ 0x6c ∷ 0x74 ∷ []

derived :
    (generate hmac_md5 20 password (set_count 2 (set_salt salt context))).1
    ≡ 0x04 ∷ 0x24 ∷ 0x07 ∷ 0xb5 ∷ 0x52 ∷ 0xbe ∷ 0x34 ∷ 0x5a ∷ 0xd6 ∷ 0xee ∷ 0xe2 ∷ 0xcf ∷ 0x2f
      ∷ 0x7e ∷ 0xd0 ∷ 0x1d ∷ 0xd9 ∷ 0x66 ∷ 0x2d ∷ 0x8f ∷ []
unfolding f g h i op calls transform rotate_left add_word sub_word not_word copy_in copy_out load
    store host_load host_store overwrite reset add_length whole_blocks update_rest fill_buffer
    update length_bytes pad_mark pad get_digest xor_bytes HmacMac.fresh store_key key_pad
    HmacMac.set_key update_mac reset_mac final HmacMac.generate fresh init set_salt set_count
    iterate block blocks generate
derived = refl

pbkdf2_hmac_lem_example :
    (let r = generate hmac_md5 20 password (set_count 2 (set_salt salt context)) in
      (r.0 ≡ ok)
      × (r.1
          ≡ take 20 (
              pieces (hmac md5 password) (take (length salt % 2 ^ 8) salt) 2 ((20 - 1) / 16 + 1) 0))
      × (length r.1 ≡ 20))
pbkdf2_hmac_lem_example =
    pbkdf2_hmac_lem md5 context zeros zeros password salt 2 20 md5-IsSound
      (omega arith, omega arith) begun (omega arith) (omega arith) (omega arith) (omega arith)
