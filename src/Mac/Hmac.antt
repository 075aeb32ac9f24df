-- ===== src/Mac/Hmac.antt =====
-- impl/mac/hmac/hmac.c: HMAC over a hash of the template, whose function table the two hash contexts
-- share. `keybuf` is the array of 256 bytes.
pub mod Spec
pub mod Keyed
pub mod Tag
pub mod Reset
pub mod Generate
mod Tests
use drew.Prelude.{
  ℕ, ◌-◌, min, Option, none, some, Bool, true, false, ◌||◌, List, [], ◌∷◌, ◌++◌, map, bit_xor,
  length, take, replicate, ltb, ◌==◌, if◌then◌else◌,
}
use drew.Util.Memory.{overwrite}
use drew.Hash.Template.{Algorithm, Hash, reset, update, get_digest}
use drew.Mode.Status.{Status, ok, failure, err_invalid, err_no_memory}

abbrev pub buffer_size : ℕ
buffer_size = 256

-- `struct hmac`
pub record Hmac : Type 0 where
  pub outside : Hash
  pub inside : Hash
  pub keybuf : List ℕ
  pub keybufsz : ℕ
  pub blksz : ℕ
  pub digestsz : ℕ
  pub taglen : ℕ

module _ (a : Algorithm) where
  -- The context that `hmac_init` fills in.
  unfoldable pub fresh : ℕ → Hmac
  fresh taglen = record {
    outside = reset a;
    inside = reset a;
    keybuf = replicate buffer_size 0;
    keybufsz = 0;
    blksz = a.block_size;
    digestsz = a.digest_size;
    taglen = if taglen == 0 then a.digest_size else taglen;
  }

  -- `hmac_init`: whether there is a parameter called `digest`, whether there is memory, and the
  -- parameter called `tagLength`, or 0.
  pub init : Bool → Bool → ℕ → Status × Option Hmac
  unfolding fresh
  init false room taglen = (failure err_invalid, none)
  init true false taglen = (failure err_no_memory, none)
  init true true taglen =
      if ltb buffer_size a.block_size || ltb buffer_size a.digest_size
      then (failure err_invalid, none)
      else (ok, some (fresh taglen))

  -- The `if` of `hmac_setkey`: the key in `keybuf`, hashed if it is longer than a block.
  unfoldable pub store_key : List ℕ → Hmac → Hmac
  store_key key c =
      let digest = (get_digest a (update a (reset a) key) c.digestsz false).0 in
      if ltb c.blksz (length key)
      then record c { keybuf = overwrite c.keybuf 0 digest; keybufsz = c.digestsz }
      else record c { keybuf = overwrite c.keybuf 0 key; keybufsz = length key }

  -- `outpad` for `0x5c` and `inpad` for `0x36`: the loop, and the `memset`.
  unfoldable pub key_pad : ℕ → Hmac → List ℕ
  key_pad byte c =
      let m = min c.keybufsz c.blksz in
      map (bit_xor byte) (take m c.keybuf) ++ replicate (c.blksz - m) byte

  unfoldable pub set_key : List ℕ → Hmac → Hmac
  unfolding store_key key_pad
  set_key key c =
      let c' = store_key key c in
      record c' {
        outside = update a (reset a) (key_pad 0x5c c');
        inside = update a (reset a) (key_pad 0x36 c');
      }

  -- `hmac_reset`, once `init` has given both contexts.
  unfoldable pub reset_mac : Hmac → Hmac
  unfolding set_key
  reset_mac c =
      let c' = record c { outside = reset a; inside = reset a } in
      if c.keybufsz == 0 then c' else set_key (take c.keybufsz c.keybuf) c'

  unfoldable pub update_mac : List ℕ → Hmac → Hmac
  update_mac inp c = record c { inside = update a c.inside inp }

  -- `hmac_final`, with what the array `buf` has in it at first.
  unfoldable pub final : List ℕ → Hmac → List ℕ × Hmac
  final buf c =
      let buf' = overwrite buf 0 (get_digest a c.inside c.digestsz false).0 in
      let outside = update a c.outside (take c.digestsz buf') in
      let buf'' = overwrite buf' 0 (get_digest a outside c.digestsz false).0 in
      (take c.taglen buf'', record c { outside = reset a; inside = reset a })

  -- `hmack_generate`, with what the arrays `buf` of it and of `hmac_final` have in them at first. The
  -- result has the bytes that it writes to `out`.
  unfoldable pub generate : List ℕ → List ℕ → ℕ → List ℕ → Hmac → Status × List ℕ × Hmac
  unfolding update_mac final
  generate stack buf outlen inp c =
      let (tag, c') = final stack (update_mac inp c) in
      if ltb c.digestsz outlen
      then (failure err_invalid, [], c)
      else if outlen == c.digestsz
      then (ok, tag, c')
      else (ok, take outlen (overwrite buf 0 tag), c')
