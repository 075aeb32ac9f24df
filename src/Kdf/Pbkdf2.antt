-- ===== src/Kdf/Pbkdf2.antt =====
-- impl/kdf/pbkdf/pbkdf2.c: PBKDF2 over any pseudorandom function.
pub mod Spec
pub mod Derived
pub mod Generate
pub mod OverHmac
mod Tests
use drew.Prelude.{
  ℕ, zero, suc, ◌+◌, ◌-◌, ◌*◌, ◌/◌, ◌%◌, ◌^◌, Option, none, some, Bool, true, false, ◌||◌, ◌&&◌,
  List, [], ◌++◌, length, take, ltb, ◌==◌, if◌then◌else◌,
}
use drew.Util.Rotate.{add_word, sub_word}
use drew.Util.Endian.{big, store}
use drew.Util.Keystream.{xor_bytes}
use drew.Mode.Status.{
  Status, ok, failure, err_invalid, err_not_allowed, err_not_impl, err_no_memory,
}
use drew.Kdf.Prf.{Prf}

-- `struct pbkdf`; `saltsz` is a `uint8_t`.
pub record Pbkdf (S : Type 0) : Type 0 where
  pub prf : S
  pub salt : List ℕ
  pub saltsz : ℕ
  pub count : ℕ
  pub prfsz : ℕ

pub set_salt : {S : Type 0} → List ℕ → Pbkdf S → Pbkdf S
set_salt salt c = record c { salt = salt; saltsz = length salt % 2 ^ 8 }

pub set_count : {S : Type 0} → ℕ → Pbkdf S → Pbkdf S
set_count n c = record c { count = n }

pub set_key : {S : Type 0} → List ℕ → Pbkdf S → Status
set_key key c = failure err_not_allowed

module _ {S : Type 0} (p : Prf S) where
  -- The context that `pbkdf_init` fills in.
  pub fresh : S → Pbkdf S
  fresh prf = record { prf = p.reset prf; salt = []; saltsz = 0; count = 0; prfsz = p.size }

  -- `pbkdf_init`: the parameter called `prf`, if there is one, and whether there is memory.
  pub init : Option S → Bool → Status × Option (Pbkdf S)
  unfolding fresh
  init none room = (failure err_invalid, none)
  init (some prf) false = (failure err_no_memory, none)
  init (some prf) true = elim p.info_error [
    | none ↦ if ltb 256 p.size then (failure err_not_impl, none) else (ok, some (fresh prf))
    | some e ↦ (failure e, none)
  ]

  pub reset : Pbkdf S → Pbkdf S
  reset c = record c { prf = p.reset c.prf }

  -- The loop over `j`: what is at `storep`, and the context of the function.
  pub iterate : ℕ → ℕ → S → List ℕ → List ℕ → List ℕ × S
  iterate prfsz zero s store buf = (store, s)
  iterate prfsz (suc n) s store buf =
      let (status, buf', s') = p.generate prfsz buf (p.reset s) in
      iterate prfsz n s' (xor_bytes store buf') buf'

  -- One round of the loop over `i`, for the bytes of `tmp` before the counter.
  pub block : Pbkdf S → ℕ → S → List ℕ × S
  unfolding iterate
  block c i s =
      let (status, buf, s') =
        p.generate c.prfsz (take c.saltsz c.salt ++ store big 4 (i + 1)) (p.reset s) in
      iterate c.prfsz (c.count - 1) s' buf buf

  -- The rounds that are left, from round `i`. The last one writes to `extra`, of which `r` bytes are
  -- copied, if it does not fill a whole block.
  pub blocks : Pbkdf S → ℕ → ℕ → ℕ → S → List ℕ × S
  unfolding block
  blocks c r zero i s = ([], s)
  blocks c r (suc n) i s =
      let (bytes, s') = block c i s in
      let (rest, s'') = blocks c r n (i + 1) s' in
      ((if n == 0 then if r == c.prfsz then bytes else take r bytes else bytes) ++ rest, s'')

  -- `pbkdf_generate`, with what it writes.
  pub generate : ℕ → List ℕ → Pbkdf S → Status × List ℕ × Pbkdf S
  unfolding blocks
  generate outlen inp c =
      let rounds = add_word 64 outlen (sub_word 64 c.prfsz 1) / c.prfsz in
      let r = sub_word 64 outlen (sub_word 64 rounds 1 * c.prfsz % 2 ^ 64) in
      let (bytes, s) = blocks c r rounds 0 (p.set_key inp (p.reset c.prf)) in
      if outlen == 0 || c.count == 0
      then (failure err_invalid, [], c)
      else (ok, bytes, record c { prf = s })
