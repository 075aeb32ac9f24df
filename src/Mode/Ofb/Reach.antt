-- ===== src/Mode/Ofb/Reach.antt =====
-- The contexts that calls can lead to once a block cipher is set, and that every one of them answers.
use drew.Prelude.{
  ℕ, ◌≤◌, ◌<◌, ◌≡◌, refl, sym, ap, ◌∙◌, inl, inr, none, some, List, length, take, ◌==◌, Bool-cases,
  arith,
}
use drew.Block.Interface.{BlockCipher}
use drew.Util.Memory.{overwrite-length}
use drew.Util.Keystream.Spec.{length-outputs}
use drew.Mode.Offset.Refine.{cursor}
use drew.Mode.Status.{Status, ok, failure, unsigned}
use drew.Mode.Ofb.{
  Ofb, init, set_block, set_iv, rewind, reset, next_block, front_of, encrypt_with, encrypt, final,
}
use drew.Mode.Ofb.Refine.{IsKeyed, keyed_lem, encrypt_with-IsKeyed, ofb_encrypt_lem}

-- A call on a context, whatever it returns.
pub data Step (c : Ofb) (c' : Ofb) : Type 0 where
  encrypts : (inp out : List ℕ) → encrypt c inp ≡ some (out, c') → Step c c'
  finals : (inp out : List ℕ) → final c inp ≡ some (length inp, out, c') → Step c c'
  renews : (iv : List ℕ) (status : Status) → set_iv iv c ≡ (status, c') → Step c c'
  resets : (status : Status) → reset c ≡ (status, c') → Step c c'

pub data Reach (c : Ofb) : Ofb → Type 0 where
  here : Reach c c
  next : {t u : Ofb} → Reach c t → Step t u → Reach c u

-- A cipher whose blocks fit the arrays of a context.
pub record IsRoomy (e : BlockCipher) (c : Ofb) : Type 0 where
  pub some_bytes : 0 < e.block_size
  pub array : e.block_size ≤ length c.buf
  pub stored : e.block_size ≤ length c.iv

-- The context that `init` and `set_block` make of the memory `m`.
abbrev pub set_up : BlockCipher → Ofb → Ofb
set_up e m = (set_block (some e) (init m)).1

set_up-IsKeyed : (e : BlockCipher) (m : Ofb) → IsRoomy e m → IsKeyed e (set_up e m)
unfolding set_block init
set_up-IsKeyed e m r = record {
  keyed = refl;
  size = refl;
  array = r.array;
  stored = r.stored;
  used = r.some_bytes;
}

module _ (e : BlockCipher) (c : Ofb) (k : IsKeyed e c) where
  set_iv-IsKeyed : (iv : List ℕ) → IsKeyed e (set_iv iv c).1
  unfolding set_iv
  set_iv-IsKeyed iv = elim (Bool-cases (c.blksize == length iv)) [
    | inr other ↦ rw other k
    | inl same ↦
        let size : length iv ≡ c.blksize = ground arith in
        let room = k.array in
        let room' = k.stored in
        let kept = overwrite-length c.buf 0 iv (omega arith) in
        let kept' = overwrite-length c.iv 0 iv (omega arith) in
        rw same (record {
          keyed = k.keyed;
          size = k.size;
          array = omega arith;
          stored = omega arith;
          used = k.used;
        })
  ]

  -- `boff` set to 0 in a keyed context.
  rewound-IsKeyed : IsKeyed e (record c { boff = 0 })
  rewound-IsKeyed =
      let u = k.used in
      record {
        keyed = k.keyed;
        size = k.size;
        array = k.array;
        stored = k.stored;
        used = omega arith;
      }

rewind-IsKeyed :
    (e : BlockCipher) (status : Status) (c : Ofb) → IsKeyed e c → IsKeyed e (rewind status c).1
unfolding rewind
rewind-IsKeyed e ok c k = rewound-IsKeyed e c k
rewind-IsKeyed e (failure n) c k = k
rewind-IsKeyed e (unsigned n) c k = k

reset-IsKeyed : (e : BlockCipher) (c : Ofb) → IsKeyed e c → IsKeyed e (reset c).1
unfolding reset
reset-IsKeyed e c k =
    rewind-IsKeyed e (set_iv (take c.blksize c.iv) c).0 (set_iv (take c.blksize c.iv) c).1
      (set_iv-IsKeyed e c k (take c.blksize c.iv))

-- What `encrypt` leaves is what `encrypt_with` leaves.
encrypt_left :
    (e : BlockCipher) (c c' : Ofb) (inp out : List ℕ)
    → IsKeyed e c
    → encrypt c inp ≡ some (out, c')
    → (encrypt_with e c inp).1 ≡ c'
encrypt_left e c c' inp out k h =
    ap (λ r. elim r [ none ↦ c | some (o, t) ↦ t ]) (sym (keyed_lem e c k inp) ∙ h)

final_left :
    (e : BlockCipher) (c c' : Ofb) (inp out : List ℕ)
    → IsKeyed e c
    → final c inp ≡ some (length inp, out, c')
    → (encrypt_with e c inp).1 ≡ c'
unfolding final
final_left e c c' inp out k h =
    ap (λ r. elim r [ none ↦ c | some (n, o, t) ↦ t ])
      (sym (
          ap (λ r. elim r [ none ↦ none | some (o, t) ↦ some (length inp, o, t) ])
            (keyed_lem e c k inp))
        ∙ h)

Step-IsKeyed : (e : BlockCipher) (c c' : Ofb) → Step c c' → IsKeyed e c → IsKeyed e c'
Step-IsKeyed e c c' (encrypts inp out h) k =
    rw (← encrypt_left e c c' inp out k h) (encrypt_with-IsKeyed e c k inp)
Step-IsKeyed e c c' (finals inp out h) k =
    rw (← final_left e c c' inp out k h) (encrypt_with-IsKeyed e c k inp)
Step-IsKeyed e c c' (renews iv status h) k = rw (← ap (λ r. r.1) h) (set_iv-IsKeyed e c k iv)
Step-IsKeyed e c c' (resets status h) k = rw (← ap (λ r. r.1) h) (reset-IsKeyed e c k)

-- As many bytes are written as read.
written_length :
    (e : BlockCipher) (c : Ofb) (inp : List ℕ)
    → IsKeyed e c
    → length (encrypt_with e c inp).0 ≡ length inp
unfolding next_block
written_length e c inp k =
    let s = cursor c.blksize (front_of c) in
    ap (λ r. elim r [ none ↦ length inp | some (o, t) ↦ length o ])
      (sym (keyed_lem e c k inp) ∙ ofb_encrypt_lem e c inp k)
    ∙ length-outputs c.blksize (next_block e) s inp

Reach-IsKeyed : (e : BlockCipher) {c t : Ofb} → IsKeyed e c → Reach c t → IsKeyed e t
Reach-IsKeyed e k here = k
Reach-IsKeyed e k (next {t = t} {u = u} r st) = Step-IsKeyed e t u st (Reach-IsKeyed e k r)

-- Once `ofb_setblock` has set a cipher whose blocks fit the arrays, every context that calls of
-- `ofb_encrypt`, `ofb_final`, `ofb_setiv` and `ofb_reset` in any order lead to, those that fail
-- included, answers a message of any length: `ofb_final` returns that length, as many bytes are
-- written, and the context left is one that such calls lead to.
pub ofb_answers :
    (e : BlockCipher) (m c : Ofb) (inp : List ℕ)
    → IsRoomy e m
    → Reach (set_up e m) c
    → (out : List ℕ) × (c' : Ofb) × (final c inp ≡ some (length inp, out, c'))
      × (length out ≡ length inp)
      × Reach (set_up e m) c'
unfolding final encrypt_with
ofb_answers e m c inp roomy r =
    let k = Reach-IsKeyed e (set_up-IsKeyed e m roomy) r in
    let (out, c') = encrypt_with e c inp in
    let answer : final c inp ≡ some (length inp, out, c') =
      ap (λ r. elim r [ none ↦ none | some (o, t) ↦ some (length inp, o, t) ])
        (keyed_lem e c k inp) in
    (out, c', answer, written_length e c inp k, next r (finals inp out answer))
