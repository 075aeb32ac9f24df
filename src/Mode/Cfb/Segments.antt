-- ===== src/Mode/Cfb/Segments.antt =====
-- The segments of a message, encrypted and then decrypted: the message comes back, and both sides have
-- fed back the same bytes.
use drew.Prelude.{
  ℕ, zero, suc, ◌≤◌, ◌<◌, ◌≡◌, refl, sym, ap, ap₂, ◌∙◌, ◌⊎◌, inl, inr, Bool, true, false, List, [],
  ◌∷◌, ◌++◌, length, take, drop, leb, ◌==◌, if◌then◌else◌, length-append, length-take, length-drop,
  take-append-drop, arith,
}
use drew.Util.Endian.Laws.{take-append_self, drop-append_self, take-whole}
use drew.Util.Rotate.{sub_word}
use drew.Util.Memory.{overwrite, take-overwrite_front}
use drew.Util.Keystream.{xor_bytes}
use drew.Util.Keystream.Bytes.{length-xor_bytes, xor_bytes_cancel_left}
use drew.Block.Interface.{BlockCipher}
use drew.Mode.Cfb.{Feedback, Written, refill, encrypt_segment, decrypt_segment, finish, segments}

module _ (e : BlockCipher) (n f : ℕ) (same : n ≡ e.block_size) (pos : 0 < f) (fits : f ≤ n) where
  -- The keystream of a segment, which hangs on `prev` only.
  pub stream :
      (m : ℕ) (s : Feedback)
      → m ≤ n
      → take m (refill e n f s).buf ≡ take m (e.encrypt (take n s.prev))
  unfolding refill
  stream m s h =
      let block = e.length-encrypt (take n s.prev) in
      take-overwrite_front m s.buf (e.encrypt (take n s.prev)) (omega arith)

  pub segment-length :
      (m : ℕ) (s : Feedback) (inp : List ℕ)
      → m ≤ n
      → m ≤ length inp
      → length (encrypt_segment e n f m s inp).0 ≡ m
  unfolding encrypt_segment
  segment-length m s inp h l =
      let block = e.length-encrypt (take n s.prev) in
      let taken : length (take m inp) ≡ m = omega (arith, length-take m inp) in
      ap (λ t. length (xor_bytes t (take m inp))) (stream m s h)
      ∙ length-xor_bytes (take m (e.encrypt (take n s.prev))) (take m inp)
          (omega (arith, length-take m (e.encrypt (take n s.prev))))
      ∙ taken

  -- One segment there and back.
  segment_undo :
      (m : ℕ) (s t : Feedback) (inp : List ℕ)
      → m ≤ n
      → m ≤ length inp
      → t.prev ≡ s.prev
      → (let r = encrypt_segment e n f m s inp in
          ((out : List ℕ) → take m out ≡ r.0 → (decrypt_segment e n f m t out).0 ≡ take m inp)
          × ((out : List ℕ) → take m out ≡ r.0 → (decrypt_segment e n f m t out).1.prev ≡ r.1.prev))
  unfolding encrypt_segment decrypt_segment refill
  segment_undo m s t inp h l p =
      let block = e.length-encrypt (take n s.prev) in
      let taken : length (take m inp) ≡ m = omega (arith, length-take m inp) in
      let keys : List ℕ = take m (e.encrypt (take n s.prev)) in
      let keys_size : length keys ≡ length (take m inp) =
        omega (arith, length-take m (e.encrypt (take n s.prev))) in
      let same_keys : take m (refill e n f t).buf ≡ keys =
        stream m t h ∙ ap (λ x. take m (e.encrypt (take n x))) p in
      (
        λ out q.
            ap₂ xor_bytes same_keys (q ∙ ap (λ x. xor_bytes x (take m inp)) (stream m s h))
            ∙ xor_bytes_cancel_left keys (take m inp) keys_size,
        λ out q.
            ap₂
              (λ x y.
                overwrite (overwrite x 0 (take (sub_word 64 n f) (drop f x))) (sub_word 64 n f) y)
              p q,
      )

  -- What was encrypted from `s`, and what was decrypted from `t`.
  pub record IsRestored (r v : Written) (inp : List ℕ) : Type 0 where
    pub size : length r.out ≡ length inp
    pub message : v.out ≡ inp
    pub fed_back : v.arrays.prev ≡ r.arrays.prev
    pub offset : v.boff ≡ r.boff

  none_left : (xs : List ℕ) → length xs ≡ 0 → xs ≡ []
  none_left [] h = refl
  none_left (x ∷ xs) h = absurd (omega arith)

  pub finish_none :
      (segment : ℕ → Feedback → List ℕ → List ℕ × Feedback) (o : ℕ) (s : Feedback) (inp : List ℕ)
      → length inp ≡ 0
      → finish segment o s inp ≡ record { out = []; arrays = s; boff = o }
  unfolding finish
  finish_none segment o s inp h = let go : (length inp == 0) ≡ true = ground arith in rw go refl

  finish_some :
      (segment : ℕ → Feedback → List ℕ → List ℕ × Feedback) (o m : ℕ) (s : Feedback) (inp : List ℕ)
      → length inp ≡ m
      → 0 < m
      → finish segment o s inp
        ≡ record { out = (segment m s inp).0; arrays = (segment m s inp).1; boff = m }
  unfolding finish
  finish_some segment o m s inp h p =
      let go : (length inp == 0) ≡ false = ground arith in
      ap
        (λ (b : Bool). if b then record { out = []; arrays = s; boff = o } else record {
          out = (segment (length inp) s inp).0;
          arrays = (segment (length inp) s inp).1;
          boff = length inp;
        })
        go
      ∙ ap (λ k. record { out = (segment k s inp).0; arrays = (segment k s inp).1; boff = k }) h

  finish-IsRestored :
      (o : ℕ) (s t : Feedback) (inp : List ℕ)
      → length inp ≤ n
      → t.prev ≡ s.prev
      → IsRestored
          (finish (encrypt_segment e n f) o s inp)
          (finish (decrypt_segment e n f) o t (finish (encrypt_segment e n f) o s inp).out)
          inp
  finish-IsRestored o s t inp h p = elim (none_or_some (length inp)) [
    | inl none ↦
        let E = finish_none (encrypt_segment e n f) o s inp none in
        let D =
          ap (λ x. finish (decrypt_segment e n f) o t x.out) E
          ∙ finish_none (decrypt_segment e n f) o t [] refl in
        record {
          size = ap (λ x. length x.out) E ∙ sym none;
          message = ap (λ x. x.out) D ∙ sym (none_left inp none);
          fed_back = ap (λ x. x.arrays.prev) D ∙ p ∙ sym (ap (λ x. x.arrays.prev) E);
          offset = ap (λ x. x.boff) D ∙ sym (ap (λ x. x.boff) E);
        }
    | inr more ↦
        let m : ℕ = length inp in
        let out : List ℕ = (encrypt_segment e n f m s inp).0 in
        let len : length out ≡ m = segment-length m s inp h (omega arith) in
        let u = segment_undo m s t inp h (omega arith) p in
        let E = finish_some (encrypt_segment e n f) o m s inp refl more in
        let D =
          ap (λ x. finish (decrypt_segment e n f) o t x.out) E
          ∙ finish_some (decrypt_segment e n f) o m t out len more in
        let all : take m out ≡ out = take-whole m out len in
        record {
          size = ap (λ x. length x.out) E ∙ len;
          message = ap (λ x. x.out) D ∙ u.0 out all ∙ take-whole m inp refl;
          fed_back = ap (λ x. x.arrays.prev) D ∙ u.1 out all ∙ sym (ap (λ x. x.arrays.prev) E);
          offset = ap (λ x. x.boff) D ∙ sym (ap (λ x. x.boff) E);
        }
  ]
    where
      none_or_some : (x : ℕ) → (x ≡ 0) ⊎ (0 < x)
      none_or_some x = omega arith

  -- The loop, at a message shorter than a segment and at a longer one.
  pub short :
      (segment : ℕ → Feedback → List ℕ → List ℕ × Feedback) (fuel o : ℕ) (s : Feedback)
      (inp : List ℕ)
      → length inp < f
      → segments e n f segment fuel o s inp ≡ finish segment o s inp
  unfolding segments
  short segment zero o s inp h = refl
  short segment (suc fuel) o s inp h =
      let stop : leb f (length inp) ≡ false = ground arith in rw stop refl

  pub long :
      (segment : ℕ → Feedback → List ℕ → List ℕ × Feedback) (fuel o : ℕ) (s : Feedback)
      (inp : List ℕ)
      → f ≤ length inp
      → (let r = segments e n f segment fuel o (segment f s inp).1 (drop f inp) in
          segments e n f segment (suc fuel) o s inp
          ≡ record r { out = (segment f s inp).0 ++ r.out })
  unfolding segments
  long segment fuel o s inp h = let go : leb f (length inp) ≡ true = ground arith in rw go refl

  -- A message that is restored by either number of rounds, from either arrays.
  abbrev Restores : ℕ → ℕ → ℕ → Feedback → Feedback → List ℕ → Type 0
  Restores fuel more o s t inp =
      let r = segments e n f (encrypt_segment e n f) fuel o s inp in
      IsRestored r (segments e n f (decrypt_segment e n f) more o t r.out) inp

  short-Restores :
      (fuel more o : ℕ) (s t : Feedback) (inp : List ℕ)
      → length inp < f
      → t.prev ≡ s.prev
      → Restores fuel more o s t inp
  short-Restores fuel more o s t inp less same_prev =
      let r = finish (encrypt_segment e n f) o s inp in
      let F = finish-IsRestored o s t inp (omega arith) same_prev in
      let E = short (encrypt_segment e n f) fuel o s inp less in
      let size = F.size in
      let D =
        ap (λ x. segments e n f (decrypt_segment e n f) more o t x.out) E
        ∙ short (decrypt_segment e n f) more o t r.out (omega arith) in
      record {
        size = ap (λ x. length x.out) E ∙ F.size;
        message = ap (λ x. x.out) D ∙ F.message;
        fed_back = ap (λ x. x.arrays.prev) D ∙ F.fed_back ∙ sym (ap (λ x. x.arrays.prev) E);
        offset = ap (λ x. x.boff) D ∙ F.offset ∙ sym (ap (λ x. x.boff) E);
      }

  long-Restores :
      (fuel more o : ℕ) (s t : Feedback) (inp : List ℕ)
      → f ≤ length inp
      → t.prev ≡ s.prev
      → ((s' t' : Feedback) → t'.prev ≡ s'.prev → Restores fuel more o s' t' (drop f inp))
      → Restores (suc fuel) (suc more) o s t inp
  long-Restores fuel more o s t inp h same_prev again =
      let out : List ℕ = (encrypt_segment e n f f s inp).0 in
      let len : length out ≡ f = segment-length f s inp fits h in
      let s' = (encrypt_segment e n f f s inp).1 in
      let rest = segments e n f (encrypt_segment e n f) fuel o s' (drop f inp) in
      let all : List ℕ = out ++ rest.out in
      let front : take f all ≡ out = take-append_self f out rest.out len in
      let u = segment_undo f s t inp fits h same_prev in
      let t' = (decrypt_segment e n f f t all).1 in
      let R = again s' t' (u.1 all front) in
      let E = long (encrypt_segment e n f) fuel o s inp h in
      let D =
        ap (λ x. segments e n f (decrypt_segment e n f) (suc more) o t x.out) E
        ∙ long (decrypt_segment e n f) more o t all (omega (arith, length-append out rest.out))
        ∙ ap
            (λ x.
              let v = segments e n f (decrypt_segment e n f) more o t' x in
              record v { out = (decrypt_segment e n f f t all).0 ++ v.out })
            (drop-append_self f out rest.out len) in
      record {
        size =
            ap (λ x. length x.out) E
            ∙ omega (arith, length-append out rest.out, R.size, length-drop f inp);
        message = ap (λ x. x.out) D ∙ ap₂ ◌++◌ (u.0 all front) (R.message) ∙ take-append-drop f inp;
        fed_back = ap (λ x. x.arrays.prev) D ∙ R.fed_back ∙ sym (ap (λ x. x.arrays.prev) E);
        offset = ap (λ x. x.boff) D ∙ R.offset ∙ sym (ap (λ x. x.boff) E);
      }

  short_or_long : (x : ℕ) → (x < f) ⊎ (f ≤ x)
  short_or_long x = omega arith

  pub segments-IsRestored :
      (fuel more o : ℕ) (s t : Feedback) (inp : List ℕ)
      → length inp ≤ fuel
      → length inp ≤ more
      → t.prev ≡ s.prev
      → (let r = segments e n f (encrypt_segment e n f) fuel o s inp in
          IsRestored r (segments e n f (decrypt_segment e n f) more o t r.out) inp)
  segments-IsRestored zero more o s t inp p q k = short-Restores zero more o s t inp (omega arith) k
  segments-IsRestored (suc fuel) zero o s t inp p q k =
      short-Restores (suc fuel) zero o s t inp (omega arith) k
  segments-IsRestored (suc fuel) (suc more) o s t inp p q k = elim (short_or_long (length inp)) [
    | inl less ↦ short-Restores (suc fuel) (suc more) o s t inp less k
    | inr enough ↦ long-Restores fuel more o s t inp enough k (λ s' t' k'.
        segments-IsRestored fuel more o s' t' (drop f inp) (omega (arith, length-drop f inp))
          (omega (arith, length-drop f inp)) k')
  ]
