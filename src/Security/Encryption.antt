-- ===== src/Security/Encryption.antt =====
-- What the envelopes of libs/veripay_common/veripay_common/security.py guarantee: the stream has the
-- length that is asked for, decryption undoes encryption, and what decrypts is authentic.
use Prim.Native.Nat.{bit_xor}
use veri_pay.Common.{
  >>=-eq-ok, All, All-append, Bool-cases, List, [], ap, arith, false, guard, inl, inr, length,
  length-append, ltb, ltb→lt, lt→ltb, ok, refl, suc, true, zero, ℕ, ◌*◌, ◌++◌, ◌+◌, ◌>>◌, ◌∙◌, ◌∷◌,
  ◌≡◌, ◌≤◌,
}
use veri_pay.Common.Bits.{IsByte, bit_xor-IsByte, bit_xor_twice}
use veri_pay.Security.{Crypto, b64encode}
use veri_pay.Security.Envelope.{
  EncryptedEnvelope, Encryptor, block, counter_limit, empty_field, encrypt, stream, stream_loop,
  take, to_bytes, valid_envelope, xor_bytes,
}

-- HMAC-SHA256 returns 32 bytes.
pub record IsSha256 (c : Crypto) : Type 0 where
  pub digest_length : (k m : List ℕ) → length (c.hmac_sha256 k m) ≡ 32
  pub digest_bytes : (k m : List ℕ) → All IsByte (c.hmac_sha256 k m)

length-take : (n : ℕ) (xs : List ℕ) → n ≤ length xs → length (take n xs) ≡ n
length-take zero xs h = refl
length-take (suc n) [] h = absurd (omega arith)
length-take (suc n) (x ∷ xs) h = omega (arith, length-take n xs (omega arith))

take-All : (n : ℕ) (xs : List ℕ) → All IsByte xs → All IsByte (take n xs)
take-All zero xs h = tt
take-All (suc n) [] h = tt
take-All (suc n) (x ∷ xs) h = (h.0, take-All n xs h.1)

-- Of two sequences of one length the exclusive or exists, consists of bytes, and is undone by
-- itself.
pub xor_bytes_twice :
    (xs ys : List ℕ)
    → length xs ≡ length ys
    → All IsByte xs
    → All IsByte ys
    → (zs : List ℕ) × (xor_bytes xs ys ≡ ok zs)
      × (length zs ≡ length xs)
      × All IsByte zs
      × (xor_bytes zs ys ≡ ok xs)
xor_bytes_twice [] [] e h g = ([], refl, refl, tt, refl)
xor_bytes_twice [] (y ∷ ys) e h g = absurd (omega (arith, e))
xor_bytes_twice (x ∷ xs) [] e h g = absurd (omega (arith, e))
xor_bytes_twice (x ∷ xs) (y ∷ ys) e h g =
    let (zs, there, long, bytes, back) = xor_bytes_twice xs ys (omega (arith, e)) h.1 g.1 in
    (
      bit_xor x y ∷ zs,
      rw there refl,
      omega (arith, long),
      (bit_xor-IsByte x y h.0 g.0, bytes),
      rw (back, bit_xor_twice x y h.0 g.0) refl,
    )

-- The sequences have one length where the exclusive or exists.
pub xor_bytes-length : (xs ys zs : List ℕ) → xor_bytes xs ys ≡ ok zs → length zs ≡ length xs
xor_bytes-length [] [] zs h = ground arith
xor_bytes-length [] (y ∷ ys) zs h = absurd (ground arith)
xor_bytes-length (x ∷ xs) [] zs h = absurd (ground arith)
xor_bytes-length (x ∷ xs) (y ∷ ys) zs h =
    let (rest, there, e) =
      >>=-eq-ok (xor_bytes xs ys) (λ (rest : List ℕ). ok (bit_xor x y ∷ rest)) h in
    let shorter = xor_bytes-length xs ys rest there in ground arith

module _ (c : Crypto) (laws : IsSha256 c) (e : Encryptor) where
  -- The loop stops: with a digest in each round it takes at most as many rounds as bytes are missing.
  stream_loop-ok :
      (n : ℕ) (nonce : List ℕ) (size counter : ℕ) (output : List ℕ)
      → length output ≡ 32 * counter
      → All IsByte output
      → size ≤ length output + n
      → size ≤ 32 * counter_limit
      → (keys : List ℕ) × (stream_loop c e (suc n) nonce size counter output ≡ ok keys)
        × (length keys ≡ size)
        × All IsByte keys
  unfolding stream_loop
  stream_loop-ok zero nonce size counter output l b h g =
      let full : ltb (length output) size ≡ false = ground arith in
      (
        take size output,
        rw full refl,
        length-take size output (omega (arith, h)),
        take-All size output b,
      )
  stream_loop-ok (suc n) nonce size counter output l b h g =
      elim (Bool-cases (ltb (length output) size)) [
        | inr full ↦ (
          take size output,
          rw full refl,
          length-take size output (ground arith),
          take-All size output b,
        )
        | inl more ↦
            let next = block c e nonce counter in
            let digest = laws.digest_length e.secret (nonce ++ to_bytes counter) in
            let longer : length (output ++ next) ≡ length output + 32 =
              length-append output next ∙ ap (λ m. length output + m) digest in
            let (keys, there, long, bytes) =
              stream_loop-ok n nonce size (counter + 1) (output ++ next) (omega (arith, longer, l))
                (All-append IsByte output next b
                  (laws.digest_bytes e.secret (nonce ++ to_bytes counter)))
                (omega (arith, longer, h)) g in
            let less = ltb→lt (length output) size more in
            let fits : ltb counter counter_limit ≡ true =
              lt→ltb counter counter_limit (omega (arith, less, l, g)) in
            (keys, rw (more, fits) there, long, bytes)
      ]

  -- Up to 2 ^ 37 bytes `_stream` ends, raises nothing and returns exactly the bytes that were asked
  -- for.
  pub stream-ok :
      (nonce : List ℕ) (size : ℕ)
      → size ≤ 137438953472
      → (keys : List ℕ) × (stream c e nonce size ≡ ok keys) × (length keys ≡ size) × All IsByte keys
  unfolding stream
  stream-ok nonce size g =
      stream_loop-ok size nonce size 0 [] (omega arith) tt (omega arith) (omega (arith, g))

  -- The envelope of a ciphertext.
  abbrev pub sealed : List ℕ → List ℕ → EncryptedEnvelope
  sealed nonce ciphertext = record {
    key_id = e.key_id;
    nonce = b64encode c nonce;
    ciphertext = b64encode c ciphertext;
    authentication_tag = b64encode c (c.hmac_sha256 e.secret (nonce ++ ciphertext));
  }

  pub encrypt_lem :
      (nonce payload keys ciphertext : List ℕ)
      → stream c e nonce (length payload) ≡ ok keys
      → xor_bytes payload keys ≡ ok ciphertext
      → encrypt c e nonce payload ≡ (
          guard (valid_envelope (sealed nonce ciphertext)) empty_field
          >> ok (sealed nonce ciphertext))
  unfolding encrypt
  encrypt_lem nonce payload keys ciphertext h g = rw (h, encrypt) (rw g refl)
