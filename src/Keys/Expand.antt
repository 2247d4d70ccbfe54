-- ===== src/Keys/Expand.antt =====
-- packages/sdk/src/keys/key-generators.ts: `hkdfExpand` against RFC 5869.
use darknyx_capstone_project.Base.{
  append_assoc, inr, take-append, inl, leb, Bool-cases, length-take, length-append, append-nil, ◌-◌,
  ◌+◌, ◌*◌, arith, ap, ◌≤◌, ◌≡◌, ◌%◌, take, length, refl, ℕ, zero, suc, [], ◌∷◌, ◌++◌, ◌∙◌, sym,
}
use darknyx_capstone_project.Bytes.{zeros, Bytes}
use darknyx_capstone_project.Keys.{hkdf_expand, expand_loop, Crypto}

take_all : (n : ℕ) (xs : Bytes) → length xs ≤ n → take n xs ≡ xs
take_all zero [] h = refl
take_all zero (x ∷ xs) h = absurd (omega arith)
take_all (suc n) [] h = refl
take_all (suc n) (x ∷ xs) h = ap (λ t. x ∷ t) (take_all n xs (omega arith))

take-take-append : (m : ℕ) (b r : Bytes) → take m (take m b ++ r) ≡ take m (b ++ r)
take-take-append zero b r = refl
take-take-append (suc m) [] r = refl
take-take-append (suc m) (x ∷ b) r = ap (λ t. x ∷ t) (take-take-append m b r)

take-append_behind :
    (n m : ℕ) (out ys : Bytes) → n ≡ length out + m → take n (out ++ ys) ≡ out ++ take m ys
take-append_behind n m [] ys h = let same : n ≡ m = omega arith in rw same
take-append_behind zero m (x ∷ out) ys h = absurd (omega arith)
take-append_behind (suc n) m (x ∷ out) ys h =
    ap (λ t. x ∷ t) (take-append_behind n m out ys (omega arith))

module _ (c : Crypto) where
  -- The blocks of RFC 5869, T(i) = HMAC(PRK, T(i - 1) ‖ info ‖ i): `n` of them from block `counter` on,
  -- the block before being `prev`.
  unfoldable pub blocks : Bytes → Bytes → ℕ → Bytes → ℕ → Bytes
  blocks prk info zero prev counter = []
  blocks prk info (suc n) prev counter =
      let block = c.hmac prk (prev ++ (info ++ (counter % 256) ∷ [])) in
      block ++ blocks prk info n block (counter + 1)

  expand_loop-blocks :
      (prk info : Bytes) (len fuel : ℕ) (prev : Bytes) (counter : ℕ) (out : Bytes)
      → length out ≤ len
      → expand_loop c prk info len fuel prev counter out
        ≡ take len (out ++ blocks prk info fuel prev counter)
  unfolding expand_loop blocks
  expand_loop-blocks prk info len zero prev counter out h =
      sym (ap (take len) (append-nil out) ∙ take_all len out h)
  expand_loop-blocks prk info len (suc fuel) prev counter out h =
      let block = c.hmac prk (prev ++ (info ++ (counter % 256) ∷ [])) in
      let more = blocks prk info fuel block (counter + 1) in
      elim (Bool-cases (leb len (length out))) [
        | inl full ↦
            let exact : length out ≡ len = ground arith in
            rw full (sym (take-append len out (block ++ more) exact))
        | inr open_end ↦
            let room : ℕ = len - length out in
            rw open_end (
              expand_loop-blocks prk info len fuel block (counter + 1) (out ++ take room block)
                (omega (arith, length-append out (take room block), length-take room block))
              ∙ ap (take len) (append_assoc out (take room block) more)
              ∙ take-append_behind len room out (take room block ++ more) (omega arith)
              ∙ ap (λ t. out ++ t) (take-take-append room block more)
              ∙ sym (take-append_behind len room out (block ++ more) (omega arith)))
      ]

  length-blocks :
      ((key message : Bytes) → length (c.hmac key message) ≡ 32)
      → (prk info : Bytes) (n : ℕ) (prev : Bytes) (counter : ℕ)
      → length (blocks prk info n prev counter) ≡ n * 32
  unfolding blocks
  length-blocks digest prk info zero prev counter = refl
  length-blocks digest prk info (suc n) prev counter =
      let block = c.hmac prk (prev ++ (info ++ (counter % 256) ∷ [])) in
      omega (
        arith,
        length-append block (blocks prk info n block (counter + 1)),
        digest prk (prev ++ (info ++ (counter % 256) ∷ [])),
        length-blocks digest prk info n block (counter + 1),
      )

  -- HKDF: where HMAC-SHA256 gives 32 bytes, `hkdfExpand` gives as many bytes as it is asked for, and
  -- they are the first ones of the blocks of RFC 5869, extracted with a salt of 32 zeros.
  pub hkdf_expand_lem :
      ((key message : Bytes) → length (c.hmac key message) ≡ 32)
      → (ikm info : Bytes) (len : ℕ)
      → (length (hkdf_expand c ikm info len) ≡ len)
        × (hkdf_expand c ikm info len ≡ take len (blocks (c.hmac (zeros 32) ikm) info len [] 1))
  unfolding hkdf_expand
  hkdf_expand_lem digest ikm info len =
      let prk : Bytes = c.hmac (zeros 32) ikm in
      let e : hkdf_expand c ikm info len ≡ take len (blocks prk info len [] 1) =
        expand_loop-blocks prk info len len [] 1 [] (omega arith) in
      (
        omega (
          arith,
          ap (length {0} {A = ℕ}) e,
          length-take len (blocks prk info len [] 1),
          length-blocks digest prk info len [] 1,
        ),
        e,
      )
