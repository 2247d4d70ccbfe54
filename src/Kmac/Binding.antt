-- ===== src/Kmac/Binding.antt =====
-- packages/sdk/src/keys/key-generators.ts: what the input of `kmac256` determines.
use darknyx_capstone_project.Base.{
  ◌≢◌, ◌-◌, length-replicate, drop, length-append, inr, drop-append, ==_iff, take, inl, arith,
  append-nil, ◌≤◌, take-append, replicate, append_assoc, Bool-cases, ◌≡◌, ◌==◌, ◌*◌, ◌%◌, ◌<◌, ◌+◌,
  length, if◌then◌else◌, refl, ℕ, zero, suc, [], ◌∷◌, ◌++◌, sym, ap, ◌∙◌,
}
use darknyx_capstone_project.Kmac.Digits.{length-digits, be_value-digits}
use darknyx_capstone_project.Kmac.{
  right_encode, digits, pad_loop, left_encode, kmac_input, encode_string, bytepad,
}
use darknyx_capstone_project.Solana.{text_bytes}
use darknyx_capstone_project.Bytes.{base_pow, be_value, Bytes}

append_injective : (a b r s : Bytes) → length a ≡ length b → a ++ r ≡ b ++ s → (a ≡ b) × (r ≡ s)
append_injective a b r s n e = (
  sym (take-append (length a) a r refl)
      ∙ ap (take (length a)) e
      ∙ take-append (length a) b s (sym n),
  sym (drop-append (length a) a r refl)
      ∙ ap (drop (length a)) e
      ∙ drop-append (length a) b s (sym n),
)

-- The digits with their one exception: zero has the digit 0.
code_of : ℕ → Bytes
code_of x = if x == 0 then 0 ∷ [] else digits x

be_value-code_of : (x : ℕ) → be_value (code_of x) ≡ x
unfolding code_of
be_value-code_of x = elim (Bool-cases (x == 0)) [
  | inl nought ↦ rw nought (sym ((==_iff x 0).0 nought))
  | inr more ↦ rw more (be_value-digits x)
]

length-code_of : (x : ℕ) → x < base_pow 8 → length (code_of x) ≤ 8
unfolding code_of
length-code_of x h = elim (Bool-cases (x == 0)) [
  | inl nought ↦ rw nought (omega arith)
  | inr more ↦ rw more (length-digits 8 x h)
]

left_encode-code_of : (x : ℕ) → x < base_pow 8 → left_encode x ≡ length (code_of x) ∷ code_of x
unfolding left_encode code_of
left_encode-code_of x h = elim (Bool-cases (x == 0)) [
  | inl nought ↦ rw nought
  | inr more ↦
      let small : length (digits x) % 256 ≡ length (digits x) =
        omega (arith, length-digits 8 x h) in
      rw more (rw small)
]

left_encode-append :
    (x y : ℕ) (r s : Bytes)
    → x < base_pow 8
    → y < base_pow 8
    → left_encode x ++ r ≡ left_encode y ++ s
    → (x ≡ y) × (r ≡ s)
left_encode-append x y r s hx hy e =
    let whole : length (code_of x) ∷ (code_of x ++ r) ≡ length (code_of y) ∷ (code_of y ++ s) =
      sym (ap (λ t. t ++ r) (left_encode-code_of x hx))
      ∙ e
      ∙ ap (λ t. t ++ s) (left_encode-code_of y hy) in
    let sizes : length (code_of x) ≡ length (code_of y) = cc in
    let rest : code_of x ++ r ≡ code_of y ++ s = cc in
    let (codes, tails) = append_injective (code_of x) (code_of y) r s sizes rest in
    (sym (be_value-code_of x) ∙ ap be_value codes ∙ be_value-code_of y, tails)

-- An encoded string is a prefix code.
pub encode_string-append :
    (a b r s : Bytes)
    → length a * 8 < base_pow 8
    → length b * 8 < base_pow 8
    → encode_string a ++ r ≡ encode_string b ++ s
    → (a ≡ b) × (r ≡ s)
unfolding encode_string
encode_string-append a b r s ha hb e =
    let (bits, rest) = left_encode-append (length a * 8) (length b * 8) (a ++ r) (b ++ s) ha hb (
      sym (append_assoc (left_encode (length a * 8)) a r)
      ∙ e
      ∙ append_assoc (left_encode (length b * 8)) b s) in
    append_injective a b r s (omega arith) rest

-- The zeros that the padding loop adds to `n` bytes.
pad_size : ℕ → ℕ → ℕ → ℕ
pad_size zero w n = 0
pad_size (suc fuel) w n = let rest = suc (pad_size fuel w (n + 1)) in if n % w == 0 then 0 else rest

pad_loop-pad_size :
    (fuel w : ℕ) (out : Bytes)
    → pad_loop fuel w out ≡ out ++ replicate (pad_size fuel w (length out)) 0
unfolding pad_loop pad_size
pad_loop-pad_size zero w out = sym (append-nil out)
pad_loop-pad_size (suc fuel) w out = elim (Bool-cases (length out % w == 0)) [
  | inl done ↦ rw done (sym (append-nil out))
  | inr more ↦ rw more (
      pad_loop-pad_size fuel w (out ++ 0 ∷ [])
      ∙ ap (λ n. (out ++ 0 ∷ []) ++ replicate (pad_size fuel w n) 0) (length-append out (0 ∷ []))
      ∙ append_assoc out (0 ∷ []) (replicate (pad_size fuel w (length out + 1)) 0))
]

-- What stands behind padded content is found by the content alone.
bytepad-append :
    (x y r s : Bytes) (w : ℕ)
    → ((r' s' : Bytes) → x ++ r' ≡ y ++ s' → (x ≡ y) × (r' ≡ s'))
    → bytepad x w ++ r ≡ bytepad y w ++ s
    → (x ≡ y) × (r ≡ s)
unfolding bytepad
bytepad-append x y r s w prefix e =
    let zeros_of : Bytes → Bytes = λ z. replicate (pad_size w w (length (left_encode w ++ z))) 0 in
    let parts : (z t : Bytes)
        → pad_loop w w (left_encode w ++ z) ++ t ≡ left_encode w ++ (z ++ (zeros_of z ++ t)) =
      λ z t.
        ap (λ p. p ++ t) (pad_loop-pad_size w w (left_encode w ++ z))
        ∙ append_assoc (left_encode w ++ z) (zeros_of z) t
        ∙ append_assoc (left_encode w) z (zeros_of z ++ t) in
    let (_, inner) =
      append_injective (left_encode w) (left_encode w) (x ++ (zeros_of x ++ r))
        (y ++ (zeros_of y ++ s)) refl (sym (parts x r) ∙ e ∙ parts y s) in
    let (same, behind) = prefix (zeros_of x ++ r) (zeros_of y ++ s) inner in
    let sizes : length (zeros_of x) ≡ length (zeros_of y) = ap (λ z. length (zeros_of z)) same in
    (same, (append_injective (zeros_of x) (zeros_of y) r s sizes behind).1)

-- For one output length, the bytes that `kmac256` gives to SHAKE256 determine the key, the customisation
-- and the message, where key and customisation have below 2 ^ 64 bits.
pub kmac_input_injective :
    (key key' custom custom' message message' : Bytes) (out_len : ℕ)
    → length key * 8 < base_pow 8
    → length key' * 8 < base_pow 8
    → length custom * 8 < base_pow 8
    → length custom' * 8 < base_pow 8
    → kmac_input key custom message out_len ≡ kmac_input key' custom' message' out_len
    → (key ≡ key') × (custom ≡ custom') × (message ≡ message')
unfolding kmac_input
kmac_input_injective key key' custom custom' message message' out_len hk hk' hc hc' e =
    let name : Bytes = encode_string (text_bytes "KMAC") in
    let tail : Bytes → Bytes = λ m. m ++ right_encode (out_len * 8) in
    let (header, rest) =
      bytepad-append (name ++ encode_string custom) (name ++ encode_string custom')
        (bytepad (encode_string key) 136 ++ tail message)
        (bytepad (encode_string key') 136 ++ tail message') 136
        (λ r s h.
          let (_, inner) =
            append_injective name name (encode_string custom ++ r) (encode_string custom' ++ s) refl
              (sym (append_assoc name (encode_string custom) r)
                ∙ h
                ∙ append_assoc name (encode_string custom') s) in
          let (same, behind) = encode_string-append custom custom' r s hc hc' inner in
          (ap (λ c. name ++ encode_string c) same, behind))
        e in
    let (_, customs) =
      append_injective name name (encode_string custom) (encode_string custom') refl header in
    let (keys, behind) =
      bytepad-append (encode_string key) (encode_string key') (tail message) (tail message') 136
        (λ r s h.
          let (same, after) = encode_string-append key key' r s hk hk' h in
          (ap encode_string same, after))
        rest in
    (
      (encode_string-append key key' [] [] hk hk' (ap (λ t. t ++ []) keys)).0,
      (encode_string-append custom custom' [] [] hc hc' (ap (λ t. t ++ []) customs)).0,
      (append_injective message message' (right_encode (out_len * 8)) (right_encode (out_len * 8))
          (omega (
            arith,
            ap (length {0} {A = ℕ}) behind,
            length-append message (right_encode (out_len * 8)),
            length-append message' (right_encode (out_len * 8)),
          ))
          behind).0,
    )

pad_size_enough : (fuel n : ℕ) → (136 - n % 136) % 136 ≤ fuel → (n + pad_size fuel 136 n) % 136 ≡ 0
unfolding pad_size
pad_size_enough zero n h = omega arith
pad_size_enough (suc fuel) n h = elim (Bool-cases (n % 136 == 0)) [
  | inl done ↦ rw done (omega (arith, (==_iff (n % 136) 0).0 done))
  | inr more ↦
      let apart : n % 136 ≢ 0 = ground arith in
      rw more (omega (arith, pad_size_enough fuel (n + 1) (omega (arith, apart))))
]

-- The padding loop fills whole blocks of SHAKE256: its fuel suffices.
pub length-bytepad : (x : Bytes) → length (bytepad x 136) % 136 ≡ 0
unfolding bytepad
length-bytepad x =
    let out : Bytes = left_encode 136 ++ x in
    omega (
      arith,
      ap (length {0} {A = ℕ}) (pad_loop-pad_size 136 136 out),
      length-append out (replicate (pad_size 136 136 (length out)) 0),
      length-replicate {A = ℕ} (pad_size 136 136 (length out)) 0,
      pad_size_enough 136 (length out) (omega arith),
    )
