-- ===== src/Shell/RoundTrip.antt =====
-- What src/shell.rs encodes in base64, it decodes again.
use ziran_os.Prelude.{
  ℕ, ◌+◌, ◌*◌, ◌/◌, ◌%◌, ◌<◌, ◌≡◌, refl, ap, ap₂, ◌∙◌, Bool, true, false, none, some, List, [], ◌∷◌,
  ◌++◌, ◌==◌, ltb, if◌then◌else◌, All, length, all_below, all_below-holds, arith,
}
use ziran_os.Shell.Base64.{
  good, b64_val, scan_chunk, chunk_bytes, is_nil, decode_chunks, b64_decode, symbol, b64_encode,
}

-- That `b64_val` gives `n` at its symbol, and that the symbol is no `=`.
reads_back : ℕ → Bool
reads_back n = elim (b64_val (symbol n)) [ none ↦ false | some v ↦ v == n ]

symbol_table : all_below 64 reads_back ≡ true
unfolding all_below reads_back b64_val symbol
symbol_table = refl

no_pad_table : all_below 64 (λ n. if symbol n == b'=' then false else true) ≡ true
unfolding all_below symbol
no_pad_table = refl

b64_val-symbol : (n : ℕ) → n < 64 → b64_val (symbol n) ≡ some n
unfolding reads_back
b64_val-symbol n h = ground (arith, all_below-holds 64 reads_back n symbol_table h)

symbol-pad : (n : ℕ) → n < 64 → (symbol n == b'=') ≡ false
symbol-pad n h = ground (arith, all_below-holds 64 _ n no_pad_table h)

module _ (last : Bool) (j : ℕ) (vals cs : List ℕ) where
  scan_symbol :
      (n : ℕ)
      → n < 64
      → scan_chunk last j 0 vals (symbol n ∷ cs) ≡ scan_chunk last (j + 1) 0 (vals ++ n ∷ []) cs
  unfolding scan_chunk
  scan_symbol n h = ground (arith, b64_val-symbol n h, symbol-pad n h)

scan_pad :
    (j pad : ℕ) (vals cs : List ℕ)
    → ltb j 2 ≡ false
    → scan_chunk true j pad vals (b'=' ∷ cs) ≡ scan_chunk true (j + 1) (pad + 1) (vals ++ 0 ∷ []) cs
unfolding scan_chunk
scan_pad j pad vals cs h = ground (arith, h)

module _ (a b : ℕ) (ha : a < 64) (hb : b < 64) where
  scan_four :
      (last : Bool) (c d : ℕ)
      → c < 64
      → d < 64
      → scan_chunk last 0 0 [] (symbol a ∷ symbol b ∷ symbol c ∷ symbol d ∷ [])
        ≡ good (0, a ∷ b ∷ c ∷ d ∷ [])
  unfolding scan_chunk
  scan_four last c d hc hd =
      scan_symbol last 0 [] (symbol b ∷ symbol c ∷ symbol d ∷ []) a ha
      ∙ scan_symbol last 1 (a ∷ []) (symbol c ∷ symbol d ∷ []) b hb
      ∙ scan_symbol last 2 (a ∷ b ∷ []) (symbol d ∷ []) c hc
      ∙ scan_symbol last 3 (a ∷ b ∷ c ∷ []) [] d hd

  scan_three :
      (c : ℕ)
      → c < 64
      → scan_chunk true 0 0 [] (symbol a ∷ symbol b ∷ symbol c ∷ b'=' ∷ [])
        ≡ good (1, a ∷ b ∷ c ∷ 0 ∷ [])
  unfolding scan_chunk
  scan_three c hc =
      scan_symbol true 0 [] (symbol b ∷ symbol c ∷ b'=' ∷ []) a ha
      ∙ scan_symbol true 1 (a ∷ []) (symbol c ∷ b'=' ∷ []) b hb
      ∙ scan_symbol true 2 (a ∷ b ∷ []) (b'=' ∷ []) c hc
      ∙ scan_pad 3 0 (a ∷ b ∷ c ∷ []) [] refl

  scan_two :
      scan_chunk true 0 0 [] (symbol a ∷ symbol b ∷ b'=' ∷ b'=' ∷ []) ≡ good (2, a ∷ b ∷ 0 ∷ 0 ∷ [])
  unfolding scan_chunk
  scan_two =
      scan_symbol true 0 [] (symbol b ∷ b'=' ∷ b'=' ∷ []) a ha
      ∙ scan_symbol true 1 (a ∷ []) (b'=' ∷ b'=' ∷ []) b hb
      ∙ scan_pad 2 0 (a ∷ b ∷ []) (b'=' ∷ []) refl
      ∙ scan_pad 3 1 (a ∷ b ∷ 0 ∷ []) [] refl

-- Four values of six bits are the digits of their sum.
digits :
    (n : ℕ)
    → n < 16777216
    → n / 262144 % 64 * 262144 + n / 4096 % 64 * 4096 + n / 64 % 64 * 64 + n % 64 ≡ n
digits n h = omega arith

-- What a chunk gives back: as many of the three bytes as were there.
module _ (n : ℕ) (h : n < 16777216) where
  bytes_of_four :
      chunk_bytes 0 (n / 262144 % 64 ∷ n / 4096 % 64 ∷ n / 64 % 64 ∷ n % 64 ∷ [])
      ≡ n / 65536 % 256 ∷ n / 256 % 256 ∷ n % 256 ∷ []
  unfolding chunk_bytes
  bytes_of_four = rw (digits n h) refl

  bytes_of_three :
      n % 64 ≡ 0
      → chunk_bytes 1 (n / 262144 % 64 ∷ n / 4096 % 64 ∷ n / 64 % 64 ∷ 0 ∷ [])
        ≡ n / 65536 % 256 ∷ n / 256 % 256 ∷ []
  unfolding chunk_bytes
  bytes_of_three e =
      let whole : n / 262144 % 64 * 262144 + n / 4096 % 64 * 4096 + n / 64 % 64 * 64 + 0 ≡ n =
        omega arith in
      rw whole refl

  bytes_of_two :
      n % 4096 ≡ 0
      → chunk_bytes 2 (n / 262144 % 64 ∷ n / 4096 % 64 ∷ 0 ∷ 0 ∷ []) ≡ n / 65536 % 256 ∷ []
  unfolding chunk_bytes
  bytes_of_two e =
      let whole : n / 262144 % 64 * 262144 + n / 4096 % 64 * 4096 + 0 + 0 ≡ n = omega arith in
      rw whole refl

decode_chunks-step :
    (a b c d : ℕ) (rest : List ℕ) (pad : ℕ) (vals more : List ℕ)
    → scan_chunk (is_nil rest) 0 0 [] (a ∷ b ∷ c ∷ d ∷ []) ≡ good (pad, vals)
    → decode_chunks rest ≡ good more
    → decode_chunks (a ∷ b ∷ c ∷ d ∷ rest) ≡ good (chunk_bytes pad vals ++ more)
unfolding decode_chunks
decode_chunks-step a b c d rest pad vals more hs hm = rw (hs, hm) refl

decode_chunks-nil : decode_chunks [] ≡ good []
unfolding decode_chunks
decode_chunks-nil = refl

decode_chunks-b64_encode :
    (bs : List ℕ) → All (λ b. b < 256) bs → decode_chunks (b64_encode bs) ≡ good bs
unfolding b64_encode
decode_chunks-b64_encode [] h = decode_chunks-nil
decode_chunks-b64_encode (x ∷ []) (hx, h) =
    let n = x * 65536 in
    let e : n / 65536 % 256 ≡ x = omega arith in
    decode_chunks-step _ _ _ _ [] 2 _ []
      (scan_two (n / 262144 % 64) (n / 4096 % 64) (omega arith) (omega arith)) decode_chunks-nil
    ∙ ap (λ l. good (l ++ [])) (bytes_of_two n (omega arith) (omega arith) ∙ ap (λ k. k ∷ []) e)
decode_chunks-b64_encode (x ∷ y ∷ []) (hx, (hy, h)) =
    let n = x * 65536 + y * 256 in
    let e : n / 65536 % 256 ≡ x = omega arith in
    let e' : n / 256 % 256 ≡ y = omega arith in
    decode_chunks-step _ _ _ _ [] 1 _ []
      (scan_three (n / 262144 % 64) (n / 4096 % 64) (omega arith) (omega arith) (n / 64 % 64)
        (omega arith))
      decode_chunks-nil
    ∙ ap (λ l. good (l ++ []))
        (bytes_of_three n (omega arith) (omega arith) ∙ ap₂ (λ k l. k ∷ l ∷ []) e e')
decode_chunks-b64_encode (x ∷ y ∷ z ∷ rest) (hx, (hy, (hz, h))) =
    let n = x * 65536 + y * 256 + z in
    let e : n / 65536 % 256 ≡ x = omega arith in
    let e' : n / 256 % 256 ≡ y = omega arith in
    let e'' : n % 256 ≡ z = omega arith in
    decode_chunks-step _ _ _ _ (b64_encode rest) 0 _ rest
      (scan_four (n / 262144 % 64) (n / 4096 % 64) (omega arith) (omega arith)
        (is_nil (b64_encode rest)) (n / 64 % 64) (n % 64) (omega arith) (omega arith))
      (decode_chunks-b64_encode rest h)
    ∙ ap (λ l. good (l ++ rest))
        (bytes_of_four n (omega arith)
          ∙ (ap₂ (λ k l. k ∷ l ∷ (n % 256) ∷ []) e e' ∙ ap (λ k. x ∷ y ∷ k ∷ []) e''))

length-b64_encode : (bs : List ℕ) → length (b64_encode bs) % 4 ≡ 0
unfolding b64_encode
length-b64_encode [] = refl
length-b64_encode (x ∷ []) = refl
length-b64_encode (x ∷ y ∷ []) = refl
length-b64_encode (x ∷ y ∷ z ∷ rest) = omega (arith, length-b64_encode rest)

-- Whatever bytes are encoded with padding, any number of them, `b64_decode` gives back those bytes:
-- it refuses no such text, whether its length calls for two `=`, one or none.
pub b64_decode-b64_encode :
    (bs : List ℕ) → All (λ b. b < 256) bs → b64_decode (b64_encode bs) ≡ good bs
unfolding b64_decode
b64_decode-b64_encode bs h = ground (arith, length-b64_encode bs, decode_chunks-b64_encode bs h)
