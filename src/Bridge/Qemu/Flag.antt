-- ===== src/Bridge/Qemu/Flag.antt =====
-- What a minted flag tells apart, and what the log shows of it.
use Prim.Native.Char.{Char, code}
use ziran_os.Prelude.{
  ℕ, zero, suc, ◌-◌, ◌/◌, ◌%◌, ◌<◌, ◌≡◌, ◌↔◌, refl, ap, ap₂, sym, ◌∙◌, String, true, List, [], ◌∷◌,
  All, length, ltb, ◌==◌, ==_iff, if◌then◌else◌, all_below, all_below-holds, arith,
}
use ziran_os.Prelude.Text.{concat, hex, digit, take_text}
use ziran_os.Bridge.Qemu.{mint_flag, logged_length}

abbrev head_of : String → Char
head_of String.[] = "0"
head_of (String.◌∷◌ c s) = c

abbrev drop_text : ℕ → String → String
drop_text zero s = s
drop_text (suc n) String.[] = String.[]
drop_text (suc n) (String.◌∷◌ c s) = drop_text n s

-- The place of a hexadecimal digit among the sixteen.
abbrev value : Char → ℕ
value c = let n : ℕ = code c in if ltb n 58 then n - 48 else n - 87

value_table : all_below 16 (λ n. value (digit n) == n) ≡ true
unfolding all_below
value_table = refl

value-digit : (n : ℕ) → n < 16 → value (digit n) ≡ n
value-digit n h = (==_iff _ n).0 (all_below-holds 16 _ n value_table h)

digit_inj : (m n : ℕ) → m < 16 → n < 16 → digit m ≡ digit n → m ≡ n
digit_inj m n hm hn e = sym (value-digit m hm) ∙ ap value e ∙ value-digit n hn

byte_inj :
    (b c : ℕ)
    → b < 256
    → c < 256
    → digit (b / 16) ≡ digit (c / 16)
    → digit (b % 16) ≡ digit (c % 16)
    → b ≡ c
byte_inj b c hb hc high low = omega (
  arith,
  digit_inj (b / 16) (c / 16) (omega arith) (omega arith) high,
  digit_inj (b % 16) (c % 16) (omega arith) (omega arith) low,
)

hex_inj :
    (bs cs : List ℕ)
    → All (λ b. b < 256) bs
    → All (λ b. b < 256) cs
    → length bs ≡ length cs
    → concat (hex bs) "}" ≡ concat (hex cs) "}"
    → bs ≡ cs
unfolding concat hex
hex_inj [] [] hb hc l e = refl
hex_inj [] (c ∷ cs) hb hc l e = absurd (omega arith)
hex_inj (b ∷ bs) [] hb hc l e = absurd (omega arith)
hex_inj (b ∷ bs) (c ∷ cs) hb hc l e =
    ap₂ ◌∷◌ (byte_inj b c hb.0 hc.0 (ap head_of e) (ap (λ s. head_of (drop_text 1 s)) e))
      (hex_inj bs cs hb.1 hc.1 (omega arith) (ap (drop_text 2) e))

-- Flags minted from as many but other random bytes differ.
pub mint_flag_inj :
    (bs cs : List ℕ)
    → All (λ b. b < 256) bs
    → All (λ b. b < 256) cs
    → length bs ≡ length cs
    → mint_flag bs ≡ mint_flag cs
    → bs ≡ cs
unfolding mint_flag
mint_flag_inj bs cs hb hc l e = hex_inj bs cs hb hc l (ap (drop_text 17) e)

-- The 18 characters of a flag that the log shows are the same for two flags exactly when the first
-- random bytes have the same high half: the log gives away one hexadecimal digit of the secret,
-- and nothing more.
pub logged-mint_flag :
    (b c : ℕ) (bs cs : List ℕ)
    → b < 256
    → c < 256
    → (take_text logged_length (mint_flag (b ∷ bs)) ≡ take_text logged_length (mint_flag (c ∷ cs)))
      ↔ (b / 16 ≡ c / 16)
unfolding mint_flag take_text
logged-mint_flag b c bs cs hb hc = (
  λ e.
      digit_inj (b / 16) (c / 16) (omega arith) (omega arith)
        (ap (λ s. head_of (drop_text 17 s)) e),
  λ e. ap (λ n. take_text 18 (concat "FLAG{ziran-tier2-" (String.◌∷◌ (digit n) String.[]))) e,
)
