-- ===== src/Decimal.antt =====
-- strconv.Itoa and strconv.Atoi of Go, over the native String, for an `int` of 64 bits.
use Prim.Native.Char.{Char, code, len_utf8}
use Prim.Native.String.{len}
use Prim.Native.String.len
use furiko.Prelude.{
  ℕ, zero, suc, ◌+◌, ◌-◌, ◌*◌, ◌/◌, ◌%◌, ◌^◌, ◌<◌, ◌≤◌, ℤ, pos, negsuc, Bool, false, ◌&&◌, ◌||◌,
  Option, none, some, String, ◌≡◌, refl, sym, ap, ◌∙◌, if◌then◌else◌, true, Bool-cases, inl, inr,
  ltb→lt, ltb, leb, ◌==◌, sub_ℕ, arith, IsInt64,
}

abbrev digit : ℕ → Char
digit zero = "0"
digit (suc zero) = "1"
digit (suc (suc zero)) = "2"
digit (suc (suc (suc zero))) = "3"
digit (suc (suc (suc (suc zero)))) = "4"
digit (suc (suc (suc (suc (suc zero))))) = "5"
digit (suc (suc (suc (suc (suc (suc zero)))))) = "6"
digit (suc (suc (suc (suc (suc (suc (suc zero))))))) = "7"
digit (suc (suc (suc (suc (suc (suc (suc (suc zero)))))))) = "8"
digit _ = "9"

-- The digits of a number before a text, for at most as many digits as the fuel says.
unfoldable put_digits : ℕ → ℕ → String → String
put_digits zero n s = s
put_digits (suc k) n s =
    let rest = put_digits k (n / 10) (String.◌∷◌ (digit (n % 10)) s) in
    if ltb n 10 then String.◌∷◌ (digit n) s else rest

-- An `int64` has at most 19 digits.
unfoldable format_nat : ℕ → String
unfolding put_digits
format_nat n = put_digits 19 n String.[]

unfoldable pub itoa : ℤ → String
unfolding format_nat
itoa (pos n) = format_nat n
itoa (negsuc n) = String.◌∷◌ "-" (format_nat (suc n))

-- `none` where a character is no digit.
unfoldable scan : String → ℕ → Option ℕ
scan String.[] n = some n
scan (String.◌∷◌ c s) n =
    let rest = scan s (10 * n + (code c - b'0')) in
    if leb b'0' (code c) && leb (code c) b'9' then rest else none

abbrev scan_digits : String → Option ℕ
scan_digits String.[] = none
scan_digits (String.◌∷◌ c s) = scan (String.◌∷◌ c s) 0

abbrev non_negative : Option ℕ → Option ℤ
non_negative none = none
non_negative (some n) = if ltb n (2 ^ 63) then some (pos n) else none

abbrev negated : Option ℕ → Option ℤ
negated none = none
negated (some n) = if leb n (2 ^ 63) then some (sub_ℕ 0 n) else none

abbrev atoi_signed : Char → String → Option ℤ
atoi_signed c s =
    if code c == b'-'
    then negated (scan_digits s)
    else if code c == b'+'
    then non_negative (scan_digits s)
    else non_negative (scan_digits (String.◌∷◌ c s))

-- `none` is the error, of the syntax or the range.
unfoldable pub atoi : String → Option ℤ
unfolding scan
atoi String.[] = none
atoi (String.◌∷◌ c s) = atoi_signed c s

abbrev pub pow10 : ℕ → ℕ
pow10 zero = 1
pow10 (suc k) = 10 * pow10 k

code-digit : (d : ℕ) → d < 10 → code (digit d) ≡ b'0' + d
code-digit zero h = refl
code-digit (suc zero) h = refl
code-digit (suc (suc zero)) h = refl
code-digit (suc (suc (suc zero))) h = refl
code-digit (suc (suc (suc (suc zero)))) h = refl
code-digit (suc (suc (suc (suc (suc zero))))) h = refl
code-digit (suc (suc (suc (suc (suc (suc zero)))))) h = refl
code-digit (suc (suc (suc (suc (suc (suc (suc zero))))))) h = refl
code-digit (suc (suc (suc (suc (suc (suc (suc (suc zero)))))))) h = refl
code-digit (suc (suc (suc (suc (suc (suc (suc (suc (suc zero))))))))) h = refl
code-digit (suc (suc (suc (suc (suc (suc (suc (suc (suc (suc d)))))))))) h = absurd (omega arith)

scan-digit : (d n : ℕ) (s : String) → d < 10 → scan (String.◌∷◌ (digit d) s) n ≡ scan s (10 * n + d)
unfolding scan
scan-digit d n s h = ground (arith, code-digit d h)

scan-put_digits :
    (k n : ℕ) (s : String) → n < pow10 (suc k) → scan (put_digits (suc k) n s) 0 ≡ scan s n
unfolding put_digits
scan-put_digits zero n s h = ground (arith, scan-digit n 0 s)
scan-put_digits (suc k) n s h = ground (
  arith,
  scan-digit n 0 s,
  scan-digit (n % 10) (n / 10) s,
  scan-put_digits k (n / 10) (String.◌∷◌ (digit (n % 10)) s),
)

-- What is printed begins with a digit.
abbrev BeginsWithDigit : String → Type 0
BeginsWithDigit String.[] = ⊥
BeginsWithDigit (String.◌∷◌ c s) = (b'0' ≤ code c) × (code c ≤ b'9')

put_digits-BeginsWithDigit :
    (k n : ℕ) (s : String) → n < pow10 (suc k) → BeginsWithDigit (put_digits (suc k) n s)
unfolding put_digits
put_digits-BeginsWithDigit zero n s h = ground (arith, code-digit n)
put_digits-BeginsWithDigit (suc k) n s h =
    ground
      (arith, code-digit n, put_digits-BeginsWithDigit k (n / 10) (String.◌∷◌ (digit (n % 10)) s))

atoi-digits : (s : String) → BeginsWithDigit s → atoi s ≡ non_negative (scan s 0)
unfolding atoi
atoi-digits String.[] h = absurd h
atoi-digits (String.◌∷◌ c s) h = ground arith

atoi-minus : (s : String) → BeginsWithDigit s → atoi (String.◌∷◌ "-" s) ≡ negated (scan s 0)
unfolding atoi
atoi-minus String.[] h = absurd h
atoi-minus (String.◌∷◌ c s) h = refl

scan-format_nat : (n : ℕ) → n ≤ 2 ^ 63 → scan (format_nat n) 0 ≡ some n
unfolding format_nat scan
scan-format_nat n h = scan-put_digits 18 n String.[] (omega arith)

format_nat-BeginsWithDigit : (n : ℕ) → n ≤ 2 ^ 63 → BeginsWithDigit (format_nat n)
unfolding format_nat
format_nat-BeginsWithDigit n h = put_digits-BeginsWithDigit 18 n String.[] (omega arith)

-- Every `int` is read back from its print.
pub atoi-itoa : (z : ℤ) → IsInt64 z → atoi (itoa z) ≡ some z
unfolding itoa
atoi-itoa (pos n) h = ground (
  arith,
  atoi-digits (format_nat n) (format_nat-BeginsWithDigit n (ground arith)),
  scan-format_nat n (ground arith),
)
atoi-itoa (negsuc n) h = ground (
  arith,
  atoi-minus (format_nat (suc n)) (format_nat-BeginsWithDigit (suc n) (ground arith)),
  scan-format_nat (suc n) (ground arith),
)

-- What Atoi answers is an int64.
pub atoi-IsInt64 : (s : String) (z : ℤ) → atoi s ≡ some z → IsInt64 z
unfolding atoi
atoi-IsInt64 String.[] z e = absurd (cc)
atoi-IsInt64 (String.◌∷◌ c s) z e = ground arith

some-injective : (a b : ℤ) → Option.some a ≡ some b → a ≡ b
some-injective a b e = cc

pub itoa-injective : (i j : ℤ) → IsInt64 i → IsInt64 j → itoa i ≡ itoa j → i ≡ j
itoa-injective i j fits fits' e =
    some-injective i j (sym (atoi-itoa i fits) ∙ ap atoi e ∙ atoi-itoa j fits')

-- A number below 10^(k+1) is printed with at most k+1 bytes.
len-digit : (d : ℕ) → d < 10 → len_utf8 (digit d) ≡ 1
len-digit zero h = refl
len-digit (suc zero) h = refl
len-digit (suc (suc zero)) h = refl
len-digit (suc (suc (suc zero))) h = refl
len-digit (suc (suc (suc (suc zero)))) h = refl
len-digit (suc (suc (suc (suc (suc zero))))) h = refl
len-digit (suc (suc (suc (suc (suc (suc zero)))))) h = refl
len-digit (suc (suc (suc (suc (suc (suc (suc zero))))))) h = refl
len-digit (suc (suc (suc (suc (suc (suc (suc (suc zero)))))))) h = refl
len-digit (suc (suc (suc (suc (suc (suc (suc (suc (suc zero))))))))) h = refl
len-digit (suc (suc (suc (suc (suc (suc (suc (suc (suc (suc d)))))))))) h = absurd (omega arith)

len-digit_cons : (d : ℕ) (s : String) → d < 10 → len (String.◌∷◌ (digit d) s) ≡ 1 + len s
len-digit_cons d s h = len.cons (digit d) s ∙ ap (λ n. n + len s) (len-digit d h)

put_digits-step :
    (m n : ℕ) (s : String)
    → put_digits (suc m) n s ≡ (
        if ltb n 10
        then String.◌∷◌ (digit n) s
        else put_digits m (n / 10) (String.◌∷◌ (digit (n % 10)) s))
unfolding put_digits
put_digits-step m n s = refl

len-put_digits :
    (m k n : ℕ) (s : String) → n < pow10 (suc k) → len (put_digits m n s) ≤ suc k + len s
unfolding put_digits
len-put_digits zero k n s h = omega arith
len-put_digits (suc m) zero n s h =
    let small : ltb n 10 ≡ true = ground arith in rw (small) (omega (arith, len-digit_cons n s h))
len-put_digits (suc m) (suc k) n s h = elim (Bool-cases (ltb n 10)) [
  | inl small ↦ rw (small) (omega (arith, len-digit_cons n s (ltb→lt n 10 small)))
  | inr large ↦ rw (large) (
      omega (
        arith,
        len-digit_cons (n % 10) s (omega arith),
        len-put_digits m k (n / 10) (String.◌∷◌ (digit (n % 10)) s) (omega arith),
      ))
]

pub len-itoa : (k n : ℕ) → n < pow10 (suc k) → len (itoa (pos n)) ≤ suc k
unfolding itoa format_nat
len-itoa k n h = ground (arith, len-put_digits 19 k n String.[] h)

abbrev pub has_dot : String → Bool
has_dot String.[] = false
has_dot (String.◌∷◌ c s) = code c == b'.' || has_dot s

put_digits-has_dot :
    (k n : ℕ) (s : String)
    → n < pow10 (suc k)
    → has_dot s ≡ false
    → has_dot (put_digits (suc k) n s) ≡ false
unfolding put_digits
put_digits-has_dot zero n s h plain = ground (arith, code-digit n)
put_digits-has_dot (suc k) n s h plain = ground (
  arith,
  code-digit n,
  code-digit (n % 10),
  put_digits-has_dot k (n / 10) (String.◌∷◌ (digit (n % 10)) s),
)

-- The print of an `int` has no point.
pub itoa-has_dot : (z : ℤ) → IsInt64 z → has_dot (itoa z) ≡ false
unfolding itoa format_nat
itoa-has_dot (pos n) h = put_digits-has_dot 18 n String.[] (ground arith) refl
itoa-has_dot (negsuc n) h = put_digits-has_dot 18 (suc n) String.[] (ground arith) refl
