-- ===== src/Decimal.antt =====
-- strconv.FormatUint in base 10, for the request ids of both channels.
use native.Mathlib.Nat.{pow-suc}
use claude_cowork_service.Base.{
  Bool-cases, Bytes, [], ap, arith, false, if◌then◌else◌, inl, inr, is_empty, length, ltb, refl,
  suc, sym, zero, ℕ, ◌%◌, ◌*◌, ◌+◌, ◌-◌, ◌/◌, ◌<◌, ◌^◌, ◌∙◌, ◌∷◌, ◌≡◌, ◌≤◌,
}

-- The digits of a number in front of `out`; the fuel bounds their number.
emit : ℕ → ℕ → Bytes → Bytes
emit zero n out = out
emit (suc fuel) n out =
    let more = emit fuel (n / 10) ((b'0' + n % 10) ∷ out) in
    if ltb n 10 then (b'0' + n) ∷ out else more

-- A uint64 has at most 20 digits.
unfoldable pub format_uint : ℕ → Bytes
unfolding emit
format_uint n = emit 20 n []

-- The number that digits continue.
value_from : ℕ → Bytes → ℕ
value_from v [] = v
value_from v (c ∷ s) = value_from (v * 10 + (c - b'0')) s

tenth_lt : (fuel n : ℕ) → n < 10 ^ suc fuel → n / 10 < 10 ^ fuel
tenth_lt fuel n h = let e = pow-suc 10 fuel in omega arith

digit_value : (n : ℕ) → 0 * 10 + (b'0' + n - b'0') ≡ n
digit_value n = omega arith

value_from-emit :
    (fuel n : ℕ) (out : Bytes) → n < 10 ^ fuel → value_from 0 (emit fuel n out) ≡ value_from n out
unfolding emit value_from
value_from-emit zero n out h = let e : n ≡ 0 = omega arith in rw e refl
value_from-emit (suc fuel) n out h = elim (Bool-cases (ltb n 10)) [
  | inl small ↦ rw small (ap (λ m. value_from m out) (digit_value n))
  | inr large ↦ rw large (
      value_from-emit fuel (n / 10) ((b'0' + n % 10) ∷ out) (tenth_lt fuel n h)
      ∙ ap (λ m. value_from m out) (omega arith))
]

-- The decimal text determines the number: two request ids differ.
pub format_uint-injective :
    (m n : ℕ) → m < 2 ^ 64 → n < 2 ^ 64 → format_uint m ≡ format_uint n → m ≡ n
unfolding format_uint value_from
format_uint-injective m n hm hn e =
    sym (value_from-emit 20 m [] (omega arith))
    ∙ ap (value_from 0) e
    ∙ value_from-emit 20 n [] (omega arith)

emit-is_empty : (fuel n c : ℕ) (out : Bytes) → is_empty (emit fuel n (c ∷ out)) ≡ false
unfolding emit is_empty
emit-is_empty zero n c out = refl
emit-is_empty (suc fuel) n c out =
    ground (arith, emit-is_empty fuel (n / 10) (b'0' + n % 10) (c ∷ out))

pub format_uint-is_empty : (n : ℕ) → is_empty (format_uint n) ≡ false
unfolding format_uint is_empty emit
format_uint-is_empty n = ground (arith, emit-is_empty 19 (n / 10) (b'0' + n % 10) [])

length-emit : (fuel n : ℕ) (out : Bytes) → length (emit fuel n out) ≤ fuel + length out
unfolding emit
length-emit zero n out = omega arith
length-emit (suc fuel) n out = ground (arith, length-emit fuel (n / 10) ((b'0' + n % 10) ∷ out))

pub length-format_uint : (n : ℕ) → length (format_uint n) ≤ 20
unfolding format_uint
length-format_uint n = omega (arith, length-emit 20 n [])

-- The number whose text this is, for texts of digits.
unfoldable pub digits_value : Bytes → ℕ
unfolding value_from
digits_value s = value_from 0 s

pub digits_value-format_uint : (n : ℕ) → n < 10 ^ 20 → digits_value (format_uint n) ≡ n
unfolding digits_value format_uint
digits_value-format_uint n h = value_from-emit 20 n [] h
