-- ===== src/Map/Numbers/Numeral.antt =====
-- Numerals of a fixed number of digits, and what the parser reads off them.
use vscode_delphi_extension.Base.{
  take-append, ℕ, zero, suc, ◌+◌, ◌-◌, ◌*◌, ◌/◌, ◌%◌, ◌^◌, ◌≤◌, ◌<◌, ◌≡◌, ◌≢◌, refl, ◌∙◌, ap, Bool,
  true, false, [], ◌∷◌, ◌++◌, append_assoc, append-nil, ◌==◌, ltb, if◌then◌else◌, Bytes, All,
  All-append, none, some, arith, length, length-append, drop,
}
use native.Mathlib.Nat.{pow-suc, pow-zero}
use vscode_delphi_extension.Map.Text.{find_char, is_ws}
use vscode_delphi_extension.Map.Text.Words.{HasNoGap, IsWord}
use vscode_delphi_extension.Map.Numbers.{digit, digits, from_chars, parse_seg_offset, parse_dec32}

abbrev pub digit_char : ℕ → ℕ
digit_char d = if ltb d 10 then b'0' + d else b'A' + (d - 10)

-- `n` in `k` digits, the most significant one first.
unfoldable pub numeral : ℕ → ℕ → ℕ → Bytes
numeral base zero n = []
numeral base (suc k) n = numeral base k (n / base) ++ digit_char (n % base) ∷ []

digit-digit_char : (base d : ℕ) → base ≤ 36 → d < base → digit base (digit_char d) ≡ some d
unfolding digit
digit-digit_char base d h hd = ground arith

-- What is not a digit.
abbrev pub Ends : ℕ → Bytes → Type 0
Ends base [] = Unit {0}
Ends base (c ∷ s) = digit base c ≡ none

digits-stop : (base n : ℕ) (s : Bytes) → Ends base s → digits base n s ≡ (0, n, s)
unfolding digits
digits-stop base n [] h = refl
digits-stop base n (c ∷ s) h = rw (h, digits)

module _ (base : ℕ) (some_base : 1 < base) (few : base ≤ 36) where
  split_number : (n : ℕ) → (n / base * base + n % base ≡ n) × (n % base < base)
  split_number n = grind arith

  rest_fits : (k n : ℕ) → n < base ^ suc k → n / base < base ^ k
  rest_fits k n h = grind (arith, pow-suc)

  shifted : (acc k n : ℕ) → (acc * base ^ k + n / base) * base + n % base ≡ acc * base ^ suc k + n
  shifted acc k n = grind (arith, pow-suc, split_number)

  digits-numeral :
      (k n acc : ℕ) (s : Bytes)
      → n < base ^ k
      → digits base acc (numeral base k n ++ s)
        ≡ (let (j, v, rest) = digits base (acc * base ^ k + n) s in (k + j, v, rest))
  unfolding numeral digits
  digits-numeral zero n acc s h =
      let e : n ≡ 0 = grind (arith, pow-zero base) in
      let e' : acc * base ^ 0 + n ≡ acc = grind (arith, pow-zero base) in
      rw e' (rw Prim.Native.Nat.add.zero)
  digits-numeral (suc k) n acc s h =
      let d = n % base in
      let behind = digit_char d ∷ s in
      let (sum, small) = split_number n in
      let one : digits base (acc * base ^ k + n / base) behind
          ≡ (let (j, v, rest) = digits base (acc * base ^ suc k + n) s in (j + 1, v, rest)) =
        rw (digit-digit_char base d few small, digits, shifted acc k n) in
      ap (digits base acc) (append_assoc (numeral base k (n / base)) (digit_char d ∷ []) s)
      ∙ digits-numeral k (n / base) acc behind (rest_fits k n h)
      ∙ rw one (ground arith)

  -- A numeral of `k` digits, for a number below the limit of its type.
  pub from_chars-numeral :
      (k n limit old : ℕ) (s : Bytes)
      → 0 < k
      → n < base ^ k
      → n < limit
      → Ends base s
      → from_chars base limit old (numeral base k n ++ s) ≡ (true, n, s)
  unfolding from_chars
  from_chars-numeral k n limit old s hk h small ends =
      rw (digits-numeral k n 0 s h, digits-stop base (0 * base ^ k + n) s ends) (ground arith)

  pub numeral-All :
      (P : ℕ → Type 0) (k n : ℕ)
      → ((d : ℕ) → d < base → P (digit_char d))
      → All P (numeral base k n)
  unfolding numeral
  numeral-All P zero n h = tt
  numeral-All P (suc k) n h =
      All-append P (numeral base k (n / base)) (digit_char (n % base) ∷ [])
        (numeral-All P k (n / base) h) (h (n % base) (split_number n).1, tt)

  pub length-numeral : (k n : ℕ) → length (numeral base k n) ≡ k
  unfolding numeral
  length-numeral zero n = refl
  length-numeral (suc k) n = omega (
    arith,
    length-append {0} (numeral base k (n / base)) (digit_char (n % base) ∷ []),
    length-numeral k (n / base),
  )

  pub numeral-HasNoGap : (k n : ℕ) → HasNoGap (numeral base k n)
  numeral-HasNoGap k n = numeral-All (λ c. is_ws c ≡ false) k n (λ d h. ground arith)

  pub numeral-ne : (k n : ℕ) → 0 < k → numeral base k n ≢ []
  numeral-ne k n h e = absurd (omega (arith, length-numeral k n, ap length e))

pub find_char-append :
    (c : ℕ) (xs ys : Bytes)
    → All (λ x. (x == c) ≡ false) xs
    → find_char c (xs ++ c ∷ ys) ≡ some (length xs)
unfolding find_char
find_char-append c [] ys h = ground arith
find_char-append c (x ∷ xs) ys (hx, h) = ground (arith, hx, find_char-append c xs ys h)

pub drop-append_one : (xs ys : Bytes) (c : ℕ) → drop (length xs + 1) (xs ++ c ∷ ys) ≡ ys
drop-append_one [] ys c = refl
drop-append_one (x ∷ xs) ys c = rw Prim.Native.Nat.add.suc (drop-append_one xs ys c)

-- Hexadecimal numerals of any lengths with a colon between them.
abbrev pub seg_offset : ℕ → ℕ → ℕ → ℕ → Bytes
seg_offset j k segment offset = numeral 16 j segment ++ b':' ∷ numeral 16 k offset

pub seg_offset-IsWord : (j k segment offset : ℕ) → IsWord (seg_offset j k segment offset)
seg_offset-IsWord j k segment offset = (
  nonempty (numeral 16 j segment) (numeral 16 k offset),
  All-append (λ c. is_ws c ≡ false) (numeral 16 j segment) (b':' ∷ numeral 16 k offset)
      (numeral-HasNoGap 16 (omega arith) (omega arith) j segment)
      (refl, numeral-HasNoGap 16 (omega arith) (omega arith) k offset),
)
  where
    nonempty : (xs ys : Bytes) → xs ++ b':' ∷ ys ≢ []
    nonempty xs ys e = absurd (omega (arith, length-append {0} xs (b':' ∷ ys), ap length e))

-- A segment and an offset that are written as hexadecimal numerals of any positive number of
-- digits, with a colon between them, are read back.
pub parse_seg_offset-seg_offset :
    (j k segment offset : ℕ)
    → 0 < j
    → 0 < k
    → segment < 16 ^ j
    → offset < 16 ^ k
    → segment < 2 ^ 16
    → offset < 2 ^ 64
    → parse_seg_offset (seg_offset j k segment offset) ≡ some (segment, offset)
unfolding parse_seg_offset
parse_seg_offset-seg_offset j k segment offset hj hk hs ho small_s small_o =
    let xs = numeral 16 j segment in
    let ys = numeral 16 k offset in
    let plain =
      numeral-All 16 (omega arith) (omega arith) (λ c. (c == b':') ≡ false) j segment
        (λ d h. ground arith) in
    let first : from_chars 16 (2 ^ 16) 0 xs ≡ (true, segment, []) = rw (← append-nil xs) (
      from_chars-numeral 16 (omega arith) (omega arith) j segment (2 ^ 16) 0 [] hj hs small_s tt) in
    let second : from_chars 16 (2 ^ 64) 0 ys ≡ (true, offset, []) =
      rw (← append-nil ys) (
        from_chars-numeral 16 (omega arith) (omega arith) k offset (2 ^ 64) 0 [] hk ho small_o
          tt) in
    rw
      (
        find_char-append b':' xs ys plain,
        take-append xs (b':' ∷ ys),
        drop-append_one xs ys b':',
        first,
        second,
      )
      refl

pub parse_dec32-numeral :
    (k n : ℕ) → 0 < k → n < 10 ^ k → n < 2 ^ 32 → parse_dec32 (numeral 10 k n) ≡ n
unfolding parse_dec32
parse_dec32-numeral k n hk h small =
    let read : from_chars 10 (2 ^ 32) 0 (numeral 10 k n) ≡ (true, n, []) =
      rw (← append-nil (numeral 10 k n))
        (from_chars-numeral 10 (omega arith) (omega arith) k n (2 ^ 32) 0 [] hk h small tt) in
    ap (λ (r : Bool × ℕ × Bytes). r.1) read
