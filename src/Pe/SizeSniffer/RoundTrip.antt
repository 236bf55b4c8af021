-- ===== src/Pe/SizeSniffer/RoundTrip.antt =====
-- The rbp-relative MOVs that the compiler emits, as data with their encoding, and what the
-- sniffer makes of a run of them.
use vscode_delphi_extension.Base.{
  ℕ, zero, suc, ◌+◌, ◌*◌, ◌/◌, ◌≤◌, ◌<◌, ◌≡◌, refl, ◌∙◌, ap, Bool, true, false, Option, none, some,
  List, [], ◌∷◌, ◌++◌, ◌%◌, ◌&&◌, ℤ, Bytes, length, length-append, length-drop, All, to_i8, to_i32,
  or32, read_u32_lem, From, From-at, From-add, drop-append, arith, if◌then◌else◌, ◌==◌, find,
  emplace, find-emplace, int_eq,
}
use vscode_delphi_extension.Pe.SizeSniffer.{
  Sizes, found, operand_prefix, rex_prefix, opcode_shape, sniff_operand, sniff_opcode, sniff_at,
  sniff_loop, sniff_stack_var_sizes,
}
use vscode_delphi_extension.Pe.SizeSniffer.Bounds.{IsFine, sniff_at-IsFine}
use vscode_delphi_extension.Pe.SizeSniffer.Masks.{
  is_rbp_disp8_lem, is_rbp_disp32_lem, is_rex_lem, has_rex_w_lem,
}

-- The six opcodes of the file's comment, by what they move.
pub data Operation : Type 0 where
  store8 load8 store_imm8 store load store_imm : Operation

abbrev pub opcode : Operation → ℕ
opcode store8 = 0x88
opcode load8 = 0x8A
opcode store_imm8 = 0xC6
opcode store = 0x89
opcode load = 0x8B
opcode store_imm = 0xC7

-- Displacement of one byte or of four.
pub data Disp : Type 0 where
  disp8 : ℕ → Disp
  disp32 : ℕ → ℕ → ℕ → ℕ → Disp

abbrev pub displacement : Disp → ℤ
displacement (disp8 b) = to_i8 b
displacement (disp32 b0 b1 b2 b3) = to_i32 (or32 b0 b1 b2 b3)

-- `rex` is the low nibble of a REX prefix, whose bit 3 is W.
pub record Mov : Type 0 where
  pub op16 : Bool
  pub rex : Option ℕ
  pub operation : Operation
  pub reg : ℕ
  pub disp : Disp
  pub imm : Bytes

abbrev pub is_wide : Option ℕ → Bool
is_wide none = false
is_wide (some n) = n / 8 == 1

-- What the instruction set says of the operand's width and of the immediate behind it.
abbrev pub full_width : Bool → Option ℕ → ℕ
full_width op16 rex = if is_wide rex then 8 else if op16 then 2 else 4

abbrev pub width_of : Operation → Bool → Option ℕ → ℕ
width_of store8 op16 rex = 1
width_of load8 op16 rex = 1
width_of store_imm8 op16 rex = 1
width_of _ op16 rex = full_width op16 rex

abbrev pub width : Mov → ℕ
width m = width_of m.operation m.op16 m.rex

-- W overrides 0x66: the immediate of a 64-bit operand has four bytes.
abbrev pub imm_size : Operation → Bool → Option ℕ → ℕ
imm_size store_imm8 op16 rex = 1
imm_size store_imm op16 rex = if is_wide rex then 4 else if op16 then 2 else 4
imm_size _ op16 rex = 0

-- Bit 0 of a REX prefix, B, would make the base r13 in place of rbp.
abbrev pub IsNibble : Option ℕ → Type 0
IsNibble none = Unit
IsNibble (some n) = (n < 16) × (n % 2 ≡ 0)

abbrev pub IsMov : Mov → Type 0
IsMov m = (m.reg < 8) × (length m.imm ≡ imm_size m.operation m.op16 m.rex) × IsNibble m.rex

-- The two prefixes for the operand's size exclude each other.
abbrev pub HasOneSize : Mov → Type 0
HasOneSize m = (m.op16 && is_wide m.rex) ≡ false

abbrev pub encode_disp : ℕ → Disp → Bytes → Bytes
encode_disp reg (disp8 b) rest = (0x45 + 8 * reg) ∷ b ∷ rest
encode_disp reg (disp32 b0 b1 b2 b3) rest = (0x85 + 8 * reg) ∷ b0 ∷ b1 ∷ b2 ∷ b3 ∷ rest

abbrev pub encode_rex : Option ℕ → Bytes → Bytes
encode_rex none rest = rest
encode_rex (some n) rest = (0x40 + n) ∷ rest

abbrev pub encode_66 : Bool → Bytes → Bytes
encode_66 true rest = 0x66 ∷ rest
encode_66 false rest = rest

abbrev operand : Mov → Bytes → Bytes
operand m rest = encode_disp m.reg m.disp (m.imm ++ rest)

-- The instruction in front of `rest`.
abbrev pub encode : Mov → Bytes → Bytes
encode m rest = encode_66 m.op16 (encode_rex m.rex (opcode m.operation ∷ operand m rest))

abbrev disp_size : Disp → ℕ
disp_size (disp8 b) = 2
disp_size (disp32 b0 b1 b2 b3) = 5

module _ (code : Bytes) where
  operand_prefix-encode_66 :
      (op16 : Bool) (rex : Option ℕ) (o : Operation) (i : ℕ) (s : Bytes)
      → IsNibble rex
      → From code i (encode_66 op16 (encode_rex rex (opcode o ∷ s)))
      → (p : ℕ) × (operand_prefix code i ≡ some (op16, p))
        × From code p (encode_rex rex (opcode o ∷ s))
        × (i ≤ p)
  unfolding operand_prefix
  operand_prefix-encode_66 true rex o i s n f = (
    i + 1,
    ground (arith, From-at code i _ 0 f (omega arith)),
    From-add code i _ 1 f,
    omega arith,
  )
  operand_prefix-encode_66 false none o i s n f =
      (i, ground (arith, From-at code i (opcode o ∷ s) 0 f (omega arith)), f, omega arith)
  operand_prefix-encode_66 false (some r) o i s n f = (
    i,
    ground (arith, From-at code i ((0x40 + r) ∷ opcode o ∷ s) 0 f (omega arith)),
    f,
    omega arith,
  )

  rex_prefix-encode_rex :
      (rex : Option ℕ) (o : Operation) (p : ℕ) (s : Bytes)
      → IsNibble rex
      → From code p (encode_rex rex (opcode o ∷ s))
      → (q : ℕ) × (rex_prefix code p ≡ some (is_wide rex, q)) × From code q (opcode o ∷ s) × (p ≤ q)
  unfolding rex_prefix
  rex_prefix-encode_rex none o p s n f = (
    p,
    ground (
      arith,
      From-at code p (opcode o ∷ s) 0 f (omega arith),
      is_rex_lem (opcode o) (ground arith),
    ),
    f,
    omega arith,
  )
  rex_prefix-encode_rex (some r) o p s n f = (
    p + 1,
    ground (
      arith,
      From-at code p ((0x40 + r) ∷ opcode o ∷ s) 0 f (omega arith),
      is_rex_lem (0x40 + r) (omega arith),
      has_rex_w_lem (0x40 + r) (omega arith),
    ),
    From-add code p _ 1 f,
    omega arith,
  )

  sniff_operand-encode_disp :
      (w reg : ℕ) (d : Disp) (imm : Bytes) (pos : ℕ) (rest : Bytes)
      → reg < 8
      → From code pos (encode_disp reg d (imm ++ rest))
      → sniff_operand code w (length imm) pos
        ≡ some (found (displacement d) w (pos + disp_size d + length imm))
  unfolding sniff_operand
  sniff_operand-encode_disp w reg (disp8 b) imm pos rest h f = ground (
    arith,
    From-at code pos _ 0 f (omega arith),
    From-at code pos _ 1 f (omega arith),
    ap length (From-add code pos _ 2 f),
    length-drop (pos + 2) code,
    length-append imm rest,
    is_rbp_disp8_lem (0x45 + 8 * reg) (omega arith),
  )
  sniff_operand-encode_disp w reg (disp32 b0 b1 b2 b3) imm pos rest h f = ground (
    arith,
    From-at code pos _ 0 f (omega arith),
    From-at code pos _ 1 f (omega arith),
    From-at code pos _ 2 f (omega arith),
    From-at code pos _ 3 f (omega arith),
    From-at code pos _ 4 f (omega arith),
    read_u32_lem code (pos + 1),
    ap length (From-add code pos _ 5 f),
    length-drop (pos + 5) code,
    length-append imm rest,
    is_rbp_disp8_lem (0x85 + 8 * reg) (omega arith),
    is_rbp_disp32_lem (0x85 + 8 * reg) (omega arith),
  )

  opcode_shape-opcode :
      (o : Operation) (rex : Option ℕ) (op16 : Bool)
      → (op16 && is_wide rex) ≡ false
      → opcode_shape (is_wide rex) op16 (opcode o) ≡ some (width_of o op16 rex, imm_size o op16 rex)
  unfolding opcode_shape
  opcode_shape-opcode store_imm rex true one = rw (one) refl
  opcode_shape-opcode store_imm rex false one = ground arith
  opcode_shape-opcode store8 rex op16 one = refl
  opcode_shape-opcode _ rex op16 one = refl

  From-behind :
      (reg : ℕ) (d : Disp) (imm : Bytes) (pos : ℕ) (rest : Bytes)
      → From code pos (encode_disp reg d (imm ++ rest))
      → From code (pos + disp_size d + length imm) rest
  From-behind reg (disp8 b) imm pos rest f =
      From-add code (pos + 2) _ (length imm) (From-add code pos _ 2 f) ∙ drop-append imm rest
  From-behind reg (disp32 b0 b1 b2 b3) imm pos rest f =
      From-add code (pos + 5) _ (length imm) (From-add code pos _ 5 f) ∙ drop-append imm rest

  sniff_opcode-encode :
      (m : Mov) (q : ℕ) (rest : Bytes)
      → IsMov m
      → HasOneSize m
      → From code q (opcode m.operation ∷ operand m rest)
      → sniff_opcode code m.op16 (is_wide m.rex) q
        ≡ some (found (displacement m.disp) (width m) (q + 1 + disp_size m.disp + length m.imm))
  unfolding sniff_opcode
  sniff_opcode-encode m q rest (hr, hi, hn) one f =
      let here = From-at code q (opcode m.operation ∷ operand m rest) 0 f (omega arith) in
      let round =
        sniff_operand-encode_disp (width m) m.reg m.disp m.imm (q + 1) rest hr
          (From-add code q _ 1 f) in
      ground (
        arith,
        here,
        opcode_shape-opcode m.operation m.rex m.op16 one,
        ap (λ (k : ℕ). sniff_operand code (width m) k (q + 1)) hi,
        round,
      )

  -- One round on an encoded MOV records it, and goes on right behind it.
  sniff_at-encode :
      (m : Mov) (i : ℕ) (rest : Bytes)
      → IsMov m
      → HasOneSize m
      → From code i (encode m rest)
      → (next : ℕ) × (sniff_at code i ≡ some (found (displacement m.disp) (width m) next))
        × From code next rest
        × (i < next)
        × (i < length code)
  unfolding sniff_at
  sniff_at-encode m i rest (hr, hi, hn) one f =
      let (p, e1, f1, le1) =
        operand_prefix-encode_66 m.op16 m.rex m.operation i (operand m rest) hn f in
      let (q, e2, f2, le2) = rex_prefix-encode_rex m.rex m.operation p (operand m rest) hn f1 in
      let f3 = From-add code q (opcode m.operation ∷ operand m rest) 1 f2 in
      let here = From-at code q (opcode m.operation ∷ operand m rest) 0 f2 (omega arith) in
      (
        q + 1 + disp_size m.disp + length m.imm,
        rw (e1, e2) (sniff_opcode-encode m q rest (hr, hi, hn) one f2),
        From-behind m.reg m.disp m.imm (q + 1) rest f3,
        omega arith,
        omega arith,
      )

-- A run of MOVs in front of `rest`.
abbrev pub encode_all : List Mov → Bytes → Bytes
encode_all [] rest = rest
encode_all (m ∷ ms) rest = encode m (encode_all ms rest)

-- The width of the first MOV of a run at displacement `d`.
abbrev pub first_width : ℤ → List Mov → Option ℕ
first_width d [] = none
first_width d (m ∷ ms) =
    if int_eq.beq (displacement m.disp) d then some (width m) else first_width d ms

abbrev HasFirst : List Mov → Sizes → Sizes → Type 0
HasFirst ms out r =
    (d : ℤ) → find d r ≡ elim (find d out) [ some w ↦ some w | none ↦ first_width d ms ]

HasFirst-cons :
    (m : Mov) (ms : List Mov) (out r : Sizes)
    → HasFirst ms (emplace (displacement m.disp) (width m) out) r
    → HasFirst (m ∷ ms) out r
HasFirst-cons m ms out r h d =
    ground (arith, h d, find-emplace d (displacement m.disp) (width m) out)

sniff_loop-encode_all :
    (ms : List Mov) (fuel : ℕ) (code : Bytes) (i : ℕ) (out : Sizes)
    → All IsMov ms
    → All HasOneSize ms
    → From code i (encode_all ms [])
    → i ≤ length code
    → length code < i + fuel
    → (r : Sizes) × (sniff_loop fuel code i out ≡ some r) × HasFirst ms out r
unfolding sniff_loop
sniff_loop-encode_all ms zero code i out h one f le enough = absurd (omega arith)
sniff_loop-encode_all [] (suc fuel) code i out h one f le enough =
    (out, ground (arith, ap length f, length-drop i code), λ d. ground arith)
sniff_loop-encode_all (m ∷ ms) (suc fuel) code i out (hm, h) (one, ones) f le enough =
    let (next, e, g, more, here) = sniff_at-encode code m i (encode_all ms []) hm one f in
    let fine : IsFine code i (found (displacement m.disp) (width m) next) =
      rw e at (sniff_at-IsFine code i) in
    let (r, e', first) =
      sniff_loop-encode_all ms fuel code next (emplace (displacement m.disp) (width m) out) h ones g
        fine.2 (omega arith) in
    (r, ground arith, HasFirst-cons m ms out r first)

-- On a run of encoded MOVs with rbp as their base, of which none has both prefixes for the
-- operand's size, 0x66 and REX.W, the sniffer ends, and its table holds for each displacement the
-- operand width of the first MOV at that displacement, and nothing for the others.
pub sniff_stack_var_sizes-encode_all :
    (ms : List Mov)
    → All IsMov ms
    → All HasOneSize ms
    → (r : Sizes) × (sniff_stack_var_sizes (encode_all ms []) ≡ some r)
      × ((d : ℤ) → find d r ≡ first_width d ms)
unfolding sniff_stack_var_sizes
sniff_stack_var_sizes-encode_all ms h one =
    let code = encode_all ms [] in
    let (r, e, first) =
      sniff_loop-encode_all ms (length code + 1) code 0 [] h one refl (omega arith) (omega arith) in
    (r, e, unfold find in first)
