-- ===== src/Pe/Prologue/RoundTrip.antt =====
-- The prologues that the compiler emits, as data with their encoding, and what the parser makes
-- of them.
use vscode_delphi_extension.Base.{
  ℕ, zero, suc, ◌+◌, ◌≤◌, ◌<◌, ◌≡◌, refl, ◌∙◌, some, List, [], ◌∷◌, ℤ, Bytes, length, All, to_i8,
  to_i32, or32, From, From-at, From-add, arith, read_u32_lem,
}
use vscode_delphi_extension.Pe.Prologue.{skip_pushes, parse_sub_rsp, parse_prologue}

-- `push` of one of rax..rdi, or of r8..r15.
pub data Push : Type 0 where
  low : ℕ → Push
  high : ℕ → Push

abbrev pub IsPush : Push → Type 0
IsPush (low r) = r < 8
IsPush (high r) = r < 8

-- The pushes in front of `rest`.
abbrev pub encode_pushes : List Push → Bytes → Bytes
encode_pushes [] rest = rest
encode_pushes (low r ∷ ps) rest = (0x50 + r) ∷ encode_pushes ps rest
encode_pushes (high r ∷ ps) rest = 0x41 ∷ (0x50 + r) ∷ encode_pushes ps rest

-- The two forms of `sub rsp, imm`, in front of the rest of the body.
pub data SubRsp : Type 0 where
  imm8 : ℕ → SubRsp
  imm32 : ℕ → ℕ → ℕ → ℕ → SubRsp

abbrev pub encode_sub_rsp : SubRsp → Bytes → Bytes
encode_sub_rsp (imm8 b) rest = 0x48 ∷ 0x83 ∷ 0xEC ∷ b ∷ rest
encode_sub_rsp (imm32 b0 b1 b2 b3) rest = 0x48 ∷ 0x81 ∷ 0xEC ∷ b0 ∷ b1 ∷ b2 ∷ b3 ∷ rest

abbrev pub immediate : SubRsp → ℤ
immediate (imm8 b) = to_i8 b
immediate (imm32 b0 b1 b2 b3) = to_i32 (or32 b0 b1 b2 b3)

-- `push rbp`, the pushes, `sub rsp`, and the rest of the function.
abbrev pub prologue : List Push → SubRsp → Bytes → Bytes
prologue ps s rest = 0x55 ∷ encode_pushes ps (encode_sub_rsp s rest)

module _ (code : Bytes) where
  skip_pushes-stop :
      (n i extras : ℕ) (rest : Bytes)
      → From code i (0x48 ∷ rest)
      → skip_pushes n code i extras ≡ some (i, extras)
  unfolding skip_pushes
  skip_pushes-stop zero i extras rest f = refl
  skip_pushes-stop (suc n) i extras rest f =
      ground (arith, From-at code i (0x48 ∷ rest) 0 f (omega arith))

  skip_pushes-low :
      (n i extras r : ℕ) (rest : Bytes)
      → r < 8
      → From code i ((0x50 + r) ∷ rest)
      → skip_pushes (suc n) code i extras ≡ skip_pushes n code (i + 1) (extras + 1)
  unfolding skip_pushes
  skip_pushes-low n i extras r rest h f =
      ground (arith, From-at code i ((0x50 + r) ∷ rest) 0 f (omega arith))

  skip_pushes-high :
      (n i extras r : ℕ) (rest : Bytes)
      → r < 8
      → From code i (0x41 ∷ (0x50 + r) ∷ rest)
      → skip_pushes (suc n) code i extras ≡ skip_pushes n code (i + 2) (extras + 1)
  unfolding skip_pushes
  skip_pushes-high n i extras r rest h f = ground (
    arith,
    From-at code i (0x41 ∷ (0x50 + r) ∷ rest) 0 f (omega arith),
    From-at code i (0x41 ∷ (0x50 + r) ∷ rest) 1 f (omega arith),
  )

  skip_pushes-encode_pushes :
      (ps : List Push) (n i extras : ℕ) (rest : Bytes)
      → All IsPush ps
      → length ps ≤ n
      → From code i (encode_pushes ps (0x48 ∷ rest))
      → (j : ℕ) × (skip_pushes n code i extras ≡ some (j, extras + length ps))
        × (i ≤ j)
        × From code j (0x48 ∷ rest)
  skip_pushes-encode_pushes [] n i extras rest h le f =
      (i, ground (arith, skip_pushes-stop n i extras rest f), omega arith, f)
  skip_pushes-encode_pushes (p ∷ ps) zero i extras rest h le f = absurd (omega arith)
  skip_pushes-encode_pushes (low r ∷ ps) (suc n) i extras rest (hr, h) le f =
      let (j, e, before, g) =
        skip_pushes-encode_pushes ps n (i + 1) (extras + 1) rest h (omega arith)
          (From-add code i _ 1 f) in
      (j, skip_pushes-low n i extras r _ hr f ∙ ground arith, omega arith, g)
  skip_pushes-encode_pushes (high r ∷ ps) (suc n) i extras rest (hr, h) le f =
      let (j, e, before, g) =
        skip_pushes-encode_pushes ps n (i + 2) (extras + 1) rest h (omega arith)
          (From-add code i _ 2 f) in
      (j, skip_pushes-high n i extras r _ hr f ∙ ground arith, omega arith, g)

  parse_sub_rsp-encode_sub_rsp :
      (s : SubRsp) (j extras : ℕ) (rest : Bytes)
      → From code j (encode_sub_rsp s rest)
      → parse_sub_rsp code j extras ≡ some (record { sub_rsp = immediate s; extra_pushes = extras })
  unfolding parse_sub_rsp
  parse_sub_rsp-encode_sub_rsp (imm8 b) j extras rest f =
      let s : Bytes = 0x48 ∷ 0x83 ∷ 0xEC ∷ b ∷ rest in
      ground (
        arith,
        From-at code j s 0 f (omega arith),
        From-at code j s 1 f (omega arith),
        From-at code j s 2 f (omega arith),
        From-at code j s 3 f (omega arith),
      )
  parse_sub_rsp-encode_sub_rsp (imm32 b0 b1 b2 b3) j extras rest f =
      let s : Bytes = 0x48 ∷ 0x81 ∷ 0xEC ∷ b0 ∷ b1 ∷ b2 ∷ b3 ∷ rest in
      ground (
        arith,
        From-at code j s 0 f (omega arith),
        From-at code j s 1 f (omega arith),
        From-at code j s 2 f (omega arith),
        From-at code j s 3 f (omega arith),
        From-at code j s 4 f (omega arith),
        From-at code j s 5 f (omega arith),
        From-at code j s 6 f (omega arith),
        read_u32_lem code (j + 3),
      )

-- Of an emitted prologue with at most 16 pushes of callee-saved registers the parser recovers the
-- immediate of `sub rsp`, in either form, and the number of pushes, whatever code follows.
pub parse_prologue-prologue :
    (ps : List Push) (s : SubRsp) (rest : Bytes)
    → All IsPush ps
    → length ps ≤ 16
    → parse_prologue (prologue ps s rest)
      ≡ some (record { sub_rsp = immediate s; extra_pushes = length ps })
unfolding parse_prologue
parse_prologue-prologue ps (imm8 b) rest h le =
    let code = prologue ps (imm8 b) rest in
    let (j, e, before, g) =
      skip_pushes-encode_pushes code ps 16 1 0 (0x83 ∷ 0xEC ∷ b ∷ rest) h le refl in
    ground (
      arith,
      From-at code j (encode_sub_rsp (imm8 b) rest) 3 g (omega arith),
      parse_sub_rsp-encode_sub_rsp code (imm8 b) j (length ps) rest g,
    )
parse_prologue-prologue ps (imm32 b0 b1 b2 b3) rest h le =
    let code = prologue ps (imm32 b0 b1 b2 b3) rest in
    let (j, e, before, g) =
      skip_pushes-encode_pushes code ps 16 1 0 (0x81 ∷ 0xEC ∷ b0 ∷ b1 ∷ b2 ∷ b3 ∷ rest) h le refl in
    ground (
      arith,
      From-at code j (encode_sub_rsp (imm32 b0 b1 b2 b3) rest) 3 g (omega arith),
      parse_sub_rsp-encode_sub_rsp code (imm32 b0 b1 b2 b3) j (length ps) rest g,
    )
