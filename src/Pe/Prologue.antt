-- ===== src/Pe/Prologue.antt =====
-- src/pe/prologue.h: the head of a compiled function. A buffer is the list of its `len` bytes,
-- and a null pointer, which callers pass with length 0, is the empty list. `none` is a read
-- outside the buffer.
pub mod Bounds
pub mod RoundTrip
use vscode_delphi_extension.Base.{
  ℕ, zero, suc, ◌+◌, Bool, ◌&&◌, Option, none, some, List, [], ◌∷◌, ltb, leb, ◌==◌, if◌then◌else◌,
  ◌>>=◌, ℤ, pos, Bytes, length, at, read, read_u32, to_i8, to_i32, not,
}

pub record ParsedPrologue : Type 0 where
  pub sub_rsp : ℤ
  pub extra_pushes : ℕ

abbrev pub is_push : ℕ → Bool
is_push b = leb 0x50 b && leb b 0x57

-- The `while` loop over the pushes, at index `i` with `extras` of them seen. The first argument
-- is the number of rounds that `extras < 16` still allows.
unfoldable pub skip_pushes : ℕ → Bytes → ℕ → ℕ → Option (ℕ × ℕ)
skip_pushes zero code i extras = some (i, extras)
skip_pushes (suc n) code i extras =
    let one_byte = skip_pushes n code (i + 1) (extras + 1) in
    let two_bytes = skip_pushes n code (i + 2) (extras + 1) in
    if ltb i (length code)
    then (do
      b0 ← read code i
      (if is_push b0
          then one_byte
          else if b0 == 0x41 && ltb (i + 1) (length code)
          then (do b1 ← read code (i + 1); (if is_push b1 then two_bytes else some (i, extras)))
          else some (i, extras)))
    else some (i, extras)

-- `sub rsp, imm` at index `i`, behind the pushes.
unfoldable pub parse_sub_rsp : Bytes → ℕ → ℕ → Option ParsedPrologue
parse_sub_rsp code i extras =
    let out : ParsedPrologue = record { sub_rsp = pos 0; extra_pushes = extras } in
    if leb (length code) (i + 3) then some out else (do
      rex ← read code i
      (if not (rex == 0x48) then some out else (do
        op ← read code (i + 1)
        modrm ← read code (i + 2)
        (if op == 0x83 && modrm == 0xEC
            then (do imm ← read code (i + 3); some (record out { sub_rsp = to_i8 imm }))
            else if op == 0x81 && modrm == 0xEC
            then (if leb (length code) (i + 6)
                then some out
                else (do v ← read_u32 code (i + 3); some (record out { sub_rsp = to_i32 v })))
            else some out))))

unfoldable pub parse_prologue : Bytes → Option ParsedPrologue
parse_prologue code =
    let out : ParsedPrologue = record { sub_rsp = pos 0; extra_pushes = 0 } in
    if ltb (length code) 5 then some out else (do
      first ← read code 0
      (if not (first == 0x55)
          then some out
          else (do (i, extras) ← skip_pushes 16 code 1 0; parse_sub_rsp code i extras)))

pub parse_prologue_sub_rsp : Bytes → Option ℤ
parse_prologue_sub_rsp code = do out ← parse_prologue code; some out.sub_rsp
