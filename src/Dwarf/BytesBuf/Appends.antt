-- ===== src/Dwarf/BytesBuf/Appends.antt =====
-- What a method leaves of the buffer: something is appended that a decoder reads back.
use vscode_delphi_extension.Base.{
  ℕ, zero, suc, ◌>>=◌, ◌≤◌, ◌≡◌, Option, some, [], ◌∷◌, ◌++◌, Bytes, IsBytes, length, ◌+◌, ◌*◌, ◌^◌,
  ◌<◌, arith, none, append_assoc,
}
use vscode_delphi_extension.Dwarf.BytesBuf.{byte_of, u16, u32, u64}

-- What was appended, and how it decodes.
pub record Appends {ℓ} (A : Type ℓ) (decode : Bytes → Option (A × Bytes)) (buf : Bytes) (v : A)
    (out : Bytes) (most : ℕ) : Type ℓ where
  pub added : Bytes
  pub appended : out ≡ buf ++ added
  pub decodes : (rest : Bytes) → decode (added ++ rest) ≡ some (v, rest)
  pub are_bytes : IsBytes added
  pub size : length added ≤ most

-- A number of `n` bytes, lowest first.
unfoldable pub decode_le : ℕ → Bytes → Option (ℕ × Bytes)
decode_le zero bytes = some (0, bytes)
decode_le (suc n) [] = none
decode_le (suc n) (b ∷ rest) = do (v, r) ← decode_le n rest; some (b + 256 * v, r)

pub u16-Appends : (buf : Bytes) (v : ℕ) → v < 2 ^ 16 → Appends ℕ (decode_le 2) buf v (u16 buf v) 2
unfolding decode_le
u16-Appends buf v h = record {
  added = byte_of v 0 ∷ byte_of v 1 ∷ [];
  appended = simp append_assoc;
  decodes = λ rest. ground arith;
  are_bytes = omega arith;
  size = omega arith;
}

pub u32-Appends : (buf : Bytes) (v : ℕ) → v < 2 ^ 32 → Appends ℕ (decode_le 4) buf v (u32 buf v) 4
unfolding decode_le
u32-Appends buf v h = record {
  added = byte_of v 0 ∷ byte_of v 1 ∷ byte_of v 2 ∷ byte_of v 3 ∷ [];
  appended = simp append_assoc;
  decodes = λ rest. ground arith;
  are_bytes = omega arith;
  size = omega arith;
}

pub u64-Appends : (buf : Bytes) (v : ℕ) → v < 2 ^ 64 → Appends ℕ (decode_le 8) buf v (u64 buf v) 8
unfolding decode_le
u64-Appends buf v h = record {
  added =
      byte_of v 0
      ∷ byte_of v 1
      ∷ byte_of v 2
      ∷ byte_of v 3
      ∷ byte_of v 4
      ∷ byte_of v 5
      ∷ byte_of v 6
      ∷ byte_of v 7
      ∷ [];
  appended = simp append_assoc;
  decodes = λ rest. ground arith;
  are_bytes = omega arith;
  size = omega arith;
}
