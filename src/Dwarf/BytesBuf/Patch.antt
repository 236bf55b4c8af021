-- ===== src/Dwarf/BytesBuf/Patch.antt =====
-- Placeholders and their patches.
use vscode_delphi_extension.Base.{
  ℕ, zero, suc, ◌+◌, ◌≡◌, refl, ap, some, [], ◌∷◌, ◌++◌, ◌>>=◌, Bytes, length, arith,
}
use vscode_delphi_extension.Dwarf.BytesBuf.{byte_of, write, patch_u32}

-- A write behind a prefix is a write into what follows it.
write-append :
    (xs ys : Bytes) (i k b : ℕ)
    → i ≡ length xs + k
    → write (xs ++ ys) i b ≡ (write ys k b >>= λ zs. some (xs ++ zs))
unfolding write
write-append [] ys i k b e = ground (arith, ap (λ (j : ℕ). write ys j b) e)
write-append (x ∷ xs) ys zero k b e = absurd (omega arith)
write-append (x ∷ xs) ys (suc i) k b e = ground (arith, write-append xs ys i k b (omega arith))

-- Patching four bytes between `xs` and `ys` stores the value there, lowest byte first, and
-- changes nothing else.
pub patch_u32-append :
    (xs : Bytes) (x0 x1 x2 x3 : ℕ) (ys : Bytes) (v : ℕ)
    → patch_u32 (xs ++ (x0 ∷ x1 ∷ x2 ∷ x3 ∷ ys)) (length xs) v
      ≡ some (xs ++ (byte_of v 0 ∷ byte_of v 1 ∷ byte_of v 2 ∷ byte_of v 3 ∷ ys))
unfolding patch_u32 write
patch_u32-append xs x0 x1 x2 x3 ys v = rw (
  write-append xs (x0 ∷ x1 ∷ x2 ∷ x3 ∷ ys) (length xs) 0 (byte_of v 0) (omega arith),
  write-append xs (byte_of v 0 ∷ x1 ∷ x2 ∷ x3 ∷ ys) (length xs + 1) 1 (byte_of v 1) refl,
  write-append xs (byte_of v 0 ∷ byte_of v 1 ∷ x2 ∷ x3 ∷ ys) (length xs + 2) 2 (byte_of v 2) refl,
  write-append xs (byte_of v 0 ∷ byte_of v 1 ∷ byte_of v 2 ∷ x3 ∷ ys) (length xs + 3) 3
      (byte_of v 3) refl,
)
