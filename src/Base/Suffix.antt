-- ===== src/Base/Suffix.antt =====
-- `From code i s`: the bytes of `code` from index `i` on are `s`.
use Prim.Native.Nat.{ℕ, zero, suc, ◌+◌, ◌≤◌, ◌<◌}
use mathlib.Core.Path.{◌≡◌, refl, sym, ap, ◌∙◌}
use mathlib.Core.Option.{some}
use mathlib.Core.List.{[], ◌∷◌, ◌++◌}
use native.Mathlib.Omega.{arith}
use vscode_delphi_extension.Base.Lists.{take, length, drop, length-drop}
use vscode_delphi_extension.Base.Words.{Bytes, at, read}

abbrev pub From : Bytes → ℕ → Bytes → Type 0
From code i s = drop i code ≡ s

pub drop-drop : (i k : ℕ) (code : Bytes) → drop k (drop i code) ≡ drop (i + k) code
drop-drop zero k code = rw Prim.Native.Nat.add.zero
drop-drop (suc i) zero [] = rw Prim.Native.Nat.add.suc
drop-drop (suc i) (suc k) [] = rw Prim.Native.Nat.add.suc
drop-drop (suc i) k (x ∷ code) = rw Prim.Native.Nat.add.suc (drop-drop i k code)

pub at-drop : (i k : ℕ) (code : Bytes) → at (drop i code) k ≡ at code (i + k)
at-drop zero k code = rw Prim.Native.Nat.add.zero
at-drop (suc i) k [] = refl
at-drop (suc i) k (x ∷ code) = rw Prim.Native.Nat.add.suc (at-drop i k code)

pub From-at :
    (code : Bytes) (i : ℕ) (s : Bytes) (k : ℕ)
    → From code i s
    → k < length s
    → (i + k < length code) × (at code (i + k) ≡ at s k)
From-at code i s k e h = (
  omega (arith, length-drop i code, ap length e),
  sym (at-drop i k code) ∙ ap (λ (l : Bytes). at l k) e,
)

pub From-read :
    (code : Bytes) (i : ℕ) (s : Bytes) (k : ℕ)
    → From code i s
    → k < length s
    → read code (i + k) ≡ some (at s k)
From-read code i s k e h = ground (arith, From-at code i s k e h)

pub From-add :
    (code : Bytes) (i : ℕ) (s : Bytes) (k : ℕ) → From code i s → From code (i + k) (drop k s)
From-add code i s k e = sym (drop-drop i k code) ∙ ap (λ (l : Bytes). drop k l) e

pub drop-append : (xs ys : Bytes) → drop (length xs) (xs ++ ys) ≡ ys
drop-append [] ys = refl
drop-append (x ∷ xs) ys = drop-append xs ys

pub take-append : (xs ys : Bytes) → take (length xs) (xs ++ ys) ≡ xs
take-append [] ys = refl
take-append (x ∷ xs) ys = ap (λ (l : Bytes). x ∷ l) (take-append xs ys)
