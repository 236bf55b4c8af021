-- ===== src/Rsm/Internal/Search.antt =====
-- `find_bytes` finds the first occurrence in the window.
use vscode_delphi_extension.Base.{
  ℕ, zero, suc, ◌+◌, ◌≤◌, ◌<◌, ◌≡◌, ◌≢◌, refl, Option, none, some, [], ◌∷◌, length, Bytes, take,
  drop, leb, ltb, Bool-cases, leb→le, ==_iff, arith, inl, inr, ◌==◌, beq_list_iff, nat_eq,
}
use vscode_delphi_extension.Rsm.Internal.{matches, find_loop, find_bytes}

-- `pat` stands at `i`, inside the window.
abbrev pub Occurs : Bytes → ℕ → Bytes → ℕ → Type 0
Occurs buf end pat i = (take (length pat) (drop i buf) ≡ pat) × (i + length pat ≤ end)

-- The first occurrence from `start` on, or none.
abbrev pub IsFirst : Bytes → ℕ → ℕ → Bytes → Option ℕ → Type 0
IsFirst buf start end pat (some i) =
    (start ≤ i) × Occurs buf end pat i × ((j : ℕ) → start ≤ j → j < i → ¬ Occurs buf end pat j)
IsFirst buf start end pat none = (j : ℕ) → start ≤ j → ¬ Occurs buf end pat j

IsFirst-back :
    (buf : Bytes) (i end : ℕ) (pat : Bytes) (o : Option ℕ)
    → ¬ Occurs buf end pat i
    → IsFirst buf (i + 1) end pat o
    → IsFirst buf i end pat o
IsFirst-back buf i end pat none ne first = λ j le. elim (Bool-cases (j == i)) [
  | inl e ↦ rw ((==_iff j i).0 e) ne
  | inr e ↦ first j (ground arith)
]
IsFirst-back buf i end pat (some k) ne (le, occurs, before) = (
  omega arith,
  occurs,
  λ j le' lt. elim (Bool-cases (j == i)) [
    | inl e ↦ rw ((==_iff j i).0 e) ne
    | inr e ↦ before j (ground arith) lt
  ],
)

find_loop-IsFirst :
    (n : ℕ) (buf : Bytes) (i end : ℕ) (pat : Bytes)
    → end < i + n
    → IsFirst buf i end pat (find_loop n buf i end pat)
unfolding find_loop
find_loop-IsFirst zero buf i end pat h = λ j le (same, fits). absurd (omega arith)
find_loop-IsFirst (suc n) buf i end pat h = elim (Bool-cases (leb (i + length pat) end)) [
  | inr over ↦ rw over (λ j le (same, fits). ground arith)
  | inl fits ↦ rw fits (elim (Bool-cases (matches buf i pat)) [
    | inl hit ↦ rw hit (
      omega arith,
      ((beq_list_iff _ _).0 hit, leb→le _ _ fits),
      λ j le lt o. absurd (omega arith),
    )
    | inr miss ↦ rw miss (
        IsFirst-back buf i end pat _ (λ (same, _). cc ((beq_list_iff _ pat).1 same, miss))
          (find_loop-IsFirst n buf (i + 1) end pat (omega arith)))
  ])
]

-- Of a pattern that is not empty, in a window inside the buffer, `find_bytes` returns the first
-- occurrence from `start` on, and `none` only if there is no occurrence.
pub find_bytes-IsFirst :
    (buf : Bytes) (start end : ℕ) (pat : Bytes)
    → pat ≢ []
    → end ≤ length buf
    → IsFirst buf start end pat (find_bytes buf start end pat)
unfolding find_bytes
find_bytes-IsFirst buf start end [] ne h = absurd (ne refl)
find_bytes-IsFirst buf start end (c ∷ cs) ne h = elim (Bool-cases (ltb (length buf) end)) [
  | inl beyond ↦ absurd (ground arith)
  | inr inside ↦ rw inside (elim (Bool-cases (ltb end (suc (length cs)))) [
    | inl short ↦ rw short (λ j le (same, fits). ground arith)
    | inr long ↦ rw long (find_loop-IsFirst (end + 1) buf start end (c ∷ cs) (omega arith))
  ])
]
