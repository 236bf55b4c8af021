-- ===== src/Map/Populate/Owner.antt =====
-- The module that a public belongs to.
use vscode_delphi_extension.Base.{
  ℕ, zero, suc, ◌≤◌, ◌<◌, ◌≡◌, refl, subst, true, false, ◌&&◌, Option, none, some, List, ◌==◌,
  ==_iff, Bytes, length, take, at, arith, Bool-cases, inl, inr,
}
use vscode_delphi_extension.Map.Populate.{is_in, owner, owner_below}

-- A dot of the name at `n`, with a module before it.
abbrev pub IsSplit : List Bytes → Bytes → ℕ → Type 0
IsSplit names name n = (at name n ≡ b'.') × (is_in (take n name) names ≡ true)

-- The prefix before the last such dot below `n`, or none.
abbrev pub IsOwner : List Bytes → Bytes → ℕ → Option Bytes → Type 0
IsOwner names name n (some m) =
    (k : ℕ) × (k < n)
    × (m ≡ take k name)
    × IsSplit names name k
    × ((j : ℕ) → j < n → IsSplit names name j → j ≤ k)
IsOwner names name n none = (j : ℕ) → j < n → IsSplit names name j → ⊥

-- A split below `suc n` lies below `n`, unless it is at `n`.
split_below :
    (names : List Bytes) (name : Bytes) (n j : ℕ)
    → (at name n == b'.' && is_in (take n name) names) ≡ false
    → j < suc n
    → IsSplit names name j
    → j < n
split_below names name n j unsplit lt split = elim (Bool-cases (j == n)) [
  | inl e ↦
      let (dot, known) = subst (IsSplit names name) ((==_iff j n).0 e) split in
      ground (arith, unsplit, dot, known)
  | inr e ↦ ground (arith, e)
]

owner_below-IsOwner :
    (names : List Bytes) (name : Bytes) (n : ℕ) → IsOwner names name n (owner_below names name n)
unfolding owner_below
owner_below-IsOwner names name zero = λ j lt split. absurd (omega arith)
owner_below-IsOwner names name (suc n) =
    elim (Bool-cases (at name n == b'.' && is_in (take n name) names)) [
      | inl found ↦
          rw found (n, omega arith, refl, ground (arith, found), λ j lt split. omega arith)
      | inr unsplit ↦
          rw unsplit (skip (owner_below names name n) unsplit (owner_below-IsOwner names name n))
    ]
  where
    skip :
        (o : Option Bytes)
        → (at name n == b'.' && is_in (take n name) names) ≡ false
        → IsOwner names name n o
        → IsOwner names name (suc n) o
    skip none unsplit h = λ j lt split. h j (split_below names name n j unsplit lt split) split
    skip (some m) unsplit (k, lt, e, split, last) = (
      k,
      omega arith,
      e,
      split,
      λ j below found. last j (split_below names name n j unsplit below found) found,
    )

-- The owner of a public is the longest module name that stands before a dot of its name, and there
-- is none only if no module name does.
pub owner-IsOwner :
    (names : List Bytes) (name : Bytes) → IsOwner names name (length name) (owner names name)
unfolding owner
owner-IsOwner names name = owner_below-IsOwner names name (length name)
