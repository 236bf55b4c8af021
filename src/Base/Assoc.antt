-- ===== src/Base/Assoc.antt =====
-- Maps as association lists, over keys with a sound test of equality.
use Prim.Native.Nat.{ℕ}
use mathlib.Core.Path.{◌≡◌, refl}
use mathlib.Core.Logic.{◌↔◌}
use mathlib.Core.Bool.{Bool, true, false, ◌&&◌}
use mathlib.Core.Option.{Option, none, some}
use mathlib.Core.List.{List, [], ◌∷◌}
use native.Mathlib.Omega.{arith}
use vscode_delphi_extension.Base.Tests.{◌==◌, ==_iff, if◌then◌else◌}
use vscode_delphi_extension.Base.Int.{ℤ, eqb_ℤ}

pub record Eq {ℓ} (A : Type ℓ) : Type ℓ where
  pub beq : A → A → Bool
  pub beq_iff : (a b : A) → (beq a b ≡ true) ↔ (a ≡ b)

instance abbrev pub nat_eq : Eq ℕ
nat_eq = record { beq = ◌==◌; beq_iff = ==_iff }

pub eqb_ℤ_iff : (a b : ℤ) → (eqb_ℤ a b ≡ true) ↔ (a ≡ b)
eqb_ℤ_iff a b = ground arith

instance abbrev pub int_eq : Eq ℤ
int_eq = record { beq = eqb_ℤ; beq_iff = eqb_ℤ_iff }

pub beq_pair_iff : (a b : ℕ × ℕ) → ((a.0 == b.0 && a.1 == b.1) ≡ true) ↔ (a ≡ b)
beq_pair_iff (x, y) (z, w) = ground (arith, ==_iff x z, ==_iff y w)

instance abbrev pub pair_eq : Eq (ℕ × ℕ)
pair_eq = record { beq = λ a b. a.0 == b.0 && a.1 == b.1; beq_iff = beq_pair_iff }

-- Equality of lists, element by element.
abbrev pub beq_list {ℓ} : {A : Type ℓ} → (A → A → Bool) → List A → List A → Bool
beq_list f [] [] = true
beq_list f (x ∷ xs) (y ∷ ys) = f x y && beq_list f xs ys
beq_list f _ _ = false

pub beq_list_iff {ℓ} :
    {A : Type ℓ} ⦃e : Eq A⦄ (a b : List A) → (beq_list e.beq a b ≡ true) ↔ (a ≡ b)
beq_list_iff [] [] = ground arith
beq_list_iff [] (y ∷ b) = ground arith
beq_list_iff (x ∷ a) [] = ground arith
beq_list_iff ⦃e⦄ (x ∷ a) (y ∷ b) = ground (arith, e.beq_iff x y, beq_list_iff ⦃e = e⦄ a b)

instance abbrev pub list_eq {ℓ} : {A : Type ℓ} ⦃e : Eq A⦄ → Eq (List A)
list_eq ⦃e⦄ = record { beq = beq_list e.beq; beq_iff = beq_list_iff ⦃e = e⦄ }

module _ {ℓ κ} {K : Type ℓ} {V : Type κ} ⦃e : Eq K⦄ where
  unfoldable pub find : K → List (K × V) → Option V
  find k [] = none
  find k ((j, v) ∷ m) = if e.beq j k then some v else find k m

  -- `emplace`: a key that is there keeps its value.
  unfoldable pub emplace : K → V → List (K × V) → List (K × V)
  emplace k v [] = (k, v) ∷ []
  emplace k v ((j, w) ∷ m) = if e.beq j k then (j, w) ∷ m else (j, w) ∷ emplace k v m

  -- `m[k] = v`.
  unfoldable pub assign : K → V → List (K × V) → List (K × V)
  assign k v [] = (k, v) ∷ []
  assign k v ((j, w) ∷ m) = if e.beq j k then (j, v) ∷ m else (j, w) ∷ assign k v m

  pub find-emplace :
      (j k : K) (v : V) (m : List (K × V))
      → find j (emplace k v m)
        ≡ elim (find j m) [ some w ↦ some w | none ↦ if e.beq k j then some v else none ]
  unfolding find emplace
  find-emplace j k v [] = refl
  find-emplace j k v ((i, w) ∷ m) =
      ground (arith, e.beq_iff i k, e.beq_iff i j, e.beq_iff k j, find-emplace j k v m)

  pub find-assign :
      (j k : K) (v : V) (m : List (K × V))
      → find j (assign k v m) ≡ (if e.beq k j then some v else find j m)
  unfolding find assign
  find-assign j k v [] = refl
  find-assign j k v ((i, w) ∷ m) =
      ground (arith, e.beq_iff i k, e.beq_iff i j, e.beq_iff k j, find-assign j k v m)
