-- ===== src/Dwarf/Info/Ranges.antt =====
-- src/dwarf/dwarf_emitter.cpp: the range of a unit covers its code, and the ranges of its functions
-- keep apart.
use vscode_delphi_extension.Base.{
  ℕ, ◌+◌, ◌≤◌, ◌<◌, ◌^◌, ◌≡◌, refl, ◌&&◌, List, [], ◌∷◌, All, Option, none, some, ltb, ◌==◌,
  if◌then◌else◌, ◌⊎◌, inl, inr, arith, Bool-cases,
}
use vscode_delphi_extension.Model.{LineEntry, Symbol, SymbolKind, CompileUnit}
use vscode_delphi_extension.Dwarf.Info.{
  AddressRange, absorb, absorb_lines, absorb_symbols, cu_range, next_address, symbol_end,
}
use vscode_delphi_extension.Dwarf.Info.Written.{next_address-le}

-- An address of the range, or none.
abbrev pub Covers : AddressRange → ℕ → Type 0
Covers r a = (a ≡ 0) ⊎ ((r.lo ≤ a) × (a ≤ r.hi))

abbrev CoversIfAny : Option AddressRange → ℕ → Type 0
CoversIfAny none a = a ≡ 0
CoversIfAny (some r) a = Covers r a

absorb-Covers :
    (r : Option AddressRange) (b a : ℕ) → (a ≡ b) ⊎ CoversIfAny r a → CoversIfAny (absorb r b) a
unfolding absorb
absorb-Covers none b a (inl e) = elim (Bool-cases (b == 0)) [
  | inl z ↦ rw z (ground arith)
  | inr z ↦ rw z (inr (omega arith))
]
absorb-Covers none b a (inr h) = elim (Bool-cases (b == 0)) [
  | inl z ↦ rw z h
  | inr z ↦ rw z (inl h)
]
absorb-Covers (some r) b a (inl e) = elim (Bool-cases (b == 0)) [
  | inl z ↦ rw z (inl (ground arith))
  | inr z ↦ rw z (inr (ground arith))
]
absorb-Covers (some r) b a (inr (inl h)) = elim (Bool-cases (b == 0)) [
  | inl z ↦ rw z (inl h)
  | inr z ↦ rw z (inl h)
]
absorb-Covers (some r) b a (inr (inr h)) = elim (Bool-cases (b == 0)) [
  | inl z ↦ rw z (inr h)
  | inr z ↦ rw z (inr (ground arith))
]

absorb_lines-keeps :
    (r : Option AddressRange) (les : List LineEntry) (a : ℕ)
    → CoversIfAny r a
    → CoversIfAny (absorb_lines r les) a
unfolding absorb_lines
absorb_lines-keeps r [] a h = h
absorb_lines-keeps r (le ∷ les) a h =
    absorb_lines-keeps (absorb r le.address) les a (absorb-Covers r le.address a (inr h))

absorb_lines-Covers :
    (r : Option AddressRange) (les : List LineEntry)
    → All (λ le. CoversIfAny (absorb_lines r les) le.address) les
unfolding absorb_lines
absorb_lines-Covers r [] = tt
absorb_lines-Covers r (le ∷ les) = (
  absorb_lines-keeps (absorb r le.address) les le.address
      (absorb-Covers r le.address le.address (inl refl)),
  absorb_lines-Covers (absorb r le.address) les,
)

absorb_symbols-keeps :
    (syms : List Symbol) (r : Option AddressRange) (a : ℕ)
    → CoversIfAny r a
    → CoversIfAny (absorb_symbols r syms) a
unfolding absorb_symbols
absorb_symbols-keeps [] r a h = h
absorb_symbols-keeps (y ∷ syms) r a h = absorb_symbols-keeps syms _ a (one y.kind)
  where
    one :
        (k : SymbolKind)
        → CoversIfAny
            (elim k as (λ x. Option AddressRange) [
              | SymbolKind.function ↦ absorb r y.address
              | _ ↦ r
            ])
            a
    one SymbolKind.function = absorb-Covers r y.address a (inr h)
    one SymbolKind.variable = h
    one SymbolKind.unknown = h

absorb_symbols-Covers :
    (syms : List Symbol) (r : Option AddressRange)
    → All (λ y. y.kind ≡ SymbolKind.function → CoversIfAny (absorb_symbols r syms) y.address) syms
unfolding absorb_symbols
absorb_symbols-Covers [] r = tt
absorb_symbols-Covers (y ∷ syms) r = (
  (λ e. rw e (
      absorb_symbols-keeps syms (absorb r y.address) y.address
        (absorb-Covers r y.address y.address (inl refl)))),
  absorb_symbols-Covers syms _,
)

All-map {ℓ} :
    {A : Type ℓ} (P Q : A → Type 0) (xs : List A) → ((x : A) → P x → Q x) → All P xs → All Q xs
All-map P Q [] k h = tt
All-map P Q (x ∷ xs) k (h, hs) = (k x h, All-map P Q xs k hs)

-- The range of a unit covers the address of each of its lines and of each of its functions, unless
-- that address is 0.
pub cu_range-Covers :
    (cu : CompileUnit)
    → All (λ le. Covers (cu_range cu) le.address) cu.lines
      × All (λ y. y.kind ≡ SymbolKind.function → Covers (cu_range cu) y.address) cu.symbols
unfolding cu_range
cu_range-Covers cu =
    let of_lines = absorb_lines none cu.lines in
    let r = absorb_symbols of_lines cu.symbols in
    (
      All-map (λ le. CoversIfAny of_lines le.address) _ cu.lines
          (λ le h. chosen r le.address (absorb_symbols-keeps cu.symbols of_lines le.address h))
          (absorb_lines-Covers none cu.lines),
      All-map (λ y. y.kind ≡ SymbolKind.function → CoversIfAny r y.address) _ cu.symbols
          (λ y h e. chosen r y.address (h e)) (absorb_symbols-Covers cu.symbols of_lines),
    )
  where
    chosen :
        (r : Option AddressRange) (a : ℕ)
        → CoversIfAny r a
        → Covers (elim r as (λ x. AddressRange) [ none ↦ record { lo = 0; hi = 0 } | some x ↦ x ]) a
    chosen none a h = inl h
    chosen (some r) a h = h

next_address-below :
    (address best : ℕ) (syms : List Symbol)
    → All (λ t. address < t.address → next_address address best syms ≤ t.address) syms
unfolding next_address
next_address-below address best [] = tt
next_address-below address best (t ∷ syms) =
    let next = if ltb address t.address && ltb t.address best then t.address else best in
    let small = next_address-le address next syms in
    ((λ above. ground (arith, small)), next_address-below address next syms)

-- A function below the last 64-bit address ends behind its address, and not behind the address of
-- any symbol of the unit that begins after it: the ranges of two functions at different addresses
-- have no byte in common.
pub symbol_end-Separates :
    (cu : CompileUnit) (s : Symbol) (high : ℕ)
    → s.address + 1 < 2 ^ 64
    → (s.address < symbol_end cu s high)
      × All (λ t. s.address < t.address → symbol_end cu s high ≤ t.address) cu.symbols
unfolding symbol_end
symbol_end-Separates cu s high fits =
    let best = next_address s.address high cu.symbols in
    elim (Bool-cases (ltb s.address best)) [
      | inl e ↦ rw e (ground arith, next_address-below s.address high cu.symbols)
      | inr e ↦ rw e (
        ground arith,
        All-map (λ t. s.address < t.address → best ≤ t.address) _ cu.symbols
            (λ t h above. ground arith) (next_address-below s.address high cu.symbols),
      )
    ]
