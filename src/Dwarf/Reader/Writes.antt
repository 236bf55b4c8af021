-- ===== src/Dwarf/Reader/Writes.antt =====
-- What a writer appends, whatever stands before and behind it, and how it reads back.
use vscode_delphi_extension.Base.{
  ℕ, ◌≡◌, ap, sym, ◌∙◌, Option, some, [], ◌++◌, append_assoc, append-nil, Bytes,
}
use vscode_delphi_extension.Dwarf.BytesBuf.Appends.{Appends}

pub record Writes {ℓ} (A : Type ℓ) (decode : Bytes → Option (A × Bytes)) (buf : Bytes) (v : A)
    (out : Bytes) : Type ℓ where
  pub added : Bytes
  pub appended : out ≡ buf ++ added
  pub decodes : (rest : Bytes) → decode (added ++ rest) ≡ some (v, rest)

pub Appends-Writes {ℓ} :
    {A : Type ℓ} {decode : Bytes → Option (A × Bytes)} {buf : Bytes} {v : A} {out : Bytes}
    {most : ℕ}
    → Appends A decode buf v out most
    → Writes A decode buf v out
Appends-Writes a = record { added = a.added; appended = a.appended; decodes = a.decodes }

-- Two writes, one behind the other.
pub appended_both :
    (buf mid out xs ys : Bytes) → mid ≡ buf ++ xs → out ≡ mid ++ ys → out ≡ buf ++ (xs ++ ys)
appended_both buf mid out xs ys a b = b ∙ ap (λ (x : Bytes). x ++ ys) a ∙ append_assoc buf xs ys

-- Written to an empty buffer, it is all that is read.
pub Writes-whole {ℓ} :
    {A : Type ℓ} {decode : Bytes → Option (A × Bytes)} {v : A} {out : Bytes}
    → Writes A decode [] v out
    → decode out ≡ some (v, [])
Writes-whole {A} {decode} {v} {out} w =
    ap decode (w.appended ∙ sym (append-nil w.added)) ∙ w.decodes []
