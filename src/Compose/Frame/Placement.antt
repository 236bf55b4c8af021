-- ===== src/Compose/Frame/Placement.antt =====
-- Where the slots of emitted functions lie.
use vscode_delphi_extension.Base.{ℕ, Option, ◌>>=◌, ℤ, pos, ◌≤ℤ◌, ◌+ℤ◌}
use vscode_delphi_extension.Compose.Frame.{Frame}

-- A slot of `size` bytes that begins at `a`, below one that begins at `b`.
abbrev pub Below : ℤ → ℕ → ℤ → Type 0
Below a size b = a +ℤ pos size ≤ℤ b
