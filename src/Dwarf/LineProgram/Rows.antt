-- ===== src/Dwarf/LineProgram/Rows.antt =====
-- What the emitted instructions mean to a reader.
use vscode_delphi_extension.Base.{
  ℕ, ◌+◌, ◌-◌, ◌%◌, ◌^◌, ◌≤◌, ◌<◌, ◌≡◌, refl, sym, ◌∙◌, ap, subst, true, false, some, List, [], ◌∷◌,
  ◌++◌, append_assoc, append-nil, ◌==◌, ==_iff, Bool-cases, inl, inr, pos, pos_part, ◌+ℤ◌, ◌-ℤ◌,
  -ℤ_parts, eqb_ℤ, Bytes, arith,
}
use vscode_delphi_extension.Model.{LineEntry}
use vscode_delphi_extension.Dwarf.BytesBuf.{push, u8, uleb128, sleb128}
use vscode_delphi_extension.Dwarf.BytesBuf.Appends.{decode_le, u64-Appends}
use vscode_delphi_extension.Dwarf.BytesBuf.Uleb.{uleb128-Appends}
use vscode_delphi_extension.Dwarf.BytesBuf.Sleb.{sleb128-Appends}
use vscode_delphi_extension.Dwarf.LineProgram.{
  LineCodes, LineState, emit_set_address, emit_advance_line, emit_advance_pc, move_address,
  move_line,
}
use vscode_delphi_extension.Dwarf.LineProgram.Consumer.{
  AreLineCodes, Registers, Row, moves, extended_step, step, Runs, move, append,
}

-- What is appended to a buffer takes a reader from `r` to `r'` and produces `rows`.
pub record Emits (c : LineCodes) (buf out : Bytes) (r r' : Registers) (rows : List Row)
    : Type 0 where
  pub added : Bytes
  pub appended : out ≡ buf ++ added
  pub runs :
      (rest : Bytes) (later : List Row)
      → Runs c r' rest later
      → Runs c r (added ++ rest) (rows ++ later)

-- The registers that a state of the writer stands for.
abbrev pub registers : LineState → Registers
registers s = record { address = s.state_address; line = s.state_line; file = 0 }

-- The entry may follow: its address is not below the last one.
abbrev pub Follows : LineState → LineEntry → Type 0
Follows s le =
    (s.have_initial_addr ≡ true → s.state_address ≤ le.address)
    × (le.address < 2 ^ 64)
    × (le.line < 2 ^ 32)
    × (s.state_line < 2 ^ 32)

arrive : (a b : ℕ) → pos_part (pos a +ℤ (pos b -ℤ pos a)) ≡ b
unfolding ◌+ℤ◌ ◌-ℤ◌
arrive a b = ground arith

differ : (a b : ℕ) → (a == b) ≡ false → eqb_ℤ (pos a -ℤ pos b) (pos 0) ≡ false
unfolding ◌-ℤ◌
differ a b h = ground arith

module _ (c : LineCodes) (are : AreLineCodes c) where
  pub Emits-none : (buf : Bytes) (r : Registers) → Emits c buf buf r r []
  Emits-none buf r = record {
    added = [];
    appended = ap (λ (x : Bytes). x) (sym (append-nil buf));
    runs = λ rest later h. h;
  }

  pub Emits-then :
      (buf mid out : Bytes) (r r' r'' : Registers) (rows rows' : List Row)
      → Emits c buf mid r r' rows
      → Emits c mid out r' r'' rows'
      → Emits c buf out r r'' (rows ++ rows')
  Emits-then buf mid out r r' r'' rows rows' a b = record {
    added = a.added ++ b.added;
    appended =
        b.appended ∙ ap (λ (x : Bytes). x ++ b.added) a.appended ∙ append_assoc buf a.added b.added;
    runs = λ rest later h.
        rw (append_assoc a.added b.added rest, append_assoc rows rows' later)
          (a.runs (b.added ++ rest) (rows' ++ later) (b.runs rest later h));
  }

  -- The opcode byte, and what stands behind it.
  opcode-Emits :
      (buf out : Bytes) (op : ℕ) (operand : Bytes) (r r' : Registers)
      → out ≡ push buf op ++ operand
      → ((rest : Bytes) → step c r (op ∷ (operand ++ rest)) ≡ some (moves r' rest))
      → Emits c buf out r r' []
  opcode-Emits buf out op operand r r' e steps = record {
    added = op ∷ operand;
    appended = e ∙ append_assoc buf (op ∷ []) operand;
    runs = λ rest later h. move (steps rest) h;
  }

  pub set_file-Emits :
      (buf : Bytes) (f : ℕ) (r : Registers)
      → f < 2 ^ 64
      → Emits c buf (uleb128 (u8 buf c.lns_set_file) f) r (record r { file = f }) []
  unfolding step decode_le
  set_file-Emits buf f r h =
      let a = uleb128-Appends (u8 buf c.lns_set_file) f h in
      opcode-Emits buf _ (c.lns_set_file % 256) a.added r _ a.appended
        (λ rest. ground (arith, a.decodes rest, are.standard, are.distinct))

  pub copy-Emits : (buf : Bytes) (r : Registers) → Emits c buf (u8 buf c.lns_copy) r r (r ∷ [])
  unfolding step decode_le
  copy-Emits buf r = record {
    added = c.lns_copy % 256 ∷ [];
    appended = refl;
    runs = λ rest later h. append (ground (arith, are.standard)) h;
  }

  advance_pc-Emits :
      (buf : Bytes) (delta : ℕ) (r : Registers)
      → r.address + delta < 2 ^ 64
      → Emits c buf
          (uleb128 (u8 buf c.lns_advance_pc) delta)
          r
          (record r { address = r.address + delta })
          []
  unfolding step decode_le
  advance_pc-Emits buf delta r h =
      let a = uleb128-Appends (u8 buf c.lns_advance_pc) delta (omega arith) in
      opcode-Emits buf _ (c.lns_advance_pc % 256) a.added r _ a.appended
        (λ rest. ground (arith, a.decodes rest, are.standard, are.distinct))

  advance_line-Emits :
      (buf : Bytes) (to : ℕ) (r : Registers)
      → r.line < 2 ^ 32
      → to < 2 ^ 32
      → Emits c buf
          (sleb128 (u8 buf c.lns_advance_line) (pos to -ℤ pos r.line))
          r
          (record r { line = to })
          []
  unfolding step decode_le
  advance_line-Emits buf to r hr ht =
      let delta = pos to -ℤ pos r.line in
      let a =
        sleb128-Appends (u8 buf c.lns_advance_line) delta (omega (arith, -ℤ_parts))
          (omega (arith, -ℤ_parts)) in
      let reached : pos_part (pos r.line +ℤ delta) ≡ to = arrive r.line to in
      opcode-Emits buf _ (c.lns_advance_line % 256) a.added r _ a.appended
        (λ rest. ground (arith, a.decodes rest, are.standard, are.distinct, reached))

  set_address-Emits :
      (s : LineState) (addr : ℕ) (r : Registers)
      → addr < 2 ^ 64
      → Emits c s.buf (emit_set_address c s addr).buf r (record r { address = addr }) []
  unfolding emit_set_address step extended_step decode_le
  set_address-Emits s addr r h =
      let head = u8 s.buf 0 in
      let a = uleb128-Appends head 9 (omega arith) in
      let prefix = u8 (uleb128 head 9) c.lne_set_address in
      let b = u64-Appends prefix addr h in
      opcode-Emits s.buf _ 0 (a.added ++ (c.lne_set_address % 256 ∷ b.added)) r _
        (b.appended
          ∙ ap (λ (x : Bytes). push x (c.lne_set_address % 256) ++ b.added) a.appended
          ∙ simp append_assoc)
        (λ rest. rw (append_assoc a.added (c.lne_set_address % 256 ∷ b.added) rest) (
          ground (
            arith,
            a.decodes ((c.lne_set_address % 256) ∷ (b.added ++ rest)),
            b.decodes rest,
            are.extended,
          )))

  pub move_address-Emits :
      (s : LineState) (le : LineEntry)
      → Follows s le
      → Emits c s.buf
          (move_address c s le).buf
          (registers s)
          (record (registers s) { address = le.address })
          []
  unfolding move_address emit_advance_pc
  move_address-Emits s le (up, ha, hl, hs) = elim (Bool-cases s.have_initial_addr) [
    | inr none_yet ↦ rw none_yet (set_address-Emits s le.address (registers s) ha)
    | inl have ↦ elim (Bool-cases (le.address == s.state_address)) [
      | inl same ↦
          let e = (==_iff _ _).0 same in
          rw (have, same)
            (subst
              (λ (a : ℕ).
                Emits c s.buf s.buf (registers s) (record (registers s) { address = a }) [])
              (sym e) (Emits-none s.buf (registers s)))
      | inr other ↦
          let le' = up have in
          let delta : (le.address + 2 ^ 64 - s.state_address) % 2 ^ 64
              ≡ le.address - s.state_address =
            omega arith in
          let apart : (le.address - s.state_address == 0) ≡ false = ground arith in
          let reached : s.state_address + (le.address - s.state_address) ≡ le.address =
            omega arith in
          rw (have, other, delta, apart)
            (subst
              (λ (a : ℕ).
                Emits c s.buf (uleb128 (u8 s.buf c.lns_advance_pc) (le.address - s.state_address))
                  (registers s) (record (registers s) { address = a }) [])
              reached
              (advance_pc-Emits s.buf (le.address - s.state_address) (registers s) (omega arith)))
    ]
  ]

  pub move_line-Emits :
      (s : LineState) (le : LineEntry)
      → le.line < 2 ^ 32
      → s.state_line < 2 ^ 32
      → Emits c s.buf
          (move_line c s le).buf
          (registers s)
          (record (registers s) { line = le.line })
          []
  unfolding move_line emit_advance_line
  move_line-Emits s le hl hs =
      let whole : le.line % 2 ^ 32 ≡ le.line = omega arith in
      elim (Bool-cases (le.line == s.state_line)) [
        | inl same ↦
            let e = (==_iff _ _).0 same in
            rw (whole, same)
              (subst
                (λ (a : ℕ).
                  Emits c s.buf s.buf (registers s) (record (registers s) { line = a }) [])
                (sym e) (Emits-none s.buf (registers s)))
        | inr other ↦
            let apart : eqb_ℤ (pos le.line -ℤ pos s.state_line) (pos 0) ≡ false =
              differ le.line s.state_line other in
            rw (whole, other, apart) (advance_line-Emits s.buf le.line (registers s) hs hl)
      ]
