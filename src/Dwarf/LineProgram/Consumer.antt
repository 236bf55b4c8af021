-- ===== src/Dwarf/LineProgram/Consumer.antt =====
-- A reader of line programs, after the DWARF standard: the registers of its state machine, one
-- instruction, and the rows that a program appends to the line table.
use vscode_delphi_extension.Base.{
  ℕ, ◌+◌, ◌^◌, ◌%◌, ◌<◌, ◌≡◌, ◌≢◌, Option, none, some, List, [], ◌∷◌, ◌==◌, if◌then◌else◌, ◌>>=◌,
  pos, ◌+ℤ◌, pos_part, Bytes,
}
use vscode_delphi_extension.Dwarf.BytesBuf.Appends.{decode_le}
use vscode_delphi_extension.Dwarf.BytesBuf.Uleb.{decode_uleb}
use vscode_delphi_extension.Dwarf.BytesBuf.Sleb.{decode_sleb}
use vscode_delphi_extension.Dwarf.LineProgram.{LineCodes}

-- The codes are bytes that the reader can tell apart, and the standard opcodes lie between the
-- prefix of the extended ones and opcode_base.
pub record AreLineCodes (c : LineCodes) : Type 0 where
  pub standard :
      ((0 < c.lns_copy) × (c.lns_copy < 13))
      × ((0 < c.lns_advance_pc) × (c.lns_advance_pc < 13))
      × ((0 < c.lns_advance_line) × (c.lns_advance_line < 13))
      × ((0 < c.lns_set_file) × (c.lns_set_file < 13))
  pub distinct :
      (c.lns_copy ≢ c.lns_advance_pc)
      × (c.lns_copy ≢ c.lns_advance_line)
      × (c.lns_copy ≢ c.lns_set_file)
      × (c.lns_advance_pc ≢ c.lns_advance_line)
      × (c.lns_advance_pc ≢ c.lns_set_file)
      × (c.lns_advance_line ≢ c.lns_set_file)
  pub extended :
      (c.lne_end_sequence < 256)
      × (c.lne_set_address < 256)
      × (c.lne_end_sequence ≢ c.lne_set_address)

pub record Registers : Type 0 where
  pub address : ℕ
  pub line : ℕ
  pub file : ℕ

-- The registers that a row of the table records.
abbrev pub Row : Type 0
Row = Registers

pub data Effect : Type 0 where
  moves : Registers → Bytes → Effect
  row : Bytes → Effect
  ends : Bytes → Effect

-- Behind the prefix 0 of an extended opcode.
unfoldable pub extended_step : LineCodes → Registers → Bytes → Option Effect
extended_step c r bytes = do
  (len, behind_len) ← decode_uleb bytes
  (op, rest) ← decode_le 1 behind_len
  (if op == c.lne_end_sequence
      then some (ends rest)
      else if op == c.lne_set_address
      then (do (a, rest') ← decode_le 8 rest; some (moves (record r { address = a }) rest'))
      else none)

-- One instruction at the front of the bytes.
unfoldable pub step : LineCodes → Registers → Bytes → Option Effect
unfolding extended_step
step c r bytes = do
  (op, rest) ← decode_le 1 bytes
  (if op == 0
      then extended_step c r rest
      else if op == c.lns_copy
      then some (row rest)
      else if op == c.lns_advance_pc
      then (do
        (delta, rest') ← decode_uleb rest
        some (moves (record r { address = (r.address + delta) % 2 ^ 64 }) rest'))
      else if op == c.lns_advance_line
      then (do
        (delta, rest') ← decode_sleb rest
        some (moves (record r { line = pos_part (pos r.line +ℤ delta) }) rest'))
      else if op == c.lns_set_file
      then (do (f, rest') ← decode_uleb rest; some (moves (record r { file = f }) rest'))
      else none)

-- The reader runs through exactly these bytes and appends exactly these rows.
pub data Runs (c : LineCodes) : Registers → Bytes → List Row → Type 0 where
  finish : {r : Registers} {bytes : Bytes} → step c r bytes ≡ some (ends []) → Runs c r bytes []
  move :
      {r r' : Registers} {bytes rest : Bytes} {rows : List Row}
      → step c r bytes ≡ some (moves r' rest)
      → Runs c r' rest rows
      → Runs c r bytes rows
  append :
      {r : Registers} {bytes rest : Bytes} {rows : List Row}
      → step c r bytes ≡ some (row rest)
      → Runs c r rest rows
      → Runs c r bytes (r ∷ rows)

abbrev pub initial : Registers
initial = record { address = 0; line = 1; file = 1 }
