-- ===== src/Dwarf/LineProgram/Program.antt =====
-- The whole program: the rows that a reader of it appends.
use vscode_delphi_extension.Base.{
  ◌%◌, ◌≤◌, ◌<◌, ◌^◌, ◌≡◌, refl, ◌∙◌, ap, subst, true, false, List, [], ◌∷◌, ◌++◌, append_assoc,
  append-nil, map, Bytes, arith, ==_iff,
}
use vscode_delphi_extension.Model.{LineEntry}
use vscode_delphi_extension.Dwarf.BytesBuf.{push, u8, uleb128}
use vscode_delphi_extension.Dwarf.BytesBuf.Appends.{decode_le}
use vscode_delphi_extension.Dwarf.BytesBuf.Uleb.{uleb128-Appends}
use vscode_delphi_extension.Dwarf.LineProgram.{
  LineCodes, LineState, emit_set_address, emit_advance_line, emit_advance_pc, emit_copy,
  move_address, move_line, emit_row, emit_rows, write_program,
}
use vscode_delphi_extension.Dwarf.LineProgram.Consumer.{
  AreLineCodes, Row, extended_step, step, Runs, finish, initial,
}
use vscode_delphi_extension.Dwarf.LineProgram.Rows.{
  Emits, registers, Follows, Emits-none, Emits-then, set_file-Emits, copy-Emits, move_address-Emits,
  move_line-Emits,
}

-- Each address is at least the one before it.
pub data Ascending : List LineEntry → Type 0 where
  ascending_nil : Ascending []
  ascending_one : {le : LineEntry} → Ascending (le ∷ [])
  ascending_cons :
      {a b : LineEntry} {les : List LineEntry}
      → a.address ≤ b.address
      → Ascending (b ∷ les)
      → Ascending (a ∷ b ∷ les)

-- An address is a uint64_t, a line a uint32_t.
pub data Fit : List LineEntry → Type 0 where
  fit_nil : Fit []
  fit_cons :
      {le : LineEntry} {les : List LineEntry}
      → le.address < 2 ^ 64
      → le.line < 2 ^ 32
      → Fit les
      → Fit (le ∷ les)

unfoldable pub row_of : LineEntry → Row
row_of le = record { address = le.address; line = le.line; file = 0 }

module _ (c : LineCodes) (are : AreLineCodes c) where
  move_address-moved :
      (s : LineState) (le : LineEntry)
      → ((move_address c s le).state_address ≡ le.address)
        × ((move_address c s le).have_initial_addr ≡ true)
        × ((move_address c s le).state_line ≡ s.state_line)
  unfolding move_address emit_set_address emit_advance_pc
  move_address-moved s le = ground (arith, ==_iff le.address s.state_address)

  move_line-moved :
      (s : LineState) (le : LineEntry)
      → le.line < 2 ^ 32
      → ((move_line c s le).state_address ≡ s.state_address)
        × ((move_line c s le).have_initial_addr ≡ s.have_initial_addr)
        × ((move_line c s le).state_line ≡ le.line)
  unfolding move_line emit_advance_line
  move_line-moved s le h = ground (arith, ==_iff le.line s.state_line)

  emit_row-moved :
      (s : LineState) (le : LineEntry)
      → le.line < 2 ^ 32
      → (registers (emit_row c s le) ≡ row_of le) × ((emit_row c s le).have_initial_addr ≡ true)
  unfolding emit_row emit_copy row_of
  emit_row-moved s le h =
      let (a, have, l) = move_address-moved s le in
      let (a', have', l') = move_line-moved (move_address c s le) le h in
      (rw (l', a', a) refl, have' ∙ have)

  emit_row-Emits :
      (s : LineState) (le : LineEntry)
      → Follows s le
      → Emits c s.buf
          (emit_row c s le).buf
          (registers s)
          (registers (emit_row c s le))
          (row_of le ∷ [])
  unfolding emit_row emit_copy row_of
  emit_row-Emits s le follows =
      let s1 = move_address c s le in
      let s2 = move_line c s1 le in
      let (up, ha, hl, hs) = follows in
      let (a, have, l) = move_address-moved s le in
      let (a', have', l') = move_line-moved s1 le hl in
      let first : Emits c s.buf s1.buf (registers s) (registers s1) [] =
        rw (a, l) (move_address-Emits c are s le follows) in
      let second : Emits c s1.buf s2.buf (registers s1) (registers s2) [] =
        rw (a', l') (move_line-Emits c are s1 le hl (rw l hs)) in
      let third : Emits c s2.buf (u8 s2.buf c.lns_copy) (registers s2) (registers s2)
          (row_of le ∷ []) =
        subst
          (λ (r : Row).
            Emits c s2.buf (u8 s2.buf c.lns_copy) (registers s2) (registers s2) (r ∷ []))
          (emit_row-moved s le hl).0 (copy-Emits c are s2.buf (registers s2)) in
      Emits-then c are _ _ _ _ _ _ [] _ first (Emits-then c are _ _ _ _ _ _ [] _ second third)

  -- The entries may follow.
  data FollowAll : LineState → List LineEntry → Type 0 where
    follow_nil : {s : LineState} → FollowAll s []
    follow_cons :
        {s : LineState} {le : LineEntry} {les : List LineEntry}
        → Follows s le
        → FollowAll (emit_row c s le) les
        → FollowAll s (le ∷ les)

  FollowAll-cons :
      (s : LineState) (le : LineEntry) (les : List LineEntry)
      → Follows s le
      → Ascending (le ∷ les)
      → Fit les
      → FollowAll s (le ∷ les)
  unfolding row_of
  FollowAll-cons s le [] follows up fit = follow_cons follows follow_nil
  FollowAll-cons s le (le' ∷ les) follows (ascending_cons below up) (fit_cons ha hl fit) =
      let (after, have) = emit_row-moved s le follows.2 in
      let address : (emit_row c s le).state_address ≡ le.address =
        ap (λ (r : Row). r.address) after in
      let line : (emit_row c s le).state_line ≡ le.line = ap (λ (r : Row). r.line) after in
      follow_cons follows (
        FollowAll-cons (emit_row c s le) le' les
          ((λ _. rw address below), ha, hl, rw line follows.2) up fit)

  emit_rows-Emits :
      (s : LineState) (les : List LineEntry)
      → FollowAll s les
      → Emits c s.buf
          (emit_rows c s les).buf
          (registers s)
          (registers (emit_rows c s les))
          (map row_of les)
  unfolding emit_rows
  emit_rows-Emits s [] follow_nil = Emits-none c are s.buf (registers s)
  emit_rows-Emits s (le ∷ les) (follow_cons follows rest) =
      Emits-then c are _ _ _ _ _ _ (row_of le ∷ []) (map row_of les) (emit_row-Emits s le follows)
        (emit_rows-Emits (emit_row c s le) les rest)

  FollowAll-start :
      (s : LineState) (les : List LineEntry)
      → s.have_initial_addr ≡ false
      → s.state_line < 2 ^ 32
      → Ascending les
      → Fit les
      → FollowAll s les
  FollowAll-start s [] none_yet h up fit = follow_nil
  FollowAll-start s (le ∷ les) none_yet h up (fit_cons ha hl fit) =
      FollowAll-cons s le les ((λ have. ground (arith, none_yet, have)), ha, hl, h) up fit

  -- The program that `write_program` appends makes a reader add the rows of the entries, in their
  -- order, and end the sequence; it needs addresses in ascending order, 64-bit addresses and 32-bit
  -- lines.
  pub write_program-Runs :
      (les : List LineEntry) (line : Bytes)
      → Ascending les
      → Fit les
      → (program : Bytes) × (write_program c les line ≡ line ++ program)
        × Runs c initial program (map row_of les)
  unfolding write_program step extended_step decode_le
  write_program-Runs les line up fit =
      let start : LineState = record {
        buf = uleb128 (u8 line c.lns_set_file) 0;
        state_address = 0;
        state_line = 1;
        have_initial_addr = false;
      } in
      let set = set_file-Emits c are line 0 initial (omega arith) in
      let rows = emit_rows-Emits start les (FollowAll-start start les refl (omega arith) up fit) in
      let all = Emits-then c are _ _ _ _ _ _ [] _ set rows in
      let u = uleb128-Appends (u8 (emit_rows c start les).buf 0) 1 (omega arith) in
      let tail = 0 ∷ (u.added ++ (c.lne_end_sequence % 256 ∷ [])) in
      (
        all.added ++ tail,
        ap (λ (x : Bytes). push x (c.lne_end_sequence % 256)) u.appended
            ∙ ap (λ (x : Bytes). push (push x 0 ++ u.added) (c.lne_end_sequence % 256)) all.appended
            ∙ simp append_assoc,
        subst (λ (rows : List Row). Runs c initial (all.added ++ tail) rows)
            (append-nil (map row_of les))
            (all.runs tail []
              (finish (ground (arith, u.decodes (c.lne_end_sequence % 256 ∷ []), are.extended)))),
      )
