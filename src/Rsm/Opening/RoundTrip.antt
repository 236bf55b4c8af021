-- ===== src/Rsm/Opening/RoundTrip.antt =====
-- A header that is written to a file is read back.
use vscode_delphi_extension.Base.{
  ℕ, ◌/◌, ◌%◌, ◌^◌, ◌≤◌, ◌<◌, ◌≡◌, refl, ap, ◌∙◌, true, false, some, [], ◌∷◌, ◌++◌, ◌==◌, ltb,
  Bytes, All, length, read_u32, read_u32_lem, word_at, or32, or32_sum, arith, length-append, ==_iff,
}
use vscode_delphi_extension.Rsm.Types.{Header}
use vscode_delphi_extension.Rsm.Opening.{opened, magic_number, until_zero, read_fields, open_buffer}

-- The four bytes of a word, lowest first, in front of the rest.
abbrev pub word_then : ℕ → Bytes → Bytes
word_then v rest = v % 256 ∷ v / 2 ^ 8 % 256 ∷ v / 2 ^ 16 % 256 ∷ v / 2 ^ 24 % 256 ∷ rest

abbrev pub header_bytes : Header → Bytes → Bytes
header_bytes h rest = word_then h.magic (
    word_then h.metadata_start (
      word_then h.unit_count (
        word_then h.version_minor (
          word_then h.timestamp (
            word_then h.flags
              (word_then h.legacy_imagebase (word_then h.reserved_1c (h.exe_path ++ 0 ∷ rest))))))))

pub record IsHeader (h : Header) : Type 0 where
  pub magic_is : h.magic ≡ magic_number
  pub words :
      All
        (λ v. v < 2 ^ 32)
        (h.metadata_start ∷ h.unit_count ∷ h.version_minor ∷ h.timestamp ∷ h.flags
          ∷ h.legacy_imagebase ∷ h.reserved_1c ∷ [])
  pub path_is : All (λ b. 0 < b) h.exe_path

word_back :
    (v : ℕ)
    → v < 2 ^ 32
    → or32 (v % 256) (v / 2 ^ 8 % 256) (v / 2 ^ 16 % 256) (v / 2 ^ 24 % 256) ≡ v
word_back v h =
    or32_sum (v % 256) (v / 2 ^ 8 % 256) (v / 2 ^ 16 % 256) (v / 2 ^ 24 % 256) (omega arith)
      (omega arith) (omega arith)
    ∙ omega arith

until_zero-append :
    (path rest : Bytes) → All (λ b. 0 < b) path → until_zero (path ++ 0 ∷ rest) ≡ path
unfolding until_zero
until_zero-append [] rest h = refl
until_zero-append (b ∷ path) rest (hb, h) = ground (arith, until_zero-append path rest h)

-- The word at an index of a buffer that is long enough.
read_word :
    (buf : Bytes) (i v : ℕ)
    → 0x21 ≤ length buf
    → i ≤ 0x1C
    → word_at buf i ≡ v
    → read_u32 buf i ≡ some v
read_word buf i v long le e = read_u32_lem buf i (omega arith) ∙ ap some e

read_fields_lem :
    (h : Header) (rest : Bytes)
    → IsHeader h
    → 0x21 ≤ length (header_bytes h rest)
    → read_fields (header_bytes h rest) h.magic ≡ some h
unfolding read_fields
read_fields_lem h rest is long =
    let buf = header_bytes h rest in
    let (a, (b, (c, (d, (e, (f, (g, _))))))) = is.words in
    let w1 : read_u32 buf 0x04 ≡ some h.metadata_start =
      read_word buf 0x04 h.metadata_start long (omega arith) (word_back h.metadata_start a) in
    let w2 : read_u32 buf 0x08 ≡ some h.unit_count =
      read_word buf 0x08 h.unit_count long (omega arith) (word_back h.unit_count b) in
    let w3 : read_u32 buf 0x0C ≡ some h.version_minor =
      read_word buf 0x0C h.version_minor long (omega arith) (word_back h.version_minor c) in
    let w4 : read_u32 buf 0x10 ≡ some h.timestamp =
      read_word buf 0x10 h.timestamp long (omega arith) (word_back h.timestamp d) in
    let w5 : read_u32 buf 0x14 ≡ some h.flags =
      read_word buf 0x14 h.flags long (omega arith) (word_back h.flags e) in
    let w6 : read_u32 buf 0x18 ≡ some h.legacy_imagebase =
      read_word buf 0x18 h.legacy_imagebase long (omega arith) (word_back h.legacy_imagebase f) in
    let w7 : read_u32 buf 0x1C ≡ some h.reserved_1c =
      read_word buf 0x1C h.reserved_1c long (omega arith) (word_back h.reserved_1c g) in
    rw (w1, w2, w3, w4, w5, w6, w7, until_zero-append h.exe_path rest is.path_is) refl

-- A header with the right magic number, whose fields are words and whose path has no zero byte, is
-- read back from its bytes, whatever follows the zero behind the path.
pub open_buffer-header_bytes :
    (h : Header) (rest : Bytes) → IsHeader h → open_buffer (header_bytes h rest) ≡ some (opened h)
unfolding open_buffer read_fields
open_buffer-header_bytes h rest is =
    let buf = header_bytes h rest in
    let long : 0x21 ≤ length buf = omega (arith, length-append h.exe_path (0 ∷ rest)) in
    let is_long : ltb (length buf) 0x21 ≡ false = ground arith in
    let magic : read_u32 buf 0 ≡ some h.magic =
      read_word buf 0 h.magic long (omega arith) (word_back h.magic (omega (arith, is.magic_is))) in
    let good : (h.magic == magic_number) ≡ true = (==_iff h.magic magic_number).1 is.magic_is in
    rw (is_long, magic, good, read_fields_lem h rest is long) refl
