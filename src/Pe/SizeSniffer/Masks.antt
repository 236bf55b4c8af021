-- ===== src/Pe/SizeSniffer/Masks.antt =====
-- The masks on ModR/M and REX bytes, as arithmetic.
use vscode_delphi_extension.Base.{
  ℕ, ◌/◌, ◌%◌, ◌<◌, ◌≡◌, refl, ◌&&◌, not, bit_and, ◌==◌, all_below, agree_tests,
}
use vscode_delphi_extension.Pe.SizeSniffer.{is_rbp_disp8, is_rbp_disp32, is_rex, has_rex_w}

pub is_rbp_disp8_lem : (mr : ℕ) → mr < 256 → is_rbp_disp8 mr ≡ (mr % 8 == 5 && mr / 64 == 1)
unfolding is_rbp_disp8 all_below
is_rbp_disp8_lem =
    agree_tests (λ mr. bit_and mr 0xC7 == 0x45) (λ mr. mr % 8 == 5 && mr / 64 == 1) refl

pub is_rbp_disp32_lem : (mr : ℕ) → mr < 256 → is_rbp_disp32 mr ≡ (mr % 8 == 5 && mr / 64 == 2)
unfolding is_rbp_disp32 all_below
is_rbp_disp32_lem =
    agree_tests (λ mr. bit_and mr 0xC7 == 0x85) (λ mr. mr % 8 == 5 && mr / 64 == 2) refl

pub is_rex_lem : (b : ℕ) → b < 256 → is_rex b ≡ (b / 16 == 4)
unfolding is_rex all_below
is_rex_lem = agree_tests (λ b. bit_and b 0xF0 == 0x40) (λ b. b / 16 == 4) refl

pub has_rex_w_lem : (b : ℕ) → b < 256 → has_rex_w b ≡ (b / 8 % 2 == 1)
unfolding has_rex_w all_below
has_rex_w_lem = agree_tests (λ b. not (bit_and b 0x08 == 0)) (λ b. b / 8 % 2 == 1) refl
