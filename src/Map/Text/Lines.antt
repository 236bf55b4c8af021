-- ===== src/Map/Text/Lines.antt =====
-- The lines of a text, and the ends of a line.
use vscode_delphi_extension.Base.{
  ℕ, ◌≡◌, ◌≢◌, refl, sym, ◌∙◌, ap, true, false, List, [], ◌∷◌, ◌++◌, append_assoc, append-nil, map,
  ◌==◌, Bytes, All, arith, is_empty,
}
use vscode_delphi_extension.Map.Text.{
  lines_from, split_lines, chop_cr, is_ws, is_leading, is_trailing, lstrip, rstrip,
}

-- No newline.
abbrev pub IsLine : Bytes → Type 0
IsLine s = All (λ c. (c == 10) ≡ false) s

-- Each line with a carriage return and a newline, as Delphi writes them.
abbrev pub join_lines : List Bytes → Bytes
join_lines [] = []
join_lines (l ∷ ls) = l ++ 13 ∷ 10 ∷ join_lines ls

lines_step :
    (cur : Bytes) (c : ℕ) (s : Bytes)
    → (c == 10) ≡ false
    → lines_from cur (c ∷ s) ≡ lines_from (cur ++ c ∷ []) s
unfolding lines_from
lines_step [] c s h = rw (h, lines_from)
lines_step (x ∷ cur) c s h = rw (h, lines_from)

lines_newline : (cur s : Bytes) → lines_from cur (10 ∷ s) ≡ cur ∷ lines_from [] s
unfolding lines_from
lines_newline [] s = refl
lines_newline (x ∷ cur) s = refl

lines_from-line : (cur l s : Bytes) → IsLine l → lines_from cur (l ++ s) ≡ lines_from (cur ++ l) s
lines_from-line cur [] s h = ap (λ (x : Bytes). lines_from x s) (sym (append-nil cur))
lines_from-line cur (c ∷ l) s (hc, h) =
    lines_step cur c (l ++ s) hc
    ∙ lines_from-line (cur ++ c ∷ []) l s h
    ∙ ap (λ (x : Bytes). lines_from x s) (append_assoc cur (c ∷ []) l)

-- The main loop sees the lines of a text, each with its carriage return still on.
pub split_lines-join_lines :
    (ls : List Bytes) → All IsLine ls → split_lines (join_lines ls) ≡ map (λ l. l ++ 13 ∷ []) ls
unfolding split_lines
split_lines-join_lines [] h = unfold lines_from in refl
split_lines-join_lines (l ∷ ls) (hl, h) =
    lines_from-line [] l (13 ∷ 10 ∷ join_lines ls) hl
    ∙ lines_step l 13 (10 ∷ join_lines ls) refl
    ∙ lines_newline (l ++ 13 ∷ []) (join_lines ls)
    ∙ ap (λ (r : List Bytes). (l ++ 13 ∷ []) ∷ r) (split_lines-join_lines ls h)

pub chop_cr-append : (l : Bytes) → chop_cr (l ++ 13 ∷ []) ≡ l
unfolding chop_cr
chop_cr-append [] = refl
chop_cr-append (c ∷ []) = ap (λ (x : Bytes). c ∷ x) (chop_cr-append [])
chop_cr-append (c ∷ d ∷ l) = ap (λ (x : Bytes). c ∷ x) (chop_cr-append (d ∷ l))

pub lstrip-leading : (g s : Bytes) → All (λ c. is_leading c ≡ true) g → lstrip (g ++ s) ≡ lstrip s
unfolding lstrip
lstrip-leading [] s h = refl
lstrip-leading (c ∷ g) s (hc, h) = rw (hc, lstrip) (lstrip-leading g s h)

pub lstrip-stop : (c : ℕ) (s : Bytes) → is_leading c ≡ false → lstrip (c ∷ s) ≡ c ∷ s
unfolding lstrip
lstrip-stop c s h = rw (h, lstrip)

pub rstrip-cons : (c : ℕ) (s : Bytes) → is_trailing c ≡ false → rstrip (c ∷ s) ≡ c ∷ rstrip s
unfolding rstrip
rstrip-cons c s h = ground (arith, h)

-- A text whose last part has no space at its end keeps everything.
pub append-ne : (s w : Bytes) → w ≢ [] → is_empty (s ++ w) ≡ false
append-ne [] [] ne = absurd (ne refl)
append-ne [] (c ∷ w) ne = refl
append-ne (c ∷ s) w ne = refl

pub rstrip_keep : (c : ℕ) (s : Bytes) → is_empty s ≡ false → rstrip s ≡ s → rstrip (c ∷ s) ≡ c ∷ s
unfolding rstrip
rstrip_keep c s ne h = ground (arith, h, ne)

pub rstrip-append : (s w : Bytes) → w ≢ [] → rstrip w ≡ w → rstrip (s ++ w) ≡ s ++ w
rstrip-append [] w ne h = h
rstrip-append (c ∷ s) w ne h = rstrip_keep c (s ++ w) (append-ne s w ne) (rstrip-append s w ne h)

pub rstrip-word : (w : Bytes) → All (λ c. is_ws c ≡ false) w → rstrip w ≡ w
unfolding rstrip
rstrip-word [] h = refl
rstrip-word (c ∷ w) (hc, h) =
    rstrip-cons c w (ground (arith, hc)) ∙ ap (λ (x : Bytes). c ∷ x) (rstrip-word w h)
