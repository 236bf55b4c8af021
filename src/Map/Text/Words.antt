-- ===== src/Map/Text/Words.antt =====
-- Words and lines of a text that is laid out with known gaps.
use vscode_delphi_extension.Base.{
  ℕ, ◌≡◌, ◌≢◌, refl, sym, ◌∙◌, ap, true, false, List, [], ◌∷◌, ◌++◌, append_assoc, append-nil, map,
  Bytes, All, none, some,
}
use vscode_delphi_extension.Map.Text.{is_ws, tokens_from, tokenize}

abbrev pub IsGap : Bytes → Type 0
IsGap s = All (λ c. is_ws c ≡ true) s

abbrev pub HasNoGap : Bytes → Type 0
HasNoGap s = All (λ c. is_ws c ≡ false) s

abbrev pub IsWord : Bytes → Type 0
IsWord w = (w ≢ []) × HasNoGap w

-- Words, each behind a gap that is not empty.
abbrev pub Spaced : List (Bytes × Bytes) → Type 0
Spaced [] = Unit
Spaced ((g, w) ∷ ps) = ((g ≢ []) × IsGap g × IsWord w) × Spaced ps

-- A line of words: the gap before the first word may be empty.
abbrev pub IsLine : List (Bytes × Bytes) → Type 0
IsLine [] = Unit
IsLine ((g, w) ∷ ps) = (IsGap g × IsWord w) × Spaced ps

pub Spaced-IsLine : (ps : List (Bytes × Bytes)) → Spaced ps → IsLine ps
Spaced-IsLine [] h = tt
Spaced-IsLine ((g, w) ∷ ps) ((ne, hg, hw), h) = ((hg, hw), h)

abbrev pub lay : List (Bytes × Bytes) → Bytes → Bytes
lay [] end = end
lay ((g, w) ∷ ps) end = g ++ (w ++ lay ps end)

skip_step : (c : ℕ) (s : Bytes) → is_ws c ≡ true → tokens_from none (c ∷ s) ≡ tokens_from none s
unfolding tokens_from
skip_step c s h = rw (h, tokens_from)

begin_step :
    (c : ℕ) (s : Bytes) → is_ws c ≡ false → tokens_from none (c ∷ s) ≡ tokens_from (some (c ∷ [])) s
unfolding tokens_from
begin_step c s h = rw (h, tokens_from)

end_step :
    (cur : Bytes) (c : ℕ) (s : Bytes)
    → is_ws c ≡ true
    → tokens_from (some cur) (c ∷ s) ≡ cur ∷ tokens_from none s
unfolding tokens_from
end_step cur c s h = rw (h, tokens_from)

extend_step :
    (cur : Bytes) (c : ℕ) (s : Bytes)
    → is_ws c ≡ false
    → tokens_from (some cur) (c ∷ s) ≡ tokens_from (some (cur ++ c ∷ [])) s
unfolding tokens_from
extend_step cur c s h = rw (h, tokens_from)

tokens_from-gap : (g s : Bytes) → IsGap g → tokens_from none (g ++ s) ≡ tokens_from none s
tokens_from-gap [] s h = refl
tokens_from-gap (c ∷ g) s (hc, h) = skip_step c (g ++ s) hc ∙ tokens_from-gap g s h

tokens_from-word :
    (cur w s : Bytes)
    → HasNoGap w
    → tokens_from (some cur) (w ++ s) ≡ tokens_from (some (cur ++ w)) s
tokens_from-word cur [] s h = ap (λ (x : Bytes). tokens_from (some x) s) (sym (append-nil cur))
tokens_from-word cur (c ∷ w) s (hc, h) =
    extend_step cur c (w ++ s) hc
    ∙ tokens_from-word (cur ++ c ∷ []) w s h
    ∙ ap (λ (x : Bytes). tokens_from (some x) s) (append_assoc cur (c ∷ []) w)

tokens_from-end : (end : Bytes) → IsGap end → tokens_from none end ≡ []
unfolding tokens_from
tokens_from-end [] h = refl
tokens_from-end (c ∷ end) (hc, h) = skip_step c end hc ∙ tokens_from-end end h

tokens_from-begin :
    (w s : Bytes) (ts : List Bytes)
    → IsWord w
    → ((cur : Bytes) → tokens_from (some cur) s ≡ cur ∷ ts)
    → tokens_from none (w ++ s) ≡ w ∷ ts
tokens_from-begin [] s ts (nw, hw) behind = absurd (nw refl)
tokens_from-begin (d ∷ w) s ts (nw, (hd, hw)) behind =
    begin_step d (w ++ s) hd ∙ tokens_from-word (d ∷ []) w s hw ∙ behind (d ∷ w)

-- Behind a word that has begun.
tokens_from-lay :
    (ps : List (Bytes × Bytes)) (end : Bytes)
    → Spaced ps
    → IsGap end
    → (cur : Bytes) → tokens_from (some cur) (lay ps end) ≡ cur ∷ map (λ p. p.1) ps
unfolding tokens_from
tokens_from-lay [] [] h he cur = refl
tokens_from-lay [] (c ∷ end) h (hc, he) cur =
    end_step cur c end hc ∙ ap (λ (ts : List Bytes). cur ∷ ts) (tokens_from-end end he)
tokens_from-lay (([], w) ∷ ps) end ((ne, hg, hw), h) he cur = absurd (ne refl)
tokens_from-lay ((c ∷ g, w) ∷ ps) end ((ne, (hc, hg), hw), h) he cur =
    end_step cur c (g ++ (w ++ lay ps end)) hc
    ∙ ap (λ (ts : List Bytes). cur ∷ ts)
        (tokens_from-gap g (w ++ lay ps end) hg
          ∙ tokens_from-begin w (lay ps end) _ hw (tokens_from-lay ps end h he))

-- The tokens of a line are its words, whatever white space lies between them, and whatever white
-- space or none lies before the first and behind the last.
pub tokenize-lay :
    (ps : List (Bytes × Bytes)) (end : Bytes)
    → IsLine ps
    → IsGap end
    → tokenize (lay ps end) ≡ map (λ p. p.1) ps
unfolding tokenize
tokenize-lay [] end h he = tokens_from-end end he
tokenize-lay ((g, w) ∷ ps) end ((hg, hw), h) he =
    tokens_from-gap g (w ++ lay ps end) hg
    ∙ tokens_from-begin w (lay ps end) _ hw (tokens_from-lay ps end h he)
