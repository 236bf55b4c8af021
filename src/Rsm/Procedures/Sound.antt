-- ===== src/Rsm/Procedures/Sound.antt =====
-- The parts of the procedure scan on every buffer: no read outside it, and progress.
use vscode_delphi_extension.Base.{
  ℕ, zero, suc, ◌+◌, ◌-◌, ◌≤◌, ◌<◌, ◌≡◌, min, some, leb, if◌then◌else◌, Bytes, length, at, Returns,
  Returns-bind, Returns-map, arith, Bool-cases, inl, inr,
}
use vscode_delphi_extension.Rsm.SubRecord.{SubRec}
use vscode_delphi_extension.Rsm.SubRecord.Sound.{IfFound, parse_sub-Returns}
use vscode_delphi_extension.Rsm.Procedures.{
  ends_at, sub_at, find_first_sub, re_anchor, wide_scan, Walk, add_sub, Walked, leave, go_on,
  walk_at, walk_round, walk,
}

ends_at-Returns : (buf : Bytes) (tb t : ℕ) → Returns (λ b. Unit {0}) (ends_at buf tb t)
unfolding ends_at
ends_at-Returns buf tb t = ground arith

sub_at-Returns : (buf : Bytes) (tb t : ℕ) → Returns (λ b. Unit {0}) (sub_at buf tb t)
unfolding sub_at
sub_at-Returns buf tb t = ground (arith, parse_sub-Returns buf t)

pub find_first_sub-Returns :
    (n : ℕ) (buf : Bytes) (t : ℕ)
    → t + n ≤ length buf
    → Returns (IfFound (λ r. (t ≤ r.0) × (r.0 < t + n))) (find_first_sub n buf t)
unfolding find_first_sub
find_first_sub-Returns zero buf t h = tt
find_first_sub-Returns (suc n) buf t h = ground (
  arith,
  sub_at-Returns buf (at buf t) t,
  ends_at-Returns buf (at buf t) t,
  find_first_sub-Returns n buf (t + 1) (omega arith),
)

re_anchor-Returns :
    (n : ℕ) (buf : Bytes) (s : ℕ)
    → s + n ≤ length buf
    → Returns (λ s'. (s ≤ s') × (s' ≤ s + n)) (re_anchor n buf s)
unfolding re_anchor
re_anchor-Returns zero buf s h = omega arith
re_anchor-Returns (suc n) buf s h = ground (
  arith,
  sub_at-Returns buf (at buf s) s,
  ends_at-Returns buf (at buf s) s,
  re_anchor-Returns n buf (s + 1) (omega arith),
)

wide_scan-Returns :
    (n : ℕ) (buf : Bytes) (ns : ℕ)
    → ns + n ≤ length buf
    → Returns (IfFound (λ r. (ns ≤ r) × (r < ns + n))) (wide_scan n buf ns)
unfolding wide_scan
wide_scan-Returns zero buf ns h = tt
wide_scan-Returns (suc n) buf ns h =
    ground
      (arith, sub_at-Returns buf (at buf ns) ns, wide_scan-Returns n buf (ns + 1) (omega arith))

-- A round leaves the loop, or goes on at a later index; neither index is outside the buffer.
abbrev Moves : Bytes → ℕ → Walked → Type 0
Moves buf s (leave w) = (s ≤ w.next) × (w.next ≤ length buf)
Moves buf s (go_on w) = (s < w.next) × (w.next ≤ length buf)

add_sub-next :
    (buf : Bytes) (w : Walk) (s : ℕ) (sub : SubRec)
    → (add_sub buf w s sub).next ≡ s + sub.total_size
unfolding add_sub
add_sub-next buf w s sub = ground arith

walk_at-Moves :
    (buf : Bytes) (w : Walk) (s : ℕ) → s + 8 < length buf → Returns (Moves buf s) (walk_at buf w s)
unfolding walk_at
walk_at-Moves buf w s h = ground (
  arith,
  wide_scan-Returns (min (s + 1024) (length buf - 8) - (s + 1)) buf (s + 1) (omega arith),
  parse_sub-Returns buf s,
  λ (sub : SubRec). add_sub-next buf w s sub,
)

Moves-from : (buf : Bytes) (s s' : ℕ) → s ≤ s' → (r : Walked) → Moves buf s' r → Moves buf s r
Moves-from buf s s' h (leave w) (lo, hi) = (omega arith, hi)
Moves-from buf s s' h (go_on w) (lo, hi) = (omega arith, hi)

module _ (buf : Bytes) (w : Walk) (inside : w.next ≤ length buf) where
  anchored-Moves :
      w.next + 8 < length buf
      → (s : ℕ) → (w.next ≤ s) × (s ≤ length buf)
      → Returns (Moves buf w.next) (
          if leb (length buf) (s + 8)
          then some (leave (record w { next = s }))
          else walk_at buf w s)
  anchored-Moves long s (lo, hi) = elim (Bool-cases (leb (length buf) (s + 8))) [
    | inl near_end ↦ rw near_end (lo, hi)
    | inr far ↦ rw far (
        Returns-map (Moves buf s) (Moves buf w.next) (walk_at buf w s)
          (λ r m. Moves-from buf w.next s lo r m) (walk_at-Moves buf w s (ground arith)))
  ]

  walk_round-Moves : Returns (Moves buf w.next) (walk_round buf w)
  unfolding walk_round
  walk_round-Moves = elim (Bool-cases (leb (length buf) (w.next + 8))) [
    | inl near_end ↦ rw near_end (omega arith, inside)
    | inr far ↦ rw far (
        let long : w.next + 8 < length buf = ground arith in
        Returns-bind (λ s. (w.next ≤ s) × (s ≤ length buf)) (Moves buf w.next)
          (re_anchor (min (w.next + 6) (length buf - 8) - w.next) buf w.next) _
          (Returns-map
            (λ s. (w.next ≤ s) × (s ≤ w.next + (min (w.next + 6) (length buf - 8) - w.next)))
            (λ s. (w.next ≤ s) × (s ≤ length buf)) _ (λ s h. (h.0, omega arith))
            (re_anchor-Returns (min (w.next + 6) (length buf - 8) - w.next) buf w.next
              (omega arith)))
          (anchored-Moves long))
  ]

-- From an index inside the buffer the loop over the sub-records stops, with one unit of fuel for
-- each byte that is left and one more, and it stops at a later index, inside the buffer.
pub walk-Returns :
    (fuel : ℕ) (buf : Bytes) (w : Walk)
    → w.next ≤ length buf
    → length buf < fuel + w.next
    → Returns (λ w'. (w.next ≤ w'.next) × (w'.next ≤ length buf)) (walk fuel buf w)
unfolding walk
walk-Returns zero buf w h enough = absurd (omega arith)
walk-Returns (suc fuel) buf w h enough =
    Returns-bind (Moves buf w.next) (λ w'. (w.next ≤ w'.next) × (w'.next ≤ length buf))
      (walk_round buf w) _ (walk_round-Moves buf w h)
      (after λ w' lo hi. walk-Returns fuel buf w' hi (omega arith))
  where
    after :
        ((w' : Walk)
          → w.next < w'.next
          → w'.next ≤ length buf
          → Returns (λ w''. (w'.next ≤ w''.next) × (w''.next ≤ length buf)) (walk fuel buf w'))
        → (r : Walked) → Moves buf w.next r
        → Returns
            (λ w'. (w.next ≤ w'.next) × (w'.next ≤ length buf))
            (elim r [ leave w' ↦ some w' | go_on w' ↦ walk fuel buf w' ])
    after again (leave w') m = m
    after again (go_on w') (lo, hi) =
        Returns-map (λ w''. (w'.next ≤ w''.next) × (w''.next ≤ length buf))
          (λ w''. (w.next ≤ w''.next) × (w''.next ≤ length buf)) (walk fuel buf w')
          (λ w'' h. (omega arith, h.1)) (again w' lo hi)
