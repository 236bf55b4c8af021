-- ===== src/Rsm/Aggregates/Rounds.antt =====
-- One round of the scan for types reads inside the buffer and moves on.
use vscode_delphi_extension.Base.{
  ℕ, zero, suc, ◌+◌, ◌-◌, ◌≤◌, ◌<◌, ◌≡◌, refl, min, not, ◌||◌, ◌&&◌, Option, none, some, List, [],
  ◌∷◌, ◌++◌, ltb, ◌==◌, take, drop, Bytes, length, length-take, read, at, or16, ◌⊎◌, inl, inr,
  Returns, Returns-bind, arith, Bool-cases,
}
use vscode_delphi_extension.Rsm.SubRecord.Sound.{IfFound, is_printable_name-Returns}
use vscode_delphi_extension.Rsm.AggregateTypes.{AggregateType, Scanned}
use vscode_delphi_extension.Rsm.Aggregates.{
  read_u16_le, and_then, named_at, linked_hash_at, type_record, field_type_at, field_offset_at,
  find_end, parent_at, field_record, enum_record, property_record, find_field_list, base_at,
  class_header, aggregate_at,
}

and_then-Returns {ℓ κ} :
    {A : Type ℓ} {B : Type κ} (P : A → Type 0) (Q : B → Type 0) (o : Option (Option A))
    (f : A → Option (Option B))
    → Returns (IfFound P) o
    → ((a : A) → P a → Returns (IfFound Q) (f a))
    → Returns (IfFound Q) (and_then o f)
unfolding and_then
and_then-Returns P Q none f h k = elim h [ ]
and_then-Returns P Q (some none) f h k = h
and_then-Returns P Q (some (some a)) f h k = k a h

read_u16_le-inside :
    (buf : Bytes) (off : ℕ)
    → off + 1 < length buf
    → read_u16_le buf off ≡ some (or16 (at buf off) (at buf (off + 1)))
unfolding read_u16_le
read_u16_le-inside buf off h =
    let b0_read : read buf off ≡ some (at buf off) = ground arith in
    let b1_read : read buf (off + 1) ≡ some (at buf (off + 1)) = ground arith in
    rw (b0_read, b1_read) refl

named_at-Returns :
    (least room : ℕ) (buf : Bytes) (i : ℕ)
    → i + 1 < length buf
    → Returns (IfFound (λ nl. i + 2 + nl + room ≤ length buf)) (named_at least room buf i)
unfolding named_at
named_at-Returns least room buf i h =
    ground (arith, is_printable_name-Returns buf (i + 2) (at buf (i + 1)))

-- What a round does to the types and the index.
abbrev pub Grown : Bytes → Scanned → ℕ → Scanned × ℕ → Type 0
Grown buf s i (s', next) =
    (i < next)
    × (next ≤ length buf)
    × ((s'.aggregates ≡ s.aggregates)
        ⊎ ((a : AggregateType) × (s'.aggregates ≡ s.aggregates ++ a ∷ [])
            × (a.file_offset ≡ i)
            × (i + 7 + length a.name ≤ next)))

find_end-Returns :
    (n : ℕ) (buf : Bytes) (j : ℕ)
    → j + n ≤ length buf
    → Returns (IfFound (λ r. (j ≤ r) × (r < j + n))) (find_end n buf j)
unfolding find_end
find_end-Returns zero buf j h = tt
find_end-Returns (suc n) buf j h = ground (arith, find_end-Returns n buf (j + 1) (omega arith))

linked_hash_at-Returns :
    (buf : Bytes) (at kind : ℕ) → Returns (λ h. Unit) (linked_hash_at buf at kind)
unfolding linked_hash_at
linked_hash_at-Returns buf at kind = ground (arith, read_u16_le-inside buf (at + 7))

field_type_at-Returns :
    (buf : Bytes) (cur : ℕ)
    → cur < length buf
    → Returns
        (IfFound (λ (marker, hash, next). (cur < next) × (next ≤ length buf)))
        (field_type_at buf cur)
unfolding field_type_at
field_type_at-Returns buf cur h = ground (arith, read_u16_le-inside buf cur)

field_offset_at-Returns :
    (buf : Bytes) (cur : ℕ)
    → Returns
        (IfFound (λ (offset, next). (cur < next) × (next ≤ length buf)))
        (field_offset_at buf cur)
unfolding field_offset_at
field_offset_at-Returns buf cur = ground (arith, read_u16_le-inside buf cur)

parent_at-Returns :
    (buf : Bytes) (from walk_end : ℕ)
    → from ≤ walk_end
    → walk_end ≤ length buf
    → Returns
        (IfFound (λ (parent, ff_at). (from + 2 ≤ ff_at) × (ff_at < length buf)))
        (parent_at buf from walk_end)
unfolding parent_at
parent_at-Returns buf from walk_end h inside =
    and_then-Returns (λ r. (from ≤ r) × (r < from + (walk_end - from))) _
      (find_end (walk_end - from) buf from) _
      (find_end-Returns (walk_end - from) buf from (omega arith))
      (λ ff_at (lo, hi). ground (arith, read_u16_le-inside buf (ff_at - 2)))

find_field_list-Returns :
    (n : ℕ) (buf : Bytes) (j : ℕ)
    → j + n + 2 ≤ length buf
    → Returns (IfFound (λ r. (j ≤ r) × (r < j + n))) (find_field_list n buf j)
unfolding find_field_list
find_field_list-Returns zero buf j h = tt
find_field_list-Returns (suc n) buf j h =
    ground (arith, find_field_list-Returns n buf (j + 1) (omega arith))

name_short : (buf : Bytes) (i nl : ℕ) → length (take nl (drop (i + 2) buf)) ≤ nl
name_short buf i nl = omega (arith, length-take nl (drop (i + 2) buf))

module _ (anchors : List ℕ) (buf : Bytes) (s : Scanned) (i : ℕ) where
  type_record-Grown :
      (nl : ℕ)
      → i + 2 + nl + 6 ≤ length buf
      → Returns (IfFound (Grown buf s i)) (type_record anchors buf s i nl)
  unfolding type_record
  type_record-Grown nl fits =
      let at_ = i + 2 + nl in
      let z1_read : read buf (at_ + 1) ≡ some (at buf (at_ + 1)) = ground arith in
      let z2_read : read buf (at_ + 2) ≡ some (at buf (at_ + 2)) = ground arith in
      let kind_read : read buf at_ ≡ some (at buf at_) = ground arith in
      let own_read = read_u16_le-inside buf (at_ + 3) (omega arith) in
      rw (z1_read, z2_read, own_read, kind_read)
        (elim (Bool-cases (not (at buf (at_ + 1) == 0) || not (at buf (at_ + 2) == 0))) [
          | inl e ↦ rw e tt
          | inr e ↦ rw e (
              Returns-bind (λ h. Unit) (IfFound (Grown buf s i))
                (linked_hash_at buf at_ (at buf at_)) _
                (linked_hash_at-Returns buf at_ (at buf at_))
                (λ linked u. (
                  omega arith,
                  omega arith,
                  inr (_, refl, refl, omega (arith, name_short buf i nl)),
                )))
        ])

  field_record-Grown :
      (nl : ℕ)
      → i + 2 + nl + 6 ≤ length buf
      → Returns (IfFound (Grown buf s i)) (field_record anchors buf s i nl)
  unfolding field_record
  field_record-Grown nl fits =
      let at_ = i + 2 + nl in
      let z0_read : read buf at_ ≡ some (at buf at_) = ground arith in
      let z2_read : read buf (at_ + 2) ≡ some (at buf (at_ + 2)) = ground arith in
      let storage_read : read buf (at_ + 1) ≡ some (at buf (at_ + 1)) = ground arith in
      rw (z0_read, z2_read, storage_read)
        (elim (Bool-cases (not (at buf at_ == 0) || not (at buf (at_ + 2) == 0))) [
          | inl e ↦ rw e tt
          | inr e ↦ rw e (
              and_then-Returns _ (Grown buf s i) (field_type_at buf (at_ + 3)) _
                (field_type_at-Returns buf (at_ + 3) (omega arith))
                (λ (marker, hash, cur) (more, inside).
                  and_then-Returns _ (Grown buf s i) (field_offset_at buf cur) _
                    (field_offset_at-Returns buf cur)
                    (λ (offset, cur') (more', inside').
                      and_then-Returns _ (Grown buf s i)
                        (parent_at buf cur' (min (cur' + 24) (length buf))) _
                        (parent_at-Returns buf cur' (min (cur' + 24) (length buf)) (omega arith)
                          (omega arith))
                        (λ (parent, ff_at) (lo, hi). (omega arith, omega arith, inl refl)))))
        ])

  enum_record-Grown :
      (nl : ℕ)
      → i + 2 + nl + 9 ≤ length buf
      → Returns (IfFound (Grown buf s i)) (enum_record anchors buf s i nl)
  unfolding enum_record
  enum_record-Grown nl fits = ground (arith, read_u16_le-inside buf (i + 2 + nl + 3))

  property_record-Grown :
      (nl : ℕ)
      → i + 2 + nl + 10 ≤ length buf
      → Returns (IfFound (Grown buf s i)) (property_record anchors buf s i nl)
  unfolding property_record
  property_record-Grown nl fits =
      let at_ = i + 2 + nl in
      let z0_read : read buf at_ ≡ some (at buf at_) = ground arith in
      let z1_read : read buf (at_ + 1) ≡ some (at buf (at_ + 1)) = ground arith in
      let z2_read : read buf (at_ + 2) ≡ some (at buf (at_ + 2)) = ground arith in
      let s4_read : read buf (at_ + 4) ≡ some (at buf (at_ + 4)) = ground arith in
      let s5_read : read buf (at_ + 5) ≡ some (at buf (at_ + 5)) = ground arith in
      let marker_read : read buf (at_ + 3) ≡ some (at buf (at_ + 3)) = ground arith in
      let differs =
        not (at buf at_ == 0)
        || not (at buf (at_ + 1) == 0x02)
        || not (at buf (at_ + 2) == 0)
        || not (at buf (at_ + 4) == 0xFE)
        || not (at buf (at_ + 5) == 0x0F) in
      rw (z0_read, z1_read, z2_read, s4_read, s5_read, marker_read)
        (elim (Bool-cases differs) [
          | inl e ↦ rw e tt
          | inr e ↦ rw e (
              and_then-Returns _ (Grown buf s i)
                (parent_at buf (at_ + 6) (min (at_ + 64) (length buf))) _
                (parent_at-Returns buf (at_ + 6) (min (at_ + 64) (length buf)) (omega arith)
                  (omega arith))
                (λ (parent, ff_at) (lo, hi). (omega arith, omega arith, inl refl)))
        ])

  base_at-Returns :
      (fl : Option ℕ)
      → IfFound (λ j. (i + 7 ≤ j) × (j < length buf)) fl
      → Returns (λ h. Unit) (base_at buf fl)
  unfolding base_at
  base_at-Returns none h = tt
  base_at-Returns (some j) h = ground (arith, read_u16_le-inside buf (j - 10))

  class_header-Grown :
      i + 24 < length buf → Returns (IfFound (Grown buf s i)) (class_header buf s i)
  unfolding class_header
  class_header-Grown fits =
      let h1_read : read buf (i + 1) ≡ some (at buf (i + 1)) = ground arith in
      let h2_read : read buf (i + 2) ≡ some (at buf (i + 2)) = ground arith in
      let h3_read : read buf (i + 3) ≡ some (at buf (i + 3)) = ground arith in
      let h4_read : read buf (i + 4) ≡ some (at buf (i + 4)) = ground arith in
      let own_read = read_u16_le-inside buf (i + 5) (omega arith) in
      let begins =
        at buf (i + 1) == 0
        && at buf (i + 2) == 0x10
        && at buf (i + 3) == 0
        && at buf (i + 4) == 0 in
      let n = min (i + 80) (length buf - 3) - (i + 7) in
      rw (h1_read, h2_read, h3_read, h4_read, own_read)
        (elim (Bool-cases begins) [
          | inr e ↦ rw e tt
          | inl e ↦ rw e (
              Returns-bind (IfFound (λ r. (i + 7 ≤ r) × (r < i + 7 + n))) (IfFound (Grown buf s i))
                (find_field_list n buf (i + 7)) _
                (find_field_list-Returns n buf (i + 7) (omega arith))
                (λ fl found.
                  Returns-bind (λ h. Unit) (IfFound (Grown buf s i)) (base_at buf fl) _
                    (base_at-Returns fl (inside fl found))
                    (λ base u. (omega arith, omega arith, inl refl))))
        ])
    where
      inside :
          (fl : Option ℕ)
          → IfFound (λ r. (i + 7 ≤ r) × (r < i + 7 + (min (i + 80) (length buf - 3) - (i + 7)))) fl
          → IfFound (λ j. (i + 7 ≤ j) × (j < length buf)) fl
      inside none h = tt
      inside (some j) h = omega arith

  pub aggregate_at-Grown :
      i + 8 < length buf → Returns (IfFound (Grown buf s i)) (aggregate_at anchors buf s i)
  unfolding aggregate_at
  aggregate_at-Grown h =
      let tag_read : read buf i ≡ some (at buf i) = ground arith in
      rw tag_read (elim (Bool-cases (at buf i == 0x2A)) [
        | inl e ↦ rw e (
            and_then-Returns _ (Grown buf s i) (named_at 2 6 buf i) _
              (named_at-Returns 2 6 buf i (omega arith)) (λ nl fits. type_record-Grown nl fits))
        | inr e0 ↦ rw e0 (elim (Bool-cases (at buf i == 0x2C)) [
          | inl e ↦ rw e (
              and_then-Returns _ (Grown buf s i) (named_at 1 6 buf i) _
                (named_at-Returns 1 6 buf i (omega arith)) (λ nl fits. field_record-Grown nl fits))
          | inr e1 ↦ rw e1 (elim (Bool-cases (at buf i == 0x25)) [
            | inl e ↦ rw e (
                and_then-Returns _ (Grown buf s i) (named_at 1 9 buf i) _
                  (named_at-Returns 1 9 buf i (omega arith)) (λ nl fits. enum_record-Grown nl fits))
            | inr e2 ↦ rw e2 (elim (Bool-cases (at buf i == 0x31)) [
              | inl e ↦ rw e (
                  and_then-Returns _ (Grown buf s i) (named_at 1 10 buf i) _
                    (named_at-Returns 1 10 buf i (omega arith))
                    (λ nl fits. property_record-Grown nl fits))
              | inr e3 ↦ rw e3 (elim (Bool-cases (at buf i == 0x47 && ltb (i + 24) (length buf))) [
                | inl e ↦ rw e (class_header-Grown (ground arith))
                | inr e ↦ rw e tt
              ])
            ])
          ])
        ])
      ])
