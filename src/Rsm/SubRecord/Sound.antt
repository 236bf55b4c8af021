-- ===== src/Rsm/SubRecord/Sound.antt =====
-- `parse_sub` on every buffer.
use vscode_delphi_extension.Base.{
  ℕ, zero, suc, ◌+◌, ◌-◌, ◌≤◌, ◌<◌, ◌≡◌, refl, min, not, Option, none, some, leb, if◌then◌else◌,
  ◌>>=◌, ℤ, Bytes, length, read, at, Returns, Returns-bind, arith, Bool-cases, inl, inr,
}
use vscode_delphi_extension.Rsm.Internal.{is_printable_name, is_name_char}
use vscode_delphi_extension.Rsm.SubRecord.{
  SubRec, find_marker, find_next_tag, composite_form, TypeRef, type_ref, stored_offset, with_offset,
  with_ref, parse_body, parse_named, parse_sub,
}

-- A property of the result of a search, if there is one.
abbrev pub IfFound {ℓ} : {A : Type ℓ} → (A → Type 0) → Option A → Type 0
IfFound P none = Unit
IfFound P (some a) = P a

pub is_printable_name-Returns :
    (buf : Bytes) (p n : ℕ)
    → p + n ≤ length buf
    → Returns (λ b. Unit {0}) (is_printable_name buf p n)
unfolding is_printable_name
is_printable_name-Returns buf p zero h = tt
is_printable_name-Returns buf p (suc n) h = elim (Bool-cases (is_name_char (at buf p))) [
  | inl e ↦ ground (arith, e, is_printable_name-Returns buf (p + 1) n (omega arith))
  | inr e ↦ ground (arith, e)
]

find_marker-Returns :
    (buf : Bytes) (body_at : ℕ)
    → body_at + 5 < length buf
    → Returns (IfFound (λ m. (body_at + 3 ≤ m) × (m ≤ body_at + 4))) (find_marker buf body_at)
unfolding find_marker
find_marker-Returns buf body_at h = ground arith

find_next_tag-Returns :
    (n : ℕ) (buf : Bytes) (k : ℕ)
    → k + n ≤ length buf
    → Returns (IfFound (λ j. (k ≤ j) × (j < k + n))) (find_next_tag n buf k)
unfolding find_next_tag
find_next_tag-Returns zero buf k h = tt
find_next_tag-Returns (suc n) buf k h =
    ground (arith, find_next_tag-Returns n buf (k + 1) (omega arith))

composite_form-Returns :
    (buf : Bytes) (body_at mb0 len : ℕ)
    → body_at + 5 < length buf
    → Returns (λ r. Unit {0}) (composite_form buf body_at mb0 len)
unfolding composite_form
composite_form-Returns buf body_at mb0 len h = ground arith

type_ref-Returns :
    (buf : Bytes) (body_at marker_at subtag mb0 : ℕ)
    → body_at + 5 < length buf
    → marker_at + 1 < length buf
    → Returns
        (IfFound (λ r. (marker_at < r.offset_at) × (r.offset_at ≤ marker_at + 2)))
        (type_ref buf body_at marker_at subtag mb0)
unfolding type_ref
type_ref-Returns buf body_at marker_at subtag mb0 hb hm = ground (
  arith,
  find_next_tag-Returns (min (body_at + 16) (length buf - 1) + 1 - (body_at + 5)) buf (body_at + 5)
      (omega arith),
  λ (e : ℕ). composite_form-Returns buf body_at mb0 (e - body_at) hb,
)

stored_offset-Returns :
    (buf : Bytes) (offset_at : ℕ)
    → Returns (IfFound (λ r. (offset_at < r.1) × (r.1 ≤ length buf))) (stored_offset buf offset_at)
unfolding stored_offset
stored_offset-Returns buf offset_at = ground arith

-- A record ends behind its start, inside the buffer, and its name, of 1 to 64 bytes as the byte
-- before it says, lies in it.
pub record IsSub (buf : Bytes) (s : ℕ) (r : SubRec) : Type 0 where
  pub name_is : r.name_at ≡ s + 2
  pub name_counted : r.namelen ≡ at buf (s + 1)
  pub some_name : 0 < r.namelen
  pub short_name : r.namelen ≤ 64
  pub name_fits : r.name_at + r.namelen < s + r.total_size
  pub grows : 7 < r.total_size
  pub inside : s + r.total_size ≤ length buf

module _ (buf : Bytes) (s tag nl : ℕ) (some_name : 0 < nl) (short_name : nl ≤ 64)
    (counted : nl ≡ at buf (s + 1)) where
  with_ref-Returns :
      (marker_at subtag : ℕ) (o : Option TypeRef)
      → s + 2 + nl + 3 ≤ marker_at
      → IfFound (λ r. (marker_at < r.offset_at) × (r.offset_at ≤ marker_at + 2)) o
      → Returns (IfFound (IsSub buf s)) (with_ref buf s tag nl subtag o)
  unfolding with_ref with_offset
  with_ref-Returns marker_at subtag none far h = tt
  with_ref-Returns marker_at subtag (some r) far (lo, hi) =
      Returns-bind (IfFound (λ q. (r.offset_at < q.1) × (q.1 ≤ length buf))) (IfFound (IsSub buf s))
        (stored_offset buf r.offset_at) _ (stored_offset-Returns buf r.offset_at) made
    where
      made :
          (off : Option (ℤ × ℕ))
          → IfFound (λ q. (r.offset_at < q.1) × (q.1 ≤ length buf)) off
          → IfFound (IsSub buf s) (with_offset s tag nl subtag r off)
      made none h = tt
      made (some (stored, behind)) (later, fits) = record {
        name_is = refl;
        name_counted = counted;
        some_name = some_name;
        short_name = short_name;
        name_fits = omega arith;
        grows = omega arith;
        inside = omega arith;
      }

  parse_body-Returns :
      (marker_at : ℕ)
      → s + 2 + nl + 5 < length buf
      → s + 2 + nl + 3 ≤ marker_at
      → marker_at + 1 < length buf
      → Returns (IfFound (IsSub buf s)) (parse_body buf s tag nl (s + 2 + nl) marker_at)
  unfolding parse_body
  parse_body-Returns marker_at hb far hl =
      let body_at = s + 2 + nl in
      let subtag_read : read buf body_at ≡ some (at buf body_at) = ground arith in
      let marker_read : read buf marker_at ≡ some (at buf marker_at) = ground arith in
      rw (subtag_read, marker_read)
        (Returns-bind
          (IfFound (λ (r : TypeRef). (marker_at < r.offset_at) × (r.offset_at ≤ marker_at + 2)))
          (IfFound (IsSub buf s))
          (type_ref buf body_at marker_at (at buf body_at) (at buf marker_at)) _
          (type_ref-Returns buf body_at marker_at (at buf body_at) (at buf marker_at) hb hl)
          (λ o h. with_ref-Returns marker_at (at buf body_at) o far h))

  parse_named-Returns : Returns (IfFound (IsSub buf s)) (parse_named buf s tag nl)
  unfolding parse_named
  parse_named-Returns = elim (Bool-cases (leb (length buf) (s + 2 + nl + 5))) [
    | inl short ↦ rw short tt
    | inr long ↦ rw long (
        Returns-bind (IfFound (λ m. (s + 2 + nl + 3 ≤ m) × (m ≤ s + 2 + nl + 4)))
          (IfFound (IsSub buf s)) (find_marker buf (s + 2 + nl)) _
          (find_marker-Returns buf (s + 2 + nl) (ground arith)) (marked (ground arith)))
  ]
    where
      marked :
          s + 2 + nl + 5 < length buf
          → (o : Option ℕ) → IfFound (λ m. (s + 2 + nl + 3 ≤ m) × (m ≤ s + 2 + nl + 4)) o
          → Returns (IfFound (IsSub buf s)) (elim o [
            | none ↦ some none
            | some marker_at ↦ if leb (length buf) (marker_at + 1) then some none else (do
              printable ← is_printable_name buf (s + 2) nl
              (if not printable then some none else parse_body buf s tag nl (s + 2 + nl) marker_at))
          ])
      marked long none h = tt
      marked long (some m) (lo, hi) = ground (
        arith,
        is_printable_name-Returns buf (s + 2) nl (omega arith),
        parse_body-Returns m long lo,
      )

-- On every buffer and at every index `parseSub` reads inside the buffer only, and a record that it
-- accepts has a name of 1 to 64 bytes, as many as the byte before it says, and ends behind its
-- start and its name, inside the buffer.
pub parse_sub-Returns : (buf : Bytes) (s : ℕ) → Returns (IfFound (IsSub buf s)) (parse_sub buf s)
unfolding parse_sub
parse_sub-Returns buf s = ground (
  arith,
  λ (h : 0 < at buf (s + 1)) (k : at buf (s + 1) ≤ 64).
      parse_named-Returns buf s (at buf s) (at buf (s + 1)) h k refl,
)
