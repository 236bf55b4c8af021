-- ===== src/Map/Populate/Files.antt =====
-- The ids of source files: where the list of source files holds a path.
use vscode_delphi_extension.Base.{
  ℕ, zero, suc, ◌%◌, ◌^◌, ◌≡◌, refl, sym, ap, some, List, [], ◌∷◌, ◌++◌, append-nil, Bytes, length,
  length-append, get_elem?, beq_bytes, arith, inl, inr, Bool-cases, Option-cases,
}
use mathlib.Core.Option.{some-injective}
use vscode_delphi_extension.Model.Table.{get_elem?-append_end}
use vscode_delphi_extension.Map.Populate.{index_of, source_file_id}
use vscode_delphi_extension.Map.Populate.Grouping.{beq_bytes_iff}

pub get_elem?-kept {ℓ} :
    {A : Type ℓ} (xs ys : List A) (i : ℕ) (x : A)
    → get_elem? xs i ≡ some x
    → get_elem? (xs ++ ys) i ≡ some x
get_elem?-kept [] ys i x e = absurd (ground (arith, e))
get_elem?-kept (y ∷ xs) ys zero x e = e
get_elem?-kept (y ∷ xs) ys (suc i) x e = get_elem?-kept xs ys i x e

get_elem?-index_of :
    (path : Bytes) (files : List Bytes) (i : ℕ)
    → index_of path files ≡ some i
    → get_elem? files i ≡ some path
unfolding index_of
get_elem?-index_of path [] i e = absurd (ground (arith, e))
get_elem?-index_of path (f ∷ fs) i e = elim (Bool-cases (beq_bytes f path)) [
  | inl same ↦
      rw (sym (some-injective _ _ (rw same at e))) (ap some ((beq_bytes_iff f path).0 same))
  | inr other ↦ elim (Option-cases (index_of path fs)) [
    | inl missing ↦ absurd (ground (arith, e, other, missing))
    | inr (j, found) ↦
        let next : suc j ≡ i = ground (arith, e, other, found) in
        rw (sym next) (get_elem?-index_of path fs j found)
  ]
]

-- The files behind those that were there, and the index at which the path stands then.
pub record HasFile (files : List Bytes) (path : Bytes) (files' : List Bytes) (file_id : ℕ)
    : Type 0 where
  pub more : List Bytes
  pub files_are : files' ≡ files ++ more
  pub index : ℕ
  pub found : get_elem? files' index ≡ some path
  pub id_is : file_id ≡ index % 2 ^ 32

pub source_file_id-HasFile :
    (files : List Bytes) (path : Bytes)
    → HasFile files path (source_file_id files path).0 (source_file_id files path).1
unfolding source_file_id
source_file_id-HasFile files path = elim (Option-cases (index_of path files)) [
  | inr (i, e) ↦
      rw (e, source_file_id)
        (record {
          more = [];
          files_are = sym (append-nil files);
          index = i;
          found = get_elem?-index_of path files i e;
          id_is = refl;
        })
  | inl e ↦
      rw (e, source_file_id)
        (record {
          more = path ∷ [];
          files_are = refl;
          index = length files;
          found = get_elem?-append_end files path;
          id_is = ap (λ (n : ℕ). n % 2 ^ 32) (omega (arith, length-append files (path ∷ [])));
        })
]
