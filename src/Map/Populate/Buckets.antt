-- ===== src/Map/Populate/Buckets.antt =====
-- The vectors of publics and of tables by module name.
use vscode_delphi_extension.Base.{
  ◌≡◌, refl, sym, ◌∙◌, ap, Bool-cases, Option, none, some, List, [], ◌∷◌, ◌++◌, append_assoc,
  append-nil, if◌then◌else◌, Bytes, beq_bytes, nat_eq, list_eq, find, inl, inr, Option-cases, map,
}
use vscode_delphi_extension.Map.Types.{LineTable, Public, MapFile}
use vscode_delphi_extension.Map.Populate.{
  is_in, owner, push_back, bucket_publics, Groups, group_table, group_tables,
}
use vscode_delphi_extension.Map.Populate.Grouping.{
  IsGrouped, with_last, has, find-push_back, group_table-IsGrouped, beq_bytes_iff,
}

-- A vector of a map; a missing one is empty.
abbrev pub vector {ℓ} : {V : Type ℓ} → Option (List V) → List V
vector none = []
vector (some vs) = vs

vector-push_back {ℓ} :
    {V : Type ℓ} (j k : Bytes) (v : V) (m : List (Bytes × List V))
    → vector (find j (push_back k v m))
      ≡ vector (find j m) ++ (if beq_bytes k j then v ∷ [] else [])
vector-push_back j k v m = elim (Bool-cases (beq_bytes k j)) [
  | inl same ↦ rw (find-push_back j k v m, same, (beq_bytes_iff k j).0 same) (last (find j m))
  | inr other ↦ rw (find-push_back j k v m, other) (sym (append-nil (vector (find j m))))
]
  where
    last : (o : Option (List _)) → with_last o v ≡ vector o ++ v ∷ []
    last none = refl
    last (some vs) = refl

-- The publics that belong to a module, and the tables of a module, in the order of the file.
abbrev pub publics_of : List Bytes → Bytes → List Public → List Public
publics_of names m [] = []
publics_of names m (p ∷ ps) =
    (elim (owner names p.name) [ some k ↦ (if beq_bytes k m then p ∷ [] else []) | none ↦ [] ])
    ++ publics_of names m ps

abbrev pub tables_of : Bytes → List LineTable → List LineTable
tables_of m [] = []
tables_of m (lt ∷ lts) = (if beq_bytes lt.module_name m then lt ∷ [] else []) ++ tables_of m lts

-- The names that are not listed yet, each once, behind those that are.
abbrev pub listed_once : List Bytes → List Bytes → List Bytes
listed_once listed [] = listed
listed_once listed (n ∷ ns) = listed_once (if is_in n listed then listed else listed ++ n ∷ []) ns

abbrev pub module_names : MapFile → List Bytes
module_names mf = map (λ (lt : LineTable). lt.module_name) mf.line_tables

-- The modules of the tables, each once, in the order of their first tables.
abbrev pub modules : MapFile → List Bytes
modules mf = listed_once [] (module_names mf)

pub vector-bucket_publics :
    (names : List Bytes) (m : Bytes) (ps : List Public) (b : List (Bytes × List Public))
    → vector (find m (bucket_publics names ps b)) ≡ vector (find m b) ++ publics_of names m ps
unfolding bucket_publics
vector-bucket_publics names m [] b = sym (append-nil (vector (find m b)))
vector-bucket_publics names m (p ∷ ps) b = elim (Option-cases (owner names p.name)) [
  | inl e ↦ rw e (vector-bucket_publics names m ps b)
  | inr (k, e) ↦ rw e (
      vector-bucket_publics names m ps (push_back k p b)
      ∙ ap (λ (x : List Public). x ++ publics_of names m ps) (vector-push_back m k p b)
      ∙ append_assoc (vector (find m b)) _ _)
]

pub vector-group_tables :
    (m : Bytes) (lts : List LineTable) (g : Groups)
    → vector (find m (group_tables g lts).lts_by_module)
      ≡ vector (find m g.lts_by_module) ++ tables_of m lts
unfolding group_tables group_table
vector-group_tables m [] g = sym (append-nil (vector (find m g.lts_by_module)))
vector-group_tables m (lt ∷ lts) g =
    vector-group_tables m lts (group_table g lt)
    ∙ ap (λ (x : List LineTable). x ++ tables_of m lts)
        (vector-push_back m lt.module_name lt g.lts_by_module)
    ∙ append_assoc (vector (find m g.lts_by_module)) _ _

group_table-order :
    (lt : LineTable) (g : Groups)
    → IsGrouped g
    → (group_table g lt).module_order ≡ (
        if is_in lt.module_name g.module_order
        then g.module_order
        else g.module_order ++ lt.module_name ∷ [])
unfolding group_table
group_table-order lt g h = elim (Option-cases (find lt.module_name g.lts_by_module)) [
  | inl e ↦ rw (e, h.listed lt.module_name ∙ ap has e, group_table) refl
  | inr (ts, e) ↦ rw (e, h.listed lt.module_name ∙ ap has e, group_table) refl
]

pub group_tables-order :
    (lts : List LineTable) (g : Groups)
    → IsGrouped g
    → (group_tables g lts).module_order
      ≡ listed_once g.module_order (map (λ (lt : LineTable). lt.module_name) lts)
unfolding group_tables
group_tables-order [] g h = refl
group_tables-order (lt ∷ lts) g h =
    group_tables-order lts (group_table g lt) (group_table-IsGrouped g lt h)
    ∙ ap (λ (order : List Bytes). listed_once order (map (λ (x : LineTable). x.module_name) lts))
        (group_table-order lt g h)
