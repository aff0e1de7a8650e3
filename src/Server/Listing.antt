-- ===== src/Server/Listing.antt =====
-- parseSortClause of internal/store/postgres/queries.go, whose result goes into the text of a query.
use kbeads.Prelude.{
  String, Bool, true, false, not, List, [], ◌∷◌, mem, mem→Elem, Elem, ◌==◌, if◌then◌else◌, ◌≡◌, ◌⊎◌,
  inl, inr, refl, Bool-cases,
}
use kbeads.Prelude.Text.{append, has_prefix, drop_prefix}

abbrev pub sort_columns : List String
sort_columns = "priority" ∷ "created_at" ∷ "updated_at" ∷ "title" ∷ "status" ∷ "type" ∷ []

abbrev column_of : Bool → String → String
column_of desc sort = if desc then drop_prefix sort "-" else sort

abbrev clause_of : Bool → String → String
clause_of true col = append col " DESC"
clause_of false col = append col " ASC"

unfoldable pub parse_sort_clause : String → String
parse_sort_clause sort =
    let desc = has_prefix sort "-" in
    let col = column_of desc sort in
    if sort == ""
    then "created_at DESC"
    else if not (mem col sort_columns)
    then "created_at DESC"
    else clause_of desc col

abbrev pub IsClause : String → Type 0
IsClause c =
    (col : String) × Elem col sort_columns × ((c ≡ append col " ASC") ⊎ (c ≡ append col " DESC"))

clause_of-IsClause :
    (desc : Bool) (col : String) → Elem col sort_columns → IsClause (clause_of desc col)
clause_of-IsClause true col m = (col, m, inr refl)
clause_of-IsClause false col m = (col, m, inl refl)

default-IsClause : IsClause "created_at DESC"
default-IsClause = ("created_at", inr (inl refl), inr refl)

-- Whatever text a client sends as the sort, the clause that reaches the query is one of the six sort
-- columns with ASC or DESC.
pub parse_sort_clause-IsClause : (sort : String) → IsClause (parse_sort_clause sort)
unfolding parse_sort_clause
parse_sort_clause-IsClause sort =
    let desc = has_prefix sort "-" in
    let col = column_of desc sort in
    elim (Bool-cases (sort == "")) [
      | inl y ↦ rw y default-IsClause
      | inr n ↦ elim (Bool-cases (mem col sort_columns)) [
        | inl there ↦ rw (n, there) (clause_of-IsClause desc col (mem→Elem col sort_columns there))
        | inr missing ↦ rw (n, missing) default-IsClause
      ]
    ]
