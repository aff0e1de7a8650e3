-- ===== src/Server/ListProofs.antt =====
-- What queryListBeads (internal/store/postgres/queries.go) returns: the page of the rows that the filter
-- takes, with their labels, and the total.
use kbeads.Prelude.{
  ℕ, suc, String, Bool, true, false, List, [], ◌∷◌, ◌++◌, Option, none, some, keep, length, map,
  mem, ◌==◌, ◌≡◌, refl, sym, ap, ◌∙◌, arith, Bool-cases, inl, inr, append-nil, append_assoc, eq_iff,
  length-append,
}
use kbeads.Prelude.Int.{ℤ, pos, lt_int}
use kbeads.Model.Bead.{Bead}
use kbeads.Server.Store.{Answer, ok, Tables, labels_of}
use kbeads.Server.Actions.{World, Faults, call, bind, pure, run_unless}
use kbeads.Server.Query.{BeadFilter, Arg, number, Query, Database, bound, build_query, all_hold}
use kbeads.Server.Filter.{takes}
use kbeads.Server.QueryProofs.{build_query-Means}
use kbeads.Server.Clauses.{bound-new}
use kbeads.Server.ListBeads.{
  count_if, limited, skipped, rows_of, total_of, query_page, query_labels_in, with_labels, ids_of,
  label_page, list_beads, in_order, from_offset, up_to, page_of,
}

keep-cong :
    {A : Type 0} (p q : A → Bool) → ((x : A) → p x ≡ q x) → (xs : List A) → keep p xs ≡ keep q xs
keep-cong p q h [] = refl
keep-cong p q h (x ∷ xs) = rw (h x, keep-cong p q h xs) refl

-- A bound reads its own argument, whatever is bound after it.
limited_lem :
    (c : Bool) (n : ℤ) (q : Query) (more : List Arg) (xs : List Bead)
    → q.arg_idx ≡ length q.args
    → limited (bound ((count_if c n q).1.args ++ more)) (count_if c n q).0 xs ≡ up_to c n xs
limited_lem true n q more xs e =
    rw (append_assoc q.args (number n ∷ []) more, bound-new q.args q.arg_idx (number n) more e) refl
limited_lem false n q more xs e = refl

skipped_lem :
    (c : Bool) (n : ℤ) (q : Query) (xs : List Bead)
    → q.arg_idx ≡ length q.args
    → skipped (bound (count_if c n q).1.args) (count_if c n q).0 xs ≡ from_offset c n xs
skipped_lem true n q xs e = rw (bound-new q.args q.arg_idx (number n) [] e) refl
skipped_lem false n q xs e = refl

abbrev arg_if : Bool → ℤ → List Arg
arg_if true n = number n ∷ []
arg_if false n = []

-- A bound appends its argument and leaves the clauses.
count_if_lem :
    (c : Bool) (n : ℤ) (q : Query)
    → ((count_if c n q).1.args ≡ q.args ++ arg_if c n)
      × ((count_if c n q).1.clauses ≡ q.clauses)
      × (q.arg_idx ≡ length q.args → (count_if c n q).1.arg_idx ≡ length (count_if c n q).1.args)
count_if_lem true n q = (refl, refl, λ e. omega (arith, e, length-append q.args (number n ∷ [])))
count_if_lem false n q = (sym (append-nil q.args), refl, λ e. e)

abbrev no_bead : Bead
no_bead = record {
  id = "";
  slug = "";
  kind = "";
  bead_type = "";
  title = "";
  description = "";
  notes = "";
  status = "";
  priority = pos 0;
  assignee = "";
  owner = "";
  created_at = 0;
  created_by = "";
  updated_at = 0;
  closed_at = none;
  closed_by = "";
  due_at = none;
  defer_until = none;
  fields = "";
  labels = [];
  dependencies = [];
  comments = [];
}

module _ (db : Database) (f : BeadFilter) (t : Tables) where
  query_page_lem :
      query_page db f t
      ≡ (ok (page_of db t f, total_of (page_of db t f) (length (in_order db t f))), t)
  unfolding query_page
  query_page_lem =
      let l = lt_int (pos 0) f.limit in
      let o = lt_int (pos 0) f.offset in
      let q = build_query f in
      let r1 = count_if l f.limit q in
      let r2 = count_if o f.offset r1.1 in
      let tail = arg_if o f.offset in
      let (args1, clauses1, size1) = count_if_lem l f.limit q in
      let (args2, clauses2, size2) = count_if_lem o f.offset r1.1 in
      let counted = (build_query-Means db t no_bead f).counted in
      let all_args : r2.1.args ≡ q.args ++ (arg_if l f.limit ++ tail) =
        args2 ∙ ap (λ xs. xs ++ tail) args1 ∙ append_assoc q.args (arg_if l f.limit) tail in
      let taken : (b : Bead) → all_hold db t b (bound r2.1.args) r2.1.clauses ≡ takes db t f b =
        λ b.
          rw (all_args, clauses2, clauses1)
            ((build_query-Means db t b f).meant (arg_if l f.limit ++ tail)) in
      let paged : (xs : List Bead)
          → limited (bound r2.1.args) r1.0 (skipped (bound r2.1.args) r2.0 xs)
            ≡ up_to l f.limit (from_offset o f.offset xs) =
        λ xs.
          rw (skipped_lem o f.offset r1.1 xs (size1 counted), args2)
            (limited_lem l f.limit q tail (from_offset o f.offset xs) counted) in
      rw
        (
          keep-cong (λ b. all_hold db t b (bound r2.1.args) r2.1.clauses) (takes db t f) taken
              (rows_of t.beads),
          paged (in_order db t f),
        )
        refl

keep-keep :
    (id : String) (ids : List String) (rows : List (String × String))
    → mem id ids ≡ true
    → labels_of id (keep (λ r. mem r.0 ids) rows) ≡ labels_of id rows
unfolding labels_of
keep-keep id ids [] m = refl
keep-keep id ids ((i, l) ∷ rows) m =
    let ih = keep-keep id ids rows m in
    elim (Bool-cases (i == id)) [
      | inl y ↦
          let here : mem i ids ≡ true = ground (arith, eq_iff i id, y, m) in rw (here, y, ih) refl
      | inr n ↦ elim (Bool-cases (mem i ids)) [
        | inl here ↦ rw (here, n, ih) refl
        | inr off ↦ rw (off, n, ih) refl
      ]
    ]

-- Reading the labels of a page's beads only gives each its own labels.
labels_page_lem :
    (bs : List Bead) (ids : List String) (rows : List (String × String))
    → ((b : Bead) → mem b.id (ids_of bs) ≡ true → mem b.id ids ≡ true)
    → map (with_labels (keep (λ r. mem r.0 ids) rows)) bs ≡ map (with_labels rows) bs
labels_page_lem [] ids rows h = refl
labels_page_lem (b ∷ bs) ids rows h =
    let first : mem b.id ids ≡ true = h b (ground (arith, eq_iff b.id b.id)) in
    let rest = labels_page_lem bs ids rows (λ c m. h c (ground (arith, m))) in
    rw (keep-keep b.id ids rows first, rest) refl

call-free :
    {A : Type 0} (faults : Faults) (query : Tables → Answer A × Tables) (a : A) (w : World)
    → faults w.calls ≡ none
    → query w.tables ≡ (ok a, w.tables)
    → call faults query w ≡ (ok a, record w { calls = suc w.calls })
unfolding call
call-free faults query a w e q = rw (e, q) refl

label_page_lem :
    (faults : Faults) (bs : List Bead) (n : ℕ) (w : World)
    → ((i : ℕ) → faults i ≡ none)
    → (w' : World) × (label_page faults bs n w ≡ (ok (map (with_labels w.tables.labels) bs, n), w'))
      × (w'.tables ≡ w.tables)
unfolding query_labels_in
label_page_lem faults [] n w free = (w, refl, refl)
label_page_lem faults (b ∷ bs) n w free =
    let ids = ids_of (b ∷ bs) in
    let rows = keep (λ r. mem r.0 ids) w.tables.labels in
    (
      record w { calls = suc w.calls },
      rw
          (
            call-free faults (query_labels_in ids) rows w (free w.calls) refl,
            labels_page_lem (b ∷ bs) ids w.tables.labels (λ c m. m),
          )
          refl,
      refl,
    )

-- When no store call fails, listing gives exactly the rows that satisfy every condition of the filter, in
-- the order asked for, from the offset and at most the limit, each with its own labels; the total is the
-- number of all such rows, unless the page is empty, when it is 0. The tables stay as they are.
pub list_beads_lem :
    (db : Database) (faults : Faults) (f : BeadFilter) (w : World)
    → ((i : ℕ) → faults i ≡ none)
    → (w' : World) × (list_beads db faults f w ≡ (
      ok (
        map (with_labels w.tables.labels) (page_of db w.tables f),
        total_of (page_of db w.tables f) (length (in_order db w.tables f)),
      ),
      w',
    ))
      × (w'.tables ≡ w.tables)
unfolding list_beads
list_beads_lem db faults f w free =
    let page = page_of db w.tables f in
    let total = total_of page (length (in_order db w.tables f)) in
    let w1 : World = record w { calls = suc w.calls } in
    let (w2, run, same) = label_page_lem faults page total w1 free in
    (
      w2,
      rw
          (call-free faults (query_page db f) (page, total) w (free w.calls)
            (query_page_lem db f w.tables))
          run,
      same,
    )

call-reads :
    {A : Type 0} (o : Option String) (query : Tables → Answer A × Tables) (a : Answer A) (w : World)
    → query w.tables ≡ (a, w.tables)
    → (run_unless o query w).1.tables ≡ w.tables
call-reads (some why) query a w q = refl
call-reads none query a w q = rw q refl

label_page-tables :
    (faults : Faults) (bs : List Bead) (n : ℕ) (w : World)
    → (label_page faults bs n w).1.tables ≡ w.tables
unfolding call query_labels_in
label_page-tables faults [] n w = refl
label_page-tables faults (b ∷ bs) n w = labels_read (faults w.calls)
  where
    labels_read :
        (o : Option String)
        → (bind {B = List Bead × ℕ}
            (run_unless o (query_labels_in (ids_of (b ∷ bs))))
            (λ rows. pure (map (with_labels rows) (b ∷ bs), n))
            w).1.tables
          ≡ w.tables
    labels_read (some why) = refl
    labels_read none = refl

-- Listing leaves the tables as they are, also when it fails.
pub list_beads-tables :
    (db : Database) (faults : Faults) (f : BeadFilter) (w : World)
    → (list_beads db faults f w).1.tables ≡ w.tables
unfolding list_beads call query_page
list_beads-tables db faults f w = page_read (faults w.calls)
  where
    page_read :
        (o : Option String)
        → (bind {B = List Bead × ℕ}
            (run_unless o (query_page db f))
            (λ r. label_page faults r.0 r.1)
            w).1.tables
          ≡ w.tables
    page_read (some why) = refl
    page_read none = label_page-tables faults _ _ (record w { calls = suc w.calls })
