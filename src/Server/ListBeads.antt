-- ===== src/Server/ListBeads.antt =====
-- queryListBeads of internal/store/postgres/queries.go, from the built query to the page it returns:
-- LIMIT and OFFSET, the total of COUNT(*) OVER(), and the labels read in a second statement.
use kbeads.Prelude.{
  ℕ, zero, suc, ◌+◌, String, Bool, true, false, List, [], ◌∷◌, Option, none, some, keep, length,
  map, mem, take, if◌then◌else◌,
}
use kbeads.Prelude.Int.{ℤ, pos, pos_part, lt_int}
use kbeads.Prelude.Dict.{Dict}
use kbeads.Model.Bead.{Bead}
use kbeads.Server.Store.{Answer, ok, Tables, labels_of}
use kbeads.Server.Actions.{Action, Faults, call, bind, pure}
use kbeads.Server.Listing.{parse_sort_clause}
use kbeads.Server.Query.{
  BeadFilter, Arg, number, Query, Database, Binding, bound, bind_arg, build_query, all_hold,
}
use kbeads.Server.Filter.{takes}

abbrev pub drop : {A : Type 0} → ℕ → List A → List A
drop zero xs = xs
drop (suc n) [] = []
drop (suc n) (x ∷ xs) = drop n xs

-- The placeholder of a LIMIT or OFFSET, when there is one.
abbrev pub count_if : Bool → ℤ → Query → Option ℕ × Query
count_if true n q = (some (q.arg_idx + 1), bind_arg (number n) q)
count_if false n q = (none, q)

abbrev pub add_count : ℤ → Query → Option ℕ × Query
add_count n q = count_if (lt_int (pos 0) n) n q

abbrev pub count_of : Option Arg → ℕ
count_of (some (number n)) = pos_part n
count_of _ = 0

abbrev pub limited : Binding → Option ℕ → List Bead → List Bead
limited look none xs = xs
limited look (some i) xs = take (count_of (look i)) xs

abbrev pub skipped : Binding → Option ℕ → List Bead → List Bead
skipped look none xs = xs
skipped look (some i) xs = drop (count_of (look i)) xs

abbrev pub rows_of : Dict Bead → List Bead
rows_of rows = map (λ r. r.1) rows

-- Every row of the result has the number of all rows taken; without a row there is no number.
abbrev pub total_of : List Bead → ℕ → ℕ
total_of [] n = 0
total_of (b ∷ bs) n = n

-- What the statement makes of a query with its bounds.
abbrev pub select : Database → Tables → String → Query → Option ℕ → Option ℕ → List Bead × ℕ
select db t order q limit offset =
    let look = bound q.args in
    let rows = db.order_by order (keep (λ b. all_hold db t b look q.clauses) (rows_of t.beads)) in
    let page = limited look limit (skipped look offset rows) in (page, total_of page (length rows))

unfoldable pub query_page : Database → BeadFilter → Tables → Answer (List Bead × ℕ) × Tables
query_page db f t =
    let (limit, q1) = add_count f.limit (build_query f) in
    let (offset, q2) = add_count f.offset q1 in
    (ok (select db t (parse_sort_clause f.sort) q2 limit offset), t)

-- SELECT bead_id, label FROM labels WHERE bead_id IN (...)
unfoldable pub query_labels_in : List String → Tables → Answer (List (String × String)) × Tables
query_labels_in ids t = (ok (keep (λ r. mem r.0 ids) t.labels), t)

abbrev pub with_labels : List (String × String) → Bead → Bead
with_labels rows b = record b { labels = labels_of b.id rows }

abbrev pub ids_of : List Bead → List String
ids_of bs = map (λ b. b.id) bs

abbrev pub label_page : Faults → List Bead → ℕ → Action (List Bead × ℕ)
label_page faults [] total = pure ([], total)
label_page faults (b ∷ bs) total =
    bind (call faults (query_labels_in (ids_of (b ∷ bs))))
      (λ rows. pure (map (with_labels rows) (b ∷ bs), total))

unfoldable pub list_beads : Database → Faults → BeadFilter → Action (List Bead × ℕ)
unfolding query_page query_labels_in labels_of
list_beads db faults f = bind (call faults (query_page db f)) (λ r. label_page faults r.0 r.1)

-- The page, said directly: the rows the filter takes, in order, from the offset, at most the limit.
abbrev pub in_order : Database → Tables → BeadFilter → List Bead
in_order db t f =
    db.order_by (parse_sort_clause f.sort) (keep (λ b. takes db t f b) (rows_of t.beads))

abbrev pub from_offset : Bool → ℤ → List Bead → List Bead
from_offset c n xs = if c then drop (pos_part n) xs else xs

abbrev pub up_to : Bool → ℤ → List Bead → List Bead
up_to c n xs = if c then take (pos_part n) xs else xs

abbrev pub page_of : Database → Tables → BeadFilter → List Bead
page_of db t f =
    up_to (lt_int (pos 0) f.limit) f.limit
      (from_offset (lt_int (pos 0) f.offset) f.offset (in_order db t f))
