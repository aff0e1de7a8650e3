-- ===== src/Server/QueryProofs.antt =====
-- The meaning of the query that queryListBeads (internal/store/postgres/queries.go) builds.
use kbeads.Prelude.{
  ℕ, ◌+◌, String, Bool, true, false, not, ◌&&◌, ◌||◌, List, [], ◌∷◌, ◌++◌, length, mem, map, ◌==◌,
  if◌then◌else◌, ◌≡◌, refl, sym, ap, ◌∙◌, arith, append-nil, append_assoc, length-append,
}
use mathlib.Core.Bool.{and-true}
use kbeads.Prelude.Int.{lt_int, eq_int}
use kbeads.Model.Bead.{Bead}
use kbeads.Server.Store.{Tables}
use kbeads.Server.Query.{
  BeadFilter, Arg, text, Clause, status_in, type_in, type_not_in, kind_in, priority_is,
  priority_from, priority_to, assignee_is, label_any, id_any, parent_is, search_for,
  no_open_dependency, Query, Database, Binding, bind_each, bind_arg, add_list, add_no_open_deps,
  empty_query, build_query, bound, any_text_is, text_is, some_label, has_parent, has_open_dep,
  holds, all_hold,
}
use kbeads.Server.Filter.{when_list, takes}
use kbeads.Server.Clauses.{
  bound-new, all_hold-append, Means, Means-number, Means-text, Means-texts, Means-time,
  Means-labels, Means-fields,
}

-- The placeholders of a list read the list's texts, one each.
record Binds (xs : List String) (q : Query) (r : List ℕ × Query) : Type 0 where
  same_clauses : r.1.clauses ≡ q.clauses
  appended : r.1.args ≡ q.args ++ map text xs
  counted : r.1.arg_idx ≡ length r.1.args
  any_of : (s : String) (more : List Arg) → any_text_is (bound (r.1.args ++ more)) s r.0 ≡ mem s xs

bind_each-Binds :
    (xs : List String) (q : Query) → q.arg_idx ≡ length q.args → Binds xs q (bind_each xs q)
unfolding bind_each
bind_each-Binds [] q e = record {
  same_clauses = refl;
  appended = sym (append-nil q.args);
  counted = e;
  any_of = λ s more. refl;
}
bind_each-Binds (x ∷ xs) q e =
    let ih =
      bind_each-Binds xs (bind_arg (text x) q)
        (omega (arith, e, length-append q.args (text x ∷ []))) in
    let rest = map text xs in
    let whole = ih.appended ∙ append_assoc q.args (text x ∷ []) rest in
    record {
      same_clauses = ih.same_clauses;
      appended = whole;
      counted = ih.counted;
      any_of = λ s more. rw (ih.any_of s more) (
          ap (λ o. text_is s o || mem s xs)
            (ap (λ ys. bound (ys ++ more) (q.arg_idx + 1)) whole
              ∙ ap (λ ys. bound ys (q.arg_idx + 1)) (append_assoc q.args (text x ∷ rest) more)
              ∙ bound-new q.args q.arg_idx (text x) (rest ++ more) e));
    }

module _ (db : Database) (t : Tables) (b : Bead) where
  Means-list :
      (clause : List ℕ → Clause) (p : Bool → Bool) (s : String) (xs : List String) (q : Query)
      (v : Bool)
      → Means db t b q v
      → ((look : Binding) (ns : List ℕ) → holds db t b look (clause ns) ≡ p (any_text_is look s ns))
      → Means db t b (add_list clause xs q) (v && when_list p s xs)
  Means-list clause p s [] q v m h = rw (and-true v) m
  Means-list clause p s (x ∷ xs) q v m h =
      let r = bind_each (x ∷ xs) q in
      let bs = bind_each-Binds (x ∷ xs) q m.counted in
      let new = map text (x ∷ xs) in
      record {
        counted = bs.counted;
        meant = λ more.
            all_hold-append db t b (bound (r.1.args ++ more)) r.1.clauses (clause r.0)
            ∙ rw
                (
                  bs.same_clauses,
                  h (bound (r.1.args ++ more)) r.0,
                  bs.any_of s more,
                  bs.appended,
                  append_assoc q.args new more,
                  m.meant (new ++ more),
                )
                refl;
      }

  Means-no_open_deps :
      (on : Bool) (q : Query) (v : Bool)
      → Means db t b q v
      → Means db t b
          (add_no_open_deps on q)
          (v && (if on then not (has_open_dep b.id t t.deps) else true))
  unfolding holds
  Means-no_open_deps false q v m = rw (and-true v) m
  Means-no_open_deps true q v m =
      let w = not (has_open_dep b.id t t.deps) in
      record {
        counted = m.counted;
        meant = λ more.
            all_hold-append db t b (bound (q.args ++ more)) q.clauses no_open_dependency
            ∙ ap (λ x. x && w) (m.meant more);
      }

  -- The whole query takes a bead exactly if the filter does, whatever is bound after its arguments.
  pub build_query-Means : (f : BeadFilter) → Means db t b (build_query f) (takes db t f b)
  unfolding build_query takes holds all_hold
  build_query-Means f =
      let m0 : Means db t b empty_query true = record { counted = refl; meant = λ more. refl } in
      let m1 = Means-list status_in (λ x. x) b.status f.status _ _ m0 (λ look ns. refl) in
      let m2 = Means-list type_in (λ x. x) b.bead_type f.bead_type _ _ m1 (λ look ns. refl) in
      let m3 = Means-list type_not_in not b.bead_type f.exclude_types _ _ m2 (λ look ns. refl) in
      let m4 = Means-list kind_in (λ x. x) b.kind f.kind _ _ m3 (λ look ns. refl) in
      let m5 =
        Means-number db t b priority_is (λ p. eq_int b.priority p) f.priority _ _ m4
          (λ x look n e. rw e refl) in
      let m6 =
        Means-number db t b priority_from (λ p. not (lt_int b.priority p)) f.priority_min _ _ m5
          (λ x look n e. rw e refl) in
      let m7 =
        Means-number db t b priority_to (λ p. not (lt_int p b.priority)) f.priority_max _ _ m6
          (λ x look n e. rw e refl) in
      let m8 =
        Means-text db t b assignee_is (λ s. b.assignee == s) f.assignee _ _ m7
          (λ look n e. rw e refl) in
      let m9 = Means-labels db t b f.labels _ _ m8 in
      let m10 =
        Means-texts db t b label_any (λ ls. some_label b.id t.labels ls) f.labels_any _ _ m9
          (λ look n e. rw e refl) in
      let m11 =
        Means-texts db t b id_any (λ ids. mem b.id ids) f.ids _ _ m10 (λ look n e. rw e refl) in
      let m12 = Means-time db t b f.updated_after _ _ m11 in
      let m13 =
        Means-text db t b parent_is (λ p. has_parent b.id p t.deps) f.parent_id _ _ m12
          (λ look n e. rw e refl) in
      let m14 =
        Means-text db t b search_for (λ s. db.ilike b.title s || db.ilike b.description s) f.search
          _ _ m13 (λ look n e. rw e refl) in
      let m15 = Means-fields db t b f.fields _ _ m14 in Means-no_open_deps f.no_open_deps _ _ m15
