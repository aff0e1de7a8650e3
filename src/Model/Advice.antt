-- ===== src/Model/Advice.antt =====
-- internal/model/advice.go: which advice is delivered to which agent.
use Prim.Native.Char.{code}
use Prim.Native.String.{len}
use kbeads.Prelude.{
  ℕ, suc, ◌+◌, ◌-◌, ◌*◌, ◌^◌, String, Bool, true, false, not, ◌&&◌, ◌||◌, List, [], ◌∷◌, ◌++◌,
  Option, none, some, mem, ltb, leb, eqb, ◌==◌, if◌then◌else◌,
}
use kbeads.Prelude.Int.{ℤ, pos, negsuc, eq_int}
use kbeads.Prelude.Text.{append, split, has_prefix, is_char, is_digit, is_space}

-- The loop of StripGroupPrefix from the byte `i` on.
unfoldable pub strip_loop : ℕ → String → Option String
strip_loop i String.[] = none
strip_loop i (String.◌∷◌ c s) =
    let rest = strip_loop (suc i) s in
    if is_char b':' c && ltb 1 i then some s else if not (is_digit c) then none else rest

abbrev pub behind_g : String → Option String
behind_g String.[] = none
behind_g (String.◌∷◌ c s) = if is_char b'g' c then strip_loop 1 s else none

unfoldable pub strip_group_prefix : String → String
unfolding strip_loop
strip_group_prefix label =
    if leb 3 (len label) then elim (behind_g label) [ none ↦ label | some s ↦ s ] else label

-- label[:idx] and label[idx+1:] for the first ':', with idx itself counted in bytes.
unfoldable pub cut_colon : String → Option (String × String)
cut_colon String.[] = none
cut_colon (String.◌∷◌ c s) =
    let rest = cut_colon s in
    if is_char b':' c
    then some ("", s)
    else elim rest [ none ↦ none | some (w, r) ↦ some (String.◌∷◌ c w, r) ]

-- fmt.Sscanf(prefix, "g%d", &n): the blanks, the sign and the digits behind the g. What follows the
-- digits is not read, and a number beyond an int is an error.
unfoldable pub read_digits : ℕ → String → ℕ
read_digits acc String.[] = acc
read_digits acc (String.◌∷◌ c s) =
    let more = read_digits (acc * 10 + (code c - 48)) s in if is_digit c then more else acc

abbrev starts_digit : String → Bool
starts_digit String.[] = false
starts_digit (String.◌∷◌ c s) = is_digit c

abbrev scan_unsigned : Bool → String → Option ℤ
scan_unsigned negative s =
    if not (starts_digit s)
    then none
    else let n = read_digits 0 s in
      if negative
      then (if leb n (2 ^ 63) then some (if eqb n 0 then pos 0 else negsuc (n - 1)) else none)
      else if ltb n (2 ^ 63)
      then some (pos n)
      else none

abbrev scan_sign : String → Option ℤ
scan_sign String.[] = none
scan_sign (String.◌∷◌ c s) =
    if is_char b'-' c
    then scan_unsigned true s
    else if is_char b'+' c
    then scan_unsigned false s
    else scan_unsigned false (String.◌∷◌ c s)

unfoldable pub scan_int : String → Option ℤ
unfolding read_digits
scan_int String.[] = none
scan_int (String.◌∷◌ c s) =
    let rest = scan_int s in
    if is_char 10 c then none else if is_space c then rest else scan_sign (String.◌∷◌ c s)

abbrev pub scan_group : String → Option ℤ
scan_group String.[] = none
scan_group (String.◌∷◌ c s) = if is_char b'g' c then scan_int s else none

-- Go's map[int][]string.
abbrev pub Groups : Type 0
Groups = List (ℤ × List String)

-- groups[n] = append(groups[n], label)
unfoldable pub add_to_group : ℤ → String → Groups → Groups
add_to_group n label [] = (n, label ∷ []) ∷ []
add_to_group n label ((k, ls) ∷ gs) =
    if eq_int k n then (k, ls ++ label ∷ []) ∷ gs else (k, ls) ∷ add_to_group n label gs

-- The group number of a label with a gN: prefix, and what stands behind the colon.
unfoldable pub group_of : String → Option (ℤ × String)
unfolding cut_colon scan_int
group_of label =
    if has_prefix label "g"
    then elim (cut_colon label) [
      | none ↦ none
      | some (w, rest) ↦
          if ltb 1 (len w)
          then elim (scan_group w) [ none ↦ none | some n ↦ some (n, rest) ]
          else none
    ]
    else none

unfoldable pub group_labels : ℕ → Groups → List String → Groups
group_labels next gs [] = gs
group_labels next gs (label ∷ labels) = elim (group_of label) [
  | some (n, rest) ↦ group_labels next (add_to_group n rest gs) labels
  | none ↦ group_labels (next + 1) (add_to_group (pos next) label gs) labels
]

unfoldable pub parse_groups : List String → Groups
parse_groups labels = group_labels 1000 [] labels

unfoldable pub within : List String → List String → Bool
within subs [] = true
within subs (l ∷ ls) = let rest = within subs ls in if not (mem l subs) then false else rest

unfoldable pub some_group : List String → Groups → Bool
unfolding within
some_group subs [] = false
some_group subs ((n, ls) ∷ gs) =
    let rest = some_group subs gs in
    elim ls [ [] ↦ rest | l ∷ more ↦ if within subs (l ∷ more) then true else rest ]

abbrev pub must_have : String → Bool
must_have clean = has_prefix clean "rig:" || has_prefix clean "agent:"

-- The loop over the required labels; both tests of its body return false.
unfoldable pub required_ok : List String → List String → Bool
required_ok subs [] = true
required_ok subs (l ∷ ls) =
    let rest = required_ok subs ls in
    let clean = strip_group_prefix l in
    if must_have clean && not (mem clean subs) then false else rest

unfoldable pub matches_subscriptions : List String → List String → Bool
matches_subscriptions advice_labels subscriptions =
    if required_ok subscriptions advice_labels
    then some_group subscriptions (parse_groups advice_labels)
    else false

abbrev ends_in_s : String → Bool
ends_in_s String.[] = false
ends_in_s (String.◌∷◌ c String.[]) = is_char b's' c
ends_in_s (String.◌∷◌ c (String.◌∷◌ d s)) = ends_in_s (String.◌∷◌ d s)

abbrev drop_last : String → String
drop_last String.[] = String.[]
drop_last (String.◌∷◌ c String.[]) = String.[]
drop_last (String.◌∷◌ c (String.◌∷◌ d s)) = String.◌∷◌ c (drop_last (String.◌∷◌ d s))

unfoldable pub singularize : String → String
singularize plural = if ends_in_s plural then drop_last plural else plural

abbrev pub rig_labels : List String → List String
rig_labels [] = []
rig_labels (p ∷ ps) = if p == "" then [] else append "rig:" p ∷ []

abbrev pub role_labels : List String → List String
role_labels (p ∷ role ∷ ps) =
    append "role:" role
    ∷ (if singularize role == role then [] else append "role:" (singularize role) ∷ [])
role_labels _ = []

unfoldable pub build_agent_subscriptions : String → List String → List String
build_agent_subscriptions agent_id extra =
    let parts = split b'/' agent_id in
    extra ++ ("global" ∷ append "agent:" agent_id ∷ (rig_labels parts ++ role_labels parts))
