-- ===== src/Prelude/Text.antt =====
-- What the program uses of Go's `strings` package, on texts as sequences of characters.
use Prim.Native.Nat.{ℕ, suc}
use Prim.Native.Char.{Char, code}
use Prim.Native.String.{String}
use mathlib.Core.Path.{◌≡◌, refl}
use mathlib.Core.Bool.{Bool, true, false, ◌&&◌, ◌||◌}
use mathlib.Core.List.{List, [], ◌∷◌}
use native.Mathlib.Omega.{arith}
use text.Mathlib.TextEquality.{Char-path}
use kbeads.Prelude.Tests.{eqb, leb, if◌then◌else◌}

-- A character test by its code.
abbrev pub is_char : ℕ → Char → Bool
is_char n c = eqb (code c) n

abbrev pub is_digit : Char → Bool
is_digit c = leb b'0' (code c) && leb (code c) b'9'

-- s + t, by clauses, so that it computes at a literal `s`.
abbrev pub append : String → String → String
append String.[] t = t
append (String.◌∷◌ c s) t = String.◌∷◌ c (append s t)

-- strings.HasPrefix(s, p)
abbrev pub has_prefix : String → String → Bool
has_prefix s String.[] = true
has_prefix String.[] (String.◌∷◌ d p) = false
has_prefix (String.◌∷◌ c s) (String.◌∷◌ d p) = eqb (code c) (code d) && has_prefix s p

-- strings.TrimPrefix(s, p), for a text that has the prefix.
abbrev pub drop_prefix : String → String → String
drop_prefix s String.[] = s
drop_prefix String.[] (String.◌∷◌ d p) = String.[]
drop_prefix (String.◌∷◌ c s) (String.◌∷◌ d p) = drop_prefix s p

abbrev pub push : Char → List String → List String
push c [] = (String.◌∷◌ c String.[]) ∷ []
push c (w ∷ ws) = (String.◌∷◌ c w) ∷ ws

-- strings.Split(s, sep) at a separator of one character: never the empty list.
unfoldable pub split : ℕ → String → List String
split sep String.[] = "" ∷ []
split sep (String.◌∷◌ c s) =
    let rest = split sep s in if is_char sep c then "" ∷ rest else push c rest

split_topic : split b'.' "beads.bead.created" ≡ "beads" ∷ "bead" ∷ "created" ∷ []
unfolding split
split_topic = refl

split_edges : split b'.' ".a." ≡ "" ∷ "a" ∷ "" ∷ []
unfolding split
split_edges = refl

-- unicode.IsSpace, by the code point.
abbrev pub is_space : Char → Bool
is_space c =
    let n = code c in
    (leb 9 n && leb n 13)
    || (eqb n 32
        || (eqb n 0x85
            || (eqb n 0xA0
                || (eqb n 0x1680
                    || ((leb 0x2000 n && leb n 0x200A)
                        || (eqb n 0x2028
                            || (eqb n 0x2029
                                || (eqb n 0x202F || (eqb n 0x205F || eqb n 0x3000)))))))))

unfoldable pub trim_left : String → String
trim_left String.[] = String.[]
trim_left (String.◌∷◌ c s) = let rest = trim_left s in if is_space c then rest else String.◌∷◌ c s

abbrev pub keep_char : Char → String → String
keep_char c String.[] = if is_space c then String.[] else String.◌∷◌ c String.[]
keep_char c (String.◌∷◌ d s) = String.◌∷◌ c (String.◌∷◌ d s)

unfoldable pub trim_right : String → String
trim_right String.[] = String.[]
trim_right (String.◌∷◌ c s) = keep_char c (trim_right s)

-- strings.TrimSpace(s)
unfoldable pub trim_space : String → String
unfolding trim_left trim_right
trim_space s = trim_right (trim_left s)

-- len([]rune(s))
unfoldable pub rune_count : String → ℕ
rune_count String.[] = 0
rune_count (String.◌∷◌ c s) = suc (rune_count s)

trims : trim_space "  a b\n" ≡ "a b"
unfolding trim_space
trims = refl

-- A text with a prefix is that prefix and the rest, and the other way round.
pub append-drop_prefix : (p s : String) → has_prefix s p ≡ true → append p (drop_prefix s p) ≡ s
append-drop_prefix String.[] s h = refl
append-drop_prefix (String.◌∷◌ d p) String.[] h = cc
append-drop_prefix (String.◌∷◌ d p) (String.◌∷◌ c s) h =
    let (first, rest) : (eqb (code c) (code d) ≡ true) × (has_prefix s p ≡ true) = grind arith in
    let same : c ≡ d = Char-path c d (ground (arith, first)) in
    cc (same, append-drop_prefix p s rest)

pub has_prefix-append : (p t : String) → has_prefix (append p t) p ≡ true
has_prefix-append String.[] t = refl
has_prefix-append (String.◌∷◌ d p) t = ground (arith, has_prefix-append p t)

pub drop_prefix-append : (p t : String) → drop_prefix (append p t) p ≡ t
drop_prefix-append String.[] t = refl
drop_prefix-append (String.◌∷◌ d p) t = drop_prefix-append p t
