-- ===== src/Config/Entries.antt =====
-- The entries of a map, and the builtin configs of internal/server/config.go as one.
use kbeads.Prelude.{
  String, Bool, true, ◌&&◌, [], ◌∷◌, some, map, ◌==◌, inl, inr, ◌≡◌, refl, sym, ap, arith, eq_iff,
  Bool-cases, Elem, All,
}
use kbeads.Prelude.Dict
use kbeads.Prelude.Dict.{Dict, Distinct}
use kbeads.Server.Builtins.{builtin_configs}
use kbeads.Config.Rpc.{before_colon}
use kbeads.Config.Colons.{missing, missing_none, one_colon}

-- The entries of a map and what it has at their keys.
pub get→Elem : (k v : String) (m : Dict String) → Dict.get k m ≡ some v → Elem (k, v) m
unfolding Dict.get
get→Elem k v [] h = cc
get→Elem k v ((j, w) ∷ m) h = elim (Bool-cases (j == k)) [
  | inl y ↦ let here : some w ≡ some v = rw y at h in let same = (eq_iff j k).0 y in inl cc
  | inr n ↦ let there : Dict.get k m ≡ some v = rw n at h in inr (get→Elem k v m there)
]

pub Elem→get : (k v : String) (m : Dict String) → Distinct m → Elem (k, v) m → Dict.get k m ≡ some v
unfolding Dict.get
Elem→get k v [] d h = elim h [ ]
Elem→get k v ((j, w) ∷ m) d (inl e) =
    let (a, b) : (k ≡ j) × (v ≡ w) = (ap (λ x. x.0) e, ap (λ x. x.1) e) in
    rw ((eq_iff j k).1 (sym a)) (ap some (sym b))
Elem→get k v ((j, w) ∷ m) d (inr h) = ground (arith, eq_iff j k, Elem→get k v m d.1 h)

pub Elem-keys : (k v : String) (m : Dict String) → Elem (k, v) m → Elem k (map (λ c. c.0) m)
Elem-keys k v [] h = elim h [ ]
Elem-keys k v (c ∷ m) (inl e) = inl (ap (λ x. x.0) e)
Elem-keys k v (c ∷ m) (inr h) = inr (Elem-keys k v m h)

pub keys-Elem :
    (k : String) (m : Dict String) → Elem k (map (λ c. c.0) m) → (v : String) × Elem (k, v) m
keys-Elem k [] h = elim h [ ]
keys-Elem k ((j, v) ∷ m) (inl e) = (v, inl (ap (λ x. (x, v)) e))
keys-Elem k (c ∷ m) (inr h) = let (v, there) = keys-Elem k m h in (v, inr there)

abbrev no_key_twice : Dict String → Bool
no_key_twice [] = true
no_key_twice ((k, v) ∷ m) = missing (Dict.get k m) && no_key_twice m

no_key_twice-Distinct : (m : Dict String) → no_key_twice m ≡ true → Distinct m
no_key_twice-Distinct [] h = tt
no_key_twice-Distinct ((k, v) ∷ m) h =
    let (a, b) : (missing (Dict.get k m) ≡ true) × (no_key_twice m ≡ true) = ground (arith, h) in
    (missing_none (Dict.get k m) a, no_key_twice-Distinct m b)

pub builtins-Distinct : Distinct builtin_configs
unfolding Dict.get
builtins-Distinct = no_key_twice-Distinct builtin_configs refl

abbrev each_one_colon : Dict String → Bool
each_one_colon [] = true
each_one_colon ((k, v) ∷ m) = one_colon k && each_one_colon m

each_one_colon-All : (m : Dict String) → each_one_colon m ≡ true → All (λ b. one_colon b.0 ≡ true) m
each_one_colon-All [] h = tt
each_one_colon-All ((k, v) ∷ m) h =
    let (a, b) : (one_colon k ≡ true) × (each_one_colon m ≡ true) = ground (arith, h) in
    (a, each_one_colon-All m b)

pub builtins_one_colon : All (λ b. one_colon b.0 ≡ true) builtin_configs
unfolding before_colon
builtins_one_colon = each_one_colon-All builtin_configs refl
