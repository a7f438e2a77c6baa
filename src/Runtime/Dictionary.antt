-- ===== src/Runtime/Dictionary.antt =====
-- `std::map<std::string, std::string>`: pairs in the order of their keys, as iteration visits them.
use dinner_is_servered.Prelude.{
  Bool, true, false, List, [], ◌∷◌, Option, none, some, Bytes, equal, ltb, ◌==◌, if◌then◌else◌,
  ◌&&◌, ◌||◌,
}

abbrev pub StringMap : Type 0
StringMap = List (Bytes × Bytes)

-- `operator<` of two strings
unfoldable pub less : Bytes → Bytes → Bool
less [] [] = false
less [] (y ∷ ys) = true
less (x ∷ xs) [] = false
less (x ∷ xs) (y ∷ ys) = ltb x y || (x == y && less xs ys)

-- `m[key] = value`
unfoldable pub assign : Bytes → Bytes → StringMap → StringMap
assign key value [] = (key, value) ∷ []
assign key value ((k, v) ∷ m) =
    let rest = assign key value m in
    if equal k key
    then (key, value) ∷ m
    else if less key k
    then (key, value) ∷ (k, v) ∷ m
    else (k, v) ∷ rest

unfoldable pub find : Bytes → StringMap → Option Bytes
find key [] = none
find key ((k, v) ∷ m) = if equal k key then some v else find key m

abbrev or_default : Option Bytes → Bytes
or_default none = []
or_default (some v) = v

-- `m[key]`, read: a key that is missing gives the empty string
unfoldable pub at_key : StringMap → Bytes → Bytes
at_key m key = or_default (find key m)

abbrev pub keys : StringMap → List Bytes
keys [] = []
keys ((k, v) ∷ m) = k ∷ keys m
