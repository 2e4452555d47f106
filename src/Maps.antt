-- ===== src/Maps.antt =====
-- What the sources use of `BTreeMap<String, String>`: its pairs in the order of their keys, which is
-- the order of their bytes.
pub mod Order
pub mod Lookup
use picosignet.Prelude.{
  ℕ, Bool, true, false, Option, none, some, List, [], ◌∷◌, ltb, ◌==◌, if◌then◌else◌, is_some, All,
  ◌≡◌,
}
use picosignet.Prelude.Bytes.{Bytes, beq_bytes}

abbrev pub Map : Type 0
Map = List (Bytes × Bytes)

-- `str`'s order.
unfoldable pub before : Bytes → Bytes → Bool
before [] [] = false
before [] (b ∷ ys) = true
before (a ∷ xs) [] = false
before (a ∷ xs) (b ∷ ys) = if ltb a b then true else if a == b then before xs ys else false

unfoldable pub insert : Bytes → Bytes → Map → Map
insert k v [] = (k, v) ∷ []
insert k v ((j, w) ∷ rest) =
    if beq_bytes k j
    then (k, v) ∷ rest
    else if before k j
    then (k, v) ∷ ((j, w) ∷ rest)
    else (j, w) ∷ insert k v rest

-- The loop that inserts a map's pairs into another.
unfoldable pub insert_all : Map → Map → Map
insert_all [] m = m
insert_all ((k, v) ∷ rest) m = insert_all rest (insert k v m)

unfoldable pub lookup : Bytes → Map → Option Bytes
lookup k [] = none
lookup k ((j, w) ∷ rest) = if beq_bytes k j then some w else lookup k rest

unfoldable pub contains_key : Bytes → Map → Bool
contains_key k m = is_some (lookup k m)

-- The keys rise.
unfoldable pub IsSorted : Map → Type 0
IsSorted [] = Unit {0}
IsSorted ((k, v) ∷ rest) = All (λ e. before k e.0 ≡ true) rest × IsSorted rest
