-- ===== src/Maps/Lookup.antt =====
-- What is found in a map after insertions.
use picosignet.Maps.Order.{before_irrefl, Above}
use picosignet.Prelude.{
  ◌≡◌, arith, refl, ◌∙◌, sym, ap, true, false, none, some, [], ◌∷◌, Bool-cases, inl, inr,
  if◌then◌else◌, Option-cases,
}
use picosignet.Prelude.Bytes.{Bytes, beq_bytes, beq_bytes-eq, beq_bytes_refl}
use picosignet.Maps.{Map, before, IsSorted, insert, insert_all, lookup, contains_key}

lookup-insert : (k v : Bytes) (m : Map) → lookup k (insert k v m) ≡ some v
unfolding lookup insert
lookup-insert k v [] = ground (arith, beq_bytes_refl k)
lookup-insert k v ((j, w) ∷ rest) = ground (arith, beq_bytes_refl k, lookup-insert k v rest)

lookup-insert_other :
    (i k v : Bytes) (m : Map) → beq_bytes i k ≡ false → lookup i (insert k v m) ≡ lookup i m
unfolding lookup insert
lookup-insert_other i k v [] h = ground arith
lookup-insert_other i k v ((j, w) ∷ rest) h =
    ground (arith, beq_bytes-eq k j, lookup-insert_other i k v rest h)

absent : (k : Bytes) (m : Map) → Above k m → lookup k m ≡ none
unfolding lookup
absent k [] a = refl
absent k ((j, w) ∷ rest) a = elim (Bool-cases (beq_bytes k j)) [
  | inl same ↦
      let e : before k k ≡ true = ap (λ t. before k t) (beq_bytes-eq k j same) ∙ a.0 in
      absurd (ground (arith, before_irrefl k))
  | inr other ↦ rw other (absent k rest a.1)
]

-- A key that the inserted map lacks keeps its value.
insert_all_lacks :
    (i : Bytes) (p m : Map) → lookup i p ≡ none → lookup i (insert_all p m) ≡ lookup i m
unfolding insert_all lookup
insert_all_lacks i [] m h = refl
insert_all_lacks i ((k, v) ∷ rest) m h = elim (Bool-cases (beq_bytes i k)) [
  | inl same ↦ absurd (ground arith)
  | inr other ↦
      insert_all_lacks i rest (insert k v m) (ground arith) ∙ lookup-insert_other i k v m other
]

-- A key of the inserted map has its value there.
insert_all_has :
    (i v : Bytes) (p m : Map)
    → IsSorted p
    → lookup i p ≡ some v
    → lookup i (insert_all p m) ≡ some v
unfolding insert_all lookup IsSorted
insert_all_has i v [] m s h = cc
insert_all_has i v ((k, w) ∷ rest) m s h = elim (Bool-cases (beq_bytes i k)) [
  | inl same ↦
      let e = beq_bytes-eq i k same in
      rw e (
        insert_all_lacks k rest (insert k w m) (absent k rest s.0)
        ∙ (lookup-insert k w m ∙ ground arith))
  | inr other ↦ insert_all_has i v rest (insert k w m) s.1 (ground arith)
]

-- After an insertion of all of `p`, a key has its value in `p`, or else the one it had.
pub lookup-insert_all :
    (i : Bytes) (p m : Map)
    → IsSorted p
    → lookup i (insert_all p m) ≡ (if contains_key i p then lookup i p else lookup i m)
unfolding contains_key
lookup-insert_all i p m s = elim (Option-cases (lookup i p)) [
  | inl lacks ↦ rw lacks (insert_all_lacks i p m lacks)
  | inr (v, found) ↦ rw found (insert_all_has i v p m s found)
]

-- A map copied pair by pair.
pub lookup_copied : (i : Bytes) (p : Map) → IsSorted p → lookup i (insert_all p []) ≡ lookup i p
unfolding contains_key lookup
lookup_copied i p s = elim (Option-cases (lookup i p)) [
  | inl lacks ↦ insert_all_lacks i p [] lacks ∙ sym lacks
  | inr (v, found) ↦ insert_all_has i v p [] s found ∙ sym found
]
