-- ===== src/Maps/Order.antt =====
-- The order of keys, and that insertion keeps it.
use picosignet.Prelude.{refl, ◌≡◌, arith, true, false, [], ◌∷◌, Bool-cases, inl, inr, All}
use picosignet.Prelude.Bytes.{Bytes, beq_bytes, beq_bytes-eq}
use picosignet.Maps.{Map, before, insert, insert_all, IsSorted}

pub before_irrefl : (a : Bytes) → before a a ≡ false
unfolding before
before_irrefl [] = refl
before_irrefl (a ∷ xs) = ground (arith, before_irrefl xs)

before_trans : (a b c : Bytes) → before a b ≡ true → before b c ≡ true → before a c ≡ true
unfolding before
before_trans [] [] c h k = cc
before_trans [] (b ∷ ys) [] h k = cc
before_trans [] (b ∷ ys) (c ∷ zs) h k = refl
before_trans (a ∷ xs) [] c h k = cc
before_trans (a ∷ xs) (b ∷ ys) [] h k = cc
before_trans (a ∷ xs) (b ∷ ys) (c ∷ zs) h k = ground (arith, before_trans xs ys zs)

-- Of two keys that differ, one comes first.
after_if : (a b : Bytes) → beq_bytes a b ≡ false → before a b ≡ false → before b a ≡ true
unfolding before beq_bytes
after_if [] [] e h = cc
after_if [] (b ∷ ys) e h = cc
after_if (a ∷ xs) [] e h = refl
after_if (a ∷ xs) (b ∷ ys) e h = ground (arith, after_if xs ys)

abbrev pub Above : Bytes → Map → Type 0
Above k m = All (λ e. before k e.0 ≡ true) m

Above-trans : (k j : Bytes) (m : Map) → before k j ≡ true → Above j m → Above k m
Above-trans k j [] h a = tt
Above-trans k j (e ∷ rest) h a = (before_trans k j e.0 h a.0, Above-trans k j rest h a.1)

Above-insert : (j k v : Bytes) (m : Map) → before j k ≡ true → Above j m → Above j (insert k v m)
unfolding insert
Above-insert j k v [] h a = (h, tt)
Above-insert j k v ((i, w) ∷ rest) h a = elim (Bool-cases (beq_bytes k i)) [
  | inl same ↦ rw same (h, a.1)
  | inr other ↦ elim (Bool-cases (before k i)) [
    | inl first ↦ rw (other, first) (h, a)
    | inr later ↦ rw (other, later) (a.0, Above-insert j k v rest h a.1)
  ]
]

insert-IsSorted : (k v : Bytes) (m : Map) → IsSorted m → IsSorted (insert k v m)
unfolding insert IsSorted
insert-IsSorted k v [] s = (tt, tt)
insert-IsSorted k v ((j, w) ∷ rest) s = elim (Bool-cases (beq_bytes k j)) [
  | inl same ↦ rw same (rw (beq_bytes-eq k j same) s.0, s.1)
  | inr other ↦ elim (Bool-cases (before k j)) [
    | inl first ↦ rw (other, first) ((first, Above-trans k j rest first s.0), s)
    | inr later ↦
        rw (other, later)
          (Above-insert j k v rest (after_if k j other later) s.0, insert-IsSorted k v rest s.1)
  ]
]

pub insert_all-IsSorted : (p m : Map) → IsSorted m → IsSorted (insert_all p m)
unfolding insert_all
insert_all-IsSorted [] m s = s
insert_all-IsSorted ((k, v) ∷ rest) m s =
    insert_all-IsSorted rest (insert k v m) (insert-IsSorted k v m s)
