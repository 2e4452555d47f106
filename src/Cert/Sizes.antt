-- ===== src/Cert/Sizes.antt =====
-- hsm-core/src/validate.rs, the merged extensions: how long they are on the wire.
use picosignet.Prelude.{
  ℕ, ◌+◌, ◌≡◌, ◌≤◌, arith, [], ◌∷◌, ◌++◌, inl, inr, Bool-cases, All, length, length-append,
}
use picosignet.Prelude.Bytes.{Bytes, beq_bytes}
use picosignet.Wrap.{put_string}
use picosignet.Maps.{Map, before, insert, insert_all}
use picosignet.Cert.{marshal_tuples, value_field}

module _ (P : Bytes × Bytes → Type 0) where
  All-insert : (k v : Bytes) (m : Map) → P (k, v) → All P m → All P (insert k v m)
  unfolding insert
  All-insert k v [] p h = (p, tt)
  All-insert k v ((j, w) ∷ rest) p h = elim (Bool-cases (beq_bytes k j)) [
    | inl e ↦ rw e (p, h.1)
    | inr e ↦ elim (Bool-cases (before k j)) [
      | inl f ↦ rw (e, f) (p, h)
      | inr f ↦ rw (e, f) (h.0, All-insert k v rest p h.1)
    ]
  ]

  pub All-insert_all : (m n : Map) → All P m → All P n → All P (insert_all m n)
  unfolding insert_all
  All-insert_all [] n h k = k
  All-insert_all ((j, w) ∷ rest) n h k =
      All-insert_all rest (insert j w n) h.1 (All-insert j w n h.0 k)

length-put_string : (s rest : Bytes) → length (put_string s ++ rest) ≡ 4 + length s + length rest
unfolding put_string
length-put_string s rest = omega (arith, length-append s rest)

-- What a pair takes on the wire.
abbrev entry : Bytes → Bytes → ℕ
entry k v = 8 + length k + length (value_field v)

length-entry :
    (k v : Bytes) (rest : Map)
    → length (marshal_tuples ((k, v) ∷ rest)) ≡ entry k v + length (marshal_tuples rest)
unfolding marshal_tuples
length-entry k v rest = omega (
  arith,
  length-put_string k (put_string (value_field v) ++ marshal_tuples rest),
  length-put_string (value_field v) (marshal_tuples rest),
)

length-insert :
    (k v : Bytes) (m : Map)
    → length (marshal_tuples (insert k v m)) ≤ entry k v + length (marshal_tuples m)
unfolding insert
length-insert k v [] = omega (arith, length-entry k v [])
length-insert k v ((j, w) ∷ rest) = elim (Bool-cases (beq_bytes k j)) [
  | inl e ↦ rw e (omega (arith, length-entry k v rest, length-entry j w rest))
  | inr e ↦ elim (Bool-cases (before k j)) [
    | inl f ↦ rw (e, f) (omega (arith, length-entry k v ((j, w) ∷ rest)))
    | inr f ↦
        rw (e, f)
          (omega (
            arith,
            length-entry j w (insert k v rest),
            length-entry j w rest,
            length-insert k v rest,
          ))
  ]
]

-- Merged maps take no more than both.
pub length-insert_all :
    (m n : Map)
    → length (marshal_tuples (insert_all m n))
      ≤ length (marshal_tuples m) + length (marshal_tuples n)
unfolding insert_all
length-insert_all [] n = omega arith
length-insert_all ((j, w) ∷ rest) n =
    omega (arith, length-insert_all rest (insert j w n), length-insert j w n, length-entry j w rest)
