-- ===== src/Hal/Programming.antt =====
-- Pages programmed one after the other onto an erased sector of a NOR flash.
use mathlib.Core.List.{append_assoc}
use picosignet.Prelude.{
  ℕ, suc, ◌+◌, ◌≡◌, refl, sym, ap, ◌∙◌, [], ◌∷◌, ◌++◌, arith, length, All, replicate,
}
use picosignet.Prelude.Bytes.{Bytes, IsByte, ff-bit_and}
use picosignet.Hal.Nor.{and_page, and_at}

and_page-erased :
    (m : ℕ) (page : Bytes)
    → All IsByte page
    → and_page page (replicate (length page + m) 0xff) ≡ page ++ replicate m 0xff
unfolding and_page
and_page-erased m [] h = ap (λ t. replicate t 0xff) (omega arith)
and_page-erased m (x ∷ xs) h =
    let e : suc (length xs) + m ≡ suc (length xs + m) = omega arith in
    rw e (ground (arith, ff-bit_and x, and_page-erased m xs h.1))

and_at-append : (page xs ys : Bytes) → and_at (length xs) page (xs ++ ys) ≡ xs ++ and_page page ys
unfolding and_at
and_at-append page [] ys = refl
and_at-append page (x ∷ xs) ys = ap (λ t. x ∷ t) (and_at-append page xs ys)

-- A page that goes behind what is written extends it.
pub and_at-extends :
    (off m : ℕ) (page xs : Bytes)
    → All IsByte page
    → length xs ≡ off
    → and_at off page (xs ++ replicate (length page + m) 0xff) ≡ (xs ++ page) ++ replicate m 0xff
and_at-extends off m page xs h e = rw (← e) (
    and_at-append page xs _
    ∙ ap (λ t. xs ++ t) (and_page-erased m page h)
    ∙ sym (append_assoc xs page (replicate m 0xff)))
