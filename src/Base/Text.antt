-- ===== src/Base/Text.antt =====
-- Rust strings as the lists of their bytes, with the lexicographic order that `String` derives.
use Prim.Native.Nat.{ℕ, zero, suc, ◌+◌, ◌/◌, ◌%◌, Ordering, compare}
use Prim.Native.Char.{code}
use Prim.Native.String.{String}
use mathlib.Core.Path.{◌≡◌, refl}
use mathlib.Core.List.{List, [], ◌∷◌}
use mathlib.Core.Bool.{Bool, true, false, ◌&&◌, ◌||◌}
use mathlib.Core.Option.{Option, none, some}
use aeryon.Base.Tests.{◌==◌, leb, ltb, if◌then◌else◌}
use native.Mathlib.Omega.{arith}
use aeryon.Base.BTreeMap.{Ord, by_order}

abbrev pub Str : Type 0
Str = List ℕ

-- The code points of a literal: its bytes, since the literals are ASCII.
abbrev pub codes : String → Str
codes String.[] = []
codes (String.◌∷◌ c s) = code c ∷ codes s

unfoldable pub cmp_bytes : Str → Str → Ordering
cmp_bytes [] [] = Ordering.eq
cmp_bytes [] (y ∷ ys) = Ordering.lt
cmp_bytes (x ∷ xs) [] = Ordering.gt
cmp_bytes (x ∷ xs) (y ∷ ys) = by_order (compare x y) Ordering.lt (cmp_bytes xs ys) Ordering.gt

pub cmp_bytes_refl : (s : Str) → cmp_bytes s s ≡ Ordering.eq
unfolding cmp_bytes
cmp_bytes_refl [] = refl
cmp_bytes_refl (x ∷ xs) = ground (arith, cmp_bytes_refl xs)

pub eq_of_cmp_bytes : (s t : Str) → cmp_bytes s t ≡ Ordering.eq → s ≡ t
unfolding cmp_bytes
eq_of_cmp_bytes [] [] h = refl
eq_of_cmp_bytes [] (y ∷ ys) h = cc
eq_of_cmp_bytes (x ∷ xs) [] h = cc
eq_of_cmp_bytes (x ∷ xs) (y ∷ ys) h = ground (arith, eq_of_cmp_bytes xs ys)

pub cmp_bytes_flip : (s t : Str) → cmp_bytes s t ≡ Ordering.gt → cmp_bytes t s ≡ Ordering.lt
unfolding cmp_bytes
cmp_bytes_flip [] [] h = cc
cmp_bytes_flip [] (y ∷ ys) h = cc
cmp_bytes_flip (x ∷ xs) [] h = refl
cmp_bytes_flip (x ∷ xs) (y ∷ ys) h = ground (arith, cmp_bytes_flip xs ys)

pub cmp_bytes_trans :
    (s t u : Str)
    → cmp_bytes s t ≡ Ordering.lt
    → cmp_bytes t u ≡ Ordering.lt
    → cmp_bytes s u ≡ Ordering.lt
unfolding cmp_bytes
cmp_bytes_trans [] [] u h k = cc
cmp_bytes_trans [] (y ∷ ys) [] h k = cc
cmp_bytes_trans [] (y ∷ ys) (z ∷ zs) h k = refl
cmp_bytes_trans (x ∷ xs) [] u h k = cc
cmp_bytes_trans (x ∷ xs) (y ∷ ys) [] h k = cc
cmp_bytes_trans (x ∷ xs) (y ∷ ys) (z ∷ zs) h k = ground (arith, cmp_bytes_trans xs ys zs)

instance abbrev pub str_ord : Ord Str
str_ord = record {
  cmp = cmp_bytes;
  cmp-refl = cmp_bytes_refl;
  eq_of_cmp = eq_of_cmp_bytes;
  cmp_flip = cmp_bytes_flip;
  cmp_trans = cmp_bytes_trans;
}

-- What has been read of a white-space character of more than one byte, in UTF-8.
pub data Prefix : Type 0 where
  start after_c2 after_e1 after_e1_9a after_e2 after_e2_80 after_e2_81 after_e3 after_e3_80 : Prefix

-- The prefix after one more byte, or none where no white space goes on so.
abbrev next : Prefix → ℕ → Option Prefix
next start b =
    if (b == 32) || (leb 9 b && leb b 13)
    then some start
    else if b == 194
    then some after_c2
    else if b == 225
    then some after_e1
    else if b == 226
    then some after_e2
    else if b == 227
    then some after_e3
    else none
next after_c2 b = if (b == 133) || (b == 160) then some start else none
next after_e1 b = if b == 154 then some after_e1_9a else none
next after_e1_9a b = if b == 128 then some start else none
next after_e2 b = if b == 128 then some after_e2_80 else if b == 129 then some after_e2_81 else none
next after_e2_80 b =
    if (leb 128 b && leb b 138) || (b == 168) || (b == 169) || (b == 175) then some start else none
next after_e2_81 b = if b == 159 then some start else none
next after_e3 b = if b == 128 then some after_e3_80 else none
next after_e3_80 b = if b == 128 then some start else none

abbrev at_start : Prefix → Bool
at_start start = true
at_start _ = false

unfoldable pub blank_after : Prefix → Str → Bool
blank_after p [] = at_start p
blank_after p (b ∷ s) = elim (next p b) [ none ↦ false | some q ↦ blank_after q s ]

-- `s.trim().is_empty()`: all characters are white space.
unfoldable pub is_blank : Str → Bool
unfolding blank_after
is_blank s = blank_after start s

-- The digits of `n` before `rest`; there are at most as many as the fuel, which is more than `n`.
unfoldable pub digits : (fuel n : ℕ) (rest : Str) → Str
digits zero n rest = rest
digits (suc fuel) n rest = elim (ltb n 10) [
  | true ↦ (48 + n) ∷ rest
  | false ↦ digits fuel (n / 10) ((48 + n % 10) ∷ rest)
]

-- How a number is printed.
unfoldable pub decimal : ℕ → Str
unfolding digits
decimal n = digits (suc n) n []
