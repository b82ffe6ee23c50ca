-- ===== src/Common/Bits.antt =====
-- Go's `&`, `|` and `&^` on unsigned numbers of w bits, lowest bit first.
use playgate.Common.{
  ℕ, zero, suc, ◌+◌, ◌-◌, ◌*◌, ◌/◌, ◌%◌, ◌^◌, ◌<◌, ◌≡◌, ◌∙◌, refl, sym, ap, arith,
}

-- Operations on single bits.
abbrev pub and_bit : ℕ → ℕ → ℕ
and_bit zero y = 0
and_bit (suc x) y = y

abbrev pub or_bit : ℕ → ℕ → ℕ
or_bit zero y = y
or_bit (suc x) y = 1

unfoldable pub bits_and : ℕ → ℕ → ℕ → ℕ
bits_and zero a b = 0
bits_and (suc w) a b = bits_and w (a / 2) (b / 2) * 2 + and_bit (a % 2) (b % 2)

unfoldable pub bits_or : ℕ → ℕ → ℕ → ℕ
bits_or zero a b = 0
bits_or (suc w) a b = bits_or w (a / 2) (b / 2) * 2 + or_bit (a % 2) (b % 2)

unfoldable pub bits_and_not : ℕ → ℕ → ℕ → ℕ
bits_and_not zero a b = 0
bits_and_not (suc w) a b = bits_and_not w (a / 2) (b / 2) * 2 + (a % 2 - b % 2)

half_of : (q r : ℕ) → r < 2 → (q * 2 + r) / 2 ≡ q
half_of q r h = omega (arith, h)

low_of : (q r : ℕ) → r < 2 → (q * 2 + r) % 2 ≡ r
low_of q r h = omega (arith, h)

join : (p x : ℕ) → p ≡ 0 → x ≡ 0 → p * 2 + x ≡ 0
join p x d e = omega (arith, d, e)

and_bit-clear : (x y : ℕ) → x < 2 → y < 2 → and_bit (x - y) y ≡ 0
and_bit-clear zero y h k = let e : 0 - y ≡ 0 = omega arith in rw e refl
and_bit-clear (suc x) zero h k = let e : suc x - 0 ≡ suc x = omega arith in rw e refl
and_bit-clear (suc x) (suc y) h k = let e : suc x - suc y ≡ 0 = omega (arith, h) in rw e refl

pub bits_and-bits_and_not : (w a b : ℕ) → bits_and w (bits_and_not w a b) b ≡ 0
unfolding bits_and bits_and_not
bits_and-bits_and_not zero a b = refl
bits_and-bits_and_not (suc w) a b =
    let rest = bits_and-bits_and_not w (a / 2) (b / 2) in
    let q = bits_and_not w (a / 2) (b / 2) in
    let lt : a % 2 - b % 2 < 2 = omega arith in
    rw (half_of q (a % 2 - b % 2) lt) (
      rw (low_of q (a % 2 - b % 2) lt)
        (join _ _ rest (and_bit-clear (a % 2) (b % 2) (omega arith) (omega arith))))

or_bit-small : (x y : ℕ) → y < 2 → or_bit x y < 2
or_bit-small zero y h = h
or_bit-small (suc x) y h = omega arith

and_bit-left : (c x y : ℕ) → and_bit c (or_bit x y) ≡ 0 → and_bit c x ≡ 0
and_bit-left zero x y e = refl
and_bit-left (suc c) zero y e = refl
and_bit-left (suc c) (suc x) y e = absurd (omega (arith, e))

and_bit-right : (c x y : ℕ) → and_bit c (or_bit x y) ≡ 0 → and_bit c y ≡ 0
and_bit-right zero x y e = refl
and_bit-right (suc c) zero y e = e
and_bit-right (suc c) (suc x) y e = absurd (omega (arith, e))

-- The halves of an `|`, and of what has no bit in common with it.
split_or :
    (w c a b : ℕ)
    → bits_and (suc w) c (bits_or (suc w) a b) ≡ 0
    → (bits_and w (c / 2) (bits_or w (a / 2) (b / 2)) ≡ 0)
      × (and_bit (c % 2) (or_bit (a % 2) (b % 2)) ≡ 0)
unfolding bits_and bits_or
split_or w c a b e =
    let q = bits_or w (a / 2) (b / 2) in
    let r = or_bit (a % 2) (b % 2) in
    let lt : r < 2 = or_bit-small (a % 2) (b % 2) (omega arith) in
    let e' : bits_and w (c / 2) q * 2 + and_bit (c % 2) r ≡ 0 =
      sym (
        ap (λ x. bits_and w (c / 2) x * 2 + and_bit (c % 2) ((q * 2 + r) % 2)) (half_of q r lt)
        ∙ ap (λ x. bits_and w (c / 2) q * 2 + and_bit (c % 2) x) (low_of q r lt))
      ∙ e in
    (omega (arith, e'), omega (arith, e'))

pub bits_or-left : (w c a b : ℕ) → bits_and w c (bits_or w a b) ≡ 0 → bits_and w c a ≡ 0
unfolding bits_and
bits_or-left zero c a b e = refl
bits_or-left (suc w) c a b e =
    let (high, low) = split_or w c a b e in
    join _ _ (bits_or-left w (c / 2) (a / 2) (b / 2) high)
      (and_bit-left (c % 2) (a % 2) (b % 2) low)

pub bits_or-right : (w c a b : ℕ) → bits_and w c (bits_or w a b) ≡ 0 → bits_and w c b ≡ 0
unfolding bits_and
bits_or-right zero c a b e = refl
bits_or-right (suc w) c a b e =
    let (high, low) = split_or w c a b e in
    join _ _ (bits_or-right w (c / 2) (a / 2) (b / 2) high)
      (and_bit-right (c % 2) (a % 2) (b % 2) low)

pub bits_and_zero : (w b : ℕ) → bits_and w 0 b ≡ 0
unfolding bits_and
bits_and_zero zero b = refl
bits_and_zero (suc w) b = join _ _ (bits_and_zero w (b / 2)) refl

and_bit-rest : (x y : ℕ) → x < 2 → y < 2 → (x - y) + and_bit x y ≡ x
and_bit-rest zero y h k = omega arith
and_bit-rest (suc x) y h k = omega (arith, h, k)

-- What `&^` takes away is what `&` keeps.
pub bits_and_not-rest : (w a b : ℕ) → a < 2 ^ w → bits_and_not w a b + bits_and w a b ≡ a
unfolding bits_and bits_and_not
bits_and_not-rest zero a b h = omega (arith, h)
bits_and_not-rest (suc w) a b h =
    let small : a / 2 < 2 ^ w = omega (arith, h) in
    let high = bits_and_not-rest w (a / 2) (b / 2) small in
    let low = and_bit-rest (a % 2) (b % 2) (omega arith) (omega arith) in omega (arith, high, low)
