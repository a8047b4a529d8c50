-- ===== src/Crc/Xor.antt =====
-- Laws of the exclusive or, at numbers of any size.
use Prim.Native.Nat.{bit_xor, differ, digits, bit_xor-bitwise}
use marina.Prelude.{
  ℕ, zero, suc, ◌+◌, ◌-◌, ◌*◌, ◌/◌, ◌%◌, ◌≤◌, ◌<◌, ◌==◌, if◌then◌else◌, ◌≡◌, refl, sym, ap, ap₂,
  ◌∙◌, arith,
}

-- The digits of the exclusive or, by at most `fuel` of them.
abbrev xor_digits : ℕ → ℕ → ℕ → ℕ
xor_digits fuel a b = digits (λ b. b) differ fuel a b

xor_digits-zero : (fuel b : ℕ) → xor_digits fuel 0 b ≡ b
xor_digits-zero zero b = refl
xor_digits-zero (suc fuel) b = refl

-- Fuel beyond the number itself changes nothing.
xor_digits-spare :
    (spare fuel a b : ℕ) → a ≤ fuel → xor_digits (spare + fuel) a b ≡ xor_digits fuel a b
xor_digits-spare spare fuel zero b enough =
    xor_digits-zero (spare + fuel) b ∙ sym (xor_digits-zero fuel b)
xor_digits-spare spare zero (suc a) b enough = absurd (omega arith)
xor_digits-spare spare (suc fuel) (suc a) b enough =
    let one_less : spare + suc fuel ≡ suc (spare + fuel) = omega arith in
    let rest = xor_digits-spare spare fuel (suc a / 2) (b / 2) (omega arith) in
    ap (λ n. xor_digits n (suc a) b) one_less ∙ ap (λ r. r * 2 + differ (suc a % 2) (b % 2)) rest

-- Half of a number is fuel enough for the half.
xor_digits-half : (a b : ℕ) → xor_digits a (suc a / 2) b ≡ xor_digits (suc a / 2) (suc a / 2) b
xor_digits-half a b =
    let half = suc a / 2 in
    let enough : a ≡ (a - half) + half = omega arith in
    ap (λ n. xor_digits n half b) enough ∙ xor_digits-spare (a - half) half half b (omega arith)

differ_bits : (x y : ℕ) → x < 2 → y < 2 → differ x y ≡ (x + y) % 2
differ_bits zero zero p q = refl
differ_bits zero (suc zero) p q = refl
differ_bits (suc zero) zero p q = refl
differ_bits (suc zero) (suc zero) p q = refl
differ_bits zero (suc (suc y)) p q = absurd (omega arith)
differ_bits (suc zero) (suc (suc y)) p q = absurd (omega arith)
differ_bits (suc (suc x)) y p q = absurd (omega arith)

xor_zero_left : (b : ℕ) → bit_xor 0 b ≡ b
xor_zero_left b = bit_xor-bitwise 0 b

-- The lowest digit.
pub xor_step : (a b : ℕ) → bit_xor a b ≡ bit_xor (a / 2) (b / 2) * 2 + (a % 2 + b % 2) % 2
xor_step zero b = omega (arith, xor_zero_left b, xor_zero_left (b / 2))
xor_step (suc a) b = omega (
  arith,
  bit_xor-bitwise (suc a) b,
  bit_xor-bitwise (suc a / 2) (b / 2),
  xor_digits-half a (b / 2),
  differ_bits (suc a % 2) (b % 2) (omega arith) (omega arith),
)

pub xor_half : (a b : ℕ) → bit_xor a b / 2 ≡ bit_xor (a / 2) (b / 2)
xor_half a b = omega (arith, xor_step a b)

pub xor_parity : (a b : ℕ) → bit_xor a b % 2 ≡ (a % 2 + b % 2) % 2
xor_parity a b = omega (arith, xor_step a b)

comm_fuel : (n a b : ℕ) → a ≤ n → b ≤ n → bit_xor a b ≡ bit_xor b a
comm_fuel zero zero zero p q = refl
comm_fuel zero zero (suc b) p q = absurd (omega arith)
comm_fuel zero (suc a) b p q = absurd (omega arith)
comm_fuel (suc n) a b p q =
    omega
      (arith, xor_step a b, xor_step b a, comm_fuel n (a / 2) (b / 2) (omega arith) (omega arith))

pub xor_comm : (a b : ℕ) → bit_xor a b ≡ bit_xor b a
xor_comm a b = comm_fuel (a + b) a b (omega arith) (omega arith)

assoc_fuel :
    (n a b c : ℕ) → a ≤ n → b ≤ n → c ≤ n → bit_xor (bit_xor a b) c ≡ bit_xor a (bit_xor b c)
assoc_fuel zero zero zero zero p q r = refl
assoc_fuel zero zero zero (suc c) p q r = absurd (omega arith)
assoc_fuel zero zero (suc b) c p q r = absurd (omega arith)
assoc_fuel zero (suc a) b c p q r = absurd (omega arith)
assoc_fuel (suc n) a b c p q r = omega (
  arith,
  xor_step (bit_xor a b) c,
  xor_step a (bit_xor b c),
  xor_parity a b,
  xor_parity b c,
  ap (λ x. bit_xor x (c / 2)) (xor_half a b),
  ap (bit_xor (a / 2)) (xor_half b c),
  assoc_fuel n (a / 2) (b / 2) (c / 2) (omega arith) (omega arith) (omega arith),
)

pub xor_assoc : (a b c : ℕ) → bit_xor (bit_xor a b) c ≡ bit_xor a (bit_xor b c)
xor_assoc a b c = assoc_fuel (a + b + c) a b c (omega arith) (omega arith) (omega arith)

pub xor_zero : (a : ℕ) → bit_xor a 0 ≡ a
xor_zero a = xor_comm a 0 ∙ xor_zero_left a

self_fuel : (n a : ℕ) → a ≤ n → bit_xor a a ≡ 0
self_fuel zero zero p = refl
self_fuel zero (suc a) p = absurd (omega arith)
self_fuel (suc n) a p = omega (arith, xor_step a a, self_fuel n (a / 2) (omega arith))

pub xor_self : (a : ℕ) → bit_xor a a ≡ 0
xor_self a = self_fuel a a (omega arith)

pub xor_swap : (a p b : ℕ) → bit_xor (bit_xor a p) b ≡ bit_xor (bit_xor a b) p
xor_swap a p b = xor_assoc a p b ∙ ap (bit_xor a) (xor_comm p b) ∙ sym (xor_assoc a b p)

-- What is on both sides goes away.
pub xor_both : (a p b : ℕ) → bit_xor (bit_xor a p) (bit_xor b p) ≡ bit_xor a b
xor_both a p b =
    sym (xor_assoc (bit_xor a p) b p)
    ∙ ap (λ x. bit_xor x p) (xor_swap a p b)
    ∙ xor_assoc (bit_xor a b) p p
    ∙ ap (bit_xor (bit_xor a b)) (xor_self p)
    ∙ xor_zero (bit_xor a b)

-- `n` doublings.
unfoldable pub dbl : ℕ → ℕ → ℕ
dbl zero h = h
dbl (suc n) h = dbl n h * 2

-- The exclusive or works on the upper and the lower digits apart.
pub xor_split :
    (n h l h' l' : ℕ)
    → l < dbl n 1
    → l' < dbl n 1
    → bit_xor (dbl n h + l) (dbl n h' + l') ≡ dbl n (bit_xor h h') + bit_xor l l'
unfolding dbl
xor_split zero h l h' l' p q =
    let e : h + l ≡ h = omega arith in
    let e' : h' + l' ≡ h' = omega arith in
    let none : l ≡ 0 = omega arith in
    let none' : l' ≡ 0 = omega arith in
    let low : bit_xor l l' ≡ bit_xor 0 0 = ap₂ bit_xor none none' in
    omega (arith, ap₂ bit_xor e e', low, xor_zero_left 0)
xor_split (suc n) h l h' l' p q =
    let half : (dbl n h * 2 + l) / 2 ≡ dbl n h + l / 2 = omega arith in
    let half' : (dbl n h' * 2 + l') / 2 ≡ dbl n h' + l' / 2 = omega arith in
    omega (
      arith,
      xor_step (dbl n h * 2 + l) (dbl n h' * 2 + l'),
      ap₂ bit_xor half half',
      xor_step l l',
      xor_split n h (l / 2) h' (l' / 2) (omega arith) (omega arith),
    )

pub xor-lt : (n a b : ℕ) → a < dbl n 1 → b < dbl n 1 → bit_xor a b < dbl n 1
unfolding dbl
xor-lt zero a b p q =
    let e : a ≡ 0 = omega arith in
    let e' : b ≡ 0 = omega arith in rw (e, e') (omega (arith, xor_zero_left 0))
xor-lt (suc n) a b p q =
    omega (arith, xor_step a b, xor-lt n (a / 2) (b / 2) (omega arith) (omega arith))

dbl-zero : (n : ℕ) → dbl n 0 ≡ 0
unfolding dbl
dbl-zero zero = refl
dbl-zero (suc n) = omega (arith, dbl-zero n)

-- Digits that are apart are added.
pub xor_fields : (n h l : ℕ) → l < dbl n 1 → bit_xor (dbl n h) l ≡ dbl n h + l
xor_fields n h l lt =
    let upper : dbl n h + 0 ≡ dbl n h = omega arith in
    let lower : dbl n 0 + l ≡ l = omega (arith, dbl-zero n) in
    omega (
      arith,
      xor_split n h 0 0 l (omega arith) lt,
      ap₂ bit_xor upper lower,
      ap (dbl n) (xor_zero h),
      xor_zero_left l,
    )

pub dbl-twice : (n r : ℕ) → dbl n (r * 2) ≡ dbl n r * 2
unfolding dbl
dbl-twice zero r = refl
dbl-twice (suc n) r = omega (arith, dbl-twice n r)

pub le-dbl : (n r : ℕ) → r ≤ dbl n r
unfolding dbl
le-dbl zero r = omega arith
le-dbl (suc n) r = omega (arith, le-dbl n r)

-- The polynomial goes in if a bit comes out.
unfoldable pub poly_in : ℕ → ℕ → ℕ → ℕ
poly_in poly bit r = if bit == 1 then bit_xor r poly else r

pub poly_in-xor :
    (poly c z a x b y : ℕ)
    → c ≡ (a + b) % 2
    → a < 2
    → b < 2
    → z ≡ bit_xor x y
    → poly_in poly c z ≡ bit_xor (poly_in poly a x) (poly_in poly b y)
unfolding poly_in
poly_in-xor poly c z zero x zero y e p q same = rw (e, same) refl
poly_in-xor poly c z zero x (suc zero) y e p q same = rw (e, same) (xor_assoc x y poly)
poly_in-xor poly c z (suc zero) x zero y e p q same = rw (e, same) (sym (xor_swap x poly y))
poly_in-xor poly c z (suc zero) x (suc zero) y e p q same = rw (e, same) (sym (xor_both x poly y))
poly_in-xor poly c z (suc (suc a)) x b y e p q same = absurd (omega arith)
poly_in-xor poly c z zero x (suc (suc b)) y e p q same = absurd (omega arith)
poly_in-xor poly c z (suc zero) x (suc (suc b)) y e p q same = absurd (omega arith)
