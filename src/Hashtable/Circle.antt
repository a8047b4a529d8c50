-- ===== src/Hashtable/Circle.antt =====
-- Distances on the circle of the cells.
use marina.Prelude.{ℕ, ◌+◌, ◌-◌, ◌≤◌, ◌<◌, ◌≡◌, ◌≢◌, arith, ltb, if◌then◌else◌, mod_wrap}
use marina.Hashtable.{dist, next}

module _ {s : ℕ} where
  pub dist_lem : (a b : ℕ) → a < s → b < s → dist s a b ≡ (if ltb b a then b + s - a else b - a)
  unfolding dist
  dist_lem a b ha hb =
      let e : b + s - a ≡ b + (s - a) = omega arith in rw e (ground (arith, mod_wrap s b (s - a)))

  pub next_lem : (i : ℕ) → i < s → next s i ≡ (if ltb (i + 1) s then i + 1 else 0)
  unfolding next
  next_lem i h = ground (arith, mod_wrap s i 1)

  pub next-lt : (i : ℕ) → i < s → next s i < s
  next-lt i h = ground (arith, next_lem i h)

  pub dist-lt : (a b : ℕ) → a < s → b < s → dist s a b < s
  dist-lt a b ha hb = ground (arith, dist_lem a b ha hb)

  pub dist_self : (a : ℕ) → a < s → dist s a a ≡ 0
  dist_self a h = ground (arith, dist_lem a a h h)

  pub dist-injective : (a b c : ℕ) → a < s → b < s → c < s → dist s a b ≡ dist s a c → b ≡ c
  dist-injective a b c ha hb hc e = ground (arith, dist_lem a b ha hb, dist_lem a c ha hc)

  -- One cell on, unless that closes the circle.
  pub dist-next : (a b : ℕ) → a < s → b < s → next s b ≢ a → dist s a (next s b) ≡ dist s a b + 1
  dist-next a b ha hb ne =
      ground (arith, next_lem b hb, dist_lem a b ha hb, dist_lem a (next s b) ha (next-lt b hb))

  -- Of two ways from `a`, the longer one passes the end of the shorter one.
  pub dist-split :
      (a b c : ℕ)
      → a < s
      → b < s
      → c < s
      → dist s a b ≤ dist s a c
      → dist s a c ≡ dist s a b + dist s b c
  dist-split a b c ha hb hc h =
      ground (arith, dist_lem a b ha hb, dist_lem a c ha hc, dist_lem b c hb hc)

  pub dist_last : (a b : ℕ) → a < s → b < s → next s b ≡ a → dist s a b + 1 ≡ s
  dist_last a b ha hb e = ground (arith, next_lem b hb, dist_lem a b ha hb)

  -- Two ways that do not close the circle add up.
  pub dist-add :
      (a b c : ℕ)
      → a < s
      → b < s
      → c < s
      → dist s a b + dist s b c < s
      → dist s a c ≡ dist s a b + dist s b c
  dist-add a b c ha hb hc h =
      ground (arith, dist_lem a b ha hb, dist_lem a c ha hc, dist_lem b c hb hc)
