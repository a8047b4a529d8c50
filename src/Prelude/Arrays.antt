-- ===== src/Prelude/Arrays.antt =====
-- C arrays of a fixed size as functions of the index.
use Prim.Native.Nat.{ℕ, zero, suc, ◌+◌, ◌-◌, ◌≤◌, ◌<◌}
use mathlib.Core.Path.{◌≡◌, refl}
use mathlib.Core.Logic.{◌≢◌}
use native.Mathlib.Numerals.{add-one}
use native.Mathlib.Decide.{ℕ_discrete}
use native.Mathlib.Omega.{arith}
use marina.Prelude.Decisions.{◌==◌, if◌then◌else◌}

-- `a[i] = v`.
unfoldable pub update : {A : Type 0} → (ℕ → A) → ℕ → A → ℕ → A
update a i v j = if i == j then v else a j

pub update_lem :
    {A : Type 0} (a : ℕ → A) (i : ℕ) (v : A) (j : ℕ) → update a i v j ≡ (if i == j then v else a j)
unfolding update
update_lem a i v j = refl

pub update_self : {A : Type 0} (a : ℕ → A) (i : ℕ) (v : A) → update a i v i ≡ v
unfolding update
update_self a i v = ground arith

pub update_ne : {A : Type 0} (a : ℕ → A) (i : ℕ) (v : A) (j : ℕ) → i ≢ j → update a i v j ≡ a j
unfolding update
update_ne a i v j h = ground arith

-- How many of the first `n` entries are `x`.
unfoldable pub count : (ℕ → ℕ) → ℕ → ℕ → ℕ
count a zero x = 0
count a (suc n) x = (if a n == x then 1 else 0) + count a n x

pub count-update_ge : (a : ℕ → ℕ) (n i v x : ℕ) → n ≤ i → count (update a i v) n x ≡ count a n x
unfolding count
count-update_ge a zero i v x h = refl
count-update_ge a (suc n) i v x h = ground (arith, update_lem a i v n, count-update_ge a n i v x)

-- A write trades the old entry for the new one.
pub count-update :
    (a : ℕ → ℕ) (n i v x : ℕ)
    → i < n
    → count (update a i v) n x + (if a i == x then 1 else 0)
      ≡ count a n x + (if v == x then 1 else 0)
unfolding count
count-update a zero i v x h = elim h [ ]
count-update a (suc n) i v x h = elim (ℕ_discrete i n) [
  | yes e ↦ ground (arith, update_lem a i v n, count-update_ge a n i v x)
  | no ne ↦ ground (arith, update_lem a i v n, count-update a n i v x)
]

-- A write behind the first `n` entries, which then counts.
pub count-grow :
    (a : ℕ → ℕ) (n v x : ℕ)
    → count (update a n v) (n + 1) x ≡ count a n x + (if v == x then 1 else 0)
unfolding count
count-grow a n v x = rw add-one (ground (arith, update_self a n v, count-update_ge a n n v x))

-- The last of the entries no longer counts.
pub count-shrink :
    (a : ℕ → ℕ) (n x : ℕ)
    → 0 < n
    → count a (n - 1) x + (if a (n - 1) == x then 1 else 0) ≡ count a n x
unfolding count
count-shrink a zero x h = elim h [ ]
count-shrink a (suc n) x h = let e : suc n - 1 ≡ n = omega arith in rw e (omega arith)

pub count-congr :
    (a b : ℕ → ℕ) (n x : ℕ) → ((i : ℕ) → i < n → a i ≡ b i) → count a n x ≡ count b n x
unfolding count
count-congr a b zero x h = refl
count-congr a b (suc n) x h = ground (arith, h n, count-congr a b n x (λ i p. h i (omega arith)))

-- Trade two entries.
unfoldable pub swap : (ℕ → ℕ) → ℕ → ℕ → ℕ → ℕ
swap a i j = update (update a i (a j)) j (a i)

pub swap_lem :
    (a : ℕ → ℕ) (i j c : ℕ) → swap a i j c ≡ (if j == c then a i else if i == c then a j else a c)
unfolding swap update
swap_lem a i j c = refl

pub count-swap : (a : ℕ → ℕ) (n i j x : ℕ) → i < n → j < n → count (swap a i j) n x ≡ count a n x
unfolding swap
count-swap a n i j x hi hj = ground (
  arith,
  count-update a n i (a j) x hi,
  count-update (update a i (a j)) n j (a i) x hj,
  update_lem a i (a j) j,
)

-- The sum of the first `n` entries.
unfoldable pub total : (ℕ → ℕ) → ℕ → ℕ
total f zero = 0
total f (suc n) = f n + total f n

pub total_mono : (f g : ℕ → ℕ) (n : ℕ) → ((v : ℕ) → v < n → f v ≤ g v) → total f n ≤ total g n
unfolding total
total_mono f g zero le = omega arith
total_mono f g (suc n) le =
    omega (arith, le n (omega arith), total_mono f g n (λ v h. le v (omega arith)))

-- One entry more makes the sum larger by one at least.
pub total-bump :
    (f g : ℕ → ℕ) (n k : ℕ)
    → ((v : ℕ) → f v ≤ g v)
    → k < n
    → f k + 1 ≤ g k
    → total f n + 1 ≤ total g n
unfolding total
total-bump f g zero k le lt more = absurd (omega arith)
total-bump f g (suc n) k le lt more = elim (ℕ_discrete k n) [
  | yes e ↦
      let more' : f n + 1 ≤ g n = rw e at more in
      omega (arith, more', total_mono f g n (λ v h. le v))
  | no ne ↦ omega (arith, le n, total-bump f g n k le (omega arith) more)
]
