-- ===== src/BloomFilter/Sent.antt =====
-- The commands that a round of the maintenance thread puts, from the counters before it.
use marina.Prelude.{
  ℕ, zero, suc, ◌+◌, ◌-◌, ◌≤◌, ◌≡◌, refl, ◌∙◌, arith, ◌==◌, ltb, leb, ◌&&◌, ◌||◌, Bool, false,
  if◌then◌else◌, update, ℕ_discrete, Bool-cases, inl, inr, ap₂,
}
use marina.BloomFilter.{Entries, write, Pass, rounds, num_bloomfilters}
use marina.BloomFilter.Maintenance.{take_down}

entries-write :
    (entries : Entries) (pipe i index n p f j : ℕ)
    → write entries pipe i index n p f j
      ≡ (if p == pipe && f == i && j == index then n else entries p f j)
unfolding update
entries-write entries pipe i index n p f j = ground arith

entries-take_down :
    (pipe index : ℕ) (drawn : ℕ → Bool) (i : ℕ) (s : Pass) (p f j : ℕ)
    → (take_down pipe index drawn i s).entries p f j ≡ (
        if p == pipe && f == i && j == index && drawn i
        then s.entries p f j - 1
        else s.entries p f j)
unfolding take_down
entries-take_down pipe index drawn i s p f j = elim (Bool-cases (drawn i)) [
  | inr not_drawn ↦ rw not_drawn (ground arith)
  | inl is_drawn ↦ elim (Bool-cases (s.entries pipe i index == 0)) [
    | inl clear ↦ rw (is_drawn, clear) (ground arith)
    | inr more ↦
        rw (is_drawn, more)
          (entries-write s.entries pipe i index (s.entries pipe i index - 1) p f j ∙ ground arith)
  ]
]

pub entries-rounds :
    (pipe index : ℕ) (drawn : ℕ → Bool) (k i : ℕ) (s : Pass) (p f j : ℕ)
    → (rounds (take_down pipe index drawn) k i s).entries p f j ≡ (
        if p == pipe && j == index && leb i f && ltb f (i + k) && drawn f
        then s.entries p f j - 1
        else s.entries p f j)
unfolding rounds
entries-rounds pipe index drawn zero i s p f j = ground arith
entries-rounds pipe index drawn (suc k) i s p f j =
    entries-rounds pipe index drawn k (i + 1) (take_down pipe index drawn i s) p f j
    ∙ elim (ℕ_discrete f i) [
      | yes e ↦ rw (entries-take_down pipe index drawn i s p f j, e) (ground arith)
      | no ne ↦ rw (entries-take_down pipe index drawn i s p f j) (ground arith)
    ]

-- Whether one of the counters of an index, in `k` filters from `i` on, is 1 and was drawn: it then
-- becomes 0, and the switch is told.
unfoldable pub sends_at : ℕ → ℕ → (ℕ → Bool) → Entries → ℕ → ℕ → Bool
sends_at pipe index drawn entries zero i = false
sends_at pipe index drawn entries (suc k) i =
    (drawn i && entries pipe i index == 1) || sends_at pipe index drawn entries k (i + 1)

sends_at-same :
    (pipe index : ℕ) (drawn : ℕ → Bool) (e e' : Entries) (k i : ℕ)
    → ((f : ℕ) → i ≤ f → e pipe f index ≡ e' pipe f index)
    → sends_at pipe index drawn e k i ≡ sends_at pipe index drawn e' k i
unfolding sends_at
sends_at-same pipe index drawn e e' zero i same = refl
sends_at-same pipe index drawn e e' (suc k) i same =
    ap₂ (λ n b. (drawn i && n == 1) || b) (same i (omega arith))
      (sends_at-same pipe index drawn e e' k (i + 1) (λ f le. same f (omega (arith, le))))

send-take_down :
    (pipe index : ℕ) (drawn : ℕ → Bool) (i : ℕ) (s : Pass)
    → (take_down pipe index drawn i s).send ≡ (s.send || (drawn i && s.entries pipe i index == 1))
unfolding take_down
send-take_down pipe index drawn i s = elim (Bool-cases (drawn i)) [
  | inr not_drawn ↦ rw not_drawn (ground arith)
  | inl is_drawn ↦ elim (Bool-cases (s.entries pipe i index == 0)) [
    | inl clear ↦ rw (is_drawn, clear) (ground arith)
    | inr more ↦ rw (is_drawn, more) refl
  ]
]

pub send-rounds :
    (pipe index : ℕ) (drawn : ℕ → Bool) (k i : ℕ) (s : Pass)
    → (rounds (take_down pipe index drawn) k i s).send
      ≡ (s.send || sends_at pipe index drawn s.entries k i)
unfolding rounds sends_at
send-rounds pipe index drawn zero i s = ground arith
send-rounds pipe index drawn (suc k) i s =
    let s' = take_down pipe index drawn i s in
    let later : sends_at pipe index drawn s'.entries k (i + 1)
        ≡ sends_at pipe index drawn s.entries k (i + 1) =
      sends_at-same pipe index drawn s'.entries s.entries k (i + 1)
        (λ f le. entries-take_down pipe index drawn i s pipe f index ∙ ground (arith, le)) in
    send-rounds pipe index drawn k (i + 1) s'
    ∙ ap₂ (λ b c. b || c) (send-take_down pipe index drawn i s) later
    ∙ ground arith

-- The commands for `k` indices of a pipe from `index` on.
unfoldable pub sent_in_pipe : ℕ → (ℕ → ℕ → Bool) → Entries → ℕ → ℕ → ℕ
sent_in_pipe pipe drawn entries zero index = 0
sent_in_pipe pipe drawn entries (suc k) index =
    (if sends_at pipe index (drawn index) entries num_bloomfilters 0 then 1 else 0)
    + sent_in_pipe pipe drawn entries k (index + 1)

pub sent_in_pipe-same :
    (pipe : ℕ) (drawn : ℕ → ℕ → Bool) (e e' : Entries) (k index : ℕ)
    → ((f j : ℕ) → index ≤ j → e pipe f j ≡ e' pipe f j)
    → sent_in_pipe pipe drawn e k index ≡ sent_in_pipe pipe drawn e' k index
unfolding sent_in_pipe
sent_in_pipe-same pipe drawn e e' zero index same = refl
sent_in_pipe-same pipe drawn e e' (suc k) index same =
    ap₂ (λ b n. (if b then 1 else 0) + n)
      (sends_at-same pipe index (drawn index) e e' num_bloomfilters 0
        (λ f le. same f index (omega arith)))
      (sent_in_pipe-same pipe drawn e e' k (index + 1) (λ f j le. same f j (omega (arith, le))))

-- The commands for `k` pipes from `pipe` on, one for each index at which a counter becomes 0.
unfoldable pub sent : (ℕ → ℕ → ℕ → Bool) → ℕ → Entries → ℕ → ℕ → ℕ
sent draws width entries zero pipe = 0
sent draws width entries (suc k) pipe =
    sent_in_pipe pipe (draws pipe) entries width 0 + sent draws width entries k (pipe + 1)

pub sent-same :
    (draws : ℕ → ℕ → ℕ → Bool) (width : ℕ) (e e' : Entries) (k pipe : ℕ)
    → ((p f j : ℕ) → pipe ≤ p → e p f j ≡ e' p f j)
    → sent draws width e k pipe ≡ sent draws width e' k pipe
unfolding sent
sent-same draws width e e' zero pipe same = refl
sent-same draws width e e' (suc k) pipe same =
    ap₂ (λ a b. a + b)
      (sent_in_pipe-same pipe (draws pipe) e e' width 0 (λ f j le. same pipe f j (omega arith)))
      (sent-same draws width e e' k (pipe + 1) (λ p f j le. same p f j (omega (arith, le))))
