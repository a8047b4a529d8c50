-- ===== src/SwitchSetup/Forwarding.antt =====
-- That the controller and the switch agree on where the packets of a port go.
use marina.Prelude.{
  ℕ, ◌^◌, ◌<◌, ◌≡◌, ◌≢◌, refl, arith, ◌==◌, if◌then◌else◌, update, Option, none, some, success,
}
use marina.Prelude.Int.{ℤ, pos, negsuc}
use marina.SwitchSetup.{
  SetupDriver, ForwardEntry, exit_on_error, for_each, int16, front_panel_to_devport, forward,
  prepare_forwarding,
}

int16_small : (n : ℕ) → n < 2 ^ 15 → int16 n ≡ pos n
unfolding int16
int16_small n lt = ground arith

-- What `DEVPORT_MAPPING` holds for a port whose packets go there.
unfoldable pub port_code : Option ℕ → ℤ
port_code none = negsuc 0
port_code (some port) = pos port

-- What is documented of the driver: it knows the front ports, and adds an entry for a port that has
-- none. `forwarding` is the forwarding table of the switch.
pub record Works {S H E : Type 0} (driver : SetupDriver S H E) (devport : ℕ → ℕ → ℕ)
    (forwarding : S → ℕ → Option ℕ) : Type 0 where
  pub converts :
      (port lane : ℕ) → driver.front_port_to_dev_port port lane ≡ (success, devport port lane)
  pub small : (port lane : ℕ) → devport port lane < 2 ^ 15
  pub adds :
      (from to : ℕ) (s : S)
      → forwarding s from ≡ none
      → (s' : S) × (driver.add_forward from to s ≡ (success, s'))
        × ((p : ℕ) → forwarding s' p ≡ (if p == from then some to else forwarding s p))

module _ {S H E : Type 0} (driver : SetupDriver S H E) (devport : ℕ → ℕ → ℕ)
    (forwarding : S → ℕ → Option ℕ) (works : Works driver devport forwarding) where
  forward_lem :
      (e : ForwardEntry) (mapping : ℕ → ℤ) (s : S)
      → forwarding s (devport e.from_port e.from_lane) ≡ none
      → ((p : ℕ) → mapping p ≡ port_code (forwarding s p))
      → (mapping' : ℕ → ℤ) × (s' : S) × (forward driver e (mapping, s) ≡ some (mapping', s'))
        × ((p : ℕ) → mapping' p ≡ port_code (forwarding s' p))
        × ((p : ℕ)
            → forwarding s' p ≡ (
                if p == devport e.from_port e.from_lane
                then some (devport e.to_port e.to_lane)
                else forwarding s p))
  unfolding forward front_panel_to_devport exit_on_error update port_code
  forward_lem e mapping s free agrees =
      let from = devport e.from_port e.from_lane in
      let to = devport e.to_port e.to_lane in
      let (s', added, at) = works.adds from to s free in
      (
        update mapping from (int16 to),
        s',
        rw (works.converts e.from_port e.from_lane, works.converts e.to_port e.to_lane, added) refl,
        (λ p.
            rw (at p, int16_small to (works.small e.to_port e.to_lane)) (ground (arith, agrees p))),
        at,
      )

  -- If the driver does what is documented, the two front ports have different numbers, and the
  -- forwarding table is empty before, the set-up of the forwarding ends, with `DEVPORT_MAPPING`
  -- -1 for the ports without an entry in the switch, and what the entry says for all others; the
  -- entries lead from each of the two ports to the other.
  pub prepare_forwarding_agrees :
      (s : S)
      → devport 1 0 ≢ devport 2 0
      → ((p : ℕ) → forwarding s p ≡ none)
      → (mapping : ℕ → ℤ) × (s' : S) × (prepare_forwarding driver s ≡ some (mapping, s'))
        × ((p : ℕ) → mapping p ≡ port_code (forwarding s' p))
        × ((p : ℕ)
            → forwarding s' p ≡ (
                if p == devport 1 0
                then some (devport 2 0)
                else if p == devport 2 0
                then some (devport 1 0)
                else none))
  unfolding prepare_forwarding for_each port_code
  prepare_forwarding_agrees s ne clear =
      let there : ForwardEntry = record {
        from_port = 1;
        from_lane = 0;
        to_port = 2;
        to_lane = 0;
      } in
      let back : ForwardEntry = record { from_port = 2; from_lane = 0; to_port = 1; to_lane = 0 } in
      let (m₁, s₁, done₁, agrees₁, at₁) =
        forward_lem there (λ _. negsuc 0) s (clear _) (λ p. rw (clear p) refl) in
      let (m₂, s₂, done₂, agrees₂, at₂) =
        forward_lem back m₁ s₁ (ground (arith, at₁ (devport 2 0), clear (devport 2 0), ne))
          agrees₁ in
      (m₂, s₂, rw (done₁, done₂) refl, agrees₂, λ p. ground (arith, at₂ p, at₁ p, clear p, ne))
