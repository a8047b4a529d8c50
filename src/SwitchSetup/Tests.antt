-- ===== src/SwitchSetup/Tests.antt =====
-- A driver that gives port 1 the number 128 and port 2 the number 136.
use marina.Prelude.{
  ℕ, ◌+◌, ◌≡◌, ◌≢◌, refl, arith, ◌==◌, false, if◌then◌else◌, update, Option, none, some, success,
}
use marina.Prelude.Int.{ℤ}
use marina.SwitchSetup.{SetupDriver, prepare_forwarding}
use marina.SwitchSetup.Forwarding.{Works, port_code, prepare_forwarding_agrees}

-- The state is the forwarding table.
abbrev Switch : Type 0
Switch = ℕ → Option ℕ

abbrev devport : ℕ → ℕ → ℕ
devport port lane = if port == 1 then 128 else 136

abbrev driver : SetupDriver Switch ℕ ℕ
driver = record {
  port_del_all = λ s. s;
  get_entry_count = λ _ _. (success, 0);
  get_first_entry_handle = λ _ _. 0;
  get_next_entry_handles = λ _ _ _ _ i. i + 1;
  table_delete = λ _ handle s. update s handle none;
  table_reset_default_entry = λ _ s. s;
  set_property = λ _ s. s;
  set_cpuport = λ s. s;
  add_iat_log = λ _ s. (success, s);
  add_size_log = λ _ s. (success, s);
  add_header_length = λ _ _ s. (success, s);
  front_port_to_dev_port = λ port lane. (success, devport port lane);
  is_port_internal = λ _ _. (success, false);
  port_add = λ _ _ _ s. (success, s);
  port_enable = λ _ s. (success, s);
  add_forward = λ from to s. (success, update s from (some to));
}

works : Works driver devport (λ s. s)
unfolding update
works = record {
  converts = λ port lane. refl;
  small = λ port lane. ground arith;
  adds = λ from to s free. (_, refl, λ p. ground arith);
}

apart : devport 1 0 ≢ devport 2 0
apart = ground arith

abbrev empty : Switch
empty _ = none

prepare_forwarding_agrees_example :
    (mapping : ℕ → ℤ) × (s' : Switch) × (prepare_forwarding driver empty ≡ some (mapping, s'))
    × ((p : ℕ) → mapping p ≡ port_code (s' p))
    × ((p : ℕ)
        → s' p ≡ (
            if p == devport 1 0
            then some (devport 2 0)
            else if p == devport 2 0
            then some (devport 1 0)
            else none))
prepare_forwarding_agrees_example =
    prepare_forwarding_agrees driver devport (λ s. s) works empty apart (λ p. refl)
