-- ===== src/Features/SameValues.antt =====
-- controller/dataplane/features.c: `process_and_age_feature` against `process_feature`.
use marina.Prelude.{
  ℕ, zero, suc, ◌+◌, ◌-◌, ◌≡◌, refl, ◌∙◌, ap, Bool, true, false, Option, none, some, if◌then◌else◌,
  Status, success, failure,
}
use marina.Features.{
  FeatureRegister, accumulate, each, process_feature, Ageing, timed_out, send_timeout, age,
  process_and_age_feature, min_session_id,
}

module _ (ring_size now : ℕ) (egress_feature_to_session_id : ℕ → Option ℕ) where
  register-timed_out :
      (i : ℕ) (s : Ageing) (status : Status)
      → (timed_out ring_size now egress_feature_to_session_id i s status).register ≡ s.register
  unfolding timed_out
  register-timed_out i s success = refl
  register-timed_out i s failure = refl

  register-send_timeout :
      (i : ℕ) (s : Ageing) (session : Option ℕ)
      → (send_timeout ring_size now egress_feature_to_session_id i s session).register ≡ s.register
  unfolding send_timeout
  register-send_timeout i s none = refl
  register-send_timeout i s (some id) = register-timed_out i _ _

  -- Whatever the two tests say.
  either_way :
      (b c : Bool) (s t u : Ageing) (r : FeatureRegister)
      → s.register ≡ r
      → t.register ≡ r
      → u.register ≡ r
      → (if b then s else if c then t else u).register ≡ r
  either_way true c s t u r es et eu = es
  either_way false true s t u r es et eu = et
  either_way false false s t u r es et eu = eu

  register-age :
      (i : ℕ) (s : Ageing)
      → (age ring_size now egress_feature_to_session_id i s).register ≡ accumulate s.register i
  unfolding age
  register-age i s =
      either_way _ _ _ _ _ (accumulate s.register i) refl (register-send_timeout i _ _) refl

  register-each :
      (k i : ℕ) (s : Ageing)
      → (each (age ring_size now egress_feature_to_session_id) k i s).register
        ≡ each (λ i r. accumulate r i) k i s.register
  unfolding each
  register-each zero i s = refl
  register-each (suc k) i s =
      register-each k (i + 1) (age ring_size now egress_feature_to_session_id i s)
      ∙ ap (λ r. each (λ i r. accumulate r i) k (i + 1) r) (register-age i s)

  -- `process_and_age_feature` leaves in the arrays of the feature what `process_feature` leaves,
  -- for every state of the timeouts and of the ring buffer.
  pub process_and_age-process :
      (feature_size : ℕ) (s : Ageing)
      → (process_and_age_feature ring_size now egress_feature_to_session_id feature_size s).register
        ≡ process_feature feature_size s.register
  unfolding process_and_age_feature process_feature
  process_and_age-process feature_size s =
      register-each (feature_size - min_session_id) min_session_id s
