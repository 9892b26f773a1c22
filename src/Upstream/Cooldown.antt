-- ===== src/Upstream/Cooldown.antt =====
-- The cooldown of one key.
use helius.Common.{
  ℕ, suc, true, false, ◌+◌, ◌*◌, ◌≤◌, ◌<◌, ◌≡◌, ◌↔◌, arith, u32_mod, u64_mod, min, ap, ◌∙◌, ◌%◌,
  Bool-cases, inl, inr, ◌==◌, nat_eq, nat_beq_iff,
}
use helius.Ratelimit.{backoff_base}
use helius.Ratelimit.Band.{backoff_with_jitter_band, backoff_base_range, backoff_base-suc}
use helius.Upstream.Key.{Upstream, in_cooldown, cooldown_remaining_ms, trip_cooldown, note_success}

module _ {Limiter : Type 0} where
  -- What is left of a cooldown is above 0 exactly while the key is in cooldown.
  pub in_cooldown_iff :
      (up : Upstream Limiter) (now : ℕ)
      → (in_cooldown now up ≡ true) ↔ (0 < cooldown_remaining_ms now up)
  unfolding in_cooldown cooldown_remaining_ms
  in_cooldown_iff up now = ground arith

  -- After a rate-limited reply the key is in cooldown for at least 750 ms and at most 37.5 s, whatever
  -- its state was.
  pub trip_cooldown-in_cooldown :
      (up : Upstream Limiter) (now later : ℕ)
      → now + 37_500 < u64_mod
      → (later < now + 750 → in_cooldown later (trip_cooldown now up) ≡ true)
        × (now + 37_500 ≤ later → in_cooldown later (trip_cooldown now up) ≡ false)
  unfolding in_cooldown trip_cooldown
  trip_cooldown-in_cooldown up now later h =
      let band = backoff_with_jitter_band up.backoff_step now in
      let range = backoff_base_range up.backoff_step in
      (λ soon. ground (arith, band, range), λ late. ground (arith, band, range))

  -- Each rate-limited reply without a success in between doubles the base of the next cooldown up to
  -- 30 seconds; a success sets it back to one second and leaves the running cooldown alone.
  pub backoff_base-trip_cooldown :
      (up : Upstream Limiter) (now : ℕ)
      → up.backoff_step + 1 < u32_mod
      → (backoff_base (trip_cooldown now up).backoff_step
          ≡ min (2 * backoff_base up.backoff_step) 30_000)
        × (backoff_base (note_success up).backoff_step ≡ 1000)
        × ((note_success up).cooldown_until ≡ up.cooldown_until)
  unfolding trip_cooldown note_success
  backoff_base-trip_cooldown up now h =
      let next : (up.backoff_step + 1) % u32_mod ≡ suc up.backoff_step = omega arith in
      (
        ap backoff_base next ∙ (backoff_base-suc up.backoff_step).1,
        elim (Bool-cases (up.backoff_step == 0)) [
          | inl zero_step ↦
              let e : up.backoff_step ≡ 0 = (nat_beq_iff up.backoff_step 0).0 zero_step in
              rw zero_step (ap backoff_base e ∙ (backoff_base-suc 0).0)
          | inr other ↦ rw other (backoff_base-suc 0).0
        ],
        ground arith,
      )
