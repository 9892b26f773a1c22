-- ===== src/Stats/Retention.antt =====
-- The daily history is trimmed from the front.
use helius.Common.{
  ℕ, zero, suc, ◌-◌, ◌≤◌, ◌<◌, ◌≡◌, refl, ap, arith, true, ◌&&◌, List, [], ◌∷◌, ◌++◌, length, drop,
  length-drop, length-append, ltb, Bool-cases, inl, inr, min,
}
use helius.Stats.Record.{DailyRecord, trim_front}
use helius.Stats.Roll.{Stats, push_daily}

bounds : (max n : ℕ) → (ltb 0 max && ltb max n) ≡ true → (0 < max) × (max < n)
bounds max n h = ground arith

module _ {ℓ} {A : Type ℓ} where
  drop-append : (n : ℕ) (xs ys : List A) → n ≤ length xs → drop n (xs ++ ys) ≡ drop n xs ++ ys
  drop-append zero xs ys h = refl
  drop-append (suc n) [] ys h = absurd (omega arith)
  drop-append (suc n) (x ∷ xs) ys h = drop-append n xs ys (omega arith)

  drop-suffix : (n : ℕ) (xs : List A) → (old : List A) × (xs ≡ old ++ drop n xs)
  drop-suffix zero xs = ([], refl)
  drop-suffix (suc n) [] = ([], refl)
  drop-suffix (suc n) (x ∷ xs) = let (old, e) = drop-suffix n xs in (x ∷ old, ap (λ t. x ∷ t) e)

  -- Trimming keeps a suffix: all of the list if it is within the bound or the bound is 0, and as many
  -- entries as the bound allows otherwise.
  pub trim_front_lem :
      (v : List A) (max : ℕ)
      → ((old : List A) × (v ≡ old ++ trim_front v max))
        × (0 < max → length (trim_front v max) ≡ min (length v) max)
        × (max ≡ 0 → trim_front v max ≡ v)
  unfolding trim_front
  trim_front_lem v max = elim (Bool-cases (ltb 0 max && ltb max (length v))) [
    | inl long ↦ rw long (
      drop-suffix (length v - max) v,
      (λ pos. omega (arith, length-drop (length v - max) v, (bounds max (length v) long).1)),
      λ z. absurd (omega (arith, (bounds max (length v) long).0)),
    )
    | inr short ↦ rw short (([], refl), (λ pos. ground arith), λ z. refl)
  ]

-- A day that is closed is the last entry of the daily history, whatever the retention, and the history
-- never holds more days than a retention above 0.
pub push_daily_lem :
    (r : DailyRecord) (retention : ℕ) (s : Stats)
    → ((kept : List DailyRecord) × ((push_daily r retention s).daily_history ≡ kept ++ r ∷ []))
      × (0 < retention → length (push_daily r retention s).daily_history ≤ retention)
unfolding push_daily trim_front
push_daily_lem r retention s =
    let all = s.daily_history ++ r ∷ [] in
    let size = length-append {0} s.daily_history (r ∷ []) in
    elim (Bool-cases (ltb 0 retention && ltb retention (length all))) [
      | inl long ↦
          let below = bounds retention (length all) long in
          rw long (
            (
              drop (length all - retention) s.daily_history,
              drop-append (length all - retention) s.daily_history (r ∷ [])
                  (omega (arith, size, below)),
            ),
            λ pos. omega (arith, length-drop (length all - retention) all, below),
          )
      | inr short ↦ rw short ((s.daily_history, refl), λ pos. ground arith)
    ]
