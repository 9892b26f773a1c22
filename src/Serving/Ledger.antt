-- ===== src/Serving/Ledger.antt =====
-- What a running gateway promises about the credits of a key, without the rest of its state: each key has a
-- cap, what it has used and the requests that it has in flight; a task may hold a flight to a key, which
-- will cost at most its estimate.
use helius.Common.{
  ℕ, Bool, true, false, Option, none, some, List, [], ◌∷◌, ◌++◌, map, ◌≡◌, ◌+◌, ◌≤◌, get_elem?, set,
  modify, add_u32, sub_u32, add_u64,
}

pub record Purse : Type 0 where
  pub cap : ℕ
  pub used : ℕ
  pub in_flight : ℕ

pub record Flight : Type 0 where
  pub idx : ℕ
  pub est : ℕ
  pub is_request : Bool

pub record Ledger : Type 0 where
  pub purses : List Purse
  pub flights : List (Option Flight)

-- A request takes off and lands; a ping is not counted.
abbrev pub depart : Bool → Purse → Purse
depart true c = record c { in_flight = add_u32 c.in_flight 1 }
depart false c = c

abbrev pub arrive : Bool → Purse → Purse
arrive true c = record c { in_flight = sub_u32 c.in_flight 1 }
arrive false c = c

abbrev pub pay : Bool → ℕ → Purse → Purse
pay true est c = record c { used = add_u64 c.used est }
pay false est c = c

abbrev pub unspent : Purse → Purse
unspent c = record c { used = 0 }

-- What asks for a change: a task joins; the task at a position may take a flight, may end its flight, or loses it; a
-- month or a day is looked at.
pub data Cause : Type 0 where
  joins : Cause
  departs lands loses : (n : ℕ) → Cause
  resets keeps : Cause

-- Whether a cause may leave the ledger as it was.
abbrev pub MayStay : Cause → Type 0
MayStay joins = ⊥
MayStay (departs n) = Unit
MayStay (lands n) = Unit
MayStay (loses n) = Unit
MayStay resets = Unit
MayStay keeps = Unit

-- What may happen to a ledger, each for one cause: nothing; a task joins; a task takes a flight to a key
-- that has the estimate left; a flight ends, charged or not; a flight is lost, so that it will not be
-- charged and never lands; and a month begins.
pub data Post (a b : Ledger) : Cause → Type 0 where
  stay : {cause : Cause} → MayStay cause → b ≡ a → Post a b cause
  join : b ≡ record a { flights = a.flights ++ none ∷ [] } → Post a b joins
  begin :
      (n : ℕ) (f : Flight) (c : Purse)
      → get_elem? a.flights n ≡ some none
      → get_elem? a.purses f.idx ≡ some c
      → c.used + f.est ≤ c.cap
      → b ≡ record {
        purses = modify f.idx (depart f.is_request) a.purses;
        flights = set a.flights n (some f);
      }
      → Post a b (departs n)
  end :
      (n : ℕ) (f : Flight) (charged : Bool)
      → get_elem? a.flights n ≡ some (some f)
      → b ≡ record {
        purses = modify f.idx (λ c. pay charged f.est (arrive f.is_request c)) a.purses;
        flights = set a.flights n none;
      }
      → Post a b (lands n)
  lost :
      (n : ℕ) (f : Flight)
      → get_elem? a.flights n ≡ some (some f)
      → b ≡ record a { flights = set a.flights n (some (record f { est = 0 })) }
      → Post a b (loses n)
  reset : b ≡ record a { purses = map unspent a.purses } → Post a b resets
