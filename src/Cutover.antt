-- ===== src/Cutover.antt =====
-- pg_dbmigrator/src/cutover.rs: the operator's cutover handle and the lag sampler.
pub mod Laws
use pg_migrator.Base.{ℕ, ◌-◌, Bool, true, false, Option, none, some, leb, if◌then◌else◌}

-- The shared state behind `CutoverHandle`: the flag, and the permit that `Notify` stores.
pub record CutoverHandle : Type 0 where
  pub requested : Bool
  pub permit : Bool

abbrev pub new_handle : CutoverHandle
new_handle = record { requested = false; permit = false }

-- `request`: sets the flag, stores a permit, and returns the flag's old value.
unfoldable pub request : CutoverHandle → CutoverHandle × Bool
request h = (record { requested = true; permit = true }, h.requested)

unfoldable pub is_requested : CutoverHandle → Bool
is_requested h = h.requested

-- `notified().await`: takes the permit, or (`none`) stays parked.
unfoldable pub notified : CutoverHandle → Option CutoverHandle
notified h = if h.permit then some (record h { permit = false }) else none

pub record LagSampler : Type 0 where
  pub threshold_bytes : ℕ
  pub caught_up : Bool

unfoldable pub new_sampler : ℕ → LagSampler
new_sampler t = record { threshold_bytes = t; caught_up = false }

-- `saturating_sub` on u64
unfoldable pub lag_bytes : ℕ → ℕ → ℕ
lag_bytes source_lsn applied_lsn = source_lsn - applied_lsn

pub data Transition : Type 0 where
  just_caught_up still_caught_up fell_behind still_behind : ℕ → Transition

unfoldable pub transition_lag : Transition → ℕ
transition_lag (just_caught_up lag) = lag
transition_lag (still_caught_up lag) = lag
transition_lag (fell_behind lag) = lag
transition_lag (still_behind lag) = lag

-- `Transition::just_caught_up`
unfoldable pub is_just_caught_up : Transition → Bool
is_just_caught_up (just_caught_up _) = true
is_just_caught_up _ = false

-- the `match (self.caught_up, now_caught_up)` of `observe`
classify : Bool → Bool → ℕ → Transition
classify false true lag = just_caught_up lag
classify true false lag = fell_behind lag
classify true true lag = still_caught_up lag
classify false false lag = still_behind lag

unfoldable pub observe : LagSampler → ℕ → ℕ → LagSampler × Transition
unfolding classify lag_bytes
observe s source_lsn applied_lsn =
    let lag = lag_bytes source_lsn applied_lsn in
    let now_caught_up = leb lag s.threshold_bytes in
    (record s { caught_up = now_caught_up }, classify s.caught_up now_caught_up lag)
