-- ===== src/Cutover/Laws.antt =====
-- The sampler's reports over any sequence of samples, and the handle's promises (cutover.rs).
use pg_migrator.Base.{
  ℕ, suc, ◌+◌, ◌-◌, ◌≤◌, List, [], ◌∷◌, Bool, true, false, some, ◌≡◌, refl, ◌↔◌, arith,
  if◌then◌else◌,
}
use pg_migrator.Cutover.{
  CutoverHandle, request, is_requested, notified, LagSampler, new_sampler, Transition,
  just_caught_up, fell_behind, transition_lag, observe,
}

-- The transitions that a list of samples brings, and the sampler after them.
unfoldable pub observe_all : LagSampler → List (ℕ × ℕ) → LagSampler × List Transition
observe_all s [] = (s, [])
observe_all s ((source, applied) ∷ rest) =
    let (s', t) = observe s source applied in let (s'', ts) = observe_all s' rest in (s'', t ∷ ts)

abbrev pub ups : List Transition → ℕ
ups [] = 0
ups (just_caught_up _ ∷ ts) = suc (ups ts)
ups (_ ∷ ts) = ups ts

abbrev pub downs : List Transition → ℕ
downs [] = 0
downs (fell_behind _ ∷ ts) = suc (downs ts)
downs (_ ∷ ts) = downs ts

abbrev as_number : Bool → ℕ
as_number true = 1
as_number false = 0

alternation_from :
    (s : LagSampler) (samples : List (ℕ × ℕ))
    → ups (observe_all s samples).1 + as_number s.caught_up
      ≡ downs (observe_all s samples).1 + as_number (observe_all s samples).0.caught_up
unfolding observe_all observe
alternation_from s [] = omega arith
alternation_from s ((source, applied) ∷ rest) =
    ground (arith, alternation_from (observe s source applied).0 rest)

-- Over any samples, a new sampler has reported "just caught up" as often as "fell behind", and
-- once more exactly when it now counts as caught up: the two reports alternate, the first first.
pub alternation :
    (threshold : ℕ) (samples : List (ℕ × ℕ))
    → let (s, ts) = observe_all (new_sampler threshold) samples in
      ups ts ≡ downs ts + (if s.caught_up then 1 else 0)
unfolding new_sampler
alternation threshold samples = ground (arith, alternation_from (new_sampler threshold) samples)

-- A sample leaves the threshold, makes the sampler caught up exactly when the source is at most
-- the threshold ahead, and carries the saturated lag; it reports "just caught up" exactly when
-- the sampler was behind and is caught up now.
pub observe_lem :
    (s : LagSampler) (source applied : ℕ)
    → let (s', t) = observe s source applied in
      (s'.threshold_bytes ≡ s.threshold_bytes)
      × ((s'.caught_up ≡ true) ↔ (source ≤ applied + s.threshold_bytes))
      × (transition_lag t ≡ source - applied)
      × ((t ≡ just_caught_up (source - applied))
          ↔ ((s.caught_up ≡ false) × (source ≤ applied + s.threshold_bytes)))
unfolding observe transition_lag
observe_lem s source applied = ground arith

-- After a request the flag is set, a waiter is not parked, and a second request reports that one
-- was made already and changes nothing.
pub request_lem :
    (h : CutoverHandle)
    → let (h', before) = request h in
      (before ≡ is_requested h)
      × (is_requested h' ≡ true)
      × (notified h' ≡ some (record h' { permit = false }))
      × (request h' ≡ (h', true))
unfolding request is_requested notified
request_lem h = (refl, refl, refl, refl)
