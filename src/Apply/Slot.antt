-- ===== src/Apply/Slot.antt =====
-- `wait_for_slot_inactive` (pg_dbmigrator/src/native_apply.rs): polling the source until the slot is
-- released. The loop is
-- structural on the polls that are made; a poll is what the query returned and the time, in
-- milliseconds, at which the deadline is compared.
use pg_migrator.Base.{
  ℕ, ◌+◌, ◌≤◌, Text, length, is_empty, All, Option, none, some, List, [], ◌∷◌, ◌++◌, Bool, true,
  false, leb, if◌then◌else◌, ◌≡◌,
}
use pg_migrator.Error.{apply, slot_still_active, Result, ok, err}
use pg_migrator.Progress.{Message, waiting_for_slot}

-- the column `active` of the rows
pub record Poll : Type 0 where
  pub rows : Result (List Bool)
  pub now : ℕ

pub data Decision : Type 0 where
  stop : Result (Unit {0}) → Decision
  again : Decision

module _ (slot : Text) (deadline : ℕ) where
  -- what one round does with the rows
  unfoldable pub decide_rows : ℕ → List Bool → Decision
  decide_rows now [] = stop (ok tt)
  decide_rows now (false ∷ rows) = stop (ok tt)
  decide_rows now (true ∷ rows) =
      if leb deadline now then stop (err (apply (slot_still_active slot))) else again

  unfoldable pub decide : Poll → Decision
  decide poll = elim poll.rows [ err e ↦ stop (err e) | ok rows ↦ decide_rows poll.now rows ]

  -- the report is made once
  abbrev warning : Bool → List Message
  warning true = []
  warning false = waiting_for_slot slot ∷ []

  unfoldable pub wait_loop : List Poll → Bool → Option (Result (Unit {0})) × List Message
  wait_loop [] warned = (none, [])
  wait_loop (poll ∷ polls) warned = elim (decide poll) [
    | stop r ↦ (some r, [])
    | again ↦ let (r, messages) = wait_loop polls true in (r, warning warned ++ messages)
  ]

-- thirty seconds from the start, once connected and prepared
unfoldable pub wait_for_slot_inactive :
    Text → Result (Unit {0}) → ℕ → List Poll → Option (Result (Unit {0})) × List Message
wait_for_slot_inactive slot (err e) start polls = (some (err e), [])
wait_for_slot_inactive slot (ok _) start polls = wait_loop slot (start + 30000) polls false

-- polls at least half a second apart, from a time on
abbrev pub Paced : ℕ → List Poll → Type 0
Paced time [] = Unit {0}
Paced time (poll ∷ polls) = (time ≤ poll.now) × Paced (poll.now + 500) polls

module _ (slot : Text) (deadline : ℕ) where
  -- The wait ended at a poll after at most some number of others, each of which found the slot
  -- active before the deadline; the report is made when there were others.
  pub record Ended (polls : List Poll) (most : ℕ) (warned : Bool)
      (out : Option (Result (Unit {0})) × List Message) : Type 0 where
    pub earlier : List Poll
    pub last : Poll
    pub later : List Poll
    pub answer : Result (Unit {0})
    pub split : polls ≡ earlier ++ last ∷ later
    pub few : length earlier ≤ most
    pub waited : All (λ p. decide slot deadline p ≡ again) earlier
    pub decided : decide slot deadline last ≡ stop answer
    pub returned :
        out ≡ (some answer, if is_empty earlier then [] else warning slot deadline warned)
