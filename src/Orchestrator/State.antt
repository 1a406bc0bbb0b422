-- ===== src/Orchestrator/State.antt =====
-- The state of a run between two steps: its trace is legal, has reached a place and holds an entry
-- for each test of `seen`; the token in memory claims only what is covered, and has the stages of
-- `before` and of `base`.
use pg_migrator.Base.{◌≡◌, ℕ, ◌≤◌, Bool, true, List, [], ◌∷◌, any, All, none, some, arith}
use pg_migrator.Resume.Token.{CompletedStage, StageSet, add_stage, has_stage, ResumeToken, mark}
use pg_migrator.Resume.Token
use pg_migrator.Restore.Command.{pre_data, only_data, post_data}
use pg_migrator.Orchestrator.Trace.{Trace, Entry}
use pg_migrator.Orchestrator.Legal.{
  rank, last_rank, did, is_vacuum, is_slot, is_dump, restores, is_analyze, done, covers, permitted,
  in_place, legal,
}

pub record At (before base : StageSet) (r : ℕ) (seen : List (Entry → Bool)) (t : ResumeToken)
    (tr : Trace) : Type 0 where
  pub is_legal : legal before tr ≡ true
  pub reached : last_rank tr ≤ r
  pub is_covered : covers before tr t.completed ≡ true
  pub sees : All (λ p. any p tr ≡ true) seen
  pub keeps :
      (stage : CompletedStage) → has_stage stage before ≡ true → has_stage stage t.completed ≡ true
  pub holds :
      (stage : CompletedStage) → has_stage stage base ≡ true → has_stage stage t.completed ≡ true

any-more : (p : Entry → Bool) (e : Entry) (tr : Trace) → any p tr ≡ true → any p (e ∷ tr) ≡ true
unfolding any
any-more p e tr h = ground (arith)

sees-more :
    (e : Entry) (tr : Trace) (seen : List (Entry → Bool))
    → All (λ p. any p tr ≡ true) seen
    → All (λ p. any p (e ∷ tr) ≡ true) seen
sees-more e tr [] h = h
sees-more e tr (p ∷ seen) (h, hs) = (any-more p e tr h, sees-more e tr seen hs)

-- what is done stays done
done-more :
    (e : Entry) (tr : Trace) (stage : CompletedStage)
    → done tr stage ≡ true
    → done (e ∷ tr) stage ≡ true
unfolding done
done-more e tr Token.source_vacuum h = any-more (did is_vacuum) e tr h
done-more e tr Token.prepare_snapshot h = any-more (did is_slot) e tr h
done-more e tr Token.dump h = any-more (did is_dump) e tr h
done-more e tr Token.restore h = ground (
  arith,
  any-more (did (restores none)) e tr,
  any-more (did (restores (some pre_data))) e tr,
  any-more (did (restores (some only_data))) e tr,
  any-more (did (restores (some post_data))) e tr,
)
done-more e tr Token.analyze h = any-more (did is_analyze) e tr h
done-more e tr Token.verified h = h

pub covers-more :
    (before : StageSet) (e : Entry) (tr : Trace) (set : StageSet)
    → covers before tr set ≡ true
    → covers before (e ∷ tr) set ≡ true
unfolding covers
covers-more before e tr set h = ground (
  arith,
  done-more e tr Token.source_vacuum,
  done-more e tr Token.prepare_snapshot,
  done-more e tr Token.dump,
  done-more e tr Token.restore,
  done-more e tr Token.analyze,
  done-more e tr Token.verified,
)

covers-add :
    (before : StageSet) (tr : Trace) (stage : CompletedStage) (set : StageSet)
    → done tr stage ≡ true
    → covers before tr set ≡ true
    → covers before tr (add_stage stage set) ≡ true
unfolding covers
covers-add before tr stage set d c = ground (arith)

add_stage-keeps :
    (added stage : CompletedStage) (set : StageSet)
    → has_stage stage set ≡ true
    → has_stage stage (add_stage added set) ≡ true
add_stage-keeps added stage set h = ground (arith)

add_stage-most :
    (added stage : CompletedStage) (base set : StageSet)
    → has_stage added set ≡ true
    → (has_stage stage base ≡ true → has_stage stage set ≡ true)
    → has_stage stage (add_stage added base) ≡ true
    → has_stage stage set ≡ true
add_stage-most added stage base set h k b = ground (arith)

module _ {before base : StageSet} {r : ℕ} {seen : List (Entry → Bool)} {t : ResumeToken}
    {tr : Trace} where
  -- an entry that is in its place and permitted
  pub At-entry :
      (e : Entry) (r' : ℕ)
      → At before base r seen t tr
      → r ≤ r'
      → rank e ≤ r'
      → in_place tr e ≡ true
      → permitted before tr e ≡ true
      → At before base r' seen t (e ∷ tr)
  unfolding legal last_rank
  At-entry e r' a le below place permit = record {
    is_legal = ground (arith, a.is_legal);
    reached = ground (arith, a.reached);
    is_covered = covers-more before e tr t.completed a.is_covered;
    sees = sees-more e tr seen a.sees;
    keeps = a.keeps;
    holds = a.holds;
  }

  pub At-later : (r' : ℕ) → At before base r seen t tr → r ≤ r' → At before base r' seen t tr
  At-later r' a le = record {
    is_legal = a.is_legal;
    reached = ground (arith, a.reached);
    is_covered = a.is_covered;
    sees = a.sees;
    keeps = a.keeps;
    holds = a.holds;
  }

  pub At-mark :
      (stage : CompletedStage)
      → At before base r seen t tr
      → done tr stage ≡ true
      → At before base r seen (mark stage t) tr
  unfolding mark
  At-mark stage a d = record {
    is_legal = a.is_legal;
    reached = a.reached;
    is_covered = covers-add before tr stage t.completed d a.is_covered;
    sees = a.sees;
    keeps = λ s h. add_stage-keeps stage s t.completed (a.keeps s h);
    holds = λ s h. add_stage-keeps stage s t.completed (a.holds s h);
  }

module _ {before base : StageSet} {r : ℕ} {seen : List (Entry → Bool)} {t : ResumeToken}
    {tr : Trace} where
  -- the newest entry passes `p`
  pub At-see :
      (p : Entry → Bool) (e : Entry)
      → p e ≡ true
      → At before base r seen t (e ∷ tr)
      → At before base r (p ∷ seen) t (e ∷ tr)
  unfolding any
  At-see p e h a = record {
    is_legal = a.is_legal;
    reached = a.reached;
    is_covered = a.is_covered;
    sees = (ground (arith, h), a.sees);
    keeps = a.keeps;
    holds = a.holds;
  }

  pub At-forget : {p : Entry → Bool} → At before base r (p ∷ seen) t tr → At before base r seen t tr
  At-forget a = record {
    is_legal = a.is_legal;
    reached = a.reached;
    is_covered = a.is_covered;
    sees = a.sees.1;
    keeps = a.keeps;
    holds = a.holds;
  }

  -- a stage that the token has may join `base`
  pub At-hold :
      (stage : CompletedStage)
      → has_stage stage t.completed ≡ true
      → At before base r seen t tr
      → At before (add_stage stage base) r seen t tr
  At-hold stage h a = record {
    is_legal = a.is_legal;
    reached = a.reached;
    is_covered = a.is_covered;
    sees = a.sees;
    keeps = a.keeps;
    holds = λ s b. add_stage-most stage s base t.completed h (a.holds s) b;
  }

  -- another token with the same stages
  pub At-same :
      (t' : ResumeToken)
      → t'.completed ≡ t.completed
      → At before base r seen t tr
      → At before base r seen t' tr
  At-same t' h a = record {
    is_legal = a.is_legal;
    reached = a.reached;
    is_covered = rw (h) a.is_covered;
    sees = a.sees;
    keeps = λ s k. rw (h) (a.keeps s k);
    holds = λ s k. rw (h) (a.holds s k);
  }
