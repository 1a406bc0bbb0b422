-- ===== src/CopySplit/Cover.antt =====
-- The parts of a table cover every page exactly once (copy_split.rs).
use mathlib.Core.Path.{subst}
use pg_migrator.Base.{
  ℕ, zero, suc, ◌+◌, ◌^◌, ◌≤◌, ◌<◌, ltb, leb, Text, Option, none, some, List, [], ◌∷◌, Bool, true,
  false, ◌||◌, ◌&&◌, ◌≡◌, refl, sym, inl, inr, arith, Bool-cases, length, ℤ, pos, negsuc, as_i64,
  if◌then◌else◌,
}
use pg_migrator.CopySplit.Pages.{
  TablePart, split_loop, last_index, step_for, split_positive, split_pages,
}

-- Whether the part's `ctid` predicate selects rows of the page.
abbrev pub selects : TablePart → ℕ → Bool
selects part page =
    leb part.start_page page && elim part.end_page [ none ↦ true | some end ↦ ltb page end ]

-- How many of the parts select a page.
abbrev pub copies_of : ℕ → List TablePart → ℕ
copies_of page [] = 0
copies_of page (part ∷ parts) = (if selects part page then 1 else 0) + copies_of page parts

as_i64_small : (n : ℕ) → n < 2 ^ 63 → as_i64 n ≡ pos n
unfolding as_i64
as_i64_small n h = ground arith

-- What the loop from `start` with `len` parts pushed gives.
record Covers (parts : ℤ) (start len : ℕ) (r : Option (List TablePart)) : Type 0 where
  out : List TablePart
  returned : r ≡ some out
  once : (page : ℕ) → copies_of page out ≡ (if leb start page then 1 else 0)
  nonempty : 0 < length out
  bounded : (m : ℕ) → parts ≡ pos m → len < m → len + length out ≤ m

last-Covers :
    (table : Text) (parts : ℤ) (start len : ℕ)
    → Covers parts start len
        (some (record { table = table; start_page = start; end_page = none } ∷ []))
last-Covers table parts start len = record {
  out = record { table = table; start_page = start; end_page = none } ∷ [];
  returned = refl;
  once = λ page. ground arith;
  nonempty = omega arith;
  bounded = λ m e h. omega arith;
}

-- a part in front of those from its end
abbrev push : TablePart → Option (List TablePart) → Option (List TablePart)
push part none = none
push part (some out) = some (part ∷ out)

push-Covers :
    (table : Text) (parts : ℤ) (start end len : ℕ) (r : Option (List TablePart))
    → start < end
    → last_index len parts ≡ false
    → Covers parts end (len + 1) r
    → Covers parts start len
        (push (record { table = table; start_page = start; end_page = some end }) r)
unfolding last_index
push-Covers table parts start end len r h l c = record {
  out = record { table = table; start_page = start; end_page = some end } ∷ c.out;
  returned = ground (arith, c.returned);
  once = λ page. ground (arith, c.once page);
  nonempty = omega arith;
  bounded = λ m e k. ground (arith, c.bounded m);
}

module _ (table : Text) (pages : ℕ) (parts : ℤ) (step fuel start len : ℕ) (s : start < pages) where
  split_loop_last :
      (leb pages (start + step) || last_index len parts) ≡ true
      → split_loop table pages parts step (suc fuel) start len
        ≡ some (record { table = table; start_page = start; end_page = none } ∷ [])
  unfolding split_loop
  split_loop_last last = ground arith

  split_loop_more :
      (leb pages (start + step) || last_index len parts) ≡ false
      → split_loop table pages parts step (suc fuel) start len
        ≡ push
            (record { table = table; start_page = start; end_page = some (start + step) })
            (split_loop table pages parts step fuel (start + step) (len + 1))
  unfolding split_loop
  split_loop_more more = ground arith

split_loop-Covers :
    (table : Text) (pages : ℕ) (parts : ℤ) (step fuel start len : ℕ)
    → 0 < step
    → start < pages
    → pages ≤ start + fuel
    → Covers parts start len (split_loop table pages parts step fuel start len)
split_loop-Covers table pages parts step zero start len p s f = absurd (omega arith)
split_loop-Covers table pages parts step (suc fuel) start len p s f =
    elim (Bool-cases (leb pages (start + step) || last_index len parts)) [
      | inl last ↦
          subst (Covers parts start len)
            (sym (split_loop_last table pages parts step fuel start len s last))
            (last-Covers table parts start len)
      | inr more ↦
          subst (Covers parts start len)
            (sym (split_loop_more table pages parts step fuel start len s more))
            (push-Covers table parts start (start + step) len _ (omega arith) (ground arith) (
              split_loop-Covers table pages parts step fuel (start + step) (len + 1) p
                (ground arith) (omega arith)))
    ]

step_for-positive : (pages : ℕ) (parts : ℤ) → 0 < step_for pages parts
unfolding step_for
step_for-positive pages (pos m) = omega arith
step_for-positive pages (negsuc m) = omega arith

-- A table with pages is split into parts such that each page, and each page that the table may
-- still grow by, is selected by exactly one of them; there is at least one part, and there are at
-- most as many as were asked for. The loop always ends.
pub split_pages-covers :
    (table : Text) (pages max_parts : ℕ)
    → 0 < pages
    → 0 < max_parts
    → max_parts < 2 ^ 63
    → (parts : List TablePart) × (split_pages table (pos pages) max_parts ≡ some parts)
      × ((page : ℕ) → copies_of page parts ≡ 1)
      × (0 < length parts)
      × (length parts ≤ max_parts)
unfolding split_pages split_positive
split_pages-covers table pages max_parts p m small =
    let c =
      split_loop-Covers table pages (as_i64 max_parts) (step_for pages (as_i64 max_parts)) pages 0 0
        (step_for-positive pages (as_i64 max_parts)) p (omega arith) in
    (
      c.out,
      ground (arith, c.returned),
      (λ page. ground (arith, c.once page)),
      c.nonempty,
      ground (arith, c.bounded max_parts (as_i64_small max_parts small) m),
    )
