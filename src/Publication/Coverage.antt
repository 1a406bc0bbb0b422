-- ===== src/Publication/Coverage.antt =====
-- Which tables the publication that is created covers (pg_dbmigrator/src/preflight.rs).
use mathlib.Core.Path.{subst}
use pg_migrator.Base.{
  Bool-cases, ap, sym, ◌∙◌, Text, mem_text, mem_text_iff, In, filter, List, [], ◌∷◌, Bool, true,
  false, not, ◌≡◌, ◌≢◌, ◌↔◌, refl, ◌⊎◌, inl, inr, arith,
}
use pg_migrator.Publication.Schema.{InSchema, schema_of-InSchema, InSchema-schema_of}
use pg_migrator.Publication.{schema_of, keeps_table, filter_tables_by_exclusions, effective_scope}

-- The table is listed itself, or its schema is.
abbrev pub Listed : List Text → List Text → Text → Type 0
Listed tables schemas t = In t tables ⊎ ((schema : Text) × In schema schemas × InSchema schema t)

-- Whether PostgreSQL publishes the table, for the two lists of `CREATE PUBLICATION`: two empty lists
-- stand for all tables.
abbrev pub Publishes : List Text × List Text → Text → Type 0
Publishes (tables, schemas) t = ((tables ≡ []) × (schemas ≡ [])) ⊎ Listed tables schemas t

module _ {A : Type 0} (p : A → Bool) where
  In-filter : (a : A) (l : List A) → In a (filter p l) ↔ (In a l × (p a ≡ true))
  unfolding filter
  In-filter a [] = ground arith
  In-filter a (x ∷ xs) = elim (Bool-cases (p x)) [
    | inl e ↦ ground (arith, e, In-filter a xs, λ (i : a ≡ x). ap p i)
    | inr e ↦ ground (arith, e, In-filter a xs, λ (i : a ≡ x). ap p i)
  ]

  filter-nil : (l : List A) → (filter p l ≡ []) ↔ ((a : A) → In a l → p a ≡ false)
  unfolding filter
  filter-nil [] = ((λ e a i. elim i [ ]), λ h. refl)
  filter-nil (x ∷ xs) = elim (Bool-cases (p x)) [
    | inl e ↦ ((λ h. ground (arith, e, h)), (λ h. ground (arith, e, h x (inl refl))))
    | inr e ↦ (
      (λ h a i. elim i [
        | inl q ↦ ap p q ∙ e
        | inr m ↦ (filter-nil xs).0 (ground (arith, h, e)) a m
      ]),
      (λ h. ground (arith, e, (filter-nil xs).1 (λ a m. h a (inr m)))),
    )
  ]

module _ (exclude_tables exclude_schemas : List Text) where
  Listed-schema_of :
      (tables schemas : List Text) (t : Text)
      → Listed tables schemas t ↔ (In t tables ⊎ In (schema_of t) schemas)
  Listed-schema_of tables schemas t = (
    (λ l. elim l [
      | inl i ↦ inl i
      | inr (s, i, h) ↦ inr (subst (λ x. In x schemas) (sym (InSchema-schema_of t s h)) i)
    ]),
    (λ l. elim l [ inl i ↦ inl i | inr i ↦ inr (schema_of t, i, schema_of-InSchema t) ]),
  )

  keeps_table_iff :
      (t : Text)
      → (keeps_table exclude_tables exclude_schemas t ≡ true)
        ↔ ¬ (Listed exclude_tables exclude_schemas t)
  unfolding keeps_table
  keeps_table_iff t = ground (
    arith,
    mem_text_iff t exclude_tables,
    mem_text_iff (schema_of t) exclude_schemas,
    Listed-schema_of exclude_tables exclude_schemas t,
  )

  excluded_iff :
      (t : Text)
      → (keeps_table exclude_tables exclude_schemas t ≡ false)
        ↔ Listed exclude_tables exclude_schemas t
  unfolding keeps_table
  excluded_iff t = ground (
    arith,
    mem_text_iff t exclude_tables,
    mem_text_iff (schema_of t) exclude_schemas,
    Listed-schema_of exclude_tables exclude_schemas t,
  )

  -- what is left of a list of tables
  left_iff :
      (tables : List Text) (t : Text)
      → In t (filter_tables_by_exclusions tables exclude_tables exclude_schemas)
        ↔ (In t tables × ¬ (Listed exclude_tables exclude_schemas t))
  unfolding filter_tables_by_exclusions
  left_iff tables t =
      ground
        (arith, In-filter (keeps_table exclude_tables exclude_schemas) t tables, keeps_table_iff t)

  none_left_iff :
      (tables : List Text)
      → (filter_tables_by_exclusions tables exclude_tables exclude_schemas ≡ [])
        ↔ ((t : Text) → In t tables → Listed exclude_tables exclude_schemas t)
  unfolding filter_tables_by_exclusions
  none_left_iff tables =
      let empty = filter-nil (keeps_table exclude_tables exclude_schemas) tables in
      (
        (λ h t i. (excluded_iff t).0 (empty.0 h t i)),
        (λ h. empty.1 (λ t i. (excluded_iff t).1 (h t i))),
      )

  abbrev Left : List Text → Text → Type 0
  Left schemas s = In s schemas × ¬ (In s exclude_schemas)

  schemas_iff :
      (schemas : List Text) (s : Text)
      → In s (filter (λ x. not (mem_text x exclude_schemas)) schemas) ↔ Left schemas s
  schemas_iff schemas s = ground (
    arith,
    In-filter (λ x. not (mem_text x exclude_schemas)) s schemas,
    mem_text_iff s exclude_schemas,
  )

  no_schemas_iff :
      (schemas : List Text)
      → (filter (λ x. not (mem_text x exclude_schemas)) schemas ≡ [])
        ↔ ((s : Text) → In s schemas → In s exclude_schemas)
  no_schemas_iff schemas =
      let empty = filter-nil (λ x. not (mem_text x exclude_schemas)) schemas in
      (
        (λ h s i. ground (arith, empty.0 h s i, mem_text_iff s exclude_schemas)),
        (λ h. empty.1 (λ s i. ground (arith, h s i, mem_text_iff s exclude_schemas))),
      )

  without_includes :
      (fetched : List Text)
      → (exclude_tables ≢ []) ⊎ (exclude_schemas ≢ [])
      → effective_scope [] [] exclude_tables exclude_schemas fetched ≡ (fetched, [])
  unfolding effective_scope
  without_includes fetched e = ground (arith, e)

  with_includes :
      (tables schemas fetched : List Text)
      → (exclude_tables ≢ []) ⊎ (exclude_schemas ≢ [])
      → (tables ≢ []) ⊎ (schemas ≢ [])
      → effective_scope tables schemas exclude_tables exclude_schemas fetched ≡ (
        filter_tables_by_exclusions tables exclude_tables exclude_schemas,
        filter (λ x. not (mem_text x exclude_schemas)) schemas,
      )
  unfolding effective_scope
  with_includes tables schemas fetched e i = ground (arith, e, i)

  -- With exclusions and no includes, a table of the source is published exactly when it is neither
  -- excluded itself nor in an excluded schema, or when every table of the source is excluded: then
  -- the publication is for all tables.
  pub exclusions_publish :
      (all : List Text) (t : Text)
      → (exclude_tables ≢ []) ⊎ (exclude_schemas ≢ [])
      → In t all
      → let fetched = filter_tables_by_exclusions all exclude_tables exclude_schemas in
        Publishes (effective_scope [] [] exclude_tables exclude_schemas fetched) t ↔ (
          ¬ (Listed exclude_tables exclude_schemas t)
          ⊎ ((u : Text) → In u all → Listed exclude_tables exclude_schemas u))
  exclusions_publish all t some_exclusion i =
      rw
        (without_includes (filter_tables_by_exclusions all exclude_tables exclude_schemas)
          some_exclusion)
        (
          (λ p. elim p [
            | inl (none_left, _) ↦ inr ((none_left_iff all).0 none_left)
            | inr (inl m) ↦ inl ((left_iff all t).0 m).1
            | inr (inr (s, m, h)) ↦ elim m [ ]
          ]),
          (λ q. elim q [
            | inl k ↦ inr (inl ((left_iff all t).1 (i, k)))
            | inr h ↦ inl ((none_left_iff all).1 h, refl)
          ]),
        )

  -- With exclusions and includes, a table is published exactly when it is listed itself and neither
  -- excluded itself nor in an excluded schema, or when its schema is listed and not excluded, or when
  -- every table that is listed is excluded in one of these ways and every schema that is listed is
  -- excluded: then the publication is for all tables. A table that is excluded itself is published
  -- where its schema is listed and not excluded.
  pub includes_publish :
      (tables schemas fetched : List Text) (t : Text)
      → (exclude_tables ≢ []) ⊎ (exclude_schemas ≢ [])
      → (tables ≢ []) ⊎ (schemas ≢ [])
      → Publishes (effective_scope tables schemas exclude_tables exclude_schemas fetched) t ↔ (
          (In t tables × ¬ (Listed exclude_tables exclude_schemas t))
          ⊎ ((s : Text) × In s schemas × ¬ (In s exclude_schemas) × InSchema s t)
          ⊎ (((u : Text) → In u tables → Listed exclude_tables exclude_schemas u)
              × ((s : Text) → In s schemas → In s exclude_schemas)))
  includes_publish tables schemas fetched t e i = rw (with_includes tables schemas fetched e i) (
    (λ p. elim p [
      | inl (a, b) ↦ inr (inr ((none_left_iff tables).0 a, (no_schemas_iff schemas).0 b))
      | inr (inl m) ↦ inl ((left_iff tables t).0 m)
      | inr (inr (s, m, h)) ↦
          let (listed, kept) = (schemas_iff schemas s).0 m in inr (inl (s, listed, kept, h))
    ]),
    (λ q. elim q [
      | inl k ↦ inr (inl ((left_iff tables t).1 k))
      | inr (inl (s, listed, kept, h)) ↦ inr (inr (s, (schemas_iff schemas s).1 (listed, kept), h))
      | inr (inr (a, b)) ↦ inl ((none_left_iff tables).1 a, (no_schemas_iff schemas).1 b)
    ]),
  )
