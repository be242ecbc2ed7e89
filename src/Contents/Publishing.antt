-- ===== src/Contents/Publishing.antt =====
-- src/modules/post-types/services/content.service.ts: what an editor who may not publish can bring about.
use kuybi.Prelude.Table.{modify, find-modify_found, select}
use kuybi.Prelude.Method.{Result, err, ok}
use kuybi.Contents.{
  deleted, draft, pending_review, published, scheduled, archived, save_unique, update,
  assert_can_set_status, Action, Entry, ContentInput, ContentError, has_id, publish_it, saved_row,
  is_publishing, find_by_id, conflicts_of, ContentStatus, moves_status, status_index, is_deleted,
  draft, pending_review, published, scheduled, archived, publish_due, schedule, is_due,
  changed_entry, due_row,
}
use kuybi.Prelude.{
  String, Bool, List, ℕ, ◌≡◌, ◌⊎◌, false, ◌∷◌, none, some, if◌then◌else◌, nat_beq, inl,
  Option-cases, arith, inr, Bool-cases, [], get_or_else, Option, refl, ◌||◌, true, ◌∙◌, is_some, ap,
  eq_iff, ◌≤◌,
}

names-cases :
    (l : List String) → (l ≡ []) ⊎ ((name : String) × (rest : List String) × (l ≡ name ∷ rest))
names-cases [] = inl refl
names-cases (name ∷ rest) = inr (name, rest, refl)

merged-cases :
    {A : Type 0} (r : Result ContentError A)
    → ((a : A) × (r ≡ ok a)) ⊎ ((e : ContentError) × (r ≡ err e))
merged-cases (ok a) = inl (a, refl)
merged-cases (err e) = inr (e, refl)

publishing_index :
    (s : ContentStatus)
    → is_publishing s ≡ (nat_beq (status_index s) 2 || nat_beq (status_index s) 3)
publishing_index draft = refl
publishing_index pending_review = refl
publishing_index published = refl
publishing_index scheduled = refl
publishing_index archived = refl
publishing_index deleted = refl

module _ {C : Type 0} where
  save-cases :
      (is_empty : String → Bool) (unique : List String) (expected : ℕ) (entry : Entry C)
      (rows : List (Entry C))
      → ((save_unique is_empty unique expected entry rows).0 ≡ rows)
        ⊎ ((save_unique is_empty unique expected entry rows).0
            ≡ modify (has_id entry.id) (saved_row entry) rows)
  unfolding save_unique
  save-cases is_empty unique expected entry rows =
      elim (names-cases (conflicts_of is_empty unique entry rows)) [
        | inr (name, rest, e) ↦ inl (ground (arith, e))
        | inl n ↦ elim (Option-cases (find_by_id entry.id rows)) [
          | inl f ↦ inl (ground (arith, n, f))
          | inr (row, f) ↦ elim (Bool-cases (nat_beq row.version expected)) [
            | inl e ↦ inr (ground (arith, n, f, e))
            | inr e ↦ inl (ground (arith, n, f, e))
          ]
        ]
      ]

  -- the status that an update writes
  allowed_status :
      (can : Action → Entry C → Bool) (to : Option ContentStatus) (e : Entry C)
      → can publish_it e ≡ false
      → is_publishing e.status ≡ false
      → (moves_status to e.status ≡ true
          → assert_can_set_status can (get_or_else to e.status) e ≡ none)
      → is_publishing (get_or_else to e.status) ≡ false
  unfolding assert_can_set_status
  allowed_status can none e not_allowed not_out h = not_out
  allowed_status can (some to) e not_allowed not_out h =
      elim (Bool-cases (nat_beq (status_index to) (status_index e.status))) [
        | inl same ↦ ground (arith, same, not_out, publishing_index to, publishing_index e.status)
        | inr other ↦
            let passed = h (ground (arith, other)) in
            elim (Bool-cases (is_publishing to)) [
              | inr out ↦ out
              | inl out ↦ elim (Bool-cases (is_deleted to)) [
                | inl d ↦ absurd (ground (arith, passed, out, d, not_allowed))
                | inr d ↦ absurd (ground (arith, passed, out, d, not_allowed))
              ]
            ]
      ]

  saved :
      (is_empty : String → Bool) (unique : List String) (expected : ℕ) (entry : Entry C)
      (id : String) (rows rows' : List (Entry C))
      → entry.id ≡ id
      → is_publishing entry.status ≡ false
      → rows' ≡ (save_unique is_empty unique expected entry rows).0
      → (rows' ≡ rows)
        ⊎ ((x : Entry C) × (x.id ≡ id)
            × (is_publishing x.status ≡ false)
            × (rows' ≡ modify (has_id x.id) (saved_row x) rows))
  saved is_empty unique expected entry id rows rows' same out e =
      elim (save-cases is_empty unique expected entry rows) [
        | inl k ↦ inl (e ∙ k)
        | inr k ↦ inr (entry, same, out, e ∙ k)
      ]

  saved_found :
      (entry e : Entry C) (rows : List (Entry C))
      → entry.id ≡ e.id
      → find_by_id e.id rows ≡ some e
      → find_by_id e.id (modify (has_id entry.id) (saved_row entry) rows) ≡ some (saved_row entry e)
  unfolding find_by_id
  saved_found entry e rows same f =
      let at =
        find-modify_found (has_id e.id) (has_id entry.id) (saved_row entry) rows {a = e}
          (λ x h.
            ground (arith, h, same, eq_iff x.id entry.id, eq_iff x.id e.id, eq_iff entry.id e.id))
          f in
      ground (arith, at, same, eq_iff e.id entry.id)

  not_due :
      (later : ℕ) (id : String) (e : Entry C) (rows : List (Entry C))
      → find_by_id id rows ≡ some e
      → is_publishing e.status ≡ false
      → (after : Entry C) × (find_by_id id (publish_due later rows).0 ≡ some after)
        × (is_publishing after.status ≡ false)
  unfolding publish_due find_by_id
  not_due later id e rows f out =
      let at = find-modify_found (has_id id) (is_due later) due_row rows {a = e} (λ x h. refl) f in
      (e, ground (arith, at, out), out)

  -- An update leaves the rows, or it saves the entry with a status that its checks allow.
  update-cases :
      (can : Action → Entry C → Bool) (is_empty : String → Bool) (unique : List String) (now : ℕ)
      (editor : String) (input : ContentInput C)
      (merged : Result ContentError (List (String × String))) (e : Entry C) (rows : List (Entry C))
      → can publish_it e ≡ false
      → is_publishing e.status ≡ false
      → let rows' = (update can is_empty unique now editor input merged e rows).0 in
        (rows' ≡ rows)
        ⊎ ((entry : Entry C) × (entry.id ≡ e.id)
            × (is_publishing entry.status ≡ false)
            × (rows' ≡ modify (has_id entry.id) (saved_row entry) rows))
  unfolding update assert_can_set_status
  update-cases can is_empty unique now editor input merged e rows not_allowed not_out =
      let moves = moves_status input.status e.status in
      let refusal = assert_can_set_status can (get_or_else input.status e.status) e in
      let expected = get_or_else input.version e.version in
      let names = if is_some input.field_data then unique else [] in
      elim (Option-cases (if moves then refusal else none)) [
        | inr (x, h) ↦ inl (ground (arith, h))
        | inl h ↦
            let out =
              allowed_status can input.status e not_allowed not_out (λ m. ground (arith, m, h)) in
            elim (merged-cases merged) [
              | inl (fields, k) ↦
                  saved is_empty names expected (changed_entry now editor input fields moves e) e.id
                    rows (update can is_empty unique now editor input merged e rows).0 refl out
                    (ground (arith, h, k))
              | inr (x, k) ↦ elim (Bool-cases (is_some input.field_data)) [
                | inl d ↦ inl (ground (arith, h, k, d))
                | inr d ↦
                    saved is_empty names expected (changed_entry now editor input [] moves e) e.id
                      rows (update can is_empty unique now editor input merged e rows).0 refl out
                      (ground (arith, h, k, d))
              ]
            ]
      ]

  -- An entry that is neither published nor scheduled stays so where an editor who may not publish it
  -- updates it, whatever the changes, or schedules it, and the job then publishes what is due. (The
  -- entry is read before with nothing in between.)
  pub stays_private :
      (can : Action → Entry C → Bool) (is_empty : String → Bool) (unique : List String)
      (now at later : ℕ) (editor : String) (input : ContentInput C)
      (merged : Result ContentError (List (String × String))) (e : Entry C) (rows : List (Entry C))
      → find_by_id e.id rows ≡ some e
      → can publish_it e ≡ false
      → is_publishing e.status ≡ false
      → let updated = (update can is_empty unique now editor input merged e rows).0 in
        ((after : Entry C) × (find_by_id e.id (publish_due later updated).0 ≡ some after)
          × (is_publishing after.status ≡ false))
        × ((schedule can now at e rows).0 ≡ rows)
  unfolding schedule assert_can_set_status
  stays_private can is_empty unique now at later editor input merged e rows f not_allowed not_out =
      (
        elim (update-cases can is_empty unique now editor input merged e rows not_allowed not_out) [
          | inl same ↦
              not_due later e.id e (update can is_empty unique now editor input merged e rows).0
                (ap (find_by_id e.id) same ∙ f) not_out
          | inr (entry, id, out, changed) ↦
              not_due later e.id (saved_row entry e)
                (update can is_empty unique now editor input merged e rows).0
                (ap (find_by_id e.id) changed ∙ saved_found entry e rows id f) out
        ],
        ground (arith, not_allowed),
      )

  came_due :
      (later : ℕ) (id : String) (e : Entry C) (rows : List (Entry C))
      → find_by_id id rows ≡ some e
      → is_due later e ≡ true
      → find_by_id id (publish_due later rows).0 ≡ some (due_row e)
  unfolding publish_due find_by_id
  came_due later id e rows f due =
      let at = find-modify_found (has_id id) (is_due later) due_row rows {a = e} (λ x h. refl) f in
      ground (arith, at, due)

  only_date :
      (can : Action → Entry C → Bool) (is_empty : String → Bool) (unique : List String) (now : ℕ)
      (editor : String) (input : ContentInput C)
      (merged : Result ContentError (List (String × String))) (e : Entry C) (rows : List (Entry C))
      → find_by_id e.id rows ≡ some e
      → input.status ≡ none
      → input.field_data ≡ none
      → input.version ≡ none
      → let u = update can is_empty unique now editor input merged e rows in
        let entry = changed_entry now editor input [] false e in
        (u.0 ≡ modify (has_id e.id) (saved_row entry) rows) × (u.1 ≡ ok tt)
  unfolding update save_unique conflicts_of select
  only_date can is_empty unique now editor input merged e rows f no_status no_fields no_version =
      elim (merged-cases merged) [
        | inl (fields, k) ↦ (
          ground (arith, f, no_status, no_fields, no_version, k),
          ground (arith, f, no_status, no_fields, no_version, k),
        )
        | inr (x, k) ↦ (
          ground (arith, f, no_status, no_fields, no_version, k),
          ground (arith, f, no_status, no_fields, no_version, k),
        )
      ]

  -- An editor who may not publish a scheduled entry, but updates nothing but its date, chooses when it
  -- is published: the update is accepted, and the next run of the job from that date on publishes the
  -- entry as of it, also where the date lies in the past.
  pub publication_moved :
      (can : Action → Entry C → Bool) (is_empty : String → Bool) (unique : List String)
      (now date later : ℕ) (editor : String) (input : ContentInput C)
      (merged : Result ContentError (List (String × String))) (e : Entry C) (rows : List (Entry C))
      → find_by_id e.id rows ≡ some e
      → can publish_it e ≡ false
      → e.status ≡ scheduled
      → e.deleted_at ≡ none
      → input.status ≡ none
      → input.field_data ≡ none
      → input.version ≡ none
      → input.scheduled_at ≡ some date
      → date ≤ later
      → let (updated, r) = update can is_empty unique now editor input merged e rows in
        (r ≡ ok tt)
        × ((after : Entry C) × (find_by_id e.id (publish_due later updated).0 ≡ some after)
            × (after.status ≡ published)
            × (after.published_at ≡ some date))
  publication_moved can is_empty unique now date later editor input merged e rows f not_allowed out
        live no_status no_fields no_version moved due =
      let entry = changed_entry now editor input [] false e in
      let u =
        only_date can is_empty unique now editor input merged e rows f no_status no_fields
          no_version in
      let rows' = (update can is_empty unique now editor input merged e rows).0 in
      let found = ap (find_by_id e.id) u.0 ∙ saved_found entry e rows refl f in
      (
        u.1,
        (
          due_row (saved_row entry e),
          came_due later e.id (saved_row entry e) rows' found
              (ground (arith, out, no_status, live, moved, due)),
          refl,
          ground (arith, moved),
        ),
      )
