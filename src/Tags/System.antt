-- ===== src/Tags/System.antt =====
-- src/modules/tags/services/tags.service.ts: system tags, which only some editors may change.
use kuybi.Prelude.Table.{
  modify, find-modify_other, count, find, find_sound, find-remove_kept, count-modify,
}
use kuybi.Prelude.Method.{Result, ok}
use kuybi.Tags.{
  TagEditor, Tag, find_by_id, name_safe, TagError, has_id, clashes, create, hard_delete, update,
  remove_tag, CreateTag, find_one, UpdateTag, update_if_version, removed_row, has_version,
  updated_row, new_tag, is_system_tag,
}
use kuybi.Prelude.{
  ◌≡◌, false, ℕ, List, some, true, Bool, nat_beq, Bool-cases, arith, inl, ◌∙◌, inr, String, ap, sym,
  Option, Option-cases, refl, get_or_else, none, ◌∷◌,
}

module _ {C : Type 0} (editor : TagEditor) (lesser : editor.manages_system_tags ≡ false) where
  module _ (x : ℕ) (t : Tag C) (rows : List (Tag C)) (f : find_by_id x rows ≡ some t)
      (system : t.is_system ≡ true) where
    name_safe-stays :
        {A : Type 0} (w : List (Tag C) × Result TagError A)
        → find_by_id x w.0 ≡ some t
        → find_by_id x (name_safe rows w).0 ≡ some t
    unfolding name_safe
    name_safe-stays (rows', r) h = elim (Bool-cases (clashes rows')) [
      | inl c ↦ ground (arith, c, f)
      | inr c ↦ ground (arith, c, h)
    ]

    modified-stays :
        (id : ℕ) (p : Tag C → Bool) (g : Tag C → Tag C)
        → nat_beq id x ≡ false
        → ((y : Tag C) → p y ≡ true → has_id id y ≡ true)
        → ((y : Tag C) → (g y).id ≡ y.id)
        → find_by_id x (modify p g rows) ≡ some t
    unfolding find_by_id
    modified-stays id p g other only same =
        find-modify_other (has_id x) p g rows (λ y e. ground (arith, only y e, other))
          (λ y e. ground (arith, only y e, other, same y))
        ∙ f

    prepended-stays : (y : Tag C) → nat_beq y.id x ≡ false → find_by_id x (y ∷ rows) ≡ some t
    unfolding find_by_id find
    prepended-stays y e = ground (arith, e, f)

    create-stays :
        (normalize : String → String) (id : ℕ) (dto : CreateTag C) (read : List (Tag C))
        → nat_beq id x ≡ false
        → find_by_id x (create normalize id dto editor read rows).0 ≡ some t
    unfolding create
    create-stays normalize id dto read other =
        let y = new_tag normalize id dto editor in
        let safe = name_safe-stays {A = Tag C} (y ∷ rows, ok y) (prepended-stays y other) in
        ground (arith, f, safe)

    update-stays :
        (normalize : String → String) (id : ℕ) (dto : UpdateTag C) (read : List (Tag C))
        → find_by_id x (update normalize id dto editor (find_by_id id rows) read rows).0 ≡ some t
    unfolding update find_one update_if_version
    update-stays normalize id dto read = elim (Bool-cases (nat_beq id x)) [
      | inl e ↦
          let eq : x ≡ id = ground (arith, e) in
          let f' : find_by_id id rows ≡ some t = ap (λ z. find_by_id z rows) (sym eq) ∙ f in
          ground (arith, f, f', system, lesser)
      | inr e ↦ elim (Option-cases (find_by_id id rows)) [
        | inl k ↦ ground (arith, f, k)
        | inr (y, k) ↦
            let p = has_version {C = C} id (get_or_else dto.version y.version) in
            let g = updated_row normalize editor.id dto in
            let found = find_by_id id (modify p g rows) in
            let safe =
              name_safe-stays (update_if_version id (get_or_else dto.version y.version) g rows) (
                ground
                  (arith, f, modified-stays id p g e (λ z h. ground (arith, h)) (λ z. refl))) in
            ground (arith, f, k, safe)
      ]
    ]

    remove-stays :
        (now id : ℕ) → find_by_id x (remove_tag now id editor (find_by_id id rows) rows).0 ≡ some t
    unfolding remove_tag find_one
    remove-stays now id = elim (Bool-cases (nat_beq id x)) [
      | inl e ↦
          let eq : x ≡ id = ground (arith, e) in
          let f' : find_by_id id rows ≡ some t = ap (λ z. find_by_id z rows) (sym eq) ∙ f in
          ground (arith, f, f', system, lesser)
      | inr e ↦ ground (
        arith,
        f,
        modified-stays id (has_id id) (removed_row now editor.id) e (λ z h. h) (λ z. refl),
      )
    ]

    hard_delete-stays :
        (id : ℕ) → find_by_id x (hard_delete id editor (find_by_id id rows) rows).0 ≡ some t
    unfolding hard_delete find_by_id
    hard_delete-stays id = elim (Bool-cases (nat_beq id x)) [
      | inl e ↦
          let eq : x ≡ id = ground (arith, e) in
          let f' : find (has_id id) rows ≡ some t = ap (λ z. find (has_id z) rows) (sym eq) ∙ f in
          ground (arith, f, f', system, lesser)
      | inr e ↦
          let i = find_sound (has_id x) rows f in
          let other : has_id id t ≡ false = ground (arith, e, i) in
          ground (arith, f, find-remove_kept (has_id x) (has_id id) rows f other)
    ]

  create_makes_none :
      (normalize : String → String) (id : ℕ) (dto : CreateTag C) (read rows : List (Tag C))
      → count is_system_tag (create normalize id dto editor read rows).0 ≡ count is_system_tag rows
  unfolding create name_safe count
  create_makes_none normalize id dto read rows = ground (arith, lesser)

  update_makes_none :
      (normalize : String → String) (id : ℕ) (dto : UpdateTag C) (seen : Option (Tag C))
      (read rows : List (Tag C))
      → count is_system_tag (update normalize id dto editor seen read rows).0
        ≡ count is_system_tag rows
  unfolding update find_one update_if_version name_safe
  update_makes_none normalize id dto none read rows = ground arith
  update_makes_none normalize id dto (some t) read rows = elim (Option-cases dto.is_system) [
    | inr (b, e) ↦ ground (arith, e, lesser)
    | inl e ↦
        let p = has_version {C = C} id (get_or_else dto.version t.version) in
        let g = updated_row normalize editor.id dto in
        ground (arith, e, count-modify is_system_tag p g rows (λ y h. ground (arith, e)))
  ]

  -- An editor who may not manage system tags leaves each of them as it is, and makes none: whatever tag
  -- is created (with another id), and whatever tag is updated, removed or deleted for good, itself
  -- included, where nothing runs between the read of that tag and the write.
  pub system_tags_stay :
      (normalize : String → String) (x new id now : ℕ) (dto : CreateTag C) (change : UpdateTag C)
      (read rows : List (Tag C)) (t : Tag C)
      → find_by_id x rows ≡ some t
      → t.is_system ≡ true
      → nat_beq new x ≡ false
      → let created = (create normalize new dto editor read rows).0 in
        let updated = (update normalize id change editor (find_by_id id rows) read rows).0 in
        (find_by_id x created ≡ some t)
        × (find_by_id x updated ≡ some t)
        × (find_by_id x (remove_tag now id editor (find_by_id id rows) rows).0 ≡ some t)
        × (find_by_id x (hard_delete id editor (find_by_id id rows) rows).0 ≡ some t)
        × (count is_system_tag created ≡ count is_system_tag rows)
        × (count is_system_tag updated ≡ count is_system_tag rows)
  system_tags_stay normalize x new id now dto change read rows t f system other = (
    create-stays x t rows f system normalize new dto read other,
    update-stays x t rows f system normalize id change read,
    remove-stays x t rows f system now id,
    hard_delete-stays x t rows f system id,
    create_makes_none normalize new dto read rows,
    update_makes_none normalize id change (find_by_id id rows) read rows,
  )
