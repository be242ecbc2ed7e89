-- ===== src/Contents/Tests.antt =====
-- A draft and a scheduled entry, and an editor who may update but not publish.
use kuybi.Contents.Publishing.{publication_moved, stays_private}
use kuybi.Prelude.Table.{find, select}
use kuybi.Prelude.Method.{Result, ok, is_ok}
use kuybi.Contents.{
  publish_it, ContentInput, Action, update, find_by_id, Entry, assert_can_set_status, ContentError,
  save_unique, publish_due, draft, scheduled, published, conflicts_of, is_publishing,
  pending_review, schedule, update_it,
}
use kuybi.Prelude.{
  String, List, Bool, ℕ, ◌==◌, [], string_eq, ◌∷◌, true, none, ◌≡◌, some, false, refl, arith,
}

abbrev scheduled_entry : Entry ℕ
scheduled_entry = record {
  id = "e1";
  post_type_id = "t1";
  status = scheduled;
  field_data = ("sku", "7") ∷ [];
  published_at = none;
  scheduled_at = some 500;
  deleted_at = none;
  updated_by = none;
  version = 3;
  content = 0;
}

abbrev draft_entry : Entry ℕ
draft_entry = record scheduled_entry { id = "e2"; status = draft; scheduled_at = none }

abbrev rows : List (Entry ℕ)
rows = scheduled_entry ∷ draft_entry ∷ []

abbrev may_update : Action → Entry ℕ → Bool
may_update update_it e = true
may_update publish_it e = false

abbrev is_blank : String → Bool
is_blank v = v == "null"

abbrev no_fields : Result ContentError (List (String × String))
no_fields = ok []

abbrev earlier : ContentInput ℕ
earlier = record {
  field_data = none;
  status = none;
  scheduled_at = some 10;
  version = none;
  content = λ n. n;
}

abbrev submit : ContentInput ℕ
submit = record earlier { status = some pending_review; scheduled_at = some 10 }

found_scheduled : find_by_id "e1" rows ≡ some scheduled_entry
unfolding find_by_id find
found_scheduled = refl

found_draft : find_by_id "e2" rows ≡ some draft_entry
unfolding find_by_id find
found_draft = refl

submitted : is_ok (update may_update is_blank [] 20 "u1" submit no_fields draft_entry rows).1 ≡ true
unfolding update assert_can_set_status save_unique conflicts_of select find_by_id find
submitted = refl

stays_private_example :
    let updated = (update may_update is_blank [] 20 "u1" submit no_fields draft_entry rows).0 in
    ((after : Entry ℕ) × (find_by_id "e2" (publish_due 60 updated).0 ≡ some after)
      × (is_publishing after.status ≡ false))
    × ((schedule may_update 20 30 draft_entry rows).0 ≡ rows)
stays_private_example =
    stays_private may_update is_blank [] 20 30 60 "u1" submit no_fields draft_entry rows found_draft
      refl refl

publication_moved_example :
    let (updated, r) =
      update may_update is_blank [] 20 "u1" earlier no_fields scheduled_entry rows in
    (r ≡ ok tt)
    × ((after : Entry ℕ) × (find_by_id "e1" (publish_due 60 updated).0 ≡ some after)
        × (after.status ≡ published)
        × (after.published_at ≡ some 10))
publication_moved_example =
    publication_moved may_update is_blank [] 20 10 60 "u1" earlier no_fields scheduled_entry rows
      found_scheduled refl refl refl refl refl refl refl (omega arith)
