-- ===== src/Tags/Tests.antt =====
-- A system tag and another one, and an editor who manages only the latter.
use kuybi.Prelude.Method.{is_ok}
use kuybi.Tags.System.{system_tags_stay}
use kuybi.Prelude.Table.{find, count, modify}
use kuybi.Tags.{
  update, TagEditor, Tag, CreateTag, find_by_id, create, UpdateTag, find_one, takes_name,
  find_by_name, remove_tag, name_safe, hard_delete, clashes, update_if_version, is_system_tag,
}
use kuybi.Prelude.{String, List, ◌≡◌, ℕ, false, none, ◌∷◌, some, refl, [], true}

abbrev news : Tag ℕ
news = record {
  id = 1;
  name = "news";
  created_by = none;
  updated_by = none;
  deleted_by = none;
  deleted_at = none;
  sort_order = 0;
  is_system = true;
  version = 1;
  content = 0;
}

abbrev sports : Tag ℕ
sports = record news { id = 2; name = "sports"; is_system = false }

abbrev rows : List (Tag ℕ)
rows = sports ∷ news ∷ []

abbrev editor : TagEditor
editor = record { id = "u1"; manages_system_tags = false }

abbrev as_it_is : String → String
as_it_is name = name

abbrev fresh : CreateTag ℕ
fresh = record { name = "art"; sort_order = none; is_system = none; content = 0 }

abbrev change : UpdateTag ℕ
change = record {
  name = some "culture";
  sort_order = none;
  is_system = none;
  version = none;
  content = λ n. n;
}

found_news : find_by_id 1 rows ≡ some news
unfolding find_by_id find
found_news = refl

renamed : is_ok (update as_it_is 2 change editor (some sports) rows rows).1 ≡ true
unfolding update find_one takes_name find_by_name find name_safe clashes count update_if_version
    modify find_by_id
renamed = refl

system_tags_stay_example :
    let created = (create as_it_is 3 fresh editor rows rows).0 in
    let updated = (update as_it_is 1 change editor (find_by_id 1 rows) rows rows).0 in
    (find_by_id 1 created ≡ some news)
    × (find_by_id 1 updated ≡ some news)
    × (find_by_id 1 (remove_tag 9 1 editor (find_by_id 1 rows) rows).0 ≡ some news)
    × (find_by_id 1 (hard_delete 1 editor (find_by_id 1 rows) rows).0 ≡ some news)
    × (count is_system_tag created ≡ count is_system_tag rows)
    × (count is_system_tag updated ≡ count is_system_tag rows)
system_tags_stay_example =
    system_tags_stay editor refl as_it_is 1 3 1 9 fresh change rows rows news found_news refl refl
