-- ===== src/Examples/Rows.antt =====
-- The placement of concrete rows, each its own key.
use uxon.Prelude.{◌≡◌, refl, String, Option, none, some, List, [], ◌∷◌, ◌=s◌}
use uxon.Launch.Collect.Batch.{same_text}
use uxon.Dashboard.{by_key, known, insert, index, arrivals, new_keys_of, place}
use uxon.Dashboard.Placed.{IsStable, place-IsStable}
use uxon.Dashboard.Cold.{place-empty}
use uxon.Dashboard.Buckets.{bucket, select_host_buckets}
use uxon.Dashboard.Buckets.Grouped.{select_host_buckets-rows_of}
use uxon.Dashboard.Total.{distinct}

abbrev own_key : String → String
own_key row = row

abbrev last_order : List String
last_order = "host/b" ∷ "host/gone" ∷ "host/a" ∷ []

abbrev now : List String
now = "host/a" ∷ "host/new" ∷ "host/b" ∷ "host/newer" ∷ []

-- b and a keep their order, each new row follows its anchor
place-now :
    place own_key ◌=s◌ last_order now ≡ some ("host/b" ∷ "host/newer" ∷ "host/a" ∷ "host/new" ∷ [])
unfolding place by_key known insert index arrivals new_keys_of
place-now = refl

place-IsStable_example : IsStable own_key ◌=s◌ last_order now (place own_key ◌=s◌ last_order now)
unfolding distinct
place-IsStable_example = place-IsStable own_key ◌=s◌ same_text last_order now refl refl

place-empty_example : place own_key ◌=s◌ [] now ≡ some now
place-empty_example = place-empty own_key ◌=s◌ now

abbrev host_of : Option String × String → Option String
host_of row = row.0

abbrev rows : List (Option String × String)
rows = (some "b", "one") ∷ (none, "two") ∷ (some "gone", "three") ∷ (some "b", "four") ∷ []

select_host_buckets-rows_of_example :
    select_host_buckets host_of rows ("a" ∷ "b" ∷ [])
    ≡ bucket none "local" ((none, "two") ∷ [])
      ∷ bucket (some "a") "a" []
      ∷ bucket (some "b") "b" ((some "b", "one") ∷ (some "b", "four") ∷ [])
      ∷ []
select_host_buckets-rows_of_example = select_host_buckets-rows_of host_of rows ("a" ∷ "b" ∷ [])
