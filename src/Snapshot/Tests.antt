-- ===== src/Snapshot/Tests.antt =====
-- Snapshots of one group and of a history of 101 large messages.
use awiki_open_server.Shared.{
  String, ℕ, zero, suc, ◌<◌, ◌≡◌, refl, ap, List, [], ◌∷◌, arith, ok, err, none,
}
use awiki_open_server.Shared.Lists.{length, All}
use awiki_open_server.Shared.Json.{Value, null, str, num, obj, field, end}
use awiki_open_server.Shared.Python.{item}
use awiki_open_server.Snapshot.{
  Jcs, Page, Sections, Selection, groups, recent_plain_messages, too_large, paginate_sections,
  check_oldest, select_snapshot_package, selection_of, fill_page, take_messages,
}
use awiki_open_server.Snapshot.Pages.{IsPaged, paginate_sections_sound}
use awiki_open_server.Snapshot.Selected.{IsSelected, select_snapshot_package_sound}
use awiki_open_server.Snapshot.LargeHistory.{IsLarge, HasSize, no_sections, large_history_refused}

abbrev short : Jcs
short = record { size = λ value. 10; digest = λ value. "sha-256:" }

abbrev long : Jcs
long = record { size = λ value. 600_000; digest = λ value. "sha-256:" }

abbrev sections : Sections
sections groups = str "g" ∷ str "h" ∷ []
sections recent_plain_messages = num 1 ∷ []
sections _ = []

abbrev pages : List Page
pages =
    record { section = groups; items = str "g" ∷ str "h" ∷ []; returned_encoded_bytes = 20 }
    ∷ record { section = recent_plain_messages; items = num 1 ∷ []; returned_encoded_bytes = 10 }
    ∷ []

paged : paginate_sections short sections ≡ ok pages
unfolding paginate_sections fill_page
paged = refl

paginate_sections_sound_example : IsPaged short sections pages
paginate_sections_sound_example = paginate_sections_sound short sections pages paged

abbrev message : String → Value
message seq = obj (field "event" (obj (field "event_seq" (str seq) end)) end)

abbrev messages : List Value
messages = message "3" ∷ message "2" ∷ []

abbrev selected : Selection
selected = selection_of sections messages 2 20 1 messages 20 none 1

selects : select_snapshot_package short sections messages ≡ ok selected
unfolding select_snapshot_package take_messages fill_page check_oldest item
selects = refl

select_snapshot_package_sound_example : IsSelected short sections messages selected
select_snapshot_package_sound_example =
    select_snapshot_package_sound short sections messages selected selects

abbrev repeat : ℕ → List Value
repeat zero = []
repeat (suc n) = null ∷ repeat n

length-repeat : (n : ℕ) → length (repeat n) ≡ n
length-repeat zero = refl
length-repeat (suc n) = ap suc (length-repeat n)

All-repeat : (n : ℕ) → All (HasSize long 600_000) (repeat n)
All-repeat zero = tt
All-repeat (suc n) = (refl, All-repeat n)

is_large : IsLarge long 600_000
is_large = record { one_fits = omega arith; two_do_not = omega arith; within_budget = omega arith }

too_many : 100 < length (repeat 101)
too_many = omega (arith, length-repeat 101)

large_history_refused_example :
    select_snapshot_package long no_sections (repeat 101) ≡ err too_large
large_history_refused_example =
    large_history_refused long 600_000 is_large (repeat 101) (All-repeat 101) too_many
