-- ===== src/Json/Tests.antt =====
-- A local configuration merged over the defaults.
use azan_dashboard.Prelude.{◌≡◌, refl, some, [], ◌∷◌, pos}
use azan_dashboard.Json.{num, str, obj, Members, end, field, get, put, merge_members, merge_deep}
use azan_dashboard.Json.Merge.{at_path, merge_deep-at_path}
use azan_dashboard.Json.Guard.{IsClean, merge_deep-IsClean}

abbrev defaults : Members
defaults =
    field "data"
      (obj (field "cache" (str "data/cache.json") (field "staleCheckDays" (num (pos 7)) end)))
      (field "version" (num (pos 5)) end)

abbrev changes : Members
changes =
    field "__proto__" (obj end) (field "data" (obj (field "staleCheckDays" (num (pos 3)) end)) end)

merge_deep_sample :
    merge_deep (obj defaults) (obj changes)
    ≡ obj (
        field "data"
          (obj (field "cache" (str "data/cache.json") (field "staleCheckDays" (num (pos 3)) end)))
          (field "version" (num (pos 5)) end))
unfolding merge_deep merge_members get put
merge_deep_sample = refl

merge_deep-at_path_example :
    at_path ("data" ∷ "staleCheckDays" ∷ []) (some (merge_deep (obj defaults) (obj changes)))
    ≡ some (num (pos 3))
unfolding get
merge_deep-at_path_example =
    merge_deep-at_path (num (pos 3)) "data" ("staleCheckDays" ∷ []) defaults changes tt
      ((refl, (refl, tt)), ((tt, tt), (((refl, tt), (tt, tt)), tt))) (refl, (refl, tt)) refl

merge_deep-IsClean_example : IsClean (merge_deep (obj defaults) (obj changes))
merge_deep-IsClean_example =
    merge_deep-IsClean defaults changes (refl, (refl, tt, (refl, tt, tt)), (refl, tt, tt))
