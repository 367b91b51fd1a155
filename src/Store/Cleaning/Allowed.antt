-- ===== src/Store/Cleaning/Allowed.antt =====
-- What _cleanSourceData of config/ConfigService.js leaves of a source.
use azan_dashboard.Prelude.{
  String, true, false, ◌≡◌, refl, ap, ◌∙◌, Option, none, some, List, arith, str_eq, eq_iff,
  if◌then◌else◌, Bool-cases, inl, inr, eq_refl,
}
use mathlib.Core.Path.{subst}
use azan_dashboard.Settings.{member as contains}
use azan_dashboard.Json.{
  Value, null, bool, num, str, arr, obj, Members, end, field, get, member, in_member,
}
use azan_dashboard.Json.Fields.{get-in_member, on_option}
use azan_dashboard.Registry.{Metadata, Providers}
use azan_dashboard.Store.{roles}
use azan_dashboard.Store.Cleaning.{
  allowed_keys, keep_keys, provider_of, clean_role, clean_source_data,
}

get-keep_keys :
    (allowed : List String) (key : String) (m : Members)
    → get key (keep_keys allowed m) ≡ (if contains key allowed then get key m else none)
unfolding keep_keys get
get-keep_keys allowed key end = ground arith
get-keep_keys allowed key (field k v rest) =
    ground
      (arith, get-keep_keys allowed key rest, eq_iff k key, ap (λ (x : String). contains x allowed))

member-keep_keys :
    (allowed : List String) (key : String) (o : Option Value)
    → member key (on_option (keep_keys allowed) o)
      ≡ (if contains key allowed then member key o else none)
member-keep_keys allowed key none = ground arith
member-keep_keys allowed key (some (arr m)) = get-keep_keys allowed key m
member-keep_keys allowed key (some (obj m)) = get-keep_keys allowed key m
member-keep_keys allowed key (some null) = ground arith
member-keep_keys allowed key (some (bool b)) = ground arith
member-keep_keys allowed key (some (num n)) = ground arith
member-keep_keys allowed key (some (str s)) = ground arith

-- What becomes of one entry
abbrev pub cleaned : Option Metadata → Option Value → Option Value
cleaned none source = source
cleaned (some m) source = on_option (keep_keys (allowed_keys m)) source

clean_role-own :
    (providers : Providers) (role : String) (sources : Members)
    → get role (clean_role providers role sources)
      ≡ cleaned (provider_of providers (get role sources)) (get role sources)
unfolding clean_role
clean_role-own providers role sources = go (provider_of providers (get role sources))
  where
    go :
        (p : Option Metadata)
        → get role (elim p [
          | none ↦ sources
          | some m ↦ in_member role (keep_keys (allowed_keys m)) sources
        ])
          ≡ cleaned p (get role sources)
    go none = refl
    go (some m) =
        ground (arith, get-in_member role role (keep_keys (allowed_keys m)) sources, eq_refl role)

clean_role-other :
    (providers : Providers) (role other : String) (sources : Members)
    → str_eq role other ≡ false
    → get other (clean_role providers role sources) ≡ get other sources
unfolding clean_role
clean_role-other providers role other sources apart = go (provider_of providers (get role sources))
  where
    go :
        (p : Option Metadata)
        → get other (elim p [
          | none ↦ sources
          | some m ↦ in_member role (keep_keys (allowed_keys m)) sources
        ])
          ≡ get other sources
    go none = refl
    go (some m) = ground (arith, get-in_member role other (keep_keys (allowed_keys m)) sources)

-- `config.sources?.[role]`
abbrev pub source_of : String → Members → Option Value
source_of role config = member role (get "sources" config)

abbrev clean_both : Providers → Members → Members
clean_both providers sources =
    clean_role providers "backup" (clean_role providers "primary" sources)

get-clean_both :
    (providers : Providers) (role : String) (sources : Members)
    → contains role roles ≡ true
    → get role (clean_both providers sources)
      ≡ cleaned (provider_of providers (get role sources)) (get role sources)
unfolding contains
get-clean_both providers role sources own =
    let primary = clean_role providers "primary" sources in
    let at = λ (r : String).
      get r (clean_both providers sources)
      ≡ cleaned (provider_of providers (get r sources)) (get r sources) in
    let kept =
      clean_role-other providers "primary" "backup" sources
        (ground (arith, eq_iff "primary" "backup")) in
    elim (Bool-cases (str_eq "primary" role)) [
      | inl first ↦ subst at (ground (arith, eq_iff "primary" role)) (
          clean_role-other providers "backup" "primary" primary
            (ground (arith, eq_iff "backup" "primary"))
          ∙ clean_role-own providers "primary" sources)
      | inr second ↦ subst at (ground (arith, eq_iff "backup" role)) (
          clean_role-own providers "backup" primary
          ∙ ap (λ (o : Option Value). cleaned (provider_of providers o) o) kept)
    ]

member-clean_both :
    (providers : Providers) (role : String) (o : Option Value)
    → contains role roles ≡ true
    → member role (on_option (clean_both providers) o)
      ≡ cleaned (provider_of providers (member role o)) (member role o)
member-clean_both providers role none own = refl
member-clean_both providers role (some (arr m)) own = get-clean_both providers role m own
member-clean_both providers role (some (obj m)) own = get-clean_both providers role m own
member-clean_both providers role (some null) own = refl
member-clean_both providers role (some (bool b)) own = refl
member-clean_both providers role (some (num n)) own = refl
member-clean_both providers role (some (str s)) own = refl

-- A source whose type is a registered provider keeps its values under the keys `type` and `enabled`
-- and under those of the provider's parameters, and loses every other key; a source of any other
-- type stays as it is.
pub source_of-clean_source_data :
    (providers : Providers) (role key : String) (config : Members)
    → contains role roles ≡ true
    → member key (source_of role (clean_source_data providers config))
      ≡ elim (provider_of providers (source_of role config)) [
        | none ↦ member key (source_of role config)
        | some m ↦
            if contains key (allowed_keys m) then member key (source_of role config) else none
      ]
unfolding clean_source_data
source_of-clean_source_data providers role key config own =
    let source = source_of role config in
    ap (λ (o : Option Value). member key (member role o))
      (get-in_member "sources" "sources" (clean_both providers) config)
    ∙ ap (member key) (member-clean_both providers role (get "sources" config) own)
    ∙ go (provider_of providers source) source
  where
    go :
        (p : Option Metadata) (o : Option Value)
        → member key (cleaned p o) ≡ elim p [
          | none ↦ member key o
          | some m ↦ if contains key (allowed_keys m) then member key o else none
        ]
    go none o = refl
    go (some m) o = member-keep_keys (allowed_keys m) key o
