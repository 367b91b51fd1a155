-- ===== src/Registry/Secret.antt =====
-- The secrets that outputs/OutputFactory.js collects from the registered strategies.
use azan_dashboard.Prelude.{
  String, Bool, false, ◌&&◌, ◌||◌, ◌≡◌, refl, ap, sym, ◌∙◌, Option, none, some, List, [], ◌∷◌, ◌++◌,
  arith, str_eq, eq_iff, if◌then◌else◌, Bool-cases, inl, inr,
}
use mathlib.Core.Path.{subst}
use mathlib.Core.Option.{some-injective}
use azan_dashboard.Dict.{lookup, insert, lookup-insert, HasDistinctKeys, insert-HasDistinctKeys}
use azan_dashboard.Settings.{member}
use azan_dashboard.Registry.{
  Metadata, sensitive_keys, Strategies, register, register_all, get_strategy, Requirement,
  requirements_of, get_secret_requirement_keys,
}

-- `requirements.some((r) => r.strategyId === id && r.key === key)`
abbrev pub is_required : String → String → List Requirement → Bool
is_required id key [] = false
is_required id key (r ∷ rs) = (str_eq r.strategy_id id && str_eq r.key key) || is_required id key rs

is_required-append :
    (id key : String) (rs qs : List Requirement)
    → is_required id key (rs ++ qs) ≡ (is_required id key rs || is_required id key qs)
is_required-append id key [] qs = refl
is_required-append id key (r ∷ rs) qs = ground (arith, is_required-append id key rs qs)

is_required-requirements_of :
    (id other key : String) (keys : List String)
    → is_required id key (requirements_of other keys) ≡ (str_eq other id && member key keys)
unfolding member
is_required-requirements_of id other key [] = ground arith
is_required-requirements_of id other key (k ∷ keys) =
    ground (arith, is_required-requirements_of id other key keys)

-- What a strategy that may be missing asks for
abbrev pub asks_for : String → Option Metadata → Bool
asks_for key none = false
asks_for key (some m) = member key (sensitive_keys m.params)

-- A secret is required exactly if the strategy of that id is registered and has the key among its
-- sensitive parameters.
pub get_secret_requirement_keys-asked :
    (strategies : Strategies) (id key : String)
    → HasDistinctKeys strategies
    → is_required id key (get_secret_requirement_keys strategies)
      ≡ asks_for key (get_strategy id strategies)
unfolding get_secret_requirement_keys get_strategy lookup
get_secret_requirement_keys-asked [] id key h = refl
get_secret_requirement_keys-asked ((other, m) ∷ rest) id key (fresh, h) =
    is_required-append id key (requirements_of other (sensitive_keys m.params))
      (get_secret_requirement_keys rest)
    ∙ ground (
      arith,
      is_required-requirements_of id other key (sensitive_keys m.params),
      get_secret_requirement_keys-asked rest id key h,
      eq_iff other id,
      ap (λ (x : String). lookup x rest),
    )

-- The metadata that a client finds, of the classes in the order of their registration
abbrev pub latest : String → List Metadata → Option Metadata → Option Metadata
latest id [] old = old
latest id (m ∷ ms) old = latest id ms (if str_eq m.id id then some m else old)

-- The registry is a function from ids to classes, overwritten by each registration: after a list of
-- registrations an id has the latest class of that id, or else the one from before, and no id is
-- held twice.
pub register_all-latest :
    (ms : List Metadata) (strategies after : Strategies) (id : String)
    → HasDistinctKeys strategies
    → register_all ms strategies ≡ some after
    → (get_strategy id after ≡ latest id ms (get_strategy id strategies)) × HasDistinctKeys after
unfolding register_all register get_strategy
register_all-latest [] strategies after id h e =
    let same : strategies ≡ after = some-injective _ _ e in
    (ap (lookup id) (sym same), subst HasDistinctKeys same h)
register_all-latest (m ∷ ms) strategies after id h e = elim (Bool-cases (str_eq m.id "")) [
  | inl unnamed ↦ absurd (ground arith)
  | inr named ↦
      let next = insert m.id m strategies in
      let rest : register_all ms next ≡ some after = ground arith in
      let (found, distinct) =
        register_all-latest ms next after id (insert-HasDistinctKeys m.id m strategies h) rest in
      (found ∙ ap (latest id ms) (lookup-insert m.id id m strategies), distinct)
]
