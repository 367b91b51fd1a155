-- ===== src/Store/Service/Runs.antt =====
-- Runs of the settings store of config/ConfigService.js: its operations one after the other, each
-- with whatever the file system does to it.
use azan_dashboard.Prelude.{
  String, true, false, ◌≡◌, refl, Option, none, some, List, [], ◌∷◌, if_both,
}
use azan_dashboard.Result.{Error, Result, save_in_progress}
use azan_dashboard.Dict.{Dict}
use azan_dashboard.Json.{Value, Members}
use azan_dashboard.Store.{Setup}
use azan_dashboard.Store.Service.{
  State, Faults, finally, silent, init, reload, update, is_set, delete_env_value,
}
use azan_dashboard.Store.Service.Refinement.{
  View, view, Steps, done, Refined, returned, threw, IsAccepted, initialise-Refined, reload-Refined,
  update_body-Refined,
}

pub data Operation : Type 0 where
  initialising reloading : Faults → Operation
  updating : Faults → Members → Operation
  -- A deletion from .env that ends, with what it has read of the file
  deleting : String → Dict String → Operation

-- What an operation leaves, its result aside
unfoldable pub perform : Setup → Operation → State → State
unfolding init reload update delete_env_value
perform st (initialising fs) s = (init st fs s).0
perform st (reloading fs) s = (reload st fs s).0
perform st (updating fs partial) s = (update st fs partial s).0
perform st (deleting key read) s = delete_env_value key read s

unfoldable pub run : Setup → List Operation → State → State
unfolding perform
run st [] s = s
run st (op ∷ ops) s = run st ops (perform st op s)

-- Promised steps, and no update in progress
abbrev pub IsKept : Setup → View → State → Type 0
IsKept st x s = Steps st x (view s) × (s.is_saving ≡ false)

module _ (st : Setup) (x : View) where
  Refined-IsKept :
      {A : Type 0} {Q : A → State → Type 0} {r : State × Result A}
      → Refined st false x Q r
      → IsKept st x r.0
  Refined-IsKept (returned steps flag q) = (steps, flag)
  Refined-IsKept (threw steps flag) = (steps, flag)

  silent-IsKept :
      {Q : Value → State → Type 0} {r : State × Result Value}
      → Refined st false x Q r
      → IsKept st x (silent r).0
  silent-IsKept (returned steps flag q) = (steps, flag)
  silent-IsKept (threw steps flag) = (steps, flag)

  finally-IsKept :
      {Q : Value → State → Type 0} {r : State × Result Value}
      → Refined st true x Q r
      → IsKept st x (silent (finally r)).0
  finally-IsKept (returned steps flag q) = (steps, refl)
  finally-IsKept (threw steps flag) = (steps, refl)

  perform-IsKept : (op : Operation) (s : State) → IsKept st x s → IsKept st x (perform st op s)
  unfolding perform init update delete_env_value
  perform-IsKept (initialising fs) s h =
      if_both (λ (r : State × Option Error). IsKept st x r.0) s.is_initialised _ _ h
        (silent-IsKept (initialise-Refined st false x fs s h.0 h.1))
  perform-IsKept (reloading fs) s (steps, flag) =
      Refined-IsKept (reload-Refined st false x fs s steps flag)
  perform-IsKept (updating fs partial) s (steps, flag) =
      rw (flag, perform)
        (finally-IsKept
          (update_body-Refined st true x fs partial (record s { is_saving = true }) steps refl))
  perform-IsKept (deleting key read) s h = if_both (IsKept st x) (is_set key read) _ _ h h

  IsKept-run : (ops : List Operation) (s : State) → IsKept st x s → IsKept st x (run st ops s)
  unfolding run
  IsKept-run [] s h = h
  IsKept-run (op ∷ ops) s h = IsKept-run ops (perform st op s) (perform-IsKept op s h)

-- Every run of init, reload, update and deletions from .env, whatever fails in it, is for a client a
-- series of promised steps: the configuration in memory is only ever replaced by one that the
-- schema and the sources' schemas accepted, and the local file only by a complete one. No run
-- leaves the store refusing updates.
pub run-IsKept :
    (st : Setup) (ops : List Operation) (s : State)
    → s.is_saving ≡ false
    → IsKept st (view s) (run st ops s)
run-IsKept st ops s flag = IsKept-run st (view s) ops s (done, flag)

-- The ways in which an update ends, from a state
pub data Ended (st : Setup) (s : State) : State × Option Error → Type 0 where
  -- while another update is in progress
  refused : s.is_saving ≡ true → Ended st s (s, some save_in_progress)
  in_effect :
      {t : State} (v : Value)
      → s.is_saving ≡ false
      → IsAccepted st v
      → t.config ≡ some v
      → t.is_saving ≡ false
      → Ended st s (t, none)
  threw_on_the_way :
      {t : State} {e : Error}
      → s.is_saving ≡ false
      → Steps st (view s) (view t)
      → t.is_saving ≡ false
      → Ended st s (t, some e)
