-- ===== src/Voices.antt =====
-- services/system/voiceService.js: the voices in memory and on disk. Times are in milliseconds; a
-- file that is no object with an array of voices is left out, and a call is modelled from its start
-- to its end.
pub mod Reuse
mod Tests
use azan_dashboard.Prelude.{
  ℕ, ◌-◌, ◌*◌, ltb, Bool, true, false, Option, none, some, List, [], ◌∷◌, if◌then◌else◌,
}
use azan_dashboard.Json.{Value}

-- The file of the voices; `none` for a timestamp that is no date
pub record Saved : Type 0 where
  pub timestamp : Option ℕ
  pub voices : List Value

pub record State : Type 0 where
  pub voices : List Value
  pub is_fetching : Bool
  pub last_fetched : Option ℕ
  pub disk : Option Saved

abbrev pub cache_duration : ℕ
cache_duration = 24 * 60 * 60 * 1000

-- _isCacheValid
abbrev pub is_cache_valid : ℕ → Option ℕ → Bool
is_cache_valid now none = false
is_cache_valid now (some time) = ltb (now - time) cache_duration

-- _loadFromCache: the time of the file is taken over even if it is too old.
abbrev pub load_saved : ℕ → State → Option Saved → State × Option (List Value)
load_saved now s none = (s, none)
load_saved now s (some file) =
    let dated = record s { last_fetched = file.timestamp } in
    if is_cache_valid now file.timestamp
    then (record dated { voices = file.voices }, some file.voices)
    else (dated, none)

unfoldable pub load_from_cache : ℕ → State → State × Option (List Value)
load_from_cache now s = load_saved now s s.disk

-- One call: its time when it starts, when the answer comes and when the file is made, the array that the python service
-- answers with, `none` for any other answer or a failure, and whether the file can be written.
pub record Call : Type 0 where
  pub now : ℕ
  pub answered : ℕ
  pub saved_at : ℕ
  pub response : Option (List Value)
  pub saves : Bool

-- _saveToCache
abbrev pub save_to_cache : Call → List Value → State → State
save_to_cache call voices s =
    if call.saves
    then record s { disk = some (record { timestamp = some call.saved_at; voices = voices }) }
    else s

abbrev pub receive : Call → State → Option (List Value) → State
receive call s none = s
receive call s (some voices) =
    save_to_cache call voices (record s { voices = voices; last_fetched = some call.answered })

-- What refreshVoices leaves, what it answers and whether it asked the service
abbrev pub Refreshed : Type 0
Refreshed = State × List Value × Bool

abbrev pub fetch : Call → State → Refreshed
fetch call s = let t = receive call s call.response in (t, t.voices, true)

abbrev pub behind_disk : Call → State × Option (List Value) → Refreshed
behind_disk call (s, some voices) = (s, voices, false)
behind_disk call (s, none) = fetch call s

-- `voices.length > 0 && _isCacheValid()`
abbrev pub has_valid : ℕ → State → Bool
has_valid now s = elim s.voices [ [] ↦ false | v ∷ vs ↦ is_cache_valid now s.last_fetched ]

unfoldable pub refresh_voices : Call → State → Refreshed
unfolding load_from_cache
refresh_voices call s =
    if s.is_fetching
    then (s, s.voices, false)
    else if has_valid call.now s
    then (s, s.voices, false)
    else behind_disk call (load_from_cache call.now s)

-- The module is loaded anew.
abbrev pub restart : State → State
restart s = record { voices = []; is_fetching = false; last_fetched = none; disk = s.disk }
