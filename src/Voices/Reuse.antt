-- ===== src/Voices/Reuse.antt =====
-- How often services/system/voiceService.js asks for the voices.
use azan_dashboard.Prelude.{
  ◌-◌, ◌<◌, ◌≤◌, ltb, Bool, true, false, ◌≡◌, refl, ap, sym, ◌∙◌, Option, none, some, List, ◌∷◌,
  arith, if◌then◌else◌, if_both,
}
use mathlib.Core.Path.{subst}
use azan_dashboard.Json.{Value}
use azan_dashboard.Voices.{
  Saved, State, cache_duration, is_cache_valid, load_saved, load_from_cache, Call, receive,
  Refreshed, fetch, behind_disk, has_valid, refresh_voices, restart,
}

-- What a fetch that was answered leaves
abbrev pub fetched_state : Call → List Value → State
fetched_state call voices = record {
  voices = voices;
  is_fetching = false;
  last_fetched = some call.answered;
  disk = some (record { timestamp = some call.saved_at; voices = voices });
}

-- What a call leaves if it asked the service
abbrev IsAsked : Call → List Value → Refreshed → Type 0
IsAsked call voices (s, shown, false) = Unit
IsAsked call voices (s, shown, true) = s ≡ fetched_state call voices

module _ (call : Call) (voices : List Value) (response : call.response ≡ some voices)
    (saves : call.saves ≡ true) where
  fetch-IsAsked : (t : State) → t.is_fetching ≡ false → IsAsked call voices (fetch call t)
  fetch-IsAsked t free =
      ap (receive call t) response
      ∙ ap
          (λ (b : Bool).
            (if b
              then record t {
                voices = voices;
                last_fetched = some call.answered;
                disk = some (record { timestamp = some call.saved_at; voices = voices });
              }
              else record t { voices = voices; last_fetched = some call.answered }))
          saves
      ∙ ap (λ (b : Bool). record (fetched_state call voices) { is_fetching = b }) free

  load_saved-IsAsked :
      (s : State) (d : Option Saved)
      → s.is_fetching ≡ false
      → IsAsked call voices (behind_disk call (load_saved call.now s d))
  load_saved-IsAsked s none free = fetch-IsAsked s free
  load_saved-IsAsked s (some file) free =
      if_both (λ (r : State × Option (List Value)). IsAsked call voices (behind_disk call r))
        (is_cache_valid call.now file.timestamp) _ _ tt
        (fetch-IsAsked (record s { last_fetched = file.timestamp }) free)

  refresh_voices-IsAsked : (s : State) → IsAsked call voices (refresh_voices call s)
  unfolding refresh_voices load_from_cache
  refresh_voices-IsAsked s = go s.is_fetching refl
    where
      go :
          (busy : Bool)
          → s.is_fetching ≡ busy
          → IsAsked call voices (
              if busy
              then (s, s.voices, false)
              else if has_valid call.now s
              then (s, s.voices, false)
              else behind_disk call (load_saved call.now s s.disk))
      go true e = tt
      go false e =
          if_both (IsAsked call voices) (has_valid call.now s) _ _ tt
            (load_saved-IsAsked s s.disk e)

-- Once the service was asked and answered with some voices that were saved, no call in the next
-- 24 hours asks it again, before or after a restart: each answers with those voices, if the clock does
-- not go back between the answer and the making of the file. Before a restart the state stays as it
-- is; after it, only the time of the fetch is now the one in the file.
pub refresh_voices-again :
    (first later : Call) (v : Value) (vs shown : List Value) (s t : State)
    → first.response ≡ some (v ∷ vs)
    → first.saves ≡ true
    → refresh_voices first s ≡ (t, shown, true)
    → first.answered ≤ first.saved_at
    → later.now - first.answered < cache_duration
    → (refresh_voices later t ≡ (t, v ∷ vs, false))
      × (refresh_voices later (restart t)
          ≡ (record t { last_fetched = some first.saved_at }, v ∷ vs, false))
unfolding refresh_voices load_from_cache
refresh_voices-again first later v vs shown s t response saves e ordered young =
    let asked = refresh_voices-IsAsked first (v ∷ vs) response saves s in
    let held : t ≡ fetched_state first (v ∷ vs) = subst (IsAsked first (v ∷ vs)) e asked in
    let valid : ltb (later.now - first.answered) cache_duration ≡ true = ground arith in
    let dated : ltb (later.now - first.saved_at) cache_duration ≡ true = ground arith in
    subst
      (λ (u : State).
        (refresh_voices later u ≡ (u, v ∷ vs, false))
        × (refresh_voices later (restart u)
            ≡ (record u { last_fetched = some first.saved_at }, v ∷ vs, false)))
      (sym held) (rw valid refl, rw dated refl)
