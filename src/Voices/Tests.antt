-- ===== src/Voices/Tests.antt =====
-- An old file on disk, a service that answers, and a call an hour later.
use azan_dashboard.Prelude.{false, true, arith, ◌≡◌, refl, none, some, [], ◌∷◌}
use azan_dashboard.Json.{str}
use azan_dashboard.Voices.{State, Call, load_from_cache, refresh_voices, restart}
use azan_dashboard.Voices.Reuse.{fetched_state, refresh_voices-again}

abbrev state : State
state = record {
  voices = [];
  is_fetching = false;
  last_fetched = none;
  disk = some (record { timestamp = some 5; voices = str "old" ∷ [] });
}

abbrev first_call : Call
first_call = record {
  now = 90000000;
  answered = 90000100;
  saved_at = 90000103;
  response = some (str "new" ∷ []);
  saves = true;
}

abbrev later_call : Call
later_call = record {
  now = 93600000;
  answered = 93600000;
  saved_at = 93600000;
  response = none;
  saves = false;
}

abbrev ended : State
ended = fetched_state first_call (str "new" ∷ [])

refresh_voices-again_example :
    (refresh_voices later_call ended ≡ (ended, str "new" ∷ [], false))
    × (refresh_voices later_call (restart ended)
        ≡ (record ended { last_fetched = some 90000103 }, str "new" ∷ [], false))
unfolding refresh_voices load_from_cache
refresh_voices-again_example =
    refresh_voices-again first_call later_call (str "new") [] (str "new" ∷ []) state ended refl refl
      refl (omega arith) (omega arith)
