-- ===== src/Sse/Tests.antt =====
-- A client that connects between two log entries.
use azan_dashboard.Prelude.{◌+◌, ◌-◌, ◌≤◌, ◌≡◌, refl, arith, [], ◌∷◌, ◌++◌, map, length, drop}
use azan_dashboard.Sse.{Entry, retry, entry, Stream, max_history, add_client, log_all, push_entry}
use azan_dashboard.Sse.History.{write_all, log_all-history, log_all-add_client}

abbrev first : Entry
first = record { timestamp = 1; level = "info"; message = "started" }

abbrev second : Entry
second = record { timestamp = 2; level = "warn"; message = "skipped" }

abbrev stream : Stream
stream = record { clients = (record { id = 7; received = retry ∷ [] }) ∷ []; history = first ∷ [] }

push_entry_sample : push_entry 1 second (first ∷ []) ≡ second ∷ []
unfolding push_entry
push_entry_sample = refl

log_all-history_sample :
    ((log_all (second ∷ []) stream).history
      ≡ drop
          (length stream.history + length {A = Entry} (second ∷ []) - max_history)
          (stream.history ++ second ∷ []))
    × (length (log_all (second ∷ []) stream).history ≤ max_history)
log_all-history_sample = log_all-history (second ∷ []) stream (omega arith)

log_all-add_client_sample :
    (log_all (second ∷ []) (add_client 8 stream)).clients
    ≡ map (write_all (second ∷ [])) stream.clients
      ++ (record { id = 8; received = retry ∷ map entry (first ∷ second ∷ []) }) ∷ []
log_all-add_client_sample = log_all-add_client 8 (second ∷ []) stream
