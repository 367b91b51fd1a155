-- ===== src/Sse.antt =====
-- services/system/sseService.js: the clients of the event stream and the history of log entries. A
-- client is its number and what was written to it; the log file is left out.
pub mod History
mod Tests
use azan_dashboard.Prelude.{
  ℕ, ◌==◌, ltb, String, Bool, true, false, not, List, [], ◌∷◌, ◌++◌, map, keep, length, drop,
  if◌then◌else◌,
}

pub record Entry : Type 0 where
  pub timestamp : ℕ
  pub level : String
  pub message : String

-- `retry: 10000`, a LOG message, another broadcast, a heartbeat
pub data Written : Type 0 where
  retry heartbeat : Written
  entry : Entry → Written
  message : String → Written

pub record Client : Type 0 where
  pub id : ℕ
  pub received : List Written

pub record Stream : Type 0 where
  pub clients : List Client
  pub history : List Entry

-- MAX_HISTORY
abbrev pub max_history : ℕ
max_history = 1000

-- `client.write(…)`
abbrev pub write : Written → Client → Client
write w c = record c { received = c.received ++ w ∷ [] }

unfoldable pub add_client : ℕ → Stream → Stream
add_client id s = record s {
  clients = s.clients ++ (record { id = id; received = retry ∷ map entry s.history }) ∷ [];
}

-- The handler of `close`
unfoldable pub close : ℕ → Stream → Stream
close id s = record s { clients = keep (λ c. not (c.id == id)) s.clients }

unfoldable pub broadcast : Written → Stream → Stream
broadcast w s = record s { clients = map (write w) s.clients }

-- `push`, then `shift` where the history is too long
unfoldable pub push_entry : ℕ → Entry → List Entry → List Entry
push_entry max e history =
    if ltb max (length (history ++ e ∷ [])) then drop 1 (history ++ e ∷ []) else history ++ e ∷ []

unfoldable pub log : Entry → Stream → Stream
unfolding broadcast push_entry
log e s = broadcast (entry e) (record s { history = push_entry max_history e s.history })

-- A sequence of log calls
unfoldable pub log_all : List Entry → Stream → Stream
unfolding log
log_all [] s = s
log_all (e ∷ es) s = log_all es (log e s)
