-- ===== src/Sse/History.antt =====
-- log and addClient of services/system/sseService.js: the history, and what clients receive.
use azan_dashboard.Prelude.{
  ℕ, suc, ◌+◌, ◌-◌, ◌≤◌, ◌≡◌, refl, sym, ap, ◌∙◌, true, false, List, [], ◌∷◌, ◌++◌, map, length,
  drop, arith, ltb, Bool-cases, inl, inr, length-append, length-drop, append_assoc, append-nil,
  map-append,
}
use azan_dashboard.Sse.{
  Entry, retry, entry, Client, Stream, max_history, write, add_client, broadcast, push_entry, log,
  log_all,
}

-- The entries pushed one after the other
abbrev pub push_all : ℕ → List Entry → List Entry → List Entry
push_all max [] history = history
push_all max (e ∷ es) history = push_all max es (push_entry max e history)

drop-shifted :
    (n : ℕ) (history : List Entry) (e : Entry) (es : List Entry)
    → drop n (drop 1 (history ++ e ∷ []) ++ es) ≡ drop (suc n) (history ++ e ∷ es)
drop-shifted n [] e es = refl
drop-shifted n (x ∷ history) e es = ap (drop n) (append_assoc history (e ∷ []) es)

length-push_entry :
    (max : ℕ) (e : Entry) (history : List Entry)
    → length history ≤ max
    → length (push_entry max e history) ≤ max
unfolding push_entry
length-push_entry max e history h =
    ground (arith, length-append history (e ∷ []), length-drop 1 (history ++ e ∷ []))

push_entry-full :
    (max : ℕ) (e : Entry) (history : List Entry)
    → ltb max (length (history ++ e ∷ [])) ≡ true
    → push_entry max e history ≡ drop 1 (history ++ e ∷ [])
unfolding push_entry
push_entry-full max e history full = ground arith

push_entry-room :
    (max : ℕ) (e : Entry) (history : List Entry)
    → ltb max (length (history ++ e ∷ [])) ≡ false
    → push_entry max e history ≡ history ++ e ∷ []
unfolding push_entry
push_entry-room max e history room = ground arith

push_all-drop :
    (max : ℕ) (es history : List Entry)
    → length history ≤ max
    → push_all max es history ≡ drop (length history + length es - max) (history ++ es)
push_all-drop max [] history h =
    let none_left : length history + 0 - max ≡ 0 = omega arith in rw (none_left, append-nil history)
push_all-drop max (e ∷ es) history h =
    let next = push_entry max e history in
    let rest = push_all-drop max es next (length-push_entry max e history h) in
    elim (Bool-cases (ltb max (length (history ++ e ∷ [])))) [
      | inl full ↦
          let same = push_entry-full max e history full in
          let short : length next + length es - max ≡ length es = ground (
            arith,
            same,
            ap length same,
            length-drop 1 (history ++ e ∷ []),
            length-append history (e ∷ []),
          ) in
          let long : length history + suc (length es) - max ≡ suc (length es) =
            ground (arith, length-append history (e ∷ [])) in
          rw (rest, short, same, long) (drop-shifted (length es) history e es)
      | inr room ↦
          let same = push_entry-room max e history room in
          let count : length next + length es - max ≡ length history + suc (length es) - max =
            ground (arith, same, ap length same, length-append history (e ∷ [])) in
          rw (rest, count, same)
            (ap (drop (length history + suc (length es) - max)) (append_assoc history (e ∷ []) es))
    ]

length-push_all :
    (max : ℕ) (es history : List Entry)
    → length history ≤ max
    → length (push_all max es history) ≤ max
length-push_all max [] history h = h
length-push_all max (e ∷ es) history h =
    length-push_all max es (push_entry max e history) (length-push_entry max e history h)

history-log_all :
    (es : List Entry) (s : Stream) → (log_all es s).history ≡ push_all max_history es s.history
unfolding log_all log broadcast
history-log_all [] s = refl
history-log_all (e ∷ es) s = history-log_all es (log e s)

-- Logging keeps the latest 1000 entries, oldest first: from a history of at most 1000, the entries
-- that are left are the old ones followed by the new ones, less the excess at the front.
pub log_all-history :
    (es : List Entry) (s : Stream)
    → length s.history ≤ max_history
    → ((log_all es s).history ≡ drop (length s.history + length es - max_history) (s.history ++ es))
      × (length (log_all es s).history ≤ max_history)
log_all-history es s h =
    rw (history-log_all es s)
      (push_all-drop max_history es s.history h, length-push_all max_history es s.history h)

-- The entries written to a client one after the other
abbrev pub write_all : List Entry → Client → Client
write_all es c = record c { received = c.received ++ map entry es }

map-write_all_nil : (cs : List Client) → map (write_all []) cs ≡ cs
map-write_all_nil [] = refl
map-write_all_nil (c ∷ cs) = cc (append-nil c.received, map-write_all_nil cs)

map-write_all :
    (e : Entry) (es : List Entry) (cs : List Client)
    → map (write_all es) (map (write (entry e)) cs) ≡ map (write_all (e ∷ es)) cs
map-write_all e es [] = refl
map-write_all e es (c ∷ cs) =
    cc (append_assoc c.received (entry e ∷ []) (map entry es), map-write_all e es cs)

clients-log_all :
    (es : List Entry) (s : Stream) → (log_all es s).clients ≡ map (write_all es) s.clients
unfolding log_all log broadcast
clients-log_all [] s = sym (map-write_all_nil s.clients)
clients-log_all (e ∷ es) s = clients-log_all es (log e s) ∙ map-write_all e es s.clients

-- A client that connects and stays has received, in order, the retry line, the history as it was
-- when the client connected, and every entry logged since; and every client that was connected
-- before receives those new entries after what it had.
pub log_all-add_client :
    (id : ℕ) (es : List Entry) (s : Stream)
    → (log_all es (add_client id s)).clients
      ≡ map (write_all es) s.clients
        ++ (record { id = id; received = retry ∷ map entry (s.history ++ es) }) ∷ []
unfolding add_client
log_all-add_client id es s =
    let fresh : Client = record { id = id; received = retry ∷ map entry s.history } in
    clients-log_all es (add_client id s)
    ∙ map-append (write_all es) s.clients (fresh ∷ [])
    ∙ cc (map-append entry s.history es)
