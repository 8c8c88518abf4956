-- ===== src/Api/Hub.antt =====
-- `wsHub` of internal/api/ws.go: the loop that hands messages to the web sockets' clients. A message is
-- the number of its event. Go panics on a send to a closed channel and on closing it again: the
-- model notes a panic in the state.
mod Loops
mod Safe
mod Tests
use packet_lab.Prelude.{
  ℕ, zero, suc, ◌+◌, Bool, true, false, not, ◌&&◌, ◌||◌, List, [], ◌∷◌, ◌++◌, ltb, ◌==◌,
  if◌then◌else◌, length, get_or, set,
}

-- the channel `send` of a `wsClient`
pub record Client : Type 0 where
  pub queue : List ℕ
  pub is_closed : Bool

-- `wsHub`: the clients are indices into the heap, in any order; the event channels have capacities 256,
-- 64 and 256
pub record Hub : Type 0 where
  pub clients : List ℕ
  pub heap : List Client
  pub broadcast_ch : List ℕ
  pub intercept_ch : List ℕ
  pub update_ch : List ℕ
  pub stopped : Bool
  pub returned : Bool
  pub panicked : Bool

-- `newWSHub`
unfoldable pub new_hub : Hub
new_hub = record {
  clients = [];
  heap = [];
  broadcast_ch = [];
  intercept_ch = [];
  update_ch = [];
  stopped = false;
  returned = false;
  panicked = false;
}

abbrev pub send_capacity : ℕ
send_capacity = 64

abbrev pub no_client : Client
no_client = record { queue = []; is_closed = false }

abbrev pub client : Hub → ℕ → Client
client h c = get_or h.heap c no_client

abbrev pub write_client : ℕ → Client → Hub → Hub
write_client c x h = record h { heap = set h.heap c x }

-- close(c.send)
unfoldable pub close_send : ℕ → Hub → Hub
close_send c h =
    let x = client h c in
    if x.is_closed
    then record h { panicked = true }
    else write_client c (record x { is_closed = true }) h

-- `delete(h.clients, c)`
unfoldable pub without : ℕ → List ℕ → List ℕ
without c [] = []
without c (d ∷ ds) = let rest = without c ds in if d == c then rest else d ∷ rest

unfoldable pub is_in : ℕ → List ℕ → Bool
is_in c [] = false
is_in c (d ∷ ds) = (d == c) || is_in c ds

abbrev pub drop_client : ℕ → Hub → Hub
drop_client c h = record h { clients = without c h.clients }

-- the select that sends a message to a client, with what its default does
unfoldable pub send_or : (ℕ → Hub → Hub) → ℕ → ℕ → Hub → Hub
send_or full msg c h =
    let x = client h c in
    if x.is_closed
    then record h { panicked = true }
    else if ltb (length x.queue) send_capacity
    then write_client c (record x { queue = x.queue ++ (msg ∷ []) }) h
    else full c h

abbrev pub close_and_drop : ℕ → Hub → Hub
close_and_drop c h = drop_client c (close_send c h)

abbrev pub only_warn : ℕ → Hub → Hub
only_warn c h = h

-- the loops over the clients
unfoldable pub send_all : (ℕ → Hub → Hub) → ℕ → List ℕ → Hub → Hub
send_all full msg [] h = h
send_all full msg (c ∷ cs) h = send_all full msg cs (send_or full msg c h)

unfoldable pub close_all : List ℕ → Hub → Hub
close_all [] h = h
close_all (c ∷ cs) h = close_all cs (close_send c h)

abbrev enqueue : ℕ → ℕ → List ℕ → List ℕ
enqueue capacity msg ch = if ltb (length ch) capacity then ch ++ (msg ∷ []) else ch

-- what the goroutines around the hub, and a round of `run`, can do
pub data Step : Type 0 where
  broadcasts : ℕ → Step
  broadcasts_intercept : ℕ → Step
  broadcasts_update : ℕ → Step
  stops : Step
  sees_stop : Step
  registers : Step
  unregisters : ℕ → Step
  sends_request : Step
  sends_intercept : Step
  sends_update : Step
  client_reads : ℕ → Step

abbrev behind : List ℕ → List ℕ
behind [] = []
behind (m ∷ ms) = ms

-- `case client := <-h.register` for a new client
unfoldable pub register : Hub → Hub
register h = record h { heap = h.heap ++ (no_client ∷ []); clients = length h.heap ∷ h.clients }

-- `case client := <-h.unregister`
unfoldable pub unregister : ℕ → Hub → Hub
unregister c h = if is_in c h.clients then close_send c (drop_client c h) else h

abbrev first_event : (ℕ → Hub → Hub) → List ℕ → Hub → Hub
first_event full [] h = h
first_event full (m ∷ ms) h = send_all full m h.clients h

-- the cases of the select of `run`
unfoldable pub run_round : Step → Hub → Hub
run_round sees_stop h = if h.stopped then record (close_all h.clients h) { returned = true } else h
run_round registers h = register h
run_round (unregisters c) h = unregister c h
run_round sends_request h =
    first_event close_and_drop h.broadcast_ch (record h { broadcast_ch = behind h.broadcast_ch })
run_round sends_intercept h =
    first_event only_warn h.intercept_ch (record h { intercept_ch = behind h.intercept_ch })
run_round sends_update h =
    first_event only_warn h.update_ch (record h { update_ch = behind h.update_ch })
run_round _ h = h

abbrev read_one : Client → Client
read_one x = record x { queue = behind x.queue }

-- the other goroutines' steps, and a round of `run` until it has returned
unfoldable pub run_step : Step → Hub → Hub
run_step (broadcasts m) h = record h { broadcast_ch = enqueue 256 m h.broadcast_ch }
run_step (broadcasts_intercept m) h = record h { intercept_ch = enqueue 64 m h.intercept_ch }
run_step (broadcasts_update m) h = record h { update_ch = enqueue 256 m h.update_ch }
run_step stops h = record h { stopped = true }
run_step (client_reads c) h = write_client c (read_one (client h c)) h
run_step s h = if h.returned then h else run_round s h

unfoldable pub run_steps : List Step → Hub → Hub
run_steps [] h = h
run_steps (s ∷ ss) h = run_steps ss (run_step s h)
