-- ===== src/Logging/Interleaving/Ordered.antt =====
-- The order of the messages that are logged, in every interleaving.
use mathlib.Core.List.{map, map-append}
use dinner_is_servered.Prelude.{
  ◌≡◌, refl, sym, ap, subst, ◌∙◌, true, List, [], ◌∷◌, ◌++◌, append-nil, append_assoc, arith, Bytes,
}
use dinner_is_servered.Logging.{
  LogSeverity, BufferEntry, QueuePointer, buffer1, buffer2, LoggingBuffer, LogRecord, queue_at,
  set_queue, add_to_buffer, switch_buffer, log_entry, empty,
}
use dinner_is_servered.Logging.Interleaving.{
  Phase, idle, chosen, draining, System, Step, add, choose, switch, log, finish, Reach, here, later,
  initial, other, index_of, pending, entry,
}

abbrev PhaseInv : LoggingBuffer → Phase → Type 0
PhaseInv b idle = queue_at b (other b.available_buffer) ≡ []
PhaseInv b (chosen q) = (q ≡ b.available_buffer) × (queue_at b (other b.available_buffer) ≡ [])
PhaseInv b (draining q) = q ≡ other b.available_buffer

pub record Inv (s : System) : Type 0 where
  pub index : s.buffer.available_buffer_index ≡ index_of s.buffer.available_buffer
  pub phase_inv : PhaseInv s.buffer s.phase
  pub in_order : s.sink ++ map log_entry (pending s.buffer) ≡ map log_entry s.history

pending-add_to_buffer :
    (b : LoggingBuffer) (severity : LogSeverity) (message : Bytes)
    → pending (add_to_buffer b severity message).0 ≡ pending b ++ entry severity message ∷ []
unfolding add_to_buffer
pending-add_to_buffer b severity message =
    let e : List BufferEntry = entry severity message ∷ [] in
    ground (arith, append_assoc b.queue1 b.queue2 e, append_assoc b.queue2 b.queue1 e)

available-add_to_buffer :
    (b : LoggingBuffer) (severity : LogSeverity) (message : Bytes)
    → ((add_to_buffer b severity message).0.available_buffer ≡ b.available_buffer)
      × ((add_to_buffer b severity message).0.available_buffer_index ≡ b.available_buffer_index)
      × (queue_at (add_to_buffer b severity message).0 (other b.available_buffer)
          ≡ queue_at b (other b.available_buffer))
unfolding add_to_buffer
available-add_to_buffer b severity message = ground arith

add-PhaseInv :
    (b : LoggingBuffer) (severity : LogSeverity) (message : Bytes) (phase : Phase)
    → PhaseInv b phase
    → PhaseInv (add_to_buffer b severity message).0 phase
unfolding add_to_buffer
add-PhaseInv b severity message idle h = ground arith
add-PhaseInv b severity message (chosen q) h = ground arith
add-PhaseInv b severity message (draining q) h = ground arith

-- With the index in step, the switch turns the pointer to the other queue.
switch-other :
    (b : LoggingBuffer)
    → b.available_buffer_index ≡ index_of b.available_buffer
    → ((switch_buffer b).available_buffer ≡ other b.available_buffer)
      × ((switch_buffer b).available_buffer_index ≡ index_of (other b.available_buffer))
      × ((switch_buffer b).queue1 ≡ b.queue1)
      × ((switch_buffer b).queue2 ≡ b.queue2)
unfolding switch_buffer
switch-other b h = ground arith

-- Where the other queue is empty, what is pending does not change.
pending-switch :
    (b : LoggingBuffer)
    → b.available_buffer_index ≡ index_of b.available_buffer
    → queue_at b (other b.available_buffer) ≡ []
    → pending (switch_buffer b) ≡ pending b
unfolding switch_buffer
pending-switch b h e = ground (arith, append-nil b.queue1, append-nil b.queue2)

pending-pop :
    (b : LoggingBuffer) (q : QueuePointer) (top : BufferEntry) (rest : List BufferEntry)
    → q ≡ other b.available_buffer
    → queue_at b q ≡ top ∷ rest
    → pending b ≡ top ∷ pending (set_queue b q rest)
pending-pop b q top rest e f = ground arith

switch-PhaseInv :
    (b : LoggingBuffer) (q : QueuePointer)
    → b.available_buffer_index ≡ index_of b.available_buffer
    → q ≡ b.available_buffer
    → q ≡ other (switch_buffer b).available_buffer
unfolding switch_buffer
switch-PhaseInv b q h e = ground arith

switch-index :
    (b : LoggingBuffer)
    → b.available_buffer_index ≡ index_of b.available_buffer
    → (switch_buffer b).available_buffer_index ≡ index_of (switch_buffer b).available_buffer
unfolding switch_buffer
switch-index b h = ground arith

pop-fields :
    (b : LoggingBuffer) (q : QueuePointer) (rest : List BufferEntry)
    → ((set_queue b q rest).available_buffer ≡ b.available_buffer)
      × ((set_queue b q rest).available_buffer_index ≡ b.available_buffer_index)
pop-fields b buffer1 rest = (refl, refl)
pop-fields b buffer2 rest = (refl, refl)

log-Inv :
    (s : System) (q : QueuePointer) (top : BufferEntry) (rest : List BufferEntry)
    → s.phase ≡ draining q
    → q ≡ other s.buffer.available_buffer
    → queue_at s.buffer q ≡ top ∷ rest
    → Inv s
    → Inv (record s { buffer = set_queue s.buffer q rest; sink = s.sink ++ log_entry top ∷ [] })
log-Inv s q top rest e is_other f i = record {
  index =
      (pop-fields s.buffer q rest).1 ∙ i.index ∙ sym (ap index_of (pop-fields s.buffer q rest).0);
  phase_inv = rw e (is_other ∙ sym (ap other (pop-fields s.buffer q rest).0));
  in_order =
      append_assoc s.sink (log_entry top ∷ []) _
      ∙ ap (λ l. s.sink ++ map log_entry l) (sym (pending-pop s.buffer q top rest is_other f))
      ∙ i.in_order;
}

in_order-concat :
    (sink : List LogRecord) (waiting history : List BufferEntry) (e : BufferEntry)
    → sink ++ map log_entry waiting ≡ map log_entry history
    → sink ++ map log_entry (waiting ++ e ∷ []) ≡ map log_entry (history ++ e ∷ [])
in_order-concat sink waiting history e h =
    rw (map-append, map-append)
      (sym (append_assoc sink (map log_entry waiting) (log_entry e ∷ []))
        ∙ ap (λ l. l ++ log_entry e ∷ []) h)

-- Every step of any thread keeps the invariant.
pub Step-Inv : {s t : System} → Step s t → Inv s → Inv t
Step-Inv {s} (add severity message) i = record {
  index =
      (available-add_to_buffer s.buffer severity message).1
      ∙ i.index
      ∙ sym (ap index_of (available-add_to_buffer s.buffer severity message).0);
  phase_inv = add-PhaseInv s.buffer severity message s.phase i.phase_inv;
  in_order =
      rw (pending-add_to_buffer s.buffer severity message)
        (in_order-concat s.sink (pending s.buffer) s.history (entry severity message) i.in_order);
}
Step-Inv {s} (choose e f) i = record {
  index = i.index;
  phase_inv = (refl, subst (PhaseInv s.buffer) e i.phase_inv);
  in_order = i.in_order;
}
Step-Inv {s} (switch q e) i =
    let (same, none_left) = subst (PhaseInv s.buffer) e i.phase_inv in
    record {
      index = switch-index s.buffer i.index;
      phase_inv = switch-PhaseInv s.buffer q i.index same;
      in_order = rw (pending-switch s.buffer i.index none_left) i.in_order;
    }
Step-Inv {s} (log q top rest e f) i =
    log-Inv s q top rest e (subst (PhaseInv s.buffer) e i.phase_inv) f i
Step-Inv {s} (finish q e f) i =
    let is_other : q ≡ other s.buffer.available_buffer = subst (PhaseInv s.buffer) e i.phase_inv in
    record {
      index = i.index;
      phase_inv = subst (λ p. queue_at s.buffer p ≡ []) is_other f;
      in_order = i.in_order;
    }

pub Reach-Inv : {s : System} → Reach initial s → Inv s
Reach-Inv here = record { index = refl; phase_inv = refl; in_order = refl }
Reach-Inv (later r st) = Step-Inv st (Reach-Inv r)

-- In every reachable state, whatever the interleaving, the messages that were logged, followed by
-- those that are pending, are the messages that were added, in the order of the calls.
pub logged_in_order :
    {s : System}
    → Reach initial s
    → s.sink ++ map log_entry (pending s.buffer) ≡ map log_entry s.history
logged_in_order r = (Reach-Inv r).in_order

empty-pending : (b : LoggingBuffer) → empty b ≡ true → pending b ≡ []
unfolding empty
empty-pending b h = ground arith

-- When `empty` is true, as it is when `handle_logging` ends, every message added so far is logged.
pub empty-all_logged :
    {s : System} → Reach initial s → empty s.buffer ≡ true → s.sink ≡ map log_entry s.history
empty-all_logged {s} r h =
    sym (append-nil s.sink)
    ∙ ap (λ l. s.sink ++ map log_entry l) (sym (empty-pending s.buffer h))
    ∙ logged_in_order r
