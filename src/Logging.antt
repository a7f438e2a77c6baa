-- ===== src/Logging.antt =====
-- include/logging_buffer.h and src/logging_buffer.cc: two queues, of which one takes new messages
-- while the logging thread empties the other. The two queues that `main` owns are part of the
-- state, and the pointer `available_buffer_` names one of them. The sink is the sequence of the
-- calls of BOOST_LOG_TRIVIAL.
pub mod Interleaving
pub mod Flush
use dinner_is_servered.Prelude.{
  ℕ, Bool, true, false, ◌&&◌, List, [], ◌∷◌, ◌++◌, ◌==◌, if◌then◌else◌, Bytes,
}

pub data LogSeverity : Type 0 where
  info error fatal : LogSeverity

pub record BufferEntry : Type 0 where
  pub severity : LogSeverity
  pub message : Bytes

-- which of the two queues a pointer points to
pub data QueuePointer : Type 0 where
  buffer1 buffer2 : QueuePointer

pub record LoggingBuffer : Type 0 where
  pub queue1 : List BufferEntry
  pub queue2 : List BufferEntry
  pub available_buffer : QueuePointer
  pub available_buffer_index : ℕ

-- the severities of boost::log::trivial, with the message
pub data LogRecord : Type 0 where
  log_info log_error log_fatal : Bytes → LogRecord

-- the constructor
abbrev pub logging_buffer : List BufferEntry → List BufferEntry → LoggingBuffer
logging_buffer b1 b2 = record {
  queue1 = b1;
  queue2 = b2;
  available_buffer = buffer1;
  available_buffer_index = 1;
}

abbrev pub queue_at : LoggingBuffer → QueuePointer → List BufferEntry
queue_at b buffer1 = b.queue1
queue_at b buffer2 = b.queue2

abbrev pub set_queue : LoggingBuffer → QueuePointer → List BufferEntry → LoggingBuffer
set_queue b buffer1 q = record b { queue1 = q }
set_queue b buffer2 q = record b { queue2 = q }

abbrev pub is_empty {ℓ} : {A : Type ℓ} → List A → Bool
is_empty [] = true
is_empty (x ∷ xs) = false

unfoldable pub add_to_buffer : LoggingBuffer → LogSeverity → Bytes → LoggingBuffer × Bool
add_to_buffer b severity message =
    let entry : BufferEntry = record { severity = severity; message = message } in
    (set_queue b b.available_buffer (queue_at b b.available_buffer ++ entry ∷ []), true)

-- the `switch` on `available_buffer_index_`, under the lock
unfoldable pub switch_buffer : LoggingBuffer → LoggingBuffer
switch_buffer b =
    if b.available_buffer_index == 1
    then record b { available_buffer = buffer2; available_buffer_index = 2 }
    else if b.available_buffer_index == 2
    then record b { available_buffer = buffer1; available_buffer_index = 1 }
    else b

-- the `switch` on the severity of an entry
abbrev logged_as : LogSeverity → Bytes → LogRecord
logged_as info = log_info
logged_as error = log_error
logged_as fatal = log_fatal

unfoldable pub log_entry : BufferEntry → LogRecord
log_entry e = logged_as e.severity e.message

-- `while(!queue->empty())`
unfoldable pub drain : List BufferEntry → List LogRecord → List LogRecord
drain [] sink = sink
drain (top ∷ queue) sink = drain queue (sink ++ log_entry top ∷ [])

-- One call with no other thread in between. Waiting for WAIT_TIME changes nothing.
unfoldable pub write_to_log : LoggingBuffer → List LogRecord → LoggingBuffer × List LogRecord × Bool
write_to_log b sink =
    let queue = b.available_buffer in
    if is_empty (queue_at b queue)
    then (b, sink, true)
    else let switched = switch_buffer b in
      (set_queue switched queue [], drain (queue_at switched queue) sink, true)

unfoldable pub empty : LoggingBuffer → Bool
empty b = is_empty b.queue1 && is_empty b.queue2
