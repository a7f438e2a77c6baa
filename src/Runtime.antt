-- ===== src/Runtime.antt =====
-- What the handlers run in: the state that the program's functions share, and functions that
-- change it, may throw, or have undefined behaviour.
pub mod Dictionary
pub mod Files
pub mod Disk
pub mod Words
pub mod Decimal
pub mod Quiet
pub mod Numbers
pub mod Inversion
pub mod Keeps
pub mod Search
pub mod Contents
use dinner_is_servered.Prelude.{Bytes, List, ◌≡◌, refl}
use dinner_is_servered.Logging.{LoggingBuffer, LogSeverity, info, error, add_to_buffer}
use Files.{FileSystem}
use Dictionary.{StringMap}

-- `ServerPaths` of include/utils.h
pub record ServerPaths : Type 0 where
  pub echo : List Bytes
  pub static : StringMap
  pub crud : StringMap
  pub health : List Bytes
  pub sleep : List Bytes
  pub app : List Bytes

-- The logging buffer, the files, and the static members of ConfigInterpreter.
pub record World : Type 0 where
  pub logging_buffer : LoggingBuffer
  pub files : FileSystem
  pub server_paths : ServerPaths
  pub api_key : Bytes
  pub chatgpt_url : Bytes

pub data Exception : Type 0 where
  invalid_argument out_of_range length_error bad_alloc filesystem_error : Exception
  runtime_error : Bytes → Exception

-- How a call ends; `undefined` is a use of a null pointer or of an element that is not there.
pub data Outcome (A : Type 0) : Type 0 where
  returns : A → Outcome A
  throws : Exception → Outcome A
  undefined : Outcome A

abbrev pub M : Type 0 → Type 0
M A = World → Outcome A × World

unfoldable pub pure : {A : Type 0} → A → M A
pure a w = (returns a, w)

unfoldable pub raise : {A : Type 0} → Exception → M A
raise e w = (throws e, w)

unfoldable pub crash : {A : Type 0} → M A
crash w = (undefined, w)

unfoldable pub gets : {A : Type 0} → (World → A) → M A
gets f w = (returns (f w), w)

-- `logging_buffer->addToBuffer(severity, message)`
unfoldable pub log : LogSeverity → Bytes → M (Unit {0})
unfolding add_to_buffer
log severity message w =
    (returns tt, record w { logging_buffer = (add_to_buffer w.logging_buffer severity message).0 })

infixl 5 ◌>>=◌ ◌>>◌
-- The steps stay shut; to open `>>=` is to open them all.
unfoldable pub ◌>>=◌ : {A B : Type 0} → M A → (A → M B) → M B
unfolding pure raise crash gets log
◌>>=◌ m f w = elim (m w).0 [
  | returns a ↦ f a (m w).1
  | throws e ↦ (throws e, (m w).1)
  | undefined ↦ (undefined, (m w).1)
]

abbrev pub ◌>>◌ : {B : Type 0} → M (Unit {0}) → M B → M B
m >> k = m >>= λ _. k

-- a result that needs no world
unfoldable pub lift : {A : Type 0} → Outcome A → M A
lift o w = (o, w)

-- an assignment to a static member
unfoldable pub update : (World → World) → M (Unit {0})
update f w = (returns tt, f w)

-- A call whose result the next step needs, outside the world.
abbrev pub and_then : {A B : Type 0} → Outcome A → (A → Outcome B) → Outcome B
and_then (returns a) f = f a
and_then (throws e) f = throws e
and_then undefined f = undefined
