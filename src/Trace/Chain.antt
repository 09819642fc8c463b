-- ===== src/Trace/Chain.antt =====
-- internal/trace/trace.go: the event file of a task, its head, `parseEvents`, `VerifyIntegrity`,
-- `Read`, the recovery and `Append`. The content of the event file is the list of its complete
-- lines, each kept as its length and the event that it decodes to, and whether an incomplete line
-- follows. Error messages are without the number of the event.
use safeops_agent.Prelude.{
  ℕ, suc, String, Bool, not, ◌&&◌, ◌||◌, List, [], ◌∷◌, ◌++◌, length, Option, none, some, eqb, ◌==◌,
  if◌then◌else◌, Result, ok, err, ◌>>=◌, ◌>>◌, refuse_if, lookup, is_valid_id, ltb,
}
use safeops_agent.Contracts.Hex.{hex_encode}
use safeops_agent.Disk
use safeops_agent.Disk.{Disk, missing_file}

-- `Event`; `payload` is the raw JSON text of the payload.
pub record Event : Type 0 where
  pub sequence : ℕ
  pub timestamp : ℕ
  pub kind : String
  pub task_id : String
  pub session_id : String
  pub payload : String
  pub prev_hash : String
  pub event_hash : String

pub record CanonicalEvent : Type 0 where
  pub sequence : ℕ
  pub timestamp : ℕ
  pub kind : String
  pub task_id : String
  pub session_id : String
  pub payload : String

pub record Head : Type 0 where
  pub count : ℕ
  pub hash : String

abbrev pub zero_head : Head
zero_head = record { count = 0; hash = "" }

-- A line of an event file: its bytes without the line break, and what it decodes to.
pub record Line : Type 0 where
  pub size : ℕ
  pub event : Option Event

-- The buffer of the scanner of `parseEvents`, which has to hold a line with its line break.
abbrev pub max_line : ℕ
max_line = 4194304

pub record TraceFile : Type 0 where
  pub lines : List Line
  pub has_tail : Bool

-- The directory of a `Writer`.
pub record Writer : Type 0 where
  pub traces : Disk TraceFile
  pub heads : Disk Head

-- What the chain takes from Go's standard library: `json.Marshal` of a canonical event, SHA-256, the
-- bytes of a text, and the length of `json.Marshal` of an event.
pub record Hashing : Type 0 where
  pub marshal_event : CanonicalEvent → Result (List ℕ)
  pub sha256 : List ℕ → List ℕ
  pub bytes : String → List ℕ
  pub line_size : Event → ℕ

unfoldable pub canonical_event : Event → CanonicalEvent
canonical_event e = record {
  sequence = e.sequence;
  timestamp = e.timestamp;
  kind = e.kind;
  task_id = e.task_id;
  session_id = e.session_id;
  payload = e.payload;
}

module _ (c : Hashing) where
  open c use {marshal_event, sha256, bytes}

  -- The hash that an event has after the hash `previous`.
  unfoldable pub chain_hash : String → CanonicalEvent → Result String
  chain_hash previous ce =
      marshal_event ce >>= λ canonical. ok (hex_encode (sha256 (bytes previous ++ canonical)))

  -- The checks of one line of `parseEvents`.
  unfoldable pub check_event : String → ℕ → String → Option Event → Result Event
  check_event task_id sequence previous none = err "event decode"
  check_event task_id sequence previous (some e) =
      if not (eqb e.sequence sequence)
      then err "event sequence mismatch"
      else if not (e.task_id == task_id)
      then err "event task mismatch"
      else if not (e.prev_hash == previous)
      then err "event previous hash mismatch"
      else elim (chain_hash previous (canonical_event e)) [
        | err x ↦ err x
        | ok expected ↦ if not (e.event_hash == expected) then err "event hash mismatch" else ok e
      ]

  -- A line that the scanner's buffer cannot hold ends the loop, and `scanner.Err` reports it.
  unfoldable pub check_line : String → ℕ → String → Line → Result Event
  check_line task_id sequence previous l =
      if not (ltb l.size max_line)
      then err "bufio.Scanner: token too long"
      else check_event task_id sequence previous l.event

  -- The loop of `parseEvents`, at the number and the previous hash of the next event. The hashes
  -- that it returns beside the events are those of the events.
  unfoldable pub parse_from : String → ℕ → String → List Line → Result (List Event)
  parse_from task_id sequence previous [] = ok []
  parse_from task_id sequence previous (l ∷ ls) = check_line task_id sequence previous l >>= λ e.
      (parse_from task_id (suc sequence) e.event_hash ls >>= λ es. ok (e ∷ es))

  unfoldable pub parse_events : String → List Line → Result (List Event)
  parse_events task_id ls = parse_from task_id 1 "" ls

-- The hash of the last event, and `from` where there is none.
unfoldable pub last_hash : String → List Event → String
last_hash from [] = from
last_hash from (e ∷ es) = last_hash e.event_hash es

-- `readHead`
unfoldable pub read_head : String → Writer → Result Head
read_head task_id w = elim (lookup task_id w.heads.files) [
  | some (some h) ↦ ok h
  | some none ↦ err "head cannot be decoded"
  | none ↦ elim (lookup task_id w.traces.files) [
    | none ↦ ok zero_head
    | some none ↦ err "trace cannot be examined"
    | some (some f) ↦
        if eqb (length f.lines) 0 && not f.has_tail
        then ok zero_head
        else err "trace head is missing while event data exists"
  ]
]

module _ (c : Hashing) where
  -- `readEvents`
  unfoldable pub read_events : String → Writer → Result (List Event)
  read_events task_id w = Disk.load task_id w.traces >>= λ f.
      refuse_if f.has_tail "trace has an incomplete crash tail" >> parse_events c task_id f.lines

  unfoldable pub verify_integrity : String → Writer → Result (Unit {0})
  verify_integrity task_id w =
      refuse_if (not (is_valid_id task_id)) "invalid trace id" >> read_events task_id w >>= λ es.
      read_head task_id w >>= λ h.
      refuse_if (not (eqb h.count (length es)) || not (h.hash == last_hash "" es))
        "trace head does not match event chain"
      >> ok tt

  unfoldable pub read : String → Writer → Result (List Event)
  read task_id w = refuse_if (not (is_valid_id task_id)) "invalid trace id" >> read_events task_id w
