-- ===== src/Examples/Tracing.antt =====
-- A chain of two events under a hash that keeps one byte, and a payload with a password.
use safeops_agent.Contracts.Hex.{hex_encode}
use safeops_agent.Disk.{Disk}
use safeops_agent.Json.{Json, arr, cons, end, field, nil, obj, str}
use safeops_agent.Prelude.{
  arith, [], insert, is_valid_id, lookup, none, ok, refl, some, true, ◌==◌, ◌↔◌, ◌∷◌, ◌≡◌,
}
use safeops_agent.Trace.Append.{
  Entry, advance_head, append, append_event, append_line, append_locked, check_prefix, commit_event,
  cut_tail, recover_file, recover_locked, save_head, start_head, write_line,
}
use safeops_agent.Trace.Appended.{append-verify_integrity}
use safeops_agent.Trace.Chain.{
  Event, Hashing, Line, Writer, canonical_event, chain_hash, check_event, check_line, last_hash,
  parse_events, parse_from, read_head, verify_integrity, zero_head,
}
use safeops_agent.Trace.Clean.{IsClean, redact_value-IsClean}
use safeops_agent.Trace.Extension.{IsChain, parse_events-IsChain, parse_events-append}
use safeops_agent.Trace.Redaction.{redact_value}
use safeops_agent.Trace.Restored.{recover_locked-verify_integrity}
use safeops_agent.Disk

abbrev hashing : Hashing
hashing = record {
  marshal_event = λ ce. ok (ce.sequence ∷ []);
  sha256 = λ m. m;
  bytes = λ s. [];
  line_size = λ e. 200;
}

abbrev first : Event
first = record {
  sequence = 1;
  timestamp = 1000;
  kind = "RECEIVED";
  task_id = "t1";
  session_id = "s1";
  payload = "{}";
  prev_hash = "";
  event_hash = "01";
}

abbrev second : Event
second = record first { sequence = 2; kind = "FINAL"; prev_hash = "01"; event_hash = "02" }

abbrev line : Event → Line
line e = record { size = 200; event = some e }

first_parsed : parse_events hashing "t1" (line first ∷ []) ≡ ok (first ∷ [])
unfolding parse_events parse_from check_line check_event chain_hash canonical_event hex_encode ◌==◌
first_parsed = refl

second_hashed : chain_hash hashing "01" (canonical_event second) ≡ ok "02"
unfolding chain_hash canonical_event hex_encode
second_hashed = refl

last_of_first : "01" ≡ last_hash "" (first ∷ [])
unfolding last_hash
last_of_first = refl

parse_events-append_example :
    parse_events hashing "t1" (line first ∷ line second ∷ []) ≡ ok (first ∷ second ∷ [])
parse_events-append_example =
    parse_events-append hashing "t1" (line first ∷ []) (first ∷ []) second 200 (omega arith)
      first_parsed refl refl last_of_first second_hashed

parse_events-IsChain_example :
    (parse_events hashing "t1" (line first ∷ []) ≡ ok (first ∷ []))
    ↔ IsChain hashing "t1" 1 "" (line first ∷ []) (first ∷ [])
parse_events-IsChain_example = parse_events-IsChain hashing "t1" (line first ∷ []) (first ∷ [])

abbrev login : Json
login = obj (
    field "user" (str "ann")
      (field "list" (arr (cons (obj (field "DB_Password" (str "x") end)) nil)) end))

redact_value-IsClean_example : IsClean (λ s. s) (redact_value (λ s. s) login)
redact_value-IsClean_example = redact_value-IsClean (λ s. s) login

-- The directory after a crash: the head stands before the first event, and a second line is torn.
abbrev crashed_directory : Writer
crashed_directory = record {
  traces = record {
    files = ("t1", some (record { lines = line first ∷ []; has_tail = true })) ∷ [];
    faults = [];
  };
  heads = record { files = ("t1", some zero_head) ∷ []; faults = [] };
}

trace_there :
    lookup "t1" crashed_directory.traces.files
    ≡ some (some (record { lines = line first ∷ []; has_tail = true }))
unfolding lookup ◌==◌
trace_there = refl

t1_valid : is_valid_id "t1" ≡ true
unfolding is_valid_id ◌==◌
t1_valid = refl

restored :
    (recover_locked hashing "t1" crashed_directory).0 ≡ ok (record { count = 1; hash = "01" })
unfolding recover_locked recover_file read_head parse_events parse_from check_line check_event
    chain_hash canonical_event hex_encode ◌==◌ lookup check_prefix cut_tail advance_head save_head
    Disk.save last_hash
restored = refl

recover_locked-verify_integrity_example :
    verify_integrity hashing "t1" (recover_locked hashing "t1" crashed_directory).1 ≡ ok tt
recover_locked-verify_integrity_example =
    recover_locked-verify_integrity hashing "t1" (record { count = 1; hash = "01" })
      (record { lines = line first ∷ []; has_tail = true }) crashed_directory t1_valid trace_there
      restored

abbrev final_entry : Entry
final_entry = record {
  session_id = "s1";
  kind = "FINAL";
  payload = λ n. ok "{}";
  now = 1000;
  torn = none;
}

final_appended : (append hashing none final_entry "t1" crashed_directory).0 ≡ ok second
unfolding append append_locked append_event commit_event append_line write_line start_head
    recover_locked recover_file read_head parse_events parse_from check_line check_event chain_hash
    canonical_event hex_encode ◌==◌ lookup insert check_prefix cut_tail advance_head save_head
    Disk.save last_hash is_valid_id
final_appended = refl

append-verify_integrity_example :
    verify_integrity hashing "t1" (append hashing none final_entry "t1" crashed_directory).1 ≡ ok tt
append-verify_integrity_example =
    append-verify_integrity hashing none final_entry "t1" second crashed_directory (omega arith)
      final_appended
