-- ===== src/Trace/Append.antt =====
-- internal/trace/trace.go: the recovery of a file of events and its head, and `Append`.
use safeops_agent.Disk.{Disk}
use safeops_agent.Prelude.{
  Error, List, Option, Result, String, [], eqb, err, false, get_elem?, if◌then◌else◌, insert,
  is_valid_id, length, lookup, ltb, none, not, ok, some, true, ℕ, ◌++◌, ◌+◌, ◌-◌, ◌==◌, ◌||◌, ◌∷◌,
}
use safeops_agent.Trace.Chain.{
  Event, Hashing, Head, Line, TraceFile, Writer, canonical_event, chain_hash, last_hash,
  parse_events, read_head, zero_head,
}
use safeops_agent.Disk

-- The checks of `recoverLocked` of a head against the events of the file.
unfoldable pub check_prefix : Head → List Event → Option Error
check_prefix h es =
    if ltb (length es) h.count
    then some "trace event data is shorter than the committed head"
    else if eqb h.count 0
    then if h.hash == "" then none else some "zero trace head has a non-empty hash"
    else elim (get_elem? es (h.count - 1)) [
      | none ↦ some "index out of range"
      | some e ↦
          if e.event_hash == h.hash
          then none
          else some "committed trace prefix does not match the head"
    ]

-- `atomicJSON` of the head.
unfoldable pub save_head : String → Head → Writer → Option Error × Writer
save_head task_id h w = let (x, d) = Disk.save task_id h w.heads in (x, record w { heads = d })

-- `truncateAndSync`, where the file ends in an incomplete line.
unfoldable pub cut_tail : String → TraceFile → Writer → Option Error × Writer
cut_tail task_id f w =
    let (x, d) = Disk.save task_id (record f { has_tail = false }) w.traces in
    if f.has_tail then (x, record w { traces = d }) else (none, w)

-- The head is brought up to the events that were written after it.
unfoldable pub advance_head : String → Head → List Event → Writer → Result Head × Writer
advance_head task_id h es w =
    let next : Head = record { count = length es; hash = last_hash "" es } in
    let (x, v) = save_head task_id next w in
    if ltb h.count (length es) then (elim x [ some e ↦ err e | none ↦ ok next ], v) else (ok h, w)

module _ (c : Hashing) where
  unfoldable pub recover_file : String → Head → TraceFile → Writer → Result Head × Writer
  recover_file task_id h f w = elim (parse_events c task_id f.lines) [
    | err x ↦ (err x, w)
    | ok es ↦ elim (check_prefix h es) [
      | some x ↦ (err x, w)
      | none ↦
          let (x, v) = cut_tail task_id f w in
          elim x [ some e ↦ (err e, v) | none ↦ advance_head task_id h es v ]
    ]
  ]

  -- `recoverLocked`
  unfoldable pub recover_locked : String → Writer → Result Head × Writer
  recover_locked task_id w = elim (read_head task_id w) [
    | err x ↦ (err x, w)
    | ok h ↦ elim (lookup task_id w.traces.files) [
      | none ↦ (
        if not (eqb h.count 0) || not (h.hash == "")
            then err "trace head exists but event data is missing"
            else ok h,
        w,
      )
      | some none ↦ (err "trace cannot be read", w)
      | some (some f) ↦ recover_file task_id h f w
    ]
  ]

-- The line that `Append` writes after the others, however long it is. A write that stops in the
-- middle (`torn`) leaves an incomplete line.
unfoldable pub write_line :
    Hashing → Option Error → String → List Line → Event → Writer → Option Error × Writer
write_line c (some x) task_id ls e w = (
  some x,
  record w {
    traces = record (w.traces) {
      files = insert task_id (some (record { lines = ls; has_tail = true })) w.traces.files;
    };
  },
)
write_line c none task_id ls e w =
    let l : Line = record { size = c.line_size e; event = some e } in
    let (x, d) = Disk.save task_id (record { lines = ls ++ l ∷ []; has_tail = false }) w.traces in
    (x, record w { traces = d })

unfoldable pub append_line :
    Hashing → Option Error → String → Event → Writer → Option Error × Writer
append_line c torn task_id e w = elim (lookup task_id w.traces.files) [
  | none ↦ write_line c torn task_id [] e w
  | some content ↦ elim content [
    | none ↦ (some "trace cannot be opened", w)
    | some f ↦ write_line c torn task_id f.lines e w
  ]
]

-- `Append` writes an empty head where there is none.
unfoldable pub start_head : String → Writer → Option Error × Writer
start_head task_id w = elim (lookup task_id w.heads.files) [
  | none ↦ save_head task_id zero_head w
  | some _ ↦ (none, w)
]

-- The arguments of `Append` after the task, the reading of the clock and the outcome of the write of
-- the line. `payload` is what `marshalPayload` makes of the data for a sequence number.
pub record Entry : Type 0 where
  pub session_id : String
  pub kind : String
  pub payload : ℕ → Result String
  pub now : ℕ
  pub torn : Option Error

abbrev pub entry_event : Entry → String → Head → String → Event
entry_event a task_id h data' = record {
  sequence = h.count + 1;
  timestamp = a.now;
  kind = a.kind;
  task_id = task_id;
  session_id = a.session_id;
  payload = data';
  prev_hash = h.hash;
  event_hash = "";
}

-- The writes of the line and of the head.
unfoldable pub commit_event :
    Hashing → Option Error → String → Event → Writer → Result Event × Writer
commit_event c torn task_id e w =
    let (x, v) = append_line c torn task_id e w in
    let (y, u) = save_head task_id (record { count = e.sequence; hash = e.event_hash }) v in
    elim x [ some z ↦ (err z, v) | none ↦ elim y [ some z ↦ (err z, u) | none ↦ (ok e, u) ] ]

module _ (c : Hashing) where
  unfoldable pub append_event : Entry → String → Head → Writer → Result Event × Writer
  append_event a task_id h w = elim (a.payload (h.count + 1)) [
    | err x ↦ (err x, w)
    | ok data' ↦
        let e = entry_event a task_id h data' in
        elim (chain_hash c h.hash (canonical_event e)) [
          | err x ↦ (err x, w)
          | ok hash ↦ commit_event c a.torn task_id (record e { event_hash = hash }) w
        ]
  ]

  unfoldable pub append_locked : Entry → String → Writer → Result Event × Writer
  append_locked a task_id w =
      let (r, v) = recover_locked c task_id w in
      let (x, u) = start_head task_id v in
      elim r [
        | err y ↦ (err y, v)
        | ok h ↦ elim x [ some y ↦ (err y, u) | none ↦ append_event a task_id h u ]
      ]

  -- `Append`
  unfoldable pub append : Option Error → Entry → String → Writer → Result Event × Writer
  append (some x) a task_id w = (err x, w)
  append none a task_id w =
      if not (is_valid_id task_id) then (err "invalid trace id", w) else append_locked a task_id w
