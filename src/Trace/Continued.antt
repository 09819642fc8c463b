-- ===== src/Trace/Continued.antt =====
-- internal/trace/trace.go: the event file before and after `Append` writes a line.
use safeops_agent.Disk.{Disk, save-cases}
use safeops_agent.Prelude.{
  ◌<◌, ==→eq, Bool-cases, Error, List, Option, Option-cases, Result, Result-cases, String, [], ap,
  arith, eqb, err, false, inl, inr, length, lookup, lookup-insert_self, none, not, ok, refl, some,
  subst, sym, ◌++◌, ◌+◌, ◌==◌, ◌||◌, ◌∙◌, ◌∷◌, ◌≡◌, ◌⊎◌,
}
use safeops_agent.Trace.Append.{
  append_line, recover_file, recover_locked, save_head, start_head, write_line,
}
use safeops_agent.Trace.Chain.{
  Event, Hashing, Head, Line, max_line, TraceFile, Writer, canonical_event, chain_hash, last_hash,
  parse_events, parse_from, read_head,
}
use safeops_agent.Trace.Extension.{parse_events-append}
use safeops_agent.Trace.Restored.{IsFileOf, IsHeadOf, recover_file-IsFileOf}

-- The events of a task before an append: those of its file, or none where there is no file.
abbrev pub Holds : Hashing → String → List Event → Writer → Type 0
Holds c task_id es w =
    ((lookup task_id w.traces.files ≡ none) × (es ≡ [])) ⊎ IsFileOf c task_id es w

pub IsFileOf-traces :
    (c : Hashing) (task_id : String) (es : List Event) (w v : Writer)
    → v.traces ≡ w.traces
    → IsFileOf c task_id es w
    → IsFileOf c task_id es v
IsFileOf-traces c task_id es w v e f = record {
  file = f.file;
  there = ap (λ (d : Disk TraceFile). lookup task_id d.files) e ∙ f.there;
  whole = f.whole;
  parsed = f.parsed;
}

pub Holds-traces :
    (c : Hashing) (task_id : String) (es : List Event) (w v : Writer)
    → v.traces ≡ w.traces
    → Holds c task_id es w
    → Holds c task_id es v
Holds-traces c task_id es w v e (inl (absent, nil')) =
    inl (ap (λ (d : Disk TraceFile). lookup task_id d.files) e ∙ absent, nil')
Holds-traces c task_id es w v e (inr f) = inr (IsFileOf-traces c task_id es w v e f)

pub start_head-traces : (task_id : String) (w : Writer) → (start_head task_id w).1.traces ≡ w.traces
unfolding start_head save_head
start_head-traces task_id w = elim (Option-cases (lookup task_id w.heads.files)) [
  | inl absent ↦ rw (absent, start_head)
  | inr (h, found) ↦ rw (found, start_head)
]

head_injective : {a b : Head} → ok a ≡ ok b → a ≡ b
head_injective h = cc

empty_head : (h : Head) → not (eqb h.count 0) || not (h.hash == "") ≡ false → IsHeadOf h []
unfolding last_hash
empty_head h fresh = (ground arith, ground (arith, ==→eq h.hash ""))

pub recover_locked-Holds :
    (c : Hashing) (task_id : String) (k : Head) (w : Writer)
    → (recover_locked c task_id w).0 ≡ ok k
    → (es : List Event) × Holds c task_id es (recover_locked c task_id w).1 × IsHeadOf k es
recover_locked-Holds c task_id k w recovered = elim (Result-cases (read_head task_id w)) [
  | inl (x, bad) ↦
      let stop : (recover_locked c task_id w).0 ≡ err x =
        unfold recover_locked in rw (bad, recover_locked) in
      cc
  | inr (h, headed) ↦ elim (Option-cases (lookup task_id w.traces.files)) [
    | inl absent ↦
        let odd = not (eqb h.count 0) || not (h.hash == "") in
        elim (Bool-cases odd) [
          | inl lost ↦
              let stop : (recover_locked c task_id w).0
                  ≡ err "trace head exists but event data is missing" =
                unfold recover_locked in rw (headed, recover_locked) (rw absent (rw lost)) in
              cc
          | inr fresh ↦
              let step : recover_locked c task_id w ≡ (ok h, w) =
                unfold recover_locked in rw (headed, recover_locked) (rw absent (rw fresh)) in
              let one : h ≡ k =
                head_injective (ap (λ (o : Result Head × Writer). o.0) (sym step) ∙ recovered) in
              subst
                (λ (o : Result Head × Writer).
                  (fs : List Event) × Holds c task_id fs o.1 × IsHeadOf k fs)
                (sym step)
                (
                  [],
                  inl (absent, refl),
                  subst (λ (j : Head). IsHeadOf j []) one (empty_head h fresh),
                )
        ]
    | inr (content, there') ↦ elim (Option-cases content) [
      | inl broken ↦
          let stop : (recover_locked c task_id w).0 ≡ err "trace cannot be read" =
            unfold recover_locked in rw (headed, recover_locked) (rw there' (rw broken)) in
          cc
      | inr (f, whole') ↦
          let step : recover_locked c task_id w ≡ recover_file c task_id h f w =
            unfold recover_locked in rw (headed, recover_locked) (rw there' (rw whole')) in
          let (es, file, _, right) =
            recover_file-IsFileOf c task_id h k f w (there' ∙ ap some whole') headed
              (ap (λ (o : Result Head × Writer). o.0) (sym step) ∙ recovered) in
          subst
            (λ (o : Result Head × Writer).
              (fs : List Event) × Holds c task_id fs o.1 × IsHeadOf k fs)
            (sym step) (es, inr file, right)
    ]
  ]
]

-- The event `e` goes on from the events `es`, and the scanner can read its line.
pub record Continues (c : Hashing) (task_id : String) (es : List Event) (e : Event) : Type 0 where
  pub numbered : e.sequence ≡ length es + 1
  pub owned : e.task_id ≡ task_id
  pub follows : e.prev_hash ≡ last_hash "" es
  pub hashed : chain_hash c e.prev_hash (canonical_event e) ≡ ok e.event_hash
  pub fits : c.line_size e < max_line

pub last_hash-append :
    (previous : String) (es : List Event) (e : Event)
    → last_hash previous (es ++ e ∷ []) ≡ e.event_hash
unfolding last_hash
last_hash-append previous [] e = refl
last_hash-append previous (a ∷ es) e = last_hash-append a.event_hash es e

write_line-IsFileOf :
    (c : Hashing) (task_id : String) (torn : Option Error) (ls : List Line) (es : List Event)
    (e : Event) (w : Writer)
    → parse_events c task_id ls ≡ ok es
    → Continues c task_id es e
    → (write_line c torn task_id ls e w).0 ≡ none
    → IsFileOf c task_id (es ++ e ∷ []) (write_line c torn task_id ls e w).1
unfolding write_line
write_line-IsFileOf c task_id (some x) ls es e w parsed next fine = cc
write_line-IsFileOf c task_id Option.none ls es e w parsed next fine =
    let l : Line = record { size = c.line_size e; event = some e } in
    let f : TraceFile = record { lines = ls ++ l ∷ []; has_tail = false } in
    elim (save-cases task_id f w.traces) [
      | inr (_, bad) ↦ absurd (bad fine)
      | inl saved ↦ record {
        file = f;
        there = ap (lookup task_id) saved ∙ lookup-insert_self task_id (some f) w.traces.files;
        whole = refl;
        parsed =
            parse_events-append c task_id ls es e (c.line_size e) next.fits parsed next.numbered
              next.owned next.follows next.hashed;
      }
    ]

pub append_line-IsFileOf :
    (c : Hashing) (task_id : String) (torn : Option Error) (es : List Event) (e : Event)
    (w : Writer)
    → Holds c task_id es w
    → Continues c task_id es e
    → (append_line c torn task_id e w).0 ≡ none
    → IsFileOf c task_id (es ++ e ∷ []) (append_line c torn task_id e w).1
append_line-IsFileOf c task_id torn es e w (inl (absent, nil')) next fine =
    let step : append_line c torn task_id e w ≡ write_line c torn task_id [] e w =
      unfold append_line in rw (absent, append_line) in
    subst (λ (o : Option Error × Writer). IsFileOf c task_id (es ++ e ∷ []) o.1) (sym step)
      (write_line-IsFileOf c task_id torn [] es e w
        (unfold parse_events parse_from in ap ok (sym nil')) next
        (ap (λ (o : Option Error × Writer). o.0) (sym step) ∙ fine))
append_line-IsFileOf c task_id torn es e w (inr f) next fine =
    let step : append_line c torn task_id e w ≡ write_line c torn task_id f.file.lines e w =
      unfold append_line in rw (f.there, append_line) in
    subst (λ (o : Option Error × Writer). IsFileOf c task_id (es ++ e ∷ []) o.1) (sym step)
      (write_line-IsFileOf c task_id torn f.file.lines es e w f.parsed next
        (ap (λ (o : Option Error × Writer). o.0) (sym step) ∙ fine))
