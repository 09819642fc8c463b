-- ===== src/Trace/Restored.antt =====
-- internal/trace/trace.go: the verification of a trace after its recovery.
use safeops_agent.Disk.{Disk, save-cases}
use safeops_agent.Prelude.{
  ==→eq, Bool-cases, Error, List, Option, Option-cases, Result, Result-cases, String, [], ap, arith,
  eq→==, err, false, get_elem?, inl, inr, is_valid_id, length, lookup, lookup-insert_self, ltb,
  none, ok, refl, some, subst, suc, sym, true, zero, ℕ, ◌+◌, ◌-◌, ◌∙◌, ◌∷◌, ◌≡◌,
}
use safeops_agent.Trace.Append.{
  advance_head, check_prefix, cut_tail, recover_file, recover_locked, save_head,
}
use safeops_agent.Trace.Chain.{
  Event, Hashing, Head, TraceFile, Writer, last_hash, parse_events, read_events, read_head,
  verify_integrity,
}
use safeops_agent.Disk

ok_injective : {a b : Head} → ok a ≡ ok b → a ≡ b
ok_injective h = cc

get_elem?-last_hash :
    (previous : String) (es : List Event) (n : ℕ) (e : Event)
    → get_elem? es n ≡ some e
    → length es ≡ n + 1
    → last_hash previous es ≡ e.event_hash
unfolding last_hash
get_elem?-last_hash previous [] n e h size = cc
get_elem?-last_hash previous (a ∷ []) zero e h size = ground arith
get_elem?-last_hash previous (a ∷ b ∷ es) zero e h size = absurd (omega arith)
get_elem?-last_hash previous (a ∷ es) (suc n) e h size =
    get_elem?-last_hash a.event_hash es n e h (omega arith)

-- The head that the events of a file call for.
abbrev pub IsHeadOf : Head → List Event → Type 0
IsHeadOf h es = (h.count ≡ length es) × (h.hash ≡ last_hash "" es)

check_prefix-IsHeadOf :
    (h : Head) (es : List Event)
    → check_prefix h es ≡ none
    → ltb h.count (length es) ≡ false
    → IsHeadOf h es
unfolding check_prefix
check_prefix-IsHeadOf h [] passed full =
    (ground arith, unfold last_hash in ground (arith, ==→eq h.hash ""))
check_prefix-IsHeadOf h (a ∷ es) passed full =
    let size : h.count ≡ length (a ∷ es) = ground arith in
    elim (Option-cases (get_elem? (a ∷ es) (h.count - 1))) [
      | inl missing ↦ absurd (ground arith)
      | inr (e, found) ↦ (
        size,
        sym (==→eq e.event_hash h.hash (ground arith))
            ∙ sym (get_elem?-last_hash "" (a ∷ es) (h.count - 1) e found (omega arith)),
      )
    ]

-- The event file of a task is complete and holds these events.
pub record IsFileOf (c : Hashing) (task_id : String) (es : List Event) (w : Writer) : Type 0 where
  pub file : TraceFile
  pub there : lookup task_id w.traces.files ≡ some (some file)
  pub whole : file.has_tail ≡ false
  pub parsed : parse_events c task_id file.lines ≡ ok es

pub verify_integrity-ok :
    (c : Hashing) (task_id : String) (es : List Event) (h : Head) (w : Writer)
    → is_valid_id task_id ≡ true
    → IsFileOf c task_id es w
    → read_head task_id w ≡ ok h
    → IsHeadOf h es
    → verify_integrity c task_id w ≡ ok tt
unfolding verify_integrity read_events Disk.load
verify_integrity-ok c task_id es h w valid f headed (size, same') = rw valid (
    rw f.there (
      rw f.whole
        (rw f.parsed (rw headed (rw (eq→== h.hash (last_hash "" es) same') (ground arith))))))

read_head-torn :
    (task_id : String) (f : TraceFile) (h : Head) (w : Writer)
    → lookup task_id w.traces.files ≡ some (some f)
    → f.has_tail ≡ true
    → read_head task_id w ≡ ok h
    → lookup task_id w.heads.files ≡ some (some h)
unfolding read_head
read_head-torn task_id f h w found torn headed =
    elim (Option-cases (lookup task_id w.heads.files)) [
      | inr (content, at) ↦ ground arith
      | inl absent ↦ absurd (ground arith)
    ]

read_head-stored :
    (task_id : String) (h : Head) (w : Writer)
    → lookup task_id w.heads.files ≡ some (some h)
    → read_head task_id w ≡ ok h
unfolding read_head
read_head-stored task_id h w found = rw (found, read_head)

cut_tail-IsFileOf :
    (c : Hashing) (task_id : String) (es : List Event) (f : TraceFile) (h : Head) (w : Writer)
    → lookup task_id w.traces.files ≡ some (some f)
    → parse_events c task_id f.lines ≡ ok es
    → read_head task_id w ≡ ok h
    → (cut_tail task_id f w).0 ≡ none
    → IsFileOf c task_id es (cut_tail task_id f w).1
      × (read_head task_id (cut_tail task_id f w).1 ≡ ok h)
cut_tail-IsFileOf c task_id es f h w found parsed headed fine = elim (Bool-cases f.has_tail) [
  | inr whole ↦
      let step : cut_tail task_id f w ≡ (none, w) = unfold cut_tail in rw (whole, cut_tail) in
      subst
        (λ (o : Option Error × Writer). IsFileOf c task_id es o.1 × (read_head task_id o.1 ≡ ok h))
        (sym step) (record { file = f; there = found; whole = whole; parsed = parsed }, headed)
  | inl torn ↦
      let g = record f { has_tail = false } in
      let v = record w { traces = (Disk.save task_id g w.traces).1 } in
      let step : cut_tail task_id f w ≡ ((Disk.save task_id g w.traces).0, v) =
        unfold cut_tail in rw (torn, cut_tail) in
      subst
        (λ (o : Option Error × Writer). IsFileOf c task_id es o.1 × (read_head task_id o.1 ≡ ok h))
        (sym step)
        (elim (save-cases task_id g w.traces) [
          | inr (_, bad) ↦ absurd (bad (ap (λ (o : Option Error × Writer). o.0) (sym step) ∙ fine))
          | inl saved ↦ (
            record {
              file = g;
              there =
                  ap (lookup task_id) saved ∙ lookup-insert_self task_id (some g) w.traces.files;
              whole = refl;
              parsed = parsed;
            },
            read_head-stored task_id h v (read_head-torn task_id f h w found torn headed),
          )
        ])
]

pub save_head-read_head :
    (task_id : String) (h : Head) (w : Writer)
    → (save_head task_id h w).0 ≡ none
    → read_head task_id (save_head task_id h w).1 ≡ ok h
save_head-read_head task_id h w fine = elim (save-cases task_id h w.heads) [
  | inr (_, bad) ↦ absurd (bad (unfold save_head in fine))
  | inl saved ↦ read_head-stored task_id h (save_head task_id h w).1 (
      unfold save_head in
      ap (lookup task_id) saved ∙ lookup-insert_self task_id (some h) w.heads.files)
]

advance_head-IsHeadOf :
    (c : Hashing) (task_id : String) (es : List Event) (h k : Head) (w : Writer)
    → IsFileOf c task_id es w
    → read_head task_id w ≡ ok h
    → check_prefix h es ≡ none
    → (advance_head task_id h es w).0 ≡ ok k
    → IsFileOf c task_id es (advance_head task_id h es w).1
      × (read_head task_id (advance_head task_id h es w).1 ≡ ok k)
      × IsHeadOf k es
advance_head-IsHeadOf c task_id es h k w f headed passed done' =
    elim (Bool-cases (ltb h.count (length es))) [
      | inr full ↦
          let step : advance_head task_id h es w ≡ (ok h, w) =
            unfold advance_head in rw (full, advance_head) in
          let one : h ≡ k =
            ok_injective (ap (λ (o : Result Head × Writer). o.0) (sym step) ∙ done') in
          subst
            (λ (o : Result Head × Writer).
              IsFileOf c task_id es o.1 × (read_head task_id o.1 ≡ ok k) × IsHeadOf k es)
            (sym step)
            (
              f,
              headed ∙ ap ok one,
              subst (λ (j : Head). IsHeadOf j es) one (check_prefix-IsHeadOf h es passed full),
            )
      | inl behind ↦
          let next : Head = record { count = length es; hash = last_hash "" es } in
          let v = (save_head task_id next w).1 in
          elim (Option-cases (save_head task_id next w).0) [
            | inr (x, bad) ↦
                let stop : (advance_head task_id h es w).0 ≡ err x =
                  unfold advance_head in rw (behind, advance_head) (rw bad) in
                cc
            | inl fine ↦
                let step : advance_head task_id h es w ≡ (ok next, v) =
                  unfold advance_head in rw (behind, advance_head) (rw fine) in
                let one : next ≡ k =
                  ok_injective (ap (λ (o : Result Head × Writer). o.0) (sym step) ∙ done') in
                subst
                  (λ (o : Result Head × Writer).
                    IsFileOf c task_id es o.1 × (read_head task_id o.1 ≡ ok k) × IsHeadOf k es)
                  (sym step)
                  (
                    unfold save_head in
                        record {
                          file = f.file;
                          there = f.there;
                          whole = f.whole;
                          parsed = f.parsed;
                        },
                    save_head-read_head task_id next w fine ∙ ap ok one,
                    subst (λ (j : Head). IsHeadOf j es) one (refl, refl),
                  )
          ]
    ]

pub recover_file-IsFileOf :
    (c : Hashing) (task_id : String) (h k : Head) (f : TraceFile) (w : Writer)
    → lookup task_id w.traces.files ≡ some (some f)
    → read_head task_id w ≡ ok h
    → (recover_file c task_id h f w).0 ≡ ok k
    → (es : List Event) × IsFileOf c task_id es (recover_file c task_id h f w).1
      × (read_head task_id (recover_file c task_id h f w).1 ≡ ok k)
      × IsHeadOf k es
recover_file-IsFileOf c task_id h k f w found headed recovered =
    elim (Result-cases (parse_events c task_id f.lines)) [
      | inl (x, bad) ↦
          let stop : (recover_file c task_id h f w).0 ≡ err x =
            unfold recover_file in rw (bad, recover_file) in
          cc
      | inr (es, parsed) ↦ elim (Option-cases (check_prefix h es)) [
        | inr (x, bad) ↦
            let stop : (recover_file c task_id h f w).0 ≡ err x =
              unfold recover_file in rw (parsed, recover_file) (rw bad) in
            cc
        | inl passed ↦ elim (Option-cases (cut_tail task_id f w).0) [
          | inr (x, bad) ↦
              let stop : (recover_file c task_id h f w).0 ≡ err x =
                unfold recover_file in rw (parsed, recover_file) (rw passed (rw bad)) in
              cc
          | inl cut ↦
              let v = (cut_tail task_id f w).1 in
              let step : recover_file c task_id h f w ≡ advance_head task_id h es v =
                unfold recover_file in rw (parsed, recover_file) (rw passed (rw cut)) in
              let (whole, kept) = cut_tail-IsFileOf c task_id es f h w found parsed headed cut in
              let (file, read_back, right) =
                advance_head-IsHeadOf c task_id es h k v whole kept passed
                  (ap (λ (o : Result Head × Writer). o.0) (sym step) ∙ recovered) in
              subst
                (λ (o : Result Head × Writer).
                  (fs : List Event) × IsFileOf c task_id fs o.1
                  × (read_head task_id o.1 ≡ ok k)
                  × IsHeadOf k fs)
                (sym step) (es, file, read_back, right)
        ]
      ]
    ]

-- A recovery of a task's trace that returns a head, where its ID is valid and its event file is
-- there and can be read, leaves a trace that `VerifyIntegrity` accepts.
pub recover_locked-verify_integrity :
    (c : Hashing) (task_id : String) (k : Head) (f : TraceFile) (w : Writer)
    → is_valid_id task_id ≡ true
    → lookup task_id w.traces.files ≡ some (some f)
    → (recover_locked c task_id w).0 ≡ ok k
    → verify_integrity c task_id (recover_locked c task_id w).1 ≡ ok tt
recover_locked-verify_integrity c task_id k f w valid found recovered =
    elim (Result-cases (read_head task_id w)) [
      | inl (x, bad) ↦
          let stop : (recover_locked c task_id w).0 ≡ err x =
            unfold recover_locked in rw (bad, recover_locked) in
          cc
      | inr (h, headed) ↦
          let step : recover_locked c task_id w ≡ recover_file c task_id h f w =
            unfold recover_locked in rw (headed, recover_locked) (rw found) in
          let (es, file, read_back, right) =
            recover_file-IsFileOf c task_id h k f w found headed
              (ap (λ (o : Result Head × Writer). o.0) (sym step) ∙ recovered) in
          subst (λ (o : Result Head × Writer). verify_integrity c task_id o.1 ≡ ok tt) (sym step)
            (verify_integrity-ok c task_id es k _ valid file read_back right)
    ]
