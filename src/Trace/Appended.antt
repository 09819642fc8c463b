-- ===== src/Trace/Appended.antt =====
-- internal/trace/trace.go: the verification of a trace after `Append`.
use safeops_agent.Prelude.{
  ◌<◌, Bool-cases, Error, List, Option, Option-cases, Result, Result-cases, String, [], ap, arith,
  err, inl, inr, is_valid_id, length-append, ok, refl, some, subst, sym, true, ◌++◌, ◌+◌, ◌∙◌, ◌∷◌,
  ◌≡◌,
}
use safeops_agent.Trace.Append.{
  Entry, append, append_event, append_line, append_locked, commit_event, entry_event,
  recover_locked, save_head, start_head,
}
use safeops_agent.Trace.Chain.{
  Event, Hashing, Head, Writer, max_line, canonical_event, chain_hash, verify_integrity,
}
use safeops_agent.Trace.Continued.{
  Continues, Holds, Holds-traces, IsFileOf-traces, append_line-IsFileOf, last_hash-append,
  recover_locked-Holds, start_head-traces,
}
use safeops_agent.Trace.Restored.{IsHeadOf, save_head-read_head, verify_integrity-ok}

event_injective : {a b : Event} → ok a ≡ ok b → a ≡ b
event_injective h = cc

commit_event-event :
    (c : Hashing) (torn : Option Error) (task_id : String) (e f : Event) (w : Writer)
    → (commit_event c torn task_id e w).0 ≡ ok f
    → e ≡ f
unfolding commit_event
commit_event-event c torn task_id e f w h =
    let v = (append_line c torn task_id e w).1 in
    elim (Option-cases (append_line c torn task_id e w).0) [
      | inr (x, bad) ↦ ground arith
      | inl written' ↦
          elim (Option-cases
            (save_head task_id (record { count = e.sequence; hash = e.event_hash }) v).0) [
              | inr (x, bad) ↦ ground arith
              | inl saved ↦ ground arith
            ]
    ]

commit_event-verify_integrity :
    (c : Hashing) (task_id : String) (torn : Option Error) (es : List Event) (e f : Event)
    (w : Writer)
    → is_valid_id task_id ≡ true
    → Holds c task_id es w
    → Continues c task_id es e
    → (commit_event c torn task_id e w).0 ≡ ok f
    → (verify_integrity c task_id (commit_event c torn task_id e w).1 ≡ ok tt) × (e ≡ f)
commit_event-verify_integrity c task_id torn es e f w valid held goes_on committed =
    let h : Head = record { count = e.sequence; hash = e.event_hash } in
    let v = (append_line c torn task_id e w).1 in
    elim (Option-cases (append_line c torn task_id e w).0) [
      | inr (x, bad) ↦
          let stop : (commit_event c torn task_id e w).0 ≡ err x =
            unfold commit_event in rw (bad, commit_event) in
          cc
      | inl written' ↦ elim (Option-cases (save_head task_id h v).0) [
        | inr (x, bad) ↦
            let stop : (commit_event c torn task_id e w).0 ≡ err x =
              unfold commit_event in rw (written', commit_event) (rw bad) in
            cc
        | inl saved ↦
            let step : commit_event c torn task_id e w ≡ (ok e, (save_head task_id h v).1) =
              unfold commit_event in rw (written', commit_event) (rw saved) in
            let file = append_line-IsFileOf c task_id torn es e w held goes_on written' in
            let kept =
              IsFileOf-traces c task_id (es ++ e ∷ []) v (save_head task_id h v).1
                (unfold save_head in refl) file in
            let size = length-append es (e ∷ []) in
            let checked =
              verify_integrity-ok c task_id (es ++ e ∷ []) h _ valid kept
                (save_head-read_head task_id h v saved)
                (goes_on.numbered ∙ sym size, sym (last_hash-append "" es e)) in
            (
              subst (λ (o : Result Event × Writer). verify_integrity c task_id o.1 ≡ ok tt)
                  (sym step) checked,
              event_injective (ap (λ (o : Result Event × Writer). o.0) (sym step) ∙ committed),
            )
      ]
    ]

append_event-verify_integrity :
    (c : Hashing) (a : Entry) (task_id : String) (es : List Event) (h : Head) (f : Event)
    (w : Writer)
    → is_valid_id task_id ≡ true
    → Holds c task_id es w
    → IsHeadOf h es
    → c.line_size f < max_line
    → (append_event c a task_id h w).0 ≡ ok f
    → verify_integrity c task_id (append_event c a task_id h w).1 ≡ ok tt
append_event-verify_integrity c a task_id es h f w valid held (size, last) short appended =
    elim (Result-cases (a.payload (h.count + 1))) [
      | inl (x, bad) ↦
          let stop : (append_event c a task_id h w).0 ≡ err x =
            unfold append_event in rw (bad, append_event) in
          cc
      | inr (data', made) ↦
          let e = entry_event a task_id h data' in
          elim (Result-cases (chain_hash c h.hash (canonical_event e))) [
            | inl (x, bad) ↦
                let stop : (append_event c a task_id h w).0 ≡ err x =
                  unfold append_event in rw (made, append_event) (rw bad) in
                cc
            | inr (hash, hashed') ↦
                let g : Event = record e { event_hash = hash } in
                let step : append_event c a task_id h w ≡ commit_event c a.torn task_id g w =
                  unfold append_event in rw (made, append_event) (rw hashed') in
                let committed = ap (λ (o : Result Event × Writer). o.0) (sym step) ∙ appended in
                let same = commit_event-event c a.torn task_id g f w committed in
                let goes_on : Continues c task_id es g = record {
                  fits = subst (λ (x : Event). c.line_size x < max_line) (sym same) short;
                  numbered = ap (λ n. n + 1) size;
                  owned = refl;
                  follows = last;
                  hashed = unfold canonical_event in hashed';
                } in
                subst (λ (o : Result Event × Writer). verify_integrity c task_id o.1 ≡ ok tt)
                  (sym step)
                  (commit_event-verify_integrity c task_id a.torn es g f w valid held goes_on
                    committed).0
          ]
    ]

append_locked-verify_integrity :
    (c : Hashing) (a : Entry) (task_id : String) (f : Event) (w : Writer)
    → is_valid_id task_id ≡ true
    → c.line_size f < max_line
    → (append_locked c a task_id w).0 ≡ ok f
    → verify_integrity c task_id (append_locked c a task_id w).1 ≡ ok tt
append_locked-verify_integrity c a task_id f w valid short appended =
    let v = (recover_locked c task_id w).1 in
    let u = (start_head task_id v).1 in
    elim (Result-cases (recover_locked c task_id w).0) [
      | inl (x, bad) ↦
          let stop : (append_locked c a task_id w).0 ≡ err x =
            unfold append_locked in rw (bad, append_locked) in
          cc
      | inr (h, recovered) ↦ elim (Option-cases (start_head task_id v).0) [
        | inr (x, bad) ↦
            let stop : (append_locked c a task_id w).0 ≡ err x =
              unfold append_locked in rw (recovered, append_locked) (rw bad) in
            cc
        | inl started ↦
            let step : append_locked c a task_id w ≡ append_event c a task_id h u =
              unfold append_locked in rw (recovered, append_locked) (rw started) in
            let (es, held, right) = recover_locked-Holds c task_id h w recovered in
            let kept = Holds-traces c task_id es v u (start_head-traces task_id v) held in
            subst (λ (o : Result Event × Writer). verify_integrity c task_id o.1 ≡ ok tt) (sym step)
              (append_event-verify_integrity c a task_id es h f u valid kept right short
                (ap (λ (o : Result Event × Writer). o.0) (sym step) ∙ appended))
      ]
    ]

-- An `Append` that returns an event whose line is shorter than 4 MiB leaves a trace that
-- `VerifyIntegrity` accepts, whatever the directory held before.
pub append-verify_integrity :
    (c : Hashing) (ctx : Option Error) (a : Entry) (task_id : String) (f : Event) (w : Writer)
    → c.line_size f < max_line
    → (append c ctx a task_id w).0 ≡ ok f
    → verify_integrity c task_id (append c ctx a task_id w).1 ≡ ok tt
unfolding append
append-verify_integrity c (some x) a task_id f w short appended = cc
append-verify_integrity c Option.none a task_id f w short appended =
    elim (Bool-cases (is_valid_id task_id)) [
      | inr bad ↦ ground arith
      | inl valid ↦
          let step : append c Option.none a task_id w ≡ append_locked c a task_id w =
            unfold append in rw (valid, append) in
          subst (λ (o : Result Event × Writer). verify_integrity c task_id o.1 ≡ ok tt) (sym step)
            (append_locked-verify_integrity c a task_id f w valid short
              (ap (λ (o : Result Event × Writer). o.0) (sym step) ∙ appended))
    ]
