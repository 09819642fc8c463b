-- ===== src/Trace/Extension.antt =====
-- internal/trace/trace.go: what `parseEvents` says of a file of events and of the same file with one
-- more line, and of its beginning.
use safeops_agent.Prelude.{
  err, Result, ltb, Bool-cases, Error, ◌<◌, ◌↔◌, ==-refl, eq→==, ℕ, suc, ◌+◌, String, List, [], ◌∷◌,
  ◌++◌, length, Option, some, ◌≡◌, refl, sym, ap, ◌∙◌, subst, ok, >>=-eq-ok, arith, inl, inr,
  Result-cases, eqb, ==→eq, true,
}
use safeops_agent.Trace.Chain.{
  Event, Hashing, Line, canonical_event, chain_hash, check_event, check_line, max_line, parse_from,
  parse_events, last_hash,
}

no_result : {e : Event} {x : Error} → ◌≡◌ {A = Result Event} (err x) (ok e) → ⊥
no_result h = cc

ok_injective : {a b : List Event} → ok a ≡ ok b → a ≡ b
ok_injective h = cc

-- The file of the events `es`, each after the last one: what a chain of hashes is.
pub data IsChain (c : Hashing) (task_id : String)
    : ℕ → String → List Line → List Event → Type 0 where
  done : {n : ℕ} {previous : String} → IsChain c task_id n previous [] []
  link :
      {n : ℕ} {previous : String} {l : Line} {e : Event} {ls : List Line} {es : List Event}
      → l.size < max_line
      → l.event ≡ some e
      → e.sequence ≡ n
      → e.task_id ≡ task_id
      → e.prev_hash ≡ previous
      → chain_hash c previous (canonical_event e) ≡ ok e.event_hash
      → IsChain c task_id (suc n) e.event_hash ls es
      → IsChain c task_id n previous (l ∷ ls) (e ∷ es)

eqb→eq : (a b : ℕ) → eqb a b ≡ true → a ≡ b
eqb→eq a b h = ground arith

eq→eqb : (a b : ℕ) → a ≡ b → eqb a b ≡ true
eq→eqb a b h = ground arith

module _ (c : Hashing) (task_id : String) where
  -- What a line that passes the checks holds.
  record IsLink (n : ℕ) (previous : String) (l : Option Event) (e : Event) : Type 0 where
    pub decoded : l ≡ some e
    pub numbered : e.sequence ≡ n
    pub owned : e.task_id ≡ task_id
    pub follows : e.prev_hash ≡ previous
    pub hashed : chain_hash c previous (canonical_event e) ≡ ok e.event_hash

  check_event-IsLink :
      (n : ℕ) (previous : String) (l : Option Event) (e : Event)
      → check_event c task_id n previous l ≡ ok e
      → IsLink n previous l e
  unfolding check_event
  check_event-IsLink n previous Option.none e h = cc
  check_event-IsLink n previous (some a) e h =
      elim (Result-cases (chain_hash c previous (canonical_event a))) [
        | inl (x, bad) ↦ ground arith
        | inr (expected, good) ↦
            let same : a ≡ e = ground arith in
            subst (IsLink n previous (some a)) same (record {
              decoded = refl;
              numbered = eqb→eq a.sequence n (ground arith);
              owned = ==→eq a.task_id task_id (ground arith);
              follows = ==→eq a.prev_hash previous (ground arith);
              hashed = good ∙ ap ok (sym (==→eq a.event_hash expected (ground arith)));
            })
      ]

  IsLink-check_event :
      (n : ℕ) (previous : String) (l : Option Event) (e : Event)
      → IsLink n previous l e
      → check_event c task_id n previous l ≡ ok e
  unfolding check_event
  IsLink-check_event n previous l e k = rw k.decoded (
      rw (
        k.hashed,
        eq→eqb e.sequence n k.numbered,
        eq→== e.task_id task_id k.owned,
        eq→== e.prev_hash previous k.follows,
        ==-refl e.event_hash,
      ))

  check_line-ok :
      (n : ℕ) (previous : String) (l : Line) (e : Event)
      → check_line c task_id n previous l ≡ ok e
      → (l.size < max_line) × (check_event c task_id n previous l.event ≡ ok e)
  unfolding check_line
  check_line-ok n previous l e h = elim (Bool-cases (ltb l.size max_line)) [
    | inl short ↦ (ground arith, rw short at h)
    | inr long ↦ absurd (no_result (rw long at h))
  ]

  check_line-check_event :
      (n : ℕ) (previous : String) (l : Line)
      → l.size < max_line
      → check_line c task_id n previous l ≡ check_event c task_id n previous l.event
  unfolding check_line
  check_line-check_event n previous l short =
      let fits : ltb l.size max_line ≡ true = ground arith in rw (fits, check_line) refl

  parse_from-IsChain :
      (n : ℕ) (previous : String) (ls : List Line) (es : List Event)
      → parse_from c task_id n previous ls ≡ ok es
      → IsChain c task_id n previous ls es
  unfolding parse_from
  parse_from-IsChain n previous [] es h =
      subst (IsChain c task_id n previous []) (ok_injective h) done
  parse_from-IsChain n previous (l ∷ ls) es h =
      let (e, checked, rest) = >>=-eq-ok (check_line c task_id n previous l) _ h in
      let (short, fine) = check_line-ok n previous l e checked in
      let (tail, parsed, last) = >>=-eq-ok (parse_from c task_id (suc n) e.event_hash ls) _ rest in
      let k = check_event-IsLink n previous l.event e fine in
      subst (IsChain c task_id n previous (l ∷ ls)) (ok_injective last) (
        link short k.decoded k.numbered k.owned k.follows k.hashed
          (parse_from-IsChain (suc n) e.event_hash ls tail parsed))

  IsChain-parse_from :
      (n : ℕ) (previous : String) (ls : List Line) (es : List Event)
      → IsChain c task_id n previous ls es
      → parse_from c task_id n previous ls ≡ ok es
  unfolding parse_from
  IsChain-parse_from n previous _ _ done = refl
  IsChain-parse_from n previous _ _
        (link {l = l} {e = e} {ls = ls} {es = es} short d a b p h rest) =
      let k : IsLink n previous l.event e = record {
        decoded = d;
        numbered = a;
        owned = b;
        follows = p;
        hashed = h;
      } in
      rw (check_line-check_event n previous l short ∙ IsLink-check_event n previous l.event e k)
        (rw (IsChain-parse_from (suc n) e.event_hash ls es rest))

  snoc :
      (n : ℕ) (previous : String) (ls : List Line) (es : List Event) (l : Line) (e : Event)
      → IsChain c task_id n previous ls es
      → l.size < max_line
      → IsLink (n + length es) (last_hash previous es) l.event e
      → IsChain c task_id n previous (ls ++ l ∷ []) (es ++ e ∷ [])
  unfolding last_hash
  snoc n previous _ _ l e done short k =
      link short k.decoded (k.numbered ∙ omega arith) k.owned k.follows k.hashed done
  snoc n previous _ _ l e (link {e = a} {ls = ls} {es = es} s d i j p h rest) short k =
      link s d i j p h (
        snoc (suc n) a.event_hash ls es l e rest short
          (subst (λ m. IsLink m (last_hash a.event_hash es) l.event e) (omega arith) k))

-- `parseEvents` accepts a file exactly where its lines are a chain: they are shorter than 4 MiB,
-- decode, are numbered from 1
-- without a gap, belong to the task, and each holds the hash of the one before and its own hash over
-- that and its content. It then returns the events of the lines.
pub parse_events-IsChain :
    (c : Hashing) (task_id : String) (ls : List Line) (es : List Event)
    → (parse_events c task_id ls ≡ ok es) ↔ IsChain c task_id 1 "" ls es
unfolding parse_events
parse_events-IsChain c task_id ls es =
    (parse_from-IsChain c task_id 1 "" ls es, IsChain-parse_from c task_id 1 "" ls es)

-- A file that `parseEvents` accepts is accepted with one more line too, which is then the last event,
-- where this line is shorter than 4 MiB and an event with the next number, of this task, with the hash of the last event
-- before it and with the hash that the chain gives to its content.
pub parse_events-append :
    (c : Hashing) (task_id : String) (ls : List Line) (es : List Event) (e : Event) (size : ℕ)
    → size < max_line
    → parse_events c task_id ls ≡ ok es
    → e.sequence ≡ length es + 1
    → e.task_id ≡ task_id
    → e.prev_hash ≡ last_hash "" es
    → chain_hash c e.prev_hash (canonical_event e) ≡ ok e.event_hash
    → parse_events c task_id (ls ++ record { size = size; event = some e } ∷ []) ≡ ok (es ++ e ∷ [])
unfolding parse_events
parse_events-append c task_id ls es e size short parsed numbered owned follows hashed =
    let l : Line = record { size = size; event = some e } in
    IsChain-parse_from c task_id 1 "" (ls ++ l ∷ []) (es ++ e ∷ []) (
      snoc c task_id 1 "" ls es l e (parse_from-IsChain c task_id 1 "" ls es parsed) short (record {
        decoded = refl;
        numbered = numbered ∙ omega arith;
        owned = owned;
        follows = follows;
        hashed = subst (λ p. chain_hash c p (canonical_event e) ≡ ok e.event_hash) follows hashed;
      }))
