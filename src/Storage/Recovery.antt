-- ===== src/Storage/Recovery.antt =====
-- Crashes between the writes of `PrepareTask` (internal/storage/file.go).
use safeops_agent.Prelude.{
  zero, suc, suc, length, ◌<◌, lookup-insert, take, ◌≤◌, arith, String, erase, ℕ, lookup-erase_self,
  lookup-insert_self, ◌≡◌, refl, true, Option, none, some, ◌==◌, eq→==, [], Dict, lookup, insert,
  is_valid_id,
}
use safeops_agent.Disk
use safeops_agent.Disk.{Disk}
use safeops_agent.Session.{Session}
use safeops_agent.Task.{Task}
use safeops_agent.Storage.FileStore.{
  prepare_steps, run_steps, Preparation, FileStore, preparation_id, load_locked, write_journal,
  write_task, save_session_locked, remove_preparation, write_prepared, recover_preparation,
}

-- A store whose writes all succeed.
abbrev pub calm : Dict (Option Session) → Dict (Option Task) → Dict (Option Preparation) → FileStore
calm a b c = record {
  sessions = record { files = a; faults = [] };
  tasks = record { files = b; faults = [] };
  state = record { files = c; faults = [] };
}

-- The store after a crash that lets only the first `n` writes of `PrepareTask` happen.
unfoldable pub crashed : ℕ → Task → Session → FileStore → FileStore
crashed n t p s = (run_steps (take n (prepare_steps t p)) s).1

-- Both files are there and the journal is not.
pub record IsPrepared (t : Task) (p : Session) (s : FileStore) : Type 0 where
  pub task_there : lookup t.id s.tasks.files ≡ some (some t)
  pub session_there : lookup p.id s.sessions.files ≡ some (some p)
  pub journal_gone : lookup (preparation_id t.id) s.state.files ≡ none

abbrev journal : Task → Session → Preparation
journal t p = record { schema_version = 1; task = t; session = p }

-- The same files under the same names.
pub record IsSameStore (u v : FileStore) : Type 0 where
  pub same_tasks : (k : String) → lookup k u.tasks.files ≡ lookup k v.tasks.files
  pub same_sessions : (k : String) → lookup k u.sessions.files ≡ lookup k v.sessions.files
  pub same_state : (k : String) → lookup k u.state.files ≡ lookup k v.state.files

lookup-insert_twice {ℓ} :
    {V : Type ℓ} (i k : String) (v : V) (m : Dict V)
    → lookup k (insert i v (insert i v m)) ≡ lookup k (insert i v m)
lookup-insert_twice i k v m =
    ground (arith, lookup-insert i k v (insert i v m), lookup-insert i k v m)

-- The store with both files, over the sessions `a`, the tasks `b` and the journals `c`.
abbrev complete :
    Dict (Option Session)
    → Dict (Option Task)
    → Dict (Option Preparation)
    → Task
    → Session
    → FileStore
complete a b c t p =
    calm (insert p.id (some p) a) (insert t.id (some t) b) (erase (preparation_id t.id) c)

complete-IsPrepared :
    (a : Dict (Option Session)) (b : Dict (Option Task)) (c : Dict (Option Preparation)) (t : Task)
    (p : Session)
    → IsPrepared t p (complete a b c t p)
complete-IsPrepared a b c t p = record {
  task_there = lookup-insert_self t.id (some t) b;
  session_there = lookup-insert_self p.id (some p) a;
  journal_gone = lookup-erase_self (preparation_id t.id) c;
}

remove_preparation-calm :
    (a : Dict (Option Session)) (b : Dict (Option Task)) (c : Dict (Option Preparation))
    (id : String) (content : Option Preparation)
    → lookup (preparation_id id) c ≡ some content
    → remove_preparation id (calm a b c) ≡ (none, calm a b (erase (preparation_id id) c))
unfolding remove_preparation Disk.remove lookup insert erase
remove_preparation-calm a b c id content found = rw found refl

write_prepared-complete :
    (a : Dict (Option Session)) (b : Dict (Option Task)) (c : Dict (Option Preparation)) (t : Task)
    (p : Session)
    → write_prepared t p (calm a b c)
      ≡ (none, complete a b (insert (preparation_id t.id) (some (journal t p)) c) t p)
unfolding write_prepared run_steps prepare_steps write_journal write_task save_session_locked
    Disk.save
write_prepared-complete a b c t p =
    let k = preparation_id t.id in
    let c' = insert k (some (journal t p)) c in
    rw
      (remove_preparation-calm (insert p.id (some p) a) (insert t.id (some t) b) c' t.id _
        (lookup-insert_self k (some (journal t p)) c))
      refl

-- The recovery, from any sessions and tasks, where the journal is there.
recover_preparation-complete :
    (a : Dict (Option Session)) (b : Dict (Option Task)) (c : Dict (Option Preparation)) (t : Task)
    (p : Session)
    → is_valid_id t.id ≡ true
    → is_valid_id p.id ≡ true
    → (t.session_id == p.id) ≡ true
    → lookup (preparation_id t.id) c ≡ some (some (journal t p))
    → recover_preparation (preparation_id t.id) (calm a b c) ≡ (none, complete a b c t p)
unfolding recover_preparation load_locked write_task save_session_locked remove_preparation
    Disk.save Disk.remove lookup insert erase
recover_preparation-complete a b c t p vt vp same found =
    rw found (rw (vt, vp, same) (rw found refl))

-- What a recovery from any such sessions and tasks comes to, beside the writes without a crash.
abbrev pub Recovers : FileStore → FileStore → Task → Session → Type 0
Recovers s whole t p =
    ((recover_preparation (preparation_id t.id) s).0 ≡ none)
    × IsPrepared t p (recover_preparation (preparation_id t.id) s).1
    × IsSameStore (recover_preparation (preparation_id t.id) s).1 whole

-- The journal is there, and sessions and tasks whose changes are those of the writes.
recovers :
    (a a' : Dict (Option Session)) (b b' : Dict (Option Task)) (c : Dict (Option Preparation))
    (t : Task) (p : Session)
    → is_valid_id t.id ≡ true
    → is_valid_id p.id ≡ true
    → (t.session_id == p.id) ≡ true
    → ((j : String) → lookup j (insert p.id (some p) a') ≡ lookup j (insert p.id (some p) a))
    → ((j : String) → lookup j (insert t.id (some t) b') ≡ lookup j (insert t.id (some t) b))
    → (let c' = insert (preparation_id t.id) (some (journal t p)) c in
        ((write_prepared t p (calm a b c)).0 ≡ none)
        × Recovers (calm a' b' c') (write_prepared t p (calm a b c)).1 t p)
recovers a a' b b' c t p vt vp bound sessions tasks =
    let k = preparation_id t.id in
    let c' = insert k (some (journal t p)) c in
    let found = lookup-insert_self k (some (journal t p)) c in
    let there : IsSameStore (complete a' b' c' t p) (complete a b c' t p) = record {
      same_tasks = tasks;
      same_sessions = sessions;
      same_state = λ j. refl;
    } in
    rw
      (
        write_prepared-complete a b c t p,
        recover_preparation-complete a' b' c' t p vt vp bound found,
      )
      (refl, (refl, complete-IsPrepared a' b' c' t p, there))

-- A crash of `PrepareTask` after the first of its writes and before the last, whichever these are,
-- leaves a store from which the recovery of the journal's file succeeds. It ends with the task and
-- the session there and the journal gone, and with the same content under every name of the three
-- directories as the writes without a crash, which succeed. This is where the IDs are valid, the task
-- is bound to the session, and no write fails.
pub recover_preparation-crashed :
    (n : ℕ) (a : Dict (Option Session)) (b : Dict (Option Task)) (c : Dict (Option Preparation))
    (t : Task) (p : Session)
    → 1 ≤ n
    → n < length (prepare_steps t p)
    → is_valid_id t.id ≡ true
    → is_valid_id p.id ≡ true
    → t.session_id ≡ p.id
    → ((write_prepared t p (calm a b c)).0 ≡ none)
      × Recovers (crashed n t p (calm a b c)) (write_prepared t p (calm a b c)).1 t p
unfolding crashed run_steps prepare_steps write_journal write_task save_session_locked Disk.save
    take
recover_preparation-crashed zero a b c t p written left vt vp same = absurd (omega arith)
recover_preparation-crashed (suc zero) a b c t p written left vt vp same =
    recovers a a b b c t p vt vp (eq→== t.session_id p.id same) (λ j. refl) (λ j. refl)
recover_preparation-crashed (suc (suc zero)) a b c t p written left vt vp same =
    recovers a a b (insert t.id (some t) b) c t p vt vp (eq→== t.session_id p.id same) (λ j. refl)
      (λ j. lookup-insert_twice t.id j (some t) b)
recover_preparation-crashed (suc (suc (suc zero))) a b c t p written left vt vp same =
    recovers a (insert p.id (some p) a) b (insert t.id (some t) b) c t p vt vp
      (eq→== t.session_id p.id same) (λ j. lookup-insert_twice p.id j (some p) a)
      (λ j. lookup-insert_twice t.id j (some t) b)
recover_preparation-crashed (suc (suc (suc (suc n)))) a b c t p written left vt vp same =
    absurd (omega arith)
