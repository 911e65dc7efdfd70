-- ===== src/Locks/Reachable.antt =====
-- The discipline in the states that are reached.
use tcabci_read_go_client.Prelude.{ℕ, ◌≡◌, sym, subst, List, [], ◌∷◌, ◌++◌, All, All-append}
use tcabci_read_go_client.Locks.{Instr, Thread}
use tcabci_read_go_client.Locks.Programs.{user, session, reads_from, callback, Call, Heard, Round}
use tcabci_read_go_client.Locks.Steps.{
  advance, Starts, new_session, new_reader, dispatched, given_up, on_locks, on_unlocks, on_rlocks,
  on_runlocks, on_joins, on_closes, on_gets, on_puts, on_cancels, on_return, on_work, moves, Step,
  enters, goes, Reach, here, next,
}
use tcabci_read_go_client.Locks.Among.{All-split}
use tcabci_read_go_client.Locks.Discipline.{Disciplined, advance-Disciplined}
use tcabci_read_go_client.Locks.Balance.{
  session-Disciplined, reads_from-Disciplined, user-Disciplined, callback-Disciplined,
}

-- What every goroutine has at its start, and keeps in its steps, all have in a state that is reached.
module _ (P : Thread → Type 0) (at_user : (c : Call) → P (user c))
    (at_session : (n : ℕ) (rounds : List Round) → P (session n rounds))
    (at_reader : (n : ℕ) (messages : List Heard) → P (reads_from n messages))
    (at_callback : (calls : List Call) → P (callback calls))
    (keeps : (t : Thread) (i : Instr) (rest : List Instr)
      → t.todo ≡ i ∷ rest
      → P t
      → P (advance t i rest)) where
  starts-All : {s : List Thread} {i : Instr} {new : List Thread} → Starts s i new → All P new
  starts-All (new_session n rounds) = (at_session n rounds, tt)
  starts-All (new_reader n messages) = (at_reader n messages, tt)
  starts-All (dispatched n calls free) = (at_callback calls, tt)
  starts-All (given_up n over) = tt
  starts-All (on_locks r) = tt
  starts-All (on_unlocks r) = tt
  starts-All (on_rlocks r) = tt
  starts-All (on_runlocks r) = tt
  starts-All (on_joins r) = tt
  starts-All (on_closes r) = tt
  starts-All (on_cancels n) = tt
  starts-All on_return = tt
  starts-All (on_gets r) = tt
  starts-All (on_puts r) = tt
  starts-All on_work = tt

  step-All : {s t : List Thread} → Step s t → All P s → All P t
  step-All {s} (enters c e) a =
      subst (All P) (sym e) (All-append P s (user c ∷ []) a (at_user c, tt))
  step-All (goes (moves xs ys new x i rest e f can starts after)) a =
      let (before, later) = All-split P xs (x ∷ ys) (subst (All P) e a) in
      subst (All P) (sym after) (
        All-append P xs (advance x i rest ∷ (ys ++ new)) before
          (keeps x i rest f later.0, All-append P ys new later.1 (starts-All starts)))

  pub reach-All : {s : List Thread} → Reach s → All P s
  reach-All here = tt
  reach-All (next r st) = step-All st (reach-All r)

pub reach-Disciplined : {s : List Thread} → Reach s → All Disciplined s
reach-Disciplined =
    reach-All Disciplined user-Disciplined session-Disciplined reads_from-Disciplined
      callback-Disciplined advance-Disciplined
