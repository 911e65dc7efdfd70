-- ===== src/Locks/Attending.antt =====
-- What the goroutine of a session and the one that reads its connection hold, step by step.
use tcabci_read_go_client.Prelude.{
  ℕ, ◌≡◌, sym, ap, ◌∙◌, subst, ◌⊎◌, inl, inr, Bool, true, false, ◌&&◌, List, [], ◌∷◌, arith,
  if◌then◌else◌, Bool-cases, any, All,
}
use tcabci_read_go_client.Locks.{
  Resource, lifecycle, http_mu, mut, fingerprints_mu, session_done, read_done, rank, index, same,
  Hold, holds, release, effect, Instr, locks, unlocks, rlocks, runlocks, joins, closes, gets, puts,
  starts_session, starts_reader, cancels, takes_slot, returns_slot, works, Account, Thread,
}
use tcabci_read_go_client.Locks.Programs.{session, reads_from, callback}
use tcabci_read_go_client.Locks.Steps.{
  is_held, free, advance, done, Starts, new_session, new_reader, dispatched, given_up, on_locks,
  on_unlocks, on_rlocks, on_runlocks, on_joins, on_closes, on_gets, on_puts, on_cancels, on_return,
  on_work, Reach,
}
use tcabci_read_go_client.Locks.Discipline.{allowed, advance_cases}
use tcabci_read_go_client.Locks.Owing.{
  joins_end, gives_up, owes, reader_of, owed, joins_readers, user-joins_readers,
  session-joins_readers, reads_from-joins_readers, callback-joins_readers,
}
use tcabci_read_go_client.Locks.Reachable.{reach-All}

any-release_back :
    (p test : Hold → Bool) (held : List Hold) → any p (release test held) ≡ true → any p held ≡ true
unfolding release
any-release_back p test [] h = h
any-release_back p test (x ∷ held) h = elim (Bool-cases (test x)) [
  | inl e ↦
      let k : any p held ≡ true =
        subst (λ b. any p (if b then held else x ∷ release test held) ≡ true) e h in
      ground (arith, k)
  | inr e ↦
      let k : any p (x ∷ release test held) ≡ true =
        subst (λ b. any p (if b then held else x ∷ release test held) ≡ true) e h in
      let r = any-release_back p test held in ground (arith, k, r)
]

any-release :
    (p test : Hold → Bool) (held : List Hold)
    → ((x : Hold) → test x ≡ true → p x ≡ false)
    → any p held ≡ true
    → any p (release test held) ≡ true
unfolding release
any-release p test [] i h = h
any-release p test (x ∷ held) i h = elim (Bool-cases (test x)) [
  | inl e ↦ let f = i x e in rw e (ground (arith, f, h))
  | inr e ↦ let k = any-release p test held i in rw e (ground (arith, h, k))
]

-- No step takes the channel of a reader.
takes_no_reader :
    (slot : Bool) (a : Account) (n : ℕ) (i : Instr)
    → allowed slot a i ≡ true
    → any (holds (read_done n)) (effect i a).held ≡ true
    → any (holds (read_done n)) a.held ≡ true
unfolding allowed effect same rank index
takes_no_reader slot a n (unlocks q) l h = any-release_back _ _ a.held h
takes_no_reader slot a n (closes q) l h = any-release_back _ _ a.held h
takes_no_reader slot a n (runlocks q) l h = any-release_back _ _ a.held h
takes_no_reader slot a n (locks q) l h = ground (arith, l, h)
takes_no_reader slot a n (rlocks q) l h = ground (arith, l, h)
takes_no_reader slot a n (joins q) l h = h
takes_no_reader slot a n (gets q) l h = h
takes_no_reader slot a n (puts q) l h = h
takes_no_reader slot a n (starts_session m) l h = h
takes_no_reader slot a n (starts_reader m) l h = h
takes_no_reader slot a n (cancels m) l h = h
takes_no_reader slot a n (takes_slot m) l h = h
takes_no_reader slot a n returns_slot l h = h
takes_no_reader slot a n works l h = h

keeps_session :
    (a : Account) (n : ℕ) (i : Instr)
    → gives_up n i ≡ false
    → any (holds (session_done n)) a.held ≡ true
    → any (holds (session_done n)) (effect i a).held ≡ true
unfolding effect gives_up same
keeps_session a n (unlocks q) g h = any-release _ _ a.held (λ x e. ground (arith, g, e)) h
keeps_session a n (closes q) g h = any-release _ _ a.held (λ x e. ground (arith, g, e)) h
keeps_session a n (runlocks q) g h = any-release _ _ a.held (λ x e. ground (arith, g, e)) h
keeps_session a n (locks q) g h = ground (arith, h)
keeps_session a n (rlocks q) g h = ground (arith, h)
keeps_session a n (joins q) g h = h
keeps_session a n (gets q) g h = h
keeps_session a n (puts q) g h = h
keeps_session a n (starts_session m) g h = h
keeps_session a n (starts_reader m) g h = h
keeps_session a n (cancels m) g h = h
keeps_session a n (takes_slot m) g h = h
keeps_session a n returns_slot g h = h
keeps_session a n works g h = h

same_reader : (q : Resource) (n : ℕ) → same q (read_done n) ≡ true → q ≡ read_done n
unfolding same rank index
same_reader (read_done m) n h = ap read_done (ground (arith, h))
same_reader lifecycle n h = cc
same_reader (session_done m) n h = cc
same_reader http_mu n h = cc
same_reader mut n h = cc
same_reader fingerprints_mu n h = cc

-- Whoever has waited for the reader has seen its end.
reader_ended :
    (s : List Thread) (announced : Bool) (n : ℕ) (i : Instr)
    → joins_end n i ≡ true
    → free s announced i ≡ true
    → is_held s (read_done n) ≡ false
unfolding joins_end free
reader_ended s a n (joins q) j f =
    subst (λ r. is_held s r ≡ false) (same_reader q n j) (ground (arith, f))
reader_ended s a n (unlocks q) j f = cc
reader_ended s a n (closes q) j f = cc
reader_ended s a n (runlocks q) j f = cc
reader_ended s a n (locks q) j f = cc
reader_ended s a n (rlocks q) j f = cc
reader_ended s a n (gets q) j f = cc
reader_ended s a n (puts q) j f = cc
reader_ended s a n (starts_session m) j f = cc
reader_ended s a n (starts_reader m) j f = cc
reader_ended s a n (cancels m) j f = cc
reader_ended s a n (takes_slot m) j f = cc
reader_ended s a n returns_slot j f = cc
reader_ended s a n works j f = cc

-- The session's goroutine is there, and will wait for the reader.
abbrev pub attends : ℕ → Thread → Bool
attends n t = any (holds (session_done n)) t.account.held && owes n t.todo

abbrev pub reads_on : ℕ → Thread → Bool
reads_on n t = any (holds (read_done n)) t.account.held

-- A goroutine that will wait for the reader still will after its step, or the reader has ended.
pub attends_on :
    (s : List Thread) (n : ℕ) (t : Thread) {i : Instr} (rest : List Instr)
    → t.todo ≡ i ∷ rest
    → free s t.announced i ≡ true
    → attends n t ≡ true
    → (attends n (advance t i rest) ≡ true) ⊎ (is_held s (read_done n) ≡ false)
unfolding done owes
attends_on s n t {i} rest e f a = elim (advance_cases t i rest) [
  | inr (r, q, b, h) ↦ inl (rw h (ground (arith, a)))
  | inl q ↦ elim (Bool-cases (joins_end n i)) [
    | inl j ↦ inr (reader_ended s t.announced n i j f)
    | inr j ↦
        let o : owes n (i ∷ rest) ≡ true = ap (owes n) (sym e) ∙ (ground (arith, a)) in
        let k = keeps_session t.account n i (ground (arith, o, j)) (ground (arith, a)) in
        inl (rw q (ground (arith, k, o, j)))
  ]
]

pub reads_on_before :
    (n : ℕ) (t : Thread) (i : Instr) (rest : List Instr)
    → allowed t.slot t.account i ≡ true
    → reads_on n (advance t i rest) ≡ true
    → reads_on n t ≡ true
unfolding done
reads_on_before n t i rest l h = elim (advance_cases t i rest) [
  | inr (r, q, b, k) ↦ ap (reads_on n) (sym k) ∙ h
  | inl q ↦ takes_no_reader t.slot t.account n i l (ap (reads_on n) (sym q) ∙ h)
]

-- A goroutine waits for the end of each reader that it has still to start.
abbrev pub Joins : Thread → Type 0
Joins t = joins_readers t.todo ≡ true

advance-Joins :
    (t : Thread) (i : Instr) (rest : List Instr)
    → t.todo ≡ i ∷ rest
    → Joins t
    → Joins (advance t i rest)
unfolding done joins_readers
advance-Joins t i rest e h = elim (advance_cases t i rest) [
  | inl q ↦
      let k : joins_readers (i ∷ rest) ≡ true = ap joins_readers (sym e) ∙ h in
      rw q (ground (arith, k))
  | inr (r, q, b, k) ↦ rw k h
]

pub reach-Joins : {s : List Thread} → Reach s → All Joins s
reach-Joins =
    reach-All Joins user-joins_readers session-joins_readers reads_from-joins_readers
      callback-joins_readers advance-Joins

-- A reader is started by a goroutine that owns its session and will wait for it.
pub new_reads_on :
    (s : List Thread) (n : ℕ) (t : Thread) {i : Instr} (rest : List Instr) {new : List Thread}
    → allowed t.slot t.account i ≡ true
    → joins_readers (i ∷ rest) ≡ true
    → Starts s i new
    → any (reads_on n) new ≡ true
    → attends n (advance t i rest) ≡ true
unfolding session reads_from callback same rank index allowed joins_readers reader_of owed advance
    done
new_reads_on s n t rest l j (new_session m rounds) h = cc
new_reads_on s n t rest l j (new_reader m messages) h =
    let e : m ≡ n = ground (arith, h) in
    subst (λ k. (any (holds (session_done k)) t.account.held && owes k rest) ≡ true) e
      (ground (arith, l, j))
new_reads_on s n t rest l j (dispatched m calls free) h = cc
new_reads_on s n t rest l j (given_up m over) h = cc
new_reads_on s n t rest l j (on_locks r) h = cc
new_reads_on s n t rest l j (on_unlocks r) h = cc
new_reads_on s n t rest l j (on_rlocks r) h = cc
new_reads_on s n t rest l j (on_runlocks r) h = cc
new_reads_on s n t rest l j (on_joins r) h = cc
new_reads_on s n t rest l j (on_closes r) h = cc
new_reads_on s n t rest l j (on_gets r) h = cc
new_reads_on s n t rest l j (on_puts r) h = cc
new_reads_on s n t rest l j (on_cancels m) h = cc
new_reads_on s n t rest l j on_return h = cc
new_reads_on s n t rest l j on_work h = cc
