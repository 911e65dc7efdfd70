-- ===== src/Locks/Steps.antt =====
-- The steps of the goroutines, in any order. A lock is taken as package sync documents it: a call of
-- `Lock` that waits keeps new readers out.
use tcabci_read_go_client.Prelude.{
  ℕ, ◌+◌, ◌<◌, ◌≡◌, Bool, true, false, not, ◌&&◌, ◌||◌, List, [], ◌∷◌, ◌++◌, ltb, ◌==◌,
  if◌then◌else◌, any,
}
use tcabci_read_go_client.Locks.{
  gets, puts, Resource, holds, holds_exclusive, Instr, locks, unlocks, rlocks, runlocks, joins,
  closes, starts_session, starts_reader, cancels, takes_slot, returns_slot, works, Thread, effect,
  same,
}
use tcabci_read_go_client.Locks.Programs.{Call, Heard, Round, user, session, reads_from, callback}

abbrev pub slot_capacity : ℕ
slot_capacity = 16

unfoldable pub unfinished : Thread → Bool
unfinished t = elim t.todo [ [] ↦ false | ◌∷◌ i rest ↦ true ]

unfoldable pub count : {A : Type 0} → (A → Bool) → List A → ℕ
count test [] = 0
count test (x ∷ xs) = (if test x then 1 else 0) + count test xs

abbrev pub uses_slot : Thread → Bool
uses_slot t = t.slot && unfinished t

abbrev pub is_cancelled : List Thread → ℕ → Bool
is_cancelled s n = any (λ t. any (λ m. m == n) t.account.cancelled) s

abbrev pub is_held : List Thread → Resource → Bool
is_held s r = any (λ t. any (holds r) t.account.held) s

abbrev pub is_written : List Thread → Resource → Bool
is_written s r = any (λ t. any (holds_exclusive r) t.account.held) s

-- Some call of `Lock` waits for the resource.
unfoldable pub wants : Resource → List Instr → Bool
wants r (locks q ∷ rest) = same q r
wants r _ = false

abbrev pub is_wanted : List Thread → Resource → Bool
is_wanted s r = any (λ t. t.announced && wants r t.todo) s

unfoldable pub free : List Thread → Bool → Instr → Bool
unfolding wants unfinished count
free s announced (locks r) = not announced || not (is_held s r)
free s announced (rlocks r) = not (is_written s r) && not (is_wanted s r)
free s announced (joins r) = not (is_held s r)
free s announced (takes_slot n) = is_cancelled s n || ltb (count uses_slot s) slot_capacity
free s announced _ = true

-- Whether a goroutine is not finished, and need not wait for another.
unfoldable pub can_step : List Thread → Thread → Bool
unfolding free
can_step s t = elim t.todo [ [] ↦ false | ◌∷◌ i rest ↦ free s t.announced i ]

unfoldable pub done : Thread → Instr → List Instr → Thread
unfolding effect
done t i rest = record t { account = effect i t.account; announced = false; todo = rest }

-- A call of `Lock` first announces itself, and then takes the lock.
unfoldable pub advance : Thread → Instr → List Instr → Thread
unfolding done
advance t (locks r) rest =
    if t.announced then done t (locks r) rest else record t { announced = true }
advance t i rest = done t i rest

-- The goroutines that a step starts. A callback is dispatched if there is a slot, and given up if the
-- session is over.
pub data Starts (s : List Thread) : Instr → List Thread → Type 0 where
  new_session : (n : ℕ) (rounds : List Round) → Starts s (starts_session n) (session n rounds ∷ [])
  new_reader :
      (n : ℕ) (messages : List Heard) → Starts s (starts_reader n) (reads_from n messages ∷ [])
  dispatched :
      (n : ℕ) (calls : List Call)
      → count uses_slot s < slot_capacity
      → Starts s (takes_slot n) (callback calls ∷ [])
  given_up : (n : ℕ) → is_cancelled s n ≡ true → Starts s (takes_slot n) []
  on_locks : (r : Resource) → Starts s (locks r) []
  on_unlocks : (r : Resource) → Starts s (unlocks r) []
  on_rlocks : (r : Resource) → Starts s (rlocks r) []
  on_runlocks : (r : Resource) → Starts s (runlocks r) []
  on_joins : (r : Resource) → Starts s (joins r) []
  on_closes : (r : Resource) → Starts s (closes r) []
  on_gets : (r : Resource) → Starts s (gets r) []
  on_puts : (r : Resource) → Starts s (puts r) []
  on_cancels : (n : ℕ) → Starts s (cancels n) []
  on_return : Starts s returns_slot []
  on_work : Starts s works []

-- A goroutine takes its next step, and the goroutines that it starts come last.
pub data Move (s : List Thread) (t : List Thread) : Type 0 where
  moves :
      (xs ys new : List Thread) (x : Thread) (i : Instr) (rest : List Instr)
      → s ≡ xs ++ x ∷ ys
      → x.todo ≡ i ∷ rest
      → can_step s x ≡ true
      → Starts s i new
      → t ≡ xs ++ advance x i rest ∷ (ys ++ new)
      → Move s t

-- A goroutine of the user calls the client, or one of the goroutines goes on.
pub data Step (s : List Thread) (t : List Thread) : Type 0 where
  enters : (c : Call) → t ≡ s ++ user c ∷ [] → Step s t
  goes : Move s t → Step s t

-- From no goroutines at all.
pub data Reach : List Thread → Type 0 where
  here : Reach []
  next : {s t : List Thread} → Reach s → Step s t → Reach t
