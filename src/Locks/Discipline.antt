-- ===== src/Locks/Discipline.antt =====
-- The discipline of the goroutines: resources are taken in the order of their ranks, a callback's slot
-- and the end of a connection's reader are waited for without a lock, whoever waits for a session's end
-- has cancelled it, and the state that a lock guards is read and written under it.
use tcabci_read_go_client.Prelude.{
  ℕ, ◌≡◌, refl, sym, ap, ◌∙◌, subst, ◌⊎◌, inl, inr, Bool, true, false, not, ◌&&◌, ◌||◌, Option,
  none, some, List, [], ◌∷◌, ◌++◌, ltb, leb, ◌==◌, if◌then◌else◌, Bool-cases, all, any,
}
use tcabci_read_go_client.Locks.{
  session_done, gets, puts, holds, Resource, rank, index, Hold, resource_of, holds_exclusive,
  holds_shared, Instr, locks, unlocks, rlocks, runlocks, joins, closes, starts_session,
  starts_reader, cancels, takes_slot, returns_slot, works, Account, Thread, effect,
}
use tcabci_read_go_client.Locks.Steps.{advance, done}

abbrev pub above : Resource → Hold → Bool
above r h = ltb (rank (resource_of h)) (rank r)

-- Held by a session's goroutine or its reader.
abbrev pub belongs : ℕ → Hold → Bool
belongs n h = (rank (resource_of h) == 1 || rank (resource_of h) == 2) && index (resource_of h) == n

abbrev pub is_mutex : Resource → Bool
is_mutex r = rank r == 0 || leb 3 (rank r)

unfoldable pub may_join : Bool → Account → Resource → Bool
may_join slot a r =
    if rank r == 1
    then any (λ m. m == index r) a.cancelled
    else rank r == 2 && (not slot && all (belongs (index r)) a.held)

unfoldable pub allowed : Bool → Account → Instr → Bool
unfolding may_join
allowed slot a (locks r) = is_mutex r && all (above r) a.held
allowed slot a (rlocks r) = is_mutex r && all (above r) a.held
allowed slot a (unlocks r) = any (holds_exclusive r) a.held
allowed slot a (closes r) = any (holds_exclusive r) a.held
allowed slot a (runlocks r) = any (holds_shared r) a.held
allowed slot a (joins r) = all (above r) a.held && may_join slot a r
allowed slot a (starts_reader n) = any (holds (session_done n)) a.held
allowed slot a (takes_slot n) = not slot && all (belongs n) a.held
allowed slot a (gets r) = any (holds r) a.held
allowed slot a (puts r) = any (holds_exclusive r) a.held
allowed slot a _ = true

-- The account after a list of steps, each of them allowed.
unfoldable pub follow : Bool → List Instr → Account → Option Account
unfolding allowed effect
follow slot [] a = some a
follow slot (i ∷ rest) a =
    let later = follow slot rest (effect i a) in if allowed slot a i then later else none

-- All steps that a goroutine has before it are allowed, and in the end it holds nothing.
abbrev pub Disciplined : Thread → Type 0
Disciplined t =
    (m : List ℕ) × (follow t.slot t.todo t.account ≡ some (record { held = []; cancelled = m }))

if_some :
    {A : Type 0} {x : Option A} {b : A} (c : Bool)
    → (if c then x else none) ≡ some b
    → (c ≡ true) × (x ≡ some b)
if_some true h = (refl, h)
if_some false h = cc

pub follow-cons :
    (slot : Bool) (i : Instr) (rest : List Instr) (a b : Account)
    → follow slot (i ∷ rest) a ≡ some b
    → (allowed slot a i ≡ true) × (follow slot rest (effect i a) ≡ some b)
unfolding follow
follow-cons slot i rest a b h = if_some (allowed slot a i) h

-- The next step of a goroutine is allowed.
pub Disciplined-allowed :
    (t : Thread) {i : Instr} {rest : List Instr}
    → t.todo ≡ i ∷ rest
    → Disciplined t
    → allowed t.slot t.account i ≡ true
Disciplined-allowed t {i} {rest} e (m, d) =
    (follow-cons t.slot i rest t.account _ (ap (λ p. follow t.slot p t.account) (sym e) ∙ d)).0

pub follow-append :
    (slot : Bool) (p q : List Instr) (a b : Account)
    → follow slot p a ≡ some b
    → follow slot (p ++ q) a ≡ follow slot q b
unfolding follow
follow-append slot [] q a b h = let e : a ≡ b = cc in ap (follow slot q) e
follow-append slot (i ∷ p) q a b h =
    let r = if_some (allowed slot a i) h in rw r.0 (follow-append slot p q (effect i a) b r.1)

-- A step is done, or it is a call of `Lock` that announces itself.
pub advance_cases :
    (t : Thread) (i : Instr) (rest : List Instr)
    → (advance t i rest ≡ done t i rest)
      ⊎ ((r : Resource) × (i ≡ locks r)
          × (t.announced ≡ false)
          × (advance t i rest ≡ record t { announced = true }))
unfolding advance
advance_cases t (locks r) rest = elim (Bool-cases t.announced) [
  | inl e ↦ inl (rw e refl)
  | inr e ↦ inr (r, refl, e, rw e refl)
]
advance_cases t (unlocks r) rest = inl refl
advance_cases t (rlocks r) rest = inl refl
advance_cases t (runlocks r) rest = inl refl
advance_cases t (joins r) rest = inl refl
advance_cases t (closes r) rest = inl refl
advance_cases t (gets r) rest = inl refl
advance_cases t (puts r) rest = inl refl
advance_cases t (starts_session n) rest = inl refl
advance_cases t (starts_reader n) rest = inl refl
advance_cases t (cancels n) rest = inl refl
advance_cases t (takes_slot n) rest = inl refl
advance_cases t returns_slot rest = inl refl
advance_cases t works rest = inl refl

-- A goroutine keeps the discipline from step to step.
pub advance-Disciplined :
    (t : Thread) (i : Instr) (rest : List Instr)
    → t.todo ≡ i ∷ rest
    → Disciplined t
    → Disciplined (advance t i rest)
unfolding done
advance-Disciplined t i rest e (m, d) = elim (advance_cases t i rest) [
  | inl q ↦ subst Disciplined (sym q) (
    m,
    (follow-cons t.slot i rest t.account _ (ap (λ p. follow t.slot p t.account) (sym e) ∙ d)).1,
  )
  | inr (r, q, a, h) ↦ subst Disciplined (sym h) (m, d)
]
