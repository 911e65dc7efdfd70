-- ===== src/Locks.antt =====
-- websocket.go, client.go, certificate.go: the locks, channels and goroutines on which the client's
-- goroutines wait for one another. A goroutine is the list of what it has still to do of that kind;
-- Locks/Programs has the lists, read off the source. The network, timers and user code that does not
-- call the client end by themselves here.
pub mod Programs
pub mod Steps
pub mod Discipline
pub mod Among
pub mod Keeping
pub mod Balance
pub mod Reachable
pub mod Waiting
pub mod Holders
pub mod Deadlock
pub mod Counts
pub mod Exclusion
pub mod Races
pub mod Owing
pub mod Attending
pub mod Joining
mod Tests
use tcabci_read_go_client.Prelude.{
  ℤ, pos, negsuc, ℕ, zero, suc, ◌+◌, ◌-◌, ◌*◌, ◌/◌, ◌%◌, ◌^◌, ◌≤◌, ◌<◌, min, String, ◌≡◌, refl, sym,
  ap, ◌∙◌, subst, ◌≢◌, ◌↔◌, ◌⊎◌, inl, inr, Bool, true, false, not, ◌&&◌, ◌||◌, Option, none, some,
  List, [], ◌∷◌, ◌++◌, map, arith, ltb, leb, ◌==◌, if◌then◌else◌, ltb→lt, lt→ltb, ltb→le, leb→le,
  ==_iff, Bool-cases, Option-cases, get_or, &&_true, length, length-append, take, drop, all, any,
  All, All-append, all-append, any-append, Str, codes, str_eq, str_eq_refl, str_eq→eq, str_eq_iff,
  str_eq_sym, str_eq_nil, str_le, StrMap, str_mem, StrNodup, keys, lookup, put, lookup-put,
  str_mem-keys-put, length-put, put-StrNodup, all-str_mem, all_of_str_mem,
}

-- `c.lifecycle`; `s.done` of a session and `readDone` of its connection, each held, so to speak, by the
-- goroutine that will close it or send on it; `c.httpMu`, `c.mut` and `fingerprintsMu`.
pub data Resource : Type 0 where
  lifecycle : Resource
  session_done : ℕ → Resource
  read_done : ℕ → Resource
  http_mu : Resource
  mut : Resource
  fingerprints_mu : Resource

-- The order in which a goroutine takes them.
unfoldable pub rank : Resource → ℕ
rank lifecycle = 0
rank (session_done n) = 1
rank (read_done n) = 2
rank http_mu = 3
rank mut = 4
rank fingerprints_mu = 5

unfoldable pub index : Resource → ℕ
index (session_done n) = n
index (read_done n) = n
index _ = 0

unfoldable pub same : Resource → Resource → Bool
unfolding rank index
same r s = rank r == rank s && index r == index s

-- A write lock, or a read lock.
pub data Hold : Type 0 where
  exclusive shared : Resource → Hold

abbrev pub resource_of : Hold → Resource
resource_of (exclusive r) = r
resource_of (shared r) = r

abbrev pub is_exclusive : Hold → Bool
is_exclusive (exclusive r) = true
is_exclusive (shared r) = false

abbrev pub holds : Resource → Hold → Bool
holds r h = same (resource_of h) r

abbrev pub holds_exclusive : Resource → Hold → Bool
holds_exclusive r h = is_exclusive h && same (resource_of h) r

abbrev pub holds_shared : Resource → Hold → Bool
holds_shared r h = not (is_exclusive h) && same (resource_of h) r

-- `joins` receives from the channel of a goroutine that ends, `closes` is that goroutine's close or
-- send. `starts_session` and `starts_reader` are `go` statements, `cancels` is the session's `cancel`,
-- and `takes_slot` the `select` of `dispatch`. `gets` and `puts` read and write
-- the state that a lock guards. `works` is whatever waits for no goroutine of the client.
pub data Instr : Type 0 where
  locks unlocks rlocks runlocks joins closes gets puts : Resource → Instr
  starts_session starts_reader cancels takes_slot : ℕ → Instr
  returns_slot works : Instr

-- What a goroutine holds, and the sessions that it has cancelled.
pub record Account : Type 0 where
  pub held : List Hold
  pub cancelled : List ℕ

-- `announced`: a call of `Lock` waits, and keeps new readers out. `slot`: the goroutine of a callback,
-- which has one of the sixteen slots until it ends.
pub record Thread : Type 0 where
  pub account : Account
  pub announced : Bool
  pub slot : Bool
  pub todo : List Instr

-- Without the first hold that a test finds.
unfoldable pub release : (Hold → Bool) → List Hold → List Hold
release test [] = []
release test (h ∷ held) = let rest = release test held in if test h then held else h ∷ rest

unfoldable pub effect : Instr → Account → Account
unfolding release
effect (locks r) a = record a { held = exclusive r ∷ a.held }
effect (rlocks r) a = record a { held = shared r ∷ a.held }
effect (unlocks r) a = record a { held = release (holds_exclusive r) a.held }
effect (closes r) a = record a { held = release (holds_exclusive r) a.held }
effect (runlocks r) a = record a { held = release (holds_shared r) a.held }
effect (cancels n) a = record a { cancelled = n ∷ a.cancelled }
effect (joins r) a = a
effect (starts_session n) a = a
effect (starts_reader n) a = a
effect (takes_slot n) a = a
effect returns_slot a = a
effect (gets r) a = a
effect (puts r) a = a
effect works a = a
