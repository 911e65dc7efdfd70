-- ===== src/Callbacks.antt =====
-- The callbacks of websocket.go and client.go: their registration, `dispatch` with its sixteen slots,
-- and the loops that hand one event to every callback.
pub mod Slots
pub mod Order
mod Tests
use tcabci_read_go_client.Prelude.{
  ℤ, ℕ, zero, suc, ◌+◌, ◌-◌, ◌*◌, ◌/◌, ◌%◌, ◌^◌, ◌≤◌, ◌<◌, min, String, ◌≡◌, refl, sym, ap, ◌∙◌,
  subst, ◌≢◌, ◌↔◌, ◌⊎◌, inl, inr, Bool, true, false, not, ◌&&◌, ◌||◌, Option, none, some, List, [],
  ◌∷◌, ◌++◌, map, arith, ltb, leb, ◌==◌, if◌then◌else◌, ltb→lt, lt→ltb, ltb→le, leb→le, ==_iff,
  Bool-cases, Option-cases, get_or, &&_true, length, length-append, take, drop, all, any, All,
  All-append, all-append, any-append, Str, codes, str_eq, str_eq_refl, str_eq→eq, str_eq_iff,
  str_le, StrMap, str_mem, StrNodup, keys, lookup, put, lookup-put, str_mem-keys-put, length-put,
  put-StrNodup, all-str_mem, all_of_str_mem,
}
use tcabci_read_go_client.Client.{Client}

-- A nil function is not registered.
pub add_listen_callback : Option ℕ → Client → Client
add_listen_callback none c = c
add_listen_callback (some f) c = record c { listen_callbacks = c.listen_callbacks ++ f ∷ [] }

pub set_listen_callback : Option ℕ → Client → Client
set_listen_callback none c = record c { listen_callbacks = [] }
set_listen_callback (some f) c = record c { listen_callbacks = f ∷ [] }

pub add_retrieve_callback : Option ℕ → Client → Client
add_retrieve_callback none c = c
add_retrieve_callback (some f) c = record c { retrieve_callbacks = c.retrieve_callbacks ++ f ∷ [] }

pub add_error_callback : Option ℕ → Client → Client
add_error_callback none c = c
add_error_callback (some f) c = record c { error_callbacks = c.error_callbacks ++ f ∷ [] }

-- `make(chan struct{}, 16)`.
abbrev pub slot_capacity : ℕ
slot_capacity = 16

-- The slots in use, the callbacks that run, and the callers that are inside one of the loops
-- `callListenCallbacks`, `callErrorCallbacks` and `callRetrievers`: each with the callbacks that it
-- has started and those that it has still to start. `over` is the end of the context that `dispatch`
-- looks at.
pub record Caller : Type 0 where
  pub started : List ℕ
  pub pending : List ℕ

pub record Board : Type 0 where
  pub over : Bool
  pub slots : ℕ
  pub running : List ℕ
  pub callers : List Caller

-- `dispatch`: it takes a slot, if one is free, and starts the callback.
pub dispatch : ℕ → Board → Option Board
dispatch f b =
    if ltb b.slots slot_capacity
    then some (record b { slots = b.slots + 1; running = f ∷ b.running })
    else none

pub data Step (b : Board) (d : Board) : Type 0 where
  calls :
      (fs : List ℕ)
      → d ≡ record b { callers = record { started = []; pending = fs } ∷ b.callers }
      → Step b d
  dispatches :
      (xs ys : List Caller) (done fs : List ℕ) (f : ℕ) (m : Board)
      → b.callers ≡ xs ++ record { started = done; pending = f ∷ fs } ∷ ys
      → dispatch f b ≡ some m
      → d ≡ record m { callers = xs ++ record { started = done ++ f ∷ []; pending = fs } ∷ ys }
      → Step b d
  abandons :
      (xs ys : List Caller) (c : Caller)
      → b.over ≡ true
      → b.callers ≡ xs ++ c ∷ ys
      → d ≡ record b { callers = xs ++ ys }
      → Step b d
  returns :
      (xs ys : List ℕ) (f : ℕ)
      → b.running ≡ xs ++ f ∷ ys
      → d ≡ record b { slots = b.slots - 1; running = xs ++ ys }
      → Step b d
  ends : d ≡ record b { over = true } → Step b d

pub data Reach (b : Board) : Board → Type 0 where
  here : Reach b b
  next : {c d : Board} → Reach b c → Step c d → Reach b d

pub start_board : Board
start_board = record { over = false; slots = 0; running = []; callers = [] }

-- One of the three loops: each callback in turn is dispatched, or the context's end is met first, and
-- then the loop returns. The list of answers is the environment's.
pub call_callbacks : List ℕ → List Bool → List ℕ
call_callbacks [] answers = []
call_callbacks (f ∷ fs) [] = []
call_callbacks (f ∷ fs) (false ∷ answers) = []
call_callbacks (f ∷ fs) (true ∷ answers) = f ∷ call_callbacks fs answers
