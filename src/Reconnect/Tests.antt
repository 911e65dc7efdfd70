-- ===== src/Reconnect/Tests.antt =====
-- The reconnecting loop at concrete rounds.
use tcabci_read_go_client.Prelude.{
  ◌≡◌, refl, Bool, any, true, false, none, some, pos, map, List, [], ◌∷◌, ◌++◌, codes, str_eq,
}
use tcabci_read_go_client.Errors.{GoError, ok, err, external}
use tcabci_read_go_client.Authority.{Signer, Surroundings}
use tcabci_read_go_client.Reconnect.Dialling.{
  Dialling, attempt_of, dialled, InTurn, run_session-InTurn,
}
use tcabci_read_go_client.Reconnect.Handshake.{
  Handshake, closed, start_dial, after_func, context_ends, connects, ends, closes, Reach, here,
  next, Guarded, Reach-Guarded,
}
use tcabci_read_go_client.Reconnect.{Attempt, first_delay, next_delay, connect, run_session}
use tcabci_read_go_client.Reconnect.Backoff.{waited, expected_waits, run_session-waits}
use tcabci_read_go_client.Reconnect.Ending.{
  reported, rounds_of, failures, run_session-reports, ends_loop, run_session-returns,
}

abbrev refused : Attempt
refused = record {
  over_before = false;
  ws_headers = (codes "X-Authority", codes "mine") ∷ (codes "User-Agent", codes "go") ∷ [];
  authority = none;
  dial = err (external (codes "refused"));
  serve = external [];
  over_after = false;
  over_in_wait = false;
}

abbrev closes_well : Attempt
closes_well = record refused { dial = ok tt; serve = external (codes "1000") }

abbrev is_normal : GoError → Bool
is_normal (external s) = str_eq s (codes "1000")
is_normal _ = false

abbrev rounds : List Attempt
rounds = refused ∷ refused ∷ closes_well ∷ []

waits_run : waited (run_session is_normal 100 (rounds ++ refused ∷ [])).0 ≡ 100 ∷ 200 ∷ []
unfolding run_session waited connect next_delay str_eq
waits_run = refl

run_session-waits_example :
    waited (run_session is_normal first_delay rounds).0 ≡ expected_waits is_normal 0 rounds
run_session-waits_example = run_session-waits is_normal rounds

run_session-reports_example :
    reported (run_session is_normal 100 rounds).0 ≡ failures is_normal (rounds_of is_normal rounds)
run_session-reports_example = run_session-reports is_normal 100 rounds

abbrev toy : Signer
toy p = ok (7 ∷ [])

abbrev calm : Surroundings
calm = record {
  has_context = true;
  over_before = false;
  over_after = false;
  random = some (1 ∷ 2 ∷ []);
  now = pos 1700;
}

-- First without a signer, then with one.
abbrev signed_later : List Dialling
signed_later =
    record { calls = []; surroundings = calm; other = refused }
    ∷ record { calls = (codes "node", some toy) ∷ []; surroundings = calm; other = closes_well }
    ∷ []

run_session-InTurn_example :
    InTurn signed_later (dialled (run_session is_normal 100 (map attempt_of signed_later)).0)
run_session-InTurn_example = run_session-InTurn is_normal 100 signed_later

run_session-returns_example :
    (run_session is_normal 100 rounds).1 ≡ any (ends_loop is_normal) rounds
run_session-returns_example = run_session-returns is_normal 100 rounds

-- The session ends during the handshake.
abbrev cut_short : Handshake
cut_short = record {
  over = true;
  watched = false;
  closing = false;
  socket = closed;
  returned = false;
}

cut_short_reached : Reach (start_dial false) cut_short
unfolding start_dial after_func context_ends
cut_short_reached =
    next (next (next here (connects refl refl refl)) (ends refl refl)) (closes refl refl)

Reach-Guarded_example : Guarded cut_short
Reach-Guarded_example = Reach-Guarded false cut_short_reached
