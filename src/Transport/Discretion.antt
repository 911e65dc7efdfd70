-- ===== src/Transport/Discretion.antt =====
-- What is printed and logged gives nothing away.
use tcabci_read_go_client.Prelude.{◌≡◌, refl, ◌↔◌, Bool, true, false, Option, none, some, length}
use tcabci_read_go_client.Errors.{GoError}
use tcabci_read_go_client.Transport.{Trip, failed, trip_line, round_trip, log_error}

-- Two trips that fail alike, with the same status and as many bytes, print the same, whatever their
-- URLs, bodies and errors; and the flag does not change the results of a trip.
round_trip-discreet :
    (verbose : Bool) (t u : Trip)
    → t.status ≡ u.status
    → length t.body ≡ length u.body
    → (t.failure ≡ none) ↔ (u.failure ≡ none)
    → ((round_trip verbose t).1 ≡ (round_trip verbose u).1)
      × ((round_trip verbose t).0 ≡ (round_trip false t).0)
unfolding round_trip trip_line
round_trip-discreet false t u s n f = (refl, refl)
round_trip-discreet true t u s n f = (rw (s, n, alike t.failure u.failure f) refl, refl)
  where
    alike : (a b : Option GoError) → (a ≡ none) ↔ (b ≡ none) → failed a ≡ failed b
    alike none none f = refl
    alike none (some y) f = let e : some y ≡ none = f.0 refl in cc
    alike (some x) none f = let e : some x ≡ none = f.1 refl in cc
    alike (some x) (some y) f = unfold failed in refl

-- A logger hears the same of every error.
pub log_error_same :
    {Logger : Type 0} (lgr : Option Logger) (e d : GoError) → log_error lgr e ≡ log_error lgr d
unfolding log_error
log_error_same none e d = refl
log_error_same (some x) e d = refl
