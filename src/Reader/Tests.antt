-- ===== src/Reader/Tests.antt =====
-- A text, a pong, a binary message, and an error; one more text comes too late.
use tcabci_read_go_client.Prelude.{◌≡◌, true, false, none, List, [], ◌∷◌, codes}
use tcabci_read_go_client.Errors.{plain}
use tcabci_read_go_client.Client.{Client, init}
use tcabci_read_go_client.Incoming.{Codec}
use tcabci_read_go_client.Reader.{Arrival, message, pong, broken, Reader, read_loop}
use tcabci_read_go_client.Reader.Hearing.{
  before_fault, first_fault, after_arrivals, read_loop_heard,
}

-- No text is JSON to this codec.
abbrev mute : Codec
mute = record {
  decode_envelope = λ s. none;
  decode_tx = λ s. none;
  decode_block = λ s. none;
  decode_int = λ s. none;
}

abbrev arrivals : List Arrival
arrivals =
    message true (record { bytes = codes "hi"; fault = none })
    ∷ pong 12 none
    ∷ message false (record { bytes = codes "x"; fault = none })
    ∷ broken (plain (codes "closed"))
    ∷ message true (record { bytes = codes "late"; fault = none })
    ∷ []

abbrev fresh : Client → Reader
fresh c = record { read_deadline = 30; deliveries = []; client = c }

read_loop_heard_example :
    read_loop mute arrivals (fresh init)
    ≡ (after_arrivals mute (before_fault arrivals) (fresh init), first_fault arrivals)
read_loop_heard_example = read_loop_heard mute arrivals (fresh init)
