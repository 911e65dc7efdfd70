-- ===== src/Incoming/Tests.antt =====
-- Messages of the node, decoded by a toy codec: a text is an envelope of the type that its first byte
-- says, with no id and without a state.
use tcabci_read_go_client.Prelude.{
  ℤ, pos, ◌-◌, ◌≡◌, refl, ◌↔◌, true, Option, none, some, [], ◌∷◌, Str, codes, str_eq,
}
use tcabci_read_go_client.Incoming.{Codec, trim_space, missing, parse_incoming}
use tcabci_read_go_client.Incoming.Effects.{Sound, parse_incoming-Sound}
use tcabci_read_go_client.Incoming.Cancelling.{Rejected, parse_incoming-cancels_iff}

abbrev first_digit : Str → Option ℤ
first_digit [] = none
first_digit (c ∷ rest) = some (pos (c - b'0'))

abbrev toy : Codec
toy = record {
  decode_envelope = λ s. some (record { id = []; type = s; payload = []; state = none });
  decode_int = first_digit;
  decode_block = λ s. none;
  decode_tx = λ s. none;
}

trims : trim_space (codes "  a b ") ≡ codes "a b"
unfolding trim_space
trims = refl

rejects : (parse_incoming toy (codes "3")).cancels ≡ true
unfolding parse_incoming trim_space missing str_eq
rejects = refl

parse_incoming-Sound_example : Sound (parse_incoming toy (codes "1"))
parse_incoming-Sound_example = parse_incoming-Sound toy (codes "1")

parse_incoming-cancels_iff_example :
    ((parse_incoming toy (codes "3")).cancels ≡ true) ↔ Rejected toy (codes "3")
parse_incoming-cancels_iff_example = parse_incoming-cancels_iff toy (codes "3")
