-- ===== src/Certificate/Tests.antt =====
-- Pinning at concrete chains: a certificate is a name, signed by the name that it ends with, and the
-- digest is a stand-in with 32 bytes, the first of them the length.
use tcabci_read_go_client.Prelude.{
  ℕ, zero, suc, ◌+◌, ◌%◌, ◌≡◌, refl, ap, ◌≢◌, ◌↔◌, ◌⊎◌, inl, none, some, [], ◌∷◌, arith, ◌==◌,
  length, Str, codes, str_eq,
}
use tcabci_read_go_client.Errors.{ok, plain}
use tcabci_read_go_client.Hex.{hex_decode, hex_encode, IsBytes}
use tcabci_read_go_client.Certificate.{
  X509, Parsers, decode_pin, get_formatted_fingerprints, verify_peer, select_pin,
}
use tcabci_read_go_client.Certificate.Matching.{Pinned}
use tcabci_read_go_client.Certificate.Chain.{in_force, verify_peer_iff, verify_peer-unrelated}
use tcabci_read_go_client.Certificate.Choice.{Reads, Chosen, select_pin_iff}

abbrev zeros : ℕ → Str
zeros zero = []
zeros (suc n) = 0 ∷ zeros n

length-zeros : (n : ℕ) → length (zeros n) ≡ n
length-zeros zero = refl
length-zeros (suc n) = ap suc (length-zeros n)

abbrev digest : Str → Str
digest s = length s % 256 ∷ zeros 31

-- A child is one byte longer than its issuer.
abbrev certs : X509
certs = record {
  Cert = Str;
  raw = λ c. c;
  signed_by = λ child parent. length child == length parent + 1;
  sha256 = digest;
  length-sha256 = λ s. ap suc (length-zeros 31);
}

abbrev server : Str
server = codes "srv"

abbrev authority : Str
authority = codes "ca"

abbrev stranger : Str
stranger = codes "stranger"

abbrev pin_of_server : Str
pin_of_server = hex_encode (digest server)

abbrev pin_of_authority : Str
pin_of_authority = hex_encode (digest authority)

abbrev parsers : Parsers certs
parsers = record { pem_decode = λ s. none; parse_certificate = λ s. some s }

server_decodes : decode_pin pin_of_server ≡ some (digest server)
unfolding decode_pin hex_decode hex_encode
server_decodes = refl

authority_decodes : decode_pin pin_of_authority ≡ some (digest authority)
unfolding decode_pin hex_decode hex_encode
authority_decodes = refl

zeros-IsBytes : (n : ℕ) → IsBytes (zeros n)
zeros-IsBytes zero = tt
zeros-IsBytes (suc n) = (omega arith, zeros-IsBytes n)

digest-IsBytes : IsBytes (digest server)
digest-IsBytes = (omega arith, zeros-IsBytes 31)

server-Reads : Reads certs parsers server server
server-Reads = record { small = omega arith; der = server; block = inl (refl, refl); cert = refl }

by_pin : verify_peer certs [] (server ∷ authority ∷ stranger ∷ []) (some pin_of_authority) ≡ none
unfolding verify_peer decode_pin hex_decode hex_encode str_eq
by_pin = refl

strangers :
    verify_peer certs [] (server ∷ stranger ∷ []) (some pin_of_authority)
    ≡ some (plain (codes "certificate not verified"))
unfolding verify_peer decode_pin hex_decode hex_encode str_eq
strangers = refl

verify_peer_iff_example :
    (verify_peer certs [] (server ∷ stranger ∷ []) (some pin_of_server) ≡ none) ↔ (
      (some pin_of_server ≡ some [])
      ⊎ ((some pin_of_server ≢ some [])
          × Pinned certs (server ∷ stranger ∷ []) (in_force certs [] (some pin_of_server))))
verify_peer_iff_example = verify_peer_iff certs [] (server ∷ stranger ∷ []) (some pin_of_server)

verify_peer-unrelated_example :
    verify_peer certs [] (server ∷ authority ∷ stranger ∷ server ∷ []) (some pin_of_server)
    ≡ verify_peer certs [] (server ∷ authority ∷ []) (some pin_of_server)
verify_peer-unrelated_example =
    verify_peer-unrelated certs [] (some pin_of_server) (server ∷ []) authority stranger
      (server ∷ []) refl

accepted_before : verify_peer certs (pin_of_server ∷ []) (server ∷ []) none ≡ none
unfolding verify_peer decode_pin hex_decode hex_encode get_formatted_fingerprints str_eq
accepted_before = refl

select_pin_iff_example :
    (select_pin certs parsers none (some (ok server)) ≡ ok (some pin_of_server))
    ↔ Chosen certs parsers (digest server) none (some pin_of_server)
select_pin_iff_example =
    select_pin_iff certs parsers none (some pin_of_server) server server server-Reads digest-IsBytes

selected : select_pin certs parsers none (some (ok server)) ≡ ok (some pin_of_server)
unfolding select_pin hex_encode
selected = refl
