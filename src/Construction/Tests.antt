-- ===== src/Construction/Tests.antt =====
-- A client for one node, over a toy digest, a toy certificate and a constant random source.
use tcabci_read_go_client.Prelude.{
  ℕ, zero, suc, ◌≡◌, refl, ◌↔◌, inl, true, false, none, some, [], ◌∷◌, arith, if◌then◌else◌, Str,
  codes, str_eq,
}
use tcabci_read_go_client.Errors.{ok, err, plain}
use tcabci_read_go_client.Hex.{hex_encode, IsBytes}
use tcabci_read_go_client.Certificate.{X509, Parsers, select_pin}
use tcabci_read_go_client.Certificate.Choice.{Reads, derived, select_pin_iff}
use tcabci_read_go_client.Passkey.{Sha512, zeros, create_client_instance_id}
use tcabci_read_go_client.Passkey.Identifier.{create_client_instance_id_ok_iff}
use tcabci_read_go_client.Construction.{
  Url, Platform, Arguments, TlsConfig, Made, tls12, made, new_client, verify_connection,
}
use tcabci_read_go_client.Construction.Conditions.{over_tls, Admits, new_client_ok_iff}
use tcabci_read_go_client.Construction.Secured.{
  Guarded, new_client-Guarded, new_client-own_certificate,
}

zeros-IsBytes : (n : ℕ) → IsBytes (zeros n)
zeros-IsBytes zero = tt
zeros-IsBytes (suc n) = (omega arith, zeros-IsBytes n)

abbrev hash : Sha512
hash = record { sum = λ s. zeros 64; length-sum = λ s. refl; sum-IsBytes = λ s. zeros-IsBytes 64 }

abbrev certs : X509
certs = record {
  Cert = Str;
  raw = λ c. c;
  signed_by = λ child parent. false;
  sha256 = λ s. zeros 32;
  length-sha256 = λ s. refl;
}

abbrev parsers : Parsers certs
parsers = record { pem_decode = λ s. none; parse_certificate = λ s. some s }

abbrev node : Str
node = codes "https://node"

abbrev socket : Str
socket = codes "wss://node"

-- Of other texts the parser makes a URL without a host.
abbrev node_url : Str → Url
node_url s =
    if str_eq s node
    then record { scheme = codes "https"; hostname = codes "node" }
    else if str_eq s socket
    then record { scheme = codes "wss"; hostname = codes "node" }
    else record { scheme = []; hostname = [] }

abbrev linux : Platform
linux = record {
  Pool = Unit;
  system_cert_pool = ok tt;
  parse_url = λ s. ok (node_url s);
  os = codes "linux";
  arch = codes "amd64";
  random = λ n. some (zeros 16);
}

abbrev arguments : Arguments
arguments = record {
  has_context = true;
  address = node;
  ws_address = socket;
  chain_name = codes "chain";
  chain_version = codes "v1";
  insecure = false;
  fingerprint = none;
  certificate = some (ok (codes "srv"));
}

no_context :
    new_client certs parsers hash linux (record arguments { has_context = false })
    ≡ err (plain (codes "nil context"))
unfolding new_client
no_context = refl

abbrev pin : Str
pin = hex_encode (zeros 32)

Reads-server : Reads certs parsers (codes "srv") (codes "srv")
Reads-server = record {
  small = omega arith;
  der = codes "srv";
  block = inl (refl, refl);
  cert = refl;
}

derives : select_pin certs parsers none (some (ok (codes "srv"))) ≡ ok (some pin)
derives =
    (select_pin_iff certs parsers none (some pin) (codes "srv") (codes "srv") Reads-server
        (zeros-IsBytes 32)).1
      derived

abbrev tls : TlsConfig certs parsers hash linux
tls = record {
  root_cas = tt;
  min_version = tls12;
  insecure_skip_verify = false;
  fingerprint = some pin;
}

abbrev identifier : Str
identifier = hex_encode (zeros 64)

identifies : create_client_instance_id hash (λ n. some (zeros 16)) ≡ ok identifier
identifies =
    let z = zeros 16 in
    (create_client_instance_id_ok_iff hash (λ n. some (zeros 16)) identifier).1
      (z, z, z, z, refl, refl, refl, refl, refl)

abbrev client_made : Made certs parsers hash linux
client_made = made certs parsers hash linux arguments (node_url socket) (some tls) identifier

admits : Admits certs parsers hash linux arguments client_made
unfolding str_eq
admits = record {
  context = refl;
  u = node_url node;
  parsed = refl;
  address = (inl refl, λ e. cc);
  w = node_url socket;
  ws_parsed = refl;
  ws_address = (inl refl, λ e. cc);
  pin = some pin;
  settled = derives;
  tls = some tls;
  configured = over_tls tt (inl refl) refl;
  id = identifier;
  identified = identifies;
  made_eq = refl;
}

makes : new_client certs parsers hash linux arguments ≡ ok client_made
makes = (new_client_ok_iff certs parsers hash linux arguments client_made).1 admits

new_client_ok_iff_example :
    (new_client certs parsers hash linux arguments ≡ ok client_made)
    ↔ Admits certs parsers hash linux arguments client_made
new_client_ok_iff_example = new_client_ok_iff certs parsers hash linux arguments client_made

new_client-Guarded_example : Guarded certs parsers hash linux arguments client_made
new_client-Guarded_example = new_client-Guarded certs parsers hash linux arguments client_made makes

new_client-own_certificate_example :
    (t : TlsConfig certs parsers hash linux) × (client_made.http_client.tls_config ≡ some t)
    × (client_made.dialer.tls_client_config ≡ some t)
    × (verify_connection certs parsers hash linux t [] (codes "srv" ∷ []) ≡ none)
new_client-own_certificate_example =
    new_client-own_certificate certs parsers hash linux arguments client_made (codes "srv")
      (codes "srv") [] [] refl Reads-server (zeros-IsBytes 32) makes
