-- ===== src/Construction/Secured.antt =====
-- What a new client's connections demand of a server.
use tcabci_read_go_client.Prelude.{
  ◌≡◌, refl, sym, ap, ◌∙◌, subst, ◌≢◌, ◌↔◌, ◌⊎◌, inl, inr, Option, none, some, List, [], ◌∷◌,
  Option-cases, Str, codes,
}
use tcabci_read_go_client.Errors.{Result, ok}
use tcabci_read_go_client.Hex.{IsBytes}
use tcabci_read_go_client.Certificate.{X509, Parsers, select_pin}
use tcabci_read_go_client.Certificate.Matching.{Pinned}
use tcabci_read_go_client.Certificate.Chain.{in_force, verify_peer_iff}
use tcabci_read_go_client.Certificate.Choice.{Reads, select_pin-verify_peer}
use tcabci_read_go_client.Passkey.{Sha512}
use tcabci_read_go_client.Construction.{
  Url, Platform, Arguments, TlsConfig, Made, tls12, made, new_client, verify_connection,
}
use tcabci_read_go_client.Construction.Conditions.{
  Secured, Configured, open_line, over_tls, new_client_ok_iff,
}

module _ (x : X509) (p : Parsers x) (h : Sha512) (m : Platform) where
  open x use {Cert, raw, sha256}
  open m use {parse_url}

  -- A TLS configuration that refuses old versions, skips the usual checks only as asked, and asks
  -- for a pin in force, unless the fingerprint is empty.
  pub record Strict (a : Arguments) (pin : Option Str) (t : TlsConfig x p h m) : Type 0 where
    pub modern : t.min_version ≡ tls12
    pub asked : t.insecure_skip_verify ≡ a.insecure
    pub pinned :
        (defaults : List Str) (certs : List Cert)
        → (verify_connection x p h m t defaults certs ≡ none)
          ↔ ((pin ≡ some []) ⊎ ((pin ≢ some []) × Pinned x certs (in_force x defaults pin)))

  pub record Guarded (a : Arguments) (c : Made x p h m) : Type 0 where
    pub same : c.http_client.tls_config ≡ c.dialer.tls_client_config
    pub pin : Option Str
    pub settled : select_pin x p a.fingerprint a.certificate ≡ ok pin
    pub strict : (t : TlsConfig x p h m) → c.http_client.tls_config ≡ some t → Strict a pin t
    pub open_only :
        c.http_client.tls_config ≡ none
        → ((u : Url) → parse_url a.address ≡ ok u → u.scheme ≡ codes "http")
          × (c.ws_url.scheme ≡ codes "ws")
          × (a.certificate ≡ none)

  Configured-Strict :
      (u w : Url) (a : Arguments) (pin : Option Str) (tls : Option (TlsConfig x p h m))
      (t : TlsConfig x p h m)
      → Configured x p h m u w a pin tls
      → tls ≡ some t
      → Strict a pin t
  unfolding verify_connection
  Configured-Strict u w a pin tls t (open_line n) e = cc
  Configured-Strict u w a pin tls t (over_tls pool s q) e =
      subst (Strict a pin) (some_inj e) (record {
        modern = refl;
        asked = refl;
        pinned = λ defaults certs. verify_peer_iff x defaults certs pin;
      })
    where
      some_inj : {a b : TlsConfig x p h m} → some a ≡ some b → a ≡ b
      some_inj e = cc

  absent : (o : Option (Result Str)) → ¬ (o ≢ none) → o ≡ none
  absent none n = refl
  absent (some y) n = absurd (n (λ e. cc))

  Configured-open :
      (u w : Url) (a : Arguments) (pin : Option Str) (tls : Option (TlsConfig x p h m))
      → Configured x p h m u w a pin tls
      → tls ≡ none
      → ¬ Secured u w a.certificate
  Configured-open u w a pin tls (open_line n) e = n
  Configured-open u w a pin tls (over_tls pool s q) e = cc

  -- Every client that `newClient` makes goes by one TLS configuration for HTTP and for the
  -- websocket. It has none only if the address is http, the websocket's is ws, and no certificate was
  -- given. Otherwise it demands TLS 1.2, skips the library's own checks only if asked to, and
  -- accepts a chain exactly if the fingerprint settled on is empty, or the chain is pinned by it, or
  -- by the default list if there is none.
  pub new_client-Guarded :
      (a : Arguments) (c : Made x p h m) → new_client x p h m a ≡ ok c → Guarded a c
  unfolding made
  new_client-Guarded a c e =
      let v = (new_client_ok_iff x p h m a c).0 e in
      subst (Guarded a) (sym v.made_eq) (record {
        same = refl;
        pin = v.pin;
        settled = v.settled;
        strict = λ t q. Configured-Strict v.u v.w a v.pin v.tls t v.configured q;
        open_only = λ q.
            let n = Configured-open v.u v.w a v.pin v.tls v.configured q in
            (
              (λ u r.
                  other (v.address.0) (λ z. n (inl z))
                    (let k : v.u ≡ u = ok_inj (sym v.parsed ∙ r) in ap (λ y. y.scheme) k)),
              other (v.ws_address.0) (λ z. n (inr (inl z))) refl,
              absent a.certificate (λ z. n (inr (inr z))),
            );
      })
    where
      ok_inj : {u w : Url} → ok u ≡ ok w → u ≡ w
      ok_inj e = cc

      other : {s t z y : Str} → (s ≡ t) ⊎ (s ≡ z) → s ≢ t → s ≡ y → y ≡ z
      other (inl e) n q = absurd (n e)
      other (inr e) n q = sym q ∙ e

  -- A client made with a certificate has a TLS configuration, one for both connections, whose
  -- `VerifyConnection` raises no error on a chain that begins with that certificate, whatever fingerprint
  -- was given with it. The library's own checks of the chain, unless they are skipped, come on top.
  pub new_client-own_certificate :
      (a : Arguments) (c : Made x p h m) (input : Str) (cert : Cert) (defaults : List Str)
      (rest : List Cert)
      → a.certificate ≡ some (ok input)
      → Reads x p input cert
      → IsBytes (sha256 (raw cert))
      → new_client x p h m a ≡ ok c
      → (t : TlsConfig x p h m) × (c.http_client.tls_config ≡ some t)
        × (c.dialer.tls_client_config ≡ some t)
        × (verify_connection x p h m t defaults (cert ∷ rest) ≡ none)
  new_client-own_certificate a c input cert defaults rest g r b e =
      let v = new_client-Guarded a c e in
      let settled : select_pin x p a.fingerprint (some (ok input)) ≡ ok v.pin =
        subst (λ o. select_pin x p a.fingerprint o ≡ ok v.pin) g v.settled in
      let accepted =
        select_pin-verify_peer x p defaults a.fingerprint v.pin input cert rest r b settled in
      elim (Option-cases c.http_client.tls_config) [
        | inl n ↦ absurd (given (v.open_only n).2)
        | inr (t, q) ↦ (
          t,
          q,
          sym v.same ∙ q,
          ((v.strict t q).pinned defaults (cert ∷ rest)).1
              ((verify_peer_iff x defaults (cert ∷ rest) v.pin).0 accepted),
        )
      ]
    where
      given : ¬ (a.certificate ≡ none)
      given n = let k : some (ok input) ≡ none = sym g ∙ n in cc
