-- ===== src/Construction/Conditions.antt =====
-- When a client can be made, and what it is then.
use tcabci_read_go_client.Prelude.{
  ◌≡◌, refl, sym, ap, ◌∙◌, subst, ◌≢◌, ◌↔◌, ◌⊎◌, inl, inr, Bool, true, false, not, ◌&&◌, ◌||◌,
  Option, none, some, [], Bool-cases, Str, codes, str_eq, str_eq_iff,
}
use tcabci_read_go_client.Errors.{Result, ok, ◌>>=◌}
use tcabci_read_go_client.Errors.Steps.{bind_inv, then_inv, guard_inv}
use tcabci_read_go_client.Certificate.{X509, Parsers, select_pin, check_custom, with_certificate}
use tcabci_read_go_client.Certificate.Choice.{select_pin_steps}
use tcabci_read_go_client.Passkey.{Sha512, create_client_instance_id}
use tcabci_read_go_client.Construction.{
  Url, Platform, Arguments, http_url, websocket_url, given, secure, TlsConfig, Made, tls12,
  tls_with, tls_for, made, new_client,
}

-- An address of one of two schemes, with a host.
abbrev pub IsAddress : Str → Str → Url → Type 0
IsAddress scheme other u = ((u.scheme ≡ scheme) ⊎ (u.scheme ≡ other)) × (u.hostname ≢ [])

-- Something of the connections is secured by TLS.
abbrev pub Secured : Url → Url → Option (Result Str) → Type 0
Secured u w certificate =
    (u.scheme ≡ codes "https") ⊎ ((w.scheme ≡ codes "wss") ⊎ (certificate ≢ none))

either : {A B C D : Type 0} → (A → C) → (B → D) → A ⊎ B → C ⊎ D
either f g (inl a) = inl (f a)
either f g (inr b) = inr (g b)

url_test :
    (x y z : Bool) → (not ((not x && not y) || z) ≡ true) ↔ (((x ≡ true) ⊎ (y ≡ true)) × (z ≢ true))
url_test true y true = ((λ h. cc), λ h. absurd (h.1 refl))
url_test true y false = ((λ h. (inl refl, λ e. cc)), λ h. refl)
url_test false true true = ((λ h. cc), λ h. absurd (h.1 refl))
url_test false true false = ((λ h. (inr refl, λ e. cc)), λ h. refl)
url_test false false z = ((λ h. cc), λ h. elim h.0 [ inl e ↦ cc | inr e ↦ cc ])

IsAddress-test_iff :
    (a b : Str) (u : Url)
    → (not ((not (str_eq u.scheme a) && not (str_eq u.scheme b)) || str_eq u.hostname []) ≡ true)
      ↔ IsAddress a b u
IsAddress-test_iff a b u =
    let t = url_test (str_eq u.scheme a) (str_eq u.scheme b) (str_eq u.hostname []) in
    let ha = str_eq_iff u.scheme a in
    let hb = str_eq_iff u.scheme b in
    let hn = str_eq_iff u.hostname [] in
    (
      (λ h. (either ha.0 hb.0 (t.0 h).0, λ e. (t.0 h).1 (hn.1 e))),
      λ (s, n). t.1 (either ha.1 hb.1 s, λ e. n (hn.0 e)),
    )

pub http_url_iff : (u : Url) → (http_url u ≡ true) ↔ IsAddress (codes "https") (codes "http") u
unfolding http_url
http_url_iff u = IsAddress-test_iff (codes "https") (codes "http") u

pub websocket_url_iff :
    (u : Url) → (websocket_url u ≡ true) ↔ IsAddress (codes "wss") (codes "ws") u
unfolding websocket_url
websocket_url_iff u = IsAddress-test_iff (codes "wss") (codes "ws") u

given_iff : {A : Type 0} (o : Option A) → (given o ≡ true) ↔ (o ≢ none)
unfolding given
given_iff none = ((λ h. cc), λ n. absurd (n refl))
given_iff (some x) = ((λ h e. cc), λ n. refl)

or_iff : (a b : Bool) → (a || b ≡ true) ↔ ((a ≡ true) ⊎ (b ≡ true))
or_iff true b = ((λ h. inl refl), λ h. refl)
or_iff false b = (inr, λ h. elim h [ inl e ↦ cc | inr e ↦ e ])

pub secure_iff :
    (u w : Url) (certificate : Option (Result Str))
    → (secure u w certificate ≡ true) ↔ Secured u w certificate
unfolding secure
secure_iff u w certificate =
    let a = str_eq u.scheme (codes "https") in
    let b = str_eq w.scheme (codes "wss") in
    let c = given certificate in
    let ha = str_eq_iff u.scheme (codes "https") in
    let hb = str_eq_iff w.scheme (codes "wss") in
    let hc = given_iff certificate in
    (
      (λ h. elim ((or_iff (a || b) c).0 h) [
        | inl e ↦ either ha.0 (λ k. inl (hb.0 k)) ((or_iff a b).0 e)
        | inr e ↦ inr (inr (hc.0 e))
      ]),
      λ h. elim h [
        | inl e ↦ (or_iff (a || b) c).1 (inl ((or_iff a b).1 (inl (ha.1 e))))
        | inr (inl e) ↦ (or_iff (a || b) c).1 (inl ((or_iff a b).1 (inr (hb.1 e))))
        | inr (inr n) ↦ (or_iff (a || b) c).1 (inr (hc.1 n))
      ],
    )

module _ (x : X509) (p : Parsers x) (h : Sha512) (m : Platform) where
  open m use {Pool, system_cert_pool, parse_url, random}

  -- The TLS configuration of a client: none without need, and else one over the system's pool.
  pub data Configured (u w : Url) (a : Arguments) (pin : Option Str)
      : Option (TlsConfig x p h m) → Type 0 where
    open_line : ¬ Secured u w a.certificate → Configured u w a pin none
    over_tls :
        (pool : Pool)
        → Secured u w a.certificate
        → system_cert_pool ≡ ok pool
        → Configured u w a pin (
            some (record {
              root_cas = pool;
              min_version = tls12;
              insecure_skip_verify = a.insecure;
              fingerprint = pin;
            }))

  -- The arguments are in order, and the client is the one made from them.
  pub record Admits (a : Arguments) (c : Made x p h m) : Type 0 where
    pub context : a.has_context ≡ true
    pub u : Url
    pub parsed : parse_url a.address ≡ ok u
    pub address : IsAddress (codes "https") (codes "http") u
    pub w : Url
    pub ws_parsed : parse_url a.ws_address ≡ ok w
    pub ws_address : IsAddress (codes "wss") (codes "ws") w
    pub pin : Option Str
    pub settled : select_pin x p a.fingerprint a.certificate ≡ ok pin
    pub tls : Option (TlsConfig x p h m)
    pub configured : Configured u w a pin tls
    pub id : Str
    pub identified : create_client_instance_id h random ≡ ok id
    pub made_eq : c ≡ made x p h m a w tls id

  Configured-tls_for :
      (u w : Url) (a : Arguments) (pin : Option Str) (tls : Option (TlsConfig x p h m)) (b : Bool)
      → secure u w a.certificate ≡ b
      → tls_for x p h m b a.insecure pin ≡ ok tls
      → Configured u w a pin tls
  unfolding tls_for tls_with
  Configured-tls_for u w a pin tls false s e =
      let k : none ≡ tls = cc in
      subst (Configured u w a pin) k
        (open_line (λ z. let y = (secure_iff u w a.certificate).1 z in cc))
  Configured-tls_for u w a pin tls true s e =
      let r = bind_inv system_cert_pool (λ pool. ok (tls_with x p h m a.insecure pin pool)) e in
      let k : tls_with x p h m a.insecure pin r.0 ≡ tls = cc in
      subst (Configured u w a pin) k (over_tls r.0 ((secure_iff u w a.certificate).0 s) r.1)

  tls_for-Configured :
      (u w : Url) (a : Arguments) (pin : Option Str) (tls : Option (TlsConfig x p h m))
      → Configured u w a pin tls
      → tls_for x p h m (secure u w a.certificate) a.insecure pin ≡ ok tls
  unfolding tls_for tls_with
  tls_for-Configured u w a pin tls (open_line n) = elim (Bool-cases (secure u w a.certificate)) [
    | inl e ↦ absurd (n ((secure_iff u w a.certificate).0 e))
    | inr e ↦ rw e refl
  ]
  tls_for-Configured u w a pin tls (over_tls pool s e) =
      let b = (secure_iff u w a.certificate).1 s in
      ap (λ t. tls_for x p h m t a.insecure pin) b
      ∙ ap (λ r. r >>= (λ pool. ok (tls_with x p h m a.insecure pin pool))) e

  new_client-Admits : (a : Arguments) (c : Made x p h m) → new_client x p h m a ≡ ok c → Admits a c
  unfolding new_client
  new_client-Admits a c e =
      let s0 = guard_inv a.has_context _ _ e in
      let s1 = then_inv (check_custom x p a.fingerprint) _ s0.1 in
      let s2 = bind_inv (parse_url a.address) _ s1.1 in
      let s3 = guard_inv (http_url s2.0) _ _ s2.2 in
      let s4 = bind_inv (parse_url a.ws_address) _ s3.1 in
      let s5 = guard_inv (websocket_url s4.0) _ _ s4.2 in
      let s6 = bind_inv (with_certificate x p a.fingerprint a.certificate) _ s5.1 in
      let s7 = bind_inv (tls_for x p h m (secure s2.0 s4.0 a.certificate) a.insecure s6.0) _ s6.2 in
      let s8 = bind_inv (create_client_instance_id h random) _ s7.2 in
      let e9 = s8.2 in
      record {
        context = s0.0;
        u = s2.0;
        parsed = s2.1;
        address = (http_url_iff s2.0).0 s3.0;
        w = s4.0;
        ws_parsed = s4.1;
        ws_address = (websocket_url_iff s4.0).0 s5.0;
        pin = s6.0;
        settled = (select_pin_steps x p a.fingerprint s6.0 a.certificate).1 (s1.0, s6.1);
        tls = s7.0;
        configured = Configured-tls_for s2.0 s4.0 a s6.0 s7.0 _ refl s7.1;
        id = s8.0;
        identified = s8.1;
        made_eq = cc;
      }

  Admits-new_client : (a : Arguments) (c : Made x p h m) → Admits a c → new_client x p h m a ≡ ok c
  unfolding new_client
  Admits-new_client a c v =
      let s = (select_pin_steps x p a.fingerprint v.pin a.certificate).0 v.settled in
      let t = (http_url_iff v.u).1 v.address in
      let y = (websocket_url_iff v.w).1 v.ws_address in
      let z = tls_for-Configured v.u v.w a v.pin v.tls v.configured in
      rw (v.context, s.0, v.parsed, t, v.ws_parsed, y, s.1, z, v.identified) (ap ok (sym v.made_eq))

  -- `newClient` makes a client exactly if there is a context, both addresses parse to a URL of the
  -- right scheme with a host, the fingerprint goes with the certificate, the system's pool loads if it
  -- is needed, and the random source gives an identifier; the client is then the one
  -- that these determine, with a TLS configuration exactly if an address or a certificate asks for it.
  pub new_client_ok_iff :
      (a : Arguments) (c : Made x p h m) → (new_client x p h m a ≡ ok c) ↔ Admits a c
  new_client_ok_iff a c = (new_client-Admits a c, Admits-new_client a c)
