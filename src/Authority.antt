-- ===== src/Authority.antt =====
-- authority.go: the header that a signer gives a websocket handshake, and the setter of the signer.
pub mod Header
pub mod Reading
pub mod Configured
mod Tests
use tcabci_read_go_client.Prelude.{
  ℤ, pos, negsuc, ℕ, zero, suc, ◌+◌, ◌-◌, ◌*◌, ◌/◌, ◌%◌, ◌^◌, ◌≤◌, ◌<◌, min, String, ◌≡◌, refl, sym,
  ap, ◌∙◌, subst, ◌≢◌, ◌↔◌, ◌⊎◌, inl, inr, Bool, true, false, not, ◌&&◌, ◌||◌, Option, none, some,
  List, [], ◌∷◌, ◌++◌, map, arith, ltb, leb, ◌==◌, if◌then◌else◌, ltb→lt, lt→ltb, ltb→le, leb→le,
  ==_iff, Bool-cases, Option-cases, get_or, &&_true, length, length-append, take, drop, all, any,
  All, All-append, all-append, any-append, Str, codes, str_eq, str_eq_refl, str_eq→eq, str_eq_iff,
  str_eq_sym, str_le, StrMap, str_mem, StrNodup, keys, lookup, put, lookup-put, str_mem-keys-put,
  length-put, put-StrNodup, all-str_mem, all_of_str_mem,
}
use tcabci_read_go_client.Errors.{GoError, Result, ok, err, ◌>>=◌, ◌>>◌, guard, plain}
use tcabci_read_go_client.Hex.{hex_encode}
use tcabci_read_go_client.Decimal.{format_int}

-- A `WSAuthoritySigner`, with the context that it is called with: the signature of an envelope.
abbrev pub Signer : Type 0
Signer = Str → Result Str

-- `strings.ContainsAny(address, ";\r\n")`.
pub contains_any : Str → Bool
contains_any s = any (λ c. (c == b';') || (c == 13) || (c == 10)) s

abbrev pub max_address : ℕ
max_address = 2048

abbrev pub max_signature : ℕ
max_signature = 8192

unfoldable pub address_bad : Str → Bool
unfolding contains_any
address_bad address = str_eq address [] || ltb max_address (length address) || contains_any address

-- What `CreateWSAuthorityV3` meets: whether it is given a context, and whether that has ended before
-- and after the signing; the bytes of `rand.Read`, or none if that fails; and `time.Now().UnixNano()`.
pub record Surroundings : Type 0 where
  pub has_context : Bool
  pub over_before : Bool
  pub over_after : Bool
  pub random : Option Str
  pub now : ℤ

refusal : GoError
refusal = plain (codes "invalid websocket authority configuration")

cancelled : GoError
cancelled = plain (codes "websocket authority canceled")

-- The envelope that is signed.
pub payload : Str → ℤ → Str → Str
payload address now nonce =
    codes "read-node/ws-authority/v3"
    ++ (10 ∷ (address ++ (10 ∷ (format_int now ++ (10 ∷ hex_encode nonce)))))

pub header : Str → ℤ → Str → Str → Str
header address now nonce signature =
    address
    ++ (b';'
        ∷ (codes "v3"
            ++ (b';'
                ∷ (format_int now
                    ++ (b';' ∷ (hex_encode nonce ++ (b';' ∷ hex_encode signature)))))))

random_bytes : Option Str → Result Str
random_bytes none = err (plain (codes "websocket authority randomness failed"))
random_bytes (some nonce) = ok nonce

-- An error of the signer is not passed on.
signed : Result Str → Result Str
signed (ok signature) = ok signature
signed (err e) = err (plain (codes "websocket authority signing failed"))

pub create_with : Surroundings → Str → Signer → Result Str
unfolding random_bytes signed payload header cancelled
create_with s address sign = do
  guard (not s.over_before) cancelled
  nonce ← random_bytes s.random
  signature ← signed (sign (payload address s.now nonce))
  guard (not s.over_after) cancelled
  guard (not (length signature == 0 || ltb max_signature (length signature)))
      (plain (codes "invalid websocket authority signature"))
  ok (header address s.now nonce signature)

-- `CreateWSAuthorityV3`; `none` is a nil signer.
pub create_ws_authority_v3 : Surroundings → Str → Option Signer → Result Str
unfolding create_with refusal
create_ws_authority_v3 s address none = err refusal
create_ws_authority_v3 s address (some sign) =
    if not s.has_context || address_bad address then err refusal else create_with s address sign

-- The fields `authorityAddress` and `authoritySigner` of the client.
pub record Authority : Type 0 where
  pub address : Str
  pub signer : Option Signer

unfoldable pub no_authority : Authority
no_authority = record { address = []; signer = none }

-- `WithWSAuthority`.
pub with_ws_authority : Str → Option Signer → Authority → Authority × Result (Unit {0})
unfolding refusal
with_ws_authority address none a = (record { address = []; signer = none }, ok tt)
with_ws_authority address (some sign) a =
    if address_bad address
    then (a, err refusal)
    else (record { address = address; signer = some sign }, ok tt)

-- What `runSession` makes of it before a dial: nothing without a signer.
pub authority_for : Surroundings → Authority → Option (Result Str)
unfolding create_ws_authority_v3
authority_for s a = elim a.signer [
  | none ↦ none
  | some sign ↦ some (create_ws_authority_v3 s a.address (some sign))
]
