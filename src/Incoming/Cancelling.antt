-- ===== src/Incoming/Cancelling.antt =====
-- When a message of the node ends the session.
use tcabci_read_go_client.Prelude.{
  ℤ, pos, negsuc, ◌≡◌, refl, ap, ◌≢◌, ◌↔◌, ◌⊎◌, Bool, true, false, not, ◌&&◌, Option, none, some,
  [], arith, Str, str_eq, str_eq→eq, str_eq_iff,
}
use tcabci_read_go_client.Transaction.{Block, Transaction}
use tcabci_read_go_client.Errors.{Result, ok, err}
use tcabci_read_go_client.Message.{State}
use tcabci_read_go_client.Incoming.{
  Envelope, Codec, trim_space, null, missing, says, hears, silent, decode_transaction,
  transaction_reaction, block_reaction, listen_reaction, subscription_reaction, typed_reaction,
  untyped_reaction, envelope_reaction, decoded_reaction, parse_incoming,
}

-- A rejected `listen`: an envelope without an id, of the type 3, whose state is not `OK`.
pub record Rejected (k : Codec) (raw : Str) : Type 0 where
  pub envelope : Envelope
  pub decoded : k.decode_envelope raw ≡ some envelope
  pub not_null : str_eq (trim_space raw) null ≡ false
  pub no_id : (envelope.id ≡ []) ⊎ (envelope.id ≡ null)
  pub typed : missing envelope.type ≡ false
  pub type_three : k.decode_int envelope.type ≡ some (pos 3)
  pub not_ok : envelope.state ≢ some State.ok

transaction-quiet : (r : Result Transaction) → (transaction_reaction r).cancels ≡ false
unfolding transaction_reaction hears
transaction-quiet (ok t) = refl
transaction-quiet (err e) = refl

block-quiet : (b : Bool) (o : Option Block) → (block_reaction b o).cancels ≡ false
unfolding block_reaction hears says
block-quiet false (some b) = refl
block-quiet false none = refl
block-quiet true o = refl

subscription-quiet : (s : Option State) → (subscription_reaction s).cancels ≡ false
unfolding subscription_reaction says silent
subscription-quiet none = refl
subscription-quiet (some State.ok) = refl
subscription-quiet (some State.fail) = refl
subscription-quiet (some (State.unnamed n)) = refl

listen-cancels : (s : Option State) → (listen_reaction s).cancels ≡ true → s ≢ some State.ok
unfolding listen_reaction silent
listen-cancels none h e = cc
listen-cancels (some State.ok) h e = cc
listen-cancels (some State.fail) h e = cc
listen-cancels (some (State.unnamed n)) h e = cc

not_ok-cancels : (s : Option State) → s ≢ some State.ok → (listen_reaction s).cancels ≡ true
unfolding listen_reaction
not_ok-cancels none h = refl
not_ok-cancels (some State.ok) h = absurd (h refl)
not_ok-cancels (some State.fail) h = refl
not_ok-cancels (some (State.unnamed n)) h = refl

typed-cancels :
    (k : Codec) (e : Envelope) (n : ℤ)
    → (typed_reaction k e n).cancels ≡ true
    → (n ≡ pos 3) × (e.state ≢ some State.ok)
unfolding typed_reaction says
typed-cancels k e (pos n) h = (
  ground (
    arith,
    block-quiet (missing e.payload) (k.decode_block e.payload),
    transaction-quiet (decode_transaction (k.decode_tx e.payload)),
    subscription-quiet e.state,
  ),
  listen-cancels e.state (
      ground (
        arith,
        block-quiet (missing e.payload) (k.decode_block e.payload),
        transaction-quiet (decode_transaction (k.decode_tx e.payload)),
        subscription-quiet e.state,
      )),
)
typed-cancels k e (negsuc n) h = cc

untyped-cancels :
    (k : Codec) (e : Envelope) (b : Bool) (o : Option ℤ)
    → (untyped_reaction k e b o).cancels ≡ true
    → (b ≡ false) × (o ≡ some (pos 3)) × (e.state ≢ some State.ok)
unfolding untyped_reaction says
untyped-cancels k e false (some n) h = let c = typed-cancels k e n h in (refl, ap some c.0, c.1)
untyped-cancels k e false none h = cc
untyped-cancels k e true o h = cc

carries_id : Envelope → Bool
carries_id e = not (str_eq e.id []) && not (str_eq e.id null)

carries_id-false : (e : Envelope) → (carries_id e ≡ false) ↔ ((e.id ≡ []) ⊎ (e.id ≡ null))
unfolding carries_id
carries_id-false e = (
  (λ h. ground (arith, str_eq→eq e.id [], str_eq→eq e.id null)),
  λ h. ground (arith, str_eq_iff e.id [], str_eq_iff e.id null),
)

envelope_reaction-cancels :
    (k : Codec) (raw : Str) (e : Envelope)
    → (envelope_reaction k raw e).cancels ≡ true
    → (carries_id e ≡ false)
      × ((untyped_reaction k e (missing e.type) (k.decode_int e.type)).cancels ≡ true)
unfolding envelope_reaction carries_id
envelope_reaction-cancels k raw e h = (
  ground (arith, transaction-quiet (decode_transaction (k.decode_tx raw))),
  ground (arith, transaction-quiet (decode_transaction (k.decode_tx raw))),
)

cancels-Rejected :
    (k : Codec) (raw : Str) (o : Option Envelope)
    → k.decode_envelope raw ≡ o
    → (decoded_reaction k raw o).cancels ≡ true
    → Rejected k raw
unfolding decoded_reaction says
cancels-Rejected k raw none q h = cc
cancels-Rejected k raw (some e) q h =
    let c = envelope_reaction-cancels k raw e (ground arith) in
    let u = untyped-cancels k e (missing e.type) (k.decode_int e.type) c.1 in
    record {
      envelope = e;
      decoded = q;
      not_null = ground arith;
      no_id = (carries_id-false e).0 c.0;
      typed = u.0;
      type_three = u.1;
      not_ok = u.2;
    }

Rejected-cancels : (k : Codec) (raw : Str) → Rejected k raw → (parse_incoming k raw).cancels ≡ true
unfolding parse_incoming decoded_reaction envelope_reaction carries_id untyped_reaction
    typed_reaction
Rejected-cancels k raw r =
    rw (r.decoded, decoded_reaction)
      (ground (
        arith,
        r.not_null,
        (carries_id-false r.envelope).1 r.no_id,
        r.typed,
        r.type_three,
        not_ok-cancels r.envelope.state r.not_ok,
      ))

-- A message cancels the session exactly when it is a rejected `listen`: it decodes to an envelope and
-- is not `null`, has no id or the id `null`, and its type is the number 3 while its state is not `OK`.
pub parse_incoming-cancels_iff :
    (k : Codec) (raw : Str) → ((parse_incoming k raw).cancels ≡ true) ↔ Rejected k raw
unfolding parse_incoming
parse_incoming-cancels_iff k raw =
    ((λ h. cancels-Rejected k raw (k.decode_envelope raw) refl h), Rejected-cancels k raw)
