-- ===== src/Incoming/Effects.antt =====
-- What reaches the callbacks, and when a message of the node ends the session.
use tcabci_read_go_client.Prelude.{
  ℤ, pos, negsuc, ◌≤◌, ◌≡◌, refl, subst, Bool, true, false, not, ◌&&◌, Option, none, some, [], ◌∷◌,
  arith, ◌==◌, if◌then◌else◌, length, Str, codes, str_eq,
}
use tcabci_read_go_client.Transaction.{Block, Transaction, TxId, text, other}
use tcabci_read_go_client.Errors.{plain, Result, ok, err}
use tcabci_read_go_client.Message.{State}
use tcabci_read_go_client.Incoming.{
  Envelope, Codec, failure, transaction, Reaction, trim_space, null, missing, says, hears, silent,
  checked_id, decode_transaction, transaction_reaction, block_reaction, listen_reaction,
  subscription_reaction, typed_reaction, untyped_reaction, envelope_reaction, decoded_reaction,
  parse_incoming,
}

-- The identifier is a text that is not empty.
abbrev pub Identified : TxId → Type 0
Identified (text (c ∷ cs)) = Unit
Identified (text []) = ⊥
Identified other = ⊥

-- What every reaction keeps to.
pub record Sound (r : Reaction) : Type 0 where
  pub identified : (t : Transaction) → r.deliveries ≡ transaction t ∷ [] → Identified t.id
  pub one_at_most : length r.deliveries ≤ 1
  pub told : r.cancels ≡ true → r.deliveries ≡ failure (plain (codes "listen rejected")) ∷ []

says-Sound : (s : Str) → Sound (says s)
unfolding says
says-Sound s = record { identified = λ t h. cc; one_at_most = omega arith; told = λ h. cc }

silent-Sound : Sound silent
unfolding silent
silent-Sound = record { identified = λ t h. cc; one_at_most = omega arith; told = λ h. cc }

transaction-injective : {t u : Transaction} → transaction t ∷ [] ≡ transaction u ∷ [] → t ≡ u
transaction-injective h = cc

checked_id-Identified :
    (i : TxId) (t u : Transaction) → checked_id i t ≡ ok u → (t ≡ u) × Identified i
unfolding checked_id
checked_id-Identified (text (c ∷ cs)) t u h = (cc, tt)
checked_id-Identified (text []) t u h = cc
checked_id-Identified other t u h = cc

decode_transaction-Identified :
    (o : Option Transaction) (t : Transaction) → decode_transaction o ≡ ok t → Identified t.id
unfolding decode_transaction
decode_transaction-Identified none t h = cc
decode_transaction-Identified (some u) t h =
    let c = checked_id-Identified u.id u t h in subst (λ z. Identified z.id) c.0 c.1

transaction-Sound :
    (r : Result Transaction)
    → ((t : Transaction) → r ≡ ok t → Identified t.id)
    → Sound (transaction_reaction r)
unfolding transaction_reaction hears
transaction-Sound (ok t) d = record {
  identified = λ u h. subst (λ z. Identified z.id) (transaction-injective h) (d t refl);
  one_at_most = omega arith;
  told = λ h. cc;
}
transaction-Sound (err e) d = record {
  identified = λ u h. cc;
  one_at_most = omega arith;
  told = λ h. cc;
}

decoded-Sound : (o : Option Transaction) → Sound (transaction_reaction (decode_transaction o))
decoded-Sound o = transaction-Sound (decode_transaction o) (decode_transaction-Identified o)

block-Sound : (b : Bool) (o : Option Block) → Sound (block_reaction b o)
unfolding block_reaction hears
block-Sound false (some b) = record {
  identified = λ t h. cc;
  one_at_most = omega arith;
  told = λ h. cc;
}
block-Sound false none = says-Sound (codes "invalid block message")
block-Sound true o = says-Sound (codes "invalid block message")

rejected-Sound :
    Sound (record { deliveries = failure (plain (codes "listen rejected")) ∷ []; cancels = true })
rejected-Sound = record { identified = λ t h. cc; one_at_most = omega arith; told = λ h. refl }

listen-Sound : (s : Option State) → Sound (listen_reaction s)
unfolding listen_reaction
listen-Sound none = rejected-Sound
listen-Sound (some State.ok) = silent-Sound
listen-Sound (some State.fail) = rejected-Sound
listen-Sound (some (State.unnamed n)) = rejected-Sound

subscription-Sound : (s : Option State) → Sound (subscription_reaction s)
unfolding subscription_reaction
subscription-Sound none = silent-Sound
subscription-Sound (some State.ok) = silent-Sound
subscription-Sound (some State.fail) = says-Sound (codes "subscription rejected")
subscription-Sound (some (State.unnamed n)) = silent-Sound

if-Sound : (b : Bool) {r s : Reaction} → Sound r → Sound s → Sound (if b then r else s)
if-Sound true r s = r
if-Sound false r s = s

typed-Sound : (k : Codec) (e : Envelope) (n : ℤ) → Sound (typed_reaction k e n)
unfolding typed_reaction
typed-Sound k e (pos n) =
    if-Sound (n == 0) (block-Sound (missing e.payload) (k.decode_block e.payload)) (
      if-Sound (n == 1) (decoded-Sound (k.decode_tx e.payload)) (
        if-Sound (n == 2) (subscription-Sound e.state) (
          if-Sound (n == 3) (listen-Sound e.state)
            (says-Sound (codes "unknown websocket message type")))))
typed-Sound k e (negsuc n) = says-Sound (codes "unknown websocket message type")

untyped-Sound :
    (k : Codec) (e : Envelope) (b : Bool) (o : Option ℤ) → Sound (untyped_reaction k e b o)
unfolding untyped_reaction
untyped-Sound k e false (some n) = typed-Sound k e n
untyped-Sound k e false none = says-Sound (codes "invalid websocket message type")
untyped-Sound k e true o = says-Sound (codes "invalid websocket message type")

envelope-Sound : (k : Codec) (raw : Str) (e : Envelope) → Sound (envelope_reaction k raw e)
unfolding envelope_reaction
envelope-Sound k raw e =
    if-Sound (not (str_eq e.id []) && not (str_eq e.id null)) (decoded-Sound (k.decode_tx raw))
      (untyped-Sound k e (missing e.type) (k.decode_int e.type))

decoded_reaction-Sound :
    (k : Codec) (raw : Str) (o : Option Envelope) → Sound (decoded_reaction k raw o)
unfolding decoded_reaction
decoded_reaction-Sound k raw none = says-Sound (codes "invalid websocket JSON")
decoded_reaction-Sound k raw (some e) =
    if-Sound (str_eq (trim_space raw) null) (says-Sound (codes "invalid websocket JSON"))
      (envelope-Sound k raw e)

-- Whatever the node sends, and whatever the decoder makes of it: a transaction that the callbacks
-- hear has a text as its identifier, and not the empty one; a message sets off one delivery at most;
-- and one that cancels the session delivers the error that the listening was rejected.
pub parse_incoming-Sound : (k : Codec) (raw : Str) → Sound (parse_incoming k raw)
unfolding parse_incoming
parse_incoming-Sound k raw = decoded_reaction-Sound k raw (k.decode_envelope raw)
