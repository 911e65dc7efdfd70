-- ===== src/Passkey/Identifier.antt =====
-- What identifier a client gets: the digest of four UUIDs, in lower-case hexadecimal.
use tcabci_read_go_client.Prelude.{
  ℕ, suc, ◌+◌, ◌≡◌, sym, ap, ◌∙◌, ◌↔◌, true, Option, none, some, [], ◌∷◌, ◌++◌, arith, length, all,
  All, Str,
}
use tcabci_read_go_client.Errors.{Result, ok}
use tcabci_read_go_client.Errors.Steps.{bind_inv}
use tcabci_read_go_client.Hex.{hex_encode, IsBytes}
use tcabci_read_go_client.Hex.Laws.{length-hex_encode}
use tcabci_read_go_client.Passkey.{Sha512, uuid_ascii, read_full, feed, create_client_instance_id}
use tcabci_read_go_client.Passkey.Pattern.{is_uuid, lower_hex}
use tcabci_read_go_client.Passkey.Layout.{uuid_ascii-is_uuid, lower_hex-hex_encode}

-- The source fills the array with bytes in each of its four rounds, or fails.
abbrev pub IsSource : (ℕ → Option Str) → Type 0
IsSource reads =
    (n : ℕ) (entropy : Str) → reads n ≡ some entropy → (length entropy ≡ 16) × IsBytes entropy

-- An identifier that is the digest of four UUIDs, made from the four reads.
abbrev pub Identifies : Sha512 → (ℕ → Option Str) → Str → Type 0
Identifies h reads id =
    (a b c d : Str) × (reads 0 ≡ some a)
    × (reads 1 ≡ some b)
    × (reads 2 ≡ some c)
    × (reads 3 ≡ some d)
    × (id ≡ hex_encode (h.sum (uuid_ascii a ++ uuid_ascii b ++ uuid_ascii c ++ uuid_ascii d)))

read_inv : (r : Option Str) (entropy : Str) → read_full r ≡ ok entropy → r ≡ some entropy
unfolding read_full
read_inv none entropy h = cc
read_inv (some e) entropy h = let k : e ≡ entropy = cc in cc

round_inv :
    (rounds count : ℕ) (reads : ℕ → Option Str) (written out : Str)
    → feed (suc rounds) reads count written ≡ ok out
    → (entropy : Str) × (reads count ≡ some entropy)
      × (feed rounds reads (count + 1) (written ++ uuid_ascii entropy) ≡ ok out)
unfolding feed
round_inv rounds count reads written out h =
    let r =
      bind_inv (read_full (reads count))
        (λ entropy. feed rounds reads (count + 1) (written ++ uuid_ascii entropy)) h in
    (r.0, read_inv (reads count) r.0 r.1, r.2)

abbrev digest_of : Sha512 → Str → Result Str
digest_of h written = ok (hex_encode (h.sum written))

digest_eq :
    (h : Sha512) (reads : ℕ → Option Str) (w out id : Str)
    → feed 0 reads 4 w ≡ ok out
    → digest_of h out ≡ ok id
    → id ≡ hex_encode (h.sum w)
unfolding feed
digest_eq h reads w out id e k =
    let a : w ≡ out = cc in let b : hex_encode (h.sum out) ≡ id = cc in cc

four_rounds :
    (h : Sha512) (reads : ℕ → Option Str) (id : Str)
    → create_client_instance_id h reads ≡ ok id
    → Identifies h reads id
unfolding create_client_instance_id feed
four_rounds h reads id e =
    let r = bind_inv (feed 4 reads 0 []) (digest_of h) e in
    let r0 = round_inv 3 0 reads [] r.0 r.1 in
    let r1 = round_inv 2 1 reads (uuid_ascii r0.0) r.0 r0.2 in
    let w = uuid_ascii r0.0 ++ uuid_ascii r1.0 in
    let r2 = round_inv 1 2 reads w r.0 r1.2 in
    let r3 = round_inv 0 3 reads (w ++ uuid_ascii r2.0) r.0 r2.2 in
    (
      r0.0,
      r1.0,
      r2.0,
      r3.0,
      r0.1,
      r1.1,
      r2.1,
      r3.1,
      digest_eq h reads (w ++ uuid_ascii r2.0 ++ uuid_ascii r3.0) r.0 id r3.2 r.2,
    )

four_reads :
    (h : Sha512) (reads : ℕ → Option Str) (id : Str)
    → Identifies h reads id
    → create_client_instance_id h reads ≡ ok id
unfolding create_client_instance_id feed read_full
four_reads h reads id (a, b, c, d, e0, e1, e2, e3, e) = rw (e0, e1, e2, e3) (ap ok (sym e))

-- A client gets an identifier exactly if all four reads of the random source succeed, and it is then
-- the digest of the four UUIDs made of them, in this order, in hexadecimal.
pub create_client_instance_id_ok_iff :
    (h : Sha512) (reads : ℕ → Option Str) (id : Str)
    → (create_client_instance_id h reads ≡ ok id) ↔ Identifies h reads id
create_client_instance_id_ok_iff h reads id = (four_rounds h reads id, four_reads h reads id)

-- From a source that gives 16 bytes at each read, an identifier is 128 lower-case hexadecimal
-- digits, and the digest of four UUIDs of version 4.
pub create_client_instance_id_form :
    (h : Sha512) (reads : ℕ → Option Str) (id : Str)
    → IsSource reads
    → create_client_instance_id h reads ≡ ok id
    → (length id ≡ 128)
      × (all lower_hex id ≡ true)
      × ((a b c d : Str) × (id ≡ hex_encode (h.sum (a ++ b ++ c ++ d)))
          × All (λ s. is_uuid s ≡ true) (a ∷ b ∷ c ∷ d ∷ []))
create_client_instance_id_form h reads id source e =
    let (a, b, c, d, e0, e1, e2, e3, eq) = four_rounds h reads id e in
    let w = uuid_ascii a ++ uuid_ascii b ++ uuid_ascii c ++ uuid_ascii d in
    let n : length (hex_encode (h.sum w)) ≡ 128 =
      omega (arith, length-hex_encode (h.sum w), h.length-sum w) in
    let l : all lower_hex (hex_encode (h.sum w)) ≡ true =
      lower_hex-hex_encode (h.sum w) (h.sum-IsBytes w) in
    (
      ap length eq ∙ n,
      ap (all lower_hex) eq ∙ l,
      (
        uuid_ascii a,
        uuid_ascii b,
        uuid_ascii c,
        uuid_ascii d,
        eq,
        (uuid 0 a e0, (uuid 1 b e1, (uuid 2 c e2, (uuid 3 d e3, tt)))),
      ),
    )
  where
    uuid : (n : ℕ) (entropy : Str) → reads n ≡ some entropy → is_uuid (uuid_ascii entropy) ≡ true
    uuid n entropy r = let s = source n entropy r in uuid_ascii-is_uuid entropy s.0 s.1
