-- ===== src/Passkey.antt =====
-- passkey.go: the identifier that a client gives itself. SHA-512 and the random source are parameters.
use Prim.Native.Nat.{bit_and, bit_or}
pub mod Pattern
pub mod Layout
pub mod Identifier
mod Tests
use tcabci_read_go_client.Prelude.{
  ℤ, pos, negsuc, ℕ, zero, suc, ◌+◌, ◌-◌, ◌*◌, ◌/◌, ◌%◌, ◌^◌, ◌≤◌, ◌<◌, min, String, ◌≡◌, refl, sym,
  ap, ◌∙◌, subst, ◌≢◌, ◌↔◌, ◌⊎◌, inl, inr, Bool, true, false, not, ◌&&◌, ◌||◌, Option, none, some,
  List, [], ◌∷◌, ◌++◌, map, arith, ltb, leb, ◌==◌, if◌then◌else◌, ltb→lt, lt→ltb, ltb→le, leb→le,
  ==_iff, Bool-cases, Option-cases, get_or, &&_true, length, length-append, take, drop, all, any,
  All, All-append, all-append, any-append, Str, codes, str_eq, str_eq_refl, str_eq→eq, str_eq_iff,
  str_eq_sym, str_eq_nil, str_le, StrMap, str_mem, StrNodup, keys, lookup, put, lookup-put,
  str_mem-keys-put, length-put, put-StrNodup, all-str_mem, all_of_str_mem,
}
use tcabci_read_go_client.Errors.{GoError, Result, ok, err, ◌>>=◌, plain}
use tcabci_read_go_client.Hex.{hex_encode, IsBytes}

-- `sha512.New`, `Write` and `Sum`: the digest of all that was written, which is 64 bytes.
pub record Sha512 : Type 0 where
  pub sum : Str → Str
  pub length-sum : (s : Str) → length (sum s) ≡ 64
  pub sum-IsBytes : (s : Str) → IsBytes (sum s)

-- A copy into an array, from an offset on.
pub overwrite : ℕ → Str → Str → Str
overwrite zero [] array = array
overwrite zero (b ∷ bs) [] = []
overwrite zero (b ∷ bs) (c ∷ array) = b ∷ overwrite zero bs array
overwrite (suc offset) source [] = []
overwrite (suc offset) source (c ∷ array) = c ∷ overwrite offset source array

-- An assignment to one element.
pub update : ℕ → (ℕ → ℕ) → Str → Str
update n f [] = []
update zero f (b ∷ bs) = f b ∷ bs
update (suc n) f (b ∷ bs) = b ∷ update n f bs

-- `s[from:to]`.
abbrev pub slice : ℕ → ℕ → Str → Str
slice from to s = take (to - from) (drop from s)

abbrev pub zeros : ℕ → Str
zeros zero = []
zeros (suc n) = 0 ∷ zeros n

-- The version 4 and the variant.
pub version : ℕ → ℕ
version b = bit_or (bit_and b 15) 64

pub variant : ℕ → ℕ
variant b = bit_or (bit_and b 63) 128

abbrev pub dash : Str
dash = b'-' ∷ []

marked : Str → Str
unfolding update version variant
marked entropy = update 8 variant (update 6 version entropy)

-- The 36 characters that are written for 16 random bytes.
pub uuid_ascii : Str → Str
unfolding overwrite marked
uuid_ascii random =
    let entropy = marked random in
    let ascii = overwrite 0 (hex_encode (slice 0 4 entropy)) (zeros 36) in
    let ascii = overwrite 9 (hex_encode (slice 4 6 entropy)) ascii in
    let ascii = overwrite 14 (hex_encode (slice 6 8 entropy)) ascii in
    let ascii = overwrite 19 (hex_encode (slice 8 10 entropy)) ascii in
    let ascii = overwrite 24 (hex_encode (slice 10 16 entropy)) ascii in
    overwrite 23 dash (overwrite 18 dash (overwrite 13 dash (overwrite 8 dash ascii)))

read_full : Option Str → Result Str
read_full none = err (plain (codes "cannot generate client instance ID"))
read_full (some entropy) = ok entropy

-- The loop: `reads` is what `io.ReadFull` gives in each round, and `written` what the hash has got.
feed : ℕ → (ℕ → Option Str) → ℕ → Str → Result Str
unfolding read_full
feed zero reads count written = ok written
feed (suc rounds) reads count written = do
  entropy ← read_full (reads count)
  feed rounds reads (count + 1) (written ++ uuid_ascii entropy)

pub create_client_instance_id : Sha512 → (ℕ → Option Str) → Result Str
unfolding feed
create_client_instance_id h reads = do written ← feed 4 reads 0 []; ok (hex_encode (h.sum written))
