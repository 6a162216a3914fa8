-- ===== src/Epp/Wire.antt =====
-- epp/encoding.go: messages on the wire. A frame is a length on four bytes, most significant first,
-- that counts itself, and a message. Marshalling to XML (Epp.ToString) is not modelled: its text, or
-- its failure, is an argument.
pub mod Frame
use go_registrar.Prelude.{
  ℕ, zero, suc, ◌+◌, ◌-◌, ◌*◌, ◌/◌, ◌%◌, ◌^◌, Bool, ◌&&◌, Option, none, some, List, [], ◌∷◌, ◌++◌,
  length, take, drop, leb, if◌then◌else◌,
}

-- minimumTokenSize.
abbrev pub minimum_token_size : ℕ
minimum_token_size = 4

-- binary.Write and binary.Read of a uint32 in big-endian order.
unfoldable pub big_endian : ℕ → List ℕ
big_endian n = n / 16777216 % 256 ∷ n / 65536 % 256 ∷ n / 256 % 256 ∷ n % 256 ∷ []

unfoldable pub read_big_endian : List ℕ → Option ℕ
read_big_endian (a ∷ b ∷ c ∷ d ∷ rest) = some (a * 16777216 + b * 65536 + c * 256 + d)
read_big_endian _ = none

-- `data[lo:hi]`; `none` is a panic.
unfoldable pub slice {ℓ} : {A : Type ℓ} → ℕ → ℕ → List A → Option (List A)
slice lo hi l = if leb lo hi && leb hi (length l) then some (take (hi - lo) (drop lo l)) else none

-- What WireSplit tells its scanner: that it needs more bytes, or a token and how far to advance.
pub data Split : Type 0 where
  more panics : Split
  token : ℕ → List ℕ → Split

abbrev token_of : ℕ → Option (List ℕ) → Split
token_of n none = panics
token_of n (some t) = token n t

abbrev split_sized : List ℕ → Option ℕ → Split
unfolding slice
split_sized bytes none = more
split_sized bytes (some n) =
    if leb n (length bytes % 2 ^ 32) then token_of n (slice 4 n bytes) else more

-- WireSplit.
unfoldable pub wire_split : List ℕ → Split
unfolding read_big_endian slice
wire_split bytes =
    if leb minimum_token_size (length bytes % 2 ^ 32)
    then split_sized bytes (read_big_endian (take minimum_token_size bytes))
    else more

-- EncodeEPP, behind ToString: `header` is EPPHeader.
unfoldable pub encode_epp : List ℕ → Option (List ℕ) → Option (List ℕ)
unfolding big_endian
encode_epp header none = none
encode_epp header (some xml) =
    let hdr_msg = header ++ xml in
    let msg_size = (length hdr_msg % 2 ^ 32 + minimum_token_size) % 2 ^ 32 in
    some (big_endian msg_size ++ hdr_msg)

-- bufio.MaxScanTokenSize, the size at which the buffer of a scanner stops to grow: EPPListener
-- (epp/client/client.go) sets no other.
abbrev pub max_token_size : ℕ
max_token_size = 65536

-- How a scan of bytes ends: it waits for more behind these bytes, or it stops with ErrTooLong since
-- a full buffer holds no token, or the split function panics.
pub data Scan : Type 0 where
  rest_of : List ℕ → Scan
  too_long panicked out_of_fuel : Scan

-- Where a scanner stands once its buffer holds all that it can and no token.
abbrev pub no_token : List ℕ → Scan
no_token bytes = if leb max_token_size (length bytes) then too_long else rest_of bytes

-- The loop `for scanner.Scan()` of EPPListener over data that has arrived, on fuel: the tokens, and
-- how it ends. WireSplit sees at most a full buffer. What UnmarshalMessage makes of a token, and that
-- the loop ends where it fails, is not modelled.
unfoldable pub scan : ℕ → List ℕ → List (List ℕ) × Scan
unfolding wire_split
scan zero bytes = ([], out_of_fuel)
scan (suc fuel) bytes = elim (wire_split (take max_token_size bytes)) [
  | more ↦ ([], no_token bytes)
  | panics ↦ ([], panicked)
  | token n t ↦ let (ts, end) = scan fuel (drop n bytes) in (t ∷ ts, end)
]
