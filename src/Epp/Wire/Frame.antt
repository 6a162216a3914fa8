-- ===== src/Epp/Wire/Frame.antt =====
-- Frames that EncodeEPP (epp/encoding.go) writes, as WireSplit reads them.
use go_registrar.Prelude.{
  ℕ, zero, suc, ◌+◌, ◌-◌, ◌*◌, ◌^◌, ◌≤◌, ◌<◌, ◌≡◌, ◌↔◌, inl, inr, refl, ap, some, List, [], ◌∷◌,
  ◌++◌, arith, length, take, drop, leb, length-append, take-append_length, drop-append_length,
  Bool-cases, All, if◌then◌else◌,
}
use go_registrar.Epp.Wire.{
  big_endian, read_big_endian, slice, more, panics, token, split_sized, wire_split, encode_epp,
  rest_of, too_long, max_token_size, no_token, scan,
}

-- A message behind its length.
abbrev pub frame : List ℕ → List ℕ
frame msg = big_endian (length msg + 4) ++ msg

length-take : (n : ℕ) (l : List ℕ) → n ≤ length l → length (take n l) ≡ n
length-take zero l h = refl
length-take (suc n) [] h = absurd (omega arith)
length-take (suc n) (x ∷ l) h = omega (arith, length-take n l)

take-drop : (n : ℕ) (l : List ℕ) → take n l ++ drop n l ≡ l
take-drop zero l = refl
take-drop (suc n) [] = refl
take-drop (suc n) (x ∷ l) = ap (λ t. x ∷ t) (take-drop n l)

length-frame : (msg rest : List ℕ) → length (frame msg ++ rest) ≡ length msg + 4 + length rest
unfolding big_endian
length-frame msg rest = omega (arith, length-append msg rest)

take-take : (m n : ℕ) (l : List ℕ) → m ≤ n → take m (take n l) ≡ take m l
take-take zero n l h = refl
take-take (suc m) zero l h = absurd (omega arith)
take-take (suc m) (suc n) [] h = refl
take-take (suc m) (suc n) (x ∷ l) h = ap (λ t. x ∷ t) (take-take m n l (omega arith))

length-frame_only : (msg : List ℕ) → length (frame msg) ≡ length msg + 4
unfolding big_endian
length-frame_only msg = omega arith

take-frame_only :
    (msg : List ℕ)
    → length msg + 4 < 2 ^ 32
    → read_big_endian (take 4 (frame msg)) ≡ some (length msg + 4)
unfolding big_endian read_big_endian
take-frame_only msg h = ap (λ k. some k) (omega arith)

split_sized-token :
    (bytes : List ℕ) (n : ℕ)
    → 4 ≤ n
    → n ≤ length bytes
    → length bytes < 2 ^ 32
    → split_sized bytes (some n) ≡ token n (take (n - 4) (drop 4 bytes))
unfolding slice
split_sized-token bytes n lo hi small = ground arith

split_sized-more :
    (bytes : List ℕ) (n : ℕ)
    → length bytes < n
    → length bytes < 2 ^ 32
    → split_sized bytes (some n) ≡ more
unfolding slice
split_sized-more bytes n hi small = ground arith

wire_split-sized :
    (bytes : List ℕ)
    → 4 ≤ length bytes
    → length bytes < 2 ^ 32
    → wire_split bytes ≡ split_sized bytes (read_big_endian (take 4 bytes))
unfolding wire_split
wire_split-sized bytes h small = ground arith

wire_split-short : (bytes : List ℕ) → length bytes < 4 → wire_split bytes ≡ more
unfolding wire_split
wire_split-short bytes h = ground arith

drop-frame : (msg rest : List ℕ) → drop 4 (frame msg ++ rest) ≡ msg ++ rest
unfolding big_endian
drop-frame msg rest = refl

take-frame :
    (msg rest : List ℕ)
    → length msg + 4 < 2 ^ 32
    → read_big_endian (take 4 (frame msg ++ rest)) ≡ some (length msg + 4)
unfolding big_endian read_big_endian
take-frame msg rest h = ap (λ k. some k) (omega arith)

add_sub : (n : ℕ) → n + 4 - 4 ≡ n
add_sub n = omega arith

-- A frame in front of other bytes, all fewer than 4 GiB, is split off as its message.
pub wire_split-frame :
    (msg rest : List ℕ)
    → length (frame msg ++ rest) < 2 ^ 32
    → wire_split (frame msg ++ rest) ≡ token (length msg + 4) msg
wire_split-frame msg rest small =
    let size = length-frame msg rest in
    rw
      (
        wire_split-sized (frame msg ++ rest) (omega arith) small,
        take-frame msg rest (omega arith),
        split_sized-token (frame msg ++ rest) (length msg + 4) (omega arith) (omega arith) small,
        drop-frame msg rest,
        add_sub (length msg),
      )
      (ap (λ t. token (length msg + 4) t) (take-append_length msg rest))

-- A frame of which some bytes have not arrived asks for more.
wire_split-incomplete :
    (msg : List ℕ) (n : ℕ)
    → length msg + 4 < 2 ^ 32
    → n < length msg + 4
    → wire_split (take n (frame msg)) ≡ more
wire_split-incomplete msg n small h = elim (Bool-cases (leb 4 n)) [
  | inr e ↦ wire_split-short (take n (frame msg)) (ground (arith, size))
  | inl e ↦
      rw
        (
          wire_split-sized (take n (frame msg)) (ground (arith, size)) (ground (arith, size)),
          head (ground arith),
        )
        (split_sized-more (take n (frame msg)) (length msg + 4) (ground (arith, size))
          (ground (arith, size)))
]
  where
    size : length (take n (frame msg)) ≡ n
    size = length-take n (frame msg) (ground (arith, length-frame_only msg))

    head : 4 ≤ n → read_big_endian (take 4 (take n (frame msg))) ≡ some (length msg + 4)
    head k = rw (take-take 4 n (frame msg) k) (take-frame_only msg small)

-- The scanner panics on exactly the data whose length field is less than the four bytes that it
-- takes itself.
pub wire_split-panics_iff :
    (bytes : List ℕ)
    → length bytes < 2 ^ 32
    → (wire_split bytes ≡ panics) ↔ ((n : ℕ) × (read_big_endian (take 4 bytes) ≡ some n) × (n < 4))
unfolding wire_split read_big_endian slice
wire_split-panics_iff (a ∷ b ∷ c ∷ d ∷ rest) small =
    ((λ h. (a * 16777216 + b * 65536 + c * 256 + d, refl, ground arith)), λ (n, e, h). ground arith)
wire_split-panics_iff [] small = ((λ h. ground arith), λ (n, e, h). ground arith)
wire_split-panics_iff (a ∷ []) small = ((λ h. ground arith), λ (n, e, h). ground arith)
wire_split-panics_iff (a ∷ b ∷ []) small = ((λ h. ground arith), λ (n, e, h). ground arith)
wire_split-panics_iff (a ∷ b ∷ c ∷ []) small = ((λ h. ground arith), λ (n, e, h). ground arith)

-- What EncodeEPP writes is the frame of its header and its text.
encode_epp-frame :
    (header xml : List ℕ)
    → length (header ++ xml) + 4 < 2 ^ 32
    → encode_epp header (some xml) ≡ some (frame (header ++ xml))
unfolding encode_epp big_endian
encode_epp-frame header xml small = ap (λ n. some (big_endian n ++ (header ++ xml))) (omega arith)

-- A message that EncodeEPP writes is what WireSplit makes of its bytes, whatever follows them.
pub wire_split-encode_epp :
    (header xml rest : List ℕ)
    → length (header ++ xml) + 4 + length rest < 2 ^ 32
    → (out : List ℕ) × (encode_epp header (some xml) ≡ some out)
      × (wire_split (out ++ rest) ≡ token (length out) (header ++ xml))
wire_split-encode_epp header xml rest small = (
  frame (header ++ xml),
  encode_epp-frame header xml (omega arith),
  rw (length-frame_only (header ++ xml))
      (wire_split-frame (header ++ xml) rest (omega (arith, length-frame (header ++ xml) rest))),
)

-- The frames of messages, and bytes behind them.
abbrev pub stream : List (List ℕ) → List ℕ → List ℕ
stream [] end = end
stream (m ∷ ms) end = frame m ++ stream ms end

scan-token :
    (fuel n : ℕ) (bytes t : List ℕ)
    → wire_split (take max_token_size bytes) ≡ token n t
    → scan (suc fuel) bytes ≡ (t ∷ (scan fuel (drop n bytes)).0, (scan fuel (drop n bytes)).1)
unfolding scan
scan-token fuel n bytes t h = rw (scan, h) refl

scan-more :
    (fuel : ℕ) (bytes : List ℕ)
    → wire_split (take max_token_size bytes) ≡ more
    → scan (suc fuel) bytes ≡ ([], no_token bytes)
unfolding scan
scan-more fuel bytes h = rw (scan, h) refl

drop-stream : (m bytes : List ℕ) → drop (length m + 4) (frame m ++ bytes) ≡ bytes
unfolding big_endian
drop-stream m bytes = rw (← length-frame_only m) (drop-append_length (frame m) bytes)

take-past : (n k : ℕ) (l rest : List ℕ) → n ≡ length l + k → take n (l ++ rest) ≡ l ++ take k rest
take-past n k [] rest h = ap (λ m. take m rest) (omega arith)
take-past zero k (x ∷ l) rest h = absurd (omega arith)
take-past (suc n) k (x ∷ l) rest h = ap (λ t. x ∷ t) (take-past n k l rest (omega arith))

length-take_le : (n : ℕ) (l : List ℕ) → length (take n l) ≤ n
length-take_le zero l = omega arith
length-take_le (suc n) [] = omega arith
length-take_le (suc n) (x ∷ l) = omega (arith, length-take_le n l)

-- A frame that fits into the buffer of the scanner is split off, whatever else is in the buffer.
wire_split-buffered :
    (m rest : List ℕ)
    → length m + 4 ≤ max_token_size
    → wire_split (take max_token_size (frame m ++ rest)) ≡ token (length m + 4) m
wire_split-buffered m rest fits =
    let size = length-frame_only m in
    let room = max_token_size - (length m + 4) in
    rw (take-past max_token_size room (frame m) rest (omega (arith, size))) (
      wire_split-frame m (take room rest)
        (omega (arith, length-frame m (take room rest), length-take_le room rest)))

-- A scan of the frames of messages that, with their four bytes of length, are no larger than the
-- buffer of the scanner, and of bytes behind them of which a full buffer holds no frame, returns the
-- messages in order, with fuel for one round more than there are messages. It then waits for more
-- behind those bytes, or has stopped with ErrTooLong where they fill the buffer.
pub scan-stream :
    (ms : List (List ℕ)) (end : List ℕ)
    → All (λ m. length m + 4 ≤ max_token_size) ms
    → wire_split (take max_token_size end) ≡ more
    → scan (suc (length ms)) (stream ms end)
      ≡ (ms, if leb max_token_size (length end) then too_long else rest_of end)
scan-stream [] end fit h = scan-more 0 end h
scan-stream (m ∷ ms) end (fits, fit) h =
    let rest = stream ms end in
    rw
      (
        scan-token (suc (length ms)) (length m + 4) (frame m ++ rest) m
            (wire_split-buffered m rest fits),
        drop-stream m rest,
        scan-stream ms end fit h,
      )
      refl
