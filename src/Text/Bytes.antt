-- ===== src/Text/Bytes.antt =====
-- The bytes of a string that is put together.
use node_ipc.Base.{
  ◌≡◌, refl, ℕ, suc, ◌+◌, ◌<◌, Bool, true, false, ◌&&◌, [], ◌∷◌, ◌++◌, if◌then◌else◌, arith, length,
  ◌≤◌,
}
use node_ipc.Text.{Text, is_high, is_low, unit_bytes, bytes_after, byte_length}

-- A unit that begins no pair.
bytes_after-plain : (c : ℕ) (s : Text) → is_high c ≡ false → bytes_after c s ≡ bytes_after 0 s
unfolding bytes_after is_high is_low unit_bytes
bytes_after-plain c [] h = refl
bytes_after-plain c (d ∷ s) h = rw h refl

bytes_after-append :
    (b : ℕ) (p : Text) (c : ℕ) (s : Text)
    → is_high c ≡ false
    → bytes_after b (p ++ c ∷ s) ≡ bytes_after b (p ++ c ∷ []) + byte_length s
unfolding bytes_after byte_length
bytes_after-append b [] c s h = go (is_high b && is_low c)
  where
    go :
        (x : Bool)
        → (if x then 1 else unit_bytes c) + bytes_after (if x then 0 else c) s
          ≡ (if x then 1 else unit_bytes c) + bytes_after (if x then 0 else c) [] + bytes_after 0 s
    go true = omega arith
    go false = omega (arith, bytes_after-plain c s h)
bytes_after-append b (d ∷ p) c s h =
    omega (arith, bytes_after-append (if is_high b && is_low d then 0 else d) p c s h)

-- Behind a unit that begins no pair, the bytes of the rest are counted by themselves.
pub byte_length-append :
    (p : Text) (c : ℕ) (s : Text)
    → is_high c ≡ false
    → byte_length (p ++ c ∷ s) ≡ byte_length (p ++ c ∷ []) + byte_length s
unfolding byte_length
byte_length-append p c s h = bytes_after-append 0 p c s h

pub byte_length-ascii : (c : ℕ) (s : Text) → c < 128 → byte_length (c ∷ s) ≡ suc (byte_length s)
unfolding byte_length bytes_after unit_bytes is_high is_low
byte_length-ascii c s h =
    let plain : is_high c ≡ false = ground (arith, h) in
    let single : unit_bytes c ≡ 1 = ground (arith, h) in
    rw (bytes_after-plain c s plain, single) (omega arith)

bytes_after-le : (b : ℕ) (s : Text) → length s ≤ bytes_after b s
unfolding bytes_after unit_bytes
bytes_after-le b [] = omega arith
bytes_after-le b (c ∷ s) =
    let rest = bytes_after-le (if is_high b && is_low c then 0 else c) s in ground (arith, rest)

-- A string has no fewer bytes than units.
pub length-le-byte_length : (s : Text) → length s ≤ byte_length s
unfolding byte_length
length-le-byte_length s = bytes_after-le 0 s
