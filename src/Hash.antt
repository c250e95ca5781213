-- ===== src/Hash.antt =====
-- hash.c: the line of the hashtable for a file handle. An `int64_t` is its bit pattern, below
-- `2 ^ 64`, and wraps as the shifts and subtractions of the source do on two's complement.
use forwarding_explorer_agio.Prelude.{
  ℕ, ◌+◌, ◌-◌, ◌*◌, ◌/◌, ◌%◌, ◌^◌, ◌≤◌, ◌<◌, ◌∷◌, [], arith, ltb, if◌then◌else◌,
}
use forwarding_explorer_agio.Prelude.Int.{ℤ, pos, negsuc, pos_part, neg_part}
use forwarding_explorer_agio.Data.{FileId}

abbrev pub agios_hash_shift : ℕ
agios_hash_shift = 6

abbrev pub agios_hash_entries : ℕ
agios_hash_entries = 2 ^ agios_hash_shift

abbrev word : ℕ
word = 2 ^ 64

abbrev shl : ℕ → ℕ → ℕ
shl n k = n * 2 ^ k % word

abbrev plus : ℕ → ℕ → ℕ
plus a b = (a + b) % word

abbrev minus : ℕ → ℕ → ℕ
minus a b = (a + word - b) % word

-- An `int64_t` shifted right keeps its sign.
abbrev signed_shr : ℕ → ℕ → ℤ
signed_shr x k = if ltb x (2 ^ 63) then pos (x / 2 ^ k) else negsuc (2 ^ (64 - k) - 1 - x / 2 ^ k)

-- The chain of shifts before the last line, each `n` being the one before it shifted on.
mixed : ℕ → ℕ
mixed val =
    let n18 = shl val 18 in
    let n51 = shl n18 33 in
    let n54 = shl n51 3 in
    let n57 = shl n54 3 in
    let n61 = shl n57 4 in
    let n63 = shl n61 2 in plus (plus (minus (plus (minus (minus val n18) n51) n54) n57) n61) n63

unfoldable pub calculate_hash : ℕ → ℤ
unfolding mixed
calculate_hash val = signed_shr (mixed val) (64 - agios_hash_shift)

-- A `char` is signed: a byte of 128 or more is added as a negative number.
abbrev sign_extend : ℕ → ℕ
sign_extend c = if ltb c 128 then c else c + word - 256

sum_chars : ℕ → FileId → ℕ
sum_chars sum [] = sum
sum_chars sum (c ∷ cs) = sum_chars (plus sum (sign_extend c)) cs

unfoldable pub get_hashtable_position : FileId → ℕ
unfolding sum_chars
get_hashtable_position file_handle =
    let sum = calculate_hash (sum_chars 0 file_handle) in
    (pos_part sum + neg_part sum) % agios_hash_entries

mixed-lt : (val : ℕ) → mixed val < word
unfolding mixed
mixed-lt val = omega arith

calculate_hash_magnitude :
    (val : ℕ) → pos_part (calculate_hash val) + neg_part (calculate_hash val) ≤ 32
unfolding calculate_hash
calculate_hash_magnitude val = ground (arith, mixed-lt val)

-- Every file handle has a line of the hashtable; and as the hash is the six high bits of a signed
-- number without its sign, no handle has one of the lines 33 to 63.
pub get_hashtable_position_bounds :
    (file_handle : FileId)
    → (get_hashtable_position file_handle < agios_hash_entries)
      × (get_hashtable_position file_handle ≤ 32)
unfolding get_hashtable_position
get_hashtable_position_bounds file_handle =
    let b = calculate_hash_magnitude (sum_chars 0 file_handle) in (omega arith, omega arith)
