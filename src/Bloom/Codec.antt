-- ===== src/Bloom/Codec.antt =====
-- bloom.go: the state of a filter as it is saved and loaded: the bytes of `bitsetToBytes` and
-- `bytesToBitset`, and what is done with a state that was loaded.
use go_patternx.Base.{
  List, ℕ, ◌*◌, ◌/◌, ◌<◌, Bool, set, ◌≡◌, ◌%◌, ◌+◌, ◌==◌, [], false, get_or, length, ltb, replicate,
  ◌∷◌, ◌&&◌, if◌then◌else◌, suc, ◌||◌, arith, zero, refl, length-set, ◌≤◌, Bool-cases, leb, ◌-◌,
  inl, inr, true, ap, not, length-replicate, ◌∙◌, Option, some, none,
}
use go_patternx.Bloom.{BloomFilter, annotate, ok, text, GoError, String, wrap, err}
use go_patternx.Errors.{Result, fail_if, map_err, ◌>>◌, ◌>>=◌, Result-cases, deserialization_failed}

-- `b & (1 << k) != 0` on a byte.
pub test_bit : ℕ → ℕ → Bool
test_bit b zero = b % 2 == 1
test_bit b (suc k) = test_bit (b / 2) k

-- `b | (1 << k)` on a byte.
pub or_bit : ℕ → ℕ → ℕ
or_bit b zero = 2 * (b / 2) + 1
or_bit b (suc k) = b % 2 + 2 * or_bit (b / 2) k

abbrev put_bit : List ℕ → ℕ → List ℕ
put_bit bytes i = set bytes (i / 8) (or_bit (get_or bytes (i / 8) 0) (i % 8))

-- The loop of `bitsetToBytes`.
pack_from : ℕ → List Bool → List ℕ → List ℕ
pack_from i [] bytes = bytes
pack_from i (b ∷ bs) bytes = pack_from (i + 1) bs (if b then put_bit bytes i else bytes)

unfoldable pub bitset_to_bytes : List Bool → List ℕ
unfolding pack_from or_bit
bitset_to_bytes bs = pack_from 0 bs (replicate ((length bs + 7) / 8) 0)

read_bit : List ℕ → ℕ → Bool
unfolding test_bit
read_bit bytes i = ltb (i / 8) (length bytes) && test_bit (get_or bytes (i / 8) 0) (i % 8)

-- The loop of `bytesToBitset`.
unpack_from : ℕ → ℕ → List ℕ → List Bool
unfolding read_bit
unpack_from zero i bytes = []
unpack_from (suc n) i bytes = read_bit bytes i ∷ unpack_from n (i + 1) bytes

-- The numbers of the JSON array are bytes.
unfoldable pub bytes_to_bitset : List ℕ → ℕ → List Bool
unfolding unpack_from
bytes_to_bitset bytes size = unpack_from size 0 bytes

test_bit-or_bit : (b k l : ℕ) → test_bit (or_bit b k) l ≡ (k == l || test_bit b l)
unfolding test_bit or_bit
test_bit-or_bit b zero zero = ground arith
test_bit-or_bit b zero (suc l) =
    let half : (2 * (b / 2) + 1) / 2 ≡ b / 2 = omega arith in ground (arith, half)
test_bit-or_bit b (suc k) zero = ground arith
test_bit-or_bit b (suc k) (suc l) =
    let high = or_bit (b / 2) k in
    let half : (b % 2 + 2 * high) / 2 ≡ high = omega arith in
    ground (arith, half, test_bit-or_bit (b / 2) k l)

test_bit_zero : (k : ℕ) → test_bit 0 k ≡ false
unfolding test_bit
test_bit_zero zero = refl
test_bit_zero (suc k) = test_bit_zero k

get_or-set_byte :
    (bytes : List ℕ) (p q v : ℕ)
    → p < length bytes
    → get_or (set bytes p v) q 0 ≡ (if p == q then v else get_or bytes q 0)
get_or-set_byte [] p q v h = ground arith
get_or-set_byte (b ∷ bytes) zero zero v h = ground arith
get_or-set_byte (b ∷ bytes) zero (suc q) v h = ground arith
get_or-set_byte (b ∷ bytes) (suc p) zero v h = ground arith
get_or-set_byte (b ∷ bytes) (suc p) (suc q) v h = ground (arith, get_or-set_byte bytes p q v)

read_bit-put_bit :
    (bytes : List ℕ) (i j : ℕ)
    → i / 8 < length bytes
    → read_bit (put_bit bytes i) j ≡ (i == j || read_bit bytes j)
unfolding read_bit
read_bit-put_bit bytes i j h =
    let v = or_bit (get_or bytes (i / 8) 0) (i % 8) in
    let placed = get_or-set_byte bytes (i / 8) (j / 8) v h in
    let bit = test_bit-or_bit (get_or bytes (i / 8) 0) (i % 8) (j % 8) in
    let long = length-set bytes (i / 8) v in
    elim (Bool-cases (i / 8 == j / 8)) [
      | inl same ↦
          let here : i / 8 ≡ j / 8 = ground arith in
          let old = ap (λ p. get_or bytes p 0) here in ground arith
      | inr other ↦ ground arith
    ]

-- The bit `j` of a list that starts at `i`, by its first bit and the rest.
at_or_after :
    (b : Bool) (bs : List Bool) (i j : ℕ)
    → (leb i j && get_or (b ∷ bs) (j - i) false)
      ≡ ((i == j && b) || (leb (i + 1) j && get_or bs (j - (i + 1)) false))
at_or_after b bs i j = elim (Bool-cases (i == j)) [
  | inl same ↦
      let first : j - i ≡ 0 = ground arith in
      let at_first = ap (λ p. get_or (b ∷ bs) p false) first in ground arith
  | inr other ↦ elim (Bool-cases (leb i j)) [
    | inl after ↦
        let next : j - i ≡ suc (j - (i + 1)) = ground arith in
        let at_next = ap (λ p. get_or (b ∷ bs) p false) next in ground arith
    | inr before ↦ ground arith
  ]
]

read_bit-pack_from :
    (bs : List Bool) (i j : ℕ) (bytes : List ℕ)
    → i + length bs ≤ 8 * length bytes
    → read_bit (pack_from i bs bytes) j ≡ ((leb i j && get_or bs (j - i) false) || read_bit bytes j)
unfolding pack_from
read_bit-pack_from [] i j bytes h = ground arith
read_bit-pack_from (true ∷ bs) i j bytes h = ground (
  arith,
  at_or_after true bs i j,
  length-set bytes (i / 8) (or_bit (get_or bytes (i / 8) 0) (i % 8)),
  read_bit-put_bit bytes i j,
  read_bit-pack_from bs (i + 1) j (put_bit bytes i),
)
read_bit-pack_from (false ∷ bs) i j bytes h =
    ground (arith, at_or_after false bs i j, read_bit-pack_from bs (i + 1) j bytes)

get_or-replicate_byte : (n j : ℕ) → get_or {A = ℕ} (replicate n 0) j 0 ≡ 0
get_or-replicate_byte zero j = refl
get_or-replicate_byte (suc n) zero = refl
get_or-replicate_byte (suc n) (suc j) = get_or-replicate_byte n j

read_bit-replicate : (n j : ℕ) → read_bit (replicate n 0) j ≡ false
unfolding read_bit
read_bit-replicate n j =
    let nothing = ap (λ b. test_bit b (j % 8)) (get_or-replicate_byte n (j / 8)) in
    ground (arith, nothing, test_bit_zero (j % 8))

unpack_from_same :
    (bs : List Bool) (i : ℕ) (bytes : List ℕ)
    → ((k : ℕ) → k < length bs → read_bit bytes (i + k) ≡ get_or bs k false)
    → unpack_from (length bs) i bytes ≡ bs
unfolding unpack_from
unpack_from_same [] i bytes h = refl
unpack_from_same (b ∷ bs) i bytes h =
    let from_start : i + 0 ≡ i = omega arith in
    let first = ap (λ n. read_bit bytes n) from_start in
    let later : (k : ℕ) → k < length bs → read_bit bytes (i + 1 + k) ≡ get_or bs k false = λ k l.
      let shift : i + 1 + k ≡ i + suc k = omega arith in
      ap (λ n. read_bit bytes n) shift ∙ h (suc k) (omega (arith, l)) in
    let rest = unpack_from_same bs (i + 1) bytes later in ground (arith, h 0)

packed_bit :
    (bs : List Bool) (k : ℕ)
    → k < length bs
    → read_bit (bitset_to_bytes bs) (0 + k) ≡ get_or bs k false
unfolding bitset_to_bytes
packed_bit bs k h =
    let bytes : List ℕ = replicate ((length bs + 7) / 8) 0 in
    let long : length bytes ≡ (length bs + 7) / 8 = length-replicate ((length bs + 7) / 8) 0 in
    let empty : read_bit bytes k ≡ false = read_bit-replicate ((length bs + 7) / 8) k in
    let packed = read_bit-pack_from bs 0 k bytes (omega (arith, long)) in
    let from_start : 0 + k ≡ k = omega arith in
    let same = ap (λ n. read_bit (pack_from 0 bs bytes) n) from_start in
    let no_shift : k - 0 ≡ k = omega arith in
    let same_bit = ap (λ n. get_or bs n false) no_shift in same ∙ ground arith

-- The bits that are read back from the bytes of a bitset are the bitset, whatever its length.
pub bytes_to_bitset-bitset_to_bytes :
    (bs : List Bool) → bytes_to_bitset (bitset_to_bytes bs) (length bs) ≡ bs
unfolding bytes_to_bitset bitset_to_bytes
bytes_to_bitset-bitset_to_bytes bs =
    unpack_from_same bs 0 (bitset_to_bytes bs) (λ k l. packed_bit bs k l)

-- A value of the JSON object as `encoding/json` gives it to an `interface{}`. Of an array only the
-- numbers are kept, as bytes: an element that is none sets no bit.
pub data JsonValue : Type 0 where
  json_missing : JsonValue
  json_number : ℕ → JsonValue
  json_string : String → JsonValue
  json_array : List (Option ℕ) → JsonValue

-- The fields that `deserializeState` reads, but for the times, which are only shown. Up to 2^53 a
-- number is kept exactly.
pub record SavedState : Type 0 where
  pub version : JsonValue
  pub saved_count : JsonValue
  pub saved_size : JsonValue
  pub saved_hashes : JsonValue
  pub saved_bitset : JsonValue

-- The version and the times, which are only shown, are left out.
pub record BloomFilterState : Type 0 where
  pub item_count : ℕ
  pub size : ℕ
  pub hash_count : ℕ
  pub bitset : List Bool

-- `base64` is what `encoding/json` does to a `[]byte`: it writes it as a string.
unfoldable pub serialize_state : (List ℕ → String) → BloomFilter → SavedState
serialize_state base64 bf = record {
  version = json_string "1.1";
  saved_count = json_number bf.item_count;
  saved_size = json_number bf.size;
  saved_hashes = json_number bf.hash_count;
  saved_bitset = json_string (base64 (bitset_to_bytes bf.bitset));
}

-- The type assertions.
as_string : JsonValue → GoError → Result String
as_string (json_string t) e = ok t
as_string _ e = err e

as_number : JsonValue → GoError → Result ℕ
as_number (json_number n) e = ok n
as_number _ e = err e

as_array : JsonValue → GoError → Result (List (Option ℕ))
as_array (json_array a) e = ok a
as_array _ e = err e

bytes_of : List (Option ℕ) → List ℕ
bytes_of [] = []
bytes_of (none ∷ a) = 0 ∷ bytes_of a
bytes_of (some b ∷ a) = b % 256 ∷ bytes_of a

unfoldable pub deserialize_state : SavedState → Result BloomFilterState
unfolding as_string as_number as_array bytes_of
deserialize_state s =
    as_string s.version (text "invalid version in enhanced state")
    >> (as_number s.saved_count (text "invalid item_count in enhanced state") >>= λ item_count.
        as_number s.saved_size (text "invalid size in enhanced state") >>= λ size.
        as_number s.saved_hashes (text "invalid hash_count in enhanced state") >>= λ hash_count.
        as_array s.saved_bitset (text "invalid bitset in enhanced state") >>= λ bitset. ok (record {
          item_count = item_count;
          size = size;
          hash_count = hash_count;
          bitset = bytes_to_bitset (bytes_of bitset) size;
        }))

pub validate_bloom_filter_state : BloomFilterState → ℕ → ℕ → Result (Unit {0})
validate_bloom_filter_state s size hash_count =
    fail_if (not (s.size == size)) (text "loaded size does not match")
    >> fail_if (not (s.hash_count == hash_count)) (text "loaded hash count does not match")
    >> fail_if (not (length s.bitset == size)) (text "loaded bitset length does not match")

-- `copy(dst, src)`.
pub copy : List Bool → List Bool → List Bool
copy [] src = []
copy (d ∷ dst) [] = d ∷ dst
copy (d ∷ dst) (s ∷ src) = s ∷ copy dst src

-- `loadFromStore` once the state has been read.
apply_state : BloomFilter → BloomFilterState → Result BloomFilter
unfolding validate_bloom_filter_state copy
apply_state bf state =
    map_err (annotate "invalid loaded state")
      (validate_bloom_filter_state state bf.size bf.hash_count)
    >> ok (record bf { item_count = state.item_count; bitset = copy bf.bitset state.bitset })

-- `loadFromStore` once the data has been received and is a JSON object.
unfoldable pub load_state : BloomFilter → SavedState → Result BloomFilter
unfolding apply_state
load_state bf s =
    map_err (wrap deserialization_failed) (deserialize_state s) >>= λ state. apply_state bf state

length-copy : (dst src : List Bool) → length (copy dst src) ≡ length dst
unfolding copy
length-copy [] src = refl
length-copy (d ∷ dst) [] = refl
length-copy (d ∷ dst) (s ∷ src) = ap suc (length-copy dst src)

-- What is loaded keeps the size of the bitset and the settings.
pub load_state-same :
    (bf loaded : BloomFilter) (s : SavedState)
    → load_state bf s ≡ ok loaded
    → (length loaded.bitset ≡ length bf.bitset)
      × (loaded.size ≡ bf.size)
      × (loaded.hash_count ≡ bf.hash_count)
      × (loaded.max_items ≡ bf.max_items)
      × (loaded.closed ≡ bf.closed)
unfolding load_state
load_state-same bf loaded s h = elim (Result-cases (deserialize_state s)) [
  | inl (state, read) ↦ ground (arith, length-copy bf.bitset state.bitset)
  | inr (e, failed) ↦ ground arith
]

-- What a filter has saved is never loaded, into whatever filter: its bitset is written as a string,
-- where an array is expected.
pub load_state-serialize_state :
    (base64 : List ℕ → String) (bf into : BloomFilter)
    → load_state into (serialize_state base64 bf)
      ≡ err (wrap deserialization_failed (text "invalid bitset in enhanced state"))
unfolding load_state serialize_state deserialize_state
load_state-serialize_state base64 bf into = refl
