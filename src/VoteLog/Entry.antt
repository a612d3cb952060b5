-- ===== src/VoteLog/Entry.antt =====
-- The log of votes: `serializeVote`, `deserializeVote` and the loops of `replayVotes`. A number is
-- written as its hexadecimal digits, which are the lists of numbers below 16 here. `Number` of a
-- timestamp is exact below 2 ^ 53, and above that its rounding is not modelled.
use node_ecies_lib.Prelude.{
  ℕ, zero, suc, ◌+◌, ◌-◌, ◌*◌, ◌/◌, ◌%◌, Option, none, some, List, [], ◌∷◌, ◌++◌, map, length, take,
  drop, replicate, ltb, ◌==◌, if◌then◌else◌,
}
use node_ecies_lib.Errors.{Error, Result, ok, err, ◌>>=◌, syntax_error}
use node_ecies_lib.Buffer.{
  Bytes, alloc, subarray, subarray_from, be_acc, read_uint_be, write_uint_be,
}
use node_ecies_lib.Ecies.{PlatformId, buffer, uint8_array, other}

pub record Entry : Type 0 where
  pub voter_id : Bytes
  pub encrypted_vote : List ℕ
  pub timestamp : ℕ

-- value.toString(16), with as much fuel as the value
unfoldable pub hex_loop : ℕ → ℕ → List ℕ
hex_loop zero value = []
hex_loop (suc fuel) value =
    if value == 0 then [] else hex_loop fuel (value / 16) ++ (value % 16 ∷ [])

unfoldable pub to_hex : ℕ → List ℕ
unfolding hex_loop
to_hex value = if value == 0 then 0 ∷ [] else hex_loop value value

-- hex.padStart(size, '0')
unfoldable pub pad_start : ℕ → List ℕ → List ℕ
pad_start size digits = replicate (size - length digits) 0 ++ digits

-- Buffer.from(hex, 'hex'): an odd last digit is dropped.
unfoldable pub from_hex : List ℕ → Bytes
from_hex [] = []
from_hex (a ∷ []) = []
from_hex (a ∷ b ∷ digits) = (a * 16 + b) ∷ from_hex digits

unfoldable pub value_bytes : ℕ → Bytes
unfolding to_hex pad_start from_hex
value_bytes value = from_hex (pad_start 64 (to_hex value))

-- parts.reduce((sum, p) => sum + p.length, start)
unfoldable pub sum_lengths : ℕ → List Bytes → ℕ
sum_lengths sum [] = sum
sum_lengths sum (p ∷ parts) = sum_lengths (sum + length p) parts

-- part.copy(result, offset), which copies as much as there is room for
unfoldable pub copy_to : Bytes → ℕ → Bytes → Bytes
copy_to result offset part =
    take offset result ++ (take (length result - offset) part ++ drop (offset + length part) result)

unfoldable pub copy_parts : Bytes → ℕ → List Bytes → Bytes
unfolding copy_to
copy_parts result offset [] = result
copy_parts result offset (p ∷ parts) =
    copy_parts (copy_to result offset p) (offset + length p) parts

unfoldable pub serialize_vote : Entry → Result Bytes
unfolding sum_lengths copy_parts value_bytes write_uint_be
serialize_vote e = do
  time ← write_uint_be 8 e.timestamp (alloc 8) 0
  id_size ← write_uint_be 4 (length e.voter_id) (alloc 4) 0
  count ← write_uint_be 4 (length e.encrypted_vote) (alloc 4) 0
  let parts = time ∷ id_size ∷ e.voter_id ∷ count ∷ map value_bytes e.encrypted_vote
  let total = sum_lengths 4 parts
  sized ← write_uint_be 4 total (alloc total) 0
  ok (copy_parts sized 4 parts)

-- The log file, and `voteCount`.
pub record Logger : Type 0 where
  pub log : Bytes
  pub vote_count : ℕ

-- A voter's ID as it is logged: an ID that is not bytes is logged as one zero byte.
abbrev pub voter_bytes : {T : Type 0} → PlatformId T → Bytes
voter_bytes (buffer b) = b
voter_bytes (uint8_array b) = b
voter_bytes (other t) = 0 ∷ []

-- `appendVote`, where the write to the file succeeds.
unfoldable pub append_vote : {T : Type 0} → Logger → PlatformId T → List ℕ → ℕ → Result Logger
unfolding serialize_vote
append_vote l voter encrypted_vote timestamp = do
  entry ← serialize_vote (record {
    voter_id = voter_bytes voter;
    encrypted_vote = encrypted_vote;
    timestamp = timestamp;
  })
  ok (record { log = l.log ++ entry; vote_count = suc l.vote_count })

-- BigInt('0x' + hex), which throws without digits
unfoldable pub read_value : Bytes → Result ℕ
unfolding be_acc
read_value [] = err syntax_error
read_value (b ∷ bs) = ok (be_acc 0 (b ∷ bs))

unfoldable pub read_values : Bytes → ℕ → ℕ → Result (List ℕ)
unfolding read_value subarray
read_values entry zero offset = ok []
read_values entry (suc count) offset = do
  value ← read_value (subarray entry offset (offset + 32))
  values ← read_values entry count (offset + 32)
  ok (value ∷ values)

unfoldable pub deserialize_vote : Bytes → Result Entry
unfolding read_values subarray read_uint_be
deserialize_vote entry = do
  timestamp ← read_uint_be 8 entry 4
  id_size ← read_uint_be 4 entry 12
  let voter_id = subarray entry 16 (16 + id_size)
  count ← read_uint_be 4 entry (16 + id_size)
  values ← read_values entry count (16 + id_size + 4)
  ok (record { voter_id = voter_id; encrypted_vote = values; timestamp = timestamp })

-- What a generator has yielded, what is left in its buffer, and what it threw.
pub record Replayed : Type 0 where
  pub entries : List Entry
  pub buf : Bytes
  pub error : Option Error

abbrev pub yielded : Entry → Replayed → Replayed
yielded e r = record r { entries = e ∷ r.entries }

-- `while (buffer.length >= 8)`, with as much fuel as the buffer is long
unfoldable pub drain : ℕ → Bytes → Replayed
unfolding read_uint_be subarray subarray_from deserialize_vote
drain zero buf = record { entries = []; buf = buf; error = none }
drain (suc fuel) buf =
    let stop : Replayed = record { entries = []; buf = buf; error = none } in
    if ltb (length buf) 8 then stop else elim (read_uint_be 4 buf 0) [
      | err e ↦ record stop { error = some e }
      | ok size ↦
          if ltb (length buf) size then stop else elim (deserialize_vote (subarray buf 0 size)) [
            | err e ↦ record stop { buf = subarray_from buf size; error = some e }
            | ok entry ↦ yielded entry (drain fuel (subarray_from buf size))
          ]
    ]

-- `for await (const chunk of stream)`, until something is thrown
unfoldable pub replay_votes : Bytes → List Bytes → Replayed
unfolding drain
replay_votes buf [] = record { entries = []; buf = buf; error = none }
replay_votes buf (chunk ∷ chunks) =
    let now = drain (length (buf ++ chunk)) (buf ++ chunk) in
    elim now.error [
      | some e ↦ now
      | none ↦
          let later = replay_votes now.buf chunks in
          record later { entries = now.entries ++ later.entries }
    ]
