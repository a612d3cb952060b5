-- ===== src/MultiChunk/Lookup.antt =====
-- The loop over the recipient headers of a chunk finds the recipient's key.
use node_ecies_lib.Prelude.{
  ℕ, suc, ◌+◌, ◌≡◌, refl, ap, ◌∙◌, Bool, true, false, ◌||◌, Option, some, List, [], ◌∷◌, ◌++◌,
  length, length-append, append_assoc, All, Bool-cases, inl, inr, if◌then◌else◌, arith,
}
use node_ecies_lib.Errors.{Result, ok, value_or}
use node_ecies_lib.Buffer.{Bytes, equals, be_bytes}
use node_ecies_lib.Buffer.Laws.{length-be_bytes}
use node_ecies_lib.Buffer.Fields.{At, At-next, At-subarray, At-read}
use node_ecies_lib.Ecies.{Consts}
use node_ecies_lib.MultiRecipient.Keys.{
  Crypto, IsGcm, DoAgree, decrypt_key, decrypt_key-encrypt_key,
}
use node_ecies_lib.Stream.Multiple.{Recipient}
use node_ecies_lib.MultiChunk.{ChunkDraw, RecipientHeader}
use node_ecies_lib.MultiChunk.Decrypt.{find_key}
use node_ecies_lib.MultiChunk.Written.{FitsRecord, record_bytes, records_bytes, length-record}
use node_ecies_lib.MultiChunk.Sealed.{key_for, headers_of}

-- The ID is one of the recipients'.
abbrev pub is_recipient : Bytes → List Recipient → Bool
is_recipient id [] = false
is_recipient id (r ∷ rs) = equals r.id id || is_recipient id rs

-- What the loop has found behind the recipients.
abbrev pub found_in : Bytes → Bytes → List Recipient → Option Bytes → Option Bytes
found_in id key [] found = found
found_in id key (r ∷ rs) found = found_in id key rs (if equals r.id id then some key else found)

found_in_kept : (id key : Bytes) (rs : List Recipient) → found_in id key rs (some key) ≡ some key
found_in_kept id key [] = refl
found_in_kept id key (r ∷ rs) = ground (arith, found_in_kept id key rs)

pub found_in-some :
    (id key : Bytes) (rs : List Recipient) (found : Option Bytes)
    → is_recipient id rs ≡ true
    → found_in id key rs found ≡ some key
found_in-some id key [] found h = cc
found_in-some id key (r ∷ rs) found h =
    ground (arith, found_in_kept id key rs, found_in-some id key rs found)

pub found_in-none :
    (id key : Bytes) (rs : List Recipient) (found : Option Bytes)
    → is_recipient id rs ≡ false
    → found_in id key rs found ≡ found
found_in-none id key [] found h = refl
found_in-none id key (r ∷ rs) found h = ground (arith, found_in-none id key rs found)

module _ (c : Consts) (crypto : Crypto) (gcm : IsGcm c crypto) (r : ChunkDraw)
    (symmetric_key ephemeral id private_key secret : Bytes)
    (ivs_sized : (i : ℕ) → length (r.key_ivs i) ≡ c.iv_size)
    (key_sized : length symmetric_key ≡ c.key_size) where
  -- A recipient with the ID has the public key of the private key.
  abbrev pub IsMine : Recipient → Type 0
  IsMine recipient =
      equals recipient.id id ≡ true
      → DoAgree crypto private_key recipient.public_key r.ephemeral_private ephemeral secret

  opens :
      (recipient : Recipient) (i : ℕ)
      → IsMine recipient
      → equals recipient.id id ≡ true
      → decrypt_key c crypto private_key
          (key_for c crypto r symmetric_key recipient i)
          ephemeral
          (some recipient.id)
        ≡ ok symmetric_key
  opens recipient i mine same =
      let (e, (made, (_, read))) =
        decrypt_key-encrypt_key c crypto gcm private_key recipient.public_key r.ephemeral_private
          ephemeral secret (r.key_ivs i) symmetric_key (some recipient.id) (mine same) (ivs_sized i)
          key_sized in
      ap
        (λ (x : Result Bytes).
          decrypt_key c crypto private_key (value_or x []) ephemeral (some recipient.id))
        made
      ∙ read

  module _ (data_ : Bytes) where
    pub find_key-At :
        (rs : List Recipient) (i offset : ℕ) (rest : Bytes) (found : Option Bytes)
        → All IsMine rs
        → All (FitsRecord c) (headers_of c crypto r symmetric_key rs i)
        → At data_ offset (records_bytes (headers_of c crypto r symmetric_key rs i) ++ rest)
        → find_key c crypto data_ ephemeral id private_key (length rs) offset found
          ≡ ok (
            found_in id symmetric_key rs found,
            offset + length (records_bytes (headers_of c crypto r symmetric_key rs i)),
          )
    unfolding find_key
    find_key-At [] i offset rest found mine fits at =
        ap (λ (n : ℕ). ok (found, n)) {y = offset + 0} (omega arith)
    find_key-At (x ∷ rs) i offset rest found (mx, ms) (fx, fs) at =
        let key = key_for c crypto r symmetric_key x i in
        let later = records_bytes (headers_of c crypto r symmetric_key rs (suc i)) in
        let behind = key ++ (later ++ rest) in
        let at_id : At data_ offset (x.id ++ (be_bytes 2 (length key) ++ behind)) = record {
          at = at.at ∙ simp append_assoc;
        } in
        let at_size =
          At-next x.id (be_bytes 2 (length key) ++ behind) c.recipient_id_size at_id fx.id_sized in
        let at_key =
          At-next (be_bytes 2 (length key)) behind 2 at_size (length-be_bytes 2 (length key)) in
        let at_next = At-next key (later ++ rest) (length key) at_key refl in
        let next = find_key-At rs (suc i) (offset + c.recipient_id_size + 2 + length key) rest in
        let header : RecipientHeader = record { id = x.id; encrypted_key = key } in
        let grown : offset + c.recipient_id_size + 2 + length key + length later
            ≡ offset + length (record_bytes header ++ later) =
          omega (arith, length-append (record_bytes header) later, length-record c header fx) in
        elim (Bool-cases (equals x.id id)) [
          | inl same ↦
              rw
                (
                  At-subarray x.id (be_bytes 2 (length key) ++ behind) c.recipient_id_size at_id
                      fx.id_sized,
                  At-read 2 (length key) behind (omega arith) fx.key_fits at_size,
                  At-subarray key (later ++ rest) (length key) at_key refl,
                  same,
                  opens x i mx same,
                  next (some symmetric_key) ms fs at_next,
                )
                (ap (λ (n : ℕ). ok (found_in id symmetric_key rs (some symmetric_key), n)) grown)
          | inr other ↦
              rw
                (
                  At-subarray x.id (be_bytes 2 (length key) ++ behind) c.recipient_id_size at_id
                      fx.id_sized,
                  At-read 2 (length key) behind (omega arith) fx.key_fits at_size,
                  other,
                  next found ms fs at_next,
                )
                (ap (λ (n : ℕ). ok (found_in id symmetric_key rs found, n)) grown)
        ]
