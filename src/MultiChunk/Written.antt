-- ===== src/MultiChunk/Written.antt =====
-- The bytes of a chunk for several recipients, and that `encrypt_chunk` writes them.
use node_ecies_lib.Prelude.{
  ℕ, ◌+◌, ◌^◌, ◌<◌, ◌≡◌, refl, sym, ap, ◌∙◌, List, [], ◌∷◌, ◌++◌, length, length-append,
  append_assoc, append-nil, All, arith,
}
use node_ecies_lib.Errors.{Result, ok}
use node_ecies_lib.Buffer.{Bytes, alloc, be_bytes}
use node_ecies_lib.Buffer.Laws.{length-be_bytes, write-zeros}
use node_ecies_lib.Ecies.{Consts}
use node_ecies_lib.VoteLog.Entry.{copy_to}
use node_ecies_lib.VoteLog.Writing.{copy_to-alloc}
use node_ecies_lib.MultiChunk.{
  ChunkHeader, RecipientHeader, write_fixed, write_recipients, recipient_headers_size,
}

pub copy-zeros :
    (pre part : Bytes) (left at n : ℕ)
    → at ≡ length pre
    → n ≡ length part + left
    → copy_to (pre ++ alloc n) at part ≡ (pre ++ part) ++ alloc left
copy-zeros pre part left at n here sized = rw (here, sized) (copy_to-alloc pre part left)

abbrev state : Bytes → ℕ → Result (Bytes × ℕ)
state chunk offset = ok (chunk, offset)

same_state : {a b : Bytes} {m n : ℕ} → a ≡ b → m ≡ n → state a m ≡ state b n
same_state p q = rw (p, q) refl

-- The fixed fields of the header, and the ephemeral key.
abbrev pub fixed_bytes : ChunkHeader → Bytes → Bytes
fixed_bytes h ephemeral =
    be_bytes 4 h.magic
    ++ (be_bytes 2 h.version
        ++ (be_bytes 2 h.recipient_count
            ++ (be_bytes 4 h.chunk_index
                ++ (be_bytes 4 h.original_size
                    ++ (be_bytes 4 h.encrypted_size ++ (be_bytes 1 h.flags ++ ephemeral))))))

-- The fields fit.
pub record FitsHeader (h : ChunkHeader) : Type 0 where
  pub magic_fits : h.magic < 2 ^ 32
  pub version_fits : h.version < 2 ^ 16
  pub count_fits : h.recipient_count < 2 ^ 16
  pub index_fits : h.chunk_index < 2 ^ 32
  pub original_fits : h.original_size < 2 ^ 32
  pub encrypted_fits : h.encrypted_size < 2 ^ 32
  pub flags_fit : h.flags < 256

pub length-fixed_bytes :
    (h : ChunkHeader) (ephemeral : Bytes) → length (fixed_bytes h ephemeral) ≡ 21 + length ephemeral
length-fixed_bytes h ephemeral = simp length-append (omega (arith, length-be_bytes))

pub write_fixed-alloc :
    (h : ChunkHeader) (ephemeral : Bytes) (left n : ℕ)
    → n ≡ 54 + left
    → FitsHeader h
    → length ephemeral ≡ 33
    → write_fixed (alloc n) h ephemeral ≡ ok (fixed_bytes h ephemeral ++ alloc left)
unfolding write_fixed
write_fixed-alloc h ephemeral left n total fits sized =
    let f1 = be_bytes 4 h.magic in
    let f2 = f1 ++ be_bytes 2 h.version in
    let f3 = f2 ++ be_bytes 2 h.recipient_count in
    let f4 = f3 ++ be_bytes 4 h.chunk_index in
    let f5 = f4 ++ be_bytes 4 h.original_size in
    let f6 = f5 ++ be_bytes 4 h.encrypted_size in
    let f7 = f6 ++ be_bytes 1 h.flags in
    rw
      (
        write-zeros [] 4 h.magic (50 + left) 0 n refl (omega (arith, total))
            (omega (arith, fits.magic_fits)),
        write-zeros f1 2 h.version (48 + left) 4 (50 + left) refl (omega arith)
            (omega (arith, fits.version_fits)),
        write-zeros f2 2 h.recipient_count (46 + left) 6 (48 + left) refl (omega arith)
            (omega (arith, fits.count_fits)),
        write-zeros f3 4 h.chunk_index (42 + left) 8 (46 + left) refl (omega arith)
            (omega (arith, fits.index_fits)),
        write-zeros f4 4 h.original_size (38 + left) 12 (42 + left) refl (omega arith)
            (omega (arith, fits.original_fits)),
        write-zeros f5 4 h.encrypted_size (34 + left) 16 (38 + left) refl (omega arith)
            (omega (arith, fits.encrypted_fits)),
        write-zeros f6 1 h.flags (33 + left) 20 (34 + left) refl (omega arith)
            (omega (arith, fits.flags_fit)),
        copy-zeros f7 ephemeral left 21 (33 + left) refl (omega (arith, sized)),
      )
      refl

-- The header of one recipient.
abbrev pub record_bytes : RecipientHeader → Bytes
record_bytes h = h.id ++ (be_bytes 2 (length h.encrypted_key) ++ h.encrypted_key)

abbrev pub records_bytes : List RecipientHeader → Bytes
records_bytes [] = []
records_bytes (h ∷ hs) = record_bytes h ++ records_bytes hs

module _ (c : Consts) where
  pub record FitsRecord (h : RecipientHeader) : Type 0 where
    pub id_sized : length h.id ≡ c.recipient_id_size
    pub key_fits : length h.encrypted_key < 2 ^ 16

  pub recipient_headers_size-records :
      (hs : List RecipientHeader) (sum : ℕ)
      → All FitsRecord hs
      → recipient_headers_size c sum hs ≡ sum + length (records_bytes hs)
  unfolding recipient_headers_size
  recipient_headers_size-records [] sum fits = omega arith
  recipient_headers_size-records (h ∷ hs) sum (fh, fs) =
      recipient_headers_size-records hs (sum + (c.recipient_id_size + 2 + length h.encrypted_key))
        fs
      ∙ omega (
        arith,
        length-append (record_bytes h) (records_bytes hs),
        length-append h.id (be_bytes 2 (length h.encrypted_key) ++ h.encrypted_key),
        length-append (be_bytes 2 (length h.encrypted_key)) h.encrypted_key,
        length-be_bytes 2 (length h.encrypted_key),
        fh.id_sized,
      )

  pub length-record :
      (h : RecipientHeader)
      → FitsRecord h
      → length (record_bytes h) ≡ c.recipient_id_size + 2 + length h.encrypted_key
  length-record h fits = omega (
    arith,
    length-append h.id (be_bytes 2 (length h.encrypted_key) ++ h.encrypted_key),
    length-append (be_bytes 2 (length h.encrypted_key)) h.encrypted_key,
    length-be_bytes 2 (length h.encrypted_key),
    fits.id_sized,
  )

  pub write_recipients-alloc :
      (hs : List RecipientHeader) (pre : Bytes) (left at n : ℕ)
      → All FitsRecord hs
      → at ≡ length pre
      → n ≡ length (records_bytes hs) + left
      → write_recipients c hs (pre ++ alloc n) at
        ≡ ok ((pre ++ records_bytes hs) ++ alloc left, at + length (records_bytes hs))
  unfolding write_recipients
  write_recipients-alloc [] pre left at n fits here sized =
      same_state
        (ap (λ (k : ℕ). pre ++ alloc k) {y = left} (omega (arith, sized))
          ∙ ap (λ (t : Bytes). t ++ alloc left) (sym (append-nil pre)))
        (omega arith)
  write_recipients-alloc (h ∷ hs) pre left at n (fh, fs) here sized =
      let key = h.encrypted_key in
      let more = length (records_bytes hs) + left in
      let p1 = pre ++ h.id in
      let p2 = p1 ++ be_bytes 2 (length key) in
      let p3 = p2 ++ key in
      let total : n ≡ length h.id + (2 + (length key + more)) = omega (
        arith,
        sized,
        length-append (record_bytes h) (records_bytes hs),
        length-record h fh,
        fh.id_sized,
      ) in
      let size_at : at + c.recipient_id_size ≡ length p1 =
        omega (arith, length-append pre h.id, fh.id_sized, here) in
      let key_at : at + c.recipient_id_size + 2 ≡ length p2 = omega (
        arith,
        size_at,
        length-append p1 (be_bytes 2 (length key)),
        length-be_bytes 2 (length key),
      ) in
      let next_at : at + c.recipient_id_size + 2 + length key ≡ length p3 =
        omega (arith, key_at, length-append p2 key) in
      rw
        (
          copy-zeros pre h.id (2 + (length key + more)) at n here total,
          write-zeros p1 2 (length key) (length key + more) (at + c.recipient_id_size)
              (2 + (length key + more)) size_at refl (omega (arith, fh.key_fits)),
          copy-zeros p2 key more (at + c.recipient_id_size + 2) (length key + more) key_at refl,
          write_recipients-alloc hs p3 left (at + c.recipient_id_size + 2 + length key) more fs
              next_at refl,
        )
        (same_state (ap (λ (t : Bytes). t ++ alloc left) (simp append_assoc))
          (omega (arith, length-append (record_bytes h) (records_bytes hs), length-record h fh)))
