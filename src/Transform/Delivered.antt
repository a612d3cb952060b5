-- ===== src/Transform/Delivered.antt =====
-- The streams of EciesDecryptionTransform and EciesEncryptTransform, with the service.
use node_ecies_lib.Prelude.{
  ℕ, ◌+◌, ◌-◌, ◌<◌, ◌≤◌, ◌≡◌, ap, ◌∙◌, none, some, List, [], length, min, Bool, not, ◌&&◌, ◌==◌,
  if◌then◌else◌, eq→==, arith,
}
use node_ecies_lib.Prelude.Int.{ℤ}
use node_ecies_lib.Errors.{Result, ok, ◌>>=◌}
use node_ecies_lib.Buffer.{Bytes, concat}
use node_ecies_lib.Ecies.{Consts}
use node_ecies_lib.CryptoCore.{Node}
use node_ecies_lib.CryptoCore.Agreement.{IsSecp256k1, get_public_key_inv}
use node_ecies_lib.SingleRecipient.Reading.{IsDocumentedSingle}
use node_ecies_lib.SingleRecipient.Written.{IsAead}
use node_ecies_lib.SingleRecipient.Refusals.{decrypt_with_header-ex}
use node_ecies_lib.SingleRecipient.RoundTrip.{decrypt-encrypt_basic}
use node_ecies_lib.Service.{encrypt_basic, decrypt_basic_with_header, compute_encrypted_length}
use node_ecies_lib.Service.Streams.{ValidDraw}
use node_ecies_lib.Service.Lengths.{differs_self}
use node_ecies_lib.Transform.{
  invalid_public_key, encryption_failed, passed_on, Pushed, block_loop, flush, transform_all,
  encrypt_transform, decrypt_transform,
}
use node_ecies_lib.Transform.Chunking.{transform_all-loop}
use node_ecies_lib.Transform.RoundTrip.{block_loop-IsUndone}

module _ (c : Consts) (doc : IsDocumentedSingle c) {S : Type 0} (node : Node S)
    (law : IsSecp256k1 node) (aead : IsAead c node) (ensure_type : ℕ → Result ℕ)
    (ensured : ensure_type c.type_basic ≡ ok c.type_basic)
    (receiver_private receiver_public : Bytes)
    (draws : ℕ → ValidDraw c node receiver_private receiver_public) (block_size : ℕ)
    (positive : c.basic_fixed_overhead_size < block_size)
    (fits : block_size ≤ c.basic_fixed_overhead_size + min 0x7fffffff c.max_raw_data_size) where
  -- The capacity as the constructor computes it.
  abbrev capacity : ℕ
  capacity = block_size - (block_size + c.basic_fixed_overhead_size - block_size)

  abbrev seal : ℕ → Bytes → Result Bytes
  seal count m = encrypt_basic c node (draws count).draw receiver_public m []

  abbrev open_ : ℕ → Bytes → Result Bytes
  open_ count e = decrypt_basic_with_header c node ensure_type receiver_private e 0 none

  block_delivered :
      (count : ℕ) (m : Bytes)
      → 0 < length m
      → length m ≤ capacity
      → (e : Bytes) × ((seal count m ≡ ok e)
          × ((length e ≡ length m + c.basic_fixed_overhead_size) × ((i : ℕ) → open_ i e ≡ ok m)))
  unfolding encrypt_basic decrypt_basic_with_header
  block_delivered count m full short =
      let r = draws count in
      let (e, (made, (sized, read))) =
        decrypt-encrypt_basic c doc node law aead ensure_type receiver_private receiver_public
          r.draw.ephemeral_private_key r.ephemeral_public r.secret r.exchange r.draw.iv r.iv_sized
          [] m
          (record {
            nonempty = full;
            not_large = omega (arith, fits, short);
            allowed = omega (arith, fits, short);
          })
          (some c.type_basic) ensured (differs_self c.type_basic) in
      (
        e,
        (
          made,
          (
            omega (arith, sized),
            λ i.
                decrypt_with_header-ex c node ensure_type (some c.type_basic) receiver_private e 0
                  none
                ∙ ap (λ (x : Result (Bytes × ℤ)). x >>= λ y. ok y.0) read,
          ),
        ),
      )

  abbrev pushed : Bytes → Pushed
  pushed bytes =
      block_loop seal (λ e. encryption_failed) capacity (length bytes) bytes 0
        (flush seal (λ e. encryption_failed) capacity)

  accepted :
      (source : List Bytes)
      → encrypt_transform c node (λ i. (draws i).draw) block_size receiver_public source
        ≡ transform_all seal (λ e. encryption_failed) capacity source [] 0
  unfolding encrypt_transform compute_encrypted_length
  accepted source =
      let known =
        get_public_key_inv c node receiver_private receiver_public (draws 0).exchange.receiver in
      ap
        (λ (t : Bool).
          if not t && not (length receiver_public == 65)
          then record { blocks = []; error = some invalid_public_key }
          else transform_all seal (λ e. encryption_failed) capacity source [] 0)
        (eq→== (length receiver_public) 33
          (law.compressed receiver_private receiver_public known).0)

  encrypt_transform-pushed :
      (source : List Bytes)
      → encrypt_transform c node (λ i. (draws i).draw) block_size receiver_public source
        ≡ pushed (concat source)
  encrypt_transform-pushed source =
      accepted source
      ∙ transform_all-loop seal (λ e. encryption_failed) capacity (omega (arith, positive)) source
          [] 0 (length (concat source)) (omega (arith, positive)) (omega arith)

  decrypt_transform-opened :
      (chunks : List Bytes)
      → decrypt_transform c node ensure_type receiver_private block_size chunks
        ≡ block_loop open_ passed_on
            (capacity + c.basic_fixed_overhead_size)
            (length (concat chunks))
            (concat chunks)
            0
            (flush open_ passed_on (capacity + c.basic_fixed_overhead_size))
  unfolding decrypt_transform
  decrypt_transform-opened chunks =
      transform_all-loop open_ passed_on block_size (omega (arith, positive)) chunks [] 0
        (length (concat chunks)) (omega (arith, positive)) (omega arith)
      ∙ ap
          (λ (n : ℕ).
            block_loop open_ passed_on n (length (concat chunks)) (concat chunks) 0
              (flush open_ passed_on n))
          {x = block_size} {y = capacity + c.basic_fixed_overhead_size} (omega (arith, positive))

  -- For a block size over the overhead whose capacity is an allowed length, where the keys agree
  -- and the IVs have their size, a source is encrypted without an error, and whatever chunks make up
  -- the encrypted blocks, the receiver decrypts them without an error to what makes up the source.
  pub decrypt_transform-encrypt_transform :
      (source chunks : List Bytes)
      → concat chunks
        ≡ concat
            (encrypt_transform c node
              (λ i. (draws i).draw)
              block_size
              receiver_public
              source).blocks
      → ((encrypt_transform c node (λ i. (draws i).draw) block_size receiver_public source).error
          ≡ none)
        × ((decrypt_transform c node ensure_type receiver_private block_size chunks).error ≡ none)
        × (concat (decrypt_transform c node ensure_type receiver_private block_size chunks).blocks
            ≡ concat source)
  decrypt_transform-encrypt_transform source chunks cut =
      let same = encrypt_transform-pushed source in
      let undone =
        block_loop-IsUndone seal open_ (λ e. encryption_failed) passed_on capacity
          c.basic_fixed_overhead_size (omega (arith, positive)) block_delivered
          (length (concat source)) (concat source) 0 (omega arith) in
      let blocks = concat (pushed (concat source)).blocks in
      let opened =
        decrypt_transform-opened chunks
        ∙ ap
            (λ (b : Bytes).
              block_loop open_ passed_on (capacity + c.basic_fixed_overhead_size) (length b) b 0
                (flush open_ passed_on (capacity + c.basic_fixed_overhead_size)))
            (cut ∙ ap (λ (p : Pushed). concat p.blocks) same) in
      let (clean, bytes) = undone.undone (length blocks) 0 (omega arith) in
      (
        ap (λ (p : Pushed). p.error) same ∙ undone.clean,
        ap (λ (p : Pushed). p.error) opened ∙ clean,
        ap (λ (p : Pushed). concat p.blocks) opened ∙ bytes,
      )
