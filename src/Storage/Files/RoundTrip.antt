-- ===== src/Storage/Files/RoundTrip.antt =====
-- A file that is encrypted is decrypted.
use static.Common.{
  ℕ, zero, suc, ◌+◌, ◌*◌, ◌-◌, ◌≡◌, ◌≤◌, refl, ap, ◌∙◌, List, [], ◌∷◌, ◌++◌, length, take, drop,
  slice, replicate, copy_from_slice, min, arith, length-take, length-drop, length-append,
  length-replicate, take-append, take_of_length-le,
}
use static.Storage.Lease.{ok}
use static.Storage.Files.{
  Cipher, CipherLaws, chunk_size, EncryptedChunk, ContentManifest, chunk_nonce, pad_chunk, piece,
  count_chunks, encrypt_chunk, decrypt_chunk, encrypt_pieces, manifest_of, encrypt_file,
  decrypt_from, decrypt_file,
}

pad_chunk-append :
    (plain : List ℕ)
    → length plain ≤ chunk_size
    → (zeros : List ℕ) × (pad_chunk plain ≡ plain ++ zeros)
      × (length plain + length zeros ≡ chunk_size)
unfolding pad_chunk copy_from_slice take
pad_chunk-append plain small =
    let whole : take (min (length plain) chunk_size) plain ≡ plain =
      take_of_length-le (min (length plain) chunk_size) plain (omega arith) in
    (
      drop (0 + length plain) (replicate {A = ℕ} chunk_size 0),
      rw whole refl,
      length-rest plain small,
    )
  where
    length-rest :
        (plain : List ℕ)
        → length plain ≤ chunk_size
        → length plain + length (drop (0 + length plain) (replicate {A = ℕ} chunk_size 0))
          ≡ chunk_size
    length-rest plain small = omega (
      arith,
      small,
      length-drop (0 + length plain) (replicate {A = ℕ} chunk_size 0),
      length-replicate {A = ℕ} chunk_size 0,
    )

-- Every chunk is padded to one size.
pub length-pad_chunk :
    (plain : List ℕ) → length plain ≤ chunk_size → length (pad_chunk plain) ≡ chunk_size
length-pad_chunk plain small =
    let (zeros, padded, full) = pad_chunk-append plain small in
    ap length padded ∙ omega (arith, length-append plain zeros, full)

take_nil : (n : ℕ) → take {A = ℕ} n [] ≡ []
unfolding take
take_nil zero = refl
take_nil (suc n) = refl

-- What a slice adds to the bytes before it.
take-slice :
    (start end : ℕ) (bytes : List ℕ)
    → start ≤ end
    → take start bytes ++ slice bytes start end ≡ take end bytes
unfolding take drop
take-slice zero end bytes h = ap (λ (i : ℕ). take i bytes) (unchanged end)
  where
    unchanged : (end : ℕ) → end - 0 ≡ end
    unchanged end = omega arith
take-slice (suc start) zero bytes h = absurd (omega arith)
take-slice (suc start) (suc end) [] h = take_nil (suc end - suc start)
take-slice (suc start) (suc end) (b ∷ bytes) h =
    let same : suc end - suc start ≡ end - start = omega arith in
    rw same (ap (◌∷◌ b) (take-slice start end bytes (omega arith)))

take_bounded : (n m : ℕ) (bytes : List ℕ) → m ≡ min n (length bytes) → take m bytes ≡ take n bytes
unfolding take
take_bounded zero zero bytes e = refl
take_bounded zero (suc m) bytes e = absurd (omega arith)
take_bounded (suc n) zero [] e = refl
take_bounded (suc n) (suc m) [] e = refl
take_bounded (suc n) zero (b ∷ bytes) e = absurd (omega arith)
take_bounded (suc n) (suc m) (b ∷ bytes) e = ap (◌∷◌ b) (take_bounded n m bytes (omega arith))

length-piece :
    (i : ℕ) (bytes : List ℕ)
    → i * chunk_size ≤ length bytes
    → length (piece bytes i) ≡ min chunk_size (length bytes - i * chunk_size)
length-piece i bytes h =
    let start = i * chunk_size in
    omega (
      arith,
      length-take (min (start + chunk_size) (length bytes) - start) (drop start bytes),
      length-drop start bytes,
      h,
    )

take-piece :
    (i : ℕ) (bytes : List ℕ)
    → i * chunk_size ≤ length bytes
    → take (i * chunk_size) bytes ++ piece bytes i ≡ take (suc i * chunk_size) bytes
take-piece i bytes h =
    take-slice (i * chunk_size) (min (i * chunk_size + chunk_size) (length bytes)) bytes
      (omega (arith, h))
    ∙ take_bounded (suc i * chunk_size) (min (i * chunk_size + chunk_size) (length bytes)) bytes
        (omega arith)

-- The part of a padded piece that is still wanted is the piece.
wanted_piece :
    (i : ℕ) (bytes : List ℕ)
    → i * chunk_size ≤ length bytes
    → take
        (min
          (length (pad_chunk (piece bytes i)))
          (length bytes - length (take (i * chunk_size) bytes)))
        (pad_chunk (piece bytes i))
      ≡ piece bytes i
wanted_piece i bytes h =
    let size = length-piece i bytes h in
    let (zeros, padded, full) = pad_chunk-append (piece bytes i) (omega arith) in
    let done = length-take (i * chunk_size) bytes in
    let total = length-append (piece bytes i) zeros in
    rw padded (
      take-append (piece bytes i) zeros
        (min (length (piece bytes i ++ zeros))
          (length bytes - length (take (i * chunk_size) bytes)))
        (omega (arith, total, done, size, full, h)))

next_done :
    (bytes : List ℕ) (manifest : ContentManifest) (i : ℕ)
    → manifest.original_size ≡ length bytes
    → i * chunk_size ≤ length bytes
    → take (i * chunk_size) bytes
        ++ take
            (min
              (length (pad_chunk (piece bytes i)))
              (manifest.original_size - length (take (i * chunk_size) bytes)))
            (pad_chunk (piece bytes i))
      ≡ take (suc i * chunk_size) bytes
next_done bytes manifest i size h = rw (size, wanted_piece i bytes h) (take-piece i bytes h)

module _ (c : Cipher) (master_key nonce : ℕ) (l : CipherLaws c) where
  encrypt_chunk_lem :
      (index : ℕ) (plain : List ℕ)
      → length plain ≤ chunk_size
      → (chunk : EncryptedChunk) × (encrypt_chunk c master_key nonce index plain ≡ ok chunk)
        × (decrypt_chunk c master_key nonce index chunk ≡ ok (pad_chunk plain))
  unfolding encrypt_chunk decrypt_chunk
  encrypt_chunk_lem index plain small =
      let key = c.derive_chunk master_key index in
      let sealed = c.encrypt key (chunk_nonce nonce index) (pad_chunk plain) in
      let (zeros, padded, full) = pad_chunk-append plain small in
      let size : length sealed ≡ chunk_size + 16 =
        l.length-encrypt key (chunk_nonce nonce index) (pad_chunk plain)
        ∙ rw padded (omega (arith, length-append plain zeros, full)) in
      (
        record { id = c.hash sealed; bytes = sealed },
        rw size refl,
        rw (l.decrypt-encrypt key (chunk_nonce nonce index) (pad_chunk plain)) refl,
      )

  decrypt_step :
      (manifest : ContentManifest) (i : ℕ) (done : List ℕ) (chunk : EncryptedChunk)
      → (chunks : List EncryptedChunk) (plain : List ℕ)
      → decrypt_chunk c master_key nonce i chunk ≡ ok plain
      → decrypt_from c master_key nonce manifest i done (chunk ∷ chunks)
        ≡ decrypt_from c master_key nonce manifest
            (suc i)
            (done ++ take (min (length plain) (manifest.original_size - length done)) plain)
            chunks
  unfolding decrypt_from
  decrypt_step manifest i done chunk chunks plain e = rw e refl

  -- The pieces `i..i + n` are encrypted, and decrypted whatever else the manifest says.
  pieces_lem :
      (file_data : List ℕ) (i n end : ℕ)
      → end ≡ i + n
      → end * chunk_size ≤ length file_data + chunk_size
      → (chunks : List EncryptedChunk) × (encrypt_pieces c master_key nonce file_data i n
          ≡ ok chunks)
        × ((manifest : ContentManifest)
            → manifest.original_size ≡ length file_data
            → decrypt_from c master_key nonce manifest i (take (i * chunk_size) file_data) chunks
              ≡ ok (take (end * chunk_size) file_data))
  unfolding encrypt_pieces decrypt_from
  pieces_lem file_data i zero end last few =
      let same : end ≡ i = omega arith in ([], refl, λ manifest size. rw same refl)
  pieces_lem file_data i (suc n) end last few =
      let start : i * chunk_size ≤ length file_data = omega (arith, few, last) in
      let small = length-piece i file_data start in
      let (chunk, sealed, opened) = encrypt_chunk_lem i (piece file_data i) (omega arith) in
      let (chunks, more, rest) = pieces_lem file_data (suc i) n end (omega (arith, last)) few in
      (
        chunk ∷ chunks,
        rw (sealed, more) refl,
        λ manifest size.
            decrypt_step manifest i (take (i * chunk_size) file_data) chunk chunks
              (pad_chunk (piece file_data i)) opened
            ∙ (ap (λ (d : List ℕ). decrypt_from c master_key nonce manifest (suc i) d chunks)
                  (next_done file_data manifest i size start)
                ∙ rest manifest size),
      )

-- A file of any size is encrypted, and its chunks are decrypted to it.
pub decrypt_file-encrypt_file :
    (c : Cipher) (master_key nonce : ℕ) (file_data : List ℕ)
    → CipherLaws c
    → (chunks : List EncryptedChunk) × (encrypt_file c master_key nonce file_data
        ≡ ok (chunks, manifest_of c master_key nonce file_data chunks))
      × (decrypt_file c master_key nonce chunks (manifest_of c master_key nonce file_data chunks)
          ≡ ok file_data)
unfolding encrypt_file decrypt_file take
decrypt_file-encrypt_file c master_key nonce file_data l =
    let n = count_chunks file_data in
    let (chunks, sealed, opened) =
      pieces_lem c master_key nonce l file_data 0 n n (omega arith) (omega arith) in
    let manifest = manifest_of c master_key nonce file_data chunks in
    let whole : take (n * chunk_size) file_data ≡ file_data =
      take_of_length-le (n * chunk_size) file_data (omega arith) in
    (chunks, rw sealed refl, opened manifest refl ∙ ap ok whole)
