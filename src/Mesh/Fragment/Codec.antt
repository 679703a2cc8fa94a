-- ===== src/Mesh/Fragment/Codec.antt =====
-- The body layout of a fragment: its size, and that reading it back gives the fragment.
use static.Common.{
  ℕ, ◌+◌, ◌-◌, ◌≤◌, ◌<◌, ◌≡◌, refl, ap, sym, ◌∙◌, min, List, [], ◌++◌, arith, length, take,
  replicate, slice, copy_from_slice, be_bytes, from_be, length-append, length-take,
  length-replicate, length-be_bytes, from_be-be_bytes, replicate-add, copy_from_slice-append,
  slice-append_right, slice-append, slice-append_right, take_of_length-le, u32_mod,
}
use mathlib.Core.List.{append_assoc}
use static.Mesh.Fragment.{
  Fragment, ok, body_size, max_fragment_data, serialize_fragment, deserialize_fragment,
}

-- The four fields of a serialised fragment, one after the other, and the padding.
abbrev layout : Fragment → List ℕ
layout f =
    be_bytes 4 f.fragment_id
    ++ (be_bytes 4 f.total_fragments
        ++ (be_bytes 4 (min (length f.bytes) max_fragment_data)
            ++ (take (min (length f.bytes) max_fragment_data) f.bytes
                ++ replicate (max_fragment_data - min (length f.bytes) max_fragment_data) 0)))

abbrev zeros : ℕ → List ℕ
zeros n = replicate n 0

zeros_split :
    (k : ℕ)
    → k ≤ max_fragment_data
    → zeros body_size
      ≡ zeros 4 ++ (zeros 4 ++ (zeros 4 ++ (zeros k ++ zeros (max_fragment_data - k))))
zeros_split k h =
    replicate-add 4 1020 1024 0 (omega arith)
    ∙ ap (◌++◌ (zeros 4)) (
        replicate-add 4 1016 1020 0 (omega arith)
        ∙ ap (◌++◌ (zeros 4)) (
            replicate-add 4 1012 1016 0 (omega arith)
            ∙ ap (◌++◌ (zeros 4)) (replicate-add k (max_fragment_data - k) 1012 0 (omega arith))))

-- One write behind two parts that are in place.
write_behind :
    (xs ys old src zs : List ℕ) (start : ℕ)
    → start ≡ length xs + length ys
    → length old ≡ length src
    → copy_from_slice (xs ++ (ys ++ (old ++ zs))) start src ≡ xs ++ (ys ++ (src ++ zs))
write_behind xs ys old src zs start e h =
    ap (λ (t : List ℕ). copy_from_slice t start src) (sym (append_assoc xs ys (old ++ zs)))
    ∙ (copy_from_slice-append (xs ++ ys) old src zs start (omega (arith, length-append xs ys)) h
        ∙ append_assoc xs ys (src ++ zs))

-- Four writes into a zeroed buffer put the parts side by side.
write_fields :
    (a b c d : List ℕ) (k : ℕ)
    → length a ≡ 4
    → length b ≡ 4
    → length c ≡ 4
    → length d ≡ k
    → k ≤ max_fragment_data
    → copy_from_slice
        (copy_from_slice (copy_from_slice (copy_from_slice (zeros body_size) 0 a) 4 b) 8 c)
        12
        d
      ≡ a ++ (b ++ (c ++ (d ++ zeros (max_fragment_data - k))))
write_fields a b c d k ea eb ec ed h =
    rw
      (
        zeros_split k h,
        copy_from_slice-append [] (zeros 4) a
            (zeros 4 ++ (zeros 4 ++ (zeros k ++ zeros (max_fragment_data - k)))) 0 refl
            (zero_length a ea),
        copy_from_slice-append a (zeros 4) b (zeros 4 ++ (zeros k ++ zeros (max_fragment_data - k)))
            4 (sym ea) (zero_length b eb),
        write_behind a b (zeros 4) c (zeros k ++ zeros (max_fragment_data - k)) 8 (omega arith)
            (zero_length c ec),
      )
      (ap (λ (t : List ℕ). copy_from_slice t 12 d)
          (sym (append_assoc a b (c ++ (zeros k ++ zeros (max_fragment_data - k)))))
        ∙ (write_behind (a ++ b) c (zeros k) d (zeros (max_fragment_data - k)) 12
              (omega (arith, length-append a b)) (length-replicate k 0 ∙ sym ed)
            ∙ append_assoc a b (c ++ (d ++ zeros (max_fragment_data - k)))))
  where
    zero_length : (xs : List ℕ) → length xs ≡ 4 → length (zeros 4) ≡ length xs
    zero_length xs e = length-replicate 4 0 ∙ sym e

serialize_fragment-layout : (f : Fragment) → serialize_fragment f ≡ layout f
unfolding serialize_fragment
serialize_fragment-layout f =
    write_fields (be_bytes 4 f.fragment_id) (be_bytes 4 f.total_fragments)
      (be_bytes 4 (min (length f.bytes) max_fragment_data))
      (take (min (length f.bytes) max_fragment_data) f.bytes)
      (min (length f.bytes) max_fragment_data) (length-be_bytes 4 _) (length-be_bytes 4 _)
      (length-be_bytes 4 _)
      (omega (arith, length-take (min (length f.bytes) max_fragment_data) f.bytes)) (omega arith)

-- Every fragment fills one Sphinx body exactly, whatever its header and data are.
pub length-serialize_fragment : (f : Fragment) → length (serialize_fragment f) ≡ body_size
length-serialize_fragment f =
    rw (serialize_fragment-layout f)
      (omega (arith, length-append {0}, length-be_bytes, length-take {0}, length-replicate {0}))

module _ (a b c d rest : List ℕ) (ea : length a ≡ 4) (eb : length b ≡ 4) (ec : length c ≡ 4) where
  abbrev whole : List ℕ
  whole = a ++ (b ++ (c ++ (d ++ rest)))

  field_0 : slice whole 0 4 ≡ a
  field_0 = slice-append [] a (b ++ (c ++ (d ++ rest))) 0 4 refl (omega arith)

  field_1 : slice whole 4 8 ≡ b
  field_1 = slice-append a b (c ++ (d ++ rest)) 4 8 (sym ea) (omega arith)

  field_2 : slice whole 8 12 ≡ c
  field_2 =
      slice-append_right a (b ++ (c ++ (d ++ rest))) 4 8 8 12 (omega arith) (omega arith)
      ∙ slice-append b c (d ++ rest) 4 8 (sym eb) (omega arith)

  field_3 : (n : ℕ) → n ≡ 12 + length d → slice whole 12 n ≡ d
  field_3 n e =
      slice-append_right a (b ++ (c ++ (d ++ rest))) 8 (8 + length d) 12 n (omega arith)
        (omega arith)
      ∙ (slice-append_right b (c ++ (d ++ rest)) 4 (4 + length d) 8 (8 + length d) (omega arith)
            (omega arith)
          ∙ slice-append c d rest 4 (4 + length d) (sym ec) (omega arith))

  -- Reading a body whose four parts stand side by side.
  read_fields :
      from_be c ≡ length d
      → 12 + length d ≤ length whole
      → deserialize_fragment whole
        ≡ ok (record { fragment_id = from_be a; total_fragments = from_be b; bytes = d })
  unfolding deserialize_fragment
  read_fields e h = rw (field_0, field_1, field_2, e, field_3 (12 + length d) refl) (ground arith)

plain_layout :
    (f : Fragment) (k : ℕ)
    → k ≡ length f.bytes
    → k ≤ max_fragment_data
    → layout f
      ≡ be_bytes 4 f.fragment_id
        ++ (be_bytes 4 f.total_fragments
            ++ (be_bytes 4 k ++ (f.bytes ++ zeros (max_fragment_data - k))))
plain_layout f k e h =
    let m : min (length f.bytes) max_fragment_data ≡ k = omega arith in
    rw (m, take_of_length-le k f.bytes (omega arith))

-- A fragment that the sender builds is read back from its body: the header numbers are 32-bit words
-- and the data fits a body.
pub deserialize-serialize :
    (f : Fragment)
    → f.fragment_id < u32_mod
    → f.total_fragments < u32_mod
    → length f.bytes ≤ max_fragment_data
    → deserialize_fragment (serialize_fragment f) ≡ ok f
deserialize-serialize f hi ht hd =
    rw (serialize_fragment-layout f, plain_layout f (length f.bytes) refl hd)
      (read_fields (be_bytes 4 f.fragment_id) (be_bytes 4 f.total_fragments)
          (be_bytes 4 (length f.bytes)) f.bytes (zeros (max_fragment_data - length f.bytes))
          (length-be_bytes 4 _) (length-be_bytes 4 _) (length-be_bytes 4 _)
          (from_be-be_bytes 4 (length f.bytes) (omega arith))
          (omega (arith, length-append {0}, length-be_bytes))
        ∙ cc (from_be-be_bytes 4 f.fragment_id hi, from_be-be_bytes 4 f.total_fragments ht))
