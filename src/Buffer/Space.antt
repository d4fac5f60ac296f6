-- ===== src/Buffer/Space.antt =====
-- Making room, and writing.
use talk_system.Prelude.{
  ℕ, ◌+◌, ◌-◌, ◌^◌, ◌≤◌, ◌<◌, ◌≡◌, refl, sym, ap, ◌∙◌, inl, inr, List, ◌++◌, length, take, drop,
  length-drop, length-append, length-replicate, drop-append_le, take-append_le, take_long, ltb,
  ltb→lt, ltb→le, Bool-cases, replicate, arith, add_size, add_size_exact,
}
use talk_system.Buffer.Splice.{write_at, length-write_at, slice-write_at}
use talk_system.Buffer.Contents.{IsValid, readable_lem, writable_lem, peek_lem, length-peek}
use talk_system.Buffer.{
  Buffer, k_cheap_prepend, readable_bytes, writable_bytes, prependable_bytes, resize, make_space,
  ensure_writeable_bytes, put, append, peek,
}

-- `c` holds what `b` holds, with room for `len` more bytes, and no more than `len` larger.
pub record HasRoom (b : Buffer) (len : ℕ) (c : Buffer) : Type 0 where
  pub valid : IsValid c
  pub room : c.writer_index + len ≤ length c.bytes
  pub grown : length c.bytes ≤ length b.bytes + len
  pub kept : peek c ≡ peek b

resize_long :
    (n : ℕ) (xs : List ℕ) → length xs ≤ n → resize n xs ≡ xs ++ replicate (n - length xs) 0
unfolding resize
resize_long n xs h = rw (take_long n xs h)

length-resize_long : (n : ℕ) (xs : List ℕ) → length xs ≤ n → length (resize n xs) ≡ n
length-resize_long n xs h = rw (resize_long n xs h) (
    omega (
      arith,
      length-append xs (replicate (n - length xs) 0),
      length-replicate {A = ℕ} (n - length xs) 0,
    ))

slice-resize :
    (n k r : ℕ) (xs : List ℕ)
    → length xs ≤ n
    → r + k ≤ length xs
    → take k (drop r (resize n xs)) ≡ take k (drop r xs)
slice-resize n k r xs h e =
    rw (resize_long n xs h, drop-append_le r xs (replicate (n - length xs) 0) (omega arith))
      (take-append_le k (drop r xs) (replicate (n - length xs) 0) (omega (arith, length-drop r xs)))

module _ (len : ℕ) (b : Buffer) (v : IsValid b) (fits : b.writer_index + len < 2 ^ 63) where
  -- The first branch of `makeSpace`: a longer vector.
  grow_HasRoom :
      length b.bytes ≤ b.writer_index + len
      → HasRoom b len (record b { bytes = resize (b.writer_index + len) b.bytes })
  grow_HasRoom k = record {
    valid = w;
    room = omega (arith, long);
    grown = omega (arith, long, v);
    kept = peek_lem c w ∙ same ∙ sym (peek_lem b v);
  }
    where
      c : Buffer
      c = record b { bytes = resize (b.writer_index + len) b.bytes }

      long : length c.bytes ≡ b.writer_index + len
      long = length-resize_long (b.writer_index + len) b.bytes k

      w : IsValid c
      w = omega (arith, v, long)

      same :
          take (b.writer_index - b.reader_index) (drop b.reader_index c.bytes)
          ≡ take (b.writer_index - b.reader_index) (drop b.reader_index b.bytes)
      same = slice-resize _ _ _ b.bytes k (omega (arith, v))

  -- The other branch: what is readable moves to the front.
  move_HasRoom :
      len + k_cheap_prepend ≤ length b.bytes - b.writer_index + b.reader_index
      → HasRoom b len (record b {
        bytes = write_at k_cheap_prepend (peek b) b.bytes;
        reader_index = k_cheap_prepend;
        writer_index = k_cheap_prepend + readable_bytes b;
      })
  move_HasRoom k = record {
    valid = w;
    room = omega (arith, long, readable_lem b v, v);
    grown = omega (arith, long);
    kept =
        peek_lem c w
        ∙ slice-write_at 8 8 (c.writer_index - 8) (peek b) b.bytes (omega arith)
            (omega (arith, size, v)) (omega (arith, length-peek b v));
  }
    where
      c : Buffer
      c = record b {
        bytes = write_at k_cheap_prepend (peek b) b.bytes;
        reader_index = k_cheap_prepend;
        writer_index = k_cheap_prepend + readable_bytes b;
      }

      long : length c.bytes ≡ length b.bytes
      long = length-write_at k_cheap_prepend (peek b) b.bytes

      size : length (peek b) + b.reader_index ≡ b.writer_index
      size = omega (arith, length-peek b v, readable_lem b v, v)

      w : IsValid c
      w = omega (arith, v, long, readable_lem b v)

  room_exact :
      add_size (writable_bytes b) (prependable_bytes b)
      ≡ length b.bytes - b.writer_index + b.reader_index
  unfolding prependable_bytes
  room_exact =
      rw (writable_lem b v)
        (add_size_exact (length b.bytes - b.writer_index) b.reader_index (omega (arith, v)))

  need_exact : add_size len k_cheap_prepend ≡ len + k_cheap_prepend
  need_exact = add_size_exact len k_cheap_prepend (omega arith)

  make_space-HasRoom : HasRoom b len (make_space len b)
  unfolding make_space peek readable_bytes
  make_space-HasRoom =
      elim (Bool-cases
        (ltb (add_size (writable_bytes b) (prependable_bytes b)) (add_size len k_cheap_prepend))) [
          | inl short ↦
              rw (short, add_size_exact b.writer_index len (omega arith))
                (grow_HasRoom (
                  omega (
                    arith,
                    ltb→lt (add_size (writable_bytes b) (prependable_bytes b))
                        (add_size len k_cheap_prepend) short,
                    room_exact,
                    need_exact,
                    v,
                  )))
          | inr enough ↦
              rw
                (
                  enough,
                  add_size_exact k_cheap_prepend (readable_bytes b)
                      (omega (arith, readable_lem b v, v)),
                )
                (move_HasRoom (
                  omega (
                    arith,
                    ltb→le (add_size (writable_bytes b) (prependable_bytes b))
                        (add_size len k_cheap_prepend) enough,
                    room_exact,
                    need_exact,
                  )))
        ]

  -- `ensureWriteableBytes` gives room for `len` more bytes and keeps what is readable.
  pub ensure_writeable_bytes-HasRoom : HasRoom b len (ensure_writeable_bytes len b)
  unfolding ensure_writeable_bytes
  ensure_writeable_bytes-HasRoom = elim (Bool-cases (ltb (writable_bytes b) len)) [
    | inl short ↦ rw short make_space-HasRoom
    | inr enough ↦ rw enough (record {
      valid = v;
      room = omega (arith, ltb→le (writable_bytes b) len enough, writable_lem b v, v);
      grown = omega arith;
      kept = refl;
    })
  ]

pub put_lem :
    (bs : List ℕ) (b : Buffer)
    → IsValid b
    → b.writer_index + length bs ≤ length b.bytes
    → IsValid (put bs b)
      × (peek (put bs b) ≡ peek b ++ bs)
      × (length (put bs b).bytes ≡ length b.bytes)
unfolding put
put_lem bs b v h =
    rw (add_size_exact b.writer_index (length bs) (omega (arith, v)))
      (w, peek_lem c w ∙ same ∙ sym (ap (λ xs. xs ++ bs) (peek_lem b v)), long)
  where
    c : Buffer
    c = record b {
      bytes = write_at b.writer_index bs b.bytes;
      writer_index = b.writer_index + length bs;
    }

    long : length c.bytes ≡ length b.bytes
    long = length-write_at b.writer_index bs b.bytes

    w : IsValid c
    w = omega (arith, v, long)

    same :
        take (c.writer_index - c.reader_index) (drop c.reader_index c.bytes)
        ≡ take (b.writer_index - b.reader_index) (drop b.reader_index b.bytes) ++ bs
    same = slice-write_at b.reader_index b.writer_index _ bs b.bytes (omega (arith, v)) h refl

-- `append` keeps the buffer well formed, adds the bytes behind those that are readable, and lets the
-- vector grow by no more than their number, as long as the sizes stay within `max_size()`.
pub append_lem :
    (bs : List ℕ) (b : Buffer)
    → IsValid b
    → b.writer_index + length bs < 2 ^ 63
    → IsValid (append bs b)
      × (peek (append bs b) ≡ peek b ++ bs)
      × (length (append bs b).bytes ≤ length b.bytes + length bs)
unfolding append
append_lem bs b v h =
    let r = ensure_writeable_bytes-HasRoom (length bs) b v h in
    let done = put_lem bs (ensure_writeable_bytes (length bs) b) r.valid r.room in
    (done.0, done.1 ∙ ap (λ xs. xs ++ bs) r.kept, omega (arith, done.2, r.grown))
