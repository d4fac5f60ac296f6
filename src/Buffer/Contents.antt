-- ===== src/Buffer/Contents.antt =====
-- The well-formed buffers, and reading from them.
use talk_system.Prelude.{
  ℕ, ◌+◌, ◌-◌, ◌^◌, ◌≤◌, ◌<◌, ◌≡◌, refl, sym, ap, ◌∙◌, inl, inr, [], length, take, drop,
  length-take, length-drop, length-replicate, drop-drop, drop-take, drop_all, ltb, ltb→lt, ltb→le,
  Bool-cases, arith, add_size_exact, sub_size_exact,
}
use talk_system.Buffer.{
  Buffer, k_cheap_prepend, new, readable_bytes, writable_bytes, retrieve_all, retrieve,
  retrieve_all_as_string, peek,
}

-- The indices are in order behind the prepend area, and the vector is within `max_size()`.
pub record IsValid (b : Buffer) : Type 0 where
  pub prepend : k_cheap_prepend ≤ b.reader_index
  pub ordered : b.reader_index ≤ b.writer_index
  pub within : b.writer_index ≤ length b.bytes
  pub sized : length b.bytes < 2 ^ 63

pub readable_lem : (b : Buffer) → IsValid b → readable_bytes b ≡ b.writer_index - b.reader_index
unfolding readable_bytes
readable_lem b v = sub_size_exact b.writer_index b.reader_index v.ordered (omega arith)

pub writable_lem : (b : Buffer) → IsValid b → writable_bytes b ≡ length b.bytes - b.writer_index
unfolding writable_bytes
writable_lem b v = sub_size_exact (length b.bytes) b.writer_index v.within (omega arith)

pub peek_lem :
    (b : Buffer)
    → IsValid b
    → peek b ≡ take (b.writer_index - b.reader_index) (drop b.reader_index b.bytes)
unfolding peek
peek_lem b v = ap (λ n. take n (drop b.reader_index b.bytes)) (readable_lem b v)

pub length-peek : (b : Buffer) → IsValid b → length (peek b) ≡ readable_bytes b
unfolding peek
length-peek b v = omega (
  arith,
  length-take (readable_bytes b) (drop b.reader_index b.bytes),
  length-drop b.reader_index b.bytes,
  readable_lem b v,
  v,
)

-- A new buffer is well formed and holds nothing.
pub new_empty : (n : ℕ) → n < 2 ^ 62 → IsValid (new n) × (peek (new n) ≡ [])
unfolding new
new_empty n h = (v, peek_lem (new n) v)
  where
    v : IsValid (new n)
    v = record {
      prepend = omega arith;
      ordered = omega arith;
      within = omega (arith, length-replicate {A = ℕ} (8 + n) 0);
      sized = omega (arith, length-replicate {A = ℕ} (8 + n) 0);
    }

retrieve_all_empty :
    (b : Buffer) → IsValid b → IsValid (retrieve_all b) × (peek (retrieve_all b) ≡ [])
unfolding retrieve_all
retrieve_all_empty b v = (w, peek_lem (retrieve_all b) w)
  where
    w : IsValid (retrieve_all b)
    w = omega (arith, v)

retrieve_part :
    (len : ℕ) (b : Buffer)
    → IsValid b
    → len < readable_bytes b
    → IsValid (record b { reader_index = b.reader_index + len })
      × (peek (record b { reader_index = b.reader_index + len }) ≡ drop len (peek b))
retrieve_part len b v h = (w, peek_lem c w ∙ sym (ap (drop len) (peek_lem b v) ∙ ends))
  where
    c : Buffer
    c = record b { reader_index = b.reader_index + len }

    w : IsValid c
    w = omega (arith, v, readable_lem b v)

    ends :
        drop len (take (b.writer_index - b.reader_index) (drop b.reader_index b.bytes))
        ≡ take (c.writer_index - c.reader_index) (drop c.reader_index c.bytes)
    ends =
        drop-take len (b.writer_index - b.reader_index) (c.writer_index - c.reader_index)
          (drop b.reader_index b.bytes) (omega arith)
        ∙ ap (take (c.writer_index - c.reader_index))
            (drop-drop b.reader_index len c.reader_index b.bytes refl)

-- `retrieve` keeps the buffer well formed and takes the first `len` bytes off what is readable, all
-- of them if there are no more than that.
pub retrieve_lem :
    (len : ℕ) (b : Buffer)
    → IsValid b
    → IsValid (retrieve len b) × (peek (retrieve len b) ≡ drop len (peek b))
unfolding retrieve
retrieve_lem len b v = elim (Bool-cases (ltb len (readable_bytes b))) [
  | inl few ↦
      rw
        (
          few,
          add_size_exact b.reader_index len
              (omega (arith, v, readable_lem b v, ltb→lt len (readable_bytes b) few)),
        )
        (retrieve_part len b v (ltb→lt _ _ few))
  | inr all ↦
      rw
        (
          all,
          drop_all len (peek b) (omega (arith, length-peek b v, ltb→le len (readable_bytes b) all)),
        )
        (retrieve_all_empty b v)
]

-- `retrieve` moves indices and leaves the vector alone.
pub retrieve-bytes : (len : ℕ) (b : Buffer) → (retrieve len b).bytes ≡ b.bytes
unfolding retrieve
retrieve-bytes len b = ground arith

-- `retrieveAllAsString` returns exactly the readable bytes, and empties the buffer.
pub retrieve_all_as_string_lem :
    (b : Buffer)
    → IsValid b
    → ((retrieve_all_as_string b).0 ≡ peek b)
      × IsValid (retrieve_all_as_string b).1
      × (peek (retrieve_all_as_string b).1 ≡ [])
unfolding retrieve_all_as_string peek
retrieve_all_as_string_lem b v = (refl, rest.0, rest.1 ∙ gone)
  where
    rest :
        IsValid (retrieve (readable_bytes b) b)
        × (peek (retrieve (readable_bytes b) b) ≡ drop (readable_bytes b) (peek b))
    rest = retrieve_lem (readable_bytes b) b v

    gone : drop (readable_bytes b) (peek b) ≡ []
    gone = drop_all (readable_bytes b) (peek b) (omega (arith, length-peek b v))
