-- ===== src/Buffer/Io.antt =====
-- Reading from a descriptor, and the buffer as a queue of bytes.
use talk_system.Prelude.{
  leb, leb→le, leb→lt, Bool-cases, length, take, drop, length-take, length-drop, take-append-drop,
  add_size_exact, add_size, ℕ, ◌+◌, ◌-◌, ◌^◌, ◌≤◌, ◌<◌, ◌≡◌, refl, sym, ap, ◌∙◌, inl, inr, true,
  false, Option, none, some, List, [], ◌++◌, append-nil, append_assoc, arith,
}
use talk_system.Buffer.Splice.{write_at}
use talk_system.Buffer.Contents.{IsValid, writable_lem}
use talk_system.Buffer.Space.{put_lem, append_lem}
use talk_system.Buffer.{
  Buffer, writable_bytes, put, append, extrabuf_size, readv_room, Read, got, failed, scatter,
  read_fd, peek,
}

-- `readv` is always offered 64 KB or more.
pub readv_room-ge : (b : Buffer) → extrabuf_size ≤ readv_room b
unfolding readv_room
readv_room-ge b = ground arith

module _ (bs : List ℕ) (b : Buffer) (v : IsValid b)
    (fits : b.writer_index + length bs < 2 ^ 63) where
  spill_index :
      writable_bytes b < length bs
      → add_size b.writer_index (length (take (writable_bytes b) bs)) ≡ length b.bytes
  spill_index k =
      add_size_exact b.writer_index (length (take (writable_bytes b) bs))
        (omega (arith, length-take (writable_bytes b) bs, writable_lem b v, v))
      ∙ omega (arith, length-take (writable_bytes b) bs, writable_lem b v, v)

  -- What does not fit goes through `extrabuf` and `append`.
  scatter_spill :
      writable_bytes b < length bs
      → let c = append (drop (writable_bytes b) bs) (put (take (writable_bytes b) bs) b) in
        IsValid c × (peek c ≡ peek b ++ bs) × (length c.bytes ≤ length b.bytes + length bs)
  scatter_spill k = (after.0, after.1 ∙ joined, omega (arith, after.2, first.2, rest))
    where
      w : ℕ
      w = writable_bytes b

      first :
          IsValid (put (take w bs) b)
          × (peek (put (take w bs) b) ≡ peek b ++ take w bs)
          × (length (put (take w bs) b).bytes ≡ length b.bytes)
      first = put_lem (take w bs) b v (omega (arith, length-take w bs, writable_lem b v, v))

      rest : length (drop w bs) ≡ length bs - w
      rest = length-drop w bs

      after :
          IsValid (append (drop w bs) (put (take w bs) b))
          × (peek (append (drop w bs) (put (take w bs) b)) ≡ peek (put (take w bs) b) ++ drop w bs)
          × (length (append (drop w bs) (put (take w bs) b)).bytes
              ≤ length (put (take w bs) b).bytes + length (drop w bs))
      after =
          append_lem (drop w bs) (put (take w bs) b) first.0
            (omega (arith, first.0.within, first.2, rest, writable_lem b v, v))

      joined : peek (put (take w bs) b) ++ drop w bs ≡ peek b ++ bs
      joined =
          ap (λ xs. xs ++ drop w bs) first.1
          ∙ append_assoc (peek b) (take w bs) (drop w bs)
          ∙ ap (◌++◌ (peek b)) (take-append-drop w bs)

  scatter_over :
      leb (length bs) (writable_bytes b) ≡ false
      → scatter bs b ≡ append (drop (writable_bytes b) bs) (put (take (writable_bytes b) bs) b)
  unfolding scatter put
  scatter_over over = rw over (
      ap
        (λ i. append (drop (writable_bytes b) bs) (record b {
          bytes = write_at b.writer_index (take (writable_bytes b) bs) b.bytes;
          writer_index = i;
        }))
        (sym (spill_index (leb→lt (length bs) (writable_bytes b) over))))

  scatter_fit : leb (length bs) (writable_bytes b) ≡ true → scatter bs b ≡ put bs b
  unfolding scatter put
  scatter_fit fit = rw fit

  scatter_lem :
      IsValid (scatter bs b)
      × (peek (scatter bs b) ≡ peek b ++ bs)
      × (length (scatter bs b).bytes ≤ length b.bytes + length bs)
  scatter_lem = elim (Bool-cases (leb (length bs) (writable_bytes b))) [
    | inl fit ↦
        let done =
          put_lem bs b v
            (omega (arith, leb→le (length bs) (writable_bytes b) fit, writable_lem b v, v)) in
        rw (scatter_fit fit) (done.0, done.1, omega (arith, done.2))
    | inr over ↦ rw (scatter_over over) (scatter_spill (leb→lt (length bs) (writable_bytes b) over))
  ]

-- What a read delivers, and what it leaves in `*saveErrno`.
abbrev pub received : Read → List ℕ
received (got bs) = bs
received (failed e) = []

abbrev pub read_error : Read → Option ℕ
read_error (got bs) = none
read_error (failed e) = some e

-- `readFd` appends exactly the bytes that came in, whether they fit in the vector or went through
-- the stack buffer; a failed read changes nothing and hands `errno` over.
pub read_fd_lem :
    (r : Read) (b : Buffer)
    → IsValid b
    → b.writer_index + length (received r) < 2 ^ 63
    → IsValid (read_fd r b).0
      × (peek (read_fd r b).0 ≡ peek b ++ received r)
      × (length (read_fd r b).0.bytes ≤ length b.bytes + length (received r))
      × ((read_fd r b).1 ≡ read_error r)
unfolding read_fd
read_fd_lem (got bs) b v h = let s = scatter_lem bs b v h in (s.0, s.1, s.2, refl)
read_fd_lem (failed e) b v h = (v, sym (append-nil (peek b)), omega arith, refl)
