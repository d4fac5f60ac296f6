-- ===== src/Net/Address.antt =====
-- common/net/InetAddress.h and InetAddress.cc, for IPv4. A `sockaddr_in` is its port, in the order of
-- the network, and its address. `to_ip_port` is the text that `toIpPort` is to give, and `print_ip_port`
-- the way through its buffer.
use talk_system.Prelude.{
  leb, ◌==◌, if◌then◌else◌, length, take, drop, replicate, length-append, length-drop,
  length-replicate, Text, ℕ, ◌+◌, ◌≤◌, ◌<◌, ◌≡◌, refl, ap, ◌∙◌, Bool, true, false, not, ◌&&◌,
  Option, none, some, List, [], ◌∷◌, ◌++◌, append-nil, arith,
}

pub record InetAddress : Type 0 where
  pub sin_port : ℕ
  pub s_addr : ℕ

-- The library's conversions; `decimal` is what `%u` prints.
pub record Conversions : Type 0 where
  pub htons : ℕ → ℕ
  pub ntohs : ℕ → ℕ
  pub inet_addr : Text → ℕ
  pub inet_ntop : ℕ → Text
  pub decimal : ℕ → Text

-- The text up to the NUL in a buffer; `none` where there is no NUL and the reader runs on.
abbrev pub c_string : List ℕ → Option Text
c_string [] = none
c_string (c ∷ cs) =
    let rest = c_string cs in
    if c == 0 then some [] else elim rest [ none ↦ none | some t ↦ some (c ∷ t) ]

-- A text and its NUL written into a buffer at a place; `none` where it does not fit.
abbrev pub put : ℕ → Text → List ℕ → Option (List ℕ)
put i t b =
    let after = i + length t + 1 in
    if leb after (length b) then some (take i b ++ (t ++ 0 ∷ drop after b)) else none

-- `inet_ntop` with the text that it gives; where that does not fit, the buffer stays as it is.
abbrev pub put_address : Text → List ℕ → List ℕ
put_address t b = elim (put 0 t b) [ none ↦ b | some b' ↦ b' ]

-- `sprintf(buf + strlen(buf), ...)`, and the string that the buffer is then.
abbrev pub add_port : Text → List ℕ → Option Text → Option Text
add_port t b none = none
add_port t b (some e) = elim (put (length e) t b) [ none ↦ none | some b' ↦ c_string b' ]

module _ (k : Conversions) where
  unfoldable pub new : ℕ → Text → InetAddress
  new port ip = record { sin_port = k.htons port; s_addr = k.inet_addr ip }

  unfoldable pub to_ip : InetAddress → Text
  to_ip a = k.inet_ntop a.s_addr

  unfoldable pub to_port : InetAddress → ℕ
  to_port a = k.ntohs a.sin_port

  -- What `sprintf` adds behind the address.
  unfoldable pub to_ip_port : InetAddress → Text
  to_ip_port a = to_ip a ++ (b':' ∷ k.decimal (to_port a))

  -- `toIpPort`, in `char buf[64] = {0}`; `none` where it writes or reads past the end.
  unfoldable pub print_ip_port : InetAddress → Option Text
  print_ip_port a =
      let b = put_address (k.inet_ntop a.s_addr) (replicate 64 0) in
      add_port (b':' ∷ k.decimal (to_port a)) b (c_string b)

abbrev pub is_text : Text → Bool
is_text [] = true
is_text (c ∷ cs) = not (c == 0) && is_text cs

-- What the manual pages say: `ntohs` gives a `uint16_t`, a number of that type has at most five digits,
-- the text of an address has at most 15 bytes, and neither text has a NUL.
pub record Documented (k : Conversions) : Type 0 where
  pub ntohs_fits : (p : ℕ) → k.ntohs p < 65536
  pub decimal_short : (p : ℕ) → p < 65536 → length (k.decimal p) ≤ 5
  pub decimal_text : (p : ℕ) → is_text (k.decimal p) ≡ true
  pub inet_ntop_short : (a : ℕ) → length (k.inet_ntop a) ≤ 15
  pub inet_ntop_text : (a : ℕ) → is_text (k.inet_ntop a) ≡ true

abbrev behind : Text → Option Text → Option Text
behind t none = none
behind t (some u) = some (t ++ u)

behind_nil : (o : Option Text) → o ≡ behind [] o
behind_nil none = refl
behind_nil (some u) = refl

behind_cons :
    (c : ℕ) (cs : Text) (o : Option Text) (b : Bool)
    → b ≡ false
    → (if b then some [] else elim (behind cs o) [ none ↦ none | some t ↦ some (c ∷ t) ])
      ≡ behind (c ∷ cs) o
behind_cons c cs o true h = cc
behind_cons c cs none false h = refl
behind_cons c cs (some u) false h = refl

c_string-append :
    (t : Text) (s : List ℕ) → is_text t ≡ true → c_string (t ++ s) ≡ behind t (c_string s)
c_string-append [] s h = behind_nil (c_string s)
c_string-append (c ∷ cs) s h =
    rw (c_string-append cs s (ground arith)) (behind_cons c cs (c_string s) (c == 0) (ground arith))

take-length : (t s : List ℕ) → take (length t) (t ++ s) ≡ t
take-length [] s = refl
take-length (c ∷ cs) s = ap (λ r. c ∷ r) (take-length cs s)

-- A text in a buffer that has room for it.
put_fits :
    (i : ℕ) (t : Text) (b : List ℕ)
    → i + length t + 1 ≤ length b
    → put i t b ≡ some (take i b ++ (t ++ 0 ∷ drop (i + length t + 1) b))
put_fits i t b h = ground arith

-- Two texts, one behind the other.
put_both :
    (t u : Text) (b : List ℕ)
    → is_text t ≡ true
    → is_text u ≡ true
    → length t + length u + 1 ≤ length b
    → add_port u (put_address t b) (c_string (put_address t b)) ≡ some (t ++ u)
put_both t u b p q h =
    ap (λ c. add_port u c (c_string c)) first
    ∙ ap (add_port u once) (c_string-append t (0 ∷ rest) p ∙ ap some (append-nil t))
    ∙ ap (λ o. elim o [ none ↦ none | some c ↦ c_string c ]) second
    ∙ c_string-append t (u ++ 0 ∷ last) p
    ∙ ap (behind t) (c_string-append u (0 ∷ last) q ∙ ap some (append-nil u))
  where
    rest : List ℕ
    rest = drop (0 + length t + 1) b

    once : List ℕ
    once = t ++ 0 ∷ rest

    last : List ℕ
    last = drop (length t + length u + 1) once

    first : put_address t b ≡ once
    first = ap (λ o. elim o [ none ↦ b | some c ↦ c ]) (put_fits 0 t b (omega (arith, h)))

    same_length : length once ≡ length b
    same_length = omega (arith, h, length-append t (0 ∷ rest), length-drop (0 + length t + 1) b)

    second : put (length t) u once ≡ some (t ++ (u ++ 0 ∷ last))
    second =
        put_fits (length t) u once (omega (arith, h, same_length))
        ∙ ap (λ x. some (x ++ (u ++ 0 ∷ last))) (take-length t (0 ∷ rest))

module _ (k : Conversions) (ok : Documented k) where
  pub length-to_ip_port : (a : InetAddress) → length (to_ip_port k a) ≤ 21
  unfolding to_ip_port to_ip to_port
  length-to_ip_port a = omega (
    arith,
    length-append (k.inet_ntop a.s_addr) (b':' ∷ k.decimal (k.ntohs a.sin_port)),
    ok.inet_ntop_short a.s_addr,
    ok.decimal_short (k.ntohs a.sin_port) (ok.ntohs_fits a.sin_port),
  )

  -- For every address, also one that the kernel filled in, `toIpPort` stays within the 64 bytes of its
  -- buffer, and the string that it reads back from there is the whole text of the address, a colon and
  -- the digits of the port, not cut off and at most 21 bytes.
  pub print_ip_port_lem :
      (a : InetAddress)
      → (print_ip_port k a ≡ some (to_ip_port k a)) × (length (to_ip_port k a) ≤ 21)
  unfolding print_ip_port to_ip_port to_ip to_port
  print_ip_port_lem a = (
    put_both (k.inet_ntop a.s_addr) (b':' ∷ k.decimal (k.ntohs a.sin_port)) (replicate 64 0)
        (ok.inet_ntop_text a.s_addr) (ok.decimal_text (k.ntohs a.sin_port))
        (omega (
          arith,
          length-replicate {A = ℕ} 64 0,
          ok.inet_ntop_short a.s_addr,
          ok.decimal_short (k.ntohs a.sin_port) (ok.ntohs_fits a.sin_port),
        )),
    length-to_ip_port a,
  )
