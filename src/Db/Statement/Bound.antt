-- ===== src/Db/Statement/Bound.antt =====
-- A prepared statement of db_proxy_server/DBPool.cc from `Init` to its destructor.
use mathlib.Core.Option
use talk_system.Prelude.{
  ltb, ◌==◌, if◌then◌else◌, length, get_elem?, replicate, length-replicate, is_empty, ℕ, zero, suc,
  ◌≡◌, refl, ap, ◌∙◌, Bool, true, false, not, ◌&&◌, none, some, List, [], ◌∷◌, map, arith,
}
use talk_system.Db.Statement.{
  Memory, Sent, nothing, number, string, sent, signed, sent_values, Bind, unset, type_long,
  type_string, Statement, new, init, set_bind, set_param_int, set_param_uint, set_param_string,
  set_param_const_string, execute_update, destroy, get_elem?-put_bind, length-put_bind,
}

-- A call of `SetParam`, with the overload that the variable takes, and where that lies.
pub data Param : Type 0 where
  int : (address : ℕ) → Param
  uint : (address : ℕ) → Param
  text const_text : (address size : ℕ) → Param

unfoldable pub set_param : Statement → ℕ × Param → Statement
set_param s (i, int a) = set_param_int i a s
set_param s (i, uint a) = set_param_uint i a s
set_param s (i, text a n) = set_param_string i a n s
set_param s (i, const_text a n) = set_param_const_string i a n s

unfoldable pub set_params : Statement → List (ℕ × Param) → Statement
set_params s [] = s
set_params s (c ∷ cs) = set_params (set_param s c) cs

-- What a variable is bound as, and the last variable given for the place `j`, where there is one.
abbrev pub bound : Param → Bind
bound (int a) = type_long a
bound (uint a) = type_long a
bound (text a n) = type_string a n
bound (const_text a n) = type_string a n

abbrev pub last_for : ℕ → List (ℕ × Param) → Bind → Bind
last_for j [] old = old
last_for j ((i, v) ∷ cs) old = last_for j cs (if i == j then bound v else old)

-- What is sent for a variable, if it still lies where it was: a whole number is read with a sign, also a
-- `uint32_t`.
abbrev pub value : Memory → Param → Sent
value m (int a) = number (signed (m.word_at a))
value m (uint a) = number (signed (m.word_at a))
value m (text a n) = string (m.bytes_at a n)
value m (const_text a n) = string (m.bytes_at a n)

abbrev pub last_from : Memory → ℕ → List (ℕ × Param) → Sent → Sent
last_from m j [] old = old
last_from m j ((i, v) ∷ cs) old = last_from m j cs (if i == j then value m v else old)

abbrev pub last_sent : Memory → ℕ → List (ℕ × Param) → Sent
last_sent m j cs = last_from m j cs nothing

sent-bound : (m : Memory) (v : Param) → sent m (bound v) ≡ value m v
sent-bound m (int a) = refl
sent-bound m (uint a) = refl
sent-bound m (text a n) = refl
sent-bound m (const_text a n) = refl

sent-if :
    (m : Memory) (b : Bool) (v : Param) (old : Bind)
    → sent m (if b then bound v else old) ≡ (if b then value m v else sent m old)
sent-if m true v old = sent-bound m v
sent-if m false v old = refl

sent-last :
    (m : Memory) (j : ℕ) (cs : List (ℕ × Param)) (old : Bind)
    → sent m (last_for j cs old) ≡ last_from m j cs (sent m old)
sent-last m j [] old = refl
sent-last m j ((i, v) ∷ cs) old =
    sent-last m j cs (if i == j then bound v else old)
    ∙ ap (last_from m j cs) (sent-if m (i == j) v old)

get_elem?-sent :
    (m : Memory) (bs : List Bind) (j : ℕ)
    → get_elem? (map (sent m) bs) j ≡ Option.map (sent m) (get_elem? bs j)
get_elem?-sent m [] j = refl
get_elem?-sent m (b ∷ bs) zero = refl
get_elem?-sent m (b ∷ bs) (suc j) = get_elem?-sent m bs j

map-if :
    (m : Memory) (b : Bool) (x : Bind)
    → Option.map (sent m) (if b then some x else none) ≡ (if b then some (sent m x) else none)
map-if m true x = refl
map-if m false x = refl

set_param-bind : (s : Statement) (i : ℕ) (v : Param) → set_param s (i, v) ≡ set_bind i (bound v) s
unfolding set_param set_param_int set_param_uint set_param_string set_param_const_string
set_param-bind s i (int a) = refl
set_param-bind s i (uint a) = refl
set_param-bind s i (text a n) = refl
set_param-bind s i (const_text a n) = refl

-- The statement stays as it is but for the values at its places.
record Bound (inits : Bool) (count : ℕ) (f : ℕ → Bind) (s : Statement) : Type 0 where
  has_stmt : s.stmt ≡ inits
  counted : s.param_cnt ≡ count
  sized : length s.param_bind ≡ count
  places : (j : ℕ) → get_elem? s.param_bind j ≡ (if ltb j count then some (f j) else none)

set_param-Bound :
    (inits : Bool) (count : ℕ) (f : ℕ → Bind) (s : Statement) (i : ℕ) (v : Param)
    → Bound inits count f s
    → Bound inits count (λ j. if i == j then bound v else f j) (set_param s (i, v))
set_param-Bound inits count f s i v b = rw (set_param-bind s i v) (record {
  has_stmt = ground (arith, b.has_stmt);
  counted = ground (arith, b.counted);
  sized = ground (arith, b.sized, length-put_bind s.param_bind i (bound v));
  places = λ j.
      ground (arith, b.sized, b.counted, b.places j, get_elem?-put_bind s.param_bind i j (bound v));
})

set_params-Bound :
    (cs : List (ℕ × Param)) (inits : Bool) (count : ℕ) (f : ℕ → Bind) (s : Statement)
    → Bound inits count f s
    → Bound inits count (λ j. last_for j cs (f j)) (set_params s cs)
unfolding set_params
set_params-Bound [] inits count f s b = b
set_params-Bound ((i, v) ∷ cs) inits count f s b =
    set_params-Bound cs inits count (λ j. if i == j then bound v else f j) (set_param s (i, v))
      (set_param-Bound inits count f s i v b)

get_elem?-replicate :
    (n j : ℕ) (b : Bind) → get_elem? (replicate n b) j ≡ (if ltb j n then some b else none)
get_elem?-replicate zero j b = ground arith
get_elem?-replicate (suc n) zero b = ground arith
get_elem?-replicate (suc n) (suc j) b = ground (arith, get_elem?-replicate n j b)

abbrev pub count_of : Bool → ℕ → ℕ
count_of ready params = if ready then params else 0

init-Bound :
    (inits prepares : Bool) (params : ℕ)
    → Bound inits
        (count_of (inits && prepares) params)
        (λ j. unset)
        (init inits prepares params new).0
unfolding init new
init-Bound inits prepares params = record {
  has_stmt = ground arith;
  counted = ground arith;
  sized = ground (arith, length-replicate params unset);
  places = λ j. ground (arith, get_elem?-replicate params j unset);
}

empty-length : (bs : List Bind) → not (is_empty bs) ≡ ltb 0 (length bs)
empty-length [] = ground arith
empty-length (b ∷ bs) = ground arith

-- For a new statement, whatever the library answers to `Init`, and any calls of `SetParam` with any
-- indices after it: each place of the statement is bound to the last variable given for it, or to none
-- yet, and there are no places where `Init` failed; an execution sends for each place what lies in that
-- variable by then, and reads 32 bits as a number with a sign, also those of a `uint32_t`;
-- `ExecuteUpdate` succeeds exactly if there is a statement and the library binds it, executes it and
-- reports a changed row for what is sent; the destructor closes the statement if the library made one,
-- and deletes the places if there are any, and a second one would do nothing.
pub set_params_lem :
    (m : Memory) (inits prepares binds executes : Bool) (affected : List Sent → ℕ) (params j : ℕ)
    (cs : List (ℕ × Param))
    → let s = set_params (init inits prepares params new).0 cs in
      let ready = inits && prepares in
      (get_elem? s.param_bind j
        ≡ (if ltb j (count_of ready params) then some (last_for j cs unset) else none))
      × (get_elem? (sent_values m s) j
          ≡ (if ltb j (count_of ready params) then some (last_sent m j cs) else none))
      × (execute_update m binds executes affected s
          ≡ (inits && (binds && (executes && not (affected (sent_values m s) == 0)))))
      × ((destroy s).1 ≡ inits)
      × ((destroy s).2 ≡ ltb 0 (count_of ready params))
      × ((destroy (destroy s).0).1 ≡ false)
      × ((destroy (destroy s).0).2 ≡ false)
unfolding destroy execute_update sent_values
set_params_lem m inits prepares binds executes affected params j cs =
    let b =
      set_params-Bound cs inits (count_of (inits && prepares) params) (λ j. unset)
        (init inits prepares params new).0 (init-Bound inits prepares params) in
    let s = set_params (init inits prepares params new).0 cs in
    let room = ltb j (count_of (inits && prepares) params) in
    (
      b.places j,
      get_elem?-sent m s.param_bind j
          ∙ ap (Option.map (sent m)) (b.places j)
          ∙ map-if m room (last_for j cs unset)
          ∙ ap (λ v. if room then some v else none) (sent-last m j cs unset),
      ap (λ t. t && (binds && (executes && not (affected (map (sent m) s.param_bind) == 0))))
          b.has_stmt,
      b.has_stmt,
      empty-length s.param_bind ∙ ap (ltb 0) b.sized,
      refl,
      refl,
    )
