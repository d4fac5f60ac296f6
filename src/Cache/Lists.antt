-- ===== src/Cache/Lists.antt =====
-- The commands of `CacheConn` whose replies are arrays: `mget`, `hgetAll`, `hmset`, `hmget` and
-- `lrange`. The map or list that the caller passes in is an argument, and comes back changed.
use mathlib.Core.Option
use talk_system.Prelude.{
  ◌==◌, if◌then◌else◌, length, is_empty, Text, codes, ◌%◌, Bool, true, false, not, ◌&&◌, Option,
  none, some, List, [], ◌∷◌, ◌++◌, map,
}
use talk_system.Prelude.Dict.{Dict, assign, insert}
use talk_system.Prelude.Int.{ℤ}
use talk_system.Cache.Reply.{
  Reply, Item, is_string, is_array, Argument, word, int, arguments, format, c_string,
}
use talk_system.Cache.Conn.{CacheConn, World, init, drop_context, redis_command, perform}

-- The loop of `mget` that joins the keys by spaces.
unfoldable pub join_keys : List Text → Text
join_keys [] = []
join_keys (k ∷ []) = k
join_keys (k ∷ j ∷ ks) = k ++ (b' ' ∷ join_keys (j ∷ ks))

-- The loop of `mget` over the elements. A string beyond the last key would be written to
-- `ret_value[keys[i]]` out of bounds: `none`.
unfoldable pub collect : List Text → List Item → Dict Text → Option (Dict Text)
collect keys [] m = some m
collect [] (x ∷ xs) m = let rest = collect [] xs m in if is_string x.kind then none else rest
collect (k ∷ keys) (x ∷ xs) m =
    collect keys xs (if is_string x.kind then assign k (c_string x.str) m else m)

abbrev pub mget_reply : List Text → Dict Text → Reply → Option (Dict Text)
mget_reply keys m r = if is_array r.kind then collect keys r.element m else some m

-- The result is the Boolean, with the caller's map.
unfoldable pub mget :
    World → List Text → Dict Text → CacheConn → Option ((Bool × Dict Text) × CacheConn)
mget e keys m c =
    let (d, code) = init e c in
    if not (code == 0)
    then some ((false, m), d)
    else if is_empty (join_keys keys)
    then some ((false, m), d)
    else elim (redis_command e (format (codes "MGET " ++ join_keys keys)) d) [
      | none ↦ none
      | some none ↦ some ((false, m), drop_context d)
      | some (some r) ↦ Option.map (λ m'. ((true, m'), d)) (mget_reply keys m r)
    ]

-- The loop of `hgetAll`, two elements a round.
unfoldable pub insert_pairs : List Item → Dict Text → Dict Text
insert_pairs [] m = m
insert_pairs (f ∷ []) m = m
insert_pairs (f ∷ v ∷ xs) m = insert_pairs xs (insert f.str v.str m)

unfoldable pub hget_all :
    World → Text → Dict Text → CacheConn → Option ((Bool × Dict Text) × CacheConn)
hget_all e key m =
    perform drop_context (false, m)
      (λ r.
        if is_array r.kind && length r.element % 2 == 0
        then (true, insert_pairs r.element m)
        else (true, m))
      e (arguments (word (codes "HGETALL") ∷ word key ∷ []))

-- The loop of `hmset` that fills `argv`, over the map in its order.
unfoldable pub field_arguments : Dict Text → List Argument
field_arguments [] = []
field_arguments ((f, v) ∷ m) = word f ∷ word v ∷ field_arguments m

unfoldable pub hmset : World → Text → Dict Text → CacheConn → Option (Text × CacheConn)
hmset e key hash =
    perform drop_context [] (λ r. r.str) e
      (arguments (word (codes "HMSET") ∷ word key ∷ field_arguments hash))

-- `push_back` of every element.
abbrev pub append_values : Bool × List Text → Reply → Bool × List Text
append_values (b, vs) r =
    (b, if is_array r.kind then vs ++ map (λ (x : Item). x.str) r.element else vs)

unfoldable pub hmget :
    World → Text → List Text → List Text → CacheConn → Option ((Bool × List Text) × CacheConn)
hmget e key fields values =
    perform drop_context (false, values) (append_values (true, values)) e
      (arguments (word (codes "HMGET") ∷ word key ∷ map word fields))

-- The bounds are `long` values, behind `%d`.
unfoldable pub lrange :
    World → Text → ℤ → ℤ → List Text → CacheConn → Option ((Bool × List Text) × CacheConn)
lrange e key first last values =
    perform drop_context (false, values) (append_values (true, values)) e
      (arguments (word (codes "LRANGE") ∷ word key ∷ int first ∷ int last ∷ []))
