-- ===== src/Cache/Commands.antt =====
-- The commands of `CacheConn` on strings, hashes and lists. Each gives `none` where the code runs
-- into undefined behaviour, and otherwise its result and the connection that is left.
use Prim.Native.String.{String}
use talk_system.Prelude.{◌==◌, if◌then◌else◌, Text, codes, Bool, true, false, not, Option, [], ◌∷◌}
use talk_system.Prelude.Int.{ℤ, pos, negsuc, minus_one}
use talk_system.Cache.Reply.{Reply, is_string, Argument, word, long, int, arguments}
use talk_system.Cache.Conn.{CacheConn, World, drop_context, free_context, perform}

abbrev w : String → Argument
w s = word (codes s)

abbrev string_value : Reply → Text
string_value r = if is_string r.kind then r.str else []

abbrev string_of : Reply → Text
string_of r = r.str

abbrev integer_of : Reply → ℤ
integer_of r = r.integer

unfoldable pub get : World → Text → CacheConn → Option (Text × CacheConn)
get e key = perform drop_context [] string_value e (arguments (w "GET" ∷ word key ∷ []))

unfoldable pub setex : World → Text → ℤ → Text → CacheConn → Option (Text × CacheConn)
setex e key timeout value =
    perform drop_context [] string_of e
      (arguments (w "SETEX" ∷ word key ∷ int timeout ∷ word value ∷ []))

unfoldable pub set : World → Text → Text → CacheConn → Option (Text × CacheConn)
set e key value =
    perform drop_context [] string_of e (arguments (w "SET" ∷ word key ∷ word value ∷ []))

-- `isExists` frees the context after a null reply and keeps the pointer.
unfoldable pub is_exists : World → Text → CacheConn → Option (Bool × CacheConn)
is_exists e key =
    perform free_context false (λ r. elim r.integer [ pos n ↦ not (n == 0) | negsuc n ↦ true ]) e
      (arguments (w "EXISTS" ∷ word key ∷ []))

unfoldable pub hdel : World → Text → Text → CacheConn → Option (ℤ × CacheConn)
hdel e key field =
    perform drop_context (pos 0) integer_of e (arguments (w "HDEL" ∷ word key ∷ word field ∷ []))

unfoldable pub hget : World → Text → Text → CacheConn → Option (Text × CacheConn)
hget e key field =
    perform drop_context [] string_value e (arguments (w "HGET" ∷ word key ∷ word field ∷ []))

unfoldable pub hset : World → Text → Text → Text → CacheConn → Option (ℤ × CacheConn)
hset e key field value =
    perform drop_context minus_one integer_of e
      (arguments (w "HSET" ∷ word key ∷ word field ∷ word value ∷ []))

unfoldable pub hincr_by : World → Text → Text → ℤ → CacheConn → Option (ℤ × CacheConn)
hincr_by e key field value =
    perform drop_context minus_one integer_of e
      (arguments (w "HINCRBY" ∷ word key ∷ word field ∷ long value ∷ []))

unfoldable pub incr_by : World → Text → ℤ → CacheConn → Option (ℤ × CacheConn)
incr_by e key value =
    perform drop_context minus_one integer_of e
      (arguments (w "INCRBY" ∷ word key ∷ long value ∷ []))

unfoldable pub incr : World → Text → CacheConn → Option (ℤ × CacheConn)
incr e key = perform drop_context minus_one integer_of e (arguments (w "INCR" ∷ word key ∷ []))

unfoldable pub decr : World → Text → CacheConn → Option (ℤ × CacheConn)
decr e key = perform drop_context minus_one integer_of e (arguments (w "DECR" ∷ word key ∷ []))

unfoldable pub lpush : World → Text → Text → CacheConn → Option (ℤ × CacheConn)
lpush e key value =
    perform drop_context minus_one integer_of e (arguments (w "LPUSH" ∷ word key ∷ word value ∷ []))

unfoldable pub rpush : World → Text → Text → CacheConn → Option (ℤ × CacheConn)
rpush e key value =
    perform drop_context minus_one integer_of e (arguments (w "RPUSH" ∷ word key ∷ word value ∷ []))

unfoldable pub llen : World → Text → CacheConn → Option (ℤ × CacheConn)
llen e key = perform drop_context minus_one integer_of e (arguments (w "LLEN" ∷ word key ∷ []))
