-- ===== src/Cache/Reply.antt =====
-- What hiredis is given and hands out, as CachePool.cc uses it.
use talk_system.Prelude.{◌==◌, if◌then◌else◌, Text, Bool, true, false, List, [], ◌∷◌}
use talk_system.Prelude.Int.{ℤ}

-- `redisReply::type`, as far as the code looks at it.
pub data Kind : Type 0 where
  reply_string reply_array reply_status reply_other : Kind

-- An element of an array: its type, and `str` with `len` bytes. A null `str` is empty.
pub record Item : Type 0 where
  pub kind : Kind
  pub str : Text

pub record Reply : Type 0 where
  pub kind : Kind
  pub str : Text
  pub integer : ℤ
  pub element : List Item

abbrev pub is_string : Kind → Bool
is_string reply_string = true
is_string _ = false

abbrev pub is_array : Kind → Bool
is_array reply_array = true
is_array _ = false

abbrev pub is_status : Kind → Bool
is_status reply_status = true
is_status _ = false

-- An argument of a command: a word of the format or of `%s`, a number of `%ld`, and one of `%d`.
pub data Argument : Type 0 where
  word : Text → Argument
  long : ℤ → Argument
  int : ℤ → Argument

-- A command given by its arguments, or by a text that hiredis takes apart as a format.
pub data Command : Type 0 where
  arguments : List Argument → Command
  format : Text → Command

-- The bytes before the first NUL.
abbrev pub c_string : Text → Text
c_string [] = []
c_string (b ∷ bs) = let rest = c_string bs in if b == 0 then [] else b ∷ rest
