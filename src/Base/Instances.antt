-- ===== src/Base/Instances.antt =====
-- The loop that the `Init` of CacheManager and of CDBManager share (db_proxy_server/CachePool.cc and
-- DBPool.cc): a pool for each instance that the configuration lists. A number says which `return` the
-- loop comes to: in CacheManager it returns there, while in CDBManager a LOG_FATAL stands before the
-- returns of 2 and 3, and Db/Manager says what becomes of these.
pub mod Found
pub mod Ready
use Prim.Native.String.{String}
use talk_system.Prelude.{
  ◌==◌, if◌then◌else◌, length, take, replicate, Text, codes, ℕ, zero, suc, ◌-◌, Option, none, some,
  List, [], ◌∷◌, ◌++◌, map,
}
use talk_system.Prelude.Dict.{Dict, insert}
use talk_system.Base.Explode.{items, item_cnt}

-- `snprintf(host, 64, "%s_host", pool_name)` and its kin.
abbrev pub key_room : ℕ
key_room = 63

abbrev pub key_of : Text → String → Text
key_of name suffix = take key_room (name ++ codes suffix)

-- The slots of a CStrExplode that `GetItem` is called for: the items, and those never set.
unfoldable pub slots : ℕ → Text → List (Option Text)
slots sep s = map some (items sep s) ++ replicate (item_cnt sep s - length (items sep s)) none

-- `settings` is what a manager reads for a pool, and `make` its new pool, after `Init`, with the
-- code.
module _ {S P : Type 0} (settings : Text → Option S) (make : Text → S → P × ℕ) where
  abbrev pub add_pool : Text → Dict P → P × ℕ → Dict P × ℕ
  add_pool name m (p, zero) = (insert name p m, 0)
  add_pool name m (p, suc n) = (m, 3)

  abbrev pub try_pool : Text → Dict P → Option S → Dict P × ℕ
  try_pool name m none = (m, 2)
  try_pool name m (some s) = add_pool name m (make name s)

  -- The loop, with the pools so far and the number of its `return`; `none` where it reads a slot that was never set.
  unfoldable pub init_slots : List (Option Text) → Dict P → Option (Dict P × ℕ)
  init_slots [] m = some (m, 0)
  init_slots (none ∷ ss) m = none
  init_slots (some name ∷ ss) m =
      let (m', code) = try_pool name m (settings name) in
      let rest = init_slots ss m' in if code == 0 then rest else some (m', code)

  -- The body of `Init` of a new manager, with the value of the entry that lists the instances.
  unfoldable pub init : Option Text → Option (Dict P × ℕ)
  init none = some ([], 1)
  init (some names) = init_slots (slots b',' names) []
