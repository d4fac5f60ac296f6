-- ===== src/Cache/Laws.antt =====
-- What a client of `CacheConn` can rely on, and where it cannot.
use mathlib.Core.Option
use talk_system.Prelude.{
  ◌==◌, if◌then◌else◌, ==_iff, Bool-cases, length, Text, codes, text_eq, ◌+◌, ◌≤◌, ◌<◌, ◌≡◌, refl,
  ◌∙◌, ◌≢◌, inl, inr, false, Option, none, some, List, [], ◌∷◌, arith,
}
use talk_system.Prelude.Dict.{Dict, find, or_else, assign, insert, find-insert_any, find-assign}
use talk_system.Cache.Reply.{
  Reply, reply_string, Item, is_string, Argument, word, long, int, Command, arguments, c_string,
}
use talk_system.Cache.Conn.{
  CacheConn, null, live, dangling, World, init, drop_context, free_context, redis_command, perform,
  settle, Context, destroy,
}
use talk_system.Cache.Commands.{get, is_exists}
use talk_system.Cache.Lists.{field_arguments, collect, insert_pairs}

-- Within four seconds of the last attempt a connection without a context reports failure.
pub init_limited :
    (e : World) (c : CacheConn)
    → c.context ≡ null
    → e.now < c.last_connect_time + 4
    → init e c ≡ (c, 1)
unfolding init
init_limited e c n h = ground arith

-- A failure of `Init` with code 1 leaves no context, and success leaves a live one, unless the
-- context was freed before.
pub init_outcome :
    (e : World) (c : CacheConn)
    → c.context ≢ dangling
    → (((init e c).1 ≡ 0) → ((init e c).0.context ≡ live))
      × (((init e c).1 ≡ 1) → ((init e c).0.context ≡ null))
      × ((init e c).1 ≤ 2)
      × ((init e c).0.context ≢ dangling)
unfolding init
init_outcome e c h = ground arith

-- After a failed SELECT, which `Init` reports by 2, the next `Init` reports success at any time: the
-- context is kept, on the server's default database.
pub init_after_select_failed :
    (e later : World) (c : CacheConn)
    → (init e c).1 ≡ 2
    → init later (init e c).0 ≡ ((init e c).0, 0)
unfolding init
init_after_select_failed e later c h = ground arith

destroy_known :
    (c : CacheConn)
    → c.context ≢ dangling
    → (d : CacheConn) × (destroy c ≡ some d) × (d.context ≡ null)
unfolding destroy
destroy_known c h = pick c.context refl
  where
    pick :
        (x : Context) → c.context ≡ x → (d : CacheConn) × (destroy c ≡ some d) × (d.context ≡ null)
    pick null e = (c, simp (e, destroy) refl, e)
    pick live e = (record c { context = null }, rw (e, destroy) refl, refl)
    pick dangling e = absurd (h e)

-- The course of a command that drops its context after a null reply, on a connection whose context is
-- not dangling, never runs into undefined behaviour and leaves such a connection, whatever the network
-- does; its destructor then frees the context, if there is one, once.
pub perform_safe {ℓ} :
    {A : Type ℓ} (failed : A) (read : Reply → A) (e : World) (q : Command) (c : CacheConn)
    → c.context ≢ dangling
    → (r : A × CacheConn) × (perform drop_context failed read e q c ≡ some r)
      × (r.1.context ≢ dangling)
      × ((d : CacheConn) × (destroy r.1 ≡ some d) × (d.context ≡ null))
unfolding perform redis_command drop_context
perform_safe {A} failed read e q c h = elim (Bool-cases ((init e c).1 == 0)) [
  | inr bad ↦ ((failed, d), rw (bad, if◌then◌else◌) refl, o.3, destroy_known d o.3)
  | inl fine ↦
      let up = o.0 ((==_iff (init e c).1 0).0 fine) in
      rw (fine, if◌then◌else◌) (rw (up, redis_command) (answered (e.server q)))
]
  where
    d : CacheConn
    d = (init e c).0

    o :
        (((init e c).1 ≡ 0) → (d.context ≡ live))
        × (((init e c).1 ≡ 1) → (d.context ≡ null))
        × ((init e c).1 ≤ 2)
        × (d.context ≢ dangling)
    o = init_outcome e c h

    dropped : (drop_context d).context ≢ dangling
    dropped = λ n. cc

    answered :
        (a : Option Reply)
        → (r : A × CacheConn) × (Option.map (settle drop_context failed read d) (some a) ≡ some r)
          × (r.1.context ≢ dangling)
          × ((f : CacheConn) × (destroy r.1 ≡ some f) × (f.context ≡ null))
    answered none =
        ((failed, drop_context d), refl, dropped, destroy_known (drop_context d) dropped)
    answered (some r) = ((read r, d), refl, o.3, destroy_known d o.3)

-- After a null reply to EXISTS, on a connection with a context, the next `get` runs into undefined
-- behaviour, and so does the destructor.
pub is_exists_dangling :
    (e later : World) (key other : Text) (c : CacheConn)
    → c.context ≡ live
    → e.server (arguments (word (codes "EXISTS") ∷ word key ∷ [])) ≡ none
    → (d : CacheConn) × (is_exists e key c ≡ some (false, d))
      × (get later other d ≡ none)
      × (destroy d ≡ none)
unfolding is_exists get perform init redis_command free_context destroy
is_exists_dangling e later key other c h n =
    (free_context c, ground arith, ground arith, ground arith)

-- What `mget` finds for a key: the last string among the answers to it.
abbrev pub answer : Text → List Text → List Item → Option Text
answer k [] xs = none
answer k (j ∷ keys) [] = none
answer k (j ∷ keys) (x ∷ xs) =
    or_else (answer k keys xs)
      (if text_eq j k then (if is_string x.kind then some (c_string x.str) else none) else none)

-- With no more elements than keys `mget`'s loop stays within the keys, gives each key the string that
-- was answered, and leaves the other entries of the caller's map alone.
pub collect_lem :
    (keys : List Text) (xs : List Item) (m : Dict Text)
    → length xs ≤ length keys
    → (m' : Dict Text) × (collect keys xs m ≡ some m')
      × ((k : Text) → find k m' ≡ or_else (answer k keys xs) (find k m))
unfolding collect
collect_lem [] [] m h = (m, refl, λ k. refl)
collect_lem (j ∷ keys) [] m h = (m, refl, λ k. refl)
collect_lem [] (x ∷ xs) m h = absurd (omega arith)
collect_lem (j ∷ keys) (x ∷ xs) m h =
    let m₁ = if is_string x.kind then assign j (c_string x.str) m else m in
    let r = collect_lem keys xs m₁ (omega arith) in
    (r.0, r.1, λ k. r.2 k ∙ ground (arith, find-assign j k (c_string x.str) m))

-- The arguments of HMSET as a server would list them for HGETALL.
abbrev pub stored : List Argument → List Item
stored [] = []
stored (word t ∷ rest) = record { kind = reply_string; str = t } ∷ stored rest
stored (long z ∷ rest) = stored rest
stored (int z ∷ rest) = stored rest

-- A hash that `hmset` sends comes back as the same map from a server that lists the fields and
-- values that it was sent, added to what the caller's map held.
pub hmset-hget_all :
    (hash m : Dict Text) (k : Text)
    → find k (insert_pairs (stored (field_arguments hash)) m) ≡ or_else (find k m) (find k hash)
unfolding insert_pairs field_arguments find
hmset-hget_all [] m k = ground arith
hmset-hget_all ((f, v) ∷ hash) m k =
    ground (arith, hmset-hget_all hash (insert f v m) k, find-insert_any f k v m)
