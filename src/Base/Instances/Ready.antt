-- ===== src/Base/Instances/Ready.antt =====
-- What the loop over the instances (db_proxy_server/CachePool.cc and DBPool.cc) leaves in the map.
use talk_system.Prelude.{
  ◌==◌, if◌then◌else◌, Text, eq_of_text_eq, text_eq, ℕ, zero, suc, ◌≡◌, refl, sym, ap, ◌∙◌, subst,
  inl, inr, Bool, true, false, Option, none, some, List, [], ◌∷◌, ◌++◌, map, append-nil, arith,
}
use talk_system.Prelude.Dict.{Dict, insert, find, or_else, find-insert_any}
use talk_system.Base.Instances.{add_pool, try_pool, init_slots, init, slots}
use talk_system.Base.Instances.Found.{
  IsSlot, Keeps, Found, FoundReady, AllUp, insert-Keeps, insert_known, Stopped, Stop, stop_none,
  CameUp, AllCameUp,
}

-- `IsReady` is what the `Init` of a pool promises of it.
module _ {S P : Type 0} (settings : Text → Option S) (make : Text → S → P × ℕ)
    (IsReady : Text → P → Type 0)
    (make-IsReady : (name : Text) (s : S)
      → (make name s).1 ≡ 0
      → IsReady name (make name s).0) where
  abbrev pub AllReady : Dict P → Type 0
  AllReady m = (k : Text) (p : P) → find k m ≡ some p → IsReady k p

  insert_ready :
      (name : Text) (p : P) (m : Dict P) → IsReady name p → AllReady m → AllReady (insert name p m)
  insert_ready name p m ready a k q e =
      settle (find k m) refl (text_eq name k) refl (sym (find-insert_any name k p m) ∙ e)
    where
      settle :
          (o : Option P)
          → find k m ≡ o
          → (b : Bool) → text_eq name k ≡ b
          → or_else o (if b then some p else none) ≡ some q
          → IsReady k q
      settle (some w) f b t g = a k q (f ∙ g)
      settle none f true t g =
          subst (λ n. IsReady n q) (eq_of_text_eq name k t)
            (let same : p ≡ q = cc in subst (IsReady name) same ready)
      settle none f false t g = cc

  -- What a turn of the loop does.
  abbrev Turn : Text → Dict P → ℕ → Type 0
  Turn name n zero = ((q : P) × (find name n ≡ some q)) × CameUp settings make name
  Turn name n (suc c) = Stopped settings make name (suc c)

  abbrev Round : Text → Dict P → Dict P × ℕ → Type 0
  Round name m (n, code) = AllReady n × Keeps m n × Turn name n code

  try_Round :
      (name : Text) (m : Dict P)
      → AllReady m
      → Round name m (try_pool settings make name m (settings name))
  try_Round name m a = pick (settings name) refl
    where
      pick : (o : Option S) → settings name ≡ o → Round name m (try_pool settings make name m o)
      pick none e = (a, λ k p f. f, inl (e, refl))
      pick (some s) e = add (make name s) refl
        where
          add : (o : P × ℕ) → make name s ≡ o → Round name m (add_pool settings make name m o)
          add (p, zero) f = (
            insert_ready name p m
                (subst (λ (u : P × ℕ). IsReady name u.0) f
                  (make-IsReady name s (ap (λ (u : P × ℕ). u.1) f)))
                a,
            insert-Keeps name p m,
            (insert_known name p m, (s, e, ap (λ (u : P × ℕ). u.1) f)),
          )
          add (p, suc n) f = (
            a,
            λ k p f. f,
            inr (s, e, (λ z. absurd (omega (arith, z, ap (λ (u : P × ℕ). u.1) f))), refl),
          )

  -- The outcome of the loop: the names that it passed have ready pools, and no other entry changed.
  pub record Outcome (ss : List (Option Text)) (m n : Dict P) (code : ℕ) : Type 0 where
    pub passed : List Text
    pub rest : List (Option Text)
    pub split : ss ≡ map some passed ++ rest
    pub ready : AllReady n
    pub keeps : Keeps m n
    pub found : Found n passed
    pub came_up : AllCameUp settings make passed
    pub stop : Stop settings make rest code

  pub init_slots_lem :
      (ss : List (Option Text)) (m n : Dict P) (code : ℕ)
      → AllReady m
      → init_slots settings make ss m ≡ some (n, code)
      → Outcome ss m n code
  unfolding init_slots
  init_slots_lem [] m n code a e =
      let same : m ≡ n = cc in
      record {
        passed = [];
        rest = [];
        split = refl;
        ready = subst AllReady same a;
        keeps = λ k p f. subst (λ d. find k d ≡ some p) same f;
        found = refl;
        came_up = tt;
        stop = cc;
      }
  init_slots_lem (none ∷ ss) m n code a e = cc
  init_slots_lem (some name ∷ ss) m n code a e =
      let t = try_pool settings make name m (settings name) in
      pick t (try_Round name m a) refl (λ d b f. init_slots_lem ss d n code b f)
    where
      pick :
          (t : Dict P × ℕ)
          → Round name m t
          → try_pool settings make name m (settings name) ≡ t
          → ((d : Dict P)
              → AllReady d
              → init_slots settings make ss d ≡ some (n, code)
              → Outcome ss d n code)
          → Outcome (some name ∷ ss) m n code
      pick (d, zero) turn f ih =
          let o = ih d turn.0 (
            ap
              (λ (u : Dict P × ℕ).
                if u.1 == 0 then init_slots settings make ss u.0 else some (u.0, u.1))
              (sym f)
            ∙ e) in
          record {
            passed = name ∷ o.passed;
            rest = o.rest;
            split = ap (◌∷◌ (some name)) o.split;
            ready = o.ready;
            keeps = λ k p g. o.keeps k p (turn.1 k p g);
            found = ((turn.2.0.0, o.keeps name turn.2.0.0 turn.2.0.1), o.found);
            came_up = (turn.2.1, o.came_up);
            stop = o.stop;
          }
      pick (d, suc c) turn f ih =
          let nz : (suc c == 0) ≡ false = ground arith in
          let same : ◌≡◌ {A = Option (Dict P × ℕ)} (some (d, suc c)) (some (n, code)) =
            sym (ap (λ b. if b then init_slots settings make ss d else some (d, suc c)) nz)
            ∙ ap
                (λ (u : Dict P × ℕ).
                  if u.1 == 0 then init_slots settings make ss u.0 else some (u.0, u.1))
                (sym f)
            ∙ e in
          let dn : d ≡ n = cc in
          let cn : suc c ≡ code = cc in
          record {
            passed = [];
            rest = some name ∷ ss;
            split = refl;
            ready = subst AllReady dn turn.0;
            keeps = λ k p g. subst (λ d. find k d ≡ some p) dn (turn.1 k p g);
            found = refl;
            came_up = tt;
            stop = subst (Stopped settings make name) cn turn.2;
          }

  -- The whole of `Init`.
  pub init_lem :
      (names : Text) (n : Dict P) (code : ℕ)
      → init settings make (some names) ≡ some (n, code)
      → Outcome (slots b',' names) [] n code
  unfolding init find
  init_lem names n code e = init_slots_lem (slots b',' names) [] n code (λ k p f. cc) e

  pub found_ready :
      (n : Dict P) (ks : List Text) → AllReady n → Found n ks → FoundReady IsReady n ks
  found_ready n [] a f = refl
  found_ready n (k ∷ ks) a f = ((f.0.0, f.0.1, a k f.0.0 f.0.1), found_ready n ks a f.1)

  slot_found :
      (k : Text) (n : Dict P) (ks : List Text)
      → IsSlot k (map some ks)
      → Found n ks
      → (q : P) × (find k n ≡ some q)
  slot_found k n [] h f = absurd h
  slot_found k n (j ∷ ks) (inl e) f =
      let same : j ≡ k = cc in (f.0.0, subst (λ i. find i n ≡ some f.0.0) same f.0.1)
  slot_found k n (j ∷ ks) (inr h) f = slot_found k n ks h f.1

  -- When `Init` succeeds, every slot has a ready pool.
  pub init-IsReady :
      (names : Text) (n : Dict P)
      → init settings make (some names) ≡ some (n, 0)
      → (k : Text) → IsSlot k (slots b',' names)
      → (q : P) × (find k n ≡ some q) × IsReady k q
  init-IsReady names n e k h =
      let o = init_lem names n 0 e in
      let all : slots b',' names ≡ map some o.passed =
        o.split
        ∙ ap (λ r. map some o.passed ++ r) (stop_none settings make o.rest o.stop)
        ∙ append-nil (map some o.passed) in
      let f = slot_found k n o.passed (subst (IsSlot k) all h) o.found in
      (f.0, f.1, o.ready k f.0 f.1)

  pub init_all :
      (o : Option Text) (n : Dict P) → init settings make o ≡ some (n, 0) → AllUp IsReady o n
  unfolding init
  init_all none n e = cc
  init_all (some names) n e =
      let o = init_lem names n 0 e in
      let all : slots b',' names ≡ map some o.passed =
        o.split
        ∙ ap (λ r. map some o.passed ++ r) (stop_none settings make o.rest o.stop)
        ∙ append-nil (map some o.passed) in
      (names, refl, o.passed, all, found_ready n o.passed o.ready o.found)
