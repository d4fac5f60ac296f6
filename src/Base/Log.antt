-- ===== src/Base/Log.antt =====
-- common/base/Logger.h and Logger.cc: the one logger, and the macros that write to it. The time, and
-- the message that snprintf makes, are arguments.
use talk_system.Prelude.{
  if◌then◌else◌, take, Text, codes, ◌≡◌, refl, sym, ◌∙◌, Bool, true, false, ◌||◌, List, [], ◌∷◌,
  ◌++◌, append-nil, append_assoc,
}

pub data LogLevel : Type 0 where
  info error fatal debug : LogLevel

pub record Logger : Type 0 where
  pub log_level : LogLevel
  -- What went to `std::cout`, a line each.
  pub lines : List Text
  -- Whether `exit` was called.
  pub exited : Bool

unfoldable pub set_log_level : LogLevel → Logger → Logger
set_log_level level l = record l { log_level = level }

abbrev pub prefix : LogLevel → Text
prefix info = codes "[INFO]"
prefix error = codes "[ERROR]"
prefix fatal = codes "[FATAL]"
prefix debug = codes "[DEBUG]"

abbrev pub line : LogLevel → Text → Text → Text
line level now msg = prefix level ++ (now ++ (codes " : " ++ msg))

unfoldable pub log : Text → Text → Logger → Logger
log now msg l = record l { lines = l.lines ++ line l.log_level now msg ∷ [] }

-- A use of LOG_INFO, LOG_ERROR, LOG_FATAL or LOG_DEBUG, with the time and the formatted message.
pub record Entry : Type 0 where
  pub level : LogLevel
  pub now : Text
  pub text : Text

-- The body of the macros: the buffer has 1024 bytes.
unfoldable pub write_entry : Entry → Logger → Logger
write_entry e l = log e.now (take 1023 e.text) (set_log_level e.level l)

-- The macros; `mudebug` says whether MUDEBUG is defined. LOG_FATAL ends the process.
unfoldable pub log_entry : Bool → LogLevel → Entry → Logger → Logger
log_entry mudebug info e l = write_entry e l
log_entry mudebug error e l = write_entry e l
log_entry mudebug fatal e l = record (write_entry e l) { exited = true }
log_entry mudebug debug e l = if mudebug then write_entry e l else l

-- A process that logs, until it ends.
unfoldable pub run : Bool → List Entry → Logger → Logger
run mudebug [] l = l
run mudebug (e ∷ es) l =
    let m = log_entry mudebug e.level e l in
    let rest = run mudebug es m in if m.exited then m else rest

abbrev pub is_fatal : LogLevel → Bool
is_fatal fatal = true
is_fatal _ = false

abbrev pub is_shown : Bool → LogLevel → Bool
is_shown mudebug debug = mudebug
is_shown mudebug _ = true

-- The entries up to the first fatal one, each under its own level.
abbrev pub up_to_fatal : List Entry → List Entry
up_to_fatal [] = []
up_to_fatal (e ∷ es) = let rest = up_to_fatal es in if is_fatal e.level then e ∷ [] else e ∷ rest

abbrev pub texts : Bool → List Entry → List Text
texts mudebug [] = []
texts mudebug (e ∷ es) =
    let rest = texts mudebug es in
    if is_shown mudebug e.level then line e.level e.now (take 1023 e.text) ∷ rest else rest

abbrev pub any_fatal : List Entry → Bool
any_fatal [] = false
any_fatal (e ∷ es) = is_fatal e.level || any_fatal es

-- What a run has written and whether it has ended.
record Wrote (mudebug : Bool) (es : List Entry) (l m : Logger) : Type 0 where
  wrote_lines : m.lines ≡ l.lines ++ texts mudebug (up_to_fatal es)
  ended : m.exited ≡ any_fatal es

if-Wrote :
    (mudebug : Bool) (es : List Entry) (l : Logger) (b : Bool)
    → b ≡ false
    → (x y : Logger) → Wrote mudebug es l y
    → Wrote mudebug es l (if b then x else y)
if-Wrote mudebug es l true h x y w = cc
if-Wrote mudebug es l false h x y w = w

run-shown :
    (mudebug : Bool) (e : Entry) (es : List Entry) (l : Logger)
    → l.exited ≡ false
    → is_fatal e.level ≡ false
    → is_shown mudebug e.level ≡ true
    → Wrote mudebug es (write_entry e l) (run mudebug es (write_entry e l))
    → Wrote mudebug
        (e ∷ es)
        l
        (if (write_entry e l).exited then write_entry e l else run mudebug es (write_entry e l))
unfolding write_entry log set_log_level
run-shown mudebug e es l h f s ih = if-Wrote mudebug (e ∷ es) l l.exited h _ _ (record {
  wrote_lines =
      ih.wrote_lines
      ∙ append_assoc l.lines (line e.level e.now (take 1023 e.text) ∷ [])
          (texts mudebug (up_to_fatal es))
      ∙ rw (f, if◌then◌else◌) (rw (s, if◌then◌else◌) refl);
  ended = ih.ended ∙ rw f refl;
})

run-Wrote :
    (mudebug : Bool) (es : List Entry) (l : Logger)
    → l.exited ≡ false
    → Wrote mudebug es l (run mudebug es l)
unfolding run log_entry write_entry log set_log_level
run-Wrote mudebug [] l h = record { wrote_lines = sym (append-nil l.lines); ended = h }
run-Wrote mudebug (e ∷ es) l h = pick mudebug e.level e.now e.text (λ m z. run-Wrote mudebug es m z)
  where
    pick :
        (b : Bool) (v : LogLevel) (now text : Text)
        → ((m : Logger) → m.exited ≡ false → Wrote b es m (run b es m))
        → let e : Entry = record { level = v; now = now; text = text } in
          Wrote b (e ∷ es) l (run b (e ∷ es) l)
    pick b info now text ih =
        run-shown b (record { level = info; now = now; text = text }) es l h refl refl (ih _ h)
    pick b error now text ih =
        run-shown b (record { level = error; now = now; text = text }) es l h refl refl (ih _ h)
    pick b fatal now text ih = record { wrote_lines = refl; ended = refl }
    pick true debug now text ih =
        run-shown true (record { level = debug; now = now; text = text }) es l h refl refl (ih _ h)
    pick false debug now text ih =
        if-Wrote false (_ ∷ es) l l.exited h _ _
          (record { wrote_lines = (ih l h).wrote_lines; ended = (ih l h).ended })

-- A process with one thread writes a line for each use of a macro up to the first LOG_FATAL, that one
-- included and LOG_DEBUG only with MUDEBUG, in order, each with the prefix of its own level and the
-- first 1023 bytes of its message; and it has ended exactly if there was a LOG_FATAL.
pub run-texts :
    (mudebug : Bool) (es : List Entry) (l : Logger)
    → l.exited ≡ false
    → ((run mudebug es l).lines ≡ l.lines ++ texts mudebug (up_to_fatal es))
      × ((run mudebug es l).exited ≡ any_fatal es)
run-texts mudebug es l h = let w = run-Wrote mudebug es l h in (w.wrote_lines, w.ended)
