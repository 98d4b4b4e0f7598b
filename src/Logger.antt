-- ===== src/Logger.antt =====
-- logger/logger.c: the filter on the level, and where a message goes.
--
-- A message is its text as `vfprintf` makes it, and the time is what `localtime_r` gives; both are
-- arguments. `stderr` and the file are the lists of the lines that were written.
use operation_systems.Base.{
  ℕ, ◌≡◌, ◌∙◌, sym, subst, inl, inr, Bool, false, List, [], ◌∷◌, ◌++◌, ltb, if◌then◌else◌, if_true,
  if_false, Bool-cases, append_assoc, append-nil, arith,
}

-- `log_level_t`
pub data Level : Type 0 where
  log_error log_info log_debug : Level

abbrev pub number : Level → ℕ
number log_error = 0
number log_info = 1
number log_debug = 2

-- A line: the time, the level that the tag names, and the text.
pub record Line : Type 0 where
  pub time : ℕ
  pub level : Level
  pub text : List ℕ

-- `g_level` and `g_log_file`, with what was written.
pub record Logger : Type 0 where
  pub level : Level
  pub file_open : Bool
  pub stderr : List Line
  pub file : List Line

-- `opens` is whether `fopen` succeeds; the file is opened to append.
abbrev pub logger_init : Level → Bool → Logger → Logger
logger_init level opens s = record s { level = level; file_open = opens }

abbrev pub logger_finalize : Logger → Logger
logger_finalize s = record s { file_open = false }

unfoldable pub vlog_internal : Line → Logger → Logger
vlog_internal line s = if ltb (number s.level) (number line.level) then s else record s {
  stderr = s.stderr ++ (line ∷ []);
  file = if s.file_open then s.file ++ (line ∷ []) else s.file;
}

-- A run of calls of `log_error`, `log_info` and `log_debug`.
unfoldable pub log_all : List Line → Logger → Logger
unfolding vlog_internal
log_all [] s = s
log_all (line ∷ lines) s = log_all lines (vlog_internal line s)

-- The lines of a level that is not above the one that was set.
abbrev pub passed : Level → List Line → List Line
passed level [] = []
passed level (line ∷ lines) =
    let rest = passed level lines in
    if ltb (number level) (number line.level) then rest else line ∷ rest

-- The file gets the lines if it is open.
abbrev added : Logger → List Line → List Line
added s new = if s.file_open then s.file ++ new else s.file

abbrev Writes : List Line → Logger → Logger → Type 0
Writes new s t = (t.stderr ≡ s.stderr ++ new) × (t.file ≡ added s new)

-- The state behind a line that passes.
abbrev wrote : Line → Logger → Logger
wrote line s = record s {
  stderr = s.stderr ++ (line ∷ []);
  file = if s.file_open then s.file ++ (line ∷ []) else s.file;
}

wrote-Writes :
    (line : Line) (new : List Line) (s t : Logger)
    → Writes new (wrote line s) t
    → Writes (line ∷ new) s t
wrote-Writes line new s t (e, f) = (
  e ∙ append_assoc s.stderr (line ∷ []) new,
  f ∙ ground (arith, append_assoc s.file (line ∷ []) new),
)

log_all-Writes :
    (lines : List Line) (s : Logger) → Writes (passed s.level lines) s (log_all lines s)
unfolding log_all
log_all-Writes [] s = (sym (append-nil s.stderr), ground (arith, append-nil s.file))
log_all-Writes (line ∷ lines) s = elim (Bool-cases (ltb (number s.level) (number line.level))) [
  | inl above ↦
      subst (λ (t : Logger). Writes (passed s.level (line ∷ lines)) s (log_all lines t))
        (if_true s (wrote line s) above)
        (subst (λ (new : List Line). Writes new s (log_all lines s)) (if_true _ _ above)
          (log_all-Writes lines s))
  | inr below ↦
      subst (λ (t : Logger). Writes (passed s.level (line ∷ lines)) s (log_all lines t))
        (if_false s (wrote line s) below)
        (subst (λ (new : List Line). Writes new s (log_all lines (wrote line s)))
          (if_false _ _ below)
          (wrote-Writes line (passed s.level lines) s (log_all lines (wrote line s))
            (log_all-Writes lines (wrote line s))))
]

-- A run of calls writes the lines whose level is not above the one that was set, each once and in
-- order, to `stderr`, and the same lines to the file if it is open, behind what was there.
pub log_all_lem :
    (lines : List Line) (s : Logger)
    → ((log_all lines s).stderr ≡ s.stderr ++ passed s.level lines)
      × ((log_all lines s).file ≡ (if s.file_open then s.file ++ passed s.level lines else s.file))
log_all_lem lines s = log_all-Writes lines s
