-- ===== src/LogFmt.antt =====
-- logfmt/handler.go: the handler that writes the program's log lines, and the level that main.go gives
-- it. A level is an integer, in slog's scale: debug -4, info 0, warn 4, error 8; the value of an attribute
-- is its `%v`. The mutex makes a write one step.
pub mod Attrs
use contract_review_ai_agent.Common.{
  ℤ, pos, negsuc, leb_ℤ, String, ◌<>◌, Bool, List, [], ◌∷◌, ◌++◌, Go, ◌==◌, str_eq, if◌then◌else◌,
}

pub record Attr : Type 0 where
  pub key : String
  pub value : String

-- `slog.Record`, without its time and place
pub record LogRecord : Type 0 where
  pub level : ℤ
  pub message : String
  pub attrs : List Attr

pub record Handler (W : Type 0) : Type 0 where
  pub write : String → Go W (Unit {0})
  pub level : ℤ
  pub pre_attrs : List Attr

abbrev pub level_debug : ℤ
level_debug = negsuc 3

abbrev pub level_info : ℤ
level_info = pos 0

abbrev pub level_warn : ℤ
level_warn = pos 4

abbrev pub level_error : ℤ
level_error = pos 8

unfoldable pub log_level : String → ℤ
log_level s =
    if str_eq s "debug"
    then level_debug
    else if str_eq s "warn"
    then level_warn
    else if str_eq s "error"
    then level_error
    else level_info

-- What stands in front of the message; a level that is none of the four is an error's.
level_prefix : ℤ → String
level_prefix (negsuc n) = if n == 3 then "    " else "ERROR "
level_prefix (pos n) = if n == 0 then "" else if n == 4 then "WARN  " else "ERROR "

write_attrs : String → List Attr → String
write_attrs b [] = b
write_attrs b (a ∷ attrs) = write_attrs (b <> "   " <> a.key <> "=" <> a.value) attrs

module _ {W : Type 0} where
  unfoldable pub new_handler : (String → Go W (Unit {0})) → ℤ → Handler W
  new_handler write level = record { write = write; level = level; pre_attrs = [] }

  unfoldable pub enabled : Handler W → ℤ → Bool
  enabled h level = leb_ℤ h.level level

  unfoldable pub handle : Handler W → LogRecord → Go W (Unit {0})
  unfolding level_prefix write_attrs
  handle h r =
      h.write
        (write_attrs (write_attrs (level_prefix r.level <> r.message) h.pre_attrs) r.attrs <> "\n")

  unfoldable pub with_attrs : List Attr → Handler W → Handler W
  with_attrs attrs h = record { write = h.write; level = h.level; pre_attrs = h.pre_attrs ++ attrs }

  unfoldable pub with_group : String → Handler W → Handler W
  with_group name h = h
