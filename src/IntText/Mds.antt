-- ===== src/IntText/Mds.antt =====
-- crates/btr-types/src/parser/mds.rs: the settings file.
use mathlib.Core.List.{reverse}
use wx_btrieve_sql_driver.Base.{
  Bool, List, Option, Str, [], any, codes, drop, drop_while, if◌then◌else◌, is_empty, keep, none,
  not, some, str_eq, take_while, to_ascii_uppercase, trim, true, ◌&&◌, ◌==◌, ◌||◌, ◌∷◌,
}
use wx_btrieve_sql_driver.IntText.Lines.{lines}

pub record MdsConfig : Type 0 where
  pub server : Str
  pub database : Str
  pub schema : Str
  pub user : Str
  pub password : Str
  pub int_path : Str

abbrev pub empty_config : MdsConfig
empty_config = record {
  server = [];
  database = [];
  schema = [];
  user = [];
  password = [];
  int_path = [];
}

-- `split_once('=')`
abbrev has_equals : Str → Bool
has_equals line = any (λ c. c == 61) line

abbrev before_equals : Str → Str
before_equals line = take_while (λ c. not (c == 61)) line

abbrev after_equals : Str → Str
after_equals line = drop 1 (drop_while (λ c. not (c == 61)) line)

-- The name in `[..]`, of a line of two characters or more.
abbrev in_brackets : Str → Option Str
in_brackets [] = none
in_brackets (c ∷ cs) =
    if c == 91
    then (elim (reverse cs) [ [] ↦ none | d ∷ ds ↦ if d == 93 then some (reverse ds) else none ])
    else none

-- A setting that is kept if it is there already.
abbrev first_wins : Str → Str → Str
first_wins old val = if is_empty old then val else old

unfoldable pub set_mds : MdsConfig → Str → Str → MdsConfig
set_mds cfg key val =
    if str_eq key (codes "SERVER")
    then record cfg { server = first_wins cfg.server val }
    else if str_eq key (codes "DATABASE")
    then record cfg { database = first_wins cfg.database val }
    else if str_eq key (codes "SCHEMA")
    then record cfg { schema = first_wins cfg.schema val }
    else if str_eq key (codes "USER")
    then record cfg { user = first_wins cfg.user val }
    else if str_eq key (codes "PASSWORD")
    then record cfg { password = first_wins cfg.password val }
    else cfg

unfoldable pub set_in : Str → MdsConfig → Str → Str → MdsConfig
unfolding set_mds
set_in section cfg key val =
    if any (str_eq section) (codes "MDS" ∷ codes "SQL_BTR" ∷ codes "SQL" ∷ [])
    then set_mds cfg key val
    else if str_eq section (codes "INT") && str_eq key (codes "PATH")
    then record cfg { int_path = val }
    else cfg

abbrev is_ignored : Str → Bool
is_ignored [] = true
is_ignored (c ∷ cs) = c == 59 || c == 35

-- One line, which is trimmed: the settings, and the section that the next line is in.
unfoldable pub mds_line : Str → MdsConfig → Str → MdsConfig × Str
unfolding set_in trim
mds_line line cfg section = if is_ignored line then (cfg, section) else elim (in_brackets line) [
  | some name ↦ (cfg, to_ascii_uppercase (trim name))
  | none ↦
      if has_equals line
      then (
        set_in section cfg (to_ascii_uppercase (trim (before_equals line)))
            (trim (after_equals line)),
        section,
      )
      else (cfg, section)
]

unfoldable pub mds_loop : List Str → MdsConfig → Str → MdsConfig
unfolding mds_line
mds_loop [] cfg section = cfg
mds_loop (raw ∷ raws) cfg section =
    let (cfg', section') = mds_line (trim raw) cfg section in mds_loop raws cfg' section'

-- `parse`, which drops every byte order mark.
unfoldable pub parse_mds : Str → MdsConfig
unfolding mds_loop
parse_mds input = mds_loop (lines (keep (λ c. not (c == 0xFEFF)) input)) empty_config []
