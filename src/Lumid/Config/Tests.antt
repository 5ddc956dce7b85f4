-- ===== src/Lumid/Config/Tests.antt =====
-- A line and a file, parsed.
use lumi_os.Base.{
  lines, lines_from, ◌≡◌, ◌⊎◌, ◌++◌, replicate, refl, true, false, some, pos, neg, codes, is_empty,
  Text, is_space, skip_spaces, drop_trailing, split_at, strtoll, text_eq, arith,
}
use lumi_os.Lumid.Types.{Service, max_line_len, stopped, service_create}
use lumi_os.Lumid.Config.{parse_value, parse_service, key_bytes, overruns_key}
use lumi_os.Lumid.Config.Size.{parse_size}
use lumi_os.Lumid.Config.Value.{AllSpace, IsTrimmed, parse_value_lem}
use lumi_os.Lumid.Config.Bounds.{IsBounded}
use lumi_os.Lumid.Config.Keys.{KeysFit, parse_service-IsBounded}
use lumi_os.Lumid.Samples.{db}

size_512m : parse_size (codes "512M") ≡ some (pos 536_870_912)
unfolding parse_size strtoll
size_512m = refl

key-IsTrimmed : IsTrimmed (codes "exec")
unfolding drop_trailing is_space
key-IsTrimmed = record { first = refl; last = refl }

value-IsTrimmed : IsTrimmed (codes "/bin/a b=c")
unfolding drop_trailing is_space
value-IsTrimmed = record { first = refl; last = refl }

tab_and_blank : AllSpace (codes " \t")
unfolding is_space
tab_and_blank = (refl, (refl, tt))

blank : AllSpace (codes " ")
unfolding is_space
blank = (refl, tt)

newline : AllSpace (codes "\n")
unfolding is_space
newline = (refl, tt)

parse_value_lem_example :
    parse_value 256 (codes "exec \t= /bin/a b=c\n") ≡ some (codes "exec", codes "/bin/a b=c")
parse_value_lem_example =
    parse_value_lem 256 (codes "exec") (codes "/bin/a b=c") (codes " \t") (codes " ") (codes "\n")
      tab_and_blank blank newline (λ e. cc) (omega arith) key-IsTrimmed value-IsTrimmed
      (omega arith) (omega arith)

-- A unit file.
abbrev pub db_svc : Text
db_svc =
    codes "# database\n[service]\nname = db\nexec = /bin/true\n\n[restart]\npolicy = on-failure\n"

abbrev db_parsed : Service
db_parsed = record db { restart_count = 0; start_time = 0; state = stopped; pid = neg 1 }

db_svc_parses : parse_service db_svc service_create ≡ some db_parsed
unfolding parse_service service_create drop_trailing skip_spaces split_at text_eq is_space
    parse_value lines lines_from
db_svc_parses = refl

parse_service-IsBounded_example :
    ((¬ KeysFit (lines max_line_len db_svc)) × (overruns_key db_svc ≡ true))
    ⊎ (KeysFit (lines max_line_len db_svc)
        × (overruns_key db_svc ≡ false)
        × IsBounded db_parsed
        × (is_empty db_parsed.name ≡ false)
        × (is_empty db_parsed.exec_path ≡ false))
parse_service-IsBounded_example = parse_service-IsBounded db_svc db_parsed db_svc_parses

db_svc_fits : overruns_key db_svc ≡ false
unfolding overruns_key service_create drop_trailing skip_spaces split_at text_eq is_space
    parse_value key_bytes lines lines_from
db_svc_fits = refl

-- A key of 128 bytes leaves no room for its NUL.
long_key : overruns_key (replicate 128 b'k' ++ codes "=v\n") ≡ true
unfolding overruns_key service_create drop_trailing skip_spaces split_at text_eq is_space
    parse_value key_bytes lines lines_from
long_key = refl
