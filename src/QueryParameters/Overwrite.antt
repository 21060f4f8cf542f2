-- ===== src/QueryParameters/Overwrite.antt =====
-- query_parameters.py `validate_insert_overwrite_variable_sets`: the variable sets of one
-- insert_overwrite, one for each partition bucket. The `datetime` module's parsing of ISO texts and
-- its `strftime` are parameters; a decimal digit of the two patterns is an ASCII digit here.
use dbt_bigquery_ext.Prelude.{
  Bool, true, false, Option, none, some, List, [], ◌∷◌, Text, codes, text_eq, member, lower, strip,
  replace_char, leb, ◌==◌, ◌||◌, ◌&&◌, not, if◌then◌else◌,
}
use dbt_bigquery_ext.Prelude.Checked.{Checked, good, bad, ◌>>=◌, ◌>>◌, require}
use dbt_bigquery_ext.Prelude.Dicts.{Dict, lookup}
use dbt_bigquery_ext.QueryParameters.Values.{
  Date, DateTime, PyValue, datetime, date, str, ParamError, VariableSet, infer_scalar_type,
  explicit_types,
}

-- Each `raise` on the path, without its message; `value_error` is the one that `date.fromisoformat`
-- raises of itself.
pub data OverwriteError : Type 0 where
  no_field bad_data_type bad_granularity hour_of_date no_sets : OverwriteError
  not_a_mapping not_one_key other_key bad_parameter_type : OverwriteError
  not_a_time date_only bad_datetime value_error : OverwriteError
  inferred : ParamError → OverwriteError

-- What the code takes from `datetime`; `none` is a ValueError.
pub record Calendar : Type 0 where
  pub date_fromisoformat : Text → Option Date
  pub datetime_fromisoformat : Text → Option DateTime
  pub strftime : Text → DateTime → Text

-- An element of the list of sets.
pub data Entry : Type 0 where
  mapping : VariableSet → Entry
  other_value : Entry

-- The rest of a text after a pattern in which `d` stands for a digit.
unfoldable pub after : Text → Text → Option Text
after [] t = some t
after (p ∷ ps) [] = none
after (p ∷ ps) (c ∷ t) =
    let rest = after ps t in
    if (if p == b'd' then leb b'0' c && leb c b'9' else c == p) then rest else none

abbrev all_digits : Text → Bool
all_digits [] = true
all_digits (c ∷ t) = (leb b'0' c && leb c b'9') && all_digits t

-- `(\.\d+)?$`
abbrev is_fraction : Text → Bool
is_fraction [] = true
is_fraction (c ∷ []) = false
is_fraction (c ∷ d ∷ t) = (c == b'.') && all_digits (d ∷ t)

-- `(:\d{2}(\.\d+)?)?$`
abbrev is_seconds : Text → Bool
is_seconds [] = true
is_seconds (c ∷ t) = elim (after (codes ":dd") (c ∷ t)) [
  | none ↦ false
  | some rest ↦ is_fraction rest
]

-- `([ T]\d{2}:\d{2}...)?$`
abbrev is_clock : Text → Bool
is_clock [] = true
is_clock (c ∷ t) = elim (after (codes "dd:dd") t) [
  | none ↦ false
  | some rest ↦ ((c == b' ') || (c == b'T')) && is_seconds rest
]

abbrev is_empty : Option Text → Bool
is_empty none = false
is_empty (some []) = true
is_empty (some (c ∷ t)) = false

-- `_ISO_DATE_RE.match` and `_ISO_DATETIME_RE.match`.
unfoldable pub is_iso_date : Text → Bool
unfolding after
is_iso_date t = is_empty (after (codes "dddd-dd-dd") t)

unfoldable pub is_iso_datetime : Text → Bool
unfolding after
is_iso_datetime t = elim (after (codes "dddd-dd-dd") t) [ none ↦ false | some rest ↦ is_clock rest ]

abbrev pub is_date : PyValue → Bool
is_date (date d) = true
is_date _ = false

abbrev pub is_date_text : PyValue → Bool
is_date_text (str s) = is_iso_date (strip s)
is_date_text _ = false

abbrev at_midnight : Date → DateTime
at_midnight d = record {
  date = d;
  hour = 0;
  minute = 0;
  second = 0;
  microsecond = 0;
  aware = false;
}

abbrev midnight_or_raise : Option Date → Checked OverwriteError DateTime
midnight_or_raise none = bad value_error
midnight_or_raise (some d) = good (at_midnight d)

abbrev time_or_raise : Option DateTime → Checked OverwriteError DateTime
time_or_raise none = bad bad_datetime
time_or_raise (some d) = good d

abbrev pub hour_text : Text
hour_text = codes "hour"

abbrev pub day_text : Text
day_text = codes "day"

abbrev pub month_text : Text
month_text = codes "month"

abbrev pub year_text : Text
year_text = codes "year"

module _ (cal : Calendar) where
  unfoldable pub parse_partition_param_value : PyValue → Checked OverwriteError DateTime
  parse_partition_param_value (datetime d) = good (record {
    date = d.date;
    hour = d.hour;
    minute = d.minute;
    second = d.second;
    microsecond = d.microsecond;
    aware = false;
  })
  parse_partition_param_value (date d) = good (at_midnight d)
  parse_partition_param_value (str s) =
      if is_iso_date (strip s)
      then midnight_or_raise (cal.date_fromisoformat (strip s))
      else if is_iso_datetime (strip s)
      then time_or_raise (cal.datetime_fromisoformat (replace_char b' ' (codes "T") (strip s)))
      else bad not_a_time
  parse_partition_param_value _ = bad not_a_time

  unfoldable pub partition_bucket_key : PyValue → Text → Checked OverwriteError Text
  unfolding parse_partition_param_value
  partition_bucket_key value granularity = do
    dt ← parse_partition_param_value value
    if text_eq (lower granularity) hour_text
        then good (cal.strftime (codes "%Y-%m-%dT%H") dt)
        else if text_eq (lower granularity) day_text
        then good (cal.strftime (codes "%Y-%m-%d") dt)
        else if text_eq (lower granularity) month_text
        then good (cal.strftime (codes "%Y-%m") dt)
        else if text_eq (lower granularity) year_text
        then good (cal.strftime (codes "%Y") dt)
        else bad bad_granularity

-- The sole key of an entry, and its value.
abbrev pub sole : Entry → Checked OverwriteError (Text × PyValue)
sole (mapping (x ∷ [])) = good x
sole (mapping []) = bad not_one_key
sole (mapping (x ∷ y ∷ d)) = bad not_one_key
sole other_value = bad not_a_mapping

abbrev pub same_name : Option Text → Text → Bool
same_name none name = true
same_name (some param_name) name = text_eq name param_name

abbrev inferred_type : Checked ParamError Text → Checked OverwriteError Text
inferred_type (good t) = good t
inferred_type (bad e) = bad (inferred e)

abbrev declared_type : Option Text → PyValue → Checked OverwriteError Text
declared_type (some t) value = good t
declared_type none value = inferred_type (infer_scalar_type value)

abbrev parameter_types : List Text
parameter_types = codes "DATE" ∷ codes "STRING" ∷ codes "TIMESTAMP" ∷ codes "DATETIME" ∷ []

module _ (cal : Calendar) (type_map : Dict Text) (gran : Text) where
  -- The checks of one parameter, and its bucket.
  unfoldable pub bucket_of : Text × PyValue → Checked OverwriteError Text
  unfolding partition_bucket_key infer_scalar_type
  bucket_of (name, value) = do
    declared ← declared_type (lookup name type_map) value
    require (member declared parameter_types) bad_parameter_type
    parsed ← parse_partition_param_value cal value
    require (not (text_eq gran hour_text && is_date value)) date_only
    require (not (text_eq gran hour_text && is_date_text value)) date_only
    partition_bucket_key cal value gran

  -- The loop over the sets, from the name of the earlier ones and the buckets that were seen.
  unfoldable pub dedupe_sets :
      Option Text → List Text → List Entry → Checked OverwriteError (List VariableSet)
  unfolding bucket_of
  dedupe_sets param_name seen [] = good []
  dedupe_sets param_name seen (e ∷ es) = do
    x ← sole e
    require (same_name param_name x.0) other_key
    bucket ← bucket_of x
    rest ← dedupe_sets (some x.0) (if member bucket seen then seen else bucket ∷ seen) es
    good (if member bucket seen then rest else (x ∷ []) ∷ rest)

-- `str(x or d).strip().lower()`
abbrev pub word_or : Text → Option Text → Text
word_or d none = lower (strip d)
word_or d (some []) = lower (strip d)
word_or d (some (c ∷ t)) = lower (strip (c ∷ t))

-- A `str` that is not blank.
abbrev pub is_field : Option Text → Bool
is_field none = false
is_field (some t) = elim (strip t) [ [] ↦ false | ◌∷◌ c s ↦ true ]

-- A sequence that is not empty.
abbrev pub some_sets : Option (List Entry) → Checked OverwriteError (List Entry)
some_sets none = bad no_sets
some_sets (some []) = bad no_sets
some_sets (some (e ∷ es)) = good (e ∷ es)

abbrev pub some_result : List VariableSet → Checked OverwriteError (List VariableSet)
some_result [] = bad no_sets
some_result (s ∷ ss) = good (s ∷ ss)

pub record OverwriteArgs : Type 0 where
  pub values : Option (List Entry)
  pub types : Option (Dict Text)
  pub partition_field : Option Text
  pub data_type : Option Text
  pub granularity : Option Text

-- The field, the data type and the granularity of `partition_by`.
unfoldable pub check_partition_by : OverwriteArgs → Checked OverwriteError (Unit {0})
check_partition_by a = do
  require (is_field a.partition_field) no_field
  let dtype = word_or (codes "date") a.data_type
  let gran = word_or (codes "day") a.granularity
  require (member dtype (codes "date" ∷ codes "timestamp" ∷ codes "datetime" ∷ [])) bad_data_type
  require (member gran (hour_text ∷ day_text ∷ month_text ∷ year_text ∷ [])) bad_granularity
  require (not (text_eq gran hour_text && text_eq dtype (codes "date"))) hour_of_date

unfoldable pub validate_insert_overwrite_variable_sets :
    Calendar → OverwriteArgs → Checked OverwriteError (List VariableSet)
unfolding check_partition_by dedupe_sets
validate_insert_overwrite_variable_sets cal a = do
  check_partition_by a
  values ← some_sets a.values
  deduped ←
      dedupe_sets cal (explicit_types a.types) (word_or (codes "day") a.granularity) none [] values
  some_result deduped
